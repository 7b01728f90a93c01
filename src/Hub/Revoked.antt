-- ===== src/Hub/Revoked.antt =====
-- internal/ws/subscribe.go: a change of grants reaches every subscription of the instance.
use valmin.Shared.{
  ◌≡◌, sym, ap, inl, inr, Bool, true, false, List, [], ◌∷◌, some, Text, text_eq, text_eq_iff, In,
  Bool-cases,
}
use valmin.Topics.{Topic, action_of}
use valmin.Hub.{Subscription, Conn, holds, topic_eq, forbidden}
use valmin.Hub.Subscribing.{Panel, affected, recheck, recheck_each, drop_told, drop, without}
use valmin.Hub.Moves.{Thinned-In, keys, Moves, deliver_raw-Moves, some_injective}
use valmin.Hub.Ended.{and_then-some, recheck_each-Moves, count_recheck}
use valmin.Hub.Registering.{topic_eq_iff}
use valmin.Hub.Bounds.{topics}

-- Every subscription of the instance passes `Can`.
abbrev pub Allowed : Panel → Text → Conn → Type 0
Allowed p id c = (t : Topic) → In (t, id) (keys c.subs) → p.can (action_of t) id ≡ true

In-topics : (t : Topic) (id : Text) (ks : List (Topic × Text)) → In (t, id) ks → In t (topics ks)
In-topics t id [] i = i
In-topics t id (k ∷ ks) (inl e) = inl (ap (λ (x : Topic × Text). x.0) e)
In-topics t id (k ∷ ks) (inr i) = inr (In-topics t id ks i)

topics-In : (t : Topic) (ks : List (Topic × Text)) → In t (topics ks) → (id : Text) × In (t, id) ks
topics-In t [] i = absurd i
topics-In t ((u, j) ∷ ks) (inl e) = (j, inl (ap (λ (x : Topic). (x, j)) e))
topics-In t ((u, j) ∷ ks) (inr i) = let (id, h) = topics-In t ks i in (id, inr h)

Moves-topics :
    {c d : Conn} (t : Topic) → Moves c d → In t (topics (keys d.subs)) → In t (topics (keys c.subs))
Moves-topics {c} {d} t m i =
    let (id, h) = topics-In t (keys d.subs) i in
    In-topics t id (keys c.subs) (Thinned-In (t, id) m.thinner h)

-- A topic that was dropped is not held.
not-In-without : (t : Topic) (subs : List Subscription) → ¬ In t (topics (keys (without t subs)))
unfolding without
not-In-without t [] i = i
not-In-without t (sub ∷ subs) i = elim (Bool-cases (topic_eq sub.topic t)) [
  | inl e ↦ not-In-without t subs (rw e at i)
  | inr e ↦ elim (rw e at i) [
    | inl q ↦ cc ((topic_eq_iff sub.topic t).1 (sym q), e)
    | inr j ↦ not-In-without t subs j
  ]
]

drop_told-gone :
    (pick : Bool) (t : Topic) (c d : Conn)
    → drop_told pick t forbidden c ≡ some d
    → ¬ In t (topics (keys d.subs))
unfolding drop_told drop
drop_told-gone pick t c d e i = elim (Bool-cases (holds t c)) [
  | inl h ↦
      not-In-without t c.subs (Moves-topics t (deliver_raw-Moves pick _ (drop t c) d (rw h at e)) i)
  | inr h ↦
      let q : record c { subs = without t c.subs } ≡ d = some_injective _ d (rw h at e) in
      not-In-without t c.subs (rw (← q) at i)
]

-- The loop leaves no subscription that it is given and that is denied.
recheck_each-gone :
    (p : Panel) (pick : Bool) (id : Text) (subs : List Subscription) (c d : Conn) (t : Topic)
    → recheck_each p pick id subs c ≡ some d
    → In t (topics (keys subs))
    → p.can (action_of t) id ≡ false
    → ¬ In t (topics (keys d.subs))
unfolding recheck_each
recheck_each-gone p pick id [] c d t e i n = absurd i
recheck_each-gone p pick id (sub ∷ subs) c d t e i n =
    elim (Bool-cases (p.can (action_of sub.topic) id)) [
      | inl h ↦ elim i [
        | inl q ↦ cc (q, h, n)
        | inr j ↦ recheck_each-gone p pick id subs c d t (rw h at e) j n
      ]
      | inr h ↦
          let (b, f, g) =
            and_then-some (drop_told pick sub.topic forbidden c) (recheck_each p pick id subs) d
              (rw h at e) in
          elim i [
            | inl q ↦ λ k.
                drop_told-gone pick sub.topic c b f
                  (Moves-topics sub.topic (recheck_each-Moves p pick id subs b d g) (rw q at k))
            | inr j ↦ recheck_each-gone p pick id subs b d t g j n
          ]
    ]

In-affected :
    (t : Topic) (id : Text) (subs : List Subscription)
    → In (t, id) (keys subs)
    → In t (topics (keys (affected id subs)))
unfolding affected
In-affected t id [] i = i
In-affected t id (sub ∷ subs) i = elim (Bool-cases (text_eq sub.instance_id id)) [
  | inl e ↦ rw e (elim i [
    | inl q ↦ inl (ap (λ (x : Topic × Text). x.0) q)
    | inr j ↦ inr (In-affected t id subs j)
  ])
  | inr e ↦ rw e (elim i [
    | inl q ↦ cc ((text_eq_iff sub.instance_id id).1 (sym (ap (λ (x : Topic × Text). x.1) q)), e)
    | inr j ↦ In-affected t id subs j
  ])
]

pub recheck-Allowed :
    (p : Panel) (pick : Bool) (id : Text) (c d : Conn)
    → recheck p pick id c ≡ some d
    → Allowed p id d
unfolding recheck
recheck-Allowed p pick id c d e t i = elim (Bool-cases (p.can (action_of t) id)) [
  | inl h ↦ h
  | inr h ↦
      let was : In (t, id) (keys c.subs) =
        Thinned-In (t, id)
          (recheck_each-Moves p pick id (affected id c.subs) (count_recheck c) d e).thinner i in
      absurd (
        recheck_each-gone p pick id (affected id c.subs) (count_recheck c) d t e
          (In-affected t id c.subs was) h (In-topics t id (keys d.subs) i))
]
