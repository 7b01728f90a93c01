-- ===== src/Hub/Registering.antt =====
-- internal/ws/subscribe.go: what the two halves of subscribe come to.
use valmin.Shared.{
  ◌<◌, ◌≡◌, refl, ◌↔◌, ◌≢◌, ◌⊎◌, inl, inr, Bool, true, false, ◌∷◌, Option, none, some, arith, Text,
  text_eq_iff, ◌==◌, ==_iff, leb, length, Bool-cases, Option-cases,
}
use valmin.Authz.{instance_view}
use valmin.Topics.{
  Topic, TopicKind, kind_console, kind_stats, kind_state, kind_job, action_of, parse,
}
use valmin.Hub.{Conn, max_topics, holds, topic_eq, kind_eq}
use valmin.Hub.Subscribing.{
  Panel, allow, authorize, authorize_job, authorize_instance, is_job, drop, without, Pending,
  answered, authorized, begin, begin_parsed, begin_allowed, register, recheck_missed,
}
use valmin.Hub.Moves.{Moves, Moves-refl, Moves-trans, deliver_raw-Moves, some_injective}
use valmin.Hub.Moved.{without-Thinned, with_subs}
use valmin.Hub.Ended.{open_source-Moves}

kind_eq_sound : (k l : TopicKind) → kind_eq k l ≡ true → k ≡ l
kind_eq_sound k l h = ground arith

kind_eq_refl : (k : TopicKind) → kind_eq k k ≡ true
kind_eq_refl kind_console = refl
kind_eq_refl kind_stats = refl
kind_eq_refl kind_state = refl
kind_eq_refl kind_job = refl

pub topic_eq_iff : (t u : Topic) → (topic_eq t u ≡ true) ↔ (t ≡ u)
topic_eq_iff t u = (
  (λ h. ground (arith, kind_eq_sound t.kind u.kind, text_eq_iff t.id u.id)),
  (λ e. rw e (ground (arith, kind_eq_refl u.kind, text_eq_iff u.id u.id))),
)

job_action :
    (t : Topic) (k : TopicKind) → t.kind ≡ k → is_job k ≡ true → action_of t ≡ instance_view
unfolding action_of
job_action t k e h = ground arith

allowed : (b : Bool) (i id : Text) → allow b i ≡ some id → (b ≡ true) × (i ≡ id)
allowed true i id e = (refl, some_injective i id e)
allowed false i id e = cc e

job_allowed :
    (p : Panel) (id : Text) (o : Option (Option Text))
    → authorize_job p o ≡ some id
    → p.can instance_view id ≡ true
unfolding authorize_job
job_allowed p id none e = cc e
job_allowed p id (some none) e = cc e
job_allowed p id (some (some i)) e = let (x, y) = allowed _ i id e in rw (← y) x

instance_allowed :
    (p : Panel) (t : Topic) (id : Text) (o : Option Bool)
    → authorize_instance p o t ≡ some id
    → p.can (action_of t) id ≡ true
unfolding authorize_instance
instance_allowed p t id none e = cc e
instance_allowed p t id (some false) e = cc e
instance_allowed p t id (some true) e = let (x, y) = allowed _ t.id id e in rw (← y) x

-- What is authorized passes `Can` for the instance.
pub authorize-can :
    (p : Panel) (t : Topic) (id : Text) → authorize p t ≡ some id → p.can (action_of t) id ≡ true
unfolding authorize
authorize-can p t id h = elim (Bool-cases (is_job t.kind)) [
  | inl j ↦ rw (job_action t t.kind refl j) (job_allowed p id (p.job_instance t.id) (rw j at h))
  | inr j ↦ instance_allowed p t id (p.instance_exists t.id) (rw j at h)
]

-- What a subscription that is authorized has met.
pub record Fresh (p : Panel) (c : Conn) (w : Pending) : Type 0 where
  pub room : length c.subs < max_topics
  pub now : w.gen ≡ c.grant_gen
  pub resolved : authorize p w.topic ≡ some w.instance_id

answered_injective : (a b : Option Conn) → answered a ≡ answered b → a ≡ b
answered_injective a b e = cc e

authorized_injective : (a b : Pending) → authorized a ≡ authorized b → a ≡ b
authorized_injective a b e = cc e

pub begin-Moves :
    (p : Panel) (pick : Bool) (text : Text) (c d : Conn)
    → begin p pick text c ≡ answered (some d)
    → Moves c d
unfolding begin begin_parsed begin_allowed
begin-Moves p pick text c d e = elim (Option-cases (parse text)) [
  | inl n ↦ deliver_raw-Moves pick _ c d (answered_injective _ (some d) (rw n at e))
  | inr (t, n) ↦ elim (Bool-cases (holds t c)) [
    | inl h ↦
        rw (← some_injective c d (answered_injective (some c) (some d) (rw (n, h) at e)))
          (Moves-refl c)
    | inr h ↦ elim (Bool-cases (leb max_topics (length c.subs))) [
      | inl m ↦ deliver_raw-Moves pick _ c d (answered_injective _ (some d) (rw (n, h, m) at e))
      | inr m ↦ elim (Option-cases (authorize p t)) [
        | inl a ↦
            deliver_raw-Moves pick _ c d (answered_injective _ (some d) (rw (n, h, m, a) at e))
        | inr (id, a) ↦ cc (rw (n, h, m, a) at e)
      ]
    ]
  ]
]

pub begin-Fresh :
    (p : Panel) (pick : Bool) (text : Text) (c : Conn) (w : Pending)
    → begin p pick text c ≡ authorized w
    → Fresh p c w
unfolding begin begin_parsed begin_allowed
begin-Fresh p pick text c w e = elim (Option-cases (parse text)) [
  | inl n ↦ cc (rw n at e)
  | inr (t, n) ↦ elim (Bool-cases (holds t c)) [
    | inl h ↦ cc (rw (n, h) at e)
    | inr h ↦ elim (Bool-cases (leb max_topics (length c.subs))) [
      | inl m ↦ cc (rw (n, h, m) at e)
      | inr m ↦ elim (Option-cases (authorize p t)) [
        | inl a ↦ cc (rw (n, h, m, a) at e)
        | inr (id, a) ↦
            let q = authorized_injective _ w (rw (n, h, m, a) at e) in
            rw (← q) (record { room = ground (arith, m); now = refl; resolved = a })
      ]
    ]
  ]
]

-- The connection with the subscription in its map.
unfoldable pub registered : Pending → Conn → Conn
registered w c = record c {
  subs =
      record { topic = w.topic; instance_id = w.instance_id; replayed = 0; next_seq = 0 } ∷ c.subs;
}

registered-undone : (w : Pending) (c : Conn) → Moves c (drop w.topic (registered w c))
unfolding registered drop without
registered-undone w c =
    rw ((topic_eq_iff w.topic w.topic).1 refl)
      (with_subs c (without w.topic c.subs) (without-Thinned w.topic c.subs))

-- How a registration ends: nothing is added, or the topic is, which was not held before and which
-- the panel allows unless the grants have not changed since.
pub register-cases :
    (p : Panel) (pick : Bool) (text : Text) (w : Pending) (c d : Conn)
    → register p pick text w c ≡ some d
    → Moves c d
      ⊎ (holds w.topic c ≡ false)
        × Moves (registered w c) d
        × ((c.grant_gen ≡ w.gen) ⊎ (authorize p w.topic ≢ none))
unfolding register recheck_missed registered
register-cases p pick text w c d e = elim (Bool-cases (holds w.topic c)) [
  | inl h ↦ inl (rw (← some_injective c d (rw h at e)) (Moves-refl c))
  | inr h ↦ elim (Bool-cases (c.grant_gen == w.gen)) [
    | inl g ↦ inr (
      h,
      rw (← some_injective _ d (rw (h, g) at e))
          (open_source-Moves pick w.topic _ (registered w c)),
      inl ((==_iff c.grant_gen w.gen).0 g),
    )
    | inr g ↦ elim (Option-cases (authorize p w.topic)) [
      | inr (id, a) ↦ inr (
        h,
        rw (← some_injective _ d (rw (h, g, a) at e))
            (open_source-Moves pick w.topic _ (registered w c)),
        inr (λ n. cc (a, n)),
      )
      | inl a ↦
          inl
            (Moves-trans (registered-undone w c) (deliver_raw-Moves pick _ _ d (rw (h, g, a) at e)))
    ]
  ]
]
