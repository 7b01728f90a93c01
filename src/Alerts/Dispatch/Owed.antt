-- ===== src/Alerts/Dispatch/Owed.antt =====
-- internal/notify/delivery/alerts.go: a dispatch announces what is owed, once.
use valmin.Shared.{
  ℕ, ◌≡◌, refl, ap, ◌∙◌, ◌↔◌, ◌⊎◌, inl, inr, true, not, ◌&&◌, ◌||◌, List, [], ◌∷◌, Option, none,
  some, Text, if◌then◌else◌, In, NoDup, Bool-cases, In-append_left, In-append_right, contains,
  In-contains, &&_both, false, text_eq_iff, arith,
}
use valmin.Alerts.{Rule, matches_instance, matches, quiet}
use valmin.Alerts.Conditions.{Row, row_key, is_open, open_conditions}
use valmin.Alerts.Conditions.Pairs.{pairs, open_pairs, keys, pairs-open_conditions}
use valmin.Alerts.Dispatch.{
  Edge, opened, resolved, Notification, claim_of, claimed, may_claim, mark_notified, resolved_after,
  owes_one, resolved_unannounced, keys_of, owed, Sent, sent_if, dispatch_one, announce,
  dispatch_edges, dispatch_alerts,
}
use valmin.Alerts.Dispatch.Announced.{
  claimed_iff, Going, Going-start, Listens, dispatch_edges-Going,
}

-- The key of the condition is open.
abbrev pub Reopened : List Row → Row → Type 0
Reopened rows c = In (row_key c) (keys (open_pairs rows))

-- An edge of a condition is owed to a rule: an opening while the condition is open, a resolution if
-- the rule has announced the opening, within the horizon, and not while the key is open again.
abbrev pub IsOwed : ℕ → List Row → List Notification → Edge → Row → Rule → Type 0
IsOwed now rows ms opened c r = c.resolved_at ≡ none
IsOwed now rows ms resolved c r =
    (resolved_after now c.resolved_at ≡ true) × In (claim_of c r opened) ms × (¬ Reopened rows c)

In-open_conditions_iff :
    (c : Row) (rows : List Row) → In c (open_conditions rows) ↔ (In c rows × (c.resolved_at ≡ none))
unfolding open_conditions
In-open_conditions_iff c [] = ((λ h. absurd h), λ h. h.0)
In-open_conditions_iff c (r ∷ rows) = by_state r.resolved_at refl (In-open_conditions_iff c rows)
  where
    by_state :
        (o : Option ℕ)
        → r.resolved_at ≡ o
        → (In c (open_conditions rows) ↔ (In c rows × (c.resolved_at ≡ none)))
        → In c (if is_open o then r ∷ open_conditions rows else open_conditions rows)
          ↔ (In c (r ∷ rows) × (c.resolved_at ≡ none))
    by_state none e rest = (
      (λ h. elim h [
        | inl q ↦ (inl q, ap (λ (x : Row). x.resolved_at) q ∙ e)
        | inr i ↦ let (x, y) = rest.0 i in (inr x, y)
      ]),
      (λ h. elim h.0 [ inl q ↦ inl q | inr i ↦ inr (rest.1 (i, h.1)) ]),
    )
    by_state (some at) e rest = (
      (λ h. let (x, y) = rest.0 h in (inr x, y)),
      (λ h. elim h.0 [
        | inl q ↦ cc (ap (λ (x : Row). x.resolved_at) q, e, h.1)
        | inr i ↦ rest.1 (i, h.1)
      ]),
    )

keys_of-keys : (rows : List Row) → keys_of rows ≡ keys (pairs rows)
unfolding keys_of
keys_of-keys [] = refl
keys_of-keys (c ∷ rows) = ap (λ (ks : List Text). row_key c ∷ ks) (keys_of-keys rows)

In-owed :
    (c : Row) (reopened : List Text) (rows : List Row)
    → In c (owed reopened rows)
    → In c rows × (¬ In (row_key c) reopened)
unfolding owed
In-owed c reopened [] h = absurd h
In-owed c reopened (r ∷ rows) h = elim (Bool-cases (contains (row_key r) reopened)) [
  | inl e ↦ let (x, y) = In-owed c reopened rows (rw e at h) in (inr x, y)
  | inr e ↦ elim (rw e at h) [
    | inl q ↦ (inl q, λ i. cc (In-contains (row_key r) reopened (rw q at i), e))
    | inr i ↦ let (x, y) = In-owed c reopened rows i in (inr x, y)
  ]
]

In-resolved_unannounced :
    (c : Row) (now : ℕ) (ms : List Notification) (rows : List Row)
    → In c (resolved_unannounced now ms rows)
    → In c rows × (resolved_after now c.resolved_at ≡ true)
unfolding resolved_unannounced
In-resolved_unannounced c now ms [] h = absurd h
In-resolved_unannounced c now ms (r ∷ rows) h =
    elim (Bool-cases (resolved_after now r.resolved_at && owes_one r.id ms ms)) [
      | inr e ↦ let (x, y) = In-resolved_unannounced c now ms rows (rw e at h) in (inr x, y)
      | inl e ↦ elim (rw e at h) [
        | inl q ↦
            (inl q, rw q (&&_both (resolved_after now r.resolved_at) (owes_one r.id ms ms) e).0)
        | inr i ↦ let (x, y) = In-resolved_unannounced c now ms rows i in (inr x, y)
      ]
    ]

-- A rule that is on, is of the condition's kind, names no other instance, and is not in its quiet
-- hours.
pub record Covers (local : Text → ℕ → Option ℕ) (now : ℕ) (c : Row) (r : Rule) : Type 0 where
  pub is_enabled : r.enabled ≡ true
  pub same_kind : r.condition_kind ≡ c.kind
  pub same_instance : (i : Text) → r.instance_id ≡ some i → c.instance_id ≡ some i
  pub awake : quiet local r now ≡ false

matches_instance_iff :
    (rule condition : Option Text)
    → (matches_instance rule condition ≡ true) ↔ ((i : Text) → rule ≡ some i → condition ≡ some i)
unfolding matches_instance
matches_instance_iff none c = ((λ h i e. cc e), λ h. refl)
matches_instance_iff (some x) none = ((λ h i e. cc h), λ h. cc (h x refl))
matches_instance_iff (some x) (some y) =
    let (to, from) = text_eq_iff y x in
    (
      (λ h i e. ap (λ (t : Text). some t) (to h) ∙ e),
      (λ h. let q : some y ≡ some x = h x refl in from (cc q)),
    )

Covers-iff :
    (local : Text → ℕ → Option ℕ) (now : ℕ) (c : Row) (r : Rule)
    → Listens local now c r ↔ Covers local now c r
unfolding matches
Covers-iff local now c r =
    let (k, k') = text_eq_iff r.condition_kind c.kind in
    let (m, m') = matches_instance_iff r.instance_id c.instance_id in
    (
      (λ (h, q). record {
        is_enabled = ground (arith, h);
        same_kind = k (ground (arith, h));
        same_instance = m (ground (arith, h));
        awake = q;
      }),
      (λ v.
          let a = v.is_enabled in
          let b = k' v.same_kind in
          let d = m' v.same_instance in (ground (arith, a, b, d), v.awake)),
    )

-- What a dispatch does to the table of notifications, and what it announces.
pub record Announces (local : Text → ℕ → Option ℕ) (now : ℕ) (rules : List Rule) (rows : List Row)
    (ms : List Notification) (s : Sent) : Type 0 where
  pub once : NoDup s.sent
  pub recorded : (n : Notification) → In n s.notifications ↔ (In n ms ⊎ In n s.sent)
  pub due :
      (n : Notification)
      → In n s.sent
      → (¬ In n ms)
        × ((c : Row) × (r : Rule) × In c rows
            × In r rules
            × (n ≡ claim_of c r n.edge)
            × Covers local now c r
            × IsOwed now rows ms n.edge c r)
  pub openings :
      (c : Row) (r : Rule)
      → In c rows
      → c.resolved_at ≡ none
      → In r rules
      → Covers local now c r
      → In (claim_of c r opened) s.notifications

module _ (local : Text → ℕ → Option ℕ) (now : ℕ) where
  claim-kept :
      (n x : Notification) (s : Sent)
      → In n s.notifications
      → In n (sent_if x (mark_notified x s.notifications) s.sent).notifications
  unfolding mark_notified
  claim-kept n x s i =
      elim (Bool-cases (may_claim x s.notifications && not (claimed x s.notifications))) [
        | inl e ↦ rw e (In-append_left n s.notifications (x ∷ []) i)
        | inr e ↦ rw e i
      ]

  announce-kept :
      (n : Notification) (c : Row) (edge : Edge) (r : Rule) (s : Sent)
      → In n s.notifications
      → In n (announce local now c edge r s).notifications
  unfolding announce
  announce-kept n c edge r s i =
      elim (Bool-cases (not (matches r c.kind c.instance_id) || quiet local r now)) [
        | inl e ↦ rw e i
        | inr e ↦ rw e (claim-kept n (claim_of c r edge) s i)
      ]

  dispatch_one-kept :
      (n : Notification) (c : Row) (edge : Edge) (rules : List Rule) (s : Sent)
      → In n s.notifications
      → In n (dispatch_one local now c edge rules s).notifications
  unfolding dispatch_one
  dispatch_one-kept n c edge [] s i = i
  dispatch_one-kept n c edge (r ∷ rules) s i =
      dispatch_one-kept n c edge rules (announce local now c edge r s)
        (announce-kept n c edge r s i)

  dispatch_edges-kept :
      (n : Notification) (rows : List Row) (edge : Edge) (rules : List Rule) (s : Sent)
      → In n s.notifications
      → In n (dispatch_edges local now rows edge rules s).notifications
  unfolding dispatch_edges
  dispatch_edges-kept n [] edge rules s i = i
  dispatch_edges-kept n (c ∷ rows) edge rules s i =
      dispatch_edges-kept n rows edge rules (dispatch_one local now c edge rules s)
        (dispatch_one-kept n c edge rules s i)

  opening_claimed :
      (c : Row) (r : Rule) (s : Sent)
      → In
          (claim_of c r opened)
          (sent_if
            (claim_of c r opened)
            (mark_notified (claim_of c r opened) s.notifications)
            s.sent).notifications
  unfolding mark_notified
  opening_claimed c r s = elim (Bool-cases (claimed (claim_of c r opened) s.notifications)) [
    | inl e ↦ rw e ((claimed_iff (claim_of c r opened) s.notifications).0 e)
    | inr e ↦ rw e (
        In-append_right (claim_of c r opened) s.notifications (claim_of c r opened ∷ []) (inl refl))
  ]

  announce-opened :
      (c : Row) (r : Rule) (s : Sent)
      → Listens local now c r
      → In (claim_of c r opened) (announce local now c opened r s).notifications
  unfolding announce
  announce-opened c r s (m, n) = rw (m, n) (opening_claimed c r s)

  dispatch_one-opened :
      (c : Row) (r : Rule) (rules : List Rule) (s : Sent)
      → In r rules
      → Listens local now c r
      → In (claim_of c r opened) (dispatch_one local now c opened rules s).notifications
  unfolding dispatch_one
  dispatch_one-opened c r [] s i l = absurd i
  dispatch_one-opened c r (x ∷ rules) s (inl q) l = rw (← q) (
      dispatch_one-kept (claim_of c r opened) c opened rules (announce local now c opened r s)
        (announce-opened c r s l))
  dispatch_one-opened c r (x ∷ rules) s (inr j) l =
      dispatch_one-opened c r rules (announce local now c opened x s) j l

  dispatch_edges-opened :
      (c : Row) (r : Rule) (rows : List Row) (rules : List Rule) (s : Sent)
      → In c rows
      → In r rules
      → Listens local now c r
      → In (claim_of c r opened) (dispatch_edges local now rows opened rules s).notifications
  unfolding dispatch_edges
  dispatch_edges-opened c r [] rules s i j l = absurd i
  dispatch_edges-opened c r (d ∷ rows) rules s (inl q) j l =
      dispatch_edges-kept _ rows opened rules (dispatch_one local now d opened rules s)
        (rw (← q) (dispatch_one-opened c r rules s j l))
  dispatch_edges-opened c r (d ∷ rows) rules s (inr i) j l =
      dispatch_edges-opened c r rows rules (dispatch_one local now d opened rules s) i j l

-- A dispatch is of all rules, on the table of conditions and what has been announced before. It
-- announces nothing twice and nothing that was announced before, and records what it announces. All
-- that it announces goes to a rule that covers the condition and is enabled and not in its quiet
-- hours, and is owed: an opening of a condition that is open; or a resolution not older than two days
-- to a rule that had announced the opening, of a condition whose kind and instance are not open
-- again. After it the opening of every open condition has been announced to every rule that covers
-- it, is enabled and is not in its quiet hours.
pub dispatch_alerts-Announces :
    (local : Text → ℕ → Option ℕ) (now : ℕ) (rules : List Rule) (rows : List Row)
    (ms : List Notification)
    → Announces local now rules rows ms (dispatch_alerts local now rules rows ms)
unfolding dispatch_alerts
dispatch_alerts-Announces local now rules rows ms = record {
  once = second.once;
  recorded = second.all;
  due = λ n i.
      let (x, (c, r, y, z, e, l, o)) = second.new n i in
      (x, (c, r, y, z, e, (Covers-iff local now c r).0 l, o));
  openings = λ c r i o j l.
      dispatch_edges-opened local now c r found rules after
        ((In-open_conditions_iff c rows).1 (i, o)) j ((Covers-iff local now c r).1 l);
}
  where
    found : List Row
    found = open_conditions rows

    Due : Notification → Type 0
    Due n =
        (c : Row) × (r : Rule) × In c rows
        × In r rules
        × (n ≡ claim_of c r n.edge)
        × Listens local now c r
        × IsOwed now rows ms n.edge c r

    Resolves : Notification → Type 0
    Resolves n = (n.edge ≡ resolved) × Due n

    resolutions : List Row
    resolutions = owed (keys_of found) (resolved_unannounced now ms rows)

    after : Sent
    after =
        dispatch_edges local now resolutions resolved rules
          (record { notifications = ms; sent = [] })

    first : Going Resolves ms after
    first =
        dispatch_edges-Going local now Resolves ms resolutions resolved rules _
          (λ c r s i j l g m.
            let (x, y) = In-owed c (keys_of found) (resolved_unannounced now ms rows) i in
            let (u, v) = In-resolved_unannounced c now ms rows x in
            let told : In (claim_of c r opened) ms =
              elim ((g.all (claim_of c r opened)).0
                ((claimed_iff (claim_of c r opened) s.notifications).0 m)) [
                  | inl k ↦ k
                  | inr k ↦ cc ((g.new (claim_of c r opened) k).1.0)
                ] in
            (
              refl,
              (
                c,
                r,
                u,
                j,
                refl,
                l,
                (v, told, λ z. y (rw (keys_of-keys found, pairs-open_conditions rows) z)),
              ),
            ))
          (Going-start Resolves ms)

    between : Going Due ms after
    between = record {
      once = first.once;
      new = λ n i. let (x, y) = first.new n i in (x, y.1);
      kept = first.kept;
      all = first.all;
    }

    second : Going Due ms (dispatch_edges local now found opened rules after)
    second =
        dispatch_edges-Going local now Due ms found opened rules after
          (λ c r s i j l g m.
            let (x, y) = (In-open_conditions_iff c rows).0 i in (c, r, x, j, refl, l, y))
          between
