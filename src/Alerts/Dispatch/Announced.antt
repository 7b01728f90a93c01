-- ===== src/Alerts/Dispatch/Announced.antt =====
-- internal/notify/delivery/alerts.go: what a dispatch announces.
use valmin.Shared.{
  ℕ, ◌≡◌, refl, sym, ◌↔◌, ◌⊎◌, inl, inr, true, false, List, [], ◌∷◌, ◌++◌, Option, arith, Text,
  text_eq_iff, In, NoDup, NoDup-snoc, Bool-cases, In-append, In-append_left, In-append_right,
}
use valmin.Alerts.{Rule, matches, quiet}
use valmin.Alerts.Conditions.{Row}
use valmin.Alerts.Dispatch.{
  Edge, opened, resolved, same_edge, Notification, claim_of, is_claim, claimed, may_claim,
  mark_notified, Sent, sent_if, announce, dispatch_one, dispatch_edges,
}

same_edge_iff : (e f : Edge) → (same_edge e f ≡ true) ↔ (e ≡ f)
same_edge_iff opened opened = ((λ h. refl), λ e. refl)
same_edge_iff opened resolved = ((λ h. cc h), λ e. cc e)
same_edge_iff resolved opened = ((λ h. cc h), λ e. cc e)
same_edge_iff resolved resolved = ((λ h. refl), λ e. refl)

is_claim_iff : (n m : Notification) → (is_claim n m ≡ true) ↔ (m ≡ n)
is_claim_iff n m = ground (
  arith,
  text_eq_iff m.condition_id n.condition_id,
  text_eq_iff m.rule_id n.rule_id,
  same_edge_iff m.edge n.edge,
)

pub claimed_iff : (n : Notification) (ms : List Notification) → (claimed n ms ≡ true) ↔ In n ms
claimed_iff n [] = ((λ h. cc h), λ h. absurd h)
claimed_iff n (m ∷ ms) = elim (Bool-cases (is_claim n m)) [
  | inl e ↦ rw e ((λ h. inl (sym ((is_claim_iff n m).0 e))), λ h. refl)
  | inr e ↦ rw e (
    (λ h. inr ((claimed_iff n ms).0 h)),
    (λ h. elim h [ inl q ↦ cc ((is_claim_iff n m).1 (sym q), e) | inr i ↦ (claimed_iff n ms).1 i ]),
  )
]

-- A dispatch under way: what it has sent was not claimed before and is claimed now, is due, and is
-- all that has been claimed since.
pub record Going (Due : Notification → Type 0) (before : List Notification) (s : Sent)
    : Type 0 where
  pub once : NoDup s.sent
  pub new : (n : Notification) → In n s.sent → (¬ In n before) × Due n
  pub kept : (n : Notification) → In n before → In n s.notifications
  pub all : (n : Notification) → In n s.notifications ↔ (In n before ⊎ In n s.sent)

pub Going-start :
    (Due : Notification → Type 0) (before : List Notification)
    → Going Due before (record { notifications = before; sent = [] })
Going-start Due before = record {
  once = tt;
  new = λ n i. absurd i;
  kept = λ n i. i;
  all = λ n. ((λ i. inl i), λ i. elim i [ inl j ↦ j | inr j ↦ absurd j ]);
}

-- One claim, where it is due if it is made.
Going-claim :
    (Due : Notification → Type 0) (before : List Notification) (s : Sent) (n : Notification)
    → Going Due before s
    → (may_claim n s.notifications ≡ true → Due n)
    → Going Due before (sent_if n (mark_notified n s.notifications) s.sent)
unfolding mark_notified
Going-claim Due before s n g due = elim (Bool-cases (may_claim n s.notifications)) [
  | inr m ↦ rw m g
  | inl m ↦ elim (Bool-cases (claimed n s.notifications)) [
    | inl c ↦ rw (m, c) g
    | inr c ↦ rw (m, c) (added (due m) (λ i. cc ((claimed_iff n s.notifications).1 i, c)))
  ]
]
  where
    added :
        Due n
        → (¬ In n s.notifications)
        → Going Due before
            (record { notifications = s.notifications ++ n ∷ []; sent = s.sent ++ n ∷ [] })
    added d c = record {
      once = NoDup-snoc s.sent n g.once (λ i. c ((g.all n).1 (inr i)));
      new = λ m i. elim (In-append m s.sent (n ∷ []) i) [
        | inl j ↦ g.new m j
        | inr (inl e) ↦ rw e ((λ j. c (g.kept n j)), d)
        | inr (inr x) ↦ absurd x
      ];
      kept = λ m i. In-append_left m s.notifications (n ∷ []) (g.kept m i);
      all = λ m. (
        (λ i. elim (In-append m s.notifications (n ∷ []) i) [
          | inl j ↦ elim ((g.all m).0 j) [
            | inl k ↦ inl k
            | inr k ↦ inr (In-append_left m s.sent (n ∷ []) k)
          ]
          | inr j ↦ inr (In-append_right m s.sent (n ∷ []) j)
        ]),
        (λ i. elim i [
          | inl k ↦ In-append_left m s.notifications (n ∷ []) (g.kept m k)
          | inr k ↦ elim (In-append m s.sent (n ∷ []) k) [
            | inl j ↦ In-append_left m s.notifications (n ∷ []) ((g.all m).1 (inr j))
            | inr j ↦ In-append_right m s.notifications (n ∷ []) j
          ]
        ]),
      );
    }

module _ (local : Text → ℕ → Option ℕ) (now : ℕ) where
  -- A rule that an edge of a condition is to be announced to.
  abbrev pub Listens : Row → Rule → Type 0
  Listens c r = (matches r c.kind c.instance_id ≡ true) × (quiet local r now ≡ false)

  pub dispatch_one-Going :
      (Due : Notification → Type 0) (before : List Notification) (c : Row) (edge : Edge)
      (rules : List Rule) (s : Sent)
      → ((r : Rule) (ms : Sent)
          → In r rules
          → Listens c r
          → Going Due before ms
          → may_claim (claim_of c r edge) ms.notifications ≡ true
          → Due (claim_of c r edge))
      → Going Due before s
      → Going Due before (dispatch_one local now c edge rules s)
  unfolding dispatch_one announce
  dispatch_one-Going Due before c edge [] s due g = g
  dispatch_one-Going Due before c edge (r ∷ rules) s due g =
      elim (Bool-cases (matches r c.kind c.instance_id)) [
        | inr m ↦ rw m (dispatch_one-Going Due before c edge rules s (λ x ms i. due x ms (inr i)) g)
        | inl m ↦ elim (Bool-cases (quiet local r now)) [
          | inl q ↦
              rw (m, q)
                (dispatch_one-Going Due before c edge rules s (λ x ms i. due x ms (inr i)) g)
          | inr q ↦
              rw (m, q)
                (dispatch_one-Going Due before c edge rules _ (λ x ms i. due x ms (inr i))
                  (Going-claim Due before s (claim_of c r edge) g (due r s (inl refl) (m, q) g)))
        ]
      ]

  pub dispatch_edges-Going :
      (Due : Notification → Type 0) (before : List Notification) (rows : List Row) (edge : Edge)
      (rules : List Rule) (s : Sent)
      → ((c : Row) (r : Rule) (ms : Sent)
          → In c rows
          → In r rules
          → Listens c r
          → Going Due before ms
          → may_claim (claim_of c r edge) ms.notifications ≡ true
          → Due (claim_of c r edge))
      → Going Due before s
      → Going Due before (dispatch_edges local now rows edge rules s)
  unfolding dispatch_edges
  dispatch_edges-Going Due before [] edge rules s due g = g
  dispatch_edges-Going Due before (c ∷ rows) edge rules s due g =
      dispatch_edges-Going Due before rows edge rules (dispatch_one local now c edge rules s)
        (λ x r ms i. due x r ms (inr i))
        (dispatch_one-Going Due before c edge rules s (λ r ms. due c r ms (inl refl)) g)
