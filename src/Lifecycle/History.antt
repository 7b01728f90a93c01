-- ===== src/Lifecycle/History.antt =====
-- The life of an instance under any sequence of the writes.
use mathlib.Core.Path.{subst}
use valmin.Shared.{
  ◌≡◌, refl, sym, inl, inr, ◌&&◌, List, [], ◌∷◌, Option, none, some, arith, Text, text_eq,
  Bool-cases, if◌then◌else◌, ◌==◌, ◌⊎◌, ◌∙◌, In, text_eq_iff,
}
use valmin.Lifecycle.{
  State, Row, same_state, valid, edge_list, update_rows, move, update_instance_state,
  validate_transition, set_state, hold_state, started, provisioned, finish_rows, finish_start,
  finish_provisioning,
}
use valmin.Lifecycle.Table.{valid_iff, same_state_iff}
use valmin.Lifecycle.Writes.{find_row, on_row, written, find_row-update_rows}

-- The four writes of `instances.state`.
pub data Write : Type 0 where
  set : Text → State → State → Write
  hold : Text → State → Write
  finish_started : Text → State → State → Write
  finish_provisioned : Text → State → State → Text → Text → Write

abbrev pub apply : Write → List Row → List Row
apply (set id from to) rows = (set_state id from to rows).0
apply (hold id s) rows = (hold_state id s rows).0
apply (finish_started id from to) rows = (finish_start id from to rows).0
apply (finish_provisioned id from to container build) rows =
    (finish_provisioning id from to container build rows).0

abbrev pub apply_all : List Write → List Row → List Row
apply_all [] rows = rows
apply_all (w ∷ ws) rows = apply_all ws (apply w rows)

-- What a write asks for: to bring an instance from one state to another.
pub data Asks : Write → Text → State → State → Type 0 where
  by_set : (id : Text) (from to : State) → Asks (set id from to) id from to
  by_start : (id : Text) (from to : State) → Asks (finish_started id from to) id from to
  by_provisioning :
      (id : Text) (from to : State) (container build : Text)
      → Asks (finish_provisioned id from to container build) id from to

-- A write leaves the state of an instance, or makes the move that it asks for, along an edge of the
-- table.
abbrev pub Moves : Write → Text → State → State → Type 0
Moves w j s t = (s ≡ t) ⊎ (Asks w j s t × In (record { from = s; to = t }) edge_list)

-- The states of an instance, write by write.
pub data Trail : List Write → Text → State → State → Type 0 where
  stays : {j : Text} {s : State} → Trail [] j s s
  goes :
      {w : Write} {ws : List Write} {j : Text} {s t u : State}
      → Moves w j s t
      → Trail ws j t u
      → Trail (w ∷ ws) j s u

-- The instance's row is still there, in a state that stands in a relation to the one before.
abbrev pub Follows : (State → State → Type 0) → Option Row → Option Row → Type 0
Follows Rel none after = after ≡ none
Follows Rel (some r) after = (r' : Row) × (after ≡ some r') × Rel r.state r'.state

Follows-refl : (w : Write) (j : Text) (o : Option Row) → Follows (Moves w j) o o
Follows-refl w j none = refl
Follows-refl w j (some r) = (r, refl, inl refl)

find_row-id : (j : Text) (rows : List Row) (r : Row) → find_row j rows ≡ some r → r.id ≡ j
find_row-id j [] r e = cc e
find_row-id j (q ∷ rows) r e = ground (arith, e, text_eq_iff q.id j, find_row-id j rows r)

written-Moves :
    (w : Write) (id : Text) (from to : State) (write : Row → Row) (r : Row)
    → ((q : Row) → (write q).state ≡ to)
    → (r.id ≡ id → Moves w r.id from to)
    → Moves w r.id r.state (written id from write r).state
written-Moves w id from to write r h l =
    elim (Bool-cases (text_eq r.id id && same_state r.state from)) [
      | inr e ↦ rw e (inl refl)
      | inl e ↦
          let s : r.state ≡ from = (same_state_iff r.state from).0 (ground (arith, e)) in
          let i : r.id ≡ id = (text_eq_iff r.id id).0 (ground (arith, e)) in
          rw (e, h r) (subst (λ x. Moves w r.id x to) (sym s) (l i))
    ]

module _ (w : Write) (id : Text) (from to : State) (write : Row → Row) (j : Text) (rows : List Row)
    (keeps : (q : Row) → (write q).id ≡ q.id) (writes : (q : Row) → (write q).state ≡ to)
    (moves : j ≡ id → Moves w j from to) where
  update_rows-Follows :
      Follows (Moves w j) (find_row j rows) (find_row j (update_rows id from write rows).0)
  update_rows-Follows =
      rw (find_row-update_rows id from write j rows keeps) (go (find_row j rows) refl)
    where
      go :
          (o : Option Row)
          → find_row j rows ≡ o
          → Follows (Moves w j) o (on_row (written id from write) o)
      go none e = refl
      go (some r) e =
          let q : r.id ≡ j = find_row-id j rows r e in
          (
            written id from write r,
            refl,
            subst (λ (x : Text). Moves w x r.state (written id from write r).state) q
                (written-Moves w id from to write r writes
                  (λ p. subst (λ (x : Text). Moves w x from to) (sym q) (moves (sym q ∙ p)))),
          )

  finish_rows-Follows :
      Follows (Moves w j) (find_row j rows) (find_row j (finish_rows id from write rows).0)
  unfolding finish_rows
  finish_rows-Follows = elim (Bool-cases ((update_rows id from write rows).1 == 1)) [
    | inl e ↦ rw e update_rows-Follows
    | inr e ↦ rw e (Follows-refl w j (find_row j rows))
  ]

-- What a write leaves where its edge is legal, and where it is not.
set_state-rows :
    (id : Text) (from to : State) (rows : List Row)
    → (set_state id from to rows).0
      ≡ (if valid from to then (update_rows id from (move to) rows).0 else rows)
unfolding set_state validate_transition update_instance_state
set_state-rows id from to rows = elim (Bool-cases (valid from to)) [
  | inl v ↦ rw v refl
  | inr v ↦ rw v refl
]

finish_start-rows :
    (id : Text) (from to : State) (rows : List Row)
    → (finish_start id from to rows).0
      ≡ (if valid from to then (finish_rows id from (started to) rows).0 else rows)
unfolding finish_start validate_transition
finish_start-rows id from to rows = elim (Bool-cases (valid from to)) [
  | inl v ↦ rw v refl
  | inr v ↦ rw v refl
]

finish_provisioning-rows :
    (id : Text) (from to : State) (c b : Text) (rows : List Row)
    → (finish_provisioning id from to c b rows).0
      ≡ (if valid from to then (finish_rows id from (provisioned to c b) rows).0 else rows)
unfolding finish_provisioning validate_transition
finish_provisioning-rows id from to c b rows = elim (Bool-cases (valid from to)) [
  | inl v ↦ rw v refl
  | inr v ↦ rw v refl
]

guarded-Follows :
    (w : Write) (from to : State) (j : Text) (after rows : List Row)
    → (In (record { from = from; to = to }) edge_list
        → Follows (Moves w j) (find_row j rows) (find_row j after))
    → Follows (Moves w j) (find_row j rows) (find_row j (if valid from to then after else rows))
guarded-Follows w from to j after rows h = elim (Bool-cases (valid from to)) [
  | inl v ↦ rw v (h ((valid_iff from to).0 v))
  | inr v ↦ rw v (Follows-refl w j (find_row j rows))
]

abbrev Kept : Write → Text → List Row → List Row → Type 0
Kept w j rows after = Follows (Moves w j) (find_row j rows) (find_row j after)

-- The move that a write asks for, of the instance that it names.
asked :
    (w : Write) (j id : Text) (from to : State)
    → Asks w id from to
    → In (record { from = from; to = to }) edge_list
    → j ≡ id
    → Moves w j from to
asked w j id from to a v e = inr (subst (λ (x : Text). Asks w x from to) (sym e) a, v)

apply-Follows : (w : Write) (j : Text) (rows : List Row) → Kept w j rows (apply w rows)
unfolding hold_state update_instance_state
apply-Follows (hold id s) j rows =
    update_rows-Follows (hold id s) id s s (move s) j rows (λ q. refl) (λ q. refl) (λ e. inl refl)
apply-Follows (set id from to) j rows =
    let w = set id from to in
    subst (Kept w j rows) (sym (set_state-rows id from to rows)) (
      guarded-Follows w from to j (update_rows id from (move to) rows).0 rows (λ v.
        update_rows-Follows w id from to (move to) j rows (λ q. refl) (λ q. refl)
          (asked w j id from to (by_set id from to) v)))
apply-Follows (finish_started id from to) j rows =
    let w = finish_started id from to in
    subst (Kept w j rows) (sym (finish_start-rows id from to rows)) (
      guarded-Follows w from to j (finish_rows id from (started to) rows).0 rows (λ v.
        finish_rows-Follows w id from to (started to) j rows (λ q. refl) (λ q. refl)
          (asked w j id from to (by_start id from to) v)))
apply-Follows (finish_provisioned id from to c b) j rows =
    let w = finish_provisioned id from to c b in
    subst (Kept w j rows) (sym (finish_provisioning-rows id from to c b rows)) (
      guarded-Follows w from to j (finish_rows id from (provisioned to c b) rows).0 rows (λ v.
        finish_rows-Follows w id from to (provisioned to c b) j rows (λ q. refl) (λ q. refl)
          (asked w j id from to (by_provisioning id from to c b) v)))

-- Under any sequence of the writes, each instance keeps its row, and with each write its state
-- stays, or makes the very move that the write asks of this instance, which is an edge of the
-- table.
pub apply_all-Follows :
    (ws : List Write) (j : Text) (rows : List Row)
    → Follows (Trail ws j) (find_row j rows) (find_row j (apply_all ws rows))
apply_all-Follows [] j rows = start (find_row j rows)
  where
    start : (o : Option Row) → Follows (Trail [] j) o o
    start none = refl
    start (some r) = (r, refl, stays)
apply_all-Follows (w ∷ ws) j rows =
    chain (find_row j rows) (find_row j (apply w rows)) (find_row j (apply_all ws (apply w rows)))
      (apply-Follows w j rows) (apply_all-Follows ws j (apply w rows))
  where
    chain :
        (a b c : Option Row)
        → Follows (Moves w j) a b
        → Follows (Trail ws j) b c
        → Follows (Trail (w ∷ ws) j) a c
    chain none b c p q = subst (λ o. Follows (Trail ws j) o c) p q
    chain (some r) b c (r', e, l) q =
        let (r'', f, m) = subst (λ o. Follows (Trail ws j) o c) e q in (r'', f, goes l m)
