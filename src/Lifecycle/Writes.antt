-- ===== src/Lifecycle/Writes.antt =====
-- What the writes do to the rows.
use valmin.Shared.{
  ℕ, ◌≡◌, refl, sym, ap, ◌∙◌, ◌≢◌, ◌⊎◌, inl, inr, Bool, true, false, ◌&&◌, List, [], ◌∷◌, map,
  Option, none, some, arith, Text, text_eq, text_eq_iff, In, NoDup, if◌then◌else◌, ◌==◌, Bool-cases,
  Option-cases,
}
use valmin.Lifecycle.{
  State, Row, same_state, valid, matches, update_rows, move, update_instance_state, illegal, Result,
  ok, err, validate_transition, set_state,
}
use valmin.Lifecycle.Table.{same_state_iff}

-- The row of an instance.
abbrev pub find_row : Text → List Row → Option Row
find_row id [] = none
find_row id (r ∷ rows) = if text_eq r.id id then some r else find_row id rows

abbrev pub ids : List Row → List Text
ids rows = map (λ (r : Row). r.id) rows

abbrev pub on_row : (Row → Row) → Option Row → Option Row
on_row f none = none
on_row f (some r) = some (f r)

abbrev pub written : Text → State → (Row → Row) → Row → Row
written id from write r = if text_eq r.id id && same_state r.state from then write r else r

-- An update keeps the rows in their places, and changes those of the instance that are in the state.
pub find_row-update_rows :
    (id : Text) (from : State) (write : Row → Row) (j : Text) (rows : List Row)
    → ((r : Row) → (write r).id ≡ r.id)
    → find_row j (update_rows id from write rows).0
      ≡ on_row (written id from write) (find_row j rows)
unfolding update_rows matches
find_row-update_rows id from write j [] h = refl
find_row-update_rows id from write j (r ∷ rows) h =
    ground (arith, find_row-update_rows id from write j rows h, h r)

abbrev hit : State → Option Row → ℕ
hit from none = 0
hit from (some r) = if same_state r.state from then 1 else 0

update_rows-absent :
    (id : Text) (from : State) (write : Row → Row) (rows : List Row)
    → ¬ In id (ids rows)
    → (update_rows id from write rows).1 ≡ 0
unfolding update_rows matches
update_rows-absent id from write [] h = refl
update_rows-absent id from write (r ∷ rows) h =
    ground (arith, update_rows-absent id from write rows (λ i. h (inr i)), text_eq_iff r.id id, h)

-- Where ids are unique, the count is that of the instance's row.
update_rows-count :
    (id : Text) (from : State) (write : Row → Row) (rows : List Row)
    → NoDup (ids rows)
    → (update_rows id from write rows).1 ≡ hit from (find_row id rows)
unfolding update_rows matches
update_rows-count id from write [] d = refl
update_rows-count id from write (r ∷ rows) d = elim (Bool-cases (text_eq r.id id)) [
  | inr e ↦ ground (arith, e, update_rows-count id from write rows d.1)
  | inl e ↦
      ground
        (arith, e, update_rows-absent id from write rows (rw (← (text_eq_iff r.id id).0 e) d.0))
]

abbrev pub flag : Option Row → State → Bool
flag none from = false
flag (some r) from = same_state r.state from

hit-one : (from : State) (o : Option Row) → (hit from o == 1) ≡ flag o from
hit-one from none = refl
hit-one from (some r) = ground arith

-- The flag of a write says whether the instance's row was in the state, and the write then changes
-- that row alone.
update_instance_state_lem :
    (id : Text) (from to : State) (rows : List Row)
    → NoDup (ids rows)
    → ((update_instance_state id from to rows).1 ≡ flag (find_row id rows) from)
      × ((j : Text)
          → find_row j (update_instance_state id from to rows).0
            ≡ on_row (written id from (move to)) (find_row j rows))
unfolding update_instance_state
update_instance_state_lem id from to rows d = (
  ap (λ (n : ℕ). n == 1) (update_rows-count id from (move to) rows d)
      ∙ hit-one from (find_row id rows),
  λ j. find_row-update_rows id from (move to) j rows (λ r. refl),
)

-- Where ids are unique, `SetState` over an edge of the table answers whether the instance was in
-- the first state, moves its row to the second if so, and leaves every other row as it was. Over
-- any other pair it answers the error and writes nothing.
pub set_state_lem :
    (id : Text) (from to : State) (rows : List Row)
    → NoDup (ids rows)
    → (valid from to ≡ true)
        × ((set_state id from to rows).1 ≡ ok (flag (find_row id rows) from))
        × ((j : Text)
            → find_row j (set_state id from to rows).0
              ≡ on_row (written id from (move to)) (find_row j rows))
      ⊎ (valid from to ≡ false) × (set_state id from to rows ≡ (rows, err (illegal from to)))
unfolding set_state validate_transition
set_state_lem id from to rows d =
    let (p, q) = update_instance_state_lem id from to rows d in
    elim (Bool-cases (valid from to)) [
      | inl v ↦ inl (v, rw v (ap ok p), λ j. rw v (q j))
      | inr v ↦ inr (v, rw v refl)
    ]

ids-update_rows :
    (id : Text) (from : State) (write : Row → Row) (rows : List Row)
    → ((r : Row) → (write r).id ≡ r.id)
    → ids (update_rows id from write rows).0 ≡ ids rows
unfolding update_rows matches
ids-update_rows id from write [] h = refl
ids-update_rows id from write (r ∷ rows) h =
    ground (arith, ids-update_rows id from write rows h, h r)

find_row-id :
    (j : Text) (rows : List Row) (r : Row) → find_row j rows ≡ some r → text_eq r.id j ≡ true
find_row-id j [] r h = cc
find_row-id j (q ∷ rows) r h = ground (arith, find_row-id j rows r)

-- A write whose instance is not in the state changes no row.
written-unflagged :
    (id j : Text) (from to : State) (rows : List Row)
    → flag (find_row id rows) from ≡ false
    → on_row (written id from (move to)) (find_row j rows) ≡ find_row j rows
written-unflagged id j from to rows h = elim (Option-cases (find_row j rows)) [
  | inl e ↦ rw e refl
  | inr (r, e) ↦ elim (Bool-cases (text_eq r.id id)) [
    | inr k ↦ ground (arith, e, k)
    | inl k ↦
        let same : j ≡ id =
          sym ((text_eq_iff r.id j).0 (find_row-id j rows r e)) ∙ (text_eq_iff r.id id).0 k in
        let f : same_state r.state from ≡ false = rw (← same, e) at h in ground (arith, e, f)
  ]
]

flag-true :
    (o : Option Row) (from : State)
    → flag o from ≡ true
    → (r : Row) × (o ≡ some r) × (r.state ≡ from)
flag-true none from h = cc
flag-true (some r) from h = (r, refl, (same_state_iff r.state from).0 h)

ok-injective : (a b : Bool) → ◌≡◌ {A = Result Bool} (ok a) (ok b) → a ≡ b
ok-injective a b h = cc

set_state-ids :
    (id : Text) (from to : State) (rows : List Row) → ids (set_state id from to rows).0 ≡ ids rows
unfolding set_state validate_transition update_instance_state
set_state-ids id from to rows = elim (Bool-cases (valid from to)) [
  | inl v ↦ rw v (ids-update_rows id from (move to) rows (λ r. refl))
  | inr v ↦ rw v refl
]

-- The parts of `set_state_lem` at a legal edge.
set_state-valid :
    (id : Text) (from to : State) (rows : List Row)
    → NoDup (ids rows)
    → valid from to ≡ true
    → ((set_state id from to rows).1 ≡ ok (flag (find_row id rows) from))
      × ((j : Text)
          → find_row j (set_state id from to rows).0
            ≡ on_row (written id from (move to)) (find_row j rows))
set_state-valid id from to rows d v = elim (set_state_lem id from to rows d) [
  | inl (w, p, q) ↦ (p, q)
  | inr (w, p) ↦ cc (v, w)
]

-- Of two writers that saw an instance in one state, both of whose edges are legal, and of whom
-- the first moved it to another state, the second moves nothing: it is told so, and every row is
-- as the first left it. Ids are unique.
pub set_state_race :
    (id : Text) (from to to' : State) (rows : List Row)
    → NoDup (ids rows)
    → from ≢ to
    → valid from to ≡ true
    → valid from to' ≡ true
    → (set_state id from to rows).1 ≡ ok true
    → let after = (set_state id from to rows).0 in
      ((set_state id from to' after).1 ≡ ok false)
      × ((j : Text) → find_row j (set_state id from to' after).0 ≡ find_row j after)
set_state_race id from to to' rows d ne v v' won =
    let after = (set_state id from to rows).0 in
    let (p, q) = set_state-valid id from to rows d v in
    let (p', q') = set_state-valid id from to' after (rw (set_state-ids id from to rows) d) v' in
    let (r, e, s) =
      flag-true (find_row id rows) from
        (ok-injective (flag (find_row id rows) from) true (sym p ∙ won)) in
    let moved : find_row id after ≡ some (record r { state = to }) =
      q id ∙ rw e (ground (arith, find_row-id id rows r e, (same_state_iff r.state from).1 s)) in
    let off : flag (find_row id after) from ≡ false =
      rw moved (ground (arith, same_state_iff to from, ne)) in
    (p' ∙ ap ok off, λ j. q' j ∙ written-unflagged id j from to' after off)
