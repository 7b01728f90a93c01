-- ===== src/Lifecycle/Samples.antt =====
-- The theorems on the states at a table of two instances.
use valmin.Shared.{◌≡◌, refl, inl, inr, true, false, List, [], ◌∷◌, arith, Text, codes, NoDup}
use valmin.Kinds.{update_test}
use valmin.Lifecycle.{
  State, stopped, starting, running, deleting, state_name, Row, valid, ok, update_instance_state,
  validate_transition, set_state, allowed_from,
}
use valmin.Lifecycle.Writes.{find_row, ids, set_state_race}
use valmin.Lifecycle.History.{
  Write, set, finish_started, apply_all, Trail, Follows, apply_all-Follows,
}

abbrev row : Text → State → Row
row id s = record {
  id = id;
  state = s;
  restart_required = true;
  pending_restart = true;
  container_id = [];
  game_build_id = [];
}

abbrev one : Text
one = codes "1"

abbrev two : Text
two = codes "2"

abbrev rows : List Row
rows = row one stopped ∷ row two running ∷ []

rows-NoDup : NoDup (ids rows)
rows-NoDup = ((λ i. elim i [ inl e ↦ ground (arith, e) | inr k ↦ absurd k ]), ((λ i. absurd i), tt))

states_in_order : allowed_from update_test ≡ running ∷ stopped ∷ []
unfolding allowed_from state_name
states_in_order = refl

stopped_starting : valid stopped starting ≡ true
unfolding valid
stopped_starting = refl

stopped_deleting : valid stopped deleting ≡ true
unfolding valid
stopped_deleting = refl

first_wins : (set_state one stopped starting rows).1 ≡ ok true
unfolding set_state update_instance_state validate_transition valid
first_wins = refl

set_state_race_example :
    let after = (set_state one stopped starting rows).0 in
    ((set_state one stopped deleting after).1 ≡ ok false)
    × ((j : Text) → find_row j (set_state one stopped deleting after).0 ≡ find_row j after)
set_state_race_example =
    set_state_race one stopped starting deleting rows rows-NoDup (λ e. cc e) stopped_starting
      stopped_deleting first_wins

abbrev writes : List Write
writes =
    set one stopped starting ∷ set one stopped deleting ∷ finish_started one starting running ∷ []

apply_all-Follows_example :
    Follows (Trail writes one) (find_row one rows) (find_row one (apply_all writes rows))
apply_all-Follows_example = apply_all-Follows writes one rows

abbrev leaving : List Row
leaving = row one deleting ∷ []
