-- ===== src/Topics/Samples.antt =====
-- Topics of one instance.
use valmin.Shared.{◌≡◌, refl, ◌↔◌, true, none, some, codes}
use valmin.Topics.{Topic, kind_state, parse, wire, valid_id}
use valmin.Topics.Wire.{parse_iff}

abbrev state_of_i : Topic
state_of_i = record { kind = kind_state; id = codes "i" }

no_wildcard : parse (codes "instance.*.state") ≡ none
unfolding parse valid_id
no_wildcard = refl

parse_iff_example :
    (parse (codes "instance.i.state") ≡ some state_of_i)
    ↔ (valid_id (codes "i") ≡ true) × (wire state_of_i ≡ codes "instance.i.state")
parse_iff_example = parse_iff (codes "instance.i.state") state_of_i
