-- ===== src/Kinds/Samples.antt =====
-- The register's theorems at concrete kinds.
use valmin.Shared.{◌≡◌, refl, none, Text, codes}
use valmin.Kinds.{name, by_name}

not_a_kind : by_name (codes "rollback") ≡ none
unfolding by_name name
not_a_kind = refl

abbrev left : Text
left = codes "1"

abbrev right : Text
right = codes "2"
