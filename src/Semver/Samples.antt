-- ===== src/Semver/Samples.antt =====
-- The theorems about versions at concrete inputs, and the package's own test cases.
use Prim.Native.Nat.{Ordering}
use valmin.Shared.{◌≡◌, refl, ◌↔◌, true, [], none, some, arith, Text, codes}
use valmin.Semver.{
  Core, Version, parse, greater, parse_version, numeric_identifier, compare, compare_entry,
  compare_pre,
}
use valmin.Semver.Transitive.{compare_trans}
use valmin.Semver.Clashing.{compare_clash}
use valmin.Semver.Parsing.{Spells, parse_version_iff, parse_plus}

abbrev core_100 : Core
core_100 = record { major = 1; minor = 0; patch = 0 }

abbrev rc : Text → Version
rc pre = record { core = core_100; pre = pre }

parse_beta :
    parse_version (codes "2.0.14-beta.5")
    ≡ some (record { core = record { major = 2; minor = 0; patch = 14 }; pre = codes "beta.5" })
unfolding parse_version
parse_beta = refl

refused :
    (parse_version (codes "1.2.3-") ≡ none)
    × (parse_version (codes "1.2.3-beta..1") ≡ none)
    × (parse_version (codes "1.2-beta") ≡ none)
    × (parse_version (codes "1.2.3.4") ≡ none)
    × (parse_version [] ≡ none)
unfolding parse_version
refused = (refl, refl, refl, refl, refl)

numbers_in_order : compare (rc (codes "beta.2")) (rc (codes "beta.11")) ≡ Ordering.lt
unfolding compare compare_entry compare_pre
numbers_in_order = refl

greater_numerically :
    greater
      (record { major = 1; minor = 10; patch = 0 })
      (record { major = 1; minor = 9; patch = 9 })
    ≡ true
unfolding greater
greater_numerically = refl

compare_trans_example : compare (rc (codes "alpha")) (rc []) ≡ Ordering.lt
unfolding compare compare_entry compare_pre numeric_identifier
compare_trans_example =
    compare_trans (rc (codes "alpha")) (rc (codes "beta")) (rc []) (ground arith) (ground arith)
      refl refl

compare_clash_example :
    (compare (rc (codes "beta.1")) (rc (codes "beta.01")) ≡ Ordering.lt)
    × (compare (rc (codes "beta.01")) (rc (codes "beta.1")) ≡ Ordering.lt)
unfolding numeric_identifier
compare_clash_example =
    compare_clash (rc (codes "beta.1")) (rc (codes "beta.01")) refl (ground arith)

parse_version_iff_example :
    (parse_version (codes "1.0.0-rc.1") ≡ some (rc (codes "rc.1")))
    ↔ Spells (codes "1.0.0-rc.1") (rc (codes "rc.1"))
parse_version_iff_example = parse_version_iff (codes "1.0.0-rc.1") (rc (codes "rc.1"))

parse_plus_example : parse (codes "+1.2.3") ≡ parse (codes "1.2.3")
parse_plus_example = parse_plus b'1' (codes ".2.3") refl
