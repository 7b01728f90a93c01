-- ===== src/Semver.antt =====
-- internal/mods/semver: the versions of packages, with a pre-release suffix, and their order.
pub mod Order
pub mod Transitive
mod Clashing
mod Parsing
mod Samples
use Prim.Native.Nat.{Ordering}
use valmin.Shared.{
  ℕ, Bool, true, false, not, ◌&&◌, ◌||◌, List, [], ◌∷◌, Option, none, some, Text, text_eq, text_lt,
  ◌==◌, ltb, leb, if◌then◌else◌, split, cut, ℤ, pos, negsuc, atoi,
}

-- `[3]int`: no entry is negative, since `Parse` refuses that.
pub record Core : Type 0 where
  pub major : ℕ
  pub minor : ℕ
  pub patch : ℕ

pub record Version : Type 0 where
  pub core : Core
  pub pre : Text

-- `n, err := strconv.Atoi(p)`, where an error and `n < 0` are refused alike.
abbrev natural : Option ℤ → Option ℕ
natural (some (pos n)) = some n
natural (some (negsuc n)) = none
natural none = none

abbrev core_of : Option ℕ → Option ℕ → Option ℕ → Option Core
core_of (some a) (some b) (some c) = some (record { major = a; minor = b; patch = c })
core_of _ _ _ = none

abbrev parse_parts : List Text → Option Core
parse_parts (a ∷ b ∷ c ∷ []) = core_of (natural (atoi a)) (natural (atoi b)) (natural (atoi c))
parse_parts _ = none

pub parse : Text → Option Core
parse v = parse_parts (split v b'.')

-- The loop over the three entries, unrolled.
greater : Core → Core → Bool
greater a b =
    if not (a.major == b.major)
    then ltb b.major a.major
    else if not (a.minor == b.minor)
    then ltb b.minor a.minor
    else if not (a.patch == b.patch)
    then ltb b.patch a.patch
    else false

abbrev pub id_char : ℕ → Bool
id_char r =
    leb b'0' r && leb r b'9' || leb b'a' r && leb r b'z' || leb b'A' r && leb r b'Z' || r == b'-'

abbrev pub id_chars : Text → Bool
id_chars [] = true
id_chars (r ∷ id) = id_char r && id_chars id

abbrev valid_id : Text → Bool
valid_id [] = false
valid_id (r ∷ id) = id_chars (r ∷ id)

abbrev valid_ids : List Text → Bool
valid_ids [] = true
valid_ids (id ∷ ids) = valid_id id && valid_ids ids

pub valid_pre_release : Text → Bool
valid_pre_release pre = valid_ids (split pre b'.')

abbrev with_pre : Option Core → Text → Option Version
with_pre none pre = none
with_pre (some c) pre =
    if valid_pre_release pre then some (record { core = c; pre = pre }) else none

abbrev without_pre : Option Core → Option Version
without_pre none = none
without_pre (some c) = some (record { core = c; pre = [] })

-- The rest of `ParseVersion`, at what `strings.Cut` found.
parse_cut : Option (Text × Text) → Text → Option Version
unfolding parse valid_pre_release
parse_cut none v = without_pre (parse v)
parse_cut (some (core, pre)) v = with_pre (parse core) pre

unfoldable pub parse_version : Text → Option Version
unfolding parse_cut
parse_version v = parse_cut (cut v b'-') v

is_pre_release : Version → Bool
is_pre_release v = not (text_eq v.pre [])

-- All digits, read as a number.
pub numeric_identifier : Text → Option ℕ
numeric_identifier s = natural (atoi s)

-- One round of the loop, at two identifiers that differ.
abbrev compare_values : Option ℕ → Option ℕ → Bool → Ordering
compare_values (some an) (some bn) greater_text = if ltb bn an then Ordering.gt else Ordering.lt
compare_values (some an) none greater_text = Ordering.lt
compare_values none (some bn) greater_text = Ordering.gt
compare_values none none greater_text = if greater_text then Ordering.gt else Ordering.lt

pub compare_identifier : Text → Text → Ordering
unfolding numeric_identifier
compare_identifier a b = compare_values (numeric_identifier a) (numeric_identifier b) (text_lt b a)

-- The loop over the identifiers that both lists have, then the comparison of the lengths.
pub compare_identifiers : List Text → List Text → Ordering
unfolding compare_identifier
compare_identifiers [] [] = Ordering.eq
compare_identifiers [] (b ∷ bs) = Ordering.lt
compare_identifiers (a ∷ as') [] = Ordering.gt
compare_identifiers (a ∷ as') (b ∷ bs) =
    if text_eq a b then compare_identifiers as' bs else compare_identifier a b

pub compare_pre_release : Text → Text → Ordering
unfolding compare_identifiers
compare_pre_release a b = compare_identifiers (split a b'.') (split b b'.')

-- One round of the loop over the core: `lt` is a negative result, `gt` a positive one, and `rest`
-- is what follows the round.
pub compare_entry : ℕ → ℕ → Ordering → Ordering
compare_entry x y rest =
    if not (x == y) then (if ltb y x then Ordering.gt else Ordering.lt) else rest

-- The `switch` on the two suffixes.
pub compare_pre : Text → Text → Ordering
unfolding compare_pre_release
compare_pre a b =
    if text_eq a b
    then Ordering.eq
    else if text_eq a []
    then Ordering.gt
    else if text_eq b []
    then Ordering.lt
    else compare_pre_release a b

pub compare : Version → Version → Ordering
compare a b = compare_entry a.core.major b.core.major (
    compare_entry a.core.minor b.core.minor
      (compare_entry a.core.patch b.core.patch (compare_pre a.pre b.pre)))
