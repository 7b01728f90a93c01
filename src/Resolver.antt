-- ===== src/Resolver.antt =====
-- internal/mods/resolver: the dependency closure of an install, and the edges that a plan leaves
-- unmet.
mod Closing
mod Conflicts
mod Check
mod Fuel
mod Total
mod Versions
mod Invariant
mod Edges
mod Walk
mod Expand
mod Reach
mod Requests
mod Walked
mod Complete
mod Samples
use valmin.Shared.{
  ℕ, zero, suc, Bool, true, false, not, ◌&&◌, ◌||◌, List, [], ◌∷◌, ◌++◌, map, Option, none, some,
  Text, text_eq, ◌==◌, leb, if◌then◌else◌, split, cut, is_digit, lookup, insert, contains, sort_on,
  self, compact,
}
use Prim.Native.Nat.{Ordering}
use valmin.Semver.{Version, id_char, parse_version, compare}

pub record Request : Type 0 where
  pub full_name : Text
  pub version : Text

pub record Node : Type 0 where
  pub full_name : Text
  pub version : Text
  pub transitive : Bool
  pub no_op : Bool

-- What the caller supplies: the cached index and the instance's installed packages. A second result
-- that is `false` is `none`.
pub record Index : Type 0 where
  pub dependencies : Text → Text → Option (List Text)
  pub installed : Text → Option Text
  pub held : Text → Bool

pub data Error : Type 0 where
  held_at : (full_name version requested : Text) → Error
  unresolved : (full_name version : Text) → Error
  malformed_dependency : (full_name version dependency : Text) → Error
  bad_version : (full_name version : Text) → Error
  cycle : List Text → Error
  -- Not the program's: the bound on the depth of the walk was reached.
  out_of_fuel : Error

pub data Result (A : Type 0) : Type 0 where
  ok : A → Result A
  err : Error → Result A

infixl 5 ◌>>=◌ ◌>>◌
abbrev pub ◌>>=◌ : {A B : Type 0} → Result A → (A → Result B) → Result B
ok a >>= f = f a
err e >>= f = err e

abbrev pub ◌>>◌ : {B : Type 0} → Result (Unit {0}) → Result B → Result B
m >> k = m >>= λ _. k

-- `depPattern`: the version half is three numbers, and a suffix of identifier characters and dots.
abbrev all_digits : Text → Bool
all_digits [] = true
all_digits (c ∷ s) = is_digit c && all_digits s

abbrev number_shape : Text → Bool
number_shape [] = false
number_shape (c ∷ s) = all_digits (c ∷ s)

abbrev core_shape : List Text → Bool
core_shape (a ∷ b ∷ c ∷ []) = number_shape a && number_shape b && number_shape c
core_shape _ = false

abbrev suffix_chars : Text → Bool
suffix_chars [] = true
suffix_chars (c ∷ s) = (id_char c || c == b'.') && suffix_chars s

abbrev suffix_shape : Text → Bool
suffix_shape [] = false
suffix_shape (c ∷ s) = suffix_chars (c ∷ s)

abbrev version_halves : Option (Text × Text) → Text → Bool
version_halves none v = core_shape (split v b'.')
version_halves (some (core, pre)) v = core_shape (split core b'.') && suffix_shape pre

pub version_shape : Text → Bool
version_shape v = version_halves (cut v b'-') v

-- `.+` takes no line break and at least one character.
abbrev no_line_break : Text → Bool
no_line_break [] = true
no_line_break (c ∷ s) = not (c == b'\n') && no_line_break s

abbrev name_shape : Text → Bool
name_shape [] = false
name_shape (c ∷ s) = no_line_break (c ∷ s)

abbrev or_else : Option (Text × Text) → Option (Text × Text) → Option (Text × Text)
or_else none o = o
or_else (some r) o = some r

-- The first group is greedy, so the last hyphen that fits is the one.
split_dependency : Text → Text → Option (Text × Text)
unfolding version_shape
split_dependency name [] = none
split_dependency name (c ∷ s) =
    or_else (split_dependency (name ++ c ∷ []) s)
      (if c == b'-' && name_shape name && version_shape s then some (name, s) else none)

unfoldable pub parse_dependency : Text → Option (Text × Text)
unfolding split_dependency
parse_dependency ident = split_dependency [] ident

-- A version that does not parse is not higher, and nothing is higher than it.
abbrev higher_parsed : Option Version → Option Version → Bool
higher_parsed (some a) (some b) = elim (compare a b) [ Ordering.gt ↦ true | _ ↦ false ]
higher_parsed (some a) none = false
higher_parsed none b = false

pub higher : Text → Text → Bool
higher a b = higher_parsed (parse_version a) (parse_version b)

pub record ResolveState : Type 0 where
  pub highest : List (Text × Text)
  pub fixed : List (Text × Text)
  pub explicit : List Text
  pub expanded : List Text
  pub order : List Text

-- `err != nil` for `semver.ParseVersion`.
abbrev parses : Option Version → Bool
parses none = false
parses (some v) = true

-- The map's `order` grows by a package that is new, the map itself where the version is higher.
record_seen : Option Text → Text → Text → ResolveState → ResolveState
record_seen none name version s = record s {
  order = s.order ++ name ∷ [];
  highest = insert name version s.highest;
}
record_seen (some cur) name version s =
    if higher version cur then record s { highest = insert name version s.highest } else s

pub record_highest : Text → Text → ResolveState → ResolveState
unfolding record_seen
record_highest name version s = record_seen (lookup name s.highest) name version s

check_cycle : List Text → Text → Result (Unit {0})
check_cycle path name = if contains name path then err (cycle (path ++ name ∷ [])) else ok tt

-- The key of `expanded`.
abbrev key : Text → Text → Text
key name version = name ++ b'@' ∷ version

-- `s.highest[fullName]` on a missing key is the empty string.
abbrev or_empty : Option Text → Text
or_empty none = []
or_empty (some v) = v

chosen_at : Option Text → Option Text → Text
chosen_at (some fixed) highest = fixed
chosen_at none highest = or_empty highest

pub chosen : ResolveState → Text → Text
unfolding chosen_at
chosen s name = chosen_at (lookup name s.fixed) (lookup name s.highest)

module _ (idx : Index) where
  -- `none` is a package that is not there at the version or above.
  satisfied_by : Option Text → Text → Text → Result (Option Text)
  satisfied_by none name version = ok none
  satisfied_by (some installed) name version =
      if not (parses (parse_version installed))
      then err (bad_version name installed)
      else ok (if higher version installed then none else some installed)

  pub installed_satisfies : Text → Text → Result (Option Text)
  unfolding satisfied_by
  installed_satisfies name version = satisfied_by (idx.installed name) name version

  -- The installed version of a held package.
  abbrev held_version : Text → Option Text
  held_version name = if idx.held name then idx.installed name else none

  -- `expand` is the function that walks the package's own dependencies.
  module _ (expand : Text → Text → List Text → ResolveState → Result ResolveState) where
    walk_satisfied : Option Text → Text → Text → List Text → ResolveState → Result ResolveState
    walk_satisfied (some installed) name version path s = ok (record_highest name installed s)
    walk_satisfied none name version path s = expand name version path s

    walk_held : Option Text → Text → Text → List Text → ResolveState → Result ResolveState
    unfolding walk_satisfied
    walk_held (some installed) name version path s =
        ok (record_highest name installed (record s { fixed = insert name installed s.fixed }))
    walk_held none name version path s =
        installed_satisfies name version >>= λ sat. walk_satisfied sat name version path s

    walk_fixed : Option Text → Text → Text → List Text → ResolveState → Result ResolveState
    unfolding walk_held
    walk_fixed (some v) name version path s = ok s
    walk_fixed none name version path s = walk_held (held_version name) name version path s

    walk : Text → Text → List Text → ResolveState → Result ResolveState
    unfolding walk_fixed check_cycle
    walk name version path s =
        check_cycle path name >> walk_fixed (lookup name s.fixed) name version path s

    -- The loop over the dependencies of `name` at `version`.
    walk_dependency :
        Option (Text × Text) → Text → Text → Text → List Text → ResolveState → Result ResolveState
    unfolding walk
    walk_dependency none name version dep path s = err (malformed_dependency name version dep)
    walk_dependency (some (dep_name, dep_version)) name version dep path s =
        walk dep_name dep_version path s

    pub walk_dependencies : Text → Text → List Text → List Text → ResolveState → Result ResolveState
    unfolding walk_dependency
    walk_dependencies name version path [] s = ok s
    walk_dependencies name version path (dep ∷ deps) s =
        walk_dependency (parse_dependency dep) name version dep path s
        >>= walk_dependencies name version path deps

    expand_new : Text → Text → List Text → List Text → ResolveState → Result ResolveState
    unfolding walk_dependencies
    expand_new name version deps path s =
        if contains (key name version) s.expanded
        then ok s
        else walk_dependencies name version (path ++ name ∷ []) deps
            (record s { expanded = key name version ∷ s.expanded })

    expand_known : Option (List Text) → Text → Text → List Text → ResolveState → Result ResolveState
    unfolding expand_new
    expand_known none name version path s = err (unresolved name version)
    expand_known (some deps) name version path s =
        expand_new name version deps path (record_highest name version s)

  -- The recursion of `expand` through `walk`, at most `fuel` packages deep.
  pub expand : ℕ → Text → Text → List Text → ResolveState → Result ResolveState
  unfolding expand_known
  expand zero name version path s = err out_of_fuel
  expand (suc fuel) name version path s =
      expand_known (expand fuel) (idx.dependencies name version) name version path s
