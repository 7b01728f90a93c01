-- ===== src/Installer.antt =====
-- internal/mods/installer/diff.go, and checkNoDuplicateDest of plan.go: what an install writes.
mod Manifests
mod Samples
use valmin.Shared.{
  Bool, true, false, not, ◌&&◌, ◌||◌, List, [], ◌∷◌, ◌++◌, Option, none, some, Text, codes, text_eq,
  if◌then◌else◌, ◌==◌, split, lookup,
}

pub record Placement : Type 0 where
  pub source : Text
  pub dest : Text

pub data Action : Type 0 where
  create overwrite skip : Action

pub record Change : Type 0 where
  pub placement : Placement
  pub action : Action
  pub reason : Text
  pub unowned : Bool

-- What the disk holds at a path: `broken` is an error of the look, or a directory.
pub data Found : Type 0 where
  absent regular broken : Found

pub data Error : Type 0 where
  unsafe_dest : (dest : Text) → Error
  stat_failed : (dest : Text) → Error
  conflict : (path owner : Text) → Error
  hash_failed : (source : Text) → Error
  duplicate_dest : (dest first second : Text) → Error

pub data Result (A : Type 0) : Type 0 where
  ok : A → Result A
  err : Error → Result A

-- `strings.HasPrefix(s, prefix)`.
abbrev pub has_prefix : (s prefix : Text) → Bool
has_prefix s [] = true
has_prefix [] (p ∷ prefix) = false
has_prefix (c ∷ s) (p ∷ prefix) = c == p && has_prefix s prefix

abbrev pub config_root : Text
config_root = codes "BepInEx/config/"

pub user_config : Text → Bool
user_config dest = has_prefix dest config_root

abbrev dot : Text
dot = codes "."

abbrev pub dot_dot : Text
dot_dot = codes ".."

-- `path.Clean` on a relative path, element by element: the elements before, the nearest first.
abbrev back : List Text → List Text
back [] = dot_dot ∷ []
back (e ∷ es) = if text_eq e dot_dot then dot_dot ∷ e ∷ es else es

pub clean_parts : List Text → List Text → List Text
clean_parts [] es = es
clean_parts (p ∷ ps) es =
    clean_parts ps
      (if text_eq p [] || text_eq p dot then es else if text_eq p dot_dot then back es else p ∷ es)

abbrev pub holds : Text → List Text → Bool
holds e [] = false
holds e (x ∷ xs) = text_eq x e || holds e xs

abbrev is_abs : Text → Bool
is_abs [] = false
is_abs (c ∷ s) = c == b'/'

abbrev is_empty : Text → Bool
is_empty [] = true
is_empty (c ∷ s) = false

-- `CheckDest`, with the cleaned path as its elements, the last first. A cleaned relative path is
-- local exactly if no element of it is `..`.
pub check_dest : Text → Result (List Text)
unfolding clean_parts
check_dest dest =
    let cleaned = clean_parts (split dest b'/') [] in
    if is_empty dest || is_abs dest || holds dot_dot cleaned
    then err (unsafe_dest dest)
    else ok cleaned

abbrev exists_at : Found → Option Bool
exists_at absent = some false
exists_at regular = some true
exists_at broken = none

abbrev owned_elsewhere : Text → Option Text → Option Text
owned_elsewhere full_name none = none
owned_elsewhere full_name (some owner) =
    if not (text_eq owner []) && not (text_eq owner full_name) then some owner else none

abbrev pub is_claimed : Option Text → Bool
is_claimed none = false
is_claimed (some owner) = true

abbrev skip_config_exists : Text
skip_config_exists = codes "a config file already exists; user settings are never overwritten"

abbrev skip_unowned_kept : Text
skip_unowned_kept = codes "a file no mod owns was already there and is kept"

-- The verdict on one placement, past the tests of its destination.
unowned_of : Option Text → Placement → Bool → Option Text → Result Change
unowned_of (some owner) p exists claim = err (conflict p.dest owner)
unowned_of none p exists claim = ok (record {
  placement = p;
  action = if exists then overwrite else create;
  reason = [];
  unowned = exists && not (is_claimed claim);
})

verdict : Text → Placement → Option Bool → Option Text → Result Change
unfolding user_config
verdict full_name p none claim = err (stat_failed p.dest)
verdict full_name p (some exists) claim =
    if exists && user_config p.dest
    then ok (record { placement = p; action = skip; reason = skip_config_exists; unowned = false })
    else unowned_of (owned_elsewhere full_name claim) p exists claim

module _ (full_name : Text) (stat : List Text → Found) (claims : List (Text × Text)) where
  at_dest : Result (List Text) → Placement → Result Change
  at_dest (err e) p = err e
  at_dest (ok cleaned) p = verdict full_name p (exists_at (stat cleaned)) (lookup p.dest claims)

  abbrev and_then : Result Change → Result (List Change) → Result (List Change)
  and_then (err e) rest = err e
  and_then (ok c) (err e) = err e
  and_then (ok c) (ok cs) = ok (c ∷ cs)

  -- `Diff`: the disk below the server root and the claims are as they are found.
  pub diff : List Placement → Result (List Change)
  unfolding check_dest
  diff [] = ok []
  diff (p ∷ ps) = and_then (at_dest (check_dest p.dest) p) (diff ps)

pub data Unowned : Type 0 where
  unowned_ask unowned_keep unowned_replace : Unowned

apply_to : Unowned → Change → Change
apply_to unowned_keep c =
    if c.unowned then record c { action = skip; reason = skip_unowned_kept } else c
apply_to _ c = c

-- `ApplyUnowned`: the changes after it, and the paths that wait for an answer.
pub apply_unowned : Unowned → List Change → List Change
apply_unowned answer [] = []
apply_unowned answer (c ∷ cs) = apply_to answer c ∷ apply_unowned answer cs

pub waiting : Unowned → List Change → List Text
waiting unowned_ask [] = []
waiting unowned_ask (c ∷ cs) =
    let rest = waiting unowned_ask cs in if c.unowned then c.placement.dest ∷ rest else rest
waiting _ cs = []

pub record ManifestEntry : Type 0 where
  pub path : Text
  pub sha256 : Text

abbrev pub is_skip : Action → Bool
is_skip skip = true
is_skip _ = false

abbrev entry_with : Option Text → Change → Result (List ManifestEntry) → Result (List ManifestEntry)
entry_with none c rest = err (hash_failed c.placement.source)
entry_with (some h) c (err e) = err e
entry_with (some h) c (ok es) = ok (record { path = c.placement.dest; sha256 = h } ∷ es)

-- `Manifest`, with the hash of a staged source given.
pub manifest : (Text → Option Text) → List Change → Result (List ManifestEntry)
manifest sum [] = ok []
manifest sum (c ∷ cs) =
    let rest = manifest sum cs in
    if is_skip c.action then rest else entry_with (sum c.placement.source) c rest

abbrev duplicate_at : Option Text → Placement → Option Error → Option Error
duplicate_at none p rest = rest
duplicate_at (some first) p rest = some (duplicate_dest p.dest first p.source)

duplicate_from : List (Text × Text) → List Placement → Option Error
duplicate_from seen [] = none
duplicate_from seen (p ∷ ps) =
    duplicate_at (lookup p.dest seen) p (duplicate_from ((p.dest, p.source) ∷ seen) ps)

-- `checkNoDuplicateDest`.
pub check_no_duplicate_dest : List Placement → Option Error
unfolding duplicate_from
check_no_duplicate_dest ps = duplicate_from [] ps
