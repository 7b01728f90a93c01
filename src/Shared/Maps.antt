-- ===== src/Shared/Maps.antt =====
-- Go maps and sets keyed by strings, as association lists and lists.
use mathlib.Core.Path.{◌≡◌, refl}
use mathlib.Core.Logic.{◌⊎◌, inl, inr}
use mathlib.Core.Bool.{Bool, true, false, ◌||◌}
use mathlib.Core.List.{List, [], ◌∷◌, ◌++◌}
use mathlib.Core.Option.{Option, none, some}
use native.Mathlib.Omega.{arith}
use valmin.Shared.Tests.{if◌then◌else◌}
use valmin.Shared.Lists.{In}
use valmin.Shared.Bytes.{Text, text_eq, text_eq_iff}

module _ {ℓ} {V : Type ℓ} where
  -- `v, ok := m[k]`.
  abbrev pub lookup : Text → List (Text × V) → Option V
  lookup k [] = none
  lookup k ((j, v) ∷ m) = if text_eq j k then some v else lookup k m

  -- `m[k] = v`.
  abbrev pub insert : Text → V → List (Text × V) → List (Text × V)
  insert k v m = (k, v) ∷ m

  pub lookup-insert :
      (k j : Text) (v : V) (m : List (Text × V))
      → lookup j (insert k v m) ≡ (if text_eq k j then some v else lookup j m)
  lookup-insert k j v m = refl

-- `slices.Contains`.
abbrev pub contains : Text → List Text → Bool
contains a [] = false
contains a (x ∷ xs) = text_eq x a || contains a xs

pub contains-In : (a : Text) (xs : List Text) → contains a xs ≡ true → In a xs
contains-In a [] h = cc
contains-In a (x ∷ xs) h = ground (arith, text_eq_iff x a, contains-In a xs)

pub In-contains : (a : Text) (xs : List Text) → In a xs → contains a xs ≡ true
In-contains a [] i = absurd i
In-contains a (x ∷ xs) (inl e) = ground (arith, text_eq_iff x a)
In-contains a (x ∷ xs) (inr i) = ground (arith, In-contains a xs i)

pub contains-append :
    (a : Text) (xs ys : List Text) → contains a (xs ++ ys) ≡ (contains a xs || contains a ys)
contains-append a [] ys = refl
contains-append a (x ∷ xs) ys = ground (arith, contains-append a xs ys)

-- What a lookup finds after an insertion is the new value at its key, or was there before.
pub insert-cases :
    {V : Type 0} (n k : Text) (h v : V) (m : List (Text × V))
    → lookup n (insert k v m) ≡ some h
    → (k ≡ n) × (v ≡ h) ⊎ (lookup n m ≡ some h)
insert-cases n k h v m p = ground (arith, text_eq_iff k n)
