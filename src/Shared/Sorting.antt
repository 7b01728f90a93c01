-- ===== src/Shared/Sorting.antt =====
-- `slices.Sort` and its kin, at a string key, and `slices.Compact`.
use mathlib.Core.Path.{◌≡◌}
use mathlib.Core.Logic.{◌⊎◌, ◌↔◌, inl, inr}
use mathlib.Core.Bool.{true, false}
use mathlib.Core.List.{List, [], ◌∷◌}
use native.Mathlib.Omega.{arith}
use valmin.Shared.Tests.{if◌then◌else◌}
use valmin.Shared.Lists.{All, In, All-In, NoDup}
use valmin.Shared.Bytes.{
  Text, text_eq, text_lt, text_eq_iff, text_lt_trans, text_lt_total, text_lt_asym, text_lt_irrefl,
}

module _ {A : Type 0} (key : A → Text) where
  abbrev pub place : A → List A → List A
  place x [] = x ∷ []
  place x (y ∷ ys) =
      let rest = place x ys in if text_lt (key y) (key x) then y ∷ rest else x ∷ y ∷ ys

  abbrev pub sort_on : List A → List A
  sort_on [] = []
  sort_on (x ∷ xs) = place x (sort_on xs)

  -- No element stands in front of one with a smaller key.
  abbrev pub SortedOn : List A → Type 0
  SortedOn [] = Unit
  SortedOn (x ∷ xs) = All (λ y. text_lt (key y) (key x) ≡ false) xs × SortedOn xs

  pub In-place : (a x : A) (ys : List A) → In a (place x ys) → (a ≡ x) ⊎ In a ys
  In-place a x [] i = i
  In-place a x (y ∷ ys) i = ground (arith, In-place a x ys)

  pub place-In : (a x : A) (ys : List A) → (a ≡ x) ⊎ In a ys → In a (place x ys)
  place-In a x [] i = i
  place-In a x (y ∷ ys) i = ground (arith, place-In a x ys)

  In-sort_on : (a : A) (xs : List A) → In a (sort_on xs) → In a xs
  In-sort_on a [] i = i
  In-sort_on a (x ∷ xs) i = elim (In-place a x (sort_on xs) i) [
    | inl e ↦ inl e
    | inr j ↦ inr (In-sort_on a xs j)
  ]

  sort_on-In : (a : A) (xs : List A) → In a xs → In a (sort_on xs)
  sort_on-In a [] i = i
  sort_on-In a (x ∷ xs) (inl e) = place-In a x (sort_on xs) (inl e)
  sort_on-In a (x ∷ xs) (inr i) = place-In a x (sort_on xs) (inr (sort_on-In a xs i))

  -- Sorting keeps the elements.
  pub In-sort_on_iff : (a : A) (xs : List A) → In a (sort_on xs) ↔ In a xs
  In-sort_on_iff a xs = (In-sort_on a xs, sort_on-In a xs)

  place-NoDup : (x : A) (ys : List A) → ¬ In x ys → NoDup ys → NoDup (place x ys)
  place-NoDup x [] n d = (n, d)
  place-NoDup x (y ∷ ys) n d = ground (arith, place-NoDup x ys, In-place y x ys, n, d)

  pub sort_on-NoDup : (xs : List A) → NoDup xs → NoDup (sort_on xs)
  sort_on-NoDup [] d = d
  sort_on-NoDup (x ∷ xs) d =
      place-NoDup x (sort_on xs) (λ i. d.0 (In-sort_on x xs i)) (sort_on-NoDup xs d.1)

  All-place :
      (x y : A) (ys : List A)
      → text_lt (key x) (key y) ≡ false
      → All (λ z. text_lt (key z) (key y) ≡ false) ys
      → All (λ z. text_lt (key z) (key y) ≡ false) (place x ys)
  All-place x y [] h k = (h, k)
  All-place x y (z ∷ ys) h k = ground (arith, All-place x y ys h k.1)

  All-le_trans :
      (x y : A) (ys : List A)
      → text_lt (key y) (key x) ≡ false
      → All (λ z. text_lt (key z) (key y) ≡ false) ys
      → All (λ z. text_lt (key z) (key x) ≡ false) ys
  All-le_trans x y [] h k = tt
  All-le_trans x y (z ∷ ys) h k = (
    ground (
      arith,
      text_lt_trans (key y) (key z) (key x),
      text_lt_trans (key z) (key x) (key y),
      text_lt_total (key z) (key y),
      text_lt_total (key x) (key y),
      k.0,
    ),
    All-le_trans x y ys h k.1,
  )

  place-SortedOn : (x : A) (ys : List A) → SortedOn ys → SortedOn (place x ys)
  place-SortedOn x [] s = (tt, tt)
  place-SortedOn x (y ∷ ys) s = ground (
    arith,
    place-SortedOn x ys s.1,
    All-place x y ys,
    All-le_trans x y ys,
    text_lt_asym (key y) (key x),
  )

  pub sort_on-SortedOn : (xs : List A) → SortedOn (sort_on xs)
  sort_on-SortedOn [] = tt
  sort_on-SortedOn (x ∷ xs) = place-SortedOn x (sort_on xs) (sort_on-SortedOn xs)

abbrev pub self : Text → Text
self s = s

abbrev pub drop_equal : Text → List Text → List Text
drop_equal x [] = x ∷ []
drop_equal x (y ∷ ys) = if text_eq x y then y ∷ ys else x ∷ y ∷ ys

-- `slices.Compact`: of equal neighbours one is kept.
abbrev pub compact : List Text → List Text
compact [] = []
compact (x ∷ xs) = drop_equal x (compact xs)

In-drop_equal : (a x : Text) (ys : List Text) → In a (drop_equal x ys) → (a ≡ x) ⊎ In a ys
In-drop_equal a x [] i = i
In-drop_equal a x (y ∷ ys) i = ground (arith, text_eq_iff x y)

drop_equal-In : (a x : Text) (ys : List Text) → (a ≡ x) ⊎ In a ys → In a (drop_equal x ys)
drop_equal-In a x [] i = i
drop_equal-In a x (y ∷ ys) i = ground (arith, text_eq_iff x y)

In-compact : (a : Text) (xs : List Text) → In a (compact xs) → In a xs
In-compact a [] i = i
In-compact a (x ∷ xs) i = elim (In-drop_equal a x (compact xs) i) [
  | inl e ↦ inl e
  | inr j ↦ inr (In-compact a xs j)
]

compact-In : (a : Text) (xs : List Text) → In a xs → In a (compact xs)
compact-In a [] i = i
compact-In a (x ∷ xs) (inl e) = drop_equal-In a x (compact xs) (inl e)
compact-In a (x ∷ xs) (inr i) = drop_equal-In a x (compact xs) (inr (compact-In a xs i))

pub In-compact_iff : (a : Text) (xs : List Text) → In a (compact xs) ↔ In a xs
In-compact_iff a xs = (In-compact a xs, compact-In a xs)

abbrev pub Rising : List Text → Type 0
Rising [] = Unit
Rising (x ∷ xs) = All (λ y. text_lt x y ≡ true) xs × Rising xs

All-lt_trans :
    (x y : Text) (ys : List Text)
    → text_lt x y ≡ true
    → All (λ z. text_lt y z ≡ true) ys
    → All (λ z. text_lt x z ≡ true) ys
All-lt_trans x y [] h k = tt
All-lt_trans x y (z ∷ ys) h k = (text_lt_trans x y z h k.0, All-lt_trans x y ys h k.1)

drop_equal-Rising :
    (x : Text) (ys : List Text)
    → All (λ z. text_lt z x ≡ false) ys
    → Rising ys
    → Rising (drop_equal x ys)
drop_equal-Rising x [] h r = (tt, tt)
drop_equal-Rising x (y ∷ ys) h r =
    ground (arith, text_eq_iff x y, text_lt_total x y, All-lt_trans x y ys)

All-compact : (P : Text → Type 0) (xs : List Text) → All P xs → All P (compact xs)
All-compact P [] h = tt
All-compact P (x ∷ xs) h = All-drop_equal (compact xs) (All-compact P xs h.1)
  where
    All-drop_equal : (ys : List Text) → All P ys → All P (drop_equal x ys)
    All-drop_equal [] k = (h.0, tt)
    All-drop_equal (y ∷ ys) k =
        elim (text_eq x y) as (λ b. All P (if b then y ∷ ys else x ∷ y ∷ ys)) [
          | true ↦ k
          | false ↦ (h.0, k)
        ]

pub compact-Rising : (xs : List Text) → SortedOn self xs → Rising (compact xs)
compact-Rising [] s = tt
compact-Rising (x ∷ xs) s =
    drop_equal-Rising x (compact xs) (All-compact (λ z. text_lt z x ≡ false) xs s.0)
      (compact-Rising xs s.1)

Rising-NoDup : (xs : List Text) → Rising xs → NoDup xs
Rising-NoDup [] r = tt
Rising-NoDup (x ∷ xs) r =
    ((λ i. cc (All-In (λ y. text_lt x y ≡ true) x xs r.0 i, text_lt_irrefl x)), Rising-NoDup xs r.1)

-- What `slices.Sort` and `slices.Compact` leave holds no element twice.
pub compact-sort-NoDup : (xs : List Text) → NoDup (compact (sort_on self xs))
compact-sort-NoDup xs = Rising-NoDup _ (compact-Rising _ (sort_on-SortedOn self xs))
