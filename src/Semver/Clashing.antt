-- ===== src/Semver/Clashing.antt =====
-- Versions that spell one number differently are not ordered.
use Prim.Native.Nat.{Ordering}
use mathlib.Core.Path.{subst}
use valmin.Shared.{
  ℕ, ◌≡◌, sym, ap, ◌≢◌, inl, inr, Bool, List, [], ◌∷◌, Option, none, some, arith, Text, text_lt,
  text_eq_iff, split,
}
use valmin.Semver.{
  Version, numeric_identifier, compare_identifier, compare_identifiers, compare_pre_release,
  compare_entry, compare_pre, compare, compare_values,
}
use valmin.Semver.Order.{SameNumber, Clashes, identifiers}
use valmin.Semver.Transitive.{compare_identifiers_self}

compare_values_clash :
    (m n : Option ℕ) (t : Bool) → SameNumber m n → compare_values m n t ≡ Ordering.lt
compare_values_clash (some x) (some y) t h = ground arith
compare_values_clash (some x) none t h = absurd h
compare_values_clash none n t h = absurd h

SameNumber-sym : (m n : Option ℕ) → SameNumber m n → SameNumber n m
SameNumber-sym (some x) (some y) h = sym h
SameNumber-sym (some x) none h = absurd h
SameNumber-sym none n h = absurd h

Clashes-sym : (as' bs : List Text) → Clashes as' bs → Clashes bs as'
Clashes-sym [] bs h = absurd h
Clashes-sym (a ∷ as') [] h = absurd h
Clashes-sym (a ∷ as') (b ∷ bs) (inl h) = inl (record {
  same = SameNumber-sym (numeric_identifier a) (numeric_identifier b) h.same;
  apart = λ e. h.apart (sym e);
})
Clashes-sym (a ∷ as') (b ∷ bs) (inr (e, h)) = inr (sym e, Clashes-sym as' bs h)

compare_identifiers_clash :
    (as' bs : List Text) → Clashes as' bs → compare_identifiers as' bs ≡ Ordering.lt
unfolding compare_identifiers compare_identifier
compare_identifiers_clash [] bs h = absurd h
compare_identifiers_clash (a ∷ as') [] h = absurd h
compare_identifiers_clash (a ∷ as') (b ∷ bs) (inl h) = ground (
  arith,
  text_eq_iff a b,
  compare_values_clash (numeric_identifier a) (numeric_identifier b) (text_lt b a) h.same,
  h.apart,
)
compare_identifiers_clash (a ∷ as') (b ∷ bs) (inr (e, h)) =
    ground (arith, text_eq_iff a b, compare_identifiers_clash as' bs h)

Clashes-empty : (s : Text) → Clashes (split s b'.') ([] ∷ []) → ⊥
unfolding numeric_identifier
Clashes-empty s h = go (split s b'.') (Clashes-sym (split s b'.') ([] ∷ []) h)
  where
    go : (ids : List Text) → Clashes ([] ∷ []) ids → ⊥
    go [] k = k
    go (x ∷ xs) (inl k) = k.same
    go (x ∷ xs) (inr (e, k)) = k

compare_pre_clash :
    (a b : Text) → Clashes (split a b'.') (split b b'.') → compare_pre a b ≡ Ordering.lt
unfolding compare_pre compare_pre_release
compare_pre_clash a b h =
    let l = compare_identifiers_clash (split a b'.') (split b b'.') h in
    let ne : a ≢ b = λ e. cc (
      l,
      ap (λ (t : Text). compare_identifiers (split t b'.') (split b b'.')) e,
      compare_identifiers_self (split b b'.'),
    ) in
    let na : a ≢ [] = λ e.
      Clashes-empty b (Clashes-sym _ _ (subst (λ t. Clashes (split t b'.') (split b b'.')) e h)) in
    ground (arith, text_eq_iff a b, text_eq_iff a [], ne, na, l)

compare_lt_of_pre :
    (a b : Version)
    → a.core ≡ b.core
    → compare_pre a.pre b.pre ≡ Ordering.lt
    → compare a b ≡ Ordering.lt
unfolding compare compare_entry
compare_lt_of_pre a b e h = ground arith

-- Two versions with one core, whose first differing identifiers spell one number, are each below
-- the other.
pub compare_clash :
    (a b : Version)
    → a.core ≡ b.core
    → Clashes (identifiers a) (identifiers b)
    → (compare a b ≡ Ordering.lt) × (compare b a ≡ Ordering.lt)
compare_clash a b e h = (
  compare_lt_of_pre a b e (compare_pre_clash a.pre b.pre h),
  compare_lt_of_pre b a (sym e)
      (compare_pre_clash b.pre a.pre (Clashes-sym (identifiers a) (identifiers b) h)),
)
