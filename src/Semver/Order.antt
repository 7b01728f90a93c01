-- ===== src/Semver/Order.antt =====
-- The order of two versions: when it is zero, and what becomes of it when they are exchanged.
use Prim.Native.Nat.{Ordering}
use valmin.Shared.{
  ℕ, ◌≡◌, refl, ◌≢◌, ◌↔◌, ◌⊎◌, inl, inr, Bool, List, [], ◌∷◌, Option, none, some, arith, Text,
  text_eq, text_lt, text_eq_iff, text_eq_refl, text_eq_sym, text_lt_total, text_lt_asym, split,
  split-injective, Bool-cases,
}
use valmin.Semver.{
  Version, numeric_identifier, compare_identifier, compare_identifiers, compare_pre_release,
  compare_entry, compare_pre, compare, compare_values,
}

abbrev pub flip : Ordering → Ordering
flip Ordering.lt = Ordering.gt
flip Ordering.eq = Ordering.eq
flip Ordering.gt = Ordering.lt

-- Both are numbers, and the same one.
abbrev pub SameNumber : Option ℕ → Option ℕ → Type 0
SameNumber (some x) (some y) = x ≡ y
SameNumber (some x) none = ⊥
SameNumber none n = ⊥

-- Two spellings of one number, such as `1` and `01`.
pub record Clash (x y : Text) : Type 0 where
  pub same : SameNumber (numeric_identifier x) (numeric_identifier y)
  pub apart : x ≢ y

-- The first place where the lists differ holds two spellings of one number.
abbrev pub Clashes : List Text → List Text → Type 0
Clashes [] bs = ⊥
Clashes (a ∷ as') [] = ⊥
Clashes (a ∷ as') (b ∷ bs) = Clash a b ⊎ (a ≡ b) × Clashes as' bs

compare_values-flip :
    (m n : Option ℕ) (a b : Text)
    → a ≢ b
    → (compare_values n m (text_lt a b) ≡ flip (compare_values m n (text_lt b a))) ⊎ SameNumber m n
compare_values-flip (some x) (some y) a b h = ground arith
compare_values-flip (some x) none a b h = inl refl
compare_values-flip none (some y) a b h = inl refl
compare_values-flip none none a b h =
    ground (arith, text_lt_total a b, text_lt_asym a b, text_lt_asym b a)

pub compare_identifier-flip :
    (a b : Text) → a ≢ b → (compare_identifier b a ≡ flip (compare_identifier a b)) ⊎ Clash a b
unfolding compare_identifier
compare_identifier-flip a b h =
    elim (compare_values-flip (numeric_identifier a) (numeric_identifier b) a b h) [
      | inl e ↦ inl e
      | inr s ↦ inr (record { same = s; apart = h })
    ]

compare_identifiers-flip :
    (as' bs : List Text)
    → (compare_identifiers bs as' ≡ flip (compare_identifiers as' bs)) ⊎ Clashes as' bs
unfolding compare_identifiers
compare_identifiers-flip [] [] = inl refl
compare_identifiers-flip [] (b ∷ bs) = inl refl
compare_identifiers-flip (a ∷ as') [] = inl refl
compare_identifiers-flip (a ∷ as') (b ∷ bs) = elim (Bool-cases (text_eq a b)) [
  | inl same ↦ ground (arith, compare_identifiers-flip as' bs, text_eq_iff a b, text_eq_iff b a)
  | inr apart ↦ ground (
    arith,
    compare_identifier-flip a b (λ e. cc (e, apart, text_eq_refl b)),
    text_eq_iff b a,
    text_eq_iff a b,
  )
]

-- An identifier that stands before another one is another one.
compare_values-ne-eq : (m n : Option ℕ) (t : Bool) → compare_values m n t ≢ Ordering.eq
compare_values-ne-eq (some x) (some y) t h = ground arith
compare_values-ne-eq (some x) none t h = cc
compare_values-ne-eq none (some y) t h = cc
compare_values-ne-eq none none t h = ground arith

compare_identifiers-eq : (as' bs : List Text) → compare_identifiers as' bs ≡ Ordering.eq → as' ≡ bs
unfolding compare_identifiers
compare_identifiers-eq [] [] h = refl
compare_identifiers-eq [] (b ∷ bs) h = cc
compare_identifiers-eq (a ∷ as') [] h = cc
compare_identifiers-eq (a ∷ as') (b ∷ bs) h = ground (
  arith,
  text_eq_iff a b,
  compare_identifiers-eq as' bs,
  compare_values-ne-eq (numeric_identifier a) (numeric_identifier b) (text_lt b a),
)

compare_pre_release-eq : (a b : Text) → compare_pre_release a b ≡ Ordering.eq → a ≡ b
unfolding compare_pre_release
compare_pre_release-eq a b h = split-injective a b b'.' (compare_identifiers-eq _ _ h)

-- The pre-release identifiers that the comparison walks.
abbrev pub identifiers : Version → List Text
identifiers v = split v.pre b'.'

compare_pre-flip :
    (a b : Text)
    → (compare_pre b a ≡ flip (compare_pre a b)) ⊎ Clashes (split a b'.') (split b b'.')
unfolding compare_pre compare_pre_release
compare_pre-flip a b = elim (compare_identifiers-flip (split a b'.') (split b b'.')) [
  | inl e ↦ inl (ground (arith, text_eq_sym a b, text_eq_iff a [], text_eq_iff b []))
  | inr c ↦ inr c
]

compare_entry-flip :
    (x y : ℕ) (r s : Ordering) → s ≡ flip r → compare_entry y x s ≡ flip (compare_entry x y r)
unfolding compare_entry
compare_entry-flip x y r s h = ground arith

compare_pre-eq : (a b : Text) → compare_pre a b ≡ Ordering.eq → a ≡ b
unfolding compare_pre
compare_pre-eq a b h = ground (arith, text_eq_iff a b, compare_pre_release-eq a b)

compare_entry-eq :
    (x y : ℕ) (r : Ordering) → compare_entry x y r ≡ Ordering.eq → (x ≡ y) × (r ≡ Ordering.eq)
unfolding compare_entry
compare_entry-eq x y r h = ground arith

compare_self : (a : Version) → compare a a ≡ Ordering.eq
unfolding compare compare_entry compare_pre
compare_self a = ground (arith, text_eq_refl a.pre)

version_eq : (a b : Version) → compare a b ≡ Ordering.eq → a ≡ b
unfolding compare
version_eq a b h =
    let (p, h1) = compare_entry-eq _ _ _ h in
    let (q, h2) = compare_entry-eq _ _ _ h1 in
    let (r, h3) = compare_entry-eq _ _ _ h2 in ground (arith, compare_pre-eq a.pre b.pre h3)

-- `Compare` answers zero exactly for equal versions.
pub compare-eq_iff : (a b : Version) → (compare a b ≡ Ordering.eq) ↔ (a ≡ b)
compare-eq_iff a b = (version_eq a b, λ e. rw e (compare_self b))

-- Exchanging the arguments turns the sign round, unless the first two identifiers that differ
-- spell one number.
pub compare-flip :
    (a b : Version) → (compare b a ≡ flip (compare a b)) ⊎ Clashes (identifiers a) (identifiers b)
unfolding compare
compare-flip a b = elim (compare_pre-flip a.pre b.pre) [
  | inl e ↦
      inl (compare_entry-flip _ _ _ _ (compare_entry-flip _ _ _ _ (compare_entry-flip _ _ _ _ e)))
  | inr c ↦ inr c
]
