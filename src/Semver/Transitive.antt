-- ===== src/Semver/Transitive.antt =====
-- The order of versions is transitive.
use Prim.Native.Nat.{Ordering}
use valmin.Shared.{
  ℕ, ◌≡◌, refl, ◌≢◌, inl, inr, List, [], ◌∷◌, Option, none, some, arith, Text, text_eq, text_lt,
  text_eq_iff, text_eq_sound, text_eq_refl, text_lt_total, text_lt_asym, text_lt_irrefl,
  text_lt_trans, split, Bool-cases,
}
use valmin.Semver.{
  Version, numeric_identifier, compare_identifier, compare_identifiers, compare_pre_release,
  compare_entry, compare_pre, compare, compare_values,
}
use valmin.Semver.Order.{SameNumber, Clash, Clashes, compare_identifier-flip, identifiers}

compare_values_trans :
    (m n k : Option ℕ) (a b c : Text)
    → ¬ SameNumber m n
    → ¬ SameNumber n k
    → compare_values m n (text_lt b a) ≡ Ordering.lt
    → compare_values n k (text_lt c b) ≡ Ordering.lt
    → compare_values m k (text_lt c a) ≡ Ordering.lt
compare_values_trans (some x) (some y) (some z) a b c p q h k = ground arith
compare_values_trans (some x) n none a b c p q h k = refl
compare_values_trans (some x) none (some z) a b c p q h k = cc
compare_values_trans none (some y) k' a b c p q h k = cc
compare_values_trans none none (some z) a b c p q h k = cc
compare_values_trans none none none a b c p q h k = ground (
  arith,
  text_lt_total a b,
  text_lt_total b c,
  text_lt_trans a b c,
  text_lt_asym a c,
  text_lt_irrefl a,
)

compare_identifier_trans :
    (a b c : Text)
    → a ≢ b
    → b ≢ c
    → ¬ Clash a b
    → ¬ Clash b c
    → compare_identifier a b ≡ Ordering.lt
    → compare_identifier b c ≡ Ordering.lt
    → compare_identifier a c ≡ Ordering.lt
unfolding compare_identifier
compare_identifier_trans a b c ab bc p q h k =
    compare_values_trans (numeric_identifier a) (numeric_identifier b) (numeric_identifier c) a b c
      (λ s. p (record { same = s; apart = ab })) (λ s. q (record { same = s; apart = bc })) h k

-- Two different identifiers never stand both before and behind each other, unless they clash.
compare_identifier_asym :
    (a b : Text)
    → a ≢ b
    → ¬ Clash a b
    → compare_identifier a b ≡ Ordering.lt
    → compare_identifier b a ≡ Ordering.gt
compare_identifier_asym a b h p k = elim (compare_identifier-flip a b h) [
  | inl e ↦ ground (arith, e)
  | inr c ↦ absurd (p c)
]

compare_identifiers_trans :
    (as' bs cs : List Text)
    → ¬ Clashes as' bs
    → ¬ Clashes bs cs
    → compare_identifiers as' bs ≡ Ordering.lt
    → compare_identifiers bs cs ≡ Ordering.lt
    → compare_identifiers as' cs ≡ Ordering.lt
unfolding compare_identifiers
compare_identifiers_trans [] [] cs p q h k = cc
compare_identifiers_trans [] (b ∷ bs) [] p q h k = cc
compare_identifiers_trans [] (b ∷ bs) (c ∷ cs) p q h k = refl
compare_identifiers_trans (a ∷ as') [] cs p q h k = cc
compare_identifiers_trans (a ∷ as') (b ∷ bs) [] p q h k = cc
compare_identifiers_trans (a ∷ as') (b ∷ bs) (c ∷ cs) p q h k = elim (Bool-cases (text_eq a b)) [
  | inl ab ↦ elim (Bool-cases (text_eq b c)) [
    | inl bc ↦ ground (
      arith,
      text_eq_iff a b,
      text_eq_iff b c,
      text_eq_iff a c,
      compare_identifiers_trans as' bs cs (λ x. p (inr (text_eq_sound a b ab, x)))
          (λ x. q (inr (text_eq_sound b c bc, x))),
    )
    | inr bc ↦ ground (arith, text_eq_iff a b, text_eq_iff b c, text_eq_iff a c)
  ]
  | inr ab ↦ elim (Bool-cases (text_eq b c)) [
    | inl bc ↦ ground (arith, text_eq_iff a b, text_eq_iff b c, text_eq_iff a c)
    | inr bc ↦
        let ne_ab : a ≢ b = λ e. cc (e, ab, text_eq_refl b) in
        let ne_bc : b ≢ c = λ e. cc (e, bc, text_eq_refl c) in
        ground (
          arith,
          text_eq_iff a c,
          text_eq_iff c a,
          compare_identifier_trans a b c ne_ab ne_bc (λ x. p (inl x)) (λ x. q (inl x)),
          compare_identifier_asym a b ne_ab (λ x. p (inl x)),
        )
  ]
]

pub compare_identifiers_self : (bs : List Text) → compare_identifiers bs bs ≡ Ordering.eq
unfolding compare_identifiers
compare_identifiers_self [] = refl
compare_identifiers_self (b ∷ bs) = rw (text_eq_refl b) (compare_identifiers_self bs)

compare_pre_release_trans :
    (a b c : Text)
    → ¬ Clashes (split a b'.') (split b b'.')
    → ¬ Clashes (split b b'.') (split c b'.')
    → compare_pre_release a b ≡ Ordering.lt
    → compare_pre_release b c ≡ Ordering.lt
    → compare_pre_release a c ≡ Ordering.lt
unfolding compare_pre_release
compare_pre_release_trans a b c =
    compare_identifiers_trans (split a b'.') (split b b'.') (split c b'.')

compare_pre_release_self : (a : Text) → compare_pre_release a a ≡ Ordering.eq
unfolding compare_pre_release
compare_pre_release_self a = compare_identifiers_self (split a b'.')

compare_pre_trans :
    (a b c : Text)
    → ¬ Clashes (split a b'.') (split b b'.')
    → ¬ Clashes (split b b'.') (split c b'.')
    → compare_pre a b ≡ Ordering.lt
    → compare_pre b c ≡ Ordering.lt
    → compare_pre a c ≡ Ordering.lt
unfolding compare_pre
compare_pre_trans a b c p q h k =
    let t = compare_pre_release_trans a b c p q in
    ground (
      arith,
      text_eq_iff a b,
      text_eq_iff b c,
      text_eq_iff a c,
      text_eq_iff a [],
      text_eq_iff b [],
      text_eq_iff c [],
      t,
      compare_pre_release_self a,
    )

compare_entry_trans :
    (x y z : ℕ) (r s t : Ordering)
    → (r ≡ Ordering.lt → s ≡ Ordering.lt → t ≡ Ordering.lt)
    → compare_entry x y r ≡ Ordering.lt
    → compare_entry y z s ≡ Ordering.lt
    → compare_entry x z t ≡ Ordering.lt
unfolding compare_entry
compare_entry_trans x y z r s t f h k = ground arith

-- `Compare` is transitive over versions whose identifiers do not clash, neighbour by neighbour.
pub compare_trans :
    (a b c : Version)
    → ¬ Clashes (identifiers a) (identifiers b)
    → ¬ Clashes (identifiers b) (identifiers c)
    → compare a b ≡ Ordering.lt
    → compare b c ≡ Ordering.lt
    → compare a c ≡ Ordering.lt
unfolding compare
compare_trans a b c p q = compare_entry_trans a.core.major b.core.major c.core.major _ _ _ (
    compare_entry_trans a.core.minor b.core.minor c.core.minor _ _ _ (
      compare_entry_trans a.core.patch b.core.patch c.core.patch _ _ _
        (compare_pre_trans a.pre b.pre c.pre p q)))
