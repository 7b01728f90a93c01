-- ===== src/Semver/Parsing.antt =====
-- What `ParseVersion` and `Parse` accept.
use valmin.Shared.{
  ℕ, ◌≡◌, refl, ◌⊎◌, ◌↔◌, inl, inr, ap, true, List, [], ◌∷◌, ◌++◌, Option, none, some, arith, Text,
  is_digit, split, push, cut, cut-append, cut-Lacks, cut-none, cut-some, Lacks, Option-cases, atoi,
}
use valmin.Semver.{
  Core, Version, parse, parse_parts, core_of, natural, with_pre, without_pre, valid_pre_release,
  parse_cut, parse_version,
}

-- The text is a core in front of the suffix, if there is one.
pub record Spells (v : Text) (w : Version) : Type 0 where
  pub core_text : Text
  pub core_parses : parse core_text ≡ some w.core
  pub core_ends : Lacks b'-' core_text
  pub suffix :
      (v ≡ core_text) × (w.pre ≡ [])
      ⊎ (v ≡ core_text ++ b'-' ∷ w.pre) × (valid_pre_release w.pre ≡ true)

without_pre-some :
    (o : Option Core) (w : Version) → without_pre o ≡ some w → (o ≡ some w.core) × (w.pre ≡ [])
without_pre-some none w h = cc
without_pre-some (some c) w h = ground arith

with_pre-some :
    (o : Option Core) (pre : Text) (w : Version)
    → with_pre o pre ≡ some w
    → (o ≡ some w.core) × (w.pre ≡ pre) × (valid_pre_release pre ≡ true)
with_pre-some none pre w h = cc
with_pre-some (some c) pre w h = ground arith

parse_version-Spells : (v : Text) (w : Version) → parse_version v ≡ some w → Spells v w
unfolding parse_version
parse_version-Spells v w h = elim (Option-cases (cut v b'-')) [
  | inl e ↦
      let (p, q) = without_pre-some (parse v) w (rw (e, parse_cut) at h) in
      record {
        core_text = v;
        core_parses = p;
        core_ends = cut-none v b'-' e;
        suffix = inl (refl, q);
      }
  | inr ((c, s), e) ↦
      let (p, q, r) = with_pre-some (parse c) s w (rw (e, parse_cut) at h) in
      let (t, l) = cut-some v b'-' (c, s) e in
      record { core_text = c; core_parses = p; core_ends = l; suffix = inr (rw q t, rw q r) }
]

Spells-parse_version : (v : Text) (w : Version) → Spells v w → parse_version v ≡ some w
unfolding parse_version
Spells-parse_version v w s = elim (s.suffix) [
  | inl (e, q) ↦
      rw (e, cut-Lacks s.core_text b'-' s.core_ends, parse_cut, s.core_parses) (ground arith)
  | inr (e, q) ↦
      rw (e, cut-append s.core_text w.pre b'-' s.core_ends, parse_cut, s.core_parses, q)
        (ground arith)
]

-- `ParseVersion` accepts exactly the texts of a core that holds no hyphen and that `Parse` accepts,
-- alone or followed by a hyphen and a valid pre-release, and returns what it read.
pub parse_version_iff : (v : Text) (w : Version) → (parse_version v ≡ some w) ↔ Spells v w
parse_version_iff v w = (parse_version-Spells v w, Spells-parse_version v w)

-- A sign is no digit, so `Atoi` skips a plus sign in front of one.
atoi_plus : (c : ℕ) (s : Text) → is_digit c ≡ true → atoi (b'+' ∷ c ∷ s) ≡ atoi (c ∷ s)
atoi_plus c s h = ground arith

parse_parts_plus :
    (c : ℕ) (ps : List Text)
    → is_digit c ≡ true
    → parse_parts (push b'+' (push c ps)) ≡ parse_parts (push c ps)
parse_parts_plus c [] h = refl
parse_parts_plus c (p ∷ []) h = refl
parse_parts_plus c (p ∷ q ∷ []) h = refl
parse_parts_plus c (p ∷ q ∷ r ∷ []) h =
    ap (λ (n : Option ℕ). core_of n (natural (atoi q)) (natural (atoi r)))
      (ap natural (atoi_plus c p h))
parse_parts_plus c (p ∷ q ∷ r ∷ t ∷ ps) h = refl

-- `Parse` reads a version that starts with a digit, with a plus sign in front, as it reads the
-- version without it.
pub parse_plus : (c : ℕ) (s : Text) → is_digit c ≡ true → parse (b'+' ∷ c ∷ s) ≡ parse (c ∷ s)
unfolding parse
parse_plus c s h =
    let e : split (c ∷ s) b'.' ≡ push c (split s b'.') = ground arith in
    rw e (parse_parts_plus c (split s b'.') h)
