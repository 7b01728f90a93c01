-- ===== src/Shared/Strings.antt =====
-- The functions of Go's `strings` and `strconv` that the program calls.
use Prim.Native.Nat.{ℕ, zero, suc, ◌+◌, ◌-◌, ◌*◌, ◌^◌}
use mathlib.Core.Path.{◌≡◌, refl}
use mathlib.Core.Logic.{◌≢◌, inl, inr}
use mathlib.Core.Bool.{Bool, ◌&&◌}
use mathlib.Core.List.{List, [], ◌∷◌, ◌++◌}
use mathlib.Core.Option.{Option, none, some}
use native.Mathlib.Omega.{arith}
use valmin.Shared.Tests.{◌==◌, leb, if◌then◌else◌, Option-cases}
use valmin.Shared.Bytes.{Text}
use valmin.Shared.Lists.{All}

-- `strings.Split(s, sep)` for a separator of one byte: at least one part.
abbrev pub push : ℕ → List Text → List Text
push c [] = (c ∷ []) ∷ []
push c (p ∷ ps) = (c ∷ p) ∷ ps

abbrev pub split : Text → ℕ → List Text
split [] sep = [] ∷ []
split (c ∷ s) sep = let rest = split s sep in if c == sep then [] ∷ rest else push c rest

-- `strings.Join` with a separator of one byte.
abbrev pub join : List Text → ℕ → Text
join [] sep = []
join (p ∷ []) sep = p
join (p ∷ q ∷ ps) sep = p ++ sep ∷ join (q ∷ ps) sep

-- `strings.Cut(s, sep)` for a separator of one byte; `none` is a separator that is not there.
abbrev pub cut : Text → ℕ → Option (Text × Text)
cut [] sep = none
cut (c ∷ s) sep =
    let rest = cut s sep in
    if c == sep then some ([], s) else elim rest [ none ↦ none | some p ↦ some (c ∷ p.0, p.1) ]

-- `n` is `pos n`, and `-(n + 1)` is `negsuc n`.
pub data ℤ : Type 0 where
  pos : ℕ → ℤ
  negsuc : ℕ → ℤ

abbrev pub is_digit : ℕ → Bool
is_digit c = leb b'0' c && leb c b'9'

abbrev pub digits_from : ℕ → Text → Option ℕ
digits_from n [] = some n
digits_from n (c ∷ s) = if is_digit c then digits_from (n * 10 + (c - b'0')) s else none

-- One decimal digit at least, and nothing else.
abbrev pub digits : Text → Option ℕ
digits [] = none
digits (c ∷ s) = digits_from 0 (c ∷ s)

abbrev pub max_int : ℕ
max_int = 2 ^ 63 - 1

abbrev pub in_range : Option ℕ → Option ℤ
in_range none = none
in_range (some n) = if leb n max_int then some (pos n) else none

abbrev pub minus : ℕ → ℤ
minus zero = pos 0
minus (suc n) = negsuc n

abbrev pub in_range_minus : Option ℕ → Option ℤ
in_range_minus none = none
in_range_minus (some n) = if leb n (max_int + 1) then some (minus n) else none

-- `strconv.Atoi`, with an error as `none`: an optional sign, then digits, in 64 bits.
abbrev pub atoi : Text → Option ℤ
atoi [] = none
atoi (c ∷ s) =
    if c == b'-'
    then in_range_minus (digits s)
    else if c == b'+'
    then in_range (digits s)
    else in_range (digits (c ∷ s))

pub split-ne-nil : (s : Text) (sep : ℕ) → split s sep ≢ []
split-ne-nil [] sep e = cc
split-ne-nil (c ∷ s) sep e = ground (arith, split-ne-nil s sep)

join-push : (c sep : ℕ) (ps : List Text) → ps ≢ [] → join (push c ps) sep ≡ c ∷ join ps sep
join-push c sep [] h = absurd (h refl)
join-push c sep (p ∷ []) h = refl
join-push c sep (p ∷ q ∷ ps) h = refl

join-empty_first : (sep : ℕ) (ps : List Text) → ps ≢ [] → join ([] ∷ ps) sep ≡ sep ∷ join ps sep
join-empty_first sep [] h = absurd (h refl)
join-empty_first sep (p ∷ ps) h = refl

-- The parts of a split, joined again, are the text.
pub join-split : (s : Text) (sep : ℕ) → join (split s sep) sep ≡ s
join-split [] sep = refl
join-split (c ∷ s) sep = ground (
  arith,
  join-split s sep,
  split-ne-nil s sep,
  join-push c sep (split s sep) (split-ne-nil s sep),
  join-empty_first sep (split s sep) (split-ne-nil s sep),
)

pub split-injective : (s t : Text) (sep : ℕ) → split s sep ≡ split t sep → s ≡ t
split-injective s t sep e = cc (join-split s sep, join-split t sep)

-- The text does not hold the byte.
abbrev pub Lacks : ℕ → Text → Type 0
Lacks b = All (λ c. c ≢ b)

pub cut-append : (p r : Text) (sep : ℕ) → Lacks sep p → cut (p ++ sep ∷ r) sep ≡ some (p, r)
cut-append [] r sep h = ground arith
cut-append (c ∷ p) r sep h = ground (arith, cut-append p r sep h.1)

pub cut-Lacks : (s : Text) (sep : ℕ) → Lacks sep s → cut s sep ≡ none
cut-Lacks [] sep h = refl
cut-Lacks (c ∷ s) sep h = ground (arith, cut-Lacks s sep h.1)

pub cut-none : (s : Text) (sep : ℕ) → cut s sep ≡ none → Lacks sep s
cut-none [] sep h = tt
cut-none (c ∷ s) sep h = ground (arith, cut-none s sep)

-- The text is what stands before the first separator, the separator and the rest.
pub cut-some :
    (s : Text) (sep : ℕ) (p : Text × Text)
    → cut s sep ≡ some p
    → (s ≡ p.0 ++ sep ∷ p.1) × Lacks sep p.0
cut-some [] sep p h = cc
cut-some (c ∷ s) sep p h = elim (Option-cases (cut s sep)) [
  | inl e ↦ ground (arith)
  | inr (q, e) ↦ ground (arith, cut-some s sep q e)
]
