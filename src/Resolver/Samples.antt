-- ===== src/Resolver/Samples.antt =====
-- The resolver's theorems on a small index: `a-a` depends on `b-b`, and `b-b` on nothing.
use valmin.Shared.{
  ◌≡◌, refl, ◌↔◌, inl, inr, true, false, List, [], ◌∷◌, none, some, arith, Text, codes, text_eq,
  text_eq_iff, Bool-cases, if◌then◌else◌, In, All, NoDup, Lacks,
}
use valmin.Semver.{Version, parse_version}
use valmin.Semver.Order.{Clashes, identifiers}
use valmin.Resolver.{
  Index, Request, Node, ok, parse_dependency, installed_satisfies, expand, record_highest, chosen,
}
use valmin.Resolver.Closing.{resolve}
use valmin.Resolver.Conflicts.{Conflict, check}
use valmin.Resolver.Check.{IsConflict, check_iff}
use valmin.Resolver.Fuel.{Fuelled}
use valmin.Resolver.Total.{resolve-Fuelled}
use valmin.Resolver.Versions.{Clean}
use valmin.Resolver.Walked.{Covered}
use valmin.Resolver.Complete.{full_names, resolve-Covered, resolve-NoDup}

abbrev a_a : Text
a_a = codes "a-a"

abbrev b_b : Text
b_b = codes "b-b"

abbrev one : Text
one = codes "1.0.0"

abbrev sample : Index
sample = record {
  dependencies = λ name version.
      if text_eq name a_a
      then some (codes "b-b-1.0.0" ∷ [])
      else if text_eq name b_b
      then some []
      else none;
  installed = λ name. none;
  held = λ name. false;
}

abbrev requests : List Request
requests = record { full_name = a_a; version = one } ∷ []

abbrev installed_closure : List Node
installed_closure =
    record { full_name = a_a; version = one; transitive = false; no_op = false }
    ∷ record { full_name = b_b; version = one; transitive = true; no_op = false }
    ∷ []

closure_of_a : resolve sample 3 requests ≡ ok installed_closure
unfolding resolve parse_dependency parse_version expand record_highest installed_satisfies chosen
closure_of_a = refl

Clashes-irrefl : (xs : List Text) → ¬ Clashes xs xs
Clashes-irrefl [] c = c
Clashes-irrefl (x ∷ xs) (inl c) = c.apart refl
Clashes-irrefl (x ∷ xs) (inr (e, c)) = Clashes-irrefl xs c

Good : Text → Type 0
Good v = v ≡ one

only_one :
    (name version : Text) (deps : List Text) (dep d w : Text)
    → sample.dependencies name version ≡ some deps
    → In dep deps
    → parse_dependency dep ≡ some (d, w)
    → w ≡ one
unfolding parse_dependency
only_one name version deps dep d w h i p =
    let q : parse_dependency (codes "b-b-1.0.0") ≡ some (b_b, one) = refl in
    elim (Bool-cases (text_eq name a_a)) [
      | inl e ↦
          let f : some (codes "b-b-1.0.0" ∷ []) ≡ some deps = rw e at h in
          let g : deps ≡ codes "b-b-1.0.0" ∷ [] = cc f in
          elim (rw g at i) [ inl k ↦ cc (p, q, k) | inr k ↦ absurd k ]
      | inr e ↦ elim (Bool-cases (text_eq name b_b)) [
        | inl k ↦ let g : deps ≡ [] = ground (arith, h, e, k) in absurd (rw g at i)
        | inr k ↦ ground (arith, h, e, k)
      ]
    ]

no_at_in_one : Lacks b'@' one
no_at_in_one = (
  (λ e. omega (arith, e)),
  (
    (λ e. omega (arith, e)),
    ((λ e. omega (arith, e)), ((λ e. omega (arith, e)), ((λ e. omega (arith, e)), tt))),
  ),
)

sample-Clean : Clean sample Good
unfolding Good parse_version
sample-Clean = record {
  parsed = λ v g. rw g (_, refl);
  no_at = λ v g. rw g no_at_in_one;
  no_clash = λ u v x y g k p q c.
      let e : x ≡ y = cc (g, k, p, q) in Clashes-irrefl (identifiers y) (rw e at c);
  good_dependency = only_one;
  good_installed = λ name v h. cc h;
}

known :
    (name version : Text) (deps : List Text)
    → sample.dependencies name version ≡ some deps
    → In name (a_a ∷ b_b ∷ [])
known name version deps h = ground (arith, h, text_eq_iff name a_a, text_eq_iff name b_b)

resolve-Fuelled_example : Fuelled (resolve sample 3 requests)
resolve-Fuelled_example = resolve-Fuelled sample (a_a ∷ b_b ∷ []) known 3 requests (omega arith)

Good-requests : All (λ (r : Request). Good r.version) requests
unfolding Good
Good-requests = (refl, tt)

resolve-Covered_example :
    (deps : List Text) × (sample.dependencies a_a one ≡ some deps)
    × All (Covered sample requests installed_closure) deps
resolve-Covered_example =
    resolve-Covered sample-Clean requests Good-requests 3 installed_closure
      (record { full_name = a_a; version = one; transitive = false; no_op = false }) closure_of_a
      (inl refl) refl

resolve-NoDup_example : NoDup (full_names installed_closure)
resolve-NoDup_example =
    resolve-NoDup sample-Clean requests Good-requests 3 installed_closure closure_of_a

-- `a-a` is planned without the package that it needs.
abbrev plan : List (Text × Text)
plan = (a_a, one) ∷ []

abbrev lacking : Conflict
lacking = record { full_name = a_a; version = one; dependency = b_b; requires = one; have = [] }

check_iff_example :
    In lacking (check plan (a_a ∷ []) sample) ↔ IsConflict plan (a_a ∷ []) sample lacking
check_iff_example = check_iff plan (a_a ∷ []) sample lacking

abbrev dotted : Text
dotted = codes "1.0.0-a..b"

dotted_accepted : parse_dependency (codes "ns-mod-1.0.0-a..b") ≡ some (codes "ns-mod", dotted)
unfolding parse_dependency
dotted_accepted = refl

dotted_unreadable : parse_version dotted ≡ none
unfolding parse_version
dotted_unreadable = refl

one_parses : (w : Version) × (parse_version one ≡ some w)
unfolding parse_version
one_parses = (_, refl)

abbrev with_installed : Index
with_installed = record sample { installed = λ name. some one }
