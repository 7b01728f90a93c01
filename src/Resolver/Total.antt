-- ===== src/Resolver/Total.antt =====
-- `Resolve` as a whole returns an answer: the closure, or one of the program's own errors.
use valmin.Shared.{
  ℕ, zero, suc, ◌≤◌, ◌<◌, ◌≡◌, refl, inl, inr, true, false, List, [], ◌∷◌, Option, none, some,
  arith, Text, text_eq_iff, length, contains, In, Bool-cases, Option-cases, if◌then◌else◌,
}
use valmin.Resolver.{Index, Request, ResolveState, chosen, key, parse_dependency, expand}
use valmin.Resolver.Closing.{
  and_then, visit, visit_all, visit_known, visit_explicit, visit_dependency, reachable, closure_of,
  closure, admit, admit_all, start, start_all, resolve,
}
use valmin.Resolver.Fuel.{Fuelled, bind-Fuelled, expand-Fuelled}

-- How many packages of the list are not seen.
unseen : List Text → List Text → ℕ
unseen [] seen = 0
unseen (u ∷ us) seen = let rest = unseen us seen in if contains u seen then rest else suc rest

abbrev Sub : List Text → List Text → Type 0
Sub xs ys = (x : Text) → contains x xs ≡ true → contains x ys ≡ true

unseen_mono : (us xs ys : List Text) → Sub xs ys → unseen us ys ≤ unseen us xs
unfolding unseen
unseen_mono [] xs ys h = omega arith
unseen_mono (u ∷ us) xs ys h = ground (arith, unseen_mono us xs ys h, h u)

unseen-cons :
    (us : List Text) (name : Text) (seen : List Text)
    → In name us
    → contains name seen ≡ false
    → unseen us (name ∷ seen) < unseen us seen
unfolding unseen
unseen-cons [] name seen i h = absurd i
unseen-cons (u ∷ us) name seen (inl e) h =
    ground (arith, unseen_mono us seen (name ∷ seen) (λ x p. ground (arith, p)), text_eq_iff name u)
unseen-cons (u ∷ us) name seen (inr i) h =
    ground (arith, unseen-cons us name seen i h, text_eq_iff name u)

unseen-le : (us seen : List Text) → unseen us seen ≤ length us
unfolding unseen
unseen-le [] seen = omega arith
unseen-le (u ∷ us) seen = ground (arith, unseen-le us seen)

-- The walk answered, and forgot nothing.
abbrev Grows : List Text → Option (List Text) → Type 0
Grows seen r = (after : List Text) × (r ≡ some after) × Sub seen after

visit_dependency-Grows :
    (call : Text → List Text → Option (List Text)) (seen : List Text)
    → ((name : Text) → Grows seen (call name seen))
    → (o : Option (Text × Text)) → Grows seen (visit_dependency call o seen)
visit_dependency-Grows call seen h none = (seen, refl, λ x p. p)
visit_dependency-Grows call seen h (some (n, v)) = h n

-- The loop over the dependencies, where each call answers from what is seen by then.
visit_all-Grows :
    (call : Text → List Text → Option (List Text)) (deps start seen : List Text)
    → Sub start seen
    → ((name : Text) (now : List Text) → Sub start now → Grows now (call name now))
    → Grows seen (visit_all call deps seen)
unfolding visit_all
visit_all-Grows call [] start seen u h = (seen, refl, λ x p. p)
visit_all-Grows call (dep ∷ deps) start seen u h =
    let (a, e, m) = visit_dependency-Grows call seen (λ n. h n seen u) (parse_dependency dep) in
    let (b, f, k) = visit_all-Grows call deps start a (λ x p. m x (u x p)) h in
    (b, rw (e, and_then) f, λ x p. k x (m x p))

module _ (idx : Index) where
  admit-Fuelled : (r : Request) (s : ResolveState) → Fuelled (admit idx r s)
  unfolding admit
  admit-Fuelled r s h = ground arith

  admit_all-Fuelled : (rs : List Request) (s : ResolveState) → Fuelled (admit_all idx rs s)
  unfolding admit_all
  admit_all-Fuelled [] s = λ p. cc
  admit_all-Fuelled (r ∷ rs) s =
      bind-Fuelled (admit idx r s) _ (admit-Fuelled r s) (λ t e. admit_all-Fuelled rs t)

  start-Fuelled :
      (fuel : ℕ) (r : Request) (s : ResolveState)
      → Fuelled (expand idx fuel r.full_name r.version [] s)
      → Fuelled (start idx fuel r s)
  unfolding start
  start-Fuelled fuel r s h = ground (arith, h)

module _ (idx : Index) (universe : List Text)
    (known : (name version : Text) (deps : List Text)
      → idx.dependencies name version ≡ some deps
      → In name universe) where
  visit-Grows :
      (s : ResolveState) (fuel : ℕ) (name : Text) (seen : List Text)
      → unseen universe seen < fuel
      → Grows seen (visit idx s fuel name seen)
  unfolding visit visit_known
  visit-Grows s zero name seen h = absurd (omega arith)
  visit-Grows s (suc fuel) name seen h = elim (Bool-cases (contains name seen)) [
    | inl e ↦ (seen, rw e refl, λ x p. p)
    | inr e ↦
        let grow : Sub seen (name ∷ seen) = λ x p. ground (arith, p) in
        elim (Bool-cases (contains (key name (chosen s name)) s.expanded)) [
          | inr k ↦ (name ∷ seen, rw (e, k) refl, grow)
          | inl k ↦ elim (Option-cases (idx.dependencies name (chosen s name))) [
            | inl d ↦ (name ∷ seen, rw (e, k, d) refl, grow)
            | inr (deps, d) ↦
                let less = unseen-cons universe name seen (known name (chosen s name) deps d) e in
                let (a, f, m) =
                  visit_all-Grows (visit idx s fuel) deps (name ∷ seen) (name ∷ seen) (λ x p. p)
                    (λ n now u.
                      visit-Grows s fuel n now
                        (omega (arith, less, unseen_mono universe (name ∷ seen) now u))) in
                (a, rw (e, k, d) f, λ x p. m x (grow x p))
          ]
        ]
  ]

  visit_explicit-some :
      (s : ResolveState) (fuel : ℕ) (names seen : List Text)
      → length universe < fuel
      → (after : List Text) × (visit_explicit idx s fuel names seen ≡ some after)
  unfolding visit_explicit
  visit_explicit-some s fuel [] seen h = (seen, refl)
  visit_explicit-some s fuel (name ∷ names) seen h =
      let (a, e, m) = visit-Grows s fuel name seen (omega (arith, unseen-le universe seen)) in
      let (b, f) = visit_explicit-some s fuel names a h in (b, rw (e, and_then) f)

  start_all-Fuelled :
      (fuel : ℕ) (rs : List Request) (s : ResolveState)
      → length universe < fuel
      → Fuelled (start_all idx fuel rs s)
  unfolding start_all
  start_all-Fuelled fuel [] s h = λ p. cc
  start_all-Fuelled fuel (r ∷ rs) s h =
      bind-Fuelled (start idx fuel r s) _
        (start-Fuelled idx fuel r s (
          expand-Fuelled idx universe known fuel r.full_name r.version [] s tt tt (omega arith)
            (λ i. i)))
        (λ t e. start_all-Fuelled fuel rs t h)

  -- Where fewer packages are known than there is fuel, `Resolve` returns the closure or one of its
  -- own errors, whatever is requested.
  pub resolve-Fuelled :
      (fuel : ℕ) (requests : List Request)
      → length universe < fuel
      → Fuelled (resolve idx fuel requests)
  unfolding resolve closure reachable
  resolve-Fuelled fuel requests h =
      bind-Fuelled (admit_all idx requests _) _ (admit_all-Fuelled idx requests _) (λ s e.
        bind-Fuelled (start_all idx fuel requests s) _ (start_all-Fuelled fuel requests s h) (λ t f.
          let (seen, g) = visit_explicit-some t fuel t.explicit [] h in
          rw g (unfold closure_of in λ p. cc)))
