-- ===== src/Resolver/Fuel.antt =====
-- `Resolve` ends: over an index that knows finitely many packages, as much fuel as there are
-- packages is enough, since the cycle check keeps a path from naming one twice.
use valmin.Shared.{
  ℕ, zero, suc, ◌+◌, ◌≤◌, ◌<◌, ◌≡◌, refl, sym, ◌≢◌, inl, inr, List, [], ◌∷◌, ◌++◌, Option, none,
  some, arith, Text, length, length-append, contains, In-contains, In, All, NoDup, NoDup-snoc,
  Bool-cases, Option-cases, lookup,
}
use valmin.Resolver.{
  Index, out_of_fuel, Result, ok, err, ◌>>=◌, ResolveState, record_highest, check_cycle,
  satisfied_by, installed_satisfies, held_version, walk_satisfied, walk_held, walk_fixed, walk,
  walk_dependency, walk_dependencies, expand_new, expand_known, expand, parse_dependency, key,
}

-- Taking one element out of a list.
remove : {A : Type 0} (a : A) (xs : List A) → In a xs → List A
remove a [] i = absurd i
remove a (x ∷ xs) (inl e) = xs
remove a (x ∷ xs) (inr i) = x ∷ remove a xs i

length-remove :
    {A : Type 0} (a : A) (xs : List A) (i : In a xs) → suc (length (remove a xs i)) ≡ length xs
unfolding remove
length-remove a [] i = absurd i
length-remove a (x ∷ xs) (inl e) = refl
length-remove a (x ∷ xs) (inr i) = omega (arith, length-remove a xs i)

remove-In :
    {A : Type 0} (a b : A) (xs : List A) (i : In a xs) → b ≢ a → In b xs → In b (remove a xs i)
unfolding remove
remove-In a b [] i ne j = absurd i
remove-In a b (x ∷ xs) (inl e) ne (inl p) = absurd (ne (cc))
remove-In a b (x ∷ xs) (inl e) ne (inr j) = j
remove-In a b (x ∷ xs) (inr i) ne (inl p) = inl p
remove-In a b (x ∷ xs) (inr i) ne (inr j) = inr (remove-In a b xs i ne j)

All-remove :
    {A : Type 0} (a : A) (ys xs : List A) (i : In a ys)
    → ¬ In a xs
    → All (λ x. In x ys) xs
    → All (λ x. In x (remove a ys i)) xs
All-remove a ys [] i ne h = tt
All-remove a ys (x ∷ xs) i ne h =
    (remove-In a x ys i (λ e. ne (inl (sym e))) h.0, All-remove a ys xs i (λ j. ne (inr j)) h.1)

-- A list with no repetition is not longer than a list that holds its elements.
pigeonhole :
    {A : Type 0} (xs ys : List A) → NoDup xs → All (λ x. In x ys) xs → length xs ≤ length ys
pigeonhole [] ys d h = omega arith
pigeonhole (x ∷ xs) ys d h = omega (
  arith,
  length-remove x ys h.0,
  pigeonhole xs (remove x ys h.0) d.1 (All-remove x ys xs h.0 d.0 h.1),
)

All-snoc :
    {A : Type 0} (P : A → Type 0) (xs : List A) (a : A) → All P xs → P a → All P (xs ++ a ∷ [])
All-snoc P [] a h p = (p, tt)
All-snoc P (x ∷ xs) a h p = (h.0, All-snoc P xs a h.1 p)

abbrev pub Fuelled : {A : Type 0} → Result A → Type 0
Fuelled r = r ≢ err out_of_fuel

pub bind-Fuelled :
    {A B : Type 0} (m : Result A) (f : A → Result B)
    → Fuelled m
    → ((a : A) → m ≡ ok a → Fuelled (f a))
    → Fuelled (m >>= f)
bind-Fuelled (ok a) f h k = k a refl
bind-Fuelled (err e) f h k = λ p. h (cc)

module _ (idx : Index) where
  satisfied_by-Fuelled :
      (o : Option Text) (name version : Text) → Fuelled (satisfied_by idx o name version)
  unfolding satisfied_by
  satisfied_by-Fuelled none name version h = cc
  satisfied_by-Fuelled (some i) name version h = ground arith

  module _ (ex : Text → Text → List Text → ResolveState → Result ResolveState) (path : List Text)
      (calls : (name version : Text) (s : ResolveState)
        → ¬ In name path
        → Fuelled (ex name version path s)) where
    walk_held-Fuelled :
        (o : Option Text) (name version : Text) (s : ResolveState)
        → ¬ In name path
        → Fuelled (walk_held idx ex o name version path s)
    unfolding walk_held installed_satisfies
    walk_held-Fuelled (some i) name version s h = λ p. cc
    walk_held-Fuelled none name version s h =
        bind-Fuelled (satisfied_by idx (idx.installed name) name version) _
          (satisfied_by-Fuelled (idx.installed name) name version)
          (λ o e. elim o as (λ o'. Fuelled (walk_satisfied idx ex o' name version path s)) [
            | none ↦ unfold walk_satisfied in calls name version s h
            | some i ↦ unfold walk_satisfied in λ p. cc
          ])

    walk_fixed-Fuelled :
        (o : Option Text) (name version : Text) (s : ResolveState)
        → ¬ In name path
        → Fuelled (walk_fixed idx ex o name version path s)
    unfolding walk_fixed
    walk_fixed-Fuelled (some v) name version s h = λ p. cc
    walk_fixed-Fuelled none name version s h =
        walk_held-Fuelled (held_version idx name) name version s h

    walk-Fuelled :
        (name version : Text) (s : ResolveState) → Fuelled (walk idx ex name version path s)
    unfolding walk check_cycle
    walk-Fuelled name version s = elim (Bool-cases (contains name path)) [
      | inl e ↦ rw e (λ p. cc)
      | inr e ↦ rw e (
          walk_fixed-Fuelled (lookup name s.fixed) name version s
            (λ i. cc (In-contains name path i, e)))
    ]

    walk_dependencies-Fuelled :
        (name version : Text) (deps : List Text) (s : ResolveState)
        → Fuelled (walk_dependencies idx ex name version path deps s)
    unfolding walk_dependencies
    walk_dependencies-Fuelled name version [] s = λ p. cc
    walk_dependencies-Fuelled name version (dep ∷ deps) s =
        bind-Fuelled (walk_dependency idx ex (parse_dependency dep) name version dep path s) _
          (elim (parse_dependency dep)
            as (λ o. Fuelled (walk_dependency idx ex o name version dep path s)) [
              | none ↦ unfold walk_dependency in λ p. cc
              | some (n, v) ↦ unfold walk_dependency in walk-Fuelled n v s
            ])
          (λ t e. walk_dependencies-Fuelled name version deps t)

  module _ (universe : List Text)
      (known : (name version : Text) (deps : List Text)
        → idx.dependencies name version ≡ some deps
        → In name universe) where
    -- The walk never runs out of fuel where the fuel and the path together pass the number of
    -- packages known.
    pub expand-Fuelled :
        (fuel : ℕ) (name version : Text) (path : List Text) (s : ResolveState)
        → NoDup path
        → All (λ n. In n universe) path
        → length universe < length path + fuel
        → ¬ In name path
        → Fuelled (expand idx fuel name version path s)
    unfolding expand expand_known expand_new
    expand-Fuelled zero name version path s d a f h =
        absurd (omega (arith, pigeonhole path universe d a))
    expand-Fuelled (suc fuel) name version path s d a f h =
        elim (Option-cases (idx.dependencies name version)) [
          | inl e ↦ rw e (λ p. cc)
          | inr (deps, e) ↦
              rw e
                (elim (Bool-cases
                  (contains (key name version) (record_highest name version s).expanded)) [
                    | inl k ↦ rw k (λ p. cc)
                    | inr k ↦ rw k (
                        walk_dependencies-Fuelled (expand idx fuel) (path ++ name ∷ [])
                          (λ n v t i.
                            expand-Fuelled fuel n v (path ++ name ∷ []) t (NoDup-snoc path name d h)
                              (All-snoc (λ n. In n universe) path name a
                                (known name version deps e))
                              (omega (arith, length-append path (name ∷ []))) i)
                          name version deps _)
                  ])
        ]
