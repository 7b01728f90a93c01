-- ===== src/Resolver/Reach.antt =====
-- `reachable` is closed: what an expanded package depends on is seen where the package is.
use valmin.Shared.{
  ℕ, zero, suc, ◌≡◌, refl, sym, ◌∙◌, ap, ◌⊎◌, inl, inr, true, List, [], ◌∷◌, Option, none, some,
  arith, Text, text_eq, text_eq_iff, text_eq_refl, contains, In, Bool-cases, Option-cases,
}
use valmin.Resolver.{Index, ResolveState, chosen, key, parse_dependency}
use valmin.Resolver.Closing.{
  and_then, visit, visit_all, visit_known, visit_explicit, visit_dependency, reachable,
}

abbrev pub Sub : List Text → List Text → Type 0
Sub xs ys = (x : Text) → contains x xs ≡ true → contains x ys ≡ true

-- The dependencies of an expanded package are seen.
abbrev pub Behind : Index → ResolveState → List Text → Text → Type 0
Behind idx s seen n =
    contains (key n (chosen s n)) s.expanded ≡ true
    → (deps : List Text) → idx.dependencies n (chosen s n) ≡ some deps
    → (dep d w : Text) → In dep deps
    → parse_dependency dep ≡ some (d, w)
    → contains d seen ≡ true

-- From one set of seen packages to a larger one, every package that is new is closed in it.
pub record Closes (idx : Index) (s : ResolveState) (seen after : List Text) : Type 0 where
  pub grows : Sub seen after
  pub behind :
      (n : Text) → contains n after ≡ true → (contains n seen ≡ true) ⊎ Behind idx s after n

and_then-some :
    (o : Option (List Text)) (f : List Text → Option (List Text)) (r : List Text)
    → and_then o f ≡ some r
    → (x : List Text) × (o ≡ some x) × (f x ≡ some r)
and_then-some none f r h = cc
and_then-some (some x) f r h = (x, refl, h)

some_eq : (x y : List Text) → ◌≡◌ {A = Option (List Text)} (some x) (some y) → x ≡ y
some_eq x y p = cc

fst_eq : (a b c d : Text) → ◌≡◌ {A = Option (Text × Text)} (some (a, b)) (some (c, d)) → a ≡ c
fst_eq a b c d p = ground (arith, p)

module _ (idx : Index) (s : ResolveState) where
  Closes-refl : (seen : List Text) → Closes idx s seen seen
  Closes-refl seen = record { grows = λ x p. p; behind = λ n p. inl p }

  Closes-trans : (a b c : List Text) → Closes idx s a b → Closes idx s b c → Closes idx s a c
  Closes-trans a b c p q = record {
    grows = λ x m. q.grows x (p.grows x m);
    behind = λ n m. elim (q.behind n m) [
      | inr k ↦ inr k
      | inl k ↦ elim (p.behind n k) [
        | inl j ↦ inl j
        | inr j ↦ inr (λ e deps f dep d w i z. q.grows d (j e deps f dep d w i z))
      ]
    ];
  }

  -- What a call promises: the package it was called for is seen.
  abbrev Call : (Text → List Text → Option (List Text)) → Type 0
  Call call =
      (name : Text) (seen after : List Text)
      → call name seen ≡ some after
      → Closes idx s seen after × (contains name after ≡ true)

  visit_all-Closes :
      (call : Text → List Text → Option (List Text)) (deps seen after : List Text)
      → Call call
      → visit_all call deps seen ≡ some after
      → Closes idx s seen after
        × ((dep d w : Text)
            → In dep deps
            → parse_dependency dep ≡ some (d, w)
            → contains d after ≡ true)
  unfolding visit_all
  visit_all-Closes call [] seen after k h =
      (rw (some_eq seen after h) (Closes-refl after), λ dep d w i z. absurd i)
  visit_all-Closes call (x ∷ deps) seen after k h =
      let (now, p, q) =
        and_then-some (visit_dependency call (parse_dependency x) seen) (visit_all call deps) after
          h in
      let (c, m) = visit_all-Closes call deps now after k q in
      elim (Option-cases (parse_dependency x)) [
        | inl z ↦
            let e : now ≡ seen = cc (rw z at p) in
            (rw (← e) c, λ dep d w i y. elim i [ inl j ↦ cc (y, z, j) | inr j ↦ m dep d w j y ])
        | inr ((d', w'), z) ↦
            let (a, b) = k d' seen now (rw z at p) in
            (
              Closes-trans seen now after a c,
              λ dep d w i y. elim i [
                | inl j ↦
                    rw (← fst_eq d' w' d w (sym z ∙ ap parse_dependency (sym j) ∙ y)) (c.grows d' b)
                | inr j ↦ m dep d w j y
              ],
            )
      ]

  visit-Closes : (fuel : ℕ) → Call (visit idx s fuel)
  unfolding visit visit_known
  visit-Closes zero name seen after h = cc
  visit-Closes (suc fuel) name seen after h = elim (Bool-cases (contains name seen)) [
    | inl e ↦ let q = some_eq seen after (rw e at h) in rw (← q) (Closes-refl seen, e)
    | inr e ↦
        let here : contains name (name ∷ seen) ≡ true = ground (arith, text_eq_refl name) in
        elim (Bool-cases (contains (key name (chosen s name)) s.expanded)) [
          | inr k ↦
              let q = some_eq (name ∷ seen) after (rw (e, k) at h) in
              rw (← q) (
                record {
                  grows = λ x p. ground (arith, p);
                  behind = λ n p. elim (Bool-cases (text_eq name n)) [
                    | inl x ↦ inr (rw (← (text_eq_iff name n).0 x) (λ z. cc (z, k)))
                    | inr x ↦ inl (ground (arith, p, x))
                  ];
                },
                here,
              )
          | inl k ↦ elim (Option-cases (idx.dependencies name (chosen s name))) [
            | inl d ↦
                let q = some_eq (name ∷ seen) after (rw (e, k, d) at h) in
                rw (← q) (
                  record {
                    grows = λ x p. ground (arith, p);
                    behind = λ n p. elim (Bool-cases (text_eq name n)) [
                      | inl x ↦ inr (rw (← (text_eq_iff name n).0 x) (λ z deps f. cc (d, f)))
                      | inr x ↦ inl (ground (arith, p, x))
                    ];
                  },
                  here,
                )
            | inr (deps, d) ↦
                let (c, m) =
                  visit_all-Closes (visit idx s fuel) deps (name ∷ seen) after (visit-Closes fuel)
                    (rw (e, k, d) at h) in
                (
                  record {
                    grows = λ x p. c.grows x (ground (arith, p));
                    behind = λ n p. elim (c.behind n p) [
                      | inr b ↦ inr b
                      | inl j ↦ elim (Bool-cases (text_eq name n)) [
                        | inl x ↦ inr (
                            rw (← (text_eq_iff name n).0 x) (λ z ds f dep a w i y.
                              m dep a w (rw (some_eq deps ds (sym d ∙ f)) i) y))
                        | inr x ↦ inl (ground (arith, j, x))
                      ]
                    ];
                  },
                  c.grows name here,
                )
          ]
        ]
  ]

  visit_explicit-Closes :
      (fuel : ℕ) (names seen after : List Text)
      → visit_explicit idx s fuel names seen ≡ some after
      → Closes idx s seen after × ((n : Text) → contains n names ≡ true → contains n after ≡ true)
  unfolding visit_explicit
  visit_explicit-Closes fuel [] seen after h =
      (rw (some_eq seen after h) (Closes-refl after), λ n p. cc)
  visit_explicit-Closes fuel (name ∷ names) seen after h =
      let (now, p, q) =
        and_then-some (visit idx s fuel name seen) (visit_explicit idx s fuel names) after h in
      let (a, b) = visit-Closes fuel name seen now p in
      let (c, m) = visit_explicit-Closes fuel names now after q in
      (
        Closes-trans seen now after a c,
        λ n e. elim (Bool-cases (text_eq name n)) [
          | inl x ↦ rw (← (text_eq_iff name n).0 x) (c.grows name b)
          | inr x ↦ m n (ground (arith, e, x))
        ],
      )

  -- The set holds the requested packages, and the dependencies of each package that it holds.
  pub reachable-Closes :
      (fuel : ℕ) (keep : List Text)
      → reachable idx fuel s ≡ some keep
      → ((n : Text) → contains n s.explicit ≡ true → contains n keep ≡ true)
        × ((n : Text) → contains n keep ≡ true → Behind idx s keep n)
  unfolding reachable
  reachable-Closes fuel keep h =
      let (c, m) = visit_explicit-Closes fuel s.explicit [] keep h in
      (m, λ n p. elim (c.behind n p) [ inl k ↦ cc k | inr b ↦ b ])
