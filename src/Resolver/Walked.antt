-- ===== src/Resolver/Walked.antt =====
-- The state that the closure is read from, and what of the closure follows from it.
use valmin.Shared.{
  ℕ, ◌≡◌, refl, sym, ◌∙◌, ap, ◌⊎◌, inl, inr, true, false, List, [], ◌∷◌, Option, none, some, arith,
  Text, text_eq_iff, lookup, contains, contains-In, In, All, All-In, Bool-cases, Option-cases,
}
use valmin.Resolver.{Index, Request, Node, ok, ResolveState, chosen, key, parse_dependency}
use valmin.Resolver.Closing.{
  installed_at, admit_all, start_all, reachable, node, nodes, empty_state,
}
use valmin.Resolver.Versions.{Clean, AtLeast}
use valmin.Resolver.Invariant.{is_some, Inv}
use valmin.Resolver.Edges.{Met, EdgeMet, Sat}
use valmin.Resolver.Expand.{Started, start_all-Started}
use valmin.Resolver.Reach.{reachable-Closes}
use valmin.Resolver.Requests.{requested, Admitted, admit_all-Admitted, requested-In}

-- A dependency is a reference to a package of the closure, at the version required or above, unless
-- the package was requested or is held: then it stands at the version requested or installed.
pub record Covered (idx : Index) (rs : List Request) (ns : List Node) (dep : Text) : Type 0 where
  pub name : Text
  pub version : Text
  pub parsed : parse_dependency dep ≡ some (name, version)
  pub target : Node
  pub target_in : In target ns
  pub target_name : target.full_name ≡ name
  pub enough :
      (requested rs name ≡ some target.version)
      ⊎ (idx.held name ≡ true) × (idx.installed name ≡ some target.version)
      ⊎ AtLeast version target.version

-- What is known of the state that the closure is read from.
pub record Walked (idx : Index) (Good : Text → Type 0) (rs : List Request) (t : ResolveState)
    : Type 0 where
  pub inv : Inv idx Good t
  pub started : All (λ r. Started idx r t) rs
  pub fixed_requested : (n v : Text) → requested rs n ≡ some v → lookup n t.fixed ≡ some v
  pub explicit_is : (n : Text) → contains n t.explicit ≡ is_some (requested rs n)
  pub met : (n v : Text) → Good v → contains (key n v) t.expanded ≡ true → Met idx t n v

module _ {idx : Index} {Good : Text → Type 0} (clean : Clean idx Good) (rs : List Request)
    (good : All (λ r. Good r.version) rs) where
  pub Admitted-Inv : (t : ResolveState) → Admitted rs (empty_state idx) t → Inv idx Good t
  Admitted-Inv t a = record {
    good = λ n h p. cc (rw (a.highest_same) at p);
    justified = λ n h p. cc (rw (a.highest_same) at p);
    recorded = λ n. rw (a.highest_same, a.order_same) refl;
    fixed_why = λ n v p. ground (arith, a.fixed_is n, a.explicit_is n, p);
    distinct = rw (a.order_same) tt;
  }

  pub walk-Walked :
      (fuel : ℕ) (a t : ResolveState)
      → admit_all idx rs (empty_state idx) ≡ ok a
      → start_all idx fuel rs a ≡ ok t
      → Walked idx Good rs t
  walk-Walked fuel a t p q =
      let m = admit_all-Admitted idx rs (empty_state idx) a p in
      let (st, x) = start_all-Started clean fuel rs a t good (Admitted-Inv a m) q in
      record {
        inv = st.inv;
        started = x;
        fixed_requested = λ n v e. st.ext.fixed_kept n v (ground (arith, m.fixed_is n, e));
        explicit_is = λ n. ground (arith, st.ext.explicit_same, m.explicit_is n);
        met =
            λ n v g c. elim (st.met n v g c) [ inr k ↦ k | inl k ↦ cc (rw (m.expanded_same) at k) ];
      }

  module _ (t : ResolveState) (w : Walked idx Good rs t) where
    pub fixed-why :
        (n v : Text)
        → lookup n t.fixed ≡ some v
        → (requested rs n ≡ some v)
          ⊎ (idx.installed n ≡ some v) × (idx.held n ≡ true) × (is_some (lookup n t.highest) ≡ true)
    fixed-why n v e = elim (w.inv.fixed_why n v e) [
      | inr k ↦ inr k
      | inl k ↦ elim (Option-cases (requested rs n)) [
        | inl z ↦ cc (w.explicit_is n, k, ap is_some z)
        | inr (v', z) ↦ inl (z ∙ sym (w.fixed_requested n v' z) ∙ e)
      ]
    ]

    pub recorded-some :
        (n : Text) → contains n t.order ≡ true → (h : Text) × (lookup n t.highest ≡ some h)
    recorded-some n e = elim (Option-cases (lookup n t.highest)) [
      | inr k ↦ k
      | inl z ↦ cc (w.inv.recorded n, e, ap is_some z)
    ]

    -- A version that the closure holds a package at is good, and is expanded or installed.
    pub chosen-why :
        (n : Text)
        → contains n t.order ≡ true
        → Good (chosen t n)
          × ((contains (key n (chosen t n)) t.expanded ≡ true)
              ⊎ (idx.installed n ≡ some (chosen t n)))
    unfolding chosen
    chosen-why n e = elim (Option-cases (lookup n t.fixed)) [
      | inl z ↦
          let (h, k) = recorded-some n e in rw (z, k) (w.inv.good n h k, w.inv.justified n h k)
      | inr (v, z) ↦ rw z (elim (fixed-why n v z) [
        | inr (a, b, c) ↦ (clean.good_installed n v a, inr a)
        | inl a ↦
            let (r, i, p, q) = requested-In rs n v a in
            let x = All-In (λ r. Started idx r t) r rs w.started i in
            rw (← p, ← q) (All-In (λ r. Good r.version) r rs good i, x.why)
      ])
    ]

    pub installed_at-true : (o : Option Text) (v : Text) → o ≡ some v → installed_at idx o v ≡ true
    installed_at-true none v e = cc
    installed_at-true (some i) v e = (text_eq_iff i v).1 (cc)

    pub node-expanded :
        (n : Text)
        → contains n t.order ≡ true
        → (node idx t n).no_op ≡ false
        → contains (key n (chosen t n)) t.expanded ≡ true
    unfolding node
    node-expanded n e o = elim ((chosen-why n e).1) [
      | inl k ↦ k
      | inr k ↦ cc (installed_at-true (idx.installed n) (chosen t n) k, o)
    ]

    -- Every package that an edge leads to is recorded.
    pub Sat-recorded : (d v : Text) → Sat t d v → contains d t.order ≡ true
    Sat-recorded d v (inr (h, p, l)) = w.inv.recorded d ∙ ap is_some p
    Sat-recorded d v (inl f) = elim (Option-cases (lookup d t.fixed)) [
      | inl z ↦ cc (f, ap is_some z)
      | inr (x, z) ↦ elim (fixed-why d x z) [
        | inr (a, b, c) ↦ w.inv.recorded d ∙ c
        | inl a ↦
            let (r, i, p, q) = requested-In rs d x a in
            let y = All-In (λ r. Started idx r t) r rs w.started i in
            w.inv.recorded d ∙ rw (← p) (y.seen)
      ]
    ]

    pub nodes-In :
        (keep names : List Text) (n : Text)
        → In n names
        → contains n keep ≡ true
        → In (node idx t n) (nodes idx t keep names)
    unfolding nodes
    nodes-In keep [] n i k = absurd i
    nodes-In keep (x ∷ names) n (inl e) k = rw (← e, k) (inl refl)
    nodes-In keep (x ∷ names) n (inr i) k = elim (Bool-cases (contains x keep)) [
      | inl c ↦ rw c (inr (nodes-In keep names n i k))
      | inr c ↦ rw c (nodes-In keep names n i k)
    ]

    pub In-nodes :
        (keep names : List Text) (m : Node)
        → In m (nodes idx t keep names)
        → (n : Text) × In n names × (contains n keep ≡ true) × (m ≡ node idx t n)
    unfolding nodes
    In-nodes keep [] m i = absurd i
    In-nodes keep (x ∷ names) m i = elim (Bool-cases (contains x keep)) [
      | inl c ↦ elim (rw c at i) [
        | inl e ↦ (x, inl refl, c, e)
        | inr j ↦ let (n, k, a, b) = In-nodes keep names m j in (n, inr k, a, b)
      ]
      | inr c ↦ let (n, k, a, b) = In-nodes keep names m (rw c at i) in (n, inr k, a, b)
    ]

    -- The version that an edge's package stands at.
    pub chosen-enough :
        (d v : Text)
        → Sat t d v
        → (requested rs d ≡ some (chosen t d))
          ⊎ (idx.held d ≡ true) × (idx.installed d ≡ some (chosen t d))
          ⊎ AtLeast v (chosen t d)
    unfolding chosen
    chosen-enough d v x = elim (Option-cases (lookup d t.fixed)) [
      | inr (f, z) ↦
          rw z (elim (fixed-why d f z) [ inl a ↦ inl a | inr (a, b, c) ↦ inr (inl (b, a)) ])
      | inl z ↦ elim x [ inl k ↦ cc (k, ap is_some z) | inr (h, p, l) ↦ rw (z, p) (inr (inr l)) ]
    ]

    pub covered :
        (fuel : ℕ) (keep : List Text) (n : Text) (deps all : List Text)
        → reachable idx fuel t ≡ some keep
        → contains n keep ≡ true
        → contains (key n (chosen t n)) t.expanded ≡ true
        → idx.dependencies n (chosen t n) ≡ some all
        → ((dep : Text) → In dep deps → In dep all)
        → All (EdgeMet t) deps
        → All (Covered idx rs (nodes idx t keep t.order)) deps
    unfolding node
    covered fuel keep n [] all r k e p sub a = tt
    covered fuel keep n (dep ∷ deps) all r k e p sub ((d, v, q, x), a) = (
      record {
        name = d;
        version = v;
        parsed = q;
        target = node idx t d;
        target_in =
            nodes-In keep t.order d (contains-In d t.order (Sat-recorded d v x))
              ((reachable-Closes idx t fuel keep r).1 n k e all p dep d v (sub dep (inl refl)) q);
        target_name = refl;
        enough = chosen-enough d v x;
      },
      covered fuel keep n deps all r k e p (λ y i. sub y (inr i)) a,
    )
