-- ===== src/Resolver/Check.antt =====
-- What `Check` reports.
use valmin.Shared.{
  ◌≡◌, refl, sym, ◌↔◌, ◌⊎◌, inl, inr, true, false, ◌||◌, List, [], ◌∷◌, map, Option, none, some,
  arith, Text, text_eq, text_eq_iff, text_eq_refl, lookup, contains, In, In-append, In-append_left,
  In-append_right, Bool-cases, Option-cases, sort_on, self, In-compact_iff, In-sort_on_iff,
}
use Prim.Native.Nat.{Ordering}
use valmin.Semver.{Version, parse_version, compare}
use valmin.Resolver.{Index, parse_dependency, higher, or_empty}
use valmin.Resolver.Conflicts.{
  Conflict, meets, check_edge, check_edges, check_known, check_name, check_names, names, check,
}

-- A version below another, by the order of versions that parse.
abbrev pub Below : (have required : Text) → Type 0
Below have required =
    (a : Version) × (b : Version) × (parse_version have ≡ some a)
    × (parse_version required ≡ some b)
    × (compare b a ≡ Ordering.gt)

-- The plan holds no version of the dependency, or one below the version required.
abbrev pub Unmet : Option Text → Text → Type 0
Unmet have required = (have ≡ none) ⊎ ((v : Text) × (have ≡ some v) × Below v required)

higher_iff : (required have : Text) → (higher required have ≡ true) ↔ Below have required
unfolding higher
higher_iff required have = elim (Option-cases (parse_version required)) [
  | inl e ↦ rw e ((λ h. cc h), λ (a, b, p, q, r). cc q)
  | inr (b, e) ↦ elim (Option-cases (parse_version have)) [
    | inl f ↦ rw (e, f) ((λ h. cc h), λ (a, b, p, q, r). cc p)
    | inr (a, f) ↦
        rw (e, f)
          (
            (λ h. (a, b, refl, refl, is_gt (compare b a) h)),
            (λ (x, y, p, q, r).
                let same : a ≡ x = cc p in
                let same' : b ≡ y = cc q in gt_is (compare b a) (rw (same, same') r)),
          )
  ]
]
  where
    gt_is : (o : Ordering) → o ≡ Ordering.gt → elim o [ Ordering.gt ↦ true | _ ↦ false ] ≡ true
    gt_is o h = rw h refl

    is_gt : (o : Ordering) → elim o [ Ordering.gt ↦ true | _ ↦ false ] ≡ true → o ≡ Ordering.gt
    is_gt Ordering.gt h = refl
    is_gt Ordering.lt h = cc h
    is_gt Ordering.eq h = cc h

Unmet-iff :
    (have : Option Text) (required : Text) → (meets have required ≡ false) ↔ Unmet have required
Unmet-iff none required = ((λ h. inl refl), λ h. refl)
Unmet-iff (some v) required =
    let (to, from) = higher_iff required v in
    (
      (λ h. inr (v, refl, to (ground (arith, h)))),
      (λ h. elim h [
        | inl e ↦ cc e
        | inr (w, e, b) ↦
            let same : v ≡ w = cc e in
            let g : higher required v ≡ true = from (rw same b) in rw g refl
      ]),
    )

module _ (planned : List (Text × Text)) (changed : List Text) (idx : Index) where
  -- An edge of the plan that is not met, with a changed package at one of its ends.
  pub record IsConflict (c : Conflict) : Type 0 where
    pub version_planned : lookup c.full_name planned ≡ some c.version
    pub deps : List Text
    pub known : idx.dependencies c.full_name c.version ≡ some deps
    pub dep : Text
    pub dep_in : In dep deps
    pub parsed : parse_dependency dep ≡ some (c.dependency, c.requires)
    pub touched : (contains c.full_name changed || contains c.dependency changed) ≡ true
    pub unmet : Unmet (lookup c.dependency planned) c.requires
    pub have_eq : c.have ≡ or_empty (lookup c.dependency planned)

  -- The same, of an edge that is given.
  record EdgeConflict (name version : Text) (p : Option (Text × Text)) (c : Conflict) : Type 0 where
    pub name_eq : c.full_name ≡ name
    pub version_eq : c.version ≡ version
    pub edge : p ≡ some (c.dependency, c.requires)
    pub touched : (contains c.full_name changed || contains c.dependency changed) ≡ true
    pub unmet : meets (lookup c.dependency planned) c.requires ≡ false
    pub have_eq : c.have ≡ or_empty (lookup c.dependency planned)

  In-check_edge :
      (name version : Text) (p : Option (Text × Text)) (c : Conflict)
      → In c (check_edge planned changed idx name version p)
      → EdgeConflict name version p c
  unfolding check_edge
  In-check_edge name version none c i = absurd i
  In-check_edge name version (some (d, v)) c i = ground arith

  check_edge-In :
      (name version : Text) (p : Option (Text × Text)) (c : Conflict)
      → EdgeConflict name version p c
      → In c (check_edge planned changed idx name version p)
  unfolding check_edge
  check_edge-In name version none c e = cc (e.edge)
  check_edge-In name version (some (d, v)) c e = ground arith

  In-check_edges :
      (name version : Text) (deps : List Text) (c : Conflict)
      → In c (check_edges planned changed idx name version deps)
      → (dep : Text) × In dep deps × EdgeConflict name version (parse_dependency dep) c
  unfolding check_edges
  In-check_edges name version [] c i = absurd i
  In-check_edges name version (dep ∷ deps) c i =
      elim (In-append c (check_edge planned changed idx name version (parse_dependency dep)) _ i) [
        | inl j ↦ (dep, inl refl, In-check_edge name version (parse_dependency dep) c j)
        | inr j ↦ let (d, k, e) = In-check_edges name version deps c j in (d, inr k, e)
      ]

  check_edges-In :
      (name version : Text) (deps : List Text) (c : Conflict) (dep : Text)
      → In dep deps
      → EdgeConflict name version (parse_dependency dep) c
      → In c (check_edges planned changed idx name version deps)
  unfolding check_edges
  check_edges-In name version [] c dep i e = absurd i
  check_edges-In name version (d ∷ deps) c dep (inl p) e =
      In-append_left c (check_edge planned changed idx name version (parse_dependency d)) _
        (check_edge-In name version (parse_dependency d) c (rw (← p) e))
  check_edges-In name version (d ∷ deps) c dep (inr i) e =
      In-append_right c (check_edge planned changed idx name version (parse_dependency d)) _
        (check_edges-In name version deps c dep i e)

  -- What a package of the plan adds to the report.
  record NameConflict (name : Text) (c : Conflict) : Type 0 where
    pub deps : List Text
    pub known : idx.dependencies name (or_empty (lookup name planned)) ≡ some deps
    pub dep : Text
    pub dep_in : In dep deps
    pub edge : EdgeConflict name (or_empty (lookup name planned)) (parse_dependency dep) c

  In-check_known :
      (name version : Text) (o : Option (List Text)) (c : Conflict)
      → In c (check_known planned changed idx name version o)
      → (deps : List Text) × (o ≡ some deps)
        × (dep : Text) × In dep deps
        × EdgeConflict name version (parse_dependency dep) c
  unfolding check_known
  In-check_known name version none c i = absurd i
  In-check_known name version (some deps) c i =
      let (d, k, e) = In-check_edges name version deps c i in (deps, refl, d, k, e)

  In-check_name :
      (name : Text) (c : Conflict)
      → In c (check_name planned changed idx name)
      → NameConflict name c
  unfolding check_name
  In-check_name name c i =
      let version = or_empty (lookup name planned) in
      let (ds, k, d, m, e) = In-check_known name version (idx.dependencies name version) c i in
      record { deps = ds; known = k; dep = d; dep_in = m; edge = e }

  check_name-In :
      (name : Text) (c : Conflict)
      → NameConflict name c
      → In c (check_name planned changed idx name)
  unfolding check_name check_known
  check_name-In name c k =
      rw (k.known)
        (check_edges-In name (or_empty (lookup name planned)) k.deps c k.dep k.dep_in k.edge)

  In-check_names :
      (ns : List Text) (c : Conflict)
      → In c (check_names planned changed idx ns)
      → (name : Text) × In name ns × NameConflict name c
  unfolding check_names
  In-check_names [] c i = absurd i
  In-check_names (name ∷ ns) c i =
      elim (In-append c (check_name planned changed idx name) (check_names planned changed idx ns)
        i) [
          | inl j ↦ (name, inl refl, In-check_name name c j)
          | inr j ↦ let (n, l, e) = In-check_names ns c j in (n, inr l, e)
        ]

  check_names-In :
      (ns : List Text) (c : Conflict) (name : Text)
      → In name ns
      → NameConflict name c
      → In c (check_names planned changed idx ns)
  unfolding check_names
  check_names-In [] c name i k = absurd i
  check_names-In (n ∷ ns) c name (inl p) k =
      In-append_left c (check_name planned changed idx n) (check_names planned changed idx ns)
        (check_name-In n c (rw (← p) k))
  check_names-In (n ∷ ns) c name (inr i) k =
      In-append_right c (check_name planned changed idx n) (check_names planned changed idx ns)
        (check_names-In ns c name i k)

  In-keys :
      (name : Text) (m : List (Text × Text))
      → In name (map (λ (p : Text × Text). p.0) m)
      → (v : Text) × (lookup name m ≡ some v)
  In-keys name [] i = absurd i
  In-keys name ((k, v) ∷ m) i = elim (Bool-cases (text_eq k name)) [
    | inl e ↦ (v, rw e)
    | inr e ↦ elim i [
      | inl p ↦ cc (p, e, text_eq_refl k)
      | inr j ↦ let (w, q) = In-keys name m j in (w, rw (e, q))
    ]
  ]

  keys-In :
      (name v : Text) (m : List (Text × Text))
      → lookup name m ≡ some v
      → In name (map (λ (p : Text × Text). p.0) m)
  keys-In name v [] h = cc
  keys-In name v ((k, w) ∷ m) h = ground (arith, text_eq_iff k name, keys-In name v m)

  In-names :
      (name : Text)
      → In name (names planned changed idx)
      → (v : Text) × (lookup name planned ≡ some v)
  In-names name n =
      let keys = map (λ (p : Text × Text). p.0) planned in
      In-keys name planned
        ((In-sort_on_iff self name keys).0 ((In-compact_iff name (sort_on self keys)).0 n))

  names-In : (name v : Text) → lookup name planned ≡ some v → In name (names planned changed idx)
  names-In name v h =
      let keys = map (λ (p : Text × Text). p.0) planned in
      (In-compact_iff name (sort_on self keys)).1
        ((In-sort_on_iff self name keys).1 (keys-In name v planned h))

  check-IsConflict : (c : Conflict) → In c (check planned changed idx) → IsConflict c
  unfolding check
  check-IsConflict c i =
      let (name, n, k) = In-check_names (names planned changed idx) c i in
      let (v, p) = In-names name n in
      let e : or_empty (lookup name planned) ≡ v = rw p in
      record {
        version_planned = ground (arith, k.edge.name_eq, k.edge.version_eq, p);
        deps = k.deps;
        known = rw (k.edge.name_eq, k.edge.version_eq) (k.known);
        dep = k.dep;
        dep_in = k.dep_in;
        parsed = k.edge.edge;
        touched = k.edge.touched;
        unmet = (Unmet-iff (lookup c.dependency planned) c.requires).0 k.edge.unmet;
        have_eq = k.edge.have_eq;
      }

  IsConflict-check : (c : Conflict) → IsConflict c → In c (check planned changed idx)
  unfolding check
  IsConflict-check c k =
      let e : or_empty (lookup c.full_name planned) ≡ c.version = rw (k.version_planned) in
      check_names-In (names planned changed idx) c c.full_name
        (names-In c.full_name c.version k.version_planned)
        (record {
          deps = k.deps;
          known = rw e (k.known);
          dep = k.dep;
          dep_in = k.dep_in;
          edge = record {
            name_eq = refl;
            version_eq = sym e;
            edge = k.parsed;
            touched = k.touched;
            unmet = (Unmet-iff (lookup c.dependency planned) c.requires).1 k.unmet;
            have_eq = k.have_eq;
          };
        })

  -- `Check` reports exactly the unmet edges of the plan that touch a changed package: of every
  -- planned package that the index describes, each dependency that parses, whose package or whose
  -- dependent is changed, and that the plan leaves uninstalled or below the version required.
  pub check_iff : (c : Conflict) → In c (check planned changed idx) ↔ IsConflict c
  check_iff c = (check-IsConflict c, IsConflict-check c)
