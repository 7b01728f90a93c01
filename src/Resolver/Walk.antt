-- ===== src/Resolver/Walk.antt =====
-- The walk over a package's dependencies is a step that meets each of them.
use valmin.Shared.{
  ◌≡◌, refl, sym, ◌∙◌, ap, inl, inr, true, List, [], ◌∷◌, Option, none, some, arith, Text,
  text_eq_iff, text_eq_refl, lookup, insert, insert-cases, In, All, Option-cases,
}
use valmin.Resolver.{
  Index, Result, ok, ResolveState, record_highest, record_seen, parse_dependency, check_cycle,
  satisfied_by, installed_satisfies, held_version, walk_satisfied, walk_held, walk_fixed, walk,
  walk_dependency, walk_dependencies,
}
use valmin.Resolver.Versions.{Clean, AtLeast, AtLeast-refl, AtLeast-trans}
use valmin.Resolver.Invariant.{
  is_some, Inv, Extends, Extends-refl, Extends-trans, record_highest-Inv, record_highest-expanded,
}
use valmin.Resolver.Edges.{Sat, EdgeMet, Step, bind-ok, Sat-Extends, Step_trans, quiet}

abbrev fix : Text → Text → ResolveState → ResolveState
fix name v s = record s { fixed = insert name v s.fixed }

record_highest-fix :
    (name v : Text) (s : ResolveState)
    → record_highest name v (fix name v s) ≡ fix name v (record_highest name v s)
unfolding record_highest record_seen
record_highest-fix name v s = ground arith

record_highest-fixed :
    (name v : Text) (s : ResolveState) → (record_highest name v s).fixed ≡ s.fixed
unfolding record_highest record_seen
record_highest-fixed name v s = ground arith

held_version-some :
    (idx : Index) (name v : Text)
    → held_version idx name ≡ some v
    → (idx.installed name ≡ some v) × (idx.held name ≡ true)
held_version-some idx name v h = ground arith

satisfied_by-some :
    (idx : Index) (o : Option Text) (name version i : Text)
    → satisfied_by idx o name version ≡ ok (some i)
    → (o ≡ some i) × AtLeast version i
unfolding satisfied_by
satisfied_by-some idx none name version i h = cc
satisfied_by-some idx (some j) name version i h = ground arith

module _ {idx : Index} {Good : Text → Type 0} (clean : Clean idx Good) where
  fix-Inv :
      (name v : Text) (s : ResolveState)
      → Inv idx Good s
      → idx.installed name ≡ some v
      → idx.held name ≡ true
      → is_some (lookup name s.highest) ≡ true
      → Inv idx Good (fix name v s)
  fix-Inv name v s i p q r = record {
    good = i.good;
    justified = i.justified;
    recorded = i.recorded;
    fixed_why = λ n w e. elim (insert-cases n name w v s.fixed e) [
      | inl (a, b) ↦ inr (rw (← a, ← b) (p, q, r))
      | inr k ↦ i.fixed_why n w k
    ];
    distinct = i.distinct;
  }

  fix-Extends :
      (name v : Text) (s : ResolveState) → lookup name s.fixed ≡ none → Extends s (fix name v s)
  fix-Extends name v s h = record {
    fixed_kept = λ n w p. ground (arith, text_eq_iff name n, h, p);
    rises = λ n h p. (h, p, AtLeast-refl clean h);
    expanded_kept = λ k p. p;
    explicit_same = refl;
  }

  -- What a call of `expand` or `walk` promises.
  abbrev pub Promise : (ResolveState → Result ResolveState) → Text → Text → Type 0
  Promise call name version =
      (s t : ResolveState) → Inv idx Good s → call s ≡ ok t → Step idx Good s t × Sat t name version

  walk_satisfied-Step :
      (ex : Text → Text → List Text → ResolveState → Result ResolveState) (o : Option Text)
      (name version : Text) (path : List Text)
      → Good version
      → satisfied_by idx (idx.installed name) name version ≡ ok o
      → Promise (ex name version path) name version
      → Promise (walk_satisfied idx ex o name version path) name version
  unfolding walk_satisfied
  walk_satisfied-Step ex none name version path g h k s t inv e = k s t inv e
  walk_satisfied-Step ex (some i) name version path g h k s t inv e =
      let (p, l) = satisfied_by-some idx (idx.installed name) name version i h in
      let gi = clean.good_installed name i p in
      let (a, b, (x, c, d)) = record_highest-Inv clean name i s inv gi (inr p) in
      let q : record_highest name i s ≡ t = cc in
      rw (← q) (
        quiet clean s (record_highest name i s) a b (record_highest-expanded name i s),
        inr (x, c, AtLeast-trans clean version i x g gi (a.good name x c) l d),
      )

  walk_held-Step :
      (ex : Text → Text → List Text → ResolveState → Result ResolveState) (o : Option Text)
      (name version : Text) (path : List Text)
      → Good version
      → held_version idx name ≡ o
      → Promise (ex name version path) name version
      → (s t : ResolveState) → lookup name s.fixed ≡ none
      → Inv idx Good s
      → walk_held idx ex o name version path s ≡ ok t
      → Step idx Good s t × Sat t name version
  unfolding walk_held installed_satisfies
  walk_held-Step ex none name version path g h k s t f inv e =
      let (o, p, q) = bind-ok (satisfied_by idx (idx.installed name) name version) _ t e in
      walk_satisfied-Step ex o name version path g p k s t inv q
  walk_held-Step ex (some i) name version path g h k s t f inv e =
      let (p, hd) = held_version-some idx name i h in
      let (a, b, (x, c, d)) =
        record_highest-Inv clean name i s inv (clean.good_installed name i p) (inr p) in
      let q : fix name i (record_highest name i s) ≡ t = sym (record_highest-fix name i s) ∙ (cc) in
      let m = fix-Inv name i (record_highest name i s) a p hd (ap is_some c) in
      let n = fix-Extends name i (record_highest name i s) (rw record_highest-fixed f) in
      rw (← q) (
        quiet clean s (fix name i (record_highest name i s)) m
            (Extends-trans clean s (record_highest name i s) (fix name i (record_highest name i s))
              inv a m b n)
            (record_highest-expanded name i s),
        inl (ground (arith, text_eq_refl name)),
      )

  walk_fixed-Step :
      (ex : Text → Text → List Text → ResolveState → Result ResolveState) (o : Option Text)
      (name version : Text) (path : List Text)
      → Good version
      → Promise (ex name version path) name version
      → (s t : ResolveState) → lookup name s.fixed ≡ o
      → Inv idx Good s
      → walk_fixed idx ex o name version path s ≡ ok t
      → Step idx Good s t × Sat t name version
  unfolding walk_fixed
  walk_fixed-Step ex (some v) name version path g k s t f inv e =
      let q : s ≡ t = cc in
      rw (← q) (quiet clean s s inv (Extends-refl clean s) refl, inl (ap is_some f))
  walk_fixed-Step ex none name version path g k s t f inv e =
      walk_held-Step ex (held_version idx name) name version path g refl k s t f inv e

  walk-Step :
      (ex : Text → Text → List Text → ResolveState → Result ResolveState) (name version : Text)
      (path : List Text)
      → Good version
      → Promise (ex name version path) name version
      → Promise (walk idx ex name version path) name version
  unfolding walk
  walk-Step ex name version path g k s t inv e =
      let (u, p, q) = bind-ok (check_cycle path name) _ t e in
      walk_fixed-Step ex (lookup name s.fixed) name version path g k s t refl inv q

  pub walk_dependencies-Step :
      (ex : Text → Text → List Text → ResolveState → Result ResolveState) (name version : Text)
      (path known deps : List Text)
      → idx.dependencies name version ≡ some known
      → ((dep : Text) → In dep deps → In dep known)
      → ((n v : Text) → Good v → Promise (ex n v path) n v)
      → (s t : ResolveState) → Inv idx Good s
      → walk_dependencies idx ex name version path deps s ≡ ok t
      → Step idx Good s t × All (EdgeMet t) deps
  unfolding walk_dependencies walk_dependency
  walk_dependencies-Step ex name version path known [] p sub k s t inv e =
      let q : s ≡ t = cc in (rw (← q) (quiet clean s s inv (Extends-refl clean s) refl), tt)
  walk_dependencies-Step ex name version path known (dep ∷ deps) p sub k s t inv e =
      elim (Option-cases (parse_dependency dep)) [
        | inl z ↦ cc (rw z at e)
        | inr ((d, w), z) ↦
            let (u, a, b) =
              bind-ok (walk_dependency idx ex (parse_dependency dep) name version dep path s) _ t
                e in
            let g = clean.good_dependency name version known dep d w p (sub dep (inl refl)) z in
            let (m, x) = walk-Step ex d w path g (k d w g) s u inv (rw z at a) in
            let (n, y) =
              walk_dependencies-Step ex name version path known deps p (λ c i. sub c (inr i)) k u t
                m.inv b in
            (
              Step_trans clean s u t inv m n,
              ((d, w, z, Sat-Extends clean u t d w m.inv n.inv n.ext g x), y),
            )
      ]
