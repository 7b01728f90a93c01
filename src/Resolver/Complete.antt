-- ===== src/Resolver/Complete.antt =====
-- The closure that `Resolve` returns: it holds what was requested, and is complete.
use valmin.Shared.{
  ℕ, ◌≡◌, refl, ◌∙◌, ap, inl, inr, false, List, [], ◌∷◌, map, none, some, Text, contains,
  contains-In, In-contains, In, All, All-In, NoDup, Bool-cases, Option-cases,
}
use valmin.Resolver.{Index, Request, Node, ok, ResolveState, chosen}
use valmin.Resolver.Closing.{
  admit_all, start_all, reachable, node, nodes, closure_of, closure, empty_state, resolve,
}
use valmin.Resolver.Versions.{Clean}
use valmin.Resolver.Invariant.{is_some}
use valmin.Resolver.Edges.{bind-ok}
use valmin.Resolver.Expand.{Started}
use valmin.Resolver.Reach.{reachable-Closes}
use valmin.Resolver.Requests.{requested, In-requested}
use valmin.Resolver.Walked.{
  Covered, Walked, walk-Walked, chosen-why, node-expanded, nodes-In, In-nodes, covered,
}

closure_of-ok :
    (idx : Index) (t : ResolveState) (keep : List Text) (ns : List Node)
    → closure_of idx t (some keep) ≡ ok ns
    → ns ≡ nodes idx t keep t.order
unfolding closure_of
closure_of-ok idx t keep ns h = cc

closure_of-none :
    (idx : Index) (t : ResolveState) (ns : List Node) → closure_of idx t none ≡ ok ns → ⊥
unfolding closure_of
closure_of-none idx t ns h = cc

abbrev pub full_names : List Node → List Text
full_names ns = map (λ (m : Node). m.full_name) ns

In-full_names :
    (idx : Index) (t : ResolveState) (keep names : List Text) (n : Text)
    → In n (full_names (nodes idx t keep names))
    → In n names
unfolding nodes node
In-full_names idx t keep [] n i = i
In-full_names idx t keep (x ∷ names) n i = elim (Bool-cases (contains x keep)) [
  | inl c ↦ elim (rw c at i) [ inl e ↦ inl e | inr j ↦ inr (In-full_names idx t keep names n j) ]
  | inr c ↦ inr (In-full_names idx t keep names n (rw c at i))
]

nodes-NoDup :
    (idx : Index) (t : ResolveState) (keep names : List Text)
    → NoDup names
    → NoDup (full_names (nodes idx t keep names))
unfolding nodes node
nodes-NoDup idx t keep [] d = tt
nodes-NoDup idx t keep (x ∷ names) d = elim (Bool-cases (contains x keep)) [
  | inl c ↦ rw c ((λ i. d.0 (In-full_names idx t keep names x i)), nodes-NoDup idx t keep names d.1)
  | inr c ↦ rw c (nodes-NoDup idx t keep names d.1)
]

module _ {idx : Index} {Good : Text → Type 0} (clean : Clean idx Good) (rs : List Request)
    (good : All (λ r. Good r.version) rs) where
  -- The pieces of a run that returned.
  run :
      (fuel : ℕ) (ns : List Node)
      → resolve idx fuel rs ≡ ok ns
      → (t : ResolveState) × Walked idx Good rs t
        × (keep : List Text) × (reachable idx fuel t ≡ some keep)
        × (ns ≡ nodes idx t keep t.order)
  unfolding resolve closure
  run fuel ns h =
      let (a, p, h1) = bind-ok (admit_all idx rs (empty_state idx)) _ ns h in
      let (t, q, h2) = bind-ok (start_all idx fuel rs a) _ ns h1 in
      elim (Option-cases (reachable idx fuel t)) [
        | inl z ↦ absurd (closure_of-none idx t ns (rw z at h2))
        | inr (keep, z) ↦ (
          t,
          walk-Walked clean rs good fuel a t p q,
          keep,
          z,
          closure_of-ok idx t keep ns (rw z at h2),
        )
      ]

  -- Over requests and an index whose versions parse, hold no at sign and do not clash, the
  -- closure that `Resolve` answers is complete: each package of it that is not a no-op is known
  -- to the index, and each of its dependencies refers to a package of the closure, at the
  -- version required or above, or at the version requested or held.
  pub resolve-Covered :
      (fuel : ℕ) (ns : List Node) (m : Node)
      → resolve idx fuel rs ≡ ok ns
      → In m ns
      → m.no_op ≡ false
      → (deps : List Text) × (idx.dependencies m.full_name m.version ≡ some deps)
        × All (Covered idx rs ns) deps
  unfolding node
  resolve-Covered fuel ns m h i o =
      let (t, w, keep, z, e) = run fuel ns h in
      let (n, j, k, p) = In-nodes clean rs good t w keep t.order m (rw e at i) in
      let c = In-contains n t.order j in
      let x = node-expanded clean rs good t w n c (rw p at o) in
      let (deps, d, a) = w.met n (chosen t n) ((chosen-why clean rs good t w n c).0) x in
      rw (p, e) (deps, d, covered clean rs good t w fuel keep n deps deps z k x d (λ y l. l) a)

  -- Over such requests and such an index, every requested package is in the closure, at the
  -- version of its last request, and is not marked transitive.
  pub resolve-requested :
      (fuel : ℕ) (ns : List Node) (r : Request)
      → resolve idx fuel rs ≡ ok ns
      → In r rs
      → (m : Node) × In m ns
        × (m.full_name ≡ r.full_name)
        × (requested rs r.full_name ≡ some m.version)
        × (m.transitive ≡ false)
  unfolding node chosen
  resolve-requested fuel ns r h i =
      let (t, w, keep, z, e) = run fuel ns h in
      let s = In-requested rs r i in
      let x = All-In (λ q. Started idx q t) r rs w.started i in
      let c = w.explicit_is r.full_name ∙ s in
      elim (Option-cases (requested rs r.full_name)) [
        | inl y ↦ cc (s, ap is_some y)
        | inr (v, y) ↦
            let f = w.fixed_requested r.full_name v y in
            (
              node idx t r.full_name,
              rw e (
                  nodes-In clean rs good t w keep t.order r.full_name
                    (contains-In r.full_name t.order (w.inv.recorded r.full_name ∙ x.seen))
                    ((reachable-Closes idx t fuel keep z).0 r.full_name c)),
              refl,
              rw f y,
              rw c refl,
            )
      ]

  -- Over such requests and such an index, no package stands in the closure twice.
  pub resolve-NoDup :
      (fuel : ℕ) (ns : List Node) → resolve idx fuel rs ≡ ok ns → NoDup (full_names ns)
  resolve-NoDup fuel ns h =
      let (t, w, keep, z, e) = run fuel ns h in rw e (nodes-NoDup idx t keep t.order w.inv.distinct)
