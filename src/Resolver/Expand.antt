-- ===== src/Resolver/Expand.antt =====
-- `expand` and the two loops of `Resolve`, as steps that meet the edges of what they walk.
use valmin.Shared.{
  ℕ, zero, suc, ◌≡◌, refl, ap, ◌⊎◌, inl, inr, true, List, [], ◌∷◌, ◌++◌, Option, none, some, arith,
  Text, text_eq, text_eq_iff, text_eq_refl, lookup, contains, All, Bool-cases, Option-cases,
}
use valmin.Resolver.{
  Index, Request, Result, ok, ResolveState, record_highest, key, walk_dependencies, expand_new,
  expand_known, expand,
}
use valmin.Resolver.Closing.{start, start_all, installed_at}
use valmin.Resolver.Versions.{Clean}
use valmin.Resolver.Invariant.{
  is_some, Inv, Extends, Extends-refl, Extends-trans, Reaches, record_highest-Inv, mark,
  record_highest-mark, record_highest-expanded, mark-Inv, mark-Extends,
}
use valmin.Resolver.Edges.{
  EdgeMet, Met, Step, bind-ok, key-injective, Reaches-Extends, Step_trans, quiet,
}
use valmin.Resolver.Walk.{Promise, walk_dependencies-Step}

-- What a request leaves: its package recorded, its version expanded or installed.
pub record Started (idx : Index) (r : Request) (t : ResolveState) : Type 0 where
  pub seen : is_some (lookup r.full_name t.highest) ≡ true
  pub why :
      (contains (key r.full_name r.version) t.expanded ≡ true)
      ⊎ (idx.installed r.full_name ≡ some r.version)

module _ {idx : Index} {Good : Text → Type 0} (clean : Clean idx Good) where
  -- The version being expanded is one of the versions that the step meets.
  expand_new-Met :
      (name version : Text) (deps : List Text) (s u t : ResolveState)
      → Good version
      → u.expanded ≡ key name version ∷ s.expanded
      → idx.dependencies name version ≡ some deps
      → Step idx Good u t
      → All (EdgeMet t) deps
      → (n v : Text) → Good v
      → contains (key n v) t.expanded ≡ true
      → (contains (key n v) s.expanded ≡ true) ⊎ Met idx t n v
  expand_new-Met name version deps s u t g ue p st a n v gv c = elim (st.met n v gv c) [
    | inr m ↦ inr m
    | inl k ↦ elim (Bool-cases (text_eq (key name version) (key n v))) [
      | inr x ↦ inl (ground (arith, rw ue at k, x))
      | inl x ↦
          let (y, z) =
            key-injective name n version v (clean.no_at version g) (clean.no_at v gv)
              ((text_eq_iff (key name version) (key n v)).0 x) in
          inr (rw (← y, ← z) (deps, p, a))
    ]
  ]

  -- What a call of `expand` promises: a step after which the package stands recorded at the
  -- version or above, and its key among the expanded ones.
  record Expansion (name version : Text) (s t : ResolveState) : Type 0 where
    step : Step idx Good s t
    reaches : Reaches t name version
    marked : contains (key name version) t.expanded ≡ true

  expand_known-Expansion :
      (ex : Text → Text → List Text → ResolveState → Result ResolveState) (o : Option (List Text))
      (name version : Text) (path : List Text)
      → Good version
      → idx.dependencies name version ≡ o
      → ((n v : Text) (q : List Text) → Good v → Promise clean (ex n v q) n v)
      → (s t : ResolveState) → Inv idx Good s
      → expand_known idx ex o name version path s ≡ ok t
      → Expansion name version s t
  unfolding expand_known expand_new
  expand_known-Expansion ex none name version path g p k s t inv e = cc
  expand_known-Expansion ex (some deps) name version path g p k s t inv e =
      let this = key name version in
      elim (Bool-cases (contains this (record_highest name version s).expanded)) [
        | inl c ↦
            let (a, b, r) =
              record_highest-Inv clean name version s inv g
                (inl (rw (← record_highest-expanded name version s) c)) in
            let q : record_highest name version s ≡ t = cc (rw c at e) in
            rw (← q) (record {
              step =
                  quiet clean s (record_highest name version s) a b
                    (record_highest-expanded name version s);
              reaches = r;
              marked = c;
            })
        | inr c ↦
            let m = mark this s in
            let im = mark-Inv clean this s inv in
            let here : contains this m.expanded ≡ true = ground (arith, text_eq_refl this) in
            let (a, b, r) = record_highest-Inv clean name version m im g (inl here) in
            let u = record_highest name version m in
            let w : walk_dependencies idx ex name version (path ++ name ∷ []) deps u ≡ ok t =
              rw (← record_highest-mark this name version s) (rw c at e) in
            let (st, x) =
              walk_dependencies-Step clean ex name version (path ++ name ∷ []) deps deps p
                (λ d i. i) (λ n v gv. k n v (path ++ name ∷ []) gv) u t a w in
            let su = Extends-trans clean s m u inv im a (mark-Extends clean this s) b in
            record {
              step = record {
                inv = st.inv;
                ext = Extends-trans clean s u t inv a st.inv su st.ext;
                met =
                    expand_new-Met name version deps s u t g
                      (record_highest-expanded name version m) p st x;
              };
              reaches = Reaches-Extends clean u t name version a st.inv st.ext g r;
              marked = st.ext.expanded_kept this (b.expanded_kept this here);
            }
      ]

  expand-Expansion :
      (fuel : ℕ) (name version : Text) (path : List Text)
      → Good version
      → (s t : ResolveState) → Inv idx Good s
      → expand idx fuel name version path s ≡ ok t
      → Expansion name version s t
  unfolding expand
  expand-Expansion zero name version path g s t inv e = cc
  expand-Expansion (suc fuel) name version path g s t inv e =
      expand_known-Expansion (expand idx fuel) (idx.dependencies name version) name version path g
        refl
        (λ n v q gv s' t' i' e'.
          let x = expand-Expansion fuel n v q gv s' t' i' e' in (x.step, inr x.reaches))
        s t inv e

  Started-Extends :
      (r : Request) (s t : ResolveState) → Extends s t → Started idx r s → Started idx r t
  Started-Extends r s t e x = record {
    seen = elim (Option-cases (lookup r.full_name s.highest)) [
      | inl p ↦ cc (x.seen, p)
      | inr (h, p) ↦ let (h', q, l) = e.rises r.full_name h p in ap is_some q
    ];
    why = elim (x.why) [ inl c ↦ inl (e.expanded_kept _ c) | inr i ↦ inr i ];
  }

  installed_at-some : (o : Option Text) (v : Text) → installed_at idx o v ≡ true → o ≡ some v
  installed_at-some none v h = cc
  installed_at-some (some i) v h = ap some ((text_eq_iff i v).0 h)

  start-Started :
      (fuel : ℕ) (r : Request) (s t : ResolveState)
      → Good r.version
      → Inv idx Good s
      → start idx fuel r s ≡ ok t
      → Step idx Good s t × Started idx r t
  unfolding start
  start-Started fuel r s t g inv e =
      elim (Bool-cases (installed_at idx (idx.installed r.full_name) r.version)) [
        | inl c ↦
            let p = installed_at-some (idx.installed r.full_name) r.version c in
            let (a, b, (h, x, l)) =
              record_highest-Inv clean r.full_name r.version s inv g (inr p) in
            let q : record_highest r.full_name r.version s ≡ t = cc (rw c at e) in
            rw (← q) (
              quiet clean s (record_highest r.full_name r.version s) a b
                  (record_highest-expanded r.full_name r.version s),
              record { seen = ap is_some x; why = inr p },
            )
        | inr c ↦
            let x = expand-Expansion fuel r.full_name r.version [] g s t inv (rw c at e) in
            (x.step, record { seen = ap is_some (x.reaches.1); why = inl x.marked })
      ]

  pub start_all-Started :
      (fuel : ℕ) (rs : List Request) (s t : ResolveState)
      → All (λ r. Good r.version) rs
      → Inv idx Good s
      → start_all idx fuel rs s ≡ ok t
      → Step idx Good s t × All (λ r. Started idx r t) rs
  unfolding start_all
  start_all-Started fuel [] s t g inv e =
      let q : s ≡ t = cc in (rw (← q) (quiet clean s s inv (Extends-refl clean s) refl), tt)
  start_all-Started fuel (r ∷ rs) s t g inv e =
      let (u, a, b) = bind-ok (start idx fuel r s) _ t e in
      let (m, x) = start-Started fuel r s u g.0 inv a in
      let (n, y) = start_all-Started fuel rs u t g.1 m.inv b in
      (Step_trans clean s u t inv m n, (Started-Extends r u t n.ext x, y))
