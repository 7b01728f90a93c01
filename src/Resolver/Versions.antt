-- ===== src/Resolver/Versions.antt =====
-- `higher` orders the versions of an index in which no two spell one number differently.
use valmin.Shared.{
  ◌≡◌, refl, inl, inr, true, false, List, some, arith, Text, In, Lacks, Option-cases,
}
use valmin.Semver.{Version, parse_version}
use valmin.Semver.Order.{Clashes, identifiers, compare-eq_iff, compare-flip}
use valmin.Semver.Transitive.{compare_trans}
use valmin.Resolver.{Index, parse_dependency, higher}

-- What is asked of the versions, `Good`, that requests, dependencies and installed packages name:
-- they parse, hold no at sign, and no two of them spell one number differently.
pub record Clean (idx : Index) (Good : Text → Type 0) : Type 0 where
  pub parsed : (v : Text) → Good v → (w : Version) × (parse_version v ≡ some w)
  pub no_at : (v : Text) → Good v → Lacks b'@' v
  pub no_clash :
      (u v : Text) (x y : Version)
      → Good u
      → Good v
      → parse_version u ≡ some x
      → parse_version v ≡ some y
      → ¬ Clashes (identifiers x) (identifiers y)
  pub good_dependency :
      (name version : Text) (deps : List Text) (dep d w : Text)
      → idx.dependencies name version ≡ some deps
      → In dep deps
      → parse_dependency dep ≡ some (d, w)
      → Good w
  pub good_installed : (name v : Text) → idx.installed name ≡ some v → Good v

-- The second version is not below the first.
abbrev pub AtLeast : Text → Text → Type 0
AtLeast v h = higher v h ≡ false

module _ {idx : Index} {Good : Text → Type 0} (clean : Clean idx Good) where
  pub AtLeast-refl : (v : Text) → AtLeast v v
  unfolding higher
  AtLeast-refl v = elim (Option-cases (parse_version v)) [
    | inl e ↦ rw e refl
    | inr (w, e) ↦ ground (arith, e, (compare-eq_iff w w).1 refl)
  ]

  pub AtLeast-of_higher : (u v : Text) → Good u → Good v → higher u v ≡ true → AtLeast v u
  unfolding higher
  AtLeast-of_higher u v gu gv h =
      let (x, p) = clean.parsed u gu in
      let (y, q) = clean.parsed v gv in
      elim (compare-flip x y) [
        | inl e ↦ ground (arith, p, q, e)
        | inr c ↦ absurd (clean.no_clash u v x y gu gv p q c)
      ]

  pub AtLeast-trans :
      (u v w : Text) → Good u → Good v → Good w → AtLeast u v → AtLeast v w → AtLeast u w
  unfolding higher
  AtLeast-trans u v w gu gv gw h k =
      let (x, p) = clean.parsed u gu in
      let (y, q) = clean.parsed v gv in
      let (z, r) = clean.parsed w gw in
      let t =
        compare_trans x y z (clean.no_clash u v x y gu gv p q) (clean.no_clash v w y z gv gw q r) in
      ground (arith, p, q, r, t, (compare-eq_iff x y).0, (compare-eq_iff y z).0)
