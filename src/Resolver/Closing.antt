-- ===== src/Resolver/Closing.antt =====
-- `Resolve` around its walks: the loops over the requests, and the closure that is read from the
-- state.
use valmin.Shared.{
  ℕ, zero, suc, Bool, false, not, ◌&&◌, List, [], ◌∷◌, Option, none, some, Text, text_eq,
  if◌then◌else◌, insert, contains,
}
use valmin.Semver.{parse_version}
use valmin.Resolver.{
  Request, Node, Index, bad_version, held_at, out_of_fuel, Result, ok, err, ◌>>=◌, parse_dependency,
  ResolveState, parses, record_highest, key, chosen, expand,
}

abbrev pub and_then : Option (List Text) → (List Text → Option (List Text)) → Option (List Text)
and_then none f = none
and_then (some seen) f = f seen

-- The loop of `visit` over the dependencies that parse.
module _ (visit : Text → List Text → Option (List Text)) where
  abbrev pub visit_dependency : Option (Text × Text) → List Text → Option (List Text)
  visit_dependency none seen = some seen
  visit_dependency (some (dep_name, dep_version)) seen = visit dep_name seen

  unfoldable pub visit_all : List Text → List Text → Option (List Text)
  visit_all [] seen = some seen
  visit_all (dep ∷ deps) seen =
      and_then (visit_dependency (parse_dependency dep) seen) (visit_all deps)

  unfoldable pub visit_known : Option (List Text) → List Text → Option (List Text)
  unfolding visit_all
  visit_known none seen = some seen
  visit_known (some deps) seen = visit_all deps seen

module _ (idx : Index) where
  -- The first loop: what a request is refused for, and the version that it fixes.
  unfoldable pub admit_present : Option Text → Request → ResolveState → Result ResolveState
  admit_present none r s = ok (record s {
    explicit = r.full_name ∷ s.explicit;
    fixed = insert r.full_name r.version s.fixed;
  })
  admit_present (some installed) r s =
      if not (parses (parse_version installed))
      then err (bad_version r.full_name installed)
      else if idx.held r.full_name && not (text_eq installed r.version)
      then err (held_at r.full_name installed r.version)
      else ok (record s {
        explicit = r.full_name ∷ s.explicit;
        fixed = insert r.full_name r.version s.fixed;
      })

  unfoldable pub admit : Request → ResolveState → Result ResolveState
  unfolding admit_present
  admit r s =
      if not (parses (parse_version r.version))
      then err (bad_version r.full_name r.version)
      else admit_present (idx.installed r.full_name) r s

  unfoldable pub admit_all : List Request → ResolveState → Result ResolveState
  unfolding admit
  admit_all [] s = ok s
  admit_all (r ∷ rs) s = admit r s >>= admit_all rs

  abbrev pub installed_at : Option Text → Text → Bool
  installed_at none version = false
  installed_at (some installed) version = text_eq installed version

  -- The second loop.
  unfoldable pub start : ℕ → Request → ResolveState → Result ResolveState
  start fuel r s =
      if installed_at (idx.installed r.full_name) r.version
      then ok (record_highest r.full_name r.version s)
      else expand idx fuel r.full_name r.version [] s

  unfoldable pub start_all : ℕ → List Request → ResolveState → Result ResolveState
  unfolding start
  start_all fuel [] s = ok s
  start_all fuel (r ∷ rs) s = start fuel r s >>= start_all fuel rs

  -- `visit` of `reachable`: the packages seen so far, and those behind `name`. `none` means that
  -- the bound on the depth was reached.
  unfoldable pub visit : ResolveState → ℕ → Text → List Text → Option (List Text)
  unfolding visit_known
  visit s zero name seen = none
  visit s (suc fuel) name seen =
      if contains name seen
      then some seen
      else if not (contains (key name (chosen s name)) s.expanded)
      then some (name ∷ seen)
      else visit_known (visit s fuel) (idx.dependencies name (chosen s name)) (name ∷ seen)

  unfoldable pub visit_explicit : ResolveState → ℕ → List Text → List Text → Option (List Text)
  unfolding visit
  visit_explicit s fuel [] seen = some seen
  visit_explicit s fuel (name ∷ names) seen =
      and_then (visit s fuel name seen) (visit_explicit s fuel names)

  unfoldable pub reachable : ℕ → ResolveState → Option (List Text)
  unfolding visit_explicit
  reachable fuel s = visit_explicit s fuel s.explicit []

  unfoldable pub node : ResolveState → Text → Node
  node s name = record {
    full_name = name;
    version = chosen s name;
    transitive = not (contains name s.explicit);
    no_op = installed_at (idx.installed name) (chosen s name);
  }

  unfoldable pub nodes : ResolveState → List Text → List Text → List Node
  unfolding node
  nodes s keep [] = []
  nodes s keep (name ∷ names) =
      let rest = nodes s keep names in if contains name keep then node s name ∷ rest else rest

  unfoldable pub closure_of : ResolveState → Option (List Text) → Result (List Node)
  unfolding nodes
  closure_of s none = err out_of_fuel
  closure_of s (some keep) = ok (nodes s keep s.order)

  unfoldable pub closure : ℕ → ResolveState → Result (List Node)
  unfolding closure_of reachable
  closure fuel s = closure_of s (reachable fuel s)

  abbrev pub empty_state : ResolveState
  empty_state = record { highest = []; fixed = []; explicit = []; expanded = []; order = [] }

  -- `fuel` bounds the depth of the two recursions.
  unfoldable pub resolve : ℕ → List Request → Result (List Node)
  unfolding admit_all start_all closure
  resolve fuel requests = do
    admitted ← admit_all requests empty_state
    walked ← start_all fuel requests admitted
    closure fuel walked
