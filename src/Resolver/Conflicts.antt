-- ===== src/Resolver/Conflicts.antt =====
-- `Check`: the edges that a plan leaves unmet.
use valmin.Shared.{
  Bool, false, not, ◌&&◌, List, [], ◌∷◌, ◌++◌, map, Option, none, some, Text, if◌then◌else◌, lookup,
  contains, sort_on, self, compact,
}
use valmin.Resolver.{Index, parse_dependency, higher, or_empty}

pub record Conflict : Type 0 where
  pub full_name : Text
  pub version : Text
  pub dependency : Text
  pub requires : Text
  pub have : Text

-- `present && !higher(depVersion, have)`.
abbrev pub meets : Option Text → Text → Bool
meets none dep_version = false
meets (some have) dep_version = not (higher dep_version have)

module _ (planned : List (Text × Text)) (changed : List Text) (idx : Index) where
  -- What one dependency of `name` at `version` adds to the report.
  unfoldable pub check_edge : Text → Text → Option (Text × Text) → List Conflict
  check_edge name version none = []
  check_edge name version (some (dep_name, dep_version)) =
      if not (contains name changed) && not (contains dep_name changed)
      then []
      else if meets (lookup dep_name planned) dep_version
      then []
      else record {
        full_name = name;
        version = version;
        dependency = dep_name;
        requires = dep_version;
        have = or_empty (lookup dep_name planned);
      }
        ∷ []

  unfoldable pub check_edges : Text → Text → List Text → List Conflict
  unfolding check_edge
  check_edges name version [] = []
  check_edges name version (dep ∷ deps) =
      check_edge name version (parse_dependency dep) ++ check_edges name version deps

  unfoldable pub check_known : Text → Text → Option (List Text) → List Conflict
  unfolding check_edges
  check_known name version none = []
  check_known name version (some deps) = check_edges name version deps

  unfoldable pub check_name : Text → List Conflict
  unfolding check_known
  check_name name =
      let version = or_empty (lookup name planned) in
      check_known name version (idx.dependencies name version)

  unfoldable pub check_names : List Text → List Conflict
  unfolding check_name
  check_names [] = []
  check_names (name ∷ names) = check_name name ++ check_names names

  -- The loop goes over the map's keys in the order of `sort.Strings`.
  abbrev pub names : List Text
  names = compact (sort_on self (map (λ (p : Text × Text). p.0) planned))

  unfoldable pub check : List Conflict
  unfolding check_names
  check = check_names names
