-- ===== src/Alerts/Conditions.antt =====
-- internal/store/alerts.go: the stored conditions, and their reconciliation with a scan.
pub mod Pairs
mod Scanned
mod Reconciled
pub mod Settled
use valmin.Shared.{
  ℕ, Bool, true, false, not, ◌&&◌, List, [], ◌∷◌, ◌++◌, Option, none, some, Text, text_eq,
  if◌then◌else◌, lookup, insert, contains,
}

-- A row of `alert_conditions`; the detail is the text that the table holds.
pub record Row : Type 0 where
  pub id : Text
  pub instance_id : Option Text
  pub kind : Text
  pub detail : Text
  pub first_seen_at : ℕ
  pub last_seen_at : ℕ
  pub resolved_at : Option ℕ

-- `ObservedCondition`, with the identifier that `NewID` makes if the condition opens.
pub record Observed : Type 0 where
  pub kind : Text
  pub instance_id : Option Text
  pub detail : Text
  pub new_id : Text

abbrev pub deref : Option Text → Text
deref none = []
deref (some i) = i

-- `conditionKey`.
abbrev pub condition_key : Text → Option Text → Text
condition_key kind instance_id = kind ++ 0 ∷ deref instance_id

abbrev pub row_key : Row → Text
row_key r = condition_key r.kind r.instance_id

abbrev pub observed_key : Observed → Text
observed_key o = condition_key o.kind o.instance_id

abbrev pub is_open : Option ℕ → Bool
is_open none = true
is_open (some at) = false

-- `openConditionsTx`.
unfoldable pub open_conditions : List Row → List Row
open_conditions [] = []
open_conditions (r ∷ rows) =
    let rest = open_conditions rows in if is_open r.resolved_at then r ∷ rest else rest

-- The loop that fills the map of the open rows.
pub by_key : List Row → List (Text × Row) → List (Text × Row)
by_key [] m = m
by_key (r ∷ rows) m = by_key rows (insert (row_key r) r m)

-- `UPDATE … WHERE id = ?`.
module _ (id : Text) (write : Row → Row) where
  pub update_row : List Row → List Row
  update_row [] = []
  update_row (r ∷ rows) =
      let rest = update_row rows in if text_eq r.id id then write r ∷ rest else r ∷ rest

abbrev pub touched : ℕ → Text → Row → Row
touched now detail r = record r { last_seen_at = now; detail = detail }

abbrev pub resolved : ℕ → Row → Row
resolved now r = record r { resolved_at = some now }

abbrev pub opened_row : ℕ → Observed → Row
opened_row now o = record {
  id = o.new_id;
  instance_id = o.instance_id;
  kind = o.kind;
  detail = o.detail;
  first_seen_at = now;
  last_seen_at = now;
  resolved_at = none;
}

-- What the loop over the observations has made: the table, the keys seen, and the rows opened.
pub record Scan : Type 0 where
  pub rows : List Row
  pub seen : List Text
  pub opened : List Row

-- `upsertCondition`.
pub upsert_condition : ℕ → Observed → Option Row → Scan → Scan
unfolding update_row
upsert_condition now o (some existing) s = record s {
  rows = update_row existing.id (touched now o.detail) s.rows;
}
upsert_condition now o none s = record s {
  rows = s.rows ++ opened_row now o ∷ [];
  opened = s.opened ++ opened_row now o ∷ [];
}

-- The loop of `ReconcileConditions`.
pub observe : ℕ → List (Text × Row) → List Observed → Scan → Scan
unfolding upsert_condition
observe now found [] s = s
observe now found (o ∷ os) s = observe now found os (
    if contains (observed_key o) s.seen
    then s
    else upsert_condition now o (lookup (observed_key o) found)
        (record s { seen = observed_key o ∷ s.seen }))

-- `resolveMissing`: the table, and the rows resolved.
pub resolve_missing : ℕ → List Text → List Row → List Row → List Row × List Row
unfolding update_row
resolve_missing now seen [] rows = (rows, [])
resolve_missing now seen (c ∷ found) rows =
    if contains (row_key c) seen
    then resolve_missing now seen found rows
    else let (after, rest) = resolve_missing now seen found (update_row c.id (resolved now) rows) in
      (after, resolved now c ∷ rest)

-- `ConditionDiff`.
pub record Diff : Type 0 where
  pub opened : List Row
  pub resolved_rows : List Row

reconciled : ℕ → List Row → Scan → List Row × Diff
unfolding resolve_missing
reconciled now found s =
    let (rows, gone) = resolve_missing now s.seen found s.rows in
    (rows, record { opened = s.opened; resolved_rows = gone })

-- `ReconcileConditions`.
pub reconcile : ℕ → List Observed → List Row → List Row × Diff
unfolding open_conditions by_key observe reconciled
reconcile now observed rows =
    let found = open_conditions rows in
    reconciled now found
      (observe now (by_key found []) observed (record { rows = rows; seen = []; opened = [] }))
