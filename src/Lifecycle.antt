-- ===== src/Lifecycle.antt =====
-- internal/instance/state.go: the states of an instance, the edges between them, and the writes
-- that go through them. The statements that write are those of internal/store/instances.go.
pub mod Table
mod Writes
mod History
mod Samples
use valmin.Shared.{
  ℕ, suc, Bool, true, false, ◌&&◌, ◌||◌, List, [], ◌∷◌, Option, none, some, Text, codes, text_eq,
  if◌then◌else◌, ◌==◌, sort_on, ◌≡◌,
}
use valmin.Kinds.{
  Kind, provision, start, stop, restart, delete, world_import, backup, restore, game_update, clone,
  setup_save, setup_restore, world_tool, chain, update_test, update_apply,
}

pub data State : Type 0 where
  created provisioning stopped starting running stopping : State
  backing_up restoring updating deleting error : State

unfoldable pub state_name : State → Text
state_name created = codes "created"
state_name provisioning = codes "provisioning"
state_name stopped = codes "stopped"
state_name starting = codes "starting"
state_name running = codes "running"
state_name stopping = codes "stopping"
state_name backing_up = codes "backing_up"
state_name restoring = codes "restoring"
state_name updating = codes "updating"
state_name deleting = codes "deleting"
state_name error = codes "error"

-- The place of a state in the list of constants, by which two are compared.
abbrev index : State → ℕ
index created = 0
index provisioning = 1
index stopped = 2
index starting = 3
index running = 4
index stopping = 5
index backing_up = 6
index restoring = 7
index updating = 8
index deleting = 9
index error = 10

pub same_state : State → State → Bool
same_state a b = index a == index b

pub record Edge : Type 0 where
  pub from : State
  pub to : State

abbrev edge : State → State → Edge
edge a b = record { from = a; to = b }

abbrev pub edge_list : List Edge
edge_list =
    edge created provisioning
    ∷ edge error provisioning
    ∷ edge provisioning stopped
    ∷ edge provisioning error
    ∷ edge stopped starting
    ∷ edge stopped error
    ∷ edge starting running
    ∷ edge starting error
    ∷ edge starting stopped
    ∷ edge running stopping
    ∷ edge stopping starting
    ∷ edge stopping stopped
    ∷ edge stopping error
    ∷ edge running stopped
    ∷ edge running error
    ∷ edge stopped running
    ∷ edge stopped backing_up
    ∷ edge stopped restoring
    ∷ edge stopped updating
    ∷ edge backing_up stopped
    ∷ edge backing_up running
    ∷ edge restoring stopped
    ∷ edge restoring error
    ∷ edge updating stopped
    ∷ edge updating error
    ∷ edge stopped deleting
    ∷ edge error deleting
    ∷ edge error stopped
    ∷ edge error running
    ∷ []

-- The lookup in the map that is built from the list.
has_edge : List Edge → State → State → Bool
unfolding same_state
has_edge [] from to = false
has_edge (e ∷ es) from to = same_state e.from from && same_state e.to to || has_edge es from to

pub valid : State → State → Bool
unfolding has_edge
valid from to = has_edge edge_list from to

-- A row of `instances`, as far as the writes below go.
pub record Row : Type 0 where
  pub id : Text
  pub state : State
  pub restart_required : Bool
  pub pending_restart : Bool
  pub container_id : Text
  pub game_build_id : Text

-- One `UPDATE … WHERE id = ? AND state = ?`: the rows after it, and how many it changed.
module _ (id : Text) (from : State) (write : Row → Row) where
  matches : Row → Bool
  matches r = text_eq r.id id && same_state r.state from

  pub update_rows : List Row → List Row × ℕ
  unfolding matches
  update_rows [] = ([], 0)
  update_rows (r ∷ rows) =
      let (rest, n) = update_rows rows in
      if matches r then (write r ∷ rest, suc n) else (r ∷ rest, n)

abbrev pub move : State → Row → Row
move to r = record r { state = to }

-- `TxUpdateInstanceState` and `UpdateInstanceState`: the flag says that one row moved.
update_instance_state : Text → State → State → List Row → List Row × Bool
unfolding update_rows
update_instance_state id from to rows =
    ((update_rows id from (move to) rows).0, (update_rows id from (move to) rows).1 == 1)

-- `illegal` is the error of `ValidateTransition`, `not_in_state` that of a finish whose row has
-- moved on.
pub data WriteError : Type 0 where
  illegal : State → State → WriteError
  not_in_state : Text → State → WriteError

pub data Result (A : Type 0) : Type 0 where
  ok : A → Result A
  err : WriteError → Result A

validate_transition : State → State → Option WriteError
validate_transition from to = if valid from to then none else some (illegal from to)

abbrev checked {ℓ} : {A : Type ℓ} → Option WriteError → A → (WriteError → A) → A
checked none go refuse = go
checked (some e) go refuse = refuse e

abbrev answered : List Row × Bool → List Row × Result Bool
answered p = (p.0, ok p.1)

-- `SetState`, with the store's own failures left out: the rows, and the flag or the error.
pub set_state : Text → State → State → List Row → List Row × Result Bool
unfolding validate_transition update_instance_state
set_state id from to rows =
    checked (validate_transition from to) (answered (update_instance_state id from to rows))
      (λ e. (rows, err e))

-- `HoldStateTx`: the row is written with the state that it has.
pub hold_state : Text → State → List Row → List Row × Bool
unfolding update_instance_state
hold_state id s rows = update_instance_state id s s rows

abbrev started : State → Row → Row
started to r = record r { state = to; restart_required = false; pending_restart = false }

abbrev provisioned : State → Text → Text → Row → Row
provisioned to container build r = record r {
  state = to;
  container_id = container;
  game_build_id = build;
}

-- `TxFinishStart` and `TxFinishProvisioning` in a transaction: a count other than one rolls back.
finish_rows : Text → State → (Row → Row) → List Row → List Row × Result (Unit {0})
unfolding update_rows
finish_rows id from write rows =
    let (after, n) = update_rows id from write rows in
    if n == 1 then (after, ok tt) else (rows, err (not_in_state id from))

pub finish_start : Text → State → State → List Row → List Row × Result (Unit {0})
unfolding validate_transition finish_rows
finish_start id from to rows =
    checked (validate_transition from to) (finish_rows id from (started to) rows)
      (λ e. (rows, err e))

pub finish_provisioning :
    Text → State → State → Text → Text → List Row → List Row × Result (Unit {0})
unfolding validate_transition finish_rows
finish_provisioning id from to container build rows =
    checked (validate_transition from to)
      (finish_rows id from (provisioned to container build) rows) (λ e. (rows, err e))

abbrev pub requires : Kind → List State
requires provision = created ∷ error ∷ []
requires start = stopped ∷ []
requires stop = running ∷ []
requires restart = running ∷ []
requires delete = stopped ∷ error ∷ []
requires world_import = stopped ∷ []
requires backup = stopped ∷ running ∷ []
requires restore = stopped ∷ []
requires game_update = stopped ∷ []
requires clone = stopped ∷ []
requires setup_save = stopped ∷ []
requires setup_restore = stopped ∷ []
requires world_tool = stopped ∷ []
requires chain = stopped ∷ running ∷ []
requires update_test = stopped ∷ running ∷ []
requires update_apply = stopped ∷ running ∷ []
requires _ = []

unfoldable pub allowed_from : Kind → List State
allowed_from kind = sort_on state_name (requires kind)
