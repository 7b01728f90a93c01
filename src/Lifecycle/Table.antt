-- ===== src/Lifecycle/Table.antt =====
-- The table of edges.
use valmin.Shared.{
  ◌≡◌, ◌↔◌, true, List, [], ◌∷◌, arith, In, All, All-In, SortedOn, In-sort_on_iff, sort_on-SortedOn,
}
use valmin.Kinds.{Kind, provision}
use valmin.Lifecycle.{
  State, created, stopped, running, error, state_name, same_state, valid, has_edge, edge_list, Edge,
  requires, allowed_from,
}

pub same_state_iff : (a b : State) → (same_state a b ≡ true) ↔ (a ≡ b)
unfolding same_state
same_state_iff a b = ground arith

has_edge_iff :
    (es : List Edge) (a b : State) → (has_edge es a b ≡ true) ↔ In (record { from = a; to = b }) es
unfolding has_edge
has_edge_iff [] a b = ((λ h. cc h), λ i. absurd i)
has_edge_iff (e ∷ es) a b =
    ground (arith, same_state_iff e.from a, same_state_iff e.to b, has_edge_iff es a b)

-- `Valid` holds of exactly the edges that the table lists.
pub valid_iff : (a b : State) → (valid a b ≡ true) ↔ In (record { from = a; to = b }) edge_list
unfolding valid
valid_iff a b = has_edge_iff edge_list a b

-- The states that a job can be claimed in.
pub data Settled : State → Type 0 where
  is_created : Settled created
  is_stopped : Settled stopped
  is_running : Settled running
  is_error : Settled error

requires-Settled : (k : Kind) → All Settled (requires k)
requires-Settled provision = (is_created, (is_error, tt))
requires-Settled _ = search (is_created, is_stopped, is_running, is_error, tt)

-- `AllowedFrom` lists the states of the table in the order of their names, and each of them is a
-- settled one: no job is claimed on an instance in transition.
pub allowed_from_lem :
    (k : Kind)
    → SortedOn state_name (allowed_from k)
      × ((s : State) → In s (allowed_from k) ↔ In s (requires k))
      × ((s : State) → In s (allowed_from k) → Settled s)
unfolding allowed_from
allowed_from_lem k =
    let keeps = λ (s : State). In-sort_on_iff state_name s (requires k) in
    (
      sort_on-SortedOn state_name (requires k),
      keeps,
      λ s i. All-In Settled s (requires k) (requires-Settled k) ((keeps s).0 i),
    )
