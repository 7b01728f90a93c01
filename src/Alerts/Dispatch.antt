-- ===== src/Alerts/Dispatch.antt =====
-- internal/store/alerts.go, internal/notify/delivery/alerts.go: which edges are announced.
mod Announced
pub mod Owed
use valmin.Shared.{
  ℕ, ◌-◌, Bool, true, false, not, ◌&&◌, ◌||◌, List, [], ◌∷◌, ◌++◌, Option, none, some, Text,
  text_eq, if◌then◌else◌, ltb, contains, ◌+◌,
}
use valmin.Alerts.{Rule, matches, quiet}
use valmin.Alerts.Conditions.{Row, row_key, is_open, open_conditions}

pub data Edge : Type 0 where
  opened resolved : Edge

abbrev pub same_edge : Edge → Edge → Bool
same_edge opened opened = true
same_edge resolved resolved = true
same_edge _ _ = false

-- The key of a row of `alert_notifications`.
pub record Notification : Type 0 where
  pub condition_id : Text
  pub rule_id : Text
  pub edge : Edge

abbrev pub claim_of : Row → Rule → Edge → Notification
claim_of c r edge = record { condition_id = c.id; rule_id = r.id; edge = edge }

abbrev pub is_claim : Notification → Notification → Bool
is_claim n m =
    text_eq m.condition_id n.condition_id && text_eq m.rule_id n.rule_id && same_edge m.edge n.edge

-- A row with the key of `n` is there.
abbrev pub claimed : Notification → List Notification → Bool
claimed n [] = false
claimed n (m ∷ ms) = is_claim n m || claimed n ms

abbrev pub may_claim : Notification → List Notification → Bool
may_claim n ms = same_edge n.edge opened || claimed (record n { edge = opened }) ms

-- `MarkNotified`: the table, and whether the claim is new.
unfoldable pub mark_notified : Notification → List Notification → List Notification × Bool
mark_notified n ms =
    if may_claim n ms && not (claimed n ms) then (ms ++ n ∷ [], true) else (ms, false)

abbrev pub horizon : ℕ
horizon = 172800000000000

abbrev pub resolved_after : ℕ → Option ℕ → Bool
resolved_after now none = false
resolved_after now (some at) = ltb now (at + horizon)

-- Some rule has announced the opening of the condition and not its resolution.
abbrev pub owes_one : Text → List Notification → List Notification → Bool
owes_one id all [] = false
owes_one id all (m ∷ ms) =
    text_eq m.condition_id id
      && same_edge m.edge opened
      && not (claimed (record m { edge = resolved }) all)
    || owes_one id all ms

-- `ResolvedUnannounced`, but for the order of its rows.
pub resolved_unannounced : ℕ → List Notification → List Row → List Row
resolved_unannounced now ms [] = []
resolved_unannounced now ms (c ∷ rows) =
    let rest = resolved_unannounced now ms rows in
    if resolved_after now c.resolved_at && owes_one c.id ms ms then c ∷ rest else rest

-- The set `reopened`, by the keys of the open conditions.
pub keys_of : List Row → List Text
keys_of [] = []
keys_of (c ∷ rows) = row_key c ∷ keys_of rows

-- The resolutions whose condition has not opened again.
pub owed : List Text → List Row → List Row
owed reopened [] = []
owed reopened (c ∷ rows) =
    let rest = owed reopened rows in if contains (row_key c) reopened then rest else c ∷ rest

-- What has been claimed, and the edges announced.
pub record Sent : Type 0 where
  pub notifications : List Notification
  pub sent : List Notification

abbrev pub sent_if : Notification → List Notification × Bool → List Notification → Sent
sent_if n (ms, true) done = record { notifications = ms; sent = done ++ n ∷ [] }
sent_if n (ms, false) done = record { notifications = ms; sent = done }

-- The clock of a zone is a parameter of the quiet hours.
module _ (local : Text → ℕ → Option ℕ) (now : ℕ) where
  -- The body of the loop of `dispatchOne`.
  pub announce : Row → Edge → Rule → Sent → Sent
  unfolding mark_notified
  announce c edge r s =
      if not (matches r c.kind c.instance_id) || quiet local r now
      then s
      else sent_if (claim_of c r edge) (mark_notified (claim_of c r edge) s.notifications) s.sent

  -- `dispatchOne`, for one condition and one edge.
  pub dispatch_one : Row → Edge → List Rule → Sent → Sent
  unfolding announce
  dispatch_one c edge [] s = s
  dispatch_one c edge (r ∷ rules) s = dispatch_one c edge rules (announce c edge r s)

  pub dispatch_edges : List Row → Edge → List Rule → Sent → Sent
  unfolding dispatch_one
  dispatch_edges [] edge rules s = s
  dispatch_edges (c ∷ rows) edge rules s =
      dispatch_edges rows edge rules (dispatch_one c edge rules s)

  -- `DispatchAlerts`.
  unfoldable pub dispatch_alerts : List Rule → List Row → List Notification → Sent
  unfolding dispatch_edges resolved_unannounced owed keys_of
  dispatch_alerts rules rows ms =
      let found = open_conditions rows in
      dispatch_edges found opened rules (
        dispatch_edges (owed (keys_of found) (resolved_unannounced now ms rows)) resolved rules
          (record { notifications = ms; sent = [] }))
