-- ===== src/Scheduler/Tick.antt =====
-- internal/scheduler/scheduler.go: `Tick`, `fire`, `stillDue`, `hold` and `finalWarning`.
pub mod Fired
pub mod Held
use valmin.Shared.{
  ℕ, ◌+◌, ◌-◌, Bool, true, false, not, ◌&&◌, ◌||◌, List, [], ◌∷◌, Option, none, some, Text, text_eq,
  if◌then◌else◌, ltb, ◌==◌,
}
use valmin.Scheduler.{
  Schedule, same_instant, due_schedules, find_schedule, mark_schedule_run, defer_schedule, Tag,
  at_hold, at_deadline, is_deadline, Sent, warning, State, Hooks, start_send, take_send,
  mark_warned, warned_for, final_warning_lead, tell_held, without_key,
}
use valmin.Scheduler.Calendar.{NextAnswer, at, refused, Calendar, next_run}

abbrev delivered_for : ℕ → Option Sent → Bool
delivered_for deadline none = false
delivered_for deadline (some r) = r.delivered && is_deadline deadline r.tag

-- `finalWarning`, with the deadline computed; `left > FinalWarning` is written as a comparison of
-- instants, the deadline being after now.
warn_unsent : Schedule → (deadline now : ℕ) → ℕ × State → State
warn_unsent sc deadline now (covered, s) =
    if covered == deadline
    then s
    else start_send sc.id (at_deadline deadline) (warning sc (deadline - now)) s

warn_taken : Schedule → (deadline now : ℕ) → Option Sent × State → State
unfolding warn_unsent
warn_taken sc deadline now (r, s) =
    if delivered_for deadline r
    then mark_warned sc.id deadline s
    else if ltb (now + final_warning_lead) deadline
    then s
    else warn_unsent sc deadline now (warned_for sc.id s)

final_warning : Hooks → Schedule → (deadline now : ℕ) → State → State
unfolding warn_taken
final_warning hooks sc deadline now s =
    if hooks.warn then warn_taken sc deadline now (take_send sc.id s) else s

-- A hold that starts.
start_warning : Hooks → Schedule → State → State
start_warning hooks sc s =
    if hooks.warn then start_send sc.id at_hold (warning sc sc.max_deferral) s else s

cover_short : Schedule → ℕ → State → State
cover_short sc now s =
    if ltb final_warning_lead sc.max_deferral
    then s
    else mark_warned sc.id (now + sc.max_deferral) s

start_hold : Hooks → Schedule → ℕ → State → State
unfolding start_warning cover_short
start_hold hooks sc now s =
    let row = record sc { deferred_since = some now } in
    cover_short row now (
      start_warning hooks row
        (tell_held hooks row (record s { rows = defer_schedule sc.id now s.rows })))

-- Whether the wait has reached its deadline.
abbrev pub is_over : Schedule → ℕ → Option ℕ → Bool
is_over sc now none = false
is_over sc now (some since) = not (ltb now (since + sc.max_deferral))

hold_as : Hooks → Schedule → ℕ → Option ℕ → State → State
unfolding start_hold final_warning
hold_as hooks sc now none s = start_hold hooks sc now s
hold_as hooks sc now (some since) s = final_warning hooks sc (since + sc.max_deferral) now s

hold_occupied : Hooks → Option (Schedule → Bool) → Schedule → ℕ → State → Bool × State
unfolding hold_as
hold_occupied hooks none sc now s = (false, s)
hold_occupied hooks (some occupied) sc now s =
    if is_over sc now sc.deferred_since
    then (false, s)
    else if occupied sc
    then (true, hold_as hooks sc now sc.deferred_since s)
    else (false, s)

-- `hold`.
unfoldable pub hold : Hooks → Schedule → ℕ → State → Bool × State
unfolding hold_occupied
hold hooks sc now s =
    if sc.wait_for_empty then hold_occupied hooks hooks.occupied sc now s else (false, s)

abbrev pub same_row : Schedule → Option Schedule → Bool
same_row sc none = false
same_row sc (some r) =
    r.enabled
    && text_eq r.cron sc.cron
    && text_eq r.timezone sc.timezone
    && same_instant r.next_run_at sc.next_run_at

-- `stillDue`.
unfoldable pub still_due : Schedule → List Schedule → Bool
still_due sc rows = same_row sc (find_schedule sc.id rows)

-- A hold that the run has ended.
pub end_hold : Hooks → Schedule → Option ℕ → State → State
end_hold hooks sc none s = s
end_hold hooks sc (some since) s =
    tell_held hooks sc (record s { warned = without_key sc.id s.warned })

module _ {Zone Cron : Type 0} (cal : Calendar Zone Cron) (hooks : Hooks)
    (enqueue : Schedule → List Schedule → List Schedule) where
  -- The call of the enqueuer, with what it and others write to the rows meanwhile.
  enqueued : Schedule → (now next : ℕ) → State → State
  unfolding end_hold
  enqueued sc now next s = end_hold hooks sc sc.deferred_since (record s {
    ran = sc ∷ s.ran;
    rows = mark_schedule_run sc.id sc.next_run_at now next (enqueue sc s.rows);
  })

  after_hold : Schedule → (now next : ℕ) → Bool × State → State
  unfolding enqueued
  after_hold sc now next (true, s) = s
  after_hold sc now next (false, s) = if still_due sc s.rows then enqueued sc now next s else s

  fire_row : Option ℕ → Schedule → (now next : ℕ) → State → State
  unfolding after_hold
  fire_row none sc now next s = record s { rows = mark_schedule_run sc.id none now next s.rows }
  fire_row (some read) sc now next s = after_hold sc now next (hold hooks sc now s)

  fire_next : NextAnswer → Schedule → ℕ → State → State
  unfolding fire_row
  fire_next (refused e) sc now s = s
  fire_next (at next) sc now s = fire_row sc.next_run_at sc now next s

  -- `fire`, with the row as the tick has read it.
  pub fire : Schedule → ℕ → State → State
  unfolding fire_next
  fire sc now s = fire_next (next_run cal sc.cron sc.timezone now sc.next_run_at) sc now s

  fire_each : List Schedule → ℕ → State → State
  unfolding fire
  fire_each [] now s = s
  fire_each (sc ∷ due) now s = fire_each due now (fire sc now s)

  -- `Tick`.
  unfoldable pub tick : ℕ → State → State
  unfolding fire_each
  tick now s = fire_each (due_schedules now s.rows) now s
