-- ===== src/Scheduler.antt =====
-- internal/scheduler/scheduler.go and the statements of internal/store/schedules.go that it runs.
pub mod Calendar
mod Samples
pub mod Submitting
pub mod Tick
use valmin.Shared.{
  ℕ, ◌+◌, ◌*◌, ◌-◌, Bool, true, false, not, ◌&&◌, ◌||◌, List, [], ◌∷◌, Option, none, some, Text,
  text_eq, text_lt, if◌then◌else◌, ltb, ◌==◌, lookup, contains,
}

-- `Schedule`, without two fields that the clock does not read; an instant is a number, and a
-- duration too.
pub record Schedule : Type 0 where
  pub id : Text
  pub instance_id : Option Text
  pub kind : Text
  pub cron : Text
  pub timezone : Text
  pub payload : Text
  pub enabled : Bool
  pub last_run_at : Option ℕ
  pub next_run_at : Option ℕ
  pub wait_for_empty : Bool
  pub max_deferral : ℕ
  pub deferred_since : Option ℕ

-- `sameInstant`, which `next_run_at IS ?` decides too.
abbrev pub same_instant : Option ℕ → Option ℕ → Bool
same_instant none none = true
same_instant none (some b) = false
same_instant (some a) none = false
same_instant (some a) (some b) = a == b

abbrev pub is_due_at : ℕ → Option ℕ → Bool
is_due_at now none = true
is_due_at now (some at) = not (ltb now at)

-- `next_run_at, id`, an absent time first.
abbrev pub due_before : Schedule → Schedule → Bool
due_before a b = earlier a.next_run_at b.next_run_at
  where
    earlier : Option ℕ → Option ℕ → Bool
    earlier none none = text_lt a.id b.id
    earlier none (some y) = true
    earlier (some x) none = false
    earlier (some x) (some y) = ltb x y || (x == y && text_lt a.id b.id)

place_due : Schedule → List Schedule → List Schedule
place_due a [] = a ∷ []
place_due a (b ∷ rows) =
    let rest = place_due a rows in if due_before b a then b ∷ rest else a ∷ b ∷ rows

-- `DueSchedules`.
pub due_schedules : ℕ → List Schedule → List Schedule
unfolding place_due
due_schedules now [] = []
due_schedules now (r ∷ rows) =
    let rest = due_schedules now rows in
    if r.enabled && is_due_at now r.next_run_at then place_due r rest else rest

abbrev pub find_schedule : Text → List Schedule → Option Schedule
find_schedule id [] = none
find_schedule id (r ∷ rows) = if text_eq r.id id then some r else find_schedule id rows

-- An `UPDATE scheduled_jobs … WHERE id = ?` with a further condition.
pub update_schedules :
    Text → (Schedule → Bool) → (Schedule → Schedule) → List Schedule → List Schedule
update_schedules id cond write [] = []
update_schedules id cond write (r ∷ rows) =
    let rest = update_schedules id cond write rows in
    (if text_eq r.id id && cond r then write r else r) ∷ rest

-- `MarkScheduleRun`.
pub mark_schedule_run : Text → Option ℕ → (last next : ℕ) → List Schedule → List Schedule
unfolding update_schedules
mark_schedule_run id read last next rows =
    update_schedules id (λ r. same_instant r.next_run_at read)
      (λ r. record r { last_run_at = some last; next_run_at = some next; deferred_since = none })
      rows

abbrev pub is_absent : Option ℕ → Bool
is_absent none = true
is_absent (some t) = false

-- `DeferSchedule`.
pub defer_schedule : Text → ℕ → List Schedule → List Schedule
unfolding update_schedules
defer_schedule id since rows =
    update_schedules id (λ r. is_absent r.deferred_since)
      (λ r. record r { deferred_since = some since }) rows

-- What a send of a warning was started with.
pub data Tag : Type 0 where
  at_hold : Tag
  at_deadline : ℕ → Tag

abbrev pub is_deadline : ℕ → Tag → Bool
is_deadline deadline at_hold = false
is_deadline deadline (at_deadline t) = t == deadline

-- `sent`.
pub record Sent : Type 0 where
  pub tag : Tag
  pub delivered : Bool

-- The calls of the hooks.
pub data Told : Type 0 where
  held_changed : Schedule → Told
  warning : Schedule → (left : ℕ) → Told

-- The rows of the two tables, the memory of the scheduler with its sends, and what it has done:
-- the rows enqueued and the hooks called, the newest first.
pub record State : Type 0 where
  pub rows : List Schedule
  pub kv : List (Text × ℕ)
  pub warned : List (Text × ℕ)
  pub running : List (Text × Tag)
  pub done : List (Text × Sent)
  pub ran : List Schedule
  pub told : List Told

-- The optional hooks: `Held` and `Warn` by whether they are set.
pub record Hooks : Type 0 where
  pub occupied : Option (Schedule → Bool)
  pub held : Bool
  pub warn : Bool

abbrev without_key : {A : Type 0} → Text → List (Text × A) → List (Text × A)
without_key k [] = []
without_key k ((key, a) ∷ xs) =
    let rest = without_key k xs in if text_eq key k then rest else (key, a) ∷ rest

-- `start`.
pub start_send : Text → Tag → Told → State → State
start_send key tag call s = begun (lookup key s.running)
  where
    begun : Option Tag → State
    begun (some other) = s
    begun none = record s { running = (key, tag) ∷ s.running; told = call ∷ s.told }

-- The end of a send, off the tick.
pub end_send : Text → Bool → State → State
end_send key delivered s = ended (lookup key s.running)
  where
    ended : Option Tag → State
    ended none = s
    ended (some tag) = record s {
      running = without_key key s.running;
      done = (key, record { tag = tag; delivered = delivered }) ∷ s.done;
    }

-- `take`.
pub take_send : Text → State → Option Sent × State
take_send key s = (lookup key s.done, record s { done = without_key key s.done })

-- `markWarned`.
pub mark_warned : Text → ℕ → State → State
mark_warned id deadline s = record s {
  warned = (id, deadline) ∷ s.warned;
  kv = (id, deadline) ∷ s.kv;
}

abbrev or_zero : Option ℕ → ℕ
or_zero none = 0
or_zero (some t) = t

-- `warnedFor`; the zero time is 0.
pub warned_for : Text → State → ℕ × State
warned_for id s = known (lookup id s.warned)
  where
    known : Option ℕ → ℕ × State
    known (some at) = (at, s)
    known none =
        let at = or_zero (lookup id s.kv) in (at, record s { warned = (id, at) ∷ s.warned })

-- `FinalWarning`: five minutes, in the nanoseconds of a duration.
abbrev pub final_warning_lead : ℕ
final_warning_lead = 300 * 1000 * 1000 * 1000

-- `held`.
pub tell_held : Hooks → Schedule → State → State
tell_held hooks sc s = if hooks.held then record s { told = held_changed sc ∷ s.told } else s
