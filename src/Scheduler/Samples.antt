-- ===== src/Scheduler/Samples.antt =====
-- A calendar whose runs are ten apart, and one row over a few ticks.
use valmin.Shared.{
  ℕ, suc, ◌+◌, Text, Option, ◌≡◌, refl, ◌<◌, ◌↔◌, ◌⊎◌, inr, true, false, List, [], ◌∷◌, none, some,
  arith, codes,
}
use valmin.Scheduler.{
  Schedule, due_schedules, mark_schedule_run, State, Hooks, mark_warned, start_send, tell_held,
  defer_schedule, take_send, warned_for, end_send,
}
use valmin.Scheduler.Calendar.{Calendar, at, next_run, Later}
use valmin.Scheduler.Calendar.Later.{next_run_later}
use valmin.Kinds.{Kind, backup}
use valmin.Lifecycle.{allowed_from, state_name}
use valmin.Jobs.{Store}
use valmin.Scheduler.Submitting.{
  Instance, Cause, conflict, skipped_job, record_skip, claimable_from, enqueue,
}
use valmin.Scheduler.Submitting.Accounted.{Accounted, enqueue-Accounted}
use valmin.Scheduler.Tick.{hold, still_due, fire, tick}
use valmin.Scheduler.Tick.Held.{Waits, hold_iff}
use valmin.Scheduler.Tick.Fired.{Fired, fire-once}

-- One zone, whose clock shows no hours.
abbrev tens : Calendar ℕ ℕ
tens = record {
  load = λ z. some 0;
  fixed = λ z t. z;
  wall = λ z t. record { date = t; hour = 0; minute = 0 };
  instant = λ z w. w.date;
  parse_cron = λ e. some 9;
  next = λ period z t. suc (t + period);
}

tens-Later : Later tens
tens-Later sched z t = inr (ground arith)

seventeen : next_run tens (codes "*") (codes "UTC") 7 (some 5) ≡ at 17
unfolding next_run
seventeen = refl

abbrev seventeen_at : ℕ
seventeen_at = 17

next_run_later_example : (seventeen_at ≡ 0) ⊎ (7 < seventeen_at)
next_run_later_example =
    next_run_later tens (codes "*") (codes "UTC") 7 (some 5) seventeen_at tens-Later seventeen

abbrev nightly : Schedule
nightly = record {
  id = codes "s";
  instance_id = some (codes "i");
  kind = codes "backup";
  cron = codes "*";
  timezone = codes "UTC";
  payload = [];
  enabled = true;
  last_run_at = none;
  next_run_at = some 5;
  wait_for_empty = true;
  max_deferral = 3;
  deferred_since = none;
}

abbrev start : State
start = record {
  rows = nightly ∷ [];
  kv = [];
  warned = [];
  running = [];
  done = [];
  ran = [];
  told = [];
}

abbrev busy : Hooks
busy = record { occupied = some (λ sc. true); held = true; warn = true }

abbrev kept : Schedule → List Schedule → List Schedule
kept sc rows = rows

-- The first tick holds the run, and the one at the deadline runs it.
held_then_run : (tick tens busy kept 7 start).ran ≡ []
unfolding tick due_schedules next_run hold still_due mark_schedule_run mark_warned start_send
    tell_held defer_schedule take_send warned_for
held_then_run = refl

run_at_deadline :
    (tick tens busy kept 10 (tick tens busy kept 7 start)).ran
    ≡ record nightly { deferred_since = some 7 } ∷ []
unfolding tick due_schedules next_run hold still_due mark_schedule_run mark_warned start_send
    tell_held defer_schedule take_send warned_for
run_at_deadline = refl

once_only :
    (tick tens busy kept 11 (tick tens busy kept 10 (tick tens busy kept 7 start))).ran
    ≡ record nightly { deferred_since = some 7 } ∷ []
unfolding tick due_schedules next_run hold still_due mark_schedule_run mark_warned start_send
    tell_held defer_schedule take_send warned_for
once_only = refl

-- A warning that has ended is taken at a later tick.
warning_ended : (end_send (codes "s") true (tick tens busy kept 7 start)).running ≡ []
unfolding tick due_schedules next_run hold still_due mark_schedule_run mark_warned start_send
    tell_held defer_schedule end_send
warning_ended = refl

hold_iff_example :
    (((hold busy nightly 7 start).0 ≡ true) ↔ Waits busy nightly 7)
    × (((hold busy nightly 7 start).0 ≡ true) ⊎ (hold busy nightly 7 start ≡ (false, start)))
hold_iff_example = hold_iff busy nightly 7 start

fire-once_example : Fired tens busy kept nightly 7 start (fire tens busy kept nightly 7 start)
fire-once_example =
    fire-once tens busy kept nightly 7 start 5 tens-Later refl (ground arith) (ground arith)

abbrev no_jobs : Store ℕ
no_jobs = record { locks = []; jobs = []; rest = 0 }

abbrev stopped_server : Text → Option Instance
stopped_server id = some (record { id = id; name = codes "n"; state = codes "stopped" })

abbrev taken_lock : Instance → Store ℕ → Store ℕ × Option Cause
taken_lock i s = (s, some (conflict (codes "j") (codes "start")))

abbrev submit_all : Kind → Store ℕ → Store ℕ × Option Cause
submit_all kind s = (s, none)

-- A run that meets a lock is written down as a conflict.
skipped_for_lock :
    enqueue submit_all taken_lock stopped_server false nightly backup false
      (codes "x")
      (codes "t")
      no_jobs
    ≡ (
      record no_jobs {
        jobs =
            skipped_job nightly.id backup
              (some (record { id = codes "i"; name = codes "n"; state = codes "stopped" }))
              (conflict (codes "j") (codes "start"))
              (codes "x")
              (codes "t")
            ∷ [];
      },
      none,
    )
unfolding enqueue record_skip claimable_from allowed_from state_name
skipped_for_lock = refl

enqueue-Accounted_example :
    Accounted submit_all taken_lock stopped_server false nightly backup false
      (codes "x")
      (codes "t")
      no_jobs
      (enqueue submit_all taken_lock stopped_server false nightly backup false
        (codes "x")
        (codes "t")
        no_jobs)
enqueue-Accounted_example =
    enqueue-Accounted submit_all taken_lock stopped_server false nightly backup false (codes "x")
      (codes "t") no_jobs
