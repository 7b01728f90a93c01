-- ===== src/Scheduler/Submitting.antt =====
-- internal/scheduler/submit.go: `Enqueue`; internal/store/schedules.go: `RecordSkippedRun`.
pub mod Accounted
use valmin.Shared.{
  Bool, true, false, ◌||◌, List, [], ◌∷◌, ◌++◌, Option, none, some, Text, codes, text_eq,
  if◌then◌else◌,
}
use valmin.Kinds.{Kind, name, instance_lock_key, global_lock_key}
use valmin.Lifecycle.{state_name, allowed_from}
use valmin.Lifecycle
use valmin.Jobs.{cancelled, Job, Store}
use valmin.Scheduler.{Schedule}

-- A row of `instances`, as far as it is read here.
pub record Instance : Type 0 where
  pub id : Text
  pub name : Text
  pub state : Text

-- Why a run was skipped: a lock that another job holds, or the text of another error.
pub data Cause : Type 0 where
  conflict : (job_id kind : Text) → Cause
  other : Text → Cause

pub data EnqueueError : Type 0 where
  names_no_instance : EnqueueError

-- The code of an error, and its text.
abbrev pub code_of : Cause → Text
code_of (conflict id kind) = codes "job_in_progress"
code_of (other t) = codes "internal"

abbrev pub reason_of : Cause → Text
reason_of (conflict id kind) =
    codes "job " ++ id ++ codes " (kind " ++ kind ++ codes ") already holds this lock"
reason_of (other t) = t

abbrev pub power_cut : Cause
power_cut = other (codes "a power cut is planned within minutes")

abbrev pub wrong_state : Text → Kind → Cause
wrong_state state kind = other (
    codes "the instance was " ++ state ++ codes ", which " ++ name kind ++ codes " cannot run from")

-- The lock key and the instance of a skipped run.
abbrev pub key_of : Kind → Option Instance → Text
key_of kind none = global_lock_key kind
key_of kind (some i) = instance_lock_key i.id

abbrev pub instance_of : Option Instance → Option Text
instance_of none = none
instance_of (some i) = some i.id

-- The row of a skipped run: it has ended as it is written, and no lock goes with it.
abbrev pub skipped_job : Text → Kind → Option Instance → Cause → (id now : Text) → Job
skipped_job schedule kind inst cause id now = record {
  id = id;
  kind = name kind;
  status = cancelled;
  lock_key = key_of kind inst;
  instance_id = instance_of inst;
  schedule_id = some schedule;
  requested_by = none;
  checkpoint = none;
  resume_after = false;
  progress = 0;
  message = none;
  lease_owner = none;
  lease_until = none;
  cancel_requested_at = none;
  clean = none;
  attempt = 0;
  error_code = some (code_of cause);
  error = some (codes "This scheduled run was skipped: " ++ reason_of cause);
  log = none;
  created_at = now;
  started_at = some now;
  finished_at = some now;
}

abbrev state_in : Text → List Lifecycle.State → Bool
state_in state [] = false
state_in state (x ∷ xs) = text_eq state (state_name x) || state_in state xs

-- `claimableFrom`.
unfoldable pub claimable_from : Kind → Text → Bool
claimable_from kind state = state_in state (allowed_from kind)

module _ {R : Type 0} where
  -- `RecordSkippedRun`, from `recordSkip`. The schedule and the instance that the row refers to are
  -- there, `Enqueue` having just read them.
  unfoldable pub record_skip :
      Text → Kind → Option Instance → Cause → (id now : Text) → Store R → Store R
  record_skip schedule kind inst cause id now s = record s {
    jobs = s.jobs ++ skipped_job schedule kind inst cause id now ∷ [];
  }

  submitted :
      Text
      → Kind
      → Option Instance
      → (id now : Text) → Store R × Option Cause
      → Store R × Option EnqueueError
  unfolding record_skip
  submitted schedule kind inst id now (s, none) = (s, none)
  submitted schedule kind inst id now (s, some cause) =
      (record_skip schedule kind inst cause id now s, none)

  module _ (submit_global : Kind → Store R → Store R × Option Cause)
      (submit_instance : Instance → Store R → Store R × Option Cause)
      (find_instance : Text → Option Instance) (soon : Bool) where
    enqueue_on :
        Text → Kind → Option Instance → (id now : Text) → Store R → Store R × Option EnqueueError
    unfolding submitted claimable_from
    enqueue_on schedule kind none id now s = (s, none)
    enqueue_on schedule kind (some i) id now s =
        if soon
        then (record_skip schedule kind (some i) power_cut id now s, none)
        else if claimable_from kind i.state
        then submitted schedule kind (some i) id now (submit_instance i s)
        else (record_skip schedule kind (some i) (wrong_state i.state kind) id now s, none)

    enqueue_instance :
        Text → Kind → Option Text → (id now : Text) → Store R → Store R × Option EnqueueError
    unfolding enqueue_on
    enqueue_instance schedule kind none id now s = (s, some names_no_instance)
    enqueue_instance schedule kind (some inst) id now s =
        enqueue_on schedule kind (find_instance inst) id now s

    -- `Enqueue`, with the identifier that a skipped run would get.
    unfoldable pub enqueue :
        Schedule
        → Kind
        → (global : Bool) → (id now : Text) → Store R
        → Store R × Option EnqueueError
    unfolding enqueue_instance
    enqueue sc kind global id now s =
        if global
        then submitted sc.id kind none id now (submit_global kind s)
        else enqueue_instance sc.id kind sc.instance_id id now s
