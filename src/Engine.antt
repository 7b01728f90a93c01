-- ===== src/Engine.antt =====
-- internal/jobs/engine.go, cancel.go: the engine that runs the jobs, on the store's transactions.
mod Submitted
mod Cancelled
mod Chained
mod Finished
mod Runs
mod Samples
use valmin.Shared.{
  ℕ, Bool, true, false, not, ◌&&◌, List, [], ◌∷◌, Option, none, some, Text, codes, text_eq,
  if◌then◌else◌, ltb,
}
use valmin.Kinds.{Kind, name, needs_disk_room}
use valmin.Jobs.{
  Status, queued, running, cancelled, Job, Store, find_job, ClaimError, claim_job_with_locks,
  Finish, finish_job, cancel_queued_job, request_job_cancel, renew_job_lease, Parents,
}

-- A hook on the other tables; `none` is an error.
abbrev pub Hook : Type 0 → Type 0
Hook R = R → Option R

module _ {R : Type 0} where
  abbrev pub and_then : Option R → Hook R → Option R
  and_then none h = none
  and_then (some r) h = h r

  -- A hook that may be nil.
  abbrev pub run_hook : Option (Hook R) → Hook R
  run_hook none r = some r
  run_hook (some h) r = h r

  -- Two hooks in one transaction: the second runs where the first has not failed.
  abbrev pub both_hooks : Option (Hook R) → Option (Hook R) → Hook R
  both_hooks first second r = and_then (run_hook first r) (run_hook second)

-- `Spec`, without what only goes into columns that no statement here reads: the name of the
-- instance and the payload. Who asked and the schedule are absent where the source has an empty
-- text. The audit entry is written with the identifier of the job.
pub record Spec (R : Type 0) : Type 0 where
  pub kind : Kind
  pub lock_key : Text
  pub lock_keys : List Text
  pub instance_id : Option Text
  pub schedule_id : Option Text
  pub requested_by : Option Text
  pub resume_after : Bool
  pub on_claim : Option (Hook R)
  pub audit : Option (Text → Hook R)

-- What the engine knows of free space: nothing is read, the reading fails, or it is a number.
pub data FreeSpace : Type 0 where
  not_read unreadable : FreeSpace
  free : ℕ → FreeSpace

pub data SubmitError : Type 0 where
  unread_space shutting_down : SubmitError
  low_disk : (free floor : ℕ) → SubmitError
  claim_failed : ClaimError → SubmitError

disk_error : FreeSpace → ℕ → Option SubmitError
disk_error not_read floor = none
disk_error unreadable floor = some unread_space
disk_error (free n) floor = if ltb n floor then some (low_disk n floor) else none

-- `checkDiskRoom`.
pub check_disk_room : FreeSpace → ℕ → Kind → Option SubmitError
unfolding disk_error
check_disk_room space floor k = if needs_disk_room k then disk_error space floor else none

module _ {R : Type 0} where
  -- The audit entry, with the identifier of the job.
  abbrev pub audit_hook : Option (Text → Hook R) → Text → Option (Hook R)
  audit_hook none id = none
  audit_hook (some write) id = some (write id)

  -- `claimHook`.
  pub claim_hook : Spec R → Text → Hook R
  claim_hook spec id = both_hooks spec.on_claim (audit_hook spec.audit id)

  -- The row that `Submit` hands to the claim, which fills in the rest.
  abbrev pub new_job : Spec R → Text → Job
  new_job spec id = record {
    id = id;
    kind = name spec.kind;
    status = queued;
    lock_key = spec.lock_key;
    instance_id = spec.instance_id;
    schedule_id = spec.schedule_id;
    requested_by = spec.requested_by;
    checkpoint = none;
    resume_after = spec.resume_after;
    progress = 0;
    message = none;
    lease_owner = none;
    lease_until = none;
    cancel_requested_at = none;
    clean = none;
    attempt = 0;
    error_code = none;
    error = none;
    log = none;
    created_at = [];
    started_at = none;
    finished_at = none;
  }

  pub claim_answer : Store R × Option ClaimError → Store R × Option SubmitError
  claim_answer (s, none) = (s, none)
  claim_answer (s, some e) = (s, some (claim_failed e))

  submit_with_room :
      Parents R
      → Option SubmitError
      → Bool
      → Spec R
      → (id owner lease_until now : Text) → Store R
      → Store R × Option SubmitError
  unfolding claim_hook claim_answer
  submit_with_room parents (some e) draining spec id owner lease_until now s = (s, some e)
  submit_with_room parents none draining spec id owner lease_until now s =
      if draining
      then (s, some shutting_down)
      else claim_answer (
          claim_job_with_locks parents (claim_hook spec id) (new_job spec id) spec.lock_keys owner
            lease_until now s)

  -- `Submit`, up to the start of the runner.
  pub submit :
      Parents R
      → FreeSpace
      → (floor : ℕ) → Bool
      → Spec R
      → (id owner lease_until now : Text) → Store R
      → Store R × Option SubmitError
  unfolding check_disk_room submit_with_room
  submit parents space floor draining spec id owner lease_until now s =
      submit_with_room parents (check_disk_room space floor spec.kind) draining spec id owner
        lease_until now s

-- `Outcome`.
pub record Outcome (R : Type 0) : Type 0 where
  pub status : Status
  pub error_code : Text
  pub error : Text
  pub clean : Option Bool
  pub on_finish : Option (Hook R)

abbrev pub unless_empty : Text → Option Text
unless_empty [] = none
unless_empty (b ∷ t) = some (b ∷ t)

-- How a runner ends: the engine shuts down, its lease is lost, or neither.
pub data Ending (R : Type 0) : Type 0 where
  interrupted lease_lost : Ending R
  ended : Outcome R → Ending R

module _ {R : Type 0} where
  -- `PrependFinish`.
  pub prepend_finish : Option (Hook R) → Outcome R → Outcome R
  prepend_finish none o = o
  prepend_finish (some first) o = record o {
    on_finish = some (both_hooks (some first) o.on_finish);
  }

  -- `hooked`: the registered hook runs after the outcome's own.
  pub hooked : Option (Hook R) → Outcome R → Outcome R
  hooked none o = o
  hooked (some hook) o = record o { on_finish = some (both_hooks o.on_finish (some hook)) }

  abbrev pub finish_of : Outcome R → ℕ → Text → Text → Finish
  finish_of o progress log now = record {
    status = o.status;
    progress = progress;
    error_code = unless_empty o.error_code;
    error = unless_empty o.error;
    log = unless_empty log;
    clean = o.clean;
    finished_at = now;
  }

  -- `run`, after the runner; the flag is `true` where the job has been finished.
  pub finish_run :
      Option (Hook R) → Ending R → Text → ℕ → (log now : Text) → Store R → Store R × Bool
  unfolding hooked
  finish_run hook interrupted id progress log now s = (s, false)
  finish_run hook lease_lost id progress log now s = (s, false)
  finish_run hook (ended o) id progress log now s =
      finish_job (run_hook (hooked hook o).on_finish) id (finish_of o progress log now) s

-- The answer of a policy: cancellable, or the phase that is not.
pub data CancelError : Type 0 where
  job_not_found job_terminal : CancelError
  not_cancellable : Text → CancelError

-- A `CancelPolicy` by kind.
abbrev pub Policies : Type 0
Policies = Text → Option (Text → Bool × Text)

abbrev pub text_or_empty : Option Text → Text
text_or_empty none = []
text_or_empty (some t) = t

module _ {R : Type 0} where
  queued_answer : Store R × Bool → Store R × Option CancelError
  queued_answer (s, true) = (s, none)
  queued_answer (s, false) = (s, some job_terminal)

  policy_answer : Bool × Text → (id now : Text) → Store R → Store R × Option CancelError
  policy_answer (true, phase) id now s = (request_job_cancel id now s, none)
  policy_answer (false, phase) id now s = (s, some (not_cancellable phase))

  cancel_running :
      Option (Text → Bool × Text) → Text → (id now : Text) → Store R → Store R × Option CancelError
  unfolding policy_answer
  cancel_running none checkpoint id now s = (s, some (not_cancellable (codes "running")))
  cancel_running (some policy) checkpoint id now s = policy_answer (policy checkpoint) id now s

  cancel_by_status :
      Policies → Job → Status → (id now : Text) → Store R → Store R × Option CancelError
  unfolding queued_answer cancel_running
  cancel_by_status policies j queued id now s = queued_answer (cancel_queued_job id now s)
  cancel_by_status policies j running id now s =
      cancel_running (policies j.kind) (text_or_empty j.checkpoint) id now s
  cancel_by_status policies j _ id now s = (s, some job_terminal)

  -- `Cancel`, with the row as it was read; the store may have moved on since.
  pub cancel : Policies → Option Job → (id now : Text) → Store R → Store R × Option CancelError
  unfolding cancel_by_status
  cancel policies none id now s = (s, some job_not_found)
  cancel policies (some j) id now s = cancel_by_status policies j j.status id now s
