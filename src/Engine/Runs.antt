-- ===== src/Engine/Runs.antt =====
-- The engine over time: its calls, and the locks that a job holds from its claim to its end.
use mathlib.Core.Path.{subst}
use valmin.Shared.{ℕ, ◌≡◌, refl, sym, Bool, true, false, Option, none, some, Text, []}
use valmin.Jobs.{
  Status, queued, running, succeeded, failed, cancelled, is_terminal, Job, Store, ClaimError,
  claim_job_with_locks, cancel_queued_job, renew_job_lease, update_job_progress,
  update_job_checkpoint, Parents,
}
use valmin.Jobs.Reach.{
  claims, renews, progresses, checkpoints, finishes, cancels, requests, Reachable, empty_tables,
  after,
}
use valmin.Engine.{
  Hook, run_hook, Spec, FreeSpace, SubmitError, check_disk_room, claim_hook, new_job, claim_answer,
  submit_with_room, submit, Outcome, Ending, interrupted, lease_lost, ended, hooked, finish_of,
  finish_run, Policies, text_or_empty, queued_answer, policy_answer, cancel_running,
  cancel_by_status, cancel,
}

-- An outcome carries one of the three statuses of an end.
pub data Ends {R : Type 0} : Ending R → Type 0 where
  by_shutdown : Ends interrupted
  by_lease : Ends lease_lost
  by_outcome : (o : Outcome R) → is_terminal o.status ≡ true → Ends (ended o)

-- One call of the engine, on the two tables.
pub data Call {R : Type 0} : Store R → Store R → Type 0 where
  submits :
      {s : Store R} (parents : Parents R) (space : FreeSpace) (floor : ℕ) (draining : Bool)
      (spec : Spec R) (id owner lease_until now : Text)
      → Call s (submit parents space floor draining spec id owner lease_until now s).0
  ends_run :
      {s : Store R} (hook : Option (Hook R)) (x : Ending R) (id : Text) (progress : ℕ)
      (log now : Text)
      → Ends x
      → Call s (finish_run hook x id progress log now s).0
  asks_cancel :
      {s : Store R} (policies : Policies) (read : Option Job) (id now : Text)
      → Call s (cancel policies read id now s).0
  renews_lease : {s : Store R} (id owner until : Text) → Call s (renew_job_lease id owner until s).0
  sets_progress :
      {s : Store R} (id : Text) (progress : ℕ) (message : Text)
      → Call s (update_job_progress id progress message s)
  sets_checkpoint :
      {s : Store R} (id checkpoint : Text) → Call s (update_job_checkpoint id checkpoint s)

-- The stores of a run of the engine from empty tables.
pub data Run {R : Type 0} : Store R → Type 0 where
  boot : (rest : R) → Run (record { locks = []; jobs = []; rest = rest })
  call : {s t : Store R} → Run s → Call s t → Run t

module _ {R : Type 0} where
  claim_answer-store : (p : Store R × Option ClaimError) → (claim_answer p).0 ≡ p.0
  unfolding claim_answer
  claim_answer-store (s, none) = refl
  claim_answer-store (s, some e) = refl

  submit_with_room-Reachable :
      (parents : Parents R) (no_room : Option SubmitError) (draining : Bool) (spec : Spec R)
      (id owner lease_until now : Text) (s : Store R)
      → Reachable s
      → Reachable (submit_with_room parents no_room draining spec id owner lease_until now s).0
  unfolding submit_with_room claim_hook
  submit_with_room-Reachable parents (some e) draining spec id owner lease_until now s h = h
  submit_with_room-Reachable parents none true spec id owner lease_until now s h = h
  submit_with_room-Reachable parents none false spec id owner lease_until now s h =
      let hook = claim_hook spec id in
      let p =
        claim_job_with_locks parents hook (new_job spec id) spec.lock_keys owner lease_until now
          s in
      subst Reachable (sym (claim_answer-store p))
        (after h (claims parents hook (new_job spec id) spec.lock_keys owner lease_until now))

  queued_answer-store : (p : Store R × Bool) → (queued_answer p).0 ≡ p.0
  unfolding queued_answer
  queued_answer-store (s, true) = refl
  queued_answer-store (s, false) = refl

  cancel_running-Reachable :
      (policy : Option (Text → Bool × Text)) (checkpoint id now : Text) (s : Store R)
      → Reachable s
      → Reachable (cancel_running policy checkpoint id now s).0
  unfolding cancel_running policy_answer
  cancel_running-Reachable none checkpoint id now s h = h
  cancel_running-Reachable (some policy) checkpoint id now s h = answered (policy checkpoint)
    where
      answered : (b : Bool × Text) → Reachable (policy_answer b id now s).0
      answered (true, phase) = after h (requests id now)
      answered (false, phase) = h

  cancel_by_status-Reachable :
      (policies : Policies) (j : Job) (x : Status) (id now : Text) (s : Store R)
      → Reachable s
      → Reachable (cancel_by_status policies j x id now s).0
  unfolding cancel_by_status
  cancel_by_status-Reachable policies j queued id now s h =
      subst Reachable (sym (queued_answer-store (cancel_queued_job id now s)))
        (after h (cancels id now))
  cancel_by_status-Reachable policies j running id now s h =
      cancel_running-Reachable (policies j.kind) (text_or_empty j.checkpoint) id now s h
  cancel_by_status-Reachable policies j succeeded id now s h = h
  cancel_by_status-Reachable policies j failed id now s h = h
  cancel_by_status-Reachable policies j cancelled id now s h = h

  hooked-status : (hook : Option (Hook R)) (o : Outcome R) → (hooked hook o).status ≡ o.status
  unfolding hooked
  hooked-status none o = refl
  hooked-status (some h) o = refl

  Call-Reachable : (s t : Store R) → Call s t → Reachable s → Reachable t
  unfolding submit cancel finish_run
  Call-Reachable s t (submits parents space floor draining spec id owner lease_until now) h =
      submit_with_room-Reachable parents (check_disk_room space floor spec.kind) draining spec id
        owner lease_until now s h
  Call-Reachable s t (ends_run hook x id progress log now by_shutdown) h = h
  Call-Reachable s t (ends_run hook x id progress log now by_lease) h = h
  Call-Reachable s t (ends_run hook x id progress log now (by_outcome o e)) h =
      after h (finishes (run_hook (hooked hook o).on_finish) id (finish_of o progress log now) e)
  Call-Reachable s t (asks_cancel policies none id now) h = h
  Call-Reachable s t (asks_cancel policies (some j) id now) h =
      cancel_by_status-Reachable policies j j.status id now s h
  Call-Reachable s t (renews_lease id owner until) h = after h (renews id owner until)
  Call-Reachable s t (sets_progress id progress message) h =
      after h (progresses id progress message)
  Call-Reachable s t (sets_checkpoint id checkpoint) h = after h (checkpoints id checkpoint)

  pub Run-Reachable : (s : Store R) → Run s → Reachable s
  Run-Reachable s (boot rest) = empty_tables rest
  Run-Reachable s (call {s = r} h x) = Call-Reachable r s x (Run-Reachable r h)
