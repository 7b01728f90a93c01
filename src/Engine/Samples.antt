-- ===== src/Engine/Samples.antt =====
-- A job that is submitted, asked to stop, finished, and followed by the next on its key.
use mathlib.Core.Path.{subst}
use valmin.Shared.{
  ◌≡◌, refl, ap, ◌⊎◌, inl, inr, Bool, true, false, List, [], ◌∷◌, Option, none, some, Text, codes,
  In, NoDup, text_eq,
}
use valmin.Kinds.{backup, needs_disk_room}
use valmin.Jobs.{
  succeeded, is_empty, Job, Store, find_job, claimed_job, claim_job_with_locks, lock_holder,
  acquire, lock_keys, finish_job, cancel_queued_job, Parents,
}
use valmin.Jobs.Claims.{Parented}
use valmin.Jobs.Locks.{keys_of, ids_of}
use valmin.Engine.{
  Hook, Spec, not_read, free, SubmitError, low_disk, check_disk_room, claim_hook, new_job, submit,
  Outcome, prepend_finish, finish_run, CancelError, Policies, cancel,
}
use valmin.Engine.Submitted.{Accepted, Rejected, submit_lem}
use valmin.Engine.Cancelled.{Done, NotDone, cancel_lem}
use valmin.Engine.Finished.{Stored, after_run, all_hooks, finish_run_lem}
use valmin.Engine.Runs.{Run, boot, call, submits, Run-Reachable}
use valmin.Engine.Chained.{submit-chained, left}

-- The other tables are a list of what has been written to them.
abbrev noted : Text → Hook (List Text)
noted t rest = some (t ∷ rest)

-- One instance is there, with no schedules and no users.
abbrev server : Parents (List Text)
server = record {
  instance = λ r id. text_eq id (codes "i");
  schedule = λ r id. false;
  user = λ r id. false;
}

abbrev key : Text
key = codes "k"

abbrev spec : Spec (List Text)
spec = record {
  kind = backup;
  lock_key = key;
  lock_keys = [];
  instance_id = some (codes "i");
  schedule_id = none;
  requested_by = none;
  resume_after = false;
  on_claim = some (noted (codes "claim"));
  audit = some noted;
}

abbrev first : Text
first = codes "j"

abbrev blank : Store (List Text)
blank = record { locks = []; jobs = []; rest = [] }

abbrev row : Job
row = claimed_job (new_job spec first) (codes "o") (codes "u") (codes "n")

abbrev one_running : Store (List Text)
one_running = record {
  locks = (key, first) ∷ [];
  jobs = row ∷ [];
  rest = first ∷ codes "claim" ∷ [];
}

submitted :
    submit server (free 5) 5 false spec first (codes "o") (codes "u") (codes "n") blank
    ≡ (one_running, none)
unfolding submit check_disk_room claim_hook needs_disk_room claim_job_with_locks acquire lock_keys
submitted = refl

submit_low_disk :
    submit server (free 4) 5 false spec first (codes "o") (codes "u") (codes "n") blank
    ≡ (blank, some (low_disk 4 5))
unfolding submit check_disk_room needs_disk_room
submit_low_disk = refl

one_running-Run : Run one_running
one_running-Run = subst Run (ap (λ (p : Store (List Text) × Option SubmitError). p.0) submitted) (
    call (boot []) (submits server (free 5) 5 false spec first (codes "o") (codes "u") (codes "n")))

submit_lem_example :
    Accepted server (free 5) 5 false spec first (codes "o") (codes "u") (codes "n") blank
    ⊎ ((e : SubmitError) × ((submit server
            (free 5)
            5
            false
            spec
            first
            (codes "o")
            (codes "u")
            (codes "n")
            blank).1
          ≡ some e)
        × ((submit server (free 5) 5 false spec first (codes "o") (codes "u") (codes "n") blank).0
            ≡ blank)
        × Rejected server (free 5) 5 false spec first (codes "o") (codes "u") (codes "n") blank e)
submit_lem_example =
    submit_lem server (free 5) 5 false spec first (codes "o") (codes "u") (codes "n") blank

-- A backup may be stopped before its first checkpoint.
abbrev before_checkpoint : Text → Bool × Text
before_checkpoint [] = (true, [])
before_checkpoint (c ∷ t) = (false, c ∷ t)

abbrev policies : Policies
policies kind = some before_checkpoint

-- A row that waits with its lock, as the schema allows.
abbrev one_queued : Store (List Text)
one_queued = record { locks = (key, first) ∷ []; jobs = new_job spec first ∷ []; rest = [] }

cancelled_queued :
    (cancel policies (some (new_job spec first)) first (codes "m") one_queued).0.locks ≡ []
unfolding cancel cancel_queued_job
cancelled_queued = refl

one_key : NoDup (keys_of one_queued.locks)
one_key = ((λ i. absurd i), tt)

one_id : NoDup (ids_of one_queued.jobs)
one_id = ((λ i. absurd i), tt)

cancel_lem_example :
    ((cancel policies (some (new_job spec first)) first (codes "m") one_queued).1 ≡ none
      × Done policies first
          (codes "m")
          one_queued
          (some (new_job spec first))
          (cancel policies (some (new_job spec first)) first (codes "m") one_queued).0)
    ⊎ ((e : CancelError) × ((cancel policies
            (some (new_job spec first))
            first
            (codes "m")
            one_queued).1
          ≡ some e)
        × ((cancel policies (some (new_job spec first)) first (codes "m") one_queued).0
            ≡ one_queued)
        × NotDone policies first (codes "m") one_queued (some (new_job spec first)) e)
cancel_lem_example =
    cancel_lem policies first (codes "m") one_queued (some (new_job spec first)) one_key one_id

abbrev outcome : Outcome (List Text)
outcome = record {
  status = succeeded;
  error_code = [];
  error = [];
  clean = some true;
  on_finish = some (noted (codes "own"));
}

abbrev prepended : Option (Hook (List Text))
prepended = some (noted (codes "first"))

abbrev registered : Option (Hook (List Text))
registered = some (noted (codes "last"))

finished :
    (after_run prepended registered outcome row 100 [] (codes "f") one_running).0.rest
    ≡ codes "last" ∷ codes "own" ∷ codes "first" ∷ first ∷ codes "claim" ∷ []
unfolding finish_run prepend_finish finish_job
finished = refl

finish_run_lem_example :
    Stored prepended registered outcome row 100 [] (codes "f") one_running
    ⊎ ((after_run prepended registered outcome row 100 [] (codes "f") one_running
          ≡ (one_running, false))
        × (all_hooks prepended registered outcome row 100 [] (codes "f") one_running ≡ none))
finish_run_lem_example =
    finish_run_lem prepended registered outcome row 100 [] (codes "f") one_running
      (Run-Reachable one_running one_running-Run) (inl refl)

abbrev busy : Store (List Text) × Option SubmitError
busy =
    submit server not_read 0 false spec (codes "l") (codes "o") (codes "u") (codes "n") one_running

abbrev at_end : Store (List Text)
at_end = left prepended registered outcome row 100 [] (codes "f") one_running

abbrev chained : Store (List Text) × Option SubmitError
chained = submit server not_read 0 false spec (codes "l") (codes "o") (codes "u") (codes "n") at_end

held_keys :
    (k : Text) → In k (key ∷ []) → (is_empty k ≡ false) × (lock_holder k one_running ≡ some first)
held_keys k (inl e) = rw e (refl, refl)
held_keys k (inr i) = absurd i

stored : (after_run prepended registered outcome row 100 [] (codes "f") one_running).1 ≡ true
unfolding finish_run prepend_finish finish_job
stored = refl

claim_hook-at_end :
    claim_hook spec (codes "l") at_end.rest ≡ some (codes "l" ∷ codes "claim" ∷ at_end.rest)
unfolding claim_hook
claim_hook-at_end = refl

new_id : find_job (codes "l") at_end.jobs ≡ none
unfolding finish_run prepend_finish finish_job
new_id = refl

no_reading : check_disk_room not_read 0 backup ≡ none
unfolding check_disk_room needs_disk_room
no_reading = refl

server_there : Parented server (codes "l" ∷ codes "claim" ∷ at_end.rest) (new_job spec (codes "l"))
server_there = record {
  instance_there = λ id e. there id e;
  schedule_there = λ id e. cc e;
  user_there = λ id e. cc e;
}
  where
    there : (id : Text) → some (codes "i") ≡ some id → text_eq id (codes "i") ≡ true
    there id e = let same : codes "i" ≡ id = cc e in rw (← same) refl

submit-chained_example :
    (chained.1 ≡ none) × ((k : Text) → In k (key ∷ []) → In (k, codes "l") chained.0.locks)
submit-chained_example =
    submit-chained prepended registered outcome row 100 [] (codes "f") one_running server not_read 0
      false spec (codes "l") (codes "o") (codes "u") (codes "n")
      (codes "l" ∷ codes "claim" ∷ at_end.rest) one_running-Run (inl refl) stored held_keys
      no_reading refl claim_hook-at_end new_id server_there
