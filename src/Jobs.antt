-- ===== src/Jobs.antt =====
-- internal/store/jobs.go: the rows of `job_runs` and `job_locks`, and the transactions on them.
pub mod Cancels
pub mod Claims
pub mod Ends
pub mod Locks
pub mod Reach
mod Samples
use valmin.Shared.{
  ℕ, suc, Bool, true, false, not, ◌&&◌, ◌||◌, List, [], ◌∷◌, ◌++◌, map, Option, none, some, Text,
  codes, text_eq, text_lt, if◌then◌else◌, ◌==◌, lookup, sort_on, self, compact,
}

pub data Status : Type 0 where
  queued running succeeded failed cancelled : Status

abbrev pub is_queued : Status → Bool
is_queued queued = true
is_queued _ = false

abbrev pub is_running : Status → Bool
is_running running = true
is_running _ = false

abbrev pub is_terminal : Status → Bool
is_terminal queued = false
is_terminal running = false
is_terminal _ = true

-- A row of `job_runs`. Times are texts, as the table holds them.
pub record Job : Type 0 where
  pub id : Text
  pub kind : Text
  pub status : Status
  pub lock_key : Text
  pub instance_id : Option Text
  pub schedule_id : Option Text
  pub requested_by : Option Text
  pub checkpoint : Option Text
  pub resume_after : Bool
  pub progress : ℕ
  pub message : Option Text
  pub lease_owner : Option Text
  pub lease_until : Option Text
  pub cancel_requested_at : Option Text
  pub clean : Option Bool
  pub attempt : ℕ
  pub error_code : Option Text
  pub error : Option Text
  pub log : Option Text
  pub created_at : Text
  pub started_at : Option Text
  pub finished_at : Option Text

-- The two tables, and all others, which only the hooks of a claim and a finish write.
pub record Store (R : Type 0) : Type 0 where
  pub locks : List (Text × Text)
  pub jobs : List Job
  pub rest : R

-- The rows of the other tables that a row of `job_runs` may refer to.
pub record Parents (R : Type 0) : Type 0 where
  pub instance : R → Text → Bool
  pub schedule : R → Text → Bool
  pub user : R → Text → Bool

abbrev pub is_there : (Text → Bool) → Option Text → Bool
is_there has none = true
is_there has (some id) = has id

-- The foreign keys of `job_runs` hold for a row.
pub has_parents : {R : Type 0} → Parents R → R → Job → Bool
has_parents parents rest j =
    is_there (parents.instance rest) j.instance_id
    && (is_there (parents.schedule rest) j.schedule_id
        && is_there (parents.user rest) j.requested_by)

abbrev pub find_job : Text → List Job → Option Job
find_job id [] = none
find_job id (j ∷ jobs) = if text_eq j.id id then some j else find_job id jobs

pub data ClaimError : Type 0 where
  empty_lock_key : ClaimError
  job_conflict : (job_id kind : Text) → ClaimError
  no_holder : (key : Text) → ClaimError
  hook_failed : ClaimError
  duplicate_job : ClaimError
  missing_parent : ClaimError

pub data Acquired : Type 0 where
  acquired : List (Text × Text) → Acquired
  refused : ClaimError → Acquired

abbrev pub is_empty : Text → Bool
is_empty [] = true
is_empty (c ∷ s) = false

-- The row that the query for the holder of a taken lock joins.
abbrev conflict_of : Text → Option Job → ClaimError
conflict_of key none = no_holder key
conflict_of key (some j) = job_conflict j.id j.kind

-- `lock_key` is the primary key of `job_locks`, so an insert of one that is there is refused.
acquire_key :
    Text
    → List Job
    → Text
    → Option Text
    → List (Text × Text)
    → (List (Text × Text) → Acquired)
    → Acquired
acquire_key id jobs key (some holder) locks go = refused (conflict_of key (find_job holder jobs))
acquire_key id jobs key none locks go = go ((key, id) ∷ locks)

unfoldable pub acquire : Text → List Job → List Text → List (Text × Text) → Acquired
unfolding acquire_key
acquire id jobs [] locks = acquired locks
acquire id jobs (key ∷ keys) locks =
    if is_empty key
    then refused empty_lock_key
    else acquire_key id jobs key (lookup key locks) locks (acquire id jobs keys)

-- The keys of a claim, sorted, each once.
unfoldable pub lock_keys : Text → List Text → List Text
lock_keys lock_key supplemental = compact (sort_on self (lock_key ∷ supplemental))

-- The row that a claim inserts: the columns that the statement leaves out are NULL.
abbrev pub claimed_job : Job → (owner lease_until now : Text) → Job
claimed_job j owner lease_until now = record j {
  status = running;
  checkpoint = none;
  progress = 0;
  message = none;
  lease_owner = some owner;
  lease_until = some lease_until;
  cancel_requested_at = none;
  clean = none;
  attempt = 1;
  error_code = none;
  error = none;
  log = none;
  created_at = now;
  started_at = some now;
  finished_at = none;
}

module _ {R : Type 0} where
  -- The insert of the row: `id` is the primary key of `job_runs`, and the flag says whether the
  -- foreign keys hold after the hook.
  insert_job :
      Bool
      → Option Job
      → Job
      → List (Text × Text)
      → List Job
      → R
      → Store R
      → Store R × Option ClaimError
  insert_job parented (some other) j locks jobs rest before = (before, some duplicate_job)
  insert_job false none j locks jobs rest before = (before, some missing_parent)
  insert_job true none j locks jobs rest before =
      (record { locks = locks; jobs = jobs ++ j ∷ []; rest = rest }, none)

  after_hook :
      Parents R → Option R → Job → List (Text × Text) → Store R → Store R × Option ClaimError
  unfolding insert_job has_parents
  after_hook parents none j locks s = (s, some hook_failed)
  after_hook parents (some rest) j locks s =
      insert_job (has_parents parents rest j) (find_job j.id s.jobs) j locks s.jobs rest s

  after_locks : Parents R → (R → Option R) → Acquired → Job → Store R → Store R × Option ClaimError
  unfolding after_hook
  after_locks parents on_claim (refused e) j s = (s, some e)
  after_locks parents on_claim (acquired locks) j s = after_hook parents (on_claim s.rest) j locks s

  -- `ClaimJobWithLocks`. An error rolls the transaction back, so the store is as it was.
  unfoldable pub claim_job_with_locks :
      Parents R
      → (R → Option R)
      → Job
      → List Text
      → (owner lease_until now : Text) → Store R
      → Store R × Option ClaimError
  unfolding after_locks
  claim_job_with_locks parents on_claim j supplemental owner lease_until now s =
      after_locks parents on_claim (acquire j.id s.jobs (lock_keys j.lock_key supplemental) s.locks)
        (claimed_job j owner lease_until now) s

-- An `UPDATE job_runs … WHERE id = ?` with a further condition: the rows, and how many changed.
module _ (id : Text) (cond : Job → Bool) (write : Job → Job) where
  pub update_jobs : List Job → List Job × ℕ
  update_jobs [] = ([], 0)
  update_jobs (j ∷ jobs) =
      let (rest, n) = update_jobs jobs in
      if text_eq j.id id && cond j then (write j ∷ rest, suc n) else (j ∷ rest, n)

-- `DELETE FROM job_locks WHERE job_id = ?`.
pub release : Text → List (Text × Text) → List (Text × Text)
release id [] = []
release id ((key, holder) ∷ locks) =
    let rest = release id locks in if text_eq holder id then rest else (key, holder) ∷ rest

abbrev pub owned_by : Text → Option Text → Bool
owned_by owner none = false
owned_by owner (some o) = text_eq o owner

abbrev pub always : Job → Bool
always j = true

abbrev is_none : Option Text → Bool
is_none none = true
is_none (some x) = false

-- What a finish writes into the row.
pub record Finish : Type 0 where
  pub status : Status
  pub progress : ℕ
  pub error_code : Option Text
  pub error : Option Text
  pub log : Option Text
  pub clean : Option Bool
  pub finished_at : Text

abbrev pub finished_job : Finish → Job → Job
finished_job f j = record j {
  status = f.status;
  progress = f.progress;
  error_code = f.error_code;
  error = f.error;
  log = f.log;
  clean = f.clean;
  lease_owner = none;
  lease_until = none;
  finished_at = some f.finished_at;
}

stale_rows : Text → List Job → List Job
stale_rows owner [] = []
stale_rows owner (j ∷ jobs) =
    let rest = stale_rows owner jobs in
    if is_running j.status && not (owned_by owner j.lease_owner) then j ∷ rest else rest

module _ {R : Type 0} where
  -- `RenewJobLease`.
  pub renew_job_lease : (id owner until : Text) → Store R → Store R × Bool
  unfolding update_jobs
  renew_job_lease id owner until s =
      let (jobs, n) =
        update_jobs id (λ j. owned_by owner j.lease_owner && is_running j.status)
          (λ j. record j { lease_until = some until }) s.jobs in
      (record s { jobs = jobs }, n == 1)

  -- `UpdateJobProgress`.
  pub update_job_progress : Text → ℕ → Text → Store R → Store R
  unfolding update_jobs
  update_job_progress id progress message s = record s {
    jobs =
        (update_jobs id always (λ j. record j { progress = progress; message = some message })
          s.jobs).0;
  }

  -- `UpdateJobCheckpoint`.
  pub update_job_checkpoint : (id checkpoint : Text) → Store R → Store R
  unfolding update_jobs
  update_job_checkpoint id checkpoint s = record s {
    jobs = (update_jobs id always (λ j. record j { checkpoint = some checkpoint }) s.jobs).0;
  }

  finish_hook : Option R → List (Text × Text) → List Job → Store R → Store R × Bool
  finish_hook none locks jobs s = (s, false)
  finish_hook (some rest) locks jobs s = (record { locks = locks; jobs = jobs; rest = rest }, true)

  -- `FinishJob`: the flag is `false` where the hook's error rolls back.
  unfoldable pub finish_job : (R → Option R) → Text → Finish → Store R → Store R × Bool
  unfolding update_jobs release finish_hook
  finish_job on_finish id f s =
      finish_hook (on_finish s.rest) (release id s.locks)
        (update_jobs id always (finished_job f) s.jobs).0 s

  -- `CancelQueuedJob`.
  unfoldable pub cancel_queued_job : (id now : Text) → Store R → Store R × Bool
  unfolding update_jobs release
  cancel_queued_job id now s =
      let (jobs, n) =
        update_jobs id (λ j. is_queued j.status)
          (λ j. record j { status = cancelled; finished_at = some now }) s.jobs in
      if n == 1 then (record s { locks = release id s.locks; jobs = jobs }, true) else (s, false)

  -- `RequestJobCancel`.
  pub request_job_cancel : (id now : Text) → Store R → Store R
  unfolding update_jobs
  request_job_cancel id now s = record s {
    jobs =
        (update_jobs id (λ j. is_none j.cancel_requested_at)
          (λ j. record j { cancel_requested_at = some now }) s.jobs).0;
  }

  -- `LockHolder`, the text being there exactly if the lock is held, and `HeldLockKeys`.
  abbrev pub lock_holder : Text → Store R → Option Text
  lock_holder key s = lookup key s.locks

  abbrev pub held_lock_keys : Store R → List Text
  held_lock_keys s = map (λ (l : Text × Text). l.0) s.locks

  -- `StaleJobs`, in the order of `created_at`.
  pub stale_jobs : Text → Store R → List Job
  unfolding stale_rows
  stale_jobs owner s = sort_on (λ (j : Job). j.created_at) (stale_rows owner s.jobs)
