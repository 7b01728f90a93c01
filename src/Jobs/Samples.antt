-- ===== src/Jobs/Samples.antt =====
-- The two tables over a few statements.
use mathlib.Core.Path.{subst}
use valmin.Shared.{
  ℕ, suc, ◌≡◌, refl, ◌⊎◌, inl, true, false, [], ◌∷◌, Option, none, some, Text, codes, In, All,
}
use valmin.Jobs.{
  Job, Store, Finish, queued, succeeded, is_terminal, ClaimError, job_conflict, claimed_job,
  claim_job_with_locks, finish_job, lock_holder, acquire, lock_keys, Parents,
}
use valmin.Jobs.Claims.{Claimed, Refused, Usable, claim_keys, claim_job_with_locks_lem}
use valmin.Jobs.Reach.{Reachable, empty_tables, after, claims, lock_holder-live, one_job-each_key}

abbrev job : Text → Text → Job
job id key = record {
  id = id;
  kind = codes "start";
  status = queued;
  lock_key = key;
  instance_id = none;
  schedule_id = none;
  requested_by = none;
  checkpoint = none;
  resume_after = false;
  progress = 0;
  message = none;
  lease_owner = none;
  lease_until = none;
  cancel_requested_at = none;
  clean = none;
  attempt = 0;
  error_code = none;
  error = none;
  log = none;
  created_at = [];
  started_at = none;
  finished_at = none;
}

abbrev first : Text
first = codes "j"

abbrev key : Text
key = codes "k"

-- The hook counts the claims.
abbrev counted : ℕ → Option ℕ
counted n = some (suc n)

-- No table but the two has rows.
abbrev no_rows : Parents ℕ
no_rows = record { instance = λ r id. false; schedule = λ r id. false; user = λ r id. false }

abbrev blank : Store ℕ
blank = record { locks = []; jobs = []; rest = 0 }

abbrev one_running : Store ℕ
one_running = record {
  locks = (key, first) ∷ [];
  jobs = claimed_job (job first key) (codes "o") (codes "u") (codes "n") ∷ [];
  rest = 1;
}

claimed_first :
    claim_job_with_locks no_rows counted
      (job first key)
      (key ∷ [])
      (codes "o")
      (codes "u")
      (codes "n")
      blank
    ≡ (one_running, none)
unfolding claim_job_with_locks acquire lock_keys
claimed_first = refl

second_collides :
    claim_job_with_locks no_rows counted
      (job (codes "l") (codes "a"))
      (key ∷ [])
      (codes "o")
      (codes "u")
      (codes "n")
      one_running
    ≡ (one_running, some (job_conflict first (codes "start")))
unfolding claim_job_with_locks acquire lock_keys
second_collides = refl

one_running-Reachable : Reachable one_running
one_running-Reachable =
    subst (λ (p : Store ℕ × Option ClaimError). Reachable p.0) claimed_first
      (after (empty_tables 0)
        (claims no_rows counted (job first key) (key ∷ []) (codes "o") (codes "u") (codes "n")))

claim_job_with_locks_lem_example :
    Claimed no_rows counted
      (job (codes "l") (codes "a"))
      (key ∷ [])
      (codes "o")
      (codes "u")
      (codes "n")
      one_running
    ⊎ ((e : ClaimError) × ((claim_job_with_locks no_rows counted
            (job (codes "l") (codes "a"))
            (key ∷ [])
            (codes "o")
            (codes "u")
            (codes "n")
            one_running).1
          ≡ some e)
        × ((claim_job_with_locks no_rows counted
              (job (codes "l") (codes "a"))
              (key ∷ [])
              (codes "o")
              (codes "u")
              (codes "n")
              one_running).0
            ≡ one_running)
        × Refused no_rows counted
            (job (codes "l") (codes "a"))
            (key ∷ [])
            (codes "o")
            (codes "u")
            (codes "n")
            one_running
            e)
claim_job_with_locks_lem_example =
    claim_job_with_locks_lem no_rows counted (job (codes "l") (codes "a")) (key ∷ []) (codes "o")
      (codes "u") (codes "n") one_running

keys-Usable : All (Usable blank.locks) (claim_keys (job first key) [])
unfolding lock_keys
keys-Usable = ((refl, refl), tt)

lock_holder-live_example :
    ((k id : Text)
      → lock_holder k one_running ≡ some id
      → (j : Job) × In j one_running.jobs × (j.id ≡ id) × (is_terminal j.status ≡ false))
    × ((j : Job)
        → In j one_running.jobs
        → is_terminal j.status ≡ false
        → lock_holder j.lock_key one_running ≡ some j.id)
lock_holder-live_example = lock_holder-live one_running one_running-Reachable

abbrev runner : Job
runner = claimed_job (job first key) (codes "o") (codes "u") (codes "n")

one_job-each_key_example : runner ≡ runner
one_job-each_key_example =
    one_job-each_key one_running runner runner one_running-Reachable (inl refl) (inl refl) refl refl
      refl

abbrev outcome : Finish
outcome = record {
  status = succeeded;
  progress = 100;
  error_code = none;
  error = none;
  log = none;
  clean = none;
  finished_at = codes "f";
}

finished_one : (finish_job counted first outcome one_running).1 ≡ true
unfolding finish_job
finished_one = refl
