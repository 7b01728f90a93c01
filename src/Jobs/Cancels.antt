-- ===== src/Jobs/Cancels.antt =====
-- The two transactions of a cancel, in tables that keep their primary keys.
use valmin.Shared.{
  ◌≡◌, refl, ◌≢◌, ◌⊎◌, inl, inr, true, false, ◌&&◌, none, some, arith, Text, text_eq, text_eq_iff,
  if◌then◌else◌, ◌==◌, In, Bool-cases, NoDup,
}
use valmin.Jobs.{
  cancelled, is_queued, Job, Store, update_jobs, owned_by, is_none, cancel_queued_job,
  request_job_cancel, lock_holder,
}
use valmin.Jobs.Locks.{
  ids_of, keys_of, lookup-release, update_jobs-In, update_jobs-count, update_jobs-once,
}

-- The row of a cancel: one that a request has been written into keeps its first time.
abbrev pub ended_job : Text → Job → Job
ended_job now j = record j { status = cancelled; finished_at = some now }

abbrev pub flagged_job : Text → Job → Job
flagged_job now j =
    if is_none j.cancel_requested_at then record j { cancel_requested_at = some now } else j

module _ {R : Type 0} (id now : Text) (s : Store R) where
  -- A queued row of the job became a cancelled one, and its locks, no others, are free.
  pub record Ended (t : Store R) : Type 0 where
    pub row :
        (r : Job) × In r s.jobs
        × (r.id ≡ id)
        × (is_queued r.status ≡ true)
        × In (ended_job now r) t.jobs
    pub others : (r : Job) → In r s.jobs → r.id ≢ id → In r t.jobs
    pub freed :
        (key : Text)
        → lock_holder key t ≡ (if owned_by id (lock_holder key s) then none else lock_holder key s)
    pub same_rest : t.rest ≡ s.rest

  -- The job's row carries the request, and all else is as it was.
  pub record Flagged (t : Store R) : Type 0 where
    pub row : (r : Job) → In r s.jobs → r.id ≡ id → In (flagged_job now r) t.jobs
    pub others : (r : Job) → In r s.jobs → r.id ≢ id → In r t.jobs
    pub same_locks : t.locks ≡ s.locks
    pub same_rest : t.rest ≡ s.rest

  pub cancel_queued_job_lem :
      NoDup (keys_of s.locks)
      → NoDup (ids_of s.jobs)
      → ((cancel_queued_job id now s).1 ≡ true × Ended (cancel_queued_job id now s).0)
        ⊎ ((cancel_queued_job id now s ≡ (s, false))
            × ((r : Job) → In r s.jobs → r.id ≡ id → is_queued r.status ≡ false))
  unfolding cancel_queued_job
  cancel_queued_job_lem u d =
      let cond = λ (j : Job). is_queued j.status in
      let jobs = update_jobs id cond (ended_job now) s.jobs in
      elim (Bool-cases (jobs.1 == 1)) [
        | inl e ↦
            let (r, i, p, q) =
              update_jobs-count id cond (ended_job now) s.jobs (ground (arith, e)) in
            inl (
              rw e refl,
              rw e (record {
                row = (
                  r,
                  i,
                  p,
                  q,
                  rw (hit r p q) at (update_jobs-In id cond (ended_job now) r s.jobs i),
                );
                others =
                    λ o m n. rw (miss o n) at (update_jobs-In id cond (ended_job now) o s.jobs m);
                freed = λ key. lookup-release id key s.locks u;
                same_rest = refl;
              }),
            )
        | inr e ↦ inr (
          rw e refl,
          λ r i p. elim (Bool-cases (is_queued r.status)) [
            | inr n ↦ n
            | inl q ↦ cc (rw (update_jobs-once id cond (ended_job now) r s.jobs d i p q) at e)
          ],
        )
      ]
    where
      hit :
          (r : Job)
          → r.id ≡ id
          → is_queued r.status ≡ true
          → (text_eq r.id id && is_queued r.status) ≡ true
      hit r p q = ground (arith, text_eq_iff r.id id, p, q)

      miss : (r : Job) → r.id ≢ id → (text_eq r.id id && is_queued r.status) ≡ false
      miss r n = ground (arith, text_eq_iff r.id id, n)

  pub request_job_cancel_lem : Flagged (request_job_cancel id now s)
  unfolding request_job_cancel
  request_job_cancel_lem =
      let cond = λ (j : Job). is_none j.cancel_requested_at in
      let write = λ (j : Job). record j { cancel_requested_at = some now } in
      record {
        row = λ r i p.
            let b : text_eq r.id id ≡ true = (text_eq_iff r.id id).1 p in
            rw b at (update_jobs-In id cond write r s.jobs i);
        others = λ r i n.
            let b : text_eq r.id id ≡ false = ground (arith, text_eq_iff r.id id, n) in
            rw b at (update_jobs-In id cond write r s.jobs i);
        same_locks = refl;
        same_rest = refl;
      }
