-- ===== src/Jobs/Reach.antt =====
-- The invariant of the two tables, over every sequence of statements.
use mathlib.Core.Path.{subst}
use valmin.Shared.{
  ℕ, ◌≡◌, refl, sym, ap, ◌∙◌, ◌≢◌, inl, inr, Bool, true, false, ◌&&◌, List, [], ◌∷◌, ◌++◌, Option,
  none, some, arith, Text, text_eq, text_eq_iff, if◌then◌else◌, ◌==◌, In, NoDup, NoDup-snoc,
  In-append, In-append_left, In-append_right, Bool-cases, Option-cases,
}
use valmin.Jobs.{
  cancelled, is_queued, is_running, is_terminal, Job, Store, claimed_job, claim_job_with_locks,
  update_jobs, release, owned_by, always, is_none, Finish, finished_job, renew_job_lease,
  update_job_progress, update_job_checkpoint, finish_hook, finish_job, cancel_queued_job,
  request_job_cancel, lock_holder, Parents,
}
use valmin.Jobs.Locks.{
  keys_of, ids_of, In-release, release-In, release-NoDup, In-lookup, lookup-In, lookup-release,
  In-update_jobs, update_jobs-In, ids_of-update_jobs, update_jobs-count, same_job, find_job-absent,
}
use valmin.Jobs.Claims.{claim_job_with_locks_lem, In-lock_keys}

-- Lock keys and job ids are unique; a lock is held by a job that has not ended; and such a job
-- holds its own key.
pub record WellFormed {R : Type 0} (s : Store R) : Type 0 where
  pub unique_keys : NoDup (keys_of s.locks)
  pub unique_ids : NoDup (ids_of s.jobs)
  pub held :
      (l : Text × Text)
      → In l s.locks
      → (j : Job) × In j s.jobs × (j.id ≡ l.1) × (is_terminal j.status ≡ false)
  pub own : (j : Job) → In j s.jobs → is_terminal j.status ≡ false → In (j.lock_key, j.id) s.locks

ids_of-snoc : (jobs : List Job) (j : Job) → ids_of (jobs ++ j ∷ []) ≡ ids_of jobs ++ j.id ∷ []
ids_of-snoc [] j = refl
ids_of-snoc (i ∷ jobs) j = ap (λ ids. i.id ∷ ids) (ids_of-snoc jobs j)

module _ {R : Type 0} where
  -- A write that keeps a row's id, key and liveness keeps the invariant.
  update-WellFormed :
      (id : Text) (cond : Job → Bool) (write : Job → Job) (s : Store R)
      → ((j : Job) → (write j).id ≡ j.id)
      → ((j : Job) → (write j).lock_key ≡ j.lock_key)
      → ((j : Job) → is_terminal (write j).status ≡ is_terminal j.status)
      → WellFormed s
      → WellFormed (record s { jobs = (update_jobs id cond write s.jobs).0 })
  update-WellFormed id cond write s hi hk ht w = record {
    unique_keys = w.unique_keys;
    unique_ids = rw (ids_of-update_jobs id cond write s.jobs hi) w.unique_ids;
    held = λ l i. let (j, m, e, t) = w.held l i in still_held l j m e t;
    own = λ j i t. elim (In-update_jobs id cond write j s.jobs i) [
      | inl (m, e) ↦ w.own j m t
      | inr (k, m, e, c, q) ↦
          let o = w.own k m (sym (ht k) ∙ ap (λ (x : Job). is_terminal x.status) (sym q) ∙ t) in
          subst (λ (p : Text × Text). In p s.locks) (cc (hk k, hi k, q)) o
    ];
  }
    where
      still_held :
          (l : Text × Text) (j : Job)
          → In j s.jobs
          → j.id ≡ l.1
          → is_terminal j.status ≡ false
          → (i : Job) × In i (update_jobs id cond write s.jobs).0
            × (i.id ≡ l.1)
            × (is_terminal i.status ≡ false)
      still_held l j m e t =
          let u = update_jobs-In id cond write j s.jobs m in
          elim (Bool-cases (text_eq j.id id && cond j)) [
            | inl b ↦ (write j, rw b at u, hi j ∙ e, ht j ∙ t)
            | inr b ↦ (j, rw b at u, e, t)
          ]

  -- Ending every live row of a job, and releasing its locks, keeps the invariant.
  end-WellFormed :
      (id : Text) (cond : Job → Bool) (write : Job → Job) (s : Store R) (rest : R)
      → ((j : Job) → (write j).id ≡ j.id)
      → ((j : Job) → is_terminal (write j).status ≡ true)
      → ((j : Job) → In j s.jobs → j.id ≡ id → is_terminal j.status ≡ false → cond j ≡ true)
      → WellFormed s
      → WellFormed (record {
        locks = release id s.locks;
        jobs = (update_jobs id cond write s.jobs).0;
        rest = rest;
      })
  end-WellFormed id cond write s rest hi ht hc w = record {
    unique_keys = release-NoDup id s.locks w.unique_keys;
    unique_ids = rw (ids_of-update_jobs id cond write s.jobs hi) w.unique_ids;
    held = λ l i.
        let (m, n) = In-release id l s.locks i in
        let (j, k, e, t) = w.held l m in
        let u = update_jobs-In id cond write j s.jobs k in
        let b : (text_eq j.id id && cond j) ≡ false = ground (arith, text_eq_iff j.id id, n, e) in
        (j, rw b at u, e, t);
    own = λ j i t. elim (In-update_jobs id cond write j s.jobs i) [
      | inr (k, m, e, c, q) ↦ cc (ht k, q, t)
      | inl (m, b) ↦
          let apart : j.id ≢ id = λ e. cc (b, hc j m e t, (text_eq_iff j.id id).1 e) in
          release-In id (j.lock_key, j.id) s.locks (w.own j m t) apart
    ];
  }

  finish_job-WellFormed :
      (on_finish : R → Option R) (id : Text) (f : Finish) (s : Store R)
      → is_terminal f.status ≡ true
      → WellFormed s
      → WellFormed (finish_job on_finish id f s).0
  unfolding finish_job finish_hook
  finish_job-WellFormed on_finish id f s t w = elim (Option-cases (on_finish s.rest)) [
    | inl e ↦ rw e w
    | inr (r, e) ↦
        rw e
          (end-WellFormed id always (finished_job f) s r (λ j. refl) (λ j. t) (λ j m e q. refl) w)
  ]

  cancel_queued_job-WellFormed :
      (id now : Text) (s : Store R) → WellFormed s → WellFormed (cancel_queued_job id now s).0
  unfolding cancel_queued_job
  cancel_queued_job-WellFormed id now s w =
      let cond = λ (j : Job). is_queued j.status in
      let write = λ (j : Job). record j { status = cancelled; finished_at = some now } in
      elim (Bool-cases ((update_jobs id cond write s.jobs).1 == 1)) [
        | inr e ↦ rw e w
        | inl e ↦
            let (j, m, p, q) = update_jobs-count id cond write s.jobs (ground (arith, e)) in
            rw e (
              end-WellFormed id cond write s s.rest (λ i. refl) (λ i. refl)
                (λ i k a t. cc (q, same_job i j s.jobs w.unique_ids k m (a ∙ sym p))) w)
      ]

  claim-WellFormed :
      (parents : Parents R) (on_claim : R → Option R) (j : Job) (supplemental : List Text)
      (owner lease_until now : Text) (s : Store R)
      → WellFormed s
      → WellFormed (claim_job_with_locks parents on_claim j supplemental owner lease_until now s).0
  claim-WellFormed parents on_claim j supplemental owner lease_until now s w =
      elim (claim_job_with_locks_lem parents on_claim j supplemental owner lease_until now s) [
        | inr (e, x, y, z) ↦ rw y w
        | inl c ↦
            let new = claimed_job j owner lease_until now in
            let there : In new (s.jobs ++ new ∷ []) =
              In-append_right new s.jobs (new ∷ []) (inl refl) in
            record {
              unique_keys = c.locked.unique w.unique_keys;
              unique_ids =
                  rw (c.inserted, ids_of-snoc s.jobs new)
                    (NoDup-snoc (ids_of s.jobs) j.id w.unique_ids
                      (find_job-absent j.id s.jobs c.fresh));
              held = λ l i. rw c.inserted (elim (c.locked.members l i) [
                | inl (k, e) ↦ (new, there, sym e, refl)
                | inr k ↦
                    let (q, m, e, t) = w.held l k in (q, In-append_left q s.jobs (new ∷ []) m, e, t)
              ]);
              own = λ q i t. elim (In-append q s.jobs (new ∷ []) (rw c.inserted at i)) [
                | inl m ↦ c.locked.kept (q.lock_key, q.id) (w.own q m t)
                | inr (inl e) ↦ rw e (
                    c.locked.taken j.lock_key
                      ((In-lock_keys j.lock_key supplemental j.lock_key).1 (inl refl)))
                | inr (inr m) ↦ absurd m
              ];
            }
      ]

-- The transactions on the two tables. A finish writes one of the three statuses of an end.
pub data Step {R : Type 0} : Store R → Store R → Type 0 where
  claims :
      {s : Store R} (parents : Parents R) (on_claim : R → Option R) (j : Job)
      (supplemental : List Text) (owner lease_until now : Text)
      → Step s (claim_job_with_locks parents on_claim j supplemental owner lease_until now s).0
  renews : {s : Store R} (id owner until : Text) → Step s (renew_job_lease id owner until s).0
  progresses :
      {s : Store R} (id : Text) (progress : ℕ) (message : Text)
      → Step s (update_job_progress id progress message s)
  checkpoints :
      {s : Store R} (id checkpoint : Text) → Step s (update_job_checkpoint id checkpoint s)
  finishes :
      {s : Store R} (on_finish : R → Option R) (id : Text) (f : Finish)
      → is_terminal f.status ≡ true
      → Step s (finish_job on_finish id f s).0
  cancels : {s : Store R} (id now : Text) → Step s (cancel_queued_job id now s).0
  requests : {s : Store R} (id now : Text) → Step s (request_job_cancel id now s)

-- The stores that some sequence of them leads to from empty tables.
pub data Reachable {R : Type 0} : Store R → Type 0 where
  empty_tables : (rest : R) → Reachable (record { locks = []; jobs = []; rest = rest })
  after : {s t : Store R} → Reachable s → Step s t → Reachable t

module _ {R : Type 0} where
  Step-WellFormed : (s t : Store R) → Step s t → WellFormed s → WellFormed t
  unfolding renew_job_lease update_job_progress update_job_checkpoint request_job_cancel
  Step-WellFormed s t (claims parents on_claim j supplemental owner lease_until now) w =
      claim-WellFormed parents on_claim j supplemental owner lease_until now s w
  Step-WellFormed s t (renews id owner until) w =
      update-WellFormed id (λ j. owned_by owner j.lease_owner && is_running j.status)
        (λ j. record j { lease_until = some until }) s (λ j. refl) (λ j. refl) (λ j. refl) w
  Step-WellFormed s t (progresses id progress message) w =
      update-WellFormed id always (λ j. record j { progress = progress; message = some message }) s
        (λ j. refl) (λ j. refl) (λ j. refl) w
  Step-WellFormed s t (checkpoints id checkpoint) w =
      update-WellFormed id always (λ j. record j { checkpoint = some checkpoint }) s (λ j. refl)
        (λ j. refl) (λ j. refl) w
  Step-WellFormed s t (finishes on_finish id f e) w = finish_job-WellFormed on_finish id f s e w
  Step-WellFormed s t (cancels id now) w = cancel_queued_job-WellFormed id now s w
  Step-WellFormed s t (requests id now) w =
      update-WellFormed id (λ j. is_none j.cancel_requested_at)
        (λ j. record j { cancel_requested_at = some now }) s (λ j. refl) (λ j. refl) (λ j. refl) w

  pub Reachable-WellFormed : (s : Store R) → Reachable s → WellFormed s
  Reachable-WellFormed s (empty_tables rest) = record {
    unique_keys = tt;
    unique_ids = tt;
    held = λ l i. absurd i;
    own = λ j i t. absurd i;
  }
  Reachable-WellFormed s (after {s = r} h x) = Step-WellFormed r s x (Reachable-WellFormed r h)

  -- In every reachable store a lock has one holder, a row of a job that has not ended, and each
  -- such job holds the lock of its own key.
  pub lock_holder-live :
      (s : Store R)
      → Reachable s
      → ((key id : Text)
          → lock_holder key s ≡ some id
          → (j : Job) × In j s.jobs × (j.id ≡ id) × (is_terminal j.status ≡ false))
        × ((j : Job)
            → In j s.jobs
            → is_terminal j.status ≡ false
            → lock_holder j.lock_key s ≡ some j.id)
  lock_holder-live s h =
      let w = Reachable-WellFormed s h in
      (
        (λ key id e. w.held (key, id) (lookup-In key id s.locks e)),
        λ j i t. In-lookup j.lock_key j.id s.locks w.unique_keys (w.own j i t),
      )

  -- In every reachable store, two jobs on one lock key that have not ended are the same job.
  pub one_job-each_key :
      (s : Store R) (i j : Job)
      → Reachable s
      → In i s.jobs
      → In j s.jobs
      → is_terminal i.status ≡ false
      → is_terminal j.status ≡ false
      → i.lock_key ≡ j.lock_key
      → i ≡ j
  one_job-each_key s i j h a b t u e =
      let w = Reachable-WellFormed s h in
      let (held, own) = lock_holder-live s h in
      let q : some i.id ≡ some j.id = sym (own i a t) ∙ ap (λ k. lock_holder k s) e ∙ own j b u in
      same_job i j s.jobs w.unique_ids a b (cc q)

  -- In a reachable store, a finish whose hook succeeds gives its outcome to the job's row and
  -- frees every lock that the job held, and no other.
  pub finish_job_lem :
      (on_finish : R → Option R) (id : Text) (f : Finish) (s : Store R)
      → Reachable s
      → (finish_job on_finish id f s).1 ≡ true
      → ((key : Text)
          → lock_holder key (finish_job on_finish id f s).0
            ≡ (if owned_by id (lock_holder key s) then none else lock_holder key s))
        × ((j : Job)
            → In j s.jobs
            → j.id ≡ id
            → In (finished_job f j) (finish_job on_finish id f s).0.jobs)
  unfolding finish_job finish_hook
  finish_job_lem on_finish id f s h d = elim (Option-cases (on_finish s.rest)) [
    | inl e ↦ cc (rw e at d)
    | inr (r, e) ↦
        let w = Reachable-WellFormed s h in
        (
          rw e (λ key. lookup-release id key s.locks w.unique_keys),
          rw e (λ j i q.
              let u = update_jobs-In id always (finished_job f) j s.jobs i in
              let b : (text_eq j.id id && always j) ≡ true =
                ground (arith, text_eq_iff j.id id, q) in
              rw b at u),
        )
  ]
