-- ===== src/Engine/Finished.antt =====
-- The end of a run: the hooks in one transaction with the status and the release of the locks.
use mathlib.Core.Path.{subst}
use valmin.Shared.{
  ℕ, ◌≡◌, refl, sym, ap, ◌∙◌, ◌⊎◌, inl, inr, [], ◌∷◌, Bool, true, false, Option, none, some, Text,
  In, if◌then◌else◌, Option-cases,
}
use valmin.Jobs.{Job, Store, Finish, finished_job, lock_holder, owned_by}
use valmin.Jobs.Ends.{finish_job_cases}
use valmin.Jobs.Reach.{Reachable, finish_job_lem}
use valmin.Engine.{
  Hook, and_then, run_hook, Outcome, ended, prepend_finish, hooked, unless_empty, finish_of,
  finish_run,
}

-- A text of an outcome, NULL where it is empty.
pub data Column : Text → Option Text → Type 0 where
  empty : Column [] none
  filled : (c : ℕ) (t : Text) → Column (c ∷ t) (some (c ∷ t))

unless_empty-Column : (t : Text) → Column t (unless_empty t)
unless_empty-Column [] = empty
unless_empty-Column (c ∷ t) = filled c t

-- A job's row at its end: what the outcome says, no lease, and its identity as before.
pub record OutcomeRow {R : Type 0} (o : Outcome R) (progress : ℕ) (log now : Text) (j row : Job)
    : Type 0 where
  pub same_job : (row.id ≡ j.id) × (row.kind ≡ j.kind) × (row.lock_key ≡ j.lock_key)
  pub has_status : row.status ≡ o.status
  pub has_progress : row.progress ≡ progress
  pub has_code : Column o.error_code row.error_code
  pub has_error : Column o.error row.error
  pub has_log : Column log row.log
  pub has_clean : row.clean ≡ o.clean
  pub no_lease : (row.lease_owner ≡ none) × (row.lease_until ≡ none)
  pub has_end : row.finished_at ≡ some now

finished_job-OutcomeRow :
    {R : Type 0} (o : Outcome R) (progress : ℕ) (log now : Text) (j : Job)
    → OutcomeRow o progress log now j (finished_job (finish_of o progress log now) j)
finished_job-OutcomeRow o progress log now j = record {
  same_job = (refl, refl, refl);
  has_status = refl;
  has_progress = refl;
  has_code = unless_empty-Column o.error_code;
  has_error = unless_empty-Column o.error;
  has_log = unless_empty-Column log;
  has_clean = refl;
  no_lease = (refl, refl);
  has_end = refl;
}

module _ {R : Type 0} where
  prepend_finish-hook :
      (first : Option (Hook R)) (o : Outcome R) (r : R)
      → run_hook (prepend_finish first o).on_finish r
        ≡ and_then (run_hook first r) (run_hook o.on_finish)
  unfolding prepend_finish
  prepend_finish-hook none o r = refl
  prepend_finish-hook (some h) o r = refl

  hooked-hook :
      (registered : Option (Hook R)) (o : Outcome R) (r : R)
      → run_hook (hooked registered o).on_finish r
        ≡ and_then (run_hook o.on_finish r) (run_hook registered)
  unfolding hooked
  hooked-hook none o r = elim (Option-cases (run_hook o.on_finish r)) [
    | inl e ↦ rw e refl
    | inr (t, e) ↦ rw e refl
  ]
  hooked-hook (some h) o r = refl

  and_then-some :
      (a : Option R) (h : Hook R) (t : R)
      → and_then a h ≡ some t
      → (m : R) × (a ≡ some m) × (h m ≡ some t)
  and_then-some none h t e = cc e
  and_then-some (some m) h t e = (m, refl, e)

  finish_of-prepend_finish :
      (first : Option (Hook R)) (o : Outcome R) (progress : ℕ) (log now : Text)
      → finish_of (prepend_finish first o) progress log now ≡ finish_of o progress log now
  unfolding prepend_finish
  finish_of-prepend_finish none o progress log now = refl
  finish_of-prepend_finish (some h) o progress log now = refl

  module _ (first registered : Option (Hook R)) (o : Outcome R) (j : Job) (progress : ℕ)
      (log now : Text) (s : Store R) where
    abbrev pub after_run : Store R × Bool
    after_run = finish_run registered (ended (prepend_finish first o)) j.id progress log now s

    -- A run that has been finished.
    pub record Stored : Type 0 where
      pub flag : after_run.1 ≡ true
      pub row : Job
      pub stored : In row after_run.0.jobs
      pub ended : OutcomeRow o progress log now j row
      pub freed :
          (key : Text)
          → lock_holder key after_run.0
            ≡ (if owned_by j.id (lock_holder key s) then none else lock_holder key s)
      pub hooks :
          (a : R) × (b : R) × (run_hook first s.rest ≡ some a)
          × (run_hook o.on_finish a ≡ some b)
          × (run_hook registered b ≡ some after_run.0.rest)

    -- The three hooks, in their order.
    abbrev pub all_hooks : Option R
    all_hooks =
        and_then (and_then (run_hook first s.rest) (run_hook o.on_finish)) (run_hook registered)

    all_hooks_lem :
        run_hook (hooked registered (prepend_finish first o)).on_finish s.rest ≡ all_hooks
    all_hooks_lem =
        hooked-hook registered (prepend_finish first o) s.rest
        ∙ ap (λ (x : Option R). and_then x (run_hook registered))
            (prepend_finish-hook first o s.rest)

    -- In a reachable store, a run of a job in the table that ends with an outcome is finished:
    -- the prepended hook, the outcome's own and the registered one have run in this order, the
    -- job's row has the status, error, log and end of the outcome and no lease, and exactly its locks
    -- are free. Or one of the hooks has failed,
    -- and the store is as it was, the job still holding its locks.
    pub finish_run_lem :
        Reachable s → In j s.jobs → Stored ⊎ ((after_run ≡ (s, false)) × (all_hooks ≡ none))
    unfolding finish_run
    finish_run_lem h i =
        let hook = run_hook (hooked registered (prepend_finish first o)).on_finish in
        let f = finish_of (prepend_finish first o) progress log now in
        elim (finish_job_cases hook j.id f s) [
          | inr (e, n) ↦ inr (e, sym all_hooks_lem ∙ n)
          | inl (e, q) ↦
              let (locks, rows) = finish_job_lem hook j.id f s h e in
              let (b, m, g) =
                and_then-some (and_then (run_hook first s.rest) (run_hook o.on_finish))
                  (run_hook registered) after_run.0.rest (sym all_hooks_lem ∙ q) in
              let (a, k, l) = and_then-some (run_hook first s.rest) (run_hook o.on_finish) b m in
              inl (record {
                flag = e;
                row = finished_job (finish_of o progress log now) j;
                stored =
                    subst (λ (x : Finish). In (finished_job x j) after_run.0.jobs)
                      (finish_of-prepend_finish first o progress log now) (rows j i refl);
                ended = finished_job-OutcomeRow o progress log now j;
                freed = locks;
                hooks = (a, b, k, l, g);
              })
        ]
