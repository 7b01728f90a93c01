-- ===== src/Engine/Cancelled.antt =====
-- What a cancel answers, in the store that it writes to.
use valmin.Shared.{
  ◌≡◌, refl, ap, ◌⊎◌, inl, inr, Bool, true, false, Option, none, some, Text, codes, In,
  Option-cases, NoDup,
}
use valmin.Jobs.{
  Status, queued, running, succeeded, failed, cancelled, is_queued, is_terminal, Job, Store,
  cancel_queued_job,
}
use valmin.Jobs.Cancels.{Ended, Flagged, cancel_queued_job_lem, request_job_cancel_lem}
use valmin.Jobs.Locks.{keys_of, ids_of}
use valmin.Engine.{
  CancelError, job_not_found, job_terminal, not_cancellable, Policies, text_or_empty, queued_answer,
  policy_answer, cancel_running, cancel_by_status, cancel,
}

module _ {R : Type 0} (policies : Policies) (id now : Text) (s : Store R) where
  -- The kind of a running job says that its checkpoint is no point of no return.
  pub record Allowed (j : Job) : Type 0 where
    pub is_running : j.status ≡ running
    pub policy :
        (p : Text → Bool × Text) × (policies j.kind ≡ some p)
        × ((p (text_or_empty j.checkpoint)).0 ≡ true)

  -- What a cancel that went through has done, with the row that was read.
  pub data Done : Option Job → Store R → Type 0 where
    ends : (j : Job) {t : Store R} → j.status ≡ queued → Ended id now s t → Done (some j) t
    flags : (j : Job) {t : Store R} → Allowed j → Flagged id now s t → Done (some j) t

  -- The errors of a cancel, and what each of them says of the row that was read.
  pub data NotDone : Option Job → CancelError → Type 0 where
    for_absent : NotDone none job_not_found
    for_end : (j : Job) → is_terminal j.status ≡ true → NotDone (some j) job_terminal
    for_race :
        (j : Job)
        → j.status ≡ queued
        → ((r : Job) → In r s.jobs → r.id ≡ id → is_queued r.status ≡ false)
        → NotDone (some j) job_terminal
    for_kind :
        (j : Job)
        → j.status ≡ running
        → policies j.kind ≡ none
        → NotDone (some j) (not_cancellable (codes "running"))
    for_phase :
        (j : Job) (p : Text → Bool × Text) (phase : Text)
        → j.status ≡ running
        → policies j.kind ≡ some p
        → p (text_or_empty j.checkpoint) ≡ (false, phase)
        → NotDone (some j) (not_cancellable phase)

  abbrev Answer : Option Job → Store R × Option CancelError → Type 0
  Answer read p =
      ((p.1 ≡ none) × Done read p.0)
      ⊎ ((e : CancelError) × (p.1 ≡ some e) × (p.0 ≡ s) × NotDone read e)

  queued_answer_lem :
      (j : Job)
      → NoDup (keys_of s.locks)
      → NoDup (ids_of s.jobs)
      → j.status ≡ queued
      → Answer (some j) (queued_answer (cancel_queued_job id now s))
  unfolding queued_answer
  queued_answer_lem j k u q = elim (cancel_queued_job_lem id now s k u) [
    | inl (e, d) ↦ inl (went (cancel_queued_job id now s) e d)
    | inr (e, n) ↦ inr (job_terminal, rw e refl, rw e refl, for_race j q n)
  ]
    where
      went :
          (p : Store R × Bool)
          → p.1 ≡ true
          → Ended id now s p.0
          → ((queued_answer p).1 ≡ none) × Done (some j) (queued_answer p).0
      went (t, true) e d = (refl, ends j q d)
      went (t, false) e d = cc e

  policy_answer_lem :
      (j : Job) (p : Text → Bool × Text) (b : Bool × Text)
      → j.status ≡ running
      → policies j.kind ≡ some p
      → p (text_or_empty j.checkpoint) ≡ b
      → Answer (some j) (policy_answer b id now s)
  unfolding policy_answer
  policy_answer_lem j p (true, phase) r e f = inl (
    refl,
    flags j (record { is_running = r; policy = (p, e, ap (λ (x : Bool × Text). x.0) f) })
        (request_job_cancel_lem id now s),
  )
  policy_answer_lem j p (false, phase) r e f =
      inr (not_cancellable phase, refl, refl, for_phase j p phase r e f)

  running_answer_lem :
      (j : Job)
      → j.status ≡ running
      → Answer (some j) (cancel_running (policies j.kind) (text_or_empty j.checkpoint) id now s)
  unfolding cancel_running
  running_answer_lem j r = elim (Option-cases (policies j.kind)) [
    | inl e ↦ rw e (inr (not_cancellable (codes "running"), refl, refl, for_kind j r e))
    | inr (p, e) ↦ rw e (policy_answer_lem j p (p (text_or_empty j.checkpoint)) r e refl)
  ]

  cancel_by_status_lem :
      (j : Job) (x : Status)
      → NoDup (keys_of s.locks)
      → NoDup (ids_of s.jobs)
      → j.status ≡ x
      → Answer (some j) (cancel_by_status policies j x id now s)
  unfolding cancel_by_status
  cancel_by_status_lem j queued k u e = queued_answer_lem j k u e
  cancel_by_status_lem j running k u e = running_answer_lem j e
  cancel_by_status_lem j succeeded k u e =
      inr (job_terminal, refl, refl, for_end j (ap is_terminal e))
  cancel_by_status_lem j failed k u e = inr (job_terminal, refl, refl, for_end j (ap is_terminal e))
  cancel_by_status_lem j cancelled k u e =
      inr (job_terminal, refl, refl, for_end j (ap is_terminal e))

  -- In tables whose lock keys and job ids are unique, whatever row the cancel has read: it ends a queued row and frees
  -- exactly the locks of that job; or it writes the request into a running one, if its kind
  -- allows that at the checkpoint read, and keeps every lock; or it is refused with an error
  -- that tells the reason, and the store is as it was.
  pub cancel_lem :
      (read : Option Job)
      → NoDup (keys_of s.locks)
      → NoDup (ids_of s.jobs)
      → ((cancel policies read id now s).1 ≡ none × Done read (cancel policies read id now s).0)
        ⊎ ((e : CancelError) × ((cancel policies read id now s).1 ≡ some e)
            × ((cancel policies read id now s).0 ≡ s)
            × NotDone read e)
  unfolding cancel
  cancel_lem none k u = inr (job_not_found, refl, refl, for_absent)
  cancel_lem (some j) k u = cancel_by_status_lem j j.status k u refl
