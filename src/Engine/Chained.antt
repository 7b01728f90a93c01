-- ===== src/Engine/Chained.antt =====
-- One key, from job to job: refused while its job goes on, free for the next once it has ended.
use mathlib.Core.Path.{subst}
use valmin.Shared.{
  ℕ, ◌≡◌, refl, sym, ap, ◌∙◌, ◌⊎◌, inl, inr, Bool, true, false, List, [], ◌∷◌, Option, none, some,
  arith, Text, text_eq_iff, In, All, All-In,
}
use valmin.Jobs.{is_terminal, is_empty, Job, Store, find_job, lock_holder, Parents}
use valmin.Jobs.Claims.{
  Usable, In-lock_keys, claim_keys, claim, claim_job_with_locks-free, Parented,
}
use valmin.Jobs.Reach.{lock_holder-live}
use valmin.Engine.{
  Hook, Spec, FreeSpace, SubmitError, check_disk_room, claim_hook, new_job, Outcome, submit,
  submit_with_room,
}
use valmin.Engine.Submitted.{Rejected, submit_lem, claim_answer-none}
use valmin.Engine.Finished.{Stored, after_run, all_hooks, finish_run_lem}
use valmin.Engine.Runs.{Run, Run-Reachable}

All-each : (P : Text → Type 0) (keys : List Text) → ((k : Text) → In k keys → P k) → All P keys
All-each P [] f = tt
All-each P (k ∷ keys) f = (f k (inl refl), All-each P keys (λ x i. f x (inr i)))

module _ {R : Type 0} where
  module _ (parents : Parents R) (space : FreeSpace) (floor : ℕ) (draining : Bool) (spec : Spec R)
      (id owner lease_until now : Text) (s : Store R) where
    -- In any store of a run of the engine, as long as a job has not ended, a submission that
    -- needs the job's key is refused with a reason that holds, and the store is as it was.
    pub submit-busy :
        (j : Job)
        → Run s
        → In j s.jobs
        → is_terminal j.status ≡ false
        → In j.lock_key (spec.lock_key ∷ spec.lock_keys)
        → (e : SubmitError) × ((submit parents space floor draining spec id owner lease_until now
              s).1
            ≡ some e)
          × ((submit parents space floor draining spec id owner lease_until now s).0 ≡ s)
          × Rejected parents space floor draining spec id owner lease_until now s e
    submit-busy j h i t k =
        elim (submit_lem parents space floor draining spec id owner lease_until now s) [
          | inr r ↦ r
          | inl a ↦
              let held = (lock_holder-live s (Run-Reachable s h)).1 j i t in
              let (n, free) =
                All-In (Usable s.locks) j.lock_key (claim_keys (new_job spec id) spec.lock_keys)
                  a.claimed.locked.usable
                  ((In-lock_keys spec.lock_key spec.lock_keys j.lock_key).1 k) in
              cc (held, free)
        ]

    submit-free :
        check_disk_room space floor spec.kind ≡ none
        → draining ≡ false
        → ((k : Text) → In k (spec.lock_key ∷ spec.lock_keys) → Usable s.locks k)
        → (r : R) → claim_hook spec id s.rest ≡ some r
        → find_job id s.jobs ≡ none
        → Parented parents r (new_job spec id)
        → (submit parents space floor draining spec id owner lease_until now s).1 ≡ none
    unfolding submit submit_with_room
    submit-free q d u r g f p =
        let hook = claim_hook spec id in
        let c =
          claim_job_with_locks-free parents hook (new_job spec id) spec.lock_keys owner lease_until
            now s
            (All-each (Usable s.locks) (claim_keys (new_job spec id) spec.lock_keys)
              (λ k i. u k ((In-lock_keys spec.lock_key spec.lock_keys k).0 i)))
            r g f p in
        rw (q, d)
          (ap (λ (p : Store R × Option SubmitError). p.1)
            (claim_answer-none
              (claim parents hook (new_job spec id) spec.lock_keys owner lease_until now s)
              c.no_error))

  module _ (first registered : Option (Hook R)) (o : Outcome R) (j : Job) (progress : ℕ)
      (log finished : Text) (s : Store R) where
    abbrev pub left : Store R
    left = (after_run first registered o j progress log finished s).0

    -- Once the end of a job is stored, a submission on keys that it held, none of them empty, is
    -- accepted, where its kind has the room it needs, the engine is not shutting down, its
    -- hooks succeed on what the end has left, its id is new and the instance, the schedule and the
    -- user that it names are still there after them; and then it holds each key.
    pub submit-chained :
        (parents : Parents R) (space : FreeSpace) (floor : ℕ) (draining : Bool) (spec : Spec R)
        (id owner lease_until now : Text) (r : R)
        → Run s
        → In j s.jobs
        → (after_run first registered o j progress log finished s).1 ≡ true
        → ((k : Text)
            → In k (spec.lock_key ∷ spec.lock_keys)
            → (is_empty k ≡ false) × (lock_holder k s ≡ some j.id))
        → check_disk_room space floor spec.kind ≡ none
        → draining ≡ false
        → claim_hook spec id left.rest ≡ some r
        → find_job id left.jobs ≡ none
        → Parented parents r (new_job spec id)
        → ((submit parents space floor draining spec id owner lease_until now left).1 ≡ none)
          × ((k : Text)
              → In k (spec.lock_key ∷ spec.lock_keys)
              → In
                  (k, id)
                  (submit parents space floor draining spec id owner lease_until now left).0.locks)
    submit-chained parents space floor draining spec id owner lease_until now r h i e u q d g f p =
        let st =
          stored (finish_run_lem first registered o j progress log finished s (Run-Reachable s h) i)
            e in
        let usable : (k : Text) → In k (spec.lock_key ∷ spec.lock_keys) → Usable left.locks k =
          λ k m.
            let (n, l) = u k m in
            (n, st.freed k ∙ ground (arith, l, (text_eq_iff j.id j.id).1 refl)) in
        let none_error =
          submit-free parents space floor draining spec id owner lease_until now left q d usable r g
            f p in
        elim (submit_lem parents space floor draining spec id owner lease_until now left) [
          | inr (e, x, y, z) ↦ cc (none_error, x)
          | inl a ↦ (
            none_error,
            λ k m.
                subst (λ (t : Store R). In (k, id) t.locks) (sym a.stored)
                  (a.claimed.locked.taken k ((In-lock_keys spec.lock_key spec.lock_keys k).1 m)),
          )
        ]
      where
        stored :
            Stored first registered o j progress log finished s
              ⊎ ((after_run first registered o j progress log finished s ≡ (s, false))
                  × (all_hooks first registered o j progress log finished s ≡ none))
            → (after_run first registered o j progress log finished s).1 ≡ true
            → Stored first registered o j progress log finished s
        stored (inl st) e = st
        stored (inr (x, y)) e = cc (e, ap (λ (p : Store R × Bool). p.1) x)
