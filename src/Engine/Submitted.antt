-- ===== src/Engine/Submitted.antt =====
-- What a submission answers: the disk, the shutdown, the claim with its two hooks.
use valmin.Shared.{
  ℕ, ◌≡◌, refl, ap, ◌∙◌, sym, ◌⊎◌, inl, inr, Bool, true, false, Option, none, some, Text, ltb,
  Bool-cases, Option-cases,
}
use valmin.Kinds.{needs_disk_room}
use valmin.Jobs.{Store, ClaimError, Parents}
use valmin.Jobs.Claims.{Claimed, Refused, claim, claim_job_with_locks_lem}
use valmin.Engine.{
  Hook, run_hook, both_hooks, audit_hook, Spec, FreeSpace, not_read, unreadable, free, SubmitError,
  unread_space, shutting_down, low_disk, claim_failed, disk_error, check_disk_room, claim_hook,
  new_job, claim_answer, submit_with_room, submit,
}

-- The data root has room: no reading is set up, or what is free is not below the floor.
abbrev pub HasRoom : FreeSpace → ℕ → Type 0
HasRoom space floor = (space ≡ not_read) ⊎ ((n : ℕ) × (space ≡ free n) × (ltb n floor ≡ false))

-- The disk's own reasons to refuse.
pub data NoRoom : FreeSpace → ℕ → SubmitError → Type 0 where
  for_unread : {floor : ℕ} → NoRoom unreadable floor unread_space
  for_low : (n floor : ℕ) → ltb n floor ≡ true → NoRoom (free n) floor (low_disk n floor)

disk_error_lem :
    (space : FreeSpace) (floor : ℕ)
    → ((disk_error space floor ≡ none) × HasRoom space floor)
      ⊎ ((e : SubmitError) × (disk_error space floor ≡ some e) × NoRoom space floor e)
unfolding disk_error
disk_error_lem not_read floor = inl (refl, inl refl)
disk_error_lem unreadable floor = inr (unread_space, refl, for_unread)
disk_error_lem (free n) floor = elim (Bool-cases (ltb n floor)) [
  | inl e ↦ inr (low_disk n floor, rw e refl, for_low n floor e)
  | inr e ↦ inl (rw e refl, inr (n, refl, e))
]

module _ {R : Type 0} where
  pub claim_answer-none :
      (p : Store R × Option ClaimError) → p.1 ≡ none → claim_answer p ≡ (p.0, none)
  unfolding claim_answer
  claim_answer-none (s, none) e = refl
  claim_answer-none (s, some x) e = cc e

  claim_answer-some :
      (p : Store R × Option ClaimError) (x : ClaimError)
      → p.1 ≡ some x
      → claim_answer p ≡ (p.0, some (claim_failed x))
  unfolding claim_answer
  claim_answer-some (s, none) x e = cc e
  claim_answer-some (s, some y) x e = cc e

  pub both_hooks-some :
      (first second : Option (Hook R)) (r t : R)
      → both_hooks first second r ≡ some t
      → (m : R) × (run_hook first r ≡ some m) × (run_hook second m ≡ some t)
  both_hooks-some first second r t e = elim (Option-cases (run_hook first r)) [
    | inl n ↦ cc (rw n at e)
    | inr (m, f) ↦ (m, f, rw f at e)
  ]

  module _ (parents : Parents R) (space : FreeSpace) (floor : ℕ) (draining : Bool) (spec : Spec R)
      (id owner lease_until now : Text) (s : Store R) where
    abbrev pub answer : Store R × Option SubmitError
    answer = submit parents space floor draining spec id owner lease_until now s

    abbrev the_claim : Store R × Option ClaimError
    the_claim =
        claim parents (claim_hook spec id) (new_job spec id) spec.lock_keys owner lease_until now s

    -- A submission that went through.
    pub record Accepted : Type 0 where
      pub no_error : answer.1 ≡ none
      pub room : needs_disk_room spec.kind ≡ true → HasRoom space floor
      pub open_engine : draining ≡ false
      pub claimed :
          Claimed parents
            (claim_hook spec id)
            (new_job spec id)
            spec.lock_keys
            owner
            lease_until
            now
            s
      pub stored : answer.0 ≡ the_claim.0
      pub hooks :
          (m : R) × (run_hook spec.on_claim s.rest ≡ some m)
          × (run_hook (audit_hook spec.audit id) m ≡ some answer.0.rest)

    -- The errors of a submission, and what each of them says.
    pub data Rejected : SubmitError → Type 0 where
      for_disk :
          (e : SubmitError) → needs_disk_room spec.kind ≡ true → NoRoom space floor e → Rejected e
      for_shutdown : draining ≡ true → Rejected shutting_down
      for_claim :
          (e : ClaimError)
          → Refused parents
              (claim_hook spec id)
              (new_job spec id)
              spec.lock_keys
              owner
              lease_until
              now
              s
              e
          → Rejected (claim_failed e)

    check_disk_room_lem :
        ((check_disk_room space floor spec.kind ≡ none)
          × (needs_disk_room spec.kind ≡ true → HasRoom space floor))
        ⊎ ((e : SubmitError) × (check_disk_room space floor spec.kind ≡ some e) × Rejected e)
    unfolding check_disk_room
    check_disk_room_lem = elim (Bool-cases (needs_disk_room spec.kind)) [
      | inr n ↦ inl (rw n refl, λ y. cc (n, y))
      | inl y ↦ elim (disk_error_lem space floor) [
        | inl (e, r) ↦ inl (rw y e, λ z. r)
        | inr (e, q, n) ↦ inr (e, rw y q, for_disk e y n)
      ]
    ]

    -- A submission goes through: its kind needs no room or the data root has it, the engine is
    -- not shutting down, and the claim took all the locks and inserted the row, the caller's
    -- hook having run before the audit entry with the id of the job. Or it is refused with an
    -- error that tells the reason, and the store is as it was.
    pub submit_lem :
        Accepted ⊎ ((e : SubmitError) × (answer.1 ≡ some e) × (answer.0 ≡ s) × Rejected e)
    unfolding submit submit_with_room claim_answer claim_hook
    submit_lem = elim check_disk_room_lem [
      | inr (e, q, r) ↦ inr (e, rw q refl, rw q refl, r)
      | inl (q, room) ↦ elim (Bool-cases draining) [
        | inl d ↦ inr (shutting_down, rw (q, d) refl, rw (q, d) refl, for_shutdown d)
        | inr d ↦
            let whole : answer ≡ claim_answer the_claim = rw (q, d) refl in
            elim (claim_job_with_locks_lem parents (claim_hook spec id) (new_job spec id)
              spec.lock_keys owner lease_until now s) [
                | inl c ↦
                    let a : answer ≡ (the_claim.0, none) =
                      whole ∙ claim_answer-none the_claim c.no_error in
                    let kept = ap (λ (p : Store R × Option SubmitError). p.0) a in
                    let (m, f, g) =
                      both_hooks-some spec.on_claim (audit_hook spec.audit id) s.rest
                        the_claim.0.rest c.hooked in
                    inl (record {
                      no_error = ap (λ (p : Store R × Option SubmitError). p.1) a;
                      room = room;
                      open_engine = d;
                      claimed = c;
                      stored = kept;
                      hooks = (m, f, g ∙ ap (λ (t : Store R). some t.rest) (sym kept));
                    })
                | inr (e, x, y, r) ↦
                    let a : answer ≡ (the_claim.0, some (claim_failed e)) =
                      whole ∙ claim_answer-some the_claim e x in
                    inr (
                      claim_failed e,
                      ap (λ (p : Store R × Option SubmitError). p.1) a,
                      ap (λ (p : Store R × Option SubmitError). p.0) a ∙ y,
                      for_claim e r,
                    )
              ]
      ]
    ]
