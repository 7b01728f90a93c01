-- ===== src/Jobs/Ends.antt =====
-- What a finish does about the other tables.
use valmin.Shared.{◌≡◌, refl, ◌⊎◌, inl, inr, true, false, Option, none, some, Text, Option-cases}
use valmin.Jobs.{Store, Finish, finish_job, finish_hook}

module _ {R : Type 0} where
  -- A finish is stored with what its hook leaves, or the hook fails and nothing is.
  pub finish_job_cases :
      (on_finish : R → Option R) (id : Text) (f : Finish) (s : Store R)
      → (((finish_job on_finish id f s).1 ≡ true)
          × (on_finish s.rest ≡ some (finish_job on_finish id f s).0.rest))
        ⊎ ((finish_job on_finish id f s ≡ (s, false)) × (on_finish s.rest ≡ none))
  unfolding finish_job finish_hook
  finish_job_cases on_finish id f s = elim (Option-cases (on_finish s.rest)) [
    | inl e ↦ inr (rw e refl, e)
    | inr (r, e) ↦ inl (rw e refl, rw e refl)
  ]
