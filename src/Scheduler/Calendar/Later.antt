-- ===== src/Scheduler/Calendar/Later.antt =====
-- The next run comes after the instant that it is computed from.
use mathlib.Core.Path.{subst}
use valmin.Shared.{
  ℕ, ◌≡◌, ◌<◌, ◌⊎◌, inl, inr, Bool, not, ◌&&◌, Option, none, some, arith, Text, ltb, ◌==◌,
  Bool-cases, Option-cases, if◌then◌else◌,
}
use valmin.Scheduler.Calendar.{
  Calendar, at, next_of, next_in, next_run, skip_repeated, Later, same_wall_clock, erased,
}

at-injective : {a b : ℕ} → at a ≡ at b → a ≡ b
at-injective e = cc e

module _ {Zone Cron : Type 0} (cal : Calendar Zone Cron) where
  LaterOrZero : ℕ → ℕ → Type 0
  LaterOrZero after n = (n ≡ 0) ⊎ (after < n)

  skip_repeated-LaterOrZero :
      (sched : Cron) (loc : Zone) (last : Option ℕ) (after n : ℕ)
      → Later cal
      → after < n
      → LaterOrZero after (skip_repeated cal sched loc last n)
  unfolding LaterOrZero
  skip_repeated-LaterOrZero sched loc none after n h l = inr l
  skip_repeated-LaterOrZero sched loc (some last) after n h l =
      elim (Bool-cases (same_wall_clock (cal.wall loc n) (cal.wall loc last))) [
        | inr e ↦ rw e (inr l)
        | inl e ↦ rw e (elim (h sched loc n) [ inl z ↦ inl z | inr k ↦ inr (ground (arith, l, k)) ])
      ]

  pick-LaterOrZero :
      (x y z : Bool) (after early n : ℕ)
      → LaterOrZero after n
      → LaterOrZero after (if x && y && z && ltb after early then early else n)
  unfolding LaterOrZero
  pick-LaterOrZero x y z after early n h = elim (Bool-cases (x && y && z && ltb after early)) [
    | inl e ↦ rw e (inr (ground (arith, e)))
    | inr e ↦ rw e h
  ]

  next_of-LaterOrZero :
      (last : Option ℕ) (after : ℕ) (loc : Zone) (sched : Cron) (n m : ℕ)
      → Later cal
      → (n ≡ 0) ⊎ (after < n)
      → next_of cal last after loc sched n ≡ at m
      → LaterOrZero after m
  unfolding next_of
  next_of-LaterOrZero last after loc sched n m h l e = elim (Bool-cases (n == 0)) [
    | inl z ↦ cc (rw z at e)
    | inr z ↦
        let late : after < n = elim l [ inl q ↦ ground (arith, z, q) | inr q ↦ q ] in
        let old = cal.fixed loc after in
        let early = cal.next sched old after in
        let picked =
          pick-LaterOrZero (not (early == 0)) (ltb early (skip_repeated cal sched loc last n))
            (erased cal loc old early) after early (skip_repeated cal sched loc last n)
            (skip_repeated-LaterOrZero sched loc last after n h late) in
        subst (LaterOrZero after) (at-injective (rw z at e)) picked
  ]

  -- A next run comes after the instant that it is computed from, whether an hour was skipped or
  -- repeated, if cron's own answers do so or are the zero time; the answer can then be the zero
  -- time too.
  pub next_run_later :
      (cron zone : Text) (after : ℕ) (last : Option ℕ) (n : ℕ)
      → Later cal
      → next_run cal cron zone after last ≡ at n
      → (n ≡ 0) ⊎ (after < n)
  unfolding next_run next_in LaterOrZero
  next_run_later cron zone after last n h e = elim (Option-cases (cal.load zone)) [
    | inl f ↦ cc (rw f at e)
    | inr (loc, f) ↦ elim (Option-cases (cal.parse_cron cron)) [
      | inl g ↦ cc (rw (f, g) at e)
      | inr (sched, g) ↦
          next_of-LaterOrZero last after loc sched (cal.next sched loc after) n h
            (h sched loc after) (rw (f, g) at e)
    ]
  ]
