-- ===== src/Scheduler/Calendar.antt =====
-- internal/scheduler/scheduler.go: `NextRun`, over the parser of cron expressions and the zones.
pub mod Later
use valmin.Shared.{
  ℕ, ◌≡◌, refl, sym, ap, ◌∙◌, ◌<◌, ◌⊎◌, inl, inr, Bool, true, false, not, ◌&&◌, ◌||◌, Option, none,
  some, arith, Text, if◌then◌else◌, ltb, ltb→lt, ◌==◌, Bool-cases, Option-cases,
}

-- What a wall clock shows, to the minute.
pub record Wall : Type 0 where
  pub date : ℕ
  pub hour : ℕ
  pub minute : ℕ

-- The packages `time` and `cron`: the zones by name, the zone that keeps another's offset at an
-- instant, what a zone's clock shows, the instant that a wall time names in a zone, the parser
-- and `Next`. The zero time is 0.
pub record Calendar (Zone Cron : Type 0) : Type 0 where
  pub load : Text → Option Zone
  pub fixed : Zone → ℕ → Zone
  pub wall : Zone → ℕ → Wall
  pub instant : Zone → Wall → ℕ
  pub parse_cron : Text → Option Cron
  pub next : Cron → Zone → ℕ → ℕ

pub data NextError : Type 0 where
  bad_zone bad_cron never_fires : NextError

pub data NextAnswer : Type 0 where
  at : ℕ → NextAnswer
  refused : NextError → NextAnswer

-- `sameWallClock`.
abbrev pub same_wall_clock : Wall → Wall → Bool
same_wall_clock a b = a.date == b.date && a.hour == b.hour && a.minute == b.minute

module _ {Zone Cron : Type 0} (cal : Calendar Zone Cron) where
  -- The second showing of an hour that the clocks repeat is skipped.
  abbrev pub skip_repeated : Cron → Zone → Option ℕ → ℕ → ℕ
  skip_repeated sched loc none n = n
  skip_repeated sched loc (some last) n =
      if same_wall_clock (cal.wall loc n) (cal.wall loc last) then cal.next sched loc n else n

  abbrev pub differs : Wall → Wall → Bool
  differs a b = not (a.hour == b.hour) || not (a.minute == b.minute)

  -- Whether the wall clock never showed what an instant shows at the old offset.
  abbrev pub erased : Zone → Zone → ℕ → Bool
  erased loc old early =
      differs (cal.wall loc (cal.instant loc (cal.wall old early))) (cal.wall old early)

  -- An occurrence in an hour that the clocks leave out fires at the jump.
  abbrev pub in_gap : Zone → Zone → ℕ → ℕ → ℕ → ℕ
  in_gap loc old after early n =
      if not (early == 0) && ltb early n && erased loc old early && ltb after early
      then early
      else n

  next_of : Option ℕ → ℕ → Zone → Cron → ℕ → NextAnswer
  next_of last after loc sched n =
      if n == 0
      then refused never_fires
      else at (
          in_gap loc (cal.fixed loc after) after (cal.next sched (cal.fixed loc after) after)
            (skip_repeated sched loc last n))

  next_in : Option Zone → Option Cron → ℕ → Option ℕ → NextAnswer
  unfolding next_of
  next_in none sched after last = refused bad_zone
  next_in (some loc) none after last = refused bad_cron
  next_in (some loc) (some sched) after last =
      next_of last after loc sched (cal.next sched loc after)

  -- `NextRun`.
  unfoldable pub next_run : (cron zone : Text) → ℕ → Option ℕ → NextAnswer
  unfolding next_in
  next_run cron zone after last = next_in (cal.load zone) (cal.parse_cron cron) after last

  -- `Next` answers the zero time or one after the instant that it is given.
  abbrev pub Later : Type 0
  Later =
      (sched : Cron) (loc : Zone) (t : ℕ) → (cal.next sched loc t ≡ 0) ⊎ (t < cal.next sched loc t)
