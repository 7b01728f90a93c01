-- ===== src/Scheduler/Tick/Fired.antt =====
-- One run for each time that a schedule comes due, whatever changes the rows meanwhile.
use mathlib.Core.Path.{subst}
use valmin.Shared.{
  ℕ, ◌≡◌, refl, sym, ap, ◌∙◌, ◌<◌, ◌≤◌, ◌↔◌, ◌⊎◌, inl, inr, Bool, true, false, List, [], ◌∷◌,
  Option, none, some, arith, Text, text_eq, ◌==◌, Bool-cases, Option-cases, text_eq_iff,
}
use valmin.Scheduler.{
  Schedule, same_instant, find_schedule, update_schedules, mark_schedule_run, State, Hooks,
}
use valmin.Scheduler.Calendar.{Calendar, NextAnswer, NextError, at, refused, next_run, Later}
use valmin.Scheduler.Calendar.Later.{next_run_later}
use valmin.Scheduler.Tick.{
  hold, same_row, still_due, enqueued, after_hold, fire_row, fire_next, fire,
}
use valmin.Scheduler.Tick.Held.{Waits, hold_iff, hold-ran, end_hold-ran}

some-injective : {A : Type 0} {a b : A} → some a ≡ some b → a ≡ b
some-injective e = cc e

-- After the mark no row of that id has the time that was read.
marked_apart :
    (id : Text) (read last next : ℕ) (rows : List Schedule) (r : Schedule)
    → (next == read) ≡ false
    → find_schedule id (mark_schedule_run id (some read) last next rows) ≡ some r
    → same_instant r.next_run_at (some read) ≡ false
unfolding mark_schedule_run update_schedules
marked_apart id read last next [] r n e = cc e
marked_apart id read last next (x ∷ rows) r n e = elim (Bool-cases (text_eq x.id id)) [
  | inr b ↦ marked_apart id read last next rows r n (simp b at e)
  | inl b ↦ elim (Bool-cases (same_instant x.next_run_at (some read))) [
    | inl c ↦
        let q : record x { last_run_at = some last; next_run_at = some next; deferred_since = none }
            ≡ r =
          some-injective (simp (b, c) at e) in
        subst (λ (y : Schedule). same_instant y.next_run_at (some read) ≡ false) q n
    | inr c ↦
        let q : x ≡ r = some-injective (simp (b, c) at e) in
        subst (λ (y : Schedule). same_instant y.next_run_at (some read) ≡ false) q c
  ]
]

still_due_apart :
    (sc : Schedule) (read last next : ℕ) (rows : List Schedule)
    → (next == read) ≡ false
    → sc.next_run_at ≡ some read
    → still_due sc (mark_schedule_run sc.id (some read) last next rows) ≡ false
unfolding still_due
still_due_apart sc read last next rows n e =
    elim (Option-cases (find_schedule sc.id (mark_schedule_run sc.id (some read) last next rows))) [
      | inl f ↦ rw f refl
      | inr (r, f) ↦
          let a = marked_apart sc.id read last next rows r n f in
          let b : same_instant r.next_run_at sc.next_run_at ≡ false = rw e a in
          rw f (ground (arith, b))
    ]

-- The row is there as it was read: enabled, with the same expression, zone and next run.
pub record Unchanged (sc : Schedule) (rows : List Schedule) : Type 0 where
  pub row : Schedule
  pub stored : find_schedule sc.id rows ≡ some row
  pub is_enabled : row.enabled ≡ true
  pub same_cron : row.cron ≡ sc.cron
  pub same_zone : row.timezone ≡ sc.timezone
  pub same_next : row.next_run_at ≡ sc.next_run_at

same_instant_iff : (a b : Option ℕ) → (same_instant a b ≡ true) ↔ (a ≡ b)
same_instant_iff none none = ((λ h. refl), λ h. refl)
same_instant_iff none (some y) = ((λ h. cc h), λ h. cc h)
same_instant_iff (some x) none = ((λ h. cc h), λ h. cc h)
same_instant_iff (some x) (some y) = (
  (λ h. ap (λ (n : ℕ). some n) (ground (arith, h))),
  λ h. let e = some-injective h in ground (arith, e),
)

same_row_iff :
    (sc r : Schedule)
    → (same_row sc (some r) ≡ true) ↔ (
        (r.enabled ≡ true)
        × (r.cron ≡ sc.cron)
        × (r.timezone ≡ sc.timezone)
        × (r.next_run_at ≡ sc.next_run_at))
same_row_iff sc r =
    let (c, c') = text_eq_iff r.cron sc.cron in
    let (z, z') = text_eq_iff r.timezone sc.timezone in
    let (n, n') = same_instant_iff r.next_run_at sc.next_run_at in
    (
      (λ h.
          (ground (arith, h), c (ground (arith, h)), z (ground (arith, h)), n (ground (arith, h)))),
      (λ (e, p, q, x). let a = c' p in let b = z' q in let d = n' x in rw (e, a, b, d) refl),
    )

still_due_iff :
    (sc : Schedule) (rows : List Schedule) → (still_due sc rows ≡ true) ↔ Unchanged sc rows
unfolding still_due
still_due_iff sc rows = elim (Option-cases (find_schedule sc.id rows)) [
  | inl f ↦ ((λ h. cc (rw f at h)), (λ u. cc (u.stored, f)))
  | inr (r, f) ↦ (
    (λ h.
        let (e, c, z, n) = (same_row_iff sc r).0 (rw f at h) in
        record {
          row = r;
          stored = f;
          is_enabled = e;
          same_cron = c;
          same_zone = z;
          same_next = n;
        }),
    (λ u.
        let same : r ≡ u.row = some-injective (sym f ∙ u.stored) in
        let k = (same_row_iff sc u.row).1 (u.is_enabled, u.same_cron, u.same_zone, u.same_next) in
        rw (f, same) k),
  )
]

answer_cases : (a : NextAnswer) → ((e : NextError) × (a ≡ refused e)) ⊎ ((n : ℕ) × (a ≡ at n))
answer_cases (refused e) = inl (e, refl)
answer_cases (at n) = inr (n, refl)

module _ {Zone Cron : Type 0} (cal : Calendar Zone Cron) (hooks : Hooks)
    (enqueue : Schedule → List Schedule → List Schedule) where
  after_hold-stale :
      (sc : Schedule) (now next : ℕ) (s : State) (p : Bool × State)
      → ((p.0 ≡ true) ⊎ (p ≡ (false, s)))
      → p.1.ran ≡ s.ran
      → still_due sc s.rows ≡ false
      → (after_hold cal hooks enqueue sc now next p).ran ≡ s.ran
  unfolding after_hold
  after_hold-stale sc now next s (true, t) h e d = e
  after_hold-stale sc now next s (false, t) (inl h) e d = cc h
  after_hold-stale sc now next s (false, t) (inr h) e d =
      let q : t ≡ s = ap (λ (p : Bool × State). p.1) h in
      let f : still_due sc t.rows ≡ false = rw q d in rw f e

  -- A copy of a row that has changed runs nothing.
  fire-stale :
      (sc : Schedule) (read now : ℕ) (s : State)
      → sc.next_run_at ≡ some read
      → still_due sc s.rows ≡ false
      → (fire cal hooks enqueue sc now s).ran ≡ s.ran
  unfolding fire fire_next fire_row
  fire-stale sc read now s e d = answered (next_run cal sc.cron sc.timezone now sc.next_run_at)
    where
      row :
          (d : Option ℕ) (next : ℕ)
          → d ≡ some read
          → (fire_row cal hooks enqueue d sc now next s).ran ≡ s.ran
      row none next q = cc q
      row (some x) next q =
          after_hold-stale sc now next s (hold hooks sc now s) (hold_iff hooks sc now s).1
            (hold-ran hooks sc now s) d

      answered : (a : NextAnswer) → (fire_next cal hooks enqueue a sc now s).ran ≡ s.ran
      answered (refused x) = refl
      answered (at next) = row sc.next_run_at next e

  fire_row-some :
      (d : Option ℕ) (sc : Schedule) (read now next : ℕ) (s : State)
      → d ≡ some read
      → fire_row cal hooks enqueue d sc now next s
        ≡ after_hold cal hooks enqueue sc now next (hold hooks sc now s)
  unfolding fire_row
  fire_row-some none sc read now next s e = cc e
  fire_row-some (some x) sc read now next s e = refl

  after_hold-held :
      (sc : Schedule) (now next : ℕ) (p : Bool × State)
      → p.0 ≡ true
      → after_hold cal hooks enqueue sc now next p ≡ p.1
  unfolding after_hold
  after_hold-held sc now next (true, s) h = refl
  after_hold-held sc now next (false, s) h = cc h

  enqueued-stale :
      (sc : Schedule) (read now next : ℕ) (s : State)
      → sc.next_run_at ≡ some read
      → (next == read) ≡ false
      → still_due sc (enqueued cal hooks enqueue sc now next s).rows ≡ false
  unfolding enqueued
  enqueued-stale sc read now next s e n =
      let rows = enqueue sc s.rows in
      ap (still_due sc) (
        (end_hold-ran hooks sc sc.deferred_since (record s {
          ran = sc ∷ s.ran;
          rows = mark_schedule_run sc.id sc.next_run_at now next rows;
        })).1)
      ∙ ap (λ (d : Option ℕ). still_due sc (mark_schedule_run sc.id d now next rows)) e
      ∙ still_due_apart sc read now next rows n e

  enqueued-ran :
      (sc : Schedule) (now next : ℕ) (s : State)
      → (enqueued cal hooks enqueue sc now next s).ran ≡ sc ∷ s.ran
  unfolding enqueued
  enqueued-ran sc now next s =
      (end_hold-ran hooks sc sc.deferred_since (record s {
        ran = sc ∷ s.ran;
        rows = mark_schedule_run sc.id sc.next_run_at now next (enqueue sc s.rows);
      })).0

  module _ (sc : Schedule) (now : ℕ) (s : State) where
    -- What a fire of a row as it was read has come to.
    pub data Fired (t : State) : Type 0 where
      unread :
          (e : NextError)
          → next_run cal sc.cron sc.timezone now sc.next_run_at ≡ refused e
          → t ≡ s
          → Fired t
      waiting : Waits hooks sc now → t ≡ (hold hooks sc now s).1 → t.ran ≡ s.ran → Fired t
      stale : ¬ Waits hooks sc now → ¬ Unchanged sc s.rows → t ≡ s → Fired t
      runs :
          ¬ Waits hooks sc now
          → Unchanged sc s.rows
          → t.ran ≡ sc ∷ s.ran
          → ((later : ℕ) → (fire cal hooks enqueue sc later t).ran ≡ t.ran)
          → Fired t

    fired_free :
        (read next : ℕ)
        → sc.next_run_at ≡ some read
        → (next == read) ≡ false
        → ¬ Waits hooks sc now
        → Fired (after_hold cal hooks enqueue sc now next (false, s))
    unfolding after_hold
    fired_free read next e n w = elim (Bool-cases (still_due sc s.rows)) [
      | inr d ↦ stale w (λ u. cc (d, (still_due_iff sc s.rows).1 u)) (rw d refl)
      | inl d ↦ rw d (
          runs w ((still_due_iff sc s.rows).0 d) (enqueued-ran sc now next s) (λ later.
            fire-stale sc read later (enqueued cal hooks enqueue sc now next s) e
              (enqueued-stale sc read now next s e n)))
    ]

    fired_at :
        (read next : ℕ)
        → sc.next_run_at ≡ some read
        → (next == read) ≡ false
        → Fired (after_hold cal hooks enqueue sc now next (hold hooks sc now s))
    fired_at read next e n =
        let (iff, cases) = hold_iff hooks sc now s in
        elim cases [
          | inl h ↦
              let q = after_hold-held sc now next (hold hooks sc now s) h in
              waiting (iff.0 h) q (ap (λ (t : State). t.ran) q ∙ hold-ran hooks sc now s)
          | inr h ↦
              let free : ¬ Waits hooks sc now =
                λ w. cc (iff.1 w, ap (λ (p : Bool × State). p.0) h) in
              subst (λ (p : Bool × State). Fired (after_hold cal hooks enqueue sc now next p))
                (sym h) (fired_free read next e n free)
        ]

    -- The fire of a row that came due by now, whatever the enqueuer and others write to the rows
    -- meanwhile: nothing happens if its expression is not readable, or if its row is gone, is not
    -- enabled, or has another expression, zone or next run than was read; nothing runs while it
    -- waits for its players; and else it runs, once: firing the same copy again, at any time, runs
    -- nothing.
    pub fire-once :
        (read : ℕ)
        → Later cal
        → sc.next_run_at ≡ some read
        → 0 < read
        → read ≤ now
        → Fired (fire cal hooks enqueue sc now s)
    unfolding fire fire_next
    fire-once read h e p l =
        elim (answer_cases (next_run cal sc.cron sc.timezone now sc.next_run_at)) [
          | inl (x, q) ↦
              unread x q (ap (λ (a : NextAnswer). fire_next cal hooks enqueue a sc now s) q)
          | inr (n, q) ↦
              let apart : (n == read) ≡ false =
                elim (next_run_later cal sc.cron sc.timezone now sc.next_run_at n h q) [
                  | inl z ↦ ground (arith, z, p)
                  | inr k ↦ ground (arith, k, l)
                ] in
              subst Fired
                (sym (
                  ap (λ (a : NextAnswer). fire_next cal hooks enqueue a sc now s) q
                  ∙ fire_row-some sc.next_run_at sc read now n s e))
                (fired_at read n e apart)
        ]
