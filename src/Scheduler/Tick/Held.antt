-- ===== src/Scheduler/Tick/Held.antt =====
-- When a due run waits for players to leave, and that it does so for a bounded time.
use valmin.Shared.{
  ℕ, ◌≡◌, refl, ◌∙◌, ◌<◌, ◌+◌, ◌-◌, ◌↔◌, ◌⊎◌, inl, inr, Bool, true, false, Option, none, some,
  arith, Text, lookup, ltb, if◌then◌else◌, ◌==◌, Bool-cases, Option-cases,
}
use valmin.Scheduler.{
  Schedule, Tag, at_hold, at_deadline, warning, defer_schedule, Told, Sent, State, Hooks,
  start_send, take_send, mark_warned, warned_for, tell_held, final_warning_lead,
}
use valmin.Scheduler.Tick.{
  delivered_for, warn_unsent, warn_taken, final_warning, start_warning, cover_short, start_hold,
  is_over, hold_as, hold_occupied, hold, end_hold,
}

-- The row waits for its server to be empty, its players may be there, and the wait, if it has
-- begun, has not reached the longest that the schedule allows.
pub record Waits (hooks : Hooks) (sc : Schedule) (now : ℕ) : Type 0 where
  pub wants : sc.wait_for_empty ≡ true
  pub players :
      (occupied : Schedule → Bool) × (hooks.occupied ≡ some occupied) × (occupied sc ≡ true)
  pub in_time : (since : ℕ) → sc.deferred_since ≡ some since → now < since + sc.max_deferral

is_over_iff :
    (sc : Schedule) (now : ℕ) (d : Option ℕ)
    → (is_over sc now d ≡ false) ↔ ((since : ℕ) → d ≡ some since → now < since + sc.max_deferral)
is_over_iff sc now none = ((λ h since e. cc e), (λ h. refl))
is_over_iff sc now (some since) = (
  (λ h x e. let q : since ≡ x = cc e in rw (← q) (ground (arith, h))),
  (λ h. let k = h since refl in ground (arith, k)),
)

-- A due run is held exactly if its schedule waits for an empty server, players may be connected,
-- and a wait that has begun has not reached the longest one allowed; without a hold the state is as
-- it was.
pub hold_iff :
    (hooks : Hooks) (sc : Schedule) (now : ℕ) (s : State)
    → (((hold hooks sc now s).0 ≡ true) ↔ Waits hooks sc now)
      × (((hold hooks sc now s).0 ≡ true) ⊎ (hold hooks sc now s ≡ (false, s)))
unfolding hold hold_occupied
hold_iff hooks sc now s = elim (Bool-cases sc.wait_for_empty) [
  | inr e ↦ (((λ h. cc (rw e at h)), (λ w. cc (w.wants, e))), inr (rw e refl))
  | inl e ↦ elim (Option-cases hooks.occupied) [
    | inl f ↦ (
      ((λ h. cc (rw (e, f) at h)), (λ w. let (o, p, q) = w.players in cc (p, f))),
      inr (rw (e, f) refl),
    )
    | inr (o, f) ↦ elim (Bool-cases (is_over sc now sc.deferred_since)) [
      | inl g ↦ (
        (
          (λ h. cc (rw (e, f, g) at h)),
          (λ w. cc (g, (is_over_iff sc now sc.deferred_since).1 w.in_time)),
        ),
        inr (rw (e, f, g) refl),
      )
      | inr g ↦ elim (Bool-cases (o sc)) [
        | inr k ↦ (
          (
            (λ h. cc (simp (e, f, g, k) at h)),
            (λ w.
                let (p, q, r) = w.players in
                let same : p ≡ o = cc (q, f) in let t : o sc ≡ true = rw same at r in cc (t, k)),
          ),
          inr (simp (e, f, g, k)),
        )
        | inl k ↦ (
          (
            (λ h. record {
              wants = e;
              players = (o, f, k);
              in_time = (is_over_iff sc now sc.deferred_since).0 g;
            }),
            (λ w. simp (e, f, g, k)),
          ),
          inl (simp (e, f, g, k)),
        )
      ]
    ]
  ]
]

start_send-ran :
    (key : Text) (tag : Tag) (c : Told) (s : State) → (start_send key tag c s).ran ≡ s.ran
unfolding start_send
start_send-ran key tag c s = elim (Option-cases (lookup key s.running)) [
  | inl e ↦ rw e refl
  | inr (t, e) ↦ rw e refl
]

tell_held-ran : (hooks : Hooks) (sc : Schedule) (s : State) → (tell_held hooks sc s).ran ≡ s.ran
unfolding tell_held
tell_held-ran hooks sc s = elim (Bool-cases hooks.held) [ inl e ↦ rw e refl | inr e ↦ rw e refl ]

mark_warned-ran : (id : Text) (deadline : ℕ) (s : State) → (mark_warned id deadline s).ran ≡ s.ran
unfolding mark_warned
mark_warned-ran id deadline s = refl

warned_for-ran : (id : Text) (s : State) → (warned_for id s).1.ran ≡ s.ran
unfolding warned_for
warned_for-ran id s = elim (Option-cases (lookup id s.warned)) [
  | inl e ↦ rw e refl
  | inr (t, e) ↦ rw e refl
]

warn_unsent-ran :
    (sc : Schedule) (deadline now : ℕ) (p : ℕ × State)
    → (warn_unsent sc deadline now p).ran ≡ p.1.ran
unfolding warn_unsent
warn_unsent-ran sc deadline now (covered, s) = elim (Bool-cases (covered == deadline)) [
  | inl e ↦ rw e refl
  | inr e ↦ rw e (start_send-ran sc.id (at_deadline deadline) (warning sc (deadline - now)) s)
]

warn_taken-ran :
    (sc : Schedule) (deadline now : ℕ) (p : Option Sent × State)
    → (warn_taken sc deadline now p).ran ≡ p.1.ran
unfolding warn_taken
warn_taken-ran sc deadline now (r, s) = elim (Bool-cases (delivered_for deadline r)) [
  | inl e ↦ rw e (mark_warned-ran sc.id deadline s)
  | inr e ↦ elim (Bool-cases (ltb (now + final_warning_lead) deadline)) [
    | inl f ↦ rw (e, f) refl
    | inr f ↦
        rw (e, f) (warn_unsent-ran sc deadline now (warned_for sc.id s) ∙ warned_for-ran sc.id s)
  ]
]

final_warning-ran :
    (hooks : Hooks) (sc : Schedule) (deadline now : ℕ) (s : State)
    → (final_warning hooks sc deadline now s).ran ≡ s.ran
unfolding final_warning take_send
final_warning-ran hooks sc deadline now s = elim (Bool-cases hooks.warn) [
  | inl e ↦ rw e (warn_taken-ran sc deadline now (take_send sc.id s))
  | inr e ↦ rw e refl
]

start_warning-ran :
    (hooks : Hooks) (sc : Schedule) (s : State) → (start_warning hooks sc s).ran ≡ s.ran
unfolding start_warning
start_warning-ran hooks sc s = elim (Bool-cases hooks.warn) [
  | inl e ↦ rw e (start_send-ran sc.id at_hold (warning sc sc.max_deferral) s)
  | inr e ↦ rw e refl
]

cover_short-ran : (sc : Schedule) (now : ℕ) (s : State) → (cover_short sc now s).ran ≡ s.ran
unfolding cover_short
cover_short-ran sc now s = elim (Bool-cases (ltb final_warning_lead sc.max_deferral)) [
  | inl e ↦ rw e refl
  | inr e ↦ rw e (mark_warned-ran sc.id (now + sc.max_deferral) s)
]

start_hold-ran :
    (hooks : Hooks) (sc : Schedule) (now : ℕ) (s : State) → (start_hold hooks sc now s).ran ≡ s.ran
unfolding start_hold
start_hold-ran hooks sc now s =
    let row = record sc { deferred_since = some now } in
    let kept = record s { rows = defer_schedule sc.id now s.rows } in
    cover_short-ran row now (start_warning hooks row (tell_held hooks row kept))
    ∙ start_warning-ran hooks row (tell_held hooks row kept)
    ∙ tell_held-ran hooks row kept

hold_as-ran :
    (hooks : Hooks) (sc : Schedule) (now : ℕ) (d : Option ℕ) (s : State)
    → (hold_as hooks sc now d s).ran ≡ s.ran
unfolding hold_as
hold_as-ran hooks sc now none s = start_hold-ran hooks sc now s
hold_as-ran hooks sc now (some since) s = final_warning-ran hooks sc (since + sc.max_deferral) now s

hold_occupied-ran :
    (hooks : Hooks) (o : Option (Schedule → Bool)) (sc : Schedule) (now : ℕ) (s : State)
    → (hold_occupied hooks o sc now s).1.ran ≡ s.ran
unfolding hold_occupied
hold_occupied-ran hooks none sc now s = refl
hold_occupied-ran hooks (some o) sc now s = elim (Bool-cases (is_over sc now sc.deferred_since)) [
  | inl e ↦ rw e refl
  | inr e ↦ elim (Bool-cases (o sc)) [
    | inl f ↦ rw (e, f) (hold_as-ran hooks sc now sc.deferred_since s)
    | inr f ↦ rw (e, f) refl
  ]
]

-- A hold runs nothing.
pub hold-ran :
    (hooks : Hooks) (sc : Schedule) (now : ℕ) (s : State) → (hold hooks sc now s).1.ran ≡ s.ran
unfolding hold
hold-ran hooks sc now s = either sc.wait_for_empty
  where
    either :
        (b : Bool)
        → (if b then hold_occupied hooks hooks.occupied sc now s else (false, s)).1.ran ≡ s.ran
    either true = hold_occupied-ran hooks hooks.occupied sc now s
    either false = refl

pub end_hold-ran :
    (hooks : Hooks) (sc : Schedule) (d : Option ℕ) (s : State)
    → ((end_hold hooks sc d s).ran ≡ s.ran) × ((end_hold hooks sc d s).rows ≡ s.rows)
unfolding end_hold tell_held
end_hold-ran hooks sc none s = (refl, refl)
end_hold-ran hooks sc (some since) s = elim (Bool-cases hooks.held) [
  | inl e ↦ rw e (refl, refl)
  | inr e ↦ rw e (refl, refl)
]
