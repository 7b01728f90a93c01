-- ===== src/Alerts/Evaluate/Reported.antt =====
-- internal/alerts/evaluate.go: exactly which conditions an evaluation reports.
use valmin.Shared.{
  ℕ, ◌+◌, ◌≤◌, ◌<◌, ◌≡◌, ◌≢◌, refl, ◌↔◌, ◌⊎◌, inl, inr, Bool, true, false, List, [], ◌∷◌, Option,
  none, some, arith, Text, codes, text_eq, text_eq_iff, if◌then◌else◌, ltb, lookup, In, Bool-cases,
  zero, suc, ◌*◌, ap, ℤ, pos, negsuc,
}
use valmin.Alerts.{
  Kind, restart_required, stale_backup, update_available, instance_error, crash_loop, job_stuck,
  Params, Floats, positive_or, defaults,
}
use valmin.Alerts.Evaluate.{
  Condition, Instance, JobRow, BackupSchedule, Snapshot, deref, list_or_nil, append_one, condition,
  is_update, installed_of, available_of, update_available_of, recent, thresholds, crash_loop_of,
  per_instance_of, per_instance,
}
use valmin.Alerts.Evaluate.Evaluated.{
  In-append_one_iff, Is, Is-condition, Restart, Broken, Update, is_update_iff,
}

-- A test that guards a report.
guarded_iff :
    (b : Bool) (kind : Kind) (id : Text) (c : Condition)
    → ((if b then some (condition kind id) else none) ≡ some c) ↔ (Is c kind id × (b ≡ true))
guarded_iff true kind id c =
    ((λ h. ((Is-condition c kind id).0 h, refl)), (λ (i, e). (Is-condition c kind id).1 i))
guarded_iff false kind id c = ((λ h. cc h), λ (i, e). cc e)

Broken-iff :
    (inst : Instance) (c : Condition)
    → ((if text_eq inst.state (codes "error")
          then some (condition instance_error inst.id)
          else none)
        ≡ some c)
      ↔ Broken inst c
Broken-iff inst c =
    let g = guarded_iff (text_eq inst.state (codes "error")) instance_error inst.id c in
    let e = text_eq_iff inst.state (codes "error") in
    ((λ h. let (i, x) = g.0 h in (i, e.0 x)), (λ (i, x). g.1 (i, e.1 x)))

either_iff :
    {P Q : Type 0} (c : Condition) (o : Option Condition) (rest : List Condition)
    → ((o ≡ some c) ↔ P)
    → (In c rest ↔ Q)
    → In c (append_one o rest) ↔ (P ⊎ Q)
either_iff c o rest p q = (
  (λ h. elim ((In-append_one_iff c o rest).0 h) [ inl x ↦ inl (p.0 x) | inr y ↦ inr (q.0 y) ]),
  (λ h. (In-append_one_iff c o rest).1 (elim h [ inl x ↦ inl (p.1 x) | inr y ↦ inr (q.1 y) ])),
)

joined : {A B C D E : Type 0} → (A ⊎ B ⊎ C ⊎ D ⊎ E) → (A ⊎ B ⊎ C ⊎ D) ⊎ E
joined (inl a) = inl (inl a)
joined (inr (inl b)) = inl (inr (inl b))
joined (inr (inr (inl c))) = inl (inr (inr (inl c)))
joined (inr (inr (inr (inl d)))) = inl (inr (inr (inr d)))
joined (inr (inr (inr (inr e)))) = inr e

split : {A B C D E : Type 0} → (A ⊎ B ⊎ C ⊎ D) ⊎ E → A ⊎ B ⊎ C ⊎ D ⊎ E
split (inl (inl a)) = inl a
split (inl (inr (inl b))) = inr (inl b)
split (inl (inr (inr (inl c)))) = inr (inr (inl c))
split (inl (inr (inr (inr d)))) = inr (inr (inr (inl d)))
split (inr e) = inr (inr (inr (inr e)))

Update-iff :
    (s : Snapshot) (inst : Instance) (c : Condition)
    → ((if is_update (installed_of s inst) (available_of s inst)
          then some (condition update_available inst.id)
          else none)
        ≡ some c)
      ↔ Update s inst c
Update-iff s inst c =
    let g =
      guarded_iff (is_update (installed_of s inst) (available_of s inst)) update_available inst.id
        c in
    let e = is_update_iff (installed_of s inst) (available_of s inst) in
    ((λ h. let (i, x) = g.0 h in (i, e.0 x)), (λ (i, x). g.1 (i, e.1 x)))

-- A threshold: what the rule sets, where that is positive, and the fallback otherwise.
pub data Filled (fallback : ℕ) : ℤ → ℕ → Type 0 where
  given : (n : ℕ) → Filled fallback (pos (suc n)) (suc n)
  unset : Filled fallback (pos zero) fallback
  below_zero : (n : ℕ) → Filled fallback (negsuc n) fallback

pub positive_or-Filled : (fallback : ℕ) (z : ℤ) → Filled fallback z (positive_or fallback z)
positive_or-Filled fallback (pos zero) = unset
positive_or-Filled fallback (pos (suc n)) = given n
positive_or-Filled fallback (negsuc n) = below_zero n

pub Filled-positive_or :
    (fallback : ℕ) (z : ℤ) (n : ℕ) → Filled fallback z n → positive_or fallback z ≡ n
Filled-positive_or fallback z n (given m) = refl
Filled-positive_or fallback z n unset = refl
Filled-positive_or fallback z n (below_zero m) = refl

-- How many of the incidents lie after the window before now began.
pub data Recent (now window : ℕ) : List ℕ → ℕ → Type 0 where
  no_incident : Recent now window [] 0
  within :
      (at : ℕ) {rest : List ℕ} {n : ℕ}
      → now < at + window
      → Recent now window rest n
      → Recent now window (at ∷ rest) (suc n)
  outside :
      (at : ℕ) {rest : List ℕ} {n : ℕ}
      → at + window ≤ now
      → Recent now window rest n
      → Recent now window (at ∷ rest) n

recent-Recent : (now window : ℕ) (ats : List ℕ) → Recent now window ats (recent now window ats)
unfolding recent
recent-Recent now window [] = no_incident
recent-Recent now window (at ∷ rest) = elim (Bool-cases (ltb now (at + window))) [
  | inl e ↦ rw e (within at (ground (arith, e)) (recent-Recent now window rest))
  | inr e ↦ rw e (outside at (ground (arith, e)) (recent-Recent now window rest))
]

Recent-recent :
    (now window : ℕ) (ats : List ℕ) (n : ℕ) → Recent now window ats n → recent now window ats ≡ n
unfolding recent
Recent-recent now window ats n no_incident = refl
Recent-recent now window ats n (within at {rest = rest} {n = m} l r) =
    let e : ltb now (at + window) ≡ true = ground (arith, l) in
    rw e (ap (λ (k : ℕ). suc k) (Recent-recent now window rest m r))
Recent-recent now window ats n (outside at {rest = rest} {n = m} l r) =
    let e : ltb now (at + window) ≡ false = ground (arith, l) in
    rw e (Recent-recent now window rest m r)

module _ {F : Type 0} (fl : Floats F) (resolve : Kind → Text → Params F) (s : Snapshot) where
  -- The unexpected stops within the window reach the threshold; unset, these are half an hour and
  -- three.
  pub record CrashLoop (inst : Instance) (c : Condition) : Type 0 where
    pub is : Is c crash_loop inst.id
    pub count : ℕ
    pub window : ℕ
    pub stops : ℕ
    pub count_set : Filled 3 (resolve crash_loop inst.id).crash_count count
    pub window_set : Filled (1800 * 1000000000) (resolve crash_loop inst.id).crash_window window
    pub counted : Recent s.now window (list_or_nil (lookup inst.id s.incidents)) stops
    pub reached : count ≤ stops

  abbrev pub OfInstance : Instance → Condition → Type 0
  OfInstance inst c = Restart inst c ⊎ Broken inst c ⊎ Update s inst c ⊎ CrashLoop inst c

  -- The clock has considered the schedule, and its archives are none, or too far behind: by its
  -- factor where that is above one, and by two otherwise.
  abbrev pub Stale : BackupSchedule → Condition → Type 0
  Stale sc c =
      let factor = (resolve stale_backup sc.instance_id).stale_factor in
      Is c stale_backup sc.instance_id
      × (sc.last_run_at ≢ none)
      × ((n : ℕ) × (sc.interval ≡ pos (suc n)))
      × ((lookup sc.instance_id s.last_backups ≡ none)
          ⊎ ((fl.above_one factor ≡ true) × (fl.missed_below sc.missed factor ≡ false))
          ⊎ ((fl.above_one factor ≡ false) × (fl.missed_below sc.missed fl.two ≡ false)))

  -- The job has run for longer than the threshold; unset, an hour.
  abbrev pub Stuck : JobRow → Condition → Type 0
  Stuck j c =
      Is c job_stuck (deref j.instance_id)
      × ((at : ℕ) × (limit : ℕ) × (j.started_at ≡ some at)
          × Filled (3600 * 1000000000) (resolve job_stuck (deref j.instance_id)).stuck_after limit
          × (at + limit < s.now))

  crash_loop_iff :
      (inst : Instance) (c : Condition)
      → (crash_loop_of fl resolve s inst.id (thresholds fl resolve s crash_loop inst.id) ≡ some c)
        ↔ CrashLoop inst c
  unfolding crash_loop_of thresholds defaults
  crash_loop_iff inst c = (
    (λ h.
        let (i, l) = (by_count _ _).0 h in
        record {
          is = i;
          count = positive_or 3 params.crash_count;
          window = positive_or (1800 * 1000000000) params.crash_window;
          stops = recent s.now (positive_or (1800 * 1000000000) params.crash_window) incidents;
          count_set = positive_or-Filled 3 params.crash_count;
          window_set = positive_or-Filled (1800 * 1000000000) params.crash_window;
          counted =
              recent-Recent s.now (positive_or (1800 * 1000000000) params.crash_window) incidents;
          reached = l;
        }),
    (λ k.
        let a = Filled-positive_or 3 params.crash_count k.count k.count_set in
        let b = Filled-positive_or (1800 * 1000000000) params.crash_window k.window k.window_set in
        let n = Recent-recent s.now k.window incidents k.stops k.counted in
        let l : positive_or 3 params.crash_count
            ≤ recent s.now (positive_or (1800 * 1000000000) params.crash_window) incidents =
          rw (a, b, n) k.reached in
        (by_count _ _).1 (k.is, l)),
  )
    where
      params : Params F
      params = resolve crash_loop inst.id

      incidents : List ℕ
      incidents = list_or_nil (lookup inst.id s.incidents)

      by_count :
          (n k : ℕ)
          → ((if ltb n k then none else some (condition crash_loop inst.id)) ≡ some c)
            ↔ (Is c crash_loop inst.id × (k ≤ n))
      by_count n k = elim (Bool-cases (ltb n k)) [
        | inl e ↦ rw e ((λ h. cc h), λ (i, l). absurd (ground (arith, e, l)))
        | inr e ↦ rw e (
          (λ h. ((Is-condition c crash_loop inst.id).0 h, ground (arith, e))),
          (λ (i, l). (Is-condition c crash_loop inst.id).1 i),
        )
      ]

  per_instance_of_iff :
      (inst : Instance) (rest : List Condition) (c : Condition)
      → In c (per_instance_of fl resolve s inst rest) ↔ (OfInstance inst c ⊎ In c rest)
  unfolding per_instance_of update_available_of
  per_instance_of_iff inst rest c =
      let both = either_iff c _ _ (guarded_iff inst.needs_restart restart_required inst.id c) (
        either_iff c _ _ (Broken-iff inst c) (
          either_iff c _ _ (Update-iff s inst c)
            (either_iff c _ rest (crash_loop_iff inst c) ((λ h. h), λ h. h)))) in
      ((λ h. joined (both.0 h)), (λ h. both.1 (split h)))

  pub per_instance_iff :
      (insts : List Instance) (c : Condition)
      → In c (per_instance fl resolve s insts)
        ↔ ((inst : Instance) × In inst insts × OfInstance inst c)
  unfolding per_instance
  per_instance_iff [] c = ((λ h. absurd h), λ h. absurd h.1)
  per_instance_iff (inst ∷ insts) c = (
    (λ h. elim ((per_instance_of_iff inst (per_instance fl resolve s insts) c).0 h) [
      | inl x ↦ (inst, inl refl, x)
      | inr g ↦ let (i, j, x) = (per_instance_iff insts c).0 g in (i, inr j, x)
    ]),
    (λ (i, j, x). (per_instance_of_iff inst (per_instance fl resolve s insts) c).1 (elim j [
      | inl q ↦ inl (rw (← q) x)
      | inr k ↦ inr ((per_instance_iff insts c).1 (i, k, x))
    ])),
  )
