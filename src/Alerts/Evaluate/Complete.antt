-- ===== src/Alerts/Evaluate/Complete.antt =====
-- internal/alerts/evaluate.go: Evaluate reports what is true, and all of it.
use valmin.Shared.{
  ℕ, ◌+◌, ◌<◌, ◌≡◌, ◌≢◌, refl, ◌↔◌, ◌⊎◌, inl, inr, true, List, ◌++◌, Option, none, some, arith,
  Text, if◌then◌else◌, leb, lookup, In, Bool-cases, Option-cases, In-append, In-append_left,
  In-append_right, zero, suc, ◌*◌, false, ℤ, pos, negsuc,
}
use valmin.Alerts.{
  Kind, stale_backup, job_stuck, backup_attention, Params, Floats, positive_or, defaults,
}
use valmin.Alerts.Evaluate.{
  Condition, Instance, JobRow, BackupSchedule, Snapshot, deref, collect, condition, failed_job,
  unclean_job, is_positive, is_some, flagged, thresholds, stale_schedule, stuck_since, stuck_job,
  evaluate,
}
use valmin.Alerts.Evaluate.Evaluated.{
  In-collect_iff, Is, Is-condition, LowDisk, Failed, Unclean, LowDisk-iff, Failed-iff, Unclean-iff,
}
use valmin.Alerts.Evaluate.Reported.{
  OfInstance, positive_or-Filled, Filled-positive_or, Stale, Stuck, per_instance_iff,
}

In-append_iff :
    {P Q : Type 0} (c : Condition) (xs ys : List Condition)
    → (In c xs ↔ P)
    → (In c ys ↔ Q)
    → In c (xs ++ ys) ↔ (P ⊎ Q)
In-append_iff c xs ys p q = (
  (λ h. elim (In-append c xs ys h) [ inl x ↦ inl (p.0 x) | inr y ↦ inr (q.0 y) ]),
  (λ h. elim h [
    | inl x ↦ In-append_left c xs ys (p.1 x)
    | inr y ↦ In-append_right c xs ys (q.1 y)
  ]),
)

-- A loop over a list, where each element is reported exactly if a statement holds of it.
each_iff :
    {A : Type 0} (one : A → Option Condition) (P : A → Condition → Type 0)
    → ((a : A) (c : Condition) → (one a ≡ some c) ↔ P a c)
    → (xs : List A) (c : Condition) → In c (collect one xs) ↔ ((a : A) × In a xs × P a c)
each_iff one P h xs c = (
  (λ i. let (a, j, e) = (In-collect_iff one c xs).0 i in (a, j, (h a c).0 e)),
  (λ (a, j, x). (In-collect_iff one c xs).1 (a, j, (h a c).1 x)),
)

none_test : (o : Option ℕ) → (is_some o ≡ true) ↔ (o ≢ none)
none_test none = ((λ h e. cc h), λ h. absurd (h refl))
none_test (some n) = ((λ h e. cc e), λ h. refl)

pos_eq : {a b : ℕ} → pos a ≡ pos b → a ≡ b
pos_eq e = cc e

is_positive_iff : (z : ℤ) → (is_positive z ≡ true) ↔ ((n : ℕ) × (z ≡ pos (suc n)))
is_positive_iff (pos zero) = ((λ h. cc h), λ (n, e). let q : 0 ≡ suc n = pos_eq e in cc q)
is_positive_iff (pos (suc n)) = ((λ h. (n, refl)), λ h. refl)
is_positive_iff (negsuc n) = ((λ h. cc h), λ (m, e). cc e)

module _ {F : Type 0} (fl : Floats F) (resolve : Kind → Text → Params F) (s : Snapshot) where
  -- The two by the thresholds as the code fills them in.
  abbrev StaleAt : BackupSchedule → Condition → Type 0
  StaleAt sc c =
      Is c stale_backup sc.instance_id
      × (sc.last_run_at ≢ none)
      × (is_positive sc.interval ≡ true)
      × ((lookup sc.instance_id s.last_backups ≡ none)
          ⊎ (fl.missed_below sc.missed
                (thresholds fl resolve s stale_backup sc.instance_id).stale_factor
              ≡ false))

  abbrev StuckAt : JobRow → Condition → Type 0
  StuckAt j c =
      Is c job_stuck (deref j.instance_id)
      × ((at : ℕ) × (j.started_at ≡ some at)
          × (at + (thresholds fl resolve s job_stuck (deref j.instance_id)).stuck_after < s.now))

  StaleAt-iff :
      (sc : BackupSchedule) (c : Condition)
      → (stale_schedule fl resolve s sc ≡ some c) ↔ StaleAt sc c
  unfolding stale_schedule
  StaleAt-iff sc c = elim (Bool-cases (is_some sc.last_run_at)) [
    | inr e ↦ rw e ((λ h. cc h), λ (i, a, b, d). cc ((none_test sc.last_run_at).1 a, e))
    | inl e ↦ elim (Bool-cases (is_positive sc.interval)) [
      | inr f ↦ rw (e, f) ((λ h. cc h), λ (i, a, b, d). cc b)
      | inl f ↦ elim (Option-cases (lookup sc.instance_id s.last_backups)) [
        | inl n ↦
            rw (e, f, n)
              (
                (λ h. (
                  (Is-condition c stale_backup sc.instance_id).0 h,
                  (none_test sc.last_run_at).0 e,
                  refl,
                  inl refl,
                )),
                (λ (i, a, b, d). (Is-condition c stale_backup sc.instance_id).1 i),
              )
        | inr (at, n) ↦
            elim (Bool-cases (
              fl.missed_below sc.missed
                (thresholds fl resolve s stale_backup sc.instance_id).stale_factor)) [
                  | inl m ↦
                      rw (e, f, n, m)
                        ((λ h. cc h), (λ (i, a, b, d). elim d [ inl x ↦ cc x | inr y ↦ cc y ]))
                  | inr m ↦
                      rw (e, f, n, m)
                        (
                          (λ h. (
                            (Is-condition c stale_backup sc.instance_id).0 h,
                            (none_test sc.last_run_at).0 e,
                            refl,
                            inr refl,
                          )),
                          (λ (i, a, b, d). (Is-condition c stale_backup sc.instance_id).1 i),
                        )
                ]
      ]
    ]
  ]

  StuckAt-iff : (j : JobRow) (c : Condition) → (stuck_job fl resolve s j ≡ some c) ↔ StuckAt j c
  unfolding stuck_job stuck_since
  StuckAt-iff j c = by_start j.started_at refl
    where
      over :
          (k at : ℕ)
          → ((if leb s.now (at + k) then none else some (condition job_stuck (deref j.instance_id)))
              ≡ some c)
            ↔ (Is c job_stuck (deref j.instance_id) × (at + k < s.now))
      over k at = elim (Bool-cases (leb s.now (at + k))) [
        | inl e ↦ rw e ((λ h. cc h), λ (i, l). absurd (ground (arith, e, l)))
        | inr e ↦ rw e (
          (λ h. ((Is-condition c job_stuck (deref j.instance_id)).0 h, ground (arith, e))),
          (λ (i, l). (Is-condition c job_stuck (deref j.instance_id)).1 i),
        )
      ]

      by_start :
          (o : Option ℕ)
          → j.started_at ≡ o
          → (stuck_since fl resolve s o (deref j.instance_id) ≡ some c) ↔ StuckAt j c
      by_start none e = ((λ h. cc h), λ h. cc (h.1.1, e))
      by_start (some at) e =
          let g = over (thresholds fl resolve s job_stuck (deref j.instance_id)).stuck_after at in
          (
            (λ h. let (i, l) = g.0 h in (i, (at, e, l))),
            (λ h. let same : h.1.0 ≡ at = cc (h.1.1, e) in g.1 (h.0, rw (← same) h.1.2)),
          )

  factor_iff :
      (missed : ℕ) (factor : F)
      → (fl.missed_below missed (if fl.above_one factor then factor else fl.two) ≡ false) ↔ (
          ((fl.above_one factor ≡ true) × (fl.missed_below missed factor ≡ false))
          ⊎ ((fl.above_one factor ≡ false) × (fl.missed_below missed fl.two ≡ false)))
  factor_iff missed factor = elim (Bool-cases (fl.above_one factor)) [
    | inl e ↦ rw e ((λ h. inl (refl, h)), λ h. elim h [ inl (a, b) ↦ b | inr (a, b) ↦ cc a ])
    | inr e ↦ rw e ((λ h. inr (refl, h)), λ h. elim h [ inl (a, b) ↦ cc a | inr (a, b) ↦ b ])
  ]

  Stale-iff :
      (sc : BackupSchedule) (c : Condition)
      → (stale_schedule fl resolve s sc ≡ some c) ↔ Stale fl resolve s sc c
  unfolding thresholds defaults
  Stale-iff sc c =
      let (to, from) = StaleAt-iff sc c in
      let (f, f') = factor_iff sc.missed (resolve stale_backup sc.instance_id).stale_factor in
      let (p, p') = is_positive_iff sc.interval in
      (
        (λ h. let (i, a, b, d) = to h in (i, a, p b, elim d [ inl x ↦ inl x | inr y ↦ inr (f y) ])),
        (λ (i, a, b, d). from (i, a, p' b, elim d [ inl x ↦ inl x | inr y ↦ inr (f' y) ])),
      )

  Stuck-iff :
      (j : JobRow) (c : Condition) → (stuck_job fl resolve s j ≡ some c) ↔ Stuck fl resolve s j c
  unfolding thresholds defaults
  Stuck-iff j c =
      let (to, from) = StuckAt-iff j c in
      let set = (resolve job_stuck (deref j.instance_id)).stuck_after in
      (
        (λ h.
            let (i, (at, e, l)) = to h in
            (
              i,
              (
                at,
                positive_or (3600 * 1000000000) set,
                e,
                positive_or-Filled (3600 * 1000000000) set,
                l,
              ),
            )),
        (λ (i, (at, limit, e, f, l)).
            let k = Filled-positive_or (3600 * 1000000000) set limit f in
            from (i, (at, e, rw k l))),
      )

  -- What is true of a snapshot: low disk, something of an instance, a job that failed, one that
  -- stopped a server uncleanly, a schedule without archives, a flagged archive, a stuck job.
  abbrev pub Holds : Condition → Type 0
  Holds c =
      LowDisk s c
      ⊎ ((inst : Instance) × In inst s.instances × OfInstance fl resolve s inst c)
      ⊎ ((j : JobRow) × In j s.latest_terminal_jobs × Failed j c)
      ⊎ ((j : JobRow) × In j s.clean_signals × Unclean j c)
      ⊎ ((sc : BackupSchedule) × In sc s.backup_schedules × Stale fl resolve s sc c)
      ⊎ ((id : Text) × In id s.flagged_backups × Is c backup_attention id)
      ⊎ ((j : JobRow) × In j s.running_jobs × Stuck fl resolve s j c)

  -- The evaluation of a snapshot under a resolver reports a condition exactly if the condition is
  -- true of the snapshot, at the thresholds that the resolver gives for its kind and its instance,
  -- those left unset being three stops in half an hour, an hour of a job, and twice the interval.
  pub evaluate_iff : (c : Condition) → In c (evaluate fl resolve s) ↔ Holds c
  unfolding evaluate flagged
  evaluate_iff c = In-append_iff c _ _ (LowDisk-iff s c) (
      In-append_iff c _ _ (per_instance_iff fl resolve s s.instances c) (
        In-append_iff c _ _ (each_iff failed_job Failed Failed-iff s.latest_terminal_jobs c) (
          In-append_iff c _ _ (each_iff unclean_job Unclean Unclean-iff s.clean_signals c) (
            In-append_iff c _ _
              (each_iff (stale_schedule fl resolve s) (Stale fl resolve s) Stale-iff
                s.backup_schedules c)
              (In-append_iff c _ _
                (each_iff flagged (λ id d. Is d backup_attention id)
                  (λ id d. Is-condition d backup_attention id) s.flagged_backups c)
                (each_iff (stuck_job fl resolve s) (Stuck fl resolve s) Stuck-iff s.running_jobs
                  c))))))
