-- ===== src/Alerts/Evaluate/Evaluated.antt =====
-- internal/alerts/evaluate.go: exactly which conditions an evaluation reports.
use valmin.Shared.{
  ◌<◌, ◌≡◌, ◌≢◌, refl, sym, ap, ◌↔◌, ◌⊎◌, inl, inr, Bool, true, false, ◌||◌, List, [], ◌∷◌, Option,
  none, some, arith, Text, codes, text_eq, text_eq_iff, ◌==◌, leb, In, Bool-cases, ℕ, ◌≤◌, digits,
}
use valmin.Alerts.{
  Kind, job_failed, low_disk, unclean_stop, restart_required, update_available, instance_error,
}
use valmin.Alerts.Evaluate.{
  Condition, Instance, JobRow, Snapshot, deref, append_one, collect, condition, low_disk_of,
  is_update, installed_of, available_of, failed_job, unclean_job, unclean_if, known_build,
  positive_uint64,
}

some_condition : (a b : Condition) → some a ≡ some b → a ≡ b
some_condition a b e = cc e

pub In-append_one_iff :
    (c : Condition) (o : Option Condition) (rest : List Condition)
    → In c (append_one o rest) ↔ ((o ≡ some c) ⊎ In c rest)
In-append_one_iff c none rest = ((λ h. inr h), λ h. elim h [ inl e ↦ cc e | inr i ↦ i ])
In-append_one_iff c (some d) rest = (
  (λ h. elim h [ inl e ↦ inl (ap (λ (x : Condition). some x) (sym e)) | inr i ↦ inr i ]),
  (λ h. elim h [ inl e ↦ inl (sym (some_condition d c e)) | inr i ↦ inr i ]),
)

-- A loop reports what it reports of one of the elements.
pub In-collect_iff :
    {A : Type 0} (one : A → Option Condition) (c : Condition) (xs : List A)
    → In c (collect one xs) ↔ ((a : A) × In a xs × (one a ≡ some c))
unfolding collect
In-collect_iff one c [] = ((λ h. absurd h), λ h. absurd h.1)
In-collect_iff one c (a ∷ xs) = (
  (λ h. elim ((In-append_one_iff c (one a) (collect one xs)).0 h) [
    | inl e ↦ (a, inl refl, e)
    | inr i ↦ let (b, j, e) = (In-collect_iff one c xs).0 i in (b, inr j, e)
  ]),
  (λ (b, i, e).
      (In-append_one_iff c (one a) (collect one xs)).1 (elim i [
        | inl q ↦ inl (rw (← q) e)
        | inr j ↦ inr ((In-collect_iff one c xs).1 (b, j, e))
      ])),
)

-- A condition of a kind and an instance.
abbrev pub Is : Condition → Kind → Text → Type 0
Is c kind id = (c.kind ≡ kind) × (c.instance_id ≡ id)

pub Is-condition :
    (c : Condition) (kind : Kind) (id : Text) → (some (condition kind id) ≡ some c) ↔ Is c kind id
Is-condition c kind id = (
  (λ e.
      let q : condition kind id ≡ c = some_condition (condition kind id) c e in
      (ap (λ (x : Condition). x.kind) (sym q), ap (λ (x : Condition). x.instance_id) (sym q))),
  (λ (k, i). cc (k, i)),
)

-- What is true of a snapshot, kind by kind.
abbrev pub LowDisk : Snapshot → Condition → Type 0
LowDisk s c = Is c low_disk [] × (0 < s.alarm_bytes) × (s.free_bytes < s.alarm_bytes)

abbrev pub Restart : Instance → Condition → Type 0
Restart inst c = Is c restart_required inst.id × (inst.needs_restart ≡ true)

abbrev pub Broken : Instance → Condition → Type 0
Broken inst c = Is c instance_error inst.id × (inst.state ≡ codes "error")

-- A build that is known: a positive number of at most 64 bits.
abbrev pub Known : Text → Type 0
Known id = (n : ℕ) × (digits id ≡ some n) × (0 < n) × (n ≤ 18446744073709551615)

Known-iff : (id : Text) → (known_build id ≡ true) ↔ Known id
unfolding known_build
Known-iff id = by_digits (digits id) refl
  where
    by_digits : (o : Option ℕ) → digits id ≡ o → (positive_uint64 o ≡ true) ↔ Known id
    by_digits none e = ((λ h. cc h), λ (n, q, a, b). cc (q, e))
    by_digits (some n) e = (
      (λ h. (n, e, ground (arith, h), ground (arith, h))),
      (λ (m, q, a, b). let same : m ≡ n = cc (q, e) in ground (arith, same, a, b)),
    )

pub is_update_iff :
    (installed available : Text)
    → (is_update installed available ≡ true)
      ↔ (Known installed × Known available × (installed ≢ available))
unfolding is_update
is_update_iff installed available =
    let (a, a') = Known-iff installed in
    let (b, b') = Known-iff available in
    let (t, t') = text_eq_iff installed available in
    (
      (λ h. (
        a (ground (arith, h)),
        b (ground (arith, h)),
        λ e. let x = t' e in ground (arith, h, x),
      )),
      (λ (x, y, n).
          let p = a' x in
          let q = b' y in
          let r : text_eq installed available ≡ false = ground (arith, t, n) in
          ground (arith, p, q, r)),
    )

abbrev pub Update : Snapshot → Instance → Condition → Type 0
Update s inst c =
    Is c update_available inst.id
    × (Known (installed_of s inst)
        × Known (available_of s inst)
        × (installed_of s inst ≢ available_of s inst))

abbrev pub Failed : JobRow → Condition → Type 0
Failed j c =
    Is c job_failed (deref j.instance_id)
    × (j.status ≡ codes "failed")
    × (j.kind ≢ codes "webhook_deliver")

abbrev pub Unclean : JobRow → Condition → Type 0
Unclean j c = Is c unclean_stop (deref j.instance_id) × (j.clean ≡ some false)

pub LowDisk-iff : (s : Snapshot) (c : Condition) → In c (low_disk_of s) ↔ LowDisk s c
unfolding low_disk_of
LowDisk-iff s c = elim (Bool-cases (s.alarm_bytes == 0 || leb s.alarm_bytes s.free_bytes)) [
  | inl e ↦ rw e ((λ h. absurd h), λ (i, a, b). absurd (ground (arith, e)))
  | inr e ↦ rw e (
    (λ h. elim h [
      | inl q ↦ (
        ((Is-condition c low_disk []).0 (ap (λ (x : Condition). some x) (sym q))),
        ground (arith, e),
        ground (arith, e),
      )
      | inr x ↦ absurd x
    ]),
    (λ (i, a, b). inl (sym (some_condition _ c ((Is-condition c low_disk []).1 i)))),
  )
]

pub Failed-iff : (j : JobRow) (c : Condition) → (failed_job j ≡ some c) ↔ Failed j c
unfolding failed_job
Failed-iff j c = elim (Bool-cases (text_eq j.status (codes "failed"))) [
  | inr e ↦ rw e ((λ h. cc h), λ (i, a, b). cc ((text_eq_iff j.status (codes "failed")).1 a, e))
  | inl e ↦ elim (Bool-cases (text_eq j.kind (codes "webhook_deliver"))) [
    | inl f ↦
        rw (e, f)
          (
            (λ h. cc h),
            λ (i, a, b). absurd (b ((text_eq_iff j.kind (codes "webhook_deliver")).0 f)),
          )
    | inr f ↦
        rw (e, f)
          (
            (λ h. (
              (Is-condition c job_failed (deref j.instance_id)).0 h,
              (text_eq_iff j.status (codes "failed")).0 e,
              λ q. cc ((text_eq_iff j.kind (codes "webhook_deliver")).1 q, f),
            )),
            (λ (i, a, b). (Is-condition c job_failed (deref j.instance_id)).1 i),
          )
  ]
]

pub Unclean-iff : (j : JobRow) (c : Condition) → (unclean_job j ≡ some c) ↔ Unclean j c
unfolding unclean_job
Unclean-iff j c = by_flag j.clean refl
  where
    by_flag :
        (b : Option Bool)
        → j.clean ≡ b
        → (unclean_if b (deref j.instance_id) ≡ some c) ↔ Unclean j c
    by_flag none e = ((λ h. cc h), λ (i, a). cc (a, e))
    by_flag (some true) e = ((λ h. cc h), λ (i, a). cc (a, e))
    by_flag (some false) e = (
      (λ h. ((Is-condition c unclean_stop (deref j.instance_id)).0 h, e)),
      (λ (i, a). (Is-condition c unclean_stop (deref j.instance_id)).1 i),
    )
