-- ===== src/Scheduler/Submitting/Accounted.antt =====
-- A due run becomes a job or a row that says why not, unless its instance is gone.
use mathlib.Core.Path.{subst}
use valmin.Shared.{
  ◌≡◌, refl, sym, ap, ◌∙◌, ◌↔◌, inl, inr, Bool, true, false, List, [], ◌∷◌, ◌++◌, codes, Option,
  none, some, arith, Text, text_eq, text_eq_iff, In, Bool-cases, Option-cases,
}
use valmin.Kinds.{Kind, name}
use valmin.Lifecycle
use valmin.Lifecycle.{state_name, allowed_from, requires}
use valmin.Lifecycle.Table.{allowed_from_lem}
use valmin.Jobs.{cancelled, Job, Store}
use valmin.Scheduler.{Schedule}
use valmin.Scheduler.Submitting.{
  Instance, Cause, conflict, other, code_of, reason_of, key_of, instance_of, skipped_job,
  EnqueueError, names_no_instance, power_cut, wrong_state, state_in, claimable_from, record_skip,
  submitted, enqueue_on, enqueue_instance, enqueue,
}

-- The kind may be claimed from the state.
abbrev pub Claimable : Kind → Text → Type 0
Claimable kind state = (x : Lifecycle.State) × In x (requires kind) × (state ≡ state_name x)

state_in_iff :
    (state : Text) (xs : List Lifecycle.State)
    → (state_in state xs ≡ true) ↔ ((x : Lifecycle.State) × In x xs × (state ≡ state_name x))
state_in_iff state [] = ((λ h. cc h), (λ (x, i, e). absurd i))
state_in_iff state (x ∷ xs) =
    let (to, from) = state_in_iff state xs in
    (
      (λ h. elim (Bool-cases (text_eq state (state_name x))) [
        | inl e ↦ (x, inl refl, (text_eq_iff state (state_name x)).0 e)
        | inr e ↦ let (y, i, q) = to (ground (arith, h, e)) in (y, inr i, q)
      ]),
      (λ (y, i, q). elim i [
        | inl e ↦
            let b : text_eq state (state_name x) ≡ true =
              (text_eq_iff state (state_name x)).1 (q ∙ ap state_name e) in
            rw b refl
        | inr j ↦ let k = from (y, j, q) in ground (arith, k)
      ]),
    )

claimable_from_iff :
    (kind : Kind) (state : Text) → (claimable_from kind state ≡ true) ↔ Claimable kind state
unfolding claimable_from
claimable_from_iff kind state =
    let (to, from) = state_in_iff state (allowed_from kind) in
    let (order, same, settled) = allowed_from_lem kind in
    ((λ h. let (x, i, e) = to h in (x, (same x).0 i, e)), (λ (x, i, e). from (x, (same x).1 i, e)))

module _ {R : Type 0} (submit_global : Kind → Store R → Store R × Option Cause)
    (submit_instance : Instance → Store R → Store R × Option Cause)
    (find_instance : Text → Option Instance) (soon : Bool) (sc : Schedule) (kind : Kind)
    (global : Bool) (id now : Text) (s : Store R) where
  -- The instance of the schedule is there.
  pub record Target (i : Instance) : Type 0 where
    pub single : global ≡ false
    pub found : (x : Text) × (sc.instance_id ≡ some x) × (find_instance x ≡ some i)

  -- A submission is tried: of a kind for the whole panel, or for an instance in a state that the
  -- kind may be claimed from, no power cut being near.
  pub data Tried : Option Instance → Store R × Option Cause → Type 0 where
    for_panel : global ≡ true → Tried none (submit_global kind s)
    for_instance :
        (i : Instance)
        → Target i
        → soon ≡ false
        → Claimable kind i.state
        → Tried (some i) (submit_instance i s)

  pub data Skipped : Option Instance → Cause → Store R → Type 0 where
    by_submission :
        (inst : Option Instance) (cause : Cause) (p : Store R × Option Cause)
        → Tried inst p
        → p.1 ≡ some cause
        → Skipped inst cause p.0
    by_power_cut : (i : Instance) → Target i → soon ≡ true → Skipped (some i) power_cut s
    by_state :
        (i : Instance)
        → Target i
        → soon ≡ false
        → ¬ Claimable kind i.state
        → Skipped (some i) (wrong_state i.state kind) s

  -- The row of a skipped run, with what it says of the cause.
  pub data Says : Cause → (code text : Text) → Type 0 where
    of_conflict :
        (job other_kind : Text)
        → Says (conflict job other_kind) (codes "job_in_progress") (
            codes "job "
            ++ job
            ++ codes " (kind "
            ++ other_kind
            ++ codes ") already holds this lock")
    of_other : (t : Text) → Says (other t) (codes "internal") t

  pub data Belongs : Option Instance → (lock_key : Text) → Option Text → Type 0 where
    to_panel : Belongs none (codes "global:" ++ name kind) none
    to_instance : (i : Instance) → Belongs (some i) (codes "instance:" ++ i.id) (some i.id)

  pub record SkipRow (inst : Option Instance) (cause : Cause) (row : Job) : Type 0 where
    pub is_new : row.id ≡ id
    pub of_kind : row.kind ≡ name kind
    pub ended : row.status ≡ cancelled
    pub of_schedule : row.schedule_id ≡ some sc.id
    pub belongs : Belongs inst row.lock_key row.instance_id
    pub code : Text
    pub text : Text
    pub says : Says cause code text
    pub has_code : row.error_code ≡ some code
    pub has_text : row.error ≡ some (codes "This scheduled run was skipped: " ++ text)
    pub times : (row.created_at ≡ now) × (row.started_at ≡ some now) × (row.finished_at ≡ some now)

  -- The store with the row of a skipped run added, no lock being taken.
  pub record WithSkip (inst : Option Instance) (cause : Cause) (b t : Store R) : Type 0 where
    pub row : Job
    pub fields : SkipRow inst cause row
    pub added : t.jobs ≡ b.jobs ++ row ∷ []
    pub same_locks : t.locks ≡ b.locks
    pub same_rest : t.rest ≡ b.rest

  record_skip-WithSkip :
      (inst : Option Instance) (cause : Cause) (b : Store R)
      → WithSkip inst cause b (record_skip sc.id kind inst cause id now b)
  unfolding record_skip
  record_skip-WithSkip inst cause b = record {
    row = skipped_job sc.id kind inst cause id now;
    fields = record {
      is_new = refl;
      of_kind = refl;
      ended = refl;
      of_schedule = refl;
      belongs = of_instance inst;
      code = code_of cause;
      text = reason_of cause;
      says = of_cause cause;
      has_code = refl;
      has_text = refl;
      times = (refl, refl, refl);
    };
    added = refl;
    same_locks = refl;
    same_rest = refl;
  }
    where
      of_cause : (c : Cause) → Says c (code_of c) (reason_of c)
      of_cause (conflict j k) = of_conflict j k
      of_cause (other t) = of_other t

      of_instance : (i : Option Instance) → Belongs i (key_of kind i) (instance_of i)
      of_instance none = to_panel
      of_instance (some i) = to_instance i

  pub data Accounted (t : Store R × Option EnqueueError) : Type 0 where
    submits :
        (inst : Option Instance) (p : Store R × Option Cause)
        → Tried inst p
        → p.1 ≡ none
        → t ≡ (p.0, none)
        → Accounted t
    skips :
        (inst : Option Instance) (cause : Cause) (b : Store R)
        → Skipped inst cause b
        → WithSkip inst cause b t.0
        → t.1 ≡ none
        → Accounted t
    unnamed : global ≡ false → sc.instance_id ≡ none → t ≡ (s, some names_no_instance) → Accounted t
    gone :
        (x : Text)
        → global ≡ false
        → sc.instance_id ≡ some x
        → find_instance x ≡ none
        → t ≡ (s, none)
        → Accounted t

  skip-Accounted :
      (inst : Option Instance) (cause : Cause) (b : Store R)
      → Skipped inst cause b
      → Accounted (record_skip sc.id kind inst cause id now b, none)
  skip-Accounted inst cause b h = skips inst cause b h (record_skip-WithSkip inst cause b) refl

  submitted-Accounted :
      (inst : Option Instance) (p : Store R × Option Cause)
      → Tried inst p
      → Accounted (submitted sc.id kind inst id now p)
  unfolding submitted
  submitted-Accounted inst (t, none) h = submits inst (t, none) h refl refl
  submitted-Accounted inst (t, some cause) h =
      skip-Accounted inst cause t (by_submission inst cause (t, some cause) h refl)

  enqueue_on-Accounted :
      (i : Instance)
      → Target i
      → Accounted
          (enqueue_on submit_global submit_instance find_instance soon sc.id kind (some i) id now s)
  unfolding enqueue_on
  enqueue_on-Accounted i t =
      let whole =
        enqueue_on submit_global submit_instance find_instance soon sc.id kind (some i) id now s in
      let cut = record_skip sc.id kind (some i) power_cut id now s in
      let refusal = record_skip sc.id kind (some i) (wrong_state i.state kind) id now s in
      elim (Bool-cases soon) [
        | inl e ↦
            let q : whole ≡ (cut, none) = rw e refl in
            subst Accounted (sym q) (skip-Accounted (some i) power_cut s (by_power_cut i t e))
        | inr e ↦ elim (Bool-cases (claimable_from kind i.state)) [
          | inl f ↦
              let q : whole ≡ submitted sc.id kind (some i) id now (submit_instance i s) =
                rw (e, f) refl in
              subst Accounted (sym q) (
                submitted-Accounted (some i) (submit_instance i s)
                  (for_instance i t e ((claimable_from_iff kind i.state).0 f)))
          | inr f ↦
              let n : ¬ Claimable kind i.state =
                λ c. cc (f, (claimable_from_iff kind i.state).1 c) in
              let q : whole ≡ (refusal, none) = rw (e, f) refl in
              subst Accounted (sym q)
                (skip-Accounted (some i) (wrong_state i.state kind) s (by_state i t e n))
        ]
      ]

  enqueue_instance-Accounted :
      (x : Option Text)
      → global ≡ false
      → sc.instance_id ≡ x
      → Accounted
          (enqueue_instance submit_global submit_instance find_instance soon sc.id kind x id now s)
  unfolding enqueue_instance enqueue_on
  enqueue_instance-Accounted none g e = unnamed g e refl
  enqueue_instance-Accounted (some x) g e = elim (Option-cases (find_instance x)) [
    | inl f ↦ gone x g e f (rw f refl)
    | inr (i, f) ↦ rw f (enqueue_on-Accounted i (record { single = g; found = (x, e, f) }))
  ]

  -- A due run is accounted for: a submission was tried and went through; or a skipped run is
  -- written down as a job that has ended and holds no lock, with its cause, which is the error of the submission tried, a power cut that is
  -- near, or a state that the kind cannot be claimed from; or the schedule names no instance, or
  -- one that is gone, and nothing is written.
  pub enqueue-Accounted :
      Accounted (enqueue submit_global submit_instance find_instance soon sc kind global id now s)
  unfolding enqueue
  enqueue-Accounted =
      let whole =
        enqueue submit_global submit_instance find_instance soon sc kind global id now s in
      elim (Bool-cases global) [
        | inl g ↦
            let q : whole ≡ submitted sc.id kind none id now (submit_global kind s) = rw g refl in
            subst Accounted (sym q) (submitted-Accounted none (submit_global kind s) (for_panel g))
        | inr g ↦
            let q : whole
                ≡ enqueue_instance submit_global submit_instance find_instance soon sc.id kind
                    sc.instance_id id now s =
              rw g refl in
            subst Accounted (sym q) (enqueue_instance-Accounted sc.instance_id g refl)
      ]
