-- ===== src/Jobs/Claims.antt =====
-- A claim takes all of its locks or none, and says why.
use mathlib.Core.Path.{subst}
use valmin.Shared.{
  ◌≡◌, refl, sym, ap, ◌∙◌, ◌≢◌, ◌↔◌, ◌⊎◌, inl, inr, true, false, List, [], ◌∷◌, ◌++◌, Option, none,
  some, arith, Text, text_eq_iff, if◌then◌else◌, lookup, contains, In, All, NoDup, Bool-cases,
  Option-cases, sort_on, self, compact-sort-NoDup, In-compact_iff, In-sort_on_iff, Bool,
}
use valmin.Jobs.{
  Job, Store, find_job, ClaimError, empty_lock_key, job_conflict, no_holder, hook_failed,
  duplicate_job, Acquired, acquired, refused, acquire, acquire_key, conflict_of, is_empty,
  lock_keys, claimed_job, insert_job, after_hook, after_locks, claim_job_with_locks, Parents,
  is_there, has_parents, missing_parent,
}
use valmin.Jobs.Locks.{keys_of, lookup-absent}

-- A key that a claim can take.
abbrev pub Usable : List (Text × Text) → Text → Type 0
Usable locks key = (is_empty key ≡ false) × (lookup key locks ≡ none)

-- What an acquisition leaves: each key is the job's now, and the other locks stay.
pub record Taken (id : Text) (keys : List Text) (before after : List (Text × Text)) : Type 0 where
  pub usable : All (Usable before) keys
  pub lookups : (k : Text) → lookup k after ≡ (if contains k keys then some id else lookup k before)
  pub members : (l : Text × Text) → In l after → (In l.0 keys × (l.1 ≡ id)) ⊎ In l before
  pub kept : (l : Text × Text) → In l before → In l after
  pub taken : (k : Text) → In k keys → In (k, id) after
  pub unique : NoDup (keys_of before) → NoDup (keys_of after)

abbrev Holds : List Job → List Text → List (Text × Text) → ClaimError → Type 0
Holds jobs keys locks e =
    (key : Text) × (holder : Text) × In key keys
    × (lookup key locks ≡ some holder)
    × (e ≡ conflict_of key (find_job holder jobs))

All-Usable :
    (key id : Text) (keys : List Text) (locks : List (Text × Text))
    → All (Usable ((key, id) ∷ locks)) keys
    → All (Usable locks) keys
All-Usable key id [] locks a = tt
All-Usable key id (k ∷ keys) locks a =
    ((a.0.0, ground (arith, a.0.1)), All-Usable key id keys locks a.1)

Taken-step :
    (id key : Text) (keys : List Text) (locks after : List (Text × Text))
    → is_empty key ≡ false
    → lookup key locks ≡ none
    → Taken id keys ((key, id) ∷ locks) after
    → Taken id (key ∷ keys) locks after
Taken-step id key keys locks after n f t = record {
  usable = ((n, f), All-Usable key id keys locks t.usable);
  lookups = λ k. ground (arith, t.lookups k);
  members = λ l i. elim (t.members l i) [
    | inl (j, e) ↦ inl (inr j, e)
    | inr (inl e) ↦ inl (inl (ap (λ (x : Text × Text). x.0) e), ap (λ (x : Text × Text). x.1) e)
    | inr (inr j) ↦ inr j
  ];
  kept = λ l i. t.kept l (inr i);
  taken = λ k i. elim i [
    | inl e ↦ t.kept (k, id) (inl (ap (λ (x : Text). (x, id)) e))
    | inr j ↦ t.taken k j
  ];
  unique = λ d. t.unique (lookup-absent key locks f, d);
}

acquired-injective : (a b : List (Text × Text)) → acquired a ≡ acquired b → a ≡ b
acquired-injective a b e = cc e

pub acquire-Taken :
    (id : Text) (jobs : List Job) (keys : List Text) (locks after : List (Text × Text))
    → acquire id jobs keys locks ≡ acquired after
    → Taken id keys locks after
unfolding acquire acquire_key
acquire-Taken id jobs [] locks after h =
    let e : locks ≡ after = acquired-injective locks after h in
    rw (← e) (record {
      usable = tt;
      lookups = λ k. refl;
      members = λ l i. inr i;
      kept = λ l i. i;
      taken = λ k i. absurd i;
      unique = λ d. d;
    })
acquire-Taken id jobs (key ∷ keys) locks after h = elim (Bool-cases (is_empty key)) [
  | inl e ↦ cc (rw e at h)
  | inr e ↦ elim (Option-cases (lookup key locks)) [
    | inr (w, f) ↦ cc (rw (e, f) at h)
    | inl f ↦
        Taken-step id key keys locks after e f
          (acquire-Taken id jobs keys ((key, id) ∷ locks) after (rw (e, f) at h))
  ]
]

refused-injective : (a b : ClaimError) → refused a ≡ refused b → a ≡ b
refused-injective a b e = cc e

is_empty-nil : (t : Text) → is_empty t ≡ true → [] ≡ t
is_empty-nil [] h = refl
is_empty-nil (c ∷ t) h = cc h

-- A refusal names an empty key or a lock that was held before the claim.
pub acquire-refused :
    (id : Text) (jobs : List Job) (keys : List Text) (locks : List (Text × Text)) (e : ClaimError)
    → NoDup keys
    → acquire id jobs keys locks ≡ refused e
    → (In [] keys × (e ≡ empty_lock_key)) ⊎ Holds jobs keys locks e
unfolding acquire acquire_key
acquire-refused id jobs [] locks e d h = cc h
acquire-refused id jobs (key ∷ keys) locks e d h = elim (Bool-cases (is_empty key)) [
  | inl n ↦ inl (inl (is_empty-nil key n), sym (refused-injective _ e (rw n at h)))
  | inr n ↦ elim (Option-cases (lookup key locks)) [
    | inr (w, f) ↦ inr (key, w, inl refl, f, sym (refused-injective _ e (rw (n, f) at h)))
    | inl f ↦ elim (acquire-refused id jobs keys ((key, id) ∷ locks) e d.1 (rw (n, f) at h)) [
      | inl (i, q) ↦ inl (inr i, q)
      | inr (k, w, i, g, q) ↦
          let apart : key ≢ k = λ p. d.0 (rw p i) in
          inr (k, w, inr i, ground (arith, g, text_eq_iff key k, apart), q)
    ]
  ]
]

-- Where all keys are free, and no two are the same, they are taken.
acquire-Usable :
    (id : Text) (jobs : List Job) (keys : List Text) (locks : List (Text × Text))
    → NoDup keys
    → All (Usable locks) keys
    → (after : List (Text × Text)) × (acquire id jobs keys locks ≡ acquired after)
unfolding acquire acquire_key
acquire-Usable id jobs [] locks d a = (locks, refl)
acquire-Usable id jobs (key ∷ keys) locks d a =
    rw (a.0.0, a.0.1) (acquire-Usable id jobs keys ((key, id) ∷ locks) d.1 (still keys d.0 a.1))
  where
    still :
        (ks : List Text) → ¬ In key ks → All (Usable locks) ks → All (Usable ((key, id) ∷ locks)) ks
    still [] n b = tt
    still (k ∷ ks) n b =
        ((b.0.0, ground (arith, b.0.1, text_eq_iff key k, n)), still ks (λ i. n (inr i)) b.1)

find_job-id : (id : Text) (jobs : List Job) (r : Job) → find_job id jobs ≡ some r → r.id ≡ id
find_job-id id [] r e = cc e
find_job-id id (j ∷ jobs) r e = ground (arith, e, text_eq_iff j.id id, find_job-id id jobs r)

Acquired-cases :
    (a : Acquired)
    → ((locks : List (Text × Text)) × (a ≡ acquired locks)) ⊎ ((e : ClaimError) × (a ≡ refused e))
Acquired-cases (acquired locks) = inl (locks, refl)
Acquired-cases (refused e) = inr (e, refl)

lock_keys-NoDup :
    (lock_key : Text) (supplemental : List Text) → NoDup (lock_keys lock_key supplemental)
unfolding lock_keys
lock_keys-NoDup lock_key supplemental = compact-sort-NoDup (lock_key ∷ supplemental)

pub In-lock_keys :
    (lock_key : Text) (supplemental : List Text) (k : Text)
    → In k (lock_keys lock_key supplemental) ↔ In k (lock_key ∷ supplemental)
unfolding lock_keys
In-lock_keys lock_key supplemental k = ground (
  arith,
  In-compact_iff k (sort_on self (lock_key ∷ supplemental)),
  In-sort_on_iff self k (lock_key ∷ supplemental),
)

abbrev pub claim_keys : Job → List Text → List Text
claim_keys j supplemental = lock_keys j.lock_key supplemental

-- The rows that a job refers to are there.
pub record Parented {R : Type 0} (parents : Parents R) (rest : R) (j : Job) : Type 0 where
  pub instance_there : (id : Text) → j.instance_id ≡ some id → parents.instance rest id ≡ true
  pub schedule_there : (id : Text) → j.schedule_id ≡ some id → parents.schedule rest id ≡ true
  pub user_there : (id : Text) → j.requested_by ≡ some id → parents.user rest id ≡ true

is_there_iff :
    (has : Text → Bool) (o : Option Text)
    → (is_there has o ≡ true) ↔ ((id : Text) → o ≡ some id → has id ≡ true)
is_there_iff has none = ((λ h id e. cc e), λ h. refl)
is_there_iff has (some x) = ((λ h id e. let same : x ≡ id = cc e in rw (← same) h), (λ h. h x refl))

has_parents_iff :
    {R : Type 0} (parents : Parents R) (rest : R) (j : Job)
    → (has_parents parents rest j ≡ true) ↔ Parented parents rest j
unfolding has_parents
has_parents_iff parents rest j =
    let (a, a') = is_there_iff (parents.instance rest) j.instance_id in
    let (b, b') = is_there_iff (parents.schedule rest) j.schedule_id in
    let (c, c') = is_there_iff (parents.user rest) j.requested_by in
    (
      (λ h. record {
        instance_there = a (ground (arith, h));
        schedule_there = b (ground (arith, h));
        user_there = c (ground (arith, h));
      }),
      (λ p.
          let x = a' p.instance_there in
          let y = b' p.schedule_there in let z = c' p.user_there in ground (arith, x, y, z)),
    )

module _ {R : Type 0} (parents : Parents R) (on_claim : R → Option R) (j : Job)
    (supplemental : List Text) (owner lease_until now : Text) (s : Store R) where
  abbrev pub claim : Store R × Option ClaimError
  claim = claim_job_with_locks parents on_claim j supplemental owner lease_until now s

  -- A claim that went through.
  pub record Claimed : Type 0 where
    pub no_error : claim.1 ≡ none
    pub hooked : on_claim s.rest ≡ some claim.0.rest
    pub parented : Parented parents claim.0.rest j
    pub fresh : find_job j.id s.jobs ≡ none
    pub inserted : claim.0.jobs ≡ s.jobs ++ claimed_job j owner lease_until now ∷ []
    pub locked : Taken j.id (claim_keys j supplemental) s.locks claim.0.locks

  -- The errors of a claim, and what each of them says.
  pub data Refused : ClaimError → Type 0 where
    for_empty_key : In [] (claim_keys j supplemental) → Refused empty_lock_key
    for_conflict :
        (key : Text) (holder : Job)
        → In key (claim_keys j supplemental)
        → lookup key s.locks ≡ some holder.id
        → find_job holder.id s.jobs ≡ some holder
        → Refused (job_conflict holder.id holder.kind)
    for_no_holder :
        (key id : Text)
        → In key (claim_keys j supplemental)
        → lookup key s.locks ≡ some id
        → find_job id s.jobs ≡ none
        → Refused (no_holder key)
    for_hook : on_claim s.rest ≡ none → Refused hook_failed
    for_duplicate : (other : Job) → find_job j.id s.jobs ≡ some other → Refused duplicate_job
    for_parent :
        (rest : R)
        → on_claim s.rest ≡ some rest
        → ¬ Parented parents rest j
        → Refused missing_parent

  Holds-Refused : (e : ClaimError) → Holds s.jobs (claim_keys j supplemental) s.locks e → Refused e
  Holds-Refused e (key, holder, i, l, q) = elim (Option-cases (find_job holder s.jobs)) [
    | inl f ↦
        let p : e ≡ no_holder key = rw f at q in
        subst Refused (sym p) (for_no_holder key holder i l f)
    | inr (r, f) ↦
        let p : e ≡ job_conflict r.id r.kind = rw f at q in
        let h = find_job-id holder s.jobs r f in
        subst Refused (sym p)
          (for_conflict key r i (l ∙ ap some (sym h)) (ap (λ (x : Text). find_job x s.jobs) h ∙ f))
  ]

  -- A claim goes through, its id being new, its hook having succeeded and the rows
  -- that it refers to being there after the hook, and then its row is
  -- added and the job holds all of its keys, which were free before, while the other locks
  -- stay; or it is refused with an error that tells the reason, and nothing has changed.
  pub claim_job_with_locks_lem :
      Claimed ⊎ ((e : ClaimError) × (claim.1 ≡ some e) × (claim.0 ≡ s) × Refused e)
  unfolding claim_job_with_locks after_locks after_hook insert_job
  claim_job_with_locks_lem =
      elim (Acquired-cases (acquire j.id s.jobs (claim_keys j supplemental) s.locks)) [
        | inr (e, a) ↦ inr (
          e,
          rw a refl,
          rw a refl,
          elim (acquire-refused j.id s.jobs (claim_keys j supplemental) s.locks e
              (lock_keys-NoDup j.lock_key supplemental) a) [
                | inl (i, q) ↦ subst Refused (sym q) (for_empty_key i)
                | inr h ↦ Holds-Refused e h
              ],
        )
        | inl (after, a) ↦ elim (Option-cases (on_claim s.rest)) [
          | inl h ↦ inr (hook_failed, rw (a, h) refl, rw (a, h) refl, for_hook h)
          | inr (rest, h) ↦ elim (Option-cases (find_job j.id s.jobs)) [
            | inr (other, f) ↦
                inr (duplicate_job, rw (a, h, f) refl, rw (a, h, f) refl, for_duplicate other f)
            | inl f ↦ elim (Bool-cases (has_parents parents rest j)) [
              | inr p ↦ inr (
                missing_parent,
                rw (a, h, f, p) refl,
                rw (a, h, f, p) refl,
                for_parent rest h (λ k. cc (p, (has_parents_iff parents rest j).1 k)),
              )
              | inl p ↦
                  let e : claim ≡ (
                    record {
                      locks = after;
                      jobs = s.jobs ++ claimed_job j owner lease_until now ∷ [];
                      rest = rest;
                    },
                    none,
                  ) =
                    rw (a, h, f, p) refl in
                  inl (record {
                    no_error = ap (λ (p : Store R × Option ClaimError). p.1) e;
                    hooked = h ∙ ap (λ (p : Store R × Option ClaimError). some p.0.rest) (sym e);
                    parented =
                        subst (λ (x : R). Parented parents x j)
                          (ap (λ (p : Store R × Option ClaimError). p.0.rest) (sym e))
                          ((has_parents_iff parents rest j).0 p);
                    fresh = f;
                    inserted = ap (λ (p : Store R × Option ClaimError). p.0.jobs) e;
                    locked =
                        subst
                          (λ (p : Store R × Option ClaimError).
                            Taken j.id (claim_keys j supplemental) s.locks p.0.locks)
                          (sym e)
                          (acquire-Taken j.id s.jobs (claim_keys j supplemental) s.locks after a);
                  })
            ]
          ]
        ]
      ]

  -- Where every key is free, the hook succeeds and the id is new, the claim goes through.
  pub claim_job_with_locks-free :
      All (Usable s.locks) (claim_keys j supplemental)
      → (r : R) → on_claim s.rest ≡ some r
      → find_job j.id s.jobs ≡ none
      → Parented parents r j
      → Claimed
  unfolding claim_job_with_locks after_locks after_hook insert_job
  claim_job_with_locks-free a r h f p =
      let (after, q) =
        acquire-Usable j.id s.jobs (claim_keys j supplemental) s.locks
          (lock_keys-NoDup j.lock_key supplemental) a in
      let t = (has_parents_iff parents r j).1 p in
      let e : claim.1 ≡ none = rw (q, h, f, t) refl in
      elim claim_job_with_locks_lem [ inl c ↦ c | inr (w, x, y, z) ↦ cc (e, x) ]
