-- ===== src/Jobs/Locks.antt =====
-- The two tables as sets: what is in them after each statement.
use valmin.Shared.{
  ◌≡◌, refl, sym, ap, ◌∙◌, ◌≢◌, ◌⊎◌, inl, inr, Bool, true, false, ◌&&◌, List, [], ◌∷◌, map, none,
  some, arith, Text, text_eq, text_eq_iff, if◌then◌else◌, ◌==◌, lookup, In, NoDup, Bool-cases,
}
use valmin.Jobs.{Job, find_job, update_jobs, release, owned_by}

abbrev pub keys_of : List (Text × Text) → List Text
keys_of locks = map (λ (l : Text × Text). l.0) locks

abbrev pub ids_of : List Job → List Text
ids_of jobs = map (λ (j : Job). j.id) jobs

pub In-release :
    (id : Text) (l : Text × Text) (locks : List (Text × Text))
    → In l (release id locks)
    → In l locks × (l.1 ≢ id)
unfolding release
In-release id l [] i = absurd i
In-release id l ((key, holder) ∷ locks) i = elim (Bool-cases (text_eq holder id)) [
  | inl e ↦ let (j, n) = In-release id l locks (rw e at i) in (inr j, n)
  | inr e ↦ elim (split (rw e at i)) [
    | inl q ↦
        (inl q, λ p. cc (e, (text_eq_iff holder id).1 (sym (ap (λ (x : Text × Text). x.1) q) ∙ p)))
    | inr k ↦ let (j, n) = In-release id l locks k in (inr j, n)
  ]
]
  where
    split : In l ((key, holder) ∷ release id locks) → (l ≡ (key, holder)) ⊎ In l (release id locks)
    split k = k

pub release-In :
    (id : Text) (l : Text × Text) (locks : List (Text × Text))
    → In l locks
    → l.1 ≢ id
    → In l (release id locks)
unfolding release
release-In id l [] i n = absurd i
release-In id l ((key, holder) ∷ locks) (inl e) n =
    let q : holder ≢ id = λ p. n (ap (λ (x : Text × Text). x.1) e ∙ p) in
    elim (Bool-cases (text_eq holder id)) [
      | inl k ↦ absurd (q ((text_eq_iff holder id).0 k))
      | inr k ↦ rw k (inl e)
    ]
release-In id l ((key, holder) ∷ locks) (inr i) n = ground (arith, release-In id l locks i n)

pub release-NoDup :
    (id : Text) (locks : List (Text × Text))
    → NoDup (keys_of locks)
    → NoDup (keys_of (release id locks))
unfolding release
release-NoDup id [] d = d
release-NoDup id ((key, holder) ∷ locks) d = elim (Bool-cases (text_eq holder id)) [
  | inl e ↦ rw e (release-NoDup id locks d.1)
  | inr e ↦ rw e ((λ i. d.0 (In-keys id key locks i)), release-NoDup id locks d.1)
]
  where
    In-keys :
        (id k : Text) (ls : List (Text × Text)) → In k (keys_of (release id ls)) → In k (keys_of ls)
    In-keys id k [] i = absurd i
    In-keys id k ((key, holder) ∷ ls) i = ground (arith, In-keys id k ls, i)

pub keys_of-In :
    (key holder : Text) (locks : List (Text × Text))
    → In (key, holder) locks
    → In key (keys_of locks)
keys_of-In key holder [] i = i
keys_of-In key holder (l ∷ locks) (inl e) = inl (ap (λ (x : Text × Text). x.0) e)
keys_of-In key holder (l ∷ locks) (inr i) = inr (keys_of-In key holder locks i)

-- What holds of a key's holder is found by a lookup, keys being unique.
pub In-lookup :
    (key holder : Text) (locks : List (Text × Text))
    → NoDup (keys_of locks)
    → In (key, holder) locks
    → lookup key locks ≡ some holder
In-lookup key holder [] d i = absurd i
In-lookup key holder ((k, h) ∷ locks) d (inl e) =
    ground
      (arith, text_eq_iff k key, ap (λ (x : Text × Text). x.0) e, ap (λ (x : Text × Text). x.1) e)
In-lookup key holder ((k, h) ∷ locks) d (inr i) =
    ground (
      arith,
      In-lookup key holder locks d.1 i,
      text_eq_iff k key,
      d.0,
      keys_of-In key holder locks i,
    )

pub lookup-In :
    (key holder : Text) (locks : List (Text × Text))
    → lookup key locks ≡ some holder
    → In (key, holder) locks
lookup-In key holder [] e = cc e
lookup-In key holder ((k, h) ∷ locks) e =
    ground (arith, e, text_eq_iff k key, lookup-In key holder locks)

pub lookup-absent :
    (key : Text) (locks : List (Text × Text)) → lookup key locks ≡ none → ¬ In key (keys_of locks)
lookup-absent key [] e i = i
lookup-absent key ((k, h) ∷ locks) e (inl p) = ground (arith, e, p, text_eq_iff k key)
lookup-absent key ((k, h) ∷ locks) e (inr i) = lookup-absent key locks (ground (arith, e)) i

abbrev pub Updated :
    (id : Text) (cond : Job → Bool) (write : Job → Job) (j : Job) (jobs : List Job) → Type 0
Updated id cond write j jobs =
    (In j jobs × ((text_eq j.id id && cond j) ≡ false))
    ⊎ ((i : Job) × In i jobs × (i.id ≡ id) × (cond i ≡ true) × (j ≡ write i))

later_row :
    (id : Text) (cond : Job → Bool) (write : Job → Job) (j r : Job) (jobs : List Job)
    → Updated id cond write j jobs
    → Updated id cond write j (r ∷ jobs)
later_row id cond write j r jobs (inl (i, e)) = inl (inr i, e)
later_row id cond write j r jobs (inr (i, m, p, q, e)) = inr (i, inr m, p, q, e)

lookup-none :
    (key : Text) (locks : List (Text × Text)) → ¬ In key (keys_of locks) → lookup key locks ≡ none
lookup-none key [] n = refl
lookup-none key ((k, h) ∷ locks) n =
    ground (arith, text_eq_iff k key, lookup-none key locks (λ i. n (inr i)), n)

pub lookup-release :
    (id key : Text) (locks : List (Text × Text))
    → NoDup (keys_of locks)
    → lookup key (release id locks)
      ≡ (if owned_by id (lookup key locks) then none else lookup key locks)
unfolding release
lookup-release id key [] d = refl
lookup-release id key ((k, h) ∷ locks) d = elim (Bool-cases (text_eq k key)) [
  | inr e ↦ ground (arith, e, lookup-release id key locks d.1)
  | inl e ↦
      let n : lookup key locks ≡ none =
        lookup-none key locks (rw (← (text_eq_iff k key).0 e) d.0) in
      ground (arith, e, n, lookup-release id key locks d.1)
]

-- A row after an update: one that the condition passes over, or one as it is written.
pub In-update_jobs :
    (id : Text) (cond : Job → Bool) (write : Job → Job) (j : Job) (jobs : List Job)
    → In j (update_jobs id cond write jobs).0
    → Updated id cond write j jobs
unfolding update_jobs
In-update_jobs id cond write j [] i = absurd i
In-update_jobs id cond write j (r ∷ jobs) i =
    let later = later_row id cond write j r jobs in
    let h = In-update_jobs id cond write j jobs in
    elim (Bool-cases (text_eq r.id id && cond r)) [
      | inl e ↦
          let k : (j ≡ write r) ⊎ In j (update_jobs id cond write jobs).0 = rw e at i in
          elim k [
            | inl q ↦
                inr (r, inl refl, ground (arith, e, text_eq_iff r.id id), ground (arith, e), q)
            | inr m ↦ later (h m)
          ]
      | inr e ↦
          let k : (j ≡ r) ⊎ In j (update_jobs id cond write jobs).0 = rw e at i in
          elim k [ inl q ↦ inl (inl q, rw q e) | inr m ↦ later (h m) ]
    ]

pub update_jobs-In :
    (id : Text) (cond : Job → Bool) (write : Job → Job) (j : Job) (jobs : List Job)
    → In j jobs
    → In (if text_eq j.id id && cond j then write j else j) (update_jobs id cond write jobs).0
unfolding update_jobs
update_jobs-In id cond write j [] i = absurd i
update_jobs-In id cond write j (r ∷ jobs) (inl e) = elim (Bool-cases (text_eq r.id id && cond r)) [
  | inl k ↦ rw (e, k) (inl refl)
  | inr k ↦ rw (e, k) (inl refl)
]
update_jobs-In id cond write j (r ∷ jobs) (inr i) =
    let h = update_jobs-In id cond write j jobs i in
    elim (Bool-cases (text_eq r.id id && cond r)) [ inl k ↦ rw k (inr h) | inr k ↦ rw k (inr h) ]

pub ids_of-update_jobs :
    (id : Text) (cond : Job → Bool) (write : Job → Job) (jobs : List Job)
    → ((j : Job) → (write j).id ≡ j.id)
    → ids_of (update_jobs id cond write jobs).0 ≡ ids_of jobs
unfolding update_jobs
ids_of-update_jobs id cond write [] h = refl
ids_of-update_jobs id cond write (r ∷ jobs) h =
    ground (arith, ids_of-update_jobs id cond write jobs h, h r)

-- A count that is not zero comes of a row.
pub update_jobs-count :
    (id : Text) (cond : Job → Bool) (write : Job → Job) (jobs : List Job)
    → ((update_jobs id cond write jobs).1 == 0) ≡ false
    → (j : Job) × In j jobs × (j.id ≡ id) × (cond j ≡ true)
unfolding update_jobs
update_jobs-count id cond write [] h = cc h
update_jobs-count id cond write (r ∷ jobs) h = elim (Bool-cases (text_eq r.id id && cond r)) [
  | inl e ↦ (r, inl refl, ground (arith, e, text_eq_iff r.id id), ground (arith, e))
  | inr e ↦
      let (j, i, p, q) = update_jobs-count id cond write jobs (ground (arith, e, h)) in
      (j, inr i, p, q)
]

-- No row of that id, no change; one row, and one change.
pub update_jobs-none :
    (id : Text) (cond : Job → Bool) (write : Job → Job) (jobs : List Job)
    → ¬ In id (ids_of jobs)
    → (update_jobs id cond write jobs).1 ≡ 0
unfolding update_jobs
update_jobs-none id cond write [] n = refl
update_jobs-none id cond write (r ∷ jobs) n =
    let apart : r.id ≢ id = λ e. n (inl (sym e)) in
    let b : text_eq r.id id ≡ false = ground (arith, text_eq_iff r.id id, apart) in
    rw b (update_jobs-none id cond write jobs (λ i. n (inr i)))

pub ids_of-In : (j : Job) (jobs : List Job) → In j jobs → In j.id (ids_of jobs)
ids_of-In j [] i = i
ids_of-In j (r ∷ jobs) (inl e) = inl (ap (λ (x : Job). x.id) e)
ids_of-In j (r ∷ jobs) (inr i) = inr (ids_of-In j jobs i)

pub update_jobs-once :
    (id : Text) (cond : Job → Bool) (write : Job → Job) (j : Job) (jobs : List Job)
    → NoDup (ids_of jobs)
    → In j jobs
    → j.id ≡ id
    → cond j ≡ true
    → (update_jobs id cond write jobs).1 ≡ 1
unfolding update_jobs
update_jobs-once id cond write j [] d i e c = absurd i
update_jobs-once id cond write j (r ∷ jobs) d (inl q) e c =
    let same : r.id ≡ id = ap (λ (x : Job). x.id) (sym q) ∙ e in
    let b : (text_eq r.id id && cond r) ≡ true =
      ground (arith, text_eq_iff r.id id, same, ap cond (sym q) ∙ c) in
    rw (b, update_jobs-none id cond write jobs (rw same at d.0)) refl
update_jobs-once id cond write j (r ∷ jobs) d (inr i) e c =
    let apart : r.id ≢ id = λ p. d.0 (rw (e ∙ sym p) at (ids_of-In j jobs i)) in
    let b : text_eq r.id id ≡ false = ground (arith, text_eq_iff r.id id, apart) in
    rw b (update_jobs-once id cond write j jobs d.1 i e c)

-- Ids are unique, so rows with one id are one row.
pub same_job :
    (i j : Job) (jobs : List Job)
    → NoDup (ids_of jobs)
    → In i jobs
    → In j jobs
    → i.id ≡ j.id
    → i ≡ j
same_job i j [] d a b e = absurd a
same_job i j (r ∷ jobs) d (inl a) (inl b) e = a ∙ sym b
same_job i j (r ∷ jobs) d (inl a) (inr b) e = absurd (d.0 (rw (← a, e) (ids_of-In j jobs b)))
same_job i j (r ∷ jobs) d (inr a) (inl b) e = absurd (d.0 (rw (← b, ← e) (ids_of-In i jobs a)))
same_job i j (r ∷ jobs) d (inr a) (inr b) e = same_job i j jobs d.1 a b e

pub find_job-absent :
    (id : Text) (jobs : List Job) → find_job id jobs ≡ none → ¬ In id (ids_of jobs)
find_job-absent id [] e i = i
find_job-absent id (j ∷ jobs) e (inl p) = ground (arith, e, p, text_eq_iff j.id id)
find_job-absent id (j ∷ jobs) e (inr i) = find_job-absent id jobs (ground (arith, e)) i

pub In-find_job :
    (id : Text) (j : Job) (jobs : List Job)
    → In j jobs
    → j.id ≡ id
    → (i : Job) × (find_job id jobs ≡ some i)
In-find_job id j [] i e = absurd i
In-find_job id j (r ∷ jobs) i e = elim (Bool-cases (text_eq r.id id)) [
  | inl k ↦ rw k (r, refl)
  | inr k ↦ elim i [
    | inl p ↦ cc (k, (text_eq_iff r.id id).1 (ap (λ (x : Job). x.id) (sym p) ∙ e))
    | inr p ↦ rw k (In-find_job id j jobs p e)
  ]
]
