-- ===== src/Retention/Positions.antt =====
-- `Prune` by position: an archive's fate is read off the archives above it.
use mathlib.Core.Path.{subst}
use valmin.Shared.{
  ℕ, zero, suc, ◌+◌, ◌<◌, ◌≤◌, ◌≡◌, refl, sym, ap, ◌∙◌, ◌↔◌, ◌⊎◌, inl, inr, Bool, true, false, not,
  ◌&&◌, ◌||◌, List, [], ◌∷◌, ◌++◌, arith, if◌then◌else◌, Bool-cases, ℤ, pos, negsuc, In,
}
use valmin.Retention.{
  Entry, Policy, RetentionClass, class_cold, class_hot, class_snapshot, ClassCount, Counts,
  count_of, with_count, same_class, class_of_entry, limit_of, below, unlimited, last_good, tally,
  prune_step, prune_from, prune, no_counts,
}

-- What retention looks at: the class, and whether the item can be the last good one of its class.
pub record View : Type 0 where
  pub class : RetentionClass
  pub good : Bool

-- How many items of a class there are, and whether one of them is good.
abbrev pub rank : RetentionClass → List View → ℕ
rank class [] = 0
rank class (v ∷ vs) = if same_class v.class class then suc (rank class vs) else rank class vs

abbrev pub any_good : RetentionClass → List View → Bool
any_good class [] = false
any_good class (v ∷ vs) = same_class v.class class && v.good || any_good class vs

-- The item is past its class's limit, given the newer items, and it is not the newest good one.
abbrev pub past : ℤ → List View → View → Bool
past limit newer v =
    not (unlimited limit)
    && not (below (rank v.class newer) limit)
    && not (v.good && not (any_good v.class newer))

abbrev pub view_of : Entry → View
view_of a = record { class = class_of_entry a; good = not a.snapshot && not a.flagged }

-- The views after an archive: a pinned one does not count.
abbrev pub newer_with : Entry → List View → List View
newer_with a vs = if a.pinned then vs else view_of a ∷ vs

abbrev pub views : List Entry → List View → List View
views [] vs = vs
views (a ∷ archives) vs = views archives (newer_with a vs)

abbrev pub doomed : Policy → List View → Entry → Bool
doomed policy newer a = not a.pinned && past (limit_of policy (class_of_entry a)) newer (view_of a)

abbrev pub doomed_from : Policy → List View → List Entry → List Entry
doomed_from policy newer [] = []
doomed_from policy newer (a ∷ archives) =
    let rest = doomed_from policy (newer_with a newer) archives in
    if doomed policy newer a then a ∷ rest else rest

-- A class's count agrees with the newer items.
abbrev Agrees : ℤ → RetentionClass → List View → ClassCount → Type 0
Agrees limit class vs k =
    (k.saw_unflagged ≡ any_good class vs)
    × (k.kept ≤ rank class vs)
    × (unlimited limit ≡ false → (k.kept ≡ rank class vs) ⊎ (below k.kept limit ≡ false))

abbrev AllAgree : Policy → List View → Counts → Type 0
AllAgree policy vs c =
    (class : RetentionClass) → Agrees (limit_of policy class) class vs (count_of class c)

below_mono : (m n : ℕ) (limit : ℤ) → m ≤ n → below m limit ≡ false → below n limit ≡ false
below_mono m n (pos l) h b = ground arith
below_mono m n (negsuc l) h b = refl

tally-Agrees :
    (limit : ℤ) (class : RetentionClass) (vs : List View) (k : ClassCount) (good seen : Bool)
    → Agrees limit class vs k
    → same_class class class ≡ true
    → good ≡ (seen && not k.saw_unflagged)
    → Agrees limit class (record { class = class; good = seen } ∷ vs) (tally good limit k).0
      × ((tally good limit k).1 ≡ past limit vs (record { class = class; good = seen }))
unfolding tally
tally-Agrees limit class vs k good seen (s, l, u) h g = elim (Bool-cases (unlimited limit)) [
  | inl e ↦ ground (arith, e, s, l, h, g)
  | inr e ↦ elim (Bool-cases (below k.kept limit)) [
    | inl b ↦ ground (arith, e, b, s, l, u e, h, g)
    | inr b ↦ ground (arith, e, b, s, l, u e, h, g, below_mono k.kept (rank class vs) limit l b)
  ]
]

pub count_of-with_count :
    (a b : RetentionClass) (k : ClassCount) (c : Counts)
    → count_of b (with_count a k c) ≡ (if same_class a b then k else count_of b c)
count_of-with_count class_cold class_cold k c = refl
count_of-with_count class_hot class_hot k c = refl
count_of-with_count class_snapshot class_snapshot k c = refl
count_of-with_count _ _ k c = refl

pub same_class_iff : (a b : RetentionClass) → (same_class a b ≡ true) ↔ (a ≡ b)
same_class_iff a b = ground arith

-- An item leaves the other classes' counts alone.
other-Agrees :
    (limit : ℤ) (class : RetentionClass) (vs : List View) (v : View) (k : ClassCount)
    → same_class v.class class ≡ false
    → Agrees limit class vs k
    → Agrees limit class (v ∷ vs) k
other-Agrees limit class vs v k d h = rw d h

all-Agree :
    (policy : Policy) (vs : List View) (c : Counts) (v : View) (k : ClassCount)
    → AllAgree policy vs c
    → Agrees (limit_of policy v.class) v.class (v ∷ vs) k
    → AllAgree policy (v ∷ vs) (with_count v.class k c)
all-Agree policy vs c v k h a class = elim (Bool-cases (same_class v.class class)) [
  | inl e ↦
      let s = (same_class_iff v.class class).0 e in
      let q : count_of class (with_count v.class k c) ≡ k =
        rw (count_of-with_count v.class class k c, e) refl in
      subst (Agrees (limit_of policy class) class (v ∷ vs)) (sym q)
        (subst (λ x. Agrees (limit_of policy x) x (v ∷ vs) k) s a)
  | inr e ↦ rw (count_of-with_count v.class class k c, e) (h class)
]

prune_step-AllAgree :
    (policy : Policy) (a : Entry) (vs : List View) (c : Counts)
    → AllAgree policy vs c
    → AllAgree policy (newer_with a vs) (prune_step policy a c).0
      × ((prune_step policy a c).1 ≡ doomed policy vs a)
unfolding prune_step last_good
prune_step-AllAgree policy a vs c h = elim (Bool-cases a.pinned) [
  | inl e ↦ rw e (h, refl)
  | inr e ↦
      let class = class_of_entry a in
      let (p, q) =
        tally-Agrees (limit_of policy class) class vs (count_of class c)
          (last_good a (count_of class c)) (not a.snapshot && not a.flagged) (h class)
          ((same_class_iff class class).1 refl) (ground arith) in
      rw e (all-Agree policy vs c (view_of a) _ h p, q)
]

prune_from-doomed_from :
    (policy : Policy) (archives : List Entry) (vs : List View) (c : Counts)
    → AllAgree policy vs c
    → prune_from policy archives c ≡ doomed_from policy vs archives
unfolding prune_from
prune_from-doomed_from policy [] vs c h = refl
prune_from-doomed_from policy (a ∷ archives) vs c h =
    let (p, q) = prune_step-AllAgree policy a vs c h in
    rw (q, prune_from-doomed_from policy archives (newer_with a vs) (prune_step policy a c).0 p)
      refl

no_counts-AllAgree : (policy : Policy) → AllAgree policy [] no_counts
no_counts-AllAgree policy class_cold = ground arith
no_counts-AllAgree policy class_hot = ground arith
no_counts-AllAgree policy class_snapshot = ground arith

pub prune-doomed_from :
    (policy : Policy) (archives : List Entry)
    → prune archives policy ≡ doomed_from policy [] archives
unfolding prune
prune-doomed_from policy archives =
    prune_from-doomed_from policy archives [] no_counts (no_counts-AllAgree policy)

abbrev pub same : Bool → Bool → Bool
same true y = y
same false y = not y

-- Two archives of one class: snapshots, or others of one consistency.
abbrev pub alike : Entry → Entry → Bool
alike a b = same a.snapshot b.snapshot && (a.snapshot || same a.consistent b.consistent)

-- How many unpinned archives of a list are of its class.
abbrev pub count_alike : Entry → List Entry → ℕ
count_alike a [] = 0
count_alike a (b ∷ archives) =
    if not b.pinned && alike a b then suc (count_alike a archives) else count_alike a archives

-- How many archives of its class the policy keeps: hot ones of a running server, and all others.
abbrev pub keep_of : Policy → Entry → ℤ
keep_of policy a = if a.snapshot || a.consistent then policy.keep_cold else policy.keep_hot

-- It may be the last good one: a snapshot or a flagged archive is not, nor is one with an unflagged
-- archive of its class above it.
abbrev pub Replaceable : Entry → List Entry → Type 0
Replaceable a newer =
    (a.snapshot ≡ true)
    ⊎ (a.flagged ≡ true)
    ⊎ ((b : Entry) × In b newer × (b.pinned ≡ false) × (alike a b ≡ true) × (b.flagged ≡ false))

-- An archive at a place of the list that retention does not keep.
pub record Dropped (policy : Policy) (archives : List Entry) (a : Entry) : Type 0 where
  pub newer : List Entry
  pub older : List Entry
  pub placed : archives ≡ newer ++ a ∷ older
  pub unpinned : a.pinned ≡ false
  pub limit : (l : ℕ) × (keep_of policy a ≡ pos l) × (0 < l) × (l ≤ count_alike a newer)
  pub replaceable : Replaceable a newer

-- The same, by the views of the newer ones.
record Placed (policy : Policy) (archives : List Entry) (vs : List View) (a : Entry) : Type 0 where
  pub newer : List Entry
  pub older : List Entry
  pub placed : archives ≡ newer ++ a ∷ older
  pub not_kept : doomed policy (views newer vs) a ≡ true

Placed-later :
    (policy : Policy) (archives : List Entry) (vs : List View) (x a : Entry)
    → Placed policy archives (newer_with x vs) a
    → Placed policy (x ∷ archives) vs a
Placed-later policy archives vs x a d = record {
  newer = x ∷ d.newer;
  older = d.older;
  placed = ap (λ ys. x ∷ ys) d.placed;
  not_kept = d.not_kept;
}

doomed_from-Placed :
    (policy : Policy) (archives : List Entry) (vs : List View) (a : Entry)
    → In a (doomed_from policy vs archives)
    → Placed policy archives vs a
doomed_from-Placed policy [] vs a i = absurd i
doomed_from-Placed policy (x ∷ archives) vs a i =
    let later = λ (j : In a (doomed_from policy (newer_with x vs) archives)).
      Placed-later policy archives vs x a
        (doomed_from-Placed policy archives (newer_with x vs) a j) in
    elim (Bool-cases (doomed policy vs x)) [
      | inr e ↦ later (rw e at i)
      | inl e ↦
          let k : (a ≡ x) ⊎ In a (doomed_from policy (newer_with x vs) archives) = rw e at i in
          elim k [
            | inl q ↦ record {
              newer = [];
              older = archives;
              placed = ap (λ y. y ∷ archives) (sym q);
              not_kept = rw q e;
            }
            | inr j ↦ later j
          ]
    ]

Placed-doomed_from :
    (policy : Policy) (newer older : List Entry) (vs : List View) (a : Entry)
    → doomed policy (views newer vs) a ≡ true
    → In a (doomed_from policy vs (newer ++ a ∷ older))
Placed-doomed_from policy [] older vs a d = rw d (inl refl)
Placed-doomed_from policy (x ∷ newer) older vs a d =
    let i = Placed-doomed_from policy newer older (newer_with x vs) a d in
    elim (Bool-cases (doomed policy vs x)) [ inl e ↦ rw e (inr i) | inr e ↦ rw e i ]

class_of_entry-alike : (a b : Entry) → same_class (class_of_entry b) (class_of_entry a) ≡ alike a b
unfolding class_of_entry
class_of_entry-alike a b = by_fields a.snapshot b.snapshot a.consistent b.consistent
  where
    class_from : Bool → Bool → RetentionClass
    class_from snapshot consistent =
        if snapshot then class_snapshot else if not consistent then class_hot else class_cold

    by_fields :
        (s t c d : Bool)
        → same_class (class_from t d) (class_from s c) ≡ (same s t && (s || same c d))
    by_fields true true c d = refl
    by_fields true false c true = refl
    by_fields true false c false = refl
    by_fields false true true d = refl
    by_fields false true false d = refl
    by_fields false false true true = refl
    by_fields false false true false = refl
    by_fields false false false true = refl
    by_fields false false false false = refl

rank-views :
    (a : Entry) (newer : List Entry) (vs : List View)
    → rank (class_of_entry a) (views newer vs) ≡ count_alike a newer + rank (class_of_entry a) vs
rank-views a [] vs = omega arith
rank-views a (b ∷ newer) vs = elim (Bool-cases b.pinned) [
  | inl e ↦ rw e (rank-views a newer vs)
  | inr e ↦
      let class = class_of_entry a in
      let q : newer_with b vs ≡ view_of b ∷ vs = rw e refl in
      let h : rank class (views newer (newer_with b vs))
          ≡ count_alike a newer + rank class (view_of b ∷ vs) =
        ap (λ (ws : List View). rank class (views newer ws)) q
        ∙ rank-views a newer (view_of b ∷ vs) in
      elim (Bool-cases (alike a b)) [
        | inl f ↦
            let g : same_class (class_of_entry b) class ≡ true = class_of_entry-alike a b ∙ f in
            let n : count_alike a (b ∷ newer) ≡ suc (count_alike a newer) = rw (f, e) refl in
            let m : rank class (view_of b ∷ vs) ≡ suc (rank class vs) = rw g refl in
            h ∙ omega (arith, n, m)
        | inr f ↦
            let g : same_class (class_of_entry b) class ≡ false = class_of_entry-alike a b ∙ f in
            let n : count_alike a (b ∷ newer) ≡ count_alike a newer = rw (f, e) refl in
            let m : rank class (view_of b ∷ vs) ≡ rank class vs = rw g refl in
            h ∙ omega (arith, n, m)
      ]
]

-- An unflagged archive of the class, no snapshot, in a list.
abbrev is_good : Entry → Entry → Bool
is_good a b = not b.pinned && (alike a b && (not b.snapshot && not b.flagged))

any_alike : Entry → List Entry → Bool
any_alike a [] = false
any_alike a (b ∷ archives) = is_good a b || any_alike a archives

any_good-views :
    (a : Entry) (newer : List Entry) (vs : List View)
    → any_good (class_of_entry a) (views newer vs)
      ≡ (any_alike a newer || any_good (class_of_entry a) vs)
unfolding any_alike class_of_entry
any_good-views a [] vs = refl
any_good-views a (b ∷ newer) vs = elim (Bool-cases b.pinned) [
  | inl e ↦ rw e (any_good-views a newer vs)
  | inr e ↦
      let h = any_good-views a newer (view_of b ∷ vs) in
      let c = class_of_entry-alike a b in
      rw (e, h, c)
        (shuffle (any_alike a newer) (alike a b && (not b.snapshot && not b.flagged))
          (any_good (class_of_entry a) vs))
]
  where
    shuffle : (x y z : Bool) → (x || (y || z)) ≡ ((y || x) || z)
    shuffle true true z = refl
    shuffle true false z = refl
    shuffle false true z = refl
    shuffle false false z = refl

abbrev Good : Entry → List Entry → Type 0
Good a newer =
    (b : Entry) × In b newer × (b.pinned ≡ false) × (alike a b ≡ true) × (b.flagged ≡ false)

any_alike_iff :
    (a : Entry) (newer : List Entry)
    → a.snapshot ≡ false
    → (any_alike a newer ≡ true) ↔ Good a newer
unfolding any_alike
any_alike_iff a [] s = ((λ h. cc h), λ (b, i, p, k, f). absurd i)
any_alike_iff a (b ∷ newer) s =
    let (to, from) = any_alike_iff a newer s in
    (
      (λ h. elim (Bool-cases (is_good a b)) [
        | inl g ↦ (b, inl refl, ground (arith, g), ground (arith, g), ground (arith, g))
        | inr g ↦ let (d, i, p, k, f) = to (ground (arith, h, g)) in (d, inr i, p, k, f)
      ]),
      (λ (d, i, p, k, f). elim i [
        | inl e ↦ let g : is_good a b ≡ true = rw (← e) (good_here d p k f) in rw g refl
        | inr j ↦ let g = from (d, j, p, k, f) in ground (arith, g)
      ]),
    )
  where
    good_here :
        (d : Entry) → d.pinned ≡ false → alike a d ≡ true → d.flagged ≡ false → is_good a d ≡ true
    good_here d p k f = let t : d.snapshot ≡ false = ground (arith, k, s) in rw (p, k, t, f) refl

-- What the views say of an archive is what the archives above it say.
doomed-views :
    (policy : Policy) (newer : List Entry) (a : Entry)
    → doomed policy (views newer []) a ≡ (
        not a.pinned
        && (not (unlimited (limit_of policy (class_of_entry a)))
            && not (below (count_alike a newer) (limit_of policy (class_of_entry a)))
            && not ((not a.snapshot && not a.flagged) && not (any_alike a newer))))
doomed-views policy newer a =
    let n : rank (class_of_entry a) (views newer []) ≡ count_alike a newer =
      rank-views a newer [] ∙ omega arith in
    let g : any_good (class_of_entry a) (views newer []) ≡ any_alike a newer =
      any_good-views a newer [] ∙ or_false (any_alike a newer) in
    rw (n, g) refl
  where
    or_false : (b : Bool) → (b || false) ≡ b
    or_false true = refl
    or_false false = refl

limit_of-keep_of :
    (policy : Policy) (a : Entry) → limit_of policy (class_of_entry a) ≡ keep_of policy a
unfolding limit_of class_of_entry
limit_of-keep_of policy a = elim (Bool-cases a.snapshot) [
  | inl e ↦ rw e refl
  | inr e ↦ elim (Bool-cases a.consistent) [ inl f ↦ rw (e, f) refl | inr f ↦ rw (e, f) refl ]
]

pos-injective : {a b : ℕ} → pos a ≡ pos b → a ≡ b
pos-injective e = cc e

reached_iff :
    (n : ℕ) (limit : ℤ)
    → ((not (unlimited limit) && not (below n limit)) ≡ true)
      ↔ ((l : ℕ) × (limit ≡ pos l) × (0 < l) × (l ≤ n))
reached_iff n (pos zero) =
    ((λ h. cc h), λ (l, e, p, q). let z : 0 ≡ l = pos-injective e in absurd (omega (arith, z, p)))
reached_iff n (pos (suc m)) = (
  (λ h. (suc m, refl, ground arith, ground (arith, h))),
  λ (l, e, p, q). let z : suc m ≡ l = pos-injective e in ground (arith, z, q),
)
reached_iff n (negsuc m) = ((λ h. cc h), λ (l, e, p, q). cc e)

Replaceable-iff :
    (a : Entry) (newer : List Entry)
    → (not ((not a.snapshot && not a.flagged) && not (any_alike a newer)) ≡ true)
      ↔ Replaceable a newer
Replaceable-iff a newer = elim (Bool-cases a.snapshot) [
  | inl e ↦ ((λ h. inl e), λ r. rw e refl)
  | inr e ↦ elim (Bool-cases a.flagged) [
    | inl f ↦ ((λ h. inr (inl f)), λ r. rw (e, f) refl)
    | inr f ↦
        let (to, from) = any_alike_iff a newer e in
        (
          (λ h. inr (inr (to (ground (arith, h, e, f))))),
          (λ r. elim r [
            | inl x ↦ cc (x, e)
            | inr (inl x) ↦ cc (x, f)
            | inr (inr g) ↦ let k = from g in ground (arith, k)
          ]),
        )
  ]
]

doomed_iff :
    (policy : Policy) (newer : List Entry) (a : Entry)
    → (doomed policy (views newer []) a ≡ true) ↔ (
        (a.pinned ≡ false)
        × ((l : ℕ) × (keep_of policy a ≡ pos l) × (0 < l) × (l ≤ count_alike a newer))
        × Replaceable a newer)
doomed_iff policy newer a =
    let v = doomed-views policy newer a in
    let (r, r') = reached_iff (count_alike a newer) (limit_of policy (class_of_entry a)) in
    let (g, g') = Replaceable-iff a newer in
    let k = limit_of-keep_of policy a in
    (
      (λ h.
          let w = sym v ∙ h in
          let (l, e, p, q) = r (ground (arith, w)) in
          (ground (arith, w), (l, sym k ∙ e, p, q), g (ground (arith, w)))),
      (λ (n, (l, e, p, q), x).
          let a1 = r' (l, k ∙ e, p, q) in let a2 = g' x in v ∙ ground (arith, n, a1, a2)),
    )

-- `Prune` reports exactly the archives with a place in the catalogue's order at which all of this
-- holds: it is not pinned, its class has a limit, at least that many newer unpinned archives are
-- of its class, and it is not the newest unflagged one of a class other than the snapshots.
pub prune_iff :
    (policy : Policy) (archives : List Entry) (a : Entry)
    → In a (prune archives policy) ↔ Dropped policy archives a
prune_iff policy archives a = (
  (λ i.
      let d =
        doomed_from-Placed policy archives [] a (rw (prune-doomed_from policy archives) at i) in
      let (n, l, r) = (doomed_iff policy d.newer a).0 d.not_kept in
      record {
        newer = d.newer;
        older = d.older;
        placed = d.placed;
        unpinned = n;
        limit = l;
        replaceable = r;
      }),
  (λ d.
      rw (prune-doomed_from policy archives, d.placed)
        (Placed-doomed_from policy d.newer d.older [] a
          ((doomed_iff policy d.newer a).1 (d.unpinned, d.limit, d.replaceable)))),
)
