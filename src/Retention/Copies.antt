-- ===== src/Retention/Copies.antt =====
-- The remote copies: their marks by position, and the archives' rule on the same backups.
use valmin.Shared.{
  ℕ, suc, ◌≡◌, refl, sym, ap, ◌∙◌, inl, inr, Bool, true, false, not, ◌&&◌, ◌||◌, List, [], ◌∷◌, map,
  arith, if◌then◌else◌, Bool-cases, ℤ, pos, negsuc,
}
use valmin.Retention.{
  Entry, Policy, RetentionClass, class_cold, class_hot, class_snapshot, ClassCount, Counts,
  count_of, with_count, same_class, class_of_entry, limit_of, below, prune, no_counts, RemoteCopy,
  Instance, class_of, keep_limit, is_snapshot, above, mark_step, mark_from, mark_instance_retention,
  snapshot_trigger,
}
use valmin.Retention.Positions.{
  View, rank, any_good, past, view_of, doomed_from, doomed, prune-doomed_from, same_class_iff,
  count_of-with_count,
}

abbrev pub copy_view : RemoteCopy → View
copy_view c = record {
  class = class_of c.trigger c.consistent;
  good = not (is_snapshot (class_of c.trigger c.consistent)) && not c.world_flagged;
}

-- The mark that the newer copies call for.
abbrev pub mark : Instance → List View → RemoteCopy → Bool
mark inst newer c = past (keep_limit inst (class_of c.trigger c.consistent)) newer (copy_view c)

abbrev pub marks_from : Instance → List View → List RemoteCopy → List RemoteCopy
marks_from inst newer [] = []
marks_from inst newer (c ∷ copies) =
    record c { cleanup_pending = mark inst newer c } ∷ marks_from inst (copy_view c ∷ newer) copies

abbrev Counted : List View → Counts → Type 0
Counted vs c =
    (class : RetentionClass)
    → ((count_of class c).kept ≡ rank class vs)
      × ((count_of class c).saw_unflagged ≡ any_good class vs)

above-suc : (n : ℕ) (limit : ℤ) → above (suc n) limit ≡ not (below n limit)
above-suc n (pos l) = ground arith
above-suc n (negsuc l) = refl

marked_as :
    (c : RemoteCopy) (b : Bool)
    → (if b
        then record c { cleanup_pending = true }
        else if c.cleanup_pending
        then record c { cleanup_pending = false }
        else c)
      ≡ record c { cleanup_pending = b }
marked_as c b = ground arith

counts-after :
    (vs : List View) (c : Counts) (v : View) (k : ClassCount)
    → Counted vs c
    → k.kept ≡ suc (rank v.class vs)
    → k.saw_unflagged ≡ (any_good v.class vs || v.good)
    → Counted (v ∷ vs) (with_count v.class k c)
counts-after vs c v k h p q class = elim (Bool-cases (same_class v.class class)) [
  | inr e ↦ rw (count_of-with_count v.class class k c, e) (h class)
  | inl e ↦
      let s = (same_class_iff v.class class).0 e in
      rw (count_of-with_count v.class class k c, e) (ground (arith, p, q, s))
]

mark_step-Counted :
    (inst : Instance) (c : RemoteCopy) (vs : List View) (k : Counts)
    → Counted vs k
    → Counted (copy_view c ∷ vs) (mark_step inst c k).0
      × ((mark_step inst c k).1 ≡ record c { cleanup_pending = mark inst vs c })
unfolding mark_step
mark_step-Counted inst c vs k h =
    let class = class_of c.trigger c.consistent in
    let (p, q) = h class in
    (
      counts-after vs k (copy_view c) _ h (ap (λ (n : ℕ). suc n) p) (ground (arith, q)),
      marked_as c _
          ∙ ap (λ (b : Bool). record c { cleanup_pending = b })
              (ground (arith, p, q, above-suc (rank class vs) (keep_limit inst class))),
    )

mark_from-marks_from :
    (inst : Instance) (copies : List RemoteCopy) (vs : List View) (k : Counts)
    → Counted vs k
    → mark_from inst copies k ≡ marks_from inst vs copies
unfolding mark_from
mark_from-marks_from inst [] vs k h = refl
mark_from-marks_from inst (c ∷ copies) vs k h =
    let (p, q) = mark_step-Counted inst c vs k h in
    rw (q, mark_from-marks_from inst copies (copy_view c ∷ vs) (mark_step inst c k).0 p) refl

no_counts-Counted : Counted [] no_counts
no_counts-Counted class_cold = (refl, refl)
no_counts-Counted class_hot = (refl, refl)
no_counts-Counted class_snapshot = (refl, refl)

-- Whatever marks the copies carry, retention leaves each with the one that the copies above it
-- call for: set exactly where its class has a limit, as many newer copies of the class are there,
-- and it is not the newest unflagged copy of a class other than the snapshots.
pub mark_instance_retention_lem :
    (inst : Instance) (copies : List RemoteCopy)
    → mark_instance_retention inst copies ≡ marks_from inst [] copies
unfolding mark_instance_retention
mark_instance_retention_lem inst copies =
    mark_from-marks_from inst copies [] no_counts no_counts-Counted

-- The archive that a copy was made of.
abbrev pub entry_of : RemoteCopy → Entry
entry_of c = record {
  id = c.backup_id;
  path = [];
  consistent = c.consistent;
  snapshot = snapshot_trigger c.trigger;
  pinned = false;
  flagged = c.world_flagged;
}

abbrev pub policy_of : Instance → Policy
policy_of inst = record { keep_cold = inst.remote_keep_cold; keep_hot = inst.remote_keep_hot }

abbrev pub marked : List RemoteCopy → List RemoteCopy
marked [] = []
marked (c ∷ copies) = if c.cleanup_pending then c ∷ marked copies else marked copies

view_of-entry_of : (c : RemoteCopy) → view_of (entry_of c) ≡ copy_view c
unfolding class_of_entry class_of
view_of-entry_of c = elim (Bool-cases (snapshot_trigger c.trigger)) [
  | inl e ↦ rw e refl
  | inr e ↦ elim (Bool-cases c.consistent) [ inl k ↦ rw (e, k) refl | inr k ↦ rw (e, k) refl ]
]

limit_of-policy_of :
    (inst : Instance) (class : RetentionClass)
    → inst.remote_keep_snapshots ≡ inst.remote_keep_cold
    → limit_of (policy_of inst) class ≡ keep_limit inst class
unfolding limit_of keep_limit
limit_of-policy_of inst class_cold h = refl
limit_of-policy_of inst class_hot h = refl
limit_of-policy_of inst class_snapshot h = sym h

doomed-entry_of :
    (inst : Instance) (vs : List View) (c : RemoteCopy)
    → inst.remote_keep_snapshots ≡ inst.remote_keep_cold
    → doomed (policy_of inst) vs (entry_of c) ≡ mark inst vs c
doomed-entry_of inst vs c h =
    ap (λ (v : View). past (limit_of (policy_of inst) v.class) vs v) (view_of-entry_of c)
    ∙ ap (λ (l : ℤ). past l vs (copy_view c))
        (limit_of-policy_of inst (class_of c.trigger c.consistent) h)

map-marked :
    (b : Bool) (c : RemoteCopy) (copies : List RemoteCopy)
    → (if b then entry_of c ∷ map entry_of (marked copies) else map entry_of (marked copies))
      ≡ map entry_of (if b then record c { cleanup_pending = b } ∷ marked copies else marked copies)
map-marked true c copies = refl
map-marked false c copies = refl

doomed_from-marks_from :
    (inst : Instance) (copies : List RemoteCopy) (vs : List View)
    → inst.remote_keep_snapshots ≡ inst.remote_keep_cold
    → doomed_from (policy_of inst) vs (map entry_of copies)
      ≡ map entry_of (marked (marks_from inst vs copies))
doomed_from-marks_from inst [] vs h = refl
doomed_from-marks_from inst (c ∷ copies) vs h =
    rw
      (
        doomed-entry_of inst vs c h,
        view_of-entry_of c,
        doomed_from-marks_from inst copies (copy_view c ∷ vs) h,
      )
      (map-marked (mark inst vs c) c (marks_from inst (copy_view c ∷ vs) copies))

-- Of the same backups, none of them pinned, and under the same limits, with one limit for cold
-- copies and snapshots, the local rule dooms exactly the archives whose remote copies the other
-- rule marks.
pub prune_marked :
    (inst : Instance) (copies : List RemoteCopy)
    → inst.remote_keep_snapshots ≡ inst.remote_keep_cold
    → prune (map entry_of copies) (policy_of inst)
      ≡ map entry_of (marked (mark_instance_retention inst copies))
prune_marked inst copies h =
    prune-doomed_from (policy_of inst) (map entry_of copies)
    ∙ doomed_from-marks_from inst copies [] h
    ∙ ap (λ cs. map entry_of (marked cs)) (sym (mark_instance_retention_lem inst copies))
