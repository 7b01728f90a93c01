-- ===== src/Retention/Arrival.antt =====
-- `PrunedOnArrival` foretells the mark.
use valmin.Shared.{
  ℕ, zero, suc, ◌+◌, ◌≤◌, ◌≡◌, refl, sym, ap, ◌∙◌, ◌⊎◌, inl, inr, Bool, true, false, not, ◌&&◌,
  List, [], ◌∷◌, ◌++◌, some, arith, if◌then◌else◌, Bool-cases, ◌==◌, ℤ, pos, negsuc, Text, text_eq,
  text_lt, All,
}
use valmin.Retention.{
  RetentionClass, same_class, below, unlimited, RemoteCopy, Instance, Backup, class_of, keep_limit,
  is_snapshot, counts_as_newer, newer_counts, no_attention, pruned_on_arrival,
  mark_instance_retention,
}
use valmin.Retention.Positions.{View, rank, any_good, same_class_iff}
use valmin.Retention.Copies.{copy_view, mark, marks_from, mark_instance_retention_lem}

-- The row that a backup's upload leaves.
abbrev pub arrived : Backup → Text → RemoteCopy
arrived b id = record {
  id = id;
  backup_id = b.id;
  trigger = b.trigger;
  consistent = b.consistent;
  world_flagged = not (no_attention b.world_attention);
  cleanup_pending = false;
  archive_created_at = b.created_at;
}

-- A copy of another backup that is newer, and one that is not.
abbrev pub NewerThan : Backup → RemoteCopy → Type 0
NewerThan b c =
    (text_eq c.backup_id b.id ≡ false) × (text_lt b.created_at c.archive_created_at ≡ true)

abbrev pub NotNewerThan : Backup → RemoteCopy → Type 0
NotNewerThan b c = text_lt b.created_at c.archive_created_at ≡ false

older-none :
    (b : Backup) (class : RetentionClass) (older : List RemoteCopy)
    → All (NotNewerThan b) older
    → newer_counts b class older ≡ (0, 0)
unfolding newer_counts counts_as_newer
older-none b class [] h = refl
older-none b class (c ∷ older) h = ground (arith, h.0, older-none b class older h.1)

newer-alone :
    (b : Backup) (class : RetentionClass) (newer older : List RemoteCopy)
    → All (NotNewerThan b) older
    → newer_counts b class (newer ++ older) ≡ newer_counts b class newer
unfolding newer_counts
newer-alone b class [] older h = older-none b class older h
newer-alone b class (c ∷ newer) older h = rw (newer-alone b class newer older h) refl

abbrev views_over : List RemoteCopy → List View → List View
views_over [] vs = vs
views_over (c ∷ copies) vs = views_over copies (copy_view c ∷ vs)

-- The copies carry the marks that are called for.
abbrev Fixed : Instance → List View → List RemoteCopy → Type 0
Fixed inst vs [] = Unit
Fixed inst vs (c ∷ copies) =
    (c.cleanup_pending ≡ mark inst vs c) × Fixed inst (copy_view c ∷ vs) copies

module _ (inst : Instance) (b : Backup) (class : RetentionClass) where
  below_rank :
      (vs : List View) (copies : List RemoteCopy)
      → All (NewerThan b) copies
      → (newer_counts b class copies).0 + rank class vs ≤ rank class (views_over copies vs)
  unfolding newer_counts counts_as_newer
  below_rank vs [] h = omega arith
  below_rank vs (c ∷ copies) h = ground (arith, h.0, below_rank (copy_view c ∷ vs) copies h.1)

  -- Fewer copies are counted than there are only where the limit is reached without them.
  reached :
      (l : ℕ) (vs : List View) (copies : List RemoteCopy)
      → keep_limit inst class ≡ pos (suc l)
      → All (NewerThan b) copies
      → Fixed inst vs copies
      → (rank class (views_over copies vs) ≤ (newer_counts b class copies).0 + rank class vs)
        ⊎ (suc l ≤ (newer_counts b class copies).0 + rank class vs)
  unfolding newer_counts counts_as_newer
  reached l vs [] e h f = inl (omega arith)
  reached l vs (c ∷ copies) e h f =
      let r = reached l (copy_view c ∷ vs) copies e h.1 f.1 in
      elim (Bool-cases (same_class (class_of c.trigger c.consistent) class)) [
        | inr k ↦ ground (arith, h.0, r, k)
        | inl k ↦ elim (Bool-cases c.cleanup_pending) [
          | inr p ↦ ground (arith, h.0, r, k, p)
          | inl p ↦
              let q : mark inst vs c ≡ true = sym f.0 ∙ p in
              let s = (same_class_iff (class_of c.trigger c.consistent) class).0 k in
              ground (arith, h.0, r, k, p, s, e, q)
        ]
      ]

  any_good-stays :
      (vs : List View) (copies : List RemoteCopy)
      → any_good class vs ≡ true
      → any_good class (views_over copies vs) ≡ true
  any_good-stays vs [] h = h
  any_good-stays vs (c ∷ copies) h = any_good-stays (copy_view c ∷ vs) copies (ground (arith, h))

  none_good :
      (vs : List View) (copies : List RemoteCopy)
      → is_snapshot class ≡ false
      → any_good class (views_over copies vs) ≡ false
      → (newer_counts b class copies).1 ≡ 0
  unfolding newer_counts counts_as_newer
  none_good vs [] n h = refl
  none_good vs (c ∷ copies) n h =
      let r = none_good (copy_view c ∷ vs) copies n h in
      elim (Bool-cases
        (same_class (class_of c.trigger c.consistent) class && not c.world_flagged)) [
          | inr k ↦ ground (arith, r, k)
          | inl k ↦
              let s = (same_class_iff (class_of c.trigger c.consistent) class).0 in
              cc (h, any_good-stays (copy_view c ∷ vs) copies (ground (arith, k, n, s)))
        ]

  some_good :
      (vs : List View) (copies : List RemoteCopy)
      → is_snapshot class ≡ false
      → All (NewerThan b) copies
      → Fixed inst vs copies
      → any_good class vs ≡ false
      → any_good class (views_over copies vs) ≡ true
      → ((newer_counts b class copies).1 == 0) ≡ false
  unfolding newer_counts counts_as_newer
  some_good vs [] n h f v g = cc
  some_good vs (c ∷ copies) n h f v g =
      let s = (same_class_iff (class_of c.trigger c.consistent) class).0 in
      elim (Bool-cases
        (same_class (class_of c.trigger c.consistent) class && not c.world_flagged)) [
          | inr k ↦
              let r = some_good (copy_view c ∷ vs) copies n h.1 f.1 (ground (arith, k, v)) g in
              ground (arith, r, k)
          | inl k ↦
              let p : c.cleanup_pending ≡ false = f.0 ∙ ground (arith, k, n, v, s) in
              ground (arith, h.0, k, p)
        ]

  below-rank_eq :
      (limit : ℤ) (newer : List RemoteCopy)
      → keep_limit inst class ≡ limit
      → unlimited limit ≡ false
      → All (NewerThan b) newer
      → Fixed inst [] newer
      → below (newer_counts b class newer).0 limit ≡ below (rank class (views_over newer [])) limit
  below-rank_eq (pos zero) newer e u h f = cc
  below-rank_eq (pos (suc l)) newer e u h f =
      ground (arith, below_rank [] newer h, reached l [] newer e h f)
  below-rank_eq (negsuc l) newer e u h f = cc

  unflagged_eq :
      (newer : List RemoteCopy)
      → is_snapshot class ≡ false
      → All (NewerThan b) newer
      → Fixed inst [] newer
      → ((newer_counts b class newer).1 == 0) ≡ not (any_good class (views_over newer []))
  unflagged_eq newer n h f = elim (Bool-cases (any_good class (views_over newer []))) [
    | inl g ↦ rw g (some_good [] newer n h f refl g)
    | inr g ↦ rw (g, none_good [] newer n g) refl
  ]

same_answer :
    (u s a g q : Bool) (z : Bool)
    → (s ≡ false → z ≡ not g)
    → (if u then false else if not s && a && z then false else not q)
      ≡ (not u && not q && not (not s && not (not a) && not g))
same_answer u s a g q z h = ground (arith, h)

-- The answer, on copies that are newer, is the mark of the copy that would arrive.
answer :
    (inst : Instance) (b : Backup) (newer : List RemoteCopy) (id : Text)
    → All (NewerThan b) newer
    → Fixed inst [] newer
    → pruned_on_arrival inst (some newer) b ≡ mark inst (views_over newer []) (arrived b id)
unfolding pruned_on_arrival
answer inst b newer id h f =
    let class = class_of b.trigger b.consistent in
    let limit = keep_limit inst class in
    elim (Bool-cases (unlimited limit)) [
      | inl u ↦ rw u refl
      | inr u ↦ rw (below-rank_eq inst b class limit newer refl u h f) (
          same_answer (unlimited limit) (is_snapshot class) (no_attention b.world_attention)
            (any_good class (views_over newer [])) (below (rank class (views_over newer [])) limit)
            _ (λ n. unflagged_eq inst b class newer n h f))
    ]

pruned-newer :
    (inst : Instance) (b : Backup) (newer older : List RemoteCopy)
    → All (NotNewerThan b) older
    → pruned_on_arrival inst (some (newer ++ older)) b ≡ pruned_on_arrival inst (some newer) b
unfolding pruned_on_arrival
pruned-newer inst b newer older h =
    rw (newer-alone b (class_of b.trigger b.consistent) newer older h) refl

marks_from-append :
    (inst : Instance) (newer copies : List RemoteCopy) (vs : List View)
    → marks_from inst vs (newer ++ copies)
      ≡ marks_from inst vs newer ++ marks_from inst (views_over newer vs) copies
marks_from-append inst [] copies vs = refl
marks_from-append inst (c ∷ newer) copies vs =
    ap (λ cs. record c { cleanup_pending = mark inst vs c } ∷ cs)
      (marks_from-append inst newer copies (copy_view c ∷ vs))

marks-Fixed :
    (inst : Instance) (vs : List View) (newer older : List RemoteCopy)
    → marks_from inst vs (newer ++ older) ≡ newer ++ older
    → Fixed inst vs newer
marks-Fixed inst vs [] older h = tt
marks-Fixed inst vs (c ∷ newer) older h =
    let p : record c { cleanup_pending = mark inst vs c } ≡ c = cc in
    (
      ap (λ (d : RemoteCopy). d.cleanup_pending) (sym p),
      marks-Fixed inst (copy_view c ∷ vs) newer older (cc),
    )

-- Where the copies carry the marks that retention gives them, `PrunedOnArrival` foretells the mark
-- of the next round: put among the copies below all that are newer than its backup and above all
-- that are not, the arriving copy is marked exactly if the answer is yes.
pub pruned_on_arrival_lem :
    (inst : Instance) (b : Backup) (id : Text) (newer older : List RemoteCopy)
    → All (NewerThan b) newer
    → All (NotNewerThan b) older
    → mark_instance_retention inst (newer ++ older) ≡ newer ++ older
    → (rest : List RemoteCopy) × (mark_instance_retention inst (newer ++ arrived b id ∷ older)
        ≡ mark_instance_retention inst newer
          ++ record (arrived b id) {
            cleanup_pending = pruned_on_arrival inst (some (newer ++ older)) b;
          }
            ∷ rest)
pruned_on_arrival_lem inst b id newer older h o e =
    let f =
      marks-Fixed inst [] newer older
        (sym (mark_instance_retention_lem inst (newer ++ older)) ∙ e) in
    (
      marks_from inst (copy_view (arrived b id) ∷ views_over newer []) older,
      rw
          (
            mark_instance_retention_lem inst (newer ++ arrived b id ∷ older),
            mark_instance_retention_lem inst newer,
            pruned-newer inst b newer older o,
            answer inst b newer id h f,
          )
          (marks_from-append inst newer (arrived b id ∷ older) []),
    )
