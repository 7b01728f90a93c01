-- ===== src/Retention.antt =====
-- internal/backup/prune.go and internal/backup/remotecopy/retention.go: which archives, and which
-- remote copies, retention no longer keeps.
mod Positions
mod Copies
mod Arrival
mod Samples
use valmin.Shared.{
  ℕ, zero, suc, Bool, true, false, not, ◌&&◌, ◌||◌, List, [], ◌∷◌, Option, none, some, Text, codes,
  text_eq, text_lt, ltb, ◌==◌, if◌then◌else◌, ℤ, pos, negsuc,
}

pub record Entry : Type 0 where
  pub id : Text
  pub path : Text
  pub consistent : Bool
  pub snapshot : Bool
  pub pinned : Bool
  pub flagged : Bool

pub record Policy : Type 0 where
  pub keep_cold : ℤ
  pub keep_hot : ℤ

pub record ClassCount : Type 0 where
  pub kept : ℕ
  pub saw_unflagged : Bool

-- The three classes, of `Prune` and of the remote copies.
pub data RetentionClass : Type 0 where
  class_cold class_hot class_snapshot : RetentionClass

abbrev pub same_class : RetentionClass → RetentionClass → Bool
same_class class_cold class_cold = true
same_class class_hot class_hot = true
same_class class_snapshot class_snapshot = true
same_class _ _ = false

-- The counts of the loop of `Prune`.
pub record Counts : Type 0 where
  pub cold : ClassCount
  pub hot : ClassCount
  pub snapshots : ClassCount

-- The `switch` of `Prune`.
pub class_of_entry : Entry → RetentionClass
class_of_entry a =
    if a.snapshot then class_snapshot else if not a.consistent then class_hot else class_cold

pub limit_of : Policy → RetentionClass → ℤ
limit_of policy class_hot = policy.keep_hot
limit_of policy _ = policy.keep_cold

-- The count that the pointer `class` points to, read and written.
abbrev pub count_of : RetentionClass → Counts → ClassCount
count_of class_cold c = c.cold
count_of class_hot c = c.hot
count_of class_snapshot c = c.snapshots

abbrev pub with_count : RetentionClass → ClassCount → Counts → Counts
with_count class_cold k c = record c { cold = k }
with_count class_hot k c = record c { hot = k }
with_count class_snapshot k c = record c { snapshots = k }

-- `class.kept < limit`, past the test that the limit is positive.
abbrev pub below : ℕ → ℤ → Bool
below n (pos limit) = ltb n limit
below n (negsuc m) = false

-- `limit <= 0`.
abbrev pub unlimited : ℤ → Bool
unlimited (pos zero) = true
unlimited (pos (suc n)) = false
unlimited (negsuc m) = true

pub last_good : Entry → ClassCount → Bool
last_good a k = not a.snapshot && not a.flagged && not k.saw_unflagged

-- The class's count after an archive, and whether the archive is doomed.
pub tally : Bool → ℤ → ClassCount → ClassCount × Bool
tally good limit k =
    let seen : ClassCount = record k { saw_unflagged = k.saw_unflagged || good } in
    if unlimited limit
    then (seen, false)
    else if below k.kept limit
    then (record seen { kept = suc k.kept }, false)
    else (seen, not good)

-- One turn of the loop.
pub prune_step : Policy → Entry → Counts → Counts × Bool
unfolding class_of_entry limit_of last_good tally
prune_step policy a c =
    if a.pinned
    then (c, false)
    else let class = class_of_entry a in
      let k = count_of class c in
      let (k', doomed) = tally (last_good a k) (limit_of policy class) k in
      (with_count class k' c, doomed)

pub prune_from : Policy → List Entry → Counts → List Entry
unfolding prune_step
prune_from policy [] c = []
prune_from policy (a ∷ archives) c =
    let rest = prune_from policy archives (prune_step policy a c).0 in
    if (prune_step policy a c).1 then a ∷ rest else rest

abbrev pub no_count : ClassCount
no_count = record { kept = 0; saw_unflagged = false }

abbrev pub no_counts : Counts
no_counts = record { cold = no_count; hot = no_count; snapshots = no_count }

pub prune : List Entry → Policy → List Entry
unfolding prune_from
prune archives policy = prune_from policy archives no_counts

-- `SnapshotTrigger`.
pub snapshot_trigger : Text → Bool
snapshot_trigger t =
    text_eq t (codes "pre_update")
    || text_eq t (codes "pre_restore")
    || text_eq t (codes "pre_import")

pub record RemoteCopy : Type 0 where
  pub id : Text
  pub backup_id : Text
  pub trigger : Text
  pub consistent : Bool
  pub world_flagged : Bool
  pub cleanup_pending : Bool
  pub archive_created_at : Text

pub record Instance : Type 0 where
  pub remote_keep_cold : ℤ
  pub remote_keep_hot : ℤ
  pub remote_keep_snapshots : ℤ

pub class_of : Text → Bool → RetentionClass
class_of trigger consistent =
    if snapshot_trigger trigger
    then class_snapshot
    else if not consistent
    then class_hot
    else class_cold

pub keep_limit : Instance → RetentionClass → ℤ
keep_limit inst class_hot = inst.remote_keep_hot
keep_limit inst class_snapshot = inst.remote_keep_snapshots
keep_limit inst class_cold = inst.remote_keep_cold

abbrev pub is_snapshot : RetentionClass → Bool
is_snapshot class_snapshot = true
is_snapshot _ = false

-- `counts[class] > limit`, past the test that the limit is positive.
abbrev above : ℕ → ℤ → Bool
above n (pos limit) = ltb limit n
above n (negsuc m) = true

-- One turn of the loop of `markInstanceRetention`: the maps after it, here one count for each
-- class, and the copy as `MarkRemoteCleanup` and `UnmarkRemoteCleanup` leave it.
pub mark_step : Instance → RemoteCopy → Counts → Counts × RemoteCopy
mark_step inst c counts =
    let class = class_of c.trigger c.consistent in
    let k = count_of class counts in
    let n = suc k.kept in
    let good = not (is_snapshot class) && not c.world_flagged && not k.saw_unflagged in
    let limit = keep_limit inst class in
    (
      with_count class (record { kept = n; saw_unflagged = k.saw_unflagged || good }) counts,
      if not (unlimited limit) && above n limit && not good
          then record c { cleanup_pending = true }
          else if c.cleanup_pending
          then record c { cleanup_pending = false }
          else c,
    )

pub mark_from : Instance → List RemoteCopy → Counts → List RemoteCopy
unfolding mark_step
mark_from inst [] counts = []
mark_from inst (c ∷ copies) counts =
    (mark_step inst c counts).1 ∷ mark_from inst copies (mark_step inst c counts).0

-- The copies after `markInstanceRetention`, newest first as the store lists them.
pub mark_instance_retention : Instance → List RemoteCopy → List RemoteCopy
unfolding mark_from
mark_instance_retention inst copies = mark_from inst copies no_counts

-- What `PrunedOnArrival` reads of a backup.
pub record Backup : Type 0 where
  pub id : Text
  pub trigger : Text
  pub consistent : Bool
  pub world_attention : List Text
  pub created_at : Text

-- The condition of the loop of `PrunedOnArrival`.
pub counts_as_newer : Backup → RetentionClass → RemoteCopy → Bool
counts_as_newer b class c =
    not (text_eq c.backup_id b.id)
    && not c.cleanup_pending
    && same_class (class_of c.trigger c.consistent) class
    && text_lt b.created_at c.archive_created_at

-- `newer` and `newerUnflagged`.
pub newer_counts : Backup → RetentionClass → List RemoteCopy → ℕ × ℕ
newer_counts b class [] = (0, 0)
newer_counts b class (c ∷ copies) =
    let (newer, unflagged) = newer_counts b class copies in
    if counts_as_newer b class c
    then (suc newer, if not c.world_flagged then suc unflagged else unflagged)
    else (newer, unflagged)

abbrev no_attention : List Text → Bool
no_attention [] = true
no_attention (x ∷ xs) = false

-- `PrunedOnArrival`: `none` is that there is no destination.
pub pruned_on_arrival : Instance → Option (List RemoteCopy) → Backup → Bool
unfolding newer_counts
pruned_on_arrival inst none b = false
pruned_on_arrival inst (some copies) b =
    let class = class_of b.trigger b.consistent in
    let limit = keep_limit inst class in
    let (newer, unflagged) = newer_counts b class copies in
    if unlimited limit
    then false
    else if not (is_snapshot class) && no_attention b.world_attention && unflagged == 0
    then false
    else not (below newer limit)
