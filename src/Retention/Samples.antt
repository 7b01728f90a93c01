-- ===== src/Retention/Samples.antt =====
-- Retention on a few archives and copies.
use valmin.Shared.{
  ◌≡◌, refl, ◌↔◌, Bool, true, false, List, [], ◌∷◌, ◌++◌, some, Text, codes, pos, In,
}
use valmin.Retention.{
  Entry, Policy, prune, RemoteCopy, Instance, Backup, mark_instance_retention, pruned_on_arrival,
  class_of, keep_limit, snapshot_trigger, counts_as_newer,
}
use valmin.Retention.Positions.{Dropped, prune_iff}
use valmin.Retention.Arrival.{arrived, pruned_on_arrival_lem}

abbrev cold : Text → Bool → Entry
cold id flagged = record {
  id = id;
  path = id;
  consistent = true;
  snapshot = false;
  pinned = false;
  flagged = flagged;
}

abbrev keep_one : Policy
keep_one = record { keep_cold = pos 1; keep_hot = pos 1 }

abbrev archives : List Entry
archives = cold (codes "c") true ∷ cold (codes "b") false ∷ cold (codes "a") false ∷ []

-- The flagged archive takes the one place, the newest good one stays past it.
oldest_goes : prune archives keep_one ≡ cold (codes "a") false ∷ []
unfolding prune
oldest_goes = refl

prune_iff_example :
    In (cold (codes "a") false) (prune archives keep_one)
    ↔ Dropped keep_one archives (cold (codes "a") false)
prune_iff_example = prune_iff keep_one archives (cold (codes "a") false)

abbrev copy : Text → Text → Bool → RemoteCopy
copy id day pending = record {
  id = id;
  backup_id = id;
  trigger = codes "manual";
  consistent = true;
  world_flagged = false;
  cleanup_pending = pending;
  archive_created_at = day;
}

abbrev keep_singles : Instance
keep_singles = record {
  remote_keep_cold = pos 1;
  remote_keep_hot = pos 1;
  remote_keep_snapshots = pos 1;
}

abbrev newer : List RemoteCopy
newer = copy (codes "n") (codes "3") false ∷ []

abbrev older : List RemoteCopy
older = copy (codes "o") (codes "1") true ∷ []

abbrev backup : Backup
backup = record {
  id = codes "b";
  trigger = codes "manual";
  consistent = true;
  world_attention = [];
  created_at = codes "2";
}

settled : mark_instance_retention keep_singles (newer ++ older) ≡ newer ++ older
unfolding mark_instance_retention keep_limit class_of snapshot_trigger
settled = refl

pruned_on_arrival_lem_example :
    (rest : List RemoteCopy) × (mark_instance_retention keep_singles
        (newer ++ arrived backup (codes "b") ∷ older)
      ≡ mark_instance_retention keep_singles newer
        ++ record (arrived backup (codes "b")) {
          cleanup_pending = pruned_on_arrival keep_singles (some (newer ++ older)) backup;
        }
          ∷ rest)
pruned_on_arrival_lem_example =
    pruned_on_arrival_lem keep_singles backup (codes "b") newer older ((refl, refl), tt) (refl, tt)
      settled

pruned : pruned_on_arrival keep_singles (some (newer ++ older)) backup ≡ true
unfolding pruned_on_arrival keep_limit class_of snapshot_trigger counts_as_newer
pruned = refl
