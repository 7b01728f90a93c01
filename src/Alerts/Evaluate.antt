-- ===== src/Alerts/Evaluate.antt =====
-- internal/alerts/evaluate.go: the conditions that are true of a snapshot. The details of a
-- condition, which nothing branches on, are left out.
mod Evaluated
mod Reported
pub mod Complete
use valmin.Shared.{
  ℕ, zero, suc, ◌+◌, ◌-◌, Bool, true, false, not, ◌&&◌, ◌||◌, List, [], ◌∷◌, ◌++◌, Option, none,
  some, Text, codes, text_eq, if◌then◌else◌, ◌==◌, ltb, leb, lookup, digits, ℤ, pos, negsuc,
}
use valmin.Alerts.{
  Kind, job_failed, low_disk, stale_backup, unclean_stop, restart_required, update_available,
  instance_error, crash_loop, job_stuck, backup_attention, Params, Thresholds, Floats, defaults,
}

pub record Condition : Type 0 where
  pub kind : Kind
  pub instance_id : Text

-- The columns of an instance, and of a job, that the evaluation reads.
pub record Instance : Type 0 where
  pub id : Text
  pub state : Text
  pub needs_restart : Bool
  pub game_branch : Text

pub record JobRow : Type 0 where
  pub kind : Text
  pub status : Text
  pub instance_id : Option Text
  pub clean : Option Bool
  pub started_at : Option ℕ

pub record BackupSchedule : Type 0 where
  pub instance_id : Text
  pub interval : ℤ
  pub missed : ℕ
  pub last_run_at : Option ℕ

pub record Snapshot : Type 0 where
  pub instances : List Instance
  pub latest_terminal_jobs : List JobRow
  pub clean_signals : List JobRow
  pub running_jobs : List JobRow
  pub backup_schedules : List BackupSchedule
  pub last_backups : List (Text × ℕ)
  pub flagged_backups : List Text
  pub incidents : List (Text × List ℕ)
  pub installed_builds : List (Text × Text)
  pub branch_builds : List (Text × Text)
  pub free_bytes : ℕ
  pub alarm_bytes : ℕ
  pub now : ℕ

abbrev pub deref : Option Text → Text
deref none = []
deref (some i) = i

-- `m[k]` for a map of texts, and for one of lists.
abbrev pub text_or_empty : Option Text → Text
text_or_empty none = []
text_or_empty (some t) = t

abbrev pub list_or_nil : Option (List ℕ) → List ℕ
list_or_nil none = []
list_or_nil (some xs) = xs

abbrev positive_uint64 : Option ℕ → Bool
positive_uint64 none = false
positive_uint64 (some n) = leb n 18446744073709551615 && ltb 0 n

-- `knownBuild`.
pub known_build : Text → Bool
known_build id = positive_uint64 (digits id)

abbrev pub append_one : Option Condition → List Condition → List Condition
append_one none rest = rest
append_one (some c) rest = c ∷ rest

-- A loop that appends at most one condition for each element.
module _ {A : Type 0} (one : A → Option Condition) where
  pub collect : List A → List Condition
  collect [] = []
  collect (a ∷ xs) = append_one (one a) (collect xs)

abbrev pub condition : Kind → Text → Condition
condition kind id = record { kind = kind; instance_id = id }

pub low_disk_of : Snapshot → List Condition
low_disk_of s =
    if s.alarm_bytes == 0 || leb s.alarm_bytes s.free_bytes then [] else condition low_disk [] ∷ []

pub is_update : (installed available : Text) → Bool
unfolding known_build
is_update installed available =
    known_build installed && known_build available && not (text_eq installed available)

abbrev pub installed_of : Snapshot → Instance → Text
installed_of s inst = text_or_empty (lookup inst.id s.installed_builds)

abbrev pub available_of : Snapshot → Instance → Text
available_of s inst = text_or_empty (lookup inst.game_branch s.branch_builds)

pub update_available_of : Snapshot → Instance → Option Condition
unfolding is_update
update_available_of s inst =
    if is_update (installed_of s inst) (available_of s inst)
    then some (condition update_available inst.id)
    else none

-- The incidents after the cutoff, which is the window before now.
pub recent : (now window : ℕ) → List ℕ → ℕ
recent now window [] = 0
recent now window (at ∷ rest) =
    let n = recent now window rest in if ltb now (at + window) then suc n else n

pub failed_job : JobRow → Option Condition
failed_job j =
    if not (text_eq j.status (codes "failed")) || text_eq j.kind (codes "webhook_deliver")
    then none
    else some (condition job_failed (deref j.instance_id))

pub unclean_if : Option Bool → Text → Option Condition
unclean_if none id = none
unclean_if (some true) id = none
unclean_if (some false) id = some (condition unclean_stop id)

pub unclean_job : JobRow → Option Condition
unfolding unclean_if
unclean_job j = unclean_if j.clean (deref j.instance_id)

abbrev pub is_positive : ℤ → Bool
is_positive (pos zero) = false
is_positive (pos (suc n)) = true
is_positive (negsuc n) = false

abbrev pub is_some : Option ℕ → Bool
is_some none = false
is_some (some at) = true

pub flagged : Text → Option Condition
flagged id = some (condition backup_attention id)

module _ {F : Type 0} (fl : Floats F) (resolve : Kind → Text → Params F) (s : Snapshot) where
  -- `params`.
  pub thresholds : Kind → Text → Thresholds F
  thresholds kind id = defaults fl (resolve kind id)

  pub crash_loop_of : Text → Thresholds F → Option Condition
  unfolding recent
  crash_loop_of id p =
      if ltb (recent s.now p.crash_window (list_or_nil (lookup id s.incidents))) p.crash_count
      then none
      else some (condition crash_loop id)

  -- The body of the loop of `perInstance`.
  pub per_instance_of : Instance → List Condition → List Condition
  unfolding update_available_of crash_loop_of thresholds
  per_instance_of inst rest =
      append_one (if inst.needs_restart then some (condition restart_required inst.id) else none) (
        append_one
          (if text_eq inst.state (codes "error")
            then some (condition instance_error inst.id)
            else none)
          (append_one (update_available_of s inst)
            (append_one (crash_loop_of inst.id (thresholds crash_loop inst.id)) rest)))

  pub per_instance : List Instance → List Condition
  unfolding per_instance_of
  per_instance [] = []
  per_instance (inst ∷ rest) = per_instance_of inst (per_instance rest)

  pub stale_schedule : BackupSchedule → Option Condition
  unfolding thresholds
  stale_schedule sc =
      if not (is_some sc.last_run_at) || not (is_positive sc.interval)
      then none
      else if is_some (lookup sc.instance_id s.last_backups)
          && fl.missed_below sc.missed (thresholds stale_backup sc.instance_id).stale_factor
      then none
      else some (condition stale_backup sc.instance_id)

  pub stuck_since : Option ℕ → Text → Option Condition
  unfolding thresholds
  stuck_since none id = none
  stuck_since (some at) id =
      if leb s.now (at + (thresholds job_stuck id).stuck_after)
      then none
      else some (condition job_stuck id)

  pub stuck_job : JobRow → Option Condition
  unfolding stuck_since
  stuck_job j = stuck_since j.started_at (deref j.instance_id)

  -- `Evaluate`.
  pub evaluate : List Condition
  unfolding low_disk_of per_instance failed_job unclean_job stale_schedule flagged stuck_job
  evaluate =
      low_disk_of s
      ++ (per_instance s.instances
          ++ (collect failed_job s.latest_terminal_jobs
              ++ (collect unclean_job s.clean_signals
                  ++ (collect stale_schedule s.backup_schedules
                      ++ (collect flagged s.flagged_backups ++ collect stuck_job s.running_jobs)))))
