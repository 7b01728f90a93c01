-- ===== src/Alerts.antt =====
-- internal/alerts/condition.go, rules.go: condition kinds, thresholds, and what a rule covers.
mod Quiet
mod Rules
pub mod Conditions
pub mod Evaluate
pub mod Dispatch
mod Samples
use valmin.Shared.{
  ℕ, zero, suc, ◌+◌, ◌*◌, Bool, true, false, not, ◌&&◌, ◌||◌, List, [], ◌∷◌, Option, none, some,
  Text, codes, text_eq, if◌then◌else◌, ltb, leb, ℤ, pos, negsuc,
}

pub data Kind : Type 0 where
  job_failed low_disk stale_backup unclean_stop restart_required update_available : Kind
  instance_error crash_loop job_stuck backup_attention : Kind
  power_cut server_started server_stopped : Kind
  player_joined player_left boss_defeated boss_fight_started boss_fight_ended : Kind
  raid_started raid_ended : Kind

-- `String`.
pub kind_name : Kind → Text
kind_name job_failed = codes "job_failed"
kind_name low_disk = codes "low_disk"
kind_name stale_backup = codes "stale_backup"
kind_name unclean_stop = codes "unclean_stop"
kind_name restart_required = codes "restart_required"
kind_name update_available = codes "update_available"
kind_name instance_error = codes "instance_error"
kind_name crash_loop = codes "crash_loop"
kind_name job_stuck = codes "job_stuck"
kind_name backup_attention = codes "backup_attention"
kind_name power_cut = codes "power_cut"
kind_name server_started = codes "server_started"
kind_name server_stopped = codes "server_stopped"
kind_name player_joined = codes "player_joined"
kind_name player_left = codes "player_left"
kind_name boss_defeated = codes "boss_defeated"
kind_name boss_fight_started = codes "boss_fight_started"
kind_name boss_fight_ended = codes "boss_fight_ended"
kind_name raid_started = codes "raid_started"
kind_name raid_ended = codes "raid_ended"

pub kinds : List Kind
kinds =
    job_failed ∷ low_disk ∷ stale_backup ∷ unclean_stop ∷ restart_required ∷ update_available
    ∷ instance_error ∷ crash_loop ∷ job_stuck ∷ backup_attention ∷ []

pub events : List Kind
events =
    power_cut ∷ server_started ∷ server_stopped ∷ player_joined ∷ player_left ∷ boss_defeated
    ∷ boss_fight_started ∷ boss_fight_ended ∷ raid_started ∷ raid_ended ∷ []

find_kind : Text → List Kind → Option Kind
find_kind s [] = none
find_kind s (k ∷ ks) = if text_eq (kind_name k) s then some k else find_kind s ks

abbrev or_else : Option Kind → Option Kind → Option Kind
or_else none o = o
or_else (some k) o = some k

-- `ParseKind`.
pub parse_kind : Text → Option Kind
unfolding find_kind kinds events
parse_kind s = or_else (find_kind s kinds) (find_kind s events)

-- A kind's thresholds as a rule holds them. Durations are in nanoseconds; the stale factor is a
-- floating-point number, of a type that is a parameter.
pub record Params (F : Type 0) : Type 0 where
  pub crash_count : ℤ
  pub crash_window : ℤ
  pub stuck_after : ℤ
  pub stale_factor : F

-- The thresholds with every unset one filled in.
pub record Thresholds (F : Type 0) : Type 0 where
  pub crash_count : ℕ
  pub crash_window : ℕ
  pub stuck_after : ℕ
  pub stale_factor : F

abbrev positive_or : ℕ → ℤ → ℕ
positive_or fallback (pos zero) = fallback
positive_or fallback (pos (suc n)) = suc n
positive_or fallback (negsuc n) = fallback

abbrev pub seconds : ℕ → ℕ
seconds n = n * 1000000000

-- What the code does with floating-point numbers: `f > 1`, the number 2, and `float64(n) < f`.
pub record Floats (F : Type 0) : Type 0 where
  pub above_one : F → Bool
  pub two : F
  pub zero : F
  pub missed_below : ℕ → F → Bool

module _ {F : Type 0} (fl : Floats F) where
  -- `Defaults`.
  pub defaults : Params F → Thresholds F
  defaults p = record {
    crash_count = positive_or 3 p.crash_count;
    crash_window = positive_or (seconds 1800) p.crash_window;
    stuck_after = positive_or (seconds 3600) p.stuck_after;
    stale_factor = if fl.above_one p.stale_factor then p.stale_factor else fl.two;
  }

  abbrev pub no_params : Params F
  no_params = record {
    crash_count = pos 0;
    crash_window = pos 0;
    stuck_after = pos 0;
    stale_factor = fl.zero;
  }

-- A row of `alert_rules`.
pub record Rule : Type 0 where
  pub id : Text
  pub instance_id : Option Text
  pub condition_kind : Text
  pub params : Text
  pub quiet_start : Option ℕ
  pub quiet_end : Option ℕ
  pub quiet_tz : Option Text
  pub enabled : Bool

abbrev pub names_none : Option Text → Bool
names_none none = true
names_none (some i) = false

abbrev pub covers : Text → Option Text → Bool
covers instance_id none = true
covers instance_id (some i) = text_eq i instance_id

-- The two tests of the loop of `RuleResolver`.
applies : Text → Text → Rule → Bool
applies kind instance_id r =
    r.enabled && text_eq r.condition_kind kind && covers instance_id r.instance_id

prefer : Option Rule → Rule → Rule
prefer none r = r
prefer (some chosen) r =
    if names_none chosen.instance_id && not (names_none r.instance_id) then r else chosen

-- The loop of `RuleResolver`.
pub choose : Text → Text → List Rule → Option Rule → Option Rule
unfolding applies prefer
choose kind instance_id [] chosen = chosen
choose kind instance_id (r ∷ rules) chosen =
    choose kind instance_id rules
      (if applies kind instance_id r then some (prefer chosen r) else chosen)

module _ {F : Type 0} (fl : Floats F) (decode : Text → Params F) where
  pub decoded : Option Rule → Params F
  decoded none = no_params fl
  decoded (some r) = decode r.params

  -- `RuleResolver`.
  pub rule_resolver : List Rule → Kind → Text → Params F
  unfolding decoded choose
  rule_resolver rules kind instance_id = decoded (choose (kind_name kind) instance_id rules none)

abbrev pub same_instance : Text → Option Text → Bool
same_instance i none = false
same_instance i (some j) = text_eq j i

matches_instance : (rule condition : Option Text) → Bool
matches_instance none c = true
matches_instance (some i) c = same_instance i c

-- `Matches`, at the kind and the instance of a condition.
pub matches : Rule → Text → Option Text → Bool
unfolding matches_instance
matches r kind instance_id =
    r.enabled && text_eq r.condition_kind kind && matches_instance r.instance_id instance_id

in_window : (start end minutes : ℕ) → Bool
in_window start end minutes =
    if leb start end
    then leb start minutes && ltb minutes end
    else leb start minutes || ltb minutes end

quiet_at : (start end : ℕ) → Option ℕ → Bool
unfolding in_window
quiet_at start end none = false
quiet_at start end (some minutes) = in_window start end minutes

quiet_in : (Text → ℕ → Option ℕ) → ℕ → (start end : Option ℕ) → Option Text → Bool
unfolding quiet_at
quiet_in local now (some start) (some end) (some tz) = quiet_at start end (local tz now)
quiet_in local now none end tz = false
quiet_in local now (some start) none tz = false
quiet_in local now (some start) (some end) none = false

-- `Quiet`. The minutes since midnight that a zone's clock shows are a parameter, `none` for a zone
-- that cannot be loaded.
pub quiet : (Text → ℕ → Option ℕ) → Rule → ℕ → Bool
unfolding quiet_in
quiet local r now = quiet_in local now r.quiet_start r.quiet_end r.quiet_tz
