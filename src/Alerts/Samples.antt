-- ===== src/Alerts/Samples.antt =====
-- Alerts at a concrete snapshot, table and set of rules.
use valmin.Shared.{
  ℕ, ◌+◌, ◌-◌, ◌%◌, ◌<◌, ◌≡◌, refl, ◌↔◌, true, false, List, [], ◌∷◌, Option, none, some, arith,
  Text, codes, In, ltb, pos, In-contains, map,
}
use valmin.Alerts.{
  Kind, crash_loop, kind_name, Params, Floats, Rule, rule_resolver, matches, quiet, decoded,
}
use valmin.Alerts.Quiet.{quiet_iff}
use valmin.Alerts.Rules.{first, names, names_all, or_else, rule_resolver_lem}
use valmin.Alerts.Conditions.{Row, Observed, open_conditions, reconcile}
use valmin.Alerts.Conditions.Settled.{Settled, reconcile-Settled}
use valmin.Alerts.Evaluate.{Snapshot, evaluate, condition}
use valmin.Alerts.Evaluate.Complete.{Holds, evaluate_iff}
use valmin.Alerts.Dispatch.{Notification, Sent, mark_notified, dispatch_alerts}
use valmin.Alerts.Dispatch.Owed.{Announces, dispatch_alerts-Announces}

-- Quarters stand for the floating-point numbers.
abbrev quarters : Floats ℕ
quarters = record {
  above_one = λ f. ltb 4 f;
  two = 8;
  zero = 0;
  missed_below = λ n f. ltb (n + n + n + n) f;
}

abbrev night : Rule
night = record {
  id = codes "r";
  instance_id = some (codes "i");
  condition_kind = codes "crash_loop";
  params = codes "p";
  quiet_start = some 1320;
  quiet_end = some 360;
  quiet_tz = some (codes "UTC");
  enabled = true;
}

abbrev everywhere : Rule
everywhere = record night { id = codes "e"; instance_id = none; params = codes "q" }

abbrev minutes : Text → ℕ → Option ℕ
minutes tz now = some 60

quiet_iff_example :
    (quiet minutes night 5 ≡ true) ↔ ((60 + 1440 - 1320) % 1440 < (360 + 1440 - 1320) % 1440)
quiet_iff_example =
    quiet_iff minutes night 5 1320 360 60 (codes "UTC") refl refl refl refl (omega arith)
      (omega arith) (omega arith)

abbrev decode : Text → Params ℕ
decode raw = record {
  crash_count = pos 2;
  crash_window = pos 100;
  stuck_after = pos 0;
  stale_factor = 12;
}

abbrev both_rules : List Rule
both_rules = everywhere ∷ night ∷ []

rule_resolver_lem_example :
    rule_resolver quarters decode both_rules crash_loop (codes "i")
    ≡ decoded quarters decode (
        or_else
          (first (names (kind_name crash_loop) (codes "i")) both_rules)
          (first (names_all (kind_name crash_loop) (codes "i")) both_rules))
rule_resolver_lem_example = rule_resolver_lem quarters decode both_rules crash_loop (codes "i")

abbrev crashing : Snapshot
crashing = record {
  instances =
      record {
        id = codes "i";
        state = codes "running";
        needs_restart = false;
        game_branch = codes "public";
      }
      ∷ [];
  latest_terminal_jobs = [];
  clean_signals = [];
  running_jobs = [];
  backup_schedules = [];
  last_backups = [];
  flagged_backups = [];
  incidents = (codes "i", 950 ∷ 930 ∷ 10 ∷ []) ∷ [];
  installed_builds = [];
  branch_builds = [];
  free_bytes = 9;
  alarm_bytes = 5;
  now = 1000;
}

abbrev tuned : Kind → Text → Params ℕ
tuned kind id = decode []

evaluate_iff_example :
    In (condition crash_loop (codes "i")) (evaluate quarters tuned crashing)
    ↔ Holds quarters tuned crashing (condition crash_loop (codes "i"))
evaluate_iff_example = evaluate_iff quarters tuned crashing (condition crash_loop (codes "i"))

abbrev row : (id kind : Text) → Option ℕ → Row
row id kind resolved_at = record {
  id = id;
  instance_id = some (codes "i");
  kind = kind;
  detail = [];
  first_seen_at = 1;
  last_seen_at = 1;
  resolved_at = resolved_at;
}

abbrev table : List Row
table =
    row (codes "a") (codes "crash_loop") none
    ∷ row (codes "b") (codes "job_stuck") none
    ∷ row (codes "c") (codes "job_failed") (some 900)
    ∷ []

abbrev seen : (kind id : Text) → Observed
seen kind id = record { kind = kind; instance_id = some (codes "i"); detail = []; new_id = id }

abbrev observations : List Observed
observations = seen (codes "crash_loop") (codes "x") ∷ seen (codes "low_disk") (codes "y") ∷ []

reconcile-Settled_example :
    Settled observations table
      (reconcile 1000 observations table).0
      (reconcile 1000 observations table).1
reconcile-Settled_example =
    reconcile-Settled 1000 observations table
      ((λ i. cc (In-contains (codes "a") (codes "b" ∷ []) i)), ((λ i. i), tt))
      (
        (λ i. cc (In-contains (codes "x") (codes "a" ∷ codes "b" ∷ []) i)),
        ((λ i. cc (In-contains (codes "y") (codes "a" ∷ codes "b" ∷ []) i)), tt),
      )

-- A rule without quiet hours, so the dispatch has something to announce.
abbrev awake : Rule
awake = record everywhere { quiet_start = none; quiet_end = none; quiet_tz = none }

abbrev told : Sent
told = dispatch_alerts minutes 1000 (night ∷ awake ∷ []) table []

told_awake : map (λ (n : Notification). n.rule_id) told.sent ≡ codes "e" ∷ []
unfolding dispatch_alerts matches quiet mark_notified open_conditions
told_awake = refl

dispatch_alerts-Announces_example : Announces minutes 1000 (night ∷ awake ∷ []) table [] told
dispatch_alerts-Announces_example =
    dispatch_alerts-Announces minutes 1000 (night ∷ awake ∷ []) table []
