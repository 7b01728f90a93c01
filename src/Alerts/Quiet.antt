-- ===== src/Alerts/Quiet.antt =====
-- internal/alerts/rules.go: quiet hours, read on the circle of the day.
use valmin.Shared.{ℕ, ◌+◌, ◌-◌, ◌%◌, ◌<◌, ◌≡◌, ◌↔◌, true, Option, some, arith, Text}
use valmin.Alerts.{Rule, quiet, quiet_in, quiet_at, in_window}

in_window_iff :
    (start end minutes : ℕ)
    → start < 1440
    → end < 1440
    → minutes < 1440
    → (in_window start end minutes ≡ true)
      ↔ ((minutes + 1440 - start) % 1440 < (end + 1440 - start) % 1440)
unfolding in_window
in_window_iff start end minutes s e m = ground arith

-- A rule with quiet hours is quiet exactly if the time that its zone's clock shows is less far past
-- the start of the hours, counted forwards around the day of 1440 minutes, than their end is. So
-- hours that pass midnight are the same as any other, and hours that end where they start are none.
pub quiet_iff :
    (local : Text → ℕ → Option ℕ) (r : Rule) (now start end minutes : ℕ) (tz : Text)
    → r.quiet_start ≡ some start
    → r.quiet_end ≡ some end
    → r.quiet_tz ≡ some tz
    → local tz now ≡ some minutes
    → start < 1440
    → end < 1440
    → minutes < 1440
    → (quiet local r now ≡ true) ↔ ((minutes + 1440 - start) % 1440 < (end + 1440 - start) % 1440)
unfolding quiet quiet_in quiet_at
quiet_iff local r now start end minutes tz s e z l bs be bm =
    rw (s, e, z, l) (in_window_iff start end minutes bs be bm)
