-- ===== src/Shipments/Grid.antt =====
-- Local dates on the hour, by day and hour.
use be_weavecarbon.Common.{ℕ, ◌+◌, ◌%◌, ◌≤◌, ◌<◌, ◌≡◌, arith}
use be_weavecarbon.Shipments.Calendar.{
  Calendar, utc, day_of, hours_of, move_to_next_business_window,
}

-- The date stands at `hour` o'clock of the local day `day`.
abbrev pub IsAt : Calendar → ℕ → ℕ → ℕ → Type 0
IsAt c date day hour = date + c.offset ≡ utc day hour

pub day_of-utc : (day hour : ℕ) → hour < 24 → day_of (utc day hour) ≡ day
day_of-utc day hour h = omega arith

pub hours_of-utc : (day hour : ℕ) → hour < 24 → hours_of (utc day hour) ≡ hour
hours_of-utc day hour h = omega arith

pub move-IsAt :
    (c : Calendar) (date day hour : ℕ)
    → hour < 24
    → IsAt c date day hour
    → IsAt c (move_to_next_business_window c date) (day + 1) c.start_hour
unfolding move_to_next_business_window
move-IsAt c date day hour h e = rw (e, day_of-utc day hour h) (omega arith)

-- A local time on the hour is that of its day and hour.
pub utc-parts : (local : ℕ) → local % 3600000 ≡ 0 → local ≡ utc (day_of local) (hours_of local)
utc-parts local h = omega arith

pub hours_of-lt : (local : ℕ) → hours_of local < 24
hours_of-lt local = omega arith

-- The hours as `read_calendar` clamps them.
pub record IsCalendar (c : Calendar) : Type 0 where
  pub opens : c.start_hour < c.end_hour
  pub closes : c.end_hour ≤ 24
