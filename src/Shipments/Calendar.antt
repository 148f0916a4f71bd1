-- ===== src/Shipments/Calendar.antt =====
-- src/services/shipmentSimulationService.js: dates and the business calendar. A date is its number
-- of milliseconds since the epoch, and local time is that plus the offset, which is not negative.
use be_weavecarbon.Common.{
  ℕ, zero, suc, ◌+◌, ◌-◌, ◌*◌, ◌/◌, ◌%◌, Bool, ◌&&◌, ◌||◌, ltb, leb, ◌==◌, if◌then◌else◌,
}
use Prim.Native.Nat.{min, max}

abbrev pub hour_ms : ℕ
hour_ms = 3600000

abbrev pub day_ms : ℕ
day_ms = 86400000

-- SIMULATION_OFFSET_MS, BUSINESS_START_HOUR and BUSINESS_END_HOUR.
pub record Calendar : Type 0 where
  pub offset : ℕ
  pub start_hour : ℕ
  pub end_hour : ℕ

abbrev pub clamp_integer : ℕ → ℕ → ℕ → ℕ
clamp_integer value low high = max low (min high value)

-- The hours as the module reads them from the environment. A negative value is clamped like 0.
unfoldable pub read_calendar : ℕ → ℕ → ℕ → Calendar
read_calendar offset start_value end_value =
    let start = clamp_integer start_value 0 23 in
    record {
      offset = offset;
      start_hour = start;
      end_hour = clamp_integer end_value (start + 1) 24;
    }

-- The parts of a local date, as `getUTCHours` and the like give them, and the day that
-- `getUTCFullYear`, `getUTCMonth` and `getUTCDate` name.
abbrev pub day_of : ℕ → ℕ
day_of local = local / 86400000

abbrev pub hours_of : ℕ → ℕ
hours_of local = local / 3600000 % 24

abbrev pub minutes_of : ℕ → ℕ
minutes_of local = local / 60000 % 60

abbrev pub seconds_of : ℕ → ℕ
seconds_of local = local / 1000 % 60

abbrev pub milliseconds_of : ℕ → ℕ
milliseconds_of local = local % 1000

-- `Date.UTC(year, month, date, hour, 0, 0, 0)` of a day and an hour.
abbrev pub utc : ℕ → ℕ → ℕ
utc day hour = day * 86400000 + hour * 3600000

-- `addHours`
abbrev pub add_hours : ℕ → ℕ → ℕ
add_hours date hours = date + hours * 60 * 60 * 1000

module _ (c : Calendar) where
  abbrev pub to_simulation_local_date : ℕ → ℕ
  to_simulation_local_date date = date + c.offset

  abbrev pub from_simulation_local_date : ℕ → ℕ
  from_simulation_local_date local = local - c.offset

  unfoldable pub round_up_to_simulation_hour : ℕ → ℕ
  round_up_to_simulation_hour date =
      let local = to_simulation_local_date date in
      let rounded = utc (day_of local) (hours_of local) in
      from_simulation_local_date (
        if ltb 0 (minutes_of local) || (ltb 0 (seconds_of local) || ltb 0 (milliseconds_of local))
        then rounded + 3600000
        else rounded)

  unfoldable pub move_to_next_business_window : ℕ → ℕ
  move_to_next_business_window date =
      from_simulation_local_date (utc (day_of (to_simulation_local_date date) + 1) c.start_hour)

  unfoldable pub normalize_to_business_hour : ℕ → ℕ
  normalize_to_business_hour date =
      let rounded = round_up_to_simulation_hour date in
      let local = to_simulation_local_date rounded in
      if ltb (hours_of local) c.start_hour
      then from_simulation_local_date (utc (day_of local) c.start_hour)
      else if leb c.end_hour (hours_of local)
      then move_to_next_business_window rounded
      else rounded

  unfoldable pub is_aligned_to_business_hour : ℕ → Bool
  is_aligned_to_business_hour date =
      let local = to_simulation_local_date date in
      minutes_of local == 0
      && (seconds_of local == 0
          && (milliseconds_of local == 0
              && (leb c.start_hour (hours_of local) && leb (hours_of local) c.end_hour)))

  -- The `while` loop of `allocateBusinessHours`; the fuel bounds its rounds.
  unfoldable pub allocate_loop : ℕ → ℕ → ℕ → ℕ
  allocate_loop zero cursor remaining = cursor
  allocate_loop (suc fuel) cursor remaining =
      let at = normalize_to_business_hour cursor in
      let available = c.end_hour - hours_of (to_simulation_local_date at) in
      let consumed = min remaining available in
      let skipped = allocate_loop fuel (move_to_next_business_window at) remaining in
      let later =
        allocate_loop fuel (move_to_next_business_window (add_hours at consumed))
          (remaining - consumed) in
      if remaining == 0
      then cursor
      else if available == 0
      then skipped
      else if ltb 0 (remaining - consumed)
      then later
      else add_hours at consumed

  -- `allocateBusinessHours` of a whole number of hours; a round takes at least one of them.
  unfoldable pub allocate_business_hours : ℕ → ℕ → ℕ
  allocate_business_hours start hours =
      let remaining = max 1 hours in
      allocate_loop (remaining + 1) (normalize_to_business_hour start) remaining
