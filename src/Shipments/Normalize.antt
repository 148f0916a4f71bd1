-- ===== src/Shipments/Normalize.antt =====
-- `roundUpToSimulationHour` and `normalizeToBusinessHour` of
-- src/services/shipmentSimulationService.js: the first business hour from a date on.
use be_weavecarbon.Common.{
  ℕ, ◌+◌, ◌-◌, ◌%◌, ◌≤◌, ◌<◌, ◌≡◌, Bool, true, false, ◌||◌, ltb, leb, arith, inl, inr, Bool-cases,
  if_intro,
}
use be_weavecarbon.Shipments.Calendar.{
  Calendar, utc, day_of, hours_of, minutes_of, seconds_of, milliseconds_of, read_calendar,
  round_up_to_simulation_hour, move_to_next_business_window, normalize_to_business_hour,
}
use be_weavecarbon.Shipments.Grid.{IsAt, IsCalendar, utc-parts, hours_of-lt, move-IsAt}

-- Whatever the environment holds, the hours that are read make a calendar.
pub read_calendar-IsCalendar : (offset s e : ℕ) → IsCalendar (read_calendar offset s e)
unfolding read_calendar
read_calendar-IsCalendar offset s e = omega arith

past_the_hour : (local : ℕ) → Bool
past_the_hour local =
    ltb 0 (minutes_of local) || (ltb 0 (seconds_of local) || ltb 0 (milliseconds_of local))

past_the_hour-false : (local : ℕ) → past_the_hour local ≡ false → local % 3600000 ≡ 0
unfolding past_the_hour
past_the_hour-false local h = ground arith

past_the_hour-true : (local : ℕ) → past_the_hour local ≡ true → 0 < local % 3600000
unfolding past_the_hour
past_the_hour-true local h = ground arith

-- The hour that a date is rounded to is the first that is not before it.
record IsRounded (c : Calendar) (date rounded : ℕ) : Type 0 where
  whole : (rounded + c.offset) % 3600000 ≡ 0
  later : date ≤ rounded
  near : rounded < date + 3600000

round_up-IsRounded :
    (c : Calendar) (date : ℕ) → IsRounded c date (round_up_to_simulation_hour c date)
unfolding round_up_to_simulation_hour past_the_hour
round_up-IsRounded c date =
    let local = date + c.offset in
    elim (Bool-cases (past_the_hour local)) [
      | inl t ↦ rw t (
          let p = past_the_hour-true local t in
          record { whole = omega arith; later = omega arith; near = omega arith })
      | inr t ↦ rw t (
          let p = past_the_hour-false local t in
          record { whole = omega arith; later = omega arith; near = omega arith })
    ]

-- `at` is the first business hour that is not before `date`.
pub record IsFirstHour (c : Calendar) (date at : ℕ) : Type 0 where
  pub day : ℕ
  pub hour : ℕ
  pub stands : IsAt c at day hour
  pub opens : c.start_hour ≤ hour
  pub closes : hour < c.end_hour
  pub later : date ≤ at
  pub least :
      (other d h : ℕ)
      → IsAt c other d h
      → c.start_hour ≤ h
      → h < c.end_hour
      → date ≤ other
      → at ≤ other

module _ (c : Calendar) (v : IsCalendar c) (date rounded : ℕ) (r : IsRounded c date rounded) where
  -- A date on the hour that is not before `date` is not before what it is rounded to.
  rounded-le : (other d h : ℕ) → IsAt c other d h → date ≤ other → rounded ≤ other
  rounded-le other d h e l = omega arith

  module _ (day hour : ℕ) (e : rounded + c.offset ≡ utc day hour) (lt : hour < 24) where
    early-IsFirstHour : hour < c.start_hour → IsFirstHour c date (utc day c.start_hour - c.offset)
    early-IsFirstHour h = record {
      day = day;
      hour = c.start_hour;
      stands = omega arith;
      opens = omega arith;
      closes = v.opens;
      later = omega arith;
      least = λ other d k s o q l. omega (arith, rounded-le other d k s l);
    }

    late-IsFirstHour :
        c.end_hour ≤ hour → IsFirstHour c date (move_to_next_business_window c rounded)
    late-IsFirstHour h =
        let s' = move-IsAt c rounded day hour lt e in
        record {
          day = day + 1;
          hour = c.start_hour;
          stands = s';
          opens = omega arith;
          closes = v.opens;
          later = omega arith;
          least = λ other d k s o q l. omega (arith, rounded-le other d k s l);
        }

    open-IsFirstHour : c.start_hour ≤ hour → hour < c.end_hour → IsFirstHour c date rounded
    open-IsFirstHour o q = record {
      day = day;
      hour = hour;
      stands = e;
      opens = o;
      closes = q;
      later = r.later;
      least = λ other d k s o' q' l. rounded-le other d k s l;
    }

-- `normalizeToBusinessHour` gives the first business hour that is not before the date.
pub normalize-IsFirstHour :
    (c : Calendar) (date : ℕ)
    → IsCalendar c
    → IsFirstHour c date (normalize_to_business_hour c date)
unfolding normalize_to_business_hour
normalize-IsFirstHour c date v =
    let rounded = round_up_to_simulation_hour c date in
    let r = round_up-IsRounded c date in
    let local = rounded + c.offset in
    let e = utc-parts local r.whole in
    let lt = hours_of-lt local in
    if_intro (IsFirstHour c date) (ltb (hours_of local) c.start_hour)
      (λ t.
        early-IsFirstHour c v date rounded r (day_of local) (hours_of local) e lt (ground arith))
      (λ t.
        if_intro (IsFirstHour c date) (leb c.end_hour (hours_of local))
          (λ u.
            late-IsFirstHour c v date rounded r (day_of local) (hours_of local) e lt (ground arith))
          (λ u.
            open-IsFirstHour c v date rounded r (day_of local) (hours_of local) e lt (ground arith)
              (ground arith)))

-- A business hour is left as it is.
pub normalize-IsAt :
    (c : Calendar) (date day hour : ℕ)
    → IsCalendar c
    → IsAt c date day hour
    → c.start_hour ≤ hour
    → hour < c.end_hour
    → normalize_to_business_hour c date ≡ date
normalize-IsAt c date day hour v e o q =
    let f = normalize-IsFirstHour c date v in
    omega (arith, f.later, f.least date day hour e o q (omega arith))
