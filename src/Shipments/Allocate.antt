-- ===== src/Shipments/Allocate.antt =====
-- `allocateBusinessHours` of src/services/shipmentSimulationService.js against the count of the
-- business hours that have passed.
use Prim.Native.Nat.{min, max}
use be_weavecarbon.Common.{
  ℕ, zero, suc, ◌+◌, ◌-◌, ◌*◌, ◌≤◌, ◌<◌, ◌≡◌, subst, true, ◌&&◌, ltb, leb, ◌==◌, arith, if_intro,
}
use be_weavecarbon.Shipments.Calendar.{
  Calendar, utc, hours_of, minutes_of, seconds_of, milliseconds_of, add_hours,
  move_to_next_business_window, normalize_to_business_hour, is_aligned_to_business_hour,
  allocate_loop, allocate_business_hours,
}
use be_weavecarbon.Shipments.Grid.{IsAt, IsCalendar, hours_of-utc, move-IsAt}
use be_weavecarbon.Shipments.Normalize.{normalize-IsFirstHour, normalize-IsAt}

-- The business hours from the epoch to `hour` o'clock of a day, for an hour from opening to closing.
abbrev pub worked : Calendar → ℕ → ℕ → ℕ
worked c day hour = day * (c.end_hour - c.start_hour) + (hour - c.start_hour)

-- `date` lies in the business hours or at their end, `hours` business hours after the epoch.
pub record IsWorked (c : Calendar) (hours date : ℕ) : Type 0 where
  pub day : ℕ
  pub hour : ℕ
  pub stands : IsAt c date day hour
  pub opens : c.start_hour < hour
  pub closes : hour ≤ c.end_hour
  pub counted : worked c day hour ≡ hours

next_day :
    (c : Calendar) (day : ℕ)
    → IsCalendar c
    → worked c (day + 1) c.start_hour ≡ worked c day c.end_hour
next_day c day v = grind arith

pub aligned :
    (s e day hour : ℕ)
    → hour < 24
    → s ≤ hour
    → hour ≤ e
    → (minutes_of (utc day hour) == 0
        && (seconds_of (utc day hour) == 0
            && (milliseconds_of (utc day hour) == 0
                && (leb s (hours_of (utc day hour)) && leb (hours_of (utc day hour)) e))))
      ≡ true
aligned s e day hour h o q = rw (hours_of-utc day hour h) (ground arith)

module _ (c : Calendar) (v : IsCalendar c) (day_end : c.end_hour ≤ 23) where
  allocate_loop-IsWorked :
      (fuel cursor remaining day hour : ℕ)
      → IsAt c cursor day hour
      → c.start_hour ≤ hour
      → hour < c.end_hour
      → 0 < remaining
      → remaining < fuel
      → IsWorked c (worked c day hour + remaining) (allocate_loop c fuel cursor remaining)
  unfolding allocate_loop
  allocate_loop-IsWorked zero cursor remaining day hour e o q p f = elim f [ ]
  allocate_loop-IsWorked (suc fuel) cursor remaining day hour e o q p f =
      rw (normalize-IsAt c cursor day hour v e o q) (
        rw (e, hours_of-utc day hour (omega arith))
          (let available = c.end_hour - hour in
            let consumed = min remaining available in
            let after : IsAt c (add_hours cursor consumed) day (hour + consumed) = omega arith in
            let P = IsWorked c (worked c day hour + remaining) in
            if_intro P (remaining == 0) (λ t. absurd (ground arith))
              (λ _.
                if_intro P (available == 0) (λ t. absurd (ground arith))
                  (λ _.
                    if_intro P (ltb 0 (remaining - consumed))
                      (λ t.
                        let more : available < remaining = ground arith in
                        let rest =
                          allocate_loop c fuel
                            (move_to_next_business_window c (add_hours cursor consumed))
                            (remaining - consumed) in
                        subst (λ n. IsWorked c n rest) (omega (arith, next_day c day v))
                          (allocate_loop-IsWorked fuel
                            (move_to_next_business_window c (add_hours cursor consumed))
                            (remaining - consumed) (day + 1) c.start_hour
                            (move-IsAt c (add_hours cursor consumed) day (hour + consumed)
                              (omega arith) after)
                            (omega arith) v.opens (omega arith) (omega arith)))
                      (λ t.
                        let enough : remaining ≤ available = ground arith in
                        record {
                          day = day;
                          hour = hour + consumed;
                          stands = after;
                          opens = omega arith;
                          closes = omega arith;
                          counted = omega arith;
                        })))))

  -- With closing at 23 or earlier, `allocateBusinessHours` ends, on the hour and within business
  -- hours or at their end, exactly as many business hours after the first business hour from the
  -- start on as it was asked for (one, for none).
  pub allocate-IsWorked :
      (start hours : ℕ)
      → let first = normalize-IsFirstHour c start v in
        IsWorked c
          (worked c first.day first.hour + max 1 hours)
          (allocate_business_hours c start hours)
  unfolding allocate_business_hours
  allocate-IsWorked start hours =
      let first = normalize-IsFirstHour c start v in
      allocate_loop-IsWorked (max 1 hours + 1) (normalize_to_business_hour c start) (max 1 hours)
        first.day first.hour first.stands first.opens first.closes (omega arith) (omega arith)

  -- Such an arrival passes the test by which `shouldRebuildSimulationState` finds a date misplaced.
  pub allocate-is_aligned :
      (start hours : ℕ)
      → is_aligned_to_business_hour c (allocate_business_hours c start hours) ≡ true
  unfolding is_aligned_to_business_hour
  allocate-is_aligned start hours =
      let w = allocate-IsWorked start hours in
      rw w.stands (
        aligned c.start_hour c.end_hour w.day w.hour (omega (arith, w.closes))
          (omega (arith, w.opens)) w.closes)

-- A calendar that closes at 24 skips days: the end of the day is already the next one, so that the
-- move to the next window passes over it. Where the loop has hours left at the end of a day, it
-- goes on two days later.
pub allocate_loop-skips_day :
    (c : Calendar) (fuel cursor remaining day hour : ℕ)
    → IsCalendar c
    → c.end_hour ≡ 24
    → IsAt c cursor day hour
    → c.start_hour ≤ hour
    → hour < 24
    → 24 - hour < remaining
    → (next : ℕ) × IsAt c next (day + 2) c.start_hour
      × (allocate_loop c (suc fuel) cursor remaining
          ≡ allocate_loop c fuel next (remaining - (24 - hour)))
unfolding allocate_loop
allocate_loop-skips_day c fuel cursor remaining day hour v z e o q m =
    let end = add_hours cursor (24 - hour) in
    let at_end : IsAt c end (day + 1) 0 = omega arith in
    let left : c.end_hour - hour ≡ 24 - hour = omega arith in
    let all : min remaining (24 - hour) ≡ 24 - hour = omega arith in
    (
      move_to_next_business_window c end,
      omega (arith, move-IsAt c end (day + 1) 0 (omega arith) at_end),
      rw (normalize-IsAt c cursor day hour v e o (omega arith))
          (rw (e, hours_of-utc day hour q) (rw (left, all) (ground arith))),
    )
