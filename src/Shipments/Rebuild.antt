-- ===== src/Shipments/Rebuild.antt =====
-- A shipment whose dates `buildShipmentSimulationState` has computed is not rebuilt again
-- (src/services/shipmentSimulationService.js).
use Prim.Native.Nat.{max}
use native.Mathlib.Decide.{ℕ_discrete}
use be_weavecarbon.Common.{
  ℕ, ◌+◌, ◌-◌, ◌*◌, ◌≤◌, ◌<◌, ◌≡◌, true, false, Option, none, some, arith, if_intro,
}
use be_weavecarbon.Shipments.Calendar.{
  Calendar, normalize_to_business_hour, is_aligned_to_business_hour, allocate_business_hours,
}
use be_weavecarbon.Shipments.Grid.{IsCalendar}
use be_weavecarbon.Shipments.Normalize.{normalize-IsFirstHour}
use be_weavecarbon.Shipments.Allocate.{worked, allocate-IsWorked, allocate-is_aligned, aligned}
use be_weavecarbon.Shipments.Status.{
  Shipment, resolve_pending_until, build_simulation, apply_simulation, should_rebuild,
}

-- More business hours are a later date.
days_le :
    (s e day hour day' hour' : ℕ)
    → s ≤ hour
    → hour < e
    → hour' ≤ e
    → day * (e - s) + (hour - s) < day' * (e - s) + (hour' - s)
    → day ≤ day'
days_le s e day hour day' hour' o q q' h = grind arith

worked-same_day : (w day day' x y : ℕ) → day ≡ day' → day * w + x < day' * w + y → x < y
worked-same_day w day day' x y e h = grind arith

module _ (c : Calendar) (v : IsCalendar c) (day_end : c.end_hour ≤ 23) where
  allocate-gt : (start hours : ℕ) → start < allocate_business_hours c start hours
  allocate-gt start hours =
      let first = normalize-IsFirstHour c start v in
      let w = allocate-IsWorked c v day_end start hours in
      let later : worked c first.day first.hour < worked c w.day w.hour =
        omega (arith, w.counted) in
      let days =
        days_le c.start_hour c.end_hour first.day first.hour w.day w.hour first.opens first.closes
          w.closes later in
      elim (ℕ_discrete first.day w.day) [
        | yes same ↦ omega (
          arith,
          first.later,
          first.stands,
          w.stands,
          worked-same_day (c.end_hour - c.start_hour) first.day w.day (first.hour - c.start_hour)
              (w.hour - c.start_hour) same later,
        )
        | no other ↦ omega (arith, first.later, first.stands, w.stands, first.closes, v.closes)
      ]

  normalize-aligned :
      (date : ℕ) → is_aligned_to_business_hour c (normalize_to_business_hour c date) ≡ true
  unfolding is_aligned_to_business_hour
  normalize-aligned date =
      let f = normalize-IsFirstHour c date v in
      rw f.stands (
        aligned c.start_hour c.end_hour f.day f.hour (omega (arith, f.closes)) f.opens
          (omega (arith, f.closes)))

  resolve_pending_until-aligned :
      (random_hours created_at : ℕ) (pending_until : Option ℕ)
      → is_aligned_to_business_hour c
          (resolve_pending_until c random_hours created_at pending_until)
        ≡ true
  unfolding resolve_pending_until
  resolve_pending_until-aligned random_hours created_at none =
      allocate-is_aligned c v day_end (normalize_to_business_hour c created_at) random_hours
  resolve_pending_until-aligned random_hours created_at (some pending_until) =
      if_intro (λ d. is_aligned_to_business_hour c d ≡ true) _ (λ _. normalize-aligned created_at)
        (λ _. normalize-aligned pending_until)

  resolve_pending_until-le :
      (random_hours created_at : ℕ) (pending_until : Option ℕ)
      → normalize_to_business_hour c created_at
        ≤ resolve_pending_until c random_hours created_at pending_until
  unfolding resolve_pending_until
  resolve_pending_until-le random_hours created_at none =
      omega (arith, allocate-gt (normalize_to_business_hour c created_at) random_hours)
  resolve_pending_until-le random_hours created_at (some pending_until) = ground arith

  -- With closing at 23 or earlier, a shipment with the dates that the simulation computes for it is
  -- found well placed: whatever they were computed from, they are not computed again.
  pub build_simulation-settles :
      (random_hours transit_hours : ℕ) (pending_until : Option ℕ) (s : Shipment)
      → should_rebuild c (
          apply_simulation s
            (build_simulation c random_hours s.created_at pending_until transit_hours))
        ≡ false
  unfolding should_rebuild build_simulation apply_simulation
  build_simulation-settles random_hours transit_hours pending_until s =
      let effective = resolve_pending_until c random_hours s.created_at pending_until in
      ground (
        arith,
        resolve_pending_until-aligned random_hours s.created_at pending_until,
        resolve_pending_until-le random_hours s.created_at pending_until,
        allocate-is_aligned c v day_end effective (max 1 transit_hours),
        allocate-gt effective (max 1 transit_hours),
      )
