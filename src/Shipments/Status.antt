-- ===== src/Shipments/Status.antt =====
-- src/services/shipmentSimulationService.js: the status that a shipment has at a time, and the
-- write that brings its row up to date.
use Prim.Native.Nat.{max}
use be_weavecarbon.Common.{
  ℕ, ◌+◌, Bool, true, false, not, ◌&&◌, ◌||◌, Option, none, some, List, [], ◌∷◌, ltb, leb, ◌==◌,
  if◌then◌else◌,
}
use be_weavecarbon.Shipments.Calendar.{
  Calendar, day_of, normalize_to_business_hour, is_aligned_to_business_hour,
  allocate_business_hours,
}

pub data Status : Type 0 where
  pending in_transit delivered cancelled : Status

-- The columns of `shipments` that the simulation reads and writes. A date without a time stands as
-- its local day, which `toLegacyDate` writes as YYYY-MM-DD: two such texts are equal when the days
-- are.
pub record Shipment : Type 0 where
  pub id : ℕ
  pub status : Status
  pub simulation_enabled : Option Bool
  pub created_at : ℕ
  pub pending_until : Option ℕ
  pub estimated_arrival_at : Option ℕ
  pub estimated_arrival : Option ℕ
  pub actual_arrival_at : Option ℕ
  pub actual_arrival : Option ℕ
  pub updated_at : ℕ

-- `toLegacyDate`
abbrev pub to_legacy_date : Calendar → ℕ → ℕ
to_legacy_date c date = day_of (date + c.offset)

abbrev pub by_time : Status → Option ℕ → Option ℕ → ℕ → Status
by_time status (some pending_until) (some estimated_arrival_at) now =
    if leb estimated_arrival_at now
    then delivered
    else if leb pending_until now
    then in_transit
    else pending
by_time status _ _ now = status

abbrev simulated : Option Bool → Bool
simulated none = false
simulated (some b) = b

-- `resolveEffectiveShipmentStatus` of a shipment that is there, at a time.
unfoldable pub resolve_effective_status : Shipment → ℕ → Status
resolve_effective_status s now = elim s.status [
  | cancelled ↦ cancelled
  | delivered ↦ delivered
  | _ ↦
      if simulated s.simulation_enabled
      then by_time s.status s.pending_until s.estimated_arrival_at now
      else s.status
]

abbrev pub same_option : Option ℕ → Option ℕ → Bool
same_option none none = true
same_option (some a) (some b) = a == b
same_option _ _ = false

abbrev pub same_status : Status → Status → Bool
same_status pending pending = true
same_status in_transit in_transit = true
same_status delivered delivered = true
same_status cancelled cancelled = true
same_status _ _ = false

-- `a || b` on dates
abbrev pub date_or : Option ℕ → Option ℕ → Option ℕ
date_or none b = b
date_or (some a) b = some a

pub record Mutation : Type 0 where
  pub next_status : Status
  pub next_actual_arrival_at : Option ℕ
  pub next_actual_arrival : Option ℕ
  pub has_changes : Bool

abbrev is_delivered : Status → Bool
is_delivered delivered = true
is_delivered _ = false

abbrev legacy_of : Calendar → Option ℕ → Option ℕ
legacy_of c none = none
legacy_of c (some date) = some (to_legacy_date c date)

-- `buildSimulationSyncMutation`
unfoldable pub build_sync_mutation : Calendar → Shipment → ℕ → Mutation
unfolding resolve_effective_status
build_sync_mutation c s now =
    let status = resolve_effective_status s now in
    let arrival_at =
      if is_delivered status
      then date_or s.actual_arrival_at (date_or s.estimated_arrival_at (some now))
      else s.actual_arrival_at in
    let arrival = if is_delivered status then legacy_of c arrival_at else s.actual_arrival in
    record {
      next_status = status;
      next_actual_arrival_at = arrival_at;
      next_actual_arrival = arrival;
      has_changes =
          not (same_status s.status status)
          || (not (same_option s.actual_arrival_at arrival_at)
              || not (same_option s.actual_arrival arrival));
    }

-- `syncShipmentSimulationRecord` on the row that it has read: the row as it is afterwards.
unfoldable pub sync_record : Calendar → ℕ → Shipment → Shipment
unfolding build_sync_mutation
sync_record c now s =
    let m = build_sync_mutation c s now in
    if m.has_changes
    then record s {
      status = m.next_status;
      actual_arrival_at =
          if is_delivered m.next_status then m.next_actual_arrival_at else s.actual_arrival_at;
      actual_arrival =
          if is_delivered m.next_status then m.next_actual_arrival else s.actual_arrival;
      updated_at = now;
    }
    else s

abbrev is_cancelled : Status → Bool
is_cancelled cancelled = true
is_cancelled _ = false

-- The rows that `syncCompanyShipmentSimulation` selects and brings up to date.
abbrev pub is_synced : Shipment → Bool
is_synced s = simulated s.simulation_enabled && not (is_cancelled s.status)

unfoldable pub sync_company : Calendar → ℕ → List Shipment → List Shipment
unfolding sync_record
sync_company c now [] = []
sync_company c now (s ∷ rows) =
    (if is_synced s then sync_record c now s else s) ∷ sync_company c now rows

-- `maxDate`
abbrev max_date : ℕ → Option ℕ → ℕ
max_date left none = left
max_date left (some right) = if leb right left then left else right

-- `resolvePendingUntil`; `random_hours` is what `getRandomPendingHours` draws.
unfoldable pub resolve_pending_until : Calendar → ℕ → ℕ → Option ℕ → ℕ
resolve_pending_until c random_hours created_at none =
    allocate_business_hours c (normalize_to_business_hour c created_at) random_hours
resolve_pending_until c random_hours created_at (some pending_until) =
    max_date (normalize_to_business_hour c created_at)
      (some (normalize_to_business_hour c pending_until))

-- What `buildShipmentSimulationState` answers for a shipment that may be simulated.
pub record Simulation : Type 0 where
  pub pending_until : ℕ
  pub estimated_arrival_at : ℕ
  pub estimated_arrival : ℕ

-- The dates of `buildShipmentSimulationState`, from the transit time in hours, rounded up.
unfoldable pub build_simulation : Calendar → ℕ → ℕ → Option ℕ → ℕ → Simulation
build_simulation c random_hours created_at pending_until transit_hours =
    let effective = resolve_pending_until c random_hours created_at pending_until in
    let arrival = allocate_business_hours c effective (max 1 transit_hours) in
    record {
      pending_until = effective;
      estimated_arrival_at = arrival;
      estimated_arrival = to_legacy_date c arrival;
    }

-- The row that `backfillCompanyShipments` writes where it has computed a simulation and the
-- shipment has not arrived.
unfoldable pub apply_simulation : Shipment → Simulation → Shipment
apply_simulation s b = record s {
  simulation_enabled = some true;
  pending_until = some b.pending_until;
  estimated_arrival_at = some b.estimated_arrival_at;
  estimated_arrival = some b.estimated_arrival;
}

abbrev misplaced : Calendar → Shipment → Option ℕ → Option ℕ → Bool
misplaced c s (some pending_until) (some estimated_arrival_at) =
    not (is_aligned_to_business_hour c pending_until)
    || (not (is_aligned_to_business_hour c estimated_arrival_at)
        || (ltb pending_until (normalize_to_business_hour c s.created_at)
            || (leb estimated_arrival_at pending_until
                || not (
                    same_option s.estimated_arrival
                      (some (to_legacy_date c estimated_arrival_at))))))
misplaced c s _ _ = true

abbrev disabled : Option Bool → Bool
disabled (some false) = true
disabled _ = false

-- `shouldRebuildSimulationState`
unfoldable pub should_rebuild : Calendar → Shipment → Bool
should_rebuild c s =
    if disabled s.simulation_enabled
    then false
    else misplaced c s s.pending_until s.estimated_arrival_at
