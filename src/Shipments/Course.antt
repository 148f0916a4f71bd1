-- ===== src/Shipments/Course.antt =====
-- The course of a shipment (src/services/shipmentSimulationService.js): what bringing its row up to
-- date does, however often it is done.
use be_weavecarbon.Common.{ℕ, ◌≤◌, ◌≡◌, true, Option, none, some, arith, is_some}
use be_weavecarbon.Shipments.Calendar.{Calendar}
use be_weavecarbon.Shipments.Status.{
  Status, pending, in_transit, delivered, cancelled, Shipment, to_legacy_date, sync_record,
}

-- Bringing a row up to date again at the same time changes nothing.
pub sync_record-idempotent :
    (c : Calendar) (now : ℕ) (s : Shipment)
    → sync_record c now (sync_record c now s) ≡ sync_record c now s
unfolding sync_record
sync_record-idempotent c now s = ground arith

abbrev pub without_stamp : Shipment → Shipment
without_stamp s = record s { updated_at = 0 }

-- It does not matter how often a row is brought up to date on the way: an update at a time leaves
-- what the update at a later time makes of it, but for the stamp `updated_at`. The row has an
-- estimated arrival; without one a delivered shipment gets the time of the first update.
pub sync_record-poll :
    (c : Calendar) (now later : ℕ) (s : Shipment)
    → now ≤ later
    → is_some s.estimated_arrival_at ≡ true
    → without_stamp (sync_record c later (sync_record c now s))
      ≡ without_stamp (sync_record c later s)
unfolding sync_record
sync_record-poll c now later s h k = ground arith

abbrev pub rank : Status → ℕ
rank pending = 0
rank in_transit = 1
rank delivered = 2
rank cancelled = 3

-- After an update the status never goes back as time goes on, and a delivered or cancelled shipment
-- keeps its status.
pub sync_record-advances :
    (c : Calendar) (now later : ℕ) (s : Shipment)
    → now ≤ later
    → (rank (sync_record c now s).status ≤ rank (sync_record c later (sync_record c now s)).status)
      × (2 ≤ rank s.status → (sync_record c later s).status ≡ s.status)
unfolding sync_record
sync_record-advances c now later s h = ground arith

abbrev first_date : Option ℕ → Option ℕ → ℕ → ℕ
first_date (some date) _ now = date
first_date none (some date) now = date
first_date none none now = now

-- A shipment that an update leaves delivered has its arrival, with the local day of it.
pub sync_record-arrival :
    (c : Calendar) (now : ℕ) (s : Shipment)
    → (sync_record c now s).status ≡ delivered
    → (date : ℕ) × ((sync_record c now s).actual_arrival_at ≡ some date)
      × ((sync_record c now s).actual_arrival ≡ some (to_legacy_date c date))
unfolding sync_record
sync_record-arrival c now s h =
    (first_date s.actual_arrival_at s.estimated_arrival_at now, ground arith, ground arith)
