-- ===== src/Shipments/Tests.antt =====
-- Runs of the shipment simulation, in the calendar from 8 to 18 o'clock at UTC+7.
use Prim.Native.Nat.{max}
use be_weavecarbon.Common.{◌+◌, ◌-◌, ◌≡◌, refl, true, none, some, arith}
use be_weavecarbon.Shipments.Calendar.{
  Calendar, read_calendar, round_up_to_simulation_hour, move_to_next_business_window,
  normalize_to_business_hour, allocate_loop, allocate_business_hours,
}
use be_weavecarbon.Shipments.Grid.{IsCalendar}
use be_weavecarbon.Shipments.Normalize.{read_calendar-IsCalendar, normalize-IsFirstHour}
use be_weavecarbon.Shipments.Allocate.{worked, IsWorked, allocate-IsWorked}
use be_weavecarbon.Shipments.Status.{pending, Shipment, sync_record}
use be_weavecarbon.Shipments.Course.{sync_record-idempotent}

abbrev office : Calendar
office = record { offset = 25200000; start_hour = 8; end_hour = 18 }

office-IsCalendar : IsCalendar office
office-IsCalendar = omega arith

-- Half past nine of the first day is the tenth hour; half past eighteen is the next morning.
first_hours :
    (normalize_to_business_hour office (34200000 - 25200000) ≡ 36000000 - 25200000)
    × (normalize_to_business_hour office (66600000 - 25200000) ≡ 115200000 - 25200000)
unfolding normalize_to_business_hour round_up_to_simulation_hour move_to_next_business_window
first_hours = (refl, refl)

-- Twelve hours from the tenth hour on end at twelve on the next day.
twelve_hours :
    allocate_business_hours office (36000000 - 25200000) 12 ≡ 86400000 + 43200000 - 25200000
unfolding allocate_business_hours allocate_loop normalize_to_business_hour
    round_up_to_simulation_hour move_to_next_business_window
twelve_hours = refl

read_calendar-IsCalendar_example : IsCalendar (read_calendar 0 30 2)
read_calendar-IsCalendar_example = read_calendar-IsCalendar 0 30 2

allocate-IsWorked_example :
    let first = normalize-IsFirstHour office 9000000 office-IsCalendar in
    IsWorked office
      (worked office first.day first.hour + max 1 12)
      (allocate_business_hours office 9000000 12)
allocate-IsWorked_example = allocate-IsWorked office office-IsCalendar (omega arith) 9000000 12

abbrev round_the_clock : Calendar
round_the_clock = record { offset = 0; start_hour = 0; end_hour = 24 }

abbrev parcel : Shipment
parcel = record {
  id = 1;
  status = pending;
  simulation_enabled = some true;
  created_at = 0;
  pending_until = some 100;
  estimated_arrival_at = some 200;
  estimated_arrival = some 0;
  actual_arrival_at = none;
  actual_arrival = none;
  updated_at = 0;
}

sync_record-idempotent_example :
    sync_record office 300 (sync_record office 300 parcel) ≡ sync_record office 300 parcel
sync_record-idempotent_example = sync_record-idempotent office 300 parcel
