-- ===== src/Batches/Tables.antt =====
-- The tables of src/modules/assessments/batchesService.js, and the operations on a batch itself.
-- Quantities are in hundredths, weights and emissions in ten-thousandths, as the columns keep them;
-- distances are in metres, coordinates in ten-millionths of a degree. A transaction runs as one
-- step, and an error leaves the tables as they were.
use be_weavecarbon.Common.{
  ℕ, String, Bool, true, false, not, ◌&&◌, Option, none, some, List, ◌∷◌, ◌==◌, if◌then◌else◌,
  is_some, any, select_one, update_where,
}
use be_weavecarbon.Compliance.Documents.{Papers}

pub data BatchStatus : Type 0 where
  draft : BatchStatus
  published : BatchStatus
  archived : BatchStatus

pub data Degrees : Type 0 where
  positive : ℕ → Degrees
  negative : ℕ → Degrees

-- The JSON object of an address; an absent text is the empty one.
pub record Address : Type 0 where
  pub country : String
  pub city : String
  pub address : String
  pub lat : Option Degrees
  pub lng : Option Degrees

pub record Batch : Type 0 where
  pub id : ℕ
  pub company_id : ℕ
  pub batch_name : String
  pub description : Option String
  pub status : BatchStatus
  pub origin_address : Option Address
  pub destination_address : Option Address
  pub destination_market : Option String
  pub transport_modes : List String
  pub shipment_id : Option ℕ
  pub total_products : ℕ
  pub total_quantity : ℕ
  pub total_weight_kg : ℕ
  pub total_co2e : ℕ
  pub created_by : ℕ
  pub published_at : Option ℕ
  pub created_at : ℕ
  pub updated_at : ℕ

pub record Item : Type 0 where
  pub id : ℕ
  pub batch_id : ℕ
  pub product_id : ℕ
  pub quantity : ℕ
  pub weight_kg : Option ℕ
  pub co2_per_unit : Option ℕ
  pub created_at : ℕ

pub data Mode : Type 0 where
  road : Mode
  sea : Mode
  air : Mode
  rail : Mode

pub record Leg : Type 0 where
  pub leg_order : ℕ
  pub transport_mode : Mode
  pub origin_location : String
  pub destination_location : String
  pub distance_km : ℕ
  pub co2e : ℕ
  pub emission_factor_used : ℕ

pub record ShippedProduct : Type 0 where
  pub product_id : ℕ
  pub quantity : ℕ
  pub weight_kg : ℕ
  pub allocated_co2e : ℕ

-- A shipment with its rows of `shipment_legs` and `shipment_products`. The reference is its number
-- within the company and the year.
pub record BatchShipment : Type 0 where
  pub id : ℕ
  pub company_id : ℕ
  pub reference_number : ℕ × ℕ
  pub status : String
  pub origin : Address
  pub destination : Address
  pub total_weight_kg : ℕ
  pub total_distance_km : ℕ
  pub total_co2e : ℕ
  pub legs : List Leg
  pub products : List ShippedProduct

pub record Store : Type 0 where
  pub papers : Papers
  pub batches : List Batch
  pub items : List Item
  pub shipments : List BatchShipment

-- What an operation answers, or the message or code of its error.
pub data Outcome {ℓ} (A : Type ℓ) : Type ℓ where
  done : A → Outcome A
  failed : String → Outcome A

abbrev pub same_status : BatchStatus → BatchStatus → Bool
same_status draft draft = true
same_status published published = true
same_status archived archived = true
same_status _ _ = false

-- `WHERE id = $1 AND company_id = $2`
abbrev pub is_batch : ℕ → ℕ → Batch → Bool
is_batch company i b = b.id == i && b.company_id == company

abbrev pub find_batch : ℕ → ℕ → Store → Option Batch
find_batch company i s = select_one (is_batch company i) s.batches

pub record BatchData : Type 0 where
  pub name : String
  pub description : Option String
  pub origin_address : Option Address
  pub destination_address : Option Address
  pub destination_market : Option String
  pub transport_modes : List String

abbrev pub new_batch : ℕ → ℕ → ℕ → ℕ → BatchData → Batch
new_batch now fresh company user d = record {
  id = fresh;
  company_id = company;
  batch_name = d.name;
  description = d.description;
  status = draft;
  origin_address = d.origin_address;
  destination_address = d.destination_address;
  destination_market = d.destination_market;
  transport_modes = d.transport_modes;
  shipment_id = none;
  total_products = 0;
  total_quantity = 0;
  total_weight_kg = 0;
  total_co2e = 0;
  created_by = user;
  published_at = none;
  created_at = now;
  updated_at = now;
}

unfoldable pub create_batch : ℕ → ℕ → ℕ → ℕ → BatchData → Store → Store
create_batch now fresh company user d s = record s {
  batches = new_batch now fresh company user d ∷ s.batches;
}

-- `undefined` leaves a column as it is.
pub record BatchUpdate : Type 0 where
  pub name : Option String
  pub description : Option String
  pub origin_address : Option Address
  pub destination_address : Option Address
  pub destination_market : Option String
  pub transport_modes : Option (List String)

abbrev or_else {ℓ} : {A : Type ℓ} → Option A → A → A
or_else none x = x
or_else (some a) x = a

abbrev or_keep {ℓ} : {A : Type ℓ} → Option A → Option A → Option A
or_keep none x = x
or_keep (some a) x = some a

abbrev pub updated_batch : ℕ → BatchUpdate → Batch → Batch
updated_batch now d b = record b {
  batch_name = or_else d.name b.batch_name;
  description = or_keep d.description b.description;
  origin_address = or_keep d.origin_address b.origin_address;
  destination_address = or_keep d.destination_address b.destination_address;
  destination_market = or_keep d.destination_market b.destination_market;
  transport_modes = or_else d.transport_modes b.transport_modes;
  updated_at = now;
}

abbrev pub is_empty_update : BatchUpdate → Bool
is_empty_update d =
    not (is_some d.name)
    && (not (is_some d.description)
        && (not (is_some d.origin_address)
            && (not (is_some d.destination_address)
                && (not (is_some d.destination_market) && not (is_some d.transport_modes)))))

abbrev pub is_draft_batch : ℕ → ℕ → Batch → Bool
is_draft_batch company i b = is_batch company i b && same_status b.status draft

-- The two statements of `updateBatch` run outside a transaction: the first on the tables `seen`, the
-- second on those of a later time.
abbrev pub write_batch : ℕ → ℕ → ℕ → BatchUpdate → Store → Store × Outcome (Option ℕ)
write_batch now i company d s =
    if not (any (is_draft_batch company i) s.batches) then (s, failed "BATCH_NOT_EDITABLE") else (
      record s {
        batches = update_where (is_draft_batch company i) (updated_batch now d) s.batches;
      },
      done (some i),
    )

unfoldable pub update_batch : ℕ → ℕ → ℕ → BatchUpdate → Store → Store → Store × Outcome (Option ℕ)
update_batch now i company d seen s = elim (find_batch company i seen) [
  | none ↦ (s, done none)
  | some b ↦
      if not (same_status b.status draft)
      then (s, failed "BATCH_NOT_EDITABLE")
      else if is_empty_update d
      then (s, done (some i))
      else write_batch now i company d s
]

abbrev pub archive : ℕ → Batch → Batch
archive now b = record b { status = archived; updated_at = now }

-- `deleteBatch`, a soft delete.
unfoldable pub delete_batch : ℕ → ℕ → ℕ → Store → Store × Bool
delete_batch now i company s = (
  record s { batches = update_where (is_batch company i) (archive now) s.batches },
  any (is_batch company i) s.batches,
)
