-- ===== src/Batches/Legs.antt =====
-- The leg and the rows of a batch's shipment: `_buildBatchShipmentLegs` and the part of `publishBatch`
-- that prepares the shipment, of src/modules/assessments/batchesService.js. The
-- distance over the earth, a computation on floating-point numbers, is a parameter; the other
-- numbers are exact, before a column rounds them.
use be_weavecarbon.Common.{
  ℕ, ◌+◌, ◌*◌, ◌/◌, String, Bool, true, false, not, ◌&&◌, ◌||◌, Option, none, some, List, [], ◌∷◌,
  leb, ◌==◌, str_eq, if◌then◌else◌, is_some, any, select_one, select_where, count_where,
}
use be_weavecarbon.Compliance.Documents.{Product, has_text}
use be_weavecarbon.Batches.Tables.{
  Degrees, positive, negative, Batch, Item, Store, Address, Mode, Leg, ShippedProduct,
  BatchShipment, road, sea, air, rail,
}
use be_weavecarbon.Batches.Items.{or_zero}

pub data SkipReason : Type 0 where
  missing_logistics_data : SkipReason
  missing_location_country : SkipReason
  missing_transport_mode : SkipReason
  missing_multimodal_leg_distances : SkipReason
  missing_route_distance : SkipReason
  missing_batch_items : SkipReason

-- `DEFAULT_EMISSION_FACTOR_BY_MODE`, in hundred-thousandths.
abbrev pub default_emission_factor_by_mode : Mode → ℕ
default_emission_factor_by_mode road = 12226
default_emission_factor_by_mode sea = 1612
default_emission_factor_by_mode air = 89939
default_emission_factor_by_mode rail = 2779

abbrev one_of : List String → String → Bool
one_of names value = any (str_eq value) names

-- `_normalizeTransportMode` of the trimmed lower-case text.
abbrev pub normalize_transport_mode : String → Option Mode
normalize_transport_mode raw =
    if one_of ("road" ∷ "truck" ∷ "truck_light" ∷ "truck_heavy" ∷ []) raw
    then some road
    else if one_of ("sea" ∷ "ship" ∷ "ocean" ∷ []) raw
    then some sea
    else if one_of ("air" ∷ "flight" ∷ []) raw
    then some air
    else if one_of ("rail" ∷ "train" ∷ []) raw
    then some rail
    else none

abbrev pub same_mode : Mode → Mode → Bool
same_mode road road = true
same_mode sea sea = true
same_mode air air = true
same_mode rail rail = true
same_mode _ _ = false

abbrev add_mode : Option Mode → List Mode → List Mode
add_mode none modes = modes
add_mode (some m) modes = if any (same_mode m) modes then modes else m ∷ modes

-- `[...new Set(normalizedModes)]`; only a single mode matters, not the order.
abbrev pub unique_modes : List String → List Mode
unique_modes [] = []
unique_modes (x ∷ names) = add_mode (normalize_transport_mode x) (unique_modes names)

abbrev pub has_coordinates : Address → Bool
has_coordinates a = is_some a.lat && is_some a.lng

abbrev city_or_country : Address → String
city_or_country a = if has_text a.city then a.city else a.country

-- The row of an item in `batchItems JOIN products`, where the product has one.
abbrev pub shipped_product : Item → Product → ShippedProduct
shipped_product x p = record {
  product_id = x.product_id;
  quantity = x.quantity / 100;
  weight_kg = or_zero x.weight_kg;
  allocated_co2e =
      or_zero (if is_some x.co2_per_unit then x.co2_per_unit else p.total_co2e)
      * (x.quantity / 100);
}

abbrev joined : Item → Option Product → List ShippedProduct → List ShippedProduct
joined x none rest = rest
joined x (some p) rest = shipped_product x p ∷ rest

abbrev pub product_of : Item → List Product → Option Product
product_of x products = select_one (λ (p : Product). p.id == x.product_id) products

abbrev pub shipped_products : List Product → List Item → List ShippedProduct
shipped_products products [] = []
shipped_products products (x ∷ items) =
    joined x (product_of x products) (shipped_products products items)

abbrev pub shipped_weight : List ShippedProduct → ℕ
shipped_weight [] = 0
shipped_weight (p ∷ products) = p.weight_kg * p.quantity + shipped_weight products

abbrev pub items_of : ℕ → Store → List Item
items_of i s = select_where (λ x. x.batch_id == i) s.items

abbrev pub sum_distance : List Leg → ℕ
sum_distance [] = 0
sum_distance (l ∷ legs) = l.distance_km + sum_distance legs

abbrev pub sum_co2e : List Leg → ℕ
sum_co2e [] = 0
sum_co2e (l ∷ legs) = l.co2e + sum_co2e legs

-- The shipment that the batch gets, or why it gets none.
pub data Plan : Type 0 where
  skipped : SkipReason → Plan
  shipped : BatchShipment → Plan

abbrev pub reason_or : Option SkipReason → SkipReason
reason_or none = missing_route_distance
reason_or (some r) = r

-- `value || null` of a coordinate: 0 is stored as none.
abbrev pub degrees_or_null : Option Degrees → Option Degrees
degrees_or_null none = none
degrees_or_null (some (positive n)) = if n == 0 then none else some (positive n)
degrees_or_null (some (negative n)) = if n == 0 then none else some (negative n)

-- The columns of an address in the row of the shipment.
abbrev pub stored_address : Address → Address
stored_address a = record a { lat = degrees_or_null a.lat; lng = degrees_or_null a.lng }

abbrev pub plan_legs :
    ℕ
    → ℕ
    → Batch
    → Store
    → Address
    → Address
    → List ShippedProduct
    → List Leg
    → Option SkipReason
    → Plan
plan_legs year fresh b s origin destination products [] reason = skipped (reason_or reason)
plan_legs year fresh b s origin destination products (l ∷ legs) reason = shipped (record {
  id = fresh;
  company_id = b.company_id;
  reference_number =
      (year, count_where (λ (x : BatchShipment). x.company_id == b.company_id) s.shipments + 1);
  status = "pending";
  origin = stored_address origin;
  destination = stored_address destination;
  total_weight_kg = shipped_weight products;
  total_distance_km = sum_distance (l ∷ legs);
  total_co2e = sum_co2e (l ∷ legs);
  legs = l ∷ legs;
  products = products;
})

module _ (distance : Address → Address → ℕ) where
  -- The leg of a single mode over a known distance; its emission is in 10 ^ -15 of a kilogram.
  abbrev pub single_leg : Mode → Address → Address → ℕ → Leg
  single_leg mode origin destination weight = record {
    leg_order = 1;
    transport_mode = mode;
    origin_location = city_or_country origin;
    destination_location = city_or_country destination;
    distance_km = distance origin destination;
    co2e = weight * distance origin destination * default_emission_factor_by_mode mode;
    emission_factor_used = default_emission_factor_by_mode mode;
  }

  abbrev pub legs_of_modes : List Mode → Address → Address → ℕ → List Leg × Option SkipReason
  legs_of_modes [] origin destination weight = ([], some missing_transport_mode)
  legs_of_modes (m ∷ n ∷ modes) origin destination weight =
      ([], some missing_multimodal_leg_distances)
  legs_of_modes (m ∷ []) origin destination weight =
      if not (has_coordinates origin) || not (has_coordinates destination)
      then ([], some missing_route_distance)
      else if leb (distance origin destination) 0
      then ([], some missing_route_distance)
      else (single_leg m origin destination weight ∷ [], none)

  -- `_buildBatchShipmentLegs`
  unfoldable pub build_batch_shipment_legs :
      Batch → Address → Address → ℕ → List Leg × Option SkipReason
  build_batch_shipment_legs batch origin destination weight =
      legs_of_modes (unique_modes batch.transport_modes) origin destination weight
