-- ===== src/Batches/Published.antt =====
-- What a publication by `publishBatch` of src/modules/assessments/batchesService.js has checked and
-- made.
use be_weavecarbon.Common.{
  ℕ, ◌+◌, ◌*◌, Bool, true, false, not, ◌&&◌, ◌≡◌, leb, count_where, ◌⊎◌, Option, none, some, List,
  [], ◌∷◌, ◌==◌, is_some, update_where,
}
use be_weavecarbon.Compliance.Documents.{
  Papers, resolve_company_domestic_market_code, list_required_documents, has_text,
}
use be_weavecarbon.Compliance.Publish.{owned_products}
use be_weavecarbon.Compliance.Placeholders.{AllProvided}
use be_weavecarbon.Batches.Tables.{
  Batch, Store, Outcome, Address, Mode, Leg, ShippedProduct, BatchShipment, published, done, failed,
  same_status, find_batch,
}
use be_weavecarbon.Batches.Legs.{
  SkipReason, Plan, skipped, shipped, has_coordinates, unique_modes, stored_address, single_leg,
  default_emission_factor_by_mode, shipped_products, shipped_weight, items_of, plan_legs,
}
use be_weavecarbon.Batches.Publish.{product_ids_of, publish_row}

-- What a batch needs for a shipment: both addresses with a country and coordinates, an item with its
-- product, a single mode, and a distance.
abbrev pub can_ship :
    (Address → Address → ℕ)
    → Option Address
    → Option Address
    → List ShippedProduct
    → List Mode
    → Bool
can_ship distance (some o) (some d) (p ∷ products) (m ∷ []) =
    (has_text o.country && has_text d.country)
    && ((has_coordinates o && has_coordinates d) && not (leb (distance o d) 0))
can_ship distance (some o) (some d) (p ∷ products) (m ∷ n ∷ modes) = false
can_ship distance (some o) (some d) (p ∷ products) [] = false
can_ship distance (some o) (some d) [] modes = false
can_ship distance (some o) none products modes = false
can_ship distance none d products modes = false

abbrev pub loaded : Store → Batch → List ShippedProduct
loaded s b = shipped_products s.papers.products (items_of b.id s)

abbrev pub is_shippable : (Address → Address → ℕ) → Store → Batch → Bool
is_shippable distance s b =
    can_ship distance b.origin_address b.destination_address (loaded s b)
      (unique_modes b.transport_modes)

-- The shipment of a batch, with its one leg and its rows: it goes from the one address of the batch to
-- the other by its mode, and has the products and the weight of its items.
pub record IsShipment (distance : Address → Address → ℕ) (year fresh : ℕ) (s : Store) (b : Batch)
    (x : BatchShipment) : Type 0 where
  pub from_address : Address
  pub to_address : Address
  pub mode : Mode
  pub leaves : b.origin_address ≡ some from_address
  pub arrives : b.destination_address ≡ some to_address
  pub single : unique_modes b.transport_modes ≡ mode ∷ []
  pub named : (x.id ≡ fresh) × (x.company_id ≡ b.company_id) × (x.status ≡ "pending")
  pub referenced :
      x.reference_number
      ≡ (year, count_where (λ (y : BatchShipment). y.company_id == b.company_id) s.shipments + 1)
  pub ends : (x.origin ≡ stored_address from_address) × (x.destination ≡ stored_address to_address)
  pub carries : x.products ≡ loaded s b
  pub weighs : x.total_weight_kg ≡ shipped_weight (loaded s b)
  pub travels : x.total_distance_km ≡ distance from_address to_address
  pub emits :
      x.total_co2e
      ≡ shipped_weight (loaded s b)
        * distance from_address to_address
        * default_emission_factor_by_mode mode
  pub legs :
      x.legs ≡ single_leg distance mode from_address to_address (shipped_weight (loaded s b)) ∷ []

-- A batch that can be shipped is, and no other.
abbrev IsLoad : (Address → Address → ℕ) → ℕ → ℕ → Store → Batch → Plan → Type 0
IsLoad distance year fresh s b (skipped r) = is_shippable distance s b ≡ false
IsLoad distance year fresh s b (shipped x) =
    (is_shippable distance s b ≡ true) × IsShipment distance year fresh s b x

-- The shipment that was added, if any, and the answer.
abbrev pub IsDelivered :
    (Address → Address → ℕ) → ℕ → ℕ → Store → Store → Batch → Option ℕ → Option SkipReason → Type 0
IsDelivered distance year fresh s last b shipment reason =
    ((is_shippable distance s b ≡ false)
      × (shipment ≡ none)
      × (is_some reason ≡ true)
      × (last.shipments ≡ s.shipments))
    ⊎ ((x : BatchShipment) × (is_shippable distance s b ≡ true)
        × (shipment ≡ some x.id)
        × (reason ≡ none)
        × (last.shipments ≡ x ∷ s.shipments)
        × IsShipment distance year fresh s b x)

-- Every named product of the company has every document that its domestic market requires.
abbrev pub AllCleared : ℕ → Papers → List ℕ → Type 0
AllCleared company p ids =
    AllProvided company (resolve_company_domestic_market_code company p)
      (owned_products company ids p)
      (list_required_documents (resolve_company_domestic_market_code company p) p) p

pub record IsPublished (distance : Address → Address → ℕ) (year fresh : ℕ) (s : Store)
    (now i company : ℕ) (b : Batch) (last : Store) (shipment : Option ℕ)
    (reason : Option SkipReason) : Type 0 where
  pub found : find_batch company i s ≡ some b
  pub unpublished : same_status b.status published ≡ false
  pub counted : (b.total_products == 0) ≡ false
  pub same_papers : last.papers ≡ s.papers
  pub same_items : last.items ≡ s.items
  pub cleared : AllCleared company s.papers (product_ids_of b s)
  pub marked :
      last.batches ≡ update_where (λ (x : Batch). x.id == b.id) (publish_row now shipment) s.batches
  pub delivered : IsDelivered distance year fresh s last b shipment reason

module _ (distance : Address → Address → ℕ) (year fresh : ℕ) (b : Batch) (s : Store) where
  abbrev Loads : Plan → Type 0
  Loads = IsLoad distance year fresh s b

  -- The plan for the products and modes, where the batch has both addresses.
  abbrev planned : Address → Address → List ShippedProduct → List Leg × Option SkipReason → Plan
  planned o d products built = plan_legs year fresh b s o d products built.0 built.1

-- A result, when it is a success.
abbrev WhenDone :
    (Store → Option ℕ → Option SkipReason → Type 0)
    → Store × Outcome (Option ℕ × Option SkipReason)
    → Type 0
WhenDone P (last, done (shipment, reason)) = P last shipment reason
WhenDone P (last, failed message) = Unit

module _ (distance : Address → Address → ℕ) (now year fresh fresh_document i company : ℕ)
    (s : Store) (b : Batch) where
  abbrev Goal : Store × Outcome (Option ℕ × Option SkipReason) → Type 0
  Goal = WhenDone (λ last shipment reason.
      IsPublished distance year fresh s now i company b last shipment reason)
