-- ===== src/Batches/Publish.antt =====
-- `publishBatch` of src/modules/assessments/batchesService.js.
use be_weavecarbon.Common.{
  ℕ, not, ◌||◌, Option, none, some, List, [], ◌∷◌, map, ◌==◌, if◌then◌else◌, update_where,
}
use be_weavecarbon.Compliance.Documents.{Papers, has_text}
use be_weavecarbon.Compliance.Publish.{Validation, validate_products_for_domestic_publish}
use be_weavecarbon.Batches.Tables.{
  Batch, Item, Store, Outcome, Address, ShippedProduct, published, done, failed, same_status,
  find_batch,
}
use be_weavecarbon.Batches.Legs.{
  SkipReason, Plan, skipped, shipped, missing_logistics_data, missing_location_country,
  missing_batch_items, shipped_products, shipped_weight, items_of, plan_legs,
  build_batch_shipment_legs,
}

abbrev pub product_ids_of : Batch → Store → List ℕ
product_ids_of b s = map (λ (x : Item). x.product_id) (items_of b.id s)

abbrev pub publish_row : ℕ → Option ℕ → Batch → Batch
publish_row now shipment b = record b {
  status = published;
  published_at = some now;
  updated_at = now;
  shipment_id = shipment;
}

-- `UPDATE product_batches ... WHERE id = $1`
abbrev pub link_batch : ℕ → ℕ → Option ℕ → Store → Store
link_batch now i shipment s = record s {
  batches = update_where (λ b. b.id == i) (publish_row now shipment) s.batches;
}

-- The end of the transaction, with the answer: the shipment, or why there is none.
abbrev pub finish_publish : ℕ → ℕ → Plan → Store → Store × Outcome (Option ℕ × Option SkipReason)
finish_publish now i (skipped r) s = (link_batch now i none s, done (none, some r))
finish_publish now i (shipped x) s = (
  link_batch now i (some x.id) (record s { shipments = x ∷ s.shipments }),
  done (some x.id, none),
)

module _ (distance : Address → Address → ℕ) where
  abbrev pub plan_products : ℕ → ℕ → Batch → Store → Address → Address → List ShippedProduct → Plan
  plan_products year fresh b s origin destination [] = skipped missing_batch_items
  plan_products year fresh b s origin destination (p ∷ products) =
      let built =
        build_batch_shipment_legs distance b origin destination (shipped_weight (p ∷ products)) in
      plan_legs year fresh b s origin destination (p ∷ products) built.0 built.1

  abbrev pub plan_route : ℕ → ℕ → Batch → Store → Option Address → Option Address → Plan
  plan_route year fresh b s none destination = skipped missing_logistics_data
  plan_route year fresh b s (some origin) none = skipped missing_logistics_data
  plan_route year fresh b s (some origin) (some destination) =
      if not (has_text origin.country) || not (has_text destination.country)
      then skipped missing_location_country
      else plan_products year fresh b s origin destination
          (shipped_products s.papers.products (items_of b.id s))

  abbrev pub plan_shipment : ℕ → ℕ → Batch → Store → Plan
  plan_shipment year fresh b s = plan_route year fresh b s b.origin_address b.destination_address

  -- After the documents were validated.
  abbrev pub publish_validated :
      ℕ
      → ℕ
      → ℕ
      → Batch
      → Store
      → Papers × Validation
      → Store × Outcome (Option ℕ × Option SkipReason)
  publish_validated now year fresh b s r =
      if not r.1.success
      then (s, failed "MISSING_DOMESTIC_DOCUMENTS")
      else finish_publish now b.id (plan_shipment year fresh b (record s { papers = r.0 }))
          (record s { papers = r.0 })

  abbrev pub publish_products :
      ℕ → ℕ → ℕ → ℕ → ℕ → Batch → Store → List ℕ → Store × Outcome (Option ℕ × Option SkipReason)
  publish_products now year fresh fresh_document company b s [] = (s, failed "BATCH_EMPTY")
  publish_products now year fresh fresh_document company b s (i ∷ ids) =
      publish_validated now year fresh b s
        (validate_products_for_domestic_publish fresh_document company (i ∷ ids) s.papers)

  abbrev pub publish_found :
      ℕ → ℕ → ℕ → ℕ → ℕ → Batch → Store → Store × Outcome (Option ℕ × Option SkipReason)
  publish_found now year fresh fresh_document company b s =
      if same_status b.status published
      then (s, failed "BATCH_ALREADY_PUBLISHED")
      else if b.total_products == 0
      then (s, failed "BATCH_EMPTY")
      else publish_products now year fresh fresh_document company b s (product_ids_of b s)

  unfoldable pub publish_batch :
      ℕ → ℕ → ℕ → ℕ → ℕ → ℕ → Store → Store × Outcome (Option ℕ × Option SkipReason)
  publish_batch now year fresh fresh_document i company s = elim (find_batch company i s) [
    | none ↦ (s, failed "BATCH_NOT_FOUND")
    | some b ↦ publish_found now year fresh fresh_document company b s
  ]
