-- ===== src/Batches/Tests.antt =====
-- Runs of the operations on batches.
use be_weavecarbon.Common.{ℕ, false, true, ◌≡◌, refl, none, some, [], ◌∷◌, ◌==◌, select_where}
use be_weavecarbon.Compliance.Documents.{
  resolve_company_domestic_market_code, list_required_documents,
  ensure_required_document_placeholders, insert_placeholders,
}
use be_weavecarbon.Compliance.Markets.{normalize_domestic_market, normalize_target_markets}
use be_weavecarbon.Compliance.Publish.{
  validate_products_for_domestic_publish, missing_by_product, missing_documents,
}
use be_weavecarbon.Compliance.Tests.{shirt, papers}
use be_weavecarbon.Batches.Tables.{
  Address, Batch, Item, Store, done, failed, draft, published, positive, negative, delete_batch,
}
use be_weavecarbon.Batches.Items.{tally, add_batch_item, recalculate_batch_totals}
use be_weavecarbon.Batches.Legs.{
  build_batch_shipment_legs, shipped_products, shipped_weight, items_of,
}
use be_weavecarbon.Batches.Publish.{publish_batch}
use be_weavecarbon.Batches.Products.{delete_product}
use be_weavecarbon.Batches.Swept.{without}
use be_weavecarbon.Batches.History.{Step, Reach, deleted}
use be_weavecarbon.Batches.Tallied.{IsTallied, Reach-IsTallied}
use be_weavecarbon.Batches.Frozen.{IsClosed, Reach-Frozen}
use be_weavecarbon.Batches.Weights.{shipped_weight-tally}

-- Everywhere is 100 km apart.
abbrev distance : Address → Address → ℕ
distance a b = 100000

abbrev hanoi : Address
hanoi = record {
  country = "VN";
  city = "Hanoi";
  address = "";
  lat = some (positive 210000000);
  lng = some (positive 1050000000);
}

abbrev santos : Address
santos = record hanoi { country = "BR"; city = "Santos"; lat = some (negative 240000000) }

abbrev open_batch : Batch
open_batch = record {
  id = 3;
  company_id = 5;
  batch_name = "First";
  description = none;
  status = draft;
  origin_address = some hanoi;
  destination_address = some santos;
  destination_market = none;
  transport_modes = "ship" ∷ "sea" ∷ [];
  shipment_id = none;
  total_products = 1;
  total_quantity = 200;
  total_weight_kg = 5000;
  total_co2e = 80000;
  created_by = 1;
  published_at = none;
  created_at = 0;
  updated_at = 0;
}

abbrev two_shirts : Item
two_shirts = record {
  id = 9;
  batch_id = 3;
  product_id = 7;
  quantity = 200;
  weight_kg = some 2500;
  co2_per_unit = some 40000;
  created_at = 0;
}

abbrev store : Store
store = record {
  papers = papers;
  batches = open_batch ∷ [];
  items = two_shirts ∷ [];
  shipments = [];
}

store-IsTallied : IsTallied store
unfolding tally
store-IsTallied = (refl, tt)

abbrev published_store : Store
published_store = (publish_batch distance 50 2026 70 100 3 5 store).0

Reach-IsTallied_example : IsTallied published_store
Reach-IsTallied_example =
    Reach-IsTallied distance {s = store} store-IsTallied
      (Reach.next Reach.here (Step.batch_published 50 2026 70 100 3 5))

abbrev closed_store : Store
closed_store = record store { batches = record open_batch { status = published } ∷ [] }

abbrev archived_store : Store
archived_store = (delete_batch 60 3 5 closed_store).0

abbrev swept_store : Store
swept_store = (delete_product false 70 5 7 archived_store).0

abbrev swept_run : Reach distance closed_store swept_store
swept_run = Reach.product_deleted false 70 5 7 (Reach.next Reach.here (Step.batch_deleted 60 3 5))

Reach-Frozen_example :
    IsClosed 3 swept_store
    × (select_where (λ (x : Item). x.batch_id == 3) swept_store.items
        ≡ without
            (deleted distance swept_run)
            (select_where (λ (x : Item). x.batch_id == 3) closed_store.items))
Reach-Frozen_example =
    Reach-Frozen distance 3 {s = closed_store} {last = swept_store} (refl, ((λ e. refl), tt))
      swept_run

-- A published batch loses the items of a product that is deleted.
sweeps : (swept_store.items ≡ []) × ((delete_product false 70 5 7 archived_store).1 ≡ done true)
unfolding delete_product delete_batch tally
sweeps = (refl, refl)

-- A batch that was archived is published all the same.
archived_publishes :
    (publish_batch distance 50 2026 70 100 3 5 (delete_batch 40 3 5 store).0).1
    ≡ done (some 70, none)
unfolding delete_batch publish_batch build_batch_shipment_legs
    validate_products_for_domestic_publish list_required_documents
    ensure_required_document_placeholders insert_placeholders missing_by_product missing_documents
    resolve_company_domestic_market_code normalize_domestic_market normalize_target_markets
archived_publishes = refl

-- A published batch takes no items.
refuses :
    (add_batch_item 60 10 3 5
      (record { product_id = 7; quantity = 100; weight_kg = none; co2_per_unit = none })
      closed_store).1
    ≡ failed "BATCH_NOT_EDITABLE"
unfolding add_batch_item
refuses = refl

-- A weight of 0 counts as none: the item gets the weight of its product.
weightless :
    (add_batch_item 60 10 3 5
      (record { product_id = 7; quantity = 100; weight_kg = some 0; co2_per_unit = none })
      (record store { items = [] })).0.items
    ≡ (record {
      id = 10;
      batch_id = 3;
      product_id = 7;
      quantity = 100;
      weight_kg = some 2500;
      co2_per_unit = some 40000;
      created_at = 60;
    })
      ∷ []
unfolding add_batch_item recalculate_batch_totals tally
weightless = refl

shipped_weight-tally_example :
    shipped_weight (shipped_products papers.products (items_of 3 store))
    ≡ (tally 3 store.items).weight_kg
shipped_weight-tally_example = shipped_weight-tally 3 store ((refl, (shirt, refl)), tt)
