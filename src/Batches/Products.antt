-- ===== src/Batches/Products.antt =====
-- `deleteProduct` of src/modules/products/service.js, on the tables of batches: the one operation of
-- another service that writes the items and the totals of batches. It asks for the status of no batch.
use be_weavecarbon.Common.{
  ℕ, ◌+◌, ◌*◌, ◌^◌, Bool, true, not, ◌&&◌, List, [], ◌∷◌, ◌==◌, if◌then◌else◌, is_some, any,
  update_where, delete_where,
}
use be_weavecarbon.Compliance.Documents.{Papers, Product, Link}
use be_weavecarbon.Batches.Tables.{
  Batch, Item, Store, Outcome, ShippedProduct, BatchShipment, done, failed,
}
use be_weavecarbon.Batches.Items.{tally, totals_fit, with_totals, find_product}

abbrev pub of_product : ℕ → Item → Bool
of_product product x = x.product_id == product

-- `affectedBatchIds` has the batch.
abbrev pub is_affected : ℕ → List Item → Batch → Bool
is_affected product items b = any (λ x. of_product product x && x.batch_id == b.id) items

abbrev pub recount : ℕ → List Item → Batch → Batch
recount now items b = with_totals now (tally b.id items) b

-- The loop over `affectedBatchIds`, on the items that are left.
abbrev pub recount_batches : ℕ → ℕ → List Item → Store → List Batch
recount_batches now product items s =
    update_where (is_affected product s.items) (recount now items) s.batches

-- Whether a total of an affected batch overflows its column.
abbrev pub overflows : ℕ → List Item → Store → Bool
overflows product items s =
    any (λ (b : Batch). is_affected product s.items b && not (totals_fit (tally b.id items)))
      s.batches

abbrev pub ships_product : ℕ → ShippedProduct → Bool
ships_product product p = p.product_id == product

abbrev pub sum_weight : List ShippedProduct → ℕ
sum_weight [] = 0
sum_weight (p ∷ products) = p.weight_kg + sum_weight products

abbrev pub sum_allocated : List ShippedProduct → ℕ
sum_allocated [] = 0
sum_allocated (p ∷ products) = p.allocated_co2e + sum_allocated products

-- A shipment with its other products, its weight and its emission, which is in 10 ^ -15 of a kilogram
-- where that of a product is in 10 ^ -4; the weight is the sum of those of one piece of each.
abbrev pub reduced : List ShippedProduct → BatchShipment → BatchShipment
reduced rest x = record x {
  products = rest;
  total_weight_kg = sum_weight rest;
  total_co2e = sum_allocated rest * 10 ^ 11;
}

abbrev pub keep_shipment :
    List ShippedProduct → BatchShipment → List BatchShipment → List BatchShipment
keep_shipment [] x shipments = shipments
keep_shipment (p ∷ rest) x shipments = reduced (p ∷ rest) x ∷ shipments

abbrev pub is_linked : ℕ → ℕ → BatchShipment → Bool
is_linked company product x = x.company_id == company && any (ships_product product) x.products

-- The loop over `affectedShipmentIds`: a shipment without products is deleted.
abbrev pub reduce_shipments : ℕ → ℕ → List BatchShipment → List BatchShipment
reduce_shipments company product [] = []
reduce_shipments company product (x ∷ shipments) =
    let rest = reduce_shipments company product shipments in
    let left = keep_shipment (delete_where (ships_product product) x.products) x rest in
    if is_linked company product x then left else x ∷ rest

-- `DELETE FROM products`, with the links that its foreign key deletes.
abbrev pub remove_product : ℕ → ℕ → Papers → Papers
remove_product company product p = record p {
  products = delete_where (λ (x : Product). x.id == product && x.company_id == company) p.products;
  links = delete_where (λ (l : Link). l.product_id == product) p.links;
}

abbrev pub swept : ℕ → ℕ → ℕ → List Item → Store → Store
swept now company product items s = record {
  papers = remove_product company product s.papers;
  batches = recount_batches now product items s;
  items = items;
  shipments = reduce_shipments company product s.shipments;
}

-- `deleteProduct`; `restricted` tells whether a row of another table forbids it.
unfoldable pub delete_product : Bool → ℕ → ℕ → ℕ → Store → Store × Outcome Bool
delete_product restricted now company product s =
    let items = delete_where (of_product product) s.items in
    if not (is_some (find_product company product s))
    then (s, failed "PRODUCT_NOT_FOUND")
    else if overflows product items s
    then (s, failed "22003")
    else if restricted
    then (s, failed "23503")
    else (swept now company product items s, done true)
