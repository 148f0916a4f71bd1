-- ===== src/Batches/Items.antt =====
-- The items of a batch and its totals: `addBatchItem`, `updateBatchItem`, `deleteBatchItem` and
-- `_recalculateBatchTotals` of src/modules/assessments/batchesService.js.
use be_weavecarbon.Common.{
  ℕ, ◌+◌, ◌*◌, ◌/◌, ◌^◌, Bool, true, not, ◌&&◌, Option, none, some, List, [], ◌∷◌, ltb, ◌==◌,
  if◌then◌else◌, is_some, any, select_one, count_where, update_where, delete_where,
}
use be_weavecarbon.Compliance.Documents.{Product}
use be_weavecarbon.Batches.Tables.{
  Batch, Item, Store, Outcome, draft, done, failed, same_status, find_batch,
}

abbrev pub or_zero : Option ℕ → ℕ
or_zero none = 0
or_zero (some n) = n

-- `SUM(f) ... WHERE batch_id = $1`, 0 over no rows; a NULL adds nothing.
abbrev pub sum_of : ℕ → (Item → ℕ) → List Item → ℕ
sum_of batch f [] = 0
sum_of batch f (x ∷ items) = (if x.batch_id == batch then f x else 0) + sum_of batch f items

-- A product of a quantity and a column of four places has six: the column rounds it to four.
abbrev pub rounded : ℕ → ℕ
rounded n = (n + 50) / 100

-- What NUMERIC(14, 2) and NUMERIC(14, 4) can hold, in their last place.
abbrev pub fits : ℕ → Bool
fits n = ltb n (10 ^ 14)

pub record Totals : Type 0 where
  pub products : ℕ
  pub quantity : ℕ
  pub weight_kg : ℕ
  pub co2e : ℕ

unfoldable pub tally : ℕ → List Item → Totals
tally batch items = record {
  products = count_where (λ x. x.batch_id == batch) items;
  quantity = sum_of batch (λ x. x.quantity) items;
  weight_kg = rounded (sum_of batch (λ x. x.quantity * or_zero x.weight_kg) items);
  co2e = rounded (sum_of batch (λ x. x.quantity * or_zero x.co2_per_unit) items);
}

abbrev pub totals_fit : Totals → Bool
totals_fit t = fits t.quantity && (fits t.weight_kg && fits t.co2e)

abbrev pub with_totals : ℕ → Totals → Batch → Batch
with_totals now t b = record b {
  total_products = t.products;
  total_quantity = t.quantity;
  total_weight_kg = t.weight_kg;
  total_co2e = t.co2e;
  updated_at = now;
}

-- `_recalculateBatchTotals`: nothing where a total overflows its column, an error of the database.
unfoldable pub recalculate_batch_totals : ℕ → ℕ → Store → Option Store
recalculate_batch_totals now batch s =
    if not (totals_fit (tally batch s.items))
    then none
    else some (record s {
      batches = update_where (λ b. b.id == batch) (with_totals now (tally batch s.items)) s.batches;
    })

-- The end of a transaction that began in `before`.
abbrev pub commit {ℓ} : {A : Type ℓ} → Store → A → Option Store → Store × Outcome A
commit before a none = (before, failed "22003")
commit before a (some last) = (last, done a)

-- The check with which each transaction on the items begins.
abbrev pub on_draft {ℓ} : {A : Type ℓ} → ℕ → ℕ → Store → Store × Outcome A → Store × Outcome A
on_draft i company s next = elim (find_batch company i s) [
  | none ↦ (s, failed "BATCH_NOT_FOUND")
  | some b ↦ if not (same_status b.status draft) then (s, failed "BATCH_NOT_EDITABLE") else next
]

pub record ItemData : Type 0 where
  pub product_id : ℕ
  pub quantity : ℕ
  pub weight_kg : Option ℕ
  pub co2_per_unit : Option ℕ

-- `value || fallback`: 0 is not a value.
abbrev pub value_or : Option ℕ → Option ℕ → Option ℕ
value_or none fallback = fallback
value_or (some n) fallback = if n == 0 then fallback else some n

abbrev pub new_item : ℕ → ℕ → ℕ → ItemData → Product → Item
new_item now fresh i d product = record {
  id = fresh;
  batch_id = i;
  product_id = d.product_id;
  quantity = d.quantity;
  weight_kg = value_or d.weight_kg product.weight_kg;
  co2_per_unit = value_or d.co2_per_unit product.total_co2e;
  created_at = now;
}

abbrev pub is_item : ℕ → ℕ → Item → Bool
is_item i product x = x.batch_id == i && x.product_id == product

abbrev pub find_product : ℕ → ℕ → Store → Option Product
find_product company i s =
    select_one (λ (p : Product). p.id == i && p.company_id == company) s.papers.products

-- `INSERT` under UNIQUE (batch_id, product_id), and the new totals.
abbrev pub insert_item : ℕ → Item → Store → Store × Outcome ℕ
insert_item now x s =
    if any (is_item x.batch_id x.product_id) s.items
    then (s, failed "23505")
    else commit s x.id (recalculate_batch_totals now x.batch_id (record s { items = x ∷ s.items }))

unfoldable pub add_batch_item : ℕ → ℕ → ℕ → ℕ → ItemData → Store → Store × Outcome ℕ
add_batch_item now fresh i company d s =
    on_draft i company s (elim (find_product company d.product_id s) [
      | none ↦ (s, failed "PRODUCT_NOT_FOUND")
      | some product ↦ insert_item now (new_item now fresh i d product) s
    ])

pub record ItemUpdate : Type 0 where
  pub quantity : Option ℕ
  pub weight_kg : Option ℕ
  pub co2_per_unit : Option ℕ

abbrev pub is_empty_item_update : ItemUpdate → Bool
is_empty_item_update d =
    not (is_some d.quantity) && (not (is_some d.weight_kg) && not (is_some d.co2_per_unit))

abbrev or_keep : Option ℕ → Option ℕ → Option ℕ
or_keep none x = x
or_keep (some n) x = some n

abbrev or_number : Option ℕ → ℕ → ℕ
or_number none x = x
or_number (some n) x = n

abbrev pub updated_item : ItemUpdate → Item → Item
updated_item d x = record x {
  quantity = or_number d.quantity x.quantity;
  weight_kg = or_keep d.weight_kg x.weight_kg;
  co2_per_unit = or_keep d.co2_per_unit x.co2_per_unit;
}

-- The rest of a transaction that changes an item, which has to exist, and recalculates.
abbrev pub change_items : ℕ → ℕ → ℕ → List Item → Store → Store × Outcome Bool
change_items now i product items s =
    if not (any (is_item i product) s.items)
    then (s, failed "BATCH_ITEM_NOT_FOUND")
    else commit s true (recalculate_batch_totals now i (record s { items = items }))

unfoldable pub update_batch_item : ℕ → ℕ → ℕ → ℕ → ItemUpdate → Store → Store × Outcome Bool
update_batch_item now i company product d s = on_draft i company s (
    if is_empty_item_update d
    then (s, done true)
    else change_items now i product (update_where (is_item i product) (updated_item d) s.items) s)

unfoldable pub delete_batch_item : ℕ → ℕ → ℕ → ℕ → Store → Store × Outcome Bool
delete_batch_item now i company product s =
    on_draft i company s (change_items now i product (delete_where (is_item i product) s.items) s)
