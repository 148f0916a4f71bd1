-- ===== src/Batches/Steps.antt =====
-- How the operations of src/modules/assessments/batchesService.js change the tables.
use be_weavecarbon.Common.{
  ℕ, Bool, true, false, not, ◌≡◌, ◌≢◌, refl, ap, Option, none, some, List, [], ◌∷◌, ◌==◌, arith,
  All, Lacks, inl, inr, Bool-cases, if_intro, option_intro, update_where, delete_where,
}
use be_weavecarbon.Batches.Tables.{
  Batch, Item, Store, Outcome, Address, BatchUpdate, draft, published, same_status, find_batch,
  updated_batch, is_draft_batch, is_batch, is_empty_update, update_batch, archive, delete_batch,
}
use be_weavecarbon.Batches.Items.{
  Totals, ItemData, ItemUpdate, tally, totals_fit, with_totals, recalculate_batch_totals, commit,
  on_draft, new_item, is_item, find_product, add_batch_item, updated_item, is_empty_item_update,
  change_items, update_batch_item, delete_batch_item,
}
use be_weavecarbon.Batches.Legs.{SkipReason, Plan, skipped, shipped}
use be_weavecarbon.Batches.Publish.{
  publish_row, finish_publish, plan_shipment, publish_validated, publish_products, publish_batch,
}
use be_weavecarbon.Compliance.Publish.{Validation, validate_products_for_domestic_publish}
use be_weavecarbon.Compliance.Documents.{Papers}

abbrev pub batch_id : Batch → ℕ
batch_id b = b.id

abbrev pub totals_of : Batch → Totals
totals_of b = record {
  products = b.total_products;
  quantity = b.total_quantity;
  weight_kg = b.total_weight_kg;
  co2e = b.total_co2e;
}

-- A change of the items that touches only those of the batch `i`.
pub data ItemChange (i : ℕ) (items : List Item) : List Item → Type 0 where
  inserted : (x : Item) → x.batch_id ≡ i → ItemChange i items (x ∷ items)
  altered :
      (product : ℕ) (d : ItemUpdate)
      → ItemChange i items (update_where (is_item i product) (updated_item d) items)
  removed : (product : ℕ) → ItemChange i items (delete_where (is_item i product) items)

-- What an operation makes of the tables.
pub data Change (s : Store) : Store → Type 0 where
  kept : Change s s
  opened :
      (b : Batch)
      → Lacks batch_id b.id s.batches
      → All (λ x. x.batch_id ≢ b.id) s.items
      → totals_of b ≡ (record { products = 0; quantity = 0; weight_kg = 0; co2e = 0 })
      → Change s (record s { batches = b ∷ s.batches })
  restated :
      (test : Batch → Bool) (change : Batch → Batch) (last : Store)
      → ((b : Batch) → (change b).id ≡ b.id)
      → ((b : Batch) → totals_of (change b) ≡ totals_of b)
      → ((b : Batch)
          → test b ≡ true
          → same_status b.status draft ≡ false
          → same_status (change b).status draft ≡ false)
      → last.batches ≡ update_where test change s.batches
      → last.items ≡ s.items
      → Change s last
  recounted :
      (now i company : ℕ) (items : List Item) (b : Batch)
      → find_batch company i s ≡ some b
      → same_status b.status draft ≡ true
      → ItemChange i s.items items
      → Change s (record s {
        items = items;
        batches =
            update_where (λ (b : Batch). b.id == i) (with_totals now (tally i items)) s.batches;
      })

abbrev Changes {ℓ} : {A : Type ℓ} → Store → Store × Outcome A → Type 0
Changes s r = Change s r.0

pub update_batch-Change :
    (now i company : ℕ) (d : BatchUpdate) (seen s : Store)
    → Change s (update_batch now i company d seen s).0
unfolding update_batch
update_batch-Change now i company d seen s =
    option_intro (Changes s) (find_batch company i seen) (λ _. Change.kept)
      (λ b _.
        if_intro (Changes s) (not (same_status b.status draft)) (λ _. Change.kept)
          (λ _.
            if_intro (Changes s) (is_empty_update d) (λ _. Change.kept)
              (λ _. if_intro (Changes s) _ (λ _. Change.kept) (λ _. written))))
  where
    written : Change s (record s {
      batches = update_where (is_draft_batch company i) (updated_batch now d) s.batches;
    })
    written =
        Change.restated (is_draft_batch company i) (updated_batch now d) _ (λ b. refl) (λ b. refl)
          (λ b t f. f) refl refl

pub delete_batch-Change :
    (now i company : ℕ) (s : Store) → Change s (delete_batch now i company s).0
unfolding delete_batch
delete_batch-Change now i company s =
    Change.restated (is_batch company i) (archive now) _ (λ b. refl) (λ b. refl) (λ b t f. refl)
      refl refl

pub commit-Change {ℓ} :
    {A : Type ℓ} (now i company : ℕ) (a : A) (items : List Item) (s : Store) (b : Batch)
    → find_batch company i s ≡ some b
    → same_status b.status draft ≡ true
    → ItemChange i s.items items
    → Change s (commit s a (recalculate_batch_totals now i (record s { items = items }))).0
unfolding recalculate_batch_totals
commit-Change now i company a items s b e d c = elim (Bool-cases (totals_fit (tally i items))) [
  | inl t ↦ rw (t, recalculate_batch_totals) (Change.recounted now i company items b e d c)
  | inr t ↦ rw (t, recalculate_batch_totals) Change.kept
]

pub on_draft-Change {ℓ} :
    {A : Type ℓ} (i company : ℕ) (s : Store) (next : Store × Outcome A)
    → ((b : Batch)
        → find_batch company i s ≡ some b
        → same_status b.status draft ≡ true
        → Change s next.0)
    → Change s (on_draft i company s next).0
on_draft-Change i company s next h =
    option_intro (Changes s) (find_batch company i s) (λ _. Change.kept)
      (λ b e.
        if_intro (Changes s) (not (same_status b.status draft)) (λ _. Change.kept)
          (λ t. h b e (ground arith)))

pub add_batch_item-Change :
    (now fresh i company : ℕ) (d : ItemData) (s : Store)
    → Change s (add_batch_item now fresh i company d s).0
unfolding add_batch_item
add_batch_item-Change now fresh i company d s = on_draft-Change i company s _ (λ b e t.
    option_intro (Changes s) (find_product company d.product_id s) (λ _. Change.kept)
      (λ p _.
        if_intro (Changes s) _ (λ _. Change.kept)
          (λ _.
            commit-Change now i company fresh _ s b e t
              (ItemChange.inserted (new_item now fresh i d p) refl))))

pub change_items-Change :
    (now i company product : ℕ) (items : List Item) (s : Store) (b : Batch)
    → find_batch company i s ≡ some b
    → same_status b.status draft ≡ true
    → ItemChange i s.items items
    → Change s (change_items now i product items s).0
change_items-Change now i company product items s b e t c =
    if_intro (Changes s) _ (λ _. Change.kept)
      (λ _. commit-Change now i company true items s b e t c)

pub update_batch_item-Change :
    (now i company product : ℕ) (d : ItemUpdate) (s : Store)
    → Change s (update_batch_item now i company product d s).0
unfolding update_batch_item
update_batch_item-Change now i company product d s = on_draft-Change i company s _ (λ b e t.
    if_intro (Changes s) (is_empty_item_update d) (λ _. Change.kept)
      (λ _. change_items-Change now i company product _ s b e t (ItemChange.altered product d)))

pub delete_batch_item-Change :
    (now i company product : ℕ) (s : Store) → Change s (delete_batch_item now i company product s).0
unfolding delete_batch_item
delete_batch_item-Change now i company product s =
    on_draft-Change i company s _
      (λ b e t. change_items-Change now i company product _ s b e t (ItemChange.removed product))

module _ (distance : Address → Address → ℕ) where
  finish_publish-Change :
      (now i : ℕ) (plan : Plan) (s at : Store)
      → at.batches ≡ s.batches
      → at.items ≡ s.items
      → Change s (finish_publish now i plan at).0
  finish_publish-Change now i (skipped r) s at e f =
      Change.restated (λ (b : Batch). b.id == i) (publish_row now none) _ (λ b. refl) (λ b. refl)
        (λ b t h. refl) (ap (update_where (λ (b : Batch). b.id == i) (publish_row now none)) e) f
  finish_publish-Change now i (shipped x) s at e f =
      Change.restated (λ (b : Batch). b.id == i) (publish_row now (some x.id)) _ (λ b. refl)
        (λ b. refl) (λ b t h. refl)
        (ap (update_where (λ (b : Batch). b.id == i) (publish_row now (some x.id))) e) f

  publish_validated-Change :
      (now year fresh : ℕ) (b : Batch) (s : Store) (r : Papers × Validation)
      → Changes s (publish_validated distance now year fresh b s r)
  publish_validated-Change now year fresh b s r =
      let at : Store = record s { papers = r.0 } in
      let plan : Plan = plan_shipment distance year fresh b at in
      if_intro (Changes {A = Option ℕ × Option SkipReason} s) (not r.1.success) (λ _. Change.kept)
        (λ _. finish_publish-Change now b.id plan s at refl refl)

  publish_products-Change :
      (now year fresh fresh_document company : ℕ) (b : Batch) (s : Store) (ids : List ℕ)
      → Changes s (publish_products distance now year fresh fresh_document company b s ids)
  publish_products-Change now year fresh fresh_document company b s [] = Change.kept
  publish_products-Change now year fresh fresh_document company b s (i ∷ ids) =
      publish_validated-Change now year fresh b s
        (validate_products_for_domestic_publish fresh_document company (i ∷ ids) s.papers)

  pub publish_batch-Change :
      (now year fresh fresh_document i company : ℕ) (s : Store)
      → Change s (publish_batch distance now year fresh fresh_document i company s).0
  unfolding publish_batch
  publish_batch-Change now year fresh fresh_document i company s =
      option_intro (Changes s) (find_batch company i s) (λ _. Change.kept)
        (λ b _.
          if_intro (Changes s) (same_status b.status published) (λ _. Change.kept)
            (λ _.
              if_intro (Changes s) (b.total_products == 0) (λ _. Change.kept)
                (λ _. publish_products-Change now year fresh fresh_document company b s _)))
