-- ===== src/Batches/History.antt =====
-- The histories of the tables of src/modules/assessments/batchesService.js, with the deletions of
-- products by src/modules/products/service.js.
use be_weavecarbon.Common.{ℕ, Bool, ◌≢◌, refl, List, [], All, Lacks}
use be_weavecarbon.Batches.Tables.{
  Store, Address, BatchData, BatchUpdate, new_batch, create_batch, update_batch, delete_batch,
}
use be_weavecarbon.Batches.Items.{
  ItemData, ItemUpdate, add_batch_item, update_batch_item, delete_batch_item,
}
use be_weavecarbon.Batches.Publish.{publish_batch}
use be_weavecarbon.Batches.Products.{delete_product}
use be_weavecarbon.Batches.Swept.{removed, joined_to}
use be_weavecarbon.Batches.Steps.{
  batch_id, Change, update_batch-Change, delete_batch-Change, add_batch_item-Change,
  update_batch_item-Change, delete_batch_item-Change, publish_batch-Change,
}

-- The histories: every operation of the service of batches, and every deletion of a product, at any
-- time, with any arguments, in any order; each is one step, as a transaction. A new batch gets an
-- identifier that is new to the tables, as a random UUID is taken to be.
module _ (distance : Address → Address → ℕ) where
  pub data Step (s : Store) : Store → Type 0 where
    batch_created :
        (now fresh company user : ℕ) (d : BatchData)
        → Lacks batch_id fresh s.batches
        → All (λ x. x.batch_id ≢ fresh) s.items
        → Step s (create_batch now fresh company user d s)
    batch_updated :
        (now i company : ℕ) (d : BatchUpdate) (seen : Store)
        → Step s (update_batch now i company d seen s).0
    batch_deleted : (now i company : ℕ) → Step s (delete_batch now i company s).0
    item_added :
        (now fresh i company : ℕ) (d : ItemData) → Step s (add_batch_item now fresh i company d s).0
    item_updated :
        (now i company product : ℕ) (d : ItemUpdate)
        → Step s (update_batch_item now i company product d s).0
    item_deleted :
        (now i company product : ℕ) → Step s (delete_batch_item now i company product s).0
    batch_published :
        (now year fresh fresh_document i company : ℕ)
        → Step s (publish_batch distance now year fresh fresh_document i company s).0

  pub data Reach (s : Store) : Store → Type 0 where
    here : Reach s s
    next : {mid last : Store} → Reach s mid → Step mid last → Reach s last
    product_deleted :
        (restricted : Bool) (now company product : ℕ) {mid : Store}
        → Reach s mid
        → Reach s (delete_product restricted now company product mid).0

  -- The products that a history has deleted.
  abbrev pub deleted : {s last : Store} → Reach s last → List ℕ
  deleted Reach.here = []
  deleted (Reach.next r step) = deleted r
  deleted (Reach.product_deleted restricted now company product {mid} r) =
      joined_to (removed product (delete_product restricted now company product mid).1) (deleted r)

  pub Step-Change : {s last : Store} → Step s last → Change s last
  unfolding create_batch
  Step-Change (Step.batch_created now fresh company user d p q) =
      Change.opened (new_batch now fresh company user d) p q refl
  Step-Change {s} (Step.batch_updated now i company d seen) =
      update_batch-Change now i company d seen s
  Step-Change {s} (Step.batch_deleted now i company) = delete_batch-Change now i company s
  Step-Change {s} (Step.item_added now fresh i company d) =
      add_batch_item-Change now fresh i company d s
  Step-Change {s} (Step.item_updated now i company product d) =
      update_batch_item-Change now i company product d s
  Step-Change {s} (Step.item_deleted now i company product) =
      delete_batch_item-Change now i company product s
  Step-Change {s} (Step.batch_published now year fresh fresh_document i company) =
      publish_batch-Change distance now year fresh fresh_document i company s
