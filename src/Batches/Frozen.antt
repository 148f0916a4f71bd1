-- ===== src/Batches/Frozen.antt =====
-- What the operations of src/modules/assessments/batchesService.js and the deletions of products do
-- to a batch that has left the state of a draft.
use be_weavecarbon.Common.{
  ℕ, Bool, true, false, not, is_some, if_intro, delete_where, ◌≡◌, refl, sym, ap, ◌∙◌, subst, some,
  List, [], ◌∷◌, ◌==◌, ==_iff, arith, any, Lacks, All, All-mem, All-update_where, any-update_where,
  select_where, select_one_sound, mem-select_one, Bool-cases, inl, inr,
}
use be_weavecarbon.Batches.Tables.{
  Batch, Item, Store, Outcome, Address, draft, same_status, find_batch, is_batch,
}
use be_weavecarbon.Batches.Items.{tally, with_totals, find_product}
use be_weavecarbon.Batches.Steps.{batch_id, Change}
use be_weavecarbon.Batches.Products.{of_product, is_affected, recount, overflows, delete_product}
use be_weavecarbon.Batches.Swept.{removed, without, without-joined_to, select_where-delete_where}
use be_weavecarbon.Batches.History.{Reach, Step-Change, deleted}
use be_weavecarbon.Batches.Tallied.{select-ItemChange}

abbrev has_id : ℕ → Batch → Bool
has_id i b = b.id == i

-- The batch `i` is there and is no draft.
abbrev pub IsClosed : ℕ → Store → Type 0
IsClosed i s =
    (any (λ (b : Batch). b.id == i) s.batches ≡ true)
    × All (λ b. b.id ≡ i → same_status b.status draft ≡ false) s.batches

Lacks-any :
    (k i : ℕ) (rows : List Batch) → Lacks batch_id k rows → k ≡ i → any (has_id i) rows ≡ false
Lacks-any k i [] h e = refl
Lacks-any k i (b ∷ rows) (p, h) e = elim (Bool-cases (b.id == i)) [
  | inl t ↦ absurd (p ((==_iff b.id i).0 t ∙ sym e))
  | inr t ↦ rw t (Lacks-any k i rows h e)
]

-- A batch that is found as a draft is another one.
found_other :
    (i k company : ℕ) (s : Store) (b : Batch)
    → IsClosed i s
    → find_batch company k s ≡ some b
    → same_status b.status draft ≡ true
    → (k == i) ≡ false
found_other i k company s b h e d = elim (Bool-cases (k == i)) [
  | inr t ↦ t
  | inl t ↦ absurd (cc (draft_clash t, d))
]
  where
    id_is : b.id ≡ k
    id_is = (==_iff b.id k).0 (ground (arith, select_one_sound (is_batch company k) s.batches b e))

    draft_clash : (k == i) ≡ true → same_status b.status draft ≡ false
    draft_clash t =
        All-mem (λ b. b.id ≡ i → same_status b.status draft ≡ false) s.batches
          (mem-select_one (is_batch company k) s.batches b e) h.1 (id_is ∙ (==_iff k i).0 t)

abbrev Frozen : ℕ → Store → Store → Type 0
Frozen i s last =
    select_where (λ (x : Item). x.batch_id == i) last.items
    ≡ select_where (λ (x : Item). x.batch_id == i) s.items

Change-Frozen :
    (i : ℕ) {s last : Store} → Change s last → IsClosed i s → IsClosed i last × Frozen i s last
Change-Frozen i Change.kept h = (h, refl)
Change-Frozen i {s} (Change.opened b p q e) h =
    ((ground (arith, h.0), ((λ e. absurd (cc (Lacks-any b.id i s.batches p e, h.0))), h.1)), refl)
Change-Frozen i {s} (Change.restated test change last same keeps closed e f) h = (
  (
    ap (any (has_id i)) e
        ∙ (any-update_where (has_id i) test change s.batches (λ b. ap (λ k. k == i) (same b))
            ∙ h.0),
    subst (All (λ b. b.id ≡ i → same_status b.status draft ≡ false)) (sym e) (
        All-update_where (λ b. b.id ≡ i → same_status b.status draft ≡ false) test change s.batches
          (λ b t p k. closed b t (p (sym (same b) ∙ k))) h.1),
  ),
  ap (select_where (λ (x : Item). x.batch_id == i)) f,
)
Change-Frozen i {s} (Change.recounted now k company items b e d c) h = (
  (
    any-update_where (has_id i) (has_id k) (with_totals now (tally k items)) s.batches (λ b. refl)
        ∙ h.0,
    All-update_where (λ b. b.id ≡ i → same_status b.status draft ≡ false) (has_id k)
        (with_totals now (tally k items)) s.batches (λ b t p. p) h.1,
  ),
  select-ItemChange k i (found_other i k company s b h e d) c,
)

abbrev items_at : ℕ → Store → List Item
items_at i s = select_where (λ (x : Item). x.batch_id == i) s.items

-- A deletion of a product takes its items, and no more, from a batch.
delete_product-Frozen :
    (i : ℕ) (restricted : Bool) (now company product : ℕ) (s : Store)
    → IsClosed i s
    → IsClosed i (delete_product restricted now company product s).0
      × (items_at i (delete_product restricted now company product s).0
          ≡ without
              (removed product (delete_product restricted now company product s).1)
              (items_at i s))
unfolding delete_product
delete_product-Frozen i restricted now company product s h =
    if_intro P (not (is_some (find_product company product s))) (λ _. (h, refl))
      (λ _.
        if_intro P (overflows product items s) (λ _. (h, refl))
          (λ _.
            if_intro P restricted (λ _. (h, refl))
              (λ _. (
                (
                  any-update_where (has_id i) (is_affected product s.items) (recount now items)
                        s.batches (λ b. refl)
                      ∙ h.0,
                  All-update_where (λ b. b.id ≡ i → same_status b.status draft ≡ false)
                      (is_affected product s.items) (recount now items) s.batches (λ b t p. p) h.1,
                ),
                select_where-delete_where (λ (x : Item). x.batch_id == i) (of_product product)
                    s.items,
              ))))
  where
    items : List Item
    items = delete_where (of_product product) s.items

    P : Store × Outcome Bool → Type 0
    P r = IsClosed i r.0 × (items_at i r.0 ≡ without (removed product r.1) (items_at i s))

-- Once a batch is published or archived, it is never a draft again, and through every later history of
-- the operations on batches and of deletions of products it has the same items, unchanged, without
-- those of the products that were deleted.
pub Reach-Frozen :
    (distance : Address → Address → ℕ) (i : ℕ) {s last : Store}
    → IsClosed i s
    → (r : Reach distance s last)
    → IsClosed i last
      × (select_where (λ (x : Item). x.batch_id == i) last.items
          ≡ without (deleted distance r) (select_where (λ (x : Item). x.batch_id == i) s.items))
Reach-Frozen distance i h Reach.here = (h, refl)
Reach-Frozen distance i h (Reach.next r step) =
    let before = Reach-Frozen distance i h r in
    let after = Change-Frozen i (Step-Change distance step) before.0 in
    (after.0, after.1 ∙ before.1)
Reach-Frozen distance i {s} h (Reach.product_deleted restricted now company product {mid} r) =
    let before = Reach-Frozen distance i h r in
    let after = delete_product-Frozen i restricted now company product mid before.0 in
    let gone : List ℕ = removed product (delete_product restricted now company product mid).1 in
    (
      after.0,
      after.1
          ∙ (ap (without gone) before.1
              ∙ without-joined_to gone (deleted distance r) (items_at i s)),
    )
