-- ===== src/Batches/Tallied.antt =====
-- The totals of the batches of src/modules/assessments/batchesService.js.
use be_weavecarbon.Common.{
  ℕ, ◌+◌, ◌*◌, Bool, not, is_some, if_intro, true, false, ◌≡◌, ◌≢◌, refl, sym, ap, ◌∙◌, subst, List,
  [], ◌∷◌, ◌==◌, ==_iff, arith, All, All-update_where, All-update_where_to, update_where,
  delete_where, select_where, count_where, Bool-cases, inl, inr,
}
use be_weavecarbon.Batches.Tables.{Item, Store, Outcome, Address}
use be_weavecarbon.Batches.Items.{
  ItemUpdate, or_zero, sum_of, tally, with_totals, is_item, updated_item, find_product,
}
use be_weavecarbon.Batches.Products.{
  of_product, is_affected, recount, overflows, swept, delete_product,
}
use be_weavecarbon.Batches.Swept.{select_where-untouched}
use be_weavecarbon.Batches.Steps.{totals_of, ItemChange, Change}
use be_weavecarbon.Batches.History.{Reach, Step-Change}

-- A change of the items of `i` leaves the sums over those of another batch.
module _ (i j : ℕ) (other : (i == j) ≡ false) where
  other_batch : (x : Item) → x.batch_id ≡ i → (x.batch_id == j) ≡ false
  other_batch x e = subst (λ k. (k == j) ≡ false) (sym e) other

  item_batch : (product : ℕ) (x : Item) → is_item i product x ≡ true → x.batch_id ≡ i
  item_batch product x t = (==_iff x.batch_id i).0 (ground arith)

  select-altered :
      (product : ℕ) (d : ItemUpdate) (rows : List Item)
      → select_where (λ x. x.batch_id == j) (update_where (is_item i product) (updated_item d) rows)
        ≡ select_where (λ x. x.batch_id == j) rows
  select-altered product d [] = refl
  select-altered product d (x ∷ rows) = elim (Bool-cases (is_item i product x)) [
    | inl t ↦ rw (t, other_batch x (item_batch product x t)) (select-altered product d rows)
    | inr t ↦ rw (t, select-altered product d rows) refl
  ]

  select-removed :
      (product : ℕ) (rows : List Item)
      → select_where (λ x. x.batch_id == j) (delete_where (is_item i product) rows)
        ≡ select_where (λ x. x.batch_id == j) rows
  select-removed product [] = refl
  select-removed product (x ∷ rows) = elim (Bool-cases (is_item i product x)) [
    | inl t ↦ rw (t, other_batch x (item_batch product x t)) (select-removed product rows)
    | inr t ↦ rw (t, select-removed product rows) refl
  ]

  pub select-ItemChange :
      {items last : List Item}
      → ItemChange i items last
      → select_where (λ x. x.batch_id == j) last ≡ select_where (λ x. x.batch_id == j) items
  select-ItemChange (ItemChange.inserted x e) = rw (other_batch x e) refl
  select-ItemChange {items} (ItemChange.altered product d) = select-altered product d items
  select-ItemChange {items} (ItemChange.removed product) = select-removed product items

-- A sum over the items of a batch is one over their selection.
sum_of-selected :
    (j : ℕ) (f : Item → ℕ) (rows : List Item)
    → sum_of j f rows ≡ sum_of j f (select_where (λ x. x.batch_id == j) rows)
sum_of-selected j f [] = refl
sum_of-selected j f (x ∷ rows) = elim (Bool-cases (x.batch_id == j)) [
  | inl t ↦ rw (t, t) (ap (λ n. f x + n) (sum_of-selected j f rows))
  | inr t ↦ rw t (omega (arith, sum_of-selected j f rows))
]

count_where-sum_of :
    (j : ℕ) (rows : List Item) → count_where (λ x. x.batch_id == j) rows ≡ sum_of j (λ _. 1) rows
count_where-sum_of j [] = refl
count_where-sum_of j (x ∷ rows) = omega (arith, count_where-sum_of j rows)

same_sum :
    (j : ℕ) (f : Item → ℕ) (items last : List Item)
    → select_where (λ x. x.batch_id == j) last ≡ select_where (λ x. x.batch_id == j) items
    → sum_of j f last ≡ sum_of j f items
same_sum j f items last e =
    sum_of-selected j f last ∙ (ap (sum_of j f) e ∙ sym (sum_of-selected j f items))

tally-sums :
    (j : ℕ) (items last : List Item)
    → ((f : Item → ℕ) → sum_of j f last ≡ sum_of j f items)
    → tally j last ≡ tally j items
unfolding tally
tally-sums j items last h =
    rw
      (
        count_where-sum_of j last,
        count_where-sum_of j items,
        h (λ _. 1),
        h (λ x. x.quantity),
        h (λ x. x.quantity * or_zero x.weight_kg),
        h (λ x. x.quantity * or_zero x.co2_per_unit),
      )
      refl

-- A batch without items sums to nothing.
sum_of-Lacks :
    (j : ℕ) (f : Item → ℕ) (items : List Item)
    → All (λ x. x.batch_id ≢ j) items
    → sum_of j f items ≡ 0
sum_of-Lacks j f [] h = refl
sum_of-Lacks j f (x ∷ items) (p, h) = elim (Bool-cases (x.batch_id == j)) [
  | inl t ↦ absurd (p ((==_iff x.batch_id j).0 t))
  | inr t ↦ rw t (omega (arith, sum_of-Lacks j f items h))
]

tally_empty :
    (j : ℕ) → tally j [] ≡ (record { products = 0; quantity = 0; weight_kg = 0; co2e = 0 })
unfolding tally
tally_empty j = refl

-- Every batch shows the count and the sums of its items.
abbrev pub IsTallied : Store → Type 0
IsTallied s = All (λ b. totals_of b ≡ tally b.id s.items) s.batches

Change-IsTallied : {s last : Store} → Change s last → IsTallied s → IsTallied last
Change-IsTallied Change.kept h = h
Change-IsTallied {s} (Change.opened b p q e) h = (
  e ∙ sym (tally-sums b.id [] s.items (λ f. sum_of-Lacks b.id f s.items q) ∙ tally_empty b.id),
  h,
)
Change-IsTallied {s} (Change.restated test change last same keeps closed e f) h =
    subst (λ items. All (λ b. totals_of b ≡ tally b.id items) last.batches) (sym f)
      (subst (All (λ b. totals_of b ≡ tally b.id s.items)) (sym e) (
        All-update_where (λ b. totals_of b ≡ tally b.id s.items) test change s.batches
          (λ b t p. keeps b ∙ (p ∙ ap (λ i. tally i s.items) (sym (same b)))) h))
Change-IsTallied {s} (Change.recounted now i company items b e d c) h =
    All-update_where_to (λ b. totals_of b ≡ tally b.id s.items)
      (λ b. totals_of b ≡ tally b.id items) (λ b. b.id == i) (with_totals now (tally i items))
      s.batches (λ b t p. ap (λ k. tally k items) (sym ((==_iff b.id i).0 t)))
      (λ b t p.
        p
        ∙ sym (
            tally-sums b.id s.items items (λ f.
              same_sum b.id f s.items items (select-ItemChange i b.id (ground (arith, t)) c))))
      h

-- A deletion of a product leaves every batch with the count and the sums of its items.
delete_product-IsTallied :
    (restricted : Bool) (now company product : ℕ) (s : Store)
    → IsTallied s
    → IsTallied (delete_product restricted now company product s).0
unfolding delete_product
delete_product-IsTallied restricted now company product s h =
    if_intro P (not (is_some (find_product company product s))) (λ _. h)
      (λ _.
        if_intro P (overflows product items s) (λ _. h)
          (λ _. if_intro P restricted (λ _. h) (λ _. swept-IsTallied)))
  where
    items : List Item
    items = delete_where (of_product product) s.items

    P : Store × Outcome Bool → Type 0
    P r = IsTallied r.0

    swept-IsTallied : IsTallied (swept now company product items s)
    swept-IsTallied =
        All-update_where_to (λ b. totals_of b ≡ tally b.id s.items)
          (λ b. totals_of b ≡ tally b.id items) (is_affected product s.items) (recount now items)
          s.batches (λ b t p. refl)
          (λ b t p.
            p
            ∙ sym (
                tally-sums b.id s.items items (λ f. same_sum b.id f s.items items (
                  select_where-untouched (λ (x : Item). x.batch_id == b.id) (of_product product)
                    s.items t))))
          h

-- Through every history of the operations and of deletions of products, failed ones included, each
-- batch shows the number of its items, the sum of their quantities, and the rounded sums of their
-- weights and emissions times the quantities.
pub Reach-IsTallied :
    (distance : Address → Address → ℕ) {s last : Store}
    → IsTallied s
    → Reach distance s last
    → IsTallied last
Reach-IsTallied distance h Reach.here = h
Reach-IsTallied distance h (Reach.next r step) =
    Change-IsTallied (Step-Change distance step) (Reach-IsTallied distance h r)
Reach-IsTallied distance h (Reach.product_deleted restricted now company product {mid} r) =
    delete_product-IsTallied restricted now company product mid (Reach-IsTallied distance h r)
