-- ===== src/Batches/Weights.antt =====
-- The weight of a batch of src/modules/assessments/batchesService.js in its two computations: the
-- total that the database keeps, and that of the shipment.
use be_weavecarbon.Common.{
  ℕ, ◌+◌, ◌*◌, ◌/◌, true, ◌≡◌, refl, ap, ◌∙◌, some, List, [], ◌∷◌, ◌==◌, arith, All, inl, inr,
  Bool-cases, select_where,
}
use be_weavecarbon.Compliance.Documents.{Product}
use be_weavecarbon.Batches.Tables.{Item, Store}
use be_weavecarbon.Batches.Items.{or_zero, sum_of, tally}
use be_weavecarbon.Batches.Legs.{product_of, shipped_products, shipped_weight, items_of}

-- A quantity without decimals, of a product that is there.
abbrev pub IsWhole : List Product → Item → Type 0
IsWhole products x =
    (x.quantity ≡ 100 * (x.quantity / 100)) × ((p : Product) × (product_of x products ≡ some p))

-- One whole quantity in hundredths.
whole_item : (q w n : ℕ) → q ≡ 100 * (q / 100) → q * w + 100 * n ≡ 100 * (w * (q / 100) + n)
whole_item q w n e = omega (arith, ap (λ (t : ℕ). t * w) e)

sum_of-shipped_weight :
    (i : ℕ) (products : List Product) (items : List Item)
    → All (IsWhole products) (select_where (λ x. x.batch_id == i) items)
    → sum_of i (λ x. x.quantity * or_zero x.weight_kg) items
      ≡ 100 * shipped_weight (shipped_products products (select_where (λ x. x.batch_id == i) items))
sum_of-shipped_weight i products [] h = refl
sum_of-shipped_weight i products (x ∷ items) h = elim (Bool-cases (x.batch_id == i)) [
  | inr t ↦ rw t (omega (arith, sum_of-shipped_weight i products items (rw t at h)))
  | inl t ↦ counted t (rw t at h) (sum_of-shipped_weight i products items)
]
  where
    counted :
        (x.batch_id == i) ≡ true
        → All (IsWhole products) (x ∷ select_where (λ y. y.batch_id == i) items)
        → (All (IsWhole products) (select_where (λ y. y.batch_id == i) items)
            → sum_of i (λ y. y.quantity * or_zero y.weight_kg) items
              ≡ 100
                * shipped_weight
                    (shipped_products products (select_where (λ y. y.batch_id == i) items)))
        → sum_of i (λ y. y.quantity * or_zero y.weight_kg) (x ∷ items)
          ≡ 100
            * shipped_weight
                (shipped_products products (select_where (λ y. y.batch_id == i) (x ∷ items)))
    counted t ((q, (p, e)), h) rest =
        rw (t, e)
          (ap (λ n. x.quantity * or_zero x.weight_kg + n) (rest h)
            ∙ whole_item x.quantity (or_zero x.weight_kg) _ q)

-- Where the items of a batch have whole quantities and their products are there, the weight of the
-- shipment, computed item by item on truncated quantities, is the total weight that the database
-- keeps for the batch, which is rounded once.
pub shipped_weight-tally :
    (i : ℕ) (s : Store)
    → All (IsWhole s.papers.products) (items_of i s)
    → shipped_weight (shipped_products s.papers.products (items_of i s))
      ≡ (tally i s.items).weight_kg
unfolding tally
shipped_weight-tally i s h = omega (arith, sum_of-shipped_weight i s.papers.products s.items h)
