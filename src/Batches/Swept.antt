-- ===== src/Batches/Swept.antt =====
-- What `deleteProduct` of src/modules/products/service.js makes of the items of batches.
use be_weavecarbon.Common.{
  ℕ, Bool, false, ◌&&◌, ◌≡◌, refl, ap, List, [], ◌∷◌, arith, any, select_where, delete_where,
  Bool-cases, inl, inr,
}
use be_weavecarbon.Batches.Tables.{Item, Outcome, done, failed}
use be_weavecarbon.Batches.Products.{of_product}

-- The products that a deletion has removed, by its answer.
abbrev pub removed : ℕ → Outcome Bool → List ℕ
removed product (done b) = product ∷ []
removed product (failed code) = []

-- Items without those of products that were deleted.
abbrev pub without : List ℕ → List Item → List Item
without [] items = items
without (p ∷ products) items = delete_where (of_product p) (without products items)

abbrev pub joined_to : List ℕ → List ℕ → List ℕ
joined_to [] products = products
joined_to (p ∷ rest) products = p ∷ joined_to rest products

pub without-joined_to :
    (ps qs : List ℕ) (items : List Item)
    → without ps (without qs items) ≡ without (joined_to ps qs) items
without-joined_to [] qs items = refl
without-joined_to (p ∷ ps) qs items =
    ap (delete_where (of_product p)) (without-joined_to ps qs items)

module _ {Row : Type 0} (test gone : Row → Bool) where
  -- A selection of what is left is what is left of the selection.
  pub select_where-delete_where :
      (rows : List Row)
      → select_where test (delete_where gone rows) ≡ delete_where gone (select_where test rows)
  select_where-delete_where [] = refl
  select_where-delete_where (x ∷ rows) = elim (Bool-cases (gone x)) [
    | inl t ↦ elim (Bool-cases (test x)) [
      | inl u ↦ rw (t, u, t) (select_where-delete_where rows)
      | inr u ↦ rw (t, u) (select_where-delete_where rows)
    ]
    | inr t ↦ elim (Bool-cases (test x)) [
      | inl u ↦ rw (t, u, t) (ap (λ l. x ∷ l) (select_where-delete_where rows))
      | inr u ↦ rw (t, u) (select_where-delete_where rows)
    ]
  ]

  -- A deletion of no selected row leaves the selection.
  pub select_where-untouched :
      (rows : List Row)
      → any (λ x. gone x && test x) rows ≡ false
      → select_where test (delete_where gone rows) ≡ select_where test rows
  select_where-untouched [] h = refl
  select_where-untouched (x ∷ rows) h = elim (Bool-cases (gone x)) [
    | inl t ↦ elim (Bool-cases (test x)) [
      | inl u ↦ absurd (ground (arith, h, t, u))
      | inr u ↦ rw (t, u) (select_where-untouched rows (ground (arith, h, t, u)))
    ]
    | inr t ↦ elim (Bool-cases (test x)) [
      | inl u ↦ rw (t, u) (ap (λ l. x ∷ l) (select_where-untouched rows (ground (arith, h, t))))
      | inr u ↦ rw (t, u) (select_where-untouched rows (ground (arith, h, t)))
    ]
  ]
