-- ===== src/Batches/Listing.antt =====
-- `listBatches` of src/modules/assessments/batchesService.js, page by page. Whether a batch matches
-- a search text (ILIKE on its name and description) is a parameter.
use be_weavecarbon.Common.{
  ℕ, zero, suc, ◌+◌, ◌-◌, ◌*◌, ◌/◌, ◌≤◌, String, Bool, true, ◌&&◌, ◌≡◌, refl, sym, ap, ◌∙◌, Option,
  none, some, List, [], ◌∷◌, ◌++◌, ltb, ◌==◌, str_eq, if◌then◌else◌, length, count_where,
  select_where, arith,
}
use be_weavecarbon.Batches.Tables.{Batch, BatchStatus, Store, same_status}
use native.Mathlib.Nat.{div-add-mod, mod-lt}

-- `LIMIT` and `OFFSET`
abbrev pub take {ℓ} : {A : Type ℓ} → ℕ → List A → List A
take zero xs = []
take (suc n) [] = []
take (suc n) (x ∷ xs) = x ∷ take n xs

abbrev pub drop {ℓ} : {A : Type ℓ} → ℕ → List A → List A
drop zero xs = xs
drop (suc n) [] = []
drop (suc n) (x ∷ xs) = drop n xs

-- `ORDER BY updated_at DESC`
abbrev pub put_by_update : Batch → List Batch → List Batch
put_by_update b [] = b ∷ []
put_by_update b (x ∷ rest) =
    let further = x ∷ put_by_update b rest in
    if ltb b.updated_at x.updated_at then further else b ∷ x ∷ rest

abbrev pub by_update : List Batch → List Batch
by_update [] = []
by_update (b ∷ rest) = put_by_update b (by_update rest)

-- `all`, the default of the filter, is none.
abbrev pub passes_filter : (String → Batch → Bool) → ℕ → Option BatchStatus → String → Batch → Bool
passes_filter matches company status search b =
    b.company_id == company
    && ((elim status [ none ↦ true | some k ↦ same_status b.status k ])
        && (if str_eq search "" then true else matches search b))

pub record Listing : Type 0 where
  pub items : List Batch
  pub page : ℕ
  pub page_size : ℕ
  pub total : ℕ
  pub total_pages : ℕ

-- `Math.ceil(total / page_size)`
abbrev pub ceiling : ℕ → ℕ → ℕ
ceiling total size = (total + size - 1) / size

module _ (matches : String → Batch → Bool) (company : ℕ) (status : Option BatchStatus)
    (search : String) where
  unfoldable pub list_batches : ℕ → ℕ → Store → Listing
  list_batches page size s = record {
    items = take size (
        drop ((page - 1) * size)
          (by_update (select_where (passes_filter matches company status search) s.batches)));
    page = page;
    page_size = size;
    total = count_where (passes_filter matches company status search) s.batches;
    total_pages =
        ceiling (count_where (passes_filter matches company status search) s.batches) size;
  }

  -- The items of the pages from 1 to `n`, one after the other.
  abbrev pub pages : ℕ → ℕ → Store → List Batch
  pages zero size s = []
  pages (suc n) size s = pages n size s ++ (list_batches (suc n) size s).items

zero_left : (n : ℕ) → 0 + n ≡ n
zero_left n = omega arith

take-split {ℓ} :
    {A : Type ℓ} (n m k : ℕ) (xs : List A) → n ≡ m + k → take n xs ≡ take m xs ++ take k (drop m xs)
take-split n zero k xs e = ap (λ i. take i xs) (e ∙ zero_left k)
take-split zero (suc m) k xs e = absurd (omega arith)
take-split (suc n) (suc m) zero [] e = refl
take-split (suc n) (suc m) (suc k) [] e = refl
take-split (suc n) (suc m) k (x ∷ xs) e = ap (λ ys. x ∷ ys) (take-split n m k xs (omega arith))

take-all {ℓ} : {A : Type ℓ} (n : ℕ) (xs : List A) → length xs ≤ n → take n xs ≡ xs
take-all zero [] h = refl
take-all zero (x ∷ xs) h = absurd (omega arith)
take-all (suc n) [] h = refl
take-all (suc n) (x ∷ xs) h = ap (λ ys. x ∷ ys) (take-all n xs (omega arith))

length-put_by_update :
    (b : Batch) (rows : List Batch) → length (put_by_update b rows) ≡ suc (length rows)
length-put_by_update b [] = refl
length-put_by_update b (x ∷ rest) = ground (arith, length-put_by_update b rest)

length-by_update : (rows : List Batch) → length (by_update rows) ≡ length rows
length-by_update [] = refl
length-by_update (b ∷ rest) =
    omega (arith, length-put_by_update b (by_update rest), length-by_update rest)

length-select_where {ℓ} :
    {A : Type ℓ} (test : A → Bool) (rows : List A)
    → length (select_where test rows) ≡ count_where test rows
length-select_where test [] = refl
length-select_where test (r ∷ rows) = ground (arith, length-select_where test rows)

before_suc : (n : ℕ) → suc n - 1 ≡ n
before_suc n = omega arith

zero_times : (n : ℕ) → 0 ≡ 0 * n
zero_times n = omega arith

suc_times : (n k : ℕ) → suc n * k ≡ n * k + k
suc_times n k = omega arith

page_start : (n k : ℕ) → (suc n - 1) * k ≡ n * k
page_start n k = ap (λ (t : ℕ). t * k) (before_suc n)

-- As many pages of a size hold the total.
ceiling_enough : (total size : ℕ) → 1 ≤ size → total ≤ ceiling total size * size
ceiling_enough total size h =
    omega (
      arith,
      div-add-mod (total + size - 1) size,
      mod-lt (total + size - 1) {m = size} (omega arith),
    )

module _ (matches : String → Batch → Bool) (company : ℕ) (status : Option BatchStatus)
    (search : String) where
  pages-take :
      (n size : ℕ) (s : Store)
      → pages matches company status search n size s
        ≡ take
            (n * size)
            (by_update (select_where (passes_filter matches company status search) s.batches))
  unfolding list_batches
  pages-take zero size s = ap (λ i. take i rows) (zero_times size)
    where
      rows : List Batch
      rows = by_update (select_where (passes_filter matches company status search) s.batches)
  pages-take (suc n) size s =
      rw (pages-take n size s, page_start n size)
        (sym (take-split (suc n * size) (n * size) size _ (suc_times n size)))

  -- For every page size from 1 on: the pages from the first to the last that the listing counts, one
  -- after the other, are all batches of the company that pass the filter, each once and in order.
  pub pages-total :
      (page size : ℕ) (s : Store)
      → 1 ≤ size
      → pages matches company status search
          (list_batches matches company status search page size s).total_pages
          size
          s
        ≡ by_update (select_where (passes_filter matches company status search) s.batches)
  unfolding list_batches
  pages-total page size s h =
      pages-take (ceiling total size) size s
      ∙ take-all (ceiling total size * size) rows (
          omega (
            arith,
            ceiling_enough total size h,
            length-by_update (select_where (passes_filter matches company status search) s.batches),
            length-select_where (passes_filter matches company status search) s.batches,
          ))
    where
      rows : List Batch
      rows = by_update (select_where (passes_filter matches company status search) s.batches)

      total : ℕ
      total = count_where (passes_filter matches company status search) s.batches
