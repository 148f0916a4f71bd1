-- ===== src/Compliance/Placeholders.antt =====
-- The placeholders that `validateProductsForDomesticPublish` of
-- src/services/domesticComplianceService.js writes, and what it has seen when it succeeds.
use be_weavecarbon.Common.{
  ℕ, suc, ◌≤◌, ◌<◌, String, true, not, ◌||◌, ◌≡◌, refl, sym, ap, subst, ◌⊎◌, inl, inr, List, [],
  ◌∷◌, map, ==_iff, str_eq, str_eq_iff, any, All, All-mem, All-every, if_intro, Bool-cases, arith,
  mem-select_where, mem-map, any-mem,
}
use be_weavecarbon.Compliance.Documents.{
  Product, Document, Link, Papers, Template, has_text, codes_of, document_rows, is_required_row,
  missing_document, insert_placeholders, ensure_required_document_placeholders,
  resolve_company_domestic_market_code, list_required_documents,
}
use be_weavecarbon.Compliance.Publish.{
  Validation, owned_products, validate_required, validate_products,
  validate_products_for_domestic_publish,
}
use be_weavecarbon.Compliance.Required.{IsProvided, judged-IsProvided}
use mathlib.Core.List.{Memᴰ}

-- A document after the insertion is an old one or has a new identifier.
mem-insert_placeholders :
    (fresh company : ℕ) (market : String) (existing : List String) (templates : List Template)
    (documents : List Document) (d : Document)
    → Memᴰ d (insert_placeholders fresh company market existing templates documents)
    → Memᴰ d documents ⊎ (fresh ≤ d.id)
unfolding insert_placeholders
mem-insert_placeholders fresh company market existing [] documents d m = inl m
mem-insert_placeholders fresh company market existing (t ∷ templates) documents d m =
    if_intro (λ found. Memᴰ d found → Memᴰ d documents ⊎ (fresh ≤ d.id))
      (not (has_text t.code) || any (str_eq t.code) existing)
      (λ _ k. mem-insert_placeholders fresh company market existing templates documents d k)
      (λ _ k. old (
        mem-insert_placeholders (suc fresh) company market (t.code ∷ existing) templates
          (missing_document fresh company market t ∷ documents) d k))
      m
  where
    new :
        Memᴰ d (missing_document fresh company market t ∷ documents)
        → Memᴰ d documents ⊎ (fresh ≤ d.id)
    new (Memᴰ.head e) = inr (subst (λ x. fresh ≤ x.id) (sym e) (omega arith))
    new (Memᴰ.tail k) = inl k

    old :
        Memᴰ d (missing_document fresh company market t ∷ documents) ⊎ (suc fresh ≤ d.id)
        → Memᴰ d documents ⊎ (fresh ≤ d.id)
    old (inl k) = new k
    old (inr h) = inr (omega arith)

-- Nothing is inserted when every code exists.
insert_placeholders-none :
    (fresh company : ℕ) (market : String) (existing : List String) (templates : List Template)
    (documents : List Document)
    → All (λ t. (not (has_text t.code) || any (str_eq t.code) existing) ≡ true) templates
    → insert_placeholders fresh company market existing templates documents ≡ documents
unfolding insert_placeholders
insert_placeholders-none fresh company market existing [] documents h = refl
insert_placeholders-none fresh company market existing (t ∷ templates) documents (p, h) =
    rw p (insert_placeholders-none fresh company market existing templates documents h)

-- The identifiers from `fresh` on are new to the tables: no link names one.
abbrev pub IsUnlinked : ℕ → Papers → Type 0
IsUnlinked fresh p = All (λ (l : Link). l.compliance_document_id < fresh) p.links

module _ (fresh company : ℕ) (market : String) (required : List Template) (p : Papers) where
  abbrev after : Papers
  after = ensure_required_document_placeholders fresh company market required p

  abbrev existing : List String
  existing =
      map (λ (d : Document). d.document_code) (document_rows company market (codes_of required) p)

  code_exists :
      (product : ℕ) (t : Template)
      → IsUnlinked fresh p
      → Memᴰ t required
      → IsProvided after company market product t
      → (not (has_text t.code) || any (str_eq t.code) existing) ≡ true
  unfolding ensure_required_document_placeholders
  code_exists product t new m h = elim (Bool-cases (has_text t.code)) [
    | inr f ↦ ground (arith, f)
    | inl f ↦
        elim (mem-insert_placeholders fresh company market existing required p.documents h.document
          h.has_document) [
            | inr le ↦ absurd (omega (arith, All-mem _ p.links h.has_link new, h.links_document))
            | inl k ↦ ground (arith, found f k)
          ]
  ]
    where
      requested :
          has_text t.code ≡ true
          → any (λ code. str_eq code h.document.document_code) (codes_of required) ≡ true
      requested f =
          any-mem _ (codes_of required)
            (mem-select_where has_text (map (λ (u : Template). u.code) required)
              (mem-map (λ (u : Template). u.code) required m) f)
            ((str_eq_iff _ _).1 (sym h.of_code))

      found :
          has_text t.code ≡ true → Memᴰ h.document p.documents → any (str_eq t.code) existing ≡ true
      found f k =
          any-mem (str_eq t.code) existing
            (mem-map (λ (d : Document). d.document_code) _
              (mem-select_where (is_required_row company market (codes_of required)) p.documents k (
                ground (
                  arith,
                  (==_iff h.document.company_id company).1 h.of_company,
                  (str_eq_iff h.document.market_code market).1 h.of_market,
                  requested f,
                ))))
            ((str_eq_iff _ _).1 (sym h.of_code))

  -- When a product has all that is required, no placeholder was written.
  after-unchanged :
      (product : ℕ)
      → IsUnlinked fresh p
      → All (IsProvided after company market product) required
      → after ≡ p
  unfolding ensure_required_document_placeholders
  after-unchanged product new h =
      ap (λ documents. record p { documents = documents })
        (insert_placeholders-none fresh company market existing required p.documents
          (All-every _ required (λ t m. code_exists product t new m (All-mem _ required m h))))

-- Every product has every required document.
abbrev pub AllProvided : ℕ → String → List Product → List Template → Papers → Type 0
AllProvided company market products required p =
    All (λ (x : Product). All (IsProvided p company market x.id) required) products

abbrev pub Cleared :
    ℕ → String → List Product → List Template → Papers → Papers × Validation → Type 0
Cleared company market products required p r =
    r.1.success ≡ true → (r.0 ≡ p) × AllProvided company market products required p

validate_required-Cleared :
    (fresh company : ℕ) (market : String) (x : Product) (products : List Product)
    (required : List Template) (p : Papers)
    → IsUnlinked fresh p
    → Cleared company market
        (x ∷ products)
        required
        p
        (validate_required fresh company market (x ∷ products) required p)
validate_required-Cleared fresh company market x products [] p new h =
    (refl, All-every _ (x ∷ products) (λ _ _. tt))
validate_required-Cleared fresh company market x products (t ∷ required) p new h =
    let all =
      judged-IsProvided (after fresh company market (t ∷ required) p) company market (t ∷ required)
        (x ∷ products) h in
    let same = after-unchanged fresh company market (t ∷ required) p x.id new all.0 in
    (same, subst (AllProvided company market (x ∷ products) (t ∷ required)) same all)

validate_products-Cleared :
    (fresh company : ℕ) (products : List Product) (p : Papers)
    → IsUnlinked fresh p
    → Cleared company
        (resolve_company_domestic_market_code company p)
        products
        (list_required_documents (resolve_company_domestic_market_code company p) p)
        p
        (validate_products fresh company products p)
validate_products-Cleared fresh company [] p new h = absurd (cc)
validate_products-Cleared fresh company (x ∷ products) p new h =
    validate_required-Cleared fresh company (resolve_company_domestic_market_code company p) x
      products _ p new h

-- Where no link names a document from `fresh` on, a validation that succeeds has written nothing,
-- and in the tables every named product of the company has every document that the company's
-- domestic market requires: one of the company and the market, linked to the product, uploaded or
-- approved, and with a file.
pub validate_products-AllProvided :
    (fresh company : ℕ) (product_ids : List ℕ) (p : Papers)
    → IsUnlinked fresh p
    → (validate_products_for_domestic_publish fresh company product_ids p).1.success ≡ true
    → ((validate_products_for_domestic_publish fresh company product_ids p).0 ≡ p)
      × AllProvided company
          (resolve_company_domestic_market_code company p)
          (owned_products company product_ids p)
          (list_required_documents (resolve_company_domestic_market_code company p) p)
          p
unfolding validate_products_for_domestic_publish
validate_products-AllProvided fresh company product_ids p new h =
    validate_products-Cleared fresh company (owned_products company product_ids p) p new h
