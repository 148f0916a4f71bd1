-- ===== src/Compliance/Required.antt =====
-- What `validateProductsForDomesticPublish` of src/services/domesticComplianceService.js has seen
-- of every product when it succeeds.
use be_weavecarbon.Common.{
  ℕ, String, true, ◌||◌, ◌≡◌, refl, Option, none, some, List, [], ◌∷◌, ==_iff, str_eq_iff, All,
  All-map, inl, inr, Option-cases, arith, select_one_sound, mem-select_one, mem-select_where_sound,
}
use be_weavecarbon.Compliance.Documents.{
  Product, Document, Link, Papers, Template, has_text, codes_of, document_rows, is_required_row,
}
use be_weavecarbon.Compliance.Publish.{
  MissingDocument, MissingByProduct, is_done, matched_document, linked_row, link_reason,
  document_reason, missing_documents, missing_by_product, with_missing, none_missing, link_rows,
  judged,
}
use mathlib.Core.List.{Memᴰ}

-- A document of the company and the market stands for the template, is linked to the product, is
-- uploaded or approved, and has a file.
pub record IsProvided (p : Papers) (company : ℕ) (market : String) (product : ℕ) (t : Template)
    : Type 0 where
  pub document : Document
  pub link : Link
  pub has_document : Memᴰ document p.documents
  pub has_link : Memᴰ link p.links
  pub of_company : document.company_id ≡ company
  pub of_market : document.market_code ≡ market
  pub of_code : document.document_code ≡ t.code
  pub links_product : link.product_id ≡ product
  pub links_document : link.compliance_document_id ≡ document.id
  pub done : is_done document.status ≡ true
  pub has_file : (has_text document.storage_key || has_text link.storage_key_snapshot) ≡ true

missing_documents-All :
    (product : ℕ) (documents : List Document) (links : List Link) (templates : List Template)
    → missing_documents product documents links templates ≡ []
    → All (λ t. document_reason product links (matched_document t.code documents) ≡ none) templates
unfolding missing_documents
missing_documents-All product documents links [] e = tt
missing_documents-All product documents links (t ∷ templates) e =
    elim (Option-cases (document_reason product links (matched_document t.code documents))) [
      | inl n ↦ (
        n,
        missing_documents-All product documents links templates (rw (n, missing_documents) at e),
      )
      | inr (r, s) ↦ absurd (cc (rw (s, missing_documents) at e))
    ]

with_missing-none :
    (product : ℕ) (missing : List MissingDocument) (rest : List MissingByProduct)
    → none_missing (with_missing product missing rest) ≡ true
    → (missing ≡ []) × (none_missing rest ≡ true)
with_missing-none product [] rest h = (refl, h)
with_missing-none product (m ∷ missing) rest h = absurd (cc)

missing_by_product-All :
    (documents : List Document) (links : List Link) (required : List Template)
    (products : List Product)
    → none_missing (missing_by_product documents links required products) ≡ true
    → All (λ x. missing_documents x.id documents links required ≡ []) products
unfolding missing_by_product
missing_by_product-All documents links required [] h = tt
missing_by_product-All documents links required (x ∷ products) h =
    let both = with_missing-none x.id (missing_documents x.id documents links required) _ h in
    (both.0, missing_by_product-All documents links required products both.1)

-- When a document counts for a product, it is linked, done and has a file.
link_reason-none :
    (d : Document) (o : Option Link)
    → link_reason d o ≡ none
    → (l : Link) × (o ≡ some l)
      × (is_done d.status ≡ true)
      × ((has_text d.storage_key || has_text l.storage_key_snapshot) ≡ true)
link_reason-none d none e = absurd (cc)
link_reason-none d (some l) e = (l, refl, ground arith, ground arith)

-- The parts of the two selections.
document_rows-mem :
    (company : ℕ) (market : String) (codes : List String) (p : Papers) (d : Document)
    → Memᴰ d (document_rows company market codes p)
    → Memᴰ d p.documents × (d.company_id ≡ company) × (d.market_code ≡ market)
document_rows-mem company market codes p d m =
    let both = mem-select_where_sound (is_required_row company market codes) p.documents m in
    (both.0, (==_iff _ _).0 (ground (arith, both.1)), (str_eq_iff _ _).0 (ground (arith, both.1)))

module _ (p : Papers) (company : ℕ) (market : String) (codes : List String)
    (products : List Product) where
  abbrev rows : List Document
  rows = document_rows company market codes p

  provided :
      (product : ℕ) (t : Template)
      → document_reason product (link_rows company products rows p) (matched_document t.code rows)
        ≡ none
      → IsProvided p company market product t
  provided product t e = elim (Option-cases (matched_document t.code rows)) [
    | inl n ↦ absurd (cc (rw n at e))
    | inr (d, f) ↦ from_document d f (link_reason-none d _ (rw f at e))
  ]
    where
      from_document :
          (d : Document)
          → matched_document t.code rows ≡ some d
          → (l : Link) × (linked_row product d.id (link_rows company products rows p) ≡ some l)
            × (is_done d.status ≡ true)
            × ((has_text d.storage_key || has_text l.storage_key_snapshot) ≡ true)
          → IsProvided p company market product t
      from_document d f (l, g, done, file) =
          let row = document_rows-mem company market codes p d (mem-select_one _ rows d f) in
          let same = select_one_sound _ (link_rows company products rows p) l g in
          record {
            document = d;
            link = l;
            has_document = row.0;
            has_link = (mem-select_where_sound _ p.links (mem-select_one _ _ l g)).0;
            of_company = row.1;
            of_market = row.2;
            of_code = (str_eq_iff _ _).0 (select_one_sound _ rows d f);
            links_product = (==_iff _ _).0 (ground (arith, same));
            links_document = (==_iff _ _).0 (ground (arith, same));
            done = done;
            has_file = file;
          }

-- What `judged` has seen of every product and template when it succeeds.
pub judged-IsProvided :
    (p : Papers) (company : ℕ) (market : String) (required : List Template)
    (products : List Product)
    → (judged company market required products p).success ≡ true
    → All (λ x. All (IsProvided p company market x.id) required) products
judged-IsProvided p company market required products h =
    All-map _ _ products
      (λ x e.
        All-map _ _ required (λ t. provided p company market (codes_of required) products x.id t)
          (missing_documents-All x.id _ _ required e))
      (missing_by_product-All _ _ required products h)
