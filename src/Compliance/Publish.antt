-- ===== src/Compliance/Publish.antt =====
-- `validateProductsForDomesticPublish` of src/services/domesticComplianceService.js.
use be_weavecarbon.Common.{
  ℕ, String, Bool, true, false, not, ◌&&◌, ◌||◌, Option, none, some, List, [], ◌∷◌, ◌==◌, str_eq,
  if◌then◌else◌, any, select_one, select_where,
}
use be_weavecarbon.Compliance.Documents.{
  Product, Document, Link, Papers, Template, has_text, resolve_company_domestic_market_code,
  list_required_documents, codes_of, document_rows, ensure_required_document_placeholders,
}

pub data Reason : Type 0 where
  missing_document : Reason
  not_linked_to_product : Reason
  document_not_uploaded : Reason
  missing_storage_path : Reason

pub record MissingDocument : Type 0 where
  pub document_code : String
  pub reason : Reason

pub record MissingByProduct : Type 0 where
  pub product_id : ℕ
  pub missing_documents : List MissingDocument

pub record Validation : Type 0 where
  pub success : Bool
  pub market_code : String
  pub required_documents : List Template
  pub missing_by_product : List MissingByProduct

-- `DONE_DOCUMENT_STATUSES`
abbrev pub is_done : String → Bool
is_done status = str_eq status "uploaded" || str_eq status "approved"

-- `documentsByCode.get(code)`: the first row of the code.
abbrev pub matched_document : String → List Document → Option Document
matched_document code rows = select_one (λ (d : Document). str_eq d.document_code code) rows

abbrev pub linked_row : ℕ → ℕ → List Link → Option Link
linked_row product document rows =
    select_one (λ (l : Link). l.product_id == product && l.compliance_document_id == document) rows

-- The reason why a matched document does not count for a product.
abbrev pub link_reason : Document → Option Link → Option Reason
link_reason d none = some not_linked_to_product
link_reason d (some l) =
    if not (is_done d.status)
    then some document_not_uploaded
    else if not (has_text d.storage_key || has_text l.storage_key_snapshot)
    then some missing_storage_path
    else none

abbrev pub document_reason : ℕ → List Link → Option Document → Option Reason
document_reason product links none = some missing_document
document_reason product links (some d) = link_reason d (linked_row product d.id links)

unfoldable pub missing_documents :
    ℕ → List Document → List Link → List Template → List MissingDocument
missing_documents product documents links [] = []
missing_documents product documents links (t ∷ templates) =
    let rest = missing_documents product documents links templates in
    elim (document_reason product links (matched_document t.code documents)) [
      | none ↦ rest
      | some reason ↦ (record { document_code = t.code; reason = reason }) ∷ rest
    ]

abbrev pub with_missing : ℕ → List MissingDocument → List MissingByProduct → List MissingByProduct
with_missing product [] rest = rest
with_missing product (m ∷ missing) rest =
    (record { product_id = product; missing_documents = m ∷ missing }) ∷ rest

unfoldable pub missing_by_product :
    List Document → List Link → List Template → List Product → List MissingByProduct
missing_by_product documents links required [] = []
missing_by_product documents links required (p ∷ products) =
    with_missing p.id (missing_documents p.id documents links required)
      (missing_by_product documents links required products)

abbrev pub none_missing : List MissingByProduct → Bool
none_missing [] = true
none_missing (m ∷ missing) = false

-- `SELECT ... FROM products WHERE company_id = $1 AND id = ANY($2)`
abbrev pub owned_products : ℕ → List ℕ → Papers → List Product
owned_products company ids p =
    select_where (λ (x : Product). x.company_id == company && any (λ i. i == x.id) ids) p.products

-- `SELECT ... FROM product_compliance_documents` for the products and the documents.
abbrev pub link_rows : ℕ → List Product → List Document → Papers → List Link
link_rows company products documents p =
    select_where
      (λ (l : Link).
        l.company_id == company
        && (any (λ (x : Product). x.id == l.product_id) products
            && any (λ (d : Document). d.id == l.compliance_document_id) documents))
      p.links

abbrev pub refused_validation : Validation
refused_validation = record {
  success = false;
  market_code = "VN";
  required_documents = [];
  missing_by_product = [];
}

abbrev pub judged : ℕ → String → List Template → List Product → Papers → Validation
judged company market required products p =
    let documents = document_rows company market (codes_of required) p in
    let missing =
      missing_by_product documents (link_rows company products documents p) required products in
    record {
      success = none_missing missing;
      market_code = market;
      required_documents = required;
      missing_by_product = missing;
    }

-- From the documents that the market requires; with placeholders for those that have no row.
abbrev pub validate_required :
    ℕ → ℕ → String → List Product → List Template → Papers → Papers × Validation
validate_required fresh company market products [] p = (
  p,
  record { success = true; market_code = market; required_documents = []; missing_by_product = [] },
)
validate_required fresh company market products (t ∷ required) p =
    let at = ensure_required_document_placeholders fresh company market (t ∷ required) p in
    (at, judged company market (t ∷ required) products at)

abbrev pub validate_products : ℕ → ℕ → List Product → Papers → Papers × Validation
validate_products fresh company [] p = (p, refused_validation)
validate_products fresh company (x ∷ products) p =
    let market = resolve_company_domestic_market_code company p in
    validate_required fresh company market (x ∷ products) (list_required_documents market p) p

unfoldable pub validate_products_for_domestic_publish :
    ℕ → ℕ → List ℕ → Papers → Papers × Validation
validate_products_for_domestic_publish fresh company product_ids p =
    validate_products fresh company (owned_products company product_ids p) p
