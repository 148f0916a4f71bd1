-- ===== src/Compliance/Documents.antt =====
-- The tables that src/services/domesticComplianceService.js reads and writes. The codes of markets
-- and documents stand for their trimmed upper- and lower-case forms, the storage keys for their
-- trimmed forms. UNIQUE (product_id, compliance_document_id) holds of the links.
use be_weavecarbon.Common.{
  ℕ, suc, String, Bool, not, ◌&&◌, ◌||◌, Option, none, some, List, [], ◌∷◌, map, ◌==◌, str_eq,
  if◌then◌else◌, any, select_one, select_where,
}
use be_weavecarbon.Compliance.Markets.{normalize_target_markets, normalize_domestic_market}

-- A row of `products`, with the columns that publishing uses.
pub record Product : Type 0 where
  pub id : ℕ
  pub company_id : ℕ
  pub sku : String
  pub name : String
  pub weight_kg : Option ℕ
  pub total_co2e : Option ℕ

pub record CompanyMarkets : Type 0 where
  pub id : ℕ
  pub domestic_market : String
  pub target_markets : List String

pub record Requirement : Type 0 where
  pub market_code : String
  pub document_code : String
  pub document_name : String
  pub required : Bool
  pub is_active : Bool

pub record Document : Type 0 where
  pub id : ℕ
  pub company_id : ℕ
  pub market_code : String
  pub document_code : String
  pub document_name : String
  pub status : String
  pub storage_key : String

pub record Link : Type 0 where
  pub company_id : ℕ
  pub product_id : ℕ
  pub compliance_document_id : ℕ
  pub market_code : String
  pub storage_key_snapshot : String
  pub source : String
  pub created_by : Option ℕ

pub record Papers : Type 0 where
  pub companies : List CompanyMarkets
  pub products : List Product
  pub requirements : List Requirement
  pub documents : List Document
  pub links : List Link

-- `{ code, name }`
pub record Template : Type 0 where
  pub code : String
  pub name : String

-- `Boolean(text)`
abbrev pub has_text : String → Bool
has_text s = not (str_eq s "")

abbrev pub domestic_market_of : Option CompanyMarkets → String
domestic_market_of none = normalize_domestic_market "" (normalize_target_markets [])
domestic_market_of (some c) =
    normalize_domestic_market c.domestic_market (normalize_target_markets c.target_markets)

unfoldable pub resolve_company_domestic_market_code : ℕ → Papers → String
resolve_company_domestic_market_code company p =
    domestic_market_of (select_one (λ (c : CompanyMarkets). c.id == company) p.companies)

abbrev pub fallback_required_documents : String → List Template
fallback_required_documents market =
    if str_eq market "VN"
    then (record { code = "eia"; name = "Environmental Impact Assessment (EIA)" })
      ∷ (record { code = "ghg_inventory_vn"; name = "GHG Inventory / MRV Declaration" })
      ∷ (record { code = "local_compliance"; name = "Local Compliance Declaration" })
      ∷ []
    else []

abbrev pub template_of : Requirement → Template
template_of r = record {
  code = r.document_code;
  name = if has_text r.document_name then r.document_name else r.document_code;
}

-- The rows found, or the fallback where there is none. `ORDER BY document_name` is the order of the
-- table.
abbrev pub required_of : String → List Requirement → List Template
required_of market [] = fallback_required_documents market
required_of market (r ∷ rows) = select_where (λ t. has_text t.code) (map template_of (r ∷ rows))

unfoldable pub list_required_documents : String → Papers → List Template
list_required_documents market p =
    required_of market (
      select_where (λ r. str_eq r.market_code market && (r.required && r.is_active)) p.requirements)

abbrev pub codes_of : List Template → List String
codes_of required_documents = select_where has_text (map (λ t. t.code) required_documents)

abbrev pub is_required_row : ℕ → String → List String → Document → Bool
is_required_row company market codes d =
    d.company_id == company
    && (str_eq d.market_code market && any (λ code. str_eq code d.document_code) codes)

-- `SELECT ... FROM compliance_documents` for the required codes.
abbrev pub document_rows : ℕ → String → List String → Papers → List Document
document_rows company market codes p =
    select_where (is_required_row company market codes) p.documents

abbrev pub missing_document : ℕ → ℕ → String → Template → Document
missing_document fresh company market t = record {
  id = fresh;
  company_id = company;
  market_code = market;
  document_code = t.code;
  document_name = if has_text t.name then t.name else t.code;
  status = "missing";
  storage_key = "";
}

-- The loop of `ensureRequiredDocumentPlaceholders` over the codes that exist; new rows get the
-- identifiers from `fresh` on.
unfoldable pub insert_placeholders :
    ℕ → ℕ → String → List String → List Template → List Document → List Document
insert_placeholders fresh company market existing [] documents = documents
insert_placeholders fresh company market existing (t ∷ templates) documents =
    let next = insert_placeholders fresh company market existing templates documents in
    let added =
      insert_placeholders (suc fresh) company market (t.code ∷ existing) templates
        (missing_document fresh company market t ∷ documents) in
    if not (has_text t.code) || any (str_eq t.code) existing then next else added

unfoldable pub ensure_required_document_placeholders :
    ℕ → ℕ → String → List Template → Papers → Papers
ensure_required_document_placeholders fresh company market required_documents p = record p {
  documents =
      insert_placeholders fresh company market
        (map (λ (d : Document). d.document_code)
          (document_rows company market (codes_of required_documents) p))
        required_documents p.documents;
}
