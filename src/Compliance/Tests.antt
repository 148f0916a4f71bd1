-- ===== src/Compliance/Tests.antt =====
-- Runs of the validation of documents on a small company.
use be_weavecarbon.Common.{true, ◌≡◌, refl, none, some, [], ◌∷◌, arith}
use be_weavecarbon.Compliance.Documents.{
  Product, Document, Papers, resolve_company_domestic_market_code, list_required_documents,
  ensure_required_document_placeholders, insert_placeholders,
}
use be_weavecarbon.Compliance.Markets.{normalize_domestic_market, normalize_target_markets}
use be_weavecarbon.Compliance.Publish.{
  owned_products, validate_products_for_domestic_publish, missing_by_product, missing_documents,
}
use be_weavecarbon.Compliance.Links.{link_document_to_products}
use be_weavecarbon.Compliance.Placeholders.{AllProvided, validate_products-AllProvided}

abbrev pub shirt : Product
shirt = record {
  id = 7;
  company_id = 5;
  sku = "S-1";
  name = "Shirt";
  weight_kg = some 2500;
  total_co2e = some 40000;
}

abbrev pub permit : Document
permit = record {
  id = 30;
  company_id = 5;
  market_code = "VN";
  document_code = "permit";
  document_name = "Permit";
  status = "approved";
  storage_key = "files/1";
}

abbrev pub papers : Papers
papers = record {
  companies = (record { id = 5; domestic_market = "VN"; target_markets = [] }) ∷ [];
  products = shirt ∷ [];
  requirements =
      (record {
        market_code = "VN";
        document_code = "permit";
        document_name = "Permit";
        required = true;
        is_active = true;
      })
      ∷ [];
  documents = permit ∷ [];
  links =
      (record {
        company_id = 5;
        product_id = 7;
        compliance_document_id = 30;
        market_code = "VN";
        storage_key_snapshot = "";
        source = "manual";
        created_by = none;
      })
      ∷ [];
}

validates : (validate_products_for_domestic_publish 100 5 (7 ∷ []) papers).1.success ≡ true
unfolding validate_products_for_domestic_publish list_required_documents
    ensure_required_document_placeholders insert_placeholders missing_by_product missing_documents
    resolve_company_domestic_market_code normalize_domestic_market normalize_target_markets
validates = refl

validate_products-AllProvided_example :
    ((validate_products_for_domestic_publish 100 5 (7 ∷ []) papers).0 ≡ papers)
    × AllProvided 5
        (resolve_company_domestic_market_code 5 papers)
        (owned_products 5 (7 ∷ []) papers)
        (list_required_documents (resolve_company_domestic_market_code 5 papers) papers)
        papers
validate_products-AllProvided_example =
    validate_products-AllProvided 100 5 (7 ∷ []) papers (omega arith, tt) validates

abbrev unlinked : Papers
unlinked = record papers { links = [] }

counts : (link_document_to_products 5 "VN" 30 (7 ∷ 8 ∷ 7 ∷ []) none "manual" unlinked).1 ≡ (1, 1)
unfolding link_document_to_products
counts = refl
