-- ===== src/Compliance/Links.antt =====
-- `linkDocumentToProducts` of src/services/domesticComplianceService.js.
use be_weavecarbon.Common.{
  ℕ, ◌-◌, String, Bool, true, ◌&&◌, ◌≡◌, refl, Option, none, some, List, [], ◌∷◌, ◌==◌, ==_iff,
  arith, if◌then◌else◌, any, length, All, inl, inr, Bool-cases, if_intro, select_one, update_where,
  mem-update_where_miss, mem-update_where_hit, any-found,
}
use be_weavecarbon.Compliance.Documents.{Product, Document, Link, Papers}
use be_weavecarbon.Compliance.Publish.{owned_products}
use mathlib.Core.List.{Memᴰ}

-- `[...new Set(ids)]`
abbrev pub unique_from : List ℕ → List ℕ → List ℕ
unique_from seen [] = []
unique_from seen (i ∷ ids) =
    let again = unique_from seen ids in
    let added = i ∷ unique_from (i ∷ seen) ids in if any (λ k. k == i) seen then again else added

abbrev pub unique_ids : List ℕ → List ℕ
unique_ids ids = unique_from [] ids

abbrev pub is_link : ℕ → ℕ → Link → Bool
is_link product document l = l.product_id == product && l.compliance_document_id == document

abbrev pub relinked : Link → Link → Link
relinked new l = record l {
  market_code = new.market_code;
  storage_key_snapshot = new.storage_key_snapshot;
  source = new.source;
  created_by = new.created_by;
}

-- `INSERT ... ON CONFLICT (product_id, compliance_document_id) DO UPDATE`
abbrev pub upsert_link : Link → List Link → List Link
upsert_link new links =
    if any (is_link new.product_id new.compliance_document_id) links
    then update_where (is_link new.product_id new.compliance_document_id) (relinked new) links
    else new ∷ links

abbrev pub file_of : Option Document → String
file_of none = ""
file_of (some d) = d.storage_key

abbrev pub document_file : ℕ → ℕ → Papers → String
document_file company document p =
    file_of (select_one (λ (d : Document). d.id == document && d.company_id == company) p.documents)

module _ (company : ℕ) (market : String) (document : ℕ) (user : Option ℕ)
    (source snapshot : String) where
  abbrev pub new_link : ℕ → Link
  new_link product = record {
    company_id = company;
    product_id = product;
    compliance_document_id = document;
    market_code = market;
    storage_key_snapshot = snapshot;
    source = source;
    created_by = user;
  }

  -- The loop over the products of the company.
  unfoldable pub link_products : List Product → List Link → List Link
  link_products [] links = links
  link_products (x ∷ products) links = link_products products (upsert_link (new_link x.id) links)

-- The counts of those linked and of those that are none of the company's.
unfoldable pub link_document_to_products :
    ℕ → String → ℕ → List ℕ → Option ℕ → String → Papers → Papers × (ℕ × ℕ)
link_document_to_products company market document ids user source p =
    let valid = owned_products company (unique_ids ids) p in
    (
      record p {
        links =
            link_products company market document user source (document_file company document p)
              valid p.links;
      },
      (length valid, length (unique_ids ids) - length valid),
    )

-- A link of the product and the document with the given file.
abbrev pub HasLink : ℕ → ℕ → String → List Link → Type 0
HasLink product document snapshot links =
    (l : Link) × Memᴰ l links
    × (l.product_id ≡ product)
    × (l.compliance_document_id ≡ document)
    × (l.storage_key_snapshot ≡ snapshot)

module _ (company : ℕ) (market : String) (document : ℕ) (user : Option ℕ)
    (source snapshot : String) where
  updated_link :
      (product : ℕ) (links : List Link)
      → (l : Link) × Memᴰ l links × (is_link product document l ≡ true)
      → HasLink product document snapshot (
          update_where
            (is_link product document)
            (relinked (new_link company market document user source snapshot product))
            links)
  updated_link product links (l, m, t) = (
    relinked (new_link company market document user source snapshot product) l,
    mem-update_where_hit (is_link product document)
        (relinked (new_link company market document user source snapshot product)) links t m,
    (==_iff _ _).0 (ground (arith, t)),
    (==_iff _ _).0 (ground (arith, t)),
    refl,
  )

  upsert_link-HasLink :
      (product : ℕ) (links : List Link)
      → HasLink product document snapshot
          (upsert_link (new_link company market document user source snapshot product) links)
  upsert_link-HasLink product links =
      if_intro (HasLink product document snapshot) (any (is_link product document) links)
        (λ h. updated_link product links (any-found _ links h))
        (λ _. (
          new_link company market document user source snapshot product,
          Memᴰ.head refl,
          refl,
          refl,
          refl,
        ))

  -- A link stays through the insertion of others.
  upsert_link-keeps :
      (product other : ℕ) (links : List Link)
      → HasLink product document snapshot links
      → HasLink product document snapshot
          (upsert_link (new_link company market document user source snapshot other) links)
  upsert_link-keeps product other links (l, m, e, f, g) =
      if_intro (HasLink product document snapshot) (any (is_link other document) links)
        (λ _. elim (Bool-cases (is_link other document l)) [
          | inl t ↦ (
            relinked (new_link company market document user source snapshot other) l,
            mem-update_where_hit (is_link other document)
                (relinked (new_link company market document user source snapshot other)) links t m,
            e,
            f,
            refl,
          )
          | inr t ↦ (
            l,
            mem-update_where_miss (is_link other document)
                (relinked (new_link company market document user source snapshot other)) links t m,
            e,
            f,
            g,
          )
        ])
        (λ _. (l, Memᴰ.tail m, e, f, g))

  link_products-keeps :
      (product : ℕ) (products : List Product) (links : List Link)
      → HasLink product document snapshot links
      → HasLink product document snapshot
          (link_products company market document user source snapshot products links)
  unfolding link_products
  link_products-keeps product [] links h = h
  link_products-keeps product (x ∷ products) links h =
      link_products-keeps product products _ (upsert_link-keeps product x.id links h)

  link_products-HasLink :
      (products : List Product) (links : List Link)
      → All
          (λ (x : Product).
            HasLink x.id document snapshot
              (link_products company market document user source snapshot products links))
          products
  unfolding link_products
  link_products-HasLink [] links = tt
  link_products-HasLink (x ∷ products) links = (
    link_products-keeps x.id products _ (upsert_link-HasLink x.id links),
    link_products-HasLink products _,
  )

-- After a document was linked, every named product of the company has a link to it with the file
-- that the document had.
pub link_document-HasLink :
    (company : ℕ) (market : String) (document : ℕ) (ids : List ℕ) (user : Option ℕ)
    (source : String) (p : Papers)
    → All
        (λ (x : Product).
          HasLink x.id document
            (document_file company document p)
            (link_document_to_products company market document ids user source p).0.links)
        (owned_products company (unique_ids ids) p)
unfolding link_document_to_products
link_document-HasLink company market document ids user source p =
    link_products-HasLink company market document user source (document_file company document p) _
      p.links
