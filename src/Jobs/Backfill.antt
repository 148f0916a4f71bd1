-- ===== src/Jobs/Backfill.antt =====
-- The start of the worker fills the queue from the tables `reports` and `evidence_documents`:
-- `backfillReports` and `backfillEvidence` of src/operations/jobRepository.js.
use Prim.Native.String.{◌++◌}
use be_weavecarbon.Common.{
  ℕ, ◌+◌, String, Bool, true, false, ◌&&◌, Option, none, some, List, [], ◌∷◌, str_eq, if◌then◌else◌,
  select_where, map,
}
use be_weavecarbon.Jobs.Task.{Task, bare_task}
use be_weavecarbon.Jobs.Table.{NewJob, Rows, enqueue}

-- The columns of `reports` that the statement reads.
pub record Report : Type 0 where
  pub id : String
  pub company_id : Option String
  pub report_type : String
  pub target_market : Option String
  pub dataset_type : Option String
  pub file_format : Option String
  pub status : String
  pub storage_key : Option String
  pub audit_bundle_id : Option String
  pub export_document_id : Option String
  pub shipment_id : Option String
  pub document_type : Option String

-- `COALESCE(value, '') <> ''`
abbrev pub is_filled : Option String → Bool
is_filled none = false
is_filled (some s) = if str_eq s "" then false else true

-- `status = 'processing' AND COALESCE(r.storage_key, '') = ''`
abbrev pub is_unfinished : Report → Bool
is_unfinished r = str_eq r.status "processing" && (if is_filled r.storage_key then false else true)

-- The CASE of the statement.
unfoldable pub report_kind : Report → String
report_kind r =
    if is_filled r.audit_bundle_id
    then "audit_bundle"
    else if is_filled r.export_document_id
    then "shipment_export_document"
    else if str_eq r.report_type "dataset_export"
    then "dataset_export"
    else if str_eq r.report_type "compliance" && is_filled r.target_market
    then "market_compliance_report"
    else "manual_report"

unfoldable pub report_task : Report → Task
report_task r =
    let task = bare_task (report_kind r) in
    record task {
      report_id = some r.id;
      company_id = r.company_id;
      dataset_type = r.dataset_type;
      file_format = r.file_format;
      audit_bundle_id = r.audit_bundle_id;
      export_document_id = r.export_document_id;
      shipment_id = r.shipment_id;
      document_type = r.document_type;
    }

unfoldable pub report_job : ℕ → Report → NewJob
report_job max_attempts r = record {
  type = report_kind r;
  company_id = r.company_id;
  idempotency_key = "report:" ++ r.id;
  payload = report_task r;
  max_attempts = max_attempts;
  correlation_id = none;
}

-- The columns of `evidence_documents` that the statement reads.
pub record Evidence : Type 0 where
  pub id : String
  pub company_id : Option String
  pub status : String
  pub storage_provider : String
  pub storage_key : Option String

abbrev pub is_unprocessed : Evidence → Bool
is_unprocessed e =
    str_eq e.status "uploaded" && str_eq e.storage_provider "local" && is_filled e.storage_key

-- `jsonb_build_object('evidenceId', e.id, 'companyId', e.company_id)`
unfoldable pub evidence_task : Evidence → Task
evidence_task e =
    let task = bare_task "" in
    record task { type = none; evidence_id = some e.id; company_id = e.company_id }

unfoldable pub evidence_job : ℕ → Evidence → NewJob
evidence_job max_attempts e = record {
  type = "evidence_process";
  company_id = e.company_id;
  idempotency_key = "evidence:" ++ e.id;
  payload = evidence_task e;
  max_attempts = max_attempts;
  correlation_id = none;
}

abbrev added : Bool → ℕ → ℕ
added true n = n + 1
added false n = n

-- `INSERT ... SELECT ... ON CONFLICT (idempotency_key) DO NOTHING`, with the number of the rows
-- written. Each job stands with the identifier that `gen_random_uuid()` makes for it.
unfoldable pub insert_all : ℕ → List (ℕ × NewJob) → Rows → Rows × ℕ
insert_all now [] rows = (rows, 0)
insert_all now ((fresh, task) ∷ more) rows =
    let (rows', receipt) = enqueue now fresh task rows in
    let (last, n) = insert_all now more rows' in (last, added receipt.accepted n)

unfoldable pub backfill_reports : ℕ → (Report → ℕ) → ℕ → List Report → Rows → Rows × ℕ
unfolding insert_all
backfill_reports now fresh max_attempts reports =
    insert_all now
      (map (λ r. (fresh r, report_job max_attempts r)) (select_where is_unfinished reports))

unfoldable pub backfill_evidence : ℕ → (Evidence → ℕ) → ℕ → List Evidence → Rows → Rows × ℕ
unfolding insert_all
backfill_evidence now fresh max_attempts documents =
    insert_all now
      (map (λ e. (fresh e, evidence_job max_attempts e)) (select_where is_unprocessed documents))
