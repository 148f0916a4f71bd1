-- ===== src/Jobs/Task.antt =====
-- The tasks of the queue (src/modules/reports/jobQueue.js): what a producer hands to `enqueue` and
-- the worker finds again in a row's payload.
use Prim.Native.String.{◌++◌}
use be_weavecarbon.Common.{ℕ, String, Option, none, some, str_eq, if◌then◌else◌}

-- A task object; a property that it lacks is `none`. `type` is a text that is not empty, as the
-- code tests for a missing one and for '' alike.
pub record Task : Type 0 where
  pub type : Option String
  pub report_id : Option String
  pub evidence_id : Option String
  pub export_document_id : Option String
  pub shipment_id : Option String
  pub document_type : Option String
  pub audit_bundle_id : Option String
  pub company_id : Option String
  pub user_id : Option String
  pub dataset_type : Option String
  pub file_format : Option String
  pub rows : Option String
  pub save_mode : Option String
  pub idempotency_key : Option String
  pub max_attempts : Option ℕ
  pub correlation_id : Option String

-- A task with its type and nothing else.
abbrev pub bare_task : String → Task
bare_task type = record {
  type = some type;
  report_id = none;
  evidence_id = none;
  export_document_id = none;
  shipment_id = none;
  document_type = none;
  audit_bundle_id = none;
  company_id = none;
  user_id = none;
  dataset_type = none;
  file_format = none;
  rows = none;
  save_mode = none;
  idempotency_key = none;
  max_attempts = none;
  correlation_id = none;
}

-- A call that `_runTask` makes, by the method and its arguments; a property that the task lacks is
-- passed on as undefined.
pub data Call : Type 0 where
  generate_real_export : (report company dataset format : Option String) → Call
  simulate_compliance_report : (report company : Option String) → Call
  generate_document_file : (report document company : Option String) → Call
  generate_audit_bundle : (report bundle company : Option String) → Call
  process_stored_evidence : Task → Call
  bulk_import : (company user rows save_mode : Option String) → Call
  generate_real_report : (report company : Option String) → Call

abbrev pub dispatch : String → Task → Option Call
dispatch type task =
    if str_eq type "dataset_export"
    then some (generate_real_export report_id company_id dataset_type file_format)
    else if str_eq type "market_compliance_report"
    then some (simulate_compliance_report report_id company_id)
    else if str_eq type "shipment_export_document"
    then some (generate_document_file report_id export_document_id company_id)
    else if str_eq type "audit_bundle"
    then some (generate_audit_bundle report_id audit_bundle_id company_id)
    else if str_eq type "evidence_process"
    then some (process_stored_evidence task)
    else if str_eq type "products_bulk_import"
    then some (bulk_import company_id user_id rows save_mode)
    else if str_eq type "manual_report"
    then some (generate_real_report report_id company_id)
    else none
  where
    open task use {
      report_id, company_id, dataset_type, file_format, export_document_id, audit_bundle_id,
      user_id, rows, save_mode,
    }

-- `_runTask`: none is its `throw`, of an unsupported type or of none.
unfoldable pub run_task : Task → Option Call
run_task task = elim task.type [ none ↦ none | some type ↦ dispatch type task ]

-- `${value}`
abbrev pub shown : Option String → String
shown none = "undefined"
shown (some s) = s

-- `_taskKey`
unfoldable pub task_key : Task → String
task_key task =
    if str_eq (shown task.type) "evidence_process"
    then "evidence:" ++ shown task.evidence_id
    else "report:" ++ shown task.report_id
