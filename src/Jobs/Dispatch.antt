-- ===== src/Jobs/Dispatch.antt =====
-- From a task to its service (src/modules/reports/jobQueue.js), for the tasks that the producers
-- and the backfills (src/operations/jobRepository.js) put into the queue.
use mathlib.Core.List.{Memᴰ}
use mathlib.Core.Option
use be_weavecarbon.Common.{
  ℕ, String, Bool, true, false, ◌&&◌, ◌≡◌, refl, sym, ap, ◌∙◌, subst, Option, none, some, arith,
  str_eq, mem-update_where_hit, if_intro,
}
use be_weavecarbon.Jobs.Task.{
  Call, generate_real_export, simulate_compliance_report, process_stored_evidence, bulk_import,
  generate_document_file, generate_audit_bundle, generate_real_report, dispatch, run_task,
}
use be_weavecarbon.Jobs.Table.{
  completed, is_running, Job, Rows, is_running_id, finish, complete, put_back, next_status, fail,
}
use be_weavecarbon.Jobs.Backfill.{
  Report, report_kind, report_task, Evidence, evidence_task, is_filled,
}
use be_weavecarbon.Jobs.Worker.{
  Run, returned, threw, retry_delay, returns_result, stored_result, run_call, is_dead, execute,
}

-- The report that a call is about.
abbrev pub subject : Call → Option String
subject (generate_real_export report company dataset format) = report
subject (simulate_compliance_report report company) = report
subject (generate_document_file report document company) = report
subject (generate_audit_bundle report bundle company) = report
subject (generate_real_report report company) = report
subject _ = none

-- Whatever the columns of a report, the task that the backfill makes of it has a service, and the
-- call is about that report.
pub run_task-report_task :
    (r : Report) → Option.map subject (run_task (report_task r)) ≡ some (some r.id)
unfolding run_task report_task report_kind
run_task-report_task r =
    if_intro P (is_filled r.audit_bundle_id) (λ _. refl)
      (λ _.
        if_intro P (is_filled r.export_document_id) (λ _. refl)
          (λ _.
            if_intro P (str_eq r.report_type "dataset_export") (λ _. refl)
              (λ _.
                if_intro P (str_eq r.report_type "compliance" && is_filled r.target_market)
                  (λ _. refl) (λ _. refl))))
  where
    P : String → Type 0
    P kind = Option.map subject (dispatch kind (report_task r)) ≡ some (some r.id)

and_false : (b : Bool) → (b && false) ≡ false
and_false true = refl
and_false false = refl

-- The task that the backfill makes of an evidence document has no type, so that no service ever
-- runs it: at every attempt its job fails, whatever the services do.
pub execute-evidence_task :
    (now base : ℕ) (clip : String → String) (run : Call → Run) (job : Job) (rows : Rows)
    (e : Evidence)
    → job.payload ≡ evidence_task e
    → execute now base clip run job rows ≡ (
      (fail now job
          (clip "Unsupported operational job type: undefined")
          (retry_delay base job.attempts)
          rows).0,
      false,
    )
unfolding execute evidence_task run_task
execute-evidence_task now base clip run job rows e p =
    subst
      (λ (j : Job). execute now base clip run j rows ≡ (
        (fail now j (clip "Unsupported operational job type: undefined")
            (retry_delay base j.attempts) rows).0,
        false,
      ))
      (λ i. record job { payload = sym p i })
      (λ i. (
        (fail now job' (clip "Unsupported operational job type: undefined")
            (retry_delay base job.attempts) rows).0,
        and_false
            (is_dead
              (fail now job' (clip "Unsupported operational job type: undefined")
                (retry_delay base job.attempts) rows).1)
            i,
      ))
  where
    job' : Job
    job' = record job { payload = evidence_task e }

-- What an execution leaves of the job that it ran, by the outcome of `_runTask`.
record IsEnded (outcome : Run) (job : Job) (last : Rows) : Type 0 where
  pub row : Job
  pub listed : Memᴰ row last
  pub same : row.id ≡ job.id
  pub unlocked : (row.locked_at ≡ none) × (row.locked_by ≡ none)
  pub result :
      (result : String)
      → outcome ≡ returned result
      → (row.status ≡ completed) × (row.result ≡ some result)
  pub status : (message : String) → outcome ≡ threw message → row.status ≡ next_status job

module _ (now base : ℕ) (clip : String → String) (run : Call → Run) (job : Job) (rows : Rows)
    (listed : Memᴰ job rows) (running : is_running job.status ≡ true) where
  complete-IsEnded :
      (result : String) → IsEnded (returned result) job (complete now job.id result rows)
  unfolding complete
  complete-IsEnded result = record {
    row = finish now result job;
    listed =
        mem-update_where_hit (is_running_id job.id) (finish now result) rows (ground arith) listed;
    same = refl;
    unlocked = (refl, refl);
    result = λ other e. (refl, ground arith);
    status = λ message e. absurd (cc);
  }

  fail-IsEnded :
      (message note : String) (delay : ℕ)
      → IsEnded (threw message) job (fail now job note delay rows).0
  unfolding fail
  fail-IsEnded message note delay = record {
    row = put_back now (next_status job) note delay job;
    listed =
        mem-update_where_hit (is_running_id job.id) (put_back now (next_status job) note delay) rows
          (ground arith) listed;
    same = refl;
    unlocked = (refl, refl);
    result = λ result e. absurd (cc);
    status = λ other e. refl;
  }

  execute-IsEnded :
      IsEnded
        (run_call run job.payload (run_task job.payload))
        job
        (execute now base clip run job rows).0
  unfolding execute
  execute-IsEnded = go (run_call run job.payload (run_task job.payload)) refl
    where
      go :
          (outcome : Run)
          → run_call run job.payload (run_task job.payload) ≡ outcome
          → IsEnded
              (run_call run job.payload (run_task job.payload))
              job
              (execute now base clip run job rows).0
      go (returned result) e = rw (e, execute) (complete-IsEnded result)
      go (threw message) e =
          rw (e, execute) (fail-IsEnded message (clip message) (retry_delay base job.attempts))

-- What is stored of a service's result: it, for export documents, audit bundles and imports of
-- products; null for the other kinds.
abbrev pub kept : Call → String → String
kept (generate_document_file report document company) result = result
kept (generate_audit_bundle report bundle company) result = result
kept (bulk_import company user rows save_mode) result = result
kept _ result = "null"

kept-stored_result :
    (call : Call) (result : String)
    → stored_result (returns_result call) (returned result) ≡ returned (kept call result)
kept-stored_result (generate_real_export report company dataset format) result = refl
kept-stored_result (simulate_compliance_report report company) result = refl
kept-stored_result (generate_document_file report document company) result = refl
kept-stored_result (generate_audit_bundle report bundle company) result = refl
kept-stored_result (process_stored_evidence task) result = refl
kept-stored_result (bulk_import company user rows save_mode) result = refl
kept-stored_result (generate_real_report report company) result = refl

-- A row that no longer runs and that nobody has locked: completed with what is stored of the result
-- if the service returned, put back or dead by its attempts if the service threw or there is none.
pub record IsExecuted (run : Call → Run) (job : Job) (last : Rows) : Type 0 where
  pub row : Job
  pub listed : Memᴰ row last
  pub same : row.id ≡ job.id
  pub unlocked : (row.locked_at ≡ none) × (row.locked_by ≡ none)
  pub completes :
      (call : Call) (result : String)
      → run_task job.payload ≡ some call
      → run call ≡ returned result
      → (row.status ≡ completed) × (row.result ≡ some (kept call result))
  pub fails :
      (call : Call) (message : String)
      → run_task job.payload ≡ some call
      → run call ≡ threw message
      → row.status ≡ next_status job
  pub unsupported : run_task job.payload ≡ none → row.status ≡ next_status job

-- An execution of a running job of the table leaves its row unlocked: completed, with the result of
-- the service for export documents, audit bundles and imports of products and with null for the other
-- kinds, where the service returned; put back, or dead by its attempts, where the service threw or
-- the task has none.
pub execute-IsExecuted :
    (now base : ℕ) (clip : String → String) (run : Call → Run) (job : Job) (rows : Rows)
    → Memᴰ job rows
    → is_running job.status ≡ true
    → IsExecuted run job (execute now base clip run job rows).0
execute-IsExecuted now base clip run job rows listed running =
    let h = execute-IsEnded now base clip run job rows listed running in
    record {
      row = h.row;
      listed = h.listed;
      same = h.same;
      unlocked = h.unlocked;
      completes = λ call result e f. h.result (kept call result) (
          ap (run_call run job.payload) e
          ∙ (ap (stored_result (returns_result call)) f ∙ kept-stored_result call result));
      fails = λ call message e f.
          h.status message
            (ap (run_call run job.payload) e ∙ ap (stored_result (returns_result call)) f);
      unsupported = λ e. h.status _ (ap (run_call run job.payload) e);
    }
