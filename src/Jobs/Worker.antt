-- ===== src/Jobs/Worker.antt =====
-- The worker of src/modules/reports/jobQueue.js: the producers' `enqueueWithReceipt`, the loop of
-- `_tick`, and `_execute`. The services that carry a task out are the parameter `run`.
use Prim.Native.String.{◌++◌}
use be_weavecarbon.Common.{
  ℕ, zero, suc, ◌+◌, ◌-◌, ◌*◌, ◌^◌, String, Bool, true, false, not, ◌&&◌, ◌||◌, Option, none, some,
  List, [], ◌∷◌, ltb, ◌==◌, str_eq, if◌then◌else◌, length, is_some,
}
use be_weavecarbon.Jobs.Task.{
  Task, Call, generate_document_file, generate_audit_bundle, bulk_import, run_task, shown, task_key,
}
use be_weavecarbon.Jobs.Table.{
  Status, dead, Job, NewJob, Rows, Receipt, enqueue, claim_next, complete, fail,
}

-- `task.maxAttempts || this.maxAttempts`: 0 counts as missing.
abbrev pub attempts_or : Option ℕ → ℕ → ℕ
attempts_or none d = d
attempts_or (some zero) d = d
attempts_or (some (suc n)) d = suc n

-- `a || b` on texts that are not empty
abbrev pub text_or : Option String → String → String
text_or none b = b
text_or (some a) b = a

abbrev pub either : Option String → Option String → Option String
either none b = b
either (some a) b = some a

abbrev pub rejected : Receipt
rejected = record { accepted = false; id = none; status = none }

-- A task is refused that has no type, or nothing to make a key of.
abbrev pub is_refused : Task → Bool
is_refused task =
    not (is_some task.type)
    || not (is_some task.idempotency_key)
      && (not (is_some task.report_id) && not (is_some task.evidence_id))

-- The argument that `enqueueWithReceipt` makes of a task; `context` is the request's correlation id.
abbrev pub job_of : ℕ → Option String → Task → NewJob
job_of max_attempts context task = record {
  type = text_or task.type "undefined";
  company_id = task.company_id;
  idempotency_key = text_or task.idempotency_key (task_key task);
  payload = task;
  max_attempts = attempts_or task.max_attempts max_attempts;
  correlation_id = either task.correlation_id context;
}

unfoldable pub enqueue_with_receipt : ℕ → ℕ → ℕ → Option String → Task → Rows → Rows × Receipt
enqueue_with_receipt now fresh max_attempts context task rows =
    if is_refused task
    then (rows, rejected)
    else enqueue now fresh (job_of max_attempts context task) rows

-- `accepting` and the identifiers of the jobs in `active`.
pub record Worker : Type 0 where
  pub accepting : Bool
  pub active : List ℕ

-- `this.accepting && this.active.size < this.concurrency`
unfoldable pub has_room : ℕ → Worker → Bool
has_room concurrency w = w.accepting && ltb (length w.active) concurrency

-- `this.active.add(execution)`
abbrev pub with_job : Worker → Job → Worker
with_job w job = record w { active = job.id ∷ w.active }

-- The loop of `_tick`, where no execution ends meanwhile; the fuel bounds its rounds.
module _ (now : ℕ) (skip : ℕ → Bool) (name : String) (concurrency : ℕ) where
  unfoldable pub tick : ℕ → Worker → Rows → Worker × Rows
  tick zero w rows = (w, rows)
  tick (suc fuel) w rows =
      let next : Worker × Rows = elim (claim_next now skip name rows).1 [
        | none ↦ (w, rows)
        | some job ↦ tick fuel (with_job w job) (claim_next now skip name rows).0
      ] in
      if has_room concurrency w then next else (w, rows)

abbrev pub remove_one : ℕ → List ℕ → List ℕ
remove_one i [] = []
remove_one i (j ∷ rest) = let shorter = remove_one i rest in if j == i then rest else j ∷ shorter

-- `this.active.delete(execution)`: one execution, though another of the same job may be active.
unfoldable pub settle : ℕ → Worker → Worker
settle i w = record w { active = remove_one i w.active }

-- `stop`, up to the wait for the active executions.
unfoldable pub stop : Worker → Worker
stop w = record w { accepting = false }

-- A worker with its loops of `_tick` under way: those about to test for room, and those that await
-- `claimNext`. `tickPromise` is set while there is one.
pub record Dispatcher : Type 0 where
  pub worker : Worker
  pub testing : ℕ
  pub claiming : ℕ

-- `_scheduleTick`
unfoldable pub schedule_tick : Dispatcher → Dispatcher
schedule_tick d =
    if not d.worker.accepting || not (d.testing + d.claiming == 0)
    then d
    else record d { testing = suc d.testing }

-- The test of the loop: it goes on to await a job, or ends.
abbrev pub test_from : ℕ → Dispatcher → ℕ → Dispatcher
test_from concurrency d zero = d
test_from concurrency d (suc n) =
    if has_room concurrency d.worker
    then record d { testing = n; claiming = suc d.claiming }
    else record d { testing = n }

unfoldable pub test_room : ℕ → Dispatcher → Dispatcher
test_room concurrency d = test_from concurrency d d.testing

-- What the loop does with the job that it awaited: it starts the execution and tests again, or ends.
abbrev pub take_claim : Dispatcher → ℕ → Option Job → Dispatcher
take_claim d n none = record d { claiming = n }
take_claim d n (some job) = record d {
  worker = with_job d.worker job;
  testing = suc d.testing;
  claiming = n;
}

abbrev pub claim_from : ℕ → (ℕ → Bool) → String → Dispatcher → Rows → ℕ → Dispatcher × Rows
claim_from now skip name d rows zero = (d, rows)
claim_from now skip name d rows (suc n) =
    (take_claim d n (claim_next now skip name rows).1, (claim_next now skip name rows).0)

-- `claimNext` of a loop that awaits it.
unfoldable pub claim_job : ℕ → (ℕ → Bool) → String → Dispatcher → Rows → Dispatcher × Rows
claim_job now skip name d rows = claim_from now skip name d rows d.claiming

abbrev pub fail_from : Dispatcher → ℕ → Dispatcher
fail_from d zero = d
fail_from d (suc n) = record d { claiming = n }

-- `claimNext` that rejects ends the loop.
unfoldable pub fail_claim : Dispatcher → Dispatcher
fail_claim d = fail_from d d.claiming

-- The end of an execution, which schedules a tick.
unfoldable pub end_execution : ℕ → Dispatcher → Dispatcher
end_execution i d = schedule_tick (record d { worker = settle i d.worker })

abbrev pub accept : Worker → Worker
accept w = record w { accepting = true }

-- The end of `initialize`.
unfoldable pub start : Dispatcher → Dispatcher
start d = schedule_tick (record d { worker = accept d.worker })

-- What the service that carries a task out does.
pub data Run : Type 0 where
  returned : String → Run
  threw : String → Run

-- The kinds whose result `_runTask` returns; it awaits the others and returns nothing.
abbrev pub returns_result : Call → Bool
returns_result (generate_document_file report document company) = true
returns_result (generate_audit_bundle report bundle company) = true
returns_result (bulk_import company user rows save_mode) = true
returns_result _ = false

abbrev pub stored_result : Bool → Run → Run
stored_result keeps (returned result) = returned (if keeps then result else "null")
stored_result keeps (threw message) = threw message

-- `_runTask` on a task, with the service's answer; nothing is stored as null.
abbrev pub run_call : (Call → Run) → Task → Option Call → Run
run_call run task none = threw ("Unsupported operational job type: " ++ shown task.type)
run_call run task (some call) = stored_result (returns_result call) (run call)

-- `retryBaseMs * 2 ** max(0, attempts - 1)`
abbrev pub retry_delay : ℕ → ℕ → ℕ
retry_delay base attempts = base * 2 ^ (attempts - 1)

abbrev pub is_dead : Status → Bool
is_dead dead = true
is_dead _ = false

abbrev pub is_document : Option String → Bool
is_document none = false
is_document (some type) = str_eq type "shipment_export_document"

-- `_execute`, with whether it calls `markDocumentFailed`. `clip` is `slice(0, 2000)` of a message.
unfoldable pub execute : ℕ → ℕ → (String → String) → (Call → Run) → Job → Rows → Rows × Bool
execute now base clip run job rows = elim (run_call run job.payload (run_task job.payload)) [
  | returned result ↦ (complete now job.id result rows, false)
  | threw message ↦
      let failed = fail now job (clip message) (retry_delay base job.attempts) rows in
      (failed.0, is_dead failed.1 && is_document job.payload.type)
]
