-- ===== src/Jobs/Tests.antt =====
-- Runs of the job queue on small tables.
use mathlib.Core.List.{Memᴰ}
use be_weavecarbon.Common.{
  ℕ, ◌+◌, ◌≤◌, ◌≡◌, refl, ◌⊎◌, String, Bool, true, false, none, some, [], ◌∷◌, arith, All, length,
}
use be_weavecarbon.Jobs.Task.{Task, bare_task, Call, run_task}
use be_weavecarbon.Jobs.Table.{
  completed, Job, NewJob, Rows, new_row, enqueue, recover_stale, is_claimable, claim, claim_next,
  fail,
}
use be_weavecarbon.Jobs.Claim.{IsClaim, claim_next-IsClaim, claim_next-exclusive}
use be_weavecarbon.Jobs.Drain.{claims, claims-taken}
use be_weavecarbon.Jobs.Steps.{Step, Reach}
use be_weavecarbon.Jobs.Invariant.{IsSound, Reach-IsSound}
use be_weavecarbon.Jobs.Finished.{IsPruned, Step-keeps_finished, IsFailed, fail-IsFailed}
use be_weavecarbon.Jobs.Attempts.{IsBudgeted, Steady, SteadyRun, SteadyRun-IsBudgeted}
use be_weavecarbon.Jobs.Backfill.{Report, Evidence, evidence_task}
use be_weavecarbon.Jobs.Worker.{
  Worker, with_job, tick, Run, returned, has_room, run_call, execute, Dispatcher, schedule_tick,
  test_room, claim_job,
}
use be_weavecarbon.Jobs.Ticks.{Event, Events, Events-bounded, Ended, tick-Ended}
use be_weavecarbon.Jobs.Dispatch.{IsExecuted, execute-IsExecuted}

abbrev new_job : NewJob
new_job = record {
  type = "manual_report";
  company_id = none;
  idempotency_key = "report:1";
  payload = bare_task "manual_report";
  max_attempts = 3;
  correlation_id = none;
}

abbrev waiting : Job
waiting = new_row 10 1 new_job

abbrev nobody : ℕ → Bool
nobody _ = false

abbrev taken : Job
taken = claim 20 "w1" waiting

abbrev over : Job
over = record taken {
  status = completed;
  completed_at = some 30;
  result = some "null";
  locked_at = none;
  locked_by = none;
}

abbrev queue : Rows
queue = waiting ∷ []

empty-IsSound : IsSound []
empty-IsSound = record { consistent = tt; ids = tt; keys = tt }

claims_the_job : claim_next 20 nobody "w1" queue ≡ (taken ∷ [], some taken)
unfolding claim_next
claims_the_job = refl

Reach-IsSound_example : IsSound (claim_next 20 nobody "w1" (enqueue 10 1 new_job []).0).0
Reach-IsSound_example = Reach-IsSound empty-IsSound (
    Reach.next (Reach.next Reach.here (Step.enqueued 10 1 new_job tt))
      (Step.claimed 20 nobody "w1"))

claim_next-IsClaim_example : IsClaim 20 nobody "w1" queue (taken ∷ []) taken
claim_next-IsClaim_example =
    claim_next-IsClaim 20 nobody "w1" queue (taken ∷ []) taken claims_the_job

claim_next-exclusive_example :
    All (λ row. row.id ≡ taken.id → is_claimable 99 nobody row ≡ false) (taken ∷ [])
claim_next-exclusive_example =
    claim_next-exclusive 20 nobody "w1" queue (taken ∷ []) taken claims_the_job 99 nobody

over-IsSound : IsSound (over ∷ [])
over-IsSound = record { consistent = (ground arith, tt); ids = (tt, tt); keys = (tt, tt) }

Step-keeps_finished_example :
    Memᴰ over (recover_stale 99 1 (over ∷ [])).0
    ⊎ IsPruned over (over ∷ []) (recover_stale 99 1 (over ∷ [])).0
Step-keeps_finished_example =
    Step-keeps_finished over over-IsSound (Step.recovered 99 1) refl (Memᴰ.head refl)

fail-IsFailed_example : IsFailed 30 5000 taken (fail 30 taken "boom" 5000 (taken ∷ []))
fail-IsFailed_example = fail-IsFailed 30 taken "boom" 5000 (taken ∷ []) (Memᴰ.head refl) refl

SteadyRun-IsBudgeted_example :
    All IsBudgeted (claim_next 20 nobody "w1" (enqueue 10 1 new_job []).0).0
SteadyRun-IsBudgeted_example = SteadyRun-IsBudgeted empty-IsSound tt (
    SteadyRun.next (SteadyRun.next SteadyRun.here (Steady.enqueued 10 1 new_job tt (omega arith)))
      (Steady.claimed 20 nobody "w1"))

abbrev worn : Job
worn = record taken { attempts = 3 }

abbrev retaken : Job
retaken = record taken { attempts = 2; locked_by = some "w2" }

abbrev idle : Worker
idle = record { accepting = true; active = [] }

abbrev busy : Dispatcher
busy = record { worker = with_job idle taken; testing = 1; claiming = 0 }

runs_one : Events 1 (record { worker = idle; testing = 0; claiming = 0 }) queue busy (taken ∷ [])
unfolding schedule_tick test_room claim_job has_room claim_next
runs_one =
    Events.next (Events.next (Events.next Events.here Event.schedules) Event.tests)
      (Event.claims 20 nobody "w1")

Events-bounded_example : (length busy.worker.active ≤ 1) × (busy.testing + busy.claiming ≤ 1)
Events-bounded_example =
    Events-bounded {concurrency = 1} {w = idle} {rows = queue} {d = busy} {rows' = taken ∷ []}
      (omega arith) runs_one

tick-Ended_example : Ended 20 nobody "w1" 2 (tick 20 nobody "w1" 2 3 idle queue)
tick-Ended_example = tick-Ended 20 nobody "w1" 2 3 idle queue (omega arith)

abbrev named_task : Task
named_task = let task = bare_task "manual_report" in record task { report_id = some "1" }

abbrev export_report : Report
export_report = record {
  id = "7";
  company_id = none;
  report_type = "dataset_export";
  target_market = none;
  dataset_type = some "products";
  file_format = some "csv";
  status = "processing";
  storage_key = none;
  audit_bundle_id = none;
  export_document_id = none;
  shipment_id = none;
  document_type = none;
}

abbrev invoice : Evidence
invoice = record {
  id = "9";
  company_id = none;
  status = "uploaded";
  storage_provider = "local";
  storage_key = some "k";
}

abbrev invoice_job : Job
invoice_job = record taken { payload = evidence_task invoice }

abbrev answers : Call → Run
answers _ = returned "null"

abbrev clip : String → String
clip s = s

execute-IsExecuted_example :
    IsExecuted answers taken (execute 30 5000 clip answers taken (taken ∷ [])).0
execute-IsExecuted_example =
    execute-IsExecuted 30 5000 clip answers taken (taken ∷ []) (Memᴰ.head refl) refl

-- The result of a report is not stored.
drops_result :
    run_call (λ _. returned "1") (bare_task "manual_report") (run_task (bare_task "manual_report"))
    ≡ returned "null"
unfolding run_task
drops_result = refl

abbrev later_job : Job
later_job = record waiting { id = 2; available_at = 15 }

claims-taken_example :
    Memᴰ (claim 20 "w1" later_job) (claims 20 nobody "w1" 2 (waiting ∷ later_job ∷ []))
claims-taken_example =
    claims-taken 20 nobody "w1" 2 (waiting ∷ later_job ∷ []) later_job
      ((((λ e. absurd (omega (arith, e))), tt), (tt, tt))) (Memᴰ.tail (Memᴰ.head refl)) refl
      (omega arith)
