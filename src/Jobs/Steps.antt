-- ===== src/Jobs/Steps.antt =====
-- The histories of the table: every statement of src/operations/jobRepository.js that changes it
-- is a step, at any time, with any arguments, in any order.
use be_weavecarbon.Common.{ℕ, String, Bool, Lacks}
use be_weavecarbon.Jobs.Table.{
  Job, NewJob, Rows, enqueue, recover_stale, prune_finished, claim_next, complete, fail,
}

-- The identifier of a new row is new to the table, as a random UUID is taken to be.
pub data Step (rows : Rows) : Rows → Type 0 where
  enqueued :
      (now fresh : ℕ) (task : NewJob)
      → Lacks (λ job. job.id) fresh rows
      → Step rows (enqueue now fresh task rows).0
  recovered : (now stale_after : ℕ) → Step rows (recover_stale now stale_after rows).0
  pruned : (now retention_days : ℕ) → Step rows (prune_finished now retention_days rows).0
  claimed :
      (now : ℕ) (skip : ℕ → Bool) (worker : String) → Step rows (claim_next now skip worker rows).0
  completed : (now i : ℕ) (outcome : String) → Step rows (complete now i outcome rows)
  failed :
      (now : ℕ) (job : Job) (message : String) (delay : ℕ)
      → Step rows (fail now job message delay rows).0

pub data Reach (rows : Rows) : Rows → Type 0 where
  here : Reach rows rows
  next : {mid last : Rows} → Reach rows mid → Step mid last → Reach rows last
