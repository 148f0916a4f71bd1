-- ===== src/Jobs/Finished.antt =====
-- How a job ends (src/operations/jobRepository.js): retry with a delay, death when the attempts
-- are used up, and the rest of finished rows.
use mathlib.Core.List.{Memᴰ}
use be_weavecarbon.Common.{
  ℕ, ◌+◌, ◌≤◌, ◌<◌, String, Bool, true, ◌≡◌, refl, ap, ◌↔◌, ◌⊎◌, none, inl, inr, Option-cases,
  Bool-cases, arith, All-mem, IsUnique-mem, mem-update_where_miss, mem-update_where_hit,
  mem-delete_where_miss, ==_iff, select_one,
}
use be_weavecarbon.Jobs.Table.{
  Status, dead, is_running, is_finished, Job, NewJob, Rows, has_key, enqueue, is_stale, release,
  recover_stale, is_expired, prune_finished, is_claimable, next_job, has_id, claim, claim_next,
  is_running_id, finish, complete, next_status, put_back, fail,
}
use be_weavecarbon.Jobs.Claim.{next_job-IsFirst}
use be_weavecarbon.Jobs.Steps.{Step}
use be_weavecarbon.Jobs.Invariant.{IsSound, job_id}

-- The statement was a `pruneFinished` whose retention the row has outlived.
pub record IsPruned (job : Job) (rows last : Rows) : Type 0 where
  pub now : ℕ
  pub retention_days : ℕ
  pub pruned : last ≡ (prune_finished now retention_days rows).0
  pub expired : is_expired now retention_days job ≡ true

claim_next-keeps :
    (now : ℕ) (skip : ℕ → Bool) (worker : String) (rows : Rows) (job : Job)
    → IsSound rows
    → Memᴰ job rows
    → is_finished job.status ≡ true
    → Memᴰ job (claim_next now skip worker rows).0
unfolding claim_next
claim_next-keeps now skip worker rows job h m f = elim (Option-cases (next_job now skip rows)) [
  | inl n ↦ rw (n, claim_next) m
  | inr (first, n) ↦
      rw (n, claim_next)
        (elim (Bool-cases (has_id first.id job)) [
          | inr t ↦ mem-update_where_miss (has_id first.id) (claim now worker) rows t m
          | inl t ↦
              let found = next_job-IsFirst now skip rows first n in
              let same : job ≡ first =
                All-mem _ rows m (IsUnique-mem job_id rows h.ids found.listed)
                  ((==_iff job.id first.id).0 t) in
              absurd (ground (arith, found.claimable, ap (λ (x : Job). x.status) same))
        ])
]

enqueue-keeps :
    (now fresh : ℕ) (task : NewJob) (rows : Rows) (job : Job)
    → Memᴰ job rows
    → Memᴰ job (enqueue now fresh task rows).0
unfolding enqueue
enqueue-keeps now fresh task rows job m =
    elim (Option-cases (select_one (has_key task.idempotency_key) rows)) [
      | inl e ↦ rw (e, enqueue) (Memᴰ.tail m)
      | inr (old, e) ↦ rw (e, enqueue) m
    ]

-- A completed or dead job stays in the table, unchanged, through every statement, unless the
-- statement is a prune with a retention that the job has outlived at that time.
pub Step-keeps_finished :
    {rows last : Rows} (job : Job)
    → IsSound rows
    → Step rows last
    → is_finished job.status ≡ true
    → Memᴰ job rows
    → Memᴰ job last ⊎ IsPruned job rows last
unfolding recover_stale prune_finished complete fail
Step-keeps_finished {rows} job h (Step.enqueued now fresh task new) f m =
    inl (enqueue-keeps now fresh task rows job m)
Step-keeps_finished {rows} job h (Step.recovered now stale_after) f m =
    inl (mem-update_where_miss (is_stale now stale_after) (release now) rows (ground arith) m)
Step-keeps_finished {rows} job h (Step.pruned now retention_days) f m =
    elim (Bool-cases (is_expired now retention_days job)) [
      | inl t ↦
          inr (record { now = now; retention_days = retention_days; pruned = refl; expired = t })
      | inr t ↦ inl (mem-delete_where_miss (is_expired now retention_days) rows t m)
    ]
Step-keeps_finished {rows} job h (Step.claimed now skip worker) f m =
    inl (claim_next-keeps now skip worker rows job h m f)
Step-keeps_finished {rows} job h (Step.completed now i outcome) f m =
    inl (mem-update_where_miss (is_running_id i) (finish now outcome) rows (ground arith) m)
Step-keeps_finished {rows} job h (Step.failed now failed message delay) f m = inl (
    mem-update_where_miss (is_running_id failed.id)
      (put_back now (next_status failed) message delay) rows (ground arith) m)

-- A claimed job that fails is put back with a delay while attempts are left, and is dead once they
-- are used up; what `fail` returns is the status that it writes. Put back, it cannot be claimed
-- before the delay is over; dead, it can never be.
pub record IsFailed (now delay : ℕ) (job : Job) (last : Rows × Status) : Type 0 where
  pub returned : (last.1 ≡ dead) ↔ (job.max_attempts ≤ job.attempts)
  pub row : Job
  pub listed : Memᴰ row last.0
  pub same : (row.id ≡ job.id) × (row.attempts ≡ job.attempts) × (row.locked_by ≡ none)
  pub written : row.status ≡ last.1
  pub waits :
      (later : ℕ) (skip : ℕ → Bool)
      → is_claimable later skip row ≡ true
      → (job.attempts < job.max_attempts) × (now + delay ≤ later)

pub fail-IsFailed :
    (now : ℕ) (job : Job) (message : String) (delay : ℕ) (rows : Rows)
    → Memᴰ job rows
    → is_running job.status ≡ true
    → IsFailed now delay job (fail now job message delay rows)
unfolding fail
fail-IsFailed now job message delay rows m t = record {
  returned = ground arith;
  row = put_back now (next_status job) message delay job;
  listed =
      mem-update_where_hit (is_running_id job.id) (put_back now (next_status job) message delay)
        rows (ground arith) m;
  same = (refl, refl, refl);
  written = refl;
  waits = λ later skip c. ground arith;
}
