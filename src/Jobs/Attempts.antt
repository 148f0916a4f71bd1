-- ===== src/Jobs/Attempts.antt =====
-- The bound on attempts (src/operations/jobRepository.js): what keeps it, and what does not.
use mathlib.Core.List.{Memᴰ}
use be_weavecarbon.Common.{
  ℕ, ◌+◌, ◌≤◌, ◌<◌, String, Bool, true, false, ◌≡◌, refl, ap, inl, inr, Option-cases, arith, All,
  All-zip, All-update_where, All-update_where_to, IsUnique-mem, All-delete_where,
  mem-update_where_hit, ==_iff, select_one, Lacks,
}
use be_weavecarbon.Jobs.Table.{
  is_running, is_queued, Job, NewJob, Rows, has_key, enqueue, is_stale, release, recover_stale,
  is_expired, prune_finished, is_claimable, next_job, has_id, claim, claim_next, is_running_id,
  finish, complete, next_status, put_back, fail,
}
use be_weavecarbon.Jobs.Claim.{next_job-IsFirst}
use be_weavecarbon.Jobs.Steps.{Step}
use be_weavecarbon.Jobs.Invariant.{IsSound, job_id, Step-IsSound}

-- No more attempts than allowed, and one left while the job waits.
pub record IsBudgeted (job : Job) : Type 0 where
  pub bounded : job.attempts ≤ job.max_attempts
  pub left : is_queued job.status ≡ true → job.attempts < job.max_attempts

-- The steps of workers that do not lose a job: no stale recovery, a job that fails is the row that
-- was claimed, and a new job allows an attempt, as the table's CHECK (max_attempts > 0) wants.
pub data Steady (rows : Rows) : Rows → Type 0 where
  enqueued :
      (now fresh : ℕ) (task : NewJob)
      → Lacks (λ job. job.id) fresh rows
      → 0 < task.max_attempts
      → Steady rows (enqueue now fresh task rows).0
  pruned : (now retention_days : ℕ) → Steady rows (prune_finished now retention_days rows).0
  claimed :
      (now : ℕ) (skip : ℕ → Bool) (worker : String)
      → Steady rows (claim_next now skip worker rows).0
  completed : (now i : ℕ) (outcome : String) → Steady rows (complete now i outcome rows)
  failed :
      (now : ℕ) (job : Job) (message : String) (delay : ℕ)
      → Memᴰ job rows
      → Steady rows (fail now job message delay rows).0

pub data SteadyRun (rows : Rows) : Rows → Type 0 where
  here : SteadyRun rows rows
  next : {mid last : Rows} → SteadyRun rows mid → Steady mid last → SteadyRun rows last

Steady-Step : {rows last : Rows} → Steady rows last → Step rows last
Steady-Step (Steady.enqueued now fresh task new allowed) = Step.enqueued now fresh task new
Steady-Step (Steady.pruned now retention_days) = Step.pruned now retention_days
Steady-Step (Steady.claimed now skip worker) = Step.claimed now skip worker
Steady-Step (Steady.completed now i outcome) = Step.completed now i outcome
Steady-Step (Steady.failed now job message delay m) = Step.failed now job message delay

enqueue-IsBudgeted :
    (now fresh : ℕ) (task : NewJob) (rows : Rows)
    → 0 < task.max_attempts
    → All IsBudgeted rows
    → All IsBudgeted (enqueue now fresh task rows).0
unfolding enqueue
enqueue-IsBudgeted now fresh task rows allowed h =
    elim (Option-cases (select_one (has_key task.idempotency_key) rows)) [
      | inl e ↦ rw (e, enqueue) (ground arith, h)
      | inr (old, e) ↦ rw (e, enqueue) h
    ]

claim-IsBudgeted :
    (now : ℕ) (skip : ℕ → Bool) (worker : String) (row job : Job)
    → is_claimable now skip job ≡ true
    → IsBudgeted row
    → row ≡ job
    → IsBudgeted (claim now worker row)
claim-IsBudgeted now skip worker row job t c e = ground (arith, ap (λ (x : Job). x.status) e)

claim_next-IsBudgeted :
    (now : ℕ) (skip : ℕ → Bool) (worker : String) (rows : Rows)
    → IsSound rows
    → All IsBudgeted rows
    → All IsBudgeted (claim_next now skip worker rows).0
unfolding claim_next
claim_next-IsBudgeted now skip worker rows h b = elim (Option-cases (next_job now skip rows)) [
  | inl e ↦ rw (e, claim_next) b
  | inr (job, e) ↦
      let first = next_job-IsFirst now skip rows job e in
      rw (e, claim_next)
        (All-update_where_to (λ row. IsBudgeted row × (row.id ≡ job.id → row ≡ job)) IsBudgeted
          (has_id job.id) (claim now worker) rows
          (λ row t (c, only).
            claim-IsBudgeted now skip worker row job first.claimable c
              (only ((==_iff row.id job.id).0 t)))
          (λ row t (c, only). c) (All-zip _ _ rows b (IsUnique-mem job_id rows h.ids first.listed)))
]

put_back-IsBudgeted :
    (now : ℕ) (message : String) (delay : ℕ) (row job : Job)
    → row ≡ job
    → IsBudgeted row
    → IsBudgeted (put_back now (next_status job) message delay row)
put_back-IsBudgeted now message delay row job e c =
    ground (arith, ap (λ (x : Job). x.attempts) e, ap (λ (x : Job). x.max_attempts) e)

fail-IsBudgeted :
    (now : ℕ) (job : Job) (message : String) (delay : ℕ) (rows : Rows)
    → Memᴰ job rows
    → IsSound rows
    → All IsBudgeted rows
    → All IsBudgeted (fail now job message delay rows).0
unfolding fail
fail-IsBudgeted now job message delay rows m h b =
    All-update_where_to (λ row. IsBudgeted row × (row.id ≡ job.id → row ≡ job)) IsBudgeted
      (is_running_id job.id) (put_back now (next_status job) message delay) rows
      (λ row t (c, only). put_back-IsBudgeted now message delay row job (only (ground arith)) c)
      (λ row t (c, only). c) (All-zip _ _ rows b (IsUnique-mem job_id rows h.ids m))

Steady-IsBudgeted :
    {rows last : Rows} → IsSound rows → All IsBudgeted rows → Steady rows last → All IsBudgeted last
unfolding complete prune_finished
Steady-IsBudgeted {rows} h b (Steady.enqueued now fresh task new allowed) =
    enqueue-IsBudgeted now fresh task rows allowed b
Steady-IsBudgeted {rows} h b (Steady.pruned now retention_days) =
    All-delete_where IsBudgeted (is_expired now retention_days) rows b
Steady-IsBudgeted {rows} h b (Steady.claimed now skip worker) =
    claim_next-IsBudgeted now skip worker rows h b
Steady-IsBudgeted {rows} h b (Steady.completed now i outcome) =
    All-update_where IsBudgeted (is_running_id i) (finish now outcome) rows
      (λ row t c. ground arith) b
Steady-IsBudgeted {rows} h b (Steady.failed now job message delay m) =
    fail-IsBudgeted now job message delay rows m h b

SteadyRun-both :
    {rows last : Rows}
    → IsSound rows
    → All IsBudgeted rows
    → SteadyRun rows last
    → IsSound last × All IsBudgeted last
SteadyRun-both h b SteadyRun.here = (h, b)
SteadyRun-both h b (SteadyRun.next r s) =
    let (h', b') = SteadyRun-both h b r in
    (Step-IsSound h' (Steady-Step s), Steady-IsBudgeted h' b' s)

-- While no stale job is recovered, no job of the table is ever tried more often than its
-- `max_attempts`.
pub SteadyRun-IsBudgeted :
    {rows last : Rows}
    → IsSound rows
    → All IsBudgeted rows
    → SteadyRun rows last
    → All IsBudgeted last
SteadyRun-IsBudgeted h b r = (SteadyRun-both h b r).1

-- The recovery of a stale job asks nothing of its attempts: whatever they are, the job is claimable
-- at once, and the claim adds one more.
pub recover_stale-ignores_budget :
    (now stale_after : ℕ) (worker : String) (rows : Rows) (job : Job)
    → Memᴰ job rows
    → is_stale now stale_after job ≡ true
    → (row : Job) × Memᴰ row (recover_stale now stale_after rows).0
      × (is_claimable now (λ _. false) row ≡ true)
      × (row.attempts ≡ job.attempts)
      × ((claim now worker row).attempts ≡ job.attempts + 1)
unfolding recover_stale
recover_stale-ignores_budget now stale_after worker rows job m t = (
  release now job,
  mem-update_where_hit (is_stale now stale_after) (release now) rows t m,
  ground arith,
  refl,
  refl,
)

-- A worker whose job was recovered and claimed by another still ends it: `complete` and `fail` test
-- that the row is running, not who has locked it. Its `fail` opens the lock of the other worker.
pub fail-ignores_owner :
    (now : ℕ) (stale row : Job) (message : String) (delay : ℕ) (rows : Rows)
    → Memᴰ row rows
    → row.id ≡ stale.id
    → is_running row.status ≡ true
    → Memᴰ
        (put_back now (next_status stale) message delay row)
        (fail now stale message delay rows).0
unfolding fail
fail-ignores_owner now stale row message delay rows m e t =
    mem-update_where_hit (is_running_id stale.id) (put_back now (next_status stale) message delay)
      rows (ground arith) m
