-- ===== src/Jobs/Invariant.antt =====
-- What holds of every table of jobs that the statements of src/operations/jobRepository.js reach.
use be_weavecarbon.Common.{
  ℕ, ◌<◌, String, Bool, true, false, ◌≡◌, refl, none, [], ◌∷◌, arith, is_some, All,
  All-update_where, All-delete_where, IsUnique, IsUnique-update_where, IsUnique-delete_where,
  All-zip, IsUnique-mem, All-update_where_to, ==_iff, ap, Lacks, str_eq_iff, inl, inr, Option-cases,
  select_one, update_where,
}
use be_weavecarbon.Jobs.Table.{
  Status, completed, is_pending, is_running, Job, NewJob, Rows, has_key, new_row, enqueue, is_stale,
  release, recover_stale, is_expired, prune_finished, has_id, is_claimable, claim, next_job,
  claim_next, is_running_id, finish, complete, put_back, next_status, fail,
}
use be_weavecarbon.Jobs.Claim.{next_job-IsFirst}
use be_weavecarbon.Jobs.Steps.{Step, Reach}

abbrev pub is_completed : Status → Bool
is_completed completed = true
is_completed _ = false

-- One row: the lock is held while the job runs and at no other time, the result and the time of
-- completion are there when it is completed and at no other time, and an attempt has been made
-- unless the job is pending.
pub record IsConsistent (job : Job) : Type 0 where
  pub locked : is_some job.locked_at ≡ is_running job.status
  pub owned : is_some job.locked_by ≡ is_running job.status
  pub timed : is_some job.completed_at ≡ is_completed job.status
  pub resolved : is_some job.result ≡ is_completed job.status
  pub untried : is_pending job.status ≡ true → job.attempts ≡ 0
  pub tried : is_pending job.status ≡ false → 0 < job.attempts

abbrev pub job_id : Job → ℕ
job_id job = job.id

abbrev pub job_key : Job → String
job_key job = job.idempotency_key

-- The table: consistent rows, no identifier and no idempotency key twice.
pub record IsSound (rows : Rows) : Type 0 where
  pub consistent : All IsConsistent rows
  pub ids : IsUnique job_id rows
  pub keys : IsUnique job_key rows

new_row-IsConsistent : (now fresh : ℕ) (task : NewJob) → IsConsistent (new_row now fresh task)
new_row-IsConsistent now fresh task = ground arith

-- A key that the lookup does not find is in no row.
Lacks-has_key :
    (key : String) (rows : Rows) → select_one (has_key key) rows ≡ none → Lacks job_key key rows
Lacks-has_key key [] e = tt
Lacks-has_key key (job ∷ rows) e =
    (ground (arith, str_eq_iff job.idempotency_key key), Lacks-has_key key rows (ground arith))

enqueue-IsSound :
    (now fresh : ℕ) (task : NewJob) (rows : Rows)
    → Lacks job_id fresh rows
    → IsSound rows
    → IsSound (enqueue now fresh task rows).0
unfolding enqueue
enqueue-IsSound now fresh task rows new h =
    elim (Option-cases (select_one (has_key task.idempotency_key) rows)) [
      | inl e ↦
          rw (e, enqueue)
            (record {
              consistent = (new_row-IsConsistent now fresh task, h.consistent);
              ids = (new, h.ids);
              keys = (Lacks-has_key task.idempotency_key rows e, h.keys);
            })
      | inr (old, e) ↦ rw (e, enqueue) h
    ]

module _ (test : Job → Bool) (change : Job → Job)
    (keep : (job : Job) → test job ≡ true → IsConsistent job → IsConsistent (change job))
    (same_id : (job : Job) → (change job).id ≡ job.id)
    (same_key : (job : Job) → (change job).idempotency_key ≡ job.idempotency_key) where
  update_where-IsSound : (rows : Rows) → IsSound rows → IsSound (update_where test change rows)
  update_where-IsSound rows h = record {
    consistent = All-update_where IsConsistent test change rows keep h.consistent;
    ids = IsUnique-update_where job_id test change rows same_id h.ids;
    keys = IsUnique-update_where job_key test change rows same_key h.keys;
  }

claim-IsConsistent :
    (now : ℕ) (skip : ℕ → Bool) (worker : String) (row job : Job)
    → is_claimable now skip job ≡ true
    → IsConsistent row
    → row ≡ job
    → IsConsistent (claim now worker row)
claim-IsConsistent now skip worker row job t c e = ground (arith, ap (λ (x : Job). x.status) e)

recover_stale-IsSound :
    (now stale_after : ℕ) (rows : Rows)
    → IsSound rows
    → IsSound (recover_stale now stale_after rows).0
unfolding recover_stale
recover_stale-IsSound now stale_after rows h =
    update_where-IsSound (is_stale now stale_after) (release now) (λ job t c. ground arith)
      (λ job. refl) (λ job. refl) rows h

prune_finished-IsSound :
    (now retention_days : ℕ) (rows : Rows)
    → IsSound rows
    → IsSound (prune_finished now retention_days rows).0
unfolding prune_finished
prune_finished-IsSound now retention_days rows h =
    let test = is_expired now retention_days in
    record {
      consistent = All-delete_where IsConsistent test rows h.consistent;
      ids = IsUnique-delete_where job_id test rows h.ids;
      keys = IsUnique-delete_where job_key test rows h.keys;
    }

-- The row that is claimed is the only one with its identifier.
claim_next-IsSound :
    (now : ℕ) (skip : ℕ → Bool) (worker : String) (rows : Rows)
    → IsSound rows
    → IsSound (claim_next now skip worker rows).0
unfolding claim_next
claim_next-IsSound now skip worker rows h = elim (Option-cases (next_job now skip rows)) [
  | inl e ↦ rw (e, claim_next) h
  | inr (job, e) ↦
      rw (e, claim_next)
        (record {
          consistent =
              All-update_where_to (λ row. IsConsistent row × (row.id ≡ job.id → row ≡ job))
                IsConsistent (has_id job.id) (claim now worker) rows
                (λ row t (c, only).
                  claim-IsConsistent now skip worker row job
                    (next_job-IsFirst now skip rows job e).claimable c
                    (only ((==_iff row.id job.id).0 t)))
                (λ row t (c, only). c)
                (All-zip _ _ rows h.consistent
                  (IsUnique-mem job_id rows h.ids (next_job-IsFirst now skip rows job e).listed));
          ids =
              IsUnique-update_where job_id (has_id job.id) (claim now worker) rows (λ row. refl)
                h.ids;
          keys =
              IsUnique-update_where job_key (has_id job.id) (claim now worker) rows (λ row. refl)
                h.keys;
        })
]

complete-IsSound :
    (now i : ℕ) (outcome : String) (rows : Rows)
    → IsSound rows
    → IsSound (complete now i outcome rows)
unfolding complete
complete-IsSound now i outcome rows h =
    update_where-IsSound (is_running_id i) (finish now outcome) (λ job t c. ground arith)
      (λ job. refl) (λ job. refl) rows h

fail-IsSound :
    (now : ℕ) (job : Job) (message : String) (delay : ℕ) (rows : Rows)
    → IsSound rows
    → IsSound (fail now job message delay rows).0
unfolding fail
fail-IsSound now job message delay rows h =
    update_where-IsSound (is_running_id job.id) (put_back now (next_status job) message delay)
      (λ row t c. ground arith) (λ row. refl) (λ row. refl) rows h

pub Step-IsSound : {rows last : Rows} → IsSound rows → Step rows last → IsSound last
Step-IsSound {rows} h (Step.enqueued now fresh task new) = enqueue-IsSound now fresh task rows new h
Step-IsSound {rows} h (Step.recovered now stale_after) =
    recover_stale-IsSound now stale_after rows h
Step-IsSound {rows} h (Step.pruned now retention_days) =
    prune_finished-IsSound now retention_days rows h
Step-IsSound {rows} h (Step.claimed now skip worker) = claim_next-IsSound now skip worker rows h
Step-IsSound {rows} h (Step.completed now i outcome) = complete-IsSound now i outcome rows h
Step-IsSound {rows} h (Step.failed now job message delay) =
    fail-IsSound now job message delay rows h

-- Every table that any sequence of the repository's statements makes of a sound table is sound.
pub Reach-IsSound : {rows last : Rows} → IsSound rows → Reach rows last → IsSound last
Reach-IsSound h Reach.here = h
Reach-IsSound h (Reach.next r s) = Step-IsSound (Reach-IsSound h r) s
