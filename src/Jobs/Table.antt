-- ===== src/Jobs/Table.antt =====
-- src/operations/jobRepository.js: one function for each statement, from the table before it to
-- the table after it and what the method returns. Times are milliseconds; `now` is `NOW()`.
-- Identifiers of rows are UUIDs, compared only for equality, and stand as numbers.
use be_weavecarbon.Common.{
  ℕ, ◌+◌, ◌-◌, ◌*◌, String, Bool, true, false, not, ◌&&◌, ◌||◌, Option, none, some, List, [], ◌∷◌,
  ltb, leb, ◌==◌, str_eq, if◌then◌else◌, select_one, count_where, delete_where, update_where,
}
use be_weavecarbon.Jobs.Task.{Task}

pub data Status : Type 0 where
  pending running retry completed dead : Status

abbrev pub is_pending : Status → Bool
is_pending pending = true
is_pending _ = false

abbrev pub is_running : Status → Bool
is_running running = true
is_running _ = false

-- `status IN ('pending', 'retry')`
abbrev pub is_queued : Status → Bool
is_queued pending = true
is_queued retry = true
is_queued _ = false

-- `status IN ('completed', 'dead')`
abbrev pub is_finished : Status → Bool
is_finished completed = true
is_finished dead = true
is_finished _ = false

-- A row. The result is the JSON text that `complete` stores.
pub record Job : Type 0 where
  pub id : ℕ
  pub company_id : Option String
  pub kind : String
  pub idempotency_key : String
  pub payload : Task
  pub result : Option String
  pub status : Status
  pub attempts : ℕ
  pub max_attempts : ℕ
  pub available_at : ℕ
  pub locked_at : Option ℕ
  pub locked_by : Option String
  pub correlation_id : Option String
  pub last_error : Option String
  pub created_at : ℕ
  pub updated_at : ℕ
  pub completed_at : Option ℕ

-- The argument of `enqueue`.
pub record NewJob : Type 0 where
  pub type : String
  pub company_id : Option String
  pub idempotency_key : String
  pub payload : Task
  pub max_attempts : ℕ
  pub correlation_id : Option String

-- The status is none only for the receipt of a rejected task, whose text is 'rejected'.
pub record Receipt : Type 0 where
  pub accepted : Bool
  pub id : Option ℕ
  pub status : Option Status

-- `COALESCE(a, b)`
abbrev coalesce {ℓ} : {A : Type ℓ} → Option A → A → A
coalesce none b = b
coalesce (some a) b = a

-- `a < b` in SQL, where NULL is never less.
abbrev pub null_lt : Option ℕ → ℕ → Bool
null_lt none b = false
null_lt (some a) b = ltb a b

-- `interval '1 day'`, in milliseconds
abbrev pub day_ms : ℕ
day_ms = 86400000

abbrev pub Rows : Type 0
Rows = List Job

abbrev pub has_key : String → Job → Bool
has_key key job = str_eq job.idempotency_key key

-- The row that the INSERT writes, with the column defaults of the table.
abbrev pub new_row : ℕ → ℕ → NewJob → Job
new_row now fresh task = record {
  id = fresh;
  company_id = task.company_id;
  kind = task.type;
  idempotency_key = task.idempotency_key;
  payload = task.payload;
  result = none;
  status = pending;
  attempts = 0;
  max_attempts = task.max_attempts;
  available_at = now;
  locked_at = none;
  locked_by = none;
  correlation_id = task.correlation_id;
  last_error = none;
  created_at = now;
  updated_at = now;
  completed_at = none;
}

-- `enqueue`: on a conflict the key is set to itself, and the old row is returned.
unfoldable pub enqueue : ℕ → ℕ → NewJob → Rows → Rows × Receipt
enqueue now fresh task rows = elim (select_one (has_key task.idempotency_key) rows) [
  | none ↦ (
    new_row now fresh task ∷ rows,
    record { accepted = true; id = some fresh; status = some pending },
  )
  | some old ↦ (rows, record { accepted = false; id = some old.id; status = some old.status })
]

abbrev pub is_stale : ℕ → ℕ → Job → Bool
is_stale now stale_after job = is_running job.status && null_lt job.locked_at (now - stale_after)

abbrev pub release : ℕ → Job → Job
release now job = record job {
  status = retry;
  locked_at = none;
  locked_by = none;
  available_at = now;
  updated_at = now;
  last_error = some (coalesce job.last_error "worker interrupted before completion");
}

unfoldable pub recover_stale : ℕ → ℕ → Rows → Rows × ℕ
recover_stale now stale_after rows = (
  update_where (is_stale now stale_after) (release now) rows,
  count_where (is_stale now stale_after) rows,
)

abbrev pub is_expired : ℕ → ℕ → Job → Bool
is_expired now retention_days job =
    is_finished job.status
    && ltb (coalesce job.completed_at job.updated_at) (now - retention_days * day_ms)

unfoldable pub prune_finished : ℕ → ℕ → Rows → Rows × ℕ
prune_finished now retention_days rows =
    let test = is_expired now retention_days in (delete_where test rows, count_where test rows)

-- The rows that `next_job` may take: `skip` tells those that other transactions have locked.
abbrev pub is_claimable : ℕ → (ℕ → Bool) → Job → Bool
is_claimable now skip job = is_queued job.status && leb job.available_at now && not (skip job.id)

-- `ORDER BY available_at ASC, created_at ASC`
abbrev pub sorts_before : Job → Job → Bool
sorts_before a b =
    ltb a.available_at b.available_at
    || a.available_at == b.available_at && leb a.created_at b.created_at

abbrev pub first_of_two : Job → Option Job → Job
first_of_two a none = a
first_of_two a (some b) = if sorts_before a b then a else b

-- `next_job`: the first claimable row in that order.
unfoldable pub next_job : ℕ → (ℕ → Bool) → Rows → Option Job
next_job now skip [] = none
next_job now skip (job ∷ rows) =
    let rest = next_job now skip rows in
    if is_claimable now skip job then some (first_of_two job rest) else rest

abbrev pub has_id : ℕ → Job → Bool
has_id i job = job.id == i

abbrev pub claim : ℕ → String → Job → Job
claim now worker job = record job {
  status = running;
  attempts = job.attempts + 1;
  locked_at = some now;
  locked_by = some worker;
  updated_at = now;
}

-- `claimNext`
unfoldable pub claim_next : ℕ → (ℕ → Bool) → String → Rows → Rows × Option Job
unfolding next_job
claim_next now skip worker rows = elim (next_job now skip rows) [
  | none ↦ (rows, none)
  | some job ↦ (update_where (has_id job.id) (claim now worker) rows, some (claim now worker job))
]

abbrev pub is_running_id : ℕ → Job → Bool
is_running_id i job = job.id == i && is_running job.status

abbrev pub finish : ℕ → String → Job → Job
finish now outcome job = record job {
  status = completed;
  completed_at = some now;
  updated_at = now;
  locked_at = none;
  locked_by = none;
  last_error = none;
  result = some outcome;
}

unfoldable pub complete : ℕ → ℕ → String → Rows → Rows
complete now i outcome rows = update_where (is_running_id i) (finish now outcome) rows

-- `isDead ? 'dead' : 'retry'`, from the attempts of the job as it was claimed
abbrev pub next_status : Job → Status
next_status job = if leb job.max_attempts job.attempts then dead else retry

abbrev pub put_back : ℕ → Status → String → ℕ → Job → Job
put_back now status message delay job = record job {
  status = status;
  last_error = some message;
  updated_at = now;
  available_at = if is_queued status then now + delay else job.available_at;
  locked_at = none;
  locked_by = none;
}

-- `fail`; the message is the one that `slice(0, 2000)` has cut.
unfoldable pub fail : ℕ → Job → String → ℕ → Rows → Rows × Status
fail now job message delay rows = (
  update_where (is_running_id job.id) (put_back now (next_status job) message delay) rows,
  next_status job,
)

-- The entry of `counts` for one status.
unfoldable pub count_status : (Status → Bool) → Rows → ℕ
count_status test rows = count_where (λ job. test job.status) rows

-- `findForCompany`: `company_id = $2` fails on NULL.
abbrev pub belongs_to : String → Option String → Bool
belongs_to company none = false
belongs_to company (some c) = str_eq c company

unfoldable pub find_for_company : ℕ → String → Rows → Option Job
find_for_company i company rows =
    select_one (λ job. has_id i job && belongs_to company job.company_id) rows
