-- ===== src/Jobs/Ticks.antt =====
-- What the worker of src/modules/reports/jobQueue.js keeps: the bound on concurrent executions, the
-- end of the claiming loop, and the idempotency of its producers.
use be_weavecarbon.Common.{
  ℕ, zero, suc, ◌+◌, ◌-◌, ◌≤◌, ◌<◌, ◌==◌, not, ◌||◌, String, Bool, true, false, ◌≡◌, refl, ◌⊎◌, inl,
  inr, Option, none, some, List, [], ◌∷◌, length, arith, All, Option-cases, if_intro, option_intro,
  select_one, str_eq_iff,
}
use be_weavecarbon.Jobs.Task.{Task}
use be_weavecarbon.Jobs.Table.{
  Job, NewJob, Rows, Receipt, has_key, is_claimable, enqueue, next_job, claim_next,
}
use be_weavecarbon.Jobs.Claim.{next_job-none}
use be_weavecarbon.Jobs.Steps.{Step}
use be_weavecarbon.Jobs.Worker.{
  is_refused, job_of, enqueue_with_receipt, Worker, has_room, with_job, tick, settle, remove_one,
  stop, Dispatcher, schedule_tick, test_from, test_room, take_claim, claim_from, claim_job,
  fail_from, fail_claim, end_execution, accept, start,
}

remove_one-le : (i : ℕ) (active : List ℕ) → length (remove_one i active) ≤ length active
remove_one-le i [] = omega arith
remove_one-le i (j ∷ rest) = ground (arith, remove_one-le i rest)

-- What can happen to a worker and the table, in any order, while its loop of `_tick` awaits or does
-- not: the timer or a producer schedules a tick, a loop tests for room, a claim answers or rejects, an
-- execution ends, the worker starts or stops, or anybody runs a statement.
pub data Event (concurrency : ℕ) (d : Dispatcher) (rows : Rows) : Dispatcher → Rows → Type 0 where
  schedules : Event concurrency d rows (schedule_tick d) rows
  tests : Event concurrency d rows (test_room concurrency d) rows
  claims :
      (now : ℕ) (skip : ℕ → Bool) (name : String)
      → Event concurrency d rows
          (claim_job now skip name d rows).0
          (claim_job now skip name d rows).1
  claim_fails : Event concurrency d rows (fail_claim d) rows
  settles : (i : ℕ) → Event concurrency d rows (end_execution i d) rows
  starts : Event concurrency d rows (start d) rows
  stops : Event concurrency d rows (record d { worker = stop d.worker }) rows
  other : {last : Rows} → Step rows last → Event concurrency d rows d last

pub data Events (concurrency : ℕ) (d : Dispatcher) (rows : Rows) : Dispatcher → Rows → Type 0 where
  here : Events concurrency d rows d rows
  next :
      {d' d'' : Dispatcher} {rows' rows'' : Rows}
      → Events concurrency d rows d' rows'
      → Event concurrency d' rows' d'' rows''
      → Events concurrency d rows d'' rows''

-- One loop at most, and a place kept for the job that it awaits.
pub record IsBounded (concurrency : ℕ) (d : Dispatcher) : Type 0 where
  pub one_loop : d.testing + d.claiming ≤ 1
  pub places : length d.worker.active + d.claiming ≤ concurrency

schedule-IsBounded :
    (concurrency : ℕ) (d : Dispatcher)
    → IsBounded concurrency d
    → IsBounded concurrency (schedule_tick d)
unfolding schedule_tick
schedule-IsBounded concurrency d h =
    if_intro (IsBounded concurrency) (not d.worker.accepting || not (d.testing + d.claiming == 0))
      (λ _. h) (λ t. record { one_loop = ground (arith, h.one_loop); places = h.places })

test-IsBounded :
    (concurrency : ℕ) (d : Dispatcher) (n : ℕ)
    → d.testing ≡ n
    → IsBounded concurrency d
    → IsBounded concurrency (test_from concurrency d n)
unfolding has_room
test-IsBounded concurrency d zero e h = h
test-IsBounded concurrency d (suc n) e h =
    if_intro (IsBounded concurrency) (has_room concurrency d.worker)
      (λ room. record {
        one_loop = omega (arith, h.one_loop, e);
        places = ground (arith, h.one_loop, h.places, e, room);
      })
      (λ _. record { one_loop = omega (arith, h.one_loop, e); places = h.places })

take-IsBounded :
    (concurrency : ℕ) (d : Dispatcher) (n : ℕ) (o : Option Job)
    → d.claiming ≡ suc n
    → IsBounded concurrency d
    → IsBounded concurrency (take_claim d n o)
take-IsBounded concurrency d n none e h = record {
  one_loop = omega (arith, h.one_loop, e);
  places = omega (arith, h.places, e);
}
take-IsBounded concurrency d n (some job) e h = record {
  one_loop = omega (arith, h.one_loop, e);
  places = omega (arith, h.places, e);
}

claim-IsBounded :
    (concurrency now : ℕ) (skip : ℕ → Bool) (name : String) (d : Dispatcher) (rows : Rows) (n : ℕ)
    → d.claiming ≡ n
    → IsBounded concurrency d
    → IsBounded concurrency (claim_from now skip name d rows n).0
claim-IsBounded concurrency now skip name d rows zero e h = h
claim-IsBounded concurrency now skip name d rows (suc n) e h =
    take-IsBounded concurrency d n (claim_next now skip name rows).1 e h

fail-IsBounded :
    (concurrency : ℕ) (d : Dispatcher) (n : ℕ)
    → d.claiming ≡ n
    → IsBounded concurrency d
    → IsBounded concurrency (fail_from d n)
fail-IsBounded concurrency d zero e h = h
fail-IsBounded concurrency d (suc n) e h = record {
  one_loop = omega (arith, h.one_loop, e);
  places = omega (arith, h.places, e);
}

Event-IsBounded :
    {concurrency : ℕ} {d d' : Dispatcher} {rows rows' : Rows}
    → IsBounded concurrency d
    → Event concurrency d rows d' rows'
    → IsBounded concurrency d'
unfolding test_room claim_job fail_claim end_execution start stop settle
Event-IsBounded {concurrency} {d} h Event.schedules = schedule-IsBounded concurrency d h
Event-IsBounded {concurrency} {d} h Event.tests = test-IsBounded concurrency d d.testing refl h
Event-IsBounded {concurrency} {d} {rows = rows} h (Event.claims now skip name) =
    claim-IsBounded concurrency now skip name d rows d.claiming refl h
Event-IsBounded {concurrency} {d} h Event.claim_fails =
    fail-IsBounded concurrency d d.claiming refl h
Event-IsBounded {concurrency} {d} h (Event.settles i) =
    schedule-IsBounded concurrency (record d { worker = settle i d.worker })
      (record {
        one_loop = h.one_loop;
        places = omega (arith, h.places, remove_one-le i d.worker.active);
      })
Event-IsBounded {concurrency} {d} h Event.starts =
    schedule-IsBounded concurrency (record d { worker = accept d.worker })
      (record { one_loop = h.one_loop; places = h.places })
Event-IsBounded h Event.stops = record { one_loop = h.one_loop; places = h.places }
Event-IsBounded h (Event.other s) = h

-- However scheduled ticks, tests, claims, ends of executions, starts, stops and statements of other
-- workers interleave, from a worker without a loop a worker never has more executions active than its
-- concurrency, and one loop of `_tick` at most.
pub Events-bounded :
    {concurrency : ℕ} {w : Worker} {rows : Rows} {d : Dispatcher} {rows' : Rows}
    → length w.active ≤ concurrency
    → Events concurrency (record { worker = w; testing = 0; claiming = 0 }) rows d rows'
    → (length d.worker.active ≤ concurrency) × (d.testing + d.claiming ≤ 1)
Events-bounded {concurrency} {w} {rows} h es =
    let b = go es in (omega (arith, b.places), b.one_loop)
  where
    go :
        {d : Dispatcher} {rows' : Rows}
        → Events concurrency (record { worker = w; testing = 0; claiming = 0 }) rows d rows'
        → IsBounded concurrency d
    go Events.here = record { one_loop = omega arith; places = omega (arith, h) }
    go (Events.next es e) = Event-IsBounded (go es) e

idle :
    (now : ℕ) (skip : ℕ → Bool) (name : String) (rows : Rows)
    → (claim_next now skip name rows).1 ≡ none
    → All (λ job. is_claimable now skip job ≡ false) rows
unfolding claim_next
idle now skip name rows e = elim (Option-cases (next_job now skip rows)) [
  | inl n ↦ next_job-none now skip rows n
  | inr (job, n) ↦ absurd (ground arith)
]

fewer :
    (concurrency fuel : ℕ) (w : Worker)
    → has_room concurrency w ≡ true
    → concurrency - length w.active < suc fuel
    → concurrency - suc (length w.active) < fuel
unfolding has_room
fewer concurrency fuel w room h = ground arith

module _ (now : ℕ) (skip : ℕ → Bool) (name : String) (concurrency : ℕ) where
  -- Where the loop may end.
  abbrev pub Ended : Worker × Rows → Type 0
  Ended at =
      (has_room concurrency at.0 ≡ false) ⊎ All (λ job. is_claimable now skip job ≡ false) at.1

  -- With more fuel than free places the loop of `_tick` ends by its own tests: it stops accepting,
  -- has as many executions active as it may, or leaves no job that can be claimed.
  pub tick-Ended :
      (fuel : ℕ) (w : Worker) (rows : Rows)
      → concurrency - length w.active < fuel
      → Ended (tick now skip name concurrency fuel w rows)
  unfolding tick
  tick-Ended zero w rows h = elim h [ ]
  tick-Ended (suc fuel) w rows h =
      if_intro Ended (has_room concurrency w)
        (λ room.
          option_intro Ended (claim_next now skip name rows).1
            (λ e. inr (idle now skip name rows e))
            (λ job e.
              tick-Ended fuel (with_job w job) (claim_next now skip name rows).0
                (fewer concurrency fuel w room h)))
        (λ full. inl full)

-- What a second `enqueue` with the key of the first does.
abbrev pub Again : Rows → Rows × Receipt → Rows × Receipt → Type 0
Again rows first second =
    (second.0 ≡ first.0)
    × (second.1.accepted ≡ false)
    × (second.1.id ≡ first.1.id)
    × (length first.0 ≤ length rows + 1)

enqueue-Again :
    (now later fresh fresh' : ℕ) (task task' : NewJob) (rows : Rows)
    → task'.idempotency_key ≡ task.idempotency_key
    → Again rows
        (enqueue now fresh task rows)
        (enqueue later fresh' task' (enqueue now fresh task rows).0)
unfolding enqueue
enqueue-Again now later fresh fresh' task task' rows same =
    elim (Option-cases (select_one (has_key task.idempotency_key) rows)) [
      | inl e ↦ ground (arith, str_eq_iff task.idempotency_key task.idempotency_key)
      | inr (old, e) ↦ ground arith
    ]

-- A producer that sends a task again does not queue it twice: the second receipt refuses it, with
-- the identifier of the job that the key has, and the table stays as the first left it.
pub enqueue_with_receipt-Again :
    (now later fresh fresh' max_attempts : ℕ) (context context' : Option String) (task : Task)
    (rows : Rows)
    → is_refused task ≡ false
    → let first = enqueue_with_receipt now fresh max_attempts context task rows in
      Again rows first (enqueue_with_receipt later fresh' max_attempts context' task first.0)
unfolding enqueue_with_receipt
enqueue_with_receipt-Again now later fresh fresh' max_attempts context context' task rows h =
    rw (h, enqueue_with_receipt)
      (enqueue-Again now later fresh fresh' (job_of max_attempts context task)
        (job_of max_attempts context' task) rows refl)
