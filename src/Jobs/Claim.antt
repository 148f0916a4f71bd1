-- ===== src/Jobs/Claim.antt =====
-- Which row `claimNext` takes (src/operations/jobRepository.js), and that nobody takes it again.
use mathlib.Core.List.{Memᴰ}
use be_weavecarbon.Common.{
  ℕ, String, Bool, true, false, ◌≡◌, refl, ◌↔◌, Option, none, some, [], ◌∷◌, arith, All,
  All-trivial, All-map, All-mem, inl, inr, Option-cases, Bool-cases, sym, ap, some_inj, subst,
  update_where, All-update_where_to, if◌then◌else◌,
}
use be_weavecarbon.Jobs.Table.{
  Job, Rows, is_claimable, sorts_before, next_job, has_id, claim, claim_next,
}

sorts_before_refl : (a : Job) → sorts_before a a ≡ true
sorts_before_refl a = ground arith

sorts_before_trans :
    (a b c : Job) → sorts_before a b ≡ true → sorts_before b c ≡ true → sorts_before a c ≡ true
sorts_before_trans a b c p q = ground arith

sorts_before_total : (a b : Job) → sorts_before a b ≡ false → sorts_before b a ≡ true
sorts_before_total a b p = ground arith

-- `job` may be claimed, and no row that may be claimed sorts before it.
pub record IsFirst (now : ℕ) (skip : ℕ → Bool) (rows : Rows) (job : Job) : Type 0 where
  pub claimable : is_claimable now skip job ≡ true
  pub listed : Memᴰ job rows
  pub least : All (λ x. is_claimable now skip x ≡ true → sorts_before job x ≡ true) rows

module _ (now : ℕ) (skip : ℕ → Bool) where
  -- No row is found only if none may be claimed.
  pub next_job-none :
      (rows : Rows)
      → next_job now skip rows ≡ none
      → All (λ x. is_claimable now skip x ≡ false) rows
  unfolding next_job
  next_job-none [] e = tt
  next_job-none (x ∷ rows) e = elim (Bool-cases (is_claimable now skip x)) [
    | inl t ↦ absurd (ground arith)
    | inr t ↦ (t, next_job-none rows (rw (t, next_job) at e))
  ]

  IsFirst-skip :
      (x : Job) (rows : Rows) (job : Job)
      → is_claimable now skip x ≡ false
      → IsFirst now skip rows job
      → IsFirst now skip (x ∷ rows) job
  IsFirst-skip x rows job t f = record {
    claimable = f.claimable;
    listed = Memᴰ.tail f.listed;
    least = ((λ c. cc), f.least);
  }

  IsFirst-only :
      (x : Job) (rows : Rows)
      → is_claimable now skip x ≡ true
      → All (λ y. is_claimable now skip y ≡ false) rows
      → IsFirst now skip (x ∷ rows) x
  IsFirst-only x rows t h = record {
    claimable = t;
    listed = Memᴰ.head refl;
    least = ((λ c. sorts_before_refl x), All-map _ _ rows (λ y f c. cc) h);
  }

  IsFirst-both :
      (x : Job) (rows : Rows) (job : Job)
      → is_claimable now skip x ≡ true
      → IsFirst now skip rows job
      → IsFirst now skip (x ∷ rows) (if sorts_before x job then x else job)
  IsFirst-both x rows job t f = elim (Bool-cases (sorts_before x job)) [
    | inl s ↦ rw s (record {
      claimable = t;
      listed = Memᴰ.head refl;
      least = (
        (λ c. sorts_before_refl x),
        All-map _ _ rows (λ y k c. sorts_before_trans x job y s (k c)) f.least,
      );
    })
    | inr s ↦ rw s (record {
      claimable = f.claimable;
      listed = Memᴰ.tail f.listed;
      least = ((λ c. sorts_before_total x job s), f.least);
    })
  ]

  pub next_job-IsFirst :
      (rows : Rows) (job : Job) → next_job now skip rows ≡ some job → IsFirst now skip rows job
  unfolding next_job
  next_job-IsFirst [] job e = absurd (cc)
  next_job-IsFirst (x ∷ rows) job e = elim (Bool-cases (is_claimable now skip x)) [
    | inr t ↦ IsFirst-skip x rows job t (next_job-IsFirst rows job (rw (t, next_job) at e))
    | inl t ↦ elim (Option-cases (next_job now skip rows)) [
      | inl n ↦
          let same : x ≡ job = some_inj (rw (t, n, next_job) at e) in
          subst (IsFirst now skip (x ∷ rows)) same (IsFirst-only x rows t (next_job-none rows n))
      | inr (y, n) ↦
          let same : (if sorts_before x y then x else y) ≡ job =
            some_inj (rw (t, n, next_job) at e) in
          subst (IsFirst now skip (x ∷ rows)) same
            (IsFirst-both x rows y t (next_job-IsFirst rows y n))
    ]
  ]

-- What `claimNext` gives is the first row that may be claimed, now running, with one attempt more
-- and locked by the worker; the table differs in that row alone.
pub record IsClaim (now : ℕ) (skip : ℕ → Bool) (worker : String) (rows last : Rows) (got : Job)
    : Type 0 where
  pub job : Job
  pub first : IsFirst now skip rows job
  pub taken : got ≡ claim now worker job
  pub written : last ≡ update_where (has_id job.id) (claim now worker) rows

pub claim_next-IsClaim :
    (now : ℕ) (skip : ℕ → Bool) (worker : String) (rows last : Rows) (got : Job)
    → claim_next now skip worker rows ≡ (last, some got)
    → IsClaim now skip worker rows last got
unfolding claim_next
claim_next-IsClaim now skip worker rows last got e = elim (Option-cases (next_job now skip rows)) [
  | inl n ↦ absurd (ground arith)
  | inr (job, n) ↦ record {
    job = job;
    first = next_job-IsFirst now skip rows job n;
    taken = some_inj (sym (ap (λ (p : Rows × Option Job). p.1) (rw (n, claim_next) at e)));
    written = sym (ap (λ (p : Rows × Option Job). p.0) (rw (n, claim_next) at e));
  }
]

-- Nothing is claimed exactly when no row may be, and then the table stays as it is.
pub claim_next-none_iff :
    (now : ℕ) (skip : ℕ → Bool) (worker : String) (rows : Rows)
    → (claim_next now skip worker rows ≡ (rows, none))
      ↔ All (λ job. is_claimable now skip job ≡ false) rows
unfolding claim_next
claim_next-none_iff now skip worker rows = elim (Option-cases (next_job now skip rows)) [
  | inl n ↦ rw (n, claim_next) ((λ _. next_job-none now skip rows n), (λ _. refl))
  | inr (job, n) ↦
      rw (n, claim_next)
        (
          (λ e. absurd (cc (ap (λ (p : Rows × Option Job). p.1) e))),
          (λ h. absurd (
              let f = next_job-IsFirst now skip rows job n in
              cc (f.claimable, All-mem _ rows f.listed h))),
        )
]

-- A job that a worker has just claimed cannot be claimed again as the table stands, at whatever
-- time and by whatever worker: its row is running.
pub claim_next-exclusive :
    (now : ℕ) (skip : ℕ → Bool) (worker : String) (rows last : Rows) (got : Job)
    → claim_next now skip worker rows ≡ (last, some got)
    → (later : ℕ) (skip' : ℕ → Bool)
    → All (λ row. row.id ≡ got.id → is_claimable later skip' row ≡ false) last
claim_next-exclusive now skip worker rows last got e later skip' =
    let c = claim_next-IsClaim now skip worker rows last got e in
    rw c.written (
      All-update_where_to (λ _. Unit {0})
        (λ row. row.id ≡ got.id → is_claimable later skip' row ≡ false) (has_id c.job.id)
        (claim now worker) rows (λ row t _ same. refl)
        (λ row t _ same. absurd (ground (arith, ap (λ (x : Job). x.id) c.taken)))
        (All-trivial rows))
