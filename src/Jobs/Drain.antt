-- ===== src/Jobs/Drain.antt =====
-- No due job is left behind by `claimNext` of src/operations/jobRepository.js: as many claims as
-- there are rows to claim take them all.
use mathlib.Core.List.{Memᴰ}
use be_weavecarbon.Common.{
  ℕ, zero, suc, ◌≤◌, String, Bool, true, false, ◌≡◌, refl, sym, ap, ◌∙◌, some, List, [], ◌∷◌,
  ==_iff, arith, All-mem, inl, inr, Option-cases, Bool-cases, count_where, update_where, IsUnique,
  IsUnique-mem, IsUnique-update_where, mem-update_where_hit, mem-update_where_miss,
}
use be_weavecarbon.Jobs.Table.{Job, Rows, is_claimable, has_id, claim, next_job, claim_next}
use be_weavecarbon.Jobs.Claim.{next_job-IsFirst, next_job-none}
use be_weavecarbon.Jobs.Invariant.{job_id}

module _ {Row : Type 0} (test selected : Row → Bool) (change : Row → Row)
    (spent : (r : Row) → test (change r) ≡ false) where
  count-update_le :
      (rows : List Row)
      → count_where test (update_where selected change rows) ≤ count_where test rows
  count-update_le [] = omega arith
  count-update_le (r ∷ rows) = elim (Bool-cases (selected r)) [
    | inl t ↦ rw (t, spent r) (omega (arith, count-update_le rows))
    | inr t ↦ rw t (omega (arith, count-update_le rows))
  ]

  -- A change of a row that passed the test counts one less.
  count-update_lt :
      (rows : List Row) (x : Row)
      → Memᴰ x rows
      → selected x ≡ true
      → test x ≡ true
      → suc (count_where test (update_where selected change rows)) ≤ count_where test rows
  count-update_lt [] x m s t = elim m [ ]
  count-update_lt (r ∷ rows) x (Memᴰ.head e) s t =
      rw (sym (ap selected e) ∙ s, spent r, sym (ap test e) ∙ t)
        (omega (arith, count-update_le rows))
  count-update_lt (r ∷ rows) x (Memᴰ.tail m) s t = elim (Bool-cases (selected r)) [
    | inl u ↦ rw (u, spent r) (omega (arith, count-update_lt rows x m s t))
    | inr u ↦ rw u (omega (arith, count-update_lt rows x m s t))
  ]

  count-mem : (rows : List Row) (x : Row) → Memᴰ x rows → test x ≡ true → 1 ≤ count_where test rows
  count-mem [] x m t = elim m [ ]
  count-mem (r ∷ rows) x (Memᴰ.head e) t = rw (sym (ap test e) ∙ t) (omega arith)
  count-mem (r ∷ rows) x (Memᴰ.tail m) t = omega (arith, count-mem rows x m t)

module _ (now : ℕ) (skip : ℕ → Bool) (worker : String) where
  -- So many claims, one after the other.
  unfoldable pub claims : ℕ → Rows → Rows
  claims zero rows = rows
  claims (suc n) rows = claims n (claim_next now skip worker rows).0

  not_again : (job : Job) → is_claimable now skip (claim now worker job) ≡ false
  not_again job = refl

  step-IsUnique :
      (rows : Rows) → IsUnique job_id rows → IsUnique job_id (claim_next now skip worker rows).0
  unfolding claim_next
  step-IsUnique rows u = elim (Option-cases (next_job now skip rows)) [
    | inl n ↦ rw (n, claim_next) u
    | inr (job, e) ↦
        rw (e, claim_next)
          (IsUnique-update_where job_id (has_id job.id) (claim now worker) rows (λ r. refl) u)
  ]

  -- A row that may not be claimed stays as it is.
  step_keeps :
      (rows : Rows) (x : Job)
      → IsUnique job_id rows
      → Memᴰ x rows
      → is_claimable now skip x ≡ false
      → Memᴰ x (claim_next now skip worker rows).0
  unfolding claim_next
  step_keeps rows x u m f = elim (Option-cases (next_job now skip rows)) [
    | inl n ↦ rw (n, claim_next) m
    | inr (job, e) ↦
        rw (e, claim_next)
          (mem-update_where_miss (has_id job.id) (claim now worker) rows (other job e) m)
  ]
    where
      other : (job : Job) → next_job now skip rows ≡ some job → has_id job.id x ≡ false
      other job e = elim (Bool-cases (has_id job.id x)) [
        | inr t ↦ t
        | inl t ↦
            let first = next_job-IsFirst now skip rows job e in
            let same : x ≡ job =
              All-mem (λ y. y.id ≡ job.id → y ≡ job) rows m
                (IsUnique-mem job_id rows u first.listed) ((==_iff x.id job.id).0 t) in
            absurd (cc (first.claimable, ap (is_claimable now skip) same, f))
      ]

  claims_keep :
      (n : ℕ) (rows : Rows) (x : Job)
      → IsUnique job_id rows
      → Memᴰ x rows
      → is_claimable now skip x ≡ false
      → Memᴰ x (claims n rows)
  unfolding claims
  claims_keep zero rows x u m f = m
  claims_keep (suc n) rows x u m f =
      claims_keep n _ x (step-IsUnique rows u) (step_keeps rows x u m f) f

  -- One claim takes the job, or leaves it with fewer before it.
  data Progress (job : Job) (rows : Rows) : Type 0 where
    taken : Memᴰ (claim now worker job) (claim_next now skip worker rows).0 → Progress job rows
    waiting :
        Memᴰ job (claim_next now skip worker rows).0
        → suc (count_where (is_claimable now skip) (claim_next now skip worker rows).0)
          ≤ count_where (is_claimable now skip) rows
        → Progress job rows

  progress :
      (rows : Rows) (job : Job)
      → Memᴰ job rows
      → is_claimable now skip job ≡ true
      → Progress job rows
  unfolding claim_next
  progress rows job m t = elim (Option-cases (next_job now skip rows)) [
    | inl n ↦ absurd (
        cc (
          All-mem (λ x. is_claimable now skip x ≡ false) rows m (next_job-none now skip rows n),
          t,
        ))
    | inr (first, e) ↦ elim (Bool-cases (has_id first.id job)) [
      | inl s ↦
          taken (
            rw (e, claim_next) (mem-update_where_hit (has_id first.id) (claim now worker) rows s m))
      | inr s ↦
          waiting
            (rw (e, claim_next)
              (mem-update_where_miss (has_id first.id) (claim now worker) rows s m))
            (rw (e, claim_next)
              (count-update_lt (is_claimable now skip) (has_id first.id) (claim now worker)
                not_again rows first (next_job-IsFirst now skip rows first e).listed
                ((==_iff first.id first.id).1 refl)
                (next_job-IsFirst now skip rows first e).claimable))
    ]
  ]

  -- Where identifiers are unique, as many claims as there are rows to claim have taken every one of
  -- them: the row is in the table as claimed by the worker.
  pub claims-taken :
      (n : ℕ) (rows : Rows) (job : Job)
      → IsUnique job_id rows
      → Memᴰ job rows
      → is_claimable now skip job ≡ true
      → count_where (is_claimable now skip) rows ≤ n
      → Memᴰ (claim now worker job) (claims n rows)
  unfolding claims
  claims-taken zero rows job u m t h = absurd (
      omega (
        arith,
        count-mem (is_claimable now skip) (λ _. false) (claim now worker) not_again rows job m t,
      ))
  claims-taken (suc n) rows job u m t h = elim (progress rows job m t) [
    | taken k ↦ claims_keep n _ (claim now worker job) (step-IsUnique rows u) k refl
    | waiting k c ↦ claims-taken n _ job (step-IsUnique rows u) k t (omega (arith, c))
  ]
