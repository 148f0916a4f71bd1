-- ===== src/Common/Tables.antt =====
-- A database table is the list of its rows. A statement runs on the whole table at once: the
-- repositories send each as one query, which the database runs atomically.
use Prim.Native.Nat.{ℕ, ◌+◌}
use mathlib.Core.Path.{◌≡◌, refl, sym, ◌∙◌, ap, subst}
use mathlib.Core.Logic.{◌≢◌, inl, inr}
use mathlib.Core.Bool.{Bool, true, false}
use mathlib.Core.Option.{Option, none, some}
use mathlib.Core.List.{List, [], ◌∷◌, Memᴰ}
use native.Mathlib.Omega.{arith}
use be_weavecarbon.Common.Tests.{if◌then◌else◌, if_intro, Bool-cases}
use be_weavecarbon.Common.Lists.{All, All-mem, All-map, length}

module _ {ℓ} {Row : Type ℓ} (test : Row → Bool) where
  -- `SELECT ... WHERE test LIMIT 1`, in the table's order.
  abbrev pub select_one : List Row → Option Row
  select_one [] = none
  select_one (r ∷ rows) = let rest = select_one rows in if test r then some r else rest

  -- `SELECT COUNT(*) ... WHERE test`.
  abbrev pub count_where : List Row → ℕ
  count_where [] = 0
  count_where (r ∷ rows) = (if test r then 1 else 0) + count_where rows

  -- `DELETE ... WHERE test`.
  abbrev pub delete_where : List Row → List Row
  delete_where [] = []
  delete_where (r ∷ rows) =
      let rest = delete_where rows in
      let kept = r ∷ delete_where rows in if test r then rest else kept

  -- `UPDATE ... SET change WHERE test`.
  abbrev pub update_where : (Row → Row) → List Row → List Row
  update_where change [] = []
  update_where change (r ∷ rows) = (if test r then change r else r) ∷ update_where change rows

  -- `SELECT ... WHERE test`.
  abbrev pub select_where : List Row → List Row
  select_where [] = []
  select_where (r ∷ rows) =
      let rest = select_where rows in
      let kept = r ∷ select_where rows in if test r then kept else rest

  pub length-update_where :
      (change : Row → Row) (rows : List Row) → length (update_where change rows) ≡ length rows
  length-update_where change [] = refl
  length-update_where change (r ∷ rows) = omega (arith, length-update_where change rows)

  -- The rows that a `DELETE` leaves and those that it counts are all of them.
  pub length-delete_where :
      (rows : List Row) → length (delete_where rows) + count_where rows ≡ length rows
  length-delete_where [] = refl
  length-delete_where (r ∷ rows) = ground (arith, length-delete_where rows)

  -- What `LIMIT 1` finds passes the test.
  pub select_one_sound : (rows : List Row) (r : Row) → select_one rows ≡ some r → test r ≡ true
  select_one_sound [] r e = cc
  select_one_sound (x ∷ rows) r e = ground (arith, select_one_sound rows r)

-- From a property before the statement to one after it.
pub All-update_where_to {ℓ κ μ} :
    {Row : Type ℓ} (P : Row → Type κ) (Q : Row → Type μ) (test : Row → Bool) (change : Row → Row)
    (rows : List Row)
    → ((r : Row) → test r ≡ true → P r → Q (change r))
    → ((r : Row) → test r ≡ false → P r → Q r)
    → All P rows
    → All Q (update_where test change rows)
All-update_where_to P Q test change [] hit miss h = tt
All-update_where_to P Q test change (r ∷ rows) hit miss (p, h) = (
  if_intro Q (test r) (λ t. hit r t p) (λ t. miss r t p),
  All-update_where_to P Q test change rows hit miss h,
)

module _ {ℓ κ} {Row : Type ℓ} (P : Row → Type κ) (test : Row → Bool) where
  -- A statement that keeps a property of each row keeps it of the table.
  pub All-update_where :
      (change : Row → Row) (rows : List Row)
      → ((r : Row) → test r ≡ true → P r → P (change r))
      → All P rows
      → All P (update_where test change rows)
  All-update_where change [] keep h = tt
  All-update_where change (r ∷ rows) keep (p, h) =
      (if_intro P (test r) (λ t. keep r t p) (λ _. p), All-update_where change rows keep h)

  pub All-delete_where : (rows : List Row) → All P rows → All P (delete_where test rows)
  All-delete_where [] h = tt
  All-delete_where (r ∷ rows) (p, h) =
      if_intro (All P) (test r) (λ _. All-delete_where rows h) (λ _. (p, All-delete_where rows h))

  pub All-delete_where_to :
      (Q : Row → Type κ) (rows : List Row)
      → ((r : Row) → test r ≡ false → P r → Q r)
      → All P rows
      → All Q (delete_where test rows)
  All-delete_where_to Q [] miss h = tt
  All-delete_where_to Q (r ∷ rows) miss (p, h) =
      if_intro (All Q) (test r) (λ _. All-delete_where_to Q rows miss h)
        (λ t. (miss r t p, All-delete_where_to Q rows miss h))

  -- What `LIMIT 1` finds is a row of the table.
  pub All-select_one :
      (rows : List Row) (r : Row) → select_one test rows ≡ some r → All P rows → P r
  All-select_one [] r e h = absurd (cc)
  All-select_one (x ∷ rows) r e (p, h) = elim (Bool-cases (test x)) [
    | inl t ↦ subst P (ground arith) p
    | inr t ↦ All-select_one rows r (ground arith) h
  ]

-- What `LIMIT 1` finds stands in the table.
pub mem-select_one {ℓ} :
    {Row : Type ℓ} (test : Row → Bool) (rows : List Row) (r : Row)
    → select_one test rows ≡ some r
    → Memᴰ r rows
mem-select_one test [] r e = absurd (cc)
mem-select_one test (x ∷ rows) r e = elim (Bool-cases (test x)) [
  | inl t ↦ Memᴰ.head (ground arith)
  | inr t ↦ Memᴰ.tail (mem-select_one test rows r (ground arith))
]

-- A column with a UNIQUE constraint.
module _ {ℓ κ} {Row : Type ℓ} {Key : Type κ} (key : Row → Key) where
  abbrev pub Lacks : Key → List Row → Type κ
  Lacks k rows = All (λ r. key r ≢ k) rows

  abbrev pub IsUnique : List Row → Type κ
  IsUnique [] = Unit
  IsUnique (r ∷ rows) = Lacks (key r) rows × IsUnique rows

  pub IsUnique-update_where :
      (test : Row → Bool) (change : Row → Row) (rows : List Row)
      → ((r : Row) → key (change r) ≡ key r)
      → IsUnique rows
      → IsUnique (update_where test change rows)
  IsUnique-update_where test change [] same h = tt
  IsUnique-update_where test change (r ∷ rows) same (p, h) = (
    if_intro (λ x. Lacks (key x) (update_where test change rows)) (test r) (λ _. rw (same r) lacks)
        (λ _. lacks),
    IsUnique-update_where test change rows same h,
  )
    where
      lacks : Lacks (key r) (update_where test change rows)
      lacks =
          All-update_where (λ x. key x ≢ key r) test change rows (λ x t q e. q (sym (same x) ∙ e)) p

  pub IsUnique-delete_where :
      (test : Row → Bool) (rows : List Row) → IsUnique rows → IsUnique (delete_where test rows)
  IsUnique-delete_where test [] h = tt
  IsUnique-delete_where test (r ∷ rows) (p, h) =
      if_intro IsUnique (test r) (λ _. IsUnique-delete_where test rows h)
        (λ _. (All-delete_where _ test rows p, IsUnique-delete_where test rows h))

  -- A key names one row.
  pub IsUnique-mem :
      (rows : List Row) {r : Row}
      → IsUnique rows
      → Memᴰ r rows
      → All (λ x. key x ≡ key r → x ≡ r) rows
  IsUnique-mem [] h m = tt
  IsUnique-mem (x ∷ rows) {r} (p, h) (Memᴰ.head e) =
      (λ _. sym e, All-map _ _ rows (λ y q d. absurd (q (d ∙ ap key e))) p)
  IsUnique-mem (x ∷ rows) {r} (p, h) (Memᴰ.tail m) =
      (λ d. absurd (All-mem (λ y. key y ≢ key x) rows m p (sym d)), IsUnique-mem rows h m)

-- Rows that a statement does and does not touch.
module _ {ℓ} {Row : Type ℓ} (test : Row → Bool) where
  pub mem-update_where_miss :
      (change : Row → Row) (rows : List Row) {r : Row}
      → test r ≡ false
      → Memᴰ r rows
      → Memᴰ r (update_where test change rows)
  mem-update_where_miss change [] t m = elim m [ ]
  mem-update_where_miss change (x ∷ rows) {r} t (Memᴰ.head e) =
      Memᴰ.head (subst (λ y. r ≡ (if test y then change y else y)) e (rw t refl))
  mem-update_where_miss change (x ∷ rows) t (Memᴰ.tail m) =
      Memᴰ.tail (mem-update_where_miss change rows t m)

  pub mem-update_where_hit :
      (change : Row → Row) (rows : List Row) {r : Row}
      → test r ≡ true
      → Memᴰ r rows
      → Memᴰ (change r) (update_where test change rows)
  mem-update_where_hit change [] t m = elim m [ ]
  mem-update_where_hit change (x ∷ rows) {r} t (Memᴰ.head e) =
      Memᴰ.head (subst (λ y. change r ≡ (if test y then change y else y)) e (rw t refl))
  mem-update_where_hit change (x ∷ rows) t (Memᴰ.tail m) =
      Memᴰ.tail (mem-update_where_hit change rows t m)

  pub mem-delete_where_miss :
      (rows : List Row) {r : Row} → test r ≡ false → Memᴰ r rows → Memᴰ r (delete_where test rows)
  mem-delete_where_miss [] t m = elim m [ ]
  mem-delete_where_miss (x ∷ rows) {r} t (Memᴰ.head e) =
      if_intro (Memᴰ r) (test x) (λ h. absurd (cc (ap test e))) (λ h. Memᴰ.head e)
  mem-delete_where_miss (x ∷ rows) {r} t (Memᴰ.tail m) =
      if_intro (Memᴰ r) (test x) (λ h. mem-delete_where_miss rows t m)
        (λ h. Memᴰ.tail (mem-delete_where_miss rows t m))

-- Nothing is found exactly when no row passes the test.
module _ {ℓ} {Row : Type ℓ} (test : Row → Bool) where
  pub select_one-none :
      (rows : List Row) → All (λ r. test r ≡ false) rows → select_one test rows ≡ none
  select_one-none [] h = refl
  select_one-none (r ∷ rows) (p, h) = rw p (select_one-none rows h)

  pub select_one-All :
      (rows : List Row) → select_one test rows ≡ none → All (λ r. test r ≡ false) rows
  select_one-All [] e = tt
  select_one-All (r ∷ rows) e = elim (Bool-cases (test r)) [
    | inl t ↦ absurd (ground arith)
    | inr t ↦ (t, select_one-All rows (ground arith))
  ]

  -- The only row that passes is the one found.
  pub select_one-only :
      (rows : List Row) (r : Row)
      → Memᴰ r rows
      → test r ≡ true
      → All (λ x. test x ≡ true → x ≡ r) rows
      → select_one test rows ≡ some r
  select_one-only [] r m t h = elim m [ ]
  select_one-only (x ∷ rows) r m t (p, h) = elim (Bool-cases (test x)) [
    | inl q ↦ rw q (ap some (p q))
    | inr q ↦ rw q (select_one-only rows r (later m q) t h)
  ]
    where
      later : Memᴰ r (x ∷ rows) → test x ≡ false → Memᴰ r rows
      later (Memᴰ.head e) q = absurd (cc (ap test e))
      later (Memᴰ.tail m) q = m
