-- ===== src/Common/Selections.antt =====
-- The rows that a selection returns, as members of the table.
use mathlib.Core.Path.{◌≡◌, refl, sym, subst, ap}
use mathlib.Core.Logic.{inl, inr}
use mathlib.Core.Bool.{Bool, true}
use mathlib.Core.List.{List, [], ◌∷◌, map, Memᴰ}
use native.Mathlib.Omega.{arith}
use be_weavecarbon.Common.Tests.{if_intro, Bool-cases}
use be_weavecarbon.Common.Lists.{any, All, is_some}
use be_weavecarbon.Common.Tables.{select_one, select_where, delete_where, update_where}

module _ {ℓ} {Row : Type ℓ} (test : Row → Bool) where
  -- A row returned is a row of the table that passes the test.
  pub mem-select_where_sound :
      (rows : List Row) {r : Row} → Memᴰ r (select_where test rows) → Memᴰ r rows × (test r ≡ true)
  mem-select_where_sound [] m = elim m [ ]
  mem-select_where_sound (x ∷ rows) {r} m =
      if_intro (λ found. Memᴰ r found → Memᴰ r (x ∷ rows) × (test r ≡ true)) (test x)
        (hit (λ k. mem-select_where_sound rows k)) (λ _ k. later (mem-select_where_sound rows k)) m
    where
      later : Memᴰ r rows × (test r ≡ true) → Memᴰ r (x ∷ rows) × (test r ≡ true)
      later (k, t) = (Memᴰ.tail k, t)

      hit :
          (Memᴰ r (select_where test rows) → Memᴰ r rows × (test r ≡ true))
          → test x ≡ true
          → Memᴰ r (x ∷ select_where test rows)
          → Memᴰ r (x ∷ rows) × (test r ≡ true)
      hit rest t (Memᴰ.head e) = (Memᴰ.head e, subst (λ y. test y ≡ true) (sym e) t)
      hit rest t (Memᴰ.tail k) = later (rest k)

  -- And every such row is returned.
  pub mem-select_where :
      (rows : List Row) {r : Row} → Memᴰ r rows → test r ≡ true → Memᴰ r (select_where test rows)
  mem-select_where [] m t = elim m [ ]
  mem-select_where (x ∷ rows) {r} (Memᴰ.head e) t =
      if_intro (Memᴰ r) (test x) (λ _. Memᴰ.head e) (λ f. absurd (cc (ap test e)))
  mem-select_where (x ∷ rows) {r} (Memᴰ.tail m) t =
      if_intro (Memᴰ r) (test x) (λ _. Memᴰ.tail (mem-select_where rows m t))
        (λ _. mem-select_where rows m t)

  -- A test that a member passes is passed by one.
  pub any-mem : (rows : List Row) {r : Row} → Memᴰ r rows → test r ≡ true → any test rows ≡ true
  any-mem [] m t = elim m [ ]
  any-mem (x ∷ rows) (Memᴰ.head e) t = ground (arith, ap test e)
  any-mem (x ∷ rows) (Memᴰ.tail m) t = ground (arith, any-mem rows m t)

pub mem-map {ℓ κ} :
    {A : Type ℓ} {B : Type κ} (f : A → B) (xs : List A) {x : A} → Memᴰ x xs → Memᴰ (f x) (map f xs)
mem-map f [] m = elim m [ ]
mem-map f (y ∷ xs) (Memᴰ.head e) = Memᴰ.head (ap f e)
mem-map f (y ∷ xs) (Memᴰ.tail m) = Memᴰ.tail (mem-map f xs m)

-- What holds of each member holds of all.
pub All-every {ℓ κ} :
    {A : Type ℓ} (P : A → Type κ) (xs : List A) → ((x : A) → Memᴰ x xs → P x) → All P xs
All-every P [] f = tt
All-every P (x ∷ xs) f = (f x (Memᴰ.head refl), All-every P xs (λ y m. f y (Memᴰ.tail m)))

-- A test that one passes is passed by a member.
pub any-found {ℓ} :
    {A : Type ℓ} (test : A → Bool) (xs : List A)
    → any test xs ≡ true
    → (x : A) × Memᴰ x xs × (test x ≡ true)
any-found {A = A} test [] h = absurd (cc)
any-found {A = A} test (x ∷ xs) h = elim (Bool-cases (test x)) [
  | inl t ↦ (x, Memᴰ.head refl, t)
  | inr t ↦ later (any-found test xs (ground arith))
]
  where
    later : (y : A) × Memᴰ y xs × (test y ≡ true) → (y : A) × Memᴰ y (x ∷ xs) × (test y ≡ true)
    later (y, m, t) = (y, Memᴰ.tail m, t)

-- A statement that does not change what a test sees.
pub any-update_where {ℓ} :
    {Row : Type ℓ} (p test : Row → Bool) (change : Row → Row) (rows : List Row)
    → ((r : Row) → p (change r) ≡ p r)
    → any p (update_where test change rows) ≡ any p rows
any-update_where p test change [] same = refl
any-update_where p test change (r ∷ rows) same = elim (Bool-cases (test r)) [
  | inl t ↦ rw (t, same r, any-update_where p test change rows same) refl
  | inr t ↦ rw (t, any-update_where p test change rows same) refl
]

-- `SELECT ... WHERE test LIMIT 1` finds something where a row passes.
pub is_some-select_one {ℓ} :
    {Row : Type ℓ} (test : Row → Bool) (rows : List Row) {r : Row}
    → Memᴰ r rows
    → test r ≡ true
    → is_some (select_one test rows) ≡ true
is_some-select_one test [] m t = elim m [ ]
is_some-select_one test (x ∷ rows) (Memᴰ.head e) t = ground (arith, ap test e)
is_some-select_one test (x ∷ rows) (Memᴰ.tail m) t =
    ground (arith, is_some-select_one test rows m t)

-- An `UPDATE` of rows of one kind leaves those of the others.
pub delete_where-update_where {ℓ} :
    {Row : Type ℓ} (kind test : Row → Bool) (change : Row → Row) (rows : List Row)
    → ((r : Row) → test r ≡ true → kind r ≡ true)
    → ((r : Row) → kind (change r) ≡ kind r)
    → delete_where kind (update_where test change rows) ≡ delete_where kind rows
delete_where-update_where kind test change [] narrow same = refl
delete_where-update_where kind test change (r ∷ rows) narrow same =
    let rest = delete_where-update_where kind test change rows narrow same in
    elim (Bool-cases (test r)) [
      | inl t ↦ rw (t, same r, narrow r t) rest
      | inr t ↦ elim (Bool-cases (kind r)) [
        | inl u ↦ rw (t, u) rest
        | inr u ↦ rw (t, u) (ap (λ rows. r ∷ rows) rest)
      ]
    ]
