-- ===== src/Mfa/Active.antt =====
-- Which factor of a user is active (`active` of src/modules/auth/mfaService.js), and what enrolment,
-- confirmation and deactivation make of it.
use be_weavecarbon.Common.{
  ℕ, ◌<◌, Bool, true, false, ◌≡◌, refl, sym, ap, subst, ◌∙◌, Option, none, some, List, [], ◌∷◌,
  arith, ◌&&◌, if◌then◌else◌, All, All-map, inl, inr, Bool-cases, Option-cases, if_intro,
  select_one, ==_iff, some_inj, ltb,
}
use be_weavecarbon.Mfa.Factors.{
  Factor, of_user, newest, latest, active, is_enabled, is_disabled, was_enabled,
}
use be_weavecarbon.Mfa.History.{IsOrdered}

-- Where the tests agree on every row, they find the same.
select_one-agree :
    (p q : Factor → Bool) (factors : List Factor)
    → All (λ f. p f ≡ q f) factors
    → select_one p factors ≡ select_one q factors
select_one-agree p q [] h = refl
select_one-agree p q (f ∷ factors) (e, h) = rw (e, select_one-agree p q factors h) refl

newest-All :
    (test : Factor → Bool) (P : Factor → Type 0) (factors : List Factor) (f : Factor)
    → newest test factors ≡ some f
    → All P factors
    → P f
unfolding newest
newest-All test P [] f e h = absurd (cc)
newest-All test P (x ∷ factors) f e (p, h) = elim (Bool-cases (test x)) [
  | inr t ↦ newest-All test P factors f (rw (t, newest) at e) h
  | inl t ↦ elim (Option-cases (newest test factors)) [
    | inl n ↦ subst P (some_inj (rw (t, n, newest) at e)) p
    | inr (y, n) ↦
        subst P (some_inj (rw (t, n, newest) at e))
          (if_intro P (ltb x.revision y.revision) (λ _. newest-All test P factors y n h) (λ _. p))
  ]
]

-- In an ordered table the newest row of a user that passes a test is the first that does.
newest-first :
    (user : ℕ) (test : Factor → Bool) (factors : List Factor)
    → ((f : Factor) → test f ≡ true → f.user_id ≡ user)
    → IsOrdered factors
    → newest test factors ≡ select_one test factors
unfolding newest
newest-first user test [] own o = refl
newest-first user test (f ∷ factors) own (h, o) = elim (Bool-cases (test f)) [
  | inr t ↦ rw (t, newest) (newest-first user test factors own o)
  | inl t ↦ elim (Option-cases (newest test factors)) [
    | inl n ↦ rw (t, n, newest) refl
    | inr (g, n) ↦
        let older : g.revision < f.revision =
          newest-All test (λ x. x.user_id ≡ f.user_id → x.revision < f.revision) factors g n h
            (own g (newest_sound factors g n) ∙ sym (own f t)) in
        rw (t, n, newest) (ground arith)
  ]
]
  where
    newest_sound : (rows : List Factor) (g : Factor) → newest test rows ≡ some g → test g ≡ true
    newest_sound [] g e = absurd (cc)
    newest_sound (x ∷ rows) g e = elim (Bool-cases (test x)) [
      | inr t ↦ newest_sound rows g (rw (t, newest) at e)
      | inl t ↦ elim (Option-cases (newest test rows)) [
        | inl n ↦ subst (λ y. test y ≡ true) (some_inj (rw (t, n, newest) at e)) t
        | inr (y, n) ↦
            subst (λ z. test z ≡ true) (some_inj (rw (t, n, newest) at e))
              (if_intro (λ z. test z ≡ true) (ltb x.revision y.revision)
                (λ _. newest_sound rows y n) (λ _. t))
      ]
    ]

-- The last row that switched a factor of the user on.
abbrev pub switched_on : ℕ → Factor → Bool
switched_on user f = of_user user f && is_enabled f.status

pub latest-first :
    (user : ℕ) (factors : List Factor)
    → IsOrdered factors
    → latest user factors ≡ select_one (of_user user) factors
unfolding latest
latest-first user factors o =
    newest-first user (of_user user) factors (λ f t. (==_iff f.user_id user).0 t) o

-- Below a bound on all the revisions of a user, the search is for any that was switched on.
was_enabled-first :
    (user bound : ℕ) (factors : List Factor)
    → IsOrdered factors
    → All (λ f. f.user_id ≡ user → f.revision < bound) factors
    → newest (was_enabled user bound) factors ≡ select_one (switched_on user) factors
was_enabled-first user bound factors o h =
    newest-first user (was_enabled user bound) factors (λ f t. ground arith) o
    ∙ select_one-agree (was_enabled user bound) (switched_on user) factors
        (All-map _ _ factors (λ f below. ground arith) h)

pending-first :
    (user : ℕ) (factors : List Factor) (c : Factor)
    → IsOrdered factors
    → select_one (of_user user) factors ≡ some c
    → is_enabled c.status ≡ false
    → select_one (was_enabled user c.revision) factors ≡ select_one (switched_on user) factors
pending-first user [] c o e off = refl
pending-first user (f ∷ factors) c (h, o) e off = elim (Bool-cases (of_user user f)) [
  | inr t ↦ rw t (pending-first user factors c o (rw t at e) off)
  | inl t ↦
      let same : f ≡ c = some_inj (rw t at e) in
      let f_off : is_enabled f.status ≡ false = rw (ap (λ (x : Factor). x.status) same) off in
      let below : All (λ g. was_enabled user c.revision g ≡ switched_on user g) factors =
        All-map _ _ factors (λ g older. ground (arith, ap (λ (x : Factor). x.revision) same)) h in
      rw (t, f_off)
        (select_one-agree (was_enabled user c.revision) (switched_on user) factors below)
]

enabled-first :
    (user : ℕ) (factors : List Factor) (c : Factor)
    → select_one (of_user user) factors ≡ some c
    → is_enabled c.status ≡ true
    → select_one (switched_on user) factors ≡ some c
enabled-first user [] c e on = absurd (cc)
enabled-first user (f ∷ factors) c e on = elim (Bool-cases (of_user user f)) [
  | inr t ↦ rw t (enabled-first user factors c (rw t at e) on)
  | inl t ↦
      let same : f ≡ c = some_inj (rw t at e) in
      let f_on : is_enabled f.status ≡ true = rw (ap (λ (x : Factor). x.status) same) on in
      rw (t, f_on) (ap some same)
]

none-first :
    (user : ℕ) (factors : List Factor)
    → select_one (of_user user) factors ≡ none
    → select_one (switched_on user) factors ≡ none
none-first user [] e = refl
none-first user (f ∷ factors) e = elim (Bool-cases (of_user user f)) [
  | inl t ↦ absurd (ground arith)
  | inr t ↦ rw t (none-first user factors (rw t at e))
]

abbrev pub is_off : Option Factor → Bool
is_off none = false
is_off (some f) = is_disabled f.status

-- In an ordered table the active factor is the last that was switched on, unless the last revision
-- of the user switches the second factor off: then none is active.
pub active-switched_on :
    (user : ℕ) (factors : List Factor)
    → IsOrdered factors
    → active user factors ≡ (
        if is_off (select_one (of_user user) factors)
        then none
        else select_one (switched_on user) factors)
unfolding active
active-switched_on user factors o = elim (Option-cases (select_one (of_user user) factors)) [
  | inl e ↦ rw (latest-first user factors o, e, active) (sym (none-first user factors e))
  | inr (c, e) ↦ rw (latest-first user factors o, e, active) (by_status c e)
]
  where
    by_status :
        (c : Factor)
        → select_one (of_user user) factors ≡ some c
        → (if is_disabled c.status
            then none
            else if is_enabled c.status
            then some c
            else newest (was_enabled user c.revision) factors)
          ≡ (if is_disabled c.status then none else select_one (switched_on user) factors)
    by_status c e = elim (Bool-cases (is_disabled c.status)) [
      | inl d ↦ rw d refl
      | inr d ↦ elim (Bool-cases (is_enabled c.status)) [
        | inl on ↦ rw (d, on) (sym (enabled-first user factors c e on))
        | inr off ↦
            rw (d, off)
              (newest-first user (was_enabled user c.revision) factors (λ f t. ground arith) o
                ∙ pending-first user factors c o e off)
      ]
    ]
