-- ===== src/Cache/Matches.antt =====
-- The cache of src/utils/ttlCache.js and what was written to it last, key by key.
use be_weavecarbon.Common.{
  ℕ, ◌+◌, ◌≤◌, String, Bool, true, false, ◌||◌, ◌≡◌, ◌≢◌, refl, sym, ap, ◌∙◌, Option, none, some,
  List, [], ◌∷◌, arith, str_eq, str_eq_iff, if◌then◌else◌, All-map, IsUnique, Lacks,
  select_one-none, delete_where, select_one_sound, if_intro, Option-cases, Bool-cases, inl, inr,
}
use be_weavecarbon.Cache.Store.{
  Entry, Call, has_key, has_expired, find_entry, got, stored, deleted, deleted_matching, cleared,
}

pub str_eq_comm : (x y : String) → str_eq x y ≡ str_eq y x
str_eq_comm x y = elim (Bool-cases (str_eq x y)) [
  | inl t ↦ t ∙ sym ((str_eq_iff y x).1 (sym ((str_eq_iff x y).0 t)))
  | inr f ↦ elim (Bool-cases (str_eq y x)) [
    | inr g ↦ f ∙ sym g
    | inl u ↦ absurd (cc ((str_eq_iff x y).1 (sym ((str_eq_iff y x).0 u)), f))
  ]
]

module _ {V : Type 0} where
  abbrev pub key_of : Entry V → String
  key_of e = e.raw_key

  -- What is left of an entry that was found.
  abbrev pub unless : (Entry V → Bool) → Option (Entry V) → Option (Entry V)
  unless q none = none
  unless q (some e) = if q e then none else some e

  find-none :
      (key : String) (e : Entry V) (rows : List (Entry V))
      → has_key key e ≡ true
      → Lacks key_of e.raw_key rows
      → find_entry key rows ≡ none
  find-none key e rows t h = select_one-none (has_key key) rows (
      All-map (λ (x : Entry V). x.raw_key ≢ e.raw_key) (λ x. has_key key x ≡ false) rows
        (λ x p. apart x p) h)
    where
      apart : (x : Entry V) → x.raw_key ≢ e.raw_key → has_key key x ≡ false
      apart x p = elim (Bool-cases (has_key key x)) [
        | inr f ↦ f
        | inl u ↦ absurd (p ((str_eq_iff x.raw_key key).0 u ∙ sym ((str_eq_iff e.raw_key key).0 t)))
      ]

  -- Where the keys are unique, a deletion leaves what is found unless it deletes it.
  pub find-delete_where :
      (key : String) (q : Entry V → Bool) (rows : List (Entry V))
      → IsUnique key_of rows
      → find_entry key (delete_where q rows) ≡ unless q (find_entry key rows)
  find-delete_where key q [] h = refl
  find-delete_where key q (e ∷ rows) (p, h) = elim (Bool-cases (has_key key e)) [
    | inl t ↦ elim (Bool-cases (q e)) [
      | inl u ↦
          rw (u, t, u) (find-delete_where key q rows h ∙ ap (unless q) (find-none key e rows t p))
      | inr u ↦ rw (u, t, u) refl
    ]
    | inr t ↦ elim (Bool-cases (q e)) [
      | inl u ↦ rw (u, t) (find-delete_where key q rows h)
      | inr u ↦ rw (u, t) (find-delete_where key q rows h)
    ]
  ]

  -- What was written last for a key and not deleted since.
  unfoldable pub last_written : List (ℕ × Call V) → String → Option (Entry V)
  last_written [] key = none
  last_written ((now, got k) ∷ calls) key = last_written calls key
  last_written ((now, stored ttl_ms k value) ∷ calls) key =
      let before = last_written calls key in
      if str_eq k key
      then some (record { raw_key = k; value = value; expires_at = now + ttl_ms })
      else before
  last_written ((now, deleted k) ∷ calls) key =
      let before = last_written calls key in if str_eq key k then none else before
  last_written ((now, deleted_matching predicate) ∷ calls) key =
      unless (λ e. predicate e.raw_key e.value) (last_written calls key)
  last_written ((now, cleared) ∷ calls) key = none

  -- The value, unless it has expired.
  abbrev pub answer : ℕ → Option (Entry V) → Option V
  answer now none = none
  answer now (some e) = if has_expired now e then none else some e.value

  -- What the map holds of what was written last: the same, or nothing once it has expired.
  pub data Match (now : ℕ) : Option (Entry V) → Option (Entry V) → Type 0 where
    same : {o : Option (Entry V)} → Match now o o
    gone : (e : Entry V) → e.expires_at ≤ now → Match now none (some e)

  pub Match-later :
      (now later : ℕ) (o s : Option (Entry V)) → now ≤ later → Match now o s → Match later o s
  Match-later now later o s h Match.same = Match.same
  Match-later now later o s h (Match.gone e k) = Match.gone e (omega arith)

  pub Match-answer :
      (now : ℕ) (o s : Option (Entry V)) → Match now o s → answer now o ≡ answer now s
  Match-answer now o s Match.same = refl
  Match-answer now o s (Match.gone e k) = ground arith

  -- A deletion on both sides.
  Match-unless :
      (now : ℕ) (q : Entry V → Bool) (o s : Option (Entry V))
      → Match now o s
      → Match now (unless q o) (unless q s)
  Match-unless now q o s Match.same = Match.same
  Match-unless now q o s (Match.gone e k) =
      if_intro (Match now none) (q e) (λ _. Match.same) (λ _. Match.gone e k)

  -- A deletion of what has expired on one side.
  pub Match-expired :
      (now : ℕ) (q : Entry V → Bool) (o s : Option (Entry V))
      → Match now o s
      → Match now (unless (λ e. has_expired now e || q e) o) (unless q s)
  Match-expired now q none none Match.same = Match.same
  Match-expired now q (some e) s Match.same = elim (Bool-cases (has_expired now e)) [
    | inl t ↦
        rw t (
          if_intro (Match now none) (q e) (λ _. Match.same) (λ _. Match.gone e (ground (arith, t))))
    | inr t ↦ rw t Match.same
  ]
  Match-expired now q o s (Match.gone e k) =
      if_intro (Match now none) (q e) (λ _. Match.same) (λ _. Match.gone e k)

  -- What is found under a key has the key.
  found_key :
      (key k : String) (e : Entry V) (rows : List (Entry V))
      → find_entry key rows ≡ some e
      → has_key k e ≡ str_eq key k
  found_key key k e rows f =
      ap (λ x. str_eq x k) ((str_eq_iff e.raw_key key).0 (select_one_sound (has_key key) rows e f))

  pub unless-key :
      (key k : String) (rows : List (Entry V))
      → unless (has_key k) (find_entry key rows)
        ≡ (if str_eq key k then none else find_entry key rows)
  unless-key key k rows = elim (Option-cases (find_entry key rows)) [
    | inl n ↦ rw n (if_intro (λ o. none ≡ o) (str_eq key k) (λ _. refl) (λ _. refl))
    | inr (e, f) ↦ rw (f, found_key key k e rows f) refl
  ]
