-- ===== src/Cache/Refined.antt =====
-- What the cache of src/utils/ttlCache.js holds after any calls.
use be_weavecarbon.Common.{
  ℕ, ◌≤◌, String, Bool, false, ◌||◌, ◌≡◌, ◌≢◌, refl, sym, ap, ◌∙◌, subst, Option, none, some, List,
  [], ◌∷◌, arith, str_eq, str_eq_iff, if◌then◌else◌, All-trivial, All-delete_where_to, IsUnique,
  IsUnique-delete_where, delete_where, Option-cases, Bool-cases, inl, inr,
}
use be_weavecarbon.Cache.Store.{
  Entry, Call, has_key, has_expired, find_entry, get, set, delete, delete_matching, clear, got,
  stored, deleted, deleted_matching, cleared, call, run,
}
use be_weavecarbon.Cache.Matches.{
  key_of, unless, find-delete_where, last_written, answer, Match, Match-later, Match-answer,
  Match-expired, unless-key, str_eq_comm,
}

module _ {V : Type 0} where
  -- The map holds what was written last, as far as it has not expired.
  pub record Agrees (now : ℕ) (calls : List (ℕ × Call V)) (entries : List (Entry V)) : Type 0 where
    pub unique : IsUnique key_of entries
    pub matches : (key : String) → Match now (find_entry key entries) (last_written calls key)

  -- A deletion by key.
  delete-matches :
      (now : ℕ) (k key : String) (entries : List (Entry V)) (o : Option (Entry V))
      → IsUnique key_of entries
      → Match now (find_entry key entries) o
      → Match now
          (find_entry key (delete_where (has_key k) entries))
          (if str_eq key k then none else o)
  delete-matches now k key entries o u m =
      subst (λ x. Match now x (if str_eq key k then none else o))
        (sym (find-delete_where key (has_key k) entries u ∙ unless-key key k entries))
        (elim (Bool-cases (str_eq key k)) [ inl t ↦ rw t Match.same | inr t ↦ rw t m ])

  -- Once it has expired, an entry may go.
  Match-none :
      (now : ℕ) (o s : Option (Entry V)) → answer now o ≡ none → Match now o s → Match now none s
  Match-none now none s e Match.same = Match.same
  Match-none now (some x) s e Match.same = Match.gone x (ground (arith, e))
  Match-none now o s e (Match.gone x k) = Match.gone x k

  other-matches :
      (now : ℕ) (k key : String) (entries : List (Entry V)) (o : Option (Entry V))
      → IsUnique key_of entries
      → str_eq k key ≡ false
      → Match now (find_entry key entries) o
      → Match now (find_entry key (delete_where (has_key k) entries)) o
  other-matches now k key entries o u t m =
      subst
        (λ b. Match now (find_entry key (delete_where (has_key k) entries)) (if b then none else o))
        (str_eq_comm key k ∙ t) (delete-matches now k key entries o u m)

  drop-matches :
      (now : ℕ) (k key : String) (entries : List (Entry V)) (o : Option (Entry V))
      → IsUnique key_of entries
      → answer now (find_entry k entries) ≡ none
      → Match now (find_entry key entries) o
      → Match now (find_entry key (delete_where (has_key k) entries)) o
  drop-matches now k key entries o u e m =
      subst (λ x. Match now x o)
        (sym (find-delete_where key (has_key k) entries u ∙ unless-key key k entries))
        (elim (Bool-cases (str_eq key k)) [
          | inr t ↦ rw t m
          | inl t ↦ rw t (
              Match-none now (find_entry key entries) o
                (ap (λ x. answer now (find_entry x entries)) ((str_eq_iff key k).0 t) ∙ e) m)
        ])

  drop-Agrees :
      (now : ℕ) (k : String) (calls : List (ℕ × Call V)) (entries : List (Entry V))
      → answer now (find_entry k entries) ≡ none
      → Agrees now calls entries
      → Agrees now ((now, got k) ∷ calls) (delete_where (has_key k) entries)
  unfolding last_written
  drop-Agrees now k calls entries e h = record {
    unique = IsUnique-delete_where key_of (has_key k) entries h.unique;
    matches =
        λ key. drop-matches now k key entries (last_written calls key) h.unique e (h.matches key);
  }

  get-Agrees :
      (now : ℕ) (k : String) (calls : List (ℕ × Call V)) (entries : List (Entry V))
      → Agrees now calls entries
      → Agrees now ((now, got k) ∷ calls) (get now k entries).0
  unfolding get last_written
  get-Agrees now k calls entries h = elim (Option-cases (find_entry k entries)) [
    | inl n ↦ rw (n, get) (drop-Agrees now k calls entries (ap (answer now) n) h)
    | inr (e, f) ↦ elim (Bool-cases (has_expired now e)) [
      | inl t ↦ rw (f, t, get) (drop-Agrees now k calls entries (ap (answer now) f ∙ rw t refl) h)
      | inr t ↦ rw (f, t, get) (record { unique = h.unique; matches = h.matches })
    ]
  ]

  set-Agrees :
      (now ttl_ms : ℕ) (k : String) (value : V) (calls : List (ℕ × Call V))
      (entries : List (Entry V))
      → Agrees now calls entries
      → Agrees now ((now, stored ttl_ms k value) ∷ calls) (set now ttl_ms k value entries)
  unfolding set last_written
  set-Agrees now ttl_ms k value calls entries h = record {
    unique = (
      All-delete_where_to (λ _. Unit {0}) (has_key k) (λ (x : Entry V). x.raw_key ≢ k) entries
          (λ x t _ e. absurd (cc (t, (str_eq_iff x.raw_key k).1 e))) (All-trivial entries),
      IsUnique-delete_where key_of (has_key k) entries h.unique,
    );
    matches = λ key. elim (Bool-cases (str_eq k key)) [
      | inl t ↦ rw t Match.same
      | inr t ↦
          rw t (other-matches now k key entries (last_written calls key) h.unique t (h.matches key))
    ];
  }

  delete-Agrees :
      (now : ℕ) (k : String) (calls : List (ℕ × Call V)) (entries : List (Entry V))
      → Agrees now calls entries
      → Agrees now ((now, deleted k) ∷ calls) (delete k entries)
  unfolding delete last_written
  delete-Agrees now k calls entries h = record {
    unique = IsUnique-delete_where key_of (has_key k) entries h.unique;
    matches =
        λ key. delete-matches now k key entries (last_written calls key) h.unique (h.matches key);
  }

  delete_matching-Agrees :
      (now : ℕ) (p : String → V → Bool) (calls : List (ℕ × Call V)) (entries : List (Entry V))
      → Agrees now calls entries
      → Agrees now ((now, deleted_matching p) ∷ calls) (delete_matching now p entries)
  unfolding delete_matching last_written
  delete_matching-Agrees now p calls entries h = record {
    unique =
        IsUnique-delete_where key_of (λ e. has_expired now e || p e.raw_key e.value) entries
          h.unique;
    matches = λ key.
        subst (λ o. Match now o (unless (λ e. p e.raw_key e.value) (last_written calls key)))
          (sym (
            find-delete_where key (λ e. has_expired now e || p e.raw_key e.value) entries h.unique))
          (Match-expired now (λ e. p e.raw_key e.value) (find_entry key entries)
            (last_written calls key) (h.matches key));
  }

  call-Agrees :
      (now : ℕ) (c : Call V) (calls : List (ℕ × Call V)) (entries : List (Entry V))
      → Agrees now calls entries
      → Agrees now ((now, c) ∷ calls) (call now c entries)
  unfolding clear last_written
  call-Agrees now (got k) calls entries h = get-Agrees now k calls entries h
  call-Agrees now (stored ttl_ms k value) calls entries h =
      set-Agrees now ttl_ms k value calls entries h
  call-Agrees now (deleted k) calls entries h = delete-Agrees now k calls entries h
  call-Agrees now (deleted_matching p) calls entries h =
      delete_matching-Agrees now p calls entries h
  call-Agrees now cleared calls entries h = record { unique = tt; matches = λ key. Match.same }

  -- The clock does not go back.
  abbrev pub IsOrdered : ℕ → List (ℕ × Call V) → Type 0
  IsOrdered now [] = Unit
  IsOrdered now ((at, c) ∷ calls) = (at ≤ now) × IsOrdered at calls

  later-Agrees :
      (now later : ℕ) (calls : List (ℕ × Call V)) (entries : List (Entry V))
      → now ≤ later
      → Agrees now calls entries
      → Agrees later calls entries
  later-Agrees now later calls entries le h = record {
    unique = h.unique;
    matches = λ key. Match-later now later _ _ le (h.matches key);
  }

  run-Agrees :
      (now : ℕ) (calls : List (ℕ × Call V)) → IsOrdered now calls → Agrees now calls (run calls)
  unfolding run last_written
  run-Agrees now [] o = record { unique = tt; matches = λ key. Match.same }
  run-Agrees now ((at, c) ∷ calls) (le, o) =
      later-Agrees at now ((at, c) ∷ calls) _ le
        (call-Agrees at c calls (run calls) (run-Agrees at calls o))

  get-answer :
      (now : ℕ) (key : String) (entries : List (Entry V))
      → (get now key entries).1 ≡ answer now (find_entry key entries)
  unfolding get
  get-answer now key entries = elim (Option-cases (find_entry key entries)) [
    | inl n ↦ rw (n, get) refl
    | inr (e, f) ↦ elim (Bool-cases (has_expired now e)) [
      | inl t ↦ rw (f, t, get) refl
      | inr t ↦ rw (f, t, get) refl
    ]
  ]

-- After any calls in the order of a clock that does not go back, a later get answers the value that
-- was written last for the key, unless it was deleted since or its time to live is over.
pub get-last_written :
    {V : Type 0} (now : ℕ) (key : String) (calls : List (ℕ × Call V))
    → IsOrdered now calls
    → (get now key (run calls)).1 ≡ answer now (last_written calls key)
get-last_written now key calls o =
    get-answer now key (run calls) ∙ Match-answer now _ _ ((run-Agrees now calls o).matches key)
