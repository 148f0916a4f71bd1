-- ===== src/Cache/Store.antt =====
-- The operations of the class TtlCache of src/utils/ttlCache.js. The map is a list of its entries, one
-- for each key; owner and version, the same for all keys of a cache, are left out of the keys. A key
-- stands for the text that `String(key)` gives.
use be_weavecarbon.Common.{
  ℕ, ◌+◌, String, Bool, ◌||◌, Option, none, some, List, [], ◌∷◌, leb, str_eq, if◌then◌else◌,
  select_one, delete_where,
}

pub record Entry (V : Type 0) : Type 0 where
  pub raw_key : String
  pub value : V
  pub expires_at : ℕ

module _ {V : Type 0} where
  abbrev pub has_key : String → Entry V → Bool
  has_key key e = str_eq e.raw_key key

  -- `_isExpired` of an entry.
  abbrev pub has_expired : ℕ → Entry V → Bool
  has_expired now e = leb e.expires_at now

  abbrev pub find_entry : String → List (Entry V) → Option (Entry V)
  find_entry key entries = select_one (has_key key) entries

  -- `get`: the map after it, the value, and the result that is counted. An absent entry counts as
  -- expired, as `_isExpired` says of it.
  unfoldable pub get : ℕ → String → List (Entry V) → List (Entry V) × Option V × String
  get now key entries = elim (find_entry key entries) [
    | none ↦ (delete_where (has_key key) entries, none, "expired")
    | some e ↦
        if has_expired now e
        then (delete_where (has_key key) entries, none, "expired")
        else (entries, some e.value, "hit")
  ]

  unfoldable pub set : ℕ → ℕ → String → V → List (Entry V) → List (Entry V)
  set now ttl_ms key value entries =
      (record { raw_key = key; value = value; expires_at = now + ttl_ms })
      ∷ delete_where (has_key key) entries

  unfoldable pub delete : String → List (Entry V) → List (Entry V)
  delete key entries = delete_where (has_key key) entries

  unfoldable pub delete_matching : ℕ → (String → V → Bool) → List (Entry V) → List (Entry V)
  delete_matching now predicate entries =
      delete_where (λ e. has_expired now e || predicate e.raw_key e.value) entries

  unfoldable pub clear : List (Entry V) → List (Entry V)
  clear entries = []

-- A call of an operation that changes the map.
pub data Call (V : Type 0) : Type 0 where
  got : String → Call V
  stored : ℕ → String → V → Call V
  deleted : String → Call V
  deleted_matching : (String → V → Bool) → Call V
  cleared : Call V

module _ {V : Type 0} where
  abbrev pub call : ℕ → Call V → List (Entry V) → List (Entry V)
  call now (got key) entries = (get now key entries).0
  call now (stored ttl_ms key value) entries = set now ttl_ms key value entries
  call now (deleted key) entries = delete key entries
  call now (deleted_matching predicate) entries = delete_matching now predicate entries
  call now cleared entries = clear entries

  -- The map after calls, the last one first, each with its time.
  unfoldable pub run : List (ℕ × Call V) → List (Entry V)
  run [] = []
  run ((now, c) ∷ calls) = call now c (run calls)
