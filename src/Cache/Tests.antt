-- ===== src/Cache/Tests.antt =====
-- Runs of the cache.
use be_weavecarbon.Common.{ℕ, ◌≡◌, refl, none, some, List, [], ◌∷◌, str_eq, arith}
use be_weavecarbon.Cache.Store.{Call, get, set, delete_matching, run, stored, deleted_matching, got}
use be_weavecarbon.Cache.Matches.{answer, last_written}
use be_weavecarbon.Cache.Refined.{get-last_written}

-- The last call first.
abbrev calls : List (ℕ × Call ℕ)
calls =
    (30, deleted_matching (λ k v. str_eq k "b"))
    ∷ (20, stored 100 "a" 2)
    ∷ (10, got "a")
    ∷ (5, stored 1000 "b" 7)
    ∷ (0, stored 50 "a" 1)
    ∷ []

get-last_written_example : (get 100 "a" (run calls)).1 ≡ answer 100 (last_written calls "a")
get-last_written_example =
    get-last_written 100 "a" calls
      (omega arith, (omega arith, (omega arith, (omega arith, (omega arith, tt)))))

reads :
    ((get 100 "a" (run calls)).1 ≡ some 2)
    × ((get 100 "b" (run calls)).1 ≡ none)
    × ((get 120 "a" (run calls)).1 ≡ none)
unfolding get run set delete_matching
reads = (refl, refl, refl)

-- A key that was never written counts as expired, not as a miss.
counts : (get 0 "a" (run {V = ℕ} [])).2 ≡ "expired"
unfolding get run
counts = refl
