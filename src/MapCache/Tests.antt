-- ===== src/MapCache/Tests.antt =====
-- A cache with two entries, and the theorems on it.
use pulsar_client_cpp.Prelude.{ℕ, ◌≡◌, refl, Bool, ltb, some, List, [], ◌∷◌, arith}
use pulsar_client_cpp.MapCache.{
  MapCache, find, erase, remove_oldest_values, remove_oldest_values_if,
}
use pulsar_client_cpp.MapCache.Laws.{IsValid}

abbrev entries_ : List (ℕ × ℕ)
entries_ = (2, 20) ∷ (1, 10) ∷ []

abbrev cache : MapCache ℕ
cache = record { map_ = entries_; keys = 1 ∷ 2 ∷ [] }

cache-IsValid : IsValid entries_ (1 ∷ 2 ∷ [])
cache-IsValid = record { agree = λ k. ground arith; once = λ k. ground arith }

abbrev small : ℕ → ℕ → Bool
small k v = ltb v 15

remove_small :
    remove_oldest_values_if small entries_ (1 ∷ 2 ∷ [])
    ≡ some (record { map_ = (2, 20) ∷ []; keys = 2 ∷ [] })
unfolding remove_oldest_values_if find erase
remove_small = refl

abbrev oldest : List (ℕ × ℕ) × MapCache ℕ
oldest = remove_oldest_values 1 entries_ (1 ∷ 2 ∷ [])
