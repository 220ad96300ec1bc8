-- ===== src/MapCache.antt =====
-- lib/MapCache.h: a map whose oldest entries can be removed. The hash map is an association list,
-- the deque of keys a list, oldest first. Keys are numbers here (they are uuids in the client).
mod Laws
mod Tests
use pulsar_client_cpp.Prelude.{
  ℕ, zero, suc, ◌+◌, Bool, true, false, Option, none, some, List, [], ◌∷◌, ◌++◌, length, ◌==◌,
  if◌then◌else◌,
}

module _ {ℓ} {V : Type ℓ} where
  unfoldable pub find : ℕ → List (ℕ × V) → Option V
  find k [] = none
  find k ((j, v) ∷ m) = if j == k then some v else find k m

  unfoldable pub erase : ℕ → List (ℕ × V) → List (ℕ × V)
  erase k [] = []
  erase k ((j, v) ∷ m) = if j == k then m else (j, v) ∷ erase k m

-- `removeKeyFromKeys`.
unfoldable pub remove_key : ℕ → List ℕ → List ℕ
remove_key k [] = []
remove_key k (j ∷ ks) = if j == k then ks else j ∷ remove_key k ks

pub record MapCache {ℓ} (V : Type ℓ) : Type ℓ where
  pub map_ : List (ℕ × V)
  pub keys : List ℕ

module _ {ℓ} {V : Type ℓ} where
  abbrev pub empty : MapCache V
  empty = record { map_ = []; keys = [] }

  -- The boolean says whether the entry was made.
  unfoldable pub put_if_absent : MapCache V → ℕ → V → Bool × MapCache V
  put_if_absent c k v = elim (find k c.map_) [
    | none ↦ (true, record { map_ = (k, v) ∷ c.map_; keys = c.keys ++ (k ∷ []) })
    | some w ↦ (false, c)
  ]

  -- `removeOldestValues`: the entries that the callback is given, oldest first, and the rest.
  unfoldable pub remove_oldest_values : ℕ → List (ℕ × V) → List ℕ → List (ℕ × V) × MapCache V
  remove_oldest_values zero m ks = ([], record { map_ = m; keys = ks })
  remove_oldest_values (suc n) m [] = ([], record { map_ = m; keys = [] })
  remove_oldest_values (suc n) m (k ∷ ks) =
      let (removed, c) = remove_oldest_values n (erase k m) ks in
      elim (find k m) [ none ↦ (removed, c) | some v ↦ ((k, v) ∷ removed, c) ]

  -- `removeOldestValuesIf`. `none`: the loop does not end, since a front key without an entry is
  -- looked at again and again.
  unfoldable pub remove_oldest_values_if :
      (ℕ → V → Bool) → List (ℕ × V) → List ℕ → Option (MapCache V)
  remove_oldest_values_if condition m [] = some (record { map_ = m; keys = [] })
  remove_oldest_values_if condition m (k ∷ ks) =
      let rest = remove_oldest_values_if condition (erase k m) ks in
      elim (find k m) [
        | none ↦ none
        | some v ↦ if condition k v then rest else some (record { map_ = m; keys = k ∷ ks })
      ]

  unfoldable pub remove : MapCache V → ℕ → MapCache V
  remove c k = elim (find k c.map_) [
    | none ↦ c
    | some v ↦ record { map_ = erase k c.map_; keys = remove_key k c.keys }
  ]
