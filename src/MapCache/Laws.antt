-- ===== src/MapCache/Laws.antt =====
-- The keys and the map of lib/MapCache.h.
use pulsar_client_cpp.Prelude.{
  ℕ, zero, suc, ◌≡◌, refl, ap, ◌⊎◌, inl, inr, Bool, Option, none, some, List, [], ◌∷◌, ◌++◌, ◌+◌,
  ◌-◌, ◌≤◌, ◌<◌, take, drop, ◌==◌, if◌then◌else◌, arith, Bool-cases,
}
use pulsar_client_cpp.MapCache.{
  find, erase, remove_key, MapCache, put_if_absent, remove_oldest_values, remove_oldest_values_if,
  remove,
}

abbrev pub count : ℕ → List ℕ → ℕ
count k [] = 0
count k (j ∷ ks) = if j == k then suc (count k ks) else count k ks

abbrev pub is_some {ℓ} : {A : Type ℓ} → Option A → ℕ
is_some none = 0
is_some (some a) = 1

module _ {ℓ} {V : Type ℓ} where
  abbrev pub entries : ℕ → List (ℕ × V) → ℕ
  entries k [] = 0
  entries k ((j, v) ∷ m) = if j == k then suc (entries k m) else entries k m

  -- Every key stands as often in the deque as in the map, and at most once.
  pub record IsValid (m : List (ℕ × V)) (ks : List ℕ) : Type ℓ where
    pub agree : (k : ℕ) → count k ks ≡ entries k m
    pub once : (k : ℕ) → count k ks ≤ 1

  entries-erase :
      (j k : ℕ) (m : List (ℕ × V))
      → entries j (erase k m) ≡ (if k == j then entries j m - 1 else entries j m)
  unfolding erase
  entries-erase j k [] = ground arith
  entries-erase j k ((i, v) ∷ m) = ground (arith, entries-erase j k m)

  find-entries :
      (k : ℕ) (m : List (ℕ × V))
      → ((find k m ≡ none) × (entries k m ≡ 0))
        ⊎ ((v : V) × (find k m ≡ some v) × (0 < entries k m))
  unfolding find
  find-entries k [] = inl (refl, refl)
  find-entries k ((i, v) ∷ m) = elim (Bool-cases (i == k)) [
    | inl hit ↦ inr (v, rw hit, rw hit (omega arith))
    | inr miss ↦ rw miss (find-entries k m)
  ]

count-append : (k j : ℕ) (ks : List ℕ) → count k (ks ++ (j ∷ [])) ≡ count k ks + count k (j ∷ [])
count-append k j [] = omega arith
count-append k j (i ∷ ks) = ground (arith, count-append k j ks)

count-remove_key :
    (j k : ℕ) (ks : List ℕ)
    → count j (remove_key k ks) ≡ (if k == j then count j ks - 1 else count j ks)
unfolding remove_key
count-remove_key j k [] = ground arith
count-remove_key j k (i ∷ ks) = ground (arith, count-remove_key j k ks)

module _ {ℓ} {V : Type ℓ} where
  -- `putIfAbsent` keeps a cache valid: the keys of the deque are those of the map, each once.
  put_if_absent-IsValid :
      (c : MapCache V) (k : ℕ) (v : V)
      → IsValid c.map_ c.keys
      → IsValid (put_if_absent c k v).1.map_ (put_if_absent c k v).1.keys
  unfolding put_if_absent
  put_if_absent-IsValid c k v h = elim (find-entries k c.map_) [
    | inr (w, e, pos) ↦ rw (e, put_if_absent) h
    | inl (e, z) ↦
        rw (e, put_if_absent)
          (record {
            agree = λ j. ground (arith, count-append j k c.keys, h.agree j);
            once = λ j. ground (arith, count-append j k c.keys, h.agree j, h.once j, z);
          })
  ]

  -- `remove` keeps a cache valid: the keys of the deque are those of the map, each once.
  remove-IsValid :
      (c : MapCache V) (k : ℕ) → IsValid c.map_ c.keys → IsValid (remove c k).map_ (remove c k).keys
  unfolding remove
  remove-IsValid c k h = elim (find-entries k c.map_) [
    | inl (e, z) ↦ rw (e, remove) h
    | inr (w, e, pos) ↦
        rw (e, remove)
          (record {
            agree = λ j.
                ground (arith, count-remove_key j k c.keys, entries-erase j k c.map_, h.agree j);
            once = λ j. ground (arith, count-remove_key j k c.keys, h.once j);
          })
  ]

  pop-IsValid :
      (m : List (ℕ × V)) (k : ℕ) (ks : List ℕ) → IsValid m (k ∷ ks) → IsValid (erase k m) ks
  pop-IsValid m k ks h = record {
    agree = λ j. ground (arith, entries-erase j k m, h.agree j);
    once = λ j. ground (arith, h.once j);
  }

  front-entry :
      (m : List (ℕ × V)) (k : ℕ) (ks : List ℕ) → IsValid m (k ∷ ks) → (v : V) × (find k m ≡ some v)
  front-entry m k ks h = elim (find-entries k m) [
    | inr (v, e, pos) ↦ (v, e)
    | inl (e, z) ↦ absurd (ground (arith, h.agree k, z))
  ]

  -- On a valid cache `removeOldestValuesIf` ends, and keeps the cache valid.
  remove_oldest_values_if_ends :
      (condition : ℕ → V → Bool) (m : List (ℕ × V)) (ks : List ℕ)
      → IsValid m ks
      → (c : MapCache V) × (remove_oldest_values_if condition m ks ≡ some c) × IsValid c.map_ c.keys
  unfolding remove_oldest_values_if
  remove_oldest_values_if_ends condition m [] h = (record { map_ = m; keys = [] }, refl, h)
  remove_oldest_values_if_ends condition m (k ∷ ks) h =
      let (v, e) = front-entry m k ks h in
      let (c, went, valid) =
        remove_oldest_values_if_ends condition (erase k m) ks (pop-IsValid m k ks h) in
      elim (Bool-cases (condition k v)) [
        | inl yes' ↦ (c, rw (e, remove_oldest_values_if) (rw yes' went), valid)
        | inr no' ↦
            (record { map_ = m; keys = k ∷ ks }, rw (e, remove_oldest_values_if) (rw no' refl), h)
      ]

  abbrev pub keys_of : List (ℕ × V) → List ℕ
  keys_of [] = []
  keys_of ((k, v) ∷ m) = k ∷ keys_of m

  -- On a valid cache `removeOldestValues` hands the entries of the first n keys to its
  -- callback, oldest first, or of all keys where there are fewer, leaves the other keys, and
  -- keeps the cache valid.
  remove_oldest_values_oldest :
      (n : ℕ) (m : List (ℕ × V)) (ks : List ℕ)
      → IsValid m ks
      → let (removed, c) = remove_oldest_values n m ks in
        (keys_of removed ≡ take n ks) × (c.keys ≡ drop n ks) × IsValid c.map_ c.keys
  unfolding remove_oldest_values
  remove_oldest_values_oldest zero m ks h = (refl, refl, h)
  remove_oldest_values_oldest (suc n) m [] h = (refl, refl, h)
  remove_oldest_values_oldest (suc n) m (k ∷ ks) h =
      let (v, e) = front-entry m k ks h in
      let (removed, left, valid) =
        remove_oldest_values_oldest n (erase k m) ks (pop-IsValid m k ks h) in
      rw (e, remove_oldest_values) (ap (λ rest. k ∷ rest) removed, left, valid)
