-- ===== src/IdMap/Apart.antt =====
-- Maps in which no two keys are at one place, as every change of a map leaves them.
use pulsar_client_cpp.Prelude.{◌≡◌, inl, inr, false, none, [], ◌∷◌, arith, Bool-cases, Option-cases}
use pulsar_client_cpp.MessageId.{MessageIdImpl, lt}
use pulsar_client_cpp.IdMap.{IdMap, same, find, place, set_value, emplace, assign, erase}
use pulsar_client_cpp.IdMap.Laws.{same_comm, find-same, find-place, find-set_value, find-erase}

module _ {ℓ} {V : Type ℓ} where
  -- No two keys of the map are at one place.
  abbrev pub AllApart : IdMap V → Type ℓ
  AllApart [] = Unit {ℓ}
  AllApart ((id, deadline) ∷ m) = (find id m ≡ none) × AllApart m

  pub missing-tail :
      (a b : MessageIdImpl) (w : V) (m : IdMap V)
      → find a ((b, w) ∷ m) ≡ none
      → (same a b ≡ false) × (find a m ≡ none)
  unfolding find
  missing-tail a b w m e = ground arith

  pub place-AllApart :
      (a : MessageIdImpl) (v : V) (m : IdMap V)
      → find a m ≡ none
      → AllApart m
      → AllApart (place a v m)
  unfolding place
  place-AllApart a v [] e h = (e, tt)
  place-AllApart a v ((b, w) ∷ m) e h =
      let (apart, rest) = missing-tail a b w m e in
      elim (Bool-cases (lt a b)) [
        | inl before ↦ rw before (e, h)
        | inr after ↦ rw after (
          ground (arith, find-place b a v m rest, same_comm a b, apart, h.0),
          place-AllApart a v m rest h.1,
        )
      ]

  pub set_value-AllApart :
      (a : MessageIdImpl) (v : V) (m : IdMap V) → AllApart m → AllApart (set_value a v m)
  unfolding set_value
  set_value-AllApart a v [] h = tt
  set_value-AllApart a v ((b, w) ∷ m) h = (
    elim (Bool-cases (same b a)) [
      | inl e ↦ ground (arith, find-set_value b a v m, find-same b a m e, h.0)
      | inr d ↦ ground (arith, find-set_value b a v m, d, h.0)
    ],
    set_value-AllApart a v m h.1,
  )

  pub assign-AllApart :
      (a : MessageIdImpl) (v : V) (m : IdMap V) → AllApart m → AllApart (assign a v m)
  unfolding assign
  assign-AllApart a v m h = elim (Option-cases (find a m)) [
    | inl e ↦ rw (e, assign) (place-AllApart a v m e h)
    | inr (w, e) ↦ rw (e, assign) (set_value-AllApart a v m h)
  ]

  pub emplace-AllApart :
      (a : MessageIdImpl) (v : V) (m : IdMap V) → AllApart m → AllApart (emplace a v m)
  unfolding emplace
  emplace-AllApart a v m h = elim (Option-cases (find a m)) [
    | inl e ↦ rw (e, emplace) (place-AllApart a v m e h)
    | inr (w, e) ↦ rw (e, emplace) h
  ]

  pub erase-AllApart : (a : MessageIdImpl) (m : IdMap V) → AllApart m → AllApart (erase a m)
  unfolding erase
  erase-AllApart a [] h = tt
  erase-AllApart a ((b, w) ∷ m) h = elim (Bool-cases (same a b)) [
    | inl e ↦ rw e (erase-AllApart a m h.1)
    | inr d ↦ rw d (ground (arith, find-erase b a m, h.0), erase-AllApart a m h.1)
  ]
