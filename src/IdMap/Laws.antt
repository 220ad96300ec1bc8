-- ===== src/IdMap/Laws.antt =====
-- Looking up a key after each change of a map.
use pulsar_client_cpp.Prelude.{
  ◌≡◌, refl, inl, inr, true, false, none, some, [], ◌∷◌, if◌then◌else◌, arith, Bool-cases,
  Option-cases,
}
use pulsar_client_cpp.MessageId.{MessageIdImpl, lt}
use pulsar_client_cpp.MessageId.Order.{SamePlace, lt_irrefl}
use pulsar_client_cpp.IdMap.{
  IdMap, IdSet, same, find, place, set_value, emplace, assign, erase, contains, insert,
}

pub same-SamePlace : (a b : MessageIdImpl) → same a b ≡ true → SamePlace a b
unfolding same lt
same-SamePlace a b h = ground arith

same_left_fields : (a b c : MessageIdImpl) → SamePlace a b → same a c ≡ same b c
unfolding same lt
same_left_fields a b c s = ground arith

pub same_left : (a b c : MessageIdImpl) → same a b ≡ true → same a c ≡ same b c
same_left a b c h = same_left_fields a b c (same-SamePlace a b h)

pub same_comm : (a b : MessageIdImpl) → same a b ≡ same b a
unfolding same
same_comm a b = ground arith

pub same_refl : (a : MessageIdImpl) → same a a ≡ true
unfolding same
same_refl a = ground (arith, lt_irrefl a)

module _ {ℓ} {V : Type ℓ} where
  pub find-same : (a b : MessageIdImpl) (m : IdMap V) → same a b ≡ true → find a m ≡ find b m
  unfolding find
  find-same a b [] h = refl
  find-same a b ((c, v) ∷ m) h = ground (arith, find-same a b m h, same_left a b c h)

  pub find-place :
      (x a : MessageIdImpl) (v : V) (m : IdMap V)
      → find a m ≡ none
      → find x (place a v m) ≡ (if same x a then some v else find x m)
  unfolding find place
  find-place x a v [] h = refl
  find-place x a v ((b, w) ∷ m) h = elim (Bool-cases (same a b)) [
    | inl there ↦ ground arith
    | inr new ↦
        let rest : find a m ≡ none = ground arith in
        elim (Bool-cases (same x a)) [
          | inl e ↦ ground (arith, find-place x a v m rest, same_left x a b e)
          | inr d ↦ ground (arith, find-place x a v m rest)
        ]
  ]

  pub find-set_value :
      (x a : MessageIdImpl) (v : V) (m : IdMap V)
      → find x (set_value a v m)
        ≡ (if same x a then (elim (find a m) [ some w ↦ some v | none ↦ none ]) else find x m)
  unfolding find set_value
  find-set_value x a v [] = ground arith
  find-set_value x a v ((b, u) ∷ m) = elim (Bool-cases (same x a)) [
    | inl e ↦ ground (arith, find-set_value x a v m, same_left x a b e)
    | inr d ↦ elim (Bool-cases (same a b)) [
      | inl f ↦
          ground (arith, find-set_value x a v m, same_left a b x f, same_comm a x, same_comm b x)
      | inr g ↦ ground (arith, find-set_value x a v m)
    ]
  ]

  pub find-erase :
      (x a : MessageIdImpl) (m : IdMap V)
      → find x (erase a m) ≡ (if same x a then none else find x m)
  unfolding find erase
  find-erase x a [] = ground arith
  find-erase x a ((b, w) ∷ m) = elim (Bool-cases (same x a)) [
    | inl e ↦ ground (arith, find-erase x a m, same_left x a b e)
    | inr d ↦ elim (Bool-cases (same a b)) [
      | inl f ↦ ground (arith, find-erase x a m, same_left a b x f, same_comm a x, same_comm b x)
      | inr g ↦ ground (arith, find-erase x a m)
    ]
  ]

  pub find-emplace :
      (x a : MessageIdImpl) (v : V) (m : IdMap V)
      → find a m ≡ none
      → find x (emplace a v m) ≡ (if same x a then some v else find x m)
  unfolding emplace
  find-emplace x a v m h = ground (arith, find-place x a v m h)

  pub find-assign :
      (x a : MessageIdImpl) (v : V) (m : IdMap V)
      → find x (assign a v m) ≡ (if same x a then some v else find x m)
  unfolding assign
  find-assign x a v m = elim (Option-cases (find a m)) [
    | inl e ↦ ground (arith, find-place x a v m e)
    | inr (w, e) ↦ ground (arith, find-set_value x a v m)
  ]

pub contains-insert :
    (x a : MessageIdImpl) (s : IdSet)
    → contains x (insert a s) ≡ (if same x a then true else contains x s)
unfolding contains emplace
contains-insert x a s = elim (Option-cases (find a s)) [
  | inl e ↦ ground (arith, find-place x a tt s e)
  | inr (u, e) ↦ elim (Bool-cases (same x a)) [
    | inl f ↦ ground (arith, find-same x a s f)
    | inr g ↦ ground arith
  ]
]

pub contains-erase :
    (x a : MessageIdImpl) (s : IdSet)
    → contains x (erase a s) ≡ (if same x a then false else contains x s)
unfolding contains
contains-erase x a s = ground (arith, find-erase x a s)
