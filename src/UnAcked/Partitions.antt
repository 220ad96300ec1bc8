-- ===== src/UnAcked/Partitions.antt =====
-- The deque of partitions of lib/UnAckedMessageTrackerEnabled.cc: where an id is, and how often.
use pulsar_client_cpp.Prelude.{
  ℕ, ◌+◌, ◌≤◌, ◌<◌, ◌≡◌, refl, ◌⊎◌, inl, inr, true, false, Option, none, some, List, [], ◌∷◌,
  length, ◌==◌, if◌then◌else◌, arith, Bool-cases,
}
use pulsar_client_cpp.MessageId.{MessageIdImpl}
use pulsar_client_cpp.IdMap.{IdSet, same, contains}
use pulsar_client_cpp.IdMap.Laws.{find-same, contains-insert, contains-erase}
use pulsar_client_cpp.UnAcked.{insert_back, erase_from}

-- The number of the first partition that holds the id, in a list that begins with number `n`.
abbrev pub locate : MessageIdImpl → ℕ → List IdSet → Option ℕ
locate x n [] = none
locate x n (s ∷ ss) = if contains x s then some n else locate x (n + 1) ss

-- How many partitions hold the id.
abbrev pub count : MessageIdImpl → List IdSet → ℕ
count x [] = 0
count x (s ∷ ss) = (if contains x s then 1 else 0) + count x ss

pub contains-same :
    (a b : MessageIdImpl) (s : IdSet) → same a b ≡ true → contains a s ≡ contains b s
unfolding contains
contains-same a b s h = ground (arith, find-same a b s h)

pub locate_cases :
    (x : MessageIdImpl) (n : ℕ) (ss : List IdSet)
    → ((locate x n ss ≡ none) × (count x ss ≡ 0))
      ⊎ ((k : ℕ) × (locate x n ss ≡ some k) × (0 < count x ss) × (n ≤ k) × (k < n + length ss))
locate_cases x n [] = inl (refl, refl)
locate_cases x n (s ∷ ss) = elim (Bool-cases (contains x s)) [
  | inl here ↦ inr (n, ground arith, ground arith, omega arith, omega arith)
  | inr not_here ↦ elim (locate_cases x (n + 1) ss) [
    | inl (e, c) ↦ inl (ground arith, ground arith)
    | inr (k, e, c, l, u) ↦ inr (k, ground arith, ground arith, omega arith, omega arith)
  ]
]

pub count-same : (x a : MessageIdImpl) (ss : List IdSet) → same x a ≡ true → count x ss ≡ count a ss
count-same x a [] h = refl
count-same x a (s ∷ ss) h = ground (arith, count-same x a ss h, contains-same x a s h)

pub locate-same :
    (x a : MessageIdImpl) (n : ℕ) (ss : List IdSet)
    → same x a ≡ true
    → locate x n ss ≡ locate a n ss
locate-same x a n [] h = refl
locate-same x a n (s ∷ ss) h = ground (arith, locate-same x a (n + 1) ss h, contains-same x a s h)

-- What a first partition without the id says of the others.
absent :
    (a : MessageIdImpl) (s : IdSet) (ss : List IdSet)
    → count a (s ∷ ss) ≡ 0
    → (contains a s ≡ false) × (count a ss ≡ 0)
absent a s ss h = ground arith

-- Where an id is that the first partition does not hold.
later :
    (a : MessageIdImpl) (k n : ℕ) (s : IdSet) (ss : List IdSet)
    → contains a s ≡ false
    → count a (s ∷ ss) ≤ 1
    → locate a n (s ∷ ss) ≡ some k
    → (locate a (n + 1) ss ≡ some k) × (count a ss ≤ 1) × ((k == n) ≡ false)
later a k n s ss d h e = elim (locate_cases a (n + 1) ss) [
  | inl (out, c) ↦ absurd (ground arith)
  | inr (j, there, c, low, high) ↦ (ground arith, ground arith, ground arith)
]

first :
    (a : MessageIdImpl) (k n : ℕ) (s : IdSet) (ss : List IdSet)
    → contains a s ≡ true
    → count a (s ∷ ss) ≤ 1
    → locate a n (s ∷ ss) ≡ some k
    → (count a ss ≡ 0) × ((k == n) ≡ true)
first a k n s ss here h e = ground arith

nowhere : (a : MessageIdImpl) (n : ℕ) (ss : List IdSet) → count a ss ≡ 0 → locate a n ss ≡ none
nowhere a n ss c = elim (locate_cases a n ss) [
  | inl (e, z) ↦ e
  | inr (k, e, pos, low, high) ↦ absurd (omega arith)
]

pub count-insert_back :
    (x a : MessageIdImpl) (s : IdSet) (ss : List IdSet)
    → count a (s ∷ ss) ≡ 0
    → count x (insert_back a (s ∷ ss)) ≡ (if same x a then 1 else count x (s ∷ ss))
unfolding insert_back
count-insert_back x a s [] h = elim (Bool-cases (same x a)) [
  | inl e ↦ ground (arith, contains-insert x a s, contains-same x a s e)
  | inr d ↦ ground (arith, contains-insert x a s)
]
count-insert_back x a s (r ∷ ss) h =
    let (out, rest) = absent a s (r ∷ ss) h in
    elim (Bool-cases (same x a)) [
      | inl e ↦ ground (arith, count-insert_back x a r ss rest, contains-same x a s e, out)
      | inr d ↦ ground (arith, count-insert_back x a r ss rest)
    ]

pub locate-insert_back :
    (x a : MessageIdImpl) (n : ℕ) (s : IdSet) (ss : List IdSet)
    → count a (s ∷ ss) ≡ 0
    → locate x n (insert_back a (s ∷ ss))
      ≡ (if same x a then some (n + length ss) else locate x n (s ∷ ss))
unfolding insert_back
locate-insert_back x a n s [] h = elim (Bool-cases (same x a)) [
  | inl e ↦ ground (arith, contains-insert x a s)
  | inr d ↦ ground (arith, contains-insert x a s)
]
locate-insert_back x a n s (r ∷ ss) h =
    let (out, rest) = absent a s (r ∷ ss) h in
    elim (Bool-cases (same x a)) [
      | inl e ↦ ground (arith, locate-insert_back x a (n + 1) r ss rest, contains-same x a s e, out)
      | inr d ↦ ground (arith, locate-insert_back x a (n + 1) r ss rest)
    ]

pub count-erase_from :
    (x a : MessageIdImpl) (k n : ℕ) (ss : List IdSet)
    → count a ss ≤ 1
    → locate a n ss ≡ some k
    → count x (erase_from k n a ss) ≡ (if same x a then 0 else count x ss)
unfolding erase_from
count-erase_from x a k n [] h e = absurd (cc)
count-erase_from x a k n (s ∷ ss) h e = elim (Bool-cases (contains a s)) [
  | inl here ↦
      let (c, k_is_n) = first a k n s ss here h e in
      elim (Bool-cases (same x a)) [
        | inl f ↦ ground (arith, k_is_n, contains-erase x a s, f, c, count-same x a ss f)
        | inr d ↦ ground (arith, k_is_n, contains-erase x a s, d)
      ]
  | inr not_here ↦
      let (e', h', k_is_not_n) = later a k n s ss not_here h e in
      elim (Bool-cases (same x a)) [
        | inl f ↦ ground (
          arith,
          k_is_not_n,
          count-erase_from x a k (n + 1) ss h' e',
          contains-same x a s f,
          not_here,
        )
        | inr d ↦ ground (arith, k_is_not_n, count-erase_from x a k (n + 1) ss h' e')
      ]
]

pub locate-erase_from :
    (x a : MessageIdImpl) (k n : ℕ) (ss : List IdSet)
    → count a ss ≤ 1
    → locate a n ss ≡ some k
    → locate x n (erase_from k n a ss) ≡ (if same x a then none else locate x n ss)
unfolding erase_from
locate-erase_from x a k n [] h e = absurd (cc)
locate-erase_from x a k n (s ∷ ss) h e = elim (Bool-cases (contains a s)) [
  | inl here ↦
      let (c, k_is_n) = first a k n s ss here h e in
      elim (Bool-cases (same x a)) [
        | inl f ↦ ground (
          arith,
          k_is_n,
          contains-erase x a s,
          f,
          c,
          locate-same x a (n + 1) ss f,
          nowhere a (n + 1) ss c,
        )
        | inr d ↦ ground (arith, k_is_n, contains-erase x a s, d)
      ]
  | inr not_here ↦
      let (e', h', k_is_not_n) = later a k n s ss not_here h e in
      elim (Bool-cases (same x a)) [
        | inl f ↦ ground (
          arith,
          k_is_not_n,
          locate-erase_from x a k (n + 1) ss h' e',
          contains-same x a s f,
          not_here,
        )
        | inr d ↦ ground (arith, k_is_not_n, locate-erase_from x a k (n + 1) ss h' e')
      ]
]
