-- ===== src/BitSet/Laws.antt =====
-- lib/BitSet.h as a set of bits.
use pulsar_client_cpp.Prelude.{
  ℕ, zero, suc, ◌+◌, ◌-◌, ◌*◌, ◌/◌, ◌%◌, ◌≤◌, ◌<◌, ◌≡◌, refl, ◌⊎◌, inl, inr, Bool, true, false,
  ◌&&◌, List, length, get_or, ltb, leb, ◌==◌, arith, Bool-cases,
}
use pulsar_client_cpp.BitSet.{
  Word, zero_word, any_bit, is_zero, BitSet, is_empty, used, recalculate_words_in_use,
}
use pulsar_client_cpp.BitSet.Words.{bit_at}

-- Whether a bit is in the set.
abbrev pub bit : BitSet → ℕ → Bool
bit b i = ltb (i / 64) b.words_in_use && bit_at b.words (i / 64) (i % 64)

-- The words in use are there, those past them are zero, and the last one in use is not.
pub record IsValid (b : BitSet) : Type 0 where
  pub bounded : b.words_in_use ≤ length b.words
  pub beyond : (k j : ℕ) → b.words_in_use ≤ k → j < 64 → bit_at b.words k j ≡ false
  pub top :
      (b.words_in_use ≡ 0) ⊎ ((j : ℕ) × (j < 64) × (bit_at b.words (b.words_in_use - 1) j ≡ true))

any_bit_none : (n : ℕ) (x : Word) (j : ℕ) → any_bit n x ≡ false → j < n → x j ≡ false
any_bit_none zero x j e h = absurd (omega arith)
any_bit_none (suc n) x j e h = elim (Bool-cases (j == n)) [
  | inl same ↦ ground arith
  | inr other ↦ any_bit_none n x j (ground arith) (ground arith)
]

any_bit_some : (n : ℕ) (x : Word) → any_bit n x ≡ true → (j : ℕ) × (j < n) × (x j ≡ true)
any_bit_some zero x e = absurd (cc)
any_bit_some (suc n) x e = elim (Bool-cases (x n)) [
  | inl here ↦ (n, omega arith, here)
  | inr unset ↦ let (j, h, there) = any_bit_some n x (ground arith) in (j, omega arith, there)
]

-- Valid but for the number of words in use, which is not too small.
pub record Covers (b : BitSet) : Type 0 where
  pub bounded : b.words_in_use ≤ length b.words
  pub beyond : (k j : ℕ) → b.words_in_use ≤ k → j < 64 → bit_at b.words k j ≡ false

used_lem :
    (ws : List Word) (n : ℕ)
    → (used ws n ≤ n)
      × ((k j : ℕ) → used ws n ≤ k → k < n → j < 64 → bit_at ws k j ≡ false)
      × ((used ws n ≡ 0) ⊎ ((j : ℕ) × (j < 64) × (bit_at ws (used ws n - 1) j ≡ true)))
unfolding used is_zero
used_lem ws zero = (omega arith, (λ k j h l m. absurd (omega arith)), inl refl)
used_lem ws (suc n) =
    let (low, beyond, top) = used_lem ws n in
    let x = get_or ws n zero_word in
    elim (Bool-cases (any_bit 64 x)) [
      | inl e ↦
          let (j, h, there) = any_bit_some 64 x e in
          rw e
            (omega arith, (λ k j' l m i. absurd (omega arith)), inr (j, h, ground (arith, there)))
      | inr e ↦ rw e (
        omega (arith, low),
        (λ k j l m i. elim (Bool-cases (k == n)) [
          | inl same ↦ ground (arith, any_bit_none 64 x j e i)
          | inr other ↦ beyond k j l (ground arith) i
        ]),
        top,
      )
    ]

pub recalculate_lem :
    (b : BitSet)
    → Covers b
    → IsValid (recalculate_words_in_use b)
      × ((i : ℕ) → bit (recalculate_words_in_use b) i ≡ bit b i)
unfolding recalculate_words_in_use
recalculate_lem b v =
    let (low, beyond, top) = used_lem b.words b.words_in_use in
    (
      record {
        bounded = omega (arith, low, v.bounded);
        beyond = λ k j h l. elim (Bool-cases (ltb k b.words_in_use)) [
          | inl e ↦ beyond k j h (ground arith) l
          | inr e ↦ v.beyond k j (ground arith) l
        ];
        top = top;
      },
      λ i.
          elim (Bool-cases
            (ltb (i / 64) b.words_in_use && leb (used b.words b.words_in_use) (i / 64))) [
              | inl e ↦
                  ground
                    (arith, beyond (i / 64) (i % 64) (ground arith) (ground arith) (omega arith))
              | inr e ↦ ground (arith, low)
            ],
    )

-- A valid set answers that it is empty exactly when no bit is in it.
pub is_empty-bit :
    (b : BitSet)
    → IsValid b
    → ((is_empty b ≡ true) × ((i : ℕ) → bit b i ≡ false))
      ⊎ ((is_empty b ≡ false) × ((i : ℕ) × (bit b i ≡ true)))
unfolding is_empty
is_empty-bit b v = elim v.top [
  | inl e ↦ inl (ground arith, λ i. ground arith)
  | inr (j, h, there) ↦ elim (Bool-cases (b.words_in_use == 0)) [
    | inl e ↦ inl (e, λ i. ground arith)
    | inr e ↦ inr (e, (64 * (b.words_in_use - 1) + j, ground arith))
  ]
]
