-- ===== src/BitSet/Changes.antt =====
-- What the operations of lib/BitSet.h do to the bits of a set.
use pulsar_client_cpp.Prelude.{
  ℕ, zero, suc, ◌+◌, ◌-◌, ◌*◌, ◌/◌, ◌%◌, ◌≤◌, ◌<◌, ◌≡◌, refl, sym, ap, ◌∙◌, inl, inr, true, false,
  not, ◌&&◌, length-set, get_or, set, ltb, leb, ◌==◌, arith, lt→ltb, Bool-cases,
}
use pulsar_client_cpp.Prelude.Int.{pos}
use pulsar_client_cpp.BitSet.{
  Word, zero_word, word_mask, one, safe_shift_count, safe_left_shift, safe_right_shift, bit_length,
  number_of_leading_zeros, BitSet, word_index, bits_in_use, recalculate_words_in_use, negate,
  write_range, clear_bits, clear_range, clear,
}
use pulsar_client_cpp.BitSet.Words.{bit_at, get_or-set, length-write_range, write_range_bit}
use pulsar_client_cpp.BitSet.Laws.{bit, IsValid, Covers, recalculate_lem}

one_bit : (i j : ℕ) → j < 64 → safe_left_shift one (pos i) j ≡ (j == i % 64)
unfolding safe_left_shift safe_shift_count
one_bit i j h = ground arith

-- `clear` of a bit takes that bit out of a valid set and no other, and the set stays valid.
pub clear_lem :
    (b : BitSet) (i : ℕ)
    → IsValid b
    → IsValid (clear b i) × ((x : ℕ) → bit (clear b i) x ≡ bit b x && not (x == i))
unfolding clear word_index
clear_lem b i v = elim (Bool-cases (leb b.words_in_use (i / 64))) [
  | inl e ↦ rw e (v, λ x. ground arith)
  | inr e ↦
      let w = clear_bits (get_or b.words (i / 64) zero_word) (safe_left_shift one (pos i)) in
      let b' = record b { words = set b.words (i / 64) w } in
      let written = λ (k j : ℕ).
        ap (λ (y : Word). y j)
          (get_or-set b.words (i / 64) k w zero_word (ground (arith, v.bounded))) in
      let covers : Covers b' = record {
        bounded = omega (arith, v.bounded, length-set b.words (i / 64) w);
        beyond = λ k j h l. ground (arith, written k j, v.beyond k j h l, e);
      } in
      let (valid, same) = recalculate_lem b' covers in
      rw e (
        valid,
        λ x. same x ∙ ground (arith, written (x / 64) (x % 64), one_bit i (x % 64) (omega arith)),
      )
]

-- The highest bit of a word.
bit_length_lem :
    (n : ℕ) (x : Word) (j : ℕ) → (bit_length n x ≤ n) × ((j < n) → x j ≡ true → j < bit_length n x)
bit_length_lem zero x j = (omega arith, λ h e. absurd (omega arith))
bit_length_lem (suc n) x j =
    let (low, above) = bit_length_lem n x j in
    elim (Bool-cases (x n)) [
      | inl e ↦ (ground arith, λ h s. ground arith)
      | inr e ↦ (
        ground arith,
        λ h s. elim (Bool-cases (j == n)) [
          | inl same ↦ absurd (ground arith)
          | inr other ↦ ground (arith, above (ground arith) s)
        ],
      )
    ]

bits_in_use-bit_length :
    (b : BitSet)
    → 0 < b.words_in_use
    → bits_in_use b
      ≡ 64 * (b.words_in_use - 1) + bit_length 64 (get_or b.words (b.words_in_use - 1) zero_word)
unfolding bits_in_use number_of_leading_zeros
bits_in_use-bit_length b h =
    let (low, above) = bit_length_lem 64 (get_or b.words (b.words_in_use - 1) zero_word) 0 in
    elim (Bool-cases (b.words_in_use == 0)) [
      | inl e ↦ absurd (ground arith)
      | inr e ↦ rw e (omega (arith, low))
    ]

==→≡ : (a b : ℕ) → (a == b) ≡ true → a ≡ b
==→≡ a b h = ground arith

word_below : (k n : ℕ) → leb n k ≡ false → (k == n - 1) ≡ false → k + 1 < n
word_below k n h e = ground arith

-- A bit of a valid set in word `k` is before the end of the last word's bits.
before_end :
    (b : BitSet) (k j : ℕ)
    → IsValid b
    → j < 64
    → bit_at b.words k j ≡ true
    → 64 * k + j
      < 64 * (b.words_in_use - 1) + bit_length 64 (get_or b.words (b.words_in_use - 1) zero_word)
before_end b k j v h e =
    let x = get_or b.words (b.words_in_use - 1) zero_word in
    let (low, above) = bit_length_lem 64 x j in
    elim (Bool-cases (leb b.words_in_use k)) [
      | inl past ↦ absurd (ground (arith, v.beyond k j (ground arith) h))
      | inr in_use ↦ elim v.top [
        | inl none_ ↦ absurd (ground arith)
        | inr (t, u, f) ↦
            let positive = (bit_length_lem 64 x t).1 u f in
            elim (Bool-cases (k == b.words_in_use - 1)) [
              | inl same ↦
                  let there : x j ≡ true =
                    ap (λ (n : ℕ). bit_at b.words n j) (sym (==→≡ k (b.words_in_use - 1) same))
                    ∙ e in
                  let last = above h there in omega (arith, ==→≡ k (b.words_in_use - 1) same)
              | inr under ↦ omega (arith, word_below k b.words_in_use in_use under)
            ]
      ]
    ]

-- `length` is past every bit of a valid set, and in its last word.
bits_in_use_lem :
    (b : BitSet)
    → IsValid b
    → 0 < b.words_in_use
    → (0 < bits_in_use b)
      × ((bits_in_use b - 1) / 64 ≡ b.words_in_use - 1)
      × ((k j : ℕ) → j < 64 → bit_at b.words k j ≡ true → 64 * k + j < bits_in_use b)
bits_in_use_lem b v some_word = elim v.top [
  | inl none_ ↦ absurd (omega arith)
  | inr (t, h, e) ↦
      let is_sum = bits_in_use-bit_length b some_word in
      let (low, above) = bit_length_lem 64 (get_or b.words (b.words_in_use - 1) zero_word) t in
      let positive = above h e in
      (
        omega arith,
        omega arith,
        λ k j l bit_set. omega (arith, is_sum, before_end b k j v l bit_set),
      )
]

-- A write of zeros to a range that ends in a word in use.
clear_write :
    (b : BitSet) (from to : ℕ)
    → IsValid b
    → 0 < to
    → from / 64 ≤ (to - 1) / 64
    → (to - 1) / 64 < b.words_in_use
    → let b' = record b {
      words =
          write_range clear_bits zero_word
            (from / 64)
            ((to - 1) / 64)
            (safe_left_shift word_mask (pos from))
            (safe_right_shift word_mask (negate to))
            b.words;
    } in
      IsValid (recalculate_words_in_use b')
      × ((x : ℕ) → bit (recalculate_words_in_use b') x ≡ bit b x && not (leb from x && ltb x to))
clear_write b from to v p o l =
    let fm = safe_left_shift word_mask (pos from) in
    let lm = safe_right_shift word_mask (negate to) in
    let ws = write_range clear_bits zero_word (from / 64) ((to - 1) / 64) fm lm b.words in
    let written = λ (k j : ℕ) (h : j < 64).
      write_range_bit clear_bits zero_word false from to b.words k j (λ x m i. ground arith)
        (λ i. refl) h p o (omega (arith, v.bounded)) in
    let covers : Covers (record b { words = ws }) = record {
      bounded = omega (
        arith,
        v.bounded,
        length-write_range clear_bits zero_word (from / 64) ((to - 1) / 64) fm lm b.words,
      );
      beyond = λ k j h m. ground (arith, written k j m, v.beyond k j h m);
    } in
    let (valid, same) = recalculate_lem (record b { words = ws }) covers in
    (valid, λ x. same x ∙ ground (arith, written (x / 64) (x % 64) (omega arith)))

-- The same, with the number of the last word as the code has it.
clear_write_to :
    (b : BitSet) (from to last : ℕ)
    → IsValid b
    → 0 < to
    → from / 64 ≤ (to - 1) / 64
    → (to - 1) / 64 < b.words_in_use
    → (to - 1) / 64 ≡ last
    → let b' = record b {
      words =
          write_range clear_bits zero_word
            (from / 64)
            last
            (safe_left_shift word_mask (pos from))
            (safe_right_shift word_mask (negate to))
            b.words;
    } in
      IsValid (recalculate_words_in_use b')
      × ((x : ℕ) → bit (recalculate_words_in_use b') x ≡ bit b x && not (leb from x && ltb x to))
clear_write_to b from to last v p o l e = rw⁻¹ e (clear_write b from to v p o l)

-- A range that ends past the set takes the same bits out as one that ends with the set.
same_in_set :
    (b : BitSet) (from to x : ℕ)
    → ((k j : ℕ) → j < 64 → bit_at b.words k j ≡ true → 64 * k + j < bits_in_use b)
    → leb b.words_in_use ((to - 1) / 64) ≡ true
    → bit b x && not (leb from x && ltb x (bits_in_use b)) ≡ bit b x && not (leb from x && ltb x to)
same_in_set b from to x before past = elim (Bool-cases (bit b x)) [
  | inr e ↦ rw e refl
  | inl e ↦
      let under : x < bits_in_use b = ground (arith, before (x / 64) (x % 64) (omega arith)) in
      let inside : x < to = ground arith in
      rw (lt→ltb x (bits_in_use b) under, lt→ltb x to inside) refl
]

-- `clear` of a range takes the bits of the range out of a valid set and no others, whether the range
-- ends in the set or past it, and the set stays valid.
pub clear_range_lem :
    (b : BitSet) (from to : ℕ)
    → IsValid b
    → from < to
    → IsValid (clear_range b from to)
      × ((x : ℕ) → bit (clear_range b from to) x ≡ bit b x && not (leb from x && ltb x to))
unfolding clear_range word_index
clear_range_lem b from to v order = elim (Bool-cases (leb b.words_in_use (from / 64))) [
  | inl e ↦ rw e (v, λ x. ground arith)
  | inr e ↦
      let used_ : from / 64 < b.words_in_use = ground arith in
      elim (Bool-cases (leb b.words_in_use ((to - 1) / 64))) [
        | inr within ↦
            rw (e, within) (clear_write b from to v (omega arith) (omega arith) (ground arith))
        | inl past ↦
            let (positive, last, before) = bits_in_use_lem b v (omega arith) in
            rw (e, past)
              (
                (clear_write_to b from (bits_in_use b) (b.words_in_use - 1) v positive (omega arith)
                    (omega arith) last).0,
                λ x.
                    (clear_write_to b from (bits_in_use b) (b.words_in_use - 1) v positive
                        (omega arith) (omega arith) last).1
                      x
                    ∙ same_in_set b from to x before past,
              )
      ]
]
