-- ===== src/BitSet/Setting.antt =====
-- `set` of lib/BitSet.h.
use pulsar_client_cpp.Prelude.{
  ℕ, zero, suc, ◌+◌, ◌-◌, ◌/◌, ◌%◌, ◌≤◌, ◌<◌, ◌≡◌, refl, ap, ◌∙◌, ◌⊎◌, inl, inr, true, ◌&&◌, ◌||◌,
  List, [], ◌∷◌, length, length-take, length-append, length-replicate, get_or, take, replicate, ltb,
  leb, if◌then◌else◌, arith, Bool-cases,
}
use pulsar_client_cpp.Prelude.Int.{pos}
use pulsar_client_cpp.BitSet.{
  Word, zero_word, word_mask, safe_left_shift, safe_right_shift, BitSet, word_index, resize,
  expand_to, negate, set_bits, set_range,
}
use pulsar_client_cpp.BitSet.Words.{bit_at, length-write_range, write_range_bit}
use pulsar_client_cpp.BitSet.Laws.{bit, IsValid}

pub get_or-replicate : (n k : ℕ) → get_or (replicate n zero_word) k zero_word ≡ zero_word
get_or-replicate zero k = refl
get_or-replicate (suc n) zero = refl
get_or-replicate (suc n) (suc k) = get_or-replicate n k

get_or-resize :
    (n k : ℕ) (ws : List Word)
    → get_or (resize n ws) k zero_word ≡ (if ltb k n then get_or ws k zero_word else zero_word)
get_or-resize zero k ws = ground (arith, get_or-replicate (0 - length ws) k)
get_or-resize (suc n) k [] = ground (arith, get_or-replicate (suc n) k)
get_or-resize (suc n) zero (w ∷ ws) = ground arith
get_or-resize (suc n) (suc k) (w ∷ ws) = ground (arith, get_or-resize n k ws)

length-resize : (n : ℕ) (ws : List Word) → length (resize n ws) ≡ n
length-resize n ws = omega (
  arith,
  length-append (take n ws) (replicate (n - length ws) zero_word),
  length-take n ws,
  length-replicate (n - length ws) zero_word,
)

-- `expandTo` changes no bit.
expand_to_lem :
    (b : BitSet) (i : ℕ)
    → IsValid b
    → let b' = expand_to b i in
      (i < b'.words_in_use)
      × (b'.words_in_use ≤ length b'.words)
      × ((b.words_in_use ≡ b'.words_in_use) ⊎ (b'.words_in_use ≡ i + 1))
      × ((k j : ℕ) → j < 64 → bit_at b'.words k j ≡ bit_at b.words k j && ltb k b'.words_in_use)
unfolding expand_to
expand_to_lem b i v = elim (Bool-cases (ltb b.words_in_use (i + 1))) [
  | inl e ↦ rw e (
    omega arith,
    omega (arith, length-resize (i + 1) b.words),
    inr refl,
    λ k j h. ap (λ (w : Word). w j) (get_or-resize (i + 1) k b.words) ∙ ground arith,
  )
  | inr e ↦ rw e (ground arith, v.bounded, inl refl, λ k j h. ground (arith, v.beyond k j, h))
]

-- `set` of a range adds the bits of the range to a valid set and no others, and the set stays valid.
pub set_range_lem :
    (b : BitSet) (from to : ℕ)
    → IsValid b
    → from < to
    → IsValid (set_range b from to)
      × ((x : ℕ) → bit (set_range b from to) x ≡ bit b x || (leb from x && ltb x to))
unfolding set_range word_index
set_range_lem b from to v order =
    let last = (to - 1) / 64 in
    let b' = expand_to b last in
    let (reaches, room, size, same) = expand_to_lem b last v in
    let fm = safe_left_shift word_mask (pos from) in
    let lm = safe_right_shift word_mask (negate to) in
    let written = λ (k j : ℕ) (h : j < 64).
      write_range_bit set_bits word_mask true from to b'.words k j (λ x m i. ground arith)
        (λ i. refl) h (omega arith) (omega arith) (omega arith) in
    (
      record {
        bounded =
            omega (arith, length-write_range set_bits word_mask (from / 64) last fm lm b'.words);
        beyond = λ k j h m. ground (arith, written k j m, same k j m);
        top = elim size [
          | inl same_size ↦ elim v.top [
            | inl none_ ↦ absurd (omega arith)
            | inr (j, h, e) ↦ inr (
              j,
              h,
              ground (
                arith,
                written (b'.words_in_use - 1) j h,
                same (b'.words_in_use - 1) j h,
                same_size,
                e,
              ),
            )
          ]
          | inr expanded ↦ inr (
            (to - 1) % 64,
            omega arith,
            ground (arith, expanded, written last ((to - 1) % 64) (omega arith)),
          )
        ];
      },
      λ x. ground (
        arith,
        written (x / 64) (x % 64) (omega arith),
        same (x / 64) (x % 64) (omega arith),
        v.beyond (x / 64) (x % 64),
      ),
    )
