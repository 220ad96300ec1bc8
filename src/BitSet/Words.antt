-- ===== src/BitSet/Words.antt =====
-- The words of lib/BitSet.h after a write to a range.
use pulsar_client_cpp.Prelude.{
  ℕ, zero, suc, ◌+◌, ◌-◌, ◌*◌, ◌/◌, ◌%◌, ◌≤◌, ◌<◌, ◌≡◌, refl, ap, ◌∙◌, inl, inr, Bool, ◌&&◌, ◌||◌,
  List, [], ◌∷◌, length, length-set, get_or, set, ltb, leb, ◌==◌, if◌then◌else◌, arith, Bool-cases,
}
use pulsar_client_cpp.Prelude.Int.{pos}
use pulsar_client_cpp.BitSet.{
  Word, zero_word, word_mask, word_and, safe_shift_count, safe_left_shift, safe_right_shift, negate,
  fill, write_range,
}

-- A bit of a word in the vector.
abbrev pub bit_at : List Word → ℕ → ℕ → Bool
bit_at ws k j = get_or ws k zero_word j

pub get_or-set {ℓ} :
    {A : Type ℓ} (xs : List A) (i j : ℕ) (v d : A)
    → i < length xs
    → get_or (set xs i v) j d ≡ (if i == j then v else get_or xs j d)
get_or-set [] i j v d h = absurd (omega arith)
get_or-set (x ∷ xs) zero zero v d h = refl
get_or-set (x ∷ xs) zero (suc j) v d h = ground arith
get_or-set (x ∷ xs) (suc i) zero v d h = ground arith
get_or-set (x ∷ xs) (suc i) (suc j) v d h = get_or-set xs i j v d (omega arith) ∙ ground arith

length-fill : (s n : ℕ) (w : Word) (ws : List Word) → length (fill s n w ws) ≡ length ws
length-fill s zero w ws = refl
length-fill s (suc n) w ws = length-fill (s + 1) n w (set ws s w) ∙ length-set ws s w

get_or-fill :
    (s n : ℕ) (w : Word) (ws : List Word) (k : ℕ)
    → s + n ≤ length ws
    → get_or (fill s n w ws) k zero_word
      ≡ (if leb s k && ltb k (s + n) then w else get_or ws k zero_word)
get_or-fill s zero w ws k h = ground arith
get_or-fill s (suc n) w ws k h = ground (
  arith,
  get_or-fill (s + 1) n w (set ws s w) k (omega (arith, length-set ws s w)),
  get_or-set ws s k w zero_word (omega arith),
)

-- The masks of a range, bit by bit.
pub first_mask_bit : (from j : ℕ) → safe_left_shift word_mask (pos from) j ≡ leb (from % 64) j
unfolding safe_left_shift safe_shift_count
first_mask_bit from j = ground arith

pub last_mask_bit :
    (to j : ℕ) → 0 < to → j < 64 → safe_right_shift word_mask (negate to) j ≡ leb j ((to - 1) % 64)
unfolding safe_right_shift safe_shift_count
last_mask_bit zero j h k = absurd (omega arith)
last_mask_bit (suc n) j h k = ground arith

pub length-write_range :
    (change : Word → Word → Word) (w : Word) (start last : ℕ) (fm lm : Word) (ws : List Word)
    → length (write_range change w start last fm lm ws) ≡ length ws
unfolding write_range
length-write_range change w start last fm lm ws = ground (
  arith,
  length-set ws start (change (get_or ws start zero_word) (word_and fm lm)),
  length-set ws start (change (get_or ws start zero_word) fm),
  length-fill (start + 1) (last - (start + 1)) w
      (set ws start (change (get_or ws start zero_word) fm)),
  length-set
      (fill (start + 1) (last - (start + 1)) w
        (set ws start (change (get_or ws start zero_word) fm)))
      last
      (change
        (get_or
          (fill (start + 1) (last - (start + 1)) w
            (set ws start (change (get_or ws start zero_word) fm)))
          last zero_word)
        lm),
)

-- Which word a write to a range leaves where.
get_or-write_range :
    (change : Word → Word → Word) (w : Word) (start last : ℕ) (fm lm : Word) (ws : List Word)
    (k : ℕ)
    → start ≤ last
    → last < length ws
    → get_or (write_range change w start last fm lm ws) k zero_word ≡ (
        let x = get_or ws k zero_word in
        if ltb k start || ltb last k
        then x
        else (if start == last
            then change x (word_and fm lm)
            else (if k == start then change x fm else (if k == last then change x lm else w))))
unfolding write_range
get_or-write_range change w start last fm lm ws k h l =
    let first = set ws start (change (get_or ws start zero_word) fm) in
    let filled = fill (start + 1) (last - (start + 1)) w first in
    let n1 = length-set ws start (change (get_or ws start zero_word) fm) in
    let n2 = length-fill (start + 1) (last - (start + 1)) w first in
    elim (Bool-cases (start == last)) [
      | inl one_word ↦ ground (
        arith,
        one_word,
        get_or-set ws start k (change (get_or ws start zero_word) (word_and fm lm)) zero_word
            (omega arith),
      )
      | inr words ↦ ground (
        arith,
        words,
        get_or-set filled last k (change (get_or filled last zero_word) lm) zero_word
            (omega (arith, n1, n2)),
        get_or-fill (start + 1) (last - (start + 1)) w first k (ground (arith, n1)),
        get_or-fill (start + 1) (last - (start + 1)) w first last (ground (arith, n1)),
        get_or-set ws start k (change (get_or ws start zero_word) fm) zero_word (omega arith),
        get_or-set ws start last (change (get_or ws start zero_word) fm) zero_word (omega arith),
      )
    ]

-- The order of two bits by their words and their places there.
leb_word :
    (from k j : ℕ)
    → j < 64
    → leb from (64 * k + j) ≡ (if k == from / 64 then leb (from % 64) j else ltb (from / 64) k)
leb_word from k j h = ground arith

leb_in_word :
    (to k j : ℕ)
    → 0 < to
    → j < 64
    → ltb (64 * k + j) to
      ≡ (if k == (to - 1) / 64 then leb j ((to - 1) % 64) else ltb k ((to - 1) / 64))
leb_in_word to k j p h = ground arith

-- A write to a range gives the bits of the range their value, and leaves the others.
pub write_range_bit :
    (change : Word → Word → Word) (w : Word) (v : Bool) (from to : ℕ) (ws : List Word) (k j : ℕ)
    → ((x m : Word) (i : ℕ) → change x m i ≡ (if m i then v else x i))
    → ((i : ℕ) → w i ≡ v)
    → j < 64
    → 0 < to
    → from / 64 ≤ (to - 1) / 64
    → (to - 1) / 64 < length ws
    → bit_at
        (write_range change w
          (from / 64)
          ((to - 1) / 64)
          (safe_left_shift word_mask (pos from))
          (safe_right_shift word_mask (negate to))
          ws)
        k
        j
      ≡ (if leb from (64 * k + j) && ltb (64 * k + j) to then v else bit_at ws k j)
write_range_bit change w v from to ws k j changed filled h p o l =
    let fm = safe_left_shift word_mask (pos from) in
    let lm = safe_right_shift word_mask (negate to) in
    let x = get_or ws k zero_word in
    let start = from / 64 in
    let last = (to - 1) / 64 in
    let word_k = ap (λ (y : Word). y j) (get_or-write_range change w start last fm lm ws k o l) in
    ground (
      arith,
      word_k,
      leb_word from k j h,
      leb_in_word to k j p h,
      first_mask_bit from j,
      last_mask_bit to j p h,
      changed x fm j,
      changed x lm j,
      changed x (word_and fm lm) j,
      filled j,
    )
