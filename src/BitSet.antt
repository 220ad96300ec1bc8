-- ===== src/BitSet.antt =====
-- lib/BitSet.h: a growing set of bits in 64-bit words. A word is the function of its bits, 0 to 63;
-- the operators on words work bit by bit. A write to a word out of the vector changes nothing.
pub mod Words
pub mod Laws
pub mod Changes
pub mod Setting
use pulsar_client_cpp.Prelude.{
  ℕ, zero, suc, ◌+◌, ◌-◌, ◌*◌, ◌/◌, ◌%◌, Bool, true, false, not, ◌&&◌, ◌||◌, List, [], ◌∷◌, ◌++◌,
  length, get_or, set, take, replicate, ltb, leb, ◌==◌, if◌then◌else◌,
}
use pulsar_client_cpp.Prelude.Int.{ℤ, pos, negsuc}

abbrev pub Word : Type 0
Word = ℕ → Bool

abbrev pub zero_word : Word
zero_word i = false

abbrev pub word_mask : Word
word_mask i = true

abbrev pub one : Word
one i = i == 0

abbrev pub word_or : Word → Word → Word
word_or a b = λ i. a i || b i

abbrev pub word_and : Word → Word → Word
word_and a b = λ i. a i && b i

abbrev pub word_not : Word → Word
word_not a = λ i. not (a i)

-- `x << n` and `x >> n` of an unsigned word, for n below 64.
abbrev pub shift_left : Word → ℕ → Word
shift_left x n = λ i. leb n i && x (i - n)

abbrev pub shift_right : Word → ℕ → Word
shift_right x n = λ i. ltb (i + n) 64 && x (i + n)

-- `safeShiftCount` adds or subtracts the width until the count is in range.
unfoldable pub safe_shift_count : ℕ → ℤ → ℕ
safe_shift_count width (pos n) = n % width
safe_shift_count width (negsuc n) = width - 1 - n % width

unfoldable pub safe_left_shift : Word → ℤ → Word
unfolding safe_shift_count
safe_left_shift x n = shift_left x (safe_shift_count 64 n)

unfoldable pub safe_right_shift : Word → ℤ → Word
unfolding safe_shift_count
safe_right_shift x n = shift_right x (safe_shift_count 64 n)

-- Whether one of the lowest n bits is set, and the number of the bits up to the highest that is.
abbrev pub any_bit : ℕ → Word → Bool
any_bit zero x = false
any_bit (suc n) x = x n || any_bit n x

abbrev pub bit_length : ℕ → Word → ℕ
bit_length zero x = 0
bit_length (suc n) x = if x n then suc n else bit_length n x

unfoldable pub is_zero : Word → Bool
is_zero x = not (any_bit 64 x)

unfoldable pub number_of_leading_zeros : Word → ℕ
number_of_leading_zeros x = 64 - bit_length 64 x

pub record BitSet : Type 0 where
  pub words : List Word
  pub words_in_use : ℕ

-- `BitSet(numBits)`.
unfoldable pub new : ℕ → BitSet
new bits = record {
  words = replicate (bits / 64 + (if bits % 64 == 0 then 0 else 1)) zero_word;
  words_in_use = 0;
}

-- `BitSet(words)`.
unfoldable pub of_words : List Word → BitSet
of_words words = record { words = words; words_in_use = length words }

unfoldable pub is_empty : BitSet → Bool
is_empty b = b.words_in_use == 0

unfoldable pub word_index : ℕ → ℕ
word_index i = i / 64

-- `std::vector::resize`.
abbrev pub resize : ℕ → List Word → List Word
resize n ws = take n ws ++ replicate (n - length ws) zero_word

unfoldable pub expand_to : BitSet → ℕ → BitSet
expand_to b i =
    if ltb b.words_in_use (i + 1)
    then record { words = resize (i + 1) b.words; words_in_use = i + 1 }
    else b

-- `length()`.
unfoldable pub bits_in_use : BitSet → ℕ
unfolding number_of_leading_zeros
bits_in_use b =
    if b.words_in_use == 0
    then 0
    else 64 * (b.words_in_use - 1)
      + (64 - number_of_leading_zeros (get_or b.words (b.words_in_use - 1) zero_word))

-- `recalculateWordsInUse`, from a number of words down.
unfoldable pub used : List Word → ℕ → ℕ
unfolding is_zero
used ws zero = 0
used ws (suc n) = if not (is_zero (get_or ws n zero_word)) then suc n else used ws n

unfoldable pub recalculate_words_in_use : BitSet → BitSet
unfolding used
recalculate_words_in_use b = record b { words_in_use = used b.words b.words_in_use }

-- The words with number `start` up to, not including, `end` become `w`: `n` of them.
abbrev pub fill : ℕ → ℕ → Word → List Word → List Word
fill start zero w ws = ws
fill start (suc n) w ws = fill (start + 1) n w (set ws start w)

abbrev pub update : ℕ → (Word → Word) → List Word → List Word
update i f ws = set ws i (f (get_or ws i zero_word))

-- `-n`.
abbrev pub negate : ℕ → ℤ
negate zero = pos 0
negate (suc n) = negsuc n

-- What `set` and `clear` of a range do with the words: `change` in the first word, the words
-- between, and `change` in the last one; or, if that is the first, `change` with both masks.
unfoldable pub write_range :
    (Word → Word → Word) → Word → ℕ → ℕ → Word → Word → List Word → List Word
write_range change w start last first_mask last_mask ws =
    if start == last
    then update start (λ x. change x (word_and first_mask last_mask)) ws
    else update last (λ x. change x last_mask)
        (fill (start + 1) (last - (start + 1)) w (update start (λ x. change x first_mask) ws))

-- `words_[i] |= mask` and `words_[i] &= ~mask`.
abbrev pub set_bits : Word → Word → Word
set_bits x mask = word_or x mask

abbrev pub clear_bits : Word → Word → Word
clear_bits x mask = word_and x (word_not mask)

unfoldable pub set_range : BitSet → ℕ → ℕ → BitSet
unfolding word_index expand_to safe_left_shift safe_right_shift write_range
set_range b from to =
    let start = word_index from in
    let last = word_index (to - 1) in
    let b' = expand_to b last in
    record b' {
      words =
          write_range set_bits word_mask start last (safe_left_shift word_mask (pos from))
            (safe_right_shift word_mask (negate to)) b'.words;
    }

unfoldable pub clear_range : BitSet → ℕ → ℕ → BitSet
unfolding word_index bits_in_use recalculate_words_in_use safe_left_shift safe_right_shift
    write_range
clear_range b from to =
    let start = word_index from in
    if leb b.words_in_use start
    then b
    else (let last = word_index (to - 1) in
        let past = leb b.words_in_use last in
        recalculate_words_in_use (record b {
          words =
              write_range clear_bits zero_word start (if past then b.words_in_use - 1 else last)
                (safe_left_shift word_mask (pos from))
                (safe_right_shift word_mask (negate (if past then bits_in_use b else to))) b.words;
        }))

-- `clear` of one bit.
unfoldable pub clear : BitSet → ℕ → BitSet
unfolding word_index recalculate_words_in_use safe_left_shift
clear b i =
    let k = word_index i in
    if leb b.words_in_use k
    then b
    else recalculate_words_in_use
        (record b { words = update k (λ x. clear_bits x (safe_left_shift one (pos i))) b.words })
