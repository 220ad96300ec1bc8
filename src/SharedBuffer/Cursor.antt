-- ===== src/SharedBuffer/Cursor.antt =====
-- Reading from a buffer of lib/SharedBuffer.h, by what is to be read.
use pulsar_client_cpp.Prelude.{
  true, ℕ, zero, suc, ◌+◌, ◌-◌, ◌≤◌, ◌<◌, ◌≡◌, refl, sym, ap, ◌∙◌, Option, some, List, [], ◌∷◌,
  ◌++◌, length, drop, leb, arith, length-append,
}
use pulsar_client_cpp.SharedBuffer.{
  SharedBuffer, u32_mod, M, ◌>>=◌, take_padded, big_endian, u32_bytes, u16_bytes, readable_bytes,
  peek, consume, read_unsigned_int, read_unsigned_short,
}

pub record IsValid (b : SharedBuffer) : Type 0 where
  pub behind : b.read_idx ≤ b.write_idx
  pub within : b.write_idx ≤ b.capacity
  pub narrow : b.capacity < u32_mod

-- The bytes to read.
unfoldable pub contents : SharedBuffer → List ℕ
contents b = take_padded (b.write_idx - b.read_idx) (drop b.read_idx b.memory)

abbrev pub advance : SharedBuffer → ℕ → SharedBuffer
advance b n = record b { read_idx = b.read_idx + n }

pub length-take_padded : (n : ℕ) (xs : List ℕ) → length (take_padded n xs) ≡ n
length-take_padded zero xs = refl
length-take_padded (suc n) [] = ap suc (length-take_padded n [])
length-take_padded (suc n) (x ∷ xs) = ap suc (length-take_padded n xs)

pub length-contents : (b : SharedBuffer) → length (contents b) ≡ b.write_idx - b.read_idx
unfolding contents
length-contents b = length-take_padded _ _

pub readable_bytes_lem : (b : SharedBuffer) → IsValid b → readable_bytes b ≡ length (contents b)
unfolding readable_bytes
readable_bytes_lem b v = ground (arith, v, length-contents b)

pub drop_nil : (n : ℕ) → drop {A = ℕ} n [] ≡ []
drop_nil zero = refl
drop_nil (suc n) = refl

suc_shift : (n k : ℕ) → suc (n + k) ≡ suc n + k
suc_shift n k = omega arith

pub drop-drop : (n k : ℕ) (xs : List ℕ) → drop k (drop n xs) ≡ drop (n + k) xs
drop-drop zero k xs = ground arith
drop-drop (suc n) k [] = drop_nil k ∙ sym (drop_nil (suc n + k))
drop-drop (suc n) k (x ∷ xs) = drop-drop n k xs ∙ ap (λ j. drop j (x ∷ xs)) (suc_shift n k)

-- What is first in a padded list, and what is behind it.
pub take_padded_first :
    (n : ℕ) (ys xs rest : List ℕ) → take_padded n ys ≡ xs ++ rest → take_padded (length xs) ys ≡ xs
take_padded_first n ys [] rest e = refl
take_padded_first zero ys (x ∷ xs) rest e = absurd (cc)
take_padded_first (suc n) [] (x ∷ xs) rest e = ground (arith, e, take_padded_first n [] xs rest)
take_padded_first (suc n) (y ∷ ys) (x ∷ xs) rest e =
    ground (arith, e, take_padded_first n ys xs rest)

pub take_padded_rest :
    (n : ℕ) (ys xs rest : List ℕ)
    → take_padded n ys ≡ xs ++ rest
    → take_padded (n - length xs) (drop (length xs) ys) ≡ rest
take_padded_rest n ys [] rest e = ground (arith, e)
take_padded_rest zero ys (x ∷ xs) rest e = absurd (cc)
take_padded_rest (suc n) [] (x ∷ xs) rest e =
    ground (arith, e, take_padded_rest n [] xs rest, drop_nil (length xs))
take_padded_rest (suc n) (y ∷ ys) (x ∷ xs) rest e = ground (arith, e, take_padded_rest n ys xs rest)

pub contents-advance :
    (b : SharedBuffer) (xs rest : List ℕ)
    → contents b ≡ xs ++ rest
    → contents (advance b (length xs)) ≡ rest
unfolding contents
contents-advance b xs rest e = ground (
  arith,
  drop-drop b.read_idx (length xs) b.memory,
  take_padded_rest (b.write_idx - b.read_idx) (drop b.read_idx b.memory) xs rest e,
)

length-first :
    (b : SharedBuffer) (xs rest : List ℕ)
    → contents b ≡ xs ++ rest
    → length xs + length rest ≡ b.write_idx - b.read_idx
length-first b xs rest e = omega (arith, length-append xs rest, length-contents b, ap length e)

pub advance-IsValid :
    (b : SharedBuffer) (xs rest : List ℕ)
    → IsValid b
    → contents b ≡ xs ++ rest
    → IsValid (advance b (length xs))
advance-IsValid b xs rest v e = ground (arith, v, length-first b xs rest e)

-- A step of a chain.
pub bind_lem :
    {A B : Type 0} (m : M A) (f : A → M B) {a : A} {b b' : SharedBuffer}
    {r : Option (B × SharedBuffer)}
    → m b ≡ some (a, b')
    → f a b' ≡ r
    → (m >>= f) b ≡ r
bind_lem m f e g = rw (e, ◌>>=◌) g

pub peek_lem :
    (b : SharedBuffer) (xs rest : List ℕ)
    → IsValid b
    → contents b ≡ xs ++ rest
    → peek (length xs) b ≡ some (xs, b)
unfolding peek contents
peek_lem b xs rest v e = ground (
  arith,
  v,
  length-first b xs rest e,
  take_padded_first (b.write_idx - b.read_idx) (drop b.read_idx b.memory) xs rest e,
)

pub consume_lem :
    (b : SharedBuffer) (xs rest : List ℕ)
    → IsValid b
    → contents b ≡ xs ++ rest
    → consume (length xs) b ≡ some (tt, advance b (length xs))
unfolding consume
consume_lem b xs rest v e =
    ground (arith, readable_bytes_lem b v, length-contents b, length-first b xs rest e)

leb_room :
    (b : SharedBuffer) (xs rest : List ℕ)
    → IsValid b
    → contents b ≡ xs ++ rest
    → leb (length xs) (readable_bytes b) ≡ true
leb_room b xs rest v e =
    ground (arith, readable_bytes_lem b v, length-contents b, length-first b xs rest e)

big_endian-u32_bytes : (n : ℕ) → n < u32_mod → big_endian 0 (u32_bytes n) ≡ n
big_endian-u32_bytes n h = omega arith

big_endian-u16_bytes : (n : ℕ) → n < 0x1_0000 → big_endian 0 (u16_bytes n) ≡ n
big_endian-u16_bytes n h = omega arith

pub read_unsigned_int_lem :
    (b : SharedBuffer) (n : ℕ) (rest : List ℕ)
    → IsValid b
    → n < u32_mod
    → contents b ≡ u32_bytes n ++ rest
    → read_unsigned_int b ≡ some (n, advance b 4)
unfolding read_unsigned_int
read_unsigned_int_lem b n rest v h e = rw (leb_room b (u32_bytes n) rest v e) (
    bind_lem (peek 4) _ (peek_lem b (u32_bytes n) rest v e) (
      bind_lem (consume 4) _ (consume_lem b (u32_bytes n) rest v e)
        (ap (λ o. some (o, advance b 4)) (big_endian-u32_bytes n h))))

pub read_unsigned_short_lem :
    (b : SharedBuffer) (n : ℕ) (rest : List ℕ)
    → IsValid b
    → n < 0x1_0000
    → contents b ≡ u16_bytes n ++ rest
    → read_unsigned_short b ≡ some (n, advance b 2)
unfolding read_unsigned_short
read_unsigned_short_lem b n rest v h e = rw (leb_room b (u16_bytes n) rest v e) (
    bind_lem (peek 2) _ (peek_lem b (u16_bytes n) rest v e) (
      bind_lem (consume 2) _ (consume_lem b (u16_bytes n) rest v e)
        (ap (λ o. some (o, advance b 2)) (big_endian-u16_bytes n h))))
