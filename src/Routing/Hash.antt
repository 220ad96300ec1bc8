-- ===== src/Routing/Hash.antt =====
-- lib/JavaStringHash.cc against the polynomial of Java's String.hashCode.
use pulsar_client_cpp.Prelude.{ℕ, ◌+◌, ◌*◌, ◌%◌, ◌^◌, ◌<◌, ◌≡◌, ◌∙◌, List, [], ◌∷◌, arith}
use pulsar_client_cpp.Routing.{char_value, hash_loop, make_hash}

-- The polynomial in 31 whose coefficients are the characters, without bounds.
abbrev pub polynomial : ℕ → List ℕ → ℕ
polynomial h [] = h
polynomial h (c ∷ cs) = polynomial (31 * h + c) cs

-- The characters are ASCII.
abbrev pub IsAscii : List ℕ → Type 0
IsAscii [] = Unit {0}
IsAscii (c ∷ cs) = (c < 128) × IsAscii cs

polynomial_mod :
    (g h : ℕ) (cs : List ℕ)
    → g % 2 ^ 32 ≡ h % 2 ^ 32
    → polynomial g cs % 2 ^ 32 ≡ polynomial h cs % 2 ^ 32
polynomial_mod g h [] e = e
polynomial_mod g h (c ∷ cs) e = polynomial_mod (31 * g + c) (31 * h + c) cs (omega arith)

hash_loop_lem :
    (h : ℕ) (cs : List ℕ) → IsAscii cs → h < 2 ^ 32 → hash_loop h cs ≡ polynomial h cs % 2 ^ 32
unfolding hash_loop char_value
hash_loop_lem h [] a b = omega arith
hash_loop_lem h (c ∷ cs) a b =
    let char : char_value c ≡ c = ground arith in
    rw char (
      hash_loop_lem ((31 * h + c) % 2 ^ 32) cs a.1 (omega arith)
      ∙ polynomial_mod ((31 * h + c) % 2 ^ 32) (31 * h + c) cs (omega arith))

-- On an ASCII key the hash is Java's: the polynomial in 31 over the characters, which does not
-- overflow, reduced to its low 31 bits, whatever the 32-bit loop has cut off on its way.
pub make_hash-polynomial : (key : List ℕ) → IsAscii key → make_hash key ≡ polynomial 0 key % 2 ^ 31
unfolding make_hash
make_hash-polynomial key a = omega (arith, hash_loop_lem 0 key a (omega arith))
