-- ===== src/Prelude/Text.antt =====
-- Texts as lists of bytes (code points), and their comparison.
use Prim.Native.Char.{code}
use Prim.Native.String.{String}
use pulsar_client_cpp.Prelude.{
  ℕ, ◌≡◌, refl, Bool, true, false, List, [], ◌∷◌, ◌==◌, if◌then◌else◌, arith,
}

abbrev pub codes : String → List ℕ
codes String.[] = []
codes (String.◌∷◌ c s) = code c ∷ codes s

abbrev pub eq_bytes : List ℕ → List ℕ → Bool
eq_bytes [] [] = true
eq_bytes (a ∷ as') (b ∷ bs) = if a == b then eq_bytes as' bs else false
eq_bytes _ _ = false

pub eq_bytes_refl : (a : List ℕ) → eq_bytes a a ≡ true
eq_bytes_refl [] = refl
eq_bytes_refl (a ∷ as') = ground (arith, eq_bytes_refl as')
