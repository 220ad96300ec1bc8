-- ===== src/Frames/Samples.antt =====
-- A protocol whose buffers are their bytes, to run the reader of lib/ClientConnection.cc on.
use pulsar_client_cpp.Prelude.{
  ℕ, ◌+◌, ◌%◌, ◌<◌, ◌≡◌, refl, Bool, true, false, some, List, [], ◌∷◌, ◌++◌, ◌==◌, arith,
}
use pulsar_client_cpp.SharedBuffer.{u32_mod}
use pulsar_client_cpp.Frames.{Protocol}
use pulsar_client_cpp.Frames.Sent.{Codec, IsCodec, Frame, simple, entry, body}
use pulsar_client_cpp.Frames.Stream.{AllSendable}

abbrev pub add_all : ℕ → List ℕ → ℕ
add_all n [] = n
add_all n (x ∷ xs) = add_all ((n + x) % u32_mod) xs

add_all-lt : (n : ℕ) (xs : List ℕ) → n < u32_mod → add_all n xs < u32_mod
add_all-lt n [] h = h
add_all-lt n (x ∷ xs) h = add_all-lt ((n + x) % u32_mod) xs (omega arith)

pub add_all_twice : (n : ℕ) (xs ys : List ℕ) → add_all (add_all n xs) ys ≡ add_all n (xs ++ ys)
add_all_twice n [] ys = refl
add_all_twice n (x ∷ xs) ys = add_all_twice ((n + x) % u32_mod) xs ys

-- A command that starts with 9 has a message.
abbrev pub is_nine : List ℕ → Bool
is_nine [] = false
is_nine (x ∷ xs) = x == 9

abbrev pub plain : Protocol (List ℕ) (List ℕ) (List ℕ)
plain = record {
  parse_command = λ bytes. some bytes;
  is_message = is_nine;
  parse_entry = λ bytes. some bytes;
  parse_metadata = λ bytes. some bytes;
  checksum = λ bytes. add_all 0 bytes;
}

abbrev pub plain_codec : Codec (List ℕ) (List ℕ) (List ℕ)
plain_codec = record {
  command_bytes = λ bytes. bytes;
  entry_bytes = λ bytes. bytes;
  metadata_bytes = λ bytes. bytes;
}

pub plain-IsCodec : IsCodec plain plain_codec
plain-IsCodec = record {
  commands = λ c. refl;
  entries = λ e. refl;
  metadata = λ m. refl;
  checksums = λ bytes. add_all-lt 0 bytes (omega arith);
}

-- A command, and a message with the broker's metadata and a checksum.
abbrev pub two_frames : List (Frame (List ℕ) (List ℕ) (List ℕ))
two_frames = simple (1 ∷ 2 ∷ []) ∷ entry (9 ∷ []) (some (4 ∷ [])) true (5 ∷ []) (6 ∷ 7 ∷ []) ∷ []

pub two_frames-AllSendable : AllSendable plain plain_codec two_frames
unfolding body
two_frames-AllSendable = (
  record { marked = refl; fits = omega arith },
  (record { marked = (refl, omega arith); fits = omega arith }, tt),
)
