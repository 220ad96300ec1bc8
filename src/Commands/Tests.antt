-- ===== src/Commands/Tests.antt =====
-- Witnesses for the frames that lib/Commands.cc writes.
use pulsar_client_cpp.Prelude.{◌≡◌, refl, true, [], ◌∷◌, ◌++◌, none, some, arith}
use pulsar_client_cpp.SharedBuffer.{SharedBuffer}
use pulsar_client_cpp.SharedBuffer.Cursor.{contents}
use pulsar_client_cpp.Frames.Sent.{frame_bytes, entry, body}
use pulsar_client_cpp.Frames.Samples.{plain, plain_codec, add_all, add_all_twice}
use pulsar_client_cpp.Commands.{new_send}
use pulsar_client_cpp.Commands.Send.{IsChecksum, args_of, new_send-frame_bytes}

add_all-IsChecksum : IsChecksum plain plain_codec add_all
add_all-IsChecksum = record { goes_on = add_all_twice 0; agrees = λ xs. refl }

abbrev reused : SharedBuffer
reused = record { memory = 8 ∷ 8 ∷ 8 ∷ []; read_idx = 1; write_idx = 3; capacity = 64 }

new_send-frame_bytes_example :
    (b : SharedBuffer) × (new_send add_all reused true
        (args_of plain plain_codec add_all (9 ∷ []) (5 ∷ []) (6 ∷ 7 ∷ []))
      ≡ some b)
    × (contents b ++ (6 ∷ 7 ∷ [])
        ≡ frame_bytes plain plain_codec (entry (9 ∷ []) none true (5 ∷ []) (6 ∷ 7 ∷ [])))
unfolding body
new_send-frame_bytes_example =
    new_send-frame_bytes plain plain_codec add_all add_all-IsChecksum reused true (9 ∷ []) (5 ∷ [])
      (6 ∷ 7 ∷ []) (record { behind = omega arith; within = omega arith; narrow = omega arith })
      (omega arith)
