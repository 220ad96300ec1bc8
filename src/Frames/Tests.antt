-- ===== src/Frames/Tests.antt =====
-- Witnesses and runs of the reader of lib/ClientConnection.cc.
use pulsar_client_cpp.Prelude.{ℕ, ◌≤◌, ◌≡◌, ◌++◌, List, [], ◌∷◌, map, replicate, arith, ◌<◌}
use pulsar_client_cpp.SharedBuffer.{SharedBuffer, writable_bytes}
use pulsar_client_cpp.SharedBuffer.Cursor.{contents}
use pulsar_client_cpp.Frames.{reading, initial, process}
use pulsar_client_cpp.Frames.Sent.{Frame, all_bytes, event_of, frame_bytes, body}
use pulsar_client_cpp.Frames.Stream.Delivery.{deliver, frames_in_order, frames_all_handled}
use pulsar_client_cpp.Frames.Rounds.{process_enough}
use pulsar_client_cpp.Frames.Samples.{
  plain, plain_codec, plain-IsCodec, two_frames, two_frames-AllSendable,
}

frames_all_handled_example :
    let r = (deliver plain (replicate 60 0) (all_bytes plain plain_codec two_frames) initial).0 in
    (r.handled ≡ map (event_of plain plain_codec) two_frames)
    × (contents r.incoming_buffer ≡ [])
    × (r.status ≡ reading)
unfolding all_bytes frame_bytes body
frames_all_handled_example =
    frames_all_handled plain plain_codec plain-IsCodec two_frames two_frames-AllSendable
      (replicate 60 0) (omega arith)

frames_in_order_example :
    let (r, stream) =
      deliver plain (3 ∷ 12 ∷ []) (all_bytes plain plain_codec two_frames) initial in
    (sent left : List (Frame (List ℕ) (List ℕ) (List ℕ))) × (two_frames ≡ sent ++ left)
    × (r.handled ≡ map (event_of plain plain_codec) sent)
    × (contents r.incoming_buffer ++ stream ≡ all_bytes plain plain_codec left)
    × (r.status ≡ reading)
    × (0 < r.min_read_size)
    × (r.min_read_size ≤ writable_bytes r.incoming_buffer)
frames_in_order_example =
    frames_in_order plain plain_codec plain-IsCodec two_frames two_frames-AllSendable (3 ∷ 12 ∷ [])

-- Twelve bytes, which are no frame.
abbrev stray : SharedBuffer
stray = record {
  memory = 0 ∷ 0 ∷ 0 ∷ 4 ∷ 0 ∷ 0 ∷ 0 ∷ 0 ∷ 0 ∷ 0 ∷ 0 ∷ 9 ∷ [];
  read_idx = 0;
  write_idx = 12;
  capacity = 16;
}

process_enough_example : process plain 17 stray ≡ process plain 40 stray
process_enough_example =
    process_enough plain 17 40 stray (omega arith) (omega arith) (omega arith) (omega arith)
