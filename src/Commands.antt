-- ===== src/Commands.antt =====
-- lib/Commands.cc: how commands are written as frames. The bytes of the protocol buffers are given, and
-- the checksum (of bytes behind those of a checksum) is a parameter.
pub mod Frame
pub mod Send
mod Tests
use pulsar_client_cpp.Prelude.{
  ℕ, ◌+◌, ◌-◌, ◌%◌, Bool, true, false, Option, none, some, List, [], ◌∷◌, ◌++◌, length, ltb,
  if◌then◌else◌, drop,
}
use pulsar_client_cpp.SharedBuffer.{
  SharedBuffer, u32_mod, M, ◌>>=◌, ◌>>◌, return, allocate, reset, take_padded, writable_bytes,
  write, write_unsigned_int, write_unsigned_short, skip_bytes, set_writer_index,
}
use pulsar_client_cpp.Frames.{magic_crc32c}

-- What an operation leaves of the buffer.
abbrev pub buffer_of {ℓ} : {A : Type ℓ} → Option (A × SharedBuffer) → Option SharedBuffer
buffer_of none = none
buffer_of (some (a, b)) = some b

unfoldable pub write_message_with_size : List ℕ → Option SharedBuffer
write_message_with_size cmd =
    let cmd_size = length cmd in
    let frame_size = 4 + cmd_size in
    buffer_of (
      (do
        write_unsigned_int (frame_size % u32_mod)
        write_unsigned_int (cmd_size % u32_mod)
        write cmd)
        (allocate ((4 + frame_size) % u32_mod)))

-- `SendArguments`, as bytes. (The command has the producer's id and the sequence id.)
pub record SendArguments : Type 0 where
  pub cmd : List ℕ
  pub metadata : List ℕ
  pub payload : List ℕ

abbrev pub magic_and_checksum_length : Bool → ℕ
magic_and_checksum_length true = 2 + 4
magic_and_checksum_length false = 0

abbrev pub header_content_size : Bool → SendArguments → ℕ
header_content_size crc32c args =
    4 + length args.cmd + magic_and_checksum_length crc32c + 4 + length args.metadata

-- The shared headers, or larger ones that are allocated.
unfoldable pub choose_headers : SharedBuffer → ℕ → SharedBuffer
choose_headers original size =
    if ltb (writable_bytes (reset original)) (4 + size) then allocate (4 + size) else reset original

abbrev pub writer_index : M ℕ
writer_index b = some (b.write_idx, b)

-- The place of the checksum, which is written last.
unfoldable pub write_placeholder : Bool → M ℕ
write_placeholder false = return 0
write_placeholder true = do
  write_unsigned_short magic_crc32c
  index ← writer_index
  skip_bytes 4
  return index

-- The checksum of the metadata that was written, at `data()`, and of the payload.
abbrev pub sum_of : (ℕ → List ℕ → ℕ) → ℕ → List ℕ → SharedBuffer → ℕ
sum_of compute_checksum reader_index payload b =
    let start = reader_index + 4 in
    let metadata = take_padded (b.write_idx - start) (drop (b.read_idx + start) b.memory) in
    compute_checksum (compute_checksum 0 metadata) payload

unfoldable pub write_checksum : (ℕ → List ℕ → ℕ) → Bool → ℕ → List ℕ → M (Unit {0})
write_checksum compute_checksum false reader_index payload b = some (tt, b)
write_checksum compute_checksum true reader_index payload b =
    (do
      set_writer_index reader_index
      write_unsigned_int (sum_of compute_checksum reader_index payload b)
      set_writer_index b.write_idx)
      b

-- `newSend`: the headers; the payload is sent behind them as it is.
unfoldable pub new_send :
    (ℕ → List ℕ → ℕ) → SharedBuffer → Bool → SendArguments → Option SharedBuffer
new_send compute_checksum original crc32c args =
    let content = header_content_size crc32c args in
    buffer_of (
      (do
        write_unsigned_int (content + length args.payload)
        write_unsigned_int (length args.cmd)
        write args.cmd
        index ← write_placeholder crc32c
        write_unsigned_int (length args.metadata)
        write args.metadata
        write_checksum compute_checksum crc32c index args.payload)
        (choose_headers original content))
