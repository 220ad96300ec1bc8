-- ===== src/Commands/Frame.antt =====
-- What lib/Commands.cc writes is the frame that a reader of frames takes.
use pulsar_client_cpp.Prelude.{ℕ, ◌+◌, ◌%◌, ◌<◌, ◌≡◌, some, length, arith}
use pulsar_client_cpp.SharedBuffer.{SharedBuffer, u32_mod, allocate, write_unsigned_int, u32_bytes}
use pulsar_client_cpp.SharedBuffer.Cursor.{IsValid, contents}
use pulsar_client_cpp.SharedBuffer.Writing.{
  written, contents-written, written-IsValid, write_lem, allocate-IsValid,
}
use pulsar_client_cpp.Frames.{Protocol}
use pulsar_client_cpp.Frames.Sent.{Codec, simple, body, frame_bytes}
use pulsar_client_cpp.Commands.{write_message_with_size}

-- A number is taken to 32 bits when its bytes are written.
u32_bytes_mod : (n : ℕ) → n < u32_mod → u32_bytes (n % u32_mod) ≡ u32_bytes n
u32_bytes_mod n h = ground arith

-- The buffer that `writeMessageWithSize` gives holds the frame of a command that fits in 32 bits: the
-- size, the size of the command, and the command. No assertion fails on the way.
write_message_with_size-frame_bytes :
    {Command Entry Metadata : Type 0} (protocol : Protocol Command Entry Metadata)
    (codec : Codec Command Entry Metadata) (c : Command)
    → length (codec.command_bytes c) + 8 < u32_mod
    → (b : SharedBuffer) × (write_message_with_size (codec.command_bytes c) ≡ some b)
      × (contents b ≡ frame_bytes protocol codec (simple c))
      × IsValid b
unfolding write_message_with_size frame_bytes body write_unsigned_int contents
write_message_with_size-frame_bytes protocol codec c h =
    let bytes = codec.command_bytes c in
    let b0 = allocate (4 + (4 + length bytes)) in
    let b1 = written b0 (u32_bytes (4 + length bytes)) in
    let b2 = written b1 (u32_bytes (length bytes)) in
    let b3 = written b2 bytes in
    let v0 = allocate-IsValid (4 + (4 + length bytes)) (omega arith) in
    let v1 = written-IsValid b0 (u32_bytes (4 + length bytes)) v0 (omega arith) in
    let v2 = written-IsValid b1 (u32_bytes (length bytes)) v1 (omega arith) in
    let v3 = written-IsValid b2 bytes v2 (omega arith) in
    (
      b3,
      ground (
        arith,
        write_lem b0 (u32_bytes (4 + length bytes)) v0 (omega arith),
        write_lem b1 (u32_bytes (length bytes)) v1 (omega arith),
        write_lem b2 bytes v2 (omega arith),
      ),
      ground (
        arith,
        contents-written b0 (u32_bytes (4 + length bytes)) v0,
        contents-written b1 (u32_bytes (length bytes)) v1,
        contents-written b2 bytes v2,
      ),
      v3,
    )
