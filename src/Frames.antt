-- ===== src/Frames.antt =====
-- lib/ClientConnection.cc: how a connection reads frames from its socket. What the protocol buffers
-- parse to and the checksum are parameters, the record `Protocol`. What is done with a command is left
-- to its handler: `handled` is the log of them. A read on the socket gives the bytes that came, or
-- none at all when the other side has closed.
pub mod Sent
pub mod Reading
pub mod Stream
pub mod Rounds
pub mod Samples
mod Tests
use pulsar_client_cpp.Prelude.{
  ℕ, zero, suc, ◌+◌, ◌-◌, ◌%◌, max, Bool, true, false, not, ◌||◌, Option, none, some, List, [], ◌∷◌,
  ◌++◌, length, drop, leb, ltb, ◌==◌, if◌then◌else◌,
}
use pulsar_client_cpp.SharedBuffer.{
  SharedBuffer, u32_mod, sub32, M, ◌>>=◌, ◌>>◌, return, allocate, reset, take_padded, store,
  readable_bytes, writable_bytes, peek, consume, rollback, set_reader_index, bytes_written,
  read_unsigned_int, read_unsigned_short, copy_from, slice, write,
}

pub record Protocol (Command Entry Metadata : Type 0) : Type 0 where
  pub parse_command : List ℕ → Option Command
  pub is_message : Command → Bool
  pub parse_entry : List ℕ → Option Entry
  pub parse_metadata : List ℕ → Option Metadata
  pub checksum : List ℕ → ℕ

-- A call of `handleIncomingCommand` or of `handleIncomingMessage`.
pub data Event (Command Entry Metadata : Type 0) : Type 0 where
  command : Command → Event Command Entry Metadata
  message : Command → Bool → Option Entry → Metadata → List ℕ → Event Command Entry Metadata

pub data Status : Type 0 where
  reading disconnected crashed : Status

abbrev pub is_reading : Status → Bool
is_reading reading = true
is_reading disconnected = false
is_reading crashed = false

abbrev pub default_buffer_size : ℕ
default_buffer_size = 0x1_0000

abbrev pub magic_crc32c : ℕ
magic_crc32c = 0x0e01

abbrev pub magic_broker_entry_metadata : ℕ
magic_broker_entry_metadata = 0x0e02

-- How a round over the buffer ends: what the next read wants at least, if there is one.
pub record Pause : Type 0 where
  pub status : Status
  pub buffer : SharedBuffer
  pub min_read_size : ℕ

-- `min_read_size` is what the pending read passes on to `handleRead`.
pub record Reader (Command Entry Metadata : Type 0) : Type 0 where
  pub incoming_buffer : SharedBuffer
  pub min_read_size : ℕ
  pub handled : List (Event Command Entry Metadata)
  pub status : Status

abbrev pub initial : {Command Entry Metadata : Type 0} → Reader Command Entry Metadata
initial = record {
  incoming_buffer = allocate default_buffer_size;
  min_read_size = 4;
  handled = [];
  status = reading;
}

-- `handleRead` gives its asynchronous read this many bytes at least. (Its slice of the buffer has
-- the writer index and the memory of the buffer, so the bytes go to the same place.)
abbrev pub wait_for : SharedBuffer → ℕ → Pause
wait_for b size = record { status = reading; buffer = b; min_read_size = size }

abbrev pub stop : SharedBuffer → Status → Pause
stop b status = record { status = status; buffer = b; min_read_size = 0 }

-- A frame that is not complete: its size is put back, and there is room for it then.
unfoldable pub await_frame : ℕ → SharedBuffer → Pause
await_frame frame_size b =
    let to_receive = sub32 frame_size (readable_bytes b) in
    (elim (rollback 4 b) [
      | none ↦ stop b crashed
      | some (_, b') ↦
          if ltb (writable_bytes b') to_receive
          then (elim (copy_from b' (max default_buffer_size ((frame_size + 4) % u32_mod))) [
            | none ↦ stop b' crashed
            | some larger ↦ wait_for larger to_receive
          ])
          else wait_for b' to_receive
    ])

-- Behind the loop: up to three bytes are moved to the start of a new buffer.
unfoldable pub await_size : SharedBuffer → Pause
await_size b =
    if ltb 0 (readable_bytes b)
    then (elim (copy_from b default_buffer_size) [
      | none ↦ stop b crashed
      | some b' ↦ wait_for b' (sub32 4 (readable_bytes b'))
    ])
    else wait_for (reset b) 4

-- What the socket has written behind the writer index.
abbrev pub received : SharedBuffer → List ℕ → SharedBuffer
received b bytes = record b { memory = store b.write_idx bytes b.memory }

module _ {Command Entry Metadata : Type 0} (protocol : Protocol Command Entry Metadata) where
  -- The broker's metadata of an entry, if there is some, with the bytes that remain of the frame. An
  -- inner none is an error of the parser, here and below.
  unfoldable pub read_broker_entry : ℕ → M (Option (Option Entry × ℕ))
  read_broker_entry remaining b =
      (do
        magic ← read_unsigned_short
        (if magic == magic_broker_entry_metadata
            then (do
              size ← read_unsigned_int
              bytes ← peek size
              elim (protocol.parse_entry bytes) [
                | none ↦ return none
                | some entry ↦ do
                  set_reader_index (b.read_idx + 2 + 4 + size)
                  return (some (some entry, sub32 remaining (2 + 4 + size)))
              ])
            else (do set_reader_index b.read_idx; return (some (none, remaining)))))
        b

  unfoldable pub verify_checksum : ℕ → M (Bool × ℕ)
  verify_checksum remaining b =
      (do
        magic ← read_unsigned_short
        (if magic == magic_crc32c
            then (do
              stored ← read_unsigned_int
              let rest = sub32 remaining (2 + 4)
              bytes ← peek rest
              return (stored == protocol.checksum bytes, rest))
            else (do set_reader_index b.read_idx; return (true, remaining))))
        b

  -- The metadata of a message and its payload.
  unfoldable pub read_message :
      Command → Bool → Option Entry → ℕ → M (Option (Event Command Entry Metadata))
  read_message cmd valid entry remaining = do
    size ← read_unsigned_int
    bytes ← peek size
    elim (protocol.parse_metadata bytes) [
      | none ↦ return none
      | some metadata ↦ do
        consume size
        let payload_size = sub32 remaining (4 + size)
        payload ← peek payload_size
        consume payload_size
        return (some (message cmd valid entry metadata payload))
    ]

  unfoldable pub read_message_frame : Command → ℕ → M (Option (Event Command Entry Metadata))
  read_message_frame cmd remaining = do
    entry ← read_broker_entry remaining
    elim entry [
      | none ↦ return none
      | some (entry, left) ↦ do
        (valid, rest) ← verify_checksum left
        read_message cmd valid entry rest
    ]

  -- The part of a frame behind its size.
  unfoldable pub read_frame : ℕ → M (Option (Event Command Entry Metadata))
  read_frame frame_size = do
    cmd_size ← read_unsigned_int
    bytes ← peek cmd_size
    elim (protocol.parse_command bytes) [
      | none ↦ return none
      | some cmd ↦ do
        consume cmd_size
        (if protocol.is_message cmd
            then read_message_frame cmd (sub32 frame_size ((cmd_size + 4) % u32_mod))
            else return (some (command cmd)))
    ]

  -- The loop of `processIncomingBuffer`, with the events it makes. The fuel counts its rounds.
  unfoldable pub process : ℕ → SharedBuffer → List (Event Command Entry Metadata) × Pause
  process zero b = ([], stop b crashed)
  process (suc fuel) b =
      if ltb (readable_bytes b) 4 then ([], await_size b) else (elim (read_unsigned_int b) [
        | none ↦ ([], stop b crashed)
        | some (frame_size, b') ↦
            if ltb (readable_bytes b') frame_size
            then ([], await_frame frame_size b')
            else (elim (read_frame frame_size b') [
              | none ↦ ([], stop b' crashed)
              | some (none, b'') ↦ ([], stop b'' disconnected)
              | some (some event, b'') ↦
                  let (events, end) = process fuel b'' in (event ∷ events, end)
            ])
      ])

  unfoldable pub process_incoming_buffer :
      Reader Command Entry Metadata → Reader Command Entry Metadata
  process_incoming_buffer r =
      let (events, end) = process (suc r.incoming_buffer.capacity) r.incoming_buffer in
      record r {
        incoming_buffer = end.buffer;
        min_read_size = end.min_read_size;
        handled = r.handled ++ events;
        status = end.status;
      }

  unfoldable pub handle_read :
      Reader Command Entry Metadata → Bool → List ℕ → Reader Command Entry Metadata
  handle_read r err bytes =
      if not (is_reading r.status)
      then r
      else (elim (bytes_written (length bytes) (received r.incoming_buffer bytes)) [
        | none ↦ record r { status = crashed }
        | some (_, b) ↦
            if err || (length bytes == 0)
            then record r { incoming_buffer = b; status = disconnected }
            else (if ltb (length bytes) r.min_read_size
                then (elim (slice (length bytes) b) [
                  | none ↦ record r { incoming_buffer = b; status = crashed }
                  | some _ ↦ record r {
                    incoming_buffer = b;
                    min_read_size = r.min_read_size - length bytes;
                  }
                ])
                else process_incoming_buffer (record r { incoming_buffer = b }))
      ])
