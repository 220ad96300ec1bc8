-- ===== src/Frames/Sent.antt =====
-- The frames that a broker sends, as bytes, for the reader of lib/ClientConnection.cc.
use pulsar_client_cpp.Prelude.{
  ℕ, ◌+◌, ◌<◌, ◌≡◌, Bool, true, false, Option, none, some, List, [], ◌∷◌, ◌++◌, length,
}
use pulsar_client_cpp.SharedBuffer.{u32_mod, u32_bytes, u16_bytes}
use pulsar_client_cpp.Frames.{
  Protocol, Event, command, message, magic_crc32c, magic_broker_entry_metadata,
}

-- What the protocol buffers are written as.
pub record Codec (Command Entry Metadata : Type 0) : Type 0 where
  pub command_bytes : Command → List ℕ
  pub entry_bytes : Entry → List ℕ
  pub metadata_bytes : Metadata → List ℕ

-- What is written can be parsed, and a checksum has 32 bits.
pub record IsCodec {Command Entry Metadata : Type 0} (protocol : Protocol Command Entry Metadata)
    (codec : Codec Command Entry Metadata) : Type 0 where
  pub commands : (c : Command) → protocol.parse_command (codec.command_bytes c) ≡ some c
  pub entries : (e : Entry) → protocol.parse_entry (codec.entry_bytes e) ≡ some e
  pub metadata : (m : Metadata) → protocol.parse_metadata (codec.metadata_bytes m) ≡ some m
  pub checksums : (bytes : List ℕ) → protocol.checksum bytes < u32_mod

pub data Frame (Command Entry Metadata : Type 0) : Type 0 where
  simple : Command → Frame Command Entry Metadata
  entry : Command → Option Entry → Bool → Metadata → List ℕ → Frame Command Entry Metadata

module _ {Command Entry Metadata : Type 0} (protocol : Protocol Command Entry Metadata)
    (codec : Codec Command Entry Metadata) where
  abbrev pub sized : List ℕ → List ℕ
  sized bytes = u32_bytes (length bytes) ++ bytes

  abbrev pub entry_part : Option Entry → List ℕ
  entry_part none = []
  entry_part (some e) = u16_bytes magic_broker_entry_metadata ++ sized (codec.entry_bytes e)

  abbrev pub metadata_part : Metadata → List ℕ → List ℕ
  metadata_part m payload = sized (codec.metadata_bytes m) ++ payload

  abbrev pub checksum_part : Bool → List ℕ → List ℕ
  checksum_part false bytes = []
  checksum_part true bytes = u16_bytes magic_crc32c ++ u32_bytes (protocol.checksum bytes)

  abbrev pub message_part : Option Entry → Bool → Metadata → List ℕ → List ℕ
  message_part e summed m payload =
      let bytes = metadata_part m payload in entry_part e ++ (checksum_part summed bytes ++ bytes)

  -- A frame without its size.
  unfoldable pub body : Frame Command Entry Metadata → List ℕ
  body (simple c) = sized (codec.command_bytes c)
  body (entry c e summed m payload) =
      sized (codec.command_bytes c) ++ message_part e summed m payload

  unfoldable pub frame_bytes : Frame Command Entry Metadata → List ℕ
  unfolding body
  frame_bytes f = sized (body f)

  unfoldable pub all_bytes : List (Frame Command Entry Metadata) → List ℕ
  unfolding frame_bytes
  all_bytes [] = []
  all_bytes (f ∷ fs) = frame_bytes f ++ all_bytes fs

  -- What a frame is handled as.
  unfoldable pub event_of : Frame Command Entry Metadata → Event Command Entry Metadata
  event_of (simple c) = command c
  event_of (entry c e summed m payload) = message c true e m payload

  -- The command says whether the frame has a message, whose metadata, where nothing stands before it,
  -- is not so long that its size reads as a magic number.
  abbrev pub IsMarked : Frame Command Entry Metadata → Type 0
  IsMarked (simple c) = protocol.is_message c ≡ false
  IsMarked (entry c e summed m payload) =
      (protocol.is_message c ≡ true) × (length (codec.metadata_bytes m) < 0x0e01_0000)

  -- A frame that fits in a buffer.
  pub record IsSendable (f : Frame Command Entry Metadata) : Type 0 where
    pub marked : IsMarked f
    pub fits : length (body f) + 4 < u32_mod
