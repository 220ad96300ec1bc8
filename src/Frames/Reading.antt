-- ===== src/Frames/Reading.antt =====
-- Reading one frame in lib/ClientConnection.cc.
use mathlib.Core.List.{append_assoc}
use pulsar_client_cpp.Prelude.{
  ℕ, ◌+◌, ◌-◌, ◌/◌, ◌%◌, ◌≤◌, ◌<◌, ◌≡◌, ◌≢◌, refl, ap, ◌∙◌, Bool, true, false, Option, none, some,
  List, ◌++◌, length, length-append, arith,
}
use pulsar_client_cpp.SharedBuffer.{SharedBuffer, u32_mod, u32_bytes, u16_bytes, set_reader_index}
use pulsar_client_cpp.SharedBuffer.Cursor.{
  IsValid, contents, advance, contents-advance, advance-IsValid, peek_lem, consume_lem,
  read_unsigned_int_lem, read_unsigned_short_lem,
}
use pulsar_client_cpp.Frames.{
  Protocol, message, magic_crc32c, magic_broker_entry_metadata, read_broker_entry, verify_checksum,
  read_message, read_message_frame, read_frame,
}
use pulsar_client_cpp.Frames.Sent.{
  Codec, IsCodec, Frame, simple, entry, entry_part, metadata_part, checksum_part, message_part,
  body, event_of, IsSendable,
}

u32_bytes_split : (n : ℕ) → u32_bytes n ≡ u16_bytes (n / 0x1_0000) ++ u16_bytes (n % 0x1_0000)
u32_bytes_split n = ground arith

abbrev at : SharedBuffer → ℕ → SharedBuffer
at b i = record b { read_idx = i }

set_reader_index_lem :
    (b : SharedBuffer) (xs rest : List ℕ)
    → IsValid b
    → contents b ≡ xs ++ rest
    → set_reader_index (b.read_idx + length xs) b ≡ some (tt, advance b (length xs))
unfolding set_reader_index
set_reader_index_lem b xs rest v c = ground (arith, v, advance-IsValid b xs rest v c)

restore_lem :
    (b : SharedBuffer) (n : ℕ)
    → IsValid b
    → set_reader_index b.read_idx (advance b n) ≡ some (tt, b)
unfolding set_reader_index
restore_lem b n v = ground (arith, v)

module _ {Command Entry Metadata : Type 0} (protocol : Protocol Command Entry Metadata)
    (codec : Codec Command Entry Metadata) (law : IsCodec protocol codec) where
  read_broker_entry-some :
      (b : SharedBuffer) (e : Entry) (remaining : ℕ) (rest : List ℕ)
      → IsValid b
      → contents b ≡ entry_part protocol codec (some e) ++ rest
      → length (entry_part protocol codec (some e)) ≤ remaining
      → remaining < u32_mod
      → read_broker_entry protocol remaining b
        ≡ some (
          some (some e, remaining - length (entry_part protocol codec (some e))),
          advance b (length (entry_part protocol codec (some e))),
        )
  unfolding read_broker_entry
  read_broker_entry-some b e remaining rest v c r n =
      let bytes = codec.entry_bytes e in
      let magic = u16_bytes magic_broker_entry_metadata in
      let b2 = advance b 2 in
      let b6 = advance b2 4 in
      let v2 = advance-IsValid b magic _ v c in
      let c2 : contents b2 ≡ u32_bytes (length bytes) ++ bytes ++ rest =
        contents-advance b magic _ c in
      let v6 = advance-IsValid b2 (u32_bytes (length bytes)) _ v2 c2 in
      let c6 = contents-advance b2 (u32_bytes (length bytes)) _ c2 in
      ground (
        arith,
        read_unsigned_short_lem b magic_broker_entry_metadata _ v (omega arith) c,
        read_unsigned_int_lem b2 (length bytes) _ v2 (omega arith) c2,
        peek_lem b6 bytes rest v6 c6,
        set_reader_index_lem b6 bytes rest v6 c6,
        law.entries e,
      )

  -- A number that is no magic number is put back.
  read_broker_entry-none :
      (b : SharedBuffer) (n remaining : ℕ) (rest : List ℕ)
      → IsValid b
      → n < 0x1_0000
      → n ≢ magic_broker_entry_metadata
      → contents b ≡ u16_bytes n ++ rest
      → read_broker_entry protocol remaining b ≡ some (some (none, remaining), b)
  unfolding read_broker_entry
  read_broker_entry-none b n remaining rest v h ne c =
      ground (arith, read_unsigned_short_lem b n _ v h c, restore_lem b 2 v)

  verify_checksum_absent :
      (b : SharedBuffer) (n remaining : ℕ) (rest : List ℕ)
      → IsValid b
      → n < 0x1_0000
      → n ≢ magic_crc32c
      → contents b ≡ u16_bytes n ++ rest
      → verify_checksum protocol remaining b ≡ some ((true, remaining), b)
  unfolding verify_checksum
  verify_checksum_absent b n remaining rest v h ne c =
      ground (arith, read_unsigned_short_lem b n _ v h c, restore_lem b 2 v)

  verify_checksum-some :
      (b : SharedBuffer) (bytes rest : List ℕ) (remaining : ℕ)
      → IsValid b
      → contents b ≡ checksum_part protocol codec true bytes ++ bytes ++ rest
      → remaining ≡ 6 + length bytes
      → remaining < u32_mod
      → verify_checksum protocol remaining b ≡ some ((true, length bytes), advance b 6)
  unfolding verify_checksum
  verify_checksum-some b bytes rest remaining v c r n =
      let magic = u16_bytes magic_crc32c in
      let sum = protocol.checksum bytes in
      let b2 = advance b 2 in
      let b6 = advance b2 4 in
      let v2 = advance-IsValid b magic _ v c in
      let c2 : contents b2 ≡ u32_bytes sum ++ bytes ++ rest = contents-advance b magic _ c in
      let v6 = advance-IsValid b2 (u32_bytes sum) _ v2 c2 in
      let c6 = contents-advance b2 (u32_bytes sum) _ c2 in
      ground (
        arith,
        read_unsigned_short_lem b magic_crc32c _ v (omega arith) c,
        read_unsigned_int_lem b2 sum _ v2 (law.checksums bytes) c2,
        peek_lem b6 bytes rest v6 c6,
      )

  read_message_lem :
      (b : SharedBuffer) (cmd : Command) (valid : Bool) (e : Option Entry) (m : Metadata)
      (payload rest : List ℕ)
      → IsValid b
      → contents b ≡ metadata_part protocol codec m payload ++ rest
      → length (metadata_part protocol codec m payload) < u32_mod
      → read_message protocol cmd valid e (length (metadata_part protocol codec m payload)) b
        ≡ some (
          some (message cmd valid e m payload),
          advance b (length (metadata_part protocol codec m payload)),
        )
  unfolding read_message
  read_message_lem b cmd valid e m payload rest v c n =
      let bytes = codec.metadata_bytes m in
      let size = u32_bytes (length bytes) in
      let b4 = advance b 4 in
      let bm = advance b4 (length bytes) in
      let whole : contents b ≡ size ++ (bytes ++ (payload ++ rest)) =
        c ∙ ap (λ l. size ++ l) (append_assoc bytes payload rest) in
      let v4 = advance-IsValid b size _ v whole in
      let c4 : contents b4 ≡ bytes ++ (payload ++ rest) = contents-advance b size _ whole in
      let vm = advance-IsValid b4 bytes _ v4 c4 in
      let cm = contents-advance b4 bytes _ c4 in
      ground (
        arith,
        length-append bytes payload,
        read_unsigned_int_lem b (length bytes) _ v (omega (arith, length-append bytes payload))
            whole,
        peek_lem b4 bytes _ v4 c4,
        consume_lem b4 bytes _ v4 c4,
        peek_lem bm payload rest vm cm,
        consume_lem bm payload rest vm cm,
        law.metadata m,
      )

  -- A metadata size below the bound starts with no magic number.
  metadata_first :
      (b : SharedBuffer) (m : Metadata) (payload rest : List ℕ)
      → contents b ≡ metadata_part protocol codec m payload ++ rest
      → (more : List ℕ) × (contents b
          ≡ u16_bytes (length (codec.metadata_bytes m) / 0x1_0000) ++ more)
  metadata_first b m payload rest c = (
    u16_bytes (length (codec.metadata_bytes m) % 0x1_0000)
        ++ ((codec.metadata_bytes m ++ payload) ++ rest),
    c
        ∙ ap (λ l. l ++ ((codec.metadata_bytes m ++ payload) ++ rest))
            (u32_bytes_split (length (codec.metadata_bytes m))),
  )

  checksum_part_lem :
      (b : SharedBuffer) (summed : Bool) (m : Metadata) (payload rest : List ℕ)
      → IsValid b
      → length (codec.metadata_bytes m) < 0x0e01_0000
      → contents b
        ≡ checksum_part protocol codec summed (metadata_part protocol codec m payload)
          ++ (metadata_part protocol codec m payload ++ rest)
      → 6 + length (metadata_part protocol codec m payload) < u32_mod
      → verify_checksum protocol
          (length (checksum_part protocol codec summed (metadata_part protocol codec m payload))
            + length (metadata_part protocol codec m payload))
          b
        ≡ some (
          (true, length (metadata_part protocol codec m payload)),
          advance b (
              length
                (checksum_part protocol codec summed (metadata_part protocol codec m payload))),
        )
  checksum_part_lem b true m payload rest v h c n =
      verify_checksum-some b (metadata_part protocol codec m payload) rest _ v c refl (omega arith)
  checksum_part_lem b false m payload rest v h c n =
      let (more, first) = metadata_first b m payload rest c in
      ground (
        arith,
        verify_checksum_absent b (length (codec.metadata_bytes m) / 0x1_0000)
            (length (metadata_part protocol codec m payload)) more v (omega arith)
            (λ e. omega arith) first,
      )

  abbrev summed_part : Bool → Metadata → List ℕ → List ℕ
  summed_part summed m payload =
      checksum_part protocol codec summed (metadata_part protocol codec m payload)

  abbrev left_part : Bool → Metadata → List ℕ → List ℕ
  left_part summed m payload =
      summed_part summed m payload ++ metadata_part protocol codec m payload

  entry_part_lem :
      (b : SharedBuffer) (e : Option Entry) (summed : Bool) (m : Metadata) (payload rest : List ℕ)
      → IsValid b
      → length (codec.metadata_bytes m) < 0x0e01_0000
      → contents b ≡ entry_part protocol codec e ++ (left_part summed m payload ++ rest)
      → length (message_part protocol codec e summed m payload) < u32_mod
      → read_broker_entry protocol (length (message_part protocol codec e summed m payload)) b
        ≡ some (
          some (e, length (left_part summed m payload)),
          advance b (length (entry_part protocol codec e)),
        )
  entry_part_lem b (some e) summed m payload rest v h c n =
      let left = left_part summed m payload in
      let sizes = length-append (entry_part protocol codec (some e)) left in
      ground (
        arith,
        sizes,
        read_broker_entry-some b e (length (message_part protocol codec (some e) summed m payload))
            (left ++ rest) v c (omega (arith, sizes)) n,
      )
  entry_part_lem b none true m payload rest v h c n = ground (
    arith,
    read_broker_entry-none b magic_crc32c (length (message_part protocol codec none true m payload))
        _ v (omega arith) (λ e. omega arith) c,
  )
  entry_part_lem b none false m payload rest v h c n =
      let (more, first) = metadata_first b m payload rest c in
      ground (
        arith,
        read_broker_entry-none b (length (codec.metadata_bytes m) / 0x1_0000)
            (length (message_part protocol codec none false m payload)) more v (omega arith)
            (λ e. omega arith) first,
      )

  read_message_frame_lem :
      (b : SharedBuffer) (cmd : Command) (e : Option Entry) (summed : Bool) (m : Metadata)
      (payload rest : List ℕ)
      → IsValid b
      → length (codec.metadata_bytes m) < 0x0e01_0000
      → contents b ≡ message_part protocol codec e summed m payload ++ rest
      → length (message_part protocol codec e summed m payload) + 6 < u32_mod
      → read_message_frame protocol cmd (length (message_part protocol codec e summed m payload)) b
        ≡ some (
          some (message cmd true e m payload),
          advance b (length (message_part protocol codec e summed m payload)),
        )
  unfolding read_message_frame
  read_message_frame_lem b cmd e summed m payload rest v h c n =
      let md = metadata_part protocol codec m payload in
      let sum = summed_part summed m payload in
      let head = entry_part protocol codec e in
      let whole : contents b ≡ head ++ ((sum ++ md) ++ rest) =
        c ∙ append_assoc head (sum ++ md) rest in
      let be = advance b (length head) in
      let ve = advance-IsValid b head _ v whole in
      let ce : contents be ≡ sum ++ (md ++ rest) =
        contents-advance b head _ whole ∙ append_assoc sum md rest in
      let bs = advance be (length sum) in
      let vs = advance-IsValid be sum _ ve ce in
      let cs = contents-advance be sum _ ce in
      let sizes = length-append head (sum ++ md) in
      let left = length-append sum md in
      let valid = checksum_part_lem be summed m payload rest ve h ce (omega (arith, sizes, left)) in
      ground (
        arith,
        sizes,
        left,
        entry_part_lem b e summed m payload rest v h whole (omega arith),
        valid,
        read_message_lem bs cmd true e m payload rest vs cs (omega (arith, sizes, left)),
      )

  -- Reading a frame that was sent gives its event, with the reader behind it.
  pub read_frame_lem :
      (b : SharedBuffer) (f : Frame Command Entry Metadata) (rest : List ℕ)
      → IsValid b
      → IsSendable protocol codec f
      → contents b ≡ body protocol codec f ++ rest
      → read_frame protocol (length (body protocol codec f)) b
        ≡ some (some (event_of protocol codec f), advance b (length (body protocol codec f)))
  unfolding read_frame body event_of
  read_frame_lem b (simple c) rest v s e =
      let bytes = codec.command_bytes c in
      let b4 = advance b 4 in
      let v4 = advance-IsValid b (u32_bytes (length bytes)) _ v e in
      let c4 = contents-advance b (u32_bytes (length bytes)) _ e in
      ground (
        arith,
        read_unsigned_int_lem b (length bytes) _ v (omega (arith, s.fits)) e,
        peek_lem b4 bytes _ v4 c4,
        consume_lem b4 bytes _ v4 c4,
        law.commands c,
        s.marked,
      )
  read_frame_lem b (entry c e summed m payload) rest v s x =
      let bytes = codec.command_bytes c in
      let size = u32_bytes (length bytes) in
      let part = message_part protocol codec e summed m payload in
      let whole : contents b ≡ size ++ (bytes ++ (part ++ rest)) =
        x ∙ ap (λ l. size ++ l) (append_assoc bytes part rest) in
      let b4 = advance b 4 in
      let v4 = advance-IsValid b size _ v whole in
      let c4 : contents b4 ≡ bytes ++ (part ++ rest) = contents-advance b size _ whole in
      let bc = advance b4 (length bytes) in
      let vc = advance-IsValid b4 bytes _ v4 c4 in
      let cc' = contents-advance b4 bytes _ c4 in
      let sizes = length-append bytes part in
      ground (
        arith,
        sizes,
        read_unsigned_int_lem b (length bytes) _ v (omega (arith, s.fits, sizes)) whole,
        peek_lem b4 bytes _ v4 c4,
        consume_lem b4 bytes _ v4 c4,
        law.commands c,
        s.marked.0,
        read_message_frame_lem bc c e summed m payload rest vc s.marked.1 cc'
            (omega (arith, s.fits, sizes)),
      )
