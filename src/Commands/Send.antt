-- ===== src/Commands/Send.antt =====
-- What `newSend` of lib/Commands.cc writes.
use mathlib.Core.List.{append_assoc}
use pulsar_client_cpp.Prelude.{
  ℕ, ◌+◌, ◌-◌, ◌≤◌, ◌<◌, ◌≡◌, refl, sym, ap, ◌∙◌, Bool, true, false, none, some, List, [], ◌++◌,
  length, length-append, arith,
}
use pulsar_client_cpp.SharedBuffer.{
  SharedBuffer, u32_mod, writable_bytes, write, write_unsigned_int, write_unsigned_short,
  skip_bytes, set_writer_index, u32_bytes, u16_bytes,
}
use pulsar_client_cpp.SharedBuffer.Cursor.{IsValid, contents, length-contents, length-take_padded}
use pulsar_client_cpp.SharedBuffer.Writing.{written, contents-written, written-IsValid, write_lem}
use pulsar_client_cpp.SharedBuffer.Patching.{
  skipped, gap, contents-skipped, patched, contents-patched, take_behind,
}
use pulsar_client_cpp.Frames.{Protocol, magic_crc32c}
use pulsar_client_cpp.Frames.Sent.{Codec, entry, message_part, body, frame_bytes}
use pulsar_client_cpp.Commands.{
  SendArguments, header_content_size, choose_headers, write_placeholder, write_checksum, new_send,
}

set_writer_index_lem :
    (b : SharedBuffer) (index : ℕ)
    → index ≤ b.capacity
    → set_writer_index index b ≡ some (tt, record b { write_idx = index })
unfolding set_writer_index
set_writer_index_lem b index h = ground (arith)

skip_bytes_lem :
    (b : SharedBuffer) (n : ℕ)
    → b.write_idx + n ≤ b.capacity
    → skip_bytes n b ≡ some (tt, skipped b n)
unfolding skip_bytes
skip_bytes_lem b n h = ground arith

write_checksum_lem :
    (compute_checksum : ℕ → List ℕ → ℕ) (payload : List ℕ) (b : SharedBuffer)
    (front old back : List ℕ)
    → IsValid b
    → b.read_idx ≡ 0
    → contents b ≡ front ++ (old ++ back)
    → length old ≡ 4
    → write_checksum compute_checksum true (length front) payload b
      ≡ some (
        tt,
        patched b (length front) (u32_bytes (compute_checksum (compute_checksum 0 back) payload)),
      )
unfolding write_checksum write_unsigned_int
write_checksum_lem compute_checksum payload b front old back v r c h =
    let start = record b { write_idx = length front } in
    let sum = compute_checksum (compute_checksum 0 back) payload in
    let total : length front + (4 + length back) ≡ b.write_idx = omega (
      arith,
      h,
      length-contents b,
      ap length c,
      length-append front (old ++ back),
      length-append old back,
    ) in
    let summed = take_behind b (front ++ old) back r (c ∙ sym (append_assoc front old back)) in
    let there : IsValid start = ground (arith, v) in
    ground (
      arith,
      r,
      h,
      summed,
      length-append front old,
      set_writer_index_lem b (length front) (omega (arith, v)),
      write_lem start (u32_bytes sum) there (omega (arith, v)),
      set_writer_index_lem (written start (u32_bytes sum)) b.write_idx v.within,
    )

-- The headers are empty and have room.
record HasRoom (b : SharedBuffer) (size : ℕ) : Type 0 where
  pub valid : IsValid b
  pub first : b.read_idx ≡ 0
  pub empty : b.write_idx ≡ 0
  pub room : size ≤ b.capacity

choose_headers-HasRoom :
    (original : SharedBuffer) (size : ℕ)
    → IsValid original
    → 4 + size < u32_mod
    → HasRoom (choose_headers original size) (4 + size)
unfolding choose_headers writable_bytes
choose_headers-HasRoom original size v h = ground (arith, v)

write_placeholder_lem :
    (b : SharedBuffer)
    → IsValid b
    → 6 ≤ b.capacity - b.write_idx
    → write_placeholder true b
      ≡ some (b.write_idx + 2, skipped (written b (u16_bytes magic_crc32c)) 4)
unfolding write_placeholder write_unsigned_short
write_placeholder_lem b v h = ground (
  arith,
  write_lem b (u16_bytes magic_crc32c) v (omega arith),
  skip_bytes_lem (written b (u16_bytes magic_crc32c)) 4 (omega (arith, v.within)),
)

contents_empty : (b : SharedBuffer) → b.write_idx ≡ 0 → contents b ≡ []
unfolding contents
contents_empty b h = ground (arith, h)

-- A buffer with so many bytes to read, read from its start.
record Holds (b : SharedBuffer) (bytes : List ℕ) (capacity : ℕ) : Type 0 where
  pub valid : IsValid b
  pub first : b.read_idx ≡ 0
  pub holds : contents b ≡ bytes
  pub wide : b.capacity ≡ capacity

write-Holds :
    (b : SharedBuffer) (bytes xs : List ℕ) (capacity : ℕ)
    → Holds b bytes capacity
    → length bytes + length xs ≤ capacity
    → (write xs b ≡ some (tt, written b xs)) × Holds (written b xs) (bytes ++ xs) capacity
write-Holds b bytes xs capacity h n =
    let fits : length xs ≤ b.capacity - b.write_idx =
      omega (arith, h.first, h.wide, h.valid, length-contents b, ap length h.holds) in
    (
      write_lem b xs h.valid fits,
      record {
        valid = written-IsValid b xs h.valid fits;
        first = h.first;
        holds = contents-written b xs h.valid ∙ ap (λ l. l ++ xs) h.holds;
        wide = h.wide;
      },
    )

empty-Holds : (b : SharedBuffer) (size : ℕ) → HasRoom b size → Holds b [] b.capacity
empty-Holds b size h = record {
  valid = h.valid;
  first = h.first;
  holds = contents_empty b h.empty;
  wide = refl;
}

-- A number of bytes and the bytes.
abbrev sized_written : SharedBuffer → List ℕ → SharedBuffer
sized_written b xs = written (written b (u32_bytes (length xs))) xs

sized-Holds :
    (b : SharedBuffer) (bytes xs : List ℕ) (capacity : ℕ)
    → Holds b bytes capacity
    → length bytes + (4 + length xs) ≤ capacity
    → (write (u32_bytes (length xs)) b ≡ some (tt, written b (u32_bytes (length xs))))
      × (write xs (written b (u32_bytes (length xs))) ≡ some (tt, sized_written b xs))
      × Holds (sized_written b xs) (bytes ++ u32_bytes (length xs) ++ xs) capacity
sized-Holds b bytes xs capacity h n =
    let size = u32_bytes (length xs) in
    let (w, h') = write-Holds b bytes size capacity h (omega arith) in
    let (w', h'') =
      write-Holds (written b size) (bytes ++ size) xs capacity h'
        (omega (arith, length-append bytes size)) in
    (w, w', h'')

write_placeholder-Holds :
    (b : SharedBuffer) (bytes : List ℕ) (capacity : ℕ)
    → Holds b bytes capacity
    → length bytes + 6 ≤ capacity
    → (g : List ℕ) × (length g ≡ 4)
      × (write_placeholder true b
          ≡ some (length bytes + 2, skipped (written b (u16_bytes magic_crc32c)) 4))
      × Holds
          (skipped (written b (u16_bytes magic_crc32c)) 4)
          ((bytes ++ u16_bytes magic_crc32c) ++ g)
          capacity
write_placeholder-Holds b bytes capacity h n =
    let used = length-contents b in
    let (_, w) = write-Holds b bytes (u16_bytes magic_crc32c) capacity h (omega arith) in
    let b' = written b (u16_bytes magic_crc32c) in
    let fits : 6 ≤ b.capacity - b.write_idx =
      omega (arith, h.first, h.wide, h.valid, used, ap length h.holds) in
    (
      gap b' 4,
      length-take_padded 4 _,
      ground (arith, write_placeholder_lem b h.valid fits, used, h.first, h.holds, h.valid),
      record {
        valid = ground (arith, w.valid, fits);
        first = h.first;
        holds = contents-skipped b' 4 w.valid ∙ ap (λ l. l ++ gap b' 4) w.holds;
        wide = h.wide;
      },
    )

module _ {Command Entry Metadata : Type 0} (protocol : Protocol Command Entry Metadata)
    (codec : Codec Command Entry Metadata) (compute_checksum : ℕ → List ℕ → ℕ) where
  -- A checksum goes on behind that of the bytes before, and it is the one that a reader verifies.
  pub record IsChecksum : Type 0 where
    pub goes_on :
        (xs ys : List ℕ)
        → compute_checksum (compute_checksum 0 xs) ys ≡ compute_checksum 0 (xs ++ ys)
    pub agrees : (xs : List ℕ) → protocol.checksum xs ≡ compute_checksum 0 xs

  abbrev pub args_of : Command → Metadata → List ℕ → SendArguments
  args_of c m payload = record {
    cmd = codec.command_bytes c;
    metadata = codec.metadata_bytes m;
    payload = payload;
  }

  length-body :
      (c : Command) (summed : Bool) (m : Metadata) (payload : List ℕ)
      → header_content_size summed (args_of c m payload) + length payload
        ≡ length (body protocol codec (entry c none summed m payload))
  unfolding body
  length-body c true m payload = ground (
    arith,
    length-append (codec.metadata_bytes m) payload,
    length-append (codec.command_bytes c) (message_part protocol codec none true m payload),
  )
  length-body c false m payload = ground (
    arith,
    length-append (codec.metadata_bytes m) payload,
    length-append (codec.command_bytes c) (message_part protocol codec none false m payload),
  )

  -- The size of the frame and the command, in headers that have room.
  abbrev opened : SharedBuffer → ℕ → Command → SharedBuffer
  opened b total c = sized_written (written b (u32_bytes total)) (codec.command_bytes c)

  abbrev front : ℕ → Command → List ℕ
  front total c =
      u32_bytes total ++ u32_bytes (length (codec.command_bytes c)) ++ codec.command_bytes c

  opened-Holds :
      (b : SharedBuffer) (total size : ℕ) (c : Command)
      → HasRoom b size
      → 8 + length (codec.command_bytes c) ≤ size
      → (write (u32_bytes total) b ≡ some (tt, written b (u32_bytes total)))
        × (write (u32_bytes (length (codec.command_bytes c))) (written b (u32_bytes total))
            ≡ some (
              tt,
              written (written b (u32_bytes total)) (u32_bytes (length (codec.command_bytes c))),
            ))
        × (write
              (codec.command_bytes c)
              (written (written b (u32_bytes total)) (u32_bytes (length (codec.command_bytes c))))
            ≡ some (tt, opened b total c))
        × Holds (opened b total c) (front total c) b.capacity
  opened-Holds b total size c room n =
      let cmd = codec.command_bytes c in
      let (w1, h1) =
        write-Holds b [] (u32_bytes total) b.capacity (empty-Holds b size room)
          (omega (arith, room.room)) in
      let (w2, w3, h3) =
        sized-Holds (written b (u32_bytes total)) (u32_bytes total) cmd b.capacity h1
          (omega (arith, room.room)) in
      (w1, w2, w3, h3)

  new_send_plain :
      (original : SharedBuffer) (c : Command) (m : Metadata) (payload : List ℕ)
      → IsValid original
      → length (body protocol codec (entry c none false m payload)) + 4 < u32_mod
      → (b : SharedBuffer) × (new_send compute_checksum original false (args_of c m payload)
          ≡ some b)
        × (contents b ++ payload ≡ frame_bytes protocol codec (entry c none false m payload))
  unfolding new_send write_unsigned_int write_checksum write_placeholder frame_bytes body
  new_send_plain original c m payload v h =
      let cmd = codec.command_bytes c in
      let md = codec.metadata_bytes m in
      let size = length-body c false m payload in
      let content = header_content_size false (args_of c m payload) in
      let total = content + length payload in
      let b0 = choose_headers original content in
      let room = choose_headers-HasRoom original content v (omega (arith, size, h)) in
      let (w1, w2, w3, h3) = opened-Holds b0 total (4 + content) c room (omega arith) in
      let (w4, w5, h5) =
        sized-Holds (opened b0 total c) (front total c) md b0.capacity h3 (
          omega
            (arith, room.room, length-append (u32_bytes total ++ u32_bytes (length cmd)) cmd)) in
      (
        sized_written (opened b0 total c) md,
        ground (arith, w1, w2, w3, w4, w5),
        ground (
          arith,
          h5.holds,
          size,
          append_assoc cmd (u32_bytes (length md)) md,
          append_assoc cmd (u32_bytes (length md) ++ md) payload,
        ),
      )

  new_send_summed :
      IsChecksum
      → (original : SharedBuffer) (c : Command) (m : Metadata) (payload : List ℕ) → IsValid original
      → length (body protocol codec (entry c none true m payload)) + 4 < u32_mod
      → (b : SharedBuffer) × (new_send compute_checksum original true (args_of c m payload)
          ≡ some b)
        × (contents b ++ payload ≡ frame_bytes protocol codec (entry c none true m payload))
  unfolding new_send write_unsigned_int frame_bytes body
  new_send_summed law original c m payload v h =
      let cmd = codec.command_bytes c in
      let md = codec.metadata_bytes m in
      let back = u32_bytes (length md) ++ md in
      let size = length-body c true m payload in
      let content = header_content_size true (args_of c m payload) in
      let total = content + length payload in
      let b0 = choose_headers original content in
      let room = choose_headers-HasRoom original content v (omega (arith, size, h)) in
      let (w1, w2, w3, h3) = opened-Holds b0 total (4 + content) c room (omega arith) in
      let b3 = opened b0 total c in
      let l3 = length-append (u32_bytes total ++ u32_bytes (length cmd)) cmd in
      let (g, lg, w4, h4) =
        write_placeholder-Holds b3 (front total c) b0.capacity h3 (omega (arith, room.room, l3)) in
      let b4 = skipped (written b3 (u16_bytes magic_crc32c)) 4 in
      let head = front total c ++ u16_bytes magic_crc32c in
      let lh = length-append (front total c) (u16_bytes magic_crc32c) in
      let (w5, w6, h6) =
        sized-Holds b4 (head ++ g) md b0.capacity h4
          (omega (arith, room.room, l3, lg, lh, length-append head g)) in
      let b6 = sized_written b4 md in
      let holds : contents b6 ≡ head ++ (g ++ back) =
        h6.holds ∙ append_assoc (head ++ g) _ md ∙ append_assoc head g back in
      let sum = compute_checksum (compute_checksum 0 back) payload in
      let magic = u16_bytes magic_crc32c in
      let summed : sum ≡ protocol.checksum (back ++ payload) =
        law.goes_on back payload ∙ sym (law.agrees (back ++ payload)) in
      let w7 =
        write_checksum_lem compute_checksum payload b6 head g back h6.valid h6.first holds lg in
      let h7 = contents-patched b6 head g (u32_bytes sum) back h6.first holds lg in
      (
        patched b6 (length head) (u32_bytes sum),
        ground (arith, w1, w2, w3, w4, w5, w6, w7, lh),
        ground (
          arith,
          h7,
          size,
          summed,
          append_assoc cmd magic (u32_bytes sum ++ back),
          append_assoc cmd (magic ++ (u32_bytes sum ++ back)) payload,
        ),
      )

  -- `newSend` succeeds, with or without a checksum and whatever headers are reused, and its headers
  -- followed by the payload are a frame of the command, the metadata and the payload, whose checksum is
  -- the one that a reader verifies. The headers must be a buffer, a checksum must go on behind another
  -- and be the reader's, and the frame must fit in 32 bits.
  pub new_send-frame_bytes :
      IsChecksum
      → (original : SharedBuffer) (crc32c : Bool) (c : Command) (m : Metadata) (payload : List ℕ)
      → IsValid original
      → length (body protocol codec (entry c none crc32c m payload)) + 4 < u32_mod
      → (b : SharedBuffer) × (new_send compute_checksum original crc32c (args_of c m payload)
          ≡ some b)
        × (contents b ++ payload ≡ frame_bytes protocol codec (entry c none crc32c m payload))
  new_send-frame_bytes law original true c m payload v h =
      new_send_summed law original c m payload v h
  new_send-frame_bytes law original false c m payload v h = new_send_plain original c m payload v h
