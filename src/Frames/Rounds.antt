-- ===== src/Frames/Rounds.antt =====
-- The rounds of the loop of lib/ClientConnection.cc over any bytes, well formed or not.
use pulsar_client_cpp.Prelude.{
  ℕ, zero, suc, ◌+◌, ◌≤◌, ◌<◌, ◌≡◌, refl, subst, inl, inr, Bool, Option, none, some, leb, ◌==◌,
  arith, Bool-cases, Option-cases,
}
use pulsar_client_cpp.SharedBuffer.{
  SharedBuffer, M, ◌>>=◌, ◌>>◌, return, big_endian, readable_bytes, peek, consume,
  read_unsigned_int, read_unsigned_short, set_reader_index, sub32,
}
use pulsar_client_cpp.Frames.{
  Protocol, read_broker_entry, verify_checksum, read_message, read_message_frame, read_frame,
  process, magic_broker_entry_metadata, magic_crc32c,
}

-- The reader index that a result has, at the least, and its capacity.
abbrev Moves : {A : Type 0} → ℕ → ℕ → Option (A × SharedBuffer) → Type 0
Moves from size none = Unit {0}
Moves from size (some (a, b)) = (b.capacity ≡ size) × (from ≤ b.read_idx)

bind-Moves :
    {A B : Type 0} (m : M A) (f : A → M B) (b : SharedBuffer) (from to size : ℕ)
    → Moves from size (m b)
    → ((a : A) (b' : SharedBuffer)
        → b'.capacity ≡ size
        → from ≤ b'.read_idx
        → Moves to size (f a b'))
    → Moves to size ((m >>= f) b)
bind-Moves m f b from to size h k = elim (Option-cases (m b)) [
  | inl e ↦ rw (e, ◌>>=◌) tt
  | inr ((a, b'), e) ↦
      let moved = subst (λ o. Moves from size o) e h in rw (e, ◌>>=◌) (k a b' moved.0 moved.1)
]

module _ (from size : ℕ) where
  peek-Moves :
      (n : ℕ) (b : SharedBuffer)
      → b.capacity ≡ size
      → from ≤ b.read_idx
      → Moves from size (peek n b)
  unfolding peek
  peek-Moves n b c h = elim (Bool-cases (leb (b.read_idx + n) b.capacity)) [
    | inl e ↦ rw e (c, h)
    | inr e ↦ rw e tt
  ]

  consume-Moves :
      (n : ℕ) (b : SharedBuffer)
      → b.capacity ≡ size
      → from ≤ b.read_idx + n
      → Moves from size (consume n b)
  unfolding consume
  consume-Moves n b c h = elim (Bool-cases (leb n (readable_bytes b))) [
    | inl e ↦ rw e (c, h)
    | inr e ↦ rw e tt
  ]

  set_reader_index-Moves :
      (n : ℕ) (b : SharedBuffer)
      → b.capacity ≡ size
      → from ≤ n
      → Moves from size (set_reader_index n b)
  unfolding set_reader_index
  set_reader_index-Moves n b c h = elim (Bool-cases (leb n b.capacity)) [
    | inl e ↦ rw e (c, h)
    | inr e ↦ rw e tt
  ]

module _ (from size : ℕ) where
  -- A number of so many bytes.
  read_number-Moves :
      (n : ℕ) (b : SharedBuffer)
      → b.capacity ≡ size
      → from ≤ b.read_idx + n
      → Moves from size ((do bytes ← peek n; consume n; return (big_endian 0 bytes)) b)
  read_number-Moves n b c h =
      bind-Moves (peek n) _ b b.read_idx from size (peek-Moves b.read_idx size n b c (omega arith))
        (λ bytes b' c' h'.
          bind-Moves (consume n) _ b' from from size (consume-Moves from size n b' c' (omega arith))
            (λ u b'' c'' h''. (c'', h'')))

  read_unsigned_int-Moves :
      (b : SharedBuffer)
      → b.capacity ≡ size
      → from ≤ b.read_idx + 4
      → Moves from size (read_unsigned_int b)
  unfolding read_unsigned_int
  read_unsigned_int-Moves b c h = elim (Bool-cases (leb 4 (readable_bytes b))) [
    | inl e ↦ rw e (read_number-Moves 4 b c h)
    | inr e ↦ rw e tt
  ]

  read_unsigned_short-Moves :
      (b : SharedBuffer)
      → b.capacity ≡ size
      → from ≤ b.read_idx + 2
      → Moves from size (read_unsigned_short b)
  unfolding read_unsigned_short
  read_unsigned_short-Moves b c h = elim (Bool-cases (leb 2 (readable_bytes b))) [
    | inl e ↦ rw e (read_number-Moves 2 b c h)
    | inr e ↦ rw e tt
  ]

module _ {Command Entry Metadata : Type 0} (protocol : Protocol Command Entry Metadata)
    (from size : ℕ) where
  verify_checksum-Moves :
      (remaining : ℕ) (b : SharedBuffer)
      → b.capacity ≡ size
      → from ≤ b.read_idx
      → Moves from size (verify_checksum protocol remaining b)
  unfolding verify_checksum
  verify_checksum-Moves remaining b c h =
      bind-Moves read_unsigned_short _ b from from size
        (read_unsigned_short-Moves from size b c (omega arith))
        (λ magic b2 c2 h2. elim (Bool-cases (magic == magic_crc32c)) [
          | inl e ↦ rw e (
              bind-Moves read_unsigned_int _ b2 from from size
                (read_unsigned_int-Moves from size b2 c2 (omega arith))
                (λ stored b6 c6 h6.
                  bind-Moves (peek (sub32 remaining 6)) _ b6 from from size
                    (peek-Moves from size (sub32 remaining 6) b6 c6 h6)
                    (λ bytes b' c' h'. (c', h'))))
          | inr e ↦ rw e (
              bind-Moves (set_reader_index b.read_idx) _ b2 from from size
                (set_reader_index-Moves from size b.read_idx b2 c2 h) (λ u b' c' h'. (c', h')))
        ])

  read_message-Moves :
      (cmd : Command) (valid : Bool) (e : Option Entry) (remaining : ℕ) (b : SharedBuffer)
      → b.capacity ≡ size
      → from ≤ b.read_idx
      → Moves from size (read_message protocol cmd valid e remaining b)
  unfolding read_message
  read_message-Moves cmd valid e remaining b c h =
      bind-Moves read_unsigned_int _ b from from size
        (read_unsigned_int-Moves from size b c (omega arith))
        (λ n b4 c4 h4.
          bind-Moves (peek n) _ b4 from from size (peek-Moves from size n b4 c4 h4)
            (λ bytes b5 c5 h5. elim (Option-cases (protocol.parse_metadata bytes)) [
              | inl e ↦ rw e (c5, h5)
              | inr (m, e) ↦ rw e (
                  bind-Moves (consume n) _ b5 from from size
                    (consume-Moves from size n b5 c5 (omega arith))
                    (λ u b6 c6 h6.
                      bind-Moves (peek (sub32 remaining (4 + n))) _ b6 from from size
                        (peek-Moves from size _ b6 c6 h6)
                        (λ payload b7 c7 h7.
                          bind-Moves (consume (sub32 remaining (4 + n))) _ b7 from from size
                            (consume-Moves from size _ b7 c7 (omega arith))
                            (λ u' b8 c8 h8. (c8, h8)))))
            ]))

  read_broker_entry-Moves :
      (remaining : ℕ) (b : SharedBuffer)
      → b.capacity ≡ size
      → from ≤ b.read_idx
      → Moves from size (read_broker_entry protocol remaining b)
  unfolding read_broker_entry
  read_broker_entry-Moves remaining b c h =
      bind-Moves read_unsigned_short _ b from from size
        (read_unsigned_short-Moves from size b c (omega arith))
        (λ magic b2 c2 h2. elim (Bool-cases (magic == magic_broker_entry_metadata)) [
          | inl e ↦ rw e (
              bind-Moves read_unsigned_int _ b2 from from size
                (read_unsigned_int-Moves from size b2 c2 (omega arith))
                (λ n b6 c6 h6.
                  bind-Moves (peek n) _ b6 from from size (peek-Moves from size n b6 c6 h6)
                    (λ bytes b7 c7 h7. elim (Option-cases (protocol.parse_entry bytes)) [
                      | inl e' ↦ rw e' (c7, h7)
                      | inr (x, e') ↦ rw e' (
                          bind-Moves (set_reader_index (b.read_idx + 2 + 4 + n)) _ b7 from from size
                            (set_reader_index-Moves from size _ b7 c7 (omega arith))
                            (λ u b8 c8 h8. (c8, h8)))
                    ])))
          | inr e ↦ rw e (
              bind-Moves (set_reader_index b.read_idx) _ b2 from from size
                (set_reader_index-Moves from size b.read_idx b2 c2 h) (λ u b' c' h'. (c', h')))
        ])

  read_message_frame-Moves :
      (cmd : Command) (remaining : ℕ) (b : SharedBuffer)
      → b.capacity ≡ size
      → from ≤ b.read_idx
      → Moves from size (read_message_frame protocol cmd remaining b)
  unfolding read_message_frame
  read_message_frame-Moves cmd remaining b c h =
      bind-Moves (read_broker_entry protocol remaining) _ b from from size
        (read_broker_entry-Moves remaining b c h)
        (λ o b2 c2 h2. elim (Option-cases o) [
          | inl e ↦ rw e (c2, h2)
          | inr ((x, left), e) ↦ rw e (
              bind-Moves (verify_checksum protocol left) _ b2 from from size
                (verify_checksum-Moves left b2 c2 h2)
                (λ p b3 c3 h3. read_message-Moves cmd p.0 x p.1 b3 c3 h3))
        ])

-- A frame that is read moves the reader by the size of its command at least.
read_frame-Moves :
    {Command Entry Metadata : Type 0} (protocol : Protocol Command Entry Metadata) (frame_size : ℕ)
    (b : SharedBuffer)
    → Moves (b.read_idx + 4) b.capacity (read_frame protocol frame_size b)
unfolding read_frame
read_frame-Moves protocol frame_size b =
    let from = b.read_idx + 4 in
    let size = b.capacity in
    bind-Moves read_unsigned_int _ b from from size
      (read_unsigned_int-Moves from size b refl (omega arith))
      (λ n b4 c4 h4.
        bind-Moves (peek n) _ b4 from from size (peek-Moves from size n b4 c4 h4) (λ bytes b5 c5 h5.
          elim (Option-cases (protocol.parse_command bytes)) [
            | inl e ↦ rw e (c5, h5)
            | inr (cmd, e) ↦ rw e (
                bind-Moves (consume n) _ b5 from from size
                  (consume-Moves from size n b5 c5 (omega arith))
                  (λ u b6 c6 h6. elim (Bool-cases (protocol.is_message cmd)) [
                    | inl e' ↦ rw e' (read_message_frame-Moves protocol from size cmd _ b6 c6 h6)
                    | inr e' ↦ rw e' (c6, h6)
                  ]))
          ]))

peek-none : (n : ℕ) (b : SharedBuffer) → b.capacity < b.read_idx + n → peek n b ≡ none
unfolding peek
peek-none n b h = ground arith

-- The size of a frame is read only where the buffer has four bytes more.
read_unsigned_int_room :
    (b b' : SharedBuffer) (n : ℕ) → read_unsigned_int b ≡ some (n, b') → b.read_idx + 4 ≤ b.capacity
unfolding read_unsigned_int
read_unsigned_int_room b b' n e = elim (Bool-cases (leb (b.read_idx + 4) b.capacity)) [
  | inl fits ↦ ground (arith, fits)
  | inr beyond ↦ absurd (ground (arith, e, peek-none 4 b (ground (arith, beyond))))
]

module _ {Command Entry Metadata : Type 0} (protocol : Protocol Command Entry Metadata) where
  -- The loop ends by itself, whatever the buffer holds: with any two numbers of rounds that are more
  -- than the capacity from the reader index on, it handles the same events and ends the same.
  pub process_enough :
      (n m : ℕ) (b : SharedBuffer)
      → b.capacity < n + b.read_idx
      → b.capacity < m + b.read_idx
      → 0 < n
      → 0 < m
      → process protocol n b ≡ process protocol m b
  unfolding process
  process_enough zero m b h k p q = absurd (omega arith)
  process_enough (suc n) zero b h k p q = absurd (omega arith)
  process_enough (suc n) (suc m) b h k p q = elim (Option-cases (read_unsigned_int b)) [
    | inl e ↦ rw e refl
    | inr ((size, b'), e) ↦
        let read =
          subst (λ o. Moves (b.read_idx + 4) b.capacity o) e
            (read_unsigned_int-Moves (b.read_idx + 4) b.capacity b refl (omega arith)) in
        rw e (elim (Option-cases (read_frame protocol size b')) [
          | inl e' ↦ rw e' refl
          | inr ((o, b''), e') ↦
              let framed =
                subst (λ o. Moves (b'.read_idx + 4) b'.capacity o) e'
                  (read_frame-Moves protocol size b') in
              let room : b.read_idx + 4 ≤ b.capacity = read_unsigned_int_room b b' size e in
              let same =
                process_enough n m b'' (omega arith) (omega arith) (omega arith) (omega arith) in
              rw e' (elim (Option-cases o) [
                | inl e'' ↦ rw e'' refl
                | inr (event, e'') ↦ rw (e'', same) refl
              ])
        ])
  ]
