-- ===== src/Frames/Stream/Delivery.antt =====
-- A stream cut into reads of any sizes, through the reader of lib/ClientConnection.cc.
use mathlib.Core.List.{append-nil, append_assoc}
use pulsar_client_cpp.Prelude.{
  ℕ, suc, ◌+◌, ◌-◌, ◌≤◌, ◌<◌, ◌≡◌, refl, sym, ap, subst, ◌∙◌, inl, inr, false, some, List, [], ◌∷◌,
  ◌++◌, map, length, length-append, ltb, ◌==◌, arith, min, take, drop, Bool-cases, take-append-drop,
  length-take, length-drop,
}
use pulsar_client_cpp.SharedBuffer.{SharedBuffer, writable_bytes, bytes_written, slice, consume}
use pulsar_client_cpp.SharedBuffer.Cursor.{IsValid, contents, readable_bytes_lem, length-contents}
use pulsar_client_cpp.SharedBuffer.Writing.{
  written, contents-written, written-IsValid, writable_bytes_lem, allocate-IsValid,
}
use pulsar_client_cpp.Frames.{
  Protocol, Event, reading, Pause, Reader, process_incoming_buffer, handle_read, received,
  default_buffer_size, initial,
}
use pulsar_client_cpp.Frames.Sent.{Codec, IsCodec, Frame, all_bytes, frame_bytes, event_of}
use pulsar_client_cpp.Frames.Stream.{AllSendable, Waits, process-Handles, first_size_lem}

bytes_written_lem :
    (b : SharedBuffer) (bytes : List ℕ)
    → IsValid b
    → length bytes ≤ b.capacity - b.write_idx
    → bytes_written (length bytes) (received b bytes) ≡ some (tt, written b bytes)
unfolding bytes_written
bytes_written_lem b bytes v h =
    ground (arith, writable_bytes_lem (received b bytes) (moved b bytes v))
  where
    moved : (b : SharedBuffer) (bytes : List ℕ) → IsValid b → IsValid (received b bytes)
    moved b bytes v = ground (arith, v)

slice_lem :
    (b : SharedBuffer) (n : ℕ)
    → IsValid b
    → n ≤ length (contents b)
    → slice n b ≡ some (record b { read_idx = b.read_idx + n })
unfolding slice consume
slice_lem b n v h = ground (arith, v, readable_bytes_lem b v)

length-none : (xs : List ℕ) → length xs ≤ 0 → xs ≡ []
length-none [] h = refl
length-none (x ∷ xs) h = absurd (omega (arith, h))

module _ {Command Entry Metadata : Type 0} (protocol : Protocol Command Entry Metadata) where
  -- The reads of a stream, each of a number of bytes that is at least one and fits in the buffer, with
  -- what is left of the stream after them.
  unfoldable pub deliver :
      List ℕ → List ℕ → Reader Command Entry Metadata → Reader Command Entry Metadata × List ℕ
  deliver [] stream r = (r, stream)
  deliver (n ∷ ns) [] r = (r, [])
  deliver (n ∷ ns) (x ∷ xs) r =
      let size = min (suc n) (writable_bytes r.incoming_buffer) in
      deliver ns (drop size (x ∷ xs)) (handle_read protocol r false (take size (x ∷ xs)))

module _ {Command Entry Metadata : Type 0} (protocol : Protocol Command Entry Metadata)
    (codec : Codec Command Entry Metadata) where
  abbrev pause_of : Reader Command Entry Metadata → Pause
  pause_of r = record {
    status = r.status;
    buffer = r.incoming_buffer;
    min_read_size = r.min_read_size;
  }

  -- A round gives some of the frames to their handlers and keeps what has come of the others.
  pub record Continues (before : List (Event Command Entry Metadata))
      (r : Reader Command Entry Metadata) (todo : List (Frame Command Entry Metadata))
      (stream : List ℕ) : Type 0 where
    pub sent : List (Frame Command Entry Metadata)
    pub left : List (Frame Command Entry Metadata)
    pub all : todo ≡ sent ++ left
    pub events : r.handled ≡ before ++ map (event_of protocol codec) sent
    pub waits : Waits protocol codec (pause_of r) left stream
    pub others : AllSendable protocol codec left

  handle_read-Continues :
      IsCodec protocol codec
      → (r : Reader Command Entry Metadata) (bytes : List ℕ)
      → (todo : List (Frame Command Entry Metadata)) (stream : List ℕ)
      → Waits protocol codec (pause_of r) todo (bytes ++ stream)
      → AllSendable protocol codec todo
      → 0 < length bytes
      → length bytes ≤ writable_bytes r.incoming_buffer
      → Continues r.handled (handle_read protocol r false bytes) todo stream
  unfolding handle_read process_incoming_buffer
  handle_read-Continues law r bytes todo stream w s some_came fits =
      let b = r.incoming_buffer in
      let room = writable_bytes_lem b w.valid in
      let fits' : length bytes ≤ b.capacity - b.write_idx = omega (arith, fits, room) in
      let kept = contents-written b bytes w.valid in
      let valid = written-IsValid b bytes w.valid fits' in
      let sizes = length-append (contents b) bytes in
      let rest : contents (written b bytes) ++ stream ≡ all_bytes protocol codec todo =
        ap (λ l. l ++ stream) kept ∙ append_assoc (contents b) bytes stream ∙ w.rest in
      let came : (length bytes == 0) ≡ false = ground arith in
      rw (w.status, bytes_written_lem b bytes w.valid fits', came)
        (elim (Bool-cases (ltb (length bytes) r.min_read_size)) [
          | inl fewer ↦
              let sliced =
                slice_lem (written b bytes) (length bytes) valid
                  (omega (arith, ap length kept, sizes)) in
              rw (fewer, sliced)
                (record {
                  sent = [];
                  left = todo;
                  all = refl;
                  events = sym (append-nil r.handled);
                  waits = record {
                    status = w.status;
                    valid = valid;
                    rest = rest;
                    asks = ground (arith, fewer);
                    room = omega (arith, w.room, fits');
                    short = ground (arith, w.short, kept, sizes);
                    roomy = w.roomy;
                  };
                  others = s;
                })
          | inr enough ↦
              let (sent, left, all, events, waits, others) =
                process-Handles protocol codec law (suc b.capacity) (written b bytes) todo stream
                  valid rest s (omega (arith, valid, length-contents (written b bytes))) w.roomy in
              rw enough (record {
                sent = sent;
                left = left;
                all = all;
                events = ap (λ l. r.handled ++ l) events;
                waits = waits;
                others = others;
              })
        ])

  Continues-trans :
      (before : List (Event Command Entry Metadata)) (r r' : Reader Command Entry Metadata)
      (todo : List (Frame Command Entry Metadata)) (stream stream' : List ℕ)
      → (c : Continues before r todo stream) → Continues r.handled r' c.left stream'
      → Continues before r' todo stream'
  Continues-trans before r r' todo stream stream' c d = record {
    sent = c.sent ++ d.sent;
    left = d.left;
    all = c.all ∙ ap (λ l. c.sent ++ l) d.all ∙ sym (append_assoc c.sent d.sent d.left);
    events =
        d.events
        ∙ ap (λ l. l ++ map (event_of protocol codec) d.sent) c.events
        ∙ append_assoc before (map (event_of protocol codec) c.sent) _
        ∙ ap (λ l. before ++ l) (sym (map-append c.sent d.sent));
    waits = d.waits;
    others = d.others;
  }
    where
      map-append :
          (xs ys : List (Frame Command Entry Metadata))
          → map (event_of protocol codec) (xs ++ ys)
            ≡ map (event_of protocol codec) xs ++ map (event_of protocol codec) ys
      map-append [] ys = refl
      map-append (x ∷ xs) ys = ap (λ l. event_of protocol codec x ∷ l) (map-append xs ys)

  -- One read of a stream.
  read_some :
      IsCodec protocol codec
      → (n : ℕ) (r : Reader Command Entry Metadata) (todo : List (Frame Command Entry Metadata))
        (stream : List ℕ)
      → Waits protocol codec (pause_of r) todo stream
      → AllSendable protocol codec todo
      → 0 < length stream
      → let size = min (suc n) (writable_bytes r.incoming_buffer) in
        Continues r.handled
          (handle_read protocol r false (take size stream))
          todo
          (drop size stream)
        × (length (drop size stream) < length stream)
  read_some law n r todo stream w s h =
      let size = min (suc n) (writable_bytes r.incoming_buffer) in
      let room = writable_bytes_lem r.incoming_buffer w.valid in
      let taken = length-take size stream in
      let split = take-append-drop size stream in
      (
        handle_read-Continues law r (take size stream) todo (drop size stream)
            (subst (λ l. Waits protocol codec (pause_of r) todo l) (sym split) w) s
            (omega (arith, taken, room, w.asks, w.room)) (omega (arith, taken)),
        omega (arith, length-drop size stream, room, w.asks, w.room),
      )

  stays :
      (r : Reader Command Entry Metadata) (todo : List (Frame Command Entry Metadata))
      (stream : List ℕ)
      → Waits protocol codec (pause_of r) todo stream
      → AllSendable protocol codec todo
      → Continues r.handled r todo stream
  stays r todo stream w s = record {
    sent = [];
    left = todo;
    all = refl;
    events = sym (append-nil r.handled);
    waits = w;
    others = s;
  }

  deliver-Continues :
      IsCodec protocol codec
      → (ns : List ℕ) (r : Reader Command Entry Metadata)
        (todo : List (Frame Command Entry Metadata)) (stream : List ℕ)
      → Waits protocol codec (pause_of r) todo stream
      → AllSendable protocol codec todo
      → Continues r.handled (deliver protocol ns stream r).0 todo (deliver protocol ns stream r).1
        × (length stream ≤ length ns → (deliver protocol ns stream r).1 ≡ [])
  unfolding deliver
  deliver-Continues law [] r todo stream w s = (stays r todo stream w s, length-none stream)
  deliver-Continues law (n ∷ ns) r todo [] w s = (stays r todo [] w s, λ h. refl)
  deliver-Continues law (n ∷ ns) r todo (x ∷ xs) w s =
      let size = min (suc n) (writable_bytes r.incoming_buffer) in
      let (one, less) = read_some law n r todo (x ∷ xs) w s (omega arith) in
      let r' = handle_read protocol r false (take size (x ∷ xs)) in
      let (more, all) =
        deliver-Continues law ns r' one.left (drop size (x ∷ xs)) one.waits one.others in
      (Continues-trans r.handled r' _ todo _ _ one more, λ h. all (omega (arith, less, h)))

  initial-Waits :
      (todo : List (Frame Command Entry Metadata))
      → AllSendable protocol codec todo
      → Waits protocol codec (pause_of initial) todo (all_bytes protocol codec todo)
  unfolding contents
  initial-Waits todo s = record {
    status = refl;
    valid = allocate-IsValid default_buffer_size (omega arith);
    rest = refl;
    asks = omega arith;
    room = omega arith;
    short = omega (arith, first_size_lem protocol codec todo s);
    roomy = omega arith;
  }

  -- Nothing waits behind the end of a stream.
  all_handled :
      (p : Pause) (left : List (Frame Command Entry Metadata))
      → Waits protocol codec p left []
      → left ≡ []
  unfolding all_bytes
  all_handled p [] w = refl
  all_handled p (f ∷ fs) w = absurd (
      omega (
        arith,
        w.short,
        w.asks,
        ap length w.rest,
        length-append (contents p.buffer) [],
        length-append (frame_bytes protocol codec f) (all_bytes protocol codec fs),
      ))

  -- However a stream of frames is cut into reads, at every moment the frames that were handled are the
  -- first ones sent, in order, what has come of the others is in the buffer, and the buffer has room
  -- for what the pending read asks for. The protocol buffers must parse what the codec writes, and a
  -- frame must be marked and fit.
  pub frames_in_order :
      IsCodec protocol codec
      → (fs : List (Frame Command Entry Metadata)) → AllSendable protocol codec fs
      → (sizes : List ℕ)
      → let (r, stream) = deliver protocol sizes (all_bytes protocol codec fs) initial in
        (sent left : List (Frame Command Entry Metadata)) × (fs ≡ sent ++ left)
        × (r.handled ≡ map (event_of protocol codec) sent)
        × (contents r.incoming_buffer ++ stream ≡ all_bytes protocol codec left)
        × (r.status ≡ reading)
        × (0 < r.min_read_size)
        × (r.min_read_size ≤ writable_bytes r.incoming_buffer)
  frames_in_order law fs s sizes =
      let c = (deliver-Continues law sizes initial fs _ (initial-Waits fs s) s).0 in
      let r = (deliver protocol sizes (all_bytes protocol codec fs) initial).0 in
      let w = c.waits in
      let room = writable_bytes_lem r.incoming_buffer w.valid in
      (c.sent, c.left, c.all, c.events, w.rest, w.status, w.asks, omega (arith, room, w.room))

  -- After at least as many reads as a stream of frames has bytes, every frame has been handled, in
  -- order, nothing is left in the buffer, and the reader still reads. The protocol buffers must parse
  -- what the codec writes, and a frame must be marked and fit.
  pub frames_all_handled :
      IsCodec protocol codec
      → (fs : List (Frame Command Entry Metadata)) → AllSendable protocol codec fs
      → (sizes : List ℕ) → length (all_bytes protocol codec fs) ≤ length sizes
      → let r = (deliver protocol sizes (all_bytes protocol codec fs) initial).0 in
        (r.handled ≡ map (event_of protocol codec) fs)
        × (contents r.incoming_buffer ≡ [])
        × (r.status ≡ reading)
  unfolding all_bytes
  frames_all_handled law fs s sizes h =
      let (c, all) = deliver-Continues law sizes initial fs _ (initial-Waits fs s) s in
      let r = (deliver protocol sizes (all_bytes protocol codec fs) initial).0 in
      let w = subst (λ l. Waits protocol codec (pause_of r) c.left l) (all h) c.waits in
      let none_left = all_handled (pause_of r) c.left w in
      (
        ground (arith, c.all, c.events, none_left, append-nil c.sent),
        ground (arith, none_left, w.rest, append-nil (contents r.incoming_buffer)),
        c.waits.status,
      )
