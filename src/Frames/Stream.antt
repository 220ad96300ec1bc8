-- ===== src/Frames/Stream.antt =====
-- The frames of a stream, however it is cut into reads, through lib/ClientConnection.cc.
pub mod Delivery
use mathlib.Core.List.{append-nil, append_assoc}
use pulsar_client_cpp.Prelude.{
  ℕ, zero, suc, ◌+◌, ◌-◌, ◌≤◌, ◌<◌, ◌≡◌, refl, sym, ap, subst, ◌∙◌, inl, inr, Bool, true, false,
  Option, none, some, List, [], ◌∷◌, ◌++◌, map, length, length-append, ltb, leb, ◌==◌, arith, min,
  max, if◌then◌else◌, take, drop, Bool-cases,
}
use pulsar_client_cpp.SharedBuffer.{
  SharedBuffer, u32_mod, u32_bytes, allocate, reset, readable_bytes, writable_bytes, rollback,
  read_unsigned_int, copy_from,
}
use pulsar_client_cpp.SharedBuffer.Cursor.{
  IsValid, contents, advance, contents-advance, advance-IsValid, length-contents,
  readable_bytes_lem, read_unsigned_int_lem,
}
use pulsar_client_cpp.SharedBuffer.Writing.{
  written, contents-written, written-IsValid, allocate-IsValid, writable_bytes_lem, copy_from_lem,
}
use pulsar_client_cpp.Frames.{
  Protocol, Event, Status, reading, Pause, Reader, read_frame, await_frame, await_size, process,
  process_incoming_buffer, handle_read, default_buffer_size, initial, wait_for,
}
use pulsar_client_cpp.Frames.Sent.{
  Codec, IsCodec, Frame, sized, body, frame_bytes, all_bytes, event_of, IsSendable,
}
use pulsar_client_cpp.Frames.Reading.{read_frame_lem}

-- What is taken off the front of a list that was cut.
split_front :
    (xs ys ps qs : List ℕ)
    → xs ++ ys ≡ ps ++ qs
    → length ps ≤ length xs
    → (zs : List ℕ) × (xs ≡ ps ++ zs) × (zs ++ ys ≡ qs)
split_front xs ys [] qs e h = (xs, refl, e)
split_front [] ys (p ∷ ps) qs e h = absurd (omega arith)
split_front (x ∷ xs) ys (p ∷ ps) qs e h =
    let (zs, front, back) = split_front xs ys ps qs (tail_eq e) (omega arith) in
    (zs, ground (arith, e, front), back)
  where
    tail_eq : {x y : ℕ} {us vs : List ℕ} → x ∷ us ≡ y ∷ vs → us ≡ vs
    tail_eq e = cc

-- A copy of a buffer with room for its contents.
copied_lem :
    (b : SharedBuffer) (capacity : ℕ)
    → IsValid b
    → length (contents b) ≤ capacity
    → capacity < u32_mod
    → (copy_from b capacity ≡ some (written (allocate capacity) (contents b)))
      × (contents (written (allocate capacity) (contents b)) ≡ contents b)
      × IsValid (written (allocate capacity) (contents b))
unfolding contents
copied_lem b capacity v h n = (
  copy_from_lem b capacity v h n,
  contents-written (allocate capacity) (contents b) (allocate-IsValid capacity n),
  written-IsValid (allocate capacity) (contents b) (allocate-IsValid capacity n) (omega (arith, h)),
)

length-none : (xs : List ℕ) → length xs ≡ 0 → xs ≡ []
length-none [] h = refl
length-none (x ∷ xs) h = absurd (omega (arith, h))

contents-reset : (b : SharedBuffer) → contents (reset b) ≡ []
unfolding contents
contents-reset b = refl

rollback_lem : (b : SharedBuffer) → rollback 4 (advance b 4) ≡ some (tt, b)
unfolding rollback
rollback_lem b = ground arith

module _ {Command Entry Metadata : Type 0} (protocol : Protocol Command Entry Metadata)
    (codec : Codec Command Entry Metadata) where
  abbrev pub AllSendable : List (Frame Command Entry Metadata) → Type 0
  AllSendable [] = Unit {0}
  AllSendable (f ∷ fs) = IsSendable protocol codec f × AllSendable fs

  -- What the next read may be, at the most, before a frame is complete.
  abbrev pub first_size : List (Frame Command Entry Metadata) → ℕ
  first_size [] = 4
  first_size (f ∷ fs) = length (frame_bytes protocol codec f)

  -- The buffer holds what has come of the frames to do, has room for the bytes that the next read asks
  -- for, and these do not go past the next frame.
  pub record Waits (p : Pause) (todo : List (Frame Command Entry Metadata)) (stream : List ℕ)
      : Type 0 where
    pub status : p.status ≡ reading
    pub valid : IsValid p.buffer
    pub rest : contents p.buffer ++ stream ≡ all_bytes protocol codec todo
    pub asks : 0 < p.min_read_size
    pub room : p.min_read_size ≤ p.buffer.capacity - p.buffer.write_idx
    pub short : length (contents p.buffer) + p.min_read_size ≤ first_size todo
    pub roomy : 4 ≤ p.buffer.capacity

  -- Few bytes are left, the start of the next frame at most.
  await_size-Waits :
      (b : SharedBuffer) (todo : List (Frame Command Entry Metadata)) (stream : List ℕ)
      → IsValid b
      → contents b ++ stream ≡ all_bytes protocol codec todo
      → length (contents b) < 4
      → 4 ≤ first_size todo
      → 4 ≤ b.capacity
      → Waits (await_size b) todo stream
  unfolding await_size
  await_size-Waits b todo stream v r h f c = elim (Bool-cases (ltb 0 (readable_bytes b))) [
    | inl some_left ↦
        let (copied, kept, valid) =
          copied_lem b default_buffer_size v (omega arith) (omega arith) in
        let larger = written (allocate default_buffer_size) (contents b) in
        let left = readable_bytes_lem larger valid in
        let before = readable_bytes_lem b v in
        rw (some_left, copied)
          (record {
            status = refl;
            valid = valid;
            rest = ground (arith, kept, r);
            asks = ground (arith, left, kept, h);
            room = ground (arith, left, kept, h, some_left, before);
            short = ground (arith, left, kept, f, some_left, before);
            roomy = omega arith;
          })
    | inr nothing ↦
        let none_left =
          length-none (contents b) (ground (arith, nothing, readable_bytes_lem b v)) in
        rw nothing (record {
          status = refl;
          valid = ground (arith, v);
          rest = ground (arith, none_left, r, contents-reset b);
          asks = omega arith;
          room = omega (arith, c);
          short = ground (arith, contents-reset b, f);
          roomy = c;
        })
  ]

  -- The next frame is not complete: its size is put back.
  await_frame-Waits :
      (b : SharedBuffer) (n : ℕ) (xs : List ℕ) (todo : List (Frame Command Entry Metadata))
      (stream : List ℕ)
      → IsValid b
      → contents b ≡ u32_bytes n ++ xs
      → length xs < n
      → n + 4 < u32_mod
      → contents b ++ stream ≡ all_bytes protocol codec todo
      → first_size todo ≡ 4 + n
      → 4 ≤ b.capacity
      → Waits (await_frame n (advance b 4)) todo stream
  unfolding await_frame
  await_frame-Waits b n xs todo stream v e h fits r f c =
      let v4 = advance-IsValid b (u32_bytes n) xs v e in
      let left = readable_bytes_lem (advance b 4) v4 in
      let rest4 = contents-advance b (u32_bytes n) xs e in
      let sized_by = length-contents b in
      let room = writable_bytes_lem b v in
      let larger = written (allocate (max default_buffer_size (n + 4))) (contents b) in
      elim (Bool-cases (ltb (writable_bytes b) (n - length xs))) [
        | inl lacks ↦
            let (copied, kept, valid) =
              copied_lem b (max default_buffer_size (n + 4)) v (omega (arith, ap length e))
                (omega arith) in
            let ends : await_frame n (advance b 4) ≡ wait_for larger (n - length xs) =
              ground (arith, left, rest4, lacks, copied, rollback_lem b) in
            let there : Waits (wait_for larger (n - length xs)) todo stream = record {
              status = refl;
              valid = valid;
              rest = ground (arith, kept, r);
              asks = omega arith;
              room = omega (arith, ap length e);
              short = ground (arith, kept, f, e);
              roomy = omega arith;
            } in
            subst (λ p. Waits p todo stream) (sym ends) there
        | inr fit ↦
            let ends : await_frame n (advance b 4) ≡ wait_for b (n - length xs) =
              ground (arith, left, rest4, fit, rollback_lem b) in
            let here : Waits (wait_for b (n - length xs)) todo stream = record {
              status = refl;
              valid = v;
              rest = r;
              asks = omega arith;
              room = ground (arith, room, fit);
              short = ground (arith, f, e);
              roomy = c;
            } in
            subst (λ p. Waits p todo stream) (sym ends) here
      ]

  -- What a round of the loop makes of the frames to do: some of them are handled, in order, and the
  -- reader waits for the others.
  abbrev pub Handles :
      List (Event Command Entry Metadata) × Pause
      → List (Frame Command Entry Metadata)
      → List ℕ
      → Type 0
  Handles o todo stream =
      (sent left : List (Frame Command Entry Metadata)) × (todo ≡ sent ++ left)
      × (o.0 ≡ map (event_of protocol codec) sent)
      × Waits o.1 left stream
      × AllSendable left

  pub first_size_lem :
      (todo : List (Frame Command Entry Metadata)) → AllSendable todo → 4 ≤ first_size todo
  unfolding frame_bytes
  first_size_lem [] s = omega arith
  first_size_lem (f ∷ fs) s = omega arith

  -- A frame that is there is handled, and the reader is behind it.
  next_frame :
      IsCodec protocol codec
      → (b : SharedBuffer) (f : Frame Command Entry Metadata) (xs more stream : List ℕ) → IsValid b
      → IsSendable protocol codec f
      → contents b ≡ xs
      → xs ++ stream ≡ body protocol codec f ++ more
      → ltb (readable_bytes b) (length (body protocol codec f)) ≡ false
      → (read_frame protocol (length (body protocol codec f)) b
          ≡ some (some (event_of protocol codec f), advance b (length (body protocol codec f))))
        × IsValid (advance b (length (body protocol codec f)))
        × (contents (advance b (length (body protocol codec f))) ++ stream ≡ more)
        × (length (contents (advance b (length (body protocol codec f)))) ≤ length xs)
  next_frame law b f xs more stream v s c r whole =
      let inside = body protocol codec f in
      let (zs, front, back) =
        split_front xs stream inside more r (ground (arith, readable_bytes_lem b v, c, whole)) in
      let left = contents-advance b inside zs (c ∙ front) in
      (
        read_frame_lem protocol codec law b f zs v s (c ∙ front),
        advance-IsValid b inside zs v (c ∙ front),
        ground (arith, left, back),
        ground (arith, left, front, length-append inside zs),
      )

  pub process-Handles :
      IsCodec protocol codec
      → (fuel : ℕ) (b : SharedBuffer) (todo : List (Frame Command Entry Metadata)) (stream : List ℕ)
      → IsValid b
      → contents b ++ stream ≡ all_bytes protocol codec todo
      → AllSendable todo
      → length (contents b) < fuel
      → 4 ≤ b.capacity
      → Handles (process protocol fuel b) todo stream
  unfolding process all_bytes frame_bytes
  process-Handles law zero b todo stream v r s h c = absurd (omega arith)
  process-Handles law (suc fuel) b [] stream v r s h c =
      let few : ltb (readable_bytes b) 4 ≡ true =
        ground (arith, readable_bytes_lem b v, ap length r, length-append (contents b) stream) in
      let w =
        await_size-Waits b [] stream v r
          (omega (arith, ap length r, length-append (contents b) stream)) (omega arith) c in
      rw few ([], [], refl, refl, w, tt)
  process-Handles law (suc fuel) b (f ∷ fs) stream v r s h c =
      elim (Bool-cases (ltb (readable_bytes b) 4)) [
        | inl few ↦
            let w =
              await_size-Waits b (f ∷ fs) stream v r (ground (arith, readable_bytes_lem b v, few))
                (first_size_lem (f ∷ fs) s) c in
            rw few ([], f ∷ fs, refl, refl, w, s)
        | inr enough ↦
            let n = length (body protocol codec f) in
            let (xs, front, back) =
              split_front (contents b) stream (u32_bytes n)
                (body protocol codec f ++ all_bytes protocol codec fs) r
                (ground (arith, readable_bytes_lem b v, enough)) in
            let size = read_unsigned_int_lem b n xs v (omega (arith, s.0.fits)) front in
            let v4 = advance-IsValid b (u32_bytes n) xs v front in
            let c4 = contents-advance b (u32_bytes n) xs front in
            rw (enough, size)
              (elim (Bool-cases (ltb (readable_bytes (advance b 4)) n)) [
                | inl partial ↦
                    let w =
                      await_frame-Waits b n xs (f ∷ fs) stream v front
                        (ground (arith, readable_bytes_lem (advance b 4) v4, c4, partial)) s.0.fits
                        r (ground arith) c in
                    rw partial ([], f ∷ fs, refl, refl, w, s)
                | inr whole ↦
                    let b' = advance (advance b 4) n in
                    let (handled, v', r', less) =
                      next_frame law (advance b 4) f xs (all_bytes protocol codec fs) stream v4 s.0
                        c4 back whole in
                    let (sent, left, all, events, w, others) =
                      process-Handles law fuel b' fs stream v' r' s.1
                        (ground (arith, less, h, front)) c in
                    rw (whole, handled)
                      (
                        f ∷ sent,
                        left,
                        ap (λ l. f ∷ l) all,
                        ap (λ l. event_of protocol codec f ∷ l) events,
                        w,
                        others,
                      )
              ])
      ]
