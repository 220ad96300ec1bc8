-- ===== src/Chunks/Assembly.antt =====
-- The chunks of one message through lib/ConsumerImpl.cc.
use pulsar_client_cpp.Prelude.{
  ℕ, zero, suc, ◌+◌, ◌-◌, ◌≤◌, ◌<◌, true, ◌≡◌, refl, sym, ap, ◌∙◌, inl, inr, false, Option, none,
  some, List, [], ◌∷◌, ◌++◌, length, length-append, ◌==◌, if◌then◌else◌, arith, Option-cases,
}
use mathlib.Core.Path.{ap₂}
use mathlib.Core.List.{append-nil, append_assoc}
use pulsar_client_cpp.MessageId.{MessageIdImpl, MessageId}
use pulsar_client_cpp.MapCache.{find, erase, put_if_absent, remove_oldest_values}
use pulsar_client_cpp.Chunks.{
  ChunkedMessageCtx, new_ctx, validate_chunk_id, append_chunk, is_completed, Chunks, Chunk, id_of,
  write_at, make_room, open_entry, process_message_chunk,
}

find-erase_absent :
    (u k : ℕ) (m : List (ℕ × ChunkedMessageCtx)) → find u m ≡ none → find u (erase k m) ≡ none
unfolding find erase
find-erase_absent u k [] h = refl
find-erase_absent u k ((j, c) ∷ m) h = ground (arith, h, find-erase_absent u k m)

find-remove_oldest_values :
    (n u : ℕ) (m : List (ℕ × ChunkedMessageCtx)) (ks : List ℕ)
    → find u m ≡ none
    → find u (remove_oldest_values n m ks).1.map_ ≡ none
unfolding remove_oldest_values
find-remove_oldest_values zero u m ks h = h
find-remove_oldest_values (suc n) u m [] h = h
find-remove_oldest_values (suc n) u m (k ∷ ks) h =
    let rest = find-remove_oldest_values n u (erase k m) ks (find-erase_absent u k m h) in
    elim (Option-cases (find k m)) [
      | inl e ↦ ground (arith, e, rest)
      | inr (c, e) ↦ ground (arith, e, rest)
    ]

find-write_at :
    (u : ℕ) (ctx old : ChunkedMessageCtx) (m : List (ℕ × ChunkedMessageCtx))
    → find u m ≡ some old
    → find u (write_at u ctx m) ≡ some ctx
unfolding find
find-write_at u ctx old [] h = absurd (cc)
find-write_at u ctx old ((j, c) ∷ m) h = ground (arith, h, find-write_at u ctx old m)

find-make_room :
    (u : ℕ) (s : Chunks) → find u s.cache.map_ ≡ none → find u (make_room s).cache.map_ ≡ none
unfolding make_room
find-make_room u s h = ground (
  arith,
  h,
  find-remove_oldest_values (length s.cache.map_ - s.max_pending_chunked_message + 1) u s.cache.map_
      s.cache.keys h,
)

-- The first chunk of a message that is not in the cache makes its entry, whatever is discarded.
open_entry_first :
    (s : Chunks) (c : Chunk)
    → find c.uuid s.cache.map_ ≡ none
    → c.chunk_id ≡ 0
    → find c.uuid (open_entry s c).cache.map_ ≡ some (new_ctx c.total c.total_size)
unfolding open_entry put_if_absent find
open_entry_first s c h e = ground (arith, h, e, find-make_room c.uuid s h)

open_entry_there :
    (s : Chunks) (c : Chunk) (ctx : ChunkedMessageCtx)
    → find c.uuid s.cache.map_ ≡ some ctx
    → open_entry s c ≡ s
unfolding open_entry
open_entry_there s c ctx h =
    ap
      (λ (o : Option ChunkedMessageCtx). elim o [
        | some x ↦ s
        | none ↦
            if c.chunk_id == 0
            then (let s' = make_room s in
                record s' {
                  cache = (put_if_absent s'.cache c.uuid (new_ctx c.total c.total_size)).1;
                })
            else s
      ])
      h

first_entry :
    (s : Chunks) (c : Chunk) (u total size : ℕ)
    → c.uuid ≡ u
    → c.chunk_id ≡ 0
    → c.total ≡ total
    → c.total_size ≡ size
    → find u s.cache.map_ ≡ none
    → find u (open_entry s c).cache.map_ ≡ some (new_ctx total size)
first_entry s c u total size same_uuid number t z absent =
    ap (λ (n : ℕ). find n (open_entry s c).cache.map_) (sym same_uuid)
    ∙ open_entry_first s c (ap (λ (n : ℕ). find n s.cache.map_) same_uuid ∙ absent) number
    ∙ ap₂ (λ (n k : ℕ). some (new_ctx n k)) t z

-- The chunks of a message with these payloads and ids, numbered from `k`, each with the number of chunks
-- and the size of the message.
abbrev pub numbered : (uuid total size k : ℕ) → List (List ℕ × MessageIdImpl) → List Chunk
numbered uuid total size k [] = []
numbered uuid total size k ((payload, id) ∷ ps) =
    record {
      chunk_id = k;
      uuid = uuid;
      total = total;
      total_size = size;
      payload = payload;
      message_id = id;
    }
    ∷ numbered uuid total size (k + 1) ps

abbrev pub payloads : List (List ℕ × MessageIdImpl) → List ℕ
payloads [] = []
payloads ((payload, id) ∷ ps) = payload ++ payloads ps

abbrev pub ids : List (List ℕ × MessageIdImpl) → List MessageIdImpl
ids [] = []
ids ((payload, id) ∷ ps) = id ∷ ids ps

-- No result before the last one.
abbrev pub only_last : ℕ → List ℕ × MessageId → List (Option (List ℕ × MessageId))
only_last zero r = some r ∷ []
only_last (suc n) r = none ∷ only_last n r

-- A context with one chunk more.
abbrev appended : ChunkedMessageCtx → MessageIdImpl → List ℕ → ChunkedMessageCtx
appended ctx id payload = record ctx {
  chunked_message_ids = ctx.chunked_message_ids ++ (id ∷ []);
  chunked_msg_buffer = ctx.chunked_msg_buffer ++ payload;
}

append_chunk_fits :
    (ctx : ChunkedMessageCtx) (id : MessageIdImpl) (payload : List ℕ)
    → length ctx.chunked_msg_buffer + length payload ≤ ctx.capacity
    → append_chunk ctx id payload ≡ some (appended ctx id payload)
unfolding append_chunk
append_chunk_fits ctx id payload h = ground arith

module _ (uncompress : List ℕ → Option (List ℕ)) where
  unfoldable pub results : Chunks → List Chunk → List (Option (List ℕ × MessageId))
  unfolding process_message_chunk
  results s [] = []
  results s (c ∷ cs) = let (r, s') = process_message_chunk uncompress s c in r ∷ results s' cs

  -- A chunk in order that is not the last one.
  process_next :
      (s : Chunks) (c : Chunk) (ctx : ChunkedMessageCtx)
      → find c.uuid (open_entry s c).cache.map_ ≡ some ctx
      → c.chunk_id ≡ length ctx.chunked_message_ids
      → (ctx.total_chunks == length ctx.chunked_message_ids + 1) ≡ false
      → length ctx.chunked_msg_buffer + length c.payload ≤ ctx.capacity
      → ((process_message_chunk uncompress s c).0 ≡ none)
        × (find c.uuid (process_message_chunk uncompress s c).1.cache.map_
            ≡ some (appended ctx c.message_id c.payload))
  unfolding process_message_chunk validate_chunk_id is_completed
  process_next s c ctx there in_order more room =
      let fits = append_chunk_fits ctx c.message_id c.payload room in
      let written =
        find-write_at c.uuid (appended ctx c.message_id c.payload) ctx (open_entry s c).cache.map_
          there in
      let one_more = length-append ctx.chunked_message_ids (c.message_id ∷ []) in
      (
        ground (arith, there, in_order, more, one_more, fits),
        ground (arith, there, in_order, more, one_more, written, fits),
      )

  -- The last chunk in order.
  process_last :
      (s : Chunks) (c : Chunk) (ctx : ChunkedMessageCtx) (whole : List ℕ)
      → find c.uuid (open_entry s c).cache.map_ ≡ some ctx
      → c.chunk_id ≡ length ctx.chunked_message_ids
      → ctx.total_chunks ≡ length ctx.chunked_message_ids + 1
      → length ctx.chunked_msg_buffer + length c.payload ≤ ctx.capacity
      → uncompress (ctx.chunked_msg_buffer ++ c.payload) ≡ some whole
      → (process_message_chunk uncompress s c).0
        ≡ some (whole, id_of (ctx.chunked_message_ids ++ (c.message_id ∷ [])))
  unfolding process_message_chunk validate_chunk_id is_completed
  process_last s c ctx whole there in_order last room uncompressed =
      let fits = append_chunk_fits ctx c.message_id c.payload room in
      let one_more = length-append ctx.chunked_message_ids (c.message_id ∷ []) in
      ground (arith, there, in_order, last, one_more, uncompressed, fits)

  found_again :
      (s : Chunks) (c : Chunk) (u : ℕ) (ctx : ChunkedMessageCtx)
      → c.uuid ≡ u
      → find u s.cache.map_ ≡ some ctx
      → find u (open_entry s c).cache.map_ ≡ some ctx
  found_again s c u ctx e h =
      ap (λ (t : Chunks). find u t.cache.map_)
        (open_entry_there s c ctx (ap (λ (n : ℕ). find n s.cache.map_) e ∙ h))
      ∙ h

  -- The chunks from the one that the entry of the message waits for.
  results_rest :
      (ps : List (List ℕ × MessageIdImpl)) (p : List ℕ × MessageIdImpl) (s : Chunks)
      (u total total_size : ℕ) (ctx : ChunkedMessageCtx) (k : ℕ) (whole : List ℕ)
      → ((c : Chunk)
          → c.uuid ≡ u
          → c.chunk_id ≡ k
          → c.total ≡ total
          → c.total_size ≡ total_size
          → find u (open_entry s c).cache.map_ ≡ some ctx)
      → k ≡ length ctx.chunked_message_ids
      → ctx.total_chunks ≡ k + suc (length ps)
      → length ctx.chunked_msg_buffer + length (payloads (p ∷ ps)) ≤ ctx.capacity
      → uncompress (ctx.chunked_msg_buffer ++ payloads (p ∷ ps)) ≡ some whole
      → results s (numbered u total total_size k (p ∷ ps))
        ≡ only_last (length ps) (whole, id_of (ctx.chunked_message_ids ++ ids (p ∷ ps)))
  unfolding results
  results_rest [] (payload, id) s u total total_size ctx k whole there in_order size room
        uncompressed =
      let c : Chunk = record {
        chunk_id = k;
        uuid = u;
        total = total;
        total_size = total_size;
        payload = payload;
        message_id = id;
      } in
      let last =
        process_last s c ctx whole (there c refl refl refl refl) in_order
          (omega (arith, in_order, size)) (omega (arith, room, length-append payload []))
          (ap (λ (xs : List ℕ). uncompress (ctx.chunked_msg_buffer ++ xs))
              (sym (append-nil payload))
            ∙ uncompressed) in
      ap (λ (r : Option (List ℕ × MessageId)). r ∷ []) last
  results_rest (q ∷ ps) (payload, id) s u total total_size ctx k whole there in_order size room
        uncompressed =
      let c : Chunk = record {
        chunk_id = k;
        uuid = u;
        total = total;
        total_size = total_size;
        payload = payload;
        message_id = id;
      } in
      let s' = (process_message_chunk uncompress s c).1 in
      let ctx' = appended ctx id payload in
      let (nothing, next) =
        process_next s c ctx (there c refl refl refl refl) in_order (ground (arith, in_order, size))
          (omega (arith, room, length-append payload (payloads (q ∷ ps)))) in
      let rest =
        results_rest ps q s' u total total_size ctx' (k + 1) whole
          (λ d same_uuid number t z. found_again s' d u ctx' same_uuid next)
          (omega (arith, in_order, length-append ctx.chunked_message_ids (id ∷ [])))
          (omega (arith, size))
          (omega (
            arith,
            room,
            length-append payload (payloads (q ∷ ps)),
            length-append ctx.chunked_msg_buffer payload,
          ))
          (ap uncompress (append_assoc ctx.chunked_msg_buffer payload (payloads (q ∷ ps)))
            ∙ uncompressed) in
      ap
        (λ (r : Option (List ℕ × MessageId)).
          r ∷ results s' (numbered u total total_size (k + 1) (q ∷ ps)))
        nothing
      ∙ ap (λ (rs : List (Option (List ℕ × MessageId))). none ∷ rs) rest
      ∙ ap (λ (is : List MessageIdImpl). none ∷ only_last (length ps) (whole, id_of is))
          (append_assoc ctx.chunked_message_ids (id ∷ []) (ids (q ∷ ps)))

  -- The chunks of a message that is not in the cache, one after another, give no result before the last
  -- one, and with it the payloads joined and uncompressed, under the id of all their ids; whatever
  -- messages the cache has discarded to make room, where the payloads are together no longer than the size
  -- that the chunks give for the message, and can be uncompressed.
  pub chunks_assemble :
      (ps : List (List ℕ × MessageIdImpl)) (p : List ℕ × MessageIdImpl) (s : Chunks)
      (u total_size : ℕ) (whole : List ℕ)
      → find u s.cache.map_ ≡ none
      → length (payloads (p ∷ ps)) ≤ total_size
      → uncompress (payloads (p ∷ ps)) ≡ some whole
      → results s (numbered u (suc (length ps)) total_size 0 (p ∷ ps))
        ≡ only_last (length ps) (whole, id_of (ids (p ∷ ps)))
  chunks_assemble ps p s u total_size whole absent room uncompressed =
      let count = suc (length ps) in
      results_rest ps p s u count total_size (new_ctx count total_size) 0 whole
        (λ c same_uuid number t z. first_entry s c u count total_size same_uuid number t z absent)
        refl (omega arith) (omega (arith, room)) uncompressed

  -- A first chunk that is longer than the size that it gives for the message, as one that could not be
  -- decrypted is where it is consumed all the same, fails the assertion of the buffer.
  first_chunk_overflows :
      (s : Chunks) (c : Chunk)
      → find c.uuid s.cache.map_ ≡ none
      → c.chunk_id ≡ 0
      → c.total_size < length c.payload
      → (process_message_chunk uncompress s c).1.crashed ≡ true
  unfolding process_message_chunk validate_chunk_id append_chunk
  first_chunk_overflows s c absent number long =
      ground (arith, open_entry_first s c absent number, number, long)
