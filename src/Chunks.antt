-- ===== src/Chunks.antt =====
-- lib/ConsumerImpl.cc and lib/ConsumerImpl.h: how a consumer assembles the chunks of a message, which
-- it keeps in a cache by the uuid of the message (a number here). A payload is the list of its bytes.
-- Scheduling the expiry is left out.
pub mod Assembly
mod Tests
use pulsar_client_cpp.Prelude.{
  ℕ, ◌+◌, ◌-◌, Bool, true, false, not, ◌&&◌, Option, none, some, List, [], ◌∷◌, ◌++◌, length, ltb,
  leb, ◌==◌, if◌then◌else◌,
}
use pulsar_client_cpp.MessageId.{MessageIdImpl, MessageId, build, default_impl, chunk_message_id}
use pulsar_client_cpp.MapCache.{MapCache, find, put_if_absent, remove, remove_oldest_values}

pub record ChunkedMessageCtx : Type 0 where
  pub total_chunks : ℕ
  pub capacity : ℕ
  pub chunked_msg_buffer : List ℕ
  pub chunked_message_ids : List MessageIdImpl

abbrev pub new_ctx : (total_chunks total_chunk_message_size : ℕ) → ChunkedMessageCtx
new_ctx total_chunks total_chunk_message_size = record {
  total_chunks = total_chunks;
  capacity = total_chunk_message_size;
  chunked_msg_buffer = [];
  chunked_message_ids = [];
}

unfoldable pub validate_chunk_id : ChunkedMessageCtx → ℕ → Bool
validate_chunk_id ctx chunk_id = chunk_id == length ctx.chunked_message_ids

-- `none` where the write runs over the end of the buffer, which has the size that the first chunk gives
-- for the message: the assertion of `SharedBuffer::write`.
unfoldable pub append_chunk : ChunkedMessageCtx → MessageIdImpl → List ℕ → Option ChunkedMessageCtx
append_chunk ctx id payload =
    if leb (length payload) (ctx.capacity - length ctx.chunked_msg_buffer)
    then some (record ctx {
      chunked_message_ids = ctx.chunked_message_ids ++ (id ∷ []);
      chunked_msg_buffer = ctx.chunked_msg_buffer ++ payload;
    })
    else none

unfoldable pub is_completed : ChunkedMessageCtx → Bool
is_completed ctx = ctx.total_chunks == length ctx.chunked_message_ids

-- `discarded` has the messages whose chunks were discarded for want of room, `permits` counts the
-- calls of `increaseAvailablePermits`, `tracked` has the arguments of `trackMessage`, and `crashed` says
-- that an assertion has failed.
pub record Chunks : Type 0 where
  pub cache : MapCache ChunkedMessageCtx
  pub max_pending_chunked_message : ℕ
  pub discarded : List (ℕ × ChunkedMessageCtx)
  pub permits : ℕ
  pub tracked : List MessageIdImpl
  pub crashed : Bool

-- A chunk as it is received. (One at an exclusive start message id is refused as any other is.)
pub record Chunk : Type 0 where
  pub chunk_id : ℕ
  pub uuid : ℕ
  pub total : ℕ
  pub total_size : ℕ
  pub payload : List ℕ
  pub message_id : MessageIdImpl

-- The id of a message of chunks. (A complete message has a chunk.)
abbrev pub id_of : List MessageIdImpl → MessageId
unfolding chunk_message_id
id_of [] = build default_impl
id_of (id ∷ ids) = chunk_message_id id ids

-- A write through an iterator of the cache.
abbrev pub write_at :
    ℕ → ChunkedMessageCtx → List (ℕ × ChunkedMessageCtx) → List (ℕ × ChunkedMessageCtx)
write_at k ctx [] = []
write_at k ctx ((j, c) ∷ m) =
    let rest = write_at k ctx m in if j == k then (j, ctx) ∷ m else (j, c) ∷ rest

-- Room for a new message: the oldest ones are discarded.
unfoldable pub make_room : Chunks → Chunks
unfolding remove_oldest_values
make_room s =
    let size = length s.cache.map_ in
    if ltb 0 s.max_pending_chunked_message && leb s.max_pending_chunked_message size
    then (let (removed, cache) =
          remove_oldest_values (size - s.max_pending_chunked_message + 1) s.cache.map_
            s.cache.keys in
        record s { cache = cache; discarded = s.discarded ++ removed })
    else s

-- The entry of the message of a chunk, made if it is the first chunk.
unfoldable pub open_entry : Chunks → Chunk → Chunks
unfolding make_room find put_if_absent
open_entry s c = (elim (find c.uuid s.cache.map_) [
  | some ctx ↦ s
  | none ↦
      if c.chunk_id == 0
      then (let s' = make_room s in
          record s' { cache = (put_if_absent s'.cache c.uuid (new_ctx c.total c.total_size)).1 })
      else s
])

-- A chunk that is not wanted.
unfoldable pub refuse : Chunks → Chunk → Chunks
unfolding remove
refuse s c = record s {
  cache = remove s.cache c.uuid;
  permits = s.permits + 1;
  tracked = s.tracked ++ (c.message_id ∷ []);
}

-- `processMessageChunk`: the whole payload with its id, if the message is complete and is
-- uncompressed. (`remove` of a uuid that is not in the cache does nothing.)
unfoldable pub process_message_chunk :
    (List ℕ → Option (List ℕ)) → Chunks → Chunk → Option (List ℕ × MessageId) × Chunks
unfolding open_entry find validate_chunk_id append_chunk is_completed refuse remove chunk_message_id
process_message_chunk uncompress s c =
    let s' = open_entry s c in
    (elim (find c.uuid s'.cache.map_) [
      | none ↦ (none, refuse s' c)
      | some ctx ↦
          if not (validate_chunk_id ctx c.chunk_id)
          then (none, refuse s' c)
          else elim (append_chunk ctx c.message_id c.payload) [
            | none ↦ (none, record s' { crashed = true })
            | some ctx' ↦
                if not (is_completed ctx')
                then (
                  none,
                  record s' {
                    cache = record s'.cache { map_ = write_at c.uuid ctx' s'.cache.map_ };
                    permits = s'.permits + 1;
                  },
                )
                else (
                  elim (uncompress ctx'.chunked_msg_buffer) [
                    | none ↦ none
                    | some whole ↦ some (whole, id_of ctx'.chunked_message_ids)
                  ],
                  record s' { cache = remove s'.cache c.uuid },
                )
          ]
    ])
