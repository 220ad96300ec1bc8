-- ===== src/Producer/Send.antt =====
-- `sendAsync` and the chunks of a large message: lib/ProducerImpl.cc. Interceptors, statistics and
-- schemas are left out.
use Prim.Native.Nat.{min}
use pulsar_client_cpp.Prelude.{
  ℕ, zero, suc, ◌+◌, ◌-◌, ◌/◌, ◌%◌, ◌^◌, Bool, false, not, Option, none, some, [], ◌∷◌, ltb, leb,
  ◌==◌, ◌&&◌, if◌then◌else◌,
}
use pulsar_client_cpp.Result.{Result}
use pulsar_client_cpp.MessageId.{default_impl, build}
use pulsar_client_cpp.Op.{
  Message, Codec, nobody, single, sent, OpSendMsg, BatchMessageContainer, has_enough_space,
  container_add,
}
use pulsar_client_cpp.Producer.{
  State, pending, ready, closing, closed, failed, producer_fenced, not_started, Producer, completed,
  release_semaphore, send_message,
}
use pulsar_client_cpp.Producer.Enqueue.{Waits, can_enqueue_request}
use pulsar_client_cpp.Producer.Batching.{batch_message_and_send}

-- `isValidProducerState`: the result with which the callback is called where it returns false.
unfoldable pub invalid_state_result : State → Option Result
invalid_state_result s = elim s [
  | ready ↦ none
  | pending ↦ none
  | closing ↦ some Result.already_closed
  | closed ↦ some Result.already_closed
  | producer_fenced ↦ some Result.producer_fenced
  | not_started ↦ some Result.not_connected
  | failed ↦ some Result.not_connected
]

-- `handleFailedResult` in `sendAsyncWithStatsUpdate`: one permit and the memory are given back.
unfoldable pub handle_failed_result : Producer → ℕ → ℕ → Result → Producer
handle_failed_result p size callback r =
    completed (release_semaphore p size) (sent callback r (build default_impl) ∷ [])

unfoldable pub get_num_of_chunks : ℕ → ℕ → ℕ
get_num_of_chunks size max_message_size =
    if leb max_message_size size && not (max_message_size == 0)
    then size / max_message_size + (if size % max_message_size == 0 then 0 else 1)
    else 1

-- The loop that takes a permit for each further chunk. On a failure the permits taken so far stay
-- taken. `none`: the thread waits.
unfoldable pub with_permit :
    (Producer → Option Result × Producer) → Option Result × Producer → Option Result × Producer
with_permit next (none, p) = (none, p)
with_permit next (some r, p) = elim r [ Result.ok ↦ next p | other ↦ (some other, p) ]

unfoldable pub extra_permits : ℕ → Producer → (ℕ → Waits) → Option Result × Producer
extra_permits zero p waits = (some Result.ok, p)
extra_permits (suc n) p waits =
    with_permit (λ p'. extra_permits n p' waits) (can_enqueue_request p 0 (waits n))

-- What is the same for all chunks of one message.
pub record Outgoing : Type 0 where
  pub message : Message
  pub callback : ℕ
  pub number : ℕ
  pub uncompressed_size : ℕ
  pub compressed_size : ℕ
  pub payload_chunk_size : ℕ
  pub total_chunks : ℕ
  pub list : Option ℕ
  pub now : ℕ

abbrev pub chunk_op : Producer → Outgoing → ℕ → OpSendMsg
chunk_op p o chunk_id = record {
  result = Result.ok;
  chunk_id = if leb o.total_chunks 1 then 0 else chunk_id;
  num_chunks = if leb o.total_chunks 1 then 0 else o.total_chunks;
  messages_count = 1;
  messages_size = o.uncompressed_size;
  timeout = o.now + p.send_timeout;
  send_callback = if chunk_id + 1 == o.total_chunks then single o.callback else nobody;
  tracker_callbacks = [];
  chunk_message_id_list = o.list;
  sequence_id = o.number;
}

-- The loop that sends the chunks, by the chunks left.
unfoldable pub send_chunks : Codec → Outgoing → ℕ → ℕ → ℕ → Producer → Producer
send_chunks codec o zero chunk_id begin p = p
send_chunks codec o (suc left) chunk_id begin p =
    let last = min o.compressed_size ((begin + o.payload_chunk_size) % 2 ^ 32) in
    let size = codec.encrypted_size o.message (last - begin) in
    let rest =
      send_chunks codec o left (chunk_id + 1) last (send_message p (chunk_op p o chunk_id)) in
    if not (codec.encrypts_chunk o.message chunk_id)
    then handle_failed_result p o.uncompressed_size o.callback Result.crypto_error
    else if not p.chunking_enabled
        && ltb p.max_message_size ((codec.metadata_size o.message + size) % 2 ^ 32)
    then handle_failed_result p o.uncompressed_size o.callback Result.message_too_big
    else rest

abbrev pub can_add_to_batch : Producer → Message → Bool
can_add_to_batch p msg = elim p.batch_message_container [
  | none ↦ false
  | some c ↦ not msg.has_deliver_at_time
]

-- The batch branch: the batch is sent first if the message does not fit, and afterwards if it is
-- full. (The timer that the first message of a batch starts calls `batchMessageAndSend` later.)
unfoldable pub make_room : Codec → ℕ → Producer → BatchMessageContainer → Message → Producer
make_room codec now p c msg =
    if has_enough_space c msg then p else batch_message_and_send codec now p none

unfoldable pub join_batch :
    Codec → ℕ → Producer → Message → ℕ → Option BatchMessageContainer → Producer
join_batch codec now p msg callback none = p
join_batch codec now p msg callback (some c) =
    let p' = record p { batch_message_container = some (container_add c msg callback).1 } in
    if (container_add c msg callback).0 then batch_message_and_send codec now p' none else p'

unfoldable pub send_batched : Codec → ℕ → Producer → Message → ℕ → Producer
send_batched codec now p msg callback = elim p.batch_message_container [
  | none ↦ p
  | some c ↦
      let p' = make_room codec now p c msg in
      join_batch codec now p' msg callback p'.batch_message_container
]

-- The branch without a batch, with the permits of all chunks taken.
unfoldable pub send_single : Codec → Outgoing → Producer → Producer
send_single codec o p =
    if leb o.total_chunks 1
    then send_chunks codec o o.total_chunks 0 0 p
    else send_chunks codec (record o { list = some p.next_list }) o.total_chunks 0 0
        (record p { next_list = p.next_list + 1 })

-- The message after `setMessageMetadata`: its sequence id is set.
abbrev pub numbered : Message → ℕ → Message
numbered msg n = record msg { sequence_id = some n }

unfoldable pub send_permitted : Codec → Outgoing → Option Result × Producer → Producer
send_permitted codec o (none, p) = p
send_permitted codec o (some r, p) = elim r [
  | Result.ok ↦ send_single codec o p
  | other ↦ handle_failed_result p o.uncompressed_size o.callback other
]

-- The branch without a batch: the number of chunks, a permit for each further one, the sending.
-- (Where the metadata do not fit, `handleFailedResult` gives back the permit taken.)
unfoldable pub send_unbatched : Codec → Outgoing → (ℕ → Waits) → Producer → Producer
send_unbatched codec o waits p =
    if not p.chunking_enabled
    then send_single codec (record o { payload_chunk_size = p.max_message_size; total_chunks = 1 })
        p
    else if leb p.max_message_size (codec.metadata_size o.message)
    then handle_failed_result p o.uncompressed_size o.callback Result.message_too_big
    else let chunk = p.max_message_size - codec.metadata_size o.message in
      let total = get_num_of_chunks o.compressed_size chunk in
      send_permitted codec (record o { payload_chunk_size = chunk; total_chunks = total })
        (extra_permits (total - 1) p waits)

-- `sendAsyncWithStatsUpdate` once a spot is reserved.
unfoldable pub send_reserved : Codec → ℕ → Producer → Message → ℕ → (ℕ → Waits) → Producer
send_reserved codec now p msg callback waits =
    if not msg.has_replicated_from && msg.has_producer_name
    then handle_failed_result p msg.payload_length callback Result.invalid_message
    else let number : ℕ = elim msg.sequence_id [ none ↦ p.msg_sequence_generator | some n ↦ n ] in
      let next : ℕ = elim msg.sequence_id [
        | none ↦ (p.msg_sequence_generator + 1) % 2 ^ 64
        | some n ↦ p.msg_sequence_generator
      ] in
      let p' = record p { msg_sequence_generator = next } in
      let msg' = numbered msg number in
      if can_add_to_batch p msg
      then send_batched codec now p' msg' callback
      else send_unbatched codec
          (record {
            message = msg';
            callback = callback;
            number = number;
            uncompressed_size = msg.payload_length;
            compressed_size = codec.compressed_size msg;
            payload_chunk_size = p.max_message_size;
            total_chunks = 1;
            list = none;
            now = now;
          })
          waits p'

-- `sendAsyncWithStatsUpdate` by the answer of `canEnqueueRequest`. (`none`: it waits.)
unfoldable pub send_enqueued :
    Codec → ℕ → Message → ℕ → (ℕ → Waits) → Option Result × Producer → Producer
send_enqueued codec now msg callback waits (none, p) = p
send_enqueued codec now msg callback waits (some r, p) = elim r [
  | Result.ok ↦ send_reserved codec now p msg callback waits
  | other ↦
      completed (batch_message_and_send codec now p none)
        (sent callback other (build default_impl) ∷ [])
]

-- `sendAsyncWithStatsUpdate`. `reserving` is what happens during the waits for the first permit and
-- the memory, `waits` during those for the permits of further chunks.
unfoldable pub send_async : Codec → ℕ → Producer → Message → ℕ → Waits → (ℕ → Waits) → Producer
send_async codec now p msg callback reserving waits = elim (invalid_state_result p.state) [
  | some r ↦ completed p (sent callback r (build default_impl) ∷ [])
  | none ↦
      send_enqueued codec now msg callback waits
        (can_enqueue_request p msg.payload_length reserving)
]
