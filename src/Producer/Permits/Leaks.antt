-- ===== src/Producer/Permits/Leaks.antt =====
-- Permits and memory of lib/ProducerImpl.cc where chunks are acknowledged and where chunks or a batch
-- are refused.
use pulsar_client_cpp.Prelude.{
  ℕ, zero, suc, ◌+◌, ◌-◌, ◌%◌, ◌^◌, ◌<◌, ◌≡◌, refl, sym, ap, ◌∙◌, subst, ◌⊎◌, inl, inr, ◌≢◌, false,
  Option, none, some, List, [], arith,
}
use pulsar_client_cpp.Semaphore.{Semaphore, try_acquire}
use pulsar_client_cpp.Semaphore
use pulsar_client_cpp.MemoryLimit
use pulsar_client_cpp.MemoryLimit.{MemoryLimitController, try_reserve_memory}
use pulsar_client_cpp.Result.{Result}
use pulsar_client_cpp.MessageId.{MessageIdImpl}
use pulsar_client_cpp.Op.{Codec, OpSendMsg, BatchMessageContainer, is_empty, create_op_send_msg}
use pulsar_client_cpp.Producer.{
  Producer, acknowledge, release_semaphore, release_semaphore_for_send_op,
}
use pulsar_client_cpp.Producer.Enqueue.{
  Waits, acquire_permit, enqueue_memory, can_enqueue_request, enqueue_with_permit,
}
use pulsar_client_cpp.Producer.Batching.{batch_message_and_send, handle_op}
use pulsar_client_cpp.Producer.Send.{
  handle_failed_result, with_permit, extra_permits, send_permitted, Outgoing, chunk_op,
}
use pulsar_client_cpp.Producer.Permits.{PermitsOut, batched_count, batched_size}

memory-acknowledge :
    (p : Producer) (op : OpSendMsg) (rest : List (Option OpSendMsg)) (n : ℕ) (id : MessageIdImpl)
    → (acknowledge p op rest n id).memory ≡ record p.memory {
      current_usage = (p.memory.current_usage + 2 ^ 64 - op.messages_size) % 2 ^ 64;
    }
unfolding acknowledge release_semaphore_for_send_op MemoryLimit.release_memory
memory-acknowledge p op rest n id = refl

denied_over_limit :
    (m : MemoryLimitController) (size : ℕ)
    → m.memory_limit < m.current_usage
    → 0 < m.memory_limit
    → 0 < size
    → (try_reserve_memory m size []).0 ≡ false
unfolding try_reserve_memory
denied_over_limit m size over l s = ground arith

-- With one message of two chunks or more in flight, which holds all memory that is out, the
-- receipts of two of its chunks take the usage below zero: it wraps, and a further request for
-- memory is denied, where memory is limited.
pub second_chunk_wraps :
    (p : Producer) (o : Outgoing) (rest rest' : List (Option OpSendMsg)) (i j size : ℕ)
    (id id' : MessageIdImpl)
    → 0 < o.uncompressed_size
    → p.memory.current_usage ≡ o.uncompressed_size
    → 0 < p.memory.memory_limit
    → p.memory.memory_limit + o.uncompressed_size < 2 ^ 64
    → 0 < size
    → let once = acknowledge p (chunk_op p o i) rest o.number id in
      let twice = acknowledge once (chunk_op p o j) rest' o.number id' in
      (twice.memory.current_usage ≡ 2 ^ 64 - o.uncompressed_size)
      × ((try_reserve_memory twice.memory size []).0 ≡ false)
second_chunk_wraps p o rest rest' i j size id id' pos used l small s = (
  wrapped,
  subst (λ (m : MemoryLimitController). (try_reserve_memory m size []).0 ≡ false) (sym second)
      (denied_over_limit (record p.memory { current_usage = 2 ^ 64 - o.uncompressed_size }) size
        (omega arith) l s),
)
  where
    once : Producer
    once = acknowledge p (chunk_op p o i) rest o.number id

    twice : Producer
    twice = acknowledge once (chunk_op p o j) rest' o.number id'

    first : once.memory ≡ record p.memory { current_usage = 0 }
    first =
        memory-acknowledge p (chunk_op p o i) rest o.number id
        ∙ ap (λ u. record p.memory { current_usage = u }) (omega arith)

    second : twice.memory ≡ record p.memory { current_usage = 2 ^ 64 - o.uncompressed_size }
    second =
        memory-acknowledge once (chunk_op p o j) rest' o.number id'
        ∙ ap
            (λ (m : MemoryLimitController). record m {
              current_usage = (m.current_usage + 2 ^ 64 - o.uncompressed_size) % 2 ^ 64;
            })
            first
        ∙ ap (λ u. record p.memory { current_usage = u }) (omega arith)

    wrapped : twice.memory.current_usage ≡ 2 ^ 64 - o.uncompressed_size
    wrapped = ap (λ (m : MemoryLimitController). m.current_usage) second

refused_op :
    (codec : Codec) (max_size timeout now : ℕ) (c : BatchMessageContainer)
    → codec.encrypts_batch c.batch_.messages ≡ false
    → let (op, c') = create_op_send_msg codec max_size timeout now c none in
      (op.result ≢ Result.ok)
      × (op.messages_count ≡ 0)
      × (op.messages_size ≡ 0)
      × (c'.num_messages ≡ 0)
      × (c'.size_in_bytes ≡ 0)
unfolding create_op_send_msg
refused_op codec max_size timeout now c e = ground arith

handle_op-refused :
    (p : Producer) (op : OpSendMsg) (n : ℕ)
    → op.result ≢ Result.ok
    → op.messages_count ≡ 0
    → op.messages_size ≡ 0
    → p.memory.current_usage < 2 ^ 64
    → PermitsOut p.semaphore n
    → let p' = handle_op p op in
      (p'.memory ≡ p.memory)
      × (p'.pending_messages_queue ≡ p.pending_messages_queue)
      × (p'.batch_message_container ≡ p.batch_message_container)
      × PermitsOut p'.semaphore n
unfolding handle_op release_semaphore_for_send_op MemoryLimit.release_memory Semaphore.release
handle_op-refused p op n bad none_counted none_sized small out = ground arith

-- `batchMessageAndSend` of a batch with messages that the crypto refuses: the batch is gone and
-- nothing is queued, but the memory that is out and the permits that are out stay as they were.
pub refused_batch_leaks :
    (codec : Codec) (now : ℕ) (p : Producer) (c : BatchMessageContainer) (n : ℕ)
    → p.batch_message_container ≡ some c
    → is_empty c ≡ false
    → codec.encrypts_batch c.batch_.messages ≡ false
    → p.memory.current_usage < 2 ^ 64
    → PermitsOut p.semaphore n
    → let p' = batch_message_and_send codec now p none in
      (p'.memory ≡ p.memory)
      × PermitsOut p'.semaphore n
      × (p'.pending_messages_queue ≡ p.pending_messages_queue)
      × (batched_count p'.batch_message_container ≡ 0)
      × (batched_size p'.batch_message_container ≡ 0)
unfolding batch_message_and_send
refused_batch_leaks codec now p c n e full refused small out =
    rw (e, batch_message_and_send) (rw full leaked)
  where
    made : OpSendMsg × BatchMessageContainer
    made = create_op_send_msg codec p.max_message_size p.send_timeout now c none

    before : Producer
    before = record p { batch_message_container = some made.1 }

    leaked :
        ((handle_op before made.0).memory ≡ p.memory)
        × PermitsOut (handle_op before made.0).semaphore n
        × ((handle_op before made.0).pending_messages_queue ≡ p.pending_messages_queue)
        × (batched_count (handle_op before made.0).batch_message_container ≡ 0)
        × (batched_size (handle_op before made.0).batch_message_container ≡ 0)
    leaked =
        let (bad, counted, sized, num, bytes) =
          refused_op codec p.max_message_size p.send_timeout now c refused in
        let (same, queue, container, permits) =
          handle_op-refused before made.0 n bad counted sized small out in
        (same, permits, queue, ap batched_count container ∙ num, ap batched_size container ∙ bytes)

-- One further permit, without blocking.
one_permit :
    (p : Producer) (s : Semaphore) (w : Waits)
    → p.semaphore ≡ some s
    → p.block_if_queue_full ≡ false
    → PermitsOut (some s) s.current_usage
    → ((s.current_usage < s.limit)
        × (can_enqueue_request p 0 w ≡ (
          some Result.ok,
          record p { semaphore = some (record s { current_usage = s.current_usage + 1 }) },
        )))
      ⊎ ((s.current_usage ≡ s.limit)
          × (can_enqueue_request p 0 w ≡ (some Result.producer_queue_is_full, p)))
unfolding can_enqueue_request enqueue_with_permit acquire_permit enqueue_memory try_acquire
    try_reserve_memory
one_permit p s w e nb out = ground arith

exhausted :
    (p : Producer) (s : Semaphore)
    → p.semaphore ≡ some s
    → s.current_usage ≡ s.limit
    → p ≡ record p { semaphore = some (record s { current_usage = s.limit }) }
exhausted p s e full = ground arith

-- Asking for more permits than are free ends with the semaphore exhausted.
extra_permits_refused :
    (n : ℕ) (p : Producer) (s : Semaphore) (waits : ℕ → Waits)
    → p.semaphore ≡ some s
    → p.block_if_queue_full ≡ false
    → PermitsOut (some s) s.current_usage
    → s.limit < s.current_usage + n
    → extra_permits n p waits ≡ (
      some Result.producer_queue_is_full,
      record p { semaphore = some (record s { current_usage = s.limit }) },
    )
unfolding extra_permits with_permit
extra_permits_refused zero p s waits e nb out short = absurd (omega arith)
extra_permits_refused (suc n) p s waits e nb out short = elim (one_permit p s (waits n) e nb out) [
  | inl (room, went) ↦
      ap (with_permit (λ q. extra_permits n q waits)) went
      ∙ extra_permits_refused n
          (record p { semaphore = some (record s { current_usage = s.current_usage + 1 }) })
          (record s { current_usage = s.current_usage + 1 }) waits refl nb
          (refl, omega arith, out.2) (omega arith)
  | inr (full, went) ↦
      ap (with_permit (λ q. extra_permits n q waits)) went
      ∙ ap (λ q. (some Result.producer_queue_is_full, q)) (exhausted p s e full)
]

-- A message whose chunks need more permits than are free, on a producer that does not block:
-- nothing is queued, and the semaphore ends with all its permits out but one, so that of the
-- permits taken for the message only one is given back.
refused_chunks_leak :
    (codec : Codec) (o : Outgoing) (n : ℕ) (p : Producer) (s : Semaphore) (waits : ℕ → Waits)
    → p.semaphore ≡ some s
    → p.block_if_queue_full ≡ false
    → PermitsOut (some s) s.current_usage
    → 0 < s.current_usage
    → s.limit < s.current_usage + n
    → let p' = send_permitted codec o (extra_permits n p waits) in
      (p'.pending_messages_queue ≡ p.pending_messages_queue)
      × (p'.semaphore ≡ some (record s { current_usage = s.limit - 1 }))
unfolding send_permitted handle_failed_result release_semaphore Semaphore.release
refused_chunks_leak codec o n p s waits e nb out pos short =
    subst
      (λ r.
        ((send_permitted codec o r).pending_messages_queue ≡ p.pending_messages_queue)
        × ((send_permitted codec o r).semaphore ≡ some (record s { current_usage = s.limit - 1 })))
      (sym (extra_permits_refused n p s waits e nb out short))
      (refl, ap (λ u. some (record s { current_usage = u })) (omega arith))
