-- ===== src/Producer/Permits/Configs.antt =====
-- The configuration of a producer through the operations of lib/ProducerImpl.cc.
use pulsar_client_cpp.Prelude.{ℕ, zero, suc, ◌≡◌, refl, ap, false, Option, none, some, arith}
use pulsar_client_cpp.Result.{Result}
use pulsar_client_cpp.Op.{Message, Codec, BatchMessageContainer}
use pulsar_client_cpp.Producer.{
  Config, Producer, send_message, release_semaphore, release_semaphore_for_send_op,
}
use pulsar_client_cpp.Producer.Enqueue.{
  Waits, can_enqueue_request, enqueue_with_permit, enqueue_memory,
}
use pulsar_client_cpp.Producer.Batching.{handle_op, batch_message_and_send}
use pulsar_client_cpp.Producer.Send.{
  Outgoing, handle_failed_result, send_chunks, send_single, send_unbatched, join_batch, make_room,
  send_batched, send_reserved, send_enqueued, send_async,
}

pub config-batch_message_and_send :
    (codec : Codec) (now : ℕ) (p : Producer) (cb : Option ℕ)
    → (batch_message_and_send codec now p cb).config ≡ p.config
unfolding batch_message_and_send handle_op send_message release_semaphore_for_send_op
config-batch_message_and_send codec now p cb = ground arith

config-send_chunks :
    (codec : Codec) (o : Outgoing) (left i begin : ℕ) (p : Producer)
    → (send_chunks codec o left i begin p).config ≡ p.config
unfolding send_chunks handle_failed_result release_semaphore send_message
config-send_chunks codec o zero i begin p = refl
config-send_chunks codec o (suc left) i begin p = grind (arith, config-send_chunks codec o left)

config-send_single :
    (codec : Codec) (o : Outgoing) (p : Producer) → (send_single codec o p).config ≡ p.config
unfolding send_single
config-send_single codec o p = grind (arith, config-send_chunks codec)

config-send_unbatched :
    (codec : Codec) (o : Outgoing) (waits : ℕ → Waits) (p : Producer)
    → p.chunking_enabled ≡ false
    → (send_unbatched codec o waits p).config ≡ p.config
unfolding send_unbatched
config-send_unbatched codec o waits p n = grind (arith, config-send_single codec)

config-join_batch :
    (codec : Codec) (now : ℕ) (p : Producer) (msg : Message) (cb : ℕ)
    (c : Option BatchMessageContainer)
    → (join_batch codec now p msg cb c).config ≡ p.config
unfolding join_batch
config-join_batch codec now p msg cb none = refl
config-join_batch codec now p msg cb (some c) =
    grind (arith, config-batch_message_and_send codec now)

config-send_batched :
    (codec : Codec) (now : ℕ) (p : Producer) (msg : Message) (cb : ℕ)
    → (send_batched codec now p msg cb).config ≡ p.config
unfolding send_batched make_room
config-send_batched codec now p msg cb =
    grind (arith, config-join_batch codec now, config-batch_message_and_send codec now)

config-send_reserved :
    (codec : Codec) (now : ℕ) (p : Producer) (msg : Message) (cb : ℕ) (waits : ℕ → Waits)
    → p.chunking_enabled ≡ false
    → (send_reserved codec now p msg cb waits).config ≡ p.config
unfolding send_reserved handle_failed_result release_semaphore
config-send_reserved codec now p msg cb waits n =
    grind (arith, config-send_batched codec now, config-send_unbatched codec)

pub config-can_enqueue_request :
    (p : Producer) (n : ℕ) (w : Waits) → (can_enqueue_request p n w).1.config ≡ p.config
unfolding can_enqueue_request enqueue_with_permit enqueue_memory
config-can_enqueue_request p n w = ground arith

config-send_enqueued :
    (codec : Codec) (now : ℕ) (msg : Message) (cb : ℕ) (waits : ℕ → Waits)
    (r : Option Result × Producer)
    → r.1.chunking_enabled ≡ false
    → (send_enqueued codec now msg cb waits r).config ≡ r.1.config
unfolding send_enqueued
config-send_enqueued codec now msg cb waits r n =
    grind (arith, config-send_reserved codec now, config-batch_message_and_send codec now)

pub config-send_async :
    (codec : Codec) (now : ℕ) (p : Producer) (msg : Message) (cb : ℕ) (w : Waits)
    (waits : ℕ → Waits)
    → p.chunking_enabled ≡ false
    → (send_async codec now p msg cb w waits).config ≡ p.config
unfolding send_async
config-send_async codec now p msg cb w waits n =
    let same = config-can_enqueue_request p msg.payload_length w in
    ground (
      arith,
      same,
      config-send_enqueued codec now msg cb waits (can_enqueue_request p msg.payload_length w),
      ap (λ (c : Config). c.chunking_enabled) same,
    )
