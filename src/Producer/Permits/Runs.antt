-- ===== src/Producer/Permits/Runs.antt =====
-- Runs of a producer of lib/ProducerImpl.cc: its calls and its timers one after another, in any
-- order.
use pulsar_client_cpp.Prelude.{
  ℕ, ◌+◌, ◌^◌, ◌<◌, ◌≡◌, refl, ap, ◌∙◌, subst, false, Option, none, some, List, [], ◌∷◌, ◌++◌,
  arith,
}
use pulsar_client_cpp.Result.{Result}
use pulsar_client_cpp.MessageId.{MessageIdImpl}
use pulsar_client_cpp.Op.{Message, Codec, OpSendMsg}
use pulsar_client_cpp.Producer.{
  Config, Producer, ack_received, Reply, returns, null_dereference, pending_sequence_ids,
  resend_messages,
}
use pulsar_client_cpp.Producer.Enqueue.{Waits}
use pulsar_client_cpp.Producer.Batching.{flush_async, handle_batch_timer, flush_pending}
use pulsar_client_cpp.Producer.Send.{send_async}
use pulsar_client_cpp.Producer.Failing.{
  Timer, handled, fault, handle_send_timeout, fail_pending_messages,
}
use pulsar_client_cpp.Producer.Permits.{Accounts, AllSent}
use pulsar_client_cpp.Producer.Permits.Configs.{config-send_async, config-batch_message_and_send}
use pulsar_client_cpp.Producer.Permits.Batches.{AcceptsHeld}
use pulsar_client_cpp.Producer.Permits.Sending.{AcceptsSend, send_async-Accounts}
use pulsar_client_cpp.Producer.Permits.Failures.{
  fail_pending_messages-Keeps, handle_send_timeout-Keeps,
}
use pulsar_client_cpp.Producer.Permits.Steps.{
  Keeps, KeepsReply, KeepsTimer, ack_received-Keeps, flush_async-Accounts,
  handle_batch_timer-Accounts,
}

-- What happens to a producer: a message is sent, the messages so far are flushed, the timer of the
-- batch or of the oldest message runs out, a receipt arrives, a new connection is given the queue,
-- or the producer fails everything.
pub data Step : Type 0 where
  sends : (now : ℕ) → Message → (callback : ℕ) → Waits → (ℕ → Waits) → Step
  flushes : (now callback : ℕ) → Step
  batch_timer send_timer : (now : ℕ) → Step
  receipt : (sequence_id : ℕ) → MessageIdImpl → Step
  reconnects : Step
  fails : (now : ℕ) → Result → Step

abbrev pub after_reply : Reply → Option Producer
after_reply (returns b p) = some p
after_reply null_dereference = none

abbrev after_timer : Timer → Option Producer
after_timer (handled p t) = some p
after_timer fault = none

-- `none` is the dereference of a null pointer.
unfoldable pub step : Codec → Producer → Step → Option Producer
step codec p (sends now msg callback w waits) = some (send_async codec now p msg callback w waits)
step codec p (flushes now callback) = some (flush_async codec now p callback)
step codec p (batch_timer now) = some (handle_batch_timer codec now p)
step codec p (send_timer now) = after_timer (handle_send_timeout codec now p)
step codec p (receipt n id) = after_reply (ack_received p n id)
step codec p reconnects = resend_messages p
step codec p (fails now r) = fail_pending_messages codec now p r

abbrev pub continue : (Producer → Option Producer) → Option Producer → Option Producer
continue next none = none
continue next (some p) = next p

unfoldable pub run : Codec → Producer → List Step → Option Producer
unfolding step
run codec p [] = some p
run codec p (s ∷ ss) = continue (λ p'. run codec p' ss) (step codec p s)

-- The bytes that are out and those of the message that is sent are fewer than 2 ^ 64, and the codecs
-- accept the batches that the step may send.
abbrev pub Room : Codec → Producer → Step → Type 0
Room codec p (sends now msg callback w waits) =
    (p.memory.current_usage + msg.payload_length < 2 ^ 64)
    × AcceptsSend codec p.max_message_size msg p.batch_message_container
Room codec p (flushes now callback) = AcceptsHeld codec p.max_message_size p.batch_message_container
Room codec p (batch_timer now) = AcceptsHeld codec p.max_message_size p.batch_message_container
Room codec p (send_timer now) = AcceptsHeld codec p.max_message_size p.batch_message_container
Room codec p (receipt n id) = Unit {0}
Room codec p reconnects = Unit {0}
Room codec p (fails now r) = AcceptsHeld codec p.max_message_size p.batch_message_container

abbrev pub Afterwards : (Producer → Type 0) → Option Producer → Type 0
Afterwards holds none = Unit {0}
Afterwards holds (some p) = holds p

abbrev pub AllRoom : Codec → Producer → List Step → Type 0
AllRoom codec p [] = Unit {0}
AllRoom codec p (s ∷ ss) = Room codec p s × Afterwards (λ p'. AllRoom codec p' ss) (step codec p s)

pending_sequence_ids-AllSent :
    (q : List (Option OpSendMsg)) → AllSent q → (ids : List ℕ) × (pending_sequence_ids q ≡ some ids)
unfolding pending_sequence_ids
pending_sequence_ids-AllSent [] h = ([], refl)
pending_sequence_ids-AllSent (none ∷ q) h = absurd h
pending_sequence_ids-AllSent (some op ∷ q) h =
    let (ids, e) = pending_sequence_ids-AllSent q h.1 in (op.sequence_id ∷ ids, rw e refl)

abbrev Answers : Config → Option Producer → Type 0
Answers c r = (p : Producer) × (r ≡ some p) × Keeps c p

resend-Answers : (p : Producer) → Accounts p 0 0 → Answers p.config (resend_messages p)
unfolding resend_messages
resend-Answers p a =
    let (ids, e) = pending_sequence_ids-AllSent p.pending_messages_queue a.queue in
    (
      record p { wire = p.wire ++ ids },
      rw (e, resend_messages) refl,
      (
        record {
          permits = a.permits;
          memory_used = a.memory_used;
          memory_small = a.memory_small;
          container = a.container;
          queue = a.queue;
        },
        refl,
      ),
    )

reply-Answers : (c : Config) (r : Reply) → KeepsReply c r → Answers c (after_reply r)
reply-Answers c (returns b p) k = (p, refl, k)
reply-Answers c null_dereference k = absurd k

timer-Answers : (c : Config) (t : Timer) → KeepsTimer c t → Answers c (after_timer t)
timer-Answers c (handled p n) k = (p, refl, k)
timer-Answers c fault k = absurd k

config-flush_async :
    (codec : Codec) (now : ℕ) (p : Producer) (cb : ℕ)
    → (flush_async codec now p cb).config ≡ p.config
unfolding flush_async flush_pending
config-flush_async codec now p cb = grind (arith, config-batch_message_and_send codec now)

config-handle_batch_timer :
    (codec : Codec) (now : ℕ) (p : Producer) → (handle_batch_timer codec now p).config ≡ p.config
unfolding handle_batch_timer
config-handle_batch_timer codec now p =
    ground (arith, config-batch_message_and_send codec now p none)

step-Answers :
    (codec : Codec) (p : Producer) (s : Step)
    → p.block_if_queue_full ≡ false
    → p.chunking_enabled ≡ false
    → Room codec p s
    → Accounts p 0 0
    → Answers p.config (step codec p s)
unfolding step
step-Answers codec p (sends now msg cb w waits) nb nc room a = (
  send_async codec now p msg cb w waits,
  refl,
  (
    send_async-Accounts codec now p msg cb w waits room.1 nb nc room.0 a,
    config-send_async codec now p msg cb w waits nc,
  ),
)
step-Answers codec p (flushes now cb) nb nc room a = (
  flush_async codec now p cb,
  refl,
  (flush_async-Accounts codec now p cb room a, config-flush_async codec now p cb),
)
step-Answers codec p (batch_timer now) nb nc room a = (
  handle_batch_timer codec now p,
  refl,
  (handle_batch_timer-Accounts codec now p room a, config-handle_batch_timer codec now p),
)
step-Answers codec p (send_timer now) nb nc room a =
    timer-Answers p.config (handle_send_timeout codec now p)
      (handle_send_timeout-Keeps codec now p room a)
step-Answers codec p (receipt n id) nb nc room a =
    reply-Answers p.config (ack_received p n id) (ack_received-Keeps p n id a)
step-Answers codec p reconnects nb nc room a = resend-Answers p a
step-Answers codec p (fails now r) nb nc room a = fail_pending_messages-Keeps codec now p r room a

-- However a producer's sends, flushes, timers, receipts, reconnections and failures follow each
-- other, no null pointer is dereferenced, and the permits and bytes that are out stay those of the
-- queued operations and of the batch: for a producer that does not block and does not chunk, whose
-- codecs accept, at each step, the batches that it may send, with fewer than 2 ^ 64 bytes out.
pub run-Accounts :
    (codec : Codec) (p : Producer) (ss : List Step)
    → p.block_if_queue_full ≡ false
    → p.chunking_enabled ≡ false
    → AllRoom codec p ss
    → Accounts p 0 0
    → (p' : Producer) × (run codec p ss ≡ some p') × Accounts p' 0 0
unfolding run
run-Accounts codec p [] nb nc room a = (p, refl, a)
run-Accounts codec p (s ∷ ss) nb nc room a =
    let (p1, went, (b, same)) = step-Answers codec p s nb nc room.0 a in
    let (p', rest, last) =
      run-Accounts codec p1 ss (ap (λ (c : Config). c.block_if_queue_full) same ∙ nb)
        (ap (λ (c : Config). c.chunking_enabled) same ∙ nc)
        (subst (Afterwards (λ q. AllRoom codec q ss)) went room.1) b in
    (p', ap (continue (λ q. run codec q ss)) went ∙ rest, last)
