-- ===== src/Producer/Permits/Batches.antt =====
-- The accounting of permits and memory through `batchMessageAndSend` of lib/ProducerImpl.cc.
use pulsar_client_cpp.Prelude.{
  ℕ, ◌+◌, ◌≤◌, ◌<◌, ◌≡◌, sym, ap, subst, inl, inr, true, false, Option, none, some, List, length,
  arith, Bool-cases, Option-cases,
}
use pulsar_client_cpp.Result.{Result}
use pulsar_client_cpp.Op.{
  Message, Codec, OpSendMsg, BatchMessageContainer, Batch, empty_batch, create_op_send_msg,
  is_empty,
}
use pulsar_client_cpp.Producer.{Producer, send_message}
use pulsar_client_cpp.Producer.Batching.{batch_message_and_send, handle_op}
use pulsar_client_cpp.Producer.Permits.{
  Accounts, PermitsOut, Agrees, send_message-Accounts, batched_count, batched_size,
}

-- The codecs, the crypto and the size limit accept a batch of these messages.
pub record Accepts (codec : Codec) (max_message_size : ℕ) (ms : List Message) : Type 0 where
  pub encrypts : codec.encrypts_batch ms ≡ true
  pub fits : codec.batch_payload_size ms ≤ max_message_size

-- They accept the batch that is being filled, if there is one.
abbrev pub AcceptsHeld : Codec → ℕ → Option BatchMessageContainer → Type 0
AcceptsHeld codec max_message_size none = Unit {0}
AcceptsHeld codec max_message_size (some c) = Accepts codec max_message_size c.batch_.messages

pub create_op_send_msg_accepted :
    (codec : Codec) (max_size timeout now : ℕ) (c : BatchMessageContainer) (cb : Option ℕ)
    → codec.encrypts_batch c.batch_.messages ≡ true
    → codec.batch_payload_size c.batch_.messages ≤ max_size
    → 0 < length c.batch_.callbacks
    → let (op, c') = create_op_send_msg codec max_size timeout now c cb in
      (op.result ≡ Result.ok)
      × (op.messages_count ≡ length c.batch_.callbacks)
      × (op.messages_size ≡ c.batch_.messages_size)
      × (c'.num_messages ≡ 0)
      × (c'.size_in_bytes ≡ 0)
      × (c'.batch_ ≡ empty_batch)
unfolding create_op_send_msg
create_op_send_msg_accepted codec max_size timeout now c none e f l = ground arith
create_op_send_msg_accepted codec max_size timeout now c (some cb) e f l = ground arith

pub handle_op-ok :
    (p : Producer) (op : OpSendMsg) → op.result ≡ Result.ok → handle_op p op ≡ send_message p op
unfolding handle_op
handle_op-ok p op e = ground arith

-- A flush that takes the container `c` to `c'` and hands `op` on.
pub flush-Accounts :
    (p : Producer) (c c' : BatchMessageContainer) (op : OpSendMsg) (count size : ℕ)
    → p.batch_message_container ≡ some c
    → op.messages_count ≡ length c.batch_.callbacks
    → op.messages_size ≡ c.batch_.messages_size
    → c'.num_messages ≡ 0
    → c'.size_in_bytes ≡ 0
    → c'.batch_ ≡ empty_batch
    → Accounts p count size
    → Accounts
        (record p { batch_message_container = some c' })
        (count + op.messages_count)
        (size + op.messages_size)
flush-Accounts p c c' op count size e n s z y b a =
    let agrees : Agrees (some c) = rw e at a.container in
    let counted : batched_count p.batch_message_container ≡ c.num_messages = ap batched_count e in
    let sized : batched_size p.batch_message_container ≡ c.size_in_bytes = ap batched_size e in
    record {
      queue = a.queue;
      permits = subst (PermitsOut p.semaphore) (omega (arith, counted, agrees)) a.permits;
      memory_used = omega (arith, sized, agrees, a.memory_used);
      memory_small = a.memory_small;
      container = (
        omega (arith, ap (λ (d : Batch). length d.callbacks) b),
        omega (arith, ap (λ (d : Batch). d.messages_size) b),
      );
    }

pub callbacks-pos :
    (c : BatchMessageContainer)
    → Agrees (some c)
    → is_empty c ≡ false
    → 0 < length c.batch_.callbacks
unfolding is_empty
callbacks-pos c a e = ground arith

-- Sending the batch moves the permits and the bytes of its messages to the queued operation, where
-- the codecs accept it: none are lost and none are given back.
pub batch_message_and_send-Accounts :
    (codec : Codec) (now : ℕ) (p : Producer) (cb : Option ℕ) (count size : ℕ)
    → AcceptsHeld codec p.max_message_size p.batch_message_container
    → Accounts p count size
    → Accounts (batch_message_and_send codec now p cb) count size
unfolding batch_message_and_send
batch_message_and_send-Accounts codec now p cb count size ok a =
    elim (Option-cases p.batch_message_container) [
      | inl e ↦ rw (e, batch_message_and_send) a
      | inr (c, e) ↦ elim (Bool-cases (is_empty c)) [
        | inl empty ↦ rw (e, batch_message_and_send) (rw empty a)
        | inr full ↦ rw (e, batch_message_and_send) (rw full (sent_batch c e full))
      ]
    ]
  where
    sent_batch :
        (c : BatchMessageContainer)
        → p.batch_message_container ≡ some c
        → is_empty c ≡ false
        → let (op, c') = create_op_send_msg codec p.max_message_size p.send_timeout now c cb in
          Accounts (handle_op (record p { batch_message_container = some c' }) op) count size
    sent_batch c e full =
        let held : Accepts codec p.max_message_size c.batch_.messages =
          subst (AcceptsHeld codec p.max_message_size) e ok in
        let (good, n, s, z, y, b) =
          create_op_send_msg_accepted codec p.max_message_size p.send_timeout now c cb held.encrypts
            held.fits (callbacks-pos c (rw e at a.container) full) in
        let made = create_op_send_msg codec p.max_message_size p.send_timeout now c cb in
        let p' : Producer = record p { batch_message_container = some made.1 } in
        subst (λ q. Accounts q count size) (sym (handle_op-ok p' made.0 good))
          (send_message-Accounts p' made.0 count size good
            (flush-Accounts p c made.1 made.0 count size e n s z y b a))
