-- ===== src/Producer/Permits.antt =====
-- The accounting of permits and memory in lib/ProducerImpl.cc.
pub mod Configs
pub mod Batches
pub mod Reserving
pub mod Sending
pub mod Steps
pub mod Failures
pub mod Runs
pub mod Leaks
use pulsar_client_cpp.Prelude.{
  ℕ, zero, suc, ◌+◌, ◌-◌, ◌*◌, ◌%◌, ◌^◌, ◌≤◌, ◌<◌, ◌≡◌, refl, sym, ap, ◌∙◌, subst, ◌⊎◌, inl, inr,
  ◌≢◌, Bool, true, false, Option, none, some, List, [], ◌∷◌, ◌++◌, length, length-append, ltb, leb,
  ◌==◌, if◌then◌else◌, arith, Bool-cases,
}
use pulsar_client_cpp.Semaphore.{Semaphore}
use pulsar_client_cpp.Semaphore
use pulsar_client_cpp.MemoryLimit
use pulsar_client_cpp.Result.{Result}
use pulsar_client_cpp.MessageId.{MessageIdImpl}
use pulsar_client_cpp.Op.{Message, OpSendMsg, BatchMessageContainer, Batch}
use pulsar_client_cpp.Producer.{
  Producer, completed, release_semaphore_by, release_semaphore_for_send_op, release_semaphore,
  acknowledge, send_message,
}

-- The messages and bytes of the operations in the queue.
abbrev pub queued_count : List (Option OpSendMsg) → ℕ
queued_count [] = 0
queued_count (none ∷ ops) = queued_count ops
queued_count (some op ∷ ops) = op.messages_count + queued_count ops

abbrev pub queued_size : List (Option OpSendMsg) → ℕ
queued_size [] = 0
queued_size (none ∷ ops) = queued_size ops
queued_size (some op ∷ ops) = op.messages_size + queued_size ops

pub queued_count-append :
    (ops : List (Option OpSendMsg)) (op : OpSendMsg)
    → queued_count (ops ++ (some op ∷ [])) ≡ queued_count ops + op.messages_count
queued_count-append [] op = omega arith
queued_count-append (none ∷ ops) op = queued_count-append ops op
queued_count-append (some x ∷ ops) op = omega (arith, queued_count-append ops op)

pub queued_size-append :
    (ops : List (Option OpSendMsg)) (op : OpSendMsg)
    → queued_size (ops ++ (some op ∷ [])) ≡ queued_size ops + op.messages_size
queued_size-append [] op = omega arith
queued_size-append (none ∷ ops) op = queued_size-append ops op
queued_size-append (some x ∷ ops) op = omega (arith, queued_size-append ops op)

abbrev pub batched_count : Option BatchMessageContainer → ℕ
batched_count none = 0
batched_count (some c) = c.num_messages

abbrev pub batched_size : Option BatchMessageContainer → ℕ
batched_size none = 0
batched_size (some c) = c.size_in_bytes

-- The permits that are out, where there is a semaphore.
abbrev pub PermitsOut : Option Semaphore → ℕ → Type 0
PermitsOut none n = Unit {0}
PermitsOut (some s) n = (s.current_usage ≡ n) × (n ≤ s.limit) × (s.limit ≤ 2 ^ 31)

-- The counters of a container agree with the batch in it.
abbrev pub Agrees : Option BatchMessageContainer → Type 0
Agrees none = Unit {0}
Agrees (some c) =
    (c.num_messages ≡ length c.batch_.callbacks) × (c.size_in_bytes ≡ c.batch_.messages_size)

-- No pointer in the queue is null, and no operation in it has failed.
abbrev pub AllSent : List (Option OpSendMsg) → Type 0
AllSent [] = Unit {0}
AllSent (none ∷ ops) = ⊥
AllSent (some op ∷ ops) = (op.result ≡ Result.ok) × AllSent ops

pub AllSent-append :
    (ops : List (Option OpSendMsg)) (op : OpSendMsg)
    → AllSent ops
    → op.result ≡ Result.ok
    → AllSent (ops ++ (some op ∷ []))
AllSent-append [] op h e = (e, tt)
AllSent-append (none ∷ ops) op h e = h
AllSent-append (some x ∷ ops) op h e = (h.0, AllSent-append ops op h.1 e)

-- `count` permits and `size` bytes are reserved for a message that is not queued yet; all others
-- belong to a queued operation or to a message of the batch. The memory is the producer's alone.
pub record Accounts (p : Producer) (count size : ℕ) : Type 0 where
  pub permits :
      PermitsOut p.semaphore
        (count + queued_count p.pending_messages_queue + batched_count p.batch_message_container)
  pub memory_used :
      p.memory.current_usage
      ≡ size + queued_size p.pending_messages_queue + batched_size p.batch_message_container
  pub memory_small : p.memory.current_usage < 2 ^ 64
  pub container : Agrees p.batch_message_container
  pub queue : AllSent p.pending_messages_queue

pub PermitsOut-release :
    (s : Option Semaphore) (n m : ℕ)
    → PermitsOut s (n + m)
    → PermitsOut (release_semaphore_by s n) m
unfolding Semaphore.release
PermitsOut-release none n m h = tt
PermitsOut-release (some s) n m h = omega arith

-- The receipt of the front operation gives back exactly its permits and its bytes: if the permits and
-- the bytes that are out were those of the queued operations, of the batch and of the given
-- reservations, they are so afterwards.
pub acknowledge-Accounts :
    (p : Producer) (op : OpSendMsg) (rest : List (Option OpSendMsg)) (n count size : ℕ)
    (id : MessageIdImpl)
    → p.pending_messages_queue ≡ some op ∷ rest
    → Accounts p count size
    → Accounts (acknowledge p op rest n id) count size
unfolding acknowledge release_semaphore_for_send_op MemoryLimit.release_memory
acknowledge-Accounts p op rest n count size id e a =
    let counts : queued_count p.pending_messages_queue ≡ op.messages_count + queued_count rest =
      ap queued_count e in
    let sizes : queued_size p.pending_messages_queue ≡ op.messages_size + queued_size rest =
      ap queued_size e in
    record {
      permits =
          PermitsOut-release p.semaphore op.messages_count _
            (subst (PermitsOut p.semaphore) (omega (arith, counts)) a.permits);
      memory_used = omega (arith, a.memory_used, a.memory_small, sizes);
      memory_small = omega arith;
      container = a.container;
      queue = (subst AllSent e a.queue).1;
    }

-- So does a failed attempt to queue a message of `length` bytes.
pub release_semaphore-Accounts :
    (p : Producer) (length count size : ℕ)
    → Accounts p (count + 1) (size + length)
    → Accounts (release_semaphore p length) count size
unfolding release_semaphore MemoryLimit.release_memory
release_semaphore-Accounts p length count size a = record {
  permits =
      PermitsOut-release p.semaphore 1 _ (subst (PermitsOut p.semaphore) (omega arith) a.permits);
  memory_used = omega (arith, a.memory_used);
  memory_small = omega arith;
  container = a.container;
  queue = a.queue;
}

queue-send_message :
    (p : Producer) (op : OpSendMsg)
    → (send_message p op).pending_messages_queue ≡ p.pending_messages_queue ++ (some op ∷ [])
unfolding send_message
queue-send_message p op = ground arith

-- An operation that takes over the reservation of its messages.
pub send_message-Accounts :
    (p : Producer) (op : OpSendMsg) (count size : ℕ)
    → op.result ≡ Result.ok
    → Accounts p (count + op.messages_count) (size + op.messages_size)
    → Accounts (send_message p op) count size
unfolding send_message
send_message-Accounts p op count size good a = record {
  permits = ground (arith, a.permits, queued_count-append p.pending_messages_queue op);
  memory_used = ground (arith, a.memory_used, queued_size-append p.pending_messages_queue op);
  memory_small = ground (arith, a.memory_small);
  container = ground (arith, a.container);
  queue =
      subst AllSent (sym (queue-send_message p op))
        (AllSent-append p.pending_messages_queue op a.queue good);
}
