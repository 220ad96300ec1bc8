-- ===== src/Producer/Permits/Steps.antt =====
-- The accounting of permits and memory through `flushAsync`, the batch timer and `ackReceived` of
-- lib/ProducerImpl.cc.
use pulsar_client_cpp.Prelude.{
  ℕ, ◌≡◌, refl, subst, ◌⊎◌, inl, inr, true, Option, none, some, List, [], ◌∷◌, arith, Option-cases,
}
use pulsar_client_cpp.Result.{Result}
use pulsar_client_cpp.MessageId.{MessageIdImpl}
use pulsar_client_cpp.Op.{Completion, Codec, OpSendMsg, add_tracker_callback}
use pulsar_client_cpp.Producer.{
  Config, Producer, completed, release_semaphore_for_send_op, acknowledge, ack_received, Reply,
  returns, null_dereference,
}
use pulsar_client_cpp.Producer.Batching.{track_last, flush_pending, flush_async, handle_batch_timer}
use pulsar_client_cpp.Producer.Failing.{Timer, handled, fault}
use pulsar_client_cpp.Producer.Permits.{
  Accounts, AllSent, PermitsOut, queued_count, queued_size, acknowledge-Accounts,
}
use pulsar_client_cpp.Producer.Receipts.{ack_received_cases}
use pulsar_client_cpp.Producer.Permits.Batches.{AcceptsHeld, batch_message_and_send-Accounts}

pub completed-keeps :
    (p : Producer) (cs : List Completion) → Accounts p 0 0 → Accounts (completed p cs) 0 0
completed-keeps p cs a = record {
  permits = a.permits;
  memory_used = a.memory_used;
  memory_small = a.memory_small;
  container = a.container;
  queue = a.queue;
}

-- A tracker at the last operation changes no count.
record SameSums (ops ops' : List (Option OpSendMsg)) : Type 0 where
  counts : queued_count ops' ≡ queued_count ops
  sizes : queued_size ops' ≡ queued_size ops
  whole : AllSent ops'

some_injective : {A : Type 0} {a b : A} → some a ≡ some b → a ≡ b
some_injective e = cc

none_is_not_some : {A : Type 0} {a : A} → none ≡ some a → ⊥
none_is_not_some e = cc

track_last-SameSums :
    (cb : ℕ) (ops ops' : List (Option OpSendMsg))
    → AllSent ops
    → track_last cb ops ≡ some ops'
    → SameSums ops ops'
unfolding track_last add_tracker_callback
track_last-SameSums cb [] ops' h e = absurd (cc)
track_last-SameSums cb (none ∷ rest) ops' h e = absurd h
track_last-SameSums cb (some op ∷ []) ops' h e =
    subst (SameSums (some op ∷ [])) (some_injective e)
      (record { counts = refl; sizes = refl; whole = (h.0, tt) })
track_last-SameSums cb (some op ∷ y ∷ ops) ops' h e =
    elim (Option-cases (track_last cb (y ∷ ops))) [
      | inl stuck ↦ absurd (none_is_not_some (rw (stuck) at e))
      | inr (rest, went) ↦
          let ih = track_last-SameSums cb (y ∷ ops) rest h.1 went in
          subst (SameSums (some op ∷ y ∷ ops)) (some_injective (rw (went) at e)) (record {
            counts = omega (arith, ih.counts);
            sizes = omega (arith, ih.sizes);
            whole = (h.0, ih.whole);
          })
    ]

flush_pending-Accounts :
    (p : Producer) (cb : ℕ) → Accounts p 0 0 → Accounts (flush_pending p cb) 0 0
unfolding flush_pending
flush_pending-Accounts p cb a = elim (Option-cases (track_last cb p.pending_messages_queue)) [
  | inl empty ↦ rw (empty, flush_pending) (completed-keeps p _ a)
  | inr (ops, went) ↦
      let same = track_last-SameSums cb p.pending_messages_queue ops a.queue went in
      rw (went, flush_pending)
        (record {
          permits = subst (PermitsOut p.semaphore) (omega (arith, same.counts)) a.permits;
          memory_used = omega (arith, a.memory_used, same.sizes);
          memory_small = a.memory_small;
          container = a.container;
          queue = same.whole;
        })
]

pub flush_async-Accounts :
    (codec : Codec) (now : ℕ) (p : Producer) (cb : ℕ)
    → AcceptsHeld codec p.max_message_size p.batch_message_container
    → Accounts p 0 0
    → Accounts (flush_async codec now p cb) 0 0
unfolding flush_async
flush_async-Accounts codec now p cb ok a = grind (
  arith,
  flush_pending-Accounts p cb a,
  completed-keeps p,
  batch_message_and_send-Accounts codec now p (some cb) 0 0 ok a,
)

pub handle_batch_timer-Accounts :
    (codec : Codec) (now : ℕ) (p : Producer)
    → AcceptsHeld codec p.max_message_size p.batch_message_container
    → Accounts p 0 0
    → Accounts (handle_batch_timer codec now p) 0 0
unfolding handle_batch_timer
handle_batch_timer-Accounts codec now p ok a =
    ground (arith, batch_message_and_send-Accounts codec now p none 0 0 ok a)

-- The producer afterwards keeps its accounts, and its configuration is `c`.
abbrev pub Keeps : Config → Producer → Type 0
Keeps c p = Accounts p 0 0 × (p.config ≡ c)

abbrev pub KeepsReply : Config → Reply → Type 0
KeepsReply c (returns b p) = Keeps c p
KeepsReply c null_dereference = ⊥

abbrev pub KeepsTimer : Config → Timer → Type 0
KeepsTimer c (handled p t) = Keeps c p
KeepsTimer c fault = ⊥

pub queue_cases :
    (q : List (Option OpSendMsg))
    → AllSent q
    → (q ≡ [])
      ⊎ ((op : OpSendMsg) × (rest : List (Option OpSendMsg)) × (q ≡ some op ∷ rest)
          × (op.result ≡ Result.ok))
queue_cases [] h = inl refl
queue_cases (none ∷ ops) h = absurd h
queue_cases (some op ∷ ops) h = inr (op, ops, refl, h.0)

ack_received_empty :
    (p : Producer) (n : ℕ) (id : MessageIdImpl)
    → p.pending_messages_queue ≡ []
    → ack_received p n id ≡ returns true p
unfolding ack_received
ack_received_empty p n id e = ground arith

config-acknowledge :
    (p : Producer) (op : OpSendMsg) (rest : List (Option OpSendMsg)) (n : ℕ) (id : MessageIdImpl)
    → (acknowledge p op rest n id).config ≡ p.config
unfolding acknowledge release_semaphore_for_send_op
config-acknowledge p op rest n id = refl

pub ack_received-Keeps :
    (p : Producer) (n : ℕ) (id : MessageIdImpl)
    → Accounts p 0 0
    → KeepsReply p.config (ack_received p n id)
ack_received-Keeps p n id a = elim (queue_cases p.pending_messages_queue a.queue) [
  | inl e ↦ rw (ack_received_empty p n id e) (a, refl)
  | inr (op, rest, e, good) ↦ elim (ack_received_cases p op rest n id e good) [
    | inl (above, went) ↦ rw went (a, refl)
    | inr (inl (below, went)) ↦ rw went (a, refl)
    | inr (inr (same, went)) ↦ rw went (
      acknowledge-Accounts p op rest n 0 0 (record id { partition = p.partition }) e a,
      config-acknowledge p op rest n (record id { partition = p.partition }),
    )
  ]
]
