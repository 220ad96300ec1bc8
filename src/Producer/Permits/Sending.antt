-- ===== src/Producer/Permits/Sending.antt =====
-- The accounting of permits and memory through `sendAsyncWithStatsUpdate` of lib/ProducerImpl.cc,
-- where messages are not chunked.
use pulsar_client_cpp.Prelude.{
  ℕ, ◌+◌, ◌-◌, ◌%◌, ◌^◌, ◌<◌, ◌&&◌, ◌||◌, ◌++◌, not, min, ◌≡◌, refl, sym, ap, ◌∙◌, subst, ◌⊎◌, inl,
  inr, Bool, true, false, Option, none, some, List, [], ◌∷◌, length-append, ltb, arith, Bool-cases,
  Option-cases,
}
use pulsar_client_cpp.Result.{Result}
use pulsar_client_cpp.Op.{
  Completion, Message, Codec, OpSendMsg, BatchMessageContainer, create_op_send_msg, container_add,
  has_enough_space, is_empty,
}
use pulsar_client_cpp.Producer.{
  Config, Producer, completed, release_semaphore_for_send_op, send_message,
}
use pulsar_client_cpp.Producer.Enqueue.{
  Waits, can_enqueue_request, enqueue_with_permit, enqueue_memory,
}
use pulsar_client_cpp.Producer.Batching.{batch_message_and_send, handle_op}
use pulsar_client_cpp.Producer.Send.{
  handle_failed_result, invalid_state_result, send_enqueued, can_add_to_batch, make_room,
  join_batch, send_batched, send_chunks, send_single, send_unbatched, send_reserved, send_async,
  Outgoing, numbered,
}
use pulsar_client_cpp.Producer.Permits.{
  Accounts, PermitsOut, Agrees, send_message-Accounts, release_semaphore-Accounts, batched_count,
  batched_size,
}
use pulsar_client_cpp.Producer.Permits.Configs.{
  config-batch_message_and_send, config-can_enqueue_request,
}
use pulsar_client_cpp.Producer.Permits.Batches.{
  Accepts, AcceptsHeld, batch_message_and_send-Accounts,
}
use pulsar_client_cpp.Producer.Permits.Reserving.{Reserved, can_enqueue_request-Reserved}

handle_failed_result-Accounts :
    (p : Producer) (n cb count size : ℕ) (r : Result)
    → Accounts p (count + 1) (size + n)
    → Accounts (handle_failed_result p n cb r) count size
unfolding handle_failed_result
handle_failed_result-Accounts p n cb count size r a =
    let b = release_semaphore-Accounts p n count size a in
    record {
      permits = b.permits;
      memory_used = b.memory_used;
      memory_small = b.memory_small;
      container = b.container;
      queue = b.queue;
    }

abbrev too_big : Codec → Outgoing → Producer → Bool
too_big codec o p =
    not p.chunking_enabled
    && ltb p.max_message_size (
        (codec.metadata_size o.message
          + codec.encrypted_size o.message
              (min o.compressed_size ((0 + o.payload_chunk_size) % 2 ^ 32) - 0))
        % 2 ^ 32)

-- A message that is not chunked: its one operation, or one of the two failures.
send_single-Accounts :
    (codec : Codec) (o : Outgoing) (p : Producer) (count size : ℕ)
    → o.total_chunks ≡ 1
    → Accounts p (count + 1) (size + o.uncompressed_size)
    → Accounts (send_single codec o p) count size
unfolding send_single send_chunks
send_single-Accounts codec o p count size one a =
    rw one (elim (Bool-cases (not (codec.encrypts_chunk o.message 0))) [
      | inl broken ↦ rw broken (handle_failed_result-Accounts p _ _ count size _ a)
      | inr fine ↦ rw fine (elim (Bool-cases (too_big codec o p)) [
        | inl big ↦ rw big (handle_failed_result-Accounts p _ _ count size _ a)
        | inr fits ↦ rw fits (send_message-Accounts p _ count size refl a)
      ])
    ])

add-Accounts :
    (p : Producer) (c : BatchMessageContainer) (msg : Message) (cb count size : ℕ)
    → p.batch_message_container ≡ some c
    → Accounts p (count + 1) (size + msg.payload_length)
    → Accounts (record p { batch_message_container = some (container_add c msg cb).1 }) count size
unfolding container_add
add-Accounts p c msg cb count size e a =
    let agrees : Agrees (some c) = rw e at a.container in
    let counted : batched_count p.batch_message_container ≡ c.num_messages = ap batched_count e in
    let sized : batched_size p.batch_message_container ≡ c.size_in_bytes = ap batched_size e in
    record {
      queue = a.queue;
      permits = subst (PermitsOut p.semaphore) (omega (arith, counted)) a.permits;
      memory_used = omega (arith, sized, a.memory_used);
      memory_small = a.memory_small;
      container = (
        omega (arith, agrees, length-append c.batch_.callbacks (cb ∷ [])),
        omega (arith, agrees),
      );
    }

container-handle_op :
    (p : Producer) (op : OpSendMsg)
    → (handle_op p op).batch_message_container ≡ p.batch_message_container
unfolding handle_op send_message release_semaphore_for_send_op
container-handle_op p op = ground arith

made-empty :
    (codec : Codec) (max_size timeout now : ℕ) (c : BatchMessageContainer) (cb : Option ℕ)
    → (create_op_send_msg codec max_size timeout now c cb).1.batch_.messages ≡ []
unfolding create_op_send_msg
made-empty codec max_size timeout now c cb = refl

-- A flush leaves the producer its container, emptied if it had a message.
container-batch_message_and_send :
    (codec : Codec) (now : ℕ) (p : Producer) (c : BatchMessageContainer)
    → p.batch_message_container ≡ some c
    → (c' : BatchMessageContainer) × ((batch_message_and_send codec now p
          none).batch_message_container
        ≡ some c')
      × (((is_empty c ≡ true) × (c' ≡ c)) ⊎ (c'.batch_.messages ≡ []))
unfolding batch_message_and_send
container-batch_message_and_send codec now p c e = elim (Bool-cases (is_empty c)) [
  | inl empty ↦ (c, rw (e, batch_message_and_send) (rw empty e), inl (empty, refl))
  | inr full ↦
      let made = create_op_send_msg codec p.max_message_size p.send_timeout now c none in
      (
        made.1,
        rw (e, batch_message_and_send)
            (rw full
              (container-handle_op (record p { batch_message_container = some made.1 }) made.0)),
        inr (made-empty codec p.max_message_size p.send_timeout now c none),
      )
]

-- The codecs accept the batches that a message may be sent in, whatever sequence id it gets: with it in the
-- batch that is being filled, where there is room or that is empty, or alone; and that batch without it.
abbrev pub AcceptsSend : Codec → ℕ → Message → Option BatchMessageContainer → Type 0
AcceptsSend codec max_message_size msg none = Unit {0}
AcceptsSend codec max_message_size msg (some c) =
    Accepts codec max_message_size c.batch_.messages
    × ((number : ℕ)
        → (has_enough_space c msg || is_empty c) ≡ true
        → Accepts codec max_message_size (c.batch_.messages ++ (numbered msg number ∷ [])))
    × ((number : ℕ) → Accepts codec max_message_size (numbered msg number ∷ []))

held_of :
    (codec : Codec) (n : ℕ) (msg : Message) (o : Option BatchMessageContainer)
    → AcceptsSend codec n msg o
    → AcceptsHeld codec n o
held_of codec n msg none ok = tt
held_of codec n msg (some c) ok = ok.0

added-messages :
    (c : BatchMessageContainer) (msg : Message) (cb : ℕ)
    → (container_add c msg cb).1.batch_.messages ≡ c.batch_.messages ++ (msg ∷ [])
unfolding container_add
added-messages c msg cb = refl

join_batch-Accounts :
    (codec : Codec) (now : ℕ) (p : Producer) (msg : Message) (cb count size : ℕ)
    (c : BatchMessageContainer)
    → Accepts codec p.max_message_size (c.batch_.messages ++ (msg ∷ []))
    → p.batch_message_container ≡ some c
    → Accounts p (count + 1) (size + msg.payload_length)
    → Accounts (join_batch codec now p msg cb p.batch_message_container) count size
unfolding join_batch
join_batch-Accounts codec now p msg cb count size c ok e a =
    let added = add-Accounts p c msg cb count size e a in
    let held = subst (Accepts codec p.max_message_size) (sym (added-messages c msg cb)) ok in
    subst (λ o. Accounts (join_batch codec now p msg cb o) count size) (sym e)
      (elim (Bool-cases (container_add c msg cb).0) [
        | inl full ↦
            rw full (batch_message_and_send-Accounts codec now _ none count size held added)
        | inr room ↦ rw room added
      ])

-- The message joins a batch, which is sent before or after where it is full.
send_batched-Accounts :
    (codec : Codec) (now : ℕ) (p : Producer) (msg : Message) (number cb count size : ℕ)
    (c : BatchMessageContainer)
    → AcceptsSend codec p.max_message_size msg (some c)
    → p.batch_message_container ≡ some c
    → Accounts p (count + 1) (size + msg.payload_length)
    → Accounts (send_batched codec now p (numbered msg number) cb) count size
unfolding send_batched make_room
send_batched-Accounts codec now p msg number cb count size c (held, joined, alone) e a =
    let msg' = numbered msg number in
    rw (e, send_batched)
      (elim (Bool-cases (has_enough_space c msg')) [
        | inl room ↦ rw room (
            join_batch-Accounts codec now p msg' cb count size c
              (joined number (unfold has_enough_space in ground (arith, room))) e a)
        | inr full ↦
            let (c', e', how) = container-batch_message_and_send codec now p c e in
            let fits : Accepts codec p.max_message_size (c'.batch_.messages ++ (msg' ∷ [])) =
              elim how [
                | inl (blank, same) ↦
                    subst
                      (λ (d : BatchMessageContainer).
                        Accepts codec p.max_message_size (d.batch_.messages ++ (msg' ∷ [])))
                      (sym same) (joined number (ground (arith, blank)))
                | inr nothing ↦
                    subst
                      (λ (ms : List Message). Accepts codec p.max_message_size (ms ++ (msg' ∷ [])))
                      (sym nothing) (alone number)
              ] in
            rw full (
              join_batch-Accounts codec now (batch_message_and_send codec now p none) msg' cb count
                size c'
                (subst
                  (λ (k : Config).
                    Accepts codec k.max_message_size (c'.batch_.messages ++ (msg' ∷ [])))
                  (sym (config-batch_message_and_send codec now p none)) fits)
                e'
                (batch_message_and_send-Accounts codec now p none (count + 1)
                  (size + msg.payload_length)
                  (subst (AcceptsHeld codec p.max_message_size) (sym e) held) a))
      ])

send_unbatched-Accounts :
    (codec : Codec) (o : Outgoing) (waits : ℕ → Waits) (p : Producer) (count size : ℕ)
    → p.chunking_enabled ≡ false
    → Accounts p (count + 1) (size + o.uncompressed_size)
    → Accounts (send_unbatched codec o waits p) count size
unfolding send_unbatched
send_unbatched-Accounts codec o waits p count size n a =
    elim (Bool-cases (not p.chunking_enabled)) [
      | inl plain ↦ rw plain (
          send_single-Accounts codec
            (record o { payload_chunk_size = p.max_message_size; total_chunks = 1 }) p count size
            refl a)
      | inr chunked ↦ absurd (ground (arith, n, chunked))
    ]

batched_or_not :
    (p : Producer) (msg : Message)
    → (can_add_to_batch p msg ≡ false)
      ⊎ ((c : BatchMessageContainer) × (can_add_to_batch p msg ≡ true)
          × (p.batch_message_container ≡ some c))
batched_or_not p msg = elim (Option-cases p.batch_message_container) [
  | inl e ↦ inl (ground arith)
  | inr (c, e) ↦ elim (Bool-cases msg.has_deliver_at_time) [
    | inl d ↦ inl (ground arith)
    | inr n ↦ inr (c, ground arith, e)
  ]
]

renumber-Accounts :
    (p : Producer) (n count size : ℕ)
    → Accounts p count size
    → Accounts (record p { msg_sequence_generator = n }) count size
renumber-Accounts p n count size a = record {
  permits = a.permits;
  memory_used = a.memory_used;
  memory_small = a.memory_small;
  container = a.container;
  queue = a.queue;
}

send_reserved-Accounts :
    (codec : Codec) (now : ℕ) (p : Producer) (msg : Message) (cb count size : ℕ) (waits : ℕ → Waits)
    → AcceptsSend codec p.max_message_size msg p.batch_message_container
    → p.chunking_enabled ≡ false
    → Accounts p (count + 1) (size + msg.payload_length)
    → Accounts (send_reserved codec now p msg cb waits) count size
unfolding send_reserved
send_reserved-Accounts codec now p msg cb count size waits ok n a =
    elim (Bool-cases (not msg.has_replicated_from && msg.has_producer_name)) [
      | inl bad ↦ rw bad (handle_failed_result-Accounts p _ cb count size _ a)
      | inr good ↦ rw good (elim (batched_or_not p msg) [
        | inl alone ↦
            rw alone
              (send_unbatched-Accounts codec _ waits _ count size n (renumber-Accounts p _ _ _ a))
        | inr (c, joins, e) ↦ rw joins (
            send_batched-Accounts codec now _ msg _ cb count size c
              (subst (AcceptsSend codec p.max_message_size msg) e ok) e
              (renumber-Accounts p _ _ _ a))
      ])
    ]

pub completed-Accounts :
    (p : Producer) (cs : List Completion) (count size : ℕ)
    → Accounts p count size
    → Accounts (completed p cs) count size
completed-Accounts p cs count size a = record {
  permits = a.permits;
  memory_used = a.memory_used;
  memory_small = a.memory_small;
  container = a.container;
  queue = a.queue;
}

send_enqueued-Accounts :
    (codec : Codec) (now : ℕ) (msg : Message) (cb : ℕ) (waits : ℕ → Waits) (r : Option Result)
    (p : Producer)
    → AcceptsSend codec p.max_message_size msg p.batch_message_container
    → p.chunking_enabled ≡ false
    → Reserved msg.payload_length 0 0 (r, p)
    → Accounts (send_enqueued codec now msg cb waits (r, p)) 0 0
unfolding send_enqueued
send_enqueued-Accounts codec now msg cb waits r p ok nc (inl (e, a)) =
    rw (e, send_enqueued) (send_reserved-Accounts codec now p msg cb 0 0 waits ok nc a)
send_enqueued-Accounts codec now msg cb waits r p ok nc (inr (inl (e, a))) =
    rw (e, send_enqueued)
      (completed-Accounts _ _ 0 0 (
        batch_message_and_send-Accounts codec now p none 0 0
          (held_of codec p.max_message_size msg p.batch_message_container ok) a))
send_enqueued-Accounts codec now msg cb waits r p ok nc (inr (inr (e, a))) =
    rw (e, send_enqueued)
      (completed-Accounts _ _ 0 0 (
        batch_message_and_send-Accounts codec now p none 0 0
          (held_of codec p.max_message_size msg p.batch_message_container ok) a))

container-can_enqueue_request :
    (p : Producer) (n : ℕ) (w : Waits)
    → (can_enqueue_request p n w).1.batch_message_container ≡ p.batch_message_container
unfolding can_enqueue_request enqueue_with_permit enqueue_memory
container-can_enqueue_request p n w = ground arith

-- Whatever becomes of a message (refused for the state, the queue or the memory, invalid, too big,
-- not encrypted, joined to a batch or queued), the permits and the bytes that are out afterwards are
-- those of the queued operations and of the batch: for a producer that does not block and does not
-- chunk, with codecs that accept the batch that it is filling, that batch with the message where there
-- is room for it, and the message alone, and a usage of memory below 2 ^ 64.
pub send_async-Accounts :
    (codec : Codec) (now : ℕ) (p : Producer) (msg : Message) (cb : ℕ) (w : Waits)
    (waits : ℕ → Waits)
    → AcceptsSend codec p.max_message_size msg p.batch_message_container
    → p.block_if_queue_full ≡ false
    → p.chunking_enabled ≡ false
    → p.memory.current_usage + msg.payload_length < 2 ^ 64
    → Accounts p 0 0
    → Accounts (send_async codec now p msg cb w waits) 0 0
unfolding send_async
send_async-Accounts codec now p msg cb w waits ok nb nc small a =
    elim (Option-cases (invalid_state_result p.state)) [
      | inr (r, e) ↦ rw (e, send_async) (completed-Accounts p _ 0 0 a)
      | inl e ↦
          rw (e, send_async)
            (send_enqueued-Accounts codec now msg cb waits tried.0 tried.1
              (subst (AcceptsSend codec tried.1.max_message_size msg) (sym same_container) (
                subst
                  (λ (c : Config).
                    AcceptsSend codec c.max_message_size msg p.batch_message_container)
                  (sym same) ok))
              (ap (λ (c : Config). c.chunking_enabled) same ∙ nc)
              (can_enqueue_request-Reserved p msg.payload_length 0 0 w nb small a))
    ]
  where
    tried : Option Result × Producer
    tried = can_enqueue_request p msg.payload_length w

    same : tried.1.config ≡ p.config
    same = config-can_enqueue_request p msg.payload_length w

    same_container : tried.1.batch_message_container ≡ p.batch_message_container
    same_container = container-can_enqueue_request p msg.payload_length w
