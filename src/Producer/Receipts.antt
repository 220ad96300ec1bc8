-- ===== src/Producer/Receipts.antt =====
-- What the broker's receipts do to the queue of pending messages.
use pulsar_client_cpp.Prelude.{
  ℕ, ◌+◌, ◌-◌, ◌*◌, ◌^◌, ◌<◌, ◌≡◌, refl, sym, ◌∙◌, ◌⊎◌, ◌≢◌, Bool, true, false, Option, none, some,
  List, [], ◌∷◌, ◌++◌, length, arith,
}
use pulsar_client_cpp.Result.{Result}
use pulsar_client_cpp.MessageId.{MessageIdImpl, MessageId, build}
use mathlib.Core.Path.{ap₂}
use mathlib.Core.List.{append-nil, append_assoc}
use pulsar_client_cpp.Prelude.Int.{ℤ}
use pulsar_client_cpp.Op.{Message, Completion, OpSendMsg, complete, batch_sequence_id}
use pulsar_client_cpp.Producer.Answers.{
  Answers, append-Answers, complete-Answers, all_given, ids_given,
}
use pulsar_client_cpp.Producer.{
  Producer, release_semaphore_for_send_op, receipt_id, returns, null_dereference, acknowledge,
  ack_received, remove_corrupt_message, resend_messages,
}

-- The receipts that a broker sends for the messages in the queue, in order: `ackReceived` on each.
-- `none` where it refuses one or reads a null pointer.
abbrev pub ack_all : Producer → List (ℕ × MessageIdImpl) → Option Producer
ack_all p [] = some p
ack_all p ((n, id) ∷ acks) = elim (ack_received p n id) [
  | returns true p' ↦ ack_all p' acks
  | returns false p' ↦ none
  | null_dereference ↦ none
]

-- With an operation that has not failed at the front of the queue, a receipt with its sequence
-- id acknowledges it; one with a lower id is ignored, and one with a higher id is refused, with
-- the producer left as it was in both cases.
pub ack_received_cases :
    (p : Producer) (op : OpSendMsg) (rest : List (Option OpSendMsg)) (n : ℕ) (id : MessageIdImpl)
    → p.pending_messages_queue ≡ some op ∷ rest
    → op.result ≡ Result.ok
    → ((op.sequence_id < n) × (ack_received p n id ≡ returns false p))
      ⊎ ((n < op.sequence_id) × (ack_received p n id ≡ returns true p))
      ⊎ ((n ≡ op.sequence_id)
          × (ack_received p n id
              ≡ returns true (acknowledge p op rest n (record id { partition = p.partition }))))
unfolding ack_received
ack_received_cases p op rest n id e r = ground arith

-- After `removeCorruptMessage` for a sequence id that is not the front message's, `ackReceived`
-- dereferences a null pointer whatever receipt comes, and so does `resendMessages`.
pub remove_corrupt_message_poisons :
    (p p' : Producer) (op : OpSendMsg) (rest : List (Option OpSendMsg)) (n m : ℕ) (b : Bool)
    (id : MessageIdImpl)
    → p.pending_messages_queue ≡ some op ∷ rest
    → n ≢ op.sequence_id
    → remove_corrupt_message p n ≡ returns b p'
    → (ack_received p' m id ≡ null_dereference) × (resend_messages p' ≡ none)
unfolding remove_corrupt_message ack_received resend_messages
remove_corrupt_message_poisons p p' op rest n m b id e ne r = ground arith

ack_received_front :
    (p : Producer) (op : OpSendMsg) (rest : List (Option OpSendMsg)) (id : MessageIdImpl)
    → p.pending_messages_queue ≡ some op ∷ rest
    → op.result ≡ Result.ok
    → ack_received p op.sequence_id id
      ≡ returns true (acknowledge p op rest op.sequence_id (record id { partition = p.partition }))
ack_received_front p op rest id e r =
    ground (arith, ack_received_cases p op rest op.sequence_id id e r)

-- Operations that are not chunks of a larger message, with the ids that the broker gives them.
abbrev pub Plain : List (OpSendMsg × MessageIdImpl) → Type 0
Plain [] = Unit {0}
Plain ((op, id) ∷ ops) = (op.result ≡ Result.ok) × (op.chunk_message_id_list ≡ none) × Plain ops

abbrev pub queue_of : List (OpSendMsg × MessageIdImpl) → List (Option OpSendMsg)
queue_of [] = []
queue_of ((op, id) ∷ ops) = some op ∷ queue_of ops

abbrev pub receipts_of : List (OpSendMsg × MessageIdImpl) → List (ℕ × MessageIdImpl)
receipts_of [] = []
receipts_of ((op, id) ∷ ops) = (op.sequence_id, id) ∷ receipts_of ops

abbrev answers_of : ℤ → List (OpSendMsg × MessageIdImpl) → List Completion
answers_of partition [] = []
answers_of partition ((op, id) ∷ ops) =
    complete op Result.ok (build (record id { partition = partition })) ++ answers_of partition ops

abbrev pub ops_of : List (OpSendMsg × MessageIdImpl) → List OpSendMsg
ops_of [] = []
ops_of ((op, id) ∷ ops) = op ∷ ops_of ops

-- The ids that the callbacks of messages are to get: the broker's, in the producer's partition.
abbrev pub ids_in : ℤ → List (OpSendMsg × MessageIdImpl) → List MessageId
ids_in partition [] = []
ids_in partition ((op, id) ∷ ops) =
    ids_given op.send_callback (build (record id { partition = partition })) ++ ids_in partition ops

answers_of-Answers :
    (partition : ℤ) (ops : List (OpSendMsg × MessageIdImpl))
    → Answers (answers_of partition ops) Result.ok (all_given (ops_of ops)) (ids_in partition ops)
answers_of-Answers partition [] = record { called = refl; ended = tt; told = refl }
answers_of-Answers partition ((op, id) ∷ ops) =
    append-Answers Result.ok _ _ _ _ _ _
      (complete-Answers op Result.ok (build (record id { partition = partition })))
      (answers_of-Answers partition ops)

acknowledge_fields :
    (p : Producer) (op : OpSendMsg) (rest : List (Option OpSendMsg)) (n : ℕ) (id : MessageIdImpl)
    → op.chunk_message_id_list ≡ none
    → let p' = acknowledge p op rest n id in
      (p'.pending_messages_queue ≡ rest)
      × (p'.partition ≡ p.partition)
      × (p'.completions ≡ p.completions ++ complete op Result.ok (build id))
unfolding acknowledge receipt_id release_semaphore_for_send_op
acknowledge_fields p op rest n id e = (refl, refl, rw (e, receipt_id))

receipts_answers :
    (p : Producer) (ops : List (OpSendMsg × MessageIdImpl))
    → Plain ops
    → p.pending_messages_queue ≡ queue_of ops
    → (p' : Producer) × (ack_all p (receipts_of ops) ≡ some p')
      × (p'.pending_messages_queue ≡ [])
      × (p'.completions ≡ p.completions ++ answers_of p.partition ops)
receipts_answers p [] plain e = (p, refl, e, sym (append-nil p.completions))
receipts_answers p ((op, id) ∷ ops) plain e =
    let here =
      acknowledge_fields p op (queue_of ops) op.sequence_id (record id { partition = p.partition })
        plain.1 in
    let after =
      acknowledge p op (queue_of ops) op.sequence_id (record id { partition = p.partition }) in
    let (p', went, empty, all) = receipts_answers after ops plain.2 here.0 in
    (
      p',
      rw (ack_received_front p op (queue_of ops) id e plain.0, ack_all) went,
      empty,
      all ∙ ap₂ (λ cs q. cs ++ answers_of q ops) here.2 here.1 ∙ append_assoc p.completions _ _,
    )

-- When the broker acknowledges the queued messages, none of them a chunk, in the order in which they
-- were sent, each receipt is taken and the queue is empty; of the callbacks that the operations were given,
-- for their messages and for flushes, each is called once, in that order, with success; and the callbacks
-- of messages get the broker's ids in the producer's partition, those of a batch with their places in it.
pub receipts_in_order :
    (p : Producer) (ops : List (OpSendMsg × MessageIdImpl))
    → Plain ops
    → p.pending_messages_queue ≡ queue_of ops
    → (p' : Producer) × (done : List Completion) × (ack_all p (receipts_of ops) ≡ some p')
      × (p'.pending_messages_queue ≡ [])
      × (p'.completions ≡ p.completions ++ done)
      × Answers done Result.ok (all_given (ops_of ops)) (ids_in p.partition ops)
receipts_in_order p ops plain e =
    let (p', went, empty, all) = receipts_answers p ops plain e in
    (p', answers_of p.partition ops, went, empty, all, answers_of-Answers p.partition ops)

-- The messages of a batch, numbered one after the other from `first`.
abbrev pub Numbered : ℕ → List Message → Type 0
Numbered first [] = Unit {0}
Numbered first (m ∷ ms) = (m.sequence_id ≡ some first) × Numbered (first + 1) ms

batch_sequence_id-Numbered :
    (first : ℕ) (m : Message) (ms : List Message)
    → Numbered first (m ∷ ms)
    → batch_sequence_id (m ∷ ms) ≡ first + length ms
unfolding batch_sequence_id
batch_sequence_id-Numbered first m [] n = ground arith
batch_sequence_id-Numbered first m (k ∷ ms) n =
    omega (arith, batch_sequence_id-Numbered (first + 1) k ms n.1)

-- The sequence id of a batch is that of its last message, and the receipt of a batch adds its size
-- to it: after the receipt of n messages numbered from `first`, the last published sequence id is
-- first + 2n - 2, past the last message's by n - 1.
pub batch_receipt_overshoots :
    (p : Producer) (op : OpSendMsg) (rest : List (Option OpSendMsg)) (id : MessageIdImpl)
    (first : ℕ) (m : Message) (ms : List Message)
    → Numbered first (m ∷ ms)
    → op.sequence_id ≡ batch_sequence_id (m ∷ ms)
    → op.messages_count ≡ length (m ∷ ms)
    → first + 2 * length ms < 2 ^ 64
    → (acknowledge p op rest op.sequence_id id).last_sequence_id_published
      ≡ first + 2 * length (m ∷ ms) - 2
unfolding acknowledge
batch_receipt_overshoots p op rest id first m ms n s c small =
    omega (arith, batch_sequence_id-Numbered first m ms n, s, c)
