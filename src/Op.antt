-- ===== src/Op.antt =====
-- What a producer sends: the message of one `send` call, lib/OpSendMsg.h, and
-- lib/MessageAndCallbackBatch.cc. Payloads are represented by their sizes, callbacks by numbers.
-- Compression, encryption and protobuf are not part of the model: what they return is a parameter.
use pulsar_client_cpp.Prelude.{
  ℕ, ◌+◌, Bool, Option, none, some, List, [], ◌∷◌, ◌++◌, length, ltb, leb, ◌==◌, ◌&&◌, ◌||◌, not,
  if◌then◌else◌,
}
use pulsar_client_cpp.Prelude.Int.{pos}
use pulsar_client_cpp.Result.{Result}
use pulsar_client_cpp.MessageId.{MessageId, build}

pub record Message : Type 0 where
  pub payload_length : ℕ
  pub sequence_id : Option ℕ
  pub has_producer_name : Bool
  pub has_replicated_from : Bool
  pub has_deliver_at_time : Bool

-- What the compression codecs, the message crypto and protobuf make of a message or of a batch.
pub record Codec : Type 0 where
  pub compressed_size : Message → ℕ
  pub metadata_size : Message → ℕ
  pub encrypts_chunk : Message → ℕ → Bool
  pub encrypted_size : Message → ℕ → ℕ
  pub encrypts_batch : List Message → Bool
  pub batch_payload_size : List Message → ℕ

-- What a `SendCallback` of an operation calls: nothing (a chunk that is not the last one), the
-- callback of one message, or those of the messages of a batch.
pub data SendCallback : Type 0 where
  nobody : SendCallback
  single : ℕ → SendCallback
  batch : List ℕ → SendCallback

pub data Completion : Type 0 where
  sent : ℕ → Result → MessageId → Completion
  flushed : ℕ → Result → Completion

-- `chunk_message_id_list` is the address of the vector that the chunks of one message share.
pub record OpSendMsg : Type 0 where
  pub result : Result
  pub chunk_id : ℕ
  pub num_chunks : ℕ
  pub messages_count : ℕ
  pub messages_size : ℕ
  pub timeout : ℕ
  pub send_callback : SendCallback
  pub tracker_callbacks : List ℕ
  pub chunk_message_id_list : Option ℕ
  pub sequence_id : ℕ

-- `completeSendCallbacks`: the i-th message of a batch of n gets the id with batch index i.
unfoldable pub complete_batch : Result → MessageId → ℕ → ℕ → List ℕ → List Completion
complete_batch r id n i [] = []
complete_batch r id n i (c ∷ cs) =
    sent c r (build (record id.impl { batch_index = pos i; batch_size = pos n }))
    ∷ complete_batch r id n (i + 1) cs

unfoldable pub complete_send_callback : SendCallback → Result → MessageId → List Completion
unfolding complete_batch
complete_send_callback nobody r id = []
complete_send_callback (single c) r id = sent c r id ∷ []
complete_send_callback (batch cs) r id = complete_batch r id (length cs) 0 cs

unfoldable pub complete_trackers : Result → List ℕ → List Completion
complete_trackers r [] = []
complete_trackers r (c ∷ cs) = flushed c r ∷ complete_trackers r cs

unfoldable pub complete : OpSendMsg → Result → MessageId → List Completion
unfolding complete_send_callback complete_trackers
complete op r id =
    complete_send_callback op.send_callback r id ++ complete_trackers r op.tracker_callbacks

unfoldable pub add_tracker_callback : OpSendMsg → Option ℕ → OpSendMsg
add_tracker_callback op none = op
add_tracker_callback op (some c) = record op {
  tracker_callbacks = op.tracker_callbacks ++ (c ∷ []);
}

-- The constructor for a failed operation. Its `sendArgs` is null; its chunk ids (-1 in the code), its
-- timeout and its sequence id are not read, since it never stands in the queue.
abbrev pub failed_op : Result → SendCallback → OpSendMsg
failed_op r callback = record {
  result = r;
  chunk_id = 0;
  num_chunks = 0;
  messages_count = 0;
  messages_size = 0;
  timeout = 0;
  send_callback = callback;
  tracker_callbacks = [];
  chunk_message_id_list = none;
  sequence_id = 0;
}

-- `MessageAndCallbackBatch`.
pub record Batch : Type 0 where
  pub messages : List Message
  pub callbacks : List ℕ
  pub messages_size : ℕ

abbrev pub empty_batch : Batch
empty_batch = record { messages = []; callbacks = []; messages_size = 0 }

unfoldable pub add_to_batch : Batch → Message → ℕ → Batch
add_to_batch b msg callback = record {
  messages = b.messages ++ (msg ∷ []);
  callbacks = b.callbacks ++ (callback ∷ []);
  messages_size = b.messages_size + msg.payload_length;
}

-- The sequence id that `serializeSingleMessagesToBatchPayload` returns: that of the last message.
-- An unset sequence id reads as 0.
unfoldable pub batch_sequence_id : List Message → ℕ
batch_sequence_id [] = 0
batch_sequence_id (m ∷ []) = elim m.sequence_id [ none ↦ 0 | some s ↦ s ]
batch_sequence_id (m ∷ n ∷ rest) = batch_sequence_id (n ∷ rest)

-- `MessageAndCallbackBatch::createOpSendMsg`: the operation, and the batch afterwards.
unfoldable pub batch_op_send_msg :
    Codec → (max_message_size send_timeout now : ℕ) → Batch → OpSendMsg × Batch
unfolding batch_sequence_id
batch_op_send_msg codec max_message_size send_timeout now b =
    if length b.callbacks == 0
    then (failed_op Result.operation_not_supported (batch b.callbacks), b)
    else if not (codec.encrypts_batch b.messages)
    then (failed_op Result.crypto_error (batch b.callbacks), b)
    else if ltb max_message_size (codec.batch_payload_size b.messages)
    then (failed_op Result.message_too_big (batch b.callbacks), b)
    else (
      record {
        result = Result.ok;
        chunk_id = 0;
        num_chunks = 0;
        messages_count = length b.callbacks;
        messages_size = b.messages_size;
        timeout = now + send_timeout;
        send_callback = batch b.callbacks;
        tracker_callbacks = [];
        chunk_message_id_list = none;
        sequence_id = batch_sequence_id b.messages;
      },
      empty_batch,
    )

-- `BatchMessageContainer`, with the counters of lib/BatchMessageContainerBase.h. The averages that
-- it only prints are left out.
pub record BatchMessageContainer : Type 0 where
  pub max_num_messages : ℕ
  pub max_size_in_bytes : ℕ
  pub num_messages : ℕ
  pub size_in_bytes : ℕ
  pub number_of_batches_sent : ℕ
  pub batch_ : Batch

unfoldable pub has_enough_space : BatchMessageContainer → Message → Bool
has_enough_space c msg =
    ltb c.num_messages c.max_num_messages
    && leb (c.size_in_bytes + msg.payload_length) c.max_size_in_bytes

unfoldable pub is_full : BatchMessageContainer → Bool
is_full c = leb c.max_num_messages c.num_messages || leb c.max_size_in_bytes c.size_in_bytes

unfoldable pub is_empty : BatchMessageContainer → Bool
is_empty c = c.num_messages == 0

unfoldable pub is_first_message_to_add : BatchMessageContainer → Bool
is_first_message_to_add c = length c.batch_.callbacks == 0

unfoldable pub update_stats : BatchMessageContainer → Message → BatchMessageContainer
update_stats c msg = record c {
  num_messages = c.num_messages + 1;
  size_in_bytes = c.size_in_bytes + msg.payload_length;
}

unfoldable pub container_add : BatchMessageContainer → Message → ℕ → Bool × BatchMessageContainer
unfolding update_stats is_full add_to_batch
container_add c msg callback =
    let c' = update_stats (record c { batch_ = add_to_batch c.batch_ msg callback }) msg in
    (is_full c', c')

unfoldable pub container_clear : BatchMessageContainer → BatchMessageContainer
container_clear c = record c {
  num_messages = 0;
  size_in_bytes = 0;
  number_of_batches_sent = c.number_of_batches_sent + 1;
  batch_ = empty_batch;
}

-- `BatchMessageContainer::createOpSendMsg`.
unfoldable pub create_op_send_msg :
    Codec
    → (max_message_size send_timeout now : ℕ) → BatchMessageContainer
    → Option ℕ
    → OpSendMsg × BatchMessageContainer
unfolding batch_op_send_msg add_tracker_callback container_clear
create_op_send_msg codec max_message_size send_timeout now c flush_callback =
    let (op, b) = batch_op_send_msg codec max_message_size send_timeout now c.batch_ in
    (add_tracker_callback op flush_callback, container_clear (record c { batch_ = b }))
