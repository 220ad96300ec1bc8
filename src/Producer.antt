-- ===== src/Producer.antt =====
-- lib/ProducerImpl.cc: what a producer keeps of the messages that wait for the broker's receipt,
-- and how it sends, times out, resends and completes them. One function call is one critical
-- section of `mutex_`; callbacks and what goes over the wire are logs in the state.
pub mod Enqueue
pub mod Batching
pub mod Send
pub mod Failing
pub mod Answers
pub mod Receipts
pub mod Permits
mod Tests
use Prim.Native.Nat.{min}
use pulsar_client_cpp.Prelude.{
  ℕ, zero, suc, ◌+◌, ◌-◌, ◌*◌, ◌/◌, ◌%◌, ◌^◌, Bool, true, false, not, Option, none, some, List, [],
  ◌∷◌, ◌++◌, ltb, leb, ◌==◌, ◌&&◌, ◌||◌, if◌then◌else◌,
}
use pulsar_client_cpp.Prelude.Int.{ℤ}
use pulsar_client_cpp.Result.{Result}
use pulsar_client_cpp.Semaphore
use pulsar_client_cpp.Semaphore.{Semaphore}
use pulsar_client_cpp.MemoryLimit
use pulsar_client_cpp.MemoryLimit.{MemoryLimitController}
use pulsar_client_cpp.MessageId.{MessageIdImpl, MessageId, default_impl, build, chunk_message_id}
use pulsar_client_cpp.Op.{
  Message, Codec, SendCallback, nobody, single, Completion, sent, flushed, OpSendMsg, complete,
  BatchMessageContainer, has_enough_space, is_empty, container_add, create_op_send_msg,
  add_tracker_callback,
}

-- `HandlerBase::State`.
pub data State : Type 0 where
  not_started pending ready closing closed failed producer_fenced : State

pub record Config : Type 0 where
  pub block_if_queue_full : Bool
  pub chunking_enabled : Bool
  pub max_message_size : ℕ
  pub send_timeout : ℕ

-- `pending_messages_queue` holds `none` where the `unique_ptr` in the queue is null.
-- `chunk_message_ids` is the heap of the vectors that chunks share, `next_list` its first free
-- address. `connected` says that `getCnx()` is alive; `wire` holds the sequence ids handed to it.
pub record Producer : Type 0 where
  pub config : Config
  pub open config use *
  pub state : State
  pub partition : ℤ
  pub semaphore : Option Semaphore
  pub memory : MemoryLimitController
  pub pending_messages_queue : List (Option OpSendMsg)
  pub batch_message_container : Option BatchMessageContainer
  pub msg_sequence_generator : ℕ
  pub last_sequence_id_published : ℕ
  pub chunk_message_ids : ℕ → List MessageIdImpl
  pub next_list : ℕ
  pub connected : Bool
  pub wire : List ℕ
  pub completions : List Completion

abbrev pub completed : Producer → List Completion → Producer
completed p cs = record p { completions = p.completions ++ cs }

-- Releasing `count` permits and `size` bytes.
abbrev pub release_semaphore_by : Option Semaphore → ℕ → Option Semaphore
release_semaphore_by none n = none
release_semaphore_by (some s) n = some (Semaphore.release s n)

unfoldable pub release_semaphore : Producer → ℕ → Producer
unfolding Semaphore.release MemoryLimit.release_memory
release_semaphore p payload_size = record p {
  semaphore = release_semaphore_by p.semaphore 1;
  memory = (MemoryLimit.release_memory p.memory payload_size).1;
}

unfoldable pub release_semaphore_for_send_op : Producer → OpSendMsg → Producer
unfolding Semaphore.release MemoryLimit.release_memory
release_semaphore_for_send_op p op = record p {
  semaphore = release_semaphore_by p.semaphore op.messages_count;
  memory = (MemoryLimit.release_memory p.memory op.messages_size).1;
}

unfoldable pub send_message : Producer → OpSendMsg → Producer
send_message p op =
    let p' = record p { pending_messages_queue = p.pending_messages_queue ++ (some op ∷ []) } in
    if p'.connected then record p' { wire = p'.wire ++ (op.sequence_id ∷ []) } else p'

-- `resendMessages`; `none` is the fault of a null pointer in the queue.
pending_sequence_ids : List (Option OpSendMsg) → Option (List ℕ)
pending_sequence_ids [] = some []
pending_sequence_ids (none ∷ ops) = none
pending_sequence_ids (some op ∷ ops) = elim (pending_sequence_ids ops) [
  | none ↦ none
  | some ids ↦ some (op.sequence_id ∷ ids)
]

unfoldable pub resend_messages : Producer → Option Producer
unfolding pending_sequence_ids
resend_messages p = elim (pending_sequence_ids p.pending_messages_queue) [
  | none ↦ none
  | some ids ↦ some (record p { wire = p.wire ++ ids })
]

abbrev pub update_list : (ℕ → List MessageIdImpl) → ℕ → List MessageIdImpl → ℕ → List MessageIdImpl
update_list lists a ids b = if b == a then ids else lists b

-- The id that completes an operation, and the shared vectors afterwards. The last chunk moves the
-- ids out of the vector.
unfoldable pub receipt_id :
    (ℕ → List MessageIdImpl) → OpSendMsg → MessageIdImpl → MessageId × (ℕ → List MessageIdImpl)
unfolding chunk_message_id
receipt_id lists op id = elim op.chunk_message_id_list [
  | none ↦ (build id, lists)
  | some a ↦
      let ids = lists a ++ (id ∷ []) in
      if op.chunk_id + 1 == op.num_chunks
      then (elim ids [ [] ↦ build id | x ∷ xs ↦ chunk_message_id x xs ], update_list lists a [])
      else (build id, update_list lists a ids)
]

-- What `ackReceived` and `removeCorruptMessage` do: return a value, or dereference a null pointer.
pub data Reply : Type 0 where
  returns : Bool → Producer → Reply
  null_dereference : Reply

-- `ackReceived`, past the check of the operation's result: the operation is taken off the queue.
unfoldable pub acknowledge :
    Producer → OpSendMsg → List (Option OpSendMsg) → ℕ → MessageIdImpl → Producer
unfolding receipt_id release_semaphore_for_send_op complete
acknowledge p op rest sequence_id id =
    let (message_id, lists) = receipt_id p.chunk_message_ids op id in
    let p' = release_semaphore_for_send_op p op in
    completed
      (record p' {
        last_sequence_id_published = (sequence_id + op.messages_count + 2 ^ 64 - 1) % 2 ^ 64;
        pending_messages_queue = rest;
        chunk_message_ids = lists;
      })
      (complete op Result.ok message_id)

unfoldable pub ack_received : Producer → ℕ → MessageIdImpl → Reply
ack_received p sequence_id raw_id = elim p.pending_messages_queue [
  | [] ↦ returns true p
  | none ∷ rest ↦ null_dereference
  | some op ∷ rest ↦ elim op.result [
    | Result.ok ↦
        if ltb op.sequence_id sequence_id
        then returns false p
        else if ltb sequence_id op.sequence_id
        then returns true p
        else returns true
            (acknowledge p op rest sequence_id (record raw_id { partition = p.partition }))
    | _ ↦ returns false p
  ]
]

-- `removeCorruptMessage`. `front().release()` leaves a null pointer at the front of the queue, and
-- the operation is destroyed where the function returns.
unfoldable pub remove_corrupt_message : Producer → ℕ → Reply
unfolding release_semaphore_for_send_op complete
remove_corrupt_message p sequence_id = elim p.pending_messages_queue [
  | [] ↦ returns true p
  | none ∷ rest ↦ null_dereference
  | some op ∷ rest ↦
      if ltb op.sequence_id sequence_id
      then returns false (record p { pending_messages_queue = none ∷ rest })
      else if ltb sequence_id op.sequence_id
      then returns true (record p { pending_messages_queue = none ∷ rest })
      else returns true (
          release_semaphore_for_send_op
            (completed (record p { pending_messages_queue = rest })
              (complete op Result.checksum_error (build default_impl)))
            op)
]
