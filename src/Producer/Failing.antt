-- ===== src/Producer/Failing.antt =====
-- How pending messages fail: `getPendingCallbacksWhenFailed`, `failPendingMessages`,
-- `handleSendTimeout` of lib/ProducerImpl.cc. The branch for a container with a batch for each key is left out.
pub mod Returns
use Prim.Native.Nat.{min}
use pulsar_client_cpp.Prelude.{
  ℕ, zero, suc, ◌+◌, ◌-◌, ◌*◌, ◌/◌, ◌%◌, ◌^◌, Bool, true, false, not, Option, none, some, List, [],
  ◌∷◌, ◌++◌, ltb, leb, ◌==◌, ◌&&◌, ◌||◌, if◌then◌else◌,
}
use pulsar_client_cpp.Result.{Result}
use pulsar_client_cpp.Semaphore
use pulsar_client_cpp.Semaphore.{Semaphore}
use pulsar_client_cpp.MemoryLimit
use pulsar_client_cpp.MemoryLimit.{MemoryLimitController}
use pulsar_client_cpp.MessageId.{default_impl, build}
use pulsar_client_cpp.Op.{
  Message, Codec, SendCallback, nobody, single, Completion, sent, flushed, OpSendMsg, complete,
  BatchMessageContainer, has_enough_space, is_empty, is_first_message_to_add, container_add,
  create_op_send_msg, add_tracker_callback,
}
use pulsar_client_cpp.Producer.{
  State, pending, ready, closing, closed, failed, producer_fenced, not_started, Producer, completed,
  release_semaphore, release_semaphore_for_send_op, send_message,
}

-- The loop over the swapped queue: the operations, and the producer with their permits released.
-- `none` is the fault of a null pointer.
unfoldable pub release_all : Producer → List (Option OpSendMsg) → Option (List OpSendMsg × Producer)
release_all p [] = some ([], p)
release_all p (none ∷ ops) = none
release_all p (some op ∷ ops) = elim (release_all (release_semaphore_for_send_op p op) ops) [
  | none ↦ none
  | some (done, p') ↦ some (op ∷ done, p')
]

-- The operation of the batch that was being filled: dropped without its callbacks if it failed.
unfoldable pub fail_batch : Codec → ℕ → List OpSendMsg → Producer → List OpSendMsg × Producer
fail_batch codec now ops p = elim p.batch_message_container [
  | none ↦ (ops, p)
  | some c ↦
      if is_empty c
      then (ops, p)
      else let (op, c') = create_op_send_msg codec p.max_message_size p.send_timeout now c none in
        let p' =
          release_semaphore_for_send_op (record p { batch_message_container = some c' }) op in
        elim op.result [ Result.ok ↦ (ops ++ (op ∷ []), p') | _ ↦ (ops, p') ]
]

unfoldable pub get_pending_callbacks_when_failed :
    Codec → ℕ → Producer → Option (List OpSendMsg × Producer)
get_pending_callbacks_when_failed codec now p =
    elim (release_all (record p { pending_messages_queue = [] }) p.pending_messages_queue) [
      | none ↦ none
      | some (ops, p') ↦ some (fail_batch codec now ops p')
    ]

unfoldable pub complete_all : Result → List OpSendMsg → List Completion
complete_all r [] = []
complete_all r (op ∷ ops) = complete op r (build default_impl) ++ complete_all r ops

unfoldable pub fail_pending_messages : Codec → ℕ → Producer → Result → Option Producer
fail_pending_messages codec now p r = elim (get_pending_callbacks_when_failed codec now p) [
  | none ↦ none
  | some (ops, p') ↦ some (completed p' (complete_all r ops))
]

-- What `handleSendTimeout` leaves: the producer and the time for which it sets the timer (`none` for
-- no timer), or the fault of a null pointer.
pub data Timer : Type 0 where
  handled : Producer → Option ℕ → Timer
  fault : Timer

-- `handleSendTimeout`, called by the timer with no error. Times are in milliseconds.
unfoldable pub handle_send_timeout : Codec → ℕ → Producer → Timer
handle_send_timeout codec now p = elim p.state [
  | pending ↦ check
  | ready ↦ check
  | _ ↦ handled p none
]
  where
    check : Timer
    check = elim p.pending_messages_queue [
      | [] ↦ handled p (some p.send_timeout)
      | none ∷ rest ↦ fault
      | some op ∷ rest ↦
          if leb op.timeout now
          then (elim (fail_pending_messages codec now p Result.timeout) [
            | none ↦ fault
            | some p' ↦ handled p' (some p.send_timeout)
          ])
          else handled p (some (op.timeout - now))
    ]
