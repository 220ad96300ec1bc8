-- ===== src/Producer/Batching.antt =====
-- Batches: `batchMessageAndSend`, `flushAsync` and `triggerFlush` of lib/ProducerImpl.cc.
-- The producer has a container of one batch; the branches for the container of lib/BatchMessageKeyBasedContainer.cc
-- (`hasMultiOpSendMsgs`) are left out.
use pulsar_client_cpp.Prelude.{ℕ, Option, none, some, List, [], ◌∷◌, if◌then◌else◌}
use pulsar_client_cpp.Result.{Result}
use pulsar_client_cpp.MessageId.{default_impl, build}
use pulsar_client_cpp.Op.{
  Codec, flushed, OpSendMsg, complete, is_empty, create_op_send_msg, add_tracker_callback,
}
use pulsar_client_cpp.Producer.{
  pending, ready, Producer, completed, release_semaphore_for_send_op, send_message,
}

-- `handleOp` in `batchMessageAndSend`. The failures are completed by every caller directly
-- afterwards.
unfoldable pub handle_op : Producer → OpSendMsg → Producer
handle_op p op = elim op.result [
  | Result.ok ↦ send_message p op
  | _ ↦ completed (release_semaphore_for_send_op p op) (complete op op.result (build default_impl))
]

unfoldable pub batch_message_and_send : Codec → ℕ → Producer → Option ℕ → Producer
batch_message_and_send codec now p flush_callback = elim p.batch_message_container [
  | none ↦ p
  | some c ↦
      if is_empty c
      then p
      else let (op, c') =
          create_op_send_msg codec p.max_message_size p.send_timeout now c flush_callback in
        handle_op (record p { batch_message_container = some c' }) op
]

-- `addCallbackToLastOp` in `flushAsync`: `none` where the queue is empty. The fault of a null
-- pointer at its end is left as a callback that is never called.
unfoldable pub track_last : ℕ → List (Option OpSendMsg) → Option (List (Option OpSendMsg))
track_last cb [] = none
track_last cb (none ∷ []) = some (none ∷ [])
track_last cb (some op ∷ []) = some (some (add_tracker_callback op (some cb)) ∷ [])
track_last cb (x ∷ y ∷ ops) = elim (track_last cb (y ∷ ops)) [
  | none ↦ none
  | some ops' ↦ some (x ∷ ops')
]

unfoldable pub flush_pending : Producer → ℕ → Producer
flush_pending p callback = elim (track_last callback p.pending_messages_queue) [
  | some ops ↦ record p { pending_messages_queue = ops }
  | none ↦ completed p (flushed callback Result.ok ∷ [])
]

unfoldable pub flush_async : Codec → ℕ → Producer → ℕ → Producer
flush_async codec now p callback = elim p.state [
  | ready ↦ elim p.batch_message_container [
    | none ↦ flush_pending p callback
    | some c ↦
        if is_empty c
        then flush_pending p callback
        else batch_message_and_send codec now p (some callback)
  ]
  | _ ↦ completed p (flushed callback Result.already_closed ∷ [])
]

unfoldable pub trigger_flush : Codec → ℕ → Producer → Producer
trigger_flush codec now p = elim p.state [ ready ↦ batch_message_and_send codec now p none | _ ↦ p ]

-- The timer of the batch, which the first message of a batch sets, with no error.
unfoldable pub handle_batch_timer : Codec → ℕ → Producer → Producer
handle_batch_timer codec now p = elim p.state [
  | ready ↦ batch_message_and_send codec now p none
  | pending ↦ batch_message_and_send codec now p none
  | _ ↦ p
]
