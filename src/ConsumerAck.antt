-- ===== src/ConsumerAck.antt =====
-- lib/ConsumerImpl.cc: how a consumer acknowledges, singly, by lists and cumulatively, with its
-- trackers, and how it refuses. The ackers that ids of one batch share stand in a store; statistics
-- and interceptors are left out. The callbacks that the consumer calls itself go into the log of its
-- grouping tracker.
pub mod Invariants
pub mod Batches
mod Tests
use pulsar_client_cpp.Prelude.{
  ℕ, ◌+◌, Bool, true, false, not, ◌&&◌, Option, none, some, List, [], ◌∷◌, ◌++◌, ◌==◌,
  if◌then◌else◌,
}
use pulsar_client_cpp.Prelude.Int.{ℤ, pos, negsuc, ◌-ℤ◌}
use pulsar_client_cpp.Result.{Result}
use pulsar_client_cpp.MessageId.{MessageIdImpl, MessageId, build, default_impl, discard_batch, eq}
use pulsar_client_cpp.BatchAck.{
  BatchMessageAcker, ack_individual, ack_cumulative, should_ack_previous_message_id,
}
use pulsar_client_cpp.UnAcked.{UnAckedMessageTracker, remove, remove_messages_till}
use pulsar_client_cpp.NegativeAcks.{NegativeAcksTracker, add}
use pulsar_client_cpp.AckGrouping.{
  AckGroupingTracker, complete, add_acknowledge, add_acknowledge_list, add_acknowledge_cumulative,
}

pub data ConsumerType : Type 0 where
  exclusive shared failover key_shared : ConsumerType

-- A message id as the application has it: a batched one with its place in the batch and the address
-- of the acker.
pub record ReceivedId : Type 0 where
  pub id : MessageId
  pub batched : Option (ℕ × ℕ)

pub record Consumer : Type 0 where
  pub consumer_type : ConsumerType
  pub batch_index_ack_enabled : Bool
  pub un_acked : UnAckedMessageTracker
  pub ack_grouping : AckGroupingTracker
  pub negative_acks : NegativeAcksTracker
  pub possible_dead_letters : List MessageIdImpl
  pub ackers : ℕ → BatchMessageAcker

abbrev pub write : (ℕ → BatchMessageAcker) → ℕ → BatchMessageAcker → ℕ → BatchMessageAcker
write store a acker b = if b == a then acker else store b

-- `possibleSendToDeadLetterTopicMessages_.remove`.
abbrev pub remove_id : MessageIdImpl → List MessageIdImpl → List MessageIdImpl
remove_id id [] = []
remove_id id (x ∷ xs) = let rest = remove_id id xs in if eq x id then rest else x ∷ rest

-- `!batchedMessageIdImpl || batchedMessageIdImpl->ackIndividual(messageId.batchIndex())`, and the
-- same with `ackCumulative`.
abbrev pub ack_with :
    (BatchMessageAcker → ℕ → Bool × BatchMessageAcker) → Consumer → ReceivedId → Bool × Consumer
ack_with ack c m = elim m.batched [
  | none ↦ (true, c)
  | some (index, address) ↦
      let (done, acker) = ack (c.ackers address) index in
      (done, record c { ackers = write c.ackers address acker })
]

-- The id to acknowledge, if one is ready.
unfoldable pub prepare_individual_ack : Consumer → ReceivedId → Option MessageId × Consumer
unfolding ack_individual remove discard_batch
prepare_individual_ack c m =
    let (done, c') = ack_with ack_individual c m in
    if done
    then (
      some (elim m.id.chunked_message_ids [ [] ↦ build (discard_batch m.id.impl) | x ∷ xs ↦ m.id ]),
      record c' {
        un_acked = (remove c'.un_acked m.id.impl).1;
        possible_dead_letters = remove_id m.id.impl c'.possible_dead_letters;
      },
    )
    else if c.batch_index_ack_enabled
    then (some m.id, c')
    else (none, c')

-- `getPreviousMessageId`.
unfoldable pub get_previous_message_id : MessageIdImpl → MessageId
get_previous_message_id m = build (record default_impl {
  ledger_id = m.ledger_id;
  entry_id = m.entry_id -ℤ pos 1;
  partition = m.partition;
})

unfoldable pub prepare_cumulative_ack : Consumer → ReceivedId → Option MessageId × Consumer
unfolding ack_cumulative should_ack_previous_message_id get_previous_message_id discard_batch
prepare_cumulative_ack c m =
    let (done, c') = ack_with ack_cumulative c m in
    if done
    then (some (build (discard_batch m.id.impl)), c')
    else if c.batch_index_ack_enabled
    then (some m.id, c')
    else (elim m.batched [
      | none ↦ (none, c')
      | some (index, address) ↦
          let (should, acker) = should_ack_previous_message_id (c'.ackers address) in
          let c'' = record c' { ackers = write c'.ackers address acker } in
          (if should then some (get_previous_message_id m.id.impl) else none, c'')
    ])

-- What `acknowledgeAsync` does with a prepared id, or with none.
unfoldable pub finish_individual : Consumer → Option MessageId → ℕ → Consumer
unfolding add_acknowledge
finish_individual c none callback = record c {
  ack_grouping = complete c.ack_grouping (callback ∷ []) Result.ok;
}
finish_individual c (some id) callback = record c {
  ack_grouping = add_acknowledge c.ack_grouping id callback;
}

unfoldable pub acknowledge_async : Consumer → ReceivedId → ℕ → Consumer
unfolding prepare_individual_ack finish_individual
acknowledge_async c m callback =
    let (ready, c') = prepare_individual_ack c m in finish_individual c' ready callback

-- The loop of `acknowledgeAsync` over a list: the ids that are ready, in order.
unfoldable pub prepare_list : Consumer → List ReceivedId → List MessageId × Consumer
unfolding prepare_individual_ack
prepare_list c [] = ([], c)
prepare_list c (m ∷ ms) =
    let (ready, c') = prepare_individual_ack c m in
    let (ids, c'') = prepare_list c' ms in (elim ready [ some id ↦ id ∷ ids | none ↦ ids ], c'')

unfoldable pub acknowledge_list_async : Consumer → List ReceivedId → ℕ → Consumer
unfolding prepare_list add_acknowledge_list
acknowledge_list_async c ms callback =
    let (ids, c') = prepare_list c ms in
    record c' { ack_grouping = add_acknowledge_list c'.ack_grouping ids callback }

abbrev pub is_cumulative_acknowledgement_allowed : ConsumerType → Bool
is_cumulative_acknowledgement_allowed exclusive = true
is_cumulative_acknowledgement_allowed shared = false
is_cumulative_acknowledgement_allowed failover = true
is_cumulative_acknowledgement_allowed key_shared = false

-- What `acknowledgeCumulativeAsync` does with a prepared id, or with none.
unfoldable pub finish_cumulative : Consumer → Option MessageId → ℕ → Consumer
unfolding remove_messages_till add_acknowledge_cumulative
finish_cumulative c none callback = record c {
  ack_grouping = complete c.ack_grouping (callback ∷ []) Result.ok;
}
finish_cumulative c (some id) callback = record c {
  un_acked = remove_messages_till c.un_acked id.impl;
  ack_grouping = add_acknowledge_cumulative c.ack_grouping id.impl callback;
}

unfoldable pub acknowledge_cumulative_async : Consumer → ReceivedId → ℕ → Consumer
unfolding prepare_cumulative_ack finish_cumulative
acknowledge_cumulative_async c m callback =
    if not (is_cumulative_acknowledgement_allowed c.consumer_type)
    then record c {
      ack_grouping =
          complete c.ack_grouping (callback ∷ [])
            Result.cumulative_acknowledgement_not_allowed_error;
    }
    else (let (ready, c') = prepare_cumulative_ack c m in finish_cumulative c' ready callback)

unfoldable pub negative_acknowledge : Consumer → MessageIdImpl → ℕ → Consumer
unfolding remove add
negative_acknowledge c id now = record c {
  un_acked = (remove c.un_acked id).1;
  negative_acks = add c.negative_acks id now;
}
