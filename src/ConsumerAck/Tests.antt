-- ===== src/ConsumerAck/Tests.antt =====
-- A consumer with a batch of three messages, and the theorems on it.
use pulsar_client_cpp.Prelude.{
  occurrences, ℕ, ◌+◌, ◌≡◌, refl, ◌⊎◌, inl, inr, true, false, not, ◌&&◌, none, some, ltb, ◌==◌,
  List, [], ◌∷◌, ◌++◌, arith,
}
use pulsar_client_cpp.Prelude.Int.{pos}
use pulsar_client_cpp.Result.{Result}
use pulsar_client_cpp.MessageId.{default_impl, build, discard_batch}
use pulsar_client_cpp.IdMap.{find}
use pulsar_client_cpp.BatchAck.{full}
use pulsar_client_cpp.BatchAck.Coverage.{Holds, full-Holds}
use pulsar_client_cpp.UnAcked
use pulsar_client_cpp.UnAcked.Valid.{new-IsValid}
use pulsar_client_cpp.NegativeAcks
use pulsar_client_cpp.AckGrouping.{AckGroupingTracker}
use pulsar_client_cpp.AckGrouping.Callbacks.{IsPlain, owed}
use pulsar_client_cpp.AckGrouping.Callbacks.EmptyList.{flush_times}
use pulsar_client_cpp.ConsumerAck.{
  shared, ReceivedId, Consumer, acknowledge_async, acknowledge_list_async,
}
use pulsar_client_cpp.ConsumerAck.Invariants.{
  IsSound, Event, acknowledges, acknowledges_list, refuses, receives, reopens, ticks, flushes,
  responds, run, all_given, run-IsSound,
}
use pulsar_client_cpp.ConsumerAck.Batches.{batch_tracked, list_of_one_waits}

abbrev grouping : AckGroupingTracker
grouping = record {
  wait_response = true;
  ack_grouping_max_size = 2;
  connection = some true;
  next_cumulative_ack = default_impl;
  require_cumulative_ack = false;
  latest_cumulative_callback = none;
  pending_individual_acks = [];
  pending_individual_callbacks = [];
  counters = λ a. 0;
  next_counter = 0;
  sent = [];
  requests = [];
  completed = [];
}

grouping-IsPlain : IsPlain grouping
grouping-IsPlain = record { multi_message = λ h. cc; requests = refl; required = inr refl }

-- The store has an acker of a batch of three messages at every address.
abbrev consumer : Consumer
consumer = record {
  consumer_type = shared;
  batch_index_ack_enabled = false;
  un_acked = UnAcked.new 20 10;
  ack_grouping = grouping;
  negative_acks = NegativeAcks.new 500;
  possible_dead_letters = [];
  ackers = λ a. full 3;
}

consumer-IsSound : IsSound consumer
unfolding NegativeAcks.new
consumer-IsSound = record {
  un_acked = new-IsValid 20 10;
  ack_grouping = grouping-IsPlain;
  negative_acks = record { apart = tt; timed = inr (inr (inl refl)) };
}

-- Message `n` of the batch.
abbrev message : ℕ → ReceivedId
message n = record {
  id = build (record default_impl {
    ledger_id = pos 1;
    entry_id = pos 5;
    batch_index = pos n;
    batch_size = pos 3;
  });
  batched = some (n, 0);
}

abbrev some_events : List Event
some_events =
    acknowledges (message 0) 4
    ∷ acknowledges_list (message 1 ∷ message 2 ∷ []) 5
    ∷ refuses (message 1).id.impl 30
    ∷ receives (message 3).id.impl
    ∷ ticks
    ∷ reopens
    ∷ flushes
    ∷ responds Result.ok
    ∷ []

run-IsSound_example :
    IsSound (run consumer some_events)
    × (owed 5 (run consumer some_events).ack_grouping
        ≡ owed 5 consumer.ack_grouping + occurrences 5 (all_given some_events))
run-IsSound_example = run-IsSound some_events consumer 5 consumer-IsSound

batch_tracked_example :
    let c' = acknowledge_async consumer (message 1) 4 in
    let left = λ (x : ℕ). ltb x 3 && not (x == 1) in
    Holds (c'.ackers 0) left
    × ((((x : ℕ) → left x ≡ false)
          × (find (discard_batch (message 1).id.impl) c'.un_acked.message_id_partition_map ≡ none))
        ⊎ (((x : ℕ) × (left x ≡ true)) × (c'.un_acked ≡ consumer.un_acked)))
batch_tracked_example =
    batch_tracked consumer (message 1) 4 1 0 (λ x. ltb x 3) refl refl (full-Holds 3 (omega arith))

list_of_one_waits_example :
    ((flush_times 7 (acknowledge_list_async consumer (message 1 ∷ []) 4).ack_grouping
        ).pending_individual_callbacks
      ≡ consumer.ack_grouping.pending_individual_callbacks ++ (4 ∷ []))
    × ((acknowledge_async consumer (message 1) 4).ack_grouping.completed
        ≡ consumer.ack_grouping.completed ++ ((4, Result.ok) ∷ []))
list_of_one_waits_example =
    list_of_one_waits 7 consumer (message 1) 4 1 0 2 (λ x. ltb x 3) refl refl
      (full-Holds 3 (omega arith)) refl grouping-IsPlain refl refl
