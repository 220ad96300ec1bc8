-- ===== src/AckGrouping/Tests.antt =====
-- A tracker with a connection, and the theorems on it.
use pulsar_client_cpp.Prelude.{ℕ, refl, inr, true, false, none, some, List, [], ◌∷◌}
use pulsar_client_cpp.Prelude.Int.{pos}
use pulsar_client_cpp.Result.{Result}
use pulsar_client_cpp.MessageId.{MessageIdImpl, default_impl}
use pulsar_client_cpp.AckGrouping.{AckGroupingTracker}
use pulsar_client_cpp.AckGrouping.Callbacks.{IsPlain}
use pulsar_client_cpp.AckGrouping.Callbacks.Conservation.{
  Event, adds, adds_cumulative, flushes, responds,
}

abbrev id : ℕ → MessageIdImpl
id n = record default_impl { ledger_id = pos 1; entry_id = pos n }

abbrev tracker : AckGroupingTracker
tracker = record {
  wait_response = true;
  ack_grouping_max_size = 2;
  connection = some true;
  next_cumulative_ack = default_impl;
  require_cumulative_ack = false;
  latest_cumulative_callback = none;
  pending_individual_acks = [];
  pending_individual_callbacks = [];
  counters = λ a. 0;
  next_counter = 0;
  sent = [];
  requests = [];
  completed = [];
}

tracker-IsPlain : IsPlain tracker
tracker-IsPlain = record { multi_message = λ h. cc; requests = refl; required = inr refl }

abbrev waiting : AckGroupingTracker
waiting = record tracker {
  pending_individual_acks = (id 3, []) ∷ [];
  pending_individual_callbacks = 7 ∷ [];
}

waiting-IsPlain : IsPlain waiting
waiting-IsPlain = record { multi_message = λ h. cc; requests = refl; required = inr refl }

abbrev some_events : List Event
some_events =
    adds (record { impl = id 1; chunked_message_ids = [] }) 5
    ∷ adds_cumulative (id 4) 6
    ∷ adds (record { impl = id 9; chunked_message_ids = id 7 ∷ id 8 ∷ [] }) 5
    ∷ flushes
    ∷ responds Result.ok
    ∷ []
