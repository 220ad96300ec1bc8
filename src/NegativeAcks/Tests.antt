-- ===== src/NegativeAcks/Tests.antt =====
-- A tracker with two refused messages, and the theorems on it.
use pulsar_client_cpp.Prelude.{
  ℕ, ◌≡◌, refl, ◌⊎◌, inr, true, false, none, [], ◌∷◌, ◌++◌, if◌then◌else◌,
}
use pulsar_client_cpp.Prelude.Int.{pos}
use pulsar_client_cpp.MessageId.{MessageIdImpl, default_impl, lt}
use pulsar_client_cpp.IdMap.{IdSet, find, same, contains}
use pulsar_client_cpp.IdMap.Apart.{AllApart}
use pulsar_client_cpp.NegativeAcks.{NegativeAcksTracker, handle_timer}
use pulsar_client_cpp.NegativeAcks.Deadlines.{is_past, IsTimed, handle_timer_splits}

abbrev id : ℕ → MessageIdImpl
id n = record default_impl { ledger_id = pos 1; entry_id = pos n }

abbrev tracker : NegativeAcksTracker
tracker = record {
  nack_delay = 100;
  timer_interval = 33;
  nacked_messages = (id 1, 150) ∷ (id 2, 250) ∷ [];
  closed = false;
  enabled_for_testing = true;
  scheduled = true;
  redelivered = [];
}

tracker-AllApart : AllApart tracker.nacked_messages
unfolding find same lt
tracker-AllApart = (refl, (refl, tt))

tracker-IsTimed : IsTimed tracker
tracker-IsTimed = record { apart = tracker-AllApart; timed = inr (inr (inr refl)) }

handle_timer_splits_example :
    let t' = handle_timer tracker 200 in
    (find (id 1) t'.nacked_messages ≡ (
      if is_past 200 (find (id 1) tracker.nacked_messages)
      then none
      else find (id 1) tracker.nacked_messages))
    × (((expired : IdSet) × (t'.redelivered ≡ tracker.redelivered ++ (expired ∷ []))
          × (contains (id 1) expired ≡ is_past 200 (find (id 1) tracker.nacked_messages)))
        ⊎ ((t'.redelivered ≡ tracker.redelivered)
            × (is_past 200 (find (id 1) tracker.nacked_messages) ≡ false)))
handle_timer_splits_example = handle_timer_splits tracker 200 (id 1) tracker-AllApart refl
