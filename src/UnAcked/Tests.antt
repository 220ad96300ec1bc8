-- ===== src/UnAcked/Tests.antt =====
-- A tracker with three partitions, and the theorems on it.
use pulsar_client_cpp.Prelude.{ℕ, ◌+◌, ◌≡◌, refl, true, none, some, [], ◌∷◌, ◌++◌}
use pulsar_client_cpp.Prelude.Int.{pos}
use pulsar_client_cpp.MessageId.{MessageIdImpl, default_impl, lt, discard_batch}
use pulsar_client_cpp.IdMap.{IdSet, find, place, emplace, same, contains}
use pulsar_client_cpp.UnAcked.{UnAckedMessageTracker, new, blank_partitions, insert_back, add}
use pulsar_client_cpp.UnAcked.Valid.{IsValid, new-IsValid}
use pulsar_client_cpp.UnAcked.Tracking.{adds, step, step-IsValid}
use pulsar_client_cpp.UnAcked.Ticks.{tick, ticks_redeliver}

abbrev id : ℕ → MessageIdImpl
id n = record default_impl { ledger_id = pos 1; entry_id = pos n }

abbrev empty : UnAckedMessageTracker
empty = new 20 10

abbrev tracker : UnAckedMessageTracker
tracker = step empty (adds (id 1))

tracker-IsValid : IsValid tracker
tracker-IsValid = step-IsValid empty (adds (id 1)) (new-IsValid 20 10)

ticks_redeliver_example :
    (find (id 1) (tick true 2 tracker).message_id_partition_map ≡ some (tracker.head + 2))
    × (find (id 1) (tick true 3 tracker).message_id_partition_map ≡ none)
    × ((s : IdSet) × ((tick true 3 tracker).redelivered
          ≡ (tick true 2 tracker).redelivered ++ (s ∷ []))
        × (contains (id 1) s ≡ true))
unfolding step add new blank_partitions find place emplace same lt discard_batch insert_back
ticks_redeliver_example = ticks_redeliver 2 tracker (id 1) tracker-IsValid refl
