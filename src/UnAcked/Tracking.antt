-- ===== src/UnAcked/Tracking.antt =====
-- The map and the partitions of lib/UnAckedMessageTrackerEnabled.cc, through every call.
use Prim.Native.String.{String}
use pulsar_client_cpp.Prelude.{Bool, List, [], ◌∷◌}
use pulsar_client_cpp.MessageId.{MessageIdImpl}
use pulsar_client_cpp.IdMap.{IdSet}
use pulsar_client_cpp.UnAcked.{
  UnAckedMessageTracker, add, remove, remove_list, remove_messages_till, remove_topic_message,
  clear, timeout_handler_helper, redeliver_unacknowledged_messages,
}
use pulsar_client_cpp.UnAcked.Valid.{
  IsValid, add-IsValid, remove-IsValid_lem, clear-IsValid, timeout-IsValid, redeliver-IsValid,
}
use pulsar_client_cpp.UnAcked.Removing.{remove_if-IsValid}

-- The calls of a tracker and the ticks of its timer.
pub data Event : Type 0 where
  adds removes removes_till : MessageIdImpl → Event
  removes_list : List MessageIdImpl → Event
  removes_topic : String → Event
  clears : Event
  ticks : (is_shared : Bool) → Event
  redelivers : (is_shared : Bool) → IdSet → Event

unfoldable pub step : UnAckedMessageTracker → Event → UnAckedMessageTracker
step t (adds id) = (add t id).1
step t (removes id) = (remove t id).1
step t (removes_list ids) = remove_list t ids
step t (removes_till id) = remove_messages_till t id
step t (removes_topic topic) = remove_topic_message t topic
step t clears = clear t
step t (ticks is_shared) = timeout_handler_helper is_shared t
step t (redelivers is_shared s) = redeliver_unacknowledged_messages is_shared t s

remove_list-IsValid :
    (t : UnAckedMessageTracker) (ids : List MessageIdImpl) → IsValid t → IsValid (remove_list t ids)
unfolding remove_list
remove_list-IsValid t [] v = v
remove_list-IsValid t (id ∷ ids) v =
    remove_list-IsValid (remove t id).1 ids (remove-IsValid_lem t id v)

-- Every call and every tick keeps the map and the partitions in agreement: an id that is tracked is in
-- exactly one partition, the one that the map refers to, which is still in the deque; no reference
-- of the map dangles.
pub step-IsValid : (t : UnAckedMessageTracker) (e : Event) → IsValid t → IsValid (step t e)
unfolding step remove_messages_till remove_topic_message
step-IsValid t (adds id) v = add-IsValid t id v
step-IsValid t (removes id) v = remove-IsValid_lem t id v
step-IsValid t (removes_list ids) v = remove_list-IsValid t ids v
step-IsValid t (removes_till id) v = remove_if-IsValid _ t v
step-IsValid t (removes_topic topic) v = remove_if-IsValid _ t v
step-IsValid t clears v = clear-IsValid t v
step-IsValid t (ticks is_shared) v = timeout-IsValid is_shared t v
step-IsValid t (redelivers is_shared s) v = redeliver-IsValid is_shared t s v
