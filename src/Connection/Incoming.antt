-- ===== src/Connection/Incoming.antt =====
-- lib/ClientConnection.cc: the other answers of the broker, the commands that it sends by itself, the
-- keep-alive probes, and the events of a connection that is made.
use pulsar_client_cpp.Prelude.{ℕ, ◌+◌, ◌-◌, Bool, true, false, List, [], ◌∷◌, ◌++◌, if◌then◌else◌}
use pulsar_client_cpp.Result.{Result}
use pulsar_client_cpp.Connection.{
  State, pending, tcp_connected, ready, disconnected, Connection, is_closed, contains, erase,
  complete, close, skip_id, send_request_with_id, new_lookup, new_consumer_stats,
  new_get_last_message_id, new_get_topics_of_namespace, new_get_schema, handle_request_timeout,
  handle_lookup_timeout, handle_get_last_message_id_timeout, handle_get_schema_timeout,
  handle_success, handle_producer_success, handle_ack_response,
}

-- The errors of a broker, by what `checkServerError` makes of them: `service_not_ready` says whether its
-- message is one of the typical ones.
pub data ServerError : Type 0 where
  service_not_ready : Bool → ServerError
  too_many_requests other_error : ServerError

unfoldable pub check_server_error : Connection → ServerError → Connection
check_server_error c (service_not_ready typical) =
    if typical then c else close c Result.disconnected
check_server_error c too_many_requests = close c Result.disconnected
check_server_error c other_error = c

-- The answer to a lookup, or to a request of the partitions.
pub data LookupAnswer : Type 0 where
  found no_error : LookupAnswer
  failed : ServerError → Result → LookupAnswer

abbrev pub finish_lookup : Connection → ℕ → LookupAnswer → Connection
finish_lookup c id found = complete c id Result.ok
finish_lookup c id no_error = complete c id Result.connect_error
finish_lookup c id (failed error result) = complete (check_server_error c error) id result

unfoldable pub handle_lookup_topic_respose : Connection → ℕ → LookupAnswer → Connection
handle_lookup_topic_respose c id answer =
    if contains id c.pending_lookup_requests
    then finish_lookup
        (record c {
          pending_lookup_requests = erase id c.pending_lookup_requests;
          num_of_pending_lookup_request = c.num_of_pending_lookup_request - 1;
        })
        id answer
    else c

unfoldable pub handle_partitioned_metadata_response : Connection → ℕ → LookupAnswer → Connection
handle_partitioned_metadata_response c id answer = handle_lookup_topic_respose c id answer

-- The receipts of messages and errors of them, with what the producer answers: a connection whose
-- producer does not accept them is closed.
unfoldable pub handle_send_receipt : Connection → ℕ → Bool → Connection
handle_send_receipt c producer_id accepted =
    if contains producer_id c.producers
    then (if accepted then c else close c Result.disconnected)
    else c

unfoldable pub handle_send_error : Connection → Bool → ℕ → Bool → Connection
handle_send_error c is_checksum_error producer_id removed =
    if is_checksum_error
    then handle_send_receipt c producer_id removed
    else close c Result.disconnected

unfoldable pub handle_consumer_stats_response : Connection → ℕ → Result → Connection
handle_consumer_stats_response c id result =
    if contains id c.pending_consumer_stats
    then complete (record c { pending_consumer_stats = erase id c.pending_consumer_stats }) id
        result
    else c

unfoldable pub handle_get_last_message_id_response : Connection → ℕ → Connection
handle_get_last_message_id_response c id =
    if contains id c.pending_get_last_message_id_requests
    then complete
        (record c {
          pending_get_last_message_id_requests = erase id c.pending_get_last_message_id_requests;
        })
        id Result.ok
    else c

unfoldable pub handle_get_topic_of_namespace_response : Connection → ℕ → Connection
handle_get_topic_of_namespace_response c id =
    if contains id c.pending_get_namespace_topics_requests
    then complete
        (record c {
          pending_get_namespace_topics_requests = erase id c.pending_get_namespace_topics_requests;
        })
        id Result.ok
    else c

unfoldable pub handle_get_schema_response : Connection → ℕ → Result → Connection
handle_get_schema_response c id result =
    if contains id c.pending_get_schema_requests
    then complete
        (record c { pending_get_schema_requests = erase id c.pending_get_schema_requests }) id
        result
    else c

-- `handleError` looks for the request in three of the maps.
unfoldable pub handle_error : Connection → ℕ → Result → Connection
handle_error c id result =
    if contains id c.pending_requests
    then complete (record c { pending_requests = erase id c.pending_requests }) id result
    else (if contains id c.pending_get_last_message_id_requests
        then complete
            (record c {
              pending_get_last_message_id_requests =
                  erase id c.pending_get_last_message_id_requests;
            })
            id result
        else (if contains id c.pending_get_namespace_topics_requests
            then complete
                (record c {
                  pending_get_namespace_topics_requests =
                      erase id c.pending_get_namespace_topics_requests;
                })
                id result
            else c))

unfoldable pub unsafe_remove_pending_request : Connection → ℕ → Connection
unsafe_remove_pending_request c id =
    if contains id c.pending_requests
    then record (complete c id Result.disconnected) {
      pending_requests = erase id c.pending_requests;
    }
    else c

-- The producer or consumer is told that the broker has closed it.
unfoldable pub handle_close_producer : Connection → ℕ → Connection
handle_close_producer c id =
    if contains id c.producers
    then record c {
      producers = erase id c.producers;
      producers_disconnected = c.producers_disconnected ++ (id ∷ []);
    }
    else c

unfoldable pub handle_close_consumer : Connection → ℕ → Connection
handle_close_consumer c id =
    if contains id c.consumers
    then record c {
      consumers = erase id c.consumers;
      consumers_disconnected = c.consumers_disconnected ++ (id ∷ []);
    }
    else c

-- `registerProducer` and `registerConsumer`: `insert` keeps an entry that is there.
unfoldable pub register_producer : Connection → ℕ → Connection
register_producer c id = record c {
  producers = if contains id c.producers then c.producers else id ∷ c.producers;
}

unfoldable pub register_consumer : Connection → ℕ → Connection
register_consumer c id = record c {
  consumers = if contains id c.consumers then c.consumers else id ∷ c.consumers;
}

unfoldable pub remove_producer : Connection → ℕ → Connection
remove_producer c id = record c { producers = erase id c.producers }

unfoldable pub remove_consumer : Connection → ℕ → Connection
remove_consumer c id = record c { consumers = erase id c.consumers }

-- A probe is sent, unless the one before it has had no answer. (The timer is set again.)
unfoldable pub handle_keep_alive_timeout : Connection → Connection
handle_keep_alive_timeout c =
    if is_closed c
    then c
    else (if c.have_pending_ping_request
        then close c Result.disconnected
        else record c { have_pending_ping_request = true; pings = c.pings + 1 })

-- What the broker sends.
pub data Command : Type 0 where
  success get_last_message_id_response get_topics_of_namespace_response : ℕ → Command
  close_producer close_consumer : ℕ → Command
  producer_success : ℕ → Bool → Command
  ack_response consumer_stats_response get_schema_response error : ℕ → Result → Command
  lookup_response partitioned_metadata_response : ℕ → LookupAnswer → Command
  send_receipt : ℕ → Bool → Command
  send_error : Bool → ℕ → Bool → Command
  ping pong invalid : Command

abbrev pub dispatch : Connection → Command → Connection
dispatch c (success id) = handle_success c id
dispatch c (get_last_message_id_response id) = handle_get_last_message_id_response c id
dispatch c (get_topics_of_namespace_response id) = handle_get_topic_of_namespace_response c id
dispatch c (close_producer id) = handle_close_producer c id
dispatch c (close_consumer id) = handle_close_consumer c id
dispatch c (producer_success id producer_ready) = handle_producer_success c id producer_ready
dispatch c (ack_response id result) = handle_ack_response c id result
dispatch c (consumer_stats_response id result) = handle_consumer_stats_response c id result
dispatch c (get_schema_response id result) = handle_get_schema_response c id result
dispatch c (error id result) = handle_error c id result
dispatch c (lookup_response id answer) = handle_lookup_topic_respose c id answer
dispatch c (partitioned_metadata_response id answer) =
    handle_partitioned_metadata_response c id answer
dispatch c (send_receipt id accepted) = handle_send_receipt c id accepted
dispatch c (send_error is_checksum_error id removed) =
    handle_send_error c is_checksum_error id removed
dispatch c ping = c
dispatch c pong = c
dispatch c invalid = close c Result.disconnected

abbrev pub is_ping : Command → Bool
is_ping cmd = elim cmd [ ping ↦ true | _ ↦ false ]

abbrev pub hear : Connection → Command → Connection
hear c cmd = if is_ping cmd then c else record c { have_pending_ping_request = false }

-- `handleIncomingCommand` in a state, of the commands above. (A connection that is being made takes
-- CONNECTED only, which is left out.)
abbrev pub incoming_in : State → Connection → Command → Connection
incoming_in pending c cmd = c
incoming_in tcp_connected c cmd = close c Result.connect_error
incoming_in disconnected c cmd = c
incoming_in ready c cmd = dispatch (hear c cmd) cmd

unfoldable pub handle_incoming_command : Connection → Command → Connection
handle_incoming_command c cmd = incoming_in c.state c cmd

pub data Event : Type 0 where
  request lookup consumer_stats last_message_id topics_of_namespace schema elsewhere : Event
  request_expires lookup_expires last_message_id_expires schema_expires : ℕ → Event
  removes registers_producer registers_consumer removes_producer removes_consumer : ℕ → Event
  incoming : Command → Event
  keep_alive : Event
  closes : Result → Event

unfoldable pub step : Connection → Event → Connection
step c request = send_request_with_id c
step c lookup = new_lookup c
step c consumer_stats = new_consumer_stats c
step c last_message_id = new_get_last_message_id c
step c topics_of_namespace = new_get_topics_of_namespace c
step c schema = new_get_schema c
step c elsewhere = skip_id c
step c (request_expires id) = handle_request_timeout c id
step c (lookup_expires id) = handle_lookup_timeout c id
step c (last_message_id_expires id) = handle_get_last_message_id_timeout c id
step c (schema_expires id) = handle_get_schema_timeout c id
step c (removes id) = unsafe_remove_pending_request c id
step c (registers_producer id) = register_producer c id
step c (registers_consumer id) = register_consumer c id
step c (removes_producer id) = remove_producer c id
step c (removes_consumer id) = remove_consumer c id
step c (incoming cmd) = handle_incoming_command c cmd
step c keep_alive = handle_keep_alive_timeout c
step c (closes result) = close c result

unfoldable pub run : Connection → List Event → Connection
run c [] = c
run c (e ∷ es) = run (step c e) es

-- A connection that has just become ready, for a client whose next request id is given.
abbrev pub connected : ℕ → ℕ → Connection
connected next max_lookups = record {
  state = ready;
  pending_requests = [];
  pending_lookup_requests = [];
  pending_consumer_stats = [];
  pending_get_last_message_id_requests = [];
  pending_get_namespace_topics_requests = [];
  pending_get_schema_requests = [];
  num_of_pending_lookup_request = 0;
  max_pending_lookup_request = max_lookups;
  got_response = [];
  producers = [];
  consumers = [];
  producers_disconnected = [];
  consumers_disconnected = [];
  have_pending_ping_request = false;
  keep_alive_timer = true;
  pings = 0;
  calls = [];
  sent = [];
  next_request_id = next;
  issued = [];
  thrown = false;
}
