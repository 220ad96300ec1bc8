-- ===== src/Connection.antt =====
-- lib/ClientConnection.cc and lib/ClientConnectionAdaptor.h: the requests of a connection that wait for
-- an answer, from the moment they are sent until their promise is complete. The promise of a request
-- goes by the request's id; lib/Future.h lets the first call on a promise count. Producers and consumers
-- are alive. Connecting, authenticating and the sockets are left out.
pub mod Incoming
pub mod Promises
pub mod Completion
pub mod Lookups
mod Tests
use pulsar_client_cpp.Prelude.{
  ℕ, zero, suc, ◌+◌, ◌-◌, Bool, true, false, not, ◌&&◌, Option, none, some, List, [], ◌∷◌, ◌++◌,
  map, leb, ◌==◌, if◌then◌else◌,
}
use pulsar_client_cpp.Result.{Result}

pub data State : Type 0 where
  pending tcp_connected ready disconnected : State

-- The keys of the maps of pending requests stand for their entries. `got_response` has the requests whose
-- flag `hasGotResponse` is set, `calls` the calls of `setValue` and `setFailed` in order, `sent` the ids
-- of the requests that were passed to `sendCommand`, `pings` counts the probes. `next_request_id` is the
-- client's, and `issued` has the ids that were taken for requests on this connection. `thrown` is set when
-- a lock is unlocked twice.
pub record Connection : Type 0 where
  pub state : State
  pub pending_requests : List ℕ
  pub pending_lookup_requests : List ℕ
  pub pending_consumer_stats : List ℕ
  pub pending_get_last_message_id_requests : List ℕ
  pub pending_get_namespace_topics_requests : List ℕ
  pub pending_get_schema_requests : List ℕ
  pub num_of_pending_lookup_request : ℕ
  pub max_pending_lookup_request : ℕ
  pub got_response : List ℕ
  pub producers : List ℕ
  pub consumers : List ℕ
  pub producers_disconnected : List ℕ
  pub consumers_disconnected : List ℕ
  pub have_pending_ping_request : Bool
  pub keep_alive_timer : Bool
  pub pings : ℕ
  pub calls : List (ℕ × Result)
  pub sent : List ℕ
  pub next_request_id : ℕ
  pub issued : List ℕ
  pub thrown : Bool

abbrev pub is_closed : Connection → Bool
is_closed c = elim c.state [ disconnected ↦ true | _ ↦ false ]

-- `find` and `erase` by key in a map, and in a set of ids.
abbrev pub contains : ℕ → List ℕ → Bool
contains k [] = false
contains k (j ∷ m) = if k == j then true else contains k m

abbrev pub erase : ℕ → List ℕ → List ℕ
erase k [] = []
erase k (j ∷ m) = let rest = erase k m in if k == j then m else j ∷ rest

-- `setValue` (with `Result.ok`) or `setFailed` on the promise of a request.
abbrev pub complete : Connection → ℕ → Result → Connection
complete c id result = record c { calls = c.calls ++ ((id, result) ∷ []) }

-- What a promise is completed with: the first call.
unfoldable pub outcome : ℕ → List (ℕ × Result) → Option Result
outcome id [] = none
outcome id ((j, result) ∷ calls) = if id == j then some result else outcome id calls

abbrev pub fail_all : Result → List ℕ → List (ℕ × Result)
fail_all result ids = map (λ id. (id, result)) ids

-- `close`. (The connection is taken out of the pool, too.)
unfoldable pub close : Connection → Result → Connection
close c result = if is_closed c then c else record c {
  state = disconnected;
  pending_requests = [];
  pending_lookup_requests = [];
  pending_consumer_stats = [];
  pending_get_last_message_id_requests = [];
  pending_get_namespace_topics_requests = [];
  pending_get_schema_requests = [];
  num_of_pending_lookup_request = 0;
  keep_alive_timer = false;
  producers = [];
  consumers = [];
  producers_disconnected = c.producers_disconnected ++ c.producers;
  consumers_disconnected = c.consumers_disconnected ++ c.consumers;
  calls =
      c.calls
      ++ (fail_all result c.pending_requests
          ++ (fail_all result c.pending_lookup_requests
              ++ (fail_all result c.pending_consumer_stats
                  ++ (fail_all result c.pending_get_last_message_id_requests
                      ++ (fail_all result c.pending_get_namespace_topics_requests
                          ++ fail_all result c.pending_get_schema_requests)))));
}

-- A request takes the next id of the client. Another connection may take one as well.
abbrev pub take_id : Connection → Connection
take_id c = record c {
  next_request_id = c.next_request_id + 1;
  issued = c.issued ++ (c.next_request_id ∷ []);
}

abbrev pub skip_id : Connection → Connection
skip_id c = record c { next_request_id = c.next_request_id + 1 }

-- The requests. Each is sent once it waits.
unfoldable pub send_request_with_id : Connection → Connection
send_request_with_id c =
    let id = c.next_request_id in
    let c' = take_id c in
    if is_closed c then complete c' id Result.not_connected else record c' {
      pending_requests = c.pending_requests ++ (id ∷ []);
      sent = c.sent ++ (id ∷ []);
    }

unfoldable pub new_lookup : Connection → Connection
new_lookup c =
    let id = c.next_request_id in
    let c' = take_id c in
    if is_closed c
    then complete c' id Result.not_connected
    else (if leb c.max_pending_lookup_request c.num_of_pending_lookup_request
        then complete c' id Result.too_many_lookup_request_exception
        else record c' {
          pending_lookup_requests = c.pending_lookup_requests ++ (id ∷ []);
          num_of_pending_lookup_request = c.num_of_pending_lookup_request + 1;
          sent = c.sent ++ (id ∷ []);
        })

-- `newConsumerStats`: on a closed connection the lock is unlocked again behind the insertion.
unfoldable pub new_consumer_stats : Connection → Connection
new_consumer_stats c =
    let id = c.next_request_id in
    let c' = take_id c in
    if is_closed c
    then record (complete c' id Result.not_connected) {
      pending_consumer_stats = c.pending_consumer_stats ++ (id ∷ []);
      thrown = true;
    }
    else record c' {
      pending_consumer_stats = c.pending_consumer_stats ++ (id ∷ []);
      sent = c.sent ++ (id ∷ []);
    }

unfoldable pub new_get_last_message_id : Connection → Connection
new_get_last_message_id c =
    let id = c.next_request_id in
    let c' = take_id c in
    if is_closed c then complete c' id Result.not_connected else record c' {
      pending_get_last_message_id_requests = c.pending_get_last_message_id_requests ++ (id ∷ []);
      sent = c.sent ++ (id ∷ []);
    }

unfoldable pub new_get_topics_of_namespace : Connection → Connection
new_get_topics_of_namespace c =
    let id = c.next_request_id in
    let c' = take_id c in
    if is_closed c then complete c' id Result.not_connected else record c' {
      pending_get_namespace_topics_requests = c.pending_get_namespace_topics_requests ++ (id ∷ []);
      sent = c.sent ++ (id ∷ []);
    }

unfoldable pub new_get_schema : Connection → Connection
new_get_schema c =
    let id = c.next_request_id in
    let c' = take_id c in
    if is_closed c then complete c' id Result.not_connected else record c' {
      pending_get_schema_requests = c.pending_get_schema_requests ++ (id ∷ []);
      sent = c.sent ++ (id ∷ []);
    }

-- The timers of requests, when they expire. (One that was cancelled does nothing.)
unfoldable pub handle_request_timeout : Connection → ℕ → Connection
handle_request_timeout c id = if contains id c.got_response then c else complete c id Result.timeout

unfoldable pub handle_lookup_timeout : Connection → ℕ → Connection
handle_lookup_timeout c id = complete c id Result.timeout

unfoldable pub handle_get_last_message_id_timeout : Connection → ℕ → Connection
handle_get_last_message_id_timeout c id = complete c id Result.timeout

unfoldable pub handle_get_schema_timeout : Connection → ℕ → Connection
handle_get_schema_timeout c id =
    if contains id c.pending_get_schema_requests
    then complete
        (record c { pending_get_schema_requests = erase id c.pending_get_schema_requests }) id
        Result.timeout
    else c

-- The result of an answer: `Result.ok`, or what `getResult` makes of its error.
unfoldable pub handle_success : Connection → ℕ → Connection
handle_success c id =
    if contains id c.pending_requests
    then complete (record c { pending_requests = erase id c.pending_requests }) id Result.ok
    else c

unfoldable pub handle_producer_success : Connection → ℕ → Bool → Connection
handle_producer_success c id producer_ready =
    if contains id c.pending_requests
    then (if not producer_ready
        then record c { got_response = id ∷ c.got_response }
        else complete (record c { pending_requests = erase id c.pending_requests }) id Result.ok)
    else c

unfoldable pub handle_ack_response : Connection → ℕ → Result → Connection
handle_ack_response c id result =
    if contains id c.pending_requests
    then complete (record c { pending_requests = erase id c.pending_requests }) id result
    else c
