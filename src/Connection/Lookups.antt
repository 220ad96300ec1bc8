-- ===== src/Connection/Lookups.antt =====
-- The lookups of lib/ClientConnection.cc that wait, which are limited in number.
use mathlib.Core.List.{append-nil, append_assoc}
use mathlib.Core.Path.{ap₂}
use pulsar_client_cpp.Prelude.{
  sym, subst, ap, ◌++◌, Bool, ℕ, zero, suc, ◌+◌, ◌≤◌, ◌<◌, ◌≡◌, refl, ◌∙◌, inl, inr, true, false,
  List, [], ◌∷◌, leb, ◌==◌, arith, length, length-append, Bool-cases,
}
use pulsar_client_cpp.Result.{Result}
use pulsar_client_cpp.Connection.{
  State, pending, tcp_connected, ready, disconnected, Connection, is_closed, contains, erase,
  complete, close, take_id, send_request_with_id, new_lookup, new_consumer_stats,
  new_get_last_message_id, new_get_topics_of_namespace, new_get_schema, handle_request_timeout,
  handle_lookup_timeout, handle_get_last_message_id_timeout, handle_get_schema_timeout,
  handle_success, handle_producer_success, handle_ack_response,
}
use pulsar_client_cpp.Connection.Incoming.{
  ServerError, service_not_ready, too_many_requests, other_error, check_server_error, LookupAnswer,
  found, no_error, failed, finish_lookup, handle_lookup_topic_respose,
  handle_consumer_stats_response, handle_get_last_message_id_response,
  handle_get_topic_of_namespace_response, handle_get_schema_response, handle_error,
  unsafe_remove_pending_request, handle_close_producer, handle_close_consumer, register_producer,
  register_consumer, remove_producer, remove_consumer, handle_keep_alive_timeout, incoming_in,
  Command, lookup_response, partitioned_metadata_response, send_receipt, send_error,
  handle_partitioned_metadata_response, handle_send_receipt, handle_send_error, ping, invalid,
  handle_incoming_command, hear, dispatch, Event, lookup, lookup_expires, incoming, keep_alive,
  closes, step, run, connected,
}

length-erase : (k : ℕ) (m : List ℕ) → contains k m ≡ true → length (erase k m) + 1 ≡ length m
length-erase k [] h = absurd (cc)
length-erase k (j ∷ m) h = elim (Bool-cases (k == j)) [
  | inl e ↦ ground (arith, h, e)
  | inr e ↦ ground (arith, h, e, length-erase k m (ground (arith, h, e)))
]

pub record IsCounted (c : Connection) : Type 0 where
  pub counted : c.num_of_pending_lookup_request ≡ length c.pending_lookup_requests
  pub limited : c.num_of_pending_lookup_request ≤ c.max_pending_lookup_request

new_lookup-IsCounted : (c : Connection) → IsCounted c → IsCounted (new_lookup c)
unfolding new_lookup
new_lookup-IsCounted c v =
    ground (arith, v, length-append c.pending_lookup_requests (c.next_request_id ∷ []))

close-IsCounted : (c : Connection) (result : Result) → IsCounted c → IsCounted (close c result)
unfolding close
close-IsCounted c result v = elim (Bool-cases (is_closed c)) [
  | inl e ↦ rw e v
  | inr e ↦ rw e (record { counted = refl; limited = omega arith })
]

check_server_error-IsCounted :
    (c : Connection) (e : ServerError) → IsCounted c → IsCounted (check_server_error c e)
unfolding check_server_error
check_server_error-IsCounted c (service_not_ready true) v = v
check_server_error-IsCounted c (service_not_ready false) v = close-IsCounted c Result.disconnected v
check_server_error-IsCounted c too_many_requests v = close-IsCounted c Result.disconnected v
check_server_error-IsCounted c other_error v = v

finish_lookup-IsCounted :
    (c : Connection) (id : ℕ) (answer : LookupAnswer)
    → IsCounted c
    → IsCounted (finish_lookup c id answer)
finish_lookup-IsCounted c id found v = record { counted = v.counted; limited = v.limited }
finish_lookup-IsCounted c id no_error v = record { counted = v.counted; limited = v.limited }
finish_lookup-IsCounted c id (failed e result) v =
    let w = check_server_error-IsCounted c e v in
    record { counted = w.counted; limited = w.limited }

handle_lookup_topic_respose-IsCounted :
    (c : Connection) (id : ℕ) (answer : LookupAnswer)
    → IsCounted c
    → IsCounted (handle_lookup_topic_respose c id answer)
unfolding handle_lookup_topic_respose
handle_lookup_topic_respose-IsCounted c id answer v =
    elim (Bool-cases (contains id c.pending_lookup_requests)) [
      | inl e ↦ rw e (
          finish_lookup-IsCounted _ id answer (record {
            counted = omega (arith, v.counted, length-erase id c.pending_lookup_requests e);
            limited = omega (arith, v.limited);
          }))
      | inr e ↦ rw e v
    ]

handle_keep_alive_timeout-IsCounted :
    (c : Connection) → IsCounted c → IsCounted (handle_keep_alive_timeout c)
unfolding handle_keep_alive_timeout
handle_keep_alive_timeout-IsCounted c v = elim (Bool-cases (is_closed c)) [
  | inl e ↦ rw e v
  | inr e ↦ rw e (elim (Bool-cases c.have_pending_ping_request) [
    | inl e' ↦ rw e' (
        close-IsCounted (record c { have_pending_ping_request = true }) Result.disconnected
          (record { counted = v.counted; limited = v.limited }))
    | inr e' ↦ rw e' (record { counted = v.counted; limited = v.limited })
  ])
]

handle_send_receipt-IsCounted :
    (c : Connection) (id : ℕ) (accepted : Bool)
    → IsCounted c
    → IsCounted (handle_send_receipt c id accepted)
unfolding handle_send_receipt
handle_send_receipt-IsCounted c id accepted v = elim (Bool-cases (contains id c.producers)) [
  | inl e ↦ rw e (elim (Bool-cases accepted) [
    | inl a ↦ rw a v
    | inr a ↦ rw a (close-IsCounted c Result.disconnected v)
  ])
  | inr e ↦ rw e v
]

dispatch-IsCounted : (c : Connection) (cmd : Command) → IsCounted c → IsCounted (dispatch c cmd)
unfolding handle_partitioned_metadata_response handle_send_error handle_success
    handle_producer_success handle_ack_response handle_consumer_stats_response
    handle_get_last_message_id_response handle_get_topic_of_namespace_response
    handle_get_schema_response handle_error handle_close_producer handle_close_consumer
dispatch-IsCounted c (lookup_response id answer) v =
    handle_lookup_topic_respose-IsCounted c id answer v
dispatch-IsCounted c (partitioned_metadata_response id answer) v =
    handle_lookup_topic_respose-IsCounted c id answer v
dispatch-IsCounted c (send_receipt id accepted) v = handle_send_receipt-IsCounted c id accepted v
dispatch-IsCounted c (send_error true id removed) v = handle_send_receipt-IsCounted c id removed v
dispatch-IsCounted c (send_error false id removed) v = close-IsCounted c Result.disconnected v
dispatch-IsCounted c invalid v = close-IsCounted c Result.disconnected v
dispatch-IsCounted c cmd v = ground (arith, v)

hear-IsCounted : (c : Connection) (cmd : Command) → IsCounted c → IsCounted (hear c cmd)
hear-IsCounted c ping v = v
hear-IsCounted c cmd v = ground (arith, v)

incoming_in-IsCounted :
    (s : State) (c : Connection) (cmd : Command) → IsCounted c → IsCounted (incoming_in s c cmd)
incoming_in-IsCounted pending c cmd v = v
incoming_in-IsCounted tcp_connected c cmd v = close-IsCounted c Result.connect_error v
incoming_in-IsCounted disconnected c cmd v = v
incoming_in-IsCounted ready c cmd v = dispatch-IsCounted (hear c cmd) cmd (hear-IsCounted c cmd v)

step-IsCounted : (c : Connection) (e : Event) → IsCounted c → IsCounted (step c e)
unfolding step handle_incoming_command send_request_with_id new_consumer_stats
    new_get_last_message_id new_get_topics_of_namespace new_get_schema handle_request_timeout
    handle_lookup_timeout handle_get_last_message_id_timeout handle_get_schema_timeout
    unsafe_remove_pending_request register_producer register_consumer remove_producer
    remove_consumer
step-IsCounted c lookup v = new_lookup-IsCounted c v
step-IsCounted c (incoming cmd) v = incoming_in-IsCounted c.state c cmd v
step-IsCounted c keep_alive v = handle_keep_alive_timeout-IsCounted c v
step-IsCounted c (closes result) v = close-IsCounted c result v
step-IsCounted c e v = ground (arith, v)

run-IsCounted_lem : (es : List Event) (c : Connection) → IsCounted c → IsCounted (run c es)
unfolding run
run-IsCounted_lem [] c v = v
run-IsCounted_lem (e ∷ es) c v = run-IsCounted_lem es (step c e) (step-IsCounted c e v)

-- The count of pending lookups is the size of their map and within the limit, whatever happens on a
-- connection.
run-IsCounted :
    (next max_lookups : ℕ) (es : List Event) → IsCounted (run (connected next max_lookups) es)
run-IsCounted next max_lookups es =
    run-IsCounted_lem es (connected next max_lookups)
      (record { counted = refl; limited = omega arith })

-- Lookups that the broker never answers, each with its timeout.
abbrev pub unanswered : ℕ → ℕ → List Event
unanswered next zero = []
unanswered next (suc n) = lookup ∷ lookup_expires next ∷ unanswered (next + 1) n

-- The promises of so many requests, from this one on, with the same result.
abbrev pub ended : Result → ℕ → ℕ → List (ℕ × Result)
ended result next zero = []
ended result next (suc n) = (next, result) ∷ ended result (next + 1) n

abbrev pub lookups : ℕ → List Event
lookups zero = []
lookups (suc n) = lookup ∷ lookups n

one_unanswered :
    (c : Connection)
    → is_closed c ≡ false
    → c.num_of_pending_lookup_request < c.max_pending_lookup_request
    → let c' = handle_lookup_timeout (new_lookup c) c.next_request_id in
      (is_closed c' ≡ false)
      × (c'.next_request_id ≡ c.next_request_id + 1)
      × (c'.num_of_pending_lookup_request ≡ c.num_of_pending_lookup_request + 1)
      × (c'.max_pending_lookup_request ≡ c.max_pending_lookup_request)
      × (c'.calls ≡ c.calls ++ ((c.next_request_id, Result.timeout) ∷ []))
unfolding new_lookup handle_lookup_timeout
one_unanswered c o h =
    let room : leb c.max_pending_lookup_request c.num_of_pending_lookup_request ≡ false =
      ground arith in
    rw (o, room) (o, refl, refl, refl, refl)

unanswered_lem :
    (n : ℕ) (c : Connection)
    → is_closed c ≡ false
    → c.num_of_pending_lookup_request + n ≤ c.max_pending_lookup_request
    → let c' = run c (unanswered c.next_request_id n) in
      (is_closed c' ≡ false)
      × (c'.num_of_pending_lookup_request ≡ c.num_of_pending_lookup_request + n)
      × (c'.max_pending_lookup_request ≡ c.max_pending_lookup_request)
      × (c'.next_request_id ≡ c.next_request_id + n)
      × (c'.calls ≡ c.calls ++ ended Result.timeout c.next_request_id n)
unfolding run step
unanswered_lem zero c o h = (o, omega arith, refl, omega arith, sym (append-nil c.calls))
unanswered_lem (suc n) c o h =
    let (o', i', num, most, called) = one_unanswered c o (omega arith) in
    let c' = handle_lookup_timeout (new_lookup c) c.next_request_id in
    let (o'', num', most', i'', called') = unanswered_lem n c' o' (omega arith) in
    subst
      (λ (k : ℕ).
        let d = run c' (unanswered k n) in
        (is_closed d ≡ false)
        × (d.num_of_pending_lookup_request ≡ c.num_of_pending_lookup_request + suc n)
        × (d.max_pending_lookup_request ≡ c.max_pending_lookup_request)
        × (d.next_request_id ≡ c.next_request_id + suc n)
        × (d.calls ≡ c.calls ++ ((c.next_request_id, Result.timeout) ∷ ended Result.timeout k n)))
      i'
      (
        o'',
        omega arith,
        most' ∙ most,
        omega arith,
        called'
            ∙ ap (λ cs. cs ++ ended Result.timeout c'.next_request_id n) called
            ∙ append_assoc c.calls ((c.next_request_id, Result.timeout) ∷ [])
                (ended Result.timeout c'.next_request_id n),
      )

-- With the limit reached.
refused_lem :
    (n : ℕ) (c : Connection)
    → is_closed c ≡ false
    → c.max_pending_lookup_request ≤ c.num_of_pending_lookup_request
    → let c' = run c (lookups n) in
      (c'.sent ≡ c.sent)
      × (c'.calls ≡ c.calls ++ ended Result.too_many_lookup_request_exception c.next_request_id n)
unfolding run step new_lookup
refused_lem zero c o h = (refl, sym (append-nil c.calls))
refused_lem (suc n) c o h =
    let c' = complete (take_id c) c.next_request_id Result.too_many_lookup_request_exception in
    let (sent_, called) = refused_lem n c' o h in
    subst
      (λ (d : Connection).
        ((run d (lookups n)).sent ≡ c.sent)
        × ((run d (lookups n)).calls
            ≡ c.calls ++ ended Result.too_many_lookup_request_exception c.next_request_id (suc n)))
      (sym (refused c o h)) (sent_, called ∙ append_assoc c.calls _ _)
  where
    refused :
        (d : Connection)
        → is_closed d ≡ false
        → d.max_pending_lookup_request ≤ d.num_of_pending_lookup_request
        → new_lookup d
          ≡ complete (take_id d) d.next_request_id Result.too_many_lookup_request_exception
    refused d o' h' =
        let full : leb d.max_pending_lookup_request d.num_of_pending_lookup_request ≡ true =
          ground arith in
        rw (o', full) refl

-- A lookup that has timed out goes on counting: on an open connection, when as many lookups as the limit
-- have timed out without an answer of the broker, so that the promise of each is complete, then however
-- many more lookups are made, each of them fails at once for too many requests, and none is sent.
pub timed_out_lookups_exhaust :
    (next max_lookups further : ℕ)
    → let c = run (connected next max_lookups) (unanswered next max_lookups) in
      let c' = run c (lookups further) in
      (c.calls ≡ ended Result.timeout next max_lookups)
      × (c'.calls
          ≡ ended Result.timeout next max_lookups
            ++ ended Result.too_many_lookup_request_exception (next + max_lookups) further)
      × (c'.sent ≡ c.sent)
timed_out_lookups_exhaust next max_lookups further =
    let c = run (connected next max_lookups) (unanswered next max_lookups) in
    let (o, num, most, i, called) =
      unanswered_lem max_lookups (connected next max_lookups) refl (omega arith) in
    let (sent_, refused) = refused_lem further c o (omega (arith, num, most)) in
    (
      called,
      refused
          ∙ ap₂
              (λ (cs : List (ℕ × Result)) (k : ℕ).
                cs ++ ended Result.too_many_lookup_request_exception k further)
              called i,
      sent_,
    )
