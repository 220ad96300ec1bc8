-- ===== src/Connection/Completion.antt =====
-- Every event of a connection of lib/ClientConnection.cc keeps the promises of its requests.
use pulsar_client_cpp.Prelude.{
  Bool, ℕ, ◌≤◌, ◌<◌, ◌≡◌, ◌⊎◌, refl, inl, inr, true, false, some, List, [], ◌∷◌, ◌++◌, ltb, ◌==◌,
  arith, occurrences, Bool-cases,
}
use pulsar_client_cpp.Result.{Result}
use pulsar_client_cpp.Connection.{
  State, pending, tcp_connected, ready, disconnected, Connection, is_closed, contains, outcome,
  close, complete,
}
use pulsar_client_cpp.Connection.Incoming.{
  ServerError, service_not_ready, too_many_requests, other_error, check_server_error, LookupAnswer,
  found, no_error, failed, finish_lookup, handle_lookup_topic_respose, handle_close_producer,
  handle_close_consumer, register_producer, register_consumer, remove_producer, remove_consumer,
  handle_keep_alive_timeout, incoming_in, Command, success, get_last_message_id_response,
  get_topics_of_namespace_response, close_producer, close_consumer, producer_success, ack_response,
  consumer_stats_response, get_schema_response, error, lookup_response,
  partitioned_metadata_response, send_receipt, send_error, handle_partitioned_metadata_response,
  handle_send_receipt, handle_send_error, ping, pong, invalid, handle_incoming_command, hear,
  dispatch, Event, request, lookup, consumer_stats, last_message_id, topics_of_namespace, schema,
  elsewhere, request_expires, lookup_expires, last_message_id_expires, schema_expires, removes,
  registers_producer, registers_consumer, removes_producer, removes_consumer, incoming, keep_alive,
  closes, step, run, connected,
}
use pulsar_client_cpp.Connection.Promises.{
  called, waiting, IsSound, Owes, one_call, occurrences-erase, send_request_with_id-IsSound,
  new_lookup-IsSound, new_consumer_stats-IsSound, new_get_last_message_id-IsSound,
  new_get_topics_of_namespace-IsSound, new_get_schema-IsSound, handle_request_timeout-IsSound,
  handle_lookup_timeout-IsSound, handle_get_last_message_id_timeout-IsSound,
  handle_get_schema_timeout-IsSound, handle_success-IsSound, handle_producer_success-IsSound,
  handle_ack_response-IsSound, handle_consumer_stats_response-IsSound,
  handle_get_last_message_id_response-IsSound, handle_get_topic_of_namespace_response-IsSound,
  handle_get_schema_response-IsSound, handle_error-IsSound, unsafe_remove_pending_request-IsSound,
  close-Owes,
}

module _ (p : ℕ) where
  complete-IsSound :
      (c : Connection) (id : ℕ) (result : Result)
      → Owes (occurrences p (id ∷ [])) c p
      → IsSound (complete c id result) p
  complete-IsSound c id result v = record {
    fresh = v.fresh;
    once = omega (arith, v.once);
    kept = omega (arith, v.kept, one_call p c id result);
  }

  check_server_error-Owes :
      (owed : ℕ) (c : Connection) (e : ServerError)
      → Owes owed c p
      → Owes owed (check_server_error c e) p
  unfolding check_server_error
  check_server_error-Owes owed c (service_not_ready true) v = v
  check_server_error-Owes owed c (service_not_ready false) v =
      close-Owes p owed c Result.disconnected v
  check_server_error-Owes owed c too_many_requests v = close-Owes p owed c Result.disconnected v
  check_server_error-Owes owed c other_error v = v

  finish_lookup-IsSound :
      (c : Connection) (id : ℕ) (answer : LookupAnswer)
      → Owes (occurrences p (id ∷ [])) c p
      → IsSound (finish_lookup c id answer) p
  finish_lookup-IsSound c id found v = complete-IsSound c id _ v
  finish_lookup-IsSound c id no_error v = complete-IsSound c id _ v
  finish_lookup-IsSound c id (failed e result) v =
      complete-IsSound (check_server_error c e) id result (check_server_error-Owes _ c e v)

  handle_lookup_topic_respose-IsSound :
      (c : Connection) (id : ℕ) (answer : LookupAnswer)
      → IsSound c p
      → IsSound (handle_lookup_topic_respose c id answer) p
  unfolding handle_lookup_topic_respose
  handle_lookup_topic_respose-IsSound c id answer v =
      elim (Bool-cases (contains id c.pending_lookup_requests)) [
        | inl e ↦ rw e (
            finish_lookup-IsSound _ id answer (record {
              fresh = v.fresh;
              once = omega (arith, v.once, occurrences-erase p id c.pending_lookup_requests e);
              kept = omega (arith, v.kept, occurrences-erase p id c.pending_lookup_requests e);
            }))
        | inr e ↦ rw e v
      ]

  -- Producers, consumers and probes are no matter of the promises.
  handle_close_producer-IsSound :
      (c : Connection) (id : ℕ) → IsSound c p → IsSound (handle_close_producer c id) p
  unfolding handle_close_producer
  handle_close_producer-IsSound c id v = elim (Bool-cases (contains id c.producers)) [
    | inl e ↦ rw e (record { fresh = v.fresh; once = v.once; kept = v.kept })
    | inr e ↦ rw e v
  ]

  handle_close_consumer-IsSound :
      (c : Connection) (id : ℕ) → IsSound c p → IsSound (handle_close_consumer c id) p
  unfolding handle_close_consumer
  handle_close_consumer-IsSound c id v = elim (Bool-cases (contains id c.consumers)) [
    | inl e ↦ rw e (record { fresh = v.fresh; once = v.once; kept = v.kept })
    | inr e ↦ rw e v
  ]

  handle_keep_alive_timeout-IsSound :
      (c : Connection) → IsSound c p → IsSound (handle_keep_alive_timeout c) p
  unfolding handle_keep_alive_timeout
  handle_keep_alive_timeout-IsSound c v = elim (Bool-cases (is_closed c)) [
    | inl e ↦ rw e v
    | inr e ↦ rw e (elim (Bool-cases c.have_pending_ping_request) [
      | inl e' ↦ rw e' (
          close-Owes p 0 (record c { have_pending_ping_request = true }) Result.disconnected
            (record { fresh = v.fresh; once = v.once; kept = v.kept }))
      | inr e' ↦ rw e' (record { fresh = v.fresh; once = v.once; kept = v.kept })
    ])
  ]

  handle_send_receipt-IsSound :
      (c : Connection) (id : ℕ) (accepted : Bool)
      → IsSound c p
      → IsSound (handle_send_receipt c id accepted) p
  unfolding handle_send_receipt
  handle_send_receipt-IsSound c id accepted v = elim (Bool-cases (contains id c.producers)) [
    | inl e ↦ rw e (elim (Bool-cases accepted) [
      | inl a ↦ rw a v
      | inr a ↦ rw a (close-Owes p 0 c Result.disconnected v)
    ])
    | inr e ↦ rw e v
  ]

  hear-IsSound : (c : Connection) (cmd : Command) → IsSound c p → IsSound (hear c cmd) p
  hear-IsSound c ping v = v
  hear-IsSound c cmd v = ground (arith, v)

  dispatch-IsSound : (c : Connection) (cmd : Command) → IsSound c p → IsSound (dispatch c cmd) p
  unfolding handle_partitioned_metadata_response handle_send_error
  dispatch-IsSound c (success id) v = handle_success-IsSound p c id v
  dispatch-IsSound c (get_last_message_id_response id) v =
      handle_get_last_message_id_response-IsSound p c id v
  dispatch-IsSound c (get_topics_of_namespace_response id) v =
      handle_get_topic_of_namespace_response-IsSound p c id v
  dispatch-IsSound c (close_producer id) v = handle_close_producer-IsSound c id v
  dispatch-IsSound c (close_consumer id) v = handle_close_consumer-IsSound c id v
  dispatch-IsSound c (producer_success id producer_ready) v =
      handle_producer_success-IsSound p c id producer_ready v
  dispatch-IsSound c (ack_response id result) v = handle_ack_response-IsSound p c id result v
  dispatch-IsSound c (consumer_stats_response id result) v =
      handle_consumer_stats_response-IsSound p c id result v
  dispatch-IsSound c (get_schema_response id result) v =
      handle_get_schema_response-IsSound p c id result v
  dispatch-IsSound c (error id result) v = handle_error-IsSound p c id result v
  dispatch-IsSound c (lookup_response id answer) v =
      handle_lookup_topic_respose-IsSound c id answer v
  dispatch-IsSound c (partitioned_metadata_response id answer) v =
      handle_lookup_topic_respose-IsSound c id answer v
  dispatch-IsSound c (send_receipt id accepted) v = handle_send_receipt-IsSound c id accepted v
  dispatch-IsSound c (send_error true id removed) v = handle_send_receipt-IsSound c id removed v
  dispatch-IsSound c (send_error false id removed) v = close-Owes p 0 c Result.disconnected v
  dispatch-IsSound c ping v = v
  dispatch-IsSound c pong v = v
  dispatch-IsSound c invalid v = close-Owes p 0 c Result.disconnected v

  incoming_in-IsSound :
      (s : State) (c : Connection) (cmd : Command) → IsSound c p → IsSound (incoming_in s c cmd) p
  incoming_in-IsSound pending c cmd v = v
  incoming_in-IsSound tcp_connected c cmd v = close-Owes p 0 c Result.connect_error v
  incoming_in-IsSound disconnected c cmd v = v
  incoming_in-IsSound ready c cmd v = dispatch-IsSound (hear c cmd) cmd (hear-IsSound c cmd v)

  step-IsSound : (c : Connection) (e : Event) → IsSound c p → IsSound (step c e) p
  unfolding step handle_incoming_command register_producer register_consumer remove_producer
      remove_consumer
  step-IsSound c request v = send_request_with_id-IsSound p c v
  step-IsSound c lookup v = new_lookup-IsSound p c v
  step-IsSound c consumer_stats v = new_consumer_stats-IsSound p c v
  step-IsSound c last_message_id v = new_get_last_message_id-IsSound p c v
  step-IsSound c topics_of_namespace v = new_get_topics_of_namespace-IsSound p c v
  step-IsSound c schema v = new_get_schema-IsSound p c v
  step-IsSound c elsewhere v = ground (arith, v)
  step-IsSound c (request_expires id) v = handle_request_timeout-IsSound p c id v
  step-IsSound c (lookup_expires id) v = handle_lookup_timeout-IsSound p c id v
  step-IsSound c (last_message_id_expires id) v =
      handle_get_last_message_id_timeout-IsSound p c id v
  step-IsSound c (schema_expires id) v = handle_get_schema_timeout-IsSound p c id v
  step-IsSound c (removes id) v = unsafe_remove_pending_request-IsSound p c id v
  step-IsSound c (registers_producer id) v = record {
    fresh = v.fresh;
    once = v.once;
    kept = v.kept;
  }
  step-IsSound c (registers_consumer id) v = record {
    fresh = v.fresh;
    once = v.once;
    kept = v.kept;
  }
  step-IsSound c (removes_producer id) v = record { fresh = v.fresh; once = v.once; kept = v.kept }
  step-IsSound c (removes_consumer id) v = record { fresh = v.fresh; once = v.once; kept = v.kept }
  step-IsSound c (incoming cmd) v = incoming_in-IsSound c.state c cmd v
  step-IsSound c keep_alive v = handle_keep_alive_timeout-IsSound c v
  step-IsSound c (closes result) v = close-Owes p 0 c result v

  run-IsSound_lem : (es : List Event) (c : Connection) → IsSound c p → IsSound (run c es) p
  unfolding run
  run-IsSound_lem [] c v = v
  run-IsSound_lem (e ∷ es) c v = run-IsSound_lem es (step c e) (step-IsSound c e v)

called-outcome :
    (p : ℕ) (calls : List (ℕ × Result))
    → 0 < called p calls
    → (r : Result) × (outcome p calls ≡ some r)
unfolding called outcome
called-outcome p [] h = absurd (omega arith)
called-outcome p ((j, result) ∷ calls) h = elim (Bool-cases (p == j)) [
  | inl e ↦ (result, rw e refl)
  | inr e ↦ let (r, o) = called-outcome p calls (ground (arith, e, h)) in (r, ground (arith, e, o))
]

outcome_kept :
    (p : ℕ) (calls more : List (ℕ × Result)) (r : Result)
    → outcome p calls ≡ some r
    → outcome p (calls ++ more) ≡ some r
unfolding outcome
outcome_kept p [] more r h = absurd (cc)
outcome_kept p ((j, result) ∷ calls) more r h = ground (arith, h, outcome_kept p calls more r)

initial-IsSound : (next max_lookups p : ℕ) → IsSound (connected next max_lookups) p
unfolding called
initial-IsSound next max_lookups p = ground arith

-- Whatever happens on a connection, every request that was made on it waits in one of the maps, or its
-- promise is complete.
pub run-NoneLost :
    (next max_lookups : ℕ) (es : List Event) (p : ℕ)
    → let c = run (connected next max_lookups) es in
      0 < occurrences p c.issued → (0 < waiting p c) ⊎ ((r : Result) × (outcome p c.calls ≡ some r))
run-NoneLost next max_lookups es p h =
    let c = run (connected next max_lookups) es in
    let v =
      run-IsSound_lem p es (connected next max_lookups) (initial-IsSound next max_lookups p) in
    elim (Bool-cases (ltb 0 (waiting p c))) [
      | inl e ↦ inl (ground (arith, e))
      | inr e ↦
          inr (called-outcome p c.calls (omega (arith, h, v.kept, ltb_false 0 (waiting p c) e)))
    ]
  where
    ltb_false : (a b : ℕ) → ltb a b ≡ false → b ≤ a
    ltb_false a b e = ground (arith, e)

close-waiting :
    (p : ℕ) (c : Connection) (result : Result)
    → is_closed c ≡ false
    → waiting p (close c result) ≡ 0
unfolding close
close-waiting p c result e = rw e (omega arith)

-- Once an open connection is closed, the promise of every request that was made on it is complete,
-- whatever happened before: no caller waits for ever.
pub close-completes :
    (next max_lookups : ℕ) (es : List Event) (result : Result) (p : ℕ)
    → is_closed (run (connected next max_lookups) es) ≡ false
    → let c = close (run (connected next max_lookups) es) result in
      0 < occurrences p c.issued → (r : Result) × (outcome p c.calls ≡ some r)
close-completes next max_lookups es result p open_still h =
    let before = run (connected next max_lookups) es in
    let v =
      run-IsSound_lem p es (connected next max_lookups) (initial-IsSound next max_lookups p) in
    let w = close-Owes p 0 before result v in
    called-outcome p (close before result).calls
      (omega (arith, h, w.kept, close-waiting p before result open_still))
