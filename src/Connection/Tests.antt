-- ===== src/Connection/Tests.antt =====
-- Witnesses and runs of a connection of lib/ClientConnection.cc.
use pulsar_client_cpp.Prelude.{
  ◌+◌, ◌++◌, ◌<◌, ◌≡◌, ◌⊎◌, refl, true, false, some, List, [], ◌∷◌, arith,
}
use pulsar_client_cpp.Result.{Result}
use pulsar_client_cpp.Connection.{
  outcome, close, new_lookup, send_request_with_id, handle_request_timeout, handle_producer_success,
  handle_lookup_timeout, new_consumer_stats,
}
use pulsar_client_cpp.Connection.Incoming.{
  Event, request, lookup, incoming, producer_success, request_expires, closes, lookup_expires,
  consumer_stats, handle_incoming_command, step, run, connected,
}
use pulsar_client_cpp.Connection.Promises.{waiting}
use pulsar_client_cpp.Connection.Completion.{run-NoneLost, close-completes}
use pulsar_client_cpp.Connection.Lookups.{ended, lookups, unanswered, timed_out_lookups_exhaust}

-- A producer that is queued at the broker, whose request does not time out, and a lookup.
abbrev queued : List Event
queued = request ∷ lookup ∷ incoming (producer_success 5 false) ∷ request_expires 5 ∷ []

run-NoneLost_example :
    let c = run (connected 5 2) queued in
    (0 < waiting 5 c) ⊎ ((r : Result) × (outcome 5 c.calls ≡ some r))
unfolding run step send_request_with_id new_lookup handle_incoming_command handle_producer_success
    handle_request_timeout
run-NoneLost_example = run-NoneLost 5 2 queued 5 (omega arith)

close-completes_example :
    let c = close (run (connected 5 2) queued) Result.disconnected in
    (r : Result) × (outcome 5 c.calls ≡ some r)
unfolding run step send_request_with_id new_lookup handle_incoming_command handle_producer_success
    handle_request_timeout close
close-completes_example = close-completes 5 2 queued Result.disconnected 5 refl (omega arith)

timed_out_lookups_exhaust_example :
    let c = run (connected 5 2) (unanswered 5 2) in
    let c' = run c (lookups 3) in
    (c.calls ≡ ended Result.timeout 5 2)
    × (c'.calls
        ≡ ended Result.timeout 5 2 ++ ended Result.too_many_lookup_request_exception (5 + 2) 3)
    × (c'.sent ≡ c.sent)
timed_out_lookups_exhaust_example = timed_out_lookups_exhaust 5 2 3

-- On a closed connection `newConsumerStats` throws, with its promise failed.
closed_stats :
    let c = run (connected 0 1) (closes Result.disconnected ∷ consumer_stats ∷ []) in
    (c.thrown ≡ true) × (outcome 0 c.calls ≡ some Result.not_connected)
unfolding run step close new_consumer_stats outcome
closed_stats = (refl, refl)

-- The first call on a promise counts: an answer that comes behind the timeout changes nothing.
late_answer :
    let c = run (connected 0 1) (lookup ∷ lookup_expires 0 ∷ closes Result.disconnected ∷ []) in
    outcome 0 c.calls ≡ some Result.timeout
unfolding run step close new_lookup handle_lookup_timeout outcome
late_answer = refl
