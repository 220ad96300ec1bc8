-- ===== src/Flow/Asking.antt =====
-- What the balance of the permits of lib/ConsumerImpl.cc means for its queue and for the broker.
use pulsar_client_cpp.Prelude.{ℕ, ◌+◌, ◌/◌, ◌≤◌, ◌<◌, ◌≡◌, true, some, List, [], length, arith, max}
use pulsar_client_cpp.Flow.{new_consumer, Event, run}
use pulsar_client_cpp.Flow.Losses.{
  losses, run-IsAccounted, run-IsBalanced_lem, new_consumer-IsBalanced,
}

-- A consumer with a queue for at least one message, on a connection, whose listener is not paused and which has lost no permit on it, never
-- stops asking: once its queue is empty and no message is on its way, the broker has permits left.
pub broker_has_permits :
    (size most : ℕ) (es : List Event) (k : ℕ)
    → 0 < size
    → let c = run (new_consumer size most) es in
      c.cnx ≡ some k
      → c.message_listener_running ≡ true
      → losses (new_consumer size most) 0 es ≡ 0
      → c.incoming_messages ≡ []
      → c.taken ≡ []
      → c.pushed < c.granted
broker_has_permits size most es k s o r l q t =
    let c = run (new_consumer size most) es in
    let v =
      run-IsBalanced_lem es (new_consumer size most) 0 (new_consumer-IsBalanced size most s) in
    less_than_size c.receiver_queue_size c.granted c.available_permits c.pushed v.sized
      (v.settled r) (ground (arith, (v.there k o).balance, l, q, t))
  where
    less_than_size :
        (size granted available pushed : ℕ)
        → 0 < size
        → available < max 1 (size / 2)
        → granted + available ≡ size + pushed
        → pushed < granted
    less_than_size size granted available pushed s a b = omega arith

-- If the broker keeps to its permits, the queue of a consumer on a connection has at most as many messages
-- as the receiver queue size.
queue_bounded :
    (size most : ℕ) (es : List Event) (k : ℕ)
    → 0 < size
    → let c = run (new_consumer size most) es in
      c.cnx ≡ some k → c.pushed ≤ c.granted → length c.incoming_messages ≤ c.receiver_queue_size
queue_bounded size most es k s o b =
    let v = run-IsAccounted size most es k s o in omega (arith, v.balance, v.own)

-- Once the messages that came on a connection have lost as many permits as the receiver queue has places,
-- which are at least one, the consumer is starved: the permits that the broker was given, those kept here and the messages in the
-- queue together are no more than what the broker has already sent.
pub lost_permits_starve :
    (size most : ℕ) (es : List Event) (k : ℕ)
    → 0 < size
    → let c = run (new_consumer size most) es in
      c.cnx ≡ some k
      → c.receiver_queue_size ≤ losses (new_consumer size most) 0 es
      → c.granted + c.available_permits + length c.incoming_messages ≤ c.pushed
lost_permits_starve size most es k s o b =
    let v = run-IsAccounted size most es k s o in omega (arith, v.balance, v.own)
