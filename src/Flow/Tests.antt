-- ===== src/Flow/Tests.antt =====
-- Witnesses for the permits of lib/ConsumerImpl.cc.
use pulsar_client_cpp.Prelude.{◌+◌, ◌≤◌, ◌<◌, refl, true, false, List, [], ◌∷◌, length, arith, Bool}
use pulsar_client_cpp.Flow.{
  new_consumer, send_flow_permits_to_broker, increase_available_permits, handle_create_consumer,
  execute_notify_callback, readable, Received, receive_single, receive_decrypted, message_received,
  message_processed, receive, Event, opens, receives, arrives, arrive, step, run,
}
use pulsar_client_cpp.Flow.Balance.{IsAccounted}
use pulsar_client_cpp.Flow.Losses.{losses, loss, loss_on, loss_of_decrypted, run-IsAccounted}
use pulsar_client_cpp.Flow.Asking.{broker_has_permits, lost_permits_starve}

-- A message, which may be before the start message id.
abbrev plain_message : Bool → Received
plain_message is_prior = record {
  first = record { is_prior = false; is_acknowledged = false };
  more = [];
  has_num_messages_in_batch = false;
  decryption = readable;
  is_checksum_valid = true;
  is_undecryptable = false;
  is_chunked = false;
  uncompresses = true;
  chunk_completes = false;
  is_duplicate = false;
  is_prior = is_prior;
  redelivery_count = 0;
}

abbrev one_received : List Event
one_received = opens false false ∷ arrives (plain_message false) ∷ receives ∷ []

run-IsAccounted_example :
    let c = run (new_consumer 4 16) one_received in
    IsAccounted c 0 (losses (new_consumer 4 16) 0 one_received)
unfolding run step handle_create_consumer send_flow_permits_to_broker arrive message_received
    receive_decrypted receive_single execute_notify_callback receive message_processed
    increase_available_permits
run-IsAccounted_example = run-IsAccounted 4 16 one_received 0 (omega arith) refl

broker_has_permits_example : let c = run (new_consumer 4 16) one_received in c.pushed < c.granted
unfolding run step handle_create_consumer send_flow_permits_to_broker arrive message_received
    receive_decrypted receive_single execute_notify_callback receive message_processed
    increase_available_permits losses loss_on loss loss_of_decrypted
broker_has_permits_example =
    broker_has_permits 4 16 one_received 0 (omega arith) refl refl refl refl refl

-- With a queue of one place, one message before the start message id is enough.
abbrev one_prior : List Event
one_prior = opens false false ∷ arrives (plain_message true) ∷ []

lost_permits_starve_example :
    let c = run (new_consumer 1 16) one_prior in
    c.granted + c.available_permits + length c.incoming_messages ≤ c.pushed
unfolding run step handle_create_consumer send_flow_permits_to_broker arrive message_received
    receive_decrypted receive_single losses loss_on loss loss_of_decrypted
lost_permits_starve_example = lost_permits_starve 1 16 one_prior 0 (omega arith) refl (omega arith)
