-- ===== src/Flow.antt =====
-- lib/ConsumerImpl.cc: the permits that a consumer gives the broker and what becomes of the messages that
-- come. The consumer has no parent; batch receiving, seeking, the contents of messages, and what a consumer
-- with a queue for no message asks for behind the start of its connection are left out. A message in the queue is the number of the connection that it came
-- by.
pub mod Balance
pub mod Losses
pub mod Asking
mod Tests
use pulsar_client_cpp.Prelude.{
  ℕ, zero, suc, ◌+◌, ◌-◌, ◌/◌, Bool, true, false, not, ◌&&◌, ◌||◌, Option, none, some, List, [],
  ◌∷◌, ◌++◌, length, ltb, leb, ◌==◌, if◌then◌else◌,
}

-- `taken` has the messages on their way to the listener or to a callback, which are then processed,
-- `granted` is the sum of the permits that were sent on the connection, and `pushed` counts the messages
-- that the broker has sent on it.
pub record Consumer : Type 0 where
  pub receiver_queue_size : ℕ
  pub max_redeliver_count : ℕ
  pub message_listener_running : Bool
  pub available_permits : ℕ
  pub cnx : Option ℕ
  pub next_cnx : ℕ
  pub pending_receives : ℕ
  pub incoming_messages : List ℕ
  pub taken : List ℕ
  pub granted : ℕ
  pub pushed : ℕ

abbrev pub new_consumer : ℕ → ℕ → Consumer
new_consumer size max_redeliver_count = record {
  receiver_queue_size = size;
  max_redeliver_count = max_redeliver_count;
  message_listener_running = true;
  available_permits = 0;
  cnx = none;
  next_cnx = 0;
  pending_receives = 0;
  incoming_messages = [];
  taken = [];
  granted = 0;
  pushed = 0;
}

abbrev pub receiver_queue_refill_threshold : Consumer → ℕ
receiver_queue_refill_threshold c = c.receiver_queue_size / 2

-- No command goes without a connection.
unfoldable pub send_flow_permits_to_broker : Consumer → Option ℕ → ℕ → Consumer
send_flow_permits_to_broker c none messages = c
send_flow_permits_to_broker c (some k) messages =
    if ltb 0 messages then record c { granted = c.granted + messages } else c

unfoldable pub increase_available_permits : Consumer → ℕ → Consumer
increase_available_permits c delta =
    let permits = c.available_permits + delta in
    if leb (receiver_queue_refill_threshold c) permits && c.message_listener_running
    then send_flow_permits_to_broker (record c { available_permits = 0 }) c.cnx permits
    else record c { available_permits = permits }

-- `handleCreateConsumer`, when the consumer was created on a new connection: whether it has a listener,
-- and whether a call of `receive` waits for a message that is asked for by itself, as it does with a queue
-- for no message.
unfoldable pub handle_create_consumer : Consumer → Bool → Bool → Consumer
handle_create_consumer c has_listener waiting_for_zero_queue_size_message =
    let k = c.next_cnx in
    let c0 = record c {
      cnx = some k;
      next_cnx = k + 1;
      incoming_messages = [];
      granted = 0;
      pushed = 0;
    } in
    let c1 =
      if not has_listener && (c.receiver_queue_size == 0)
      then send_flow_permits_to_broker
          (if waiting_for_zero_queue_size_message
            then send_flow_permits_to_broker c0 (some k) 1
            else c0)
          (some k) c.pending_receives
      else c0 in
    let c2 = record c1 { available_permits = 0 } in
    if not (c.receiver_queue_size == 0)
    then send_flow_permits_to_broker c2 (some k) c.receiver_queue_size
    else (if has_listener then send_flow_permits_to_broker c2 (some k) 1 else c2)

abbrev pub reset_cnx : Consumer → Consumer
reset_cnx c = record c { cnx = none }

-- A message goes to a callback that waits, or to the queue.
unfoldable pub execute_notify_callback : Consumer → ℕ → Consumer
execute_notify_callback c k =
    if ltb 0 c.pending_receives
    then record c { pending_receives = c.pending_receives - 1; taken = c.taken ++ (k ∷ []) }
    else record c { incoming_messages = c.incoming_messages ++ (k ∷ []) }

pub data Decryption : Type 0 where
  readable consumed discards fails : Decryption

-- A message of a batch: whether it is before the start message id, and whether it has been acknowledged
-- by the ack set that came with it.
pub record Part : Type 0 where
  pub is_prior : Bool
  pub is_acknowledged : Bool

-- A message as it comes, with its parts if it is a batch. `is_prior` is the test on the start message id of a message that is no batch,
-- `is_duplicate` what the tracker says of it, `chunk_completes` whether it is the last of its chunks.
pub record Received : Type 0 where
  pub first : Part
  pub more : List Part
  pub has_num_messages_in_batch : Bool
  pub decryption : Decryption
  pub is_checksum_valid : Bool
  pub is_undecryptable : Bool
  pub is_chunked : Bool
  pub uncompresses : Bool
  pub chunk_completes : Bool
  pub is_duplicate : Bool
  pub is_prior : Bool
  pub redelivery_count : ℕ

abbrev pub num_messages_in_batch : Received → ℕ
num_messages_in_batch m = if m.has_num_messages_in_batch then suc (length m.more) else 1

-- `discardCorruptedMessage`: one permit, also for a batch.
abbrev pub discard_corrupted_message : Consumer → Consumer
discard_corrupted_message c = increase_available_permits c 1

abbrev pub is_skipped : Consumer → ℕ → Part → Bool
is_skipped c redelivery_count part =
    ltb c.max_redeliver_count redelivery_count || (part.is_prior || part.is_acknowledged)

-- The loop over a batch, with the number of messages that it skips.
unfoldable pub receive_parts : Consumer → ℕ → ℕ → List Part → Consumer × ℕ
receive_parts c k redelivery_count [] = (c, 0)
receive_parts c k redelivery_count (part ∷ parts) =
    let skipped = is_skipped c redelivery_count part in
    let c' = if skipped then c else execute_notify_callback c k in
    let (c'', n) = receive_parts c' k redelivery_count parts in (c'', if skipped then n + 1 else n)

unfoldable pub receive_individual_messages_from_batch : Consumer → ℕ → Received → Consumer
receive_individual_messages_from_batch c k m =
    let (c', skipped) = receive_parts c k m.redelivery_count (m.first ∷ m.more) in
    if ltb 0 skipped then increase_available_permits c' skipped else c'

unfoldable pub receive_single : Consumer → ℕ → Received → Consumer
receive_single c k m =
    if m.is_prior
    then c
    else (if ltb c.max_redeliver_count m.redelivery_count
        then increase_available_permits c 1
        else execute_notify_callback c k)

-- `messageReceived` behind the decryption. (Of a chunk that does not complete its message,
-- `processMessageChunk` gives the permit back.)
unfoldable pub receive_decrypted : Consumer → ℕ → Received → Consumer
receive_decrypted c k m =
    if not m.is_checksum_valid
    then discard_corrupted_message c
    else (if not m.is_undecryptable && (not m.is_chunked && not m.uncompresses)
        then discard_corrupted_message c
        else (if not m.has_num_messages_in_batch && (m.is_chunked && not m.chunk_completes)
            then increase_available_permits c 1
            else (if m.is_duplicate
                then increase_available_permits c (num_messages_in_batch m)
                else (if m.has_num_messages_in_batch
                    then receive_individual_messages_from_batch c k m
                    else receive_single c k m))))

abbrev pub receive_by : Decryption → Consumer → ℕ → Received → Consumer
receive_by readable c k m = receive_decrypted c k m
receive_by consumed c k m = receive_decrypted c k m
receive_by discards c k m = discard_corrupted_message c
receive_by fails c k m = c

unfoldable pub message_received : Consumer → ℕ → Received → Consumer
message_received c k m = receive_by m.decryption c k m

-- A message of an older connection gives no permit.
abbrev pub process_on : Option ℕ → Consumer → ℕ → Consumer
process_on none c k = increase_available_permits c 1
process_on (some j) c k = if k == j then increase_available_permits c 1 else c

unfoldable pub message_processed : Consumer → ℕ → Consumer
message_processed c k = process_on c.cnx c k

-- `receiveHelper` and `receiveAsync` with a message in the queue; without one a callback waits.
unfoldable pub receive : Consumer → List ℕ → Consumer
receive c [] = record c { pending_receives = c.pending_receives + 1 }
receive c (k ∷ queue) = message_processed (record c { incoming_messages = queue }) k

-- `internalListener` takes a message, which is processed behind the listener.
unfoldable pub internal_listener : Consumer → List ℕ → Consumer
internal_listener c [] = c
internal_listener c (k ∷ queue) =
    if c.message_listener_running
    then record c { incoming_messages = queue; taken = c.taken ++ (k ∷ []) }
    else c

unfoldable pub finish_taken : Consumer → List ℕ → Consumer
finish_taken c [] = c
finish_taken c (k ∷ rest) = message_processed (record c { taken = rest }) k

abbrev pub pause_message_listener : Consumer → Consumer
pause_message_listener c = record c { message_listener_running = false }

unfoldable pub resume_message_listener : Consumer → Consumer
resume_message_listener c =
    if c.message_listener_running
    then c
    else increase_available_permits (record c { message_listener_running = true }) 0

pub data Event : Type 0 where
  opens : Bool → Bool → Event
  lost receives listens finishes pauses resumes : Event
  arrives : Received → Event

-- A message comes by the connection, which the broker counts by the messages in it.
unfoldable pub arrive : Consumer → Option ℕ → Received → Consumer
arrive c none m = c
arrive c (some k) m =
    message_received (record c { pushed = c.pushed + num_messages_in_batch m }) k m

unfoldable pub step : Consumer → Event → Consumer
step c (opens has_listener waiting) = handle_create_consumer c has_listener waiting
step c lost = reset_cnx c
step c receives = receive c c.incoming_messages
step c listens = internal_listener c c.incoming_messages
step c finishes = finish_taken c c.taken
step c pauses = pause_message_listener c
step c resumes = resume_message_listener c
step c (arrives m) = arrive c c.cnx m

unfoldable pub run : Consumer → List Event → Consumer
run c [] = c
run c (e ∷ es) = run (step c e) es
