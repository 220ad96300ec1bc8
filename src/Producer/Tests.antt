-- ===== src/Producer/Tests.antt =====
-- A producer with concrete messages: runs of its operations, and its theorems there.
mod Leaking
mod Running
use pulsar_client_cpp.Prelude.{
  ℕ, ◌+◌, ◌-◌, ◌*◌, ◌%◌, ◌^◌, ◌≤◌, ◌<◌, ◌≡◌, ◌≢◌, refl, ◌⊎◌, Bool, true, false, Option, none, some,
  List, [], ◌∷◌, ◌++◌, length, map, arith,
}
use pulsar_client_cpp.Prelude.Int.{ℤ, pos}
use pulsar_client_cpp.Result.{Result}
use pulsar_client_cpp.Semaphore.{Semaphore}
use pulsar_client_cpp.MemoryLimit.{MemoryLimitController}
use pulsar_client_cpp.MessageId.{MessageIdImpl, default_impl, build}
use pulsar_client_cpp.Op.{
  Message, Codec, single, batch, nobody, sent, Completion, OpSendMsg, complete,
  BatchMessageContainer, empty_batch, Batch, batch_sequence_id,
}
use pulsar_client_cpp.Producer.{
  State, ready, pending, Config, Producer, acknowledge, ack_received, returns, null_dereference,
  remove_corrupt_message, resend_messages,
}
use pulsar_client_cpp.Producer.Enqueue.{Waits, no_waits}
use pulsar_client_cpp.Producer.Batching.{batch_message_and_send}
use pulsar_client_cpp.Producer.Send.{send_async}
use pulsar_client_cpp.Producer.Answers.{Answers, all_given}
use pulsar_client_cpp.Producer.Failing.{fail_pending_messages}
use pulsar_client_cpp.Producer.Failing.Returns.{no_ids, fail_pending_messages_returns_all}
use pulsar_client_cpp.Producer.Receipts.{
  ack_received_cases, ack_all, receipts_of, queue_of, ops_of, ids_in, receipts_in_order,
  remove_corrupt_message_poisons, batch_receipt_overshoots,
}
use pulsar_client_cpp.Producer.Permits.{Accounts, PermitsOut, acknowledge-Accounts}
use pulsar_client_cpp.Producer.Permits.Batches.{Accepts, batch_message_and_send-Accounts}
use pulsar_client_cpp.Producer.Permits.Sending.{AcceptsSend, send_async-Accounts}

abbrev pub message : Message
message = record {
  payload_length = 30;
  sequence_id = none;
  has_producer_name = false;
  has_replicated_from = false;
  has_deliver_at_time = false;
}

-- Payloads are neither compressed nor encrypted, and a batch takes 20 bytes.
abbrev pub plain : Codec
plain = record {
  compressed_size = λ m. m.payload_length;
  metadata_size = λ m. 10;
  encrypts_chunk = λ m i. true;
  encrypted_size = λ m n. n;
  encrypts_batch = λ ms. true;
  batch_payload_size = λ ms. 20;
}

abbrev pub op : ℕ → OpSendMsg
op n = record {
  result = Result.ok;
  chunk_id = 0;
  num_chunks = 0;
  messages_count = 1;
  messages_size = 30;
  timeout = 900;
  send_callback = single n;
  tracker_callbacks = [];
  chunk_message_id_list = none;
  sequence_id = n;
}

abbrev pub no_container : Option BatchMessageContainer
no_container = none

-- Two messages wait for their receipts.
abbrev pub producer : Producer
producer = record {
  config = record {
    block_if_queue_full = false;
    chunking_enabled = false;
    max_message_size = 100;
    send_timeout = 500;
  };
  state = ready;
  partition = pos 2;
  semaphore = some (record { limit = 5; current_usage = 2; is_closed = false });
  memory = record { memory_limit = 1000; current_usage = 60; is_closed = false };
  pending_messages_queue = some (op 1) ∷ some (op 2) ∷ [];
  batch_message_container = no_container;
  msg_sequence_generator = 3;
  last_sequence_id_published = 0;
  chunk_message_ids = λ a. [];
  next_list = 0;
  connected = true;
  wire = 1 ∷ 2 ∷ [];
  completions = [];
}

-- A batch with one message, and the producer that is filling it.
abbrev pub container : BatchMessageContainer
container = record {
  max_num_messages = 10;
  max_size_in_bytes = 100;
  num_messages = 1;
  size_in_bytes = 30;
  number_of_batches_sent = 0;
  batch_ = record { messages = message ∷ []; callbacks = 3 ∷ []; messages_size = 30 };
}

abbrev pub batching : Producer
batching = record producer {
  semaphore = some (record { limit = 5; current_usage = 3; is_closed = false });
  memory = record { memory_limit = 1000; current_usage = 90; is_closed = false };
  batch_message_container = some container;
}

producer-Accounts : Accounts producer 0 0
producer-Accounts = record {
  permits = (refl, omega arith, omega arith);
  memory_used = refl;
  memory_small = omega arith;
  container = tt;
  queue = (refl, (refl, tt));
}

pub batching-Accounts : Accounts batching 0 0
batching-Accounts = record {
  permits = (refl, omega arith, omega arith);
  memory_used = refl;
  memory_small = omega arith;
  container = (refl, refl);
  queue = (refl, (refl, tt));
}

pub plain-Accepts : (n : ℕ) (ms : List Message) → n ≡ 100 → Accepts plain n ms
plain-Accepts n ms e = record { encrypts = refl; fits = omega arith }

pub batching-AcceptsSend : AcceptsSend plain 100 message (some container)
batching-AcceptsSend = (
  plain-Accepts 100 _ refl,
  λ number room. plain-Accepts 100 _ refl,
  λ number. plain-Accepts 100 _ refl,
)

abbrev receipt : MessageIdImpl
receipt = record default_impl { ledger_id = pos 8; entry_id = pos 9 }

send_async-Accounts_example :
    Accounts (send_async plain 400 batching message 4 no_waits (λ n. no_waits)) 0 0
send_async-Accounts_example =
    send_async-Accounts plain 400 batching message 4 no_waits (λ n. no_waits) batching-AcceptsSend
      refl refl (omega arith) batching-Accounts

abbrev acked : List (OpSendMsg × MessageIdImpl)
acked = (op 1, receipt) ∷ (op 2, record receipt { entry_id = pos 10 }) ∷ []

receipts_in_order_example :
    (p' : Producer) × (done : List Completion) × (ack_all producer (receipts_of acked) ≡ some p')
    × (p'.pending_messages_queue ≡ [])
    × (p'.completions ≡ [] ++ done)
    × Answers done Result.ok (all_given (ops_of acked)) (ids_in (pos 2) acked)
receipts_in_order_example = receipts_in_order producer acked (refl, refl, (refl, refl, tt)) refl

fail_pending_messages_returns_all_example :
    (p' : Producer) × (done : List Completion) × (fail_pending_messages plain 950 producer
        Result.timeout
      ≡ some p')
    × (p'.pending_messages_queue ≡ [])
    × (p'.completions ≡ [] ++ done)
    × Answers done Result.timeout (all_given (op 1 ∷ op 2 ∷ [])) (no_ids (op 1 ∷ op 2 ∷ []))
    × PermitsOut p'.semaphore 0
    × (p'.memory.current_usage ≡ 0)
fail_pending_messages_returns_all_example =
    fail_pending_messages_returns_all plain 950 producer (op 1 ∷ op 2 ∷ []) Result.timeout refl refl
      producer-Accounts

-- The checksum error of a message that is not at the front.
abbrev poisoned : Producer
poisoned = record producer { pending_messages_queue = none ∷ some (op 2) ∷ [] }

remove_corrupt_message_poisons_example :
    (ack_received poisoned 1 receipt ≡ null_dereference) × (resend_messages poisoned ≡ none)
remove_corrupt_message_poisons_example =
    remove_corrupt_message_poisons producer poisoned (op 1) (some (op 2) ∷ []) 2 1 false receipt
      refl (two_is_not_one 2 refl) left
  where
    two_is_not_one : (n : ℕ) → n ≡ 2 → n ≢ 1
    two_is_not_one n e f = absurd (omega arith)

    left : remove_corrupt_message producer 2 ≡ returns false poisoned
    left = unfold remove_corrupt_message in refl

-- Three messages numbered from 5: the broker has published up to 7, the producer says 9.
abbrev numbered_message : ℕ → Message
numbered_message n = record message { sequence_id = some n }

abbrev three : List Message
three = numbered_message 5 ∷ numbered_message 6 ∷ numbered_message 7 ∷ []

abbrev batch_op : OpSendMsg
batch_op = record (op 7) { messages_count = 3; send_callback = batch (5 ∷ 6 ∷ 7 ∷ []) }

batch_receipt_overshoots_example :
    (acknowledge producer batch_op [] 7 receipt).last_sequence_id_published ≡ 9
batch_receipt_overshoots_example =
    batch_receipt_overshoots producer batch_op [] receipt 5 (numbered_message 5)
      (numbered_message 6 ∷ numbered_message 7 ∷ []) (refl, (refl, (refl, tt))) last refl
      (omega arith)
  where
    last : 7 ≡ batch_sequence_id three
    last = unfold batch_sequence_id in refl
