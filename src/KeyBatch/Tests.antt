-- ===== src/KeyBatch/Tests.antt =====
-- A container with two keys, and the theorems on it.
use pulsar_client_cpp.Prelude.{
  ◌+◌, length, ℕ, ◌≡◌, refl, ◌⊎◌, true, false, none, some, List, [], ◌∷◌, arith,
}
use pulsar_client_cpp.Op.{Message, Codec, OpSendMsg}
use pulsar_client_cpp.KeyBatch.{KeyBasedContainer, create_op_send_msgs}
use pulsar_client_cpp.KeyBatch.Order.{
  Ascends, carried, held, create_op_send_msgs_ordered, failed_batch_crashes,
}

abbrev message : ℕ → Message
message n = record {
  payload_length = 10;
  sequence_id = some n;
  has_producer_name = false;
  has_replicated_from = false;
  has_deliver_at_time = false;
}

abbrev codec : Codec
codec = record {
  compressed_size = λ m. 10;
  metadata_size = λ m. 5;
  encrypts_chunk = λ m n. true;
  encrypted_size = λ m n. n;
  encrypts_batch = λ ms. true;
  batch_payload_size = λ ms. 20;
}

abbrev no_crypto : Codec
no_crypto = record codec { encrypts_batch = λ ms. false }

abbrev container : KeyBasedContainer
container = record {
  max_num_messages = 10;
  max_size_in_bytes = 1000;
  num_messages = 3;
  size_in_bytes = 30;
  number_of_batches_sent = 0;
  batches =
      (
        "a",
        record {
          messages = message 1 ∷ message 3 ∷ [];
          callbacks = 1 ∷ 3 ∷ [];
          messages_size = 20;
        },
      )
      ∷ ("b", record { messages = message 2 ∷ []; callbacks = 2 ∷ []; messages_size = 10 })
      ∷ [];
}

create_op_send_msgs_ordered_example :
    (ops : List OpSendMsg) × (c' : KeyBasedContainer) × (create_op_send_msgs codec 100 30 0
        container none
      ≡ some (ops, c'))
    × Ascends ops
    × ((n : ℕ) → carried n ops ≡ held n container.batches)
    × (((c'.batches ≡ [])
          × (c'.num_messages ≡ 0)
          × (c'.size_in_bytes ≡ 0)
          × (c'.number_of_batches_sent
              ≡ container.number_of_batches_sent + length container.batches))
        ⊎ ((ops ≡ []) × (c' ≡ container)))
create_op_send_msgs_ordered_example = create_op_send_msgs_ordered codec 100 30 0 container none refl

failed_batch_crashes_example : create_op_send_msgs no_crypto 100 30 0 container none ≡ none
failed_batch_crashes_example =
    failed_batch_crashes no_crypto 100 30 0 container none (omega arith) refl
