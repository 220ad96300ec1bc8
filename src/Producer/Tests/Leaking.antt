-- ===== src/Producer/Tests/Leaking.antt =====
-- The inputs on which permits or memory stay taken.
use pulsar_client_cpp.Prelude.{◌-◌, ◌^◌, ◌≡◌, refl, false, none, some, [], arith}
use pulsar_client_cpp.Semaphore.{Semaphore}
use pulsar_client_cpp.MemoryLimit.{try_reserve_memory}
use pulsar_client_cpp.MessageId.{MessageIdImpl, default_impl}
use pulsar_client_cpp.Op.{Codec, is_empty}
use pulsar_client_cpp.Producer.{Producer, acknowledge}
use pulsar_client_cpp.Producer.Batching.{batch_message_and_send}
use pulsar_client_cpp.Producer.Send.{Outgoing, chunk_op}
use pulsar_client_cpp.Producer.Permits.{PermitsOut, batched_count, batched_size}
use pulsar_client_cpp.Producer.Permits.Leaks.{second_chunk_wraps, refused_batch_leaks}
use pulsar_client_cpp.Producer.Tests.{message, plain, producer, container, batching}

-- A message of two chunks.
abbrev outgoing : Outgoing
outgoing = record {
  message = message;
  callback = 4;
  number = 3;
  uncompressed_size = 60;
  compressed_size = 60;
  payload_chunk_size = 40;
  total_chunks = 2;
  list = some 0;
  now = 400;
}

abbrev id : MessageIdImpl
id = default_impl

abbrev once : Producer
once = acknowledge producer (chunk_op producer outgoing 0) [] 3 id

abbrev twice : Producer
twice = acknowledge once (chunk_op producer outgoing 1) [] 3 id

second_chunk_wraps_example :
    (twice.memory.current_usage ≡ 2 ^ 64 - 60) × ((try_reserve_memory twice.memory 1 []).0 ≡ false)
second_chunk_wraps_example =
    second_chunk_wraps producer outgoing [] [] 0 1 1 id id (omega arith) refl (omega arith)
      (omega arith) (omega arith)

abbrev refusing : Codec
refusing = record plain { encrypts_batch = λ ms. false }

abbrev refused : Producer
refused = batch_message_and_send refusing 400 batching none

refused_batch_leaks_example :
    (refused.memory ≡ batching.memory)
    × PermitsOut refused.semaphore 3
    × (refused.pending_messages_queue ≡ batching.pending_messages_queue)
    × (batched_count refused.batch_message_container ≡ 0)
    × (batched_size refused.batch_message_container ≡ 0)
refused_batch_leaks_example =
    refused_batch_leaks refusing 400 batching container 3 refl full refl (omega arith)
      (refl, omega arith, omega arith)
  where
    full : is_empty container ≡ false
    full = unfold is_empty in refl

abbrev semaphore : Semaphore
semaphore = record { limit = 5; current_usage = 2; is_closed = false }
