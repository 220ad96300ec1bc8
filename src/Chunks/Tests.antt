-- ===== src/Chunks/Tests.antt =====
-- A message of three chunks, and the theorem on it.
use pulsar_client_cpp.Prelude.{ℕ, ◌≡◌, refl, false, some, List, [], ◌∷◌, arith}
use pulsar_client_cpp.Prelude.Int.{pos}
use pulsar_client_cpp.MessageId.{MessageIdImpl, default_impl}
use pulsar_client_cpp.MapCache.{find}
use pulsar_client_cpp.Chunks.{Chunks, id_of}
use pulsar_client_cpp.Chunks.Assembly.{numbered, ids, only_last, results, chunks_assemble}

abbrev id : ℕ → MessageIdImpl
id n = record default_impl { ledger_id = pos 1; entry_id = pos n }

-- The cache is full with an incomplete message.
abbrev state : Chunks
state = record {
  cache = record {
    map_ =
        (
          4,
          record {
            total_chunks = 2;
            capacity = 2;
            chunked_msg_buffer = 9 ∷ [];
            chunked_message_ids = id 0 ∷ [];
          },
        )
        ∷ [];
    keys = 4 ∷ [];
  };
  max_pending_chunked_message = 1;
  discarded = [];
  permits = 0;
  tracked = [];
  crashed = false;
}

abbrev second_and_third : List (List ℕ × MessageIdImpl)
second_and_third = (30 ∷ [], id 2) ∷ (40 ∷ 50 ∷ [], id 3) ∷ []

chunks_assemble_example :
    results some state (numbered 7 3 5 0 ((10 ∷ 20 ∷ [], id 1) ∷ second_and_third))
    ≡ only_last 2
        (10 ∷ 20 ∷ 30 ∷ 40 ∷ 50 ∷ [], id_of (ids ((10 ∷ 20 ∷ [], id 1) ∷ second_and_third)))
unfolding find
chunks_assemble_example =
    chunks_assemble some second_and_third (10 ∷ 20 ∷ [], id 1) state 7 5
      (10 ∷ 20 ∷ 30 ∷ 40 ∷ 50 ∷ []) refl (omega arith) refl
