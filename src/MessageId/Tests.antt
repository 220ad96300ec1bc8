-- ===== src/MessageId/Tests.antt =====
-- Message ids on concrete values, and their theorems there.
use pulsar_client_cpp.Prelude.{ℕ, ◌≡◌, ◌≢◌, refl, Option, some, arith}
use pulsar_client_cpp.Prelude.Int.{ℤ, pos}
use pulsar_client_cpp.MessageId.{MessageIdImpl, default_impl, build}
use pulsar_client_cpp.MessageId.Order.{SamePlace}
use pulsar_client_cpp.MessageId.Codec.{MessageIdData, reread, deserialize-serialize}

abbrev at : ℕ → ℕ → ℤ → MessageIdImpl
at ledger entry partition = record default_impl {
  ledger_id = pos ledger;
  entry_id = pos entry;
  partition = partition;
}

abbrev a : MessageIdImpl
a = at 3 7 (pos 0)

abbrev b : MessageIdImpl
b = record (at 3 7 (pos 1)) { topic_name = "t" }

abbrev c : MessageIdImpl
c = at 3 8 (pos 0)

-- In place of protobuf: a message is its own bytes.
abbrev written : MessageIdData → MessageIdData
written d = d

abbrev parsed : MessageIdData → Option MessageIdData
parsed d = some d

parsed-written : (d : MessageIdData) → parsed (written d) ≡ some d
parsed-written d = refl

a_at_b : SamePlace a b
a_at_b = record { ledger = refl; entry = refl; index = refl }

other_partition : pos 0 ≢ pos 1
other_partition e = cc

deserialize-serialize_example :
    reread written parsed parsed-written (build b) ≡ some (build (record b { topic_name = "" }))
deserialize-serialize_example =
    deserialize-serialize written parsed parsed-written b (omega arith) (omega arith)
