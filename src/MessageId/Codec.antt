-- ===== src/MessageId/Codec.antt =====
-- `MessageId::serialize` and `MessageId::deserialize` of lib/MessageId.cc, over the fields of the
-- protobuf message `MessageIdData` (proto/PulsarApi.proto). Its wire format is protobuf's: a
-- parameter, of which the round trip needs that parsing undoes serializing.
use pulsar_client_cpp.Prelude.{
  ℕ, ◌-◌, ◌%◌, ◌^◌, ◌<◌, ◌≡◌, List, [], ◌∷◌, Option, none, some, ltb, if◌then◌else◌, arith, ap, ◌∙◌,
}
use mathlib.Core.Path.{ap₂}
use pulsar_client_cpp.Prelude.Int.{ℤ, pos, negsuc}
use pulsar_client_cpp.MessageId.{
  MessageIdImpl, MessageId, minus_one, default_impl, build, chunk_message_id, eq_ℤ,
}

-- An int64_t as the uint64_t that the protobuf field holds, and back.
unfoldable pub to_u64 : ℤ → ℕ
to_u64 (pos n) = n % 2 ^ 64
to_u64 (negsuc n) = 2 ^ 64 - 1 - n % 2 ^ 64

unfoldable pub to_i64 : ℕ → ℤ
to_i64 w = if ltb w (2 ^ 63) then pos w else negsuc (2 ^ 64 - 1 - w)

-- The optional fields as `none` when they are not set.
pub record ChunkIdData : Type 0 where
  pub ledgerid : ℕ
  pub entryid : ℕ
  pub partition : Option ℤ

pub record MessageIdData : Type 0 where
  pub ledgerid : ℕ
  pub entryid : ℕ
  pub partition : Option ℤ
  pub batch_index : Option ℤ
  pub batch_size : Option ℤ
  pub first_chunk_message_id : Option ChunkIdData

abbrev pub get_or_default : Option ℤ → ℤ → ℤ
get_or_default none d = d
get_or_default (some a) d = a

abbrev pub set_unless : ℤ → ℤ → Option ℤ
set_unless d a = if eq_ℤ a d then none else some a

unfoldable pub first_chunk_data : ℤ → List MessageIdImpl → Option ChunkIdData
unfolding to_u64
first_chunk_data partition [] = none
first_chunk_data partition (first ∷ rest) = some (record {
  ledgerid = to_u64 first.ledger_id;
  entryid = to_u64 first.entry_id;
  partition = if eq_ℤ partition minus_one then none else some first.partition;
})

unfoldable pub to_data : MessageId → MessageIdData
unfolding to_u64 first_chunk_data
to_data m = record {
  ledgerid = to_u64 m.impl.ledger_id;
  entryid = to_u64 m.impl.entry_id;
  partition = set_unless minus_one m.impl.partition;
  batch_index = set_unless minus_one m.impl.batch_index;
  batch_size = set_unless (pos 0) m.impl.batch_size;
  first_chunk_message_id = first_chunk_data m.impl.partition m.chunked_message_ids;
}

-- `MessageIdBuilder::from` on the parsed message, and on the id of its first chunk.
unfoldable pub impl_of_data : MessageIdData → MessageIdImpl
unfolding to_i64
impl_of_data d = record default_impl {
  ledger_id = to_i64 d.ledgerid;
  entry_id = to_i64 d.entryid;
  partition = get_or_default d.partition minus_one;
  batch_index = get_or_default d.batch_index minus_one;
  batch_size = get_or_default d.batch_size (pos 0);
}

unfoldable pub impl_of_chunk_data : ChunkIdData → MessageIdImpl
unfolding to_i64
impl_of_chunk_data d = record default_impl {
  ledger_id = to_i64 d.ledgerid;
  entry_id = to_i64 d.entryid;
  partition = get_or_default d.partition minus_one;
}

unfoldable pub of_data : MessageIdData → MessageId
unfolding impl_of_data impl_of_chunk_data
of_data d = elim d.first_chunk_message_id [
  | none ↦ build (impl_of_data d)
  | some c ↦ chunk_message_id (impl_of_chunk_data c) (impl_of_data d ∷ [])
]

module _ {Bytes : Type 0} (serialize_to_string : MessageIdData → Bytes) where
  unfoldable pub serialize : MessageId → Bytes
  unfolding to_data
  serialize m = serialize_to_string (to_data m)

module _ {Bytes : Type 0} (parse_from_string : Bytes → Option MessageIdData) where
  -- `none` is the exception `std::invalid_argument`.
  unfoldable pub deserialize : Bytes → Option MessageId
  unfolding of_data
  deserialize bytes = elim (parse_from_string bytes) [ none ↦ none | some d ↦ some (of_data d) ]

-- A field of type int64_t.
abbrev pub IsI64 : ℤ → Type 0
IsI64 (pos n) = n < 2 ^ 63
IsI64 (negsuc n) = n < 2 ^ 63

to_i64-to_u64 : (z : ℤ) → IsI64 z → to_i64 (to_u64 z) ≡ z
unfolding to_i64 to_u64
to_i64-to_u64 (pos n) h = ground arith
to_i64-to_u64 (negsuc n) h = ground arith

get-set : (d a : ℤ) → get_or_default (set_unless d a) d ≡ a
get-set d a = ground arith

impl_of_data-to_data :
    (m : MessageIdImpl) (chunks : List MessageIdImpl)
    → IsI64 m.ledger_id
    → IsI64 m.entry_id
    → impl_of_data (to_data (record { impl = m; chunked_message_ids = chunks }))
      ≡ record m { topic_name = "" }
unfolding impl_of_data to_data
impl_of_data-to_data m chunks l e = ground (
  arith,
  to_i64-to_u64 m.ledger_id l,
  to_i64-to_u64 m.entry_id e,
  get-set minus_one m.partition,
  get-set minus_one m.batch_index,
  get-set (pos 0) m.batch_size,
)

-- The ledger, entry and partition of an id, and nothing of a batch or a topic.
abbrev pub place_of : MessageIdImpl → MessageIdImpl
place_of m = record default_impl {
  ledger_id = m.ledger_id;
  entry_id = m.entry_id;
  partition = m.partition;
}

impl_of_chunk_data-first :
    (x : MessageIdImpl) (partition : ℤ)
    → x.partition ≡ partition
    → IsI64 x.ledger_id
    → IsI64 x.entry_id
    → impl_of_chunk_data (record {
      ledgerid = to_u64 x.ledger_id;
      entryid = to_u64 x.entry_id;
      partition = if eq_ℤ partition minus_one then none else some x.partition;
    })
      ≡ place_of x
unfolding impl_of_chunk_data
impl_of_chunk_data-first x partition p l e =
    ground (
      arith,
      to_i64-to_u64 x.ledger_id l,
      to_i64-to_u64 x.entry_id e,
      get-set minus_one x.partition,
    )

of_data-to_data_chunked :
    (m first : MessageIdImpl) (rest : List MessageIdImpl)
    → first.partition ≡ m.partition
    → IsI64 first.ledger_id
    → IsI64 first.entry_id
    → IsI64 m.ledger_id
    → IsI64 m.entry_id
    → of_data (to_data (record { impl = m; chunked_message_ids = first ∷ rest }))
      ≡ chunk_message_id (place_of first) (record m { topic_name = "" } ∷ [])
unfolding of_data to_data
of_data-to_data_chunked m first rest p l e l' e' =
    ap₂ (λ (c d : MessageIdImpl). chunk_message_id c (d ∷ []))
      (impl_of_chunk_data-first first m.partition p l e)
      (impl_of_data-to_data m (first ∷ rest) l' e')

module _ {Bytes : Type 0} (serialize_to_string : MessageIdData → Bytes)
    (parse_from_string : Bytes → Option MessageIdData)
    (parse-serialize : (d : MessageIdData)
      → parse_from_string (serialize_to_string d) ≡ some d) where
  abbrev pub reread : MessageId → Option MessageId
  reread m = deserialize parse_from_string (serialize serialize_to_string m)

  reread-to_data : (m : MessageId) → reread m ≡ some (of_data (to_data m))
  unfolding serialize deserialize
  reread-to_data m = rw (parse-serialize (to_data m), deserialize)

  -- An id that is not of a chunked message, with ledger and entry ids of 64 bits with sign,
  -- comes back from its bytes with every field but the topic name, which is not written, if
  -- protobuf parses what it has serialized.
  pub deserialize-serialize :
      (m : MessageIdImpl)
      → IsI64 m.ledger_id
      → IsI64 m.entry_id
      → reread (build m) ≡ some (build (record m { topic_name = "" }))
  unfolding of_data to_data
  deserialize-serialize m l e =
      reread-to_data (build m)
      ∙ ap some (ap (λ (d : MessageIdImpl). build d) (impl_of_data-to_data m [] l e))

  -- The id of a chunked message comes back from its bytes as the id of its first chunk, without
  -- a place in a batch, and of its last, when these are in one partition, their ledger and
  -- entry ids have 64 bits with sign, and protobuf parses what it has serialized.
  deserialize-serialize_chunked :
      (first : MessageIdImpl) (rest : List MessageIdImpl)
      → let m = chunk_message_id first rest in
        first.partition ≡ m.impl.partition
        → IsI64 first.ledger_id
        → IsI64 first.entry_id
        → IsI64 m.impl.ledger_id
        → IsI64 m.impl.entry_id
        → reread m ≡ some (chunk_message_id (place_of first) (m.impl ∷ []))
  unfolding chunk_message_id
  deserialize-serialize_chunked first rest p l e l' e' =
      reread-to_data m ∙ ap some (of_data-to_data_chunked m.impl first rest p l e l' e')
    where
      m : MessageId
      m = chunk_message_id first rest
