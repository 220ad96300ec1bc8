-- ===== src/MessageId.antt =====
-- Message ids: lib/MessageIdImpl.h, lib/ChunkMessageIdImpl.h, lib/MessageId.cc,
-- lib/MessageIdBuilder.cc and lib/MessageIdUtil.h.
pub mod Order
pub mod Codec
mod Tests
use Prim.Native.String.{String}
use pulsar_client_cpp.Prelude.{
  ℕ, ◌+◌, ◌-◌, ◌%◌, ◌^◌, Bool, true, false, not, ◌&&◌, ◌||◌, List, [], ◌∷◌, Option, none, some, ltb,
  if◌then◌else◌,
}
use pulsar_client_cpp.Prelude.Int.{ℤ, pos, negsuc, ltb_ℤ, ◌-ℤ◌}

abbrev pub minus_one : ℤ
minus_one = negsuc 0

-- `MessageIdImpl`.
pub record MessageIdImpl : Type 0 where
  pub ledger_id : ℤ
  pub entry_id : ℤ
  pub partition : ℤ
  pub batch_index : ℤ
  pub batch_size : ℤ
  pub topic_name : String

-- `MessageId` with what it points to: the fields, and the ids of the chunks where it points to a
-- `ChunkMessageIdImpl` (no ids otherwise).
pub record MessageId : Type 0 where
  pub impl : MessageIdImpl
  pub open impl use *
  pub chunked_message_ids : List MessageIdImpl

abbrev pub default_impl : MessageIdImpl
default_impl = record {
  ledger_id = minus_one;
  entry_id = minus_one;
  partition = minus_one;
  batch_index = minus_one;
  batch_size = pos 0;
  topic_name = "";
}

-- `MessageIdBuilder::build`; the acker of a batched id is `BatchMessageAcker` and keeps no state.
abbrev pub build : MessageIdImpl → MessageId
build impl = record { impl = impl; chunked_message_ids = [] }

abbrev pub earliest : MessageId
earliest = build default_impl

abbrev pub latest : MessageId
latest = build (record default_impl { ledger_id = pos (2 ^ 63 - 1); entry_id = pos (2 ^ 63 - 1) })

last_of : MessageIdImpl → List MessageIdImpl → MessageIdImpl
last_of x [] = x
last_of x (y ∷ ys) = last_of y ys

-- The constructor of `ChunkMessageIdImpl` on a vector with first element `x`.
unfoldable pub chunk_message_id : MessageIdImpl → List MessageIdImpl → MessageId
unfolding last_of
chunk_message_id x xs =
    let last = last_of x xs in
    record {
      impl = record default_impl {
        ledger_id = last.ledger_id;
        entry_id = last.entry_id;
        partition = last.partition;
      };
      chunked_message_ids = x ∷ xs;
    }

abbrev pub eq_ℤ : ℤ → ℤ → Bool
eq_ℤ a b = not (ltb_ℤ a b) && not (ltb_ℤ b a)

-- The operators of `MessageId`, which look at the fields alone.
unfoldable pub lt : MessageIdImpl → MessageIdImpl → Bool
lt a b =
    if ltb_ℤ a.ledger_id b.ledger_id
    then true
    else if ltb_ℤ b.ledger_id a.ledger_id
    then false
    else if ltb_ℤ a.entry_id b.entry_id
    then true
    else if ltb_ℤ b.entry_id a.entry_id
    then false
    else if ltb_ℤ a.batch_index b.batch_index
    then true
    else false

unfoldable pub eq : MessageIdImpl → MessageIdImpl → Bool
eq a b =
    eq_ℤ a.ledger_id b.ledger_id
    && (eq_ℤ a.entry_id b.entry_id
        && (eq_ℤ a.batch_index b.batch_index && eq_ℤ a.partition b.partition))

unfoldable pub le : MessageIdImpl → MessageIdImpl → Bool
unfolding lt eq
le a b = lt a b || eq a b

unfoldable pub gt : MessageIdImpl → MessageIdImpl → Bool
unfolding le
gt a b = not (le a b)

unfoldable pub ge : MessageIdImpl → MessageIdImpl → Bool
unfolding lt
ge a b = not (lt a b)

unfoldable pub ne : MessageIdImpl → MessageIdImpl → Bool
unfolding eq
ne a b = not (eq a b)

-- The three results of `internal::compare`.
pub data Comparison : Type 0 where
  less equal greater : Comparison

unfoldable pub compare_ℤ : ℤ → ℤ → Comparison
compare_ℤ a b = if ltb_ℤ a b then less else if eq_ℤ a b then equal else greater

unfoldable pub compare_ledger_and_entry_id : MessageIdImpl → MessageIdImpl → Comparison
unfolding compare_ℤ
compare_ledger_and_entry_id a b = elim (compare_ℤ a.ledger_id b.ledger_id) [
  | equal ↦ compare_ℤ a.entry_id b.entry_id
  | less ↦ less
  | greater ↦ greater
]

-- `discardBatch`: the builder copies the fields, so the chunk ids are dropped too.
unfoldable pub discard_batch : MessageIdImpl → MessageIdImpl
discard_batch m = record m { batch_index = minus_one; batch_size = pos 0 }

-- `BatchedMessageIdImpl::getPreviousMessageId`.
unfoldable pub previous_message_id : MessageIdImpl → MessageIdImpl
unfolding ◌-ℤ◌
previous_message_id m = record default_impl {
  ledger_id = m.ledger_id;
  entry_id = m.entry_id -ℤ pos 1;
  partition = m.partition;
}
