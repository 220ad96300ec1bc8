-- ===== src/KeyBatch.antt =====
-- lib/BatchMessageKeyBasedContainer.cc: a container with one batch for each key. The map of batches is
-- a list of entries; in what order an unordered map goes through its entries is not specified, and the
-- order of the operations does not depend on it where their sequence ids differ. The averages that the
-- container only prints are left out.
pub mod Order
mod Tests
use Prim.Native.String.{String}
use text.Mathlib.Text.{◌==◌ as str_eq}
use pulsar_client_cpp.Prelude.{
  ℕ, ◌+◌, Bool, true, false, not, ◌&&◌, ◌||◌, Option, none, some, List, [], ◌∷◌, ◌++◌, length, ltb,
  leb, ◌==◌, if◌then◌else◌,
}
use pulsar_client_cpp.Result.{Result}
use pulsar_client_cpp.Op.{
  Message, Codec, OpSendMsg, Batch, empty_batch, add_to_batch, batch_op_send_msg,
  add_tracker_callback,
}

-- A message with its keys.
pub record KeyedMessage : Type 0 where
  pub message : Message
  pub ordering_key : Option String
  pub partition_key : String

unfoldable pub get_key : KeyedMessage → String
get_key m = elim m.ordering_key [ some k ↦ k | none ↦ m.partition_key ]

pub record KeyBasedContainer : Type 0 where
  pub max_num_messages : ℕ
  pub max_size_in_bytes : ℕ
  pub num_messages : ℕ
  pub size_in_bytes : ℕ
  pub number_of_batches_sent : ℕ
  pub batches : List (String × Batch)

abbrev pub is_blank : Batch → Bool
is_blank b = length b.callbacks == 0

-- `batches_.find`.
abbrev pub find_batch : String → List (String × Batch) → Option Batch
find_batch k [] = none
find_batch k ((key, b) ∷ bs) = if str_eq k key then some b else find_batch k bs

unfoldable pub is_first_message_to_add : KeyBasedContainer → KeyedMessage → Bool
unfolding get_key
is_first_message_to_add c m = elim (find_batch (get_key m) c.batches) [
  | none ↦ true
  | some b ↦ is_blank b
]

-- `batches_[key].add(msg, callback)`.
unfoldable pub add_at : String → Message → ℕ → List (String × Batch) → List (String × Batch)
unfolding add_to_batch
add_at k msg callback [] = (k, add_to_batch empty_batch msg callback) ∷ []
add_at k msg callback ((key, b) ∷ bs) =
    let rest = add_at k msg callback bs in
    if str_eq k key then (key, add_to_batch b msg callback) ∷ bs else (key, b) ∷ rest

-- `add`, with `updateStats` and `isFull`.
unfoldable pub add : KeyBasedContainer → KeyedMessage → ℕ → Bool × KeyBasedContainer
unfolding get_key add_at
add c m callback =
    let num = c.num_messages + 1 in
    let size = c.size_in_bytes + m.message.payload_length in
    (
      leb c.max_num_messages num || leb c.max_size_in_bytes size,
      record c {
        num_messages = num;
        size_in_bytes = size;
        batches = add_at (get_key m) m.message callback c.batches;
      },
    )

unfoldable pub clear : KeyBasedContainer → KeyBasedContainer
clear c = record c {
  num_messages = 0;
  size_in_bytes = 0;
  number_of_batches_sent = c.number_of_batches_sent + length c.batches;
  batches = [];
}

-- Whether the operation has `sendArgs`, which a failed one has not.
abbrev pub has_send_args : OpSendMsg → Bool
has_send_args op = elim op.result [ Result.ok ↦ true | _ ↦ false ]

-- The loop of `createOpSendMsgs` over the batches, with the parameters of the producer.
unfoldable pub raw_ops : (Batch → OpSendMsg) → List (String × Batch) → List OpSendMsg
raw_ops create [] = []
raw_ops create ((key, b) ∷ bs) =
    let rest = raw_ops create bs in if is_blank b then rest else create b ∷ rest

-- `std::sort` by `sendArgs->sequenceId`. The comparison dereferences a null pointer where one of two
-- operations has failed; with one operation nothing is compared.
unfoldable pub insert_op : OpSendMsg → List OpSendMsg → List OpSendMsg
insert_op op [] = op ∷ []
insert_op op (x ∷ xs) =
    let rest = insert_op op xs in if ltb x.sequence_id op.sequence_id then x ∷ rest else op ∷ x ∷ xs

unfoldable pub sort_ops : List OpSendMsg → List OpSendMsg
unfolding insert_op
sort_ops [] = []
sort_ops (op ∷ ops) = insert_op op (sort_ops ops)

abbrev pub all_have_send_args : List OpSendMsg → Bool
all_have_send_args [] = true
all_have_send_args (op ∷ ops) = has_send_args op && all_have_send_args ops

-- `none` is the null dereference.
unfoldable pub sort_checked : List OpSendMsg → Option (List OpSendMsg)
unfolding sort_ops
sort_checked ops =
    if leb 2 (length ops) && not (all_have_send_args ops) then none else some (sort_ops ops)

abbrev pub track_last : List OpSendMsg → Option ℕ → List OpSendMsg
unfolding add_tracker_callback
track_last [] flush_callback = []
track_last (op ∷ []) flush_callback = add_tracker_callback op flush_callback ∷ []
track_last (op ∷ next ∷ ops) flush_callback = op ∷ track_last (next ∷ ops) flush_callback

-- `createOpSendMsgs`. Without operations the container is left as it is.
unfoldable pub create_op_send_msgs :
    Codec
    → (max_message_size send_timeout now : ℕ) → KeyBasedContainer
    → Option ℕ
    → Option (List OpSendMsg × KeyBasedContainer)
unfolding raw_ops sort_checked batch_op_send_msg clear add_tracker_callback
create_op_send_msgs codec max_message_size send_timeout now c flush_callback =
    let ops =
      raw_ops (λ b. (batch_op_send_msg codec max_message_size send_timeout now b).0) c.batches in
    elim (sort_checked ops) [
      | none ↦ none
      | some [] ↦ some ([], c)
      | some (op ∷ rest) ↦ some (track_last (op ∷ rest) flush_callback, clear c)
    ]
