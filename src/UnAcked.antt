-- ===== src/UnAcked.antt =====
-- lib/UnAckedMessageTrackerEnabled.cc: the messages that a consumer has received and not
-- acknowledged, in time partitions, of which one expires with every tick. The map refers to an element
-- of the deque; such an element is numbered here from the first one ever at the front, so that the
-- front has the number `head`. What is passed to `redeliverUnacknowledgedMessages` is a log.
pub mod Partitions
pub mod Valid
pub mod Removing
pub mod Tracking
pub mod Ticks
mod Tests
use Prim.Native.String.{String}
use text.Mathlib.Text.{◌==◌ as str_eq}
use pulsar_client_cpp.Prelude.{
  ℕ, zero, suc, ◌+◌, ◌-◌, ◌/◌, Bool, true, false, not, Option, none, some, List, [], ◌∷◌, ◌++◌,
  length, map, replicate, leb, ◌==◌, if◌then◌else◌,
}
use pulsar_client_cpp.MessageId.{MessageIdImpl, discard_batch, le}
use pulsar_client_cpp.IdMap.{IdMap, IdSet, find, emplace, erase, contains, insert}

pub record UnAckedMessageTracker : Type 0 where
  pub head : ℕ
  pub time_partitions : List IdSet
  pub message_id_partition_map : IdMap ℕ
  pub redelivered : List IdSet

-- The number of partitions: `ceil(timeoutMs_ / tickDurationInMs_) + 1`.
unfoldable pub blank_partitions : ℕ → ℕ → ℕ
blank_partitions timeout tick_duration =
    let tick = if leb tick_duration timeout then tick_duration else timeout in
    (timeout + tick - 1) / tick + 1

unfoldable pub new : ℕ → ℕ → UnAckedMessageTracker
unfolding blank_partitions
new timeout tick_duration = record {
  head = 0;
  time_partitions = replicate (blank_partitions timeout tick_duration) [];
  message_id_partition_map = [];
  redelivered = [];
}

-- An insertion into the partition at the back.
unfoldable pub insert_back : MessageIdImpl → List IdSet → List IdSet
insert_back a [] = []
insert_back a (s ∷ []) = insert a s ∷ []
insert_back a (s ∷ r ∷ ss) = s ∷ insert_back a (r ∷ ss)

unfoldable pub is_in_back : MessageIdImpl → List IdSet → Bool
unfolding contains
is_in_back a [] = false
is_in_back a (s ∷ []) = contains a s
is_in_back a (s ∷ r ∷ ss) = is_in_back a (r ∷ ss)

-- The answer says that both insertions were of something new.
unfoldable pub add : UnAckedMessageTracker → MessageIdImpl → Bool × UnAckedMessageTracker
unfolding find emplace insert_back is_in_back discard_batch
add t msg_id =
    let id = discard_batch msg_id in
    elim (find id t.message_id_partition_map) [
      | some k ↦ (false, t)
      | none ↦ (
        true,
        record t {
          message_id_partition_map =
              emplace id (t.head + length t.time_partitions - 1) t.message_id_partition_map;
          time_partitions = insert_back id t.time_partitions;
        },
      )
    ]

unfoldable pub is_empty : UnAckedMessageTracker → Bool
is_empty t = elim t.message_id_partition_map [ [] ↦ true | _ ∷ _ ↦ false ]

unfoldable pub size : UnAckedMessageTracker → ℕ
size t = length t.message_id_partition_map

-- An erasure from the partition with number `k`, where the list begins with number `n`.
unfoldable pub erase_from : ℕ → ℕ → MessageIdImpl → List IdSet → List IdSet
unfolding erase
erase_from k n a [] = []
erase_from k n a (s ∷ ss) =
    let rest = erase_from k (n + 1) a ss in if k == n then erase a s ∷ ss else s ∷ rest

-- Whether the partition with number `k` holds the id.
unfoldable pub holds : ℕ → ℕ → MessageIdImpl → List IdSet → Bool
unfolding contains
holds k n a [] = false
holds k n a (s ∷ ss) = let rest = holds k (n + 1) a ss in if k == n then contains a s else rest

unfoldable pub remove : UnAckedMessageTracker → MessageIdImpl → Bool × UnAckedMessageTracker
unfolding find erase erase_from holds discard_batch
remove t msg_id =
    let id = discard_batch msg_id in
    elim (find id t.message_id_partition_map) [
      | none ↦ (false, t)
      | some k ↦ (
        holds k t.head id t.time_partitions,
        record t {
          message_id_partition_map = erase id t.message_id_partition_map;
          time_partitions = erase_from k t.head id t.time_partitions;
        },
      )
    ]

unfoldable pub remove_list : UnAckedMessageTracker → List MessageIdImpl → UnAckedMessageTracker
unfolding remove
remove_list t [] = t
remove_list t (id ∷ ids) = remove_list (remove t id).1 ids

-- The loop of `removeMessagesTill` and of `removeTopicMessage` over the entries: what it keeps of the
-- map, and the partitions afterwards.
unfoldable pub remove_where :
    (MessageIdImpl → Bool) → ℕ → IdMap ℕ → List IdSet → IdMap ℕ × List IdSet
unfolding erase_from
remove_where condition n [] parts = ([], parts)
remove_where condition n ((id, k) ∷ m) parts =
    let parts' = if condition id then erase_from k n id parts else parts in
    let (kept, last) = remove_where condition n m parts' in
    (if condition id then kept else (id, k) ∷ kept, last)

unfoldable pub remove_if : (MessageIdImpl → Bool) → UnAckedMessageTracker → UnAckedMessageTracker
unfolding remove_where
remove_if condition t =
    let (kept, parts) =
      remove_where condition t.head t.message_id_partition_map t.time_partitions in
    record t { message_id_partition_map = kept; time_partitions = parts }

unfoldable pub remove_messages_till : UnAckedMessageTracker → MessageIdImpl → UnAckedMessageTracker
unfolding remove_if le
remove_messages_till t id = remove_if (λ x. le x id) t

unfoldable pub remove_topic_message : UnAckedMessageTracker → String → UnAckedMessageTracker
unfolding remove_if
remove_topic_message t topic = remove_if (λ x. str_eq x.topic_name topic) t

abbrev pub blank : List IdSet → List IdSet
blank [] = []
blank (s ∷ ss) = [] ∷ blank ss

unfoldable pub clear : UnAckedMessageTracker → UnAckedMessageTracker
clear t = record t { message_id_partition_map = []; time_partitions = blank t.time_partitions }

unfoldable pub erase_all : IdSet → IdMap ℕ → IdMap ℕ
unfolding erase
erase_all [] m = m
erase_all ((id, u) ∷ s) m = erase_all s (erase id m)

-- What lib/ConsumerImpl.cc does in `redeliverUnacknowledgedMessages` with the messages of a partition,
-- with a connection: a consumer that shares its subscription (its type is Shared or Key_Shared) asks for
-- them, any other one for all messages, which the empty set stands for, and clears its tracker. (What is
-- sent to a dead letter topic is left out.)
unfoldable pub redeliver_unacknowledged_messages :
    Bool → UnAckedMessageTracker → IdSet → UnAckedMessageTracker
unfolding clear
redeliver_unacknowledged_messages is_shared t [] = t
redeliver_unacknowledged_messages true t (x ∷ xs) = record t {
  redelivered = t.redelivered ++ ((x ∷ xs) ∷ []);
}
redeliver_unacknowledged_messages false t (x ∷ xs) =
    clear (record t { redelivered = t.redelivered ++ ([] ∷ []) })

-- `timeoutHandlerHelper`. (The set that is redelivered is a copy of the partition.)
unfoldable pub timeout_handler_helper : Bool → UnAckedMessageTracker → UnAckedMessageTracker
unfolding erase_all redeliver_unacknowledged_messages
timeout_handler_helper is_shared t = elim t.time_partitions [
  | [] ↦ t
  | s ∷ ss ↦
      redeliver_unacknowledged_messages is_shared
        (record t {
          head = t.head + 1;
          time_partitions = ss ++ ([] ∷ []);
          message_id_partition_map = erase_all s t.message_id_partition_map;
        })
        s
]
