-- ===== src/AckGrouping.antt =====
-- lib/AckGroupingTracker.cc and lib/AckGroupingTrackerEnabled.cc: acknowledgements of a consumer that
-- are sent to the broker in groups. Callbacks are numbers (each call passes one). The commands sent
-- and the callbacks called are logs; a request waits for its response in `requests`. Of an
-- acknowledgement the log holds the ids, not the bit set of a batch.
pub mod Callbacks
pub mod Duplicates
mod Tests
use pulsar_client_cpp.Prelude.{
  ℕ, zero, suc, ◌+◌, ◌-◌, ◌^◌, Bool, true, false, not, ◌&&◌, ◌||◌, Option, none, some, List, [],
  ◌∷◌, ◌++◌, length, ltb, leb, ◌==◌, if◌then◌else◌,
}
use pulsar_client_cpp.Prelude.Int.{ℤ, pos, negsuc}
use pulsar_client_cpp.Result.{Result}
use pulsar_client_cpp.MessageId.{
  MessageIdImpl, MessageId, default_impl, Comparison, less, equal, greater, compare_ℤ,
  compare_ledger_and_entry_id,
}
use pulsar_client_cpp.IdMap.{IdMap, IdSet, insert, find, emplace}

-- A `std::set<MessageId>` whose ids may be chunked: each with the ids of its chunks, if it has any.
abbrev pub ChunkedIdSet : Type 0
ChunkedIdSet = IdMap (List MessageIdImpl)

pub data Ack : Type 0 where
  individual cumulative : MessageIdImpl → Ack
  multi : IdSet → Ack

-- What a callback of a request calls: callbacks of the tracker's clients, or these when a counter
-- that several requests share (its address) is down to 0.
pub data Notify : Type 0 where
  calls : List ℕ → Notify
  counts : ℕ → List ℕ → Notify

-- `connection` says whether there is one, and whether its server takes acknowledgements of several
-- messages.
pub record AckGroupingTracker : Type 0 where
  pub wait_response : Bool
  pub ack_grouping_max_size : ℕ
  pub connection : Option Bool
  pub next_cumulative_ack : MessageIdImpl
  pub require_cumulative_ack : Bool
  pub latest_cumulative_callback : Option ℕ
  pub pending_individual_acks : ChunkedIdSet
  pub pending_individual_callbacks : List ℕ
  pub counters : ℕ → ℕ
  pub next_counter : ℕ
  pub sent : List Ack
  pub requests : List Notify
  pub completed : List (ℕ × Result)

abbrev pub all_with : Result → List ℕ → List (ℕ × Result)
all_with r [] = []
all_with r (c ∷ cs) = (c, r) ∷ all_with r cs

abbrev pub complete : AckGroupingTracker → List ℕ → Result → AckGroupingTracker
complete t cs r = record t { completed = t.completed ++ all_with r cs }

unfoldable pub notify : AckGroupingTracker → Notify → Result → AckGroupingTracker
notify t (calls cs) r = complete t cs r
notify t (counts a cs) r =
    let t' = record t { counters = λ b. if b == a then t.counters a - 1 else t.counters b } in
    if t'.counters a == 0 then complete t' cs r else t'

-- The end of both `doImmediateAck`: a request that waits for its response, or a command.
unfoldable pub send : AckGroupingTracker → Ack → Notify → AckGroupingTracker
unfolding notify
send t ack n =
    let t' = record t { sent = t.sent ++ (ack ∷ []) } in
    if t.wait_response
    then record t' { requests = t'.requests ++ (n ∷ []) }
    else notify t' n Result.ok

-- `doImmediateAck` of an id that is not chunked, or cumulatively.
unfoldable pub do_immediate_ack_id : AckGroupingTracker → Ack → Notify → AckGroupingTracker
unfolding send notify
do_immediate_ack_id t ack n = elim t.connection [
  | none ↦ notify t n Result.already_closed
  | some multi_message ↦ send t ack n
]

unfoldable pub insert_all : List MessageIdImpl → IdSet → IdSet
unfolding emplace
insert_all [] s = s
insert_all (id ∷ ids) s = insert_all ids (insert id s)

-- The set with each chunked id replaced by the ids of its chunks.
unfoldable pub expand : ChunkedIdSet → IdSet → IdSet
unfolding insert_all emplace
expand [] s = s
expand ((id, []) ∷ ids) s = expand ids (insert id s)
expand ((id, c ∷ cs) ∷ ids) s = expand ids (insert_all (c ∷ cs) s)

unfoldable pub send_each : AckGroupingTracker → IdSet → Notify → AckGroupingTracker
unfolding do_immediate_ack_id
send_each t [] n = t
send_each t ((id, u) ∷ ids) n = send_each (do_immediate_ack_id t (individual id) n) ids n

-- `doImmediateAck` of a set.
unfoldable pub do_immediate_ack_set :
    AckGroupingTracker → ChunkedIdSet → List ℕ → AckGroupingTracker
unfolding notify send expand send_each
do_immediate_ack_set t msg_ids cs = elim t.connection [
  | none ↦ notify t (calls cs) Result.already_closed
  | some true ↦ send t (multi (expand msg_ids [])) (calls cs)
  | some false ↦
      let ids = expand msg_ids [] in
      let a = t.next_counter in
      let t' = record t {
        next_counter = a + 1;
        counters = λ b. if b == a then length ids else t.counters b;
      } in
      send_each t' ids (counts a cs)
]

-- A set of ids that are not chunked.
unfoldable pub insert_chunks : List MessageIdImpl → ChunkedIdSet → ChunkedIdSet
unfolding emplace
insert_chunks [] s = s
insert_chunks (id ∷ ids) s = insert_chunks ids (emplace id [] s)

-- `doImmediateAck` of one id, individually, as a tracker without grouping calls it.
unfoldable pub do_immediate_ack : AckGroupingTracker → MessageId → List ℕ → AckGroupingTracker
unfolding do_immediate_ack_id do_immediate_ack_set notify insert_chunks
do_immediate_ack t m cs = elim t.connection [
  | none ↦ notify t (calls cs) Result.already_closed
  | some multi_message ↦ elim m.chunked_message_ids [
    | [] ↦ do_immediate_ack_id t (individual m.impl) (calls cs)
    | c ∷ rest ↦ do_immediate_ack_set t (insert_chunks (c ∷ rest) []) cs
  ]
]

-- `compare` of lib/AckGroupingTrackerEnabled.cc: the id of an entry is behind those of its batch.
unfoldable pub index_or_max : ℤ → ℤ
index_or_max (pos n) = pos n
index_or_max (negsuc n) = pos (2 ^ 31 - 1)

unfoldable pub compare_ids : MessageIdImpl → MessageIdImpl → Comparison
unfolding compare_ledger_and_entry_id compare_ℤ index_or_max
compare_ids a b = elim (compare_ledger_and_entry_id a b) [
  | equal ↦ compare_ℤ (index_or_max a.batch_index) (index_or_max b.batch_index)
  | less ↦ less
  | greater ↦ greater
]

-- Whether `compare` answers more than 0.
abbrev pub is_after : MessageIdImpl → MessageIdImpl → Bool
unfolding compare_ids
is_after a b = elim (compare_ids a b) [ greater ↦ true | equal ↦ false | less ↦ false ]

unfoldable pub is_duplicate : AckGroupingTracker → MessageIdImpl → Bool
unfolding compare_ids find
is_duplicate t id =
    if not (is_after id t.next_cumulative_ack)
    then true
    else (elim (find id t.pending_individual_acks) [ some cs ↦ true | none ↦ false ])

abbrev pub to_list : Option ℕ → List ℕ
to_list none = []
to_list (some c) = c ∷ []

unfoldable pub flush_cumulative : AckGroupingTracker → AckGroupingTracker
unfolding do_immediate_ack_id
flush_cumulative t =
    if t.require_cumulative_ack
    then record (do_immediate_ack_id t (cumulative t.next_cumulative_ack)
        (calls (to_list t.latest_cumulative_callback))) {
          latest_cumulative_callback = none;
          require_cumulative_ack = false;
        }
    else t

unfoldable pub flush_individual : AckGroupingTracker → AckGroupingTracker
unfolding do_immediate_ack_set
flush_individual t = elim t.pending_individual_acks [
  | [] ↦ t
  | id ∷ ids ↦
      record (do_immediate_ack_set (record t { pending_individual_callbacks = [] }) (id ∷ ids)
        t.pending_individual_callbacks) { pending_individual_acks = [] }
]

unfoldable pub flush : AckGroupingTracker → AckGroupingTracker
unfolding flush_cumulative flush_individual
flush t = flush_individual (flush_cumulative t)

-- What `addAcknowledge` and `addAcknowledgeList` do with the callback, and the flush of a full set.
unfoldable pub add_callback : AckGroupingTracker → ℕ → AckGroupingTracker
unfolding flush
add_callback t c =
    let t' =
      if t.wait_response
      then record t { pending_individual_callbacks = t.pending_individual_callbacks ++ (c ∷ []) }
      else complete t (c ∷ []) Result.ok in
    if ltb 0 t'.ack_grouping_max_size
      && leb t'.ack_grouping_max_size (length t'.pending_individual_acks)
    then flush t'
    else t'

unfoldable pub emplace_all : List MessageId → ChunkedIdSet → ChunkedIdSet
unfolding emplace
emplace_all [] s = s
emplace_all (m ∷ ms) s = emplace_all ms (emplace m.impl m.chunked_message_ids s)

unfoldable pub add_acknowledge : AckGroupingTracker → MessageId → ℕ → AckGroupingTracker
unfolding add_callback emplace
add_acknowledge t m c =
    add_callback
      (record t {
        pending_individual_acks = emplace m.impl m.chunked_message_ids t.pending_individual_acks;
      })
      c

unfoldable pub add_acknowledge_list : AckGroupingTracker → List MessageId → ℕ → AckGroupingTracker
unfolding add_callback emplace_all
add_acknowledge_list t ms c =
    add_callback (record t { pending_individual_acks = emplace_all ms t.pending_individual_acks }) c

abbrev pub complete_latest : AckGroupingTracker → AckGroupingTracker
complete_latest t = elim t.latest_cumulative_callback [
  | none ↦ t
  | some c ↦ complete t (c ∷ []) Result.ok
]

unfoldable pub add_acknowledge_cumulative :
    AckGroupingTracker → MessageIdImpl → ℕ → AckGroupingTracker
unfolding compare_ids
add_acknowledge_cumulative t id c =
    if is_after id t.next_cumulative_ack
    then (let t' = record (complete_latest t) {
      next_cumulative_ack = id;
      require_cumulative_ack = true;
    } in
        if t.wait_response
        then record t' { latest_cumulative_callback = some c }
        else complete (record t' { latest_cumulative_callback = none }) (c ∷ []) Result.ok)
    else complete t (c ∷ []) Result.ok

unfoldable pub flush_and_clean : AckGroupingTracker → AckGroupingTracker
unfolding flush
flush_and_clean t = record (flush t) {
  next_cumulative_ack = default_impl;
  latest_cumulative_callback = none;
  require_cumulative_ack = false;
  pending_individual_acks = [];
}

-- The response to the oldest request.
unfoldable pub receive_response : AckGroupingTracker → Result → AckGroupingTracker
unfolding notify
receive_response t r = elim t.requests [ [] ↦ t | n ∷ ns ↦ notify (record t { requests = ns }) n r ]
