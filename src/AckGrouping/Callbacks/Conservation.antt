-- ===== src/AckGrouping/Callbacks/Conservation.antt =====
-- Every operation of lib/AckGroupingTrackerEnabled.cc on the callbacks.
use pulsar_client_cpp.Prelude.{
  occurrences, occurrences_append, ℕ, ◌+◌, ◌≡◌, refl, ◌∙◌, ◌⊎◌, inl, inr, ◌&&◌, none, List, [], ◌∷◌,
  ◌++◌, length, ltb, leb, if◌then◌else◌, arith, Bool-cases, List-cases, Option-cases,
}
use pulsar_client_cpp.Result.{Result}
use pulsar_client_cpp.MessageId.{MessageIdImpl, MessageId}
use pulsar_client_cpp.IdMap.{emplace}
use pulsar_client_cpp.AckGrouping.{
  ChunkedIdSet, emplace_all, AckGroupingTracker, calls, counts, all_with, complete, notify,
  flush_cumulative, flush, add_callback, add_acknowledge, add_acknowledge_list,
  add_acknowledge_cumulative, flush_and_clean, receive_response,
}
use pulsar_client_cpp.AckGrouping.Callbacks.{
  called_append, called-all_with, owed, IsPlain, Keeps, flush_cumulative-Keeps,
  flush_individual-Keeps, flush_cumulative_lem, flush_individual_lem,
}

pub flush-Keeps : (t : AckGroupingTracker) → IsPlain t → Keeps [] t (flush t)
unfolding flush
flush-Keeps t v =
    let (w, e) = flush_cumulative-Keeps t v in
    let (w', e') = flush_individual-Keeps (flush_cumulative t) w in
    (w', λ n. omega (arith, e n, e' n))

-- The callback of an individual acknowledgement, before a full set is flushed.
abbrev keep_callback : AckGroupingTracker → ℕ → AckGroupingTracker
keep_callback t c =
    if t.wait_response
    then record t { pending_individual_callbacks = t.pending_individual_callbacks ++ (c ∷ []) }
    else complete t (c ∷ []) Result.ok

keep_callback-Keeps :
    (t : AckGroupingTracker) (c : ℕ) → IsPlain t → Keeps (c ∷ []) t (keep_callback t c)
keep_callback-Keeps t c v = (
  record {
    multi_message = ground (arith, v.multi_message);
    requests = ground (arith, v.requests);
    required = ground (arith, v.required);
  },
  λ n. ground (
    arith,
    occurrences_append n t.pending_individual_callbacks (c ∷ []),
    called_append n t.completed ((c, Result.ok) ∷ []),
  ),
)

add_callback-Keeps :
    (t : AckGroupingTracker) (c : ℕ) → IsPlain t → Keeps (c ∷ []) t (add_callback t c)
unfolding add_callback
add_callback-Keeps t c v =
    let (w, e) = keep_callback-Keeps t c v in
    let (w', e') = flush-Keeps (keep_callback t c) w in
    let t' = keep_callback t c in
    elim (Bool-cases (
      ltb 0 t'.ack_grouping_max_size
      && leb t'.ack_grouping_max_size (length t'.pending_individual_acks))) [
        | inl full ↦ rw full (w', λ n. omega (arith, e n, e' n))
        | inr room ↦ rw room (w, e)
      ]

pub cumulative-Keeps :
    (t : AckGroupingTracker) (id : MessageIdImpl) (c : ℕ)
    → IsPlain t
    → Keeps (c ∷ []) t (add_acknowledge_cumulative t id c)
unfolding add_acknowledge_cumulative
cumulative-Keeps t id c v = (
  record {
    multi_message = ground (arith, v.multi_message);
    requests = ground (arith, v.requests);
    required = ground (arith, v.required);
  },
  λ n. elim (Option-cases t.latest_cumulative_callback) [
    | inl e ↦ ground (arith, called_append n t.completed ((c, Result.ok) ∷ []))
    | inr (d, e) ↦ ground (
      arith,
      called_append n t.completed ((c, Result.ok) ∷ []),
      called_append n t.completed ((d, Result.ok) ∷ []),
      called_append n (t.completed ++ ((d, Result.ok) ∷ [])) ((c, Result.ok) ∷ []),
    )
  ],
)

-- A flush of a tracker with individual acknowledgements leaves no callback behind in the tracker:
-- those of its cumulative and individual acknowledgements are called or wait for a response.
flush_leaves_none :
    (t : AckGroupingTracker)
    → IsPlain t
    → ((flush t).latest_cumulative_callback ≡ none)
      × ((t.pending_individual_acks ≡ []) ⊎ ((flush t).pending_individual_callbacks ≡ []))
unfolding flush
flush_leaves_none t v =
    let (no_latest, same_acks) = flush_cumulative_lem t v in
    let (same_latest, none_left) =
      flush_individual_lem (flush_cumulative t) (flush_cumulative-Keeps t v).0 in
    (same_latest ∙ no_latest, ground arith)

flush_and_clean-Keeps : (t : AckGroupingTracker) → IsPlain t → Keeps [] t (flush_and_clean t)
unfolding flush_and_clean
flush_and_clean-Keeps t v =
    let (w, e) = flush-Keeps t v in
    (
      record { multi_message = w.multi_message; requests = w.requests; required = inr refl },
      λ n. ground (arith, e n, flush_leaves_none t v),
    )

pub receive_response-Keeps :
    (t : AckGroupingTracker) (r : Result) → IsPlain t → Keeps [] t (receive_response t r)
unfolding receive_response notify
receive_response-Keeps t r v = elim (List-cases t.requests) [
  | inl e ↦ (
    record {
      multi_message = ground (arith, v.multi_message);
      requests = ground (arith, v.requests);
      required = ground (arith, v.required);
    },
    λ n. ground arith,
  )
  | inr (calls cs, ns, e) ↦ (
    record {
      multi_message = ground (arith, v.multi_message);
      requests = ground (arith, v.requests);
      required = ground (arith, v.required);
    },
    λ n. ground (arith, called_append n t.completed (all_with r cs), called-all_with n r cs),
  )
  | inr (counts a cs, ns, e) ↦ absurd (ground (arith, v.requests))
]

pub data Event : Type 0 where
  adds : MessageId → ℕ → Event
  adds_list : List MessageId → ℕ → Event
  adds_cumulative : MessageIdImpl → ℕ → Event
  flushes cleans : Event
  responds : Result → Event

unfoldable pub step : AckGroupingTracker → Event → AckGroupingTracker
step t (adds m c) = add_acknowledge t m c
step t (adds_list ms c) = add_acknowledge_list t ms c
step t (adds_cumulative id c) = add_acknowledge_cumulative t id c
step t flushes = flush t
step t cleans = flush_and_clean t
step t (responds r) = receive_response t r

unfoldable pub run : AckGroupingTracker → List Event → AckGroupingTracker
unfolding step
run t [] = t
run t (e ∷ es) = run (step t e) es

-- The callback that a call passes.
abbrev pub given : Event → List ℕ
given (adds m c) = c ∷ []
given (adds_list ms c) = c ∷ []
given (adds_cumulative id c) = c ∷ []
given flushes = []
given cleans = []
given (responds r) = []

abbrev pub all_given : List Event → List ℕ
all_given [] = []
all_given (e ∷ es) = given e ++ all_given es

with_acks :
    (t : AckGroupingTracker) {ids : ChunkedIdSet}
    → IsPlain t
    → IsPlain (record t { pending_individual_acks = ids })
with_acks t v = record {
  multi_message = v.multi_message;
  requests = v.requests;
  required = v.required;
}

pub add_acknowledge-Keeps :
    (t : AckGroupingTracker) (m : MessageId) (c : ℕ)
    → IsPlain t
    → Keeps (c ∷ []) t (add_acknowledge t m c)
unfolding add_acknowledge
add_acknowledge-Keeps t m c v =
    add_callback-Keeps
      (record t {
        pending_individual_acks = emplace m.impl m.chunked_message_ids t.pending_individual_acks;
      })
      c (with_acks t v)

pub add_acknowledge_list-Keeps :
    (t : AckGroupingTracker) (ms : List MessageId) (c : ℕ)
    → IsPlain t
    → Keeps (c ∷ []) t (add_acknowledge_list t ms c)
unfolding add_acknowledge_list
add_acknowledge_list-Keeps t ms c v =
    add_callback-Keeps
      (record t { pending_individual_acks = emplace_all ms t.pending_individual_acks }) c
      (with_acks t v)

step-Keeps : (t : AckGroupingTracker) (e : Event) → IsPlain t → Keeps (given e) t (step t e)
unfolding step
step-Keeps t (adds m c) v = add_acknowledge-Keeps t m c v
step-Keeps t (adds_list ms c) v = add_acknowledge_list-Keeps t ms c v
step-Keeps t (adds_cumulative id c) v = cumulative-Keeps t id c v
step-Keeps t flushes v = flush-Keeps t v
step-Keeps t cleans v = flush_and_clean-Keeps t v
step-Keeps t (responds r) v = receive_response-Keeps t r v

-- No callback is lost and none is called twice: after any calls, flushes and responses, those passed
-- so far are as often called, waiting for a response, or held back by the tracker as they were passed
-- (with a broker that takes acknowledgements of several messages, or no connection).
run-owed :
    (es : List Event) (t : AckGroupingTracker) (n : ℕ)
    → IsPlain t
    → owed n (run t es) ≡ owed n t + occurrences n (all_given es)
unfolding run
run-owed [] t n v = omega arith
run-owed (e ∷ es) t n v =
    let (w, k) = step-Keeps t e v in
    omega (arith, run-owed es (step t e) n w, k n, occurrences_append n (given e) (all_given es))

pub complete-Keeps :
    (t : AckGroupingTracker) (c : ℕ) (r : Result)
    → IsPlain t
    → Keeps (c ∷ []) t (complete t (c ∷ []) r)
complete-Keeps t c r v = (
  record { multi_message = v.multi_message; requests = v.requests; required = v.required },
  λ n. ground (arith, called_append n t.completed ((c, r) ∷ [])),
)
