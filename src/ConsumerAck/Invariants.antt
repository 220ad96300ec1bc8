-- ===== src/ConsumerAck/Invariants.antt =====
-- What the acknowledgements of lib/ConsumerImpl.cc keep, in all the trackers of a consumer.
use pulsar_client_cpp.Prelude.{
  occurrences, occurrences_append, ℕ, ◌+◌, ◌≡◌, refl, sym, subst, ◌∙◌, inl, inr, Bool, true, false,
  not, Option, none, some, List, [], ◌∷◌, ◌++◌, if◌then◌else◌, arith, Option-cases,
}
use pulsar_client_cpp.Result.{Result}
use pulsar_client_cpp.MessageId.{MessageIdImpl, MessageId}
use pulsar_client_cpp.UnAcked.{
  UnAckedMessageTracker, remove_messages_till, clear, redeliver_unacknowledged_messages,
  timeout_handler_helper,
}
use pulsar_client_cpp.UnAcked
use pulsar_client_cpp.IdMap.{IdSet}
use pulsar_client_cpp.UnAcked.Valid.{
  IsValid, add-IsValid, remove-IsValid_lem, clear-IsValid, redeliver-IsValid, timeout-IsValid,
}
use pulsar_client_cpp.UnAcked.Removing.{remove_if-IsValid}
use pulsar_client_cpp.NegativeAcks.{handle_timer}
use pulsar_client_cpp.NegativeAcks.Deadlines.{IsTimed, add-IsTimed, timer-IsTimed}
use pulsar_client_cpp.AckGrouping.{
  AckGroupingTracker, complete, add_acknowledge, add_acknowledge_list, add_acknowledge_cumulative,
  flush, receive_response,
}
use pulsar_client_cpp.AckGrouping.Callbacks.{IsPlain, Keeps, owed}
use pulsar_client_cpp.AckGrouping.Callbacks.Conservation.{
  complete-Keeps, add_acknowledge-Keeps, add_acknowledge_list-Keeps, cumulative-Keeps, flush-Keeps,
  receive_response-Keeps,
}
use pulsar_client_cpp.ConsumerAck.{
  ConsumerType, exclusive, shared, failover, key_shared, ReceivedId, Consumer, finish_individual,
  finish_cumulative, prepare_individual_ack, prepare_cumulative_ack, acknowledge_async,
  prepare_list, acknowledge_list_async, acknowledge_cumulative_async, negative_acknowledge,
  is_cumulative_acknowledgement_allowed,
}

-- Each tracker is in a good state: see its own module.
pub record IsSound (c : Consumer) : Type 0 where
  pub un_acked : IsValid c.un_acked
  pub ack_grouping : IsPlain c.ack_grouping
  pub negative_acks : IsTimed c.negative_acks

-- What preparing an acknowledgement leaves.
abbrev Prepared : Consumer → Consumer → Type 0
Prepared c c' =
    (IsValid c.un_acked → IsValid c'.un_acked)
    × (c'.ack_grouping ≡ c.ack_grouping)
    × (c'.negative_acks ≡ c.negative_acks)

prepare_individual_ack-Prepared :
    (c : Consumer) (m : ReceivedId) → Prepared c (prepare_individual_ack c m).1
unfolding prepare_individual_ack
prepare_individual_ack-Prepared c m = elim (Option-cases m.batched) [
  | inl e ↦ (
    (λ v. ground (arith, e, remove-IsValid_lem c.un_acked m.id.impl v)),
    ground arith,
    ground arith,
  )
  | inr ((index, address), e) ↦ (
    (λ v. ground (arith, e, v, remove-IsValid_lem c.un_acked m.id.impl v)),
    ground arith,
    ground arith,
  )
]

prepare_cumulative_ack-Prepared :
    (c : Consumer) (m : ReceivedId) → Prepared c (prepare_cumulative_ack c m).1
unfolding prepare_cumulative_ack
prepare_cumulative_ack-Prepared c m = elim (Option-cases m.batched) [
  | inl e ↦ ((λ v. ground (arith, e, v)), ground arith, ground arith)
  | inr ((index, address), e) ↦ ((λ v. ground (arith, e, v)), ground arith, ground arith)
]

prepare_list-Prepared : (ms : List ReceivedId) (c : Consumer) → Prepared c (prepare_list c ms).1
unfolding prepare_list
prepare_list-Prepared [] c = ((λ v. v), refl, refl)
prepare_list-Prepared (m ∷ ms) c =
    let (valid, grouping, negative) = prepare_individual_ack-Prepared c m in
    let (valid', grouping', negative') = prepare_list-Prepared ms (prepare_individual_ack c m).1 in
    ((λ v. valid' (valid v)), grouping' ∙ grouping, negative' ∙ negative)

-- What a call that passes these callbacks leaves of a consumer.
abbrev Settles : List ℕ → Consumer → Consumer → Type 0
Settles cs c c' = IsSound c' × Keeps cs c.ack_grouping c'.ack_grouping

settled_either :
    (cs : List ℕ) (c : Consumer) (b : Bool) (d e : Consumer)
    → Settles cs c d
    → Settles cs c e
    → Settles cs c (if b then d else e)
settled_either cs c true d e p q = p
settled_either cs c false d e p q = q

-- After the preparation only the grouping tracker goes on.
settled :
    (cs : List ℕ) (c c' : Consumer) (t : AckGroupingTracker)
    → IsSound c
    → Prepared c c'
    → (IsPlain c'.ack_grouping → Keeps cs c'.ack_grouping t)
    → Settles cs c (record c' { ack_grouping = t })
settled cs c c' t v p goes =
    let k = goes (subst IsPlain (sym p.1) v.ack_grouping) in
    (
      record {
        un_acked = p.0 v.un_acked;
        ack_grouping = k.0;
        negative_acks = subst IsTimed (sym p.2) v.negative_acks;
      },
      subst (λ u. Keeps cs u t) p.1 k,
    )

finish_individual-Settles :
    (c c' : Consumer) (ready : Option MessageId) (callback : ℕ)
    → IsSound c
    → Prepared c c'
    → Settles (callback ∷ []) c (finish_individual c' ready callback)
unfolding finish_individual
finish_individual-Settles c c' none callback v p =
    settled (callback ∷ []) c c' (complete c'.ack_grouping (callback ∷ []) Result.ok) v p
      (λ plain. complete-Keeps c'.ack_grouping callback Result.ok plain)
finish_individual-Settles c c' (some id) callback v p =
    settled (callback ∷ []) c c' (add_acknowledge c'.ack_grouping id callback) v p
      (λ plain. add_acknowledge-Keeps c'.ack_grouping id callback plain)

finish_cumulative-Settles :
    (c c' : Consumer) (ready : Option MessageId) (callback : ℕ)
    → IsSound c
    → Prepared c c'
    → Settles (callback ∷ []) c (finish_cumulative c' ready callback)
unfolding finish_cumulative remove_messages_till
finish_cumulative-Settles c c' none callback v p =
    settled (callback ∷ []) c c' (complete c'.ack_grouping (callback ∷ []) Result.ok) v p
      (λ plain. complete-Keeps c'.ack_grouping callback Result.ok plain)
finish_cumulative-Settles c c' (some id) callback v p =
    settled (callback ∷ []) c (record c' { un_acked = remove_messages_till c'.un_acked id.impl })
      (add_acknowledge_cumulative c'.ack_grouping id.impl callback) v
      ((λ w. remove_if-IsValid _ c'.un_acked (p.0 w)), p.1, p.2)
      (λ plain. cumulative-Keeps c'.ack_grouping id.impl callback plain)

acknowledge_list_async-Settles :
    (c : Consumer) (ms : List ReceivedId) (callback : ℕ)
    → IsSound c
    → Settles (callback ∷ []) c (acknowledge_list_async c ms callback)
unfolding acknowledge_list_async
acknowledge_list_async-Settles c ms callback v =
    let c' = (prepare_list c ms).1 in
    let ids = (prepare_list c ms).0 in
    settled (callback ∷ []) c c' (add_acknowledge_list c'.ack_grouping ids callback) v
      (prepare_list-Prepared ms c)
      (λ plain. add_acknowledge_list-Keeps c'.ack_grouping ids callback plain)

acknowledge_cumulative_async-Settles :
    (c : Consumer) (m : ReceivedId) (callback : ℕ)
    → IsSound c
    → Settles (callback ∷ []) c (acknowledge_cumulative_async c m callback)
unfolding acknowledge_cumulative_async
acknowledge_cumulative_async-Settles c m callback v =
    let refusal = Result.cumulative_acknowledgement_not_allowed_error in
    let refused =
      settled (callback ∷ []) c c (complete c.ack_grouping (callback ∷ []) refusal) v
        ((λ w. w), refl, refl) (λ plain. complete-Keeps c.ack_grouping callback refusal plain) in
    let allowed =
      finish_cumulative-Settles c (prepare_cumulative_ack c m).1 (prepare_cumulative_ack c m).0
        callback v (prepare_cumulative_ack-Prepared c m) in
    settled_either (callback ∷ []) c (not (is_cumulative_acknowledgement_allowed c.consumer_type))
      (record c { ack_grouping = complete c.ack_grouping (callback ∷ []) refusal })
      (finish_cumulative (prepare_cumulative_ack c m).1 (prepare_cumulative_ack c m).0 callback)
      refused allowed

-- Whether the consumer shares its subscription.
abbrev pub is_shared : ConsumerType → Bool
is_shared exclusive = false
is_shared shared = true
is_shared failover = false
is_shared key_shared = true

-- The calls of the application and what happens by itself: the acknowledgements and the refusals, a
-- message that is received (`trackMessage` of a consumer without a parent), a redelivery of some or of
-- all messages that the application asks for, a connection that is opened outside a seek,
-- the timers of the trackers, and the responses of the broker.
pub data Event : Type 0 where
  acknowledges acknowledges_cumulative : ReceivedId → ℕ → Event
  acknowledges_list : List ReceivedId → ℕ → Event
  refuses : MessageIdImpl → (now : ℕ) → Event
  receives : MessageIdImpl → Event
  redelivers : IdSet → Event
  redelivers_all reopens flushes ticks : Event
  responds : Result → Event
  negative_timer : (now : ℕ) → Event

unfoldable pub step : Consumer → Event → Consumer
step c (acknowledges m callback) = acknowledge_async c m callback
step c (acknowledges_cumulative m callback) = acknowledge_cumulative_async c m callback
step c (acknowledges_list ms callback) = acknowledge_list_async c ms callback
step c (refuses id now) = negative_acknowledge c id now
step c (receives id) = record c { un_acked = (UnAcked.add c.un_acked id).1 }
step c (redelivers s) = record c {
  un_acked = redeliver_unacknowledged_messages (is_shared c.consumer_type) c.un_acked s;
}
step c redelivers_all = record c { un_acked = clear c.un_acked }
step c reopens = record c { un_acked = clear c.un_acked }
step c flushes = record c { ack_grouping = flush c.ack_grouping }
step c ticks = record c { un_acked = timeout_handler_helper (is_shared c.consumer_type) c.un_acked }
step c (responds r) = record c { ack_grouping = receive_response c.ack_grouping r }
step c (negative_timer now) = record c {
  negative_acks =
      if c.negative_acks.scheduled then handle_timer c.negative_acks now else c.negative_acks;
}

unfoldable pub run : Consumer → List Event → Consumer
unfolding step
run c [] = c
run c (e ∷ es) = run (step c e) es

abbrev pub given : Event → List ℕ
given (acknowledges m callback) = callback ∷ []
given (acknowledges_cumulative m callback) = callback ∷ []
given (acknowledges_list ms callback) = callback ∷ []
given (refuses id now) = []
given (receives id) = []
given (redelivers s) = []
given redelivers_all = []
given reopens = []
given flushes = []
given ticks = []
given (responds r) = []
given (negative_timer now) = []

abbrev pub all_given : List Event → List ℕ
all_given [] = []
all_given (e ∷ es) = given e ++ all_given es

same-Keeps : (t : AckGroupingTracker) → IsPlain t → Keeps [] t t
same-Keeps t v = (v, λ n. omega arith)

-- Only the tracker of what is not acknowledged changes.
tracker-Settles :
    (c : Consumer) (t : UnAckedMessageTracker)
    → IsSound c
    → IsValid t
    → Settles [] c (record c { un_acked = t })
tracker-Settles c t v valid = (
  record { un_acked = valid; ack_grouping = v.ack_grouping; negative_acks = v.negative_acks },
  same-Keeps c.ack_grouping v.ack_grouping,
)

step-Settles : (c : Consumer) (e : Event) → IsSound c → Settles (given e) c (step c e)
unfolding step negative_acknowledge acknowledge_async
step-Settles c (acknowledges m callback) v =
    finish_individual-Settles c (prepare_individual_ack c m).1 (prepare_individual_ack c m).0
      callback v (prepare_individual_ack-Prepared c m)
step-Settles c (acknowledges_cumulative m callback) v =
    acknowledge_cumulative_async-Settles c m callback v
step-Settles c (acknowledges_list ms callback) v = acknowledge_list_async-Settles c ms callback v
step-Settles c (refuses id now) v = (
  record {
    un_acked = remove-IsValid_lem c.un_acked id v.un_acked;
    ack_grouping = v.ack_grouping;
    negative_acks = add-IsTimed c.negative_acks id now v.negative_acks;
  },
  same-Keeps c.ack_grouping v.ack_grouping,
)
step-Settles c flushes v =
    let k = flush-Keeps c.ack_grouping v.ack_grouping in
    (record { un_acked = v.un_acked; ack_grouping = k.0; negative_acks = v.negative_acks }, k)
step-Settles c (receives id) v = tracker-Settles c _ v (add-IsValid c.un_acked id v.un_acked)
step-Settles c (redelivers s) v =
    tracker-Settles c _ v (redeliver-IsValid (is_shared c.consumer_type) c.un_acked s v.un_acked)
step-Settles c redelivers_all v = tracker-Settles c _ v (clear-IsValid c.un_acked v.un_acked)
step-Settles c reopens v = tracker-Settles c _ v (clear-IsValid c.un_acked v.un_acked)
step-Settles c ticks v =
    tracker-Settles c _ v (timeout-IsValid (is_shared c.consumer_type) c.un_acked v.un_acked)
step-Settles c (responds r) v =
    let k = receive_response-Keeps c.ack_grouping r v.ack_grouping in
    (record { un_acked = v.un_acked; ack_grouping = k.0; negative_acks = v.negative_acks }, k)
step-Settles c (negative_timer now) v = (
  record {
    un_acked = v.un_acked;
    ack_grouping = v.ack_grouping;
    negative_acks = timer-IsTimed c.negative_acks now v.negative_acks;
  },
  same-Keeps c.ack_grouping v.ack_grouping,
)

-- However the acknowledgements and refusals of the application, received messages, redeliveries, new
-- connections outside a seek, the timers and the responses of the broker follow each other, the trackers of
-- a consumer stay in good states, and each callback that was passed with an acknowledgement is as often
-- called, waiting for a response, or held back as it was passed (with a broker that takes acknowledgements
-- of several messages, or no connection).
pub run-IsSound :
    (es : List Event) (c : Consumer) (n : ℕ)
    → IsSound c
    → IsSound (run c es)
      × (owed n (run c es).ack_grouping ≡ owed n c.ack_grouping + occurrences n (all_given es))
unfolding run
run-IsSound [] c n v = (v, omega arith)
run-IsSound (e ∷ es) c n v =
    let (sound, (plain, k)) = step-Settles c e v in
    let (sound', k') = run-IsSound es (step c e) n sound in
    (sound', omega (arith, k n, k', occurrences_append n (given e) (all_given es)))
