-- ===== src/ConsumerAck/Batches.antt =====
-- lib/ConsumerImpl.cc on the messages of a batch.
use pulsar_client_cpp.Prelude.{
  ℕ, ◌≡◌, refl, sym, ap, subst, ◌∙◌, ◌⊎◌, inl, inr, Bool, true, false, not, ◌&&◌, Option, none,
  some, [], ◌∷◌, ◌++◌, ◌==◌, arith, Bool-cases,
}
use pulsar_client_cpp.Result.{Result}
use pulsar_client_cpp.MessageId.{MessageIdImpl, MessageId, discard_batch}
use pulsar_client_cpp.IdMap.{find}
use pulsar_client_cpp.IdMap.Laws.{find-erase, same_refl}
use pulsar_client_cpp.BatchAck.{BatchMessageAcker, ack_individual}
use pulsar_client_cpp.BatchAck.Coverage.{Holds, individual, step, step-Holds}
use pulsar_client_cpp.UnAcked.{UnAckedMessageTracker, remove}
use pulsar_client_cpp.AckGrouping.{AckGroupingTracker, complete, add_acknowledge_list}
use pulsar_client_cpp.AckGrouping.Callbacks.{IsPlain}
use pulsar_client_cpp.AckGrouping.Callbacks.EmptyList.{flush_times, empty_list-flush_times}
use pulsar_client_cpp.ConsumerAck.{
  ReceivedId, Consumer, prepare_individual_ack, finish_individual, acknowledge_async, prepare_list,
  acknowledge_list_async,
}

-- A removed message is not tracked.
remove_lem :
    (t : UnAckedMessageTracker) (id : MessageIdImpl)
    → find (discard_batch id) (remove t id).1.message_id_partition_map ≡ none
unfolding remove
remove_lem t id = ground (
  arith,
  find-erase (discard_batch id) (discard_batch id) t.message_id_partition_map,
  same_refl (discard_batch id),
)

-- The first acknowledgement of one message of a batch, as the acker answers.
prepare_batched :
    (c : Consumer) (m : ReceivedId) (index address : ℕ)
    → m.batched ≡ some (index, address)
    → c.batch_index_ack_enabled ≡ false
    → let answer = (ack_individual (c.ackers address) index).0 in
      let c' = (prepare_individual_ack c m).1 in
      (c'.ackers address ≡ (ack_individual (c.ackers address) index).1)
      × (c'.ack_grouping ≡ c.ack_grouping)
      × (((answer ≡ true) × (c'.un_acked ≡ (remove c.un_acked m.id.impl).1))
          ⊎ ((answer ≡ false)
              × ((prepare_individual_ack c m).0 ≡ none)
              × (c'.un_acked ≡ c.un_acked)))
unfolding prepare_individual_ack
prepare_batched c m index address e off = (
  ground (arith, e, off),
  ground (arith, e, off),
  elim (Bool-cases (ack_individual (c.ackers address) index).0) [
    | inl done ↦ inl (done, ground (arith, e, off, done))
    | inr more ↦ inr (more, ground (arith, e, off, more), ground (arith, e, off, more))
  ],
)

finish-un_acked :
    (c : Consumer) (ready : Option MessageId) (callback : ℕ)
    → ((finish_individual c ready callback).un_acked ≡ c.un_acked)
      × ((finish_individual c ready callback).ackers ≡ c.ackers)
unfolding finish_individual
finish-un_acked c none callback = (refl, refl)
finish-un_acked c (some id) callback = (refl, refl)

-- Where `f` says which messages of a batch are still to be acknowledged, and batch indexes are not
-- acknowledged: acknowledging one of the batch leaves the others to be acknowledged; the tracker of
-- unacknowledged messages forgets the batch if none is left, and else it is as it was.
pub batch_tracked :
    (c : Consumer) (m : ReceivedId) (callback index address : ℕ) (f : ℕ → Bool)
    → m.batched ≡ some (index, address)
    → c.batch_index_ack_enabled ≡ false
    → Holds (c.ackers address) f
    → let c' = acknowledge_async c m callback in
      let left = λ (x : ℕ). f x && not (x == index) in
      Holds (c'.ackers address) left
      × ((((x : ℕ) → left x ≡ false)
            × (find (discard_batch m.id.impl) c'.un_acked.message_id_partition_map ≡ none))
          ⊎ (((x : ℕ) × (left x ≡ true)) × (c'.un_acked ≡ c.un_acked)))
unfolding acknowledge_async step
batch_tracked c m callback index address f e off holds =
    let (acker, grouping, how) = prepare_batched c m index address e off in
    let (same_tracker, same_ackers) =
      finish-un_acked (prepare_individual_ack c m).1 (prepare_individual_ack c m).0 callback in
    let (holds', told) = step-Holds (c.ackers address) f (individual index) holds in
    (
      subst (λ a. Holds a (λ x. f x && not (x == index)))
          (sym (ap (λ (store : ℕ → BatchMessageAcker). store address) same_ackers ∙ acker)) holds',
      elim how [
        | inl (done, removed) ↦ elim told [
          | inl (yes_, none_left) ↦ inl (
            none_left,
            ap
                  (λ (t : UnAckedMessageTracker).
                    find (discard_batch m.id.impl) t.message_id_partition_map)
                  (same_tracker ∙ removed)
                ∙ remove_lem c.un_acked m.id.impl,
          )
          | inr (not_, left) ↦ absurd (cc)
        ]
        | inr (more, nothing, kept) ↦ elim told [
          | inl (yes_, none_left) ↦ absurd (cc)
          | inr (not_, left) ↦ inr (left, same_tracker ∙ kept)
        ]
      ],
    )

-- Both calls where the message is not ready.
not_ready :
    (c : Consumer) (m : ReceivedId) (callback : ℕ)
    → (prepare_individual_ack c m).0 ≡ none
    → (prepare_individual_ack c m).1.ack_grouping ≡ c.ack_grouping
    → ((acknowledge_list_async c (m ∷ []) callback).ack_grouping
        ≡ add_acknowledge_list c.ack_grouping [] callback)
      × ((acknowledge_async c m callback).ack_grouping
          ≡ complete c.ack_grouping (callback ∷ []) Result.ok)
unfolding acknowledge_list_async acknowledge_async prepare_list finish_individual
not_ready c m callback nothing untouched =
    let c' = (prepare_individual_ack c m).1 in
    (
      ap
            (λ (o : Option MessageId).
              add_acknowledge_list c'.ack_grouping (elim o [ some id ↦ id ∷ [] | none ↦ [] ])
                callback)
            nothing
          ∙ ap (λ (t : AckGroupingTracker). add_acknowledge_list t [] callback) untouched,
      ap (λ (o : Option MessageId). (finish_individual c' o callback).ack_grouping) nothing
          ∙ ap (λ (t : AckGroupingTracker). complete t (callback ∷ []) Result.ok) untouched,
    )

-- Where responses are waited for, no individual acknowledgement is pending, batch indexes are not
-- acknowledged, the grouping tracker is plain (its broker takes acknowledgements of several messages,
-- if there is a connection), and other messages of the batch are still to be acknowledged: the
-- callback of a list with one message of the batch is held back, through any number of flushes, while
-- the callback of the same message alone is called at once.
pub list_of_one_waits :
    (n : ℕ) (c : Consumer) (m : ReceivedId) (callback index address x : ℕ) (f : ℕ → Bool)
    → m.batched ≡ some (index, address)
    → c.batch_index_ack_enabled ≡ false
    → Holds (c.ackers address) f
    → f x && not (x == index) ≡ true
    → IsPlain c.ack_grouping
    → c.ack_grouping.wait_response ≡ true
    → c.ack_grouping.pending_individual_acks ≡ []
    → ((flush_times n (acknowledge_list_async c (m ∷ []) callback).ack_grouping
          ).pending_individual_callbacks
        ≡ c.ack_grouping.pending_individual_callbacks ++ (callback ∷ []))
      × ((acknowledge_async c m callback).ack_grouping.completed
          ≡ c.ack_grouping.completed ++ ((callback, Result.ok) ∷ []))
unfolding step
list_of_one_waits n c m callback index address x f e off holds other plain waits none_pending =
    let (acker, grouping, how) = prepare_batched c m index address e off in
    let (holds', told) = step-Holds (c.ackers address) f (individual index) holds in
    elim told [
      | inl (yes_, none_left) ↦ absurd (ground (arith, none_left x, other))
      | inr (not_, left) ↦ elim how [
        | inl (done, removed) ↦ absurd (cc)
        | inr (more, nothing, kept) ↦
            let (list_, single) = not_ready c m callback nothing grouping in
            (
              ap (λ (t : AckGroupingTracker). (flush_times n t).pending_individual_callbacks) list_
                  ∙ empty_list-flush_times n c.ack_grouping callback plain waits none_pending,
              ap (λ (t : AckGroupingTracker). t.completed) single,
            )
      ]
    ]
