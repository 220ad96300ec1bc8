-- ===== src/AckGrouping/Callbacks/EmptyList.antt =====
-- lib/AckGroupingTrackerEnabled.cc with a list of no ids to acknowledge, as lib/ConsumerImpl.cc
-- passes when no message of the list completes its batch.
use pulsar_client_cpp.Prelude.{ℕ, zero, suc, ◌≡◌, refl, ap, ◌∙◌, true, [], ◌∷◌, ◌++◌, arith}
use pulsar_client_cpp.AckGrouping.{
  AckGroupingTracker, to_list, flush_cumulative, flush_individual, flush, add_callback,
  add_acknowledge_list, emplace_all, cumulative,
}
use pulsar_client_cpp.AckGrouping.Callbacks.{IsPlain, do_immediate_ack_id-Passes}
use pulsar_client_cpp.AckGrouping.Callbacks.Conservation.{flush-Keeps}

abbrev pub flush_times : ℕ → AckGroupingTracker → AckGroupingTracker
flush_times zero t = t
flush_times (suc n) t = flush_times n (flush t)

flush-idle :
    (t : AckGroupingTracker)
    → IsPlain t
    → t.pending_individual_acks ≡ []
    → ((flush t).pending_individual_callbacks ≡ t.pending_individual_callbacks)
      × ((flush t).pending_individual_acks ≡ [])
unfolding flush flush_cumulative flush_individual
flush-idle t v e =
    let p =
      do_immediate_ack_id-Passes t (cumulative t.next_cumulative_ack)
        (to_list t.latest_cumulative_callback) v.requests in
    (
      ground (arith, e, p.pending_individual_callbacks, p.pending_individual_acks),
      ground (arith, e, p.pending_individual_acks),
    )

flush_times-idle :
    (n : ℕ) (t : AckGroupingTracker)
    → IsPlain t
    → t.pending_individual_acks ≡ []
    → (flush_times n t).pending_individual_callbacks ≡ t.pending_individual_callbacks
flush_times-idle zero t v e = refl
flush_times-idle (suc n) t v e =
    let (same_callbacks, still) = flush-idle t v e in
    flush_times-idle n (flush t) (flush-Keeps t v).0 still ∙ same_callbacks

held_back :
    (t : AckGroupingTracker) (c : ℕ)
    → t.wait_response ≡ true
    → t.pending_individual_acks ≡ []
    → add_acknowledge_list t [] c
      ≡ record t { pending_individual_callbacks = t.pending_individual_callbacks ++ (c ∷ []) }
unfolding add_acknowledge_list add_callback emplace_all
held_back t c w e = ground arith

-- When responses are waited for, no individual acknowledgement is pending, and the list is empty, the
-- callback of `addAcknowledgeList` is held back, and no number of flushes calls it or asks the broker
-- for a response.
pub empty_list-flush_times :
    (n : ℕ) (t : AckGroupingTracker) (c : ℕ)
    → IsPlain t
    → t.wait_response ≡ true
    → t.pending_individual_acks ≡ []
    → (flush_times n (add_acknowledge_list t [] c)).pending_individual_callbacks
      ≡ t.pending_individual_callbacks ++ (c ∷ [])
empty_list-flush_times n t c v w e =
    let held : add_acknowledge_list t [] c
        ≡ record t { pending_individual_callbacks = t.pending_individual_callbacks ++ (c ∷ []) } =
      held_back t c w e in
    ap (λ (t' : AckGroupingTracker). (flush_times n t').pending_individual_callbacks) held
    ∙ flush_times-idle n
        (record t { pending_individual_callbacks = t.pending_individual_callbacks ++ (c ∷ []) })
        (record { multi_message = v.multi_message; requests = v.requests; required = v.required }) e
