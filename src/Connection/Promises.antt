-- ===== src/Connection/Promises.antt =====
-- The promises of the requests of lib/ClientConnection.cc: none is lost.
use pulsar_client_cpp.Prelude.{
  ℕ, ◌+◌, ◌≤◌, ◌≡◌, refl, ap, ◌∙◌, inl, inr, Bool, true, List, [], ◌∷◌, ◌++◌, ◌==◌, if◌then◌else◌,
  arith, occurrences, occurrences_append, Bool-cases,
}
use pulsar_client_cpp.Result.{Result}
use pulsar_client_cpp.Connection.{
  Connection, is_closed, contains, erase, fail_all, close, send_request_with_id, new_lookup,
  new_consumer_stats, new_get_last_message_id, new_get_topics_of_namespace, new_get_schema,
  handle_request_timeout, handle_lookup_timeout, handle_get_last_message_id_timeout,
  handle_get_schema_timeout, handle_success, handle_producer_success, handle_ack_response,
}
use pulsar_client_cpp.Connection.Incoming.{
  handle_consumer_stats_response, handle_get_last_message_id_response,
  handle_get_topic_of_namespace_response, handle_get_schema_response, handle_error,
  unsafe_remove_pending_request,
}

-- How often a promise is called.
unfoldable pub called : ℕ → List (ℕ × Result) → ℕ
called p [] = 0
called p ((j, result) ∷ calls) = (if p == j then 1 else 0) + called p calls

called_append :
    (p : ℕ) (xs ys : List (ℕ × Result)) → called p (xs ++ ys) ≡ called p xs + called p ys
unfolding called
called_append p [] ys = omega arith
called_append p ((j, result) ∷ xs) ys = omega (arith, called_append p xs ys)

called-fail_all :
    (p : ℕ) (result : Result) (ids : List ℕ) → called p (fail_all result ids) ≡ occurrences p ids
unfolding called
called-fail_all p result [] = refl
called-fail_all p result (id ∷ ids) =
    ap (λ n. (if p == id then 1 else 0) + n) (called-fail_all p result ids)

called-one :
    (p : ℕ) (result : Result) (id : ℕ) → called p ((id, result) ∷ []) ≡ occurrences p (id ∷ [])
unfolding called
called-one p result id = refl

pub occurrences-erase :
    (p k : ℕ) (m : List ℕ)
    → contains k m ≡ true
    → occurrences p (erase k m) + occurrences p (k ∷ []) ≡ occurrences p m
occurrences-erase p k [] h = absurd (cc)
occurrences-erase p k (j ∷ m) h = elim (Bool-cases (k == j)) [
  | inl e ↦ ground (arith, h, e)
  | inr e ↦ ground (arith, h, e, occurrences-erase p k m (ground (arith, h, e)))
]

-- How often a request waits.
abbrev pub waiting : ℕ → Connection → ℕ
waiting p c =
    occurrences p c.pending_requests
    + occurrences p c.pending_lookup_requests
    + occurrences p c.pending_consumer_stats
    + occurrences p c.pending_get_last_message_id_requests
    + occurrences p c.pending_get_namespace_topics_requests
    + occurrences p c.pending_get_schema_requests

-- Of a request: it has one of the ids that were taken, it waits once at the most, and it waits if its
-- promise has not been called, but for `owed` calls that are about to be made.
pub record Owes (owed : ℕ) (c : Connection) (p : ℕ) : Type 0 where
  pub fresh : c.next_request_id ≤ p → occurrences p c.issued ≡ 0
  pub once : waiting p c + owed ≤ occurrences p c.issued
  pub kept : occurrences p c.issued ≤ waiting p c + owed + called p c.calls

abbrev pub IsSound : Connection → ℕ → Type 0
IsSound c p = Owes 0 c p

module _ (p : ℕ) where
  called-all :
      (result : Result) (us bs cs ds es fs : List ℕ)
      → called p (
          fail_all result us
          ++ (fail_all result bs
              ++ (fail_all result cs
                  ++ (fail_all result ds ++ (fail_all result es ++ fail_all result fs)))))
        ≡ occurrences p us
          + occurrences p bs
          + occurrences p cs
          + occurrences p ds
          + occurrences p es
          + occurrences p fs
  called-all result us bs cs ds es fs = omega (
    arith,
    called_append p (fail_all result us) (
        fail_all result bs
        ++ (fail_all result cs
            ++ (fail_all result ds ++ (fail_all result es ++ fail_all result fs)))),
    called_append p (fail_all result bs)
        (fail_all result cs ++ (fail_all result ds ++ (fail_all result es ++ fail_all result fs))),
    called_append p (fail_all result cs)
        (fail_all result ds ++ (fail_all result es ++ fail_all result fs)),
    called_append p (fail_all result ds) (fail_all result es ++ fail_all result fs),
    called_append p (fail_all result es) (fail_all result fs),
    called-fail_all p result us,
    called-fail_all p result bs,
    called-fail_all p result cs,
    called-fail_all p result ds,
    called-fail_all p result es,
    called-fail_all p result fs,
  )

  pub one_call :
      (c : Connection) (id : ℕ) (result : Result)
      → called p (c.calls ++ ((id, result) ∷ [])) ≡ called p c.calls + occurrences p (id ∷ [])
  one_call c id result =
      called_append p c.calls ((id, result) ∷ [])
      ∙ ap (λ n. called p c.calls + n) (called-one p result id)

  pub send_request_with_id-IsSound :
      (c : Connection) → IsSound c p → IsSound (send_request_with_id c) p
  unfolding send_request_with_id
  send_request_with_id-IsSound c v = ground (
    arith,
    v,
    occurrences_append p c.issued (c.next_request_id ∷ []),
    occurrences_append p c.pending_requests (c.next_request_id ∷ []),
    one_call c c.next_request_id Result.not_connected,
  )

  pub close-Owes :
      (owed : ℕ) (c : Connection) (result : Result) → Owes owed c p → Owes owed (close c result) p
  unfolding close
  close-Owes owed c result v = elim (Bool-cases (is_closed c)) [
    | inl e ↦ rw e v
    | inr e ↦
        let all =
          called-all result c.pending_requests c.pending_lookup_requests c.pending_consumer_stats
            c.pending_get_last_message_id_requests c.pending_get_namespace_topics_requests
            c.pending_get_schema_requests in
        let more = called_append p c.calls (
          fail_all result c.pending_requests
          ++ (fail_all result c.pending_lookup_requests
              ++ (fail_all result c.pending_consumer_stats
                  ++ (fail_all result c.pending_get_last_message_id_requests
                      ++ (fail_all result c.pending_get_namespace_topics_requests
                          ++ fail_all result c.pending_get_schema_requests))))) in
        rw e
          (record { fresh = v.fresh; once = omega arith; kept = omega (arith, v.kept, all, more) })
  ]

  pub new_lookup-IsSound : (c : Connection) → IsSound c p → IsSound (new_lookup c) p
  unfolding new_lookup
  new_lookup-IsSound c v = ground (
    arith,
    v,
    occurrences_append p c.issued (c.next_request_id ∷ []),
    occurrences_append p c.pending_lookup_requests (c.next_request_id ∷ []),
    one_call c c.next_request_id Result.not_connected,
    one_call c c.next_request_id Result.too_many_lookup_request_exception,
  )

  pub new_consumer_stats-IsSound : (c : Connection) → IsSound c p → IsSound (new_consumer_stats c) p
  unfolding new_consumer_stats
  new_consumer_stats-IsSound c v = ground (
    arith,
    v,
    occurrences_append p c.issued (c.next_request_id ∷ []),
    occurrences_append p c.pending_consumer_stats (c.next_request_id ∷ []),
    one_call c c.next_request_id Result.not_connected,
  )

  pub new_get_last_message_id-IsSound :
      (c : Connection) → IsSound c p → IsSound (new_get_last_message_id c) p
  unfolding new_get_last_message_id
  new_get_last_message_id-IsSound c v = ground (
    arith,
    v,
    occurrences_append p c.issued (c.next_request_id ∷ []),
    occurrences_append p c.pending_get_last_message_id_requests (c.next_request_id ∷ []),
    one_call c c.next_request_id Result.not_connected,
  )

  pub new_get_topics_of_namespace-IsSound :
      (c : Connection) → IsSound c p → IsSound (new_get_topics_of_namespace c) p
  unfolding new_get_topics_of_namespace
  new_get_topics_of_namespace-IsSound c v = ground (
    arith,
    v,
    occurrences_append p c.issued (c.next_request_id ∷ []),
    occurrences_append p c.pending_get_namespace_topics_requests (c.next_request_id ∷ []),
    one_call c c.next_request_id Result.not_connected,
  )

  pub new_get_schema-IsSound : (c : Connection) → IsSound c p → IsSound (new_get_schema c) p
  unfolding new_get_schema
  new_get_schema-IsSound c v = ground (
    arith,
    v,
    occurrences_append p c.issued (c.next_request_id ∷ []),
    occurrences_append p c.pending_get_schema_requests (c.next_request_id ∷ []),
    one_call c c.next_request_id Result.not_connected,
  )

  pub handle_request_timeout-IsSound :
      (c : Connection) (id : ℕ) → IsSound c p → IsSound (handle_request_timeout c id) p
  unfolding handle_request_timeout
  handle_request_timeout-IsSound c id v = ground (arith, v, one_call c id Result.timeout)

  pub handle_lookup_timeout-IsSound :
      (c : Connection) (id : ℕ) → IsSound c p → IsSound (handle_lookup_timeout c id) p
  unfolding handle_lookup_timeout
  handle_lookup_timeout-IsSound c id v = ground (arith, v, one_call c id Result.timeout)

  pub handle_get_last_message_id_timeout-IsSound :
      (c : Connection) (id : ℕ) → IsSound c p → IsSound (handle_get_last_message_id_timeout c id) p
  unfolding handle_get_last_message_id_timeout
  handle_get_last_message_id_timeout-IsSound c id v =
      ground (arith, v, one_call c id Result.timeout)

  pub handle_get_schema_timeout-IsSound :
      (c : Connection) (id : ℕ) → IsSound c p → IsSound (handle_get_schema_timeout c id) p
  unfolding handle_get_schema_timeout
  handle_get_schema_timeout-IsSound c id v =
      elim (Bool-cases (contains id c.pending_get_schema_requests)) [
        | inl e0 ↦ ground (
          arith,
          v,
          e0,
          occurrences-erase p id c.pending_get_schema_requests e0,
          one_call c id Result.timeout,
        )
        | inr e0 ↦ ground (arith, v, e0)
      ]

  pub handle_success-IsSound :
      (c : Connection) (id : ℕ) → IsSound c p → IsSound (handle_success c id) p
  unfolding handle_success
  handle_success-IsSound c id v = elim (Bool-cases (contains id c.pending_requests)) [
    | inl e0 ↦
        ground (arith, v, e0, occurrences-erase p id c.pending_requests e0, one_call c id Result.ok)
    | inr e0 ↦ ground (arith, v, e0)
  ]

  pub handle_producer_success-IsSound :
      (c : Connection) (id : ℕ) (producer_ready : Bool)
      → IsSound c p
      → IsSound (handle_producer_success c id producer_ready) p
  unfolding handle_producer_success
  handle_producer_success-IsSound c id producer_ready v =
      elim (Bool-cases (contains id c.pending_requests)) [
        | inl e0 ↦
            ground
              (arith, v, e0, occurrences-erase p id c.pending_requests e0, one_call c id Result.ok)
        | inr e0 ↦ ground (arith, v, e0)
      ]

  pub handle_ack_response-IsSound :
      (c : Connection) (id : ℕ) (result : Result)
      → IsSound c p
      → IsSound (handle_ack_response c id result) p
  unfolding handle_ack_response
  handle_ack_response-IsSound c id result v = elim (Bool-cases (contains id c.pending_requests)) [
    | inl e0 ↦
        ground (arith, v, e0, occurrences-erase p id c.pending_requests e0, one_call c id result)
    | inr e0 ↦ ground (arith, v, e0)
  ]

  pub handle_consumer_stats_response-IsSound :
      (c : Connection) (id : ℕ) (result : Result)
      → IsSound c p
      → IsSound (handle_consumer_stats_response c id result) p
  unfolding handle_consumer_stats_response
  handle_consumer_stats_response-IsSound c id result v =
      elim (Bool-cases (contains id c.pending_consumer_stats)) [
        | inl e0 ↦
            ground (
              arith,
              v,
              e0,
              occurrences-erase p id c.pending_consumer_stats e0,
              one_call c id result,
            )
        | inr e0 ↦ ground (arith, v, e0)
      ]

  pub handle_get_last_message_id_response-IsSound :
      (c : Connection) (id : ℕ) → IsSound c p → IsSound (handle_get_last_message_id_response c id) p
  unfolding handle_get_last_message_id_response
  handle_get_last_message_id_response-IsSound c id v =
      elim (Bool-cases (contains id c.pending_get_last_message_id_requests)) [
        | inl e0 ↦ ground (
          arith,
          v,
          e0,
          occurrences-erase p id c.pending_get_last_message_id_requests e0,
          one_call c id Result.ok,
        )
        | inr e0 ↦ ground (arith, v, e0)
      ]

  pub handle_get_topic_of_namespace_response-IsSound :
      (c : Connection) (id : ℕ)
      → IsSound c p
      → IsSound (handle_get_topic_of_namespace_response c id) p
  unfolding handle_get_topic_of_namespace_response
  handle_get_topic_of_namespace_response-IsSound c id v =
      elim (Bool-cases (contains id c.pending_get_namespace_topics_requests)) [
        | inl e0 ↦ ground (
          arith,
          v,
          e0,
          occurrences-erase p id c.pending_get_namespace_topics_requests e0,
          one_call c id Result.ok,
        )
        | inr e0 ↦ ground (arith, v, e0)
      ]

  pub handle_get_schema_response-IsSound :
      (c : Connection) (id : ℕ) (result : Result)
      → IsSound c p
      → IsSound (handle_get_schema_response c id result) p
  unfolding handle_get_schema_response
  handle_get_schema_response-IsSound c id result v =
      elim (Bool-cases (contains id c.pending_get_schema_requests)) [
        | inl e0 ↦ ground (
          arith,
          v,
          e0,
          occurrences-erase p id c.pending_get_schema_requests e0,
          one_call c id result,
        )
        | inr e0 ↦ ground (arith, v, e0)
      ]

  pub handle_error-IsSound :
      (c : Connection) (id : ℕ) (result : Result)
      → IsSound c p
      → IsSound (handle_error c id result) p
  unfolding handle_error
  handle_error-IsSound c id result v = elim (Bool-cases (contains id c.pending_requests)) [
    | inl e0 ↦
        ground (arith, v, e0, occurrences-erase p id c.pending_requests e0, one_call c id result)
    | inr e0 ↦ elim (Bool-cases (contains id c.pending_get_last_message_id_requests)) [
      | inl e1 ↦ ground (
        arith,
        v,
        e0,
        e1,
        occurrences-erase p id c.pending_get_last_message_id_requests e1,
        one_call c id result,
      )
      | inr e1 ↦ elim (Bool-cases (contains id c.pending_get_namespace_topics_requests)) [
        | inl e2 ↦ ground (
          arith,
          v,
          e0,
          e1,
          e2,
          occurrences-erase p id c.pending_get_namespace_topics_requests e2,
          one_call c id result,
        )
        | inr e2 ↦ ground (arith, v, e0, e1, e2)
      ]
    ]
  ]

  pub unsafe_remove_pending_request-IsSound :
      (c : Connection) (id : ℕ) → IsSound c p → IsSound (unsafe_remove_pending_request c id) p
  unfolding unsafe_remove_pending_request
  unsafe_remove_pending_request-IsSound c id v =
      elim (Bool-cases (contains id c.pending_requests)) [
        | inl e0 ↦ ground (
          arith,
          v,
          e0,
          occurrences-erase p id c.pending_requests e0,
          one_call c id Result.disconnected,
        )
        | inr e0 ↦ ground (arith, v, e0)
      ]
