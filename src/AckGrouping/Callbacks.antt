-- ===== src/AckGrouping/Callbacks.antt =====
-- Where the callbacks of lib/AckGroupingTrackerEnabled.cc go.
pub mod Conservation
pub mod EmptyList
use pulsar_client_cpp.Prelude.{
  occurrences, ℕ, zero, suc, ◌+◌, ◌≤◌, ◌<◌, ◌≡◌, ◌≢◌, refl, sym, ap, subst, ◌∙◌, ◌⊎◌, inl, inr,
  Bool, true, false, not, ◌&&◌, ◌||◌, Option, none, some, List, [], ◌∷◌, ◌++◌, length, ltb, leb,
  ◌==◌, if◌then◌else◌, arith, Bool-cases, List-cases, Option-cases,
}
use pulsar_client_cpp.Result.{Result}
use pulsar_client_cpp.MessageId.{MessageIdImpl, MessageId}
use pulsar_client_cpp.IdMap.{IdMap, IdSet}
use pulsar_client_cpp.AckGrouping.{
  Ack, cumulative, multi, expand, AckGroupingTracker, Notify, calls, counts, all_with, complete,
  notify, send, to_list, do_immediate_ack_id, do_immediate_ack_set, flush_cumulative,
  flush_individual, flush, add_callback, add_acknowledge, add_acknowledge_list, complete_latest,
  add_acknowledge_cumulative, flush_and_clean, receive_response,
}

-- How often a callback has been called.
abbrev pub called : ℕ → List (ℕ × Result) → ℕ
called n [] = 0
called n ((c, r) ∷ cs) = (if n == c then 1 else 0) + called n cs

abbrev pub awaited : ℕ → List Notify → ℕ
awaited n [] = 0
awaited n (calls cs ∷ ns) = occurrences n cs + awaited n ns
awaited n (counts a cs ∷ ns) = awaited n ns

abbrev pub latest : ℕ → Option ℕ → ℕ
latest n none = 0
latest n (some c) = if n == c then 1 else 0

-- How often a callback has been called or is still to be called.
abbrev pub owed : ℕ → AckGroupingTracker → ℕ
owed n t =
    called n t.completed
    + awaited n t.requests
    + latest n t.latest_cumulative_callback
    + occurrences n t.pending_individual_callbacks

abbrev pub all_call : List Notify → Bool
all_call [] = true
all_call (calls cs ∷ ns) = all_call ns
all_call (counts a cs ∷ ns) = false

-- The broker takes acknowledgements of several messages, if there is a connection; a callback of a
-- cumulative acknowledgement is held back only while the acknowledgement is to be sent.
pub record IsPlain (t : AckGroupingTracker) : Type 0 where
  pub multi_message : t.connection ≢ some false
  pub requests : all_call t.requests ≡ true
  pub required : (t.require_cumulative_ack ≡ true) ⊎ (t.latest_cumulative_callback ≡ none)

pub called_append :
    (n : ℕ) (xs ys : List (ℕ × Result)) → called n (xs ++ ys) ≡ called n xs + called n ys
called_append n [] ys = omega arith
called_append n ((c, r) ∷ xs) ys = omega (arith, called_append n xs ys)

pub called-all_with :
    (n : ℕ) (r : Result) (cs : List ℕ) → called n (all_with r cs) ≡ occurrences n cs
called-all_with n r [] = refl
called-all_with n r (c ∷ cs) = omega (arith, called-all_with n r cs)

awaited_append : (n : ℕ) (xs ys : List Notify) → awaited n (xs ++ ys) ≡ awaited n xs + awaited n ys
awaited_append n [] ys = omega arith
awaited_append n (calls cs ∷ xs) ys = omega (arith, awaited_append n xs ys)
awaited_append n (counts a cs ∷ xs) ys = awaited_append n xs ys

all_call_append :
    (xs ys : List Notify) → all_call xs ≡ true → all_call ys ≡ true → all_call (xs ++ ys) ≡ true
all_call_append [] ys h k = k
all_call_append (calls cs ∷ xs) ys h k = all_call_append xs ys h k
all_call_append (counts a cs ∷ xs) ys h k = absurd (cc)

-- What a request with these callbacks does: each is called or waits for the response.
pub record Passes (cs : List ℕ) (t t' : AckGroupingTracker) : Type 0 where
  pub passed :
      (n : ℕ)
      → called n t'.completed + awaited n t'.requests
        ≡ called n t.completed + awaited n t.requests + occurrences n cs
  pub requests : all_call t'.requests ≡ true
  pub connection : t'.connection ≡ t.connection
  pub latest_cumulative_callback : t'.latest_cumulative_callback ≡ t.latest_cumulative_callback
  pub pending_individual_callbacks :
      t'.pending_individual_callbacks ≡ t.pending_individual_callbacks
  pub require_cumulative_ack : t'.require_cumulative_ack ≡ t.require_cumulative_ack
  pub pending_individual_acks : t'.pending_individual_acks ≡ t.pending_individual_acks

complete-Passes :
    (t : AckGroupingTracker) (cs : List ℕ) (r : Result)
    → all_call t.requests ≡ true
    → Passes cs t (complete t cs r)
complete-Passes t cs r h = record {
  passed = λ n. omega (arith, called_append n t.completed (all_with r cs), called-all_with n r cs);
  requests = h;
  connection = refl;
  latest_cumulative_callback = refl;
  pending_individual_callbacks = refl;
  require_cumulative_ack = refl;
  pending_individual_acks = refl;
}

send-Passes :
    (t : AckGroupingTracker) (ack : Ack) (cs : List ℕ)
    → all_call t.requests ≡ true
    → Passes cs t (send t ack (calls cs))
unfolding send notify
send-Passes t ack cs h = elim (Bool-cases t.wait_response) [
  | inl e ↦ record {
    passed = λ n. ground (arith, e, awaited_append n t.requests (calls cs ∷ []));
    requests = ground (arith, e, all_call_append t.requests (calls cs ∷ []) h);
    connection = ground arith;
    latest_cumulative_callback = ground arith;
    pending_individual_callbacks = ground arith;
    require_cumulative_ack = ground arith;
    pending_individual_acks = ground arith;
  }
  | inr d ↦ record {
    passed = λ n. ground (
      arith,
      d,
      called_append n t.completed (all_with Result.ok cs),
      called-all_with n Result.ok cs,
    );
    requests = ground arith;
    connection = ground arith;
    latest_cumulative_callback = ground arith;
    pending_individual_callbacks = ground arith;
    require_cumulative_ack = ground arith;
    pending_individual_acks = ground arith;
  }
]

-- How a request ends, by the connection.
do_immediate_ack_id_cases :
    (t : AckGroupingTracker) (ack : Ack) (cs : List ℕ)
    → (do_immediate_ack_id t ack (calls cs) ≡ complete t cs Result.already_closed)
      ⊎ (do_immediate_ack_id t ack (calls cs) ≡ send t ack (calls cs))
unfolding do_immediate_ack_id notify
do_immediate_ack_id_cases t ack cs = elim (Option-cases t.connection) [
  | inl e ↦ inl (
      ap
        (λ (o : Option Bool). elim o [
          | none ↦ complete t cs Result.already_closed
          | some m ↦ send t ack (calls cs)
        ])
        e)
  | inr (m, e) ↦ inr (
      ap
        (λ (o : Option Bool). elim o [
          | none ↦ complete t cs Result.already_closed
          | some m ↦ send t ack (calls cs)
        ])
        e)
]

pub do_immediate_ack_id-Passes :
    (t : AckGroupingTracker) (ack : Ack) (cs : List ℕ)
    → all_call t.requests ≡ true
    → Passes cs t (do_immediate_ack_id t ack (calls cs))
do_immediate_ack_id-Passes t ack cs h = elim (do_immediate_ack_id_cases t ack cs) [
  | inl e ↦ subst (λ t'. Passes cs t t') (sym e) (complete-Passes t cs Result.already_closed h)
  | inr e ↦ subst (λ t'. Passes cs t t') (sym e) (send-Passes t ack cs h)
]

do_immediate_ack_set_cases :
    (t : AckGroupingTracker) (ids : IdMap (List MessageIdImpl)) (cs : List ℕ)
    → t.connection ≢ some false
    → (do_immediate_ack_set t ids cs ≡ complete t cs Result.already_closed)
      ⊎ ((ack : Ack) × (do_immediate_ack_set t ids cs ≡ send t ack (calls cs)))
unfolding do_immediate_ack_set notify
do_immediate_ack_set_cases t ids cs multi_message = elim (Option-cases t.connection) [
  | inl e ↦ inl (ground arith)
  | inr (true, e) ↦ inr (multi (expand ids []), ground arith)
  | inr (false, e) ↦ absurd (multi_message e)
]

do_immediate_ack_set-Passes :
    (t : AckGroupingTracker) (ids : IdMap (List MessageIdImpl)) (cs : List ℕ)
    → all_call t.requests ≡ true
    → t.connection ≢ some false
    → Passes cs t (do_immediate_ack_set t ids cs)
do_immediate_ack_set-Passes t ids cs h multi_message =
    elim (do_immediate_ack_set_cases t ids cs multi_message) [
      | inl e ↦ subst (λ t'. Passes cs t t') (sym e) (complete-Passes t cs Result.already_closed h)
      | inr (ack, e) ↦ subst (λ t'. Passes cs t t') (sym e) (send-Passes t ack cs h)
    ]

-- What an operation with these callbacks as arguments does to a tracker that is plain.
abbrev pub Keeps : List ℕ → AckGroupingTracker → AckGroupingTracker → Type 0
Keeps cs t t' = IsPlain t' × ((n : ℕ) → owed n t' ≡ owed n t + occurrences n cs)

pub flush_cumulative-Keeps : (t : AckGroupingTracker) → IsPlain t → Keeps [] t (flush_cumulative t)
unfolding flush_cumulative
flush_cumulative-Keeps t v = elim (Bool-cases t.require_cumulative_ack) [
  | inr e ↦ (
    record {
      multi_message = ground (arith, v.multi_message);
      requests = ground (arith, v.requests);
      required = ground (arith, v.required);
    },
    λ n. ground arith,
  )
  | inl e ↦
      let cs = to_list t.latest_cumulative_callback in
      let p = do_immediate_ack_id-Passes t (cumulative t.next_cumulative_ack) cs v.requests in
      (
        record {
          multi_message = λ h. v.multi_message (sym p.connection ∙ ground arith);
          requests = ground (arith, p.requests);
          required = ground arith;
        },
        λ n. ground (arith, p.passed n, p.pending_individual_callbacks),
      )
]

pub flush_individual-Keeps : (t : AckGroupingTracker) → IsPlain t → Keeps [] t (flush_individual t)
unfolding flush_individual
flush_individual-Keeps t v = elim (List-cases t.pending_individual_acks) [
  | inl e ↦ (
    record {
      multi_message = ground (arith, v.multi_message);
      requests = ground (arith, v.requests);
      required = ground (arith, v.required);
    },
    λ n. ground arith,
  )
  | inr (id, ids, e) ↦
      let p =
        do_immediate_ack_set-Passes (record t { pending_individual_callbacks = [] }) (id ∷ ids)
          t.pending_individual_callbacks v.requests v.multi_message in
      (
        record {
          multi_message = λ h. v.multi_message (sym p.connection ∙ ground arith);
          requests = ground (arith, p.requests);
          required =
              ground (arith, p.require_cumulative_ack, p.latest_cumulative_callback, v.required);
        },
        λ n.
            ground
              (arith, p.passed n, p.pending_individual_callbacks, p.latest_cumulative_callback),
      )
]

pub flush_cumulative_lem :
    (t : AckGroupingTracker)
    → IsPlain t
    → ((flush_cumulative t).latest_cumulative_callback ≡ none)
      × ((flush_cumulative t).pending_individual_acks ≡ t.pending_individual_acks)
unfolding flush_cumulative
flush_cumulative_lem t v =
    let p =
      do_immediate_ack_id-Passes t (cumulative t.next_cumulative_ack)
        (to_list t.latest_cumulative_callback) v.requests in
    (ground (arith, v.required), ground (arith, p.pending_individual_acks))

pub flush_individual_lem :
    (t : AckGroupingTracker)
    → IsPlain t
    → ((flush_individual t).latest_cumulative_callback ≡ t.latest_cumulative_callback)
      × ((t.pending_individual_acks ≡ [])
          ⊎ ((flush_individual t).pending_individual_callbacks ≡ []))
unfolding flush_individual
flush_individual_lem t v = elim (List-cases t.pending_individual_acks) [
  | inl e ↦ (ground arith, inl e)
  | inr (id, ids, e) ↦
      let p =
        do_immediate_ack_set-Passes (record t { pending_individual_callbacks = [] }) (id ∷ ids)
          t.pending_individual_callbacks v.requests v.multi_message in
      (
        ground (arith, p.latest_cumulative_callback),
        inr (ground (arith, p.pending_individual_callbacks)),
      )
]
