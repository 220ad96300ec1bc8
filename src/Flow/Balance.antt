-- ===== src/Flow/Balance.antt =====
-- Where the permits of lib/ConsumerImpl.cc are.
use pulsar_client_cpp.Prelude.{
  ℕ, ◌+◌, ◌≤◌, ◌<◌, ◌≡◌, refl, sym, ap, subst, ◌∙◌, inl, inr, Bool, true, false, Option, none, some,
  List, [], ◌∷◌, ◌++◌, length, length-append, ltb, ◌==◌, arith, max, occurrences,
  occurrences_append, Bool-cases, Option-cases,
}
use pulsar_client_cpp.Flow.{
  Consumer, receiver_queue_refill_threshold, send_flow_permits_to_broker,
  increase_available_permits, handle_create_consumer, execute_notify_callback, process_on,
  message_processed, receive, internal_listener, finish_taken, resume_message_listener,
}

-- On a connection: every message that the broker may send or has sent is a permit at the broker, one kept
-- here, a message in the queue or on its way, or one of `missing` others.
pub record IsAccounted (c : Consumer) (k missing : ℕ) : Type 0 where
  pub balance :
      c.granted
        + c.available_permits
        + occurrences k c.incoming_messages
        + occurrences k c.taken
        + missing
      ≡ c.receiver_queue_size + c.pushed
  pub own : length c.incoming_messages ≡ occurrences k c.incoming_messages
  pub known : k < c.next_cnx

-- The queue has places, the messages here are of known connections, and with the listener running the permits that are kept are
-- fewer than are worth sending.
pub record IsBalanced (c : Consumer) (missing : ℕ) : Type 0 where
  pub sized : 0 < c.receiver_queue_size
  pub fresh :
      (k : ℕ) → c.next_cnx ≤ k → occurrences k c.incoming_messages + occurrences k c.taken ≡ 0
  pub settled :
      c.message_listener_running ≡ true
      → c.available_permits < max 1 (receiver_queue_refill_threshold c)
  pub there : (k : ℕ) → c.cnx ≡ some k → IsAccounted c k missing

-- What stays when permits change only.
record IsSame (c c' : Consumer) : Type 0 where
  pub cnx : c'.cnx ≡ c.cnx
  pub next : c'.next_cnx ≡ c.next_cnx
  pub incoming : c'.incoming_messages ≡ c.incoming_messages
  pub taken : c'.taken ≡ c.taken
  pub pushed : c'.pushed ≡ c.pushed
  pub size : c'.receiver_queue_size ≡ c.receiver_queue_size
  pub running : c'.message_listener_running ≡ c.message_listener_running

increase-IsSame : (c : Consumer) (delta : ℕ) → IsSame c (increase_available_permits c delta)
unfolding increase_available_permits send_flow_permits_to_broker
increase-IsSame c delta = elim (Option-cases c.cnx) [
  | inl e ↦ ground (arith, e)
  | inr (k, e) ↦ ground (arith, e)
]

increase_sum :
    (c : Consumer) (delta k : ℕ)
    → c.cnx ≡ some k
    → let c' = increase_available_permits c delta in
      c'.granted + c'.available_permits ≡ c.granted + c.available_permits + delta
unfolding increase_available_permits send_flow_permits_to_broker
increase_sum c delta k e = ground (arith, e)

increase_settled :
    (c : Consumer) (delta : ℕ)
    → let c' = increase_available_permits c delta in
      c.message_listener_running ≡ true
      → c'.available_permits < max 1 (receiver_queue_refill_threshold c')
unfolding increase_available_permits send_flow_permits_to_broker
increase_settled c delta r = elim (Option-cases c.cnx) [
  | inl e ↦ ground (arith, e, r)
  | inr (k, e) ↦ ground (arith, e, r)
]

-- Permits that are given back are missing no longer. (That the permits are settled is made so.)
increase_lem :
    (c : Consumer) (missing delta : ℕ)
    → 0 < c.receiver_queue_size
    → ((k : ℕ) → c.next_cnx ≤ k → occurrences k c.incoming_messages + occurrences k c.taken ≡ 0)
    → ((k : ℕ) → c.cnx ≡ some k → IsAccounted c k (missing + delta))
    → IsBalanced (increase_available_permits c delta) missing
increase_lem c missing delta sized fresh there =
    let s = increase-IsSame c delta in
    let c' = increase_available_permits c delta in
    record {
      sized = ground (arith, s.size, sized);
      fresh =
          λ k h. ground (arith, s.incoming, s.taken, s.next, fresh k (omega (arith, s.next, h)));
      settled = λ r. increase_settled c delta (sym s.running ∙ r);
      there = λ k e.
          let old = there k (sym s.cnx ∙ e) in
          record {
            balance = ground (
              arith,
              s.incoming,
              s.taken,
              s.pushed,
              s.size,
              old.balance,
              increase_sum c delta k (sym s.cnx ∙ e),
            );
            own = ground (arith, s.incoming, old.own);
            known = ground (arith, s.next, old.known);
          };
    }

pub increase-IsBalanced :
    (c : Consumer) (missing delta : ℕ)
    → IsBalanced c (missing + delta)
    → IsBalanced (increase_available_permits c delta) missing
increase-IsBalanced c missing delta v = increase_lem c missing delta v.sized v.fresh v.there

-- A new connection starts with a permit for each place in the queue.
handle_create_consumer_lem :
    (c : Consumer) (has_listener waiting : Bool)
    → 0 < c.receiver_queue_size
    → handle_create_consumer c has_listener waiting ≡ record c {
      cnx = some c.next_cnx;
      next_cnx = c.next_cnx + 1;
      incoming_messages = [];
      available_permits = 0;
      granted = c.receiver_queue_size;
      pushed = 0;
    }
unfolding handle_create_consumer send_flow_permits_to_broker
handle_create_consumer_lem c has_listener waiting sized =
    let some_places : (c.receiver_queue_size == 0) ≡ false = ground arith in
    let asks : ltb 0 c.receiver_queue_size ≡ true = ground arith in
    elim (Bool-cases has_listener) [
      | inl e ↦ ground (arith, e, some_places, asks)
      | inr e ↦ ground (arith, e, some_places, asks)
    ]

pub handle_create_consumer-IsBalanced :
    (c : Consumer) (missing : ℕ) (has_listener waiting : Bool)
    → IsBalanced c missing
    → IsBalanced (handle_create_consumer c has_listener waiting) 0
handle_create_consumer-IsBalanced c missing has_listener waiting v =
    let none_yet = v.fresh c.next_cnx (omega arith) in
    subst (λ d. IsBalanced d 0) (sym (handle_create_consumer_lem c has_listener waiting v.sized))
      (record {
        sized = v.sized;
        fresh = λ k h. omega (arith, v.fresh k (omega arith));
        settled = λ r. omega arith;
        there = λ k o. record {
          balance = ground (arith, o, none_yet);
          own = refl;
          known = ground (arith, o);
        };
      })

-- A message that is delivered is missing no longer.
pub execute_notify_callback-IsBalanced :
    (c : Consumer) (j missing : ℕ)
    → c.cnx ≡ some j
    → IsBalanced c (missing + 1)
    → IsBalanced (execute_notify_callback c j) missing
unfolding execute_notify_callback
execute_notify_callback-IsBalanced c j missing o v =
    let known = (v.there j o).known in
    elim (Bool-cases (ltb 0 c.pending_receives)) [
      | inl e ↦ rw e (record {
        sized = v.sized;
        fresh = λ k h. ground (arith, h, known, v.fresh k h, occurrences_append k c.taken (j ∷ []));
        settled = v.settled;
        there = λ k e'.
            let old = v.there k e' in
            record {
              balance = ground (arith, o, e', old.balance, occurrences_append k c.taken (j ∷ []));
              own = old.own;
              known = old.known;
            };
      })
      | inr e ↦ rw e (record {
        sized = v.sized;
        fresh = λ k h.
            ground
              (arith, h, known, v.fresh k h, occurrences_append k c.incoming_messages (j ∷ []));
        settled = v.settled;
        there = λ k e'.
            let old = v.there k e' in
            record {
              balance =
                  ground
                    (arith, o, e', old.balance, occurrences_append k c.incoming_messages (j ∷ []));
              own = ground (
                arith,
                o,
                e',
                old.own,
                occurrences_append k c.incoming_messages (j ∷ []),
                length-append c.incoming_messages (j ∷ []),
              );
              known = old.known;
            };
      })
    ]

pub execute_notify_callback-cnx : (c : Consumer) (j : ℕ) → (execute_notify_callback c j).cnx ≡ c.cnx
unfolding execute_notify_callback
execute_notify_callback-cnx c j = ground arith

-- A message that is not here any more is processed.
process_on-IsBalanced :
    (o : Option ℕ) (c : Consumer) (j missing : ℕ)
    → c.cnx ≡ o
    → 0 < c.receiver_queue_size
    → ((k : ℕ) → c.next_cnx ≤ k → occurrences k c.incoming_messages + occurrences k c.taken ≡ 0)
    → (c.message_listener_running ≡ true
        → c.available_permits < max 1 (receiver_queue_refill_threshold c))
    → ((k : ℕ) → c.cnx ≡ some k → IsAccounted c k (missing + occurrences k (j ∷ [])))
    → IsBalanced (process_on o c j) missing
process_on-IsBalanced none c j missing e sized fresh settled there =
    increase_lem c missing 1 sized fresh (λ k e'. absurd (ground (arith, e, e')))
process_on-IsBalanced (some i) c j missing e sized fresh settled there =
    elim (Bool-cases (j == i)) [
      | inl same ↦ rw same (increase_lem c missing 1 sized fresh (λ k e'. counted k e' same))
      | inr other ↦ rw other (record {
        sized = sized;
        fresh = fresh;
        settled = settled;
        there = λ k e'.
            let old = there k e' in
            record {
              balance = ground (arith, old.balance, other, e, e');
              own = old.own;
              known = old.known;
            };
      })
    ]
  where
    counted : (k : ℕ) → c.cnx ≡ some k → (j == i) ≡ true → IsAccounted c k (missing + 1)
    counted k e' same =
        let old = there k e' in
        record {
          balance = ground (arith, old.balance, same, e, e');
          own = old.own;
          known = old.known;
        }

-- What the permits do not depend on may change.
other-IsBalanced :
    (c c' : Consumer) (missing : ℕ)
    → IsSame c c'
    → c'.granted ≡ c.granted
    → c'.available_permits ≡ c.available_permits
    → IsBalanced c missing
    → IsBalanced c' missing
other-IsBalanced c c' missing s g a v = record {
  sized = ground (arith, s, v.sized);
  fresh = λ k h. ground (arith, s, v.fresh k (omega (arith, s.next, h)));
  settled = λ r. ground (arith, s, g, a, v.settled (sym s.running ∙ r));
  there = λ k e.
      let old = v.there k (sym s.cnx ∙ e) in
      record {
        balance = ground (arith, s, g, a, old.balance);
        own = ground (arith, s, old.own);
        known = ground (arith, s, old.known);
      };
}

occurrences-length : (k : ℕ) (xs : List ℕ) → occurrences k xs ≤ length xs
occurrences-length k [] = omega arith
occurrences-length k (x ∷ xs) = ground (arith, occurrences-length k xs)

own_part :
    (queue : List ℕ) (j k : ℕ)
    → length (j ∷ queue) ≡ occurrences k (j ∷ queue)
    → length queue ≡ occurrences k queue
own_part queue j k h = ground (arith, h, occurrences-length k queue)

pub receive-IsBalanced :
    (c : Consumer) (queue : List ℕ) (missing : ℕ)
    → c.incoming_messages ≡ queue
    → IsBalanced c missing
    → IsBalanced (receive c queue) missing
unfolding receive message_processed
receive-IsBalanced c [] missing e v =
    other-IsBalanced c (record c { pending_receives = c.pending_receives + 1 }) missing
      (record {
        cnx = refl;
        next = refl;
        incoming = refl;
        taken = refl;
        pushed = refl;
        size = refl;
        running = refl;
      })
      refl refl v
receive-IsBalanced c (j ∷ queue) missing e v =
    process_on-IsBalanced c.cnx (record c { incoming_messages = queue }) j missing refl v.sized
      (λ k h. ground (arith, e, v.fresh k h)) v.settled
      (λ k o.
        let old = v.there k o in
        record {
          balance = ground (arith, e, old.balance);
          own = own_part queue j k (ap length (sym e) ∙ old.own ∙ ap (occurrences k) e);
          known = old.known;
        })

pub internal_listener-IsBalanced :
    (c : Consumer) (queue : List ℕ) (missing : ℕ)
    → c.incoming_messages ≡ queue
    → IsBalanced c missing
    → IsBalanced (internal_listener c queue) missing
unfolding internal_listener
internal_listener-IsBalanced c [] missing e v = v
internal_listener-IsBalanced c (j ∷ queue) missing e v =
    let c' = record c { incoming_messages = queue; taken = c.taken ++ (j ∷ []) } in
    let moved : IsBalanced c' missing = record {
      sized = v.sized;
      fresh = λ k h. ground (arith, e, v.fresh k h, occurrences_append k c.taken (j ∷ []));
      settled = v.settled;
      there = λ k o.
          let old = v.there k o in
          record {
            balance = ground (arith, e, old.balance, occurrences_append k c.taken (j ∷ []));
            own = own_part queue j k (ap length (sym e) ∙ old.own ∙ ap (occurrences k) e);
            known = old.known;
          };
    } in
    elim (Bool-cases c.message_listener_running) [
      | inl r ↦
          let ends : internal_listener c (j ∷ queue) ≡ c' = ground (arith, r) in
          subst (λ d. IsBalanced d missing) (sym ends) moved
      | inr r ↦
          let ends : internal_listener c (j ∷ queue) ≡ c = ground (arith, r) in
          subst (λ d. IsBalanced d missing) (sym ends) v
    ]

pub finish_taken-IsBalanced :
    (c : Consumer) (taken : List ℕ) (missing : ℕ)
    → c.taken ≡ taken
    → IsBalanced c missing
    → IsBalanced (finish_taken c taken) missing
unfolding finish_taken message_processed
finish_taken-IsBalanced c [] missing e v = v
finish_taken-IsBalanced c (j ∷ rest) missing e v =
    process_on-IsBalanced c.cnx (record c { taken = rest }) j missing refl v.sized
      (λ k h. ground (arith, e, v.fresh k h)) v.settled
      (λ k o.
        let old = v.there k o in
        record { balance = ground (arith, e, old.balance); own = old.own; known = old.known })

pub resume-IsBalanced :
    (c : Consumer) (missing : ℕ)
    → IsBalanced c missing
    → IsBalanced (resume_message_listener c) missing
unfolding resume_message_listener
resume-IsBalanced c missing v =
    let c' = record c { message_listener_running = true } in
    elim (Bool-cases c.message_listener_running) [
      | inl r ↦
          let ends : resume_message_listener c ≡ c = ground (arith, r) in
          subst (λ d. IsBalanced d missing) (sym ends) v
      | inr r ↦
          let ends : resume_message_listener c ≡ increase_available_permits c' 0 =
            ground (arith, r) in
          subst (λ d. IsBalanced d missing) (sym ends)
            (increase_lem c' missing 0 v.sized v.fresh (λ k o.
              let old = v.there k o in
              record { balance = omega (arith, old.balance); own = old.own; known = old.known }))
    ]
