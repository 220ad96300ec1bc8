-- ===== src/Flow/Losses.antt =====
-- The permits that are lost with the messages of lib/ConsumerImpl.cc, and what is left of the others.
use pulsar_client_cpp.Prelude.{
  ℕ, suc, ◌+◌, ◌-◌, ◌<◌, ◌≡◌, refl, subst, ◌∙◌, inl, inr, not, ◌&&◌, Option, none, some, List, [],
  ◌∷◌, length, ltb, if◌then◌else◌, arith, Bool-cases,
}
use pulsar_client_cpp.Flow.{
  Consumer, new_consumer, increase_available_permits, handle_create_consumer, reset_cnx,
  pause_message_listener, execute_notify_callback, Decryption, readable, consumed, discards, fails,
  Part, Received, num_messages_in_batch, is_skipped, receive_parts,
  receive_individual_messages_from_batch, receive_single, receive_decrypted, receive_by,
  message_received, Event, opens, lost, receives, listens, finishes, pauses, resumes, arrives,
  arrive, step, run,
}
use pulsar_client_cpp.Flow.Balance.{
  IsAccounted, IsBalanced, increase-IsBalanced, handle_create_consumer-IsBalanced,
  execute_notify_callback-IsBalanced, execute_notify_callback-cnx, receive-IsBalanced,
  internal_listener-IsBalanced, finish_taken-IsBalanced, resume-IsBalanced,
}

again : (c : Consumer) {a b : ℕ} → a ≡ b → IsBalanced c a → IsBalanced c b
again c e v = subst (λ n. IsBalanced c n) e v

receive_parts-IsBalanced :
    (c : Consumer) (j redelivery_count : ℕ) (parts : List Part) (missing : ℕ)
    → c.cnx ≡ some j
    → IsBalanced c (missing + length parts)
    → let (c', skipped) = receive_parts c j redelivery_count parts in
      IsBalanced c' (missing + skipped)
unfolding receive_parts
receive_parts-IsBalanced c j redelivery_count [] missing o v = v
receive_parts-IsBalanced c j redelivery_count (part ∷ parts) missing o v =
    elim (Bool-cases (is_skipped c redelivery_count part)) [
      | inl e ↦
          let rest =
            receive_parts-IsBalanced c j redelivery_count parts (missing + 1) o
              (again c (omega arith) v) in
          rw e (again _ (omega arith) rest)
      | inr e ↦
          let c' = execute_notify_callback c j in
          let one =
            execute_notify_callback-IsBalanced c j (missing + length parts) o
              (again c (omega arith) v) in
          rw e (
            receive_parts-IsBalanced c' j redelivery_count parts missing
              (execute_notify_callback-cnx c j ∙ o) one)
    ]

receive_individual-IsBalanced :
    (c : Consumer) (j : ℕ) (m : Received) (missing : ℕ)
    → c.cnx ≡ some j
    → IsBalanced c (missing + suc (length m.more))
    → IsBalanced (receive_individual_messages_from_batch c j m) missing
unfolding receive_individual_messages_from_batch
receive_individual-IsBalanced c j m missing o v =
    let out = receive_parts c j m.redelivery_count (m.first ∷ m.more) in
    let w = receive_parts-IsBalanced c j m.redelivery_count (m.first ∷ m.more) missing o v in
    elim (Bool-cases (ltb 0 out.1)) [
      | inl e ↦ rw e (increase-IsBalanced out.0 missing out.1 w)
      | inr e ↦ rw e (again out.0 (ground (arith, e)) w)
    ]

-- The permits that are not given back for a message, by what becomes of it.
unfoldable pub loss_of_decrypted : Received → ℕ
loss_of_decrypted m =
    if not m.is_checksum_valid
    then num_messages_in_batch m - 1
    else (if not m.is_undecryptable && (not m.is_chunked && not m.uncompresses)
        then num_messages_in_batch m - 1
        else (if not m.has_num_messages_in_batch && (m.is_chunked && not m.chunk_completes)
            then 0
            else (if m.is_duplicate
                then 0
                else (if m.has_num_messages_in_batch then 0 else (if m.is_prior then 1 else 0)))))

abbrev pub loss_by : Decryption → Received → ℕ
loss_by readable m = loss_of_decrypted m
loss_by consumed m = loss_of_decrypted m
loss_by discards m = num_messages_in_batch m - 1
loss_by fails m = num_messages_in_batch m

unfoldable pub loss : Received → ℕ
loss m = loss_by m.decryption m

receive_single-IsBalanced :
    (c : Consumer) (j : ℕ) (m : Received) (missing : ℕ)
    → c.cnx ≡ some j
    → IsBalanced c (missing + 1)
    → IsBalanced (receive_single c j m) (missing + (if m.is_prior then 1 else 0))
unfolding receive_single
receive_single-IsBalanced c j m missing o v = elim (Bool-cases m.is_prior) [
  | inl e ↦ rw e v
  | inr e ↦ rw e (elim (Bool-cases (ltb c.max_redeliver_count m.redelivery_count)) [
    | inl e' ↦ rw e' (again _ (omega arith) (increase-IsBalanced c missing 1 v))
    | inr e' ↦ rw e' (again _ (omega arith) (execute_notify_callback-IsBalanced c j missing o v))
  ])
]

discarded :
    (c : Consumer) (m : Received) (missing : ℕ)
    → IsBalanced c (missing + num_messages_in_batch m)
    → IsBalanced (increase_available_permits c 1) (missing + (num_messages_in_batch m - 1))
discarded c m missing v =
    increase-IsBalanced c (missing + (num_messages_in_batch m - 1)) 1 (again c (ground arith) v)

-- A message that reaches the test for duplicates.
accepted :
    (c : Consumer) (j : ℕ) (m : Received) (missing : ℕ)
    → c.cnx ≡ some j
    → IsBalanced c (missing + num_messages_in_batch m)
    → IsBalanced
        (if m.is_duplicate
          then increase_available_permits c (num_messages_in_batch m)
          else (if m.has_num_messages_in_batch
              then receive_individual_messages_from_batch c j m
              else receive_single c j m))
        (missing
          + (if m.is_duplicate
              then 0
              else (if m.has_num_messages_in_batch then 0 else (if m.is_prior then 1 else 0))))
accepted c j m missing o v = elim (Bool-cases m.is_duplicate) [
  | inl e ↦
      simp e (again _ (omega arith) (increase-IsBalanced c missing (num_messages_in_batch m) v))
  | inr e ↦ simp e (elim (Bool-cases m.has_num_messages_in_batch) [
    | inl e2 ↦ simp e2 (
        again _ (omega arith)
          (receive_individual-IsBalanced c j m missing o (again c (ground (arith, e2)) v)))
    | inr e2 ↦ simp e2 (receive_single-IsBalanced c j m missing o (again c (ground (arith, e2)) v))
  ])
]

receive_decrypted-IsBalanced :
    (c : Consumer) (j : ℕ) (m : Received) (missing : ℕ)
    → c.cnx ≡ some j
    → IsBalanced c (missing + num_messages_in_batch m)
    → IsBalanced (receive_decrypted c j m) (missing + loss_of_decrypted m)
unfolding receive_decrypted loss_of_decrypted
receive_decrypted-IsBalanced c j m missing o v = elim (Bool-cases (not m.is_checksum_valid)) [
  | inl e ↦ simp e (discarded c m missing v)
  | inr e ↦
      simp e
        (elim (Bool-cases (not m.is_undecryptable && (not m.is_chunked && not m.uncompresses))) [
          | inl e2 ↦ simp e2 (discarded c m missing v)
          | inr e2 ↦
              simp e2
                (elim (Bool-cases
                  (not m.has_num_messages_in_batch && (m.is_chunked && not m.chunk_completes))) [
                    | inl e3 ↦ simp e3 (
                        again _ (omega arith)
                          (increase-IsBalanced c missing 1 (again c (ground (arith, e3)) v)))
                    | inr e3 ↦ simp e3 (accepted c j m missing o v)
                  ])
        ])
]

receive_by-IsBalanced :
    (d : Decryption) (c : Consumer) (j : ℕ) (m : Received) (missing : ℕ)
    → c.cnx ≡ some j
    → IsBalanced c (missing + num_messages_in_batch m)
    → IsBalanced (receive_by d c j m) (missing + loss_by d m)
receive_by-IsBalanced readable c j m missing o v = receive_decrypted-IsBalanced c j m missing o v
receive_by-IsBalanced consumed c j m missing o v = receive_decrypted-IsBalanced c j m missing o v
receive_by-IsBalanced discards c j m missing o v = discarded c m missing v
receive_by-IsBalanced fails c j m missing o v = v

-- The losses of the connection that a consumer has, after an event.
unfoldable pub loss_on : Option ℕ → Received → ℕ
loss_on none m = 0
loss_on (some k) m = loss m

unfoldable pub losses : Consumer → ℕ → List Event → ℕ
losses c n [] = n
losses c n (opens has_listener waiting ∷ es) = losses (step c (opens has_listener waiting)) 0 es
losses c n (arrives m ∷ es) = losses (step c (arrives m)) (n + loss_on c.cnx m) es
losses c n (e ∷ es) = losses (step c e) n es

arrive-IsBalanced :
    (cnx : Option ℕ) (c : Consumer) (m : Received) (missing : ℕ)
    → c.cnx ≡ cnx
    → IsBalanced c missing
    → IsBalanced (arrive c cnx m) (missing + loss_on cnx m)
unfolding arrive loss_on message_received loss
arrive-IsBalanced none c m missing e v = again c (omega arith) v
arrive-IsBalanced (some j) c m missing e v =
    receive_by-IsBalanced m.decryption (record c { pushed = c.pushed + num_messages_in_batch m }) j
      m missing e
      (record {
        sized = v.sized;
        fresh = v.fresh;
        settled = v.settled;
        there = λ k o.
            let old = v.there k o in
            record { balance = omega (arith, old.balance); own = old.own; known = old.known };
      })

-- A consumer that is not on a connection, or whose listener is paused.
reset_cnx-IsBalanced :
    (c : Consumer) (missing : ℕ) → IsBalanced c missing → IsBalanced (reset_cnx c) missing
reset_cnx-IsBalanced c missing v = record {
  sized = v.sized;
  fresh = v.fresh;
  settled = v.settled;
  there = λ k e. absurd (cc);
}

pause-IsBalanced :
    (c : Consumer) (missing : ℕ)
    → IsBalanced c missing
    → IsBalanced (pause_message_listener c) missing
pause-IsBalanced c missing v = record {
  sized = v.sized;
  fresh = v.fresh;
  settled = λ r. absurd (cc);
  there = λ k o.
      let old = v.there k o in record { balance = old.balance; own = old.own; known = old.known };
}

pub run-IsBalanced_lem :
    (es : List Event) (c : Consumer) (n : ℕ)
    → IsBalanced c n
    → IsBalanced (run c es) (losses c n es)
unfolding run step losses
run-IsBalanced_lem [] c n v = v
run-IsBalanced_lem (opens has_listener waiting ∷ es) c n v =
    run-IsBalanced_lem es (handle_create_consumer c has_listener waiting) 0
      (handle_create_consumer-IsBalanced c n has_listener waiting v)
run-IsBalanced_lem (arrives m ∷ es) c n v =
    run-IsBalanced_lem es _ _ (arrive-IsBalanced c.cnx c m n refl v)
run-IsBalanced_lem (lost ∷ es) c n v =
    run-IsBalanced_lem es (reset_cnx c) n (reset_cnx-IsBalanced c n v)
run-IsBalanced_lem (receives ∷ es) c n v =
    run-IsBalanced_lem es _ n (receive-IsBalanced c c.incoming_messages n refl v)
run-IsBalanced_lem (listens ∷ es) c n v =
    run-IsBalanced_lem es _ n (internal_listener-IsBalanced c c.incoming_messages n refl v)
run-IsBalanced_lem (finishes ∷ es) c n v =
    run-IsBalanced_lem es _ n (finish_taken-IsBalanced c c.taken n refl v)
run-IsBalanced_lem (pauses ∷ es) c n v =
    run-IsBalanced_lem es (pause_message_listener c) n (pause-IsBalanced c n v)
run-IsBalanced_lem (resumes ∷ es) c n v = run-IsBalanced_lem es _ n (resume-IsBalanced c n v)

pub new_consumer-IsBalanced : (size most : ℕ) → 0 < size → IsBalanced (new_consumer size most) 0
new_consumer-IsBalanced size most sized = record {
  sized = sized;
  fresh = λ k h. refl;
  settled = λ r. omega arith;
  there = λ k e. absurd (cc);
}

-- In every run of a new consumer with a queue for at least one message, on the connection that it has: the permits that the broker was given,
-- those kept here, and the messages of the connection in the queue and on their way make the size of the
-- queue and the messages that came, less exactly the losses of the messages that came on it; and only its
-- messages are in the queue.
pub run-IsAccounted :
    (size most : ℕ) (es : List Event) (k : ℕ)
    → 0 < size
    → let c = run (new_consumer size most) es in
      c.cnx ≡ some k → IsAccounted c k (losses (new_consumer size most) 0 es)
run-IsAccounted size most es k sized o =
    let new = new_consumer-IsBalanced size most sized in
    (run-IsBalanced_lem es (new_consumer size most) 0 new).there k o
