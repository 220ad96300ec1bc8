-- ===== src/Producer/Permits/Failures.antt =====
-- The accounting of permits and memory through `failPendingMessages` and `handleSendTimeout` of
-- lib/ProducerImpl.cc.
use pulsar_client_cpp.Prelude.{
  ℕ, ◌+◌, ◌≡◌, refl, sym, ap, ◌∙◌, subst, inl, inr, Option, none, some, List, [], ◌∷◌, map, arith,
  Bool-cases, Option-cases,
}
use pulsar_client_cpp.MemoryLimit
use pulsar_client_cpp.Result.{Result}
use pulsar_client_cpp.Op.{Codec, OpSendMsg, create_op_send_msg, is_empty}
use pulsar_client_cpp.Producer.{Config, Producer, completed, release_semaphore_for_send_op}
use pulsar_client_cpp.Producer.Failing.{
  release_all, fail_batch, complete_all, get_pending_callbacks_when_failed, fail_pending_messages,
  handle_send_timeout,
}
use pulsar_client_cpp.Producer.Permits.{
  Accounts, Agrees, AllSent, PermitsOut, PermitsOut-release, queued_count, queued_size,
  batched_count, batched_size,
}
use pulsar_client_cpp.Producer.Failing.Returns.{Released, release_all-Released}
use pulsar_client_cpp.Producer.Permits.Batches.{
  Accepts, AcceptsHeld, create_op_send_msg_accepted, callbacks-pos, flush-Accounts,
}
use pulsar_client_cpp.Producer.Permits.Steps.{Keeps, KeepsTimer, completed-keeps, queue_cases}

sent_ops : (q : List (Option OpSendMsg)) → AllSent q → (ops : List OpSendMsg) × (q ≡ map some ops)
sent_ops [] h = ([], refl)
sent_ops (none ∷ q) h = absurd h
sent_ops (some op ∷ q) h = let (ops, e) = sent_ops q h.1 in (op ∷ ops, ap (λ r. some op ∷ r) e)

release-Accounts :
    (p : Producer) (op : OpSendMsg)
    → Accounts p (0 + op.messages_count) (0 + op.messages_size)
    → Accounts (release_semaphore_for_send_op p op) 0 0
unfolding release_semaphore_for_send_op MemoryLimit.release_memory
release-Accounts p op a = record {
  permits =
      PermitsOut-release p.semaphore op.messages_count _
        (subst (PermitsOut p.semaphore) (omega arith) a.permits);
  memory_used = omega (arith, a.memory_used);
  memory_small = omega arith;
  container = a.container;
  queue = a.queue;
}

config-release :
    (p : Producer) (op : OpSendMsg) → (release_semaphore_for_send_op p op).config ≡ p.config
unfolding release_semaphore_for_send_op
config-release p op = refl

fail_batch-Keeps :
    (codec : Codec) (now : ℕ) (ops : List OpSendMsg) (p : Producer)
    → AcceptsHeld codec p.max_message_size p.batch_message_container
    → Accounts p 0 0
    → Keeps p.config (fail_batch codec now ops p).1
unfolding fail_batch
fail_batch-Keeps codec now ops p ok a = elim (Option-cases p.batch_message_container) [
  | inl e ↦ rw (e, fail_batch) (a, refl)
  | inr (c, e) ↦ elim (Bool-cases (is_empty c)) [
    | inl empty ↦ rw (e, fail_batch) (rw empty (a, refl))
    | inr full ↦
        let made = create_op_send_msg codec p.max_message_size p.send_timeout now c none in
        let p1 : Producer = record p { batch_message_container = some made.1 } in
        let held : Accepts codec p.max_message_size c.batch_.messages =
          subst (AcceptsHeld codec p.max_message_size) e ok in
        let (good, n, s, z, y, b) =
          create_op_send_msg_accepted codec p.max_message_size p.send_timeout now c none
            held.encrypts held.fits (callbacks-pos c (rw e at a.container) full) in
        let acc = release-Accounts p1 made.0 (flush-Accounts p c made.1 made.0 0 0 e n s z y b a) in
        rw (e, fail_batch) (rw full (rw good (acc, config-release p1 made.0)))
  ]
]

-- Only the batch is left when the queued operations are released.
Released-Accounts :
    (p p1 : Producer)
    → Accounts p 0 0
    → Released
        (record p { pending_messages_queue = [] })
        p1
        (batched_count p.batch_message_container)
        (batched_size p.batch_message_container)
    → Accounts p1 0 0
Released-Accounts p p1 a rel =
    let counts : queued_count p1.pending_messages_queue ≡ 0 = ap queued_count rel.same_queue in
    let sizes : queued_size p1.pending_messages_queue ≡ 0 = ap queued_size rel.same_queue in
    let batched : batched_count p1.batch_message_container
        ≡ batched_count p.batch_message_container =
      ap batched_count rel.same_container in
    let bytes : batched_size p1.batch_message_container ≡ batched_size p.batch_message_container =
      ap batched_size rel.same_container in
    record {
      permits = subst (PermitsOut p1.semaphore) (omega (arith, counts, batched)) rel.permits;
      memory_used = omega (arith, rel.used, sizes, bytes);
      memory_small = omega (arith, rel.used, a.memory_used, a.memory_small);
      container = subst Agrees (sym rel.same_container) a.container;
      queue = subst AllSent (sym rel.same_queue) tt;
    }

pub fail_pending_messages-Keeps :
    (codec : Codec) (now : ℕ) (p : Producer) (r : Result)
    → AcceptsHeld codec p.max_message_size p.batch_message_container
    → Accounts p 0 0
    → (p' : Producer) × (fail_pending_messages codec now p r ≡ some p') × Keeps p.config p'
unfolding fail_pending_messages get_pending_callbacks_when_failed
fail_pending_messages-Keeps codec now p r ok a =
    let (ops, q) = sent_ops p.pending_messages_queue a.queue in
    let counts : queued_count p.pending_messages_queue ≡ queued_count (map some ops) =
      ap queued_count q in
    let sizes : queued_size p.pending_messages_queue ≡ queued_size (map some ops) =
      ap queued_size q in
    let (p1, went, rel) =
      release_all-Released ops (record p { pending_messages_queue = [] })
        (batched_count p.batch_message_container) (batched_size p.batch_message_container)
        (subst (PermitsOut p.semaphore) (omega (arith, counts)) a.permits)
        (omega (arith, a.memory_used, sizes)) a.memory_small in
    let acc = Released-Accounts p p1 a rel in
    let kept =
      fail_batch-Keeps codec now ops p1
        (subst (AcceptsHeld codec p1.max_message_size) (sym rel.same_container) (
          subst (λ (c : Config). AcceptsHeld codec c.max_message_size p.batch_message_container)
            (sym rel.same_config) ok))
        acc in
    let went' : release_all (record p { pending_messages_queue = [] }) p.pending_messages_queue
        ≡ some (ops, p1) =
      subst (λ queue. release_all (record p { pending_messages_queue = [] }) queue ≡ some (ops, p1))
        (sym q) went in
    (
      completed (fail_batch codec now ops p1).1 (complete_all r (fail_batch codec now ops p1).0),
      rw (went', fail_pending_messages) refl,
      (completed-keeps _ _ kept.0, kept.1 ∙ rel.same_config),
    )

pub handle_send_timeout-Keeps :
    (codec : Codec) (now : ℕ) (p : Producer)
    → AcceptsHeld codec p.max_message_size p.batch_message_container
    → Accounts p 0 0
    → KeepsTimer p.config (handle_send_timeout codec now p)
unfolding handle_send_timeout
handle_send_timeout-Keeps codec now p ok a =
    let (p', went, keeps) = fail_pending_messages-Keeps codec now p Result.timeout ok a in
    elim (queue_cases p.pending_messages_queue a.queue) [
      | inl e ↦ ground (arith, a, e)
      | inr (op, rest, e, good) ↦ ground (arith, a, e, went, keeps.0, keeps.1)
    ]
