-- ===== src/Producer/Failing/Returns.antt =====
-- What failing the pending messages gives back.
use pulsar_client_cpp.Prelude.{
  ℕ, ◌+◌, ◌^◌, ◌<◌, ◌≡◌, refl, sym, ap, ◌∙◌, subst, none, some, List, [], ◌∷◌, ◌++◌, map, arith,
}
use pulsar_client_cpp.MemoryLimit
use pulsar_client_cpp.Result.{Result}
use pulsar_client_cpp.Op.{Codec, Completion, OpSendMsg}
use pulsar_client_cpp.MessageId.{MessageId, default_impl, build}
use pulsar_client_cpp.Producer.Answers.{
  Answers, append-Answers, complete-Answers, all_given, ids_given,
}
use pulsar_client_cpp.Producer.{Producer, completed, release_semaphore_for_send_op}
use pulsar_client_cpp.Producer.Failing.{
  release_all, fail_batch, complete_all, get_pending_callbacks_when_failed, fail_pending_messages,
}
use pulsar_client_cpp.Producer.Permits.{
  Accounts, PermitsOut, PermitsOut-release, queued_count, queued_size, batched_count, batched_size,
}

-- The producer with the permits and the memory of the operations given back, and no others changed.
pub record Released (p p' : Producer) (count size : ℕ) : Type 0 where
  pub permits : PermitsOut p'.semaphore count
  pub used : p'.memory.current_usage ≡ size
  pub same_container : p'.batch_message_container ≡ p.batch_message_container
  pub same_queue : p'.pending_messages_queue ≡ p.pending_messages_queue
  pub same_completions : p'.completions ≡ p.completions
  pub same_config : p'.config ≡ p.config

release-Released :
    (p : Producer) (op : OpSendMsg) (count size : ℕ)
    → PermitsOut p.semaphore (op.messages_count + count)
    → p.memory.current_usage ≡ op.messages_size + size
    → p.memory.current_usage < 2 ^ 64
    → Released p (release_semaphore_for_send_op p op) count size
unfolding release_semaphore_for_send_op MemoryLimit.release_memory
release-Released p op count size out used small = record {
  permits = PermitsOut-release p.semaphore op.messages_count count out;
  used = omega arith;
  same_container = refl;
  same_queue = refl;
  same_completions = refl;
  same_config = refl;
}

pub release_all-Released :
    (ops : List OpSendMsg) (p : Producer) (count size : ℕ)
    → PermitsOut p.semaphore (queued_count (map some ops) + count)
    → p.memory.current_usage ≡ queued_size (map some ops) + size
    → p.memory.current_usage < 2 ^ 64
    → (p' : Producer) × (release_all p (map some ops) ≡ some (ops, p')) × Released p p' count size
unfolding release_all
release_all-Released [] p count size out used small = (
  p,
  refl,
  record {
    permits = subst (PermitsOut p.semaphore) (omega arith) out;
    used = omega arith;
    same_container = refl;
    same_queue = refl;
    same_completions = refl;
    same_config = refl;
  },
)
release_all-Released (op ∷ ops) p count size out used small =
    let one =
      release-Released p op (queued_count (map some ops) + count)
        (queued_size (map some ops) + size) (subst (PermitsOut p.semaphore) (omega arith) out)
        (omega arith) small in
    let (p', went, rest) =
      release_all-Released ops (release_semaphore_for_send_op p op) count size one.permits one.used
        (omega (arith, one.used)) in
    (
      p',
      rw (went, release_all),
      record {
        permits = rest.permits;
        used = rest.used;
        same_container = rest.same_container ∙ one.same_container;
        same_queue = rest.same_queue ∙ one.same_queue;
        same_completions = rest.same_completions ∙ one.same_completions;
        same_config = rest.same_config ∙ one.same_config;
      },
    )

fail_batch_alone :
    (codec : Codec) (now : ℕ) (ops : List OpSendMsg) (p : Producer)
    → p.batch_message_container ≡ none
    → fail_batch codec now ops p ≡ (ops, p)
unfolding fail_batch
fail_batch_alone codec now ops p e = ground arith

fail_released :
    (codec : Codec) (now : ℕ) (p p' : Producer) (ops : List OpSendMsg) (r : Result)
    → release_all (record p { pending_messages_queue = [] }) p.pending_messages_queue
      ≡ some (ops, p')
    → p'.batch_message_container ≡ none
    → fail_pending_messages codec now p r ≡ some (completed p' (complete_all r ops))
unfolding fail_pending_messages get_pending_callbacks_when_failed
fail_released codec now p p' ops r went alone =
    rw (went, fail_pending_messages) (rw (fail_batch_alone codec now ops p' alone))

-- The ids that the callbacks of messages get: none of the broker's.
abbrev pub no_ids : List OpSendMsg → List MessageId
no_ids [] = []
no_ids (op ∷ ops) = ids_given op.send_callback (build default_impl) ++ no_ids ops

complete_all-Answers :
    (r : Result) (ops : List OpSendMsg)
    → Answers (complete_all r ops) r (all_given ops) (no_ids ops)
unfolding complete_all
complete_all-Answers r [] = record { called = refl; ended = tt; told = refl }
complete_all-Answers r (op ∷ ops) =
    append-Answers r _ _ _ _ _ _ (complete-Answers op r (build default_impl))
      (complete_all-Answers r ops)

-- Without a batch in the making: of the callbacks that the queued operations were given, for their
-- messages and for flushes, each is called once, in order, with the given result, those of messages with
-- the default id; the queue is empty, and no permit and no byte stays taken.
pub fail_pending_messages_returns_all :
    (codec : Codec) (now : ℕ) (p : Producer) (ops : List OpSendMsg) (r : Result)
    → p.pending_messages_queue ≡ map some ops
    → p.batch_message_container ≡ none
    → Accounts p 0 0
    → (p' : Producer) × (done : List Completion) × (fail_pending_messages codec now p r ≡ some p')
      × (p'.pending_messages_queue ≡ [])
      × (p'.completions ≡ p.completions ++ done)
      × Answers done r (all_given ops) (no_ids ops)
      × PermitsOut p'.semaphore 0
      × (p'.memory.current_usage ≡ 0)
fail_pending_messages_returns_all codec now p ops r q none_batched a =
    let counts : queued_count p.pending_messages_queue ≡ queued_count (map some ops) =
      ap queued_count q in
    let sizes : queued_size p.pending_messages_queue ≡ queued_size (map some ops) =
      ap queued_size q in
    let no_count : batched_count p.batch_message_container ≡ 0 = ap batched_count none_batched in
    let no_size : batched_size p.batch_message_container ≡ 0 = ap batched_size none_batched in
    let (p', went, rel) =
      release_all-Released ops (record p { pending_messages_queue = [] }) 0 0
        (subst (PermitsOut p.semaphore) (omega (arith, counts, no_count)) a.permits)
        (omega (arith, a.memory_used, sizes, no_size)) a.memory_small in
    (
      completed p' (complete_all r ops),
      complete_all r ops,
      fail_released codec now p p' ops r
          (subst
            (λ queue. release_all (record p { pending_messages_queue = [] }) queue ≡ some (ops, p'))
            (sym q) went)
          (rel.same_container ∙ none_batched),
      rel.same_queue,
      ap (λ cs. cs ++ complete_all r ops) rel.same_completions,
      complete_all-Answers r ops,
      rel.permits,
      rel.used,
    )
