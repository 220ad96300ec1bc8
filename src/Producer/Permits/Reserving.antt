-- ===== src/Producer/Permits/Reserving.antt =====
-- The accounting of permits and memory through `canEnqueueRequest` of lib/ProducerImpl.cc, without
-- blocking.
use pulsar_client_cpp.Prelude.{
  ℕ, ◌+◌, ◌^◌, ◌<◌, ◌≡◌, refl, subst, ◌⊎◌, inl, inr, Bool, true, false, Option, none, some, List,
  arith,
}
use pulsar_client_cpp.Semaphore.{Semaphore, add32, Call, try_acquire}
use pulsar_client_cpp.Semaphore
use pulsar_client_cpp.MemoryLimit.{Event, add64, try_reserve_memory}
use pulsar_client_cpp.Result.{Result}
use pulsar_client_cpp.Producer.{Producer}
use pulsar_client_cpp.Producer.Enqueue.{
  enqueue_with_permit, Waits, acquire_permit, release_one, enqueue_memory, can_enqueue_request,
}
use pulsar_client_cpp.Producer.Permits.{Accounts, PermitsOut}

abbrev one_more : Option Semaphore → Option Semaphore
one_more none = none
one_more (some s) = some (record s { current_usage = add32 s.current_usage 1 })

acquire_permit_cases :
    (blocking : Bool) (s : Option Semaphore) (env : List (List Call)) (n : ℕ)
    → blocking ≡ false
    → PermitsOut s n
    → ((acquire_permit blocking s env ≡ (some true, one_more s)) × PermitsOut (one_more s) (n + 1))
      ⊎ (acquire_permit blocking s env ≡ (some false, s))
unfolding acquire_permit try_acquire
acquire_permit_cases blocking none env n b a = inl (ground arith, tt)
acquire_permit_cases true (some s) env n b a = absurd (cc)
acquire_permit_cases false (some s) env n b a = ground arith

enqueue_memory_cases :
    (p : Producer) (n : ℕ) (env : List (List Event))
    → p.block_if_queue_full ≡ false
    → (enqueue_memory p n env ≡ (
      some Result.ok,
      record p { memory = record p.memory { current_usage = add64 p.memory.current_usage n } },
    ))
      ⊎ ((enqueue_memory p n env ≡ (some Result.ok, p)) × (n ≡ 0))
      ⊎ (enqueue_memory p n env
          ≡ (some Result.memory_buffer_is_full, record p { semaphore = release_one p.semaphore }))
unfolding enqueue_memory try_reserve_memory
enqueue_memory_cases p n env b = ground arith

-- A spot is reserved, or the attempt is refused and the accounts stand as before.
abbrev pub Reserved : ℕ → ℕ → ℕ → Option Result × Producer → Type 0
Reserved n count size (r, p) =
    ((r ≡ some Result.ok) × Accounts p (count + 1) (size + n))
    ⊎ ((r ≡ some Result.producer_queue_is_full) × Accounts p count size)
    ⊎ ((r ≡ some Result.memory_buffer_is_full) × Accounts p count size)

release_one-PermitsOut :
    (s : Option Semaphore) (n : ℕ) → PermitsOut s (n + 1) → PermitsOut (release_one s) n
unfolding Semaphore.release
release_one-PermitsOut none n a = tt
release_one-PermitsOut (some s) n a = omega arith

enqueue_memory-Reserved :
    (p : Producer) (n count size : ℕ) (env : List (List Event))
    → p.block_if_queue_full ≡ false
    → p.memory.current_usage + n < 2 ^ 64
    → Accounts p (count + 1) size
    → Reserved n count size (enqueue_memory p n env)
enqueue_memory-Reserved p n count size env nb small a = elim (enqueue_memory_cases p n env nb) [
  | inl e ↦ rw e (
      inl (
        refl,
        record {
          permits = a.permits;
          memory_used = omega (arith, a.memory_used);
          memory_small = omega arith;
          container = a.container;
          queue = a.queue;
        },
      ))
  | inr (inl (e, z)) ↦ rw e (
      inl (
        refl,
        record {
          permits = a.permits;
          memory_used = omega (arith, a.memory_used);
          memory_small = a.memory_small;
          container = a.container;
          queue = a.queue;
        },
      ))
  | inr (inr e) ↦ rw e (
      inr (
        inr (
          refl,
          record {
            permits =
                release_one-PermitsOut p.semaphore _
                  (subst (PermitsOut p.semaphore) (omega arith) a.permits);
            memory_used = a.memory_used;
            memory_small = a.memory_small;
            container = a.container;
            queue = a.queue;
          },
        )))
]

-- `canEnqueueRequest` without blocking.
pub can_enqueue_request-Reserved :
    (p : Producer) (n count size : ℕ) (w : Waits)
    → p.block_if_queue_full ≡ false
    → p.memory.current_usage + n < 2 ^ 64
    → Accounts p count size
    → Reserved n count size (can_enqueue_request p n w)
unfolding can_enqueue_request enqueue_with_permit
can_enqueue_request-Reserved p n count size w nb small a =
    elim (acquire_permit_cases p.block_if_queue_full p.semaphore w.permits _ nb a.permits) [
      | inl (e, out) ↦ rw e (
          enqueue_memory-Reserved (record p { semaphore = one_more p.semaphore }) n count size
            w.memory nb small
            (record {
              permits = subst (PermitsOut (one_more p.semaphore)) (omega arith) out;
              memory_used = a.memory_used;
              memory_small = a.memory_small;
              container = a.container;
              queue = a.queue;
            }))
      | inr e ↦ rw e (inr (inl (rw nb, a)))
    ]
