-- ===== src/Producer/Enqueue.antt =====
-- The permits and the memory that a message takes before it is queued: `canEnqueueRequest` of
-- lib/ProducerImpl.cc.
use pulsar_client_cpp.Prelude.{ℕ, Bool, true, false, Option, none, some, List, [], if◌then◌else◌}
use pulsar_client_cpp.Result.{Result}
use pulsar_client_cpp.Semaphore
use pulsar_client_cpp.Semaphore.{Semaphore}
use pulsar_client_cpp.MemoryLimit
use pulsar_client_cpp.MemoryLimit.{MemoryLimitController}
use pulsar_client_cpp.Producer.{Producer}

-- What other threads do while a call waits for a permit and for memory.
pub record Waits : Type 0 where
  pub permits : List (List Semaphore.Call)
  pub memory : List (List MemoryLimit.Event)

abbrev pub no_waits : Waits
no_waits = record { permits = []; memory = [] }

-- `none` where the thread is still waiting.
unfoldable pub acquire_permit :
    Bool → Option Semaphore → List (List Semaphore.Call) → Option Bool × Option Semaphore
acquire_permit blocking none env = (some true, none)
acquire_permit true (some s) env =
    let (outcome, s') = Semaphore.acquire s 1 env in
    (
      elim outcome [
        | Semaphore.acquired ↦ some true
        | Semaphore.refused ↦ some false
        | Semaphore.waits ↦ none
      ],
      some s',
    )
acquire_permit false (some s) env = let (got, s') = Semaphore.try_acquire s 1 in (some got, some s')

abbrev pub release_one : Option Semaphore → Option Semaphore
release_one none = none
release_one (some s) = some (Semaphore.release s 1)

-- The second half of `canEnqueueRequest`, with the permit taken.
unfoldable pub enqueue_memory :
    Producer → ℕ → List (List MemoryLimit.Event) → Option Result × Producer
enqueue_memory p payload_size env =
    if p.block_if_queue_full
    then (let (outcome, m) = MemoryLimit.reserve_memory p.memory payload_size env in
        (
          elim outcome [
            | MemoryLimit.granted ↦ some Result.ok
            | MemoryLimit.interrupted ↦ some Result.interrupted
            | MemoryLimit.waits ↦ none
          ],
          record p { memory = m },
        ))
    else (let (got, m) = MemoryLimit.try_reserve_memory p.memory payload_size [] in
        if got then (some Result.ok, record p { memory = m }) else (
          some Result.memory_buffer_is_full,
          record p { memory = m; semaphore = release_one p.semaphore },
        ))

-- `canEnqueueRequest`, once the semaphore has answered, and whole.
unfoldable pub enqueue_with_permit :
    Producer → ℕ → Waits → Option Bool × Option Semaphore → Option Result × Producer
enqueue_with_permit p payload_size w (none, s) = (none, record p { semaphore = s })
enqueue_with_permit p payload_size w (some true, s) =
    enqueue_memory (record p { semaphore = s }) payload_size w.memory
enqueue_with_permit p payload_size w (some false, s) = (
  some (if p.block_if_queue_full then Result.interrupted else Result.producer_queue_is_full),
  record p { semaphore = s },
)

unfoldable pub can_enqueue_request : Producer → ℕ → Waits → Option Result × Producer
can_enqueue_request p payload_size w =
    enqueue_with_permit p payload_size w
      (acquire_permit p.block_if_queue_full p.semaphore w.permits)
