-- ===== src/MemoryLimit.antt =====
-- lib/MemoryLimitController.cc: the client's budget of memory for pending messages, an atomic
-- uint64_t that is changed by compare-and-swap.
pub mod Budget
mod Tests
use pulsar_client_cpp.Prelude.{
  ℕ, ◌+◌, ◌-◌, ◌%◌, ◌^◌, Bool, true, false, List, [], ◌∷◌, ◌&&◌, not, ltb, leb, ◌==◌, if◌then◌else◌,
}

pub record MemoryLimitController : Type 0 where
  pub memory_limit : ℕ
  pub current_usage : ℕ
  pub is_closed : Bool

-- uint64_t addition and subtraction.
abbrev pub add64 : ℕ → ℕ → ℕ
add64 a b = (a + b) % 2 ^ 64

abbrev pub sub64 : ℕ → ℕ → ℕ
sub64 a b = (a + 2 ^ 64 - b) % 2 ^ 64

unfoldable pub new : ℕ → MemoryLimitController
new limit = record { memory_limit = limit; current_usage = 0; is_closed = false }

-- One round of the compare-and-swap loop. Between the load of `currentUsage_` and the exchange the
-- other threads leave the usage at `raced`; `again` says that the exchange failed.
pub data Round : Type 0 where
  denied reserved again : Round

unfoldable pub reserve_round : MemoryLimitController → ℕ → ℕ → Round × MemoryLimitController
reserve_round m size raced =
    let current = m.current_usage in
    let new_usage = add64 current size in
    if ltb m.memory_limit current && ltb 0 m.memory_limit
    then (denied, record m { current_usage = raced })
    else if raced == current
    then (reserved, record m { current_usage = new_usage })
    else (again, record m { current_usage = raced })

-- The loop. The list holds the usages that other threads leave in the successive rounds; when it is
-- used up no other thread interferes.
unfoldable pub reserve_loop : MemoryLimitController → ℕ → List ℕ → Round × MemoryLimitController
unfolding reserve_round
reserve_loop m size [] = reserve_round m size m.current_usage
reserve_loop m size (raced ∷ races) =
    let (round, m') = reserve_round m size raced in
    elim round [
      | again ↦ reserve_loop m' size races
      | denied ↦ (denied, m')
      | reserved ↦ (reserved, m')
    ]

unfoldable pub try_reserve_memory :
    MemoryLimitController → ℕ → List ℕ → Bool × MemoryLimitController
unfolding reserve_loop
try_reserve_memory m size races =
    if size == 0
    then (true, m)
    else (let (round, m') = reserve_loop m size races in
        (elim round [ reserved ↦ true | denied ↦ false | again ↦ false ], m'))

-- The controller afterwards, and whether the waiting threads are notified.
unfoldable pub release_memory : MemoryLimitController → ℕ → Bool × MemoryLimitController
release_memory m size =
    let new_usage = sub64 m.current_usage size in
    (
      ltb m.memory_limit (add64 new_usage size) && leb new_usage m.memory_limit,
      record m { current_usage = new_usage },
    )

unfoldable pub close : MemoryLimitController → MemoryLimitController
close m = record m { is_closed = true }

-- What happens while a thread waits in `reserveMemory`.
pub data Event : Type 0 where
  reserves : ℕ → Event
  releases : ℕ → Event
  closes : Event

unfoldable pub step : MemoryLimitController → Event → MemoryLimitController
unfolding try_reserve_memory release_memory close
step m (reserves size) = (try_reserve_memory m size []).1
step m (releases size) = (release_memory m size).1
step m closes = close m

unfoldable pub run : MemoryLimitController → List Event → MemoryLimitController
unfolding step
run m [] = m
run m (e ∷ es) = run (step m e) es

pub data Outcome : Type 0 where
  granted interrupted waits : Outcome

-- One round of the loop in `reserveMemory`: `granted` and `interrupted` are its two results.
unfoldable pub reserve_memory_round : MemoryLimitController → ℕ → Outcome × MemoryLimitController
unfolding try_reserve_memory
reserve_memory_round m size =
    let (got, m') = try_reserve_memory m size [] in
    if got then (granted, m') else if m'.is_closed then (interrupted, m') else (waits, m')

-- `reserveMemory`, with what other threads do during each of its waits. (Its call of
-- `tryReserveMemory` outside the lock is the first round: a call that fails changes nothing.)
unfoldable pub reserve_memory :
    MemoryLimitController → ℕ → List (List Event) → Outcome × MemoryLimitController
unfolding reserve_memory_round run
reserve_memory m size [] = reserve_memory_round m size
reserve_memory m size (others ∷ rest) =
    let (outcome, m') = reserve_memory_round m size in
    elim outcome [
      | waits ↦ reserve_memory (run m' others) size rest
      | granted ↦ (granted, m')
      | interrupted ↦ (interrupted, m')
    ]
