-- ===== src/MemoryLimit/Budget.antt =====
-- What the budget of lib/MemoryLimitController.cc guarantees.
use pulsar_client_cpp.Prelude.{
  ℕ, ◌+◌, ◌%◌, ◌^◌, ◌≤◌, ◌<◌, ◌≡◌, ◌⊎◌, true, false, List, [], ◌∷◌, arith,
}
use pulsar_client_cpp.MemoryLimit.{
  MemoryLimitController, Round, denied, reserved, again, reserve_loop, try_reserve_memory,
  release_memory, Event, reserves, releases, closes, step,
}

-- The usages that the rounds of a try may see.
abbrev pub Seen : ℕ → ℕ → List ℕ → Type 0
Seen usage current [] = usage ≡ current
Seen usage current (raced ∷ races) = (usage ≡ current) ⊎ Seen usage raced races

-- How a try ends that sees the usage `before` in its last round: it reserves `size` on top of it, when
-- that is not over a positive limit, or it is denied, when it is.
abbrev pub Decides : MemoryLimitController → ℕ → List ℕ → Round × MemoryLimitController → Type 0
Decides m size races (round, m') =
    (m'.memory_limit ≡ m.memory_limit)
    × ((before : ℕ) × Seen before m.current_usage races
        × (((round ≡ reserved)
              × ((before ≤ m.memory_limit) ⊎ (m.memory_limit ≡ 0))
              × (m'.current_usage ≡ (before + size) % 2 ^ 64))
            ⊎ ((round ≡ denied) × (0 < m.memory_limit) × (m.memory_limit < before))))

-- What the loop does with the outcome of a round.
abbrev resume : ℕ → List ℕ → Round × MemoryLimitController → Round × MemoryLimitController
unfolding reserve_loop
resume size races (round, m') = elim round [
  | again ↦ reserve_loop m' size races
  | denied ↦ (denied, m')
  | reserved ↦ (reserved, m')
]

-- Usage, limit and request sizes stay far from 2 ^ 64.
pub record IsBounded (m : MemoryLimitController) (largest : ℕ) : Type 0 where
  pub limited : 0 < m.memory_limit
  pub within : m.current_usage ≤ m.memory_limit + largest
  pub small : m.memory_limit + largest + largest < 2 ^ 64

-- A request is of at most `largest` bytes, and no one returns more than is reserved.
abbrev pub IsFair : MemoryLimitController → ℕ → Event → Type 0
IsFair m largest (reserves size) = size ≤ largest
IsFair m largest (releases size) = size ≤ m.current_usage
IsFair m largest closes = Unit {0}

-- With a positive limit, requests of at most `largest` bytes and no one returning more than is
-- reserved, the usage never exceeds the limit by more than one request.
pub step-IsBounded :
    (m : MemoryLimitController) (largest : ℕ) (e : Event)
    → IsFair m largest e
    → IsBounded m largest
    → IsBounded (step m e) largest
unfolding step
step-IsBounded m largest (reserves size) f b = ground arith
step-IsBounded m largest (releases size) f b = ground arith
step-IsBounded m largest closes f b = ground arith

-- With the usage over a positive limit, `releaseMemory` of no more than is reserved either wakes the
-- waiting threads, and a request that was denied before succeeds then, or it leaves the usage over
-- the limit.
pub release_memory_wakes :
    (m : MemoryLimitController) (size other : ℕ)
    → 0 < m.memory_limit
    → m.current_usage < 2 ^ 64
    → m.memory_limit < 2 ^ 64
    → size ≤ m.current_usage
    → m.memory_limit < m.current_usage
    → let (wakes, m') = release_memory m size in
      ((wakes ≡ true) × ((try_reserve_memory m' other []).0 ≡ true))
      ⊎ ((wakes ≡ false) × (m.memory_limit < m'.current_usage))
unfolding release_memory try_reserve_memory
release_memory_wakes m size other l u v w x = ground arith
