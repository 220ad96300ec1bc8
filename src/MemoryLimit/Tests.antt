-- ===== src/MemoryLimit/Tests.antt =====
-- Runs of the memory budget, and its theorems at concrete inputs.
use pulsar_client_cpp.Prelude.{◌≡◌, refl, ◌⊎◌, ◌<◌, true, false, [], ◌∷◌, arith}
use pulsar_client_cpp.MemoryLimit.{
  MemoryLimitController, reserved, reserve_loop, try_reserve_memory, release_memory, reserves,
  releases, step, reserve_memory, granted, interrupted, closes,
}
use pulsar_client_cpp.MemoryLimit.Budget.{IsBounded, step-IsBounded, release_memory_wakes}

abbrev half : MemoryLimitController
half = record { memory_limit = 100; current_usage = 50; is_closed = false }

abbrev over : MemoryLimitController
over = record { memory_limit = 100; current_usage = 130; is_closed = false }

-- The exchange fails while another thread changes the usage to 60, then succeeds.
reserve_after_race :
    reserve_loop half 70 (60 ∷ []) ≡ (reserved, record half { current_usage = 130 })
unfolding reserve_loop
reserve_after_race = refl

-- A waiter gets its memory after a release, and is interrupted by a close.
reserve_after_release :
    reserve_memory over 10 ((releases 40 ∷ []) ∷ [])
    ≡ (granted, record over { current_usage = 100 })
unfolding reserve_memory
reserve_after_release = refl

reserve_closed :
    reserve_memory over 10 ((closes ∷ []) ∷ []) ≡ (interrupted, record over { is_closed = true })
unfolding reserve_memory
reserve_closed = refl

half-IsBounded : IsBounded half 80
half-IsBounded = record { limited = omega arith; within = omega arith; small = omega arith }

step-IsBounded_example : IsBounded (step half (reserves 80)) 80
step-IsBounded_example = step-IsBounded half 80 (reserves 80) (omega arith) half-IsBounded

release_memory_wakes_example :
    (((release_memory over 40).0 ≡ true)
      × ((try_reserve_memory (release_memory over 40).1 10 []).0 ≡ true))
    ⊎ (((release_memory over 40).0 ≡ false) × (100 < (release_memory over 40).1.current_usage))
release_memory_wakes_example =
    release_memory_wakes over 40 10 (omega arith) (omega arith) (omega arith) (omega arith)
      (omega arith)
