-- ===== src/Semaphore.antt =====
-- lib/Semaphore.cc: a counting semaphore over a uint32_t, guarded by one mutex.
-- A method is one critical section. A thread that waits gives the mutex up; what the other threads
-- do until it holds the mutex again is a list of calls.
pub mod Permits
mod Tests
use pulsar_client_cpp.Prelude.{
  ℕ, ◌+◌, ◌-◌, ◌%◌, ◌^◌, Bool, true, false, List, [], ◌∷◌, ltb, if◌then◌else◌,
}

pub record Semaphore : Type 0 where
  pub limit : ℕ
  pub current_usage : ℕ
  pub is_closed : Bool

-- uint32_t addition and subtraction.
abbrev pub add32 : ℕ → ℕ → ℕ
add32 a b = (a + b) % 2 ^ 32

abbrev pub sub32 : ℕ → ℕ → ℕ
sub32 a b = (a + 2 ^ 32 - b) % 2 ^ 32

unfoldable pub new : ℕ → Semaphore
new limit = record { limit = limit; current_usage = 0; is_closed = false }

unfoldable pub try_acquire : Semaphore → ℕ → Bool × Semaphore
try_acquire s n =
    if ltb s.limit (add32 s.current_usage n)
    then (false, s)
    else (true, record s { current_usage = add32 s.current_usage n })

-- How one round of the loop in `acquire` ends: with a permit, with `false`, or in `wait`.
pub data Outcome : Type 0 where
  acquired refused waits : Outcome

unfoldable pub acquire_round : Semaphore → ℕ → Outcome × Semaphore
acquire_round s n =
    if ltb s.limit (add32 s.current_usage n)
    then (if s.is_closed then (refused, s) else (waits, s))
    else (acquired, record s { current_usage = add32 s.current_usage n })

unfoldable pub release : Semaphore → ℕ → Semaphore
release s n = record s { current_usage = sub32 s.current_usage n }

unfoldable pub close : Semaphore → Semaphore
close s = record s { is_closed = true }

pub data Call : Type 0 where
  tries : ℕ → Call
  releases : ℕ → Call
  closes : Call

unfoldable pub step : Semaphore → Call → Semaphore
unfolding try_acquire release close
step s (tries n) = (try_acquire s n).1
step s (releases n) = release s n
step s closes = close s

unfoldable pub run : Semaphore → List Call → Semaphore
unfolding step
run s [] = s
run s (c ∷ cs) = run (step s c) cs

-- `acquire`, with the calls of other threads during each of its waits.
unfoldable pub acquire : Semaphore → ℕ → List (List Call) → Outcome × Semaphore
unfolding acquire_round run
acquire s n [] = acquire_round s n
acquire s n (others ∷ rest) =
    let (outcome, s') = acquire_round s n in
    elim outcome [
      | waits ↦ acquire (run s' others) n rest
      | acquired ↦ (acquired, s')
      | refused ↦ (refused, s')
    ]
