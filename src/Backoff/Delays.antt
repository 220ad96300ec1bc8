-- ===== src/Backoff/Delays.antt =====
-- The delays of lib/Backoff.cc: their bounds, and how they grow.
mod Tests
use mathlib.Core.Path.{ap₂}
use native.Mathlib.Decide.{dec_le}
use pulsar_client_cpp.Prelude.{
  ℕ, zero, suc, ◌+◌, ◌-◌, ◌*◌, ◌/◌, ◌%◌, ◌^◌, ◌≤◌, ◌<◌, ◌≡◌, refl, ◌∙◌, Bool, List, [], ◌∷◌, length,
  min, max, arith,
}
use pulsar_client_cpp.Backoff.{Backoff, new, check_stop, next, reset}

check_stop-le :
    (b : Backoff) (current now : ℕ)
    → ((check_stop b current now).0 ≤ max b.initial current)
      × ((check_stop b current now).1.initial ≡ b.initial)
      × ((check_stop b current now).1.max_ ≡ b.max_)
      × ((check_stop b current now).1.next_ ≡ b.next_)
unfolding check_stop
check_stop-le b current now = ground arith

-- If the delay to come is not over the larger of the initial and the maximal one, then no delay
-- is below the initial one or above that larger one, and the next delay to come is not above it
-- either.
next_bounds :
    (b : Backoff) (now random : ℕ)
    → b.next_ ≤ max b.initial b.max_
    → let (delay, b') = next b now random in
      (b.initial ≤ delay) × (delay ≤ max b.initial b.max_) × (b'.next_ ≤ max b'.initial b'.max_)
unfolding next
next_bounds b now random h =
    omega (arith, check_stop-le (record b { next_ = min (b.next_ * 2) b.max_ }) b.next_ now)

next-doubles :
    (b : Backoff) (now random : ℕ)
    → ((next b now random).1.next_ ≡ min (b.next_ * 2) b.max_)
      × ((next b now random).1.max_ ≡ b.max_)
unfolding next
next-doubles b now random =
    omega (arith, check_stop-le (record b { next_ = min (b.next_ * 2) b.max_ }) b.next_ now)

-- The backoff after calls at the given times, with the given random numbers.
abbrev pub after : Backoff → List (ℕ × ℕ) → Backoff
after b [] = b
after b ((now, random) ∷ calls) = after (next b now random).1 calls

-- The duration `x` doubled n times.
abbrev pub doubled : ℕ → ℕ → ℕ
doubled zero x = x
doubled (suc n) x = doubled n (x * 2)

le-doubled : (n m x : ℕ) → m ≤ x → m ≤ doubled n x
le-doubled zero m x h = h
le-doubled (suc n) m x h = le-doubled n m (x * 2) (omega arith)

doubled-min : (n x m : ℕ) → min (doubled n (min x m)) m ≡ min (doubled n x) m
doubled-min n x m = elim (dec_le x m) [
  | yes h ↦ let e : min x m ≡ x = omega arith in rw e
  | no h ↦
      let e : min x m ≡ m = omega arith in
      rw e (omega (arith, le-doubled n m m (omega arith), le-doubled n m x (omega arith)))
]

-- A delay that is not over the maximum doubles with every call until it stays at the maximum,
-- whatever the times, the random numbers and the mandatory stop.
next-doubled :
    (b : Backoff) (calls : List (ℕ × ℕ))
    → b.next_ ≤ b.max_
    → (after b calls).next_ ≡ min (doubled (length calls) b.next_) b.max_
next-doubled b [] h = omega arith
next-doubled b ((now, random) ∷ calls) h =
    let (e, m) = next-doubles b now random in
    next-doubled (next b now random).1 calls (omega (arith, e, m))
    ∙ ap₂ (λ x y. min (doubled (length calls) x) y) e m
    ∙ doubled-min (length calls) (b.next_ * 2) b.max_
