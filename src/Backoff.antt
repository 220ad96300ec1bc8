-- ===== src/Backoff.antt =====
-- lib/Backoff.cc: the delays between reconnections. Durations and times are numbers of nanoseconds,
-- the clock and the random number are arguments.
mod Delays
use pulsar_client_cpp.Prelude.{
  ℕ, ◌+◌, ◌-◌, ◌*◌, ◌/◌, ◌%◌, Bool, true, false, not, min, max, ltb, ◌==◌, if◌then◌else◌,
}

pub record Backoff : Type 0 where
  pub initial : ℕ
  pub max_ : ℕ
  pub next_ : ℕ
  pub mandatory_stop : ℕ
  pub first_backoff_time : ℕ
  pub mandatory_stop_made : Bool

unfoldable pub new : ℕ → ℕ → ℕ → Backoff
new initial max_ mandatory_stop = record {
  initial = initial;
  max_ = max_;
  next_ = initial;
  mandatory_stop = mandatory_stop;
  first_backoff_time = 0;
  mandatory_stop_made = false;
}

-- The check for the mandatory stop: the delay and the backoff after it. Where the time that has
-- passed is past the stop, the difference in the code is negative and `initial` is the larger.
unfoldable pub check_stop : Backoff → ℕ → ℕ → ℕ × Backoff
check_stop b current now =
    if b.mandatory_stop_made
    then (current, b)
    else let first = b.initial == current in
      let b' = if first then record b { first_backoff_time = now } else b in
      let elapsed = if first then 0 else now - b.first_backoff_time in
      if ltb b.mandatory_stop (elapsed + current)
      then (max b.initial (b.mandatory_stop - elapsed), record b' { mandatory_stop_made = true })
      else (current, b')

unfoldable pub next : Backoff → (now random : ℕ) → ℕ × Backoff
next b now random =
    let (current, b') = check_stop (record b { next_ = min (b.next_ * 2) b.max_ }) b.next_ now in
    (max b.initial (current - current * (random % 10) / 100), b')

unfoldable pub reset : Backoff → Backoff
reset b = record b { next_ = b.initial; mandatory_stop_made = false }
