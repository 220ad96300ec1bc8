-- ===== src/NegativeAcks.antt =====
-- lib/NegativeAcksTracker.cc: the messages that a consumer has refused, with the times at which they
-- are to be redelivered. Times are numbers of milliseconds, the clock is an argument. `scheduled`
-- says that the timer is set; what is passed to `redeliverUnacknowledgedMessages` is a log.
pub mod Deadlines
mod Tests
use pulsar_client_cpp.Prelude.{
  ℕ, ◌+◌, ◌/◌, Bool, true, false, not, ◌||◌, Option, none, some, List, [], ◌∷◌, ◌++◌, ltb, max,
  if◌then◌else◌,
}
use pulsar_client_cpp.MessageId.{MessageIdImpl, discard_batch}
use pulsar_client_cpp.IdMap.{IdMap, IdSet, assign, insert}

pub record NegativeAcksTracker : Type 0 where
  pub nack_delay : ℕ
  pub timer_interval : ℕ
  pub nacked_messages : IdMap ℕ
  pub closed : Bool
  pub enabled_for_testing : Bool
  pub scheduled : Bool
  pub redelivered : List IdSet

unfoldable pub new : ℕ → NegativeAcksTracker
new delay = record {
  nack_delay = max delay 100;
  timer_interval = max delay 100 / 3;
  nacked_messages = [];
  closed = false;
  enabled_for_testing = true;
  scheduled = false;
  redelivered = [];
}

unfoldable pub schedule_timer : NegativeAcksTracker → NegativeAcksTracker
schedule_timer t = if t.closed then t else record t { scheduled = true }

-- The loop of `handleTimer`: the set of the messages whose time is past, and the others.
unfoldable pub take_expired : ℕ → IdMap ℕ → IdSet × IdMap ℕ
take_expired now [] = ([], [])
take_expired now ((id, deadline) ∷ m) =
    let (expired, rest) = take_expired now m in
    if ltb deadline now then (insert id expired, rest) else (expired, (id, deadline) ∷ rest)

abbrev pub is_nil {ℓ} : {A : Type ℓ} → List A → Bool
is_nil [] = true
is_nil (x ∷ xs) = false

-- `handleTimer` with no error: the timer has run out.
unfoldable pub handle_timer : NegativeAcksTracker → ℕ → NegativeAcksTracker
unfolding take_expired schedule_timer
handle_timer t now =
    let ran = record t { scheduled = false } in
    if is_nil t.nacked_messages || not t.enabled_for_testing
    then ran
    else let (expired, rest) = take_expired now t.nacked_messages in
      let t' = record ran { nacked_messages = rest } in
      schedule_timer
        (if is_nil expired then t' else record t' { redelivered = t.redelivered ++ (expired ∷ []) })

unfoldable pub add : NegativeAcksTracker → MessageIdImpl → ℕ → NegativeAcksTracker
unfolding schedule_timer assign discard_batch
add t id now = schedule_timer (record t {
  nacked_messages = assign (discard_batch id) (now + t.nack_delay) t.nacked_messages;
})

unfoldable pub close : NegativeAcksTracker → NegativeAcksTracker
close t = record t { closed = true; scheduled = false; nacked_messages = [] }

unfoldable pub set_enabled_for_testing : NegativeAcksTracker → Bool → NegativeAcksTracker
unfolding schedule_timer
set_enabled_for_testing t enabled =
    let t' = record t { enabled_for_testing = enabled } in if enabled then schedule_timer t' else t'
