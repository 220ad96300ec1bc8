-- ===== src/NegativeAcks/Deadlines.antt =====
-- When lib/NegativeAcksTracker.cc redelivers.
use pulsar_client_cpp.Prelude.{
  ℕ, ◌+◌, ◌≡◌, refl, ◌⊎◌, inl, inr, Bool, true, false, ◌||◌, Option, none, some, [], ◌∷◌, ◌++◌, ltb,
  if◌then◌else◌, arith, Bool-cases,
}
use pulsar_client_cpp.MessageId.{MessageIdImpl, discard_batch}
use pulsar_client_cpp.IdMap.{IdMap, IdSet, same, find, contains}
use pulsar_client_cpp.IdMap.Laws.{find-same, contains-insert}
use pulsar_client_cpp.IdMap.Apart.{AllApart, assign-AllApart}
use pulsar_client_cpp.NegativeAcks.{
  NegativeAcksTracker, schedule_timer, take_expired, is_nil, handle_timer, add, close,
  set_enabled_for_testing,
}

-- Whether a time is past.
abbrev pub is_past : ℕ → Option ℕ → Bool
is_past now none = false
is_past now (some deadline) = ltb deadline now

take_expired_lem :
    (now : ℕ) (m : IdMap ℕ) (x : MessageIdImpl)
    → AllApart m
    → (contains x (take_expired now m).0 ≡ is_past now (find x m))
      × (find x (take_expired now m).1 ≡ (if is_past now (find x m) then none else find x m))
unfolding take_expired find contains
take_expired_lem now [] x h = (refl, refl)
take_expired_lem now ((id, deadline) ∷ m) x h =
    let (sent, kept) = take_expired_lem now m x h.1 in
    elim (Bool-cases (same x id)) [
      | inl e ↦
          let gone = find-same x id m e in
          ground (arith, sent, kept, e, gone, h.0, contains-insert x id (take_expired now m).0)
      | inr d ↦ ground (arith, sent, kept, d, contains-insert x id (take_expired now m).0)
    ]

take_expired-AllApart : (now : ℕ) (m : IdMap ℕ) → AllApart m → AllApart (take_expired now m).1
unfolding take_expired
take_expired-AllApart now [] h = tt
take_expired-AllApart now ((id, deadline) ∷ m) h =
    let (sent, kept) = take_expired_lem now m id h.1 in
    let rest = take_expired-AllApart now m h.1 in
    elim (Bool-cases (ltb deadline now)) [
      | inl past ↦ rw past rest
      | inr later ↦ rw later (ground (arith, kept, h.0), rest)
    ]

-- Unless the tracker is closed or switched off, its timer is set while there are messages to
-- redeliver; and no message has two times.
pub record IsTimed (t : NegativeAcksTracker) : Type 0 where
  pub apart : AllApart t.nacked_messages
  pub timed :
      (t.closed ≡ true)
      ⊎ (t.enabled_for_testing ≡ false)
      ⊎ (t.nacked_messages ≡ [])
      ⊎ (t.scheduled ≡ true)

-- What happens to a tracker. Its timer runs out only if it is set.
pub data Event : Type 0 where
  adds : MessageIdImpl → (now : ℕ) → Event
  timer : (now : ℕ) → Event
  closes : Event
  enables : Bool → Event

unfoldable pub step : NegativeAcksTracker → Event → NegativeAcksTracker
step t (adds id now) = add t id now
step t (timer now) = if t.scheduled then handle_timer t now else t
step t closes = close t
step t (enables enabled) = set_enabled_for_testing t enabled

-- No message that waits is forgotten: whatever happens, the timer is set while there are messages to
-- redeliver, unless the tracker is closed or switched off.
step-IsTimed : (t : NegativeAcksTracker) (e : Event) → IsTimed t → IsTimed (step t e)
unfolding step add handle_timer close set_enabled_for_testing schedule_timer
step-IsTimed t (adds id now) v = record {
  apart =
      ground
        (arith, assign-AllApart (discard_batch id) (now + t.nack_delay) t.nacked_messages v.apart);
  timed = ground (arith, v.timed);
}
step-IsTimed t (timer now) v = record {
  apart = ground (arith, v.apart, take_expired-AllApart now t.nacked_messages v.apart);
  timed = ground (arith, v.timed);
}
step-IsTimed t closes v = record { apart = tt; timed = inl refl }
step-IsTimed t (enables enabled) v = record {
  apart = ground (arith, v.apart);
  timed = ground (arith, v.timed);
}

find_nil : (x : MessageIdImpl) (m : IdMap ℕ) → is_nil m ≡ true → find x m ≡ none
unfolding find
find_nil x [] h = refl
find_nil x ((id, d) ∷ m) h = absurd (cc)

contains_nil : (x : MessageIdImpl) (s : IdSet) → is_nil s ≡ true → contains x s ≡ false
unfolding contains find
contains_nil x [] h = refl
contains_nil x ((id, d) ∷ s) h = absurd (cc)

-- The timer of a tracker that is on passes exactly the messages whose time is past to one
-- redelivery, and keeps exactly the others with their times; if there is none, nothing is
-- redelivered.
pub handle_timer_splits :
    (t : NegativeAcksTracker) (now : ℕ) (x : MessageIdImpl)
    → AllApart t.nacked_messages
    → t.enabled_for_testing ≡ true
    → let t' = handle_timer t now in
      (find x t'.nacked_messages
        ≡ (if is_past now (find x t.nacked_messages) then none else find x t.nacked_messages))
      × (((expired : IdSet) × (t'.redelivered ≡ t.redelivered ++ (expired ∷ []))
            × (contains x expired ≡ is_past now (find x t.nacked_messages)))
          ⊎ ((t'.redelivered ≡ t.redelivered) × (is_past now (find x t.nacked_messages) ≡ false)))
unfolding handle_timer schedule_timer
handle_timer_splits t now x h on =
    let (sent, kept) = take_expired_lem now t.nacked_messages x h in
    (
      ground (arith, sent, kept, find_nil x t.nacked_messages),
      elim (Bool-cases
          (is_nil t.nacked_messages || is_nil (take_expired now t.nacked_messages).0)) [
            | inl none_expired ↦ inr (
              ground arith,
              ground (
                arith,
                sent,
                find_nil x t.nacked_messages,
                contains_nil x (take_expired now t.nacked_messages).0,
              ),
            )
            | inr some_expired ↦ inl ((take_expired now t.nacked_messages).0, ground arith, sent)
          ],
    )

pub add-IsTimed :
    (t : NegativeAcksTracker) (id : MessageIdImpl) (now : ℕ) → IsTimed t → IsTimed (add t id now)
unfolding step
add-IsTimed t id now v = step-IsTimed t (adds id now) v

pub timer-IsTimed :
    (t : NegativeAcksTracker) (now : ℕ)
    → IsTimed t
    → IsTimed (if t.scheduled then handle_timer t now else t)
unfolding step
timer-IsTimed t now v = step-IsTimed t (timer now) v
