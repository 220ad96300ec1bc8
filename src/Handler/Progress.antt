-- ===== src/Handler/Progress.antt =====
-- Why a handler of lib/HandlerBase.cc that is used does not stay without a connection.
use Prim.Native.String.{String}
use pulsar_client_cpp.Prelude.{
  ℕ, ◌+◌, ◌-◌, ◌≡◌, refl, ap, sym, subst, List, [], ◌∷◌, inl, inr, Bool, true, false, not, ◌&&◌,
  ◌||◌, Option, none, some, leb, ◌==◌, arith, Bool-cases, Option-cases,
}
use pulsar_client_cpp.Result.{Result, is_result_retryable}
use pulsar_client_cpp.Handler.{
  State, pending, Handler, set_cnx, is_ok, is_not_started, is_pending_or_ready,
  schedule_reconnection, handle_disconnection, grab_cnx, connected, opened, start, start_timeout,
  handle_timeout, producer_connection_failed, convert_to_timeout_if_necessary,
}
use pulsar_client_cpp.Handler.Attempts.{
  Event, starts, start_times_out, timer_fires, connects, opens, disconnects, sets_cnx, sets_state,
  reconnects, step, run, IsSingle,
}

abbrev is_some {ℓ} : {A : Type ℓ} → Option A → Bool
is_some none = false
is_some (some a) = true

-- A handler that is used has a connection, or an attempt is under way, or the timer is set.
abbrev is_live : Handler → Bool
is_live h =
    not (is_pending_or_ready h.state)
    || is_some h.connection
    || h.reconnection_pending
    || is_some h.timer

-- What the derived class and the client have to keep to: the client is there when a connection is
-- asked for; a start that times out ends the use; `connectionOpened` ends well only with the
-- connection set, and badly with an error that is retried or with the end of the use; and a state of
-- use is set only in a live handler.
abbrev is_allowed : (Result → State → State) → Handler → Event → Bool
is_allowed failed h starts = h.client
is_allowed failed h start_times_out = not (is_pending_or_ready (failed Result.timeout h.state))
is_allowed failed h timer_fires = h.client
is_allowed failed h (connects result) = true
is_allowed failed h (opens result) =
    not (is_ok result) && is_result_retryable result
    || is_some h.connection
    || not (is_pending_or_ready h.state)
is_allowed failed h (disconnects result cnx) = true
is_allowed failed h (sets_cnx cnx) = true
is_allowed failed h (sets_state s) = is_live (record h { state = s })
is_allowed failed h (reconnects url) = true

schedule-is_live :
    (h : Handler) (url : Option String) → is_live (schedule_reconnection h url) ≡ true
unfolding schedule_reconnection
schedule-is_live h url = ground arith

set_cnx_lem :
    (h : Handler) (cnx : Option ℕ)
    → ((set_cnx h cnx).connection ≡ cnx) × ((set_cnx h cnx).state ≡ h.state)
unfolding set_cnx
set_cnx_lem h cnx = elim (Option-cases h.connection) [
  | inl e ↦ ground (arith, e)
  | inr (p, e) ↦ ground (arith, e)
]

disconnection-is_live :
    (h : Handler) (result : Result) (cnx : ℕ) → is_live (handle_disconnection h result cnx) ≡ true
unfolding handle_disconnection
disconnection-is_live h result cnx =
    let scheduled = schedule-is_live (set_cnx h none) none in
    let (gone, same_state) = set_cnx_lem h none in
    elim (Option-cases h.connection) [
      | inl e ↦ ground (arith, e, scheduled, same_state)
      | inr (current, e) ↦ ground (arith, e, scheduled, same_state)
    ]

module _ (failed : Result → State → State) where
  grab_cnx-is_live :
      (h : Handler) (url : Option String) → h.client ≡ true → is_live (grab_cnx failed h url) ≡ true
  unfolding grab_cnx
  grab_cnx-is_live h url c = elim (Option-cases h.connection) [
    | inl e ↦ ground (arith, c, e)
    | inr (p, e) ↦ ground (arith, c, e)
  ]

  start-is_live :
      (h : Handler) → h.client ≡ true → is_live h ≡ true → is_live (start failed h) ≡ true
  unfolding start
  start-is_live h c v = elim (Bool-cases (is_not_started h.state)) [
    | inl e ↦ rw e (grab_cnx-is_live (record h { state = pending }) none c)
    | inr e ↦ rw e v
  ]

  connected-is_live :
      (h : Handler) (result : Result)
      → (h.connecting == 0) ≡ false
      → IsSingle h
      → is_live (connected failed h result) ≡ true
  unfolding connected
  connected-is_live h result some_ v = elim (Bool-cases (is_ok result)) [
    | inl e ↦ rw e (ground (arith, v))
    | inr e ↦
        let h' = record h {
          connecting = h.connecting - 1;
          state = failed result h.state;
          reconnection_pending = false;
        } in
        rw e (schedule-is_live h' none)
  ]

  opened-is_live :
      (h : Handler) (result : Result)
      → is_allowed failed h (opens result) ≡ true
      → is_live (opened failed h result) ≡ true
  unfolding opened
  opened-is_live h result allowed = elim (Bool-cases (is_ok result)) [
    | inl e ↦ rw e (ground (arith, allowed))
    | inr e ↦ elim (Bool-cases (is_result_retryable result)) [
      | inl r ↦
          let h' = record h { opening = h.opening - 1; reconnection_pending = false } in
          rw (e, r) (schedule-is_live h' none)
      | inr r ↦ rw (e, r) (ground (arith, allowed))
    ]
  ]

  -- Where the derived class and the client keep to their part and at most one attempt is under way, a
  -- handler that is used has, whatever happens, one of a connection, an attempt to get one, and a
  -- timer that starts one, if it had one of them before.
  step-is_live :
      (h : Handler) (e : Event)
      → IsSingle h
      → is_allowed failed h e ≡ true
      → is_live h ≡ true
      → is_live (step failed h e) ≡ true
  unfolding step start_timeout handle_timeout
  step-is_live h starts s a v = start-is_live h a v
  step-is_live h start_times_out s a v = ground (arith, a, v)
  step-is_live h timer_fires s a v = elim (Option-cases h.timer) [
    | inl e ↦ ground (arith, v, e)
    | inr (url, e) ↦
        ground (arith, e, grab_cnx-is_live (record h { timer = none; epoch = h.epoch + 1 }) url a)
  ]
  step-is_live h (connects result) s a v = elim (Bool-cases (h.connecting == 0)) [
    | inl e ↦ rw e v
    | inr e ↦ rw e (connected-is_live h result e s)
  ]
  step-is_live h (opens result) s a v = elim (Bool-cases (h.opening == 0)) [
    | inl e ↦ rw e v
    | inr e ↦ rw e (opened-is_live h result a)
  ]
  step-is_live h (disconnects result cnx) s a v = disconnection-is_live h result cnx
  step-is_live h (sets_cnx cnx) s a v = ground (arith, set_cnx_lem h (some cnx))
  step-is_live h (sets_state st) s a v = a
  step-is_live h (reconnects url) s a v = schedule-is_live h url

-- What the handler's own timers and listeners bring.
abbrev pub IsOwn : Event → Type 0
IsOwn start_times_out = Unit {0}
IsOwn timer_fires = Unit {0}
IsOwn (connects result) = Unit {0}
IsOwn (opens result) = Unit {0}
IsOwn _ = ⊥

abbrev pub AllOwn : List Event → Type 0
AllOwn [] = Unit {0}
AllOwn (e ∷ es) = IsOwn e × AllOwn es

-- In use, with nothing that could bring a connection.
pub record IsStranded (h : Handler) : Type 0 where
  pub used : is_pending_or_ready h.state ≡ true
  pub alone : h.connection ≡ none
  pub idle : h.connecting + h.opening ≡ 0
  pub free : h.reconnection_pending ≡ false
  pub unset : h.timer ≡ none

step-IsStranded :
    (is_waiting : Bool) (h : Handler) (e : Event)
    → IsOwn e
    → IsStranded h
    → IsStranded (step (producer_connection_failed true is_waiting) h e)
unfolding step start_timeout producer_connection_failed
step-IsStranded is_waiting h start_times_out own v = elim (Bool-cases h.creation_timer) [
  | inl e ↦
      rw e (record { used = v.used; alone = v.alone; idle = v.idle; free = v.free; unset = refl })
  | inr e ↦ simp e v
]
step-IsStranded is_waiting h timer_fires own v =
    let same : step (producer_connection_failed true is_waiting) h timer_fires ≡ h =
      ap
        (λ (t : Option (Option String)). elim t [
          | none ↦ h
          | some url ↦ handle_timeout (producer_connection_failed true is_waiting) h url
        ])
        v.unset in
    subst IsStranded (sym same) v
step-IsStranded is_waiting h (connects result) own v =
    let nothing : (h.connecting == 0) ≡ true = ground (arith, v.idle) in simp nothing v
step-IsStranded is_waiting h (opens result) own v =
    let nothing : (h.opening == 0) ≡ true = ground (arith, v.idle) in simp nothing v
step-IsStranded is_waiting h starts own v = absurd own
step-IsStranded is_waiting h (disconnects result cnx) own v = absurd own
step-IsStranded is_waiting h (sets_cnx cnx) own v = absurd own
step-IsStranded is_waiting h (sets_state s) own v = absurd own
step-IsStranded is_waiting h (reconnects url) own v = absurd own

run-IsStranded :
    (is_waiting : Bool) (es : List Event) (h : Handler)
    → AllOwn es
    → IsStranded h
    → IsStranded (run (producer_connection_failed true is_waiting) h es)
unfolding run
run-IsStranded is_waiting [] h own v = v
run-IsStranded is_waiting (e ∷ es) h own v =
    run-IsStranded is_waiting es (step (producer_connection_failed true is_waiting) h e) own.1
      (step-IsStranded is_waiting h e own.0 v)

-- When the start of a lazy producer times out that is in use and has no connection, between two attempts to
-- get one, it stays in use, but the timer of the next attempt is cancelled and nothing is left that could
-- bring a connection; and so it stays, whatever its own timers and listeners bring.
pub lazy_start_timeout_strands :
    (is_waiting : Bool) (es : List Event) (h : Handler)
    → IsSingle h
    → is_pending_or_ready h.state ≡ true
    → h.connection ≡ none
    → h.reconnection_pending ≡ false
    → h.creation_timer ≡ true
    → AllOwn es
    → let failed = producer_connection_failed true is_waiting in
      IsStranded (run failed (step failed h start_times_out) es)
unfolding step start_timeout producer_connection_failed
lazy_start_timeout_strands is_waiting es h single used alone free set own =
    run-IsStranded is_waiting es
      (step (producer_connection_failed true is_waiting) h start_times_out) own
      (rw set (record {
        used = used;
        alone = alone;
        idle = ground (arith, single, free);
        free = free;
        unset = refl;
      }))

-- The result of the timeout conversion is retried exactly where the result before it is and the
-- operation timeout has not passed.
convert-retryable :
    (operation_timeout elapsed : ℕ) (result : Result)
    → is_result_retryable (convert_to_timeout_if_necessary operation_timeout elapsed result)
      ≡ is_result_retryable result && not (leb operation_timeout elapsed)
unfolding convert_to_timeout_if_necessary
convert-retryable operation_timeout elapsed result =
    let no_retry : is_result_retryable Result.timeout ≡ false =
      unfold is_result_retryable in refl in
    elim (Bool-cases (is_result_retryable result)) [
      | inl e ↦ ground (arith, e, no_retry)
      | inr e ↦ ground (arith, e, no_retry)
    ]
