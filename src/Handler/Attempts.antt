-- ===== src/Handler/Attempts.antt =====
-- The attempts of lib/HandlerBase.cc to get a connection.
use Prim.Native.String.{String}
use pulsar_client_cpp.Prelude.{
  ℕ, ◌+◌, ◌-◌, ◌≡◌, ◌≤◌, inl, inr, false, Option, none, some, List, [], ◌∷◌, ◌==◌, if◌then◌else◌,
  arith, Bool-cases, Option-cases,
}
use pulsar_client_cpp.Result.{Result, is_result_retryable}
use pulsar_client_cpp.Handler.{
  State, pending, Handler, set_cnx, is_ok, is_not_started, schedule_reconnection,
  handle_disconnection, grab_cnx, connected, opened, start, start_timeout, handle_timeout,
}

-- What happens to a handler: its own calls, listeners and timers; and the derived class's, which sets
-- the connection and the state and asks for another connection.
pub data Event : Type 0 where
  starts start_times_out timer_fires : Event
  connects opens : Result → Event
  disconnects : Result → ℕ → Event
  sets_cnx : ℕ → Event
  sets_state : State → Event
  reconnects : Option String → Event

-- A listener is called only if its future is not complete, a timer runs out only if it is set.
unfoldable pub step : (Result → State → State) → Handler → Event → Handler
step failed h starts = start failed h
step failed h start_times_out = if h.creation_timer then start_timeout failed h else h
step failed h timer_fires = elim h.timer [ none ↦ h | some url ↦ handle_timeout failed h url ]
step failed h (connects result) = if h.connecting == 0 then h else connected failed h result
step failed h (opens result) = if h.opening == 0 then h else opened failed h result
step failed h (disconnects result cnx) = handle_disconnection h result cnx
step failed h (sets_cnx cnx) = set_cnx h (some cnx)
step failed h (sets_state s) = record h { state = s }
step failed h (reconnects url) = schedule_reconnection h url

unfoldable pub run : (Result → State → State) → Handler → List Event → Handler
unfolding step
run failed h [] = h
run failed h (e ∷ es) = run failed (step failed h e) es

-- The flag stands for the one attempt that is under way.
abbrev pub IsSingle : Handler → Type 0
IsSingle h = h.connecting + h.opening ≡ (if h.reconnection_pending then 1 else 0)

schedule-IsSingle :
    (h : Handler) (url : Option String) → IsSingle h → IsSingle (schedule_reconnection h url)
unfolding schedule_reconnection
schedule-IsSingle h url v = ground (arith, v)

set_cnx-IsSingle : (h : Handler) (cnx : Option ℕ) → IsSingle h → IsSingle (set_cnx h cnx)
unfolding set_cnx
set_cnx-IsSingle h cnx v = elim (Option-cases h.connection) [
  | inl e ↦ ground (arith, v, e)
  | inr (p, e) ↦ ground (arith, v, e)
]

disconnection-IsSingle :
    (h : Handler) (result : Result) (cnx : ℕ)
    → IsSingle h
    → IsSingle (handle_disconnection h result cnx)
unfolding handle_disconnection
disconnection-IsSingle h result cnx v =
    let reset = set_cnx-IsSingle h none v in
    let scheduled = schedule-IsSingle (set_cnx h none) none reset in
    ground (arith, v, reset, scheduled)

module _ (failed : Result → State → State) where
  grab_cnx-IsSingle :
      (h : Handler) (url : Option String) → IsSingle h → IsSingle (grab_cnx failed h url)
  unfolding grab_cnx
  grab_cnx-IsSingle h url v = elim (Option-cases h.connection) [
    | inl e ↦ ground (arith, v, e)
    | inr (p, e) ↦ ground (arith, v, e)
  ]

  start-IsSingle : (h : Handler) → IsSingle h → IsSingle (start failed h)
  unfolding start
  start-IsSingle h v = elim (Bool-cases (is_not_started h.state)) [
    | inl e ↦ rw e (grab_cnx-IsSingle (record h { state = pending }) none v)
    | inr e ↦ rw e v
  ]

  connected-IsSingle :
      (h : Handler) (result : Result)
      → (h.connecting == 0) ≡ false
      → IsSingle h
      → IsSingle (connected failed h result)
  unfolding connected
  connected-IsSingle h result some_ v = elim (Bool-cases (is_ok result)) [
    | inl e ↦ rw e (ground (arith, v))
    | inr e ↦
        let h' = record h {
          connecting = h.connecting - 1;
          state = failed result h.state;
          reconnection_pending = false;
        } in
        let ended : IsSingle h' = ground (arith, v) in rw e (schedule-IsSingle h' none ended)
  ]

  opened-IsSingle :
      (h : Handler) (result : Result)
      → (h.opening == 0) ≡ false
      → IsSingle h
      → IsSingle (opened failed h result)
  unfolding opened
  opened-IsSingle h result some_ v = elim (Bool-cases (is_ok result)) [
    | inl e ↦ rw e (ground (arith, v))
    | inr e ↦ elim (Bool-cases (is_result_retryable result)) [
      | inl r ↦
          let h' = record h { opening = h.opening - 1; reconnection_pending = false } in
          let ended : IsSingle h' = ground (arith, v) in rw (e, r) (schedule-IsSingle h' none ended)
      | inr r ↦ rw (e, r) (ground (arith, v))
    ]
  ]

  step-IsSingle : (h : Handler) (e : Event) → IsSingle h → IsSingle (step failed h e)
  unfolding step start_timeout handle_timeout
  step-IsSingle h starts v = start-IsSingle h v
  step-IsSingle h start_times_out v = ground (arith, v)
  step-IsSingle h timer_fires v = elim (Option-cases h.timer) [
    | inl e ↦ ground (arith, v, e)
    | inr (url, e) ↦
        ground (arith, e, grab_cnx-IsSingle (record h { timer = none; epoch = h.epoch + 1 }) url v)
  ]
  step-IsSingle h (connects result) v = elim (Bool-cases (h.connecting == 0)) [
    | inl e ↦ rw e v
    | inr e ↦ rw e (connected-IsSingle h result e v)
  ]
  step-IsSingle h (opens result) v = elim (Bool-cases (h.opening == 0)) [
    | inl e ↦ rw e v
    | inr e ↦ rw e (opened-IsSingle h result e v)
  ]
  step-IsSingle h (disconnects result cnx) v = disconnection-IsSingle h result cnx v
  step-IsSingle h (sets_cnx cnx) v = set_cnx-IsSingle h (some cnx) v
  step-IsSingle h (sets_state s) v = v
  step-IsSingle h (reconnects url) v = schedule-IsSingle h url v

  -- However calls, listeners, timers and disconnections follow one another, at most one attempt to
  -- get a connection is under way, and it is exactly while the flag is set.
  pub run-IsSingle :
      (es : List Event) (h : Handler)
      → IsSingle h
      → IsSingle (run failed h es) × ((run failed h es).connecting + (run failed h es).opening ≤ 1)
  unfolding run
  run-IsSingle [] h v = (v, ground (arith, v))
  run-IsSingle (e ∷ es) h v = run-IsSingle es (step failed h e) (step-IsSingle h e v)
