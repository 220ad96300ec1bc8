-- ===== src/Handler.antt =====
-- lib/HandlerBase.cc: how a producer or a consumer gets its connection and gets another one when it
-- is lost. Connections are numbers. The futures of `getConnection` and of `connectionOpened` that are
-- not complete are counted; what their listeners do are functions of their own. What the derived class
-- does with its state in `connectionFailed` is a parameter, for a producer
-- `producer_connection_failed`; `beforeConnectionChange` is a log.
pub mod Attempts
pub mod Progress
mod Tests
use Prim.Native.String.{String}
use pulsar_client_cpp.Prelude.{
  ℕ, ◌+◌, ◌-◌, Bool, true, false, not, ◌&&◌, Option, none, some, List, [], ◌∷◌, ◌++◌, ltb, leb,
  ◌==◌, if◌then◌else◌,
}
use pulsar_client_cpp.Result.{Result, is_result_retryable}

pub data State : Type 0 where
  not_started pending ready closing closed failed producer_fenced : State

-- `timer` and `creation_timer` say whether the timers are set, `timer` with the broker's URL that it
-- passes on, `backoffs` how often the delay was the next one of the backoff. Of the client: whether
-- it is there, and its count of lookups.
pub record Handler : Type 0 where
  pub state : State
  pub connection : Option ℕ
  pub changed : List ℕ
  pub reconnection_pending : Bool
  pub connecting : ℕ
  pub opening : ℕ
  pub timer : Option (Option String)
  pub creation_timer : Bool
  pub epoch : ℕ
  pub backoffs : ℕ
  pub client : Bool
  pub lookup_count : ℕ
  pub requests : List (Option String)

unfoldable pub set_cnx : Handler → Option ℕ → Handler
set_cnx h cnx = elim h.connection [
  | none ↦ record h { connection = cnx }
  | some previous ↦ record h { changed = h.changed ++ (previous ∷ []); connection = cnx }
]

abbrev pub is_ok : Result → Bool
is_ok result = elim result [ Result.ok ↦ true | _ ↦ false ]

-- The URL that `getConnection` connects to, or none for a lookup.
abbrev pub direct_url : Handler → Option String → Option String
direct_url h none = none
direct_url h (some url) = if ltb 0 h.lookup_count then some url else none

abbrev pub is_pending_or_ready : State → Bool
is_pending_or_ready not_started = false
is_pending_or_ready pending = true
is_pending_or_ready ready = true
is_pending_or_ready closing = false
is_pending_or_ready closed = false
is_pending_or_ready failed = false
is_pending_or_ready producer_fenced = false

abbrev pub is_not_started : State → Bool
is_not_started s = elim s [ not_started ↦ true | _ ↦ false ]

unfoldable pub schedule_reconnection : Handler → Option String → Handler
schedule_reconnection h url =
    if is_pending_or_ready h.state
    then record h {
      timer = some url;
      backoffs = elim url [ some u ↦ h.backoffs | none ↦ h.backoffs + 1 ];
    }
    else h

unfoldable pub handle_disconnection : Handler → Result → ℕ → Handler
unfolding set_cnx schedule_reconnection is_result_retryable
handle_disconnection h result cnx =
    if (elim h.connection [ some current ↦ not (cnx == current) | none ↦ false ])
    then h
    else (let reset = set_cnx h none in
        if is_result_retryable result
        then schedule_reconnection reset none
        else if is_pending_or_ready h.state
        then schedule_reconnection reset none
        else reset)

-- `elapsed` is the time since the start, both times in milliseconds.
unfoldable pub convert_to_timeout_if_necessary : (operation_timeout elapsed : ℕ) → Result → Result
unfolding is_result_retryable
convert_to_timeout_if_necessary operation_timeout elapsed result =
    if is_result_retryable result && leb operation_timeout elapsed then Result.timeout else result

-- `ProducerImpl::connectionFailed`, which leaves a lazy producer as it is: `is_lazy` says that the producer
-- starts lazily and its access mode is Shared, `is_waiting` that the promise of its creation is not complete.
unfoldable pub producer_connection_failed : (is_lazy is_waiting : Bool) → Result → State → State
unfolding is_result_retryable
producer_connection_failed is_lazy is_waiting result s =
    if is_lazy then s else (if not (is_result_retryable result) && is_waiting then failed else s)

module _ (on_connection_failed : Result → State → State) where
  abbrev pub connection_failed : Handler → Result → Handler
  connection_failed h result = record h { state = on_connection_failed result h.state }

  unfoldable pub grab_cnx : Handler → Option String → Handler
  grab_cnx h url = if h.reconnection_pending then h else (elim h.connection [
    | some cnx ↦ h
    | none ↦
        if not h.client
        then record (connection_failed h Result.already_closed) { reconnection_pending = false }
        else record h {
          reconnection_pending = true;
          connecting = h.connecting + 1;
          requests = h.requests ++ (direct_url h url ∷ []);
        }
  ])

  -- The listener of `getConnection`.
  unfoldable pub connected : Handler → Result → Handler
  unfolding schedule_reconnection
  connected h result =
      let h' = record h { connecting = h.connecting - 1 } in
      if is_ok result
      then record h' { opening = h'.opening + 1 }
      else schedule_reconnection
          (record (connection_failed h' result) { reconnection_pending = false }) none

  -- The listener of `connectionOpened`.
  unfoldable pub opened : Handler → Result → Handler
  unfolding schedule_reconnection is_result_retryable
  opened h result =
      let h' = record h { opening = h.opening - 1; reconnection_pending = false } in
      if is_ok result
      then record h' { creation_timer = false }
      else if is_result_retryable result
      then schedule_reconnection h' none
      else h'

  unfoldable pub start : Handler → Handler
  unfolding grab_cnx
  start h =
      record (if is_not_started h.state then grab_cnx (record h { state = pending }) none else h) {
        creation_timer = true;
      }

  -- `creationTimer_` runs out.
  unfoldable pub start_timeout : Handler → Handler
  start_timeout h = record (connection_failed h Result.timeout) {
    timer = none;
    creation_timer = false;
  }

  -- `timer_` runs out: `handleTimeout` with no error.
  unfoldable pub handle_timeout : Handler → Option String → Handler
  unfolding grab_cnx
  handle_timeout h url = grab_cnx (record h { timer = none; epoch = h.epoch + 1 }) url
