-- ===== src/Handler/Tests.antt =====
-- A handler that starts, and the theorems on it.
use pulsar_client_cpp.Prelude.{◌+◌, ◌≤◌, refl, true, false, none, some, List, [], ◌∷◌}
use pulsar_client_cpp.Result.{Result}
use pulsar_client_cpp.Handler.{
  State, not_started, pending, ready, failed, Handler, producer_connection_failed,
}
use pulsar_client_cpp.Handler.Attempts.{
  Event, starts, start_times_out, timer_fires, connects, opens, disconnects, sets_cnx, sets_state,
  step, run, IsSingle, run-IsSingle,
}
use pulsar_client_cpp.Handler.Progress.{IsStranded, lazy_start_timeout_strands}

-- Every error ends the use.
abbrev on_failed : Result → State → State
on_failed r s = failed

abbrev handler : Handler
handler = record {
  state = not_started;
  connection = none;
  changed = [];
  reconnection_pending = false;
  connecting = 0;
  opening = 0;
  timer = none;
  creation_timer = false;
  epoch = 0;
  backoffs = 0;
  client = true;
  lookup_count = 0;
  requests = [];
}

abbrev some_events : List Event
some_events =
    starts
    ∷ connects Result.ok
    ∷ sets_cnx 7
    ∷ sets_state ready
    ∷ opens Result.ok
    ∷ disconnects Result.disconnected 7
    ∷ timer_fires
    ∷ []

run-IsSingle_example :
    IsSingle (run on_failed handler some_events)
    × ((run on_failed handler some_events).connecting + (run on_failed handler some_events).opening
        ≤ 1)
run-IsSingle_example = run-IsSingle on_failed some_events handler refl

-- A lazy producer whose first attempt has failed, and whose next one waits for its timer.
abbrev waiting_handler : Handler
waiting_handler = record handler { state = pending; creation_timer = true; timer = some none }

abbrev own_events : List Event
own_events = timer_fires ∷ connects Result.ok ∷ opens Result.ok ∷ []

lazy_start_timeout_strands_example : IsStranded (
    run
      (producer_connection_failed true true)
      (step (producer_connection_failed true true) waiting_handler start_times_out)
      own_events)
lazy_start_timeout_strands_example =
    lazy_start_timeout_strands true own_events waiting_handler refl refl refl refl refl
      (tt, (tt, (tt, tt)))
