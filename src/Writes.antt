-- ===== src/Writes.antt =====
-- lib/ClientConnection.cc: the writes of a connection, which go to the socket one after the other. A
-- command or a message is a number. A write that is started ends by itself; over TLS it is posted to a
-- strand, which starts it. The headers of messages share one buffer, so no two writes may be on their way.
pub mod Order
mod Tests
use pulsar_client_cpp.Prelude.{
  ℕ, zero, suc, ◌+◌, ◌-◌, Bool, true, false, List, [], ◌∷◌, ◌++◌, ltb, ◌==◌, if◌then◌else◌,
}

-- An entry of the queue, a `boost::any` of two types.
pub data Write : Type 0 where
  command message : ℕ → Write

-- `on_the_way` counts the writes that have started and not ended, `started` has all of them in order.
-- `crashed` says that an assertion has failed.
pub record Writer : Type 0 where
  pub closed : Bool
  pub pending_write_operations : ℕ
  pub pending_write_buffers : List Write
  pub on_the_way : ℕ
  pub started : List Write
  pub crashed : Bool

abbrev pub new_writer : Writer
new_writer = record {
  closed = false;
  pending_write_operations = 0;
  pending_write_buffers = [];
  on_the_way = 0;
  started = [];
  crashed = false;
}

-- `asyncWrite`: on a connection that is closed nothing is written.
abbrev pub async_write : Writer → Write → Writer
async_write w x =
    if w.closed
    then w
    else record w { on_the_way = w.on_the_way + 1; started = w.started ++ (x ∷ []) }

unfoldable pub send_command : Writer → ℕ → Writer
send_command w cmd =
    let w' = record w { pending_write_operations = w.pending_write_operations + 1 } in
    if w.pending_write_operations == 0
    then async_write w' (command cmd)
    else record w' { pending_write_buffers = w.pending_write_buffers ++ (command cmd ∷ []) }

unfoldable pub send_message : Writer → ℕ → Writer
send_message w args =
    let w' = record w { pending_write_operations = w.pending_write_operations + 1 } in
    if ltb 0 w.pending_write_operations
    then record w' { pending_write_buffers = w.pending_write_buffers ++ (message args ∷ []) }
    else async_write w' (message args)

-- The front of the queue is written.
abbrev pub write_front : Writer → List Write → Writer
write_front w [] = record w { crashed = true }
write_front w (x ∷ queue) = async_write (record w { pending_write_buffers = queue }) x

unfoldable pub send_pending_commands : Writer → Writer
send_pending_commands w =
    let left = w.pending_write_operations - 1 in
    let w' = record w { pending_write_operations = left } in
    if ltb 0 left then write_front w' w.pending_write_buffers else w'

-- `handleSend` and `handleSendPair`, at the end of a write: with an error the connection is closed.
unfoldable pub handle_send : Writer → Bool → Writer
handle_send w err =
    let w' = record w { on_the_way = w.on_the_way - 1 } in
    if w.closed then w' else (if err then record w' { closed = true } else send_pending_commands w')

pub data Event : Type 0 where
  commands messages : ℕ → Event
  ends : Bool → Event
  closes : Event

-- A write ends only if there is one on its way.
unfoldable pub step : Writer → Event → Writer
step w (commands cmd) = send_command w cmd
step w (messages args) = send_message w args
step w (ends err) = if ltb 0 w.on_the_way then handle_send w err else w
step w closes = record w { closed = true }

unfoldable pub run : Writer → List Event → Writer
run w [] = w
run w (e ∷ es) = run (step w e) es
