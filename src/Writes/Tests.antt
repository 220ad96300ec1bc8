-- ===== src/Writes/Tests.antt =====
-- Witnesses for the writes of lib/ClientConnection.cc.
use pulsar_client_cpp.Prelude.{◌≡◌, refl, false, List, [], ◌∷◌}
use pulsar_client_cpp.Writes.{
  new_writer, send_command, send_message, send_pending_commands, handle_send, Event, commands,
  messages, ends, step, run,
}
use pulsar_client_cpp.Writes.Order.{passed, endings, all_written}

abbrev three : List Event
three = commands 1 ∷ messages 2 ∷ ends false ∷ commands 3 ∷ []

all_written_example :
    let w = run new_writer three in
    let w' = run w (endings w.pending_write_operations) in
    (w'.started ≡ passed three) × (w'.pending_write_operations ≡ 0)
unfolding run step send_command send_message handle_send send_pending_commands
all_written_example = all_written three refl
