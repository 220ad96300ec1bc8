-- ===== src/Backoff/Delays/Tests.antt =====
-- The backoff of a client with 100 ms and at most 60 s between reconnections.
use pulsar_client_cpp.Prelude.{false}
use pulsar_client_cpp.Backoff.{Backoff}

abbrev backoff : Backoff
backoff = record {
  initial = 100000000;
  max_ = 60000000000;
  next_ = 100000000;
  mandatory_stop = 0;
  first_backoff_time = 0;
  mandatory_stop_made = false;
}
