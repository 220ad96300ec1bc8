-- ===== src/Routing/Tests.antt =====
-- The routers on concrete messages, and their theorems there.
use pulsar_client_cpp.Prelude.{
  ℕ, ◌%◌, ◌^◌, ◌<◌, ◌≡◌, ◌≢◌, refl, true, false, none, List, [], ◌∷◌, arith,
}
use pulsar_client_cpp.Prelude.Text.{codes}
use pulsar_client_cpp.Routing.{
  Message, RoundRobinMessageRouter, is_batch_over, route_keyless, get_partitions, make_hash,
}
use pulsar_client_cpp.Routing.Hash.{polynomial, make_hash-polynomial}
use pulsar_client_cpp.Routing.Partitions.{oversized_message_disables_limit}

abbrev router : RoundRobinMessageRouter
router = record {
  batching_enabled = true;
  max_batching_messages = 10;
  max_batching_size = 100;
  max_batching_delay = 5;
  current_partition_cursor = 6;
  last_partition_change = 1000;
  msg_counter = 10;
  cumulative_batch_size = 60;
}

abbrev unbatched : RoundRobinMessageRouter
unbatched = record router { batching_enabled = false }

abbrev message : Message
message = record { key = none; size = 8 }

-- `"abc".hashCode()` in Java.
hash_of_abc : make_hash (codes "abc") ≡ 96354
unfolding make_hash
hash_of_abc = refl

make_hash-polynomial_example : make_hash (codes "abc") ≡ polynomial 0 (codes "abc") % 2 ^ 31
make_hash-polynomial_example = make_hash-polynomial (codes "abc") (omega arith)

not_one : (n : ℕ) → n ≡ 4 → n ≢ 1
not_one n e f = absurd (omega arith)

abbrev routed : List ℕ × RoundRobinMessageRouter
routed = get_partitions make_hash unbatched 4 ((message, 1) ∷ (message, 2) ∷ (message, 3) ∷ [])

abbrev next : ℕ × RoundRobinMessageRouter
next = route_keyless router 8 4 1001

abbrev large : ℕ × RoundRobinMessageRouter
large = route_keyless router 150 4 1001

oversized_message_disables_limit_example :
    ((route_keyless large.1 8 4 1002).0 ≡ large.0)
    × ((route_keyless large.1 8 4 1002).1.cumulative_batch_size ≡ 158)
    × (100 < 158)
oversized_message_disables_limit_example =
    oversized_message_disables_limit router 150 8 4 1001 1002 refl (omega arith) (omega arith)
      (omega arith) over (omega arith)
  where
    over : is_batch_over router 150 1001 ≡ true
    over = unfold is_batch_over in refl
