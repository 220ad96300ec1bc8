-- ===== src/Routing.antt =====
-- The routers that choose a message's partition: lib/RoundRobinMessageRouter.cc,
-- lib/SinglePartitionMessageRouter.cc and, of the hashes of keys, lib/JavaStringHash.cc.
-- The boost hash and the clock are arguments.
pub mod Partitions
pub mod Hash
mod Tests
use pulsar_client_cpp.Prelude.{
  ℕ, ◌+◌, ◌-◌, ◌*◌, ◌%◌, ◌^◌, Bool, true, false, ◌||◌, Option, none, some, List, [], ◌∷◌, ltb, leb,
  ◌==◌, if◌then◌else◌,
}

-- What a router reads of a message: its partition key and its length.
pub record Message : Type 0 where
  pub key : Option (List ℕ)
  pub size : ℕ

pub record RoundRobinMessageRouter : Type 0 where
  pub batching_enabled : Bool
  pub max_batching_messages : ℕ
  pub max_batching_size : ℕ
  pub max_batching_delay : ℕ
  pub current_partition_cursor : ℕ
  pub last_partition_change : ℕ
  pub msg_counter : ℕ
  pub cumulative_batch_size : ℕ

-- uint32_t addition and subtraction.
abbrev pub add32 : ℕ → ℕ → ℕ
add32 a b = (a + b) % 2 ^ 32

abbrev pub sub32 : ℕ → ℕ → ℕ
sub32 a b = (a + 2 ^ 32 - b) % 2 ^ 32

-- The test for a change of partition. The times are milliseconds.
unfoldable pub is_batch_over : RoundRobinMessageRouter → ℕ → ℕ → Bool
is_batch_over r size now =
    leb r.max_batching_messages r.msg_counter
    || (leb (sub32 r.max_batching_size r.cumulative_batch_size) size
        || leb (r.last_partition_change + r.max_batching_delay) now)

-- A message without a key on a topic of `n` partitions.
unfoldable pub route_keyless : RoundRobinMessageRouter → ℕ → ℕ → ℕ → ℕ × RoundRobinMessageRouter
unfolding is_batch_over
route_keyless r size n now =
    let cursor = r.current_partition_cursor in
    let next = add32 cursor 1 in
    if r.batching_enabled
    then (if is_batch_over r size now
        then (
          next % n,
          record r {
            current_partition_cursor = next;
            last_partition_change = now;
            cumulative_batch_size = size;
            msg_counter = 1;
          },
        )
        else (
          cursor % n,
          record r {
            msg_counter = add32 r.msg_counter 1;
            cumulative_batch_size = add32 r.cumulative_batch_size size;
          },
        ))
    else (cursor % n, record r { current_partition_cursor = next })

unfoldable pub get_partition :
    (List ℕ → ℕ) → RoundRobinMessageRouter → Message → ℕ → ℕ → ℕ × RoundRobinMessageRouter
unfolding route_keyless
get_partition hash r msg n now =
    if n == 1
    then (0, r)
    else (elim msg.key [ some k ↦ (hash k % n, r) | none ↦ route_keyless r msg.size n now ])

-- The partitions of messages that are sent one after another.
unfoldable pub get_partitions :
    (List ℕ → ℕ)
    → RoundRobinMessageRouter
    → ℕ
    → List (Message × ℕ)
    → List ℕ × RoundRobinMessageRouter
unfolding get_partition
get_partitions hash r n [] = ([], r)
get_partitions hash r n ((msg, now) ∷ ms) =
    let (p, r') = get_partition hash r msg n now in
    let (ps, last) = get_partitions hash r' n ms in (p ∷ ps, last)

-- `SinglePartitionMessageRouter::getPartition`.
unfoldable pub get_single_partition : (List ℕ → ℕ) → ℕ → Message → ℕ → ℕ
get_single_partition hash selected msg n = elim msg.key [ some k ↦ hash k % n | none ↦ selected ]

-- `JavaStringHash::makeHash`; a `char` above 127 is negative.
unfoldable pub char_value : ℕ → ℕ
char_value c = if ltb c 128 then c else c + 2 ^ 32 - 256

unfoldable pub hash_loop : ℕ → List ℕ → ℕ
unfolding char_value
hash_loop hash [] = hash
hash_loop hash (c ∷ cs) = hash_loop ((31 * hash + char_value c) % 2 ^ 32) cs

unfoldable pub make_hash : List ℕ → ℕ
unfolding hash_loop
make_hash key = hash_loop 0 key % 2 ^ 31
