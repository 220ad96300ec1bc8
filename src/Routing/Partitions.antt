-- ===== src/Routing/Partitions.antt =====
-- Which partitions lib/RoundRobinMessageRouter.cc chooses.
use pulsar_client_cpp.Prelude.{
  ℕ, suc, ◌+◌, ◌%◌, ◌^◌, ◌≤◌, ◌<◌, ◌≡◌, ◌≢◌, ◌⊎◌, true, false, none, List, [], ◌∷◌, arith, length,
}
use pulsar_client_cpp.Routing.{
  Message, RoundRobinMessageRouter, add32, is_batch_over, route_keyless, get_partition,
  get_partitions,
}

abbrev pub AllKeyless : List (Message × ℕ) → Type 0
AllKeyless [] = Unit {0}
AllKeyless ((msg, now) ∷ ms) = (msg.key ≡ none) × AllKeyless ms

-- `k` values of a uint32_t counter from `cursor` on, each modulo `n`.
abbrev pub cycle : ℕ → ℕ → List (Message × ℕ) → List ℕ
cycle cursor n [] = []
cycle cursor n (m ∷ ms) = (cursor % n) ∷ cycle (add32 cursor 1) n ms

-- Without batching, messages without a key go round the partitions of a topic one after another, and
-- the router's cursor moves by one for each, as a uint32_t. (A topic with one partition is apart.)
get_partitions_cycles :
    (hash : List ℕ → ℕ) (r : RoundRobinMessageRouter) (n : ℕ) (ms : List (Message × ℕ))
    → AllKeyless ms
    → r.batching_enabled ≡ false
    → r.current_partition_cursor < 2 ^ 32
    → n ≢ 1
    → let (ps, r') = get_partitions hash r n ms in
      (ps ≡ cycle r.current_partition_cursor n ms)
      × (r'.current_partition_cursor ≡ (r.current_partition_cursor + length ms) % 2 ^ 32)
unfolding get_partitions get_partition route_keyless
get_partitions_cycles hash r n [] k b c ne = ground arith
get_partitions_cycles hash r n ((msg, now) ∷ ms) k b c ne = ground (
  arith,
  get_partitions_cycles hash
      (record r { current_partition_cursor = add32 r.current_partition_cursor 1 }) n ms k.1,
)

-- With batching and no message as large as a batch, the counters of the current batch stay
-- within its limits: at most that many messages, and fewer bytes. A message without a key goes
-- to the partition of the cursor afterwards, and either joins the batch, within its delay and
-- with the cursor left as it is, or begins a batch of itself at the next cursor.
route_keyless_keeps :
    (r : RoundRobinMessageRouter) (size n now : ℕ)
    → r.batching_enabled ≡ true
    → 0 < r.max_batching_messages
    → r.max_batching_messages < 2 ^ 32
    → r.max_batching_size < 2 ^ 32
    → size < r.max_batching_size
    → r.msg_counter ≤ r.max_batching_messages
    → r.cumulative_batch_size < r.max_batching_size
    → let (p, r') = route_keyless r size n now in
      (r'.msg_counter ≤ r.max_batching_messages)
      × (r'.cumulative_batch_size < r.max_batching_size)
      × (p ≡ r'.current_partition_cursor % n)
      × (((r'.current_partition_cursor ≡ r.current_partition_cursor)
            × (r'.msg_counter ≡ suc r.msg_counter)
            × (r'.cumulative_batch_size ≡ r.cumulative_batch_size + size)
            × (now < r.last_partition_change + r.max_batching_delay))
          ⊎ ((r'.current_partition_cursor ≡ add32 r.current_partition_cursor 1)
              × (r'.msg_counter ≡ 1)
              × (r'.cumulative_batch_size ≡ size)))
unfolding route_keyless is_batch_over
route_keyless_keeps r size n now b m m' s sz c u = ground arith

-- When a message larger than a batch begins one, a message after it within the delay goes to
-- the same partition and joins the batch, whose size is over the limit, where the sum of the
-- two sizes has 32 bits and a batch takes at least two messages.
pub oversized_message_disables_limit :
    (r : RoundRobinMessageRouter) (first size n start now : ℕ)
    → r.batching_enabled ≡ true
    → 1 < r.max_batching_messages
    → r.max_batching_size < first
    → first + size < 2 ^ 32
    → is_batch_over r first start ≡ true
    → now < start + r.max_batching_delay
    → let (p, r') = route_keyless r first n start in
      let (q, r'') = route_keyless r' size n now in
      (q ≡ p) × (r''.cumulative_batch_size ≡ first + size) × (r.max_batching_size < first + size)
unfolding route_keyless is_batch_over
oversized_message_disables_limit r first size n start now b m l f o t = ground arith
