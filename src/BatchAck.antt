-- ===== src/BatchAck.antt =====
-- lib/BatchMessageAcker.h: which messages of a batch are still to be acknowledged. The messages of a
-- batch share one acker.
pub mod Coverage
mod Tests
use pulsar_client_cpp.Prelude.{
  ℕ, zero, suc, ◌+◌, Bool, true, false, not, Option, none, some, List, [], ◌∷◌, if◌then◌else◌,
}
use pulsar_client_cpp.Prelude.Int.{ℤ, pos, negsuc}
use pulsar_client_cpp.BitSet.{BitSet, new, is_empty, set_range, clear_range, clear}

-- With no bit set it is the base class, whose answers are all no.
pub record BatchMessageAcker : Type 0 where
  pub bit_set : Option BitSet
  pub prev_batch_cumulatively_acked : Bool

-- `BatchMessageAckerImpl(batchSize)`, of a size above 0.
unfoldable pub full : ℕ → BatchMessageAcker
unfolding new set_range
full batch_size = record {
  bit_set = some (set_range (new batch_size) 0 batch_size);
  prev_batch_cumulatively_acked = false;
}

unfoldable pub create : ℤ → BatchMessageAcker
unfolding full
create (negsuc n) = record { bit_set = none; prev_batch_cumulatively_acked = false }
create (pos zero) = record { bit_set = none; prev_batch_cumulatively_acked = false }
create (pos (suc n)) = full (suc n)

-- The answer says that every message of the batch is acknowledged.
abbrev with_bits : BatchMessageAcker → BitSet → Bool × BatchMessageAcker
unfolding is_empty
with_bits a b = (is_empty b, record a { bit_set = some b })

unfoldable pub ack_individual : BatchMessageAcker → ℕ → Bool × BatchMessageAcker
unfolding is_empty clear
ack_individual a batch_index = elim a.bit_set [
  | none ↦ (false, a)
  | some b ↦ with_bits a (clear b batch_index)
]

unfoldable pub ack_cumulative : BatchMessageAcker → ℕ → Bool × BatchMessageAcker
unfolding is_empty clear_range
ack_cumulative a batch_index = elim a.bit_set [
  | none ↦ (false, a)
  | some b ↦ with_bits a (clear_range b 0 (batch_index + 1))
]

unfoldable pub should_ack_previous_message_id : BatchMessageAcker → Bool × BatchMessageAcker
should_ack_previous_message_id a =
    (not a.prev_batch_cumulatively_acked, record a { prev_batch_cumulatively_acked = true })
