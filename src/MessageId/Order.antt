-- ===== src/MessageId/Order.antt =====
-- The order on message ids.
use pulsar_client_cpp.Prelude.{◌+◌, ◌<◌, ◌≡◌, ◌≢◌, ◌⊎◌, true, false, not, ◌||◌, arith}
use pulsar_client_cpp.Prelude.Int.{ℤ, pos_part, neg_part}
use pulsar_client_cpp.MessageId.{
  MessageIdImpl, lt, eq, le, gt, ge, ne, less, equal, greater, compare_ledger_and_entry_id,
  discard_batch,
}

-- Same ledger, entry and place in the batch; the partition may differ.
infix 50 ◌<ℤ◌ ◌≈ℤ◌
pub record SamePlace (a b : MessageIdImpl) : Type 0 where
  pub ledger : a.ledger_id ≡ b.ledger_id
  pub entry : a.entry_id ≡ b.entry_id
  pub index : a.batch_index ≡ b.batch_index

-- The order of two integers, as an order of sums of their parts.
abbrev pub ◌<ℤ◌ : ℤ → ℤ → Type 0
a <ℤ b = pos_part a + neg_part b < pos_part b + neg_part a

abbrev pub ◌≈ℤ◌ : ℤ → ℤ → Type 0
a ≈ℤ b = pos_part a + neg_part b ≡ pos_part b + neg_part a

-- The lexicographic order on ledger, entry and place in the batch.
abbrev pub Precedes : MessageIdImpl → MessageIdImpl → Type 0
Precedes a b =
    (a.ledger_id <ℤ b.ledger_id)
    ⊎ ((a.ledger_id ≈ℤ b.ledger_id) × (a.entry_id <ℤ b.entry_id))
    ⊎ ((a.ledger_id ≈ℤ b.ledger_id) × (a.entry_id ≈ℤ b.entry_id) × (a.batch_index <ℤ b.batch_index))

lt→Precedes : (a b : MessageIdImpl) → lt a b ≡ true → Precedes a b
unfolding lt
lt→Precedes a b h = ground arith

Precedes→lt : (a b : MessageIdImpl) → Precedes a b → lt a b ≡ true
unfolding lt
Precedes→lt a b h = ground arith

Precedes-trans : (a b c : MessageIdImpl) → Precedes a b → Precedes b c → Precedes a c
Precedes-trans a b c h k = omega arith

-- `<` is transitive.
lt_trans : (a b c : MessageIdImpl) → lt a b ≡ true → lt b c ≡ true → lt a c ≡ true
lt_trans a b c h k = Precedes→lt a c (Precedes-trans a b c (lt→Precedes a b h) (lt→Precedes b c k))

pub lt_irrefl : (a : MessageIdImpl) → lt a a ≡ false
unfolding lt
lt_irrefl a = ground arith

-- Of two ids either exactly one is before the other by `<`, or neither is, and then they have
-- the same ledger, entry and place in the batch.
lt_trichotomy :
    (a b : MessageIdImpl)
    → ((lt a b ≡ true) × (lt b a ≡ false))
      ⊎ ((lt b a ≡ true) × (lt a b ≡ false))
      ⊎ ((lt a b ≡ false) × (lt b a ≡ false) × SamePlace a b)
unfolding lt
lt_trichotomy a b = ground arith

-- Two ids at one place in different partitions: `>` holds both ways, and `>=` with it, but neither
-- `<` nor `<=`; so outside one partition the six operators are no order.
gt_both_ways :
    (a b : MessageIdImpl)
    → SamePlace a b
    → a.partition ≢ b.partition
    → (gt a b ≡ true) × (gt b a ≡ true) × (le a b ≡ false) × (ge a b ≡ true) × (lt a b ≡ false)
unfolding gt ge
gt_both_ways a b s ne = ground arith

-- Within one partition `>` is `<` the other way round, `>=` is `<=` the other way round, `<=`
-- is the negation of `<` the other way round, and `!=` holds where one of the two is before the
-- other.
operators_agree :
    (a b : MessageIdImpl)
    → a.partition ≡ b.partition
    → (gt a b ≡ lt b a) × (ge a b ≡ le b a) × (le a b ≡ not (lt b a)) × (ne a b ≡ lt a b || lt b a)
unfolding gt ge ne
operators_agree a b e = ground arith

-- Within one partition, two ids without their batch parts are equal exactly when
-- `compareLedgerAndEntryId` answers equal.
discard_batch-eq :
    (a b : MessageIdImpl)
    → a.partition ≡ b.partition
    → eq (discard_batch a) (discard_batch b)
      ≡ elim (compare_ledger_and_entry_id a b) [ equal ↦ true | less ↦ false | greater ↦ false ]
unfolding eq discard_batch compare_ledger_and_entry_id
discard_batch-eq a b e = ground arith
