-- ===== src/AckGrouping/Duplicates.antt =====
-- Which ids lib/AckGroupingTrackerEnabled.cc takes for acknowledged.
use pulsar_client_cpp.Prelude.{
  ℕ, ◌+◌, ◌<◌, ◌≡◌, ◌⊎◌, inl, inr, true, false, not, ◌||◌, if◌then◌else◌, arith, Bool-cases,
}
use pulsar_client_cpp.Prelude.Int.{pos_part, neg_part}
use pulsar_client_cpp.MessageId.{MessageIdImpl, compare_ℤ, compare_ledger_and_entry_id}
use pulsar_client_cpp.AckGrouping.{
  AckGroupingTracker, index_or_max, compare_ids, is_after, is_duplicate, add_acknowledge_cumulative,
}

-- The lexicographic order of the ids by ledger, entry and place, where no place is the last one.
abbrev Later : MessageIdImpl → MessageIdImpl → Type 0
Later a b =
    let l = pos_part b.ledger_id + neg_part a.ledger_id in
    let l' = pos_part a.ledger_id + neg_part b.ledger_id in
    let e = pos_part b.entry_id + neg_part a.entry_id in
    let e' = pos_part a.entry_id + neg_part b.entry_id in
    let i = pos_part (index_or_max b.batch_index) + neg_part (index_or_max a.batch_index) in
    let i' = pos_part (index_or_max a.batch_index) + neg_part (index_or_max b.batch_index) in
    (l < l') ⊎ ((l ≡ l') × (e < e')) ⊎ ((l ≡ l') × (e ≡ e') × (i < i'))

is_after→Later : (a b : MessageIdImpl) → is_after a b ≡ true → Later a b
unfolding compare_ids compare_ledger_and_entry_id compare_ℤ
is_after→Later a b h = ground arith

Later→is_after : (a b : MessageIdImpl) → Later a b → is_after a b ≡ true
unfolding compare_ids compare_ledger_and_entry_id compare_ℤ
Later→is_after a b h = ground arith

Later-trans : (a b c : MessageIdImpl) → Later a b → Later b c → Later a c
Later-trans a b c h k = omega arith

pub is_after_trans :
    (a b c : MessageIdImpl) → is_after a b ≡ true → is_after b c ≡ true → is_after a c ≡ true
is_after_trans a b c h k =
    Later→is_after a c (Later-trans a b c (is_after→Later a b h) (is_after→Later b c k))

-- What is not after an id is not after a later one.
pub is_after_or_not :
    (a b c : MessageIdImpl) → is_after a b ≡ true → is_after c b ≡ false → is_after a c ≡ true
unfolding compare_ids compare_ledger_and_entry_id compare_ℤ
is_after_or_not a b c h k = ground arith

cumulative-fields :
    (t : AckGroupingTracker) (id : MessageIdImpl) (c : ℕ)
    → let t' = add_acknowledge_cumulative t id c in
      (t'.next_cumulative_ack
        ≡ (if is_after id t.next_cumulative_ack then id else t.next_cumulative_ack))
      × (t'.pending_individual_acks ≡ t.pending_individual_acks)
unfolding add_acknowledge_cumulative
cumulative-fields t id c = elim (Bool-cases (is_after id t.next_cumulative_ack)) [
  | inl e ↦ rw (e, add_acknowledge_cumulative) (ground arith)
  | inr e ↦ rw (e, add_acknowledge_cumulative) (ground arith)
]

-- A cumulative acknowledgement makes duplicates of exactly the ids that are not after its own, and
-- what was a duplicate stays one, in whatever order the acknowledgements come.
cumulative-is_duplicate :
    (t : AckGroupingTracker) (id : MessageIdImpl) (c : ℕ) (x : MessageIdImpl)
    → is_duplicate (add_acknowledge_cumulative t id c) x ≡ is_duplicate t x || not (is_after x id)
unfolding is_duplicate
cumulative-is_duplicate t id c x =
    let fields = cumulative-fields t id c in
    elim (Bool-cases (is_after id t.next_cumulative_ack)) [
      | inl later ↦ elim (Bool-cases (is_after x id)) [
        | inl e ↦
            ground (arith, fields, later, e, is_after_trans x id t.next_cumulative_ack e later)
        | inr d ↦ ground (arith, fields, later, d)
      ]
      | inr earlier ↦ elim (Bool-cases (is_after x t.next_cumulative_ack)) [
        | inl e ↦
            ground (arith, fields, earlier, e, is_after_or_not x t.next_cumulative_ack id e earlier)
        | inr d ↦ ground (arith, fields, earlier, d)
      ]
    ]
