-- ===== src/UnAcked/Removing.antt =====
-- The removal of all ids that satisfy a condition, in lib/UnAckedMessageTrackerEnabled.cc.
use pulsar_client_cpp.Prelude.{
  ℕ, ◌≤◌, ◌≡◌, refl, sym, ◌∙◌, inl, inr, Bool, false, none, some, List, [], ◌∷◌, length,
  if◌then◌else◌, arith, Bool-cases,
}
use pulsar_client_cpp.MessageId.{MessageIdImpl}
use pulsar_client_cpp.IdMap.{IdMap, IdSet, same, find}
use pulsar_client_cpp.IdMap.Laws.{find-same, same_refl}
use pulsar_client_cpp.IdMap.Apart.{AllApart}
use pulsar_client_cpp.UnAcked.{UnAckedMessageTracker, remove_if, remove_where, erase_from}
use pulsar_client_cpp.UnAcked.Partitions.{locate, count, count-erase_from, locate-erase_from}
use pulsar_client_cpp.UnAcked.Valid.{IsValid, length-erase_from}

-- Whether the key of the map that stands for `x` satisfies the condition.
abbrev selected : (MessageIdImpl → Bool) → MessageIdImpl → IdMap ℕ → Bool
selected condition x [] = false
selected condition x ((id, k) ∷ m) = if same x id then condition id else selected condition x m

unselected :
    (condition : MessageIdImpl → Bool) (x : MessageIdImpl) (m : IdMap ℕ)
    → find x m ≡ none
    → selected condition x m ≡ false
unfolding find
unselected condition x [] h = refl
unselected condition x ((id, k) ∷ m) h = ground (arith, unselected condition x m)

-- The map and the partitions after the loop, by lookups.
record Removes (condition : MessageIdImpl → Bool) (n : ℕ) (m : IdMap ℕ) (parts : List IdSet)
    (x : MessageIdImpl) : Type 0 where
  found :
      find x (remove_where condition n m parts).0
      ≡ (if selected condition x m then none else find x m)
  located :
      locate x n (remove_where condition n m parts).1
      ≡ (if selected condition x m then none else locate x n parts)
  counted :
      count x (remove_where condition n m parts).1
      ≡ (if selected condition x m then 0 else count x parts)

find_head : (id : MessageIdImpl) (k : ℕ) (m : IdMap ℕ) → find id ((id, k) ∷ m) ≡ some k
unfolding find
find_head id k m = ground (arith, same_refl id)

find_later :
    (y id : MessageIdImpl) (j k : ℕ) (m : IdMap ℕ)
    → same y id ≡ false
    → find y m ≡ some j
    → find y ((id, k) ∷ m) ≡ some j
unfolding find
find_later y id j k m d e = ground arith

remove_where_lem :
    (condition : MessageIdImpl → Bool) (n : ℕ) (m : IdMap ℕ) (parts : List IdSet)
    → AllApart m
    → ((y : MessageIdImpl) (k : ℕ) → find y m ≡ some k → locate y n parts ≡ some k)
    → ((y : MessageIdImpl) → count y parts ≤ 1)
    → (x : MessageIdImpl) → Removes condition n m parts x
unfolding remove_where find
remove_where_lem condition n [] parts h l c x = record {
  found = refl;
  located = refl;
  counted = refl;
}
remove_where_lem condition n ((id, k) ∷ m) parts h l c x = elim (Bool-cases (condition id)) [
  | inl yes_ ↦
      let there = l id k (find_head id k m) in
      let parts' = erase_from k n id parts in
      let gone = λ (y : MessageIdImpl). locate-erase_from y id k n parts (c id) there in
      let fewer = λ (y : MessageIdImpl). count-erase_from y id k n parts (c id) there in
      let ih =
        remove_where_lem condition n m parts' h.1
          (λ y j e. elim (Bool-cases (same y id)) [
            | inl f ↦ absurd (ground (arith, find-same y id m f, h.0, e))
            | inr d ↦ ground (arith, gone y, d, l y j (find_later y id j k m d e))
          ])
          (λ y. ground (arith, fewer y, c y)) x in
      elim (Bool-cases (same x id)) [
        | inl f ↦
            let e = find-same x id m f in
            record {
              found = ground (arith, yes_, f, e, h.0, ih.found);
              located = ground (arith, yes_, f, gone x, ih.located);
              counted = ground (arith, yes_, f, fewer x, ih.counted);
            }
        | inr d ↦ record {
          found = ground (arith, yes_, d, ih.found);
          located = ground (arith, yes_, d, gone x, ih.located);
          counted = ground (arith, yes_, d, fewer x, ih.counted);
        }
      ]
  | inr no_ ↦
      let ih =
        remove_where_lem condition n m parts h.1
          (λ y j e. elim (Bool-cases (same y id)) [
            | inl f ↦ absurd (ground (arith, find-same y id m f, h.0, e))
            | inr d ↦ l y j (find_later y id j k m d e)
          ])
          c x in
      elim (Bool-cases (same x id)) [
        | inl f ↦
            let out = unselected condition x m (find-same x id m f ∙ h.0) in
            record {
              found = ground (arith, no_, f, ih.found);
              located = ground (arith, no_, f, out, ih.located);
              counted = ground (arith, no_, f, out, ih.counted);
            }
        | inr d ↦ record {
          found = ground (arith, no_, d, ih.found);
          located = ground (arith, no_, d, ih.located);
          counted = ground (arith, no_, d, ih.counted);
        }
      ]
]

still_missing :
    (condition : MessageIdImpl → Bool) (x : MessageIdImpl) (n : ℕ) (m : IdMap ℕ)
    (parts : List IdSet)
    → find x m ≡ none
    → find x (remove_where condition n m parts).0 ≡ none
unfolding remove_where find
still_missing condition x n [] parts h = refl
still_missing condition x n ((id, k) ∷ m) parts h =
    ground (
      arith,
      still_missing condition x n m (if condition id then erase_from k n id parts else parts),
    )

remove_where-AllApart :
    (condition : MessageIdImpl → Bool) (n : ℕ) (m : IdMap ℕ) (parts : List IdSet)
    → AllApart m
    → (AllApart (remove_where condition n m parts).0)
      × (length (remove_where condition n m parts).1 ≡ length parts)
unfolding remove_where
remove_where-AllApart condition n [] parts h = (tt, refl)
remove_where-AllApart condition n ((id, k) ∷ m) parts h = elim (Bool-cases (condition id)) [
  | inl yes_ ↦
      let (apart, same_length) =
        remove_where-AllApart condition n m (erase_from k n id parts) h.1 in
      rw yes_ (apart, same_length ∙ length-erase_from k n id parts)
  | inr no_ ↦
      let (apart, same_length) = remove_where-AllApart condition n m parts h.1 in
      rw no_ ((still_missing condition id n m parts h.0, apart), same_length)
]

pub remove_if-IsValid :
    (condition : MessageIdImpl → Bool) (t : UnAckedMessageTracker)
    → IsValid t
    → IsValid (remove_if condition t)
unfolding remove_if
remove_if-IsValid condition t v =
    let after = λ (x : MessageIdImpl).
      remove_where_lem condition t.head t.message_id_partition_map t.time_partitions v.apart
        (λ y k e. sym (v.agree y) ∙ e) v.once x in
    let (apart, same_length) =
      remove_where-AllApart condition t.head t.message_id_partition_map t.time_partitions v.apart in
    record {
      apart = apart;
      agree = λ x. ground (arith, (after x).found, (after x).located, v.agree x);
      once = λ x. ground (arith, (after x).counted, v.once x);
      some_partition = omega (arith, v.some_partition, same_length);
    }
