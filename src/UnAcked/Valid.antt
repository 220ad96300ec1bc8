-- ===== src/UnAcked/Valid.antt =====
-- The map and the partitions of lib/UnAckedMessageTrackerEnabled.cc: adding, removing, ticking.
use pulsar_client_cpp.Prelude.{
  ℕ, zero, suc, ◌+◌, ◌-◌, ◌≤◌, ◌<◌, ◌≡◌, refl, sym, ap, subst, ◌∙◌, inl, inr, Bool, true, false,
  none, some, List, [], ◌∷◌, ◌++◌, length, length-append, replicate, length-replicate,
  if◌then◌else◌, arith, List-cases, Option-cases,
}
use pulsar_client_cpp.MessageId.{MessageIdImpl, default_impl, discard_batch}
use pulsar_client_cpp.IdMap.{IdMap, IdSet, same, find, contains, erase}
use pulsar_client_cpp.IdMap.Laws.{find-erase, find-emplace}
use pulsar_client_cpp.IdMap.Apart.{AllApart, emplace-AllApart, erase-AllApart}
use pulsar_client_cpp.UnAcked.{
  UnAckedMessageTracker, add, remove, clear, redeliver_unacknowledged_messages,
  timeout_handler_helper, insert_back, erase_from, blank, erase_all, new, blank_partitions,
}
use pulsar_client_cpp.UnAcked.Partitions.{
  locate, count, locate_cases, count-insert_back, locate-insert_back, count-erase_from,
  locate-erase_from,
}

-- Every id of the map is in exactly the partition that the map names, which the deque has, and no
-- partition holds any other id.
pub record IsValid (t : UnAckedMessageTracker) : Type 0 where
  pub apart : AllApart t.message_id_partition_map
  pub agree :
      (x : MessageIdImpl) → find x t.message_id_partition_map ≡ locate x t.head t.time_partitions
  pub once : (x : MessageIdImpl) → count x t.time_partitions ≤ 1
  pub some_partition : 0 < length t.time_partitions

length-insert_back : (a : MessageIdImpl) (ss : List IdSet) → length (insert_back a ss) ≡ length ss
unfolding insert_back
length-insert_back a [] = refl
length-insert_back a (s ∷ []) = refl
length-insert_back a (s ∷ r ∷ ss) = omega (arith, length-insert_back a (r ∷ ss))

pub length-erase_from :
    (k n : ℕ) (a : MessageIdImpl) (ss : List IdSet) → length (erase_from k n a ss) ≡ length ss
unfolding erase_from
length-erase_from k n a [] = refl
length-erase_from k n a (s ∷ ss) = ground (arith, length-erase_from k (n + 1) a ss)

-- What a new id needs: no partition holds it.
unlocated : (x : MessageIdImpl) (n : ℕ) (ss : List IdSet) → locate x n ss ≡ none → count x ss ≡ 0
unlocated x n ss e = elim (locate_cases x n ss) [
  | inl (f, c) ↦ c
  | inr (k, f, c, low, high) ↦ absurd (ground arith)
]

-- The two fields about lookups, after an insertion at the back.
add_parts :
    (a x : MessageIdImpl) (n : ℕ) (ss : List IdSet)
    → 0 < length ss
    → count a ss ≡ 0
    → (locate x n (insert_back a ss)
        ≡ (if same x a then some (n + length ss - 1) else locate x n ss))
      × (count x (insert_back a ss) ≡ (if same x a then 1 else count x ss))
add_parts a x n [] pos c = absurd (omega arith)
add_parts a x n (s ∷ ss) pos c =
    let number : n + length (s ∷ ss) - 1 ≡ n + length ss = omega arith in
    (rw number (locate-insert_back x a n s ss c), count-insert_back x a s ss c)

pub add-IsValid :
    (t : UnAckedMessageTracker) (id : MessageIdImpl) → IsValid t → IsValid (add t id).1
unfolding add
add-IsValid t id v =
    let a = discard_batch id in
    elim (Option-cases (find a t.message_id_partition_map)) [
      | inr (k, e) ↦ rw (e, add) v
      | inl e ↦
          let fresh = unlocated a t.head t.time_partitions (sym (v.agree a) ∙ e) in
          rw (e, add)
            (record {
              apart = emplace-AllApart a _ t.message_id_partition_map v.apart;
              agree = λ x. ground (
                arith,
                v.agree x,
                find-emplace x a (t.head + length t.time_partitions - 1) t.message_id_partition_map
                    e,
                (add_parts a x t.head t.time_partitions v.some_partition fresh).0,
              );
              once = λ x. ground (
                arith,
                v.once x,
                (add_parts a x t.head t.time_partitions v.some_partition fresh).1,
              );
              some_partition =
                  omega (arith, v.some_partition, length-insert_back a t.time_partitions);
            })
    ]

pub remove-IsValid_lem :
    (t : UnAckedMessageTracker) (id : MessageIdImpl) → IsValid t → IsValid (remove t id).1
unfolding remove
remove-IsValid_lem t id v =
    let a = discard_batch id in
    elim (Option-cases (find a t.message_id_partition_map)) [
      | inl e ↦ rw (e, remove) v
      | inr (k, e) ↦
          let there = sym (v.agree a) ∙ e in
          rw (e, remove)
            (record {
              apart = erase-AllApart a t.message_id_partition_map v.apart;
              agree = λ x. ground (
                arith,
                v.agree x,
                find-erase x a t.message_id_partition_map,
                locate-erase_from x a k t.head t.time_partitions (v.once a) there,
              );
              once = λ x. ground (
                arith,
                v.once x,
                count-erase_from x a k t.head t.time_partitions (v.once a) there,
              );
              some_partition =
                  omega (arith, v.some_partition, length-erase_from k t.head a t.time_partitions);
            })
    ]

pub find-erase_all :
    (x : MessageIdImpl) (s : IdSet) (m : IdMap ℕ)
    → find x (erase_all s m) ≡ (if contains x s then none else find x m)
unfolding erase_all contains find
find-erase_all x [] m = refl
find-erase_all x ((id, u) ∷ s) m =
    ground (arith, find-erase_all x s (erase id m), find-erase x id m)

erase_all-AllApart : (s : IdSet) (m : IdMap ℕ) → AllApart m → AllApart (erase_all s m)
unfolding erase_all
erase_all-AllApart [] m h = h
erase_all-AllApart ((id, u) ∷ s) m h = erase_all-AllApart s (erase id m) (erase-AllApart id m h)

-- An empty partition at the back.
grown :
    (x : MessageIdImpl) (n : ℕ) (ss : List IdSet)
    → (locate x n (ss ++ ([] ∷ [])) ≡ locate x n ss) × (count x (ss ++ ([] ∷ [])) ≡ count x ss)
unfolding contains find
grown x n [] = (refl, refl)
grown x n (s ∷ ss) = let (l, c) = grown x (n + 1) ss in ground (arith, l, c)

-- The two lookups after the front partition `s` is gone.
expired :
    (x : MessageIdImpl) (n : ℕ) (s : IdSet) (ss : List IdSet) (m : IdMap ℕ)
    → find x m ≡ locate x n (s ∷ ss)
    → count x (s ∷ ss) ≤ 1
    → (find x (erase_all s m) ≡ locate x (n + 1) (ss ++ ([] ∷ [])))
      × (count x (ss ++ ([] ∷ [])) ≤ 1)
expired x n s ss m e h =
    let (l, c) = grown x (n + 1) ss in
    elim (locate_cases x (n + 1) ss) [
      | inl (out, z) ↦ ground (arith, l, c, e, h, out, z, find-erase_all x s m)
      | inr (k, there, pos, low, high) ↦
          ground (arith, l, c, e, h, there, pos, find-erase_all x s m)
    ]

blanked :
    (x : MessageIdImpl) (n : ℕ) (ss : List IdSet)
    → (locate x n (blank ss) ≡ none) × (count x (blank ss) ≡ 0) × (length (blank ss) ≡ length ss)
unfolding contains find
blanked x n [] = (refl, refl, refl)
blanked x n (s ∷ ss) = let (l, c, e) = blanked x (n + 1) ss in (l, omega (arith, c), ap suc e)

pub clear-IsValid : (t : UnAckedMessageTracker) → IsValid t → IsValid (clear t)
unfolding clear find
clear-IsValid t v = record {
  apart = tt;
  agree = λ x. sym (blanked x t.head t.time_partitions).0;
  once = λ x. omega (arith, blanked x t.head t.time_partitions);
  some_partition =
      omega (arith, v.some_partition, (blanked default_impl t.head t.time_partitions).2);
}

pub redeliver-IsValid :
    (is_shared : Bool) (t : UnAckedMessageTracker) (s : IdSet)
    → IsValid t
    → IsValid (redeliver_unacknowledged_messages is_shared t s)
unfolding redeliver_unacknowledged_messages
redeliver-IsValid is_shared t [] v = v
redeliver-IsValid true t (x ∷ xs) v = record {
  apart = v.apart;
  agree = v.agree;
  once = v.once;
  some_partition = v.some_partition;
}
redeliver-IsValid false t (x ∷ xs) v =
    clear-IsValid (record t { redelivered = t.redelivered ++ ([] ∷ []) })
      (record {
        apart = v.apart;
        agree = v.agree;
        once = v.once;
        some_partition = v.some_partition;
      })

-- The tracker without the partition at the front.
unfoldable pub without_front : UnAckedMessageTracker → IdSet → List IdSet → UnAckedMessageTracker
unfolding erase_all
without_front t s ss = record t {
  head = t.head + 1;
  time_partitions = ss ++ ([] ∷ []);
  message_id_partition_map = erase_all s t.message_id_partition_map;
}

pub timeout_lem :
    (is_shared : Bool) (t : UnAckedMessageTracker) (s : IdSet) (ss : List IdSet)
    → t.time_partitions ≡ s ∷ ss
    → timeout_handler_helper is_shared t
      ≡ redeliver_unacknowledged_messages is_shared (without_front t s ss) s
unfolding timeout_handler_helper without_front
timeout_lem is_shared t s ss e = rw (e, timeout_handler_helper) refl

pub timeout-IsValid :
    (is_shared : Bool) (t : UnAckedMessageTracker)
    → IsValid t
    → IsValid (timeout_handler_helper is_shared t)
unfolding without_front
timeout-IsValid is_shared t v = elim (List-cases t.time_partitions) [
  | inl e ↦ absurd (omega (arith, v.some_partition, ap (λ (ss : List IdSet). length ss) e))
  | inr (s, ss, e) ↦
      let front = λ (x : MessageIdImpl).
        expired x t.head s ss t.message_id_partition_map
          (v.agree x ∙ ap (λ (parts : List IdSet). locate x t.head parts) e)
          (subst (λ (parts : List IdSet). count x parts ≤ 1) e (v.once x)) in
      subst IsValid (sym (timeout_lem is_shared t s ss e)) (
        redeliver-IsValid is_shared (without_front t s ss) s (record {
          apart = erase_all-AllApart s t.message_id_partition_map v.apart;
          agree = λ x. (front x).0;
          once = λ x. (front x).1;
          some_partition = omega (arith, length-append ss ([] ∷ []));
        }))
]

all_empty :
    (x : MessageIdImpl) (n k : ℕ)
    → (locate x n (replicate k []) ≡ none) × (count x (replicate k []) ≡ 0)
unfolding contains find
all_empty x n zero = (refl, refl)
all_empty x n (suc k) = let (l, c) = all_empty x (n + 1) k in (l, omega (arith, c))

pub new-IsValid : (timeout tick_duration : ℕ) → IsValid (new timeout tick_duration)
unfolding new blank_partitions find
new-IsValid timeout tick_duration =
    let n = blank_partitions timeout tick_duration in
    let blank_set : IdSet = [] in
    record {
      apart = tt;
      agree = λ x. sym (all_empty x 0 n).0;
      once = λ x. omega (arith, all_empty x 0 n);
      some_partition = ground (arith, length-replicate n blank_set);
    }
