-- ===== src/UnAcked/Ticks.antt =====
-- When lib/UnAckedMessageTrackerEnabled.cc redelivers a message.
use pulsar_client_cpp.Prelude.{
  ℕ, zero, suc, ◌+◌, ◌-◌, ◌≤◌, ◌<◌, ◌≡◌, refl, sym, ap, ◌∙◌, ◌⊎◌, inl, inr, true, false, none, some,
  List, [], ◌∷◌, ◌++◌, length, arith, Bool, Bool-cases, List-cases, Option-cases,
}
use pulsar_client_cpp.MessageId.{MessageIdImpl, discard_batch}
use pulsar_client_cpp.IdMap.{IdSet, find, contains}
use pulsar_client_cpp.IdMap.Laws.{same_refl, find-emplace}
use pulsar_client_cpp.UnAcked.{
  UnAckedMessageTracker, add, clear, redeliver_unacknowledged_messages, timeout_handler_helper,
  is_in_back,
}
use pulsar_client_cpp.UnAcked.Partitions.{locate, locate_cases}
use pulsar_client_cpp.UnAcked.Valid.{
  IsValid, timeout-IsValid, without_front, timeout_lem, find-erase_all,
}

abbrev pub tick : Bool → ℕ → UnAckedMessageTracker → UnAckedMessageTracker
tick is_shared zero t = t
tick is_shared (suc n) t = tick is_shared n (timeout_handler_helper is_shared t)

contains_none : (x : MessageIdImpl) (s : IdSet) → s ≡ [] → contains x s ≡ false
unfolding contains find
contains_none x [] h = refl
contains_none x (a ∷ s) h = absurd (cc)

-- Where a tracked id is at a tick: in the front partition, or behind it, where it stays.
at_tick :
    (t : UnAckedMessageTracker) (x : MessageIdImpl) (k : ℕ)
    → IsValid t
    → find x t.message_id_partition_map ≡ some (t.head + k)
    → (s : IdSet) × (ss : List IdSet) × (t.time_partitions ≡ s ∷ ss)
      × (((k ≡ 0)
            × (contains x s ≡ true)
            × (find x (without_front t s ss).message_id_partition_map ≡ none))
          ⊎ ((0 < k)
              × (find x (without_front t s ss).message_id_partition_map ≡ some (t.head + k))))
unfolding without_front
at_tick t x k v e = elim (List-cases t.time_partitions) [
  | inl none_left ↦
      absurd (omega (arith, v.some_partition, ap (λ (ss : List IdSet). length ss) none_left))
  | inr (s, ss, parts) ↦
      let there = sym e ∙ v.agree x ∙ ap (λ (ps : List IdSet). locate x t.head ps) parts in
      (
        s,
        ss,
        parts,
        elim (Bool-cases (contains x s)) [
          | inl front ↦ inl (
            ground (arith, there, front),
            front,
            ground (arith, front, find-erase_all x s t.message_id_partition_map),
          )
          | inr behind ↦ inr (
            elim (locate_cases x (t.head + 1) ss) [
              | inl (out, c) ↦ absurd (ground (arith, there, behind, out))
              | inr (j, at, pos, low, high) ↦ ground (arith, there, behind, at, low)
            ],
            ground (arith, behind, e, find-erase_all x s t.message_id_partition_map),
          )
        ],
      )
]

-- A consumer that shares its subscription asks for the messages of the partition, if it has any.
shared_lem :
    (t : UnAckedMessageTracker) (s : IdSet)
    → let t' = redeliver_unacknowledged_messages true t s in
      (t'.head ≡ t.head)
      × (t'.message_id_partition_map ≡ t.message_id_partition_map)
      × ((x : MessageIdImpl) → contains x s ≡ true → t'.redelivered ≡ t.redelivered ++ (s ∷ []))
unfolding redeliver_unacknowledged_messages
shared_lem t [] = (refl, refl, λ x h. absurd (ground (arith, h, contains_none x [] refl)))
shared_lem t (y ∷ s) = (refl, refl, λ x h. refl)

-- Another one asks for nothing, or for all and forgets what it tracks.
alone_lem :
    (t : UnAckedMessageTracker) (s : IdSet)
    → let t' = redeliver_unacknowledged_messages false t s in
      (((x : MessageIdImpl) → contains x s ≡ false) × (t' ≡ t))
      ⊎ ((t'.message_id_partition_map ≡ []) × (t'.redelivered ≡ t.redelivered ++ ([] ∷ [])))
unfolding redeliver_unacknowledged_messages clear
alone_lem t [] = inl (λ x. contains_none x [] refl, refl)
alone_lem t (y ∷ s) = inr (refl, refl)

one_tick :
    (t : UnAckedMessageTracker) (x : MessageIdImpl) (k : ℕ)
    → IsValid t
    → find x t.message_id_partition_map ≡ some (t.head + k)
    → let t' = timeout_handler_helper true t in
      (t'.head ≡ t.head + 1)
      × (((k ≡ 0)
            × (find x t'.message_id_partition_map ≡ none)
            × ((s : IdSet) × (t'.redelivered ≡ t.redelivered ++ (s ∷ [])) × (contains x s ≡ true)))
          ⊎ ((0 < k) × (find x t'.message_id_partition_map ≡ some (t.head + k))))
unfolding without_front
one_tick t x k v e =
    let (s, ss, parts, how) = at_tick t x k v e in
    let (same_head, same_map, asks) = shared_lem (without_front t s ss) s in
    rw (timeout_lem true t s ss parts) (
      same_head,
      elim how [
        | inl (z, front, gone) ↦ inl (z, ap (find x) same_map ∙ gone, (s, asks x front, front))
        | inr (pos, kept) ↦ inr (pos, ap (find x) same_map ∙ kept)
      ],
    )

one_tick_alone :
    (t : UnAckedMessageTracker) (x : MessageIdImpl) (k : ℕ)
    → IsValid t
    → find x t.message_id_partition_map ≡ some (t.head + k)
    → let t' = timeout_handler_helper false t in
      ((t'.message_id_partition_map ≡ []) × (t'.redelivered ≡ t.redelivered ++ ([] ∷ [])))
      ⊎ ((0 < k)
          × (t'.head ≡ t.head + 1)
          × (find x t'.message_id_partition_map ≡ some (t.head + k)))
unfolding without_front
one_tick_alone t x k v e =
    let (s, ss, parts, how) = at_tick t x k v e in
    rw (timeout_lem false t s ss parts) (elim (alone_lem (without_front t s ss) s) [
      | inr all ↦ inl all
      | inl (nothing, same) ↦ elim how [
        | inl (z, front, gone) ↦ absurd (ground (arith, nothing x, front))
        | inr (pos, kept) ↦ inr (
          pos,
          ap (λ (u : UnAckedMessageTracker). u.head) same,
          ap (λ (u : UnAckedMessageTracker). find x u.message_id_partition_map) same ∙ kept,
        )
      ]
    ])

-- Of a consumer that shares its subscription, a message that is tracked in the k-th partition from the
-- front, and that nobody acknowledges, is redelivered by the (k + 1)-th tick, not by an earlier one, and
-- not tracked any more after it.
pub ticks_redeliver :
    (k : ℕ) (t : UnAckedMessageTracker) (x : MessageIdImpl)
    → IsValid t
    → find x t.message_id_partition_map ≡ some (t.head + k)
    → (find x (tick true k t).message_id_partition_map ≡ some (t.head + k))
      × (find x (tick true (suc k) t).message_id_partition_map ≡ none)
      × ((s : IdSet) × ((tick true (suc k) t).redelivered ≡ (tick true k t).redelivered ++ (s ∷ []))
          × (contains x s ≡ true))
ticks_redeliver zero t x v e =
    let (same_head, how) = one_tick t x 0 v e in
    elim how [ inl (z, gone, sent) ↦ (e, gone, sent) | inr (pos, kept) ↦ absurd (omega arith) ]
ticks_redeliver (suc k) t x v e =
    let (next_head, how) = one_tick t x (suc k) v e in
    elim how [
      | inl (z, gone, sent) ↦ absurd (omega arith)
      | inr (pos, kept) ↦
          let number : t.head + suc k ≡ (timeout_handler_helper true t).head + k =
            omega (arith, next_head) in
          let (found, gone, sent) =
            ticks_redeliver k (timeout_handler_helper true t) x (timeout-IsValid true t v)
              (kept ∙ ap some number) in
          (found ∙ ap some (sym number), gone, sent)
    ]

-- Of a consumer that does not share its subscription, a message that is tracked in the k-th partition from
-- the front, and that nobody acknowledges, stays tracked for j ticks, with j no more than k; the next one
-- asks for all messages again, and nothing is tracked any more after it.
ticks_redeliver_all :
    (k : ℕ) (t : UnAckedMessageTracker) (x : MessageIdImpl)
    → IsValid t
    → find x t.message_id_partition_map ≡ some (t.head + k)
    → (j : ℕ) × (j ≤ k)
      × (find x (tick false j t).message_id_partition_map ≡ some (t.head + k))
      × ((tick false (suc j) t).message_id_partition_map ≡ [])
      × ((tick false (suc j) t).redelivered ≡ (tick false j t).redelivered ++ ([] ∷ []))
ticks_redeliver_all zero t x v e = elim (one_tick_alone t x 0 v e) [
  | inl (gone, all) ↦ (0, omega arith, e, gone, all)
  | inr (pos, same_head, kept) ↦ absurd (omega arith)
]
ticks_redeliver_all (suc k) t x v e = elim (one_tick_alone t x (suc k) v e) [
  | inl (gone, all) ↦ (0, omega arith, e, gone, all)
  | inr (pos, next_head, kept) ↦
      let number : t.head + suc k ≡ (timeout_handler_helper false t).head + k =
        omega (arith, next_head) in
      let (j, less, found, gone, all) =
        ticks_redeliver_all k (timeout_handler_helper false t) x (timeout-IsValid false t v)
          (kept ∙ ap some number) in
      (suc j, omega (arith, less), found ∙ ap some (sym number), gone, all)
]

in_back :
    (x : MessageIdImpl) (n : ℕ) (ss : List IdSet) → locate x n ss ≡ none → is_in_back x ss ≡ false
unfolding is_in_back
in_back x n [] h = refl
in_back x n (s ∷ []) h = ground arith
in_back x n (s ∷ r ∷ ss) h = in_back x (n + 1) (r ∷ ss) (ground arith)

-- A message that is added stands in the partition at the back, unless it is tracked already; so the
-- tracker answers whether it was new.
add_places :
    (t : UnAckedMessageTracker) (id : MessageIdImpl)
    → IsValid t
    → let (added, t') = add t id in
      let x = discard_batch id in
      ((added ≡ true)
        × (find x t.message_id_partition_map ≡ none)
        × (find x t'.message_id_partition_map ≡ some (t.head + (length t.time_partitions - 1))))
      ⊎ ((added ≡ false) × (t' ≡ t))
unfolding add
add_places t id v = elim (Option-cases (find (discard_batch id) t.message_id_partition_map)) [
  | inr (k, e) ↦ rw (e, add) (inr (refl, refl))
  | inl e ↦
      let x = discard_batch id in
      rw (e, add)
        (inl (
          refl,
          refl,
          ground (
            arith,
            find-emplace x x (t.head + length t.time_partitions - 1) t.message_id_partition_map e,
            same_refl x,
            v.some_partition,
          ),
        ))
]
