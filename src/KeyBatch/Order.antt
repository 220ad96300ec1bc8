-- ===== src/KeyBatch/Order.antt =====
-- The operations that lib/BatchMessageKeyBasedContainer.cc makes of its batches.
use pulsar_client_cpp.Prelude.{
  ℕ, ◌+◌, ◌≤◌, ◌≡◌, refl, sym, ap, subst, ◌∙◌, ◌⊎◌, inl, inr, Bool, true, false, ◌&&◌, ◌||◌, Option,
  none, some, List, [], ◌∷◌, length, ltb, leb, ◌==◌, if◌then◌else◌, occurrences, arith, Bool-cases,
  List-cases,
}
use Prim.Native.String.{String}
use pulsar_client_cpp.Op.{
  SendCallback, nobody, single, batch, Codec, OpSendMsg, Batch, batch_op_send_msg,
  add_tracker_callback,
}
use pulsar_client_cpp.KeyBatch.{
  KeyBasedContainer, is_blank, has_send_args, raw_ops, insert_op, sort_ops, all_have_send_args,
  sort_checked, track_last, clear, create_op_send_msgs,
}

-- The sequence ids of operations go up.
abbrev pub Ascends : List OpSendMsg → Type 0
Ascends [] = Unit
Ascends (x ∷ []) = Unit
Ascends (x ∷ y ∷ ops) = (x.sequence_id ≤ y.sequence_id) × Ascends (y ∷ ops)

abbrev pub callbacks_of : SendCallback → List ℕ
callbacks_of nobody = []
callbacks_of (single c) = c ∷ []
callbacks_of (batch cs) = cs

-- How often a callback stands in the operations, and in the batches.
abbrev pub carried : ℕ → List OpSendMsg → ℕ
carried n [] = 0
carried n (op ∷ ops) = occurrences n (callbacks_of op.send_callback) + carried n ops

abbrev pub held : ℕ → List (String × Batch) → ℕ
held n [] = 0
held n ((key, b) ∷ bs) = occurrences n b.callbacks + held n bs

-- Below the first one of a list, if it has one.
abbrev Bounds : ℕ → List OpSendMsg → Type 0
Bounds n [] = Unit
Bounds n (x ∷ ops) = n ≤ x.sequence_id

cons-Ascends :
    (x : OpSendMsg) (ops : List OpSendMsg)
    → Bounds x.sequence_id ops
    → Ascends ops
    → Ascends (x ∷ ops)
cons-Ascends x [] b h = tt
cons-Ascends x (y ∷ ops) b h = (b, h)

tail :
    (x : OpSendMsg) (ops : List OpSendMsg)
    → Ascends (x ∷ ops)
    → Bounds x.sequence_id ops × Ascends ops
tail x [] h = (tt, tt)
tail x (y ∷ ops) h = h

insert_op-Ascends :
    (op : OpSendMsg) (ops : List OpSendMsg)
    → Ascends ops
    → Ascends (insert_op op ops)
      × ((n : ℕ) → n ≤ op.sequence_id → Bounds n ops → Bounds n (insert_op op ops))
unfolding insert_op
insert_op-Ascends op [] h = (tt, λ n l b. l)
insert_op-Ascends op (x ∷ ops) h = elim (Bool-cases (ltb x.sequence_id op.sequence_id)) [
  | inl before ↦
      let (rest, bounded) = insert_op-Ascends op ops (tail x ops h).1 in
      rw before (
        cons-Ascends x (insert_op op ops) (bounded x.sequence_id (ground arith) (tail x ops h).0)
            rest,
        λ n l b. b,
      )
  | inr after ↦ rw after ((ground arith, h), λ n l b. l)
]

sort_ops-Ascends : (ops : List OpSendMsg) → Ascends (sort_ops ops)
unfolding sort_ops
sort_ops-Ascends [] = tt
sort_ops-Ascends (op ∷ ops) = (insert_op-Ascends op (sort_ops ops) (sort_ops-Ascends ops)).0

insert_op-carried :
    (n : ℕ) (op : OpSendMsg) (ops : List OpSendMsg)
    → carried n (insert_op op ops) ≡ occurrences n (callbacks_of op.send_callback) + carried n ops
unfolding insert_op
insert_op-carried n op [] = refl
insert_op-carried n op (x ∷ ops) = ground (arith, insert_op-carried n op ops)

sort_ops-carried : (n : ℕ) (ops : List OpSendMsg) → carried n (sort_ops ops) ≡ carried n ops
unfolding sort_ops
sort_ops-carried n [] = refl
sort_ops-carried n (op ∷ ops) =
    omega (arith, sort_ops-carried n ops, insert_op-carried n op (sort_ops ops))

track_last-Ascends :
    (ops : List OpSendMsg) (flush_callback : Option ℕ)
    → Ascends ops
    → Ascends (track_last ops flush_callback)
unfolding add_tracker_callback
track_last-Ascends [] fc h = tt
track_last-Ascends (op ∷ []) fc h = tt
track_last-Ascends (op ∷ next ∷ []) none h = h
track_last-Ascends (op ∷ next ∷ []) (some c) h = h
track_last-Ascends (op ∷ next ∷ x ∷ ops) fc h = (h.0, track_last-Ascends (next ∷ x ∷ ops) fc h.1)

track_last-carried :
    (n : ℕ) (ops : List OpSendMsg) (flush_callback : Option ℕ)
    → carried n (track_last ops flush_callback) ≡ carried n ops
unfolding add_tracker_callback
track_last-carried n [] fc = refl
track_last-carried n (op ∷ []) none = refl
track_last-carried n (op ∷ []) (some c) = refl
track_last-carried n (op ∷ next ∷ ops) fc = omega (arith, track_last-carried n (next ∷ ops) fc)

-- Whether a batch is encrypted and is not too big, where it has messages.
abbrev pub is_made : Codec → ℕ → Batch → Bool
is_made codec max_message_size b =
    is_blank b
    || codec.encrypts_batch b.messages && leb (codec.batch_payload_size b.messages) max_message_size

abbrev pub all_made : Codec → ℕ → List (String × Batch) → Bool
all_made codec max_message_size [] = true
all_made codec max_message_size ((key, b) ∷ bs) =
    is_made codec max_message_size b && all_made codec max_message_size bs

-- How many batches have messages.
abbrev pub filled : List (String × Batch) → ℕ
filled [] = 0
filled ((key, b) ∷ bs) = (if is_blank b then 0 else 1) + filled bs

none_in_blank : (n : ℕ) (cs : List ℕ) → (length cs == 0) ≡ true → occurrences n cs ≡ 0
none_in_blank n [] h = refl
none_in_blank n (c ∷ cs) h = absurd (ground arith)

module _ (codec : Codec) (max_message_size send_timeout now : ℕ) where
  abbrev create : Batch → OpSendMsg
  create b = (batch_op_send_msg codec max_message_size send_timeout now b).0

  create_lem :
      (b : Batch)
      → (callbacks_of (create b).send_callback ≡ b.callbacks)
        × (is_blank b ≡ false → has_send_args (create b) ≡ is_made codec max_message_size b)
  unfolding batch_op_send_msg
  create_lem b = (ground arith, λ h. ground arith)

  raw_ops_lem :
      (bs : List (String × Batch))
      → ((n : ℕ) → carried n (raw_ops create bs) ≡ held n bs)
        × (all_have_send_args (raw_ops create bs) ≡ all_made codec max_message_size bs)
        × (length (raw_ops create bs) ≡ filled bs)
  unfolding raw_ops
  raw_ops_lem [] = ((λ n. refl), refl, refl)
  raw_ops_lem ((key, b) ∷ bs) =
      let (same_calls, same_args, same_length) = raw_ops_lem bs in
      let (calls_, args) = create_lem b in
      elim (Bool-cases (is_blank b)) [
        | inl blank ↦ (
          λ n. ground (arith, same_calls n, blank, none_in_blank n b.callbacks),
          ground (arith, same_args, blank),
          ground (arith, same_length, blank),
        )
        | inr filled_ ↦ (
          λ n. ground (arith, same_calls n, filled_, calls_),
          ground (arith, same_args, filled_, args filled_),
          ground (arith, same_length, filled_),
        )
      ]

  -- When every batch can be made, the operations come in the order of their sequence ids, whatever
  -- order the map has, each callback of the container stands in them as often as it was added, and if
  -- there are operations the container is empty afterwards, its counts of messages and bytes are zero,
  -- and its batches count as sent.
  pub create_op_send_msgs_ordered :
      (c : KeyBasedContainer) (flush_callback : Option ℕ)
      → all_made codec max_message_size c.batches ≡ true
      → (ops : List OpSendMsg) × (c' : KeyBasedContainer) × (create_op_send_msgs codec
            max_message_size send_timeout now c flush_callback
          ≡ some (ops, c'))
        × Ascends ops
        × ((n : ℕ) → carried n ops ≡ held n c.batches)
        × (((c'.batches ≡ [])
              × (c'.num_messages ≡ 0)
              × (c'.size_in_bytes ≡ 0)
              × (c'.number_of_batches_sent ≡ c.number_of_batches_sent + length c.batches))
            ⊎ ((ops ≡ []) × (c' ≡ c)))
  unfolding create_op_send_msgs sort_checked clear
  create_op_send_msgs_ordered c flush_callback made =
      let (same_calls, same_args, same_length) = raw_ops_lem c.batches in
      let sorted = sort_ops (raw_ops create c.batches) in
      let from_sorted = λ (n : ℕ) (ops : List OpSendMsg) (e : sorted ≡ ops).
        sym (ap (λ (xs : List OpSendMsg). carried n xs) e)
        ∙ sort_ops-carried n (raw_ops create c.batches)
        ∙ same_calls n in
      elim (List-cases sorted) [
        | inl e ↦ (
          [],
          c,
          ground (arith, e, same_args, made),
          tt,
          λ n. from_sorted n [] e,
          inr (refl, refl),
        )
        | inr (op, rest, e) ↦ (
          track_last (op ∷ rest) flush_callback,
          clear c,
          ground (arith, e, same_args, made),
          track_last-Ascends (op ∷ rest) flush_callback
              (subst Ascends e (sort_ops-Ascends (raw_ops create c.batches))),
          (λ n. track_last-carried n (op ∷ rest) flush_callback ∙ from_sorted n (op ∷ rest) e),
          inl (refl, refl, refl, refl),
        )
      ]

  -- When two batches or more have messages and one of those cannot be encrypted or is too big, the
  -- sort dereferences the null `sendArgs` of its operation.
  pub failed_batch_crashes :
      (c : KeyBasedContainer) (flush_callback : Option ℕ)
      → 2 ≤ filled c.batches
      → all_made codec max_message_size c.batches ≡ false
      → create_op_send_msgs codec max_message_size send_timeout now c flush_callback ≡ none
  unfolding create_op_send_msgs sort_checked
  failed_batch_crashes c flush_callback several not_made =
      let (same_calls, same_args, same_length) = raw_ops_lem c.batches in
      ground (arith, same_args, same_length, several, not_made)
