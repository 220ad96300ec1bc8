-- ===== src/BlockingQueue/Laws.antt =====
-- The calls of lib/BlockingQueue.h and lib/UnboundedBlockingQueue.h: order and bounds.
use mathlib.Core.List.{append_assoc, append-nil}
use pulsar_client_cpp.Prelude.{
  ℕ, ◌+◌, ◌≤◌, ◌<◌, ◌≡◌, refl, ap, sym, subst, zero, suc, ◌∙◌, ◌⊎◌, Bool, false, List, [], ◌∷◌,
  ◌++◌, length, length-append, arith,
}
use pulsar_client_cpp.BlockingQueue.{
  Answer, waits, pushed, popped, BlockingQueue, push, pop, pop_timeout, pop_if, clear, close,
  UnboundedBlockingQueue, push_unbounded,
}

-- A client's calls on a bounded queue.
pub data Call {ℓ} (A : Type ℓ) : Type ℓ where
  pushes : A → Call A
  pops pops_timeout clears closes : Call A
  pops_if : (A → Bool) → Call A

module _ {ℓ} {A : Type ℓ} where
  abbrev pub call : BlockingQueue A → Call A → Answer A × BlockingQueue A
  call q (pushes a) = push q a
  call q pops = pop q
  call q pops_timeout = pop_timeout q
  call q (pops_if condition) = pop_if q condition
  call q clears = (pushed, clear q)
  call q closes = (pushed, close q)

  -- No call takes a bounded queue past its maximal size, or changes that size.
  call-bounded :
      (q : BlockingQueue A) (c : Call A)
      → length q.items ≤ q.max_size
      → let (answer, q') = call q c in (length q'.items ≤ q'.max_size) × (q'.max_size ≡ q.max_size)
  unfolding push pop pop_timeout pop_if clear close
  call-bounded q (pushes a) h = ground (arith, length-append q.items (a ∷ []))
  call-bounded q pops h = ground arith
  call-bounded q pops_timeout h = ground arith
  call-bounded q (pops_if condition) h = ground arith
  call-bounded q clears h = ground arith
  call-bounded q closes h = ground arith

  -- Pushing some values one after another.
  abbrev pub push_all : BlockingQueue A → List A → BlockingQueue A
  push_all q [] = q
  push_all q (x ∷ xs) = push_all (push q x).1 xs

  push-open :
      (q : BlockingQueue A) (x : A)
      → q.is_closed ≡ false
      → length q.items < q.max_size
      → push q x ≡ (pushed, record q { items = q.items ++ (x ∷ []) })
  unfolding push
  push-open q x o h = ground arith

  pub push_all_appends :
      (q : BlockingQueue A) (xs : List A)
      → q.is_closed ≡ false
      → length q.items + length xs ≤ q.max_size
      → push_all q xs ≡ record q { items = q.items ++ xs }
  push_all_appends q [] o h = rw (append-nil q.items)
  push_all_appends q (x ∷ xs) o h =
      ap (λ r. push_all r xs)
        (ap (λ (r : Answer A × BlockingQueue A). r.1) (push-open q x o (omega arith)))
      ∙ push_all_appends (record q { items = q.items ++ (x ∷ []) }) xs o
          (omega (arith, length-append q.items (x ∷ [])))
      ∙ ap (λ items. record q { items = items }) (append_assoc q.items (x ∷ []) xs)

  -- A call on a bounded queue that waits changes nothing, and the queue is open and full or
  -- empty.
  waiting_call :
      (q : BlockingQueue A) (c : Call A)
      → (call q c).0 ≡ waits
      → ((call q c).1 ≡ q)
        × (q.is_closed ≡ false)
        × ((length q.items ≡ q.max_size) ⊎ (q.items ≡ []))
  unfolding push pop pop_timeout pop_if clear close
  waiting_call q (pushes a) h = ground arith
  waiting_call q pops h = ground arith
  waiting_call q pops_timeout h = ground arith
  waiting_call q (pops_if condition) h = ground arith
  waiting_call q clears h = absurd (cc)
  waiting_call q closes h = absurd (cc)

  -- The answers of n pops one after another.
  abbrev pub pop_all : BlockingQueue A → ℕ → List (Answer A)
  pop_all q zero = []
  pop_all q (suc n) = (pop q).0 ∷ pop_all (pop q).1 n

  abbrev pub as_popped : List A → List (Answer A)
  as_popped [] = []
  as_popped (x ∷ xs) = popped x ∷ as_popped xs

  pop-open :
      (q : BlockingQueue A) (x : A) (xs : List A)
      → q.is_closed ≡ false
      → q.items ≡ x ∷ xs
      → pop q ≡ (popped x, record q { items = xs })
  unfolding pop
  pop-open q x xs o e = ground arith

  pop_all-items :
      (xs : List A) (q : BlockingQueue A)
      → q.is_closed ≡ false
      → q.items ≡ xs
      → pop_all q (length xs) ≡ as_popped xs
  pop_all-items [] q o e = refl
  pop_all-items (x ∷ xs) q o e =
      rw (pop-open q x xs o e, pop_all)
        (ap (λ rest. popped x ∷ rest) (pop_all-items xs (record q { items = xs }) o refl))

  -- First in, first out: what is pushed on an open, empty queue that has room for it comes out in
  -- the same order.
  push_all-pop_all :
      (q : BlockingQueue A) (xs : List A)
      → q.is_closed ≡ false
      → q.items ≡ []
      → length xs ≤ q.max_size
      → pop_all (push_all q xs) (length xs) ≡ as_popped xs
  push_all-pop_all q xs o e h =
      subst (λ r. pop_all r (length xs) ≡ as_popped xs)
        (sym (push_all_appends q xs o (omega (arith, ap length e))))
        (pop_all-items xs (record q { items = q.items ++ xs }) o (rw e))

  -- A push on an unbounded queue of positive capacity keeps every item, in order, and leaves a queue
  -- with room for its items again.
  push_unbounded_appends :
      (q : UnboundedBlockingQueue A) (a : A)
      → 0 < q.capacity
      → length q.elements ≤ q.capacity
      → let q' = push_unbounded q a in
        (q'.elements ≡ q.elements ++ (a ∷ []))
        × (length q'.elements ≤ q'.capacity)
        × (0 < q'.capacity)
  unfolding push_unbounded
  push_unbounded_appends q a pos h = ground (arith, length-append q.elements (a ∷ []))
