-- ===== src/BlockingQueue.antt =====
-- lib/BlockingQueue.h and lib/UnboundedBlockingQueue.h. A method is one critical section of the
-- mutex, cut where it waits: it answers `waits` when its thread has to wait for other calls.
-- boost's circular buffer is a list, oldest first; its capacity is kept beside it.
pub mod Laws
mod Tests
use pulsar_client_cpp.Prelude.{
  ℕ, ◌+◌, ◌*◌, Bool, true, false, not, ◌&&◌, ◌||◌, Option, none, some, List, [], ◌∷◌, ◌++◌, length,
  ltb, ◌==◌, if◌then◌else◌,
}

-- What a call answers: it waits, it returns false, it returns true, with a value where it pops.
pub data Answer {ℓ} (A : Type ℓ) : Type ℓ where
  waits refused pushed : Answer A
  popped : A → Answer A

pub record BlockingQueue {ℓ} (A : Type ℓ) : Type ℓ where
  pub max_size : ℕ
  pub items : List A
  pub is_closed : Bool

module _ {ℓ} {A : Type ℓ} where
  abbrev pub is_empty : List A → Bool
  is_empty [] = true
  is_empty (x ∷ xs) = false

  unfoldable pub is_full : BlockingQueue A → Bool
  is_full q = length q.items == q.max_size

  unfoldable pub push : BlockingQueue A → A → Answer A × BlockingQueue A
  unfolding is_full
  push q a =
      if is_full q && not q.is_closed
      then (waits, q)
      else if q.is_closed
      then (refused, q)
      else (pushed, record q { items = q.items ++ (a ∷ []) })

  -- `pop` by the items, with the answer on an empty, open queue.
  pop_or : Answer A → BlockingQueue A → List A → Answer A × BlockingQueue A
  pop_or otherwise q [] = if q.is_closed then (refused, q) else (otherwise, q)
  pop_or otherwise q (x ∷ xs) =
      if q.is_closed then (refused, q) else (popped x, record q { items = xs })

  unfoldable pub pop : BlockingQueue A → Answer A × BlockingQueue A
  unfolding pop_or
  pop q = pop_or waits q q.items

  -- `pop` with a timeout, which has run out if the queue is still empty and open.
  unfoldable pub pop_timeout : BlockingQueue A → Answer A × BlockingQueue A
  unfolding pop_or
  pop_timeout q = pop_or refused q q.items

  pop_front_if : (A → Bool) → BlockingQueue A → List A → Answer A × BlockingQueue A
  pop_front_if condition q [] = (refused, q)
  pop_front_if condition q (x ∷ xs) =
      if q.is_closed
      then (refused, q)
      else if condition x
      then (popped x, record q { items = xs })
      else (refused, q)

  unfoldable pub pop_if : BlockingQueue A → (A → Bool) → Answer A × BlockingQueue A
  unfolding pop_front_if
  pop_if q condition = pop_front_if condition q q.items

  abbrev pub head_of : List A → Option A
  head_of [] = none
  head_of (x ∷ xs) = some x

  unfoldable pub peek : BlockingQueue A → Option A
  peek q = head_of q.items

  unfoldable pub clear : BlockingQueue A → BlockingQueue A
  clear q = record q { items = [] }

  unfoldable pub close : BlockingQueue A → BlockingQueue A
  close q = record q { is_closed = true }

-- `UnboundedBlockingQueue`: it never waits to push, but doubles the capacity of the buffer.
pub record UnboundedBlockingQueue {ℓ} (A : Type ℓ) : Type ℓ where
  pub capacity : ℕ
  pub elements : List A
  pub closed : Bool

module _ {ℓ} {A : Type ℓ} where
  -- A circular buffer drops its oldest element where it is full, all where it has no capacity.
  abbrev pub push_back : ℕ → List A → A → List A
  push_back capacity [] a = if capacity == 0 then [] else a ∷ []
  push_back capacity (x ∷ xs) a =
      if ltb (length (x ∷ xs)) capacity then x ∷ (xs ++ (a ∷ [])) else xs ++ (a ∷ [])

  unfoldable pub push_unbounded : UnboundedBlockingQueue A → A → UnboundedBlockingQueue A
  push_unbounded q a =
      let capacity' =
        if length q.elements == q.capacity then length q.elements * 2 else q.capacity in
      record q { capacity = capacity'; elements = push_back capacity' q.elements a }

  pop_front : Answer A → UnboundedBlockingQueue A → List A → Answer A × UnboundedBlockingQueue A
  pop_front otherwise q [] = if q.closed then (refused, q) else (otherwise, q)
  pop_front otherwise q (x ∷ xs) =
      if q.closed then (refused, q) else (popped x, record q { elements = xs })

  unfoldable pub pop_unbounded : UnboundedBlockingQueue A → Answer A × UnboundedBlockingQueue A
  unfolding pop_front
  pop_unbounded q = pop_front waits q q.elements

  unfoldable pub pop_unbounded_timeout :
      UnboundedBlockingQueue A → Answer A × UnboundedBlockingQueue A
  unfolding pop_front
  pop_unbounded_timeout q = pop_front refused q q.elements

  -- `peekAndClear`.
  unfoldable pub peek_and_clear : UnboundedBlockingQueue A → Option A × UnboundedBlockingQueue A
  peek_and_clear q = elim q.elements [
    | [] ↦ (none, q)
    | x ∷ xs ↦ (some x, record q { elements = [] })
  ]

  unfoldable pub close_unbounded : UnboundedBlockingQueue A → UnboundedBlockingQueue A
  close_unbounded q = record q { closed = true }
