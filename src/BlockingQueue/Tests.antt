-- ===== src/BlockingQueue/Tests.antt =====
-- The queues on concrete values, and their theorems there.
use pulsar_client_cpp.Prelude.{ℕ, ◌≡◌, refl, true, false, [], ◌∷◌}
use pulsar_client_cpp.BlockingQueue.{
  waits, refused, BlockingQueue, push, pop, close, UnboundedBlockingQueue,
}

abbrev two : BlockingQueue ℕ
two = record { max_size = 2; items = []; is_closed = false }

abbrev full : BlockingQueue ℕ
full = record { max_size = 2; items = 5 ∷ 6 ∷ []; is_closed = false }

push-full_waits : push full 7 ≡ (waits, full)
unfolding push
push-full_waits = refl

pop_closed : pop (close full) ≡ (refused, record full { is_closed = true })
unfolding pop close
pop_closed = refl

abbrev one : UnboundedBlockingQueue ℕ
one = record { capacity = 1; elements = 4 ∷ []; closed = false }
