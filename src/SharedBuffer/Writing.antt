-- ===== src/SharedBuffer/Writing.antt =====
-- Writing behind what is to be read of a buffer of lib/SharedBuffer.h.
use mathlib.Core.List.{append-nil, append_assoc}
use pulsar_client_cpp.Prelude.{
  ℕ, zero, suc, ◌+◌, ◌-◌, ◌≤◌, ◌<◌, ◌≡◌, refl, sym, ap, subst, some, List, [], ◌∷◌, ◌++◌, length,
  drop, arith,
}
use pulsar_client_cpp.SharedBuffer.{
  SharedBuffer, u32_mod, allocate, take_padded, writable_bytes, bytes_written, write, store,
  copy_from,
}
use pulsar_client_cpp.SharedBuffer.Cursor.{
  IsValid, contents, length-take_padded, readable_bytes_lem, peek_lem,
}

-- The buffer with bytes written.
abbrev pub written : SharedBuffer → List ℕ → SharedBuffer
written b xs = record b {
  memory = store b.write_idx xs b.memory;
  write_idx = b.write_idx + length xs;
}

drop-take_padded :
    (r w : ℕ) (ys memory : List ℕ)
    → r ≤ w
    → drop r (take_padded w memory ++ ys) ≡ take_padded (w - r) (drop r memory) ++ ys
drop-take_padded zero w ys memory h = ground arith
drop-take_padded (suc r) zero ys memory h = absurd (omega arith)
drop-take_padded (suc r) (suc w) ys [] h =
    ground (arith, drop-take_padded r w ys [] (omega arith), drop_none r)
  where
    drop_none : (n : ℕ) → drop {A = ℕ} n [] ≡ []
    drop_none zero = refl
    drop_none (suc n) = refl
drop-take_padded (suc r) (suc w) ys (x ∷ memory) h =
    ground (arith, drop-take_padded r w ys memory (omega arith))

suc_shift : (n k : ℕ) → suc (n + k) ≡ suc n + k
suc_shift n k = omega arith

take_padded-append :
    (n k : ℕ) (zs ys more : List ℕ)
    → length zs ≡ n
    → length ys ≡ k
    → take_padded (n + k) (zs ++ (ys ++ more)) ≡ zs ++ ys
take_padded-append n zero [] [] more h j = ground (arith, h)
take_padded-append n (suc k) [] (y ∷ ys) more h j =
    ground (arith, h, j, take_padded-append 0 k [] ys more refl (omega (arith, j)))
take_padded-append n zero [] (y ∷ ys) more h j = absurd (omega (arith, j))
take_padded-append n (suc k) [] [] more h j = absurd (omega (arith, j))
take_padded-append zero k (z ∷ zs) ys more h j = absurd (omega (arith, h))
take_padded-append (suc n) k (z ∷ zs) ys more h j =
    subst (λ m. take_padded m ((z ∷ zs) ++ (ys ++ more)) ≡ (z ∷ zs) ++ ys) (suc_shift n k)
      (ap (λ l. z ∷ l) (take_padded-append n k zs ys more (omega (arith, h)) j))

pub contents-written :
    (b : SharedBuffer) (xs : List ℕ) → IsValid b → contents (written b xs) ≡ contents b ++ xs
unfolding contents store
contents-written b xs v =
    let kept = take_padded (b.write_idx - b.read_idx) (drop b.read_idx b.memory) in
    let tail = drop (b.write_idx + length xs) b.memory in
    ground (
      arith,
      v,
      append_assoc (take_padded b.write_idx b.memory) xs tail,
      drop-take_padded b.read_idx b.write_idx (xs ++ tail) b.memory v.behind,
      take_padded-append (b.write_idx - b.read_idx) (length xs) kept xs tail
          (length-take_padded _ _) refl,
    )

pub written-IsValid :
    (b : SharedBuffer) (xs : List ℕ)
    → IsValid b
    → length xs ≤ b.capacity - b.write_idx
    → IsValid (written b xs)
written-IsValid b xs v h = ground (arith, v)

pub writable_bytes_lem :
    (b : SharedBuffer) → IsValid b → writable_bytes b ≡ b.capacity - b.write_idx
unfolding writable_bytes
writable_bytes_lem b v = ground (arith, v)

-- There is room, so it is written.
pub write_lem :
    (b : SharedBuffer) (xs : List ℕ)
    → IsValid b
    → length xs ≤ b.capacity - b.write_idx
    → write xs b ≡ some (tt, written b xs)
unfolding write bytes_written writable_bytes
write_lem b xs v h = ground (arith, v)

pub allocate-IsValid : (size : ℕ) → size < u32_mod → IsValid (allocate size)
allocate-IsValid size h = ground arith

-- A copy has the same bytes to read, at its start.
pub copy_from_lem :
    (b : SharedBuffer) (capacity : ℕ)
    → IsValid b
    → length (contents b) ≤ capacity
    → capacity < u32_mod
    → copy_from b capacity ≡ some (written (allocate capacity) (contents b))
unfolding copy_from
copy_from_lem b capacity v h n = ground (
  arith,
  readable_bytes_lem b v,
  append-nil (contents b),
  peek_lem b (contents b) [] v (sym (append-nil _)),
  write_lem (allocate capacity) (contents b) (allocate-IsValid capacity n) (omega (arith, h)),
)
