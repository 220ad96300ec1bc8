-- ===== src/SharedBuffer/Patching.antt =====
-- Bytes of a buffer of lib/SharedBuffer.h that are skipped and written later.
use mathlib.Core.List.{append_assoc}
use pulsar_client_cpp.Prelude.{
  ℕ, zero, suc, ◌+◌, ◌-◌, ◌≤◌, ◌≡◌, refl, sym, ap, subst, ◌∙◌, List, [], ◌∷◌, ◌++◌, length, drop,
  arith, length-append,
}
use pulsar_client_cpp.SharedBuffer.{SharedBuffer, take_padded, store}
use pulsar_client_cpp.SharedBuffer.Cursor.{
  IsValid, contents, length-take_padded, take_padded_first, take_padded_rest, drop-drop,
}

suc_shift : (n k : ℕ) → suc (n + k) ≡ suc n + k
suc_shift n k = omega arith

drop_none : (n : ℕ) → drop {A = ℕ} n [] ≡ []
drop_none zero = refl
drop_none (suc n) = refl

take_padded_add :
    (n k : ℕ) (xs : List ℕ) → take_padded (n + k) xs ≡ take_padded n xs ++ take_padded k (drop n xs)
take_padded_add zero k xs = ground arith
take_padded_add (suc n) k [] =
    subst (λ m. take_padded m [] ≡ 0 ∷ (take_padded n [] ++ take_padded k [])) (suc_shift n k)
      (ap (λ l. 0 ∷ l)
        (take_padded_add n k [] ∙ ap (λ l. take_padded n [] ++ take_padded k l) (drop_none n)))
take_padded_add (suc n) k (x ∷ xs) =
    subst (λ m. take_padded m (x ∷ xs) ≡ x ∷ (take_padded n xs ++ take_padded k (drop n xs)))
      (suc_shift n k) (ap (λ l. x ∷ l) (take_padded_add n k xs))

-- The bytes behind the writer index are then to be read.
abbrev pub skipped : SharedBuffer → ℕ → SharedBuffer
skipped b n = record b { write_idx = b.write_idx + n }

abbrev pub gap : SharedBuffer → ℕ → List ℕ
gap b n = take_padded n (drop (b.write_idx - b.read_idx) (drop b.read_idx b.memory))

pub contents-skipped :
    (b : SharedBuffer) (n : ℕ) → IsValid b → contents (skipped b n) ≡ contents b ++ gap b n
unfolding contents
contents-skipped b n v =
    ap (λ m. take_padded m (drop b.read_idx b.memory)) (shifted b.write_idx b.read_idx n v.behind)
    ∙ take_padded_add (b.write_idx - b.read_idx) n (drop b.read_idx b.memory)
  where
    shifted : (w r n : ℕ) → r ≤ w → w + n - r ≡ w - r + n
    shifted w r n h = omega arith

take_padded-behind :
    (k : ℕ) (xs ys : List ℕ) → take_padded (length xs + k) (xs ++ ys) ≡ xs ++ take_padded k ys
take_padded-behind k [] ys = ground arith
take_padded-behind k (x ∷ xs) ys =
    subst (λ m. take_padded m (x ∷ (xs ++ ys)) ≡ x ∷ (xs ++ take_padded k ys))
      (suc_shift (length xs) k) (ap (λ l. x ∷ l) (take_padded-behind k xs ys))

patch_list :
    (w : ℕ) (memory front old xs back : List ℕ)
    → take_padded w memory ≡ front ++ (old ++ back)
    → length old ≡ length xs
    → take_padded w (store (length front) xs memory) ≡ front ++ (xs ++ back)
unfolding store
patch_list w memory front old xs back c h =
    let tail = drop (length front + length xs) memory in
    let whole : length front + (length xs + length back) ≡ w = omega (
      arith,
      sym (length-take_padded w memory),
      ap length c,
      length-append front (old ++ back),
      length-append old back,
    ) in
    let behind : take_padded (length back) tail ≡ back = ground (
      arith,
      take_padded_rest _ _ old back (take_padded_rest w memory front (old ++ back) c),
      drop-drop (length front) (length old) memory,
    ) in
    ap (λ l. take_padded w (l ++ xs ++ tail)) (take_padded_first w memory front (old ++ back) c)
    ∙ ap (λ l. take_padded w l) (append_assoc front xs tail)
    ∙ ap (λ n. take_padded n (front ++ (xs ++ tail))) (sym whole)
    ∙ take_padded-behind (length xs + length back) front (xs ++ tail)
    ∙ ap (λ l. front ++ l) (take_padded-behind (length back) xs tail)
    ∙ ap (λ l. front ++ (xs ++ l)) behind

-- A buffer that is read from its start, with the bytes at an index replaced.
abbrev pub patched : SharedBuffer → ℕ → List ℕ → SharedBuffer
patched b i xs = record b { memory = store i xs b.memory }

pub contents-patched :
    (b : SharedBuffer) (front old xs back : List ℕ)
    → b.read_idx ≡ 0
    → contents b ≡ front ++ (old ++ back)
    → length old ≡ length xs
    → contents (patched b (length front) xs) ≡ front ++ (xs ++ back)
unfolding contents
contents-patched b front old xs back r c h =
    ground (arith, r, patch_list b.write_idx b.memory front old xs back (ground (arith, r, c)) h)

-- What is behind a place of the bytes to read.
pub take_behind :
    (b : SharedBuffer) (front back : List ℕ)
    → b.read_idx ≡ 0
    → contents b ≡ front ++ back
    → take_padded (b.write_idx - length front) (drop (length front) b.memory) ≡ back
unfolding contents
take_behind b front back r c =
    take_padded_rest b.write_idx b.memory front back (ground (arith, r, c))
