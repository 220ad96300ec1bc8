-- ===== src/BatchAck/Coverage.antt =====
-- When lib/BatchMessageAcker.h says that a batch is acknowledged.
use pulsar_client_cpp.Prelude.{
  ℕ, ◌+◌, ◌<◌, ◌≡◌, refl, sym, ap, ◌∙◌, ◌⊎◌, inl, inr, Bool, true, false, not, ◌&&◌, ◌||◌, some,
  List, [], ◌∷◌, ltb, leb, ◌==◌, arith,
}
use pulsar_client_cpp.BitSet.{BitSet, Word, new, is_empty, set_range, clear_range, clear}
use pulsar_client_cpp.BitSet.Laws.{bit, IsValid, is_empty-bit}
use pulsar_client_cpp.BitSet.Changes.{clear_lem, clear_range_lem}
use pulsar_client_cpp.BitSet.Setting.{set_range_lem, get_or-replicate}
use pulsar_client_cpp.BatchAck.{BatchMessageAcker, full, ack_individual, ack_cumulative}

pub data Event : Type 0 where
  individual cumulative : ℕ → Event

unfoldable pub step : BatchMessageAcker → Event → Bool × BatchMessageAcker
step a (individual i) = ack_individual a i
step a (cumulative i) = ack_cumulative a i

unfoldable pub run : BatchMessageAcker → List Event → BatchMessageAcker
unfolding step
run a [] = a
run a (e ∷ es) = run (step a e).1 es

-- Whether an acknowledgement is of the message with number `i` of the batch.
abbrev pub covers : Event → ℕ → Bool
covers (individual i) x = x == i
covers (cumulative i) x = leb x i

abbrev pub covered : List Event → ℕ → Bool
covered [] x = false
covered (e ∷ es) x = covers e x || covered es x

-- The bits of an acker of a batch are a valid set.
pub record Holds (a : BatchMessageAcker) (f : ℕ → Bool) : Type 0 where
  pub bits : BitSet
  pub is_there : a.bit_set ≡ some bits
  pub valid : IsValid bits
  pub as_told : (x : ℕ) → bit bits x ≡ f x

same_bits : (a : BatchMessageAcker) (f g : ℕ → Bool) → Holds a f → ((x : ℕ) → f x ≡ g x) → Holds a g
same_bits a f g h e = record {
  bits = h.bits;
  is_there = h.is_there;
  valid = h.valid;
  as_told = λ x. h.as_told x ∙ e x;
}

pub new-IsValid : (n : ℕ) → IsValid (new n) × ((x : ℕ) → bit (new n) x ≡ false)
unfolding new
new-IsValid n = (
  record {
    bounded = omega arith;
    beyond = λ k j h l. ap (λ (w : Word). w j) (get_or-replicate _ k);
    top = inl refl;
  },
  λ x. ground arith,
)

pub full-Holds : (n : ℕ) → 0 < n → Holds (full n) (λ x. ltb x n)
unfolding full
full-Holds n h =
    let (fresh, no_bit) = new-IsValid n in
    let (valid, told) = set_range_lem (new n) 0 n fresh h in
    record {
      bits = set_range (new n) 0 n;
      is_there = refl;
      valid = valid;
      as_told = λ x. told x ∙ ground (arith, no_bit x);
    }

-- What an acknowledgement answers, by the bits that it leaves.
ended :
    (a : BatchMessageAcker) (f : ℕ → Bool) (e : Event)
    → (b : BitSet) → IsValid b
    → ((x : ℕ) → bit b x ≡ f x && not (covers e x))
    → (step a e).0 ≡ is_empty b
    → (step a e).1.bit_set ≡ some b
    → Holds (step a e).1 (λ x. f x && not (covers e x))
      × ((((step a e).0 ≡ true) × ((x : ℕ) → f x && not (covers e x) ≡ false))
          ⊎ (((step a e).0 ≡ false) × ((x : ℕ) × (f x && not (covers e x) ≡ true))))
ended a f e b valid told answer there = (
  record { bits = b; is_there = there; valid = valid; as_told = told },
  elim (is_empty-bit b valid) [
    | inl (yes_, none_left) ↦ inl (answer ∙ yes_, λ x. sym (told x) ∙ none_left x)
    | inr (not_, (x, left)) ↦ inr (answer ∙ not_, (x, sym (told x) ∙ left))
  ],
)

-- One acknowledgement, and its answer.
pub step-Holds :
    (a : BatchMessageAcker) (f : ℕ → Bool) (e : Event)
    → Holds a f
    → Holds (step a e).1 (λ x. f x && not (covers e x))
      × ((((step a e).0 ≡ true) × ((x : ℕ) → f x && not (covers e x) ≡ false))
          ⊎ (((step a e).0 ≡ false) × ((x : ℕ) × (f x && not (covers e x) ≡ true))))
unfolding step ack_individual ack_cumulative
step-Holds a f (individual i) h =
    let (valid, told) = clear_lem h.bits i h.valid in
    ended a f (individual i) (clear h.bits i) valid (λ x. told x ∙ ground (arith, h.as_told x))
      (ground (arith, h.is_there)) (ground (arith, h.is_there))
step-Holds a f (cumulative i) h =
    let (valid, told) = clear_range_lem h.bits 0 (i + 1) h.valid (omega arith) in
    ended a f (cumulative i) (clear_range h.bits 0 (i + 1)) valid
      (λ x. told x ∙ ground (arith, h.as_told x)) (ground (arith, h.is_there))
      (ground (arith, h.is_there))

run-Holds :
    (es : List Event) (a : BatchMessageAcker) (f : ℕ → Bool)
    → Holds a f
    → Holds (run a es) (λ x. f x && not (covered es x))
unfolding run
run-Holds [] a f h = same_bits a f _ h (λ x. ground arith)
run-Holds (e ∷ es) a f h =
    same_bits (run (step a e).1 es) _ _
      (run-Holds es (step a e).1 (λ x. f x && not (covers e x)) (step-Holds a f e h).0)
      (λ x. ground arith)

-- After any acknowledgements of messages of a batch, single and cumulative, the next one answers
-- that the batch is acknowledged exactly when each of its messages is covered by one of them.
pub batch_acknowledged :
    (n : ℕ) (es : List Event) (e : Event)
    → 0 < n
    → let answer = (step (run (full n) es) e).0 in
      ((answer ≡ true) × ((x : ℕ) → x < n → covers e x || covered es x ≡ true))
      ⊎ ((answer ≡ false) × ((x : ℕ) × (x < n) × (covers e x || covered es x ≡ false)))
batch_acknowledged n es e h =
    let held = run-Holds es (full n) (λ x. ltb x n) (full-Holds n h) in
    elim (step-Holds (run (full n) es) (λ x. ltb x n && not (covered es x)) e held).1 [
      | inl (yes_, all_) ↦ inl (yes_, λ x l. ground (arith, all_ x))
      | inr (not_, (x, left)) ↦ inr (not_, (x, ground arith, ground arith))
    ]
