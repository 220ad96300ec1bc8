-- ===== src/Semaphore/Permits.antt =====
-- The permits of lib/Semaphore.cc: how many are out, and what a caller of `acquire` may rely on.
use pulsar_client_cpp.Prelude.{
  ℕ, ◌+◌, ◌-◌, ◌^◌, ◌≤◌, ◌<◌, ◌≡◌, ◌∙◌, ◌⊎◌, inl, inr, true, false, Option, none, some, List, [],
  ◌∷◌, Option-cases, leb, if◌then◌else◌, arith,
}
use pulsar_client_cpp.Semaphore.{
  Semaphore, add32, acquired, refused, waits, Call, tries, releases, closes, step, run, acquire,
}

-- The abstract semaphore: the number of permits that are out. A caller that returns more than are
-- out has broken the protocol.
abbrev pub grant : ℕ → ℕ → Call → Option ℕ
grant limit out (tries n) = some (if leb (out + n) limit then out + n else out)
grant limit out (releases n) = if leb n out then some (out - n) else none
grant limit out closes = some out

abbrev pub grants : ℕ → ℕ → List Call → Option ℕ
grants limit out [] = some out
grants limit out (c ∷ cs) = elim (grant limit out c) [
  | none ↦ none
  | some out' ↦ grants limit out' cs
]

-- `n` is a C++ `int` that is not negative, and the limit leaves room for one such request.
abbrev pub IsSmall : Call → Type 0
IsSmall (tries n) = n < 2 ^ 31
IsSmall (releases n) = n < 2 ^ 31
IsSmall closes = Unit {0}

abbrev pub AllSmall : List Call → Type 0
AllSmall [] = Unit {0}
AllSmall (c ∷ cs) = IsSmall c × AllSmall cs

pub record Tracks (s : Semaphore) (out : ℕ) : Type 0 where
  pub usage : s.current_usage ≡ out
  pub within : out ≤ s.limit
  pub small : s.limit ≤ 2 ^ 31

step-Tracks :
    (s : Semaphore) (c : Call) (out out' : ℕ)
    → IsSmall c
    → Tracks s out
    → grant s.limit out c ≡ some out'
    → Tracks (step s c) out' × ((step s c).limit ≡ s.limit)
unfolding step
step-Tracks s (tries n) out out' b t e = ground arith
step-Tracks s (releases n) out out' b t e = ground arith
step-Tracks s closes out out' b t e = ground arith

none_has_no_rest : {out : ℕ} → none ≡ some out → ⊥
none_has_no_rest e = cc

-- A schedule of calls for fewer than 2 ^ 31 permits each, in which no caller returns permits that are
-- not out, keeps the semaphore's counter equal to the number of permits out, and that number within
-- the limit, where the limit is at most 2 ^ 31.
pub run-Tracks :
    (s : Semaphore) (cs : List Call) (out out' : ℕ)
    → AllSmall cs
    → Tracks s out
    → grants s.limit out cs ≡ some out'
    → Tracks (run s cs) out' × ((run s cs).limit ≡ s.limit)
unfolding run
run-Tracks s [] out out' b t e = ground arith
run-Tracks s (c ∷ cs) out out' b t e = elim (Option-cases (grant s.limit out c)) [
  | inl stuck ↦ absurd (none_has_no_rest (rw (stuck, grants) at e))
  | inr (mid, went) ↦
      let (t', keep) = step-Tracks s c out mid b.0 t went in
      let (last, same) =
        run-Tracks (step s c) cs mid out' b.1 t' (rw keep (rw (went, grants) at e)) in
      (last, same ∙ keep)
]

-- `acquire` returns `true` only with the usage within the limit, returns `false` only on a closed
-- and exhausted semaphore, and goes on waiting only on an open and exhausted one, whatever other
-- threads do during its waits.
acquire-outcome :
    (s : Semaphore) (n : ℕ) (env : List (List Call))
    → let (outcome, s') = acquire s n env in
      ((outcome ≡ acquired) × (s'.current_usage ≤ s'.limit))
      ⊎ ((outcome ≡ refused) × (s'.is_closed ≡ true) × (s'.limit < add32 s'.current_usage n))
      ⊎ ((outcome ≡ waits) × (s'.is_closed ≡ false) × (s'.limit < add32 s'.current_usage n))
unfolding acquire
acquire-outcome s n [] = ground arith
acquire-outcome s n (others ∷ rest) = ground (arith, acquire-outcome (run s others) n rest)
