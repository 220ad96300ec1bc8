-- ===== src/Semaphore/Tests.antt =====
-- Runs of the semaphore, and its theorems at concrete inputs.
use pulsar_client_cpp.Prelude.{◌≡◌, refl, true, false, List, [], ◌∷◌, arith}
use pulsar_client_cpp.Semaphore.{
  Semaphore, acquired, refused, Call, tries, releases, closes, run, acquire,
}
use pulsar_client_cpp.Semaphore.Permits.{Tracks, run-Tracks}

abbrev two : Semaphore
two = record { limit = 2; current_usage = 2; is_closed = false }

-- The waiter gets its permit in the round after the release.
acquire_after_release : acquire two 1 ((tries 1 ∷ []) ∷ (releases 1 ∷ []) ∷ []) ≡ (acquired, two)
unfolding acquire
acquire_after_release = refl

acquire_closed : acquire two 1 ((closes ∷ []) ∷ []) ≡ (refused, record two { is_closed = true })
unfolding acquire
acquire_closed = refl

run-Tracks_example :
    Tracks (run two (tries 1 ∷ releases 2 ∷ tries 1 ∷ closes ∷ [])) 1
    × ((run two (tries 1 ∷ releases 2 ∷ tries 1 ∷ closes ∷ [])).limit ≡ 2)
run-Tracks_example =
    run-Tracks two (tries 1 ∷ releases 2 ∷ tries 1 ∷ closes ∷ []) 2 1 (omega arith) (omega arith)
      refl

abbrev retried : List (List Call)
retried = (tries 1 ∷ []) ∷ (releases 1 ∷ []) ∷ []
