-- ===== src/BatchAck/Tests.antt =====
-- An acker of a batch of 70 messages, and the theorems on it.
use pulsar_client_cpp.Prelude.{
  ℕ, ◌<◌, ◌≡◌, ◌⊎◌, true, false, ◌||◌, ◌&&◌, not, leb, ltb, [], ◌∷◌, List, arith,
}
use pulsar_client_cpp.BitSet.{BitSet, new, set_range, clear_range}
use pulsar_client_cpp.BitSet.Laws.{bit, IsValid}
use pulsar_client_cpp.BitSet.Changes.{clear_range_lem}
use pulsar_client_cpp.BitSet.Setting.{set_range_lem}
use pulsar_client_cpp.BatchAck.{full}
use pulsar_client_cpp.BatchAck.Coverage.{
  Event, individual, cumulative, step, run, covers, covered, new-IsValid, batch_acknowledged,
}

abbrev acked : List Event
acked = individual 69 ∷ cumulative 40 ∷ individual 3 ∷ []

batch_acknowledged_example :
    let answer = (step (run (full 70) acked) (cumulative 68)).0 in
    ((answer ≡ true) × ((x : ℕ) → x < 70 → covers (cumulative 68) x || covered acked x ≡ true))
    ⊎ ((answer ≡ false)
        × ((x : ℕ) × (x < 70) × (covers (cumulative 68) x || covered acked x ≡ false)))
batch_acknowledged_example = batch_acknowledged 70 acked (cumulative 68) (omega arith)

abbrev ones : BitSet
ones = set_range (new 70) 0 70

clear_range_lem_example :
    IsValid (clear_range ones 60 200)
    × ((x : ℕ) → bit (clear_range ones 60 200) x ≡ bit ones x && not (leb 60 x && ltb x 200))
clear_range_lem_example =
    clear_range_lem ones 60 200 (set_range_lem (new 70) 0 70 (new-IsValid 70).0 (omega arith)).0
      (omega arith)
