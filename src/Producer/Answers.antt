-- ===== src/Producer/Answers.antt =====
-- Whom the completions of operations of lib/OpSendMsg.h and lib/ProducerImpl.cc call, and with what.
use pulsar_client_cpp.Prelude.{
  ℕ, zero, suc, ◌+◌, ◌≡◌, refl, ap, ◌∙◌, List, [], ◌∷◌, ◌++◌, map, length,
}
use pulsar_client_cpp.Prelude.Int.{pos}
use mathlib.Core.List.{append-nil}
use mathlib.Core.Path.{ap₂}
use pulsar_client_cpp.Result.{Result}
use pulsar_client_cpp.MessageId.{MessageId, build}
use pulsar_client_cpp.Op.{
  SendCallback, nobody, single, batch, Completion, sent, flushed, OpSendMsg, complete_batch,
  complete_send_callback, complete_trackers, complete,
}

-- The callbacks that are called, in order.
abbrev pub callers : List Completion → List ℕ
callers [] = []
callers (sent c r id ∷ done) = c ∷ callers done
callers (flushed c r ∷ done) = c ∷ callers done

-- The message ids that are passed to callbacks of messages, in order.
abbrev pub ids_sent : List Completion → List MessageId
ids_sent [] = []
ids_sent (sent c r id ∷ done) = id ∷ ids_sent done
ids_sent (flushed c r ∷ done) = ids_sent done

-- Every callback gets this result.
abbrev pub AllEnd : Result → List Completion → Type 0
AllEnd result [] = Unit {0}
AllEnd result (sent c r id ∷ done) = (r ≡ result) × AllEnd result done
AllEnd result (flushed c r ∷ done) = (r ≡ result) × AllEnd result done

-- The callbacks that an operation was given: those of its messages, then those of its flushes.
abbrev pub callbacks_of : SendCallback → List ℕ
callbacks_of nobody = []
callbacks_of (single c) = c ∷ []
callbacks_of (batch cs) = cs

abbrev pub given : OpSendMsg → List ℕ
given op = callbacks_of op.send_callback ++ op.tracker_callbacks

abbrev pub all_given : List OpSendMsg → List ℕ
all_given [] = []
all_given (op ∷ ops) = given op ++ all_given ops

abbrev pub from : ℕ → ℕ → List ℕ
from i zero = []
from i (suc n) = i ∷ from (i + 1) n

-- The id of a message in a batch of n.
abbrev pub place : MessageId → ℕ → ℕ → MessageId
place id n i = build (record id.impl { batch_index = pos i; batch_size = pos n })

-- One message has the id of the operation, those of a batch have their places in it.
abbrev pub ids_given : SendCallback → MessageId → List MessageId
ids_given nobody id = []
ids_given (single c) id = id ∷ []
ids_given (batch cs) id = map (place id (length cs)) (from 0 (length cs))

-- What completing adds.
pub record Answers (done : List Completion) (result : Result) (cs : List ℕ) (ids : List MessageId)
    : Type 0 where
  pub called : callers done ≡ cs
  pub ended : AllEnd result done
  pub told : ids_sent done ≡ ids

callers_append : (xs ys : List Completion) → callers (xs ++ ys) ≡ callers xs ++ callers ys
callers_append [] ys = refl
callers_append (sent c r id ∷ xs) ys = ap (λ cs. c ∷ cs) (callers_append xs ys)
callers_append (flushed c r ∷ xs) ys = ap (λ cs. c ∷ cs) (callers_append xs ys)

ids_sent_append : (xs ys : List Completion) → ids_sent (xs ++ ys) ≡ ids_sent xs ++ ids_sent ys
ids_sent_append [] ys = refl
ids_sent_append (sent c r id ∷ xs) ys = ap (λ ids. id ∷ ids) (ids_sent_append xs ys)
ids_sent_append (flushed c r ∷ xs) ys = ids_sent_append xs ys

append-AllEnd :
    (result : Result) (xs ys : List Completion)
    → AllEnd result xs
    → AllEnd result ys
    → AllEnd result (xs ++ ys)
append-AllEnd result [] ys h k = k
append-AllEnd result (sent c r id ∷ xs) ys h k = (h.0, append-AllEnd result xs ys h.1 k)
append-AllEnd result (flushed c r ∷ xs) ys h k = (h.0, append-AllEnd result xs ys h.1 k)

pub append-Answers :
    (result : Result) (xs ys : List Completion) (cs ds : List ℕ) (ids more : List MessageId)
    → Answers xs result cs ids
    → Answers ys result ds more
    → Answers (xs ++ ys) result (cs ++ ds) (ids ++ more)
append-Answers result xs ys cs ds ids more v w = record {
  called = callers_append xs ys ∙ ap₂ (λ ds es. ds ++ es) v.called w.called;
  ended = append-AllEnd result xs ys v.ended w.ended;
  told = ids_sent_append xs ys ∙ ap₂ (λ ds es. ds ++ es) v.told w.told;
}

complete_batch-Answers :
    (result : Result) (id : MessageId) (n i : ℕ) (cs : List ℕ)
    → Answers (complete_batch result id n i cs) result cs (map (place id n) (from i (length cs)))
unfolding complete_batch
complete_batch-Answers result id n i [] = record { called = refl; ended = tt; told = refl }
complete_batch-Answers result id n i (c ∷ cs) =
    let rest = complete_batch-Answers result id n (i + 1) cs in
    record {
      called = ap (λ ds. c ∷ ds) rest.called;
      ended = (refl, rest.ended);
      told = ap (λ ids. place id n i ∷ ids) rest.told;
    }

complete_send_callback-Answers :
    (callback : SendCallback) (result : Result) (id : MessageId)
    → Answers
        (complete_send_callback callback result id)
        result
        (callbacks_of callback)
        (ids_given callback id)
unfolding complete_send_callback
complete_send_callback-Answers nobody result id = record { called = refl; ended = tt; told = refl }
complete_send_callback-Answers (single c) result id = record {
  called = refl;
  ended = (refl, tt);
  told = refl;
}
complete_send_callback-Answers (batch cs) result id =
    complete_batch-Answers result id (length cs) 0 cs

complete_trackers-Answers :
    (result : Result) (cs : List ℕ) → Answers (complete_trackers result cs) result cs []
unfolding complete_trackers
complete_trackers-Answers result [] = record { called = refl; ended = tt; told = refl }
complete_trackers-Answers result (c ∷ cs) =
    let rest = complete_trackers-Answers result cs in
    record { called = ap (λ ds. c ∷ ds) rest.called; ended = (refl, rest.ended); told = rest.told }

pub complete-Answers :
    (op : OpSendMsg) (result : Result) (id : MessageId)
    → Answers (complete op result id) result (given op) (ids_given op.send_callback id)
unfolding complete
complete-Answers op result id =
    let v =
      append-Answers result _ _ _ _ _ _ (complete_send_callback-Answers op.send_callback result id)
        (complete_trackers-Answers result op.tracker_callbacks) in
    record {
      called = v.called;
      ended = v.ended;
      told = v.told ∙ append-nil (ids_given op.send_callback id);
    }
