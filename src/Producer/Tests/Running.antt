-- ===== src/Producer/Tests/Running.antt =====
-- A run of a producer: a message joins the batch, the batch is sent, and receipts arrive.
use pulsar_client_cpp.Prelude.{ℕ, ap, ◌≡◌, refl, Option, none, some, List, [], ◌∷◌, arith}
use pulsar_client_cpp.MessageId.{MessageIdImpl, default_impl}
use pulsar_client_cpp.Op.{BatchMessageContainer}
use pulsar_client_cpp.Producer.Permits.Configs.{config-send_async}
use pulsar_client_cpp.Producer.Permits.Batches.{AcceptsHeld}
use pulsar_client_cpp.Producer.{Config, Producer, ack_received}
use pulsar_client_cpp.Producer.Batching.{handle_batch_timer}
use pulsar_client_cpp.Producer.Send.{send_async}
use pulsar_client_cpp.Producer.Enqueue.{no_waits}
use pulsar_client_cpp.Producer.Permits.{Accounts}
use pulsar_client_cpp.Producer.Permits.Runs.{
  Step, sends, batch_timer, receipt, step, run, Afterwards, after_reply, AllRoom, run-Accounts,
}
use pulsar_client_cpp.Producer.Tests.{
  message, plain, batching, batching-Accounts, plain-Accepts, batching-AcceptsSend,
}

abbrev id : MessageIdImpl
id = default_impl

abbrev steps : List Step
steps = sends 400 message 4 no_waits (λ n. no_waits) ∷ batch_timer 405 ∷ receipt 1 id ∷ []

always :
    (holds : Producer → Type 0)
    → ((p : Producer) → holds p)
    → (r : Option Producer) → Afterwards holds r
always holds h none = tt
always holds h (some p) = h p

held : (n : ℕ) (o : Option BatchMessageContainer) → n ≡ 100 → AcceptsHeld plain n o
held n none e = tt
held n (some c) e = plain-Accepts n c.batch_.messages e

room : AllRoom plain batching steps
unfolding step
room =
    let sent_ = send_async plain 400 batching message 4 no_waits (λ n. no_waits) in
    let same = config-send_async plain 400 batching message 4 no_waits (λ n. no_waits) refl in
    (
      (omega arith, batching-AcceptsSend),
      (
        held sent_.max_message_size sent_.batch_message_container
            (ap (λ (c : Config). c.max_message_size) same),
        (
          tt,
          always (λ p. Unit {0}) (λ p. tt)
              (after_reply (ack_received (handle_batch_timer plain 405 sent_) 1 id)),
        ),
      ),
    )

run-Accounts_example : (p' : Producer) × (run plain batching steps ≡ some p') × Accounts p' 0 0
run-Accounts_example = run-Accounts plain batching steps refl refl room batching-Accounts
