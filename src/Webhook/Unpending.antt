-- ===== src/Webhook/Unpending.antt =====
-- Through any history of requests the table of seen events is settled.
use bro_know_my_qqbot.Prelude.{
  ℕ, ◌≡◌, ◌≢◌, Option, none, some, List, [], ◌∷◌, ◌==◌, Result, ok, err, Bool-cases, inl, inr,
  arith,
}
use bro_know_my_qqbot.Prelude.Map.{get}
use bro_know_my_qqbot.Prelude.Text.{Text}
use bro_know_my_qqbot.Webhook.{
  Reservation, reserved_new, reserved_accepted, reserved_pending, reserved_saturated, reserve,
  EventEnvelope, EventSendError, adapter_mismatch, queue_full, queue_closed, QueueAnswer,
  ActiveWebhookRun, WebhookState, try_send, admit, after_reserve, deliver, after_send, inactive,
}
use bro_know_my_qqbot.Webhook.Dispatch.{look}
use bro_know_my_qqbot.Webhook.Settled.{
  IsSettled, IsSettledBut, lookup-IsSettled, reserve-IsSettled, reserve-IsSettledBut,
  accept-IsSettled, release-IsSettled,
}
use bro_know_my_qqbot.Webhook.Replay.{WebhookStep, looks, admits, activates, step, run}

after_send-IsSettled :
    (s : WebhookState) (r : ActiveWebhookRun) (event : EventEnvelope) (j : Text)
    (sent : Result (Unit {0}) EventSendError)
    → IsSettledBut j s.seen_events
    → IsSettled ((after_send s r event j sent).0).seen_events
unfolding after_send
after_send-IsSettled s r event j (ok _) h = accept-IsSettled j s.seen_events h
after_send-IsSettled s r event j (err (adapter_mismatch x y)) h =
    release-IsSettled j s.seen_events h
after_send-IsSettled s r event j (err queue_full) h = release-IsSettled j s.seen_events h
after_send-IsSettled s r event j (err queue_closed) h = release-IsSettled j s.seen_events h

deliver-IsSettled :
    (s : WebhookState) (generation : ℕ) (event : EventEnvelope) (j : Text) (answer : QueueAnswer)
    (active : Option ActiveWebhookRun)
    → IsSettledBut j s.seen_events
    → IsSettled ((deliver s generation event j answer active).0).seen_events
unfolding deliver inactive
deliver-IsSettled s generation event j answer none h = release-IsSettled j s.seen_events h
deliver-IsSettled s generation event j answer (some r) h =
    elim (Bool-cases (r.generation == generation)) [
      | inl e ↦ rw e (after_send-IsSettled s r event j (try_send r.adapter_id event answer) h)
      | inr e ↦ rw e (release-IsSettled j s.seen_events h)
    ]

after_reserve-IsSettled :
    (s : WebhookState) (generation : ℕ) (event : EventEnvelope) (j : Text) (answer : QueueAnswer)
    (reservation : Reservation)
    → IsSettledBut j s.seen_events
    → (reservation ≢ reserved_new → IsSettled s.seen_events)
    → IsSettled ((after_reserve s generation event j answer reservation).0).seen_events
unfolding after_reserve
after_reserve-IsSettled s generation event j answer reserved_new h k =
    deliver-IsSettled s generation event j answer s.active h
after_reserve-IsSettled s generation event j answer reserved_pending h k = k (λ e. cc)
after_reserve-IsSettled s generation event j answer reserved_accepted h k = k (λ e. cc)
after_reserve-IsSettled s generation event j answer reserved_saturated h k = k (λ e. cc)

step-IsSettled :
    (x : WebhookStep) (s : WebhookState)
    → IsSettled s.seen_events
    → IsSettled (step x s).seen_events
unfolding step look admit
step-IsSettled (looks j now) s h = lookup-IsSettled s.seen_events j now h
step-IsSettled (admits generation event j expires_at now answer) s h =
    let t = reserve s.seen_events j expires_at now in
    after_reserve-IsSettled (record s { seen_events = t.0 }) generation event j answer t.1
      (reserve-IsSettledBut s.seen_events j expires_at now h)
      (reserve-IsSettled s.seen_events j expires_at now h)
step-IsSettled (activates r) s h = h

run-IsSettled :
    (xs : List WebhookStep) (s : WebhookState)
    → IsSettled s.seen_events
    → IsSettled (run xs s).seen_events
unfolding run
run-IsSettled [] s h = h
run-IsSettled (x ∷ xs) s h = run-IsSettled xs (step x s) (step-IsSettled x s h)

-- Through any steps of any requests and runs, from an empty table on: every identifier stands once,
-- with a record that is accepted and not pending, in a table of at most 4096.
pub run-empty-IsSettled :
    (xs : List WebhookStep) (s : WebhookState)
    → s.seen_events ≡ []
    → IsSettled (run xs s).seen_events
unfolding get
run-empty-IsSettled xs s e =
    run-IsSettled xs s
      (rw e (record { distinct = tt; settled = λ k r g. cc; bounded = omega arith }))
