-- ===== src/Webhook/Replay.antt =====
-- Deliveries and replays over a history of requests whose steps interleave.
use bro_know_my_qqbot.Prelude.{
  ℕ, ◌≤◌, ◌≡◌, refl, ap, sym, ◌∙◌, false, Option, none, some, List, [], ◌∷◌, ◌++◌, ◌==◌, Result, ok,
  err, arith, All, Bool-cases, inl, inr,
}
use bro_know_my_qqbot.Prelude.Map.{get}
use bro_know_my_qqbot.Prelude.Text.{Text, text_discrete}
use bro_know_my_qqbot.Webhook.{
  SeenRecord, accepted, Reservation, reserved_new, reserved_accepted, reserved_pending,
  reserved_saturated, lookup, reserve, accept, ack_response_with_code, EventEnvelope,
  EventSendError, adapter_mismatch, queue_full, queue_closed, QueueAnswer, ActiveWebhookRun,
  WebhookState, try_send, admit, after_reserve, deliver, after_send, inactive, reservation_of,
  lookup_record,
}
use bro_know_my_qqbot.Webhook.Dispatch.{
  GatewayPayload, WebhookTimes, is_bad_event_id, look, answer_seen, dispatch_response,
  dispatch_response-look,
}
use bro_know_my_qqbot.Webhook.Seen.{
  lookup_kept, reserve_kept, accept_kept, release_kept, accept-reserve,
}

-- What changes the state: a lookup, an admission (with all that happens under its lock), and the
-- start or the end of a run of the adapter.
pub data WebhookStep : Type 0 where
  looks : Text → ℕ → WebhookStep
  admits : ℕ → EventEnvelope → Text → ℕ → ℕ → QueueAnswer → WebhookStep
  activates : Option ActiveWebhookRun → WebhookStep

unfoldable pub step : WebhookStep → WebhookState → WebhookState
step (looks event_id now) s = (look s event_id now).0
step (admits generation event event_id expires_at now answer) s =
    (admit s generation event event_id expires_at now answer).0
step (activates run) s = record s { active = run }

unfoldable pub run : List WebhookStep → WebhookState → WebhookState
run [] s = s
run (x ∷ xs) s = run xs (step x s)

-- The clock of the step has not passed `until`.
abbrev pub Within : ℕ → WebhookStep → Type 0
Within until (looks event_id now) = now ≤ until
Within until (admits generation event event_id expires_at now answer) = now ≤ until
Within until (activates run) = Unit {0}

module _ (k : Text) (r : SeenRecord) (a : r.state ≡ accepted) where
  after_send_kept :
      (s : WebhookState) (run : ActiveWebhookRun) (event : EventEnvelope) (j : Text)
      (sent : Result (Unit {0}) EventSendError)
      → get text_discrete k s.seen_events ≡ some r
      → get text_discrete k ((after_send s run event j sent).0).seen_events ≡ some r
  unfolding after_send
  after_send_kept s run event j (ok _) h = accept_kept s.seen_events k r j h a
  after_send_kept s run event j (err (adapter_mismatch x y)) h =
      release_kept s.seen_events k r j h a
  after_send_kept s run event j (err queue_full) h = release_kept s.seen_events k r j h a
  after_send_kept s run event j (err queue_closed) h = release_kept s.seen_events k r j h a

  deliver_kept :
      (s : WebhookState) (generation : ℕ) (event : EventEnvelope) (j : Text) (answer : QueueAnswer)
      (active : Option ActiveWebhookRun)
      → get text_discrete k s.seen_events ≡ some r
      → get text_discrete k ((deliver s generation event j answer active).0).seen_events ≡ some r
  unfolding deliver inactive
  deliver_kept s generation event j answer none h = release_kept s.seen_events k r j h a
  deliver_kept s generation event j answer (some run) h =
      elim (Bool-cases (run.generation == generation)) [
        | inl e ↦ rw e (after_send_kept s run event j (try_send run.adapter_id event answer) h)
        | inr e ↦ rw e (release_kept s.seen_events k r j h a)
      ]

  after_reserve_kept :
      (s : WebhookState) (generation : ℕ) (event : EventEnvelope) (j : Text) (answer : QueueAnswer)
      (reservation : Reservation)
      → get text_discrete k s.seen_events ≡ some r
      → get text_discrete k ((after_reserve s generation event j answer reservation).0).seen_events
        ≡ some r
  unfolding after_reserve
  after_reserve_kept s generation event j answer reserved_new h =
      deliver_kept s generation event j answer s.active h
  after_reserve_kept s generation event j answer reserved_accepted h = h
  after_reserve_kept s generation event j answer reserved_pending h = h
  after_reserve_kept s generation event j answer reserved_saturated h = h

  step_kept :
      (x : WebhookStep) (s : WebhookState)
      → get text_discrete k s.seen_events ≡ some r
      → Within r.expires_at x
      → get text_discrete k (step x s).seen_events ≡ some r
  unfolding step look admit
  step_kept (looks j now) s h b = lookup_kept s.seen_events k r j now h b
  step_kept (admits generation event j expires_at now answer) s h b =
      let t = reserve s.seen_events j expires_at now in
      after_reserve_kept (record s { seen_events = t.0 }) generation event j answer t.1
        (reserve_kept s.seen_events k r j expires_at now h b)
  step_kept (activates run) s h b = h

  run_kept :
      (xs : List WebhookStep) (s : WebhookState)
      → get text_discrete k s.seen_events ≡ some r
      → All (Within r.expires_at) xs
      → get text_discrete k (run xs s).seen_events ≡ some r
  unfolding run
  run_kept [] s h b = h
  run_kept (x ∷ xs) s h b = run_kept xs (step x s) (step_kept x s h b.0) b.1

  look_again :
      (s : WebhookState) (now : ℕ)
      → get text_discrete k s.seen_events ≡ some r
      → now ≤ r.expires_at
      → look s k now ≡ (s, some (ack_response_with_code 0))
  unfolding look lookup lookup_record answer_seen reservation_of
  look_again s now h b = ground (arith, h, a)

-- What an acknowledged delivery did.
abbrev Delivered : WebhookState → EventEnvelope → Text → WebhookState → Type 0
Delivered s event k s' =
    (s'.queue ≡ s.queue ++ (event ∷ [])) × (s'.seen_events ≡ accept s.seen_events k)

after_send-Delivered :
    (s : WebhookState) (run : ActiveWebhookRun) (event : EventEnvelope) (k : Text)
    (sent : Result (Unit {0}) EventSendError)
    → (after_send s run event k sent).1 ≡ ack_response_with_code 0
    → Delivered s event k (after_send s run event k sent).0
unfolding after_send
after_send-Delivered s run event k (ok _) h = (refl, refl)
after_send-Delivered s run event k (err (adapter_mismatch x y)) h = cc
after_send-Delivered s run event k (err queue_full) h = cc
after_send-Delivered s run event k (err queue_closed) h = cc

deliver-Delivered :
    (s : WebhookState) (generation : ℕ) (event : EventEnvelope) (k : Text) (answer : QueueAnswer)
    (active : Option ActiveWebhookRun)
    → (deliver s generation event k answer active).1 ≡ ack_response_with_code 0
    → Delivered s event k (deliver s generation event k answer active).0
unfolding deliver inactive
deliver-Delivered s generation event k answer none h = cc
deliver-Delivered s generation event k answer (some run) h =
    elim (Bool-cases (run.generation == generation)) [
      | inl e ↦
          rw e
            (after_send-Delivered s run event k (try_send run.adapter_id event answer) (rw e at h))
      | inr e ↦ absurd (ground (arith, h, e))
    ]

after_reserve-Delivered :
    (s : WebhookState) (generation : ℕ) (event : EventEnvelope) (k : Text) (answer : QueueAnswer)
    (reservation : Reservation)
    → reservation ≡ reserved_new
    → (after_reserve s generation event k answer reservation).1 ≡ ack_response_with_code 0
    → Delivered s event k (after_reserve s generation event k answer reservation).0
unfolding after_reserve
after_reserve-Delivered s generation event k answer reserved_new n h =
    deliver-Delivered s generation event k answer s.active h
after_reserve-Delivered s generation event k answer reserved_pending n h = cc
after_reserve-Delivered s generation event k answer reserved_accepted n h = cc
after_reserve-Delivered s generation event k answer reserved_saturated n h = cc

-- An event whose admission reserves its identifier and is acknowledged was appended to the queue.
-- Through any further steps of any requests and runs, a dispatch with this identifier, while the
-- clock has not passed the expiry of the reservation, is acknowledged and changes nothing.
pub delivered_once :
    {D : Type 0} (map_dispatch : GatewayPayload D → Result (Option EventEnvelope) (Unit {0}))
    (times : WebhookTimes) (generation generation' expires_at signed_at now later : ℕ)
    (answer answer' : QueueAnswer) (s s' : WebhookState) (event : EventEnvelope) (k : Text)
    (xs : List WebhookStep) (p : GatewayPayload D)
    → (reserve s.seen_events k expires_at now).1 ≡ reserved_new
    → admit s generation event k expires_at now answer ≡ (s', ack_response_with_code 0)
    → All (Within expires_at) xs
    → later ≤ expires_at
    → p.id ≡ some k
    → is_bad_event_id k ≡ false
    → (s'.queue ≡ s.queue ++ (event ∷ []))
      × (dispatch_response map_dispatch times generation' signed_at later answer' (run xs s') p
          ≡ (run xs s', ack_response_with_code 0))
unfolding admit
delivered_once map_dispatch times generation generation' expires_at signed_at now later answer
      answer' s s' event k xs p n h within b i g =
    let t = reserve s.seen_events k expires_at now in
    let d =
      after_reserve-Delivered (record s { seen_events = t.0 }) generation event k answer t.1 n
        (ap (λ x. x.1) h) in
    let same : (after_reserve (record s { seen_events = t.0 }) generation event k answer t.1).0
        ≡ s' =
      ap (λ x. x.0) h in
    let done : SeenRecord = record { state = accepted; expires_at = expires_at } in
    let kept : get text_discrete k s'.seen_events ≡ some done =
      ap (λ x. get text_discrete k x.seen_events) (sym same)
      ∙ ap (get text_discrete k) d.1
      ∙ accept-reserve s.seen_events k expires_at now n in
    let still = run_kept k done refl xs s' kept within in
    (
      ap (λ x. x.queue) (sym same) ∙ d.0,
      dispatch_response-look map_dispatch times generation' signed_at later answer' (run xs s')
          (run xs s') p k (ack_response_with_code 0) i g
          (look_again k done refl (run xs s') later still b),
    )
