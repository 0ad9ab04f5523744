-- ===== src/Webhook/Examples.antt =====
-- A webhook event that is delivered once, at concrete inputs.
use bro_know_my_qqbot.Prelude.{
  ℕ, ◌≡◌, refl, true, Option, none, some, List, [], ◌∷◌, ◌++◌, Result, ok, arith, ℕ_discrete,
  saturating_add,
}
use bro_know_my_qqbot.Prelude.Map.{get, insert, remove}
use bro_know_my_qqbot.Prelude.Text.{
  text_discrete, is_whitespace, byte_len, trim_start, trim_end, codes,
}
use bro_know_my_qqbot.Webhook.{
  accepted, lookup, reserve, accept, release, ack_response_with_code, EventEnvelope, queued, full,
  ActiveWebhookRun, WebhookState, try_send, admit,
}
use bro_know_my_qqbot.Webhook.Dispatch.{
  GatewayPayload, WebhookTimes, is_bad_event_id, look, answer_seen, expiry, dispatch_response,
}
use bro_know_my_qqbot.Webhook.Settled.{IsSettled}
use bro_know_my_qqbot.Webhook.Unpending.{run-empty-IsSettled}
use bro_know_my_qqbot.Webhook.Replay.{
  WebhookStep, looks, admits, activates, run, step, delivered_once,
}

program : Unit {0}
unfolding get insert remove text_discrete is_whitespace byte_len trim_start trim_end ℕ_discrete
    lookup reserve accept release try_send admit is_bad_event_id look answer_seen expiry
    dispatch_response run step saturating_add
program = tt

abbrev first_run : ActiveWebhookRun
first_run = record { generation = 1; adapter_id = codes "qq"; terminal_error = true }

abbrev empty_state : WebhookState
empty_state = record { seen_events = []; active = some first_run; queue = []; terminal_errors = [] }

abbrev hello : EventEnvelope
hello = record { adapter = codes "qq"; id = codes "e1" }

abbrev hello_sent : WebhookState
hello_sent = record empty_state {
  seen_events = (codes "e1", record { state = accepted; expires_at = 130 }) ∷ [];
  queue = hello ∷ [];
}

abbrev hello_payload : GatewayPayload ℕ
hello_payload = record { id = some (codes "e1"); t = none; d = 0 }

abbrev some_times : WebhookTimes
some_times = record { timestamp_tolerance = 30; request_timeout = 10 }

abbrev to_hello : GatewayPayload ℕ → Result (Option EventEnvelope) (Unit {0})
to_hello p = ok (some hello)

-- The first dispatch of an event is the admission below.
first_dispatch :
    dispatch_response to_hello some_times 1 100 101 queued empty_state hello_payload
    ≡ (hello_sent, ack_response_with_code 0)
unfolding program
first_dispatch = refl

admitted :
    admit empty_state 1 hello (codes "e1") 130 101 queued ≡ (hello_sent, ack_response_with_code 0)
unfolding program
admitted = refl

abbrev between : List WebhookStep
between =
    admits 1 (record hello { id = codes "e2" }) (codes "e2") 135 105 full
    ∷ activates none
    ∷ looks (codes "e1") 110
    ∷ []

delivered_once_example :
    (hello ∷ [] ≡ [] ++ (hello ∷ []))
    × (dispatch_response to_hello some_times 1 100 120 queued (run between hello_sent) hello_payload
        ≡ (run between hello_sent, ack_response_with_code 0))
unfolding program
delivered_once_example =
    delivered_once to_hello some_times 1 1 130 100 101 120 queued queued empty_state hello_sent
      hello (codes "e1") between hello_payload refl admitted (omega arith, (tt, (omega arith, tt)))
      (omega arith) refl refl

abbrev whole_history : List WebhookStep
whole_history = admits 1 hello (codes "e1") 130 101 queued ∷ between

run-empty-IsSettled_example : IsSettled (run whole_history empty_state).seen_events
run-empty-IsSettled_example = run-empty-IsSettled whole_history empty_state refl
