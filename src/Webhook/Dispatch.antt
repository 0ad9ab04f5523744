-- ===== src/Webhook/Dispatch.antt =====
-- `dispatch_response` as one sequence: the checks of the identifier, the lookups, and the admission.
-- The clock is an argument, so the answer 500 of an invalid system clock is left out.
use bro_know_my_qqbot.Prelude.{
  ℕ, Bool, false, ◌||◌, Option, none, some, ltb, if◌then◌else◌, Result, ok, err, saturating_add,
  ◌≡◌,
}
use bro_know_my_qqbot.Prelude.Text.{Text, same_text, codes, is_empty, trim, byte_len}
use bro_know_my_qqbot.Webhook.{
  Reservation, reserved_pending, reserved_accepted, lookup, Response, ack_response_with_code,
  callback_error, EventEnvelope, QueueAnswer, WebhookState, admit, max_event_id_bytes,
}

-- `GatewayPayload`: `d` stands for the fields that only the mapping reads.
pub record GatewayPayload (D : Type 0) : Type 0 where
  pub id : Option Text
  pub t : Option Text
  pub d : D

pub record WebhookTimes : Type 0 where
  pub timestamp_tolerance : ℕ
  pub request_timeout : ℕ

unfoldable pub is_bad_event_id : Text → Bool
is_bad_event_id event_id = is_empty (trim event_id) || ltb max_event_id_bytes (byte_len event_id)

abbrev bad_event_id : Response
bad_event_id = callback_error 400 "dispatch event ID is missing or invalid"

is_interaction : Option Text → Bool
is_interaction none = false
is_interaction (some t) = same_text t (codes "INTERACTION_CREATE")

-- What a lookup already answers.
unfoldable pub answer_seen : Option Reservation → Option Response
answer_seen (some reserved_accepted) = some (ack_response_with_code 0)
answer_seen (some reserved_pending) =
    some (callback_error 503 "matching callback is still being accepted")
answer_seen _ = none

unfoldable pub look : WebhookState → Text → ℕ → WebhookState × Option Response
look s event_id now =
    let (seen, reservation) = lookup s.seen_events event_id now in
    (record s { seen_events = seen }, answer_seen reservation)

look_if : WebhookState → Option Text → ℕ → WebhookState × Option Response
look_if s none now = (s, none)
look_if s (some event_id) now = look s event_id now

abbrev larger : ℕ → ℕ → ℕ
larger a b = if ltb a b then b else a

-- `expires_at` of a dispatch that was signed at `signed_at`.
unfoldable pub expiry : WebhookTimes → ℕ → ℕ → ℕ
expiry times signed_at now =
    larger (saturating_add signed_at times.timestamp_tolerance)
      (saturating_add now times.request_timeout)

module _ {D : Type 0} where
  outer_event_id : GatewayPayload D → Option Text → Result (GatewayPayload D × Option Text) Response
  unfolding is_interaction
  outer_event_id p none = ok (p, none)
  outer_event_id p (some event_id) =
      if is_bad_event_id event_id
      then if is_interaction p.t then ok (record p { id = none }, none) else err bad_event_id
      else ok (p, some event_id)

module _ {D : Type 0} (map_dispatch : GatewayPayload D → Result (Option EventEnvelope) (Unit {0}))
    (times : WebhookTimes) (generation signed_at now : ℕ) (answer : QueueAnswer) where
  admit_unseen : EventEnvelope → Text → WebhookState × Option Response → WebhookState × Response
  admit_unseen event event_id (s, some response) = (s, response)
  admit_unseen event event_id (s, none) =
      admit s generation event event_id (expiry times signed_at now) now answer

  -- `uses_mapped_fallback`: an event without an outer identifier is looked up by its own.
  identified : WebhookState → EventEnvelope → Option Text → WebhookState × Response
  unfolding admit_unseen
  identified s event (some event_id) =
      if is_bad_event_id event_id then (s, bad_event_id) else admit_unseen event event_id (s, none)
  identified s event none =
      if is_bad_event_id event.id
      then (s, bad_event_id)
      else admit_unseen event event.id (look s event.id now)

  on_mapped :
      WebhookState
      → Option Text
      → Result (Option EventEnvelope) (Unit {0})
      → WebhookState × Response
  unfolding identified
  on_mapped s outer (err _) = (s, ack_response_with_code 1)
  on_mapped s outer (ok none) = (s, ack_response_with_code 0)
  on_mapped s outer (ok (some event)) = identified s event outer

  after_look :
      GatewayPayload D → Option Text → WebhookState × Option Response → WebhookState × Response
  unfolding on_mapped
  after_look p outer (s, some response) = (s, response)
  after_look p outer (s, none) = on_mapped s outer (map_dispatch p)

  after_outer :
      WebhookState → Result (GatewayPayload D × Option Text) Response → WebhookState × Response
  unfolding after_look look_if
  after_outer s (err response) = (s, response)
  after_outer s (ok (p, outer)) = after_look p outer (look_if s outer now)

  -- `dispatch_response` after the clock was read.
  unfoldable pub dispatch_response : WebhookState → GatewayPayload D → WebhookState × Response
  unfolding after_outer outer_event_id
  dispatch_response s p = after_outer s (outer_event_id p p.id)

  -- A dispatch whose identifier is already answered by its lookup goes no further.
  pub dispatch_response-look :
      (s s' : WebhookState) (p : GatewayPayload D) (event_id : Text) (response : Response)
      → p.id ≡ some event_id
      → is_bad_event_id event_id ≡ false
      → look s event_id now ≡ (s', some response)
      → dispatch_response s p ≡ (s', response)
  unfolding dispatch_response after_look look_if
  dispatch_response-look s s' p event_id response i g h = rw (i, g, h)
