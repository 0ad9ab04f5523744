-- ===== src/Webhook.antt =====
-- crates/adapter-qqbot/src/webhook.rs: the table of seen events and `dispatch_response`, with
-- `EventSender::try_send` of crates/bot-core/src/adapter.rs. The mapping of a payload to an event,
-- the clock and the answer of the bounded queue are arguments. The guard of the table is held from
-- `reserve` to the end of a dispatch, so that part is one step; each `lookup` is a step of its own.
pub mod Dispatch
pub mod Seen
pub mod Settled
pub mod Replay
pub mod Unpending
mod Examples
use bro_know_my_qqbot.Prelude.{
  ℕ, String, Bool, true, false, ◌||◌, ◌==◌, Option, none, some, List, [], ◌∷◌, ◌++◌, ltb, leb,
  if◌then◌else◌, Result, ok, err, length, saturating_add,
}
use bro_know_my_qqbot.Prelude.Map.{get, insert, remove}
use bro_know_my_qqbot.Prelude.Text.{Text, text_discrete, same_text, codes, is_empty, trim, byte_len}

abbrev pub max_seen_events : ℕ
max_seen_events = 4096

abbrev pub max_event_id_bytes : ℕ
max_event_id_bytes = 512

pub data SeenState : Type 0 where
  pending accepted : SeenState

pub record SeenRecord : Type 0 where
  pub state : SeenState
  pub expires_at : ℕ

pub data Reservation : Type 0 where
  reserved_new reserved_pending reserved_accepted reserved_saturated : Reservation

abbrev pub SeenEvents : Type 0
SeenEvents = List (Text × SeenRecord)

reservation_of : SeenState → Reservation
reservation_of pending = reserved_pending
reservation_of accepted = reserved_accepted

lookup_record : Option SeenRecord → SeenEvents → Text → ℕ → SeenEvents × Option Reservation
unfolding reservation_of
lookup_record none s event_id now = (s, none)
lookup_record (some r) s event_id now =
    if ltb r.expires_at now
    then (remove text_discrete event_id s, none)
    else (s, some (reservation_of r.state))

unfoldable pub lookup : SeenEvents → Text → ℕ → SeenEvents × Option Reservation
unfolding lookup_record
lookup s event_id now = lookup_record (get text_discrete event_id s) s event_id now

-- `records.retain(|_, record| record.expires_at >= now)`
retain : ℕ → SeenEvents → SeenEvents
retain now [] = []
retain now (e ∷ s) = let rest = retain now s in if leb now (e.1).expires_at then e ∷ rest else rest

reserve_absent : SeenEvents → Text → ℕ → ℕ → SeenEvents × Reservation
unfolding retain
reserve_absent s event_id expires_at now =
    let kept = if leb max_seen_events (length s) then retain now s else s in
    if leb max_seen_events (length kept) then (kept, reserved_saturated) else (
      insert text_discrete event_id (record { state = pending; expires_at = expires_at }) kept,
      reserved_new,
    )

reserve_record : Option SeenRecord → SeenEvents → Text → ℕ → ℕ → SeenEvents × Reservation
unfolding reserve_absent reservation_of
reserve_record none s event_id expires_at now = reserve_absent s event_id expires_at now
reserve_record (some r) s event_id expires_at now =
    if leb now r.expires_at
    then (s, reservation_of r.state)
    else reserve_absent (remove text_discrete event_id s) event_id expires_at now

unfoldable pub reserve : SeenEvents → Text → ℕ → ℕ → SeenEvents × Reservation
unfolding reserve_record
reserve s event_id expires_at now =
    reserve_record (get text_discrete event_id s) s event_id expires_at now

accept_record : Option SeenRecord → SeenEvents → Text → SeenEvents
accept_record none s event_id = s
accept_record (some r) s event_id = elim r.state [
  | pending ↦ insert text_discrete event_id (record r { state = accepted }) s
  | accepted ↦ s
]

unfoldable pub accept : SeenEvents → Text → SeenEvents
unfolding accept_record
accept s event_id = accept_record (get text_discrete event_id s) s event_id

release_record : Option SeenRecord → SeenEvents → Text → SeenEvents
release_record none s event_id = s
release_record (some r) s event_id = elim r.state [
  | pending ↦ remove text_discrete event_id s
  | accepted ↦ s
]

unfoldable pub release : SeenEvents → Text → SeenEvents
unfolding release_record
release s event_id = release_record (get text_discrete event_id s) s event_id

pub data Response : Type 0 where
  ack_response_with_code : ℕ → Response
  callback_error : ℕ → String → Response

pub record EventEnvelope : Type 0 where
  pub adapter : Text
  pub id : Text

pub data EventSendError : Type 0 where
  adapter_mismatch : Text → Text → EventSendError
  queue_full queue_closed : EventSendError

-- What the bounded queue answers to an attempt to send.
pub data QueueAnswer : Type 0 where
  queued full closed : QueueAnswer

pub record ActiveWebhookRun : Type 0 where
  pub generation : ℕ
  pub adapter_id : Text
  pub terminal_error : Bool

-- `queue` holds what the runtime was handed, and `terminal_errors` what was sent on `terminal_error`.
pub record WebhookState : Type 0 where
  pub seen_events : SeenEvents
  pub active : Option ActiveWebhookRun
  pub queue : List EventEnvelope
  pub terminal_errors : List (Text × Text)

-- `EventSender::try_send`, but for the metrics.
unfoldable pub try_send : Text → EventEnvelope → QueueAnswer → Result (Unit {0}) EventSendError
try_send adapter_id event answer =
    if same_text event.adapter adapter_id
    then elim answer [ queued ↦ ok tt | full ↦ err queue_full | closed ↦ err queue_closed ]
    else err (adapter_mismatch adapter_id event.adapter)

after_send :
    WebhookState
    → ActiveWebhookRun
    → EventEnvelope
    → Text
    → Result (Unit {0}) EventSendError
    → WebhookState × Response
after_send s run event event_id (ok _) = (
  record s { seen_events = accept s.seen_events event_id; queue = s.queue ++ (event ∷ []) },
  ack_response_with_code 0,
)
after_send s run event event_id (err (adapter_mismatch expected actual)) = (
  record s {
    seen_events = release s.seen_events event_id;
    active = some (record run { terminal_error = false });
    terminal_errors =
        if run.terminal_error
        then s.terminal_errors ++ ((expected, actual) ∷ [])
        else s.terminal_errors;
  },
  callback_error 503 "webhook adapter identity is invalid",
)
after_send s run event event_id (err _) = (
  record s { seen_events = release s.seen_events event_id },
  callback_error 503 "runtime event queue is unavailable",
)

inactive : WebhookState → Text → WebhookState × Response
inactive s event_id = (
  record s { seen_events = release s.seen_events event_id },
  callback_error 503 "runtime is not accepting events",
)

deliver :
    WebhookState
    → ℕ
    → EventEnvelope
    → Text
    → QueueAnswer
    → Option ActiveWebhookRun
    → WebhookState × Response
unfolding after_send inactive
deliver s generation event event_id answer none = inactive s event_id
deliver s generation event event_id answer (some run) =
    if run.generation == generation
    then after_send s run event event_id (try_send run.adapter_id event answer)
    else inactive s event_id

after_reserve :
    WebhookState → ℕ → EventEnvelope → Text → QueueAnswer → Reservation → WebhookState × Response
unfolding deliver
after_reserve s generation event event_id answer reserved_new =
    deliver s generation event event_id answer s.active
after_reserve s generation event event_id answer reserved_accepted = (s, ack_response_with_code 0)
after_reserve s generation event event_id answer reserved_pending =
    (s, callback_error 503 "matching callback is still being accepted")
after_reserve s generation event event_id answer reserved_saturated =
    (s, callback_error 503 "callback deduplication capacity is exhausted")

-- The end of `dispatch_response`, from the lock that it reserves under.
unfoldable pub admit :
    WebhookState → ℕ → EventEnvelope → Text → ℕ → ℕ → QueueAnswer → WebhookState × Response
unfolding after_reserve
admit s generation event event_id expires_at now answer =
    let (seen, reservation) = reserve s.seen_events event_id expires_at now in
    after_reserve (record s { seen_events = seen }) generation event event_id answer reservation
