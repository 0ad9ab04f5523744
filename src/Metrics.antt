-- ===== src/Metrics.antt =====
-- Models crates/bot-core/src/metrics.rs: the counters of the runtime, each method as one step. The
-- text that is rendered for Prometheus is left out. Names are texts; durations are microseconds.
pub mod Tally
pub mod Counts
mod Examples
use bro_know_my_qqbot.Prelude.{
  ℕ, ◌+◌, ◌-◌, Bool, true, false, ◌&&◌, Option, none, some, List, [], ◌∷◌, ltb, ◌==◌, if◌then◌else◌,
  length, saturating_add, usize_max,
}
use bro_know_my_qqbot.Prelude.Text.{Text, text_discrete}
use bro_know_my_qqbot.Prelude.Map

abbrev pub max_adapter_metric_series : ℕ
max_adapter_metric_series = 256

pub data RuntimePhase : Type 0 where
  starting : RuntimePhase
  running : RuntimePhase
  shutting_down : RuntimePhase
  stopped : RuntimePhase
  failed : RuntimePhase

abbrev pub code : RuntimePhase → ℕ
code starting = 0
code running = 1
code shutting_down = 2
code stopped = 3
code failed = 4

unfoldable pub from_code : ℕ → RuntimePhase
from_code c =
    if c == 0
    then starting
    else if c == 1
    then running
    else if c == 2
    then shutting_down
    else if c == 3
    then stopped
    else failed

pub data AdapterFailureKind : Type 0 where
  configuration : AdapterFailureKind
  transport : AdapterFailureKind
  action : AdapterFailureKind
  action_unknown : AdapterFailureKind
  event_queue_closed : AdapterFailureKind
  event_adapter_mismatch : AdapterFailureKind

pub record AdapterMetrics : Type 0 where
  pub online : Bool
  pub events_received : ℕ
  pub events_rejected : ℕ
  pub enqueue_wait_micros : ℕ
  pub enqueue_wait_micros_max : ℕ
  pub failures : ℕ
  pub last_failure : Option AdapterFailureKind

abbrev pub no_adapter_metrics : AdapterMetrics
no_adapter_metrics = record {
  online = false;
  events_received = 0;
  events_rejected = 0;
  enqueue_wait_micros = 0;
  enqueue_wait_micros_max = 0;
  failures = 0;
  last_failure = none;
}

pub record HandlerMetrics : Type 0 where
  pub invocations : ℕ
  pub successes : ℕ
  pub failures : ℕ
  pub timeouts : ℕ
  pub duration_micros : ℕ

abbrev pub no_handler_metrics : HandlerMetrics
no_handler_metrics = record {
  invocations = 0;
  successes = 0;
  failures = 0;
  timeouts = 0;
  duration_micros = 0;
}

pub record ObserverInner : Type 0 where
  pub active_run : Bool
  pub phase_code : ℕ
  pub queue_capacity : ℕ
  pub queue_depth : ℕ
  pub queue_depth_observed_high_watermark : ℕ
  pub active_events : ℕ
  pub events_received : ℕ
  pub events_completed : ℕ
  pub duplicate_events : ℕ
  pub rejected_events : ℕ
  pub enqueue_wait_micros : ℕ
  pub enqueue_wait_micros_max : ℕ
  pub adapters : List (Text × AdapterMetrics)
  pub handlers : List (Text × HandlerMetrics)

abbrev pub new_observer : ObserverInner
new_observer = record {
  active_run = false;
  phase_code = code stopped;
  queue_capacity = 0;
  queue_depth = 0;
  queue_depth_observed_high_watermark = 0;
  active_events = 0;
  events_received = 0;
  events_completed = 0;
  duplicate_events = 0;
  rejected_events = 0;
  enqueue_wait_micros = 0;
  enqueue_wait_micros_max = 0;
  adapters = [];
  handlers = [];
}

pub data HealthStatus : Type 0 where
  healthy : HealthStatus
  degraded : HealthStatus
  unhealthy : HealthStatus

abbrev pub count_online : List (Text × AdapterMetrics) → ℕ
count_online [] = 0
count_online (e ∷ m) = (if e.1.online then 1 else 0) + count_online m

-- `health`: the status, by the phase and the numbers of adapters that are online and known.
abbrev pub status_of : RuntimePhase → ℕ → ℕ → HealthStatus
status_of running online configured =
    if ltb 0 configured && online == configured then healthy else degraded
status_of starting online configured = degraded
status_of shutting_down online configured = degraded
status_of stopped online configured = unhealthy
status_of failed online configured = unhealthy

unfoldable pub health : ObserverInner → HealthStatus
unfolding from_code
health s = status_of (from_code s.phase_code) (count_online s.adapters) (length s.adapters)

-- The entries of the adapters of a run.
unfoldable pub register : List Text → List (Text × AdapterMetrics) → List (Text × AdapterMetrics)
unfolding Map.get Map.insert text_discrete
register [] m = m
register (adapter ∷ adapters) m = elim (Map.get text_discrete adapter m) [
  | none ↦ register adapters (Map.insert text_discrete adapter no_adapter_metrics m)
  | some _ ↦ register adapters m
]

unfoldable pub configure : ℕ → List Text → ObserverInner → ObserverInner
unfolding register
configure queue_capacity adapters s = record new_observer {
  active_run = s.active_run;
  phase_code = s.phase_code;
  queue_capacity = queue_capacity;
  adapters = register adapters [];
}

unfoldable pub begin_run : ℕ → List Text → ObserverInner → ObserverInner × Bool
unfolding configure
begin_run queue_capacity adapters s =
    if s.active_run
    then (s, false)
    else (configure queue_capacity adapters (record s { active_run = true }), true)

abbrev pub set_phase : RuntimePhase → ObserverInner → ObserverInner
set_phase p s = record s { phase_code = code p }

abbrev pub is_over : RuntimePhase → Bool
is_over stopped = true
is_over failed = true
is_over _ = false

unfoldable pub end_run : ObserverInner → ObserverInner
unfolding from_code
end_run s =
    if is_over (from_code s.phase_code)
    then record s { active_run = false }
    else record (set_phase stopped s) { active_run = false }

unfoldable pub update_adapter_metrics :
    Text
    → (AdapterMetrics → AdapterMetrics)
    → List (Text × AdapterMetrics)
    → List (Text × AdapterMetrics)
unfolding Map.get Map.insert text_discrete
update_adapter_metrics adapter update m = elim (Map.get text_discrete adapter m) [
  | some metrics ↦ Map.insert text_discrete adapter (update metrics) m
  | none ↦
      if ltb (length m) max_adapter_metric_series
      then Map.insert text_discrete adapter (update no_adapter_metrics) m
      else m
]

abbrev pub larger : ℕ → ℕ → ℕ
larger a b = if ltb a b then b else a

-- `u64::try_from(…).unwrap_or(u64::MAX)`.
abbrev pub in_u64 : ℕ → ℕ
in_u64 n = if ltb usize_max n then usize_max else n

pub data HandlerOutcome : Type 0 where
  success : HandlerOutcome
  failure : HandlerOutcome
  timeout : HandlerOutcome

unfoldable pub count_outcome : HandlerOutcome → HandlerMetrics → HandlerMetrics
unfolding saturating_add
count_outcome success m = record m { successes = saturating_add m.successes 1 }
count_outcome failure m = record m { failures = saturating_add m.failures 1 }
count_outcome timeout m = record m { timeouts = saturating_add m.timeouts 1 }

abbrev pub metrics_or_default : Option HandlerMetrics → HandlerMetrics
metrics_or_default none = no_handler_metrics
metrics_or_default (some m) = m

-- The updates of the metrics of an adapter.
abbrev pub enqueued : ℕ → AdapterMetrics → AdapterMetrics
enqueued wait m = record m {
  events_received = saturating_add m.events_received 1;
  enqueue_wait_micros = saturating_add m.enqueue_wait_micros wait;
  enqueue_wait_micros_max = larger m.enqueue_wait_micros_max wait;
}

abbrev pub went_offline : AdapterFailureKind → AdapterMetrics → AdapterMetrics
went_offline kind m = record m {
  online = false;
  failures = saturating_add m.failures 1;
  last_failure = some kind;
}

unfoldable pub record_event_enqueued : Text → ℕ → ℕ → ObserverInner → ObserverInner
unfolding update_adapter_metrics saturating_add
record_event_enqueued adapter enqueue_wait depth s =
    let wait : ℕ = in_u64 enqueue_wait in
    record s {
      events_received = saturating_add s.events_received 1;
      enqueue_wait_micros = saturating_add s.enqueue_wait_micros wait;
      enqueue_wait_micros_max = larger s.enqueue_wait_micros_max wait;
      queue_depth = depth;
      queue_depth_observed_high_watermark = larger s.queue_depth_observed_high_watermark depth;
      adapters = update_adapter_metrics adapter (enqueued wait) s.adapters;
    }

unfoldable pub record_handler : Text → ℕ → HandlerOutcome → ObserverInner → ObserverInner
unfolding saturating_add count_outcome Map.get Map.insert text_discrete
record_handler name duration outcome s =
    let m = metrics_or_default (Map.get text_discrete name s.handlers) in
    record s {
      handlers =
          Map.insert text_discrete name
            (count_outcome outcome (record m {
              invocations = saturating_add m.invocations 1;
              duration_micros = saturating_add m.duration_micros (in_u64 duration);
            }))
            s.handlers;
    }

-- The methods that change counters.
pub data MetricsCall : Type 0 where
  begin_run_call : ℕ → List Text → MetricsCall
  end_run_call : MetricsCall
  set_phase_call : RuntimePhase → MetricsCall
  set_adapter_online : Text → Bool → MetricsCall
  record_adapter_failure : Text → AdapterFailureKind → MetricsCall
  enqueued_call : Text → ℕ → ℕ → MetricsCall
  record_queue_depth : ℕ → MetricsCall
  record_event_started : MetricsCall
  record_event_completed : MetricsCall
  record_duplicate : MetricsCall
  record_event_rejected : Text → MetricsCall
  record_unattributed_rejection : MetricsCall
  handler_call : Text → ℕ → HandlerOutcome → MetricsCall

unfoldable pub step : MetricsCall → ObserverInner → ObserverInner
unfolding begin_run end_run update_adapter_metrics record_event_enqueued record_handler
    saturating_add
step (begin_run_call queue_capacity adapters) s = (begin_run queue_capacity adapters s).0
step end_run_call s = end_run s
step (set_phase_call p) s = set_phase p s
step (set_adapter_online adapter online) s = record s {
  adapters = update_adapter_metrics adapter (λ m. record m { online = online }) s.adapters;
}
step (record_adapter_failure adapter kind) s = record s {
  adapters = update_adapter_metrics adapter (went_offline kind) s.adapters;
}
step (enqueued_call adapter wait depth) s = record_event_enqueued adapter wait depth s
step (record_queue_depth depth) s = record s { queue_depth = depth }
step record_event_started s = record s { active_events = saturating_add s.active_events 1 }
step record_event_completed s = record s {
  active_events = s.active_events - 1;
  events_completed = saturating_add s.events_completed 1;
}
step record_duplicate s = record s { duplicate_events = saturating_add s.duplicate_events 1 }
step (record_event_rejected adapter) s = record s {
  rejected_events = saturating_add s.rejected_events 1;
  adapters =
      update_adapter_metrics adapter
        (λ m. record m { events_rejected = saturating_add m.events_rejected 1 }) s.adapters;
}
step record_unattributed_rejection s = record s {
  rejected_events = saturating_add s.rejected_events 1;
}
step (handler_call name duration outcome) s = record_handler name duration outcome s
