-- ===== src/Metrics/Counts.antt =====
-- Histories of the metrics: every call keeps the invariant.
use bro_know_my_qqbot.Prelude.{
  ℕ, ◌≤◌, refl, inl, inr, true, false, List, [], ◌∷◌, arith, saturating_add, usize_max, Bool-cases,
}
use bro_know_my_qqbot.Prelude.Text.{Text}
use bro_know_my_qqbot.Metrics.{
  ObserverInner, MetricsCall, new_observer, begin_run, end_run, in_u64, enqueued, went_offline,
  record_event_enqueued, record_handler, step, begin_run_call, end_run_call, set_phase_call,
  set_adapter_online, record_adapter_failure, enqueued_call, record_queue_depth,
  record_event_started, record_event_completed, record_duplicate, record_event_rejected,
  record_unattributed_rejection, handler_call, is_over, from_code,
}
use bro_know_my_qqbot.Metrics.Tally.{
  IsTallied, HasMaximum, IsCoherent, adapter-IsCoherent, handler-Each, same-IsCoherent,
  configure-IsCoherent, enqueued-HasMaximum, maximum_kept, wait_small, none-Each,
}

unfoldable pub run : List MetricsCall → ObserverInner → ObserverInner
unfolding step
run [] s = s
run (call ∷ calls) s = run calls (step call s)

begin_run-IsCoherent :
    (capacity : ℕ) (names : List Text) (s : ObserverInner)
    → IsCoherent s
    → IsCoherent (begin_run capacity names s).0
unfolding begin_run
begin_run-IsCoherent capacity names s c = elim (Bool-cases s.active_run) [
  | inl e ↦
      rw (e, begin_run) (same-IsCoherent s (record s { active_run = true }) c refl refl refl refl)
  | inr e ↦ rw (e, begin_run) (configure-IsCoherent capacity names (record s { active_run = true }))
]

end_run-IsCoherent : (s : ObserverInner) → IsCoherent s → IsCoherent (end_run s)
unfolding end_run
end_run-IsCoherent s c = elim (Bool-cases (is_over (from_code s.phase_code))) [
  | inl e ↦
      rw (e, end_run) (same-IsCoherent s (record s { active_run = false }) c refl refl refl refl)
  | inr e ↦
      rw (e, end_run)
        (same-IsCoherent s (record s { phase_code = 3; active_run = false }) c refl refl refl refl)
]

enqueued-IsCoherent :
    (adapter : Text) (wait depth : ℕ) (s : ObserverInner)
    → IsCoherent s
    → IsCoherent (record_event_enqueued adapter wait depth s)
unfolding record_event_enqueued
enqueued-IsCoherent adapter wait depth s c =
    let w : in_u64 wait ≤ usize_max = wait_small wait in
    let m =
      maximum_kept s.enqueue_wait_micros s.enqueue_wait_micros_max (in_u64 wait) w c.longest
        c.total in
    record {
      longest = m.0;
      total = m.1;
      adapters =
          adapter-IsCoherent adapter (enqueued (in_u64 wait)) s c
            (λ x. enqueued-HasMaximum (in_u64 wait) x w);
      handlers = c.handlers;
    }

step-IsCoherent : (call : MetricsCall) (s : ObserverInner) → IsCoherent s → IsCoherent (step call s)
unfolding step record_handler
step-IsCoherent (begin_run_call capacity names) s c = begin_run-IsCoherent capacity names s c
step-IsCoherent end_run_call s c = end_run-IsCoherent s c
step-IsCoherent (set_phase_call p) s c = same-IsCoherent s _ c refl refl refl refl
step-IsCoherent (set_adapter_online adapter online) s c = record {
  longest = c.longest;
  total = c.total;
  adapters = adapter-IsCoherent adapter (λ m. record m { online = online }) s c (λ x h. h);
  handlers = c.handlers;
}
step-IsCoherent (record_adapter_failure adapter kind) s c = record {
  longest = c.longest;
  total = c.total;
  adapters = adapter-IsCoherent adapter (went_offline kind) s c (λ x h. h);
  handlers = c.handlers;
}
step-IsCoherent (enqueued_call adapter wait depth) s c = enqueued-IsCoherent adapter wait depth s c
step-IsCoherent (record_queue_depth depth) s c = same-IsCoherent s _ c refl refl refl refl
step-IsCoherent record_event_started s c = same-IsCoherent s _ c refl refl refl refl
step-IsCoherent record_event_completed s c = same-IsCoherent s _ c refl refl refl refl
step-IsCoherent record_duplicate s c = same-IsCoherent s _ c refl refl refl refl
step-IsCoherent (record_event_rejected adapter) s c = record {
  longest = c.longest;
  total = c.total;
  adapters =
      adapter-IsCoherent adapter
        (λ m. record m { events_rejected = saturating_add m.events_rejected 1 }) s c (λ x h. h);
  handlers = c.handlers;
}
step-IsCoherent record_unattributed_rejection s c = same-IsCoherent s _ c refl refl refl refl
step-IsCoherent (handler_call name duration outcome) s c = record {
  longest = c.longest;
  total = c.total;
  adapters = c.adapters;
  handlers = handler-Each name duration outcome s c;
}

run-IsCoherent :
    (calls : List MetricsCall) (s : ObserverInner) → IsCoherent s → IsCoherent (run calls s)
unfolding run
run-IsCoherent [] s c = c
run-IsCoherent (call ∷ calls) s c = run-IsCoherent calls (step call s) (step-IsCoherent call s c)

new-IsCoherent : IsCoherent new_observer
new-IsCoherent = record {
  longest = omega arith;
  total = omega arith;
  adapters = none-Each HasMaximum;
  handlers = none-Each IsTallied;
}

-- After any history of calls on a new observer: each handler's invocations are the sum of its
-- successes, failures and timeouts, up to the largest machine number; and, over all and for each
-- adapter, the longest wait is at most the sum of the waits, which is a machine number.
pub run-new-IsCoherent : (calls : List MetricsCall) → IsCoherent (run calls new_observer)
run-new-IsCoherent calls = run-IsCoherent calls new_observer new-IsCoherent
