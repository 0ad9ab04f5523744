-- ===== src/Metrics/Examples.antt =====
-- Runs of the metrics, and their theorem at a concrete history.
use bro_know_my_qqbot.Prelude.{◌≡◌, refl, List, [], ◌∷◌, saturating_add, true, false}
use bro_know_my_qqbot.Prelude.Text.{codes, text_discrete}
use bro_know_my_qqbot.Prelude.Map
use bro_know_my_qqbot.Metrics.{
  MetricsCall, new_observer, from_code, health, register, configure, begin_run, end_run,
  update_adapter_metrics, count_outcome, record_event_enqueued, record_handler, step,
  begin_run_call, set_phase_call, set_adapter_online, enqueued_call, handler_call, running, success,
  timeout, healthy, degraded,
}
use bro_know_my_qqbot.Metrics.Tally.{IsCoherent}
use bro_know_my_qqbot.Metrics.Counts.{run, run-new-IsCoherent}

program : Unit {0}
unfolding Map.get Map.insert text_discrete saturating_add from_code health register configure
    begin_run end_run update_adapter_metrics count_outcome record_event_enqueued record_handler step
    run
program = tt

abbrev history : List MetricsCall
history =
    begin_run_call 8 (codes "qq" ∷ [])
    ∷ set_phase_call running
    ∷ enqueued_call (codes "qq") 7 1
    ∷ handler_call (codes "echo") 5 success
    ∷ handler_call (codes "echo") 9 timeout
    ∷ []

run-new-IsCoherent_example : IsCoherent (run history new_observer)
run-new-IsCoherent_example = run-new-IsCoherent history

offline : health (run history new_observer) ≡ degraded
unfolding program
offline = refl

online : health (step (set_adapter_online (codes "qq") true) (run history new_observer)) ≡ healthy
unfolding program
online = refl

second_run_refused : (begin_run 4 [] (run history new_observer)).1 ≡ false
unfolding program
second_run_refused = refl
