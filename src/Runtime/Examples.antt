-- ===== src/Runtime/Examples.antt =====
-- The life of a claim, at concrete inputs.
use bro_know_my_qqbot.Prelude.{
  ℕ, zero, suc, ◌+◌, ◌≤◌, ◌<◌, ◌≡◌, refl, String, true, false, ◌&&◌, none, some, [], ◌∷◌, Result,
  ok, err, if◌then◌else◌, ◌==◌, count, any, arith, ℕ_discrete,
}
use bro_know_my_qqbot.Prelude.Map.{get, insert, remove}
use bro_know_my_qqbot.Dedup.{
  DedupClaim, DedupError, MemoryState, initial_state, in_flight, committed, entry_of, key_discrete,
}
use bro_know_my_qqbot.Router.Events.{HandlerError, failed}
use bro_know_my_qqbot.Runtime.{
  claim_discrete, processing, Awaited, completed, timed_out, dropped, Environment, RuntimeState,
  tracked_state, handler_call, commit_call, ack_call, set_state, mark, track_claim,
  mark_commit_pending, mark_acknowledgement_pending, untrack_claim, pause, acquire_permit,
  try_again, finalize_next, finalize_loop, acknowledge_next, acknowledge_loop, try_release,
  try_commit, try_acknowledge, commit_claim_with_retry, release_claim_with_retry,
  acknowledge_event_with_retry, run_handler, handlers_next, run_handlers,
}
use bro_know_my_qqbot.Runtime.Recovery.{
  event_task, process_claimed_event, retry_pending, retry, recover_cancelled_claim, recover_entry,
  recover_by, after_handlers, after_commit, after_acknowledgement, untrack_succeeded,
  after_recommit, acknowledge_recovered,
}
use bro_know_my_qqbot.Runtime.Protocol.{IsInOrder}
use bro_know_my_qqbot.Runtime.Lifecycle.{lifetime, lifetime-IsInOrder}
use bro_know_my_qqbot.Runtime.Once.{is_handler, is_release, is_commit, lifetime_once}
use bro_know_my_qqbot.Runtime.Outcome.{processed, process-commits, process-releases}

program : Unit {0}
unfolding get insert remove ℕ_discrete key_discrete claim_discrete set_state mark track_claim
    mark_commit_pending mark_acknowledgement_pending untrack_claim pause acquire_permit try_again
    finalize_next finalize_loop acknowledge_next acknowledge_loop try_release try_commit
    try_acknowledge commit_claim_with_retry release_claim_with_retry acknowledge_event_with_retry
    run_handler handlers_next run_handlers event_task process_claimed_event retry_pending retry
    recover_cancelled_claim recover_entry recover_by after_handlers after_commit
    after_acknowledgement untrack_succeeded after_recommit acknowledge_recovered
program = tt

abbrev hello_claim : DedupClaim
hello_claim = record { key = record { adapter = 1 ∷ []; event = 2 ∷ [] }; token = 9 }

abbrev hello_store : MemoryState
hello_store = record initial_state { entries = (hello_claim.key, in_flight 9) ∷ [] }

abbrev hello_state : RuntimeState MemoryState ℕ
hello_state = record {
  world = hello_store;
  outstanding = (hello_claim, record { state = processing; event = 5; adapter = 0 }) ∷ [];
  calls = [];
}

abbrev succeeds : ℕ → ℕ → Awaited (Result (Unit {0}) HandlerError)
succeeds n event = completed (ok tt)

abbrev second_fails : ℕ → ℕ → Awaited (Result (Unit {0}) HandlerError)
second_fails zero event = completed (ok tt)
second_fails (suc n) event = completed (err (failed "no"))

abbrev acknowledges : ℕ → ℕ → Awaited (Result (Unit {0}) String)
acknowledges adapter event = completed (ok tt)

hello_tracked : tracked_state hello_state hello_claim ≡ some processing
unfolding program
hello_tracked = refl

hello_flight : entry_of hello_store hello_claim.key ≡ some (in_flight 9)
unfolding program
hello_flight = refl

process-commits_example :
    ((processed 8 0 succeeds acknowledges 0 5 2 hello_state hello_claim).1 ≡ some none)
    × (entry_of
          ((processed 8 0 succeeds acknowledges 0 5 2 hello_state hello_claim).0).world
          hello_claim.key
        ≡ some (committed 9))
    × (tracked_state
          (processed 8 0 succeeds acknowledges 0 5 2 hello_state hello_claim).0
          hello_claim
        ≡ none)
process-commits_example =
    process-commits 8 0 succeeds acknowledges 0 5 2 hello_state hello_claim hello_flight (λ i. refl)
      refl

before_second : (i : ℕ) → i < 1 → second_fails i 5 ≡ completed (ok tt)
before_second zero l = refl
before_second (suc i) l = absurd (omega arith)

process-releases_example :
    ((processed 8 0 second_fails acknowledges 0 5 2 hello_state hello_claim).1 ≡ some none)
    × (entry_of
          ((processed 8 0 second_fails acknowledges 0 5 2 hello_state hello_claim).0).world
          hello_claim.key
        ≡ none)
    × (tracked_state
          (processed 8 0 second_fails acknowledges 0 5 2 hello_state hello_claim).0
          hello_claim
        ≡ none)
process-releases_example =
    process-releases 8 0 second_fails acknowledges 0 5 2 hello_state hello_claim 1 (omega arith)
      before_second refl hello_flight

-- A world that counts its calls. The first commit is dropped with the task, the next one times out,
-- and the first acknowledgement fails.
abbrev rough_commit : ℕ → Awaited (Result (Unit {0}) DedupError)
rough_commit n = if n == 2 then dropped else if n == 3 then timed_out else completed (ok tt)

abbrev rough : Environment ℕ ℕ
rough = record {
  handle = λ n event w. (w + 1, completed (ok tt));
  claim = λ key w. (w + 1, timed_out);
  commit = λ c w. (w + 1, rough_commit w);
  release = λ c w. (w + 1, completed (ok tt));
  event_handled =
      λ adapter event w. (w + 1, if w == 5 then completed (err "late") else completed (ok tt));
  sleep = λ w. (w, true);
  acquire = λ w. (w, true);
}

abbrev rough_state : RuntimeState ℕ ℕ
rough_state = record { world = 0; outstanding = hello_state.outstanding; calls = [] }

rough_life :
    (lifetime 2 hello_claim rough 0 5 3 1 rough_state).calls
    ≡ handler_call 0 true
      ∷ handler_call 1 true
      ∷ commit_call false
      ∷ commit_call false
      ∷ commit_call true
      ∷ ack_call false
      ∷ ack_call true
      ∷ []
unfolding program
rough_life = refl

rough_tracked : tracked_state rough_state hello_claim ≡ some processing
unfolding program
rough_tracked = refl

lifetime-IsInOrder_example :
    IsInOrder 2 hello_claim (lifetime 2 hello_claim rough 0 5 3 1 rough_state)
lifetime-IsInOrder_example =
    lifetime-IsInOrder 2 hello_claim rough 0 5 3 1 rough_state refl rough_tracked

lifetime_once_example :
    (count (is_handler 1) (lifetime 2 hello_claim rough 0 5 3 1 rough_state).calls ≤ 1)
    × ((any is_release (lifetime 2 hello_claim rough 0 5 3 1 rough_state).calls
          && any is_commit (lifetime 2 hello_claim rough 0 5 3 1 rough_state).calls)
        ≡ false)
lifetime_once_example = lifetime_once 2 hello_claim rough 0 5 3 1 1 rough_state refl rough_tracked
