-- ===== src/Runtime/Recovery.antt =====
-- The processing of a claimed event, and every way in which its claim is finalized later: by the
-- task itself in the background, by the recovery supervisor after the task was dropped, and by
-- the shutdown of the runtime.
use bro_know_my_qqbot.Prelude.{
  ℕ, zero, suc, Bool, true, false, Option, none, some, if◌then◌else◌, Result, ok, err,
}
use bro_know_my_qqbot.Prelude.Map.{get}
use bro_know_my_qqbot.Dedup.{DedupKey, DedupClaim, DedupError, retryable, permanent}
use bro_know_my_qqbot.Runtime.{
  claim_discrete, OutstandingClaimState, processing, commit_pending, acknowledgement_pending,
  OutstandingClaim, DedupFinalizationResult, succeeded, retryable_failure, permanent_failure,
  Awaited, completed, timed_out, dropped, Environment, Task, ◌>>=◌, ◌>>◌, pure, track_claim,
  mark_commit_pending, mark_acknowledgement_pending, untrack_claim, pause, acquire_permit,
  commit_claim_with_retry, release_claim_with_retry, acknowledge_event_with_retry, run_handlers,
}

-- What is left to do in the background; the event and its adapter are those of the task.
pub data PendingEventRetry : Type 0 where
  dedup : DedupClaim → OutstandingClaimState → PendingEventRetry
  acknowledgement : Option DedupClaim → PendingEventRetry

-- `Result<Option<DedupClaim>, ()>`.
pub data ClaimedEvent : Type 0 where
  claimed : DedupClaim → ClaimedEvent
  duplicate rejected : ClaimedEvent

abbrev pub is_retryable_failure : DedupFinalizationResult → Bool
is_retryable_failure retryable_failure = true
is_retryable_failure _ = false

module _ {W E : Type 0} where
  -- The task is dropped, or it panics.
  abbrev pub abandon : {A : Type 0} → Task W E A
  abandon s = (s, none)

module _ {W E : Type 0} (env : Environment W E) (adapter : ℕ) (event : E) where
  unfoldable pub ask_claim : DedupKey → Task W E (Awaited (Result (Option DedupClaim) DedupError))
  ask_claim key s = let (w, r) = env.claim key s.world in (record s { world = w }, some r)

  -- `claim_event`, for as many rounds as the task lives.
  unfoldable pub claim_event : ℕ → DedupKey → Task W E ClaimedEvent
  unfolding ask_claim
  claim_event zero key = abandon
  claim_event (suc rounds) key = do
    answer ← ask_claim key
    elim answer [
      | completed (ok none) ↦ pure duplicate
      | completed (ok (some claim)) ↦ do track_claim claim event adapter; pure (claimed claim)
      | completed (err e) ↦ elim e.kind [
        | retryable ↦ do pause env; claim_event rounds key
        | permanent ↦ pure rejected
      ]
      | timed_out ↦ do pause env; claim_event rounds key
      | dropped ↦ abandon
    ]

  unfoldable pub process_duplicate_event : Task W E (Option PendingEventRetry)
  process_duplicate_event = do
    acknowledged ← acknowledge_event_with_retry env adapter event
    pure (if acknowledged then none else some (acknowledgement none))

  unfoldable pub after_handlers_failed :
      DedupClaim → DedupFinalizationResult → Task W E (Option PendingEventRetry)
  after_handlers_failed c succeeded = do untrack_claim c; pure none
  after_handlers_failed c permanent_failure = pure none
  after_handlers_failed c retryable_failure = pure (some (dedup c processing))

  unfoldable pub after_acknowledgement : DedupClaim → Bool → Task W E (Option PendingEventRetry)
  after_acknowledgement c true = do untrack_claim c; pure none
  after_acknowledgement c false = pure (some (acknowledgement (some c)))

  unfoldable pub after_commit :
      DedupClaim → DedupFinalizationResult → Task W E (Option PendingEventRetry)
  unfolding after_acknowledgement
  after_commit c succeeded = do
    mark_acknowledgement_pending c
    acknowledged ← acknowledge_event_with_retry env adapter event
    after_acknowledgement c acknowledged
  after_commit c permanent_failure = pure none
  after_commit c retryable_failure = pure (some (dedup c commit_pending))

  unfoldable pub after_handlers : DedupClaim → Bool → Task W E (Option PendingEventRetry)
  unfolding after_handlers_failed after_commit
  after_handlers c false = do
    released ← release_claim_with_retry env c
    after_handlers_failed c released
  after_handlers c true = do
    mark_commit_pending c
    committed ← commit_claim_with_retry env c
    after_commit c committed

  -- `process_claimed_event` with `total` handlers.
  unfoldable pub process_claimed_event : ℕ → DedupClaim → Task W E (Option PendingEventRetry)
  unfolding after_handlers
  process_claimed_event total c = do
    handled ← run_handlers env total 0 event
    after_handlers c handled

  unfoldable pub until_next : Task W E (Unit {0}) → Bool → Task W E (Unit {0})
  until_next rest true = pure tt
  until_next rest false = do pause env; rest

  -- `while !acknowledge_event_with_retry(…)`, for as many rounds as the task lives.
  unfoldable pub acknowledge_until : ℕ → Task W E (Unit {0})
  unfolding until_next
  acknowledge_until zero = abandon
  acknowledge_until (suc rounds) =
      acknowledge_event_with_retry env adapter event >>= until_next (acknowledge_until rounds)

  -- `PendingDedupRetry::retry`: how the claim is finalized, by its state.
  unfoldable pub finalize_by : OutstandingClaimState → DedupClaim → Task W E DedupFinalizationResult
  finalize_by processing c = release_claim_with_retry env c
  finalize_by commit_pending c = commit_claim_with_retry env c
  finalize_by acknowledgement_pending c = abandon

  unfoldable pub after_recovered : OutstandingClaimState → ℕ → DedupClaim → Task W E (Unit {0})
  after_recovered commit_pending rounds c = do
    mark_acknowledgement_pending c
    acknowledge_until rounds
    untrack_claim c
  after_recovered _ rounds c = untrack_claim c

  unfoldable pub retry_next :
      OutstandingClaimState
      → ℕ
      → DedupClaim
      → Task W E (Unit {0})
      → DedupFinalizationResult
      → Task W E (Unit {0})
  unfolding after_recovered
  retry_next x rounds c rest succeeded = after_recovered x rounds c
  retry_next x rounds c rest retryable_failure = rest
  retry_next x rounds c rest permanent_failure = pure tt

  unfoldable pub retry_dedup : ℕ → OutstandingClaimState → DedupClaim → Task W E (Unit {0})
  unfolding finalize_by retry_next
  retry_dedup zero x c = abandon
  retry_dedup (suc rounds) x c = do
    pause env
    finalize_by x c >>= retry_next x rounds c (retry_dedup rounds x c)

  unfoldable pub untrack_claimed : Option DedupClaim → Task W E (Unit {0})
  untrack_claimed none = pure tt
  untrack_claimed (some c) = untrack_claim c

  unfoldable pub acknowledged_next :
      Option DedupClaim → Task W E (Unit {0}) → Bool → Task W E (Unit {0})
  unfolding untrack_claimed
  acknowledged_next held rest true = untrack_claimed held
  acknowledged_next held rest false = rest

  unfoldable pub retry_acknowledgement : ℕ → Option DedupClaim → Task W E (Unit {0})
  unfolding acknowledged_next
  retry_acknowledgement zero held = abandon
  retry_acknowledgement (suc rounds) held = do
    pause env
    acknowledged ← acknowledge_event_with_retry env adapter event
    acknowledged_next held (retry_acknowledgement rounds held) acknowledged

  -- `PendingEventRetry::retry`.
  unfoldable pub retry : ℕ → PendingEventRetry → Task W E (Unit {0})
  retry rounds (dedup c x) = retry_dedup rounds x c
  retry rounds (acknowledgement held) = retry_acknowledgement rounds held

  unfoldable pub retry_pending : ℕ → Option PendingEventRetry → Task W E (Unit {0})
  retry_pending rounds none = pure tt
  retry_pending rounds (some pending) = retry rounds pending

  -- The task of `spawn_event` from the claim on.
  unfoldable pub event_task : ℕ → ℕ → DedupClaim → Task W E (Unit {0})
  unfolding retry_pending
  event_task rounds total c = do
    acquire_permit env
    pending ← process_claimed_event total c
    retry_pending rounds pending

module _ {W E : Type 0} (env : Environment W E) where
  abbrev pub acknowledged_result : Bool → DedupFinalizationResult
  acknowledged_result true = succeeded
  acknowledged_result false = retryable_failure

  unfoldable pub acknowledge_recovered : OutstandingClaim E → Task W E DedupFinalizationResult
  acknowledge_recovered o = do
    acknowledged ← acknowledge_event_with_retry env o.adapter o.event
    pure (acknowledged_result acknowledged)

  unfoldable pub after_recommit :
      DedupClaim → OutstandingClaim E → DedupFinalizationResult → Task W E DedupFinalizationResult
  unfolding acknowledge_recovered
  after_recommit c o succeeded = do mark_acknowledgement_pending c; acknowledge_recovered o
  after_recommit c o failure = pure failure

  -- The `match` on the state that `recover_cancelled_claim` and `finalize_outstanding_claim` share.
  unfoldable pub recover_by :
      DedupClaim → OutstandingClaim E → OutstandingClaimState → Task W E DedupFinalizationResult
  unfolding after_recommit acknowledge_recovered
  recover_by c o processing = release_claim_with_retry env c
  recover_by c o commit_pending = do
    committed ← commit_claim_with_retry env c
    after_recommit c o committed
  recover_by c o acknowledgement_pending = acknowledge_recovered o

  unfoldable pub untrack_succeeded : DedupClaim → DedupFinalizationResult → Task W E Bool
  untrack_succeeded c succeeded = do untrack_claim c; pure false
  untrack_succeeded c result = pure (is_retryable_failure result)

  unfoldable pub recover_entry : DedupClaim → Option (OutstandingClaim E) → Task W E Bool
  unfolding untrack_succeeded
  recover_entry c none = pure false
  recover_entry c (some o) = do recovered ← recover_by c o o.state; untrack_succeeded c recovered

  -- The answer is whether another recovery is to be scheduled.
  unfoldable pub recover_cancelled_claim : DedupClaim → Task W E Bool
  unfolding recover_entry
  recover_cancelled_claim c s = recover_entry c (get claim_discrete c s.outstanding) s
