-- ===== src/Runtime.antt =====
-- crates/bot-core/src/runtime.rs: what the runtime does with an event whose claim it holds, from
-- its handlers to the acknowledgement of its source, with the retries of every step.
-- A task is a function on the state. Whatever it awaits (handlers, the store behind `DedupStore`,
-- the adapter, sleeping, a permit) is a function of a world `W`, and may answer, time out, or see the task
-- dropped, which ends the task where it stands. The claims of other events and all other tasks are
-- part of the world: they never touch the entry of this claim.
pub mod Protocol
pub mod Recovery
pub mod Triples
pub mod Retries
pub mod Handlers
pub mod Process
pub mod Background
pub mod Lifecycle
pub mod Once
pub mod Memory
pub mod Outcome
mod Examples
use bro_know_my_qqbot.Prelude.{
  ℕ, zero, suc, ◌+◌, String, Bool, true, false, Option, none, some, List, [], ◌∷◌, ◌++◌, ◌==◌,
  if◌then◌else◌, Result, ok, err, ℕ_discrete,
}
use bro_know_my_qqbot.Prelude.Map.{get, insert, remove}
use bro_know_my_qqbot.Dedup.{
  DedupKey, DedupClaim, DedupError, DedupErrorKind, retryable, permanent, key_discrete,
}
use bro_know_my_qqbot.Router.Events.{HandlerError}

abbrev pub dedup_commit_max_attempts : ℕ
dedup_commit_max_attempts = 4

abbrev pub dedup_release_max_attempts : ℕ
dedup_release_max_attempts = 4

abbrev pub event_ack_max_attempts : ℕ
event_ack_max_attempts = 4

unfoldable pub claim_discrete : Discrete DedupClaim
unfolding ℕ_discrete key_discrete
claim_discrete = hlevel (ℕ_discrete, key_discrete)

pub data OutstandingClaimState : Type 0 where
  processing commit_pending acknowledgement_pending : OutstandingClaimState

-- `adapter` is the place of the adapter in the runtime's list.
pub record OutstandingClaim (E : Type 0) : Type 0 where
  pub state : OutstandingClaimState
  pub event : E
  pub adapter : ℕ

pub data DedupFinalizationResult : Type 0 where
  succeeded retryable_failure permanent_failure : DedupFinalizationResult

-- How an awaited call under a timeout ends for the task.
pub data Awaited (A : Type 0) : Type 0 where
  completed : A → Awaited A
  timed_out : Awaited A
  dropped : Awaited A

pub record Environment (W E : Type 0) : Type 0 where
  pub handle : ℕ → E → W → W × Awaited (Result (Unit {0}) HandlerError)
  pub claim : DedupKey → W → W × Awaited (Result (Option DedupClaim) DedupError)
  pub commit : DedupClaim → W → W × Awaited (Result (Unit {0}) DedupError)
  pub release : DedupClaim → W → W × Awaited (Result (Unit {0}) DedupError)
  pub event_handled : ℕ → E → W → W × Awaited (Result (Unit {0}) String)
  pub sleep : W → W × Bool
  pub acquire : W → W × Bool

-- The calls that a task makes for a claim, with whether they are known to have succeeded.
pub data Call : Type 0 where
  handler_call : ℕ → Bool → Call
  release_call : Bool → Call
  commit_call : Bool → Call
  ack_call : Bool → Call

pub record RuntimeState (W E : Type 0) : Type 0 where
  pub world : W
  pub outstanding : List (DedupClaim × OutstandingClaim E)
  pub calls : List Call

-- A task that was dropped gives no result.
abbrev pub Task : Type 0 → Type 0 → Type 0 → Type 0
Task W E A = RuntimeState W E → RuntimeState W E × Option A

infixl 5 ◌>>=◌ ◌>>◌
abbrev pub ◌>>=◌ : {W E A B : Type 0} → Task W E A → (A → Task W E B) → Task W E B
◌>>=◌ m f s = let (s', r) = m s in elim r [ none ↦ (s', none) | some a ↦ f a s' ]

abbrev pub ◌>>◌ : {W E A B : Type 0} → Task W E A → Task W E B → Task W E B
m >> k = m >>= λ _. k

-- Whether a call is known to have succeeded.
abbrev pub is_done : {B : Type 0} → Awaited (Result (Unit {0}) B) → Bool
is_done (completed (ok _)) = true
is_done _ = false

-- What the task reads from an answer: `none` if it was dropped.
abbrev pub answer_of : {B : Type 0} → Awaited (Result (Unit {0}) B) → Option Bool
answer_of (completed (ok _)) = some true
answer_of (completed (err _)) = some false
answer_of timed_out = some false
answer_of dropped = none

-- Of an attempt to commit or to release: `some none` is one more attempt.
abbrev pub after_error : DedupErrorKind → Option DedupFinalizationResult
after_error retryable = none
after_error permanent = some permanent_failure

abbrev pub judge : Awaited (Result (Unit {0}) DedupError) → Option (Option DedupFinalizationResult)
judge (completed (ok _)) = some (some succeeded)
judge (completed (err e)) = some (after_error e.kind)
judge timed_out = some none
judge dropped = none

module _ {E : Type 0} where
  -- The state of a claim in the table of outstanding claims.
  abbrev pub state_of_entry : Option (OutstandingClaim E) → Option OutstandingClaimState
  state_of_entry none = none
  state_of_entry (some o) = some o.state

  -- `get_mut`, and a new state for the entry if there is one.
  set_state :
      OutstandingClaimState
      → DedupClaim
      → Option (OutstandingClaim E)
      → List (DedupClaim × OutstandingClaim E)
      → List (DedupClaim × OutstandingClaim E)
  set_state x c none m = m
  set_state x c (some o) m = insert claim_discrete c (record o { state = x }) m

module _ {W E : Type 0} where
  abbrev pub pure : {A : Type 0} → A → Task W E A
  pure a s = (s, some a)

  abbrev pub tracked_state : RuntimeState W E → DedupClaim → Option OutstandingClaimState
  tracked_state s c = state_of_entry (get claim_discrete c s.outstanding)

  unfoldable pub track_claim : DedupClaim → E → ℕ → Task W E (Unit {0})
  track_claim c event adapter s = (
    record s {
      outstanding =
          insert claim_discrete c (record { state = processing; event = event; adapter = adapter })
            s.outstanding;
    },
    some tt,
  )

  unfoldable pub mark : OutstandingClaimState → DedupClaim → Task W E (Unit {0})
  unfolding set_state
  mark x c s = (
    record s { outstanding = set_state x c (get claim_discrete c s.outstanding) s.outstanding },
    some tt,
  )

  unfoldable pub mark_commit_pending : DedupClaim → Task W E (Unit {0})
  unfolding mark
  mark_commit_pending = mark commit_pending

  unfoldable pub mark_acknowledgement_pending : DedupClaim → Task W E (Unit {0})
  unfolding mark
  mark_acknowledgement_pending = mark acknowledgement_pending

  unfoldable pub untrack_claim : DedupClaim → Task W E (Unit {0})
  untrack_claim c s = (record s { outstanding = remove claim_discrete c s.outstanding }, some tt)

module _ {W E : Type 0} (env : Environment W E) where
  -- `sleep(backoff).await`.
  unfoldable pub pause : Task W E (Unit {0})
  pause s =
      let (w, woke) = env.sleep s.world in (record s { world = w }, if woke then some tt else none)

  -- `active_events.acquire_owned().await`. The task ends without a permit if it is dropped, and
  -- also if the semaphore is closed.
  unfoldable pub acquire_permit : Task W E (Unit {0})
  acquire_permit s =
      let (w, permit) = env.acquire s.world in
      (record s { world = w }, if permit then some tt else none)

  -- One attempt, which is recorded.
  unfoldable pub try_release : DedupClaim → Task W E (Option DedupFinalizationResult)
  try_release c s =
      let (w, r) = env.release c s.world in
      (record s { world = w; calls = s.calls ++ (release_call (is_done r) ∷ []) }, judge r)

  unfoldable pub try_commit : DedupClaim → Task W E (Option DedupFinalizationResult)
  try_commit c s =
      let (w, r) = env.commit c s.world in
      (record s { world = w; calls = s.calls ++ (commit_call (is_done r) ∷ []) }, judge r)

  unfoldable pub try_acknowledge : ℕ → E → Task W E Bool
  try_acknowledge adapter event s =
      let (w, r) = env.event_handled adapter event s.world in
      (record s { world = w; calls = s.calls ++ (ack_call (is_done r) ∷ []) }, answer_of r)

  -- What follows a failed attempt: the end after the last one, else another one after a pause.
  try_again : {A : Type 0} → A → Bool → Task W E A → Task W E A
  try_again failure true rest = pure failure
  try_again failure false rest = do pause; rest

  finalize_next :
      Task W E DedupFinalizationResult
      → Option DedupFinalizationResult
      → Task W E DedupFinalizationResult
  finalize_next rest (some result) = pure result
  finalize_next rest none = rest

  -- The loop of both finalizations, over the attempts that are left.
  unfoldable pub finalize_loop :
      ℕ → Task W E (Option DedupFinalizationResult) → Task W E DedupFinalizationResult
  unfolding finalize_next try_again
  finalize_loop zero attempt = pure retryable_failure
  finalize_loop (suc n) attempt =
      attempt >>= finalize_next (try_again retryable_failure (n == 0) (finalize_loop n attempt))

  unfoldable pub commit_claim_with_retry : DedupClaim → Task W E DedupFinalizationResult
  commit_claim_with_retry c = finalize_loop dedup_commit_max_attempts (try_commit c)

  unfoldable pub release_claim_with_retry : DedupClaim → Task W E DedupFinalizationResult
  release_claim_with_retry c = finalize_loop dedup_release_max_attempts (try_release c)

  acknowledge_next : Task W E Bool → Bool → Task W E Bool
  acknowledge_next rest true = pure true
  acknowledge_next rest false = rest

  unfoldable pub acknowledge_loop : ℕ → ℕ → E → Task W E Bool
  unfolding acknowledge_next try_again
  acknowledge_loop zero adapter event = pure false
  acknowledge_loop (suc n) adapter event =
      try_acknowledge adapter event
      >>= acknowledge_next (try_again false (n == 0) (acknowledge_loop n adapter event))

  unfoldable pub acknowledge_event_with_retry : ℕ → E → Task W E Bool
  acknowledge_event_with_retry = acknowledge_loop event_ack_max_attempts

  -- The handler at a place of the list; a timeout is a failure.
  unfoldable pub run_handler : ℕ → E → Task W E Bool
  run_handler n event s =
      let (w, r) = env.handle n event s.world in
      (record s { world = w; calls = s.calls ++ (handler_call n (is_done r) ∷ []) }, answer_of r)

  handlers_next : Task W E Bool → Bool → Task W E Bool
  handlers_next rest true = rest
  handlers_next rest false = pure false

  -- The loop over the handlers, of which `k` are left, from the `n`-th on.
  unfoldable pub run_handlers : ℕ → ℕ → E → Task W E Bool
  unfolding handlers_next
  run_handlers zero n event = pure true
  run_handlers (suc k) n event =
      run_handler n event >>= handlers_next (run_handlers k (n + 1) event)
