-- ===== src/Runtime/Background.antt =====
-- The retries in the background keep to the protocol.
use bro_know_my_qqbot.Prelude.{ℕ, zero, suc, Bool, true, false, Option, none, some}
use bro_know_my_qqbot.Dedup.{DedupClaim}
use bro_know_my_qqbot.Runtime.{
  OutstandingClaimState, processing, commit_pending, acknowledgement_pending,
  DedupFinalizationResult, succeeded, retryable_failure, permanent_failure, Environment,
  RuntimeState, Task, ◌>>=◌, mark_acknowledgement_pending, untrack_claim, pause,
  commit_claim_with_retry, release_claim_with_retry, acknowledge_event_with_retry,
}
use bro_know_my_qqbot.Runtime.Recovery.{
  until_next, finalize_by, retry_next, after_recovered, acknowledged_next, untrack_claimed,
  retry_pending, PendingEventRetry, dedup, acknowledgement, retry_dedup, retry_acknowledgement,
  acknowledge_until, retry,
}
use bro_know_my_qqbot.Runtime.Protocol.{Agrees, IsAt}
use bro_know_my_qqbot.Runtime.Triples.{Triple, bind_rule, Finalized, Either}
use bro_know_my_qqbot.Runtime.Retries.{
  Inv, AtRelease, AfterRelease, AtCommit, AfterCommit, AtAck, AfterAck, pause_rule, release_rule,
  commit_rule, acknowledge_rule,
}
use bro_know_my_qqbot.Runtime.Process.{
  Pending, untrack_released, untrack_acknowledged, mark_committed_rule, keep,
}

module _ {W E : Type 0} (total : ℕ) (c : DedupClaim) where
  module _ (env : Environment W E) (adapter : ℕ) (event : E) where
    abbrev Done : Unit {0} → RuntimeState W E → Type 0
    Done _ = Inv total c

    at_ack : (s : RuntimeState W E) → AtAck total c s → Inv total c s
    at_ack = keep total c acknowledgement_pending

    pausing :
        (x : OutstandingClaimState)
        → Triple
            (Inv total c)
            (IsAt total c (some x) (Agrees total (some x)))
            (pause env)
            (λ _. IsAt total c (some x) (Agrees total (some x)))
    pausing x = pause_rule total c env (some x) (Agrees total (some x)) (λ p k. k)

    until_next_rule :
        (rest : Task W E (Unit {0})) (b : Bool)
        → Triple (Inv total c) (AtAck total c) rest (λ _. AfterAck total c)
        → Triple
            (Inv total c)
            (Either (Inv total c) (AtAck total c) (AfterAck total c) b)
            (until_next env adapter event rest b)
            (λ _. AfterAck total c)
    unfolding until_next
    until_next_rule rest true h = λ s k. k
    until_next_rule rest false h =
        bind_rule (Inv total c) (AtAck total c) (λ _. AtAck total c) (λ _. AfterAck total c)
          (pause env) _ (pausing acknowledgement_pending) (λ _. h)

    acknowledge_until_rule :
        (rounds : ℕ)
        → Triple
            (Inv total c)
            (AtAck total c)
            (acknowledge_until env adapter event rounds)
            (λ _. AfterAck total c)
    unfolding acknowledge_until
    acknowledge_until_rule zero = at_ack
    acknowledge_until_rule (suc rounds) =
        bind_rule (Inv total c) (AtAck total c)
          (Either (Inv total c) (AtAck total c) (AfterAck total c)) (λ _. AfterAck total c)
          (acknowledge_event_with_retry env adapter event) _
          (acknowledge_rule total c env adapter event)
          (λ b. until_next_rule _ b (acknowledge_until_rule rounds))

    retry_release_rule :
        (rounds : ℕ)
        → Triple
            (Inv total c)
            (AtRelease total c)
            (retry_dedup env adapter event rounds processing c)
            Done
    unfolding retry_dedup finalize_by retry_next after_recovered
    retry_release_rule zero = keep total c processing
    retry_release_rule (suc rounds) =
        bind_rule (Inv total c) (AtRelease total c) (λ _. AtRelease total c) Done (pause env) _
          (pausing processing)
          (λ _.
            bind_rule (Inv total c) (AtRelease total c)
              (Finalized (Inv total c) (AtRelease total c) (AfterRelease total c)) Done
              (release_claim_with_retry env c) _ (release_rule total c env)
              (next (retry_release_rule rounds)))
      where
        next :
            Triple
              (Inv total c)
              (AtRelease total c)
              (retry_dedup env adapter event rounds processing c)
              Done
            → (r : DedupFinalizationResult)
            → Triple
                (Inv total c)
                (Finalized (Inv total c) (AtRelease total c) (AfterRelease total c) r)
                (retry_next env adapter event processing rounds c
                  (retry_dedup env adapter event rounds processing c)
                  r)
                Done
        next rest succeeded = untrack_released total c
        next rest retryable_failure = rest
        next rest permanent_failure = keep total c processing

    after_recommitted_rule :
        (rounds : ℕ)
        → Triple
            (Inv total c)
            (AfterCommit total c)
            (after_recovered env adapter event commit_pending rounds c)
            Done
    unfolding after_recovered
    after_recommitted_rule rounds =
        bind_rule (Inv total c) (AfterCommit total c) (λ _. AtAck total c) Done
          (mark_acknowledgement_pending c)
          (λ _. acknowledge_until env adapter event rounds >>= λ _. untrack_claim c)
          (mark_committed_rule total c)
          (λ _.
            bind_rule (Inv total c) (AtAck total c) (λ _. AfterAck total c) Done
              (acknowledge_until env adapter event rounds) (λ _. untrack_claim c)
              (acknowledge_until_rule rounds) (λ _. untrack_acknowledged total c))

    retry_commit_rule :
        (rounds : ℕ)
        → Triple
            (Inv total c)
            (AtCommit total c)
            (retry_dedup env adapter event rounds commit_pending c)
            Done
    unfolding retry_dedup finalize_by retry_next
    retry_commit_rule zero = keep total c commit_pending
    retry_commit_rule (suc rounds) =
        bind_rule (Inv total c) (AtCommit total c) (λ _. AtCommit total c) Done (pause env) _
          (pausing commit_pending)
          (λ _.
            bind_rule (Inv total c) (AtCommit total c)
              (Finalized (Inv total c) (AtCommit total c) (AfterCommit total c)) Done
              (commit_claim_with_retry env c) _ (commit_rule total c env)
              (next (retry_commit_rule rounds)))
      where
        next :
            Triple
              (Inv total c)
              (AtCommit total c)
              (retry_dedup env adapter event rounds commit_pending c)
              Done
            → (r : DedupFinalizationResult)
            → Triple
                (Inv total c)
                (Finalized (Inv total c) (AtCommit total c) (AfterCommit total c) r)
                (retry_next env adapter event commit_pending rounds c
                  (retry_dedup env adapter event rounds commit_pending c)
                  r)
                Done
        next rest succeeded = after_recommitted_rule rounds
        next rest retryable_failure = rest
        next rest permanent_failure = keep total c commit_pending

    acknowledged_next_rule :
        (rest : Task W E (Unit {0})) (b : Bool)
        → Triple (Inv total c) (AtAck total c) rest Done
        → Triple
            (Inv total c)
            (Either (Inv total c) (AtAck total c) (AfterAck total c) b)
            (acknowledged_next env adapter event (some c) rest b)
            Done
    unfolding acknowledged_next untrack_claimed
    acknowledged_next_rule rest true h = untrack_acknowledged total c
    acknowledged_next_rule rest false h = h

    retry_acknowledgement_rule :
        (rounds : ℕ)
        → Triple
            (Inv total c)
            (AtAck total c)
            (retry_acknowledgement env adapter event rounds (some c))
            Done
    unfolding retry_acknowledgement
    retry_acknowledgement_rule zero = at_ack
    retry_acknowledgement_rule (suc rounds) =
        bind_rule (Inv total c) (AtAck total c) (λ _. AtAck total c) Done (pause env) _
          (pausing acknowledgement_pending)
          (λ _.
            bind_rule (Inv total c) (AtAck total c)
              (Either (Inv total c) (AtAck total c) (AfterAck total c)) Done
              (acknowledge_event_with_retry env adapter event) _
              (acknowledge_rule total c env adapter event)
              (λ b. acknowledged_next_rule _ b (retry_acknowledgement_rule rounds)))

    pub retry_pending_rule :
        (rounds : ℕ) (pending : Option PendingEventRetry)
        → Triple
            (Inv total c)
            (Pending total c pending)
            (retry_pending env adapter event rounds pending)
            Done
    unfolding retry_pending retry
    retry_pending_rule rounds none = λ s h. h
    retry_pending_rule rounds (some (dedup d processing)) =
        λ s h. rw (h.0) (retry_release_rule rounds s h.1)
    retry_pending_rule rounds (some (dedup d commit_pending)) =
        λ s h. rw (h.0) (retry_commit_rule rounds s h.1)
    retry_pending_rule rounds (some (dedup d acknowledgement_pending)) = λ s h. absurd h
    retry_pending_rule rounds (some (acknowledgement none)) = λ s h. absurd h
    retry_pending_rule rounds (some (acknowledgement (some d))) =
        λ s h. rw (h.0) (retry_acknowledgement_rule rounds s h.1)
