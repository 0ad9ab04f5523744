-- ===== src/Runtime/Process.antt =====
-- The processing of a claimed event keeps to the protocol, and what it leaves to the background fits.
use bro_know_my_qqbot.Prelude.{ℕ, ◌≡◌, refl, Bool, true, false, Option, none, some, arith}
use bro_know_my_qqbot.Dedup.{DedupClaim}
use bro_know_my_qqbot.Runtime.{
  OutstandingClaimState, processing, commit_pending, acknowledgement_pending,
  DedupFinalizationResult, succeeded, retryable_failure, permanent_failure, Environment,
  RuntimeState, pure, mark_commit_pending, mark_acknowledgement_pending, untrack_claim,
  commit_claim_with_retry, release_claim_with_retry, acknowledge_event_with_retry, run_handlers,
}
use bro_know_my_qqbot.Runtime.Recovery.{
  PendingEventRetry, dedup, acknowledgement, process_claimed_event, after_handlers_failed,
  after_acknowledgement, after_commit, after_handlers,
}
use bro_know_my_qqbot.Runtime.Protocol.{
  Phase, working, released, acknowledged, IsCommittable, IsFinished, Agrees, IsAt,
}
use bro_know_my_qqbot.Runtime.Triples.{Triple, bind_rule, weaken_rule, Finalized, Either}
use bro_know_my_qqbot.Runtime.Retries.{
  IsWorking, IsReleased, IsAcknowledged, Inv, AtRelease, AfterRelease, AtCommit, AfterCommit, AtAck,
  AfterAck, IsCommitted, release_rule, commit_rule, acknowledge_rule,
}
use bro_know_my_qqbot.Runtime.Handlers.{AtHandler, mark_rule, untrack_rule, run_handlers_rule}

released-IsFinished : (p : Phase) → p ≡ released → IsFinished p
released-IsFinished p e = rw e tt

acknowledged-IsFinished : (p : Phase) → p ≡ acknowledged → IsFinished p
acknowledged-IsFinished p e = rw e tt

module _ {W E : Type 0} (total : ℕ) (c : DedupClaim) where
  -- Wherever the claim is tracked so, its phase agrees.
  pub settle :
      (x : Option OutstandingClaimState) (K : Phase → Type 0) (s : RuntimeState W E)
      → ((p : Phase) → K p → Agrees total x p)
      → IsAt total c x K s
      → Inv total c s
  settle x K s agree h = record {
    tracked = x;
    at = record { phase = h.phase; path = h.path; kind = agree h.phase h.kind; entry = h.entry };
  }

  -- What a pending retry of this claim finds.
  abbrev pub Pending : Option PendingEventRetry → RuntimeState W E → Type 0
  Pending none s = Inv total c s
  Pending (some (dedup d processing)) s = (d ≡ c) × AtRelease total c s
  Pending (some (dedup d commit_pending)) s = (d ≡ c) × AtCommit total c s
  Pending (some (dedup d acknowledgement_pending)) s = ⊥
  Pending (some (acknowledgement none)) s = ⊥
  Pending (some (acknowledgement (some d))) s = (d ≡ c) × AtAck total c s

  pub untrack_released :
      Triple {W = W} {E = E}
        (Inv total c)
        (AfterRelease total c)
        (untrack_claim c)
        (λ _. Inv total c)
  untrack_released =
      weaken_rule (Inv total c) (AfterRelease total c) _ (λ _. Inv total c) (untrack_claim c)
        (untrack_rule total c (some processing) IsReleased)
        (λ _ s. settle none IsReleased s released-IsFinished)

  pub untrack_acknowledged :
      Triple {W = W} {E = E} (Inv total c) (AfterAck total c) (untrack_claim c) (λ _. Inv total c)
  untrack_acknowledged =
      weaken_rule (Inv total c) (AfterAck total c) _ (λ _. Inv total c) (untrack_claim c)
        (untrack_rule total c (some acknowledgement_pending) IsAcknowledged)
        (λ _ s. settle none IsAcknowledged s acknowledged-IsFinished)

  pub mark_committed_rule :
      Triple {W = W} {E = E}
        (Inv total c)
        (AfterCommit total c)
        (mark_acknowledgement_pending c)
        (λ _. AtAck total c)
  unfolding mark_acknowledgement_pending
  mark_committed_rule =
      mark_rule total c acknowledgement_pending commit_pending IsCommitted IsCommitted (λ p k. k)

  pub keep :
      (x : OutstandingClaimState) (s : RuntimeState W E)
      → IsAt total c (some x) (Agrees total (some x)) s
      → Inv total c s
  keep x s h = record { tracked = some x; at = h }

  module _ (env : Environment W E) (adapter : ℕ) (event : E) where
    after_handlers_failed_rule :
        (r : DedupFinalizationResult)
        → Triple
            (Inv total c)
            (Finalized (Inv total c) (AtRelease total c) (AfterRelease total c) r)
            (after_handlers_failed env adapter event c r)
            Pending
    unfolding after_handlers_failed
    after_handlers_failed_rule succeeded =
        bind_rule (Inv total c) (AfterRelease total c) (λ _. Inv total c) Pending (untrack_claim c)
          (λ _. pure none) untrack_released (λ _ s h. h)
    after_handlers_failed_rule permanent_failure = λ s h. keep processing s h
    after_handlers_failed_rule retryable_failure = λ s h. (refl, h)

    after_acknowledgement_rule :
        (b : Bool)
        → Triple
            (Inv total c)
            (Either (Inv total c) (AtAck total c) (AfterAck total c) b)
            (after_acknowledgement env adapter event c b)
            Pending
    unfolding after_acknowledgement
    after_acknowledgement_rule true =
        bind_rule (Inv total c) (AfterAck total c) (λ _. Inv total c) Pending (untrack_claim c)
          (λ _. pure none) untrack_acknowledged (λ _ s h. h)
    after_acknowledgement_rule false = λ s h. (refl, h)

    after_commit_rule :
        (r : DedupFinalizationResult)
        → Triple
            (Inv total c)
            (Finalized (Inv total c) (AtCommit total c) (AfterCommit total c) r)
            (after_commit env adapter event c r)
            Pending
    unfolding after_commit
    after_commit_rule succeeded =
        bind_rule (Inv total c) (AfterCommit total c) (λ _. AtAck total c) Pending
          (mark_acknowledgement_pending c) _ mark_committed_rule
          (λ _.
            bind_rule (Inv total c) (AtAck total c)
              (Either (Inv total c) (AtAck total c) (AfterAck total c)) Pending
              (acknowledge_event_with_retry env adapter event) _
              (acknowledge_rule total c env adapter event) after_acknowledgement_rule)
    after_commit_rule permanent_failure = λ s h. keep commit_pending s h
    after_commit_rule retryable_failure = λ s h. (refl, h)

    working-IsCommittable : (p : Phase) → p ≡ working total → IsCommittable total p
    working-IsCommittable p e = rw e refl

    after_handlers_rule :
        (b : Bool)
        → Triple
            (Inv total c)
            (Either (Inv total c) (AtRelease total c) (AtHandler total c total) b)
            (after_handlers env adapter event c b)
            Pending
    unfolding after_handlers mark_commit_pending
    after_handlers_rule true =
        bind_rule (Inv total c) (AtHandler total c total) (λ _. AtCommit total c) Pending
          (mark_commit_pending c) _
          (mark_rule total c commit_pending processing (IsWorking total) (IsCommittable total)
            working-IsCommittable)
          (λ _.
            bind_rule (Inv total c) (AtCommit total c)
              (Finalized (Inv total c) (AtCommit total c) (AfterCommit total c)) Pending
              (commit_claim_with_retry env c) _ (commit_rule total c env) after_commit_rule)
    after_handlers_rule false =
        bind_rule (Inv total c) (AtRelease total c)
          (Finalized (Inv total c) (AtRelease total c) (AfterRelease total c)) Pending
          (release_claim_with_retry env c) _ (release_rule total c env) after_handlers_failed_rule

    pub process_rule :
        Triple
          (Inv total c)
          (AtHandler total c 0)
          (process_claimed_event env adapter event total c)
          Pending
    unfolding process_claimed_event
    process_rule =
        bind_rule (Inv total c) (AtHandler total c 0)
          (Either (Inv total c) (AtRelease total c) (AtHandler total c total)) Pending
          (run_handlers env total 0 event) _
          (run_handlers_rule total c env event total 0 (omega arith)) after_handlers_rule
