-- ===== src/Runtime/Lifecycle.antt =====
-- The whole life of a claim keeps to the protocol: its task, dropped anywhere or not, and every
-- recovery and finalization after it.
use bro_know_my_qqbot.Prelude.{
  ℕ, zero, suc, ◌≡◌, refl, sym, subst, Bool, true, false, Option, none, some, [], arith,
  Option-cases, inl, inr,
}
use bro_know_my_qqbot.Prelude.Map.{get}
use bro_know_my_qqbot.Dedup.{DedupClaim}
use bro_know_my_qqbot.Runtime.{
  claim_discrete, OutstandingClaimState, processing, commit_pending, acknowledgement_pending,
  OutstandingClaim, DedupFinalizationResult, succeeded, retryable_failure, permanent_failure,
  Environment, RuntimeState, pure, tracked_state, acquire_permit, mark_acknowledgement_pending,
  untrack_claim, commit_claim_with_retry, release_claim_with_retry, acknowledge_event_with_retry,
}
use bro_know_my_qqbot.Runtime.Recovery.{
  retry_pending, recover_entry, untrack_succeeded, after_recommit, acknowledge_recovered,
  acknowledged_result, process_claimed_event, event_task, recover_by, recover_cancelled_claim,
}
use bro_know_my_qqbot.Runtime.Protocol.{
  working, follow, IsFinished, IsReleasable, Agrees, IsAt, IsInOrder,
}
use bro_know_my_qqbot.Runtime.Triples.{Ends, Triple, bind_rule, weaken_rule, Finalized, Either}
use bro_know_my_qqbot.Runtime.Retries.{
  Inv, AtRelease, AfterRelease, AtCommit, AfterCommit, AtAck, AfterAck, release_rule, commit_rule,
  acknowledge_rule, acquire_rule, IsWorking,
}
use bro_know_my_qqbot.Runtime.Handlers.{AtHandler, untrack_rule}
use bro_know_my_qqbot.Runtime.Process.{settle, Pending, mark_committed_rule, keep, process_rule}
use bro_know_my_qqbot.Runtime.Background.{retry_pending_rule}

module _ {W E : Type 0} (total : ℕ) (c : DedupClaim) where
  module _ (env : Environment W E) where
    acknowledge_recovered_rule :
        (o : OutstandingClaim E)
        → Triple
            (Inv total c)
            (AtAck total c)
            (acknowledge_recovered env o)
            (Finalized (Inv total c) (AtAck total c) (AfterAck total c))
    unfolding acknowledge_recovered
    acknowledge_recovered_rule o =
        bind_rule (Inv total c) (AtAck total c)
          (Either (Inv total c) (AtAck total c) (AfterAck total c))
          (Finalized (Inv total c) (AtAck total c) (AfterAck total c))
          (acknowledge_event_with_retry env o.adapter o.event)
          (λ b. pure (acknowledged_result env b)) (acknowledge_rule total c env o.adapter o.event)
          next
      where
        next :
            (b : Bool)
            → Triple {W = W} {E = E}
                (Inv total c)
                (Either (Inv total c) (AtAck total c) (AfterAck total c) b)
                (pure (acknowledged_result env b))
                (Finalized (Inv total c) (AtAck total c) (AfterAck total c))
        next true = λ s h. h
        next false = λ s h. h

    -- After a recovery that succeeded the claim is finished; after any other it is in order.
    abbrev Recovered : DedupFinalizationResult → RuntimeState W E → Type 0
    Recovered succeeded s = (x : OutstandingClaimState) × IsAt total c (some x) IsFinished s
    Recovered retryable_failure s = Inv total c s
    Recovered permanent_failure s = Inv total c s

    released_Recovered :
        (r : DedupFinalizationResult) (s : RuntimeState W E)
        → Finalized (Inv total c) (AtRelease total c) (AfterRelease total c) r s
        → Recovered r s
    released_Recovered succeeded s h = (
      processing,
      record { phase = h.phase; path = h.path; kind = rw (h.kind) tt; entry = h.entry },
    )
    released_Recovered retryable_failure s h = keep total c processing s h
    released_Recovered permanent_failure s h = keep total c processing s h

    acknowledged_Recovered :
        (r : DedupFinalizationResult) (s : RuntimeState W E)
        → Finalized (Inv total c) (AtAck total c) (AfterAck total c) r s
        → Recovered r s
    acknowledged_Recovered succeeded s h = (
      acknowledgement_pending,
      record { phase = h.phase; path = h.path; kind = rw (h.kind) tt; entry = h.entry },
    )
    acknowledged_Recovered retryable_failure s h = keep total c acknowledgement_pending s h
    acknowledged_Recovered permanent_failure s h = keep total c acknowledgement_pending s h

    acknowledging_rule :
        (o : OutstandingClaim E)
        → Triple (Inv total c) (AtAck total c) (acknowledge_recovered env o) Recovered
    acknowledging_rule o =
        weaken_rule (Inv total c) (AtAck total c)
          (Finalized (Inv total c) (AtAck total c) (AfterAck total c)) Recovered
          (acknowledge_recovered env o) (acknowledge_recovered_rule o) acknowledged_Recovered

    after_recommit_rule :
        (o : OutstandingClaim E) (r : DedupFinalizationResult)
        → Triple
            (Inv total c)
            (Finalized (Inv total c) (AtCommit total c) (AfterCommit total c) r)
            (after_recommit env c o r)
            Recovered
    unfolding after_recommit
    after_recommit_rule o succeeded =
        bind_rule (Inv total c) (AfterCommit total c) (λ _. AtAck total c) Recovered
          (mark_acknowledgement_pending c) (λ _. acknowledge_recovered env o)
          (mark_committed_rule total c) (λ _. acknowledging_rule o)
    after_recommit_rule o retryable_failure = keep total c commit_pending
    after_recommit_rule o permanent_failure = keep total c commit_pending

    recover_by_rule :
        (o : OutstandingClaim E) (x : OutstandingClaimState)
        → Triple
            (Inv total c)
            (IsAt total c (some x) (Agrees total (some x)))
            (recover_by env c o x)
            Recovered
    unfolding recover_by
    recover_by_rule o processing =
        weaken_rule (Inv total c) (AtRelease total c)
          (Finalized (Inv total c) (AtRelease total c) (AfterRelease total c)) Recovered
          (release_claim_with_retry env c) (release_rule total c env) released_Recovered
    recover_by_rule o commit_pending =
        bind_rule (Inv total c) (AtCommit total c)
          (Finalized (Inv total c) (AtCommit total c) (AfterCommit total c)) Recovered
          (commit_claim_with_retry env c) _ (commit_rule total c env) (after_recommit_rule o)
    recover_by_rule o acknowledgement_pending = acknowledging_rule o

    abbrev pub Settled : Bool → RuntimeState W E → Type 0
    Settled _ = Inv total c

    untrack_succeeded_rule :
        (r : DedupFinalizationResult)
        → Triple (Inv total c) (Recovered r) (untrack_succeeded env c r) Settled
    unfolding untrack_succeeded
    untrack_succeeded_rule succeeded = λ s h.
        bind_rule (Inv total c) (IsAt total c (some h.0) IsFinished) (λ _. Inv total c) Settled
          (untrack_claim c) (λ _. pure false)
          (weaken_rule (Inv total c) (IsAt total c (some h.0) IsFinished) _ (λ _. Inv total c)
            (untrack_claim c) (untrack_rule total c (some h.0) IsFinished)
            (λ _ s. settle total c none IsFinished s (λ p k. k)))
          (λ _ s k. k) s h.1
    untrack_succeeded_rule retryable_failure = λ s h. h
    untrack_succeeded_rule permanent_failure = λ s h. h

    pub recover_rule : Triple (Inv total c) (Inv total c) (recover_cancelled_claim env c) Settled
    unfolding recover_cancelled_claim recover_entry
    recover_rule s h = elim (Option-cases (get claim_discrete c s.outstanding)) [
      | inl e ↦ rw e h
      | inr (o, e) ↦ rw e (
          bind_rule (Inv total c) (IsAt total c (some o.state) (Agrees total (some o.state)))
            Recovered Settled (recover_by env c o o.state) (untrack_succeeded env c)
            (recover_by_rule o o.state) untrack_succeeded_rule s (found o e h.tracked h.at))
    ]
      where
        found :
            (o : OutstandingClaim E)
            → get claim_discrete c s.outstanding ≡ some o
            → (x : Option OutstandingClaimState) → IsAt total c x (Agrees total x) s
            → IsAt total c (some o.state) (Agrees total (some o.state)) s
        found o e x k =
            let same : x ≡ some o.state = ground (arith, k.entry, e) in
            subst (λ y. IsAt total c y (Agrees total y) s) same k

    -- Recoveries by the supervisor, or by the shutdown, one after the other.
    abbrev pub recoveries : ℕ → RuntimeState W E → RuntimeState W E
    recoveries zero s = s
    recoveries (suc n) s = recoveries n (recover_cancelled_claim env c s).0

    inv_of :
        {A : Type 0} (r : Option A) (s : RuntimeState W E)
        → Ends (Inv total c) (λ _. Inv total c) r s
        → Inv total c s
    inv_of none s h = h
    inv_of (some a) s h = h

    recoveries-IsInOrder :
        (n : ℕ) (s : RuntimeState W E) → Inv total c s → Inv total c (recoveries n s)
    recoveries-IsInOrder zero s h = h
    recoveries-IsInOrder (suc n) s h =
        let t = recover_cancelled_claim env c s in
        recoveries-IsInOrder n t.0 (inv_of t.1 t.0 (recover_rule s h))

  module _ (env : Environment W E) (adapter : ℕ) (event : E) where
    event_task_rule :
        (rounds : ℕ)
        → Triple
            (Inv total c)
            (AtHandler total c 0)
            (event_task env adapter event rounds total c)
            (λ _. Inv total c)
    unfolding event_task
    event_task_rule rounds =
        bind_rule (Inv total c) (AtHandler total c 0) (λ _. AtHandler total c 0) (λ _. Inv total c)
          (acquire_permit env) _
          (acquire_rule total c env (some processing) (IsWorking 0)
            (λ p k. subst (IsReleasable total) (sym k) (inl refl)))
          (λ _.
            bind_rule (Inv total c) (AtHandler total c 0) (Pending total c) (λ _. Inv total c)
              (process_claimed_event env adapter event total c)
              (retry_pending env adapter event rounds) (process_rule total c env adapter event)
              (retry_pending_rule total c env adapter event rounds))

    -- The task of a claim, and the recoveries after it.
    abbrev pub lifetime : ℕ → ℕ → RuntimeState W E → RuntimeState W E
    lifetime rounds n s = recoveries env n (event_task env adapter event rounds total c s).0

    -- Whatever the handlers, the store and the adapter answer, and wherever the task and its
    -- recoveries are dropped: the calls for a claim that is newly tracked follow the protocol of
    -- `next_phase`, and what is tracked at the end agrees with the phase that they lead to.
    pub lifetime-IsInOrder :
        (rounds n : ℕ) (s : RuntimeState W E)
        → s.calls ≡ []
        → tracked_state s c ≡ some processing
        → IsInOrder total c (lifetime rounds n s)
    unfolding follow
    lifetime-IsInOrder rounds n s fresh tracked =
        let t = event_task env adapter event rounds total c s in
        recoveries-IsInOrder env n t.0 (
          inv_of env t.1 t.0 (
            event_task_rule rounds s
              (record { phase = working 0; path = rw fresh refl; kind = refl; entry = tracked })))
