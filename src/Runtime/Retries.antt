-- ===== src/Runtime/Retries.antt =====
-- Each awaited call, and each loop of attempts, keeps to the protocol of the calls for a claim.
use bro_know_my_qqbot.Prelude.{
  ℕ, ◌≡◌, refl, ◌∙◌, Bool, true, false, Option, none, some, [], ◌∷◌, ◌++◌, if◌then◌else◌, Result,
  ok, err, String,
}
use bro_know_my_qqbot.Dedup.{DedupClaim, DedupError, DedupErrorKind, retryable, permanent}
use bro_know_my_qqbot.Runtime.{
  OutstandingClaimState, processing, commit_pending, acknowledgement_pending, Awaited, completed,
  timed_out, dropped, Environment, Call, release_call, commit_call, ack_call, RuntimeState, is_done,
  judge, after_error, answer_of, pause, acquire_permit, try_release, try_commit, try_acknowledge,
  commit_claim_with_retry, release_claim_with_retry, acknowledge_event_with_retry,
  dedup_commit_max_attempts, dedup_release_max_attempts, event_ack_max_attempts,
}
use bro_know_my_qqbot.Runtime.Protocol.{
  Phase, working, released, committed, acknowledged, next_phase, follow-snoc, release_step,
  commit_step, release_phase, commit_phase, ack_phase, IsReleasable, IsCommittable, Agrees, IsAt,
  IsInOrder,
}
use bro_know_my_qqbot.Runtime.Triples.{
  Ends, Triple, Judged, Finalized, Either, finalize_loop_rule, acknowledge_loop_rule,
}

abbrev pub IsWorking : ℕ → Phase → Type 0
IsWorking n p = p ≡ working n

abbrev pub IsCommitted : Phase → Type 0
IsCommitted p = p ≡ committed

abbrev pub IsReleased : Phase → Type 0
IsReleased p = p ≡ released

abbrev pub IsAcknowledged : Phase → Type 0
IsAcknowledged p = p ≡ acknowledged

module _ {W E : Type 0} (total : ℕ) (c : DedupClaim) where
  abbrev pub Inv : RuntimeState W E → Type 0
  Inv = IsInOrder total c

  abbrev pub AtRelease : RuntimeState W E → Type 0
  AtRelease = IsAt total c (some processing) (IsReleasable total)

  abbrev pub AfterRelease : RuntimeState W E → Type 0
  AfterRelease = IsAt total c (some processing) IsReleased

  abbrev pub AtCommit : RuntimeState W E → Type 0
  AtCommit = IsAt total c (some commit_pending) (IsCommittable total)

  abbrev pub AfterCommit : RuntimeState W E → Type 0
  AfterCommit = IsAt total c (some commit_pending) IsCommitted

  abbrev pub AtAck : RuntimeState W E → Type 0
  AtAck = IsAt total c (some acknowledgement_pending) IsCommitted

  abbrev pub AfterAck : RuntimeState W E → Type 0
  AfterAck = IsAt total c (some acknowledgement_pending) IsAcknowledged

  -- One more call that the phase allows.
  pub IsAt-call :
      (s : RuntimeState W E) (w : W) (x : Option OutstandingClaimState) (K : Phase → Type 0)
      (L : Phase → Type 0) (call : Call)
      → IsAt total c x K s
      → ((p : Phase) → K p → (q : Phase) × (next_phase total p call ≡ some q) × L q)
      → IsAt total c x L (record s { world = w; calls = s.calls ++ (call ∷ []) })
  IsAt-call s w x K L call h step =
      let (q, e, l) = step h.phase h.kind in
      record {
        phase = q;
        path = follow-snoc total (some (working 0)) s.calls h.phase call h.path ∙ e;
        kind = l;
        entry = h.entry;
      }

  module _ (env : Environment W E) where
    -- An await that makes no call, in whose course the task may end.
    awaited_step :
        (x : Option OutstandingClaimState) (K : Phase → Type 0)
        → ((p : Phase) → K p → Agrees total x p)
        → (w : W) (s : RuntimeState W E) → IsAt total c x K s
        → (goes_on : Bool)
        → Ends Inv
            (λ _. IsAt total c x K)
            (if goes_on then some tt else none)
            (record s { world = w })
    awaited_step x K agree w s h true = record {
      phase = h.phase;
      path = h.path;
      kind = h.kind;
      entry = h.entry;
    }
    awaited_step x K agree w s h false = record {
      tracked = x;
      at = record { phase = h.phase; path = h.path; kind = agree h.phase h.kind; entry = h.entry };
    }

    pub pause_rule :
        (x : Option OutstandingClaimState) (K : Phase → Type 0)
        → ((p : Phase) → K p → Agrees total x p)
        → Triple Inv (IsAt total c x K) (pause env) (λ _. IsAt total c x K)
    unfolding pause
    pause_rule x K agree s h =
        awaited_step x K agree (env.sleep s.world).0 s h (env.sleep s.world).1

    pub acquire_rule :
        (x : Option OutstandingClaimState) (K : Phase → Type 0)
        → ((p : Phase) → K p → Agrees total x p)
        → Triple Inv (IsAt total c x K) (acquire_permit env) (λ _. IsAt total c x K)
    unfolding acquire_permit
    acquire_rule x K agree s h =
        awaited_step x K agree (env.acquire s.world).0 s h (env.acquire s.world).1

    -- The answers to an attempt and what they show of the call.
    released_as :
        (r : Awaited (Result (Unit {0}) DedupError)) (s : RuntimeState W E)
        → IsAt total c (some processing) (λ p. p ≡ release_phase (is_done r)) s
        → Ends Inv (Judged Inv AtRelease AfterRelease) (judge r) s
    released_as (completed (ok _)) s h = h
    released_as (completed (err e)) s h = after e.kind
      where
        weaker : AtRelease s
        weaker = record { phase = h.phase; path = h.path; kind = rw (h.kind) tt; entry = h.entry }

        after :
            (k : DedupErrorKind)
            → Ends Inv (Judged Inv AtRelease AfterRelease) (some (after_error k)) s
        after retryable = weaker
        after permanent = weaker
    released_as timed_out s h = record {
      phase = h.phase;
      path = h.path;
      kind = rw (h.kind) tt;
      entry = h.entry;
    }
    released_as dropped s h = record {
      tracked = some processing;
      at = record { phase = h.phase; path = h.path; kind = rw (h.kind) tt; entry = h.entry };
    }

    try_release_rule : Triple Inv AtRelease (try_release env c) (Judged Inv AtRelease AfterRelease)
    unfolding try_release
    try_release_rule s h =
        let r = (env.release c s.world).1 in
        released_as r _ (
          IsAt-call s _ _ _ _ (release_call (is_done r)) h
            (λ p k. (release_phase (is_done r), release_step total (is_done r) p k, refl)))

    committed_as :
        (r : Awaited (Result (Unit {0}) DedupError)) (s : RuntimeState W E)
        → IsAt total c (some commit_pending) (λ p. p ≡ commit_phase (is_done r)) s
        → Ends Inv (Judged Inv AtCommit AfterCommit) (judge r) s
    committed_as (completed (ok _)) s h = h
    committed_as (completed (err e)) s h = after e.kind
      where
        weaker : AtCommit s
        weaker = record { phase = h.phase; path = h.path; kind = rw (h.kind) tt; entry = h.entry }

        after :
            (k : DedupErrorKind)
            → Ends Inv (Judged Inv AtCommit AfterCommit) (some (after_error k)) s
        after retryable = weaker
        after permanent = weaker
    committed_as timed_out s h = record {
      phase = h.phase;
      path = h.path;
      kind = rw (h.kind) tt;
      entry = h.entry;
    }
    committed_as dropped s h = record {
      tracked = some commit_pending;
      at = record { phase = h.phase; path = h.path; kind = rw (h.kind) tt; entry = h.entry };
    }

    try_commit_rule : Triple Inv AtCommit (try_commit env c) (Judged Inv AtCommit AfterCommit)
    unfolding try_commit
    try_commit_rule s h =
        let r = (env.commit c s.world).1 in
        committed_as r _ (
          IsAt-call s _ _ _ _ (commit_call (is_done r)) h
            (λ p k. (commit_phase (is_done r), commit_step total (is_done r) p k, refl)))

    acknowledged_as :
        (r : Awaited (Result (Unit {0}) String)) (s : RuntimeState W E)
        → IsAt total c (some acknowledgement_pending) (λ p. p ≡ ack_phase (is_done r)) s
        → Ends Inv (Either Inv AtAck AfterAck) (answer_of r) s
    acknowledged_as (completed (ok _)) s h = h
    acknowledged_as (completed (err e)) s h = h
    acknowledged_as timed_out s h = h
    acknowledged_as dropped s h = record { tracked = some acknowledgement_pending; at = h }

    ack_step :
        (b : Bool) (p : Phase)
        → p ≡ committed
        → next_phase total p (ack_call b) ≡ some (ack_phase b)
    unfolding next_phase
    ack_step b p h = rw h

    try_acknowledge_rule :
        (adapter : ℕ) (event : E)
        → Triple Inv AtAck (try_acknowledge env adapter event) (Either Inv AtAck AfterAck)
    unfolding try_acknowledge
    try_acknowledge_rule adapter event s h =
        let r = (env.event_handled adapter event s.world).1 in
        acknowledged_as r _ (
          IsAt-call s _ _ _ _ (ack_call (is_done r)) h
            (λ p k. (ack_phase (is_done r), ack_step (is_done r) p k, refl)))

    pub release_rule :
        Triple Inv AtRelease (release_claim_with_retry env c) (Finalized Inv AtRelease AfterRelease)
    unfolding release_claim_with_retry
    release_rule =
        finalize_loop_rule Inv env AtRelease AfterRelease (pause_rule _ _ (λ p k. k))
          dedup_release_max_attempts (try_release env c) try_release_rule

    pub commit_rule :
        Triple Inv AtCommit (commit_claim_with_retry env c) (Finalized Inv AtCommit AfterCommit)
    unfolding commit_claim_with_retry
    commit_rule =
        finalize_loop_rule Inv env AtCommit AfterCommit (pause_rule _ _ (λ p k. k))
          dedup_commit_max_attempts (try_commit env c) try_commit_rule

    pub acknowledge_rule :
        (adapter : ℕ) (event : E)
        → Triple Inv AtAck
            (acknowledge_event_with_retry env adapter event)
            (Either Inv AtAck AfterAck)
    unfolding acknowledge_event_with_retry
    acknowledge_rule adapter event =
        acknowledge_loop_rule Inv env AtAck AfterAck (pause_rule _ _ (λ p k. k))
          event_ack_max_attempts adapter event (try_acknowledge_rule adapter event)
