-- ===== src/Runtime/Handlers.antt =====
-- The handlers of an event, and the marks of its claim, keep to the protocol.
use bro_know_my_qqbot.Prelude.{
  ℕ, zero, suc, ◌+◌, ◌<◌, ◌≡◌, refl, Bool, true, false, Option, none, some, Result, ok, err, arith,
  Option-cases, inl, inr,
}
use bro_know_my_qqbot.Prelude.Map.{get, get-insert, get-remove}
use bro_know_my_qqbot.Dedup.{DedupClaim}
use bro_know_my_qqbot.Router.Events.{HandlerError}
use bro_know_my_qqbot.Runtime.{
  claim_discrete, OutstandingClaimState, processing, Awaited, completed, timed_out, dropped,
  Environment, handler_call, RuntimeState, Task, is_done, answer_of, set_state, mark, untrack_claim,
  run_handler, run_handlers, handlers_next,
}
use bro_know_my_qqbot.Runtime.Protocol.{Phase, working, spoiled, next_phase, IsAt}
use bro_know_my_qqbot.Runtime.Triples.{Ends, Triple, bind_rule, Either}
use bro_know_my_qqbot.Runtime.Retries.{Inv, AtRelease, IsWorking, IsAt-call}

abbrev pub worked : ℕ → Bool → Phase
worked n true = working (n + 1)
worked n false = spoiled

worked_step :
    (total n : ℕ) (b : Bool) (p : Phase)
    → n < total
    → p ≡ working n
    → next_phase total p (handler_call n b) ≡ some (worked n b)
unfolding next_phase
worked_step total n true p l h = rw h (ground arith)
worked_step total n false p l h = rw h (ground arith)

module _ {W E : Type 0} (total : ℕ) (c : DedupClaim) where
  -- The claim is being processed, and the first `n` handlers have succeeded.
  abbrev pub AtHandler : ℕ → RuntimeState W E → Type 0
  AtHandler n = IsAt total c (some processing) (IsWorking n)

  -- A new state for the claim, where the phase fits.
  pub mark_rule :
      (x y : OutstandingClaimState) (K L : Phase → Type 0)
      → ((p : Phase) → K p → L p)
      → Triple {W = W} {E = E}
          (Inv total c)
          (IsAt total c (some y) K)
          (mark x c)
          (λ _. IsAt total c (some x) L)
  unfolding mark set_state
  mark_rule x y K L fits s h = elim (Option-cases (get claim_discrete c s.outstanding)) [
    | inl e ↦ absurd (ground (arith, h.entry, e))
    | inr (o, e) ↦ record {
      phase = h.phase;
      path = h.path;
      kind = fits h.phase h.kind;
      entry =
          ground (arith, e, get-insert claim_discrete c c (record o { state = x }) s.outstanding);
    }
  ]

  pub untrack_rule :
      (x : Option OutstandingClaimState) (K : Phase → Type 0)
      → Triple {W = W} {E = E}
          (Inv total c)
          (IsAt total c x K)
          (untrack_claim c)
          (λ _. IsAt total c none K)
  unfolding untrack_claim
  untrack_rule x K s h = record {
    phase = h.phase;
    path = h.path;
    kind = h.kind;
    entry = ground (arith, get-remove claim_discrete c c s.outstanding);
  }

  module _ (env : Environment W E) (event : E) where
    worked_as :
        (n : ℕ) (r : Awaited (Result (Unit {0}) HandlerError)) (s : RuntimeState W E)
        → IsAt total c (some processing) (λ p. p ≡ worked n (is_done r)) s
        → Ends
            (Inv total c)
            (Either (Inv total c) (AtRelease total c) (AtHandler (n + 1)))
            (answer_of r)
            s
    worked_as n (completed (ok _)) s h = h
    worked_as n (completed (err e)) s h = record {
      phase = h.phase;
      path = h.path;
      kind = rw (h.kind) tt;
      entry = h.entry;
    }
    worked_as n timed_out s h = record {
      phase = h.phase;
      path = h.path;
      kind = rw (h.kind) tt;
      entry = h.entry;
    }
    worked_as n dropped s h = record {
      tracked = some processing;
      at = record { phase = h.phase; path = h.path; kind = rw (h.kind) tt; entry = h.entry };
    }

    run_handler_rule :
        (n : ℕ)
        → n < total
        → Triple
            (Inv total c)
            (AtHandler n)
            (run_handler env n event)
            (Either (Inv total c) (AtRelease total c) (AtHandler (n + 1)))
    unfolding run_handler
    run_handler_rule n l s h =
        let r = (env.handle n event s.world).1 in
        worked_as n r _ (
          IsAt-call total c s _ _ _ _ (handler_call n (is_done r)) h
            (λ p k. (worked n (is_done r), worked_step total n (is_done r) p l k, refl)))

    handlers_next_rule :
        (n : ℕ) (rest : Task W E Bool) (b : Bool)
        → Triple
            (Inv total c)
            (AtHandler n)
            rest
            (Either (Inv total c) (AtRelease total c) (AtHandler total))
        → Triple
            (Inv total c)
            (Either (Inv total c) (AtRelease total c) (AtHandler n) b)
            (handlers_next env rest b)
            (Either (Inv total c) (AtRelease total c) (AtHandler total))
    unfolding handlers_next
    handlers_next_rule n rest true h = h
    handlers_next_rule n rest false h = λ s p. p

    -- The handlers that are left: all succeed, or the claim can be released.
    pub run_handlers_rule :
        (k n : ℕ)
        → n + k ≡ total
        → Triple
            (Inv total c)
            (AtHandler n)
            (run_handlers env k n event)
            (Either (Inv total c) (AtRelease total c) (AtHandler total))
    unfolding run_handlers
    run_handlers_rule zero n e = λ s h. record {
      phase = h.phase;
      path = h.path;
      kind = let same : n ≡ total = omega arith in rw (← same) h.kind;
      entry = h.entry;
    }
    run_handlers_rule (suc k) n e =
        bind_rule (Inv total c) (AtHandler n)
          (Either (Inv total c) (AtRelease total c) (AtHandler (n + 1)))
          (Either (Inv total c) (AtRelease total c) (AtHandler total)) (run_handler env n event) _
          (run_handler_rule n (omega arith))
          (λ b. handlers_next_rule (n + 1) _ b (run_handlers_rule k (n + 1) (omega arith)))
