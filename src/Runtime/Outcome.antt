-- ===== src/Runtime/Outcome.antt =====
-- The outcomes of an event that is processed over the in-memory store.
use bro_know_my_qqbot.Prelude.{
  ℕ, ◌<◌, ◌≡◌, ap, ◌∙◌, String, true, false, Option, none, some, List, Result, ok, arith,
}
use bro_know_my_qqbot.Prelude.Map.{get, remove, get-remove}
use bro_know_my_qqbot.Dedup.{DedupClaim, MemoryState, in_flight, committed, entry_of}
use bro_know_my_qqbot.Dedup.Finalize.{commit_in_flight, release_in_flight}
use bro_know_my_qqbot.Router.Events.{HandlerError}
use bro_know_my_qqbot.Runtime.{
  claim_discrete, Awaited, completed, state_of_entry, RuntimeState, tracked_state, run_handlers,
  answer_of,
}
use bro_know_my_qqbot.Runtime.Recovery.{after_handlers, process_claimed_event, PendingEventRetry}
use bro_know_my_qqbot.Runtime.Memory.{
  memory_environment, bind-eq, all_handled, spoiled_at, commits_all, releases_all,
}

get-remove_self :
    {V : Type 0} (c : DedupClaim) (m : List (DedupClaim × V))
    → get claim_discrete c (remove claim_discrete c m) ≡ none
get-remove_self c m = ground (arith, get-remove claim_discrete c c m)

module _ {E : Type 0} (capacity fresh : ℕ)
    (handled : ℕ → E → Awaited (Result (Unit {0}) HandlerError))
    (acknowledged : ℕ → E → Awaited (Result (Unit {0}) String)) (adapter : ℕ) (event : E)
    (total : ℕ) (s : RuntimeState MemoryState E) (c : DedupClaim) where
  -- How the processing of the event ends.
  abbrev pub processed : RuntimeState MemoryState E × Option (Option PendingEventRetry)
  processed =
      process_claimed_event (memory_environment capacity fresh handled acknowledged) adapter event
        total c s

  -- A claimed event whose handlers and whose acknowledgement succeed is finished by its task: the
  -- store remembers it as committed, the claim is no longer outstanding, and nothing is left to do.
  pub process-commits :
      entry_of s.world c.key ≡ some (in_flight c.token)
      → ((i : ℕ) → handled i event ≡ completed (ok tt))
      → acknowledged adapter event ≡ completed (ok tt)
      → (processed.1 ≡ some none)
        × (entry_of (processed.0).world c.key ≡ some (committed c.token))
        × (tracked_state processed.0 c ≡ none)
  unfolding process_claimed_event
  process-commits e h a =
      let env = memory_environment capacity fresh handled acknowledged in
      let (calls, ran) =
        all_handled capacity fresh handled acknowledged adapter event total 0 s h in
      let s' = record s { calls = calls } in
      let (calls', m, rest) =
        commits_all capacity fresh handled acknowledged adapter event s' c e a in
      let whole =
        bind-eq (run_handlers env total 0 event) (after_handlers env adapter event c) s s' true ran
        ∙ rest in
      (
        ap (λ r. r.1) whole,
        ap (λ r. entry_of (r.0).world c.key) whole ∙ (commit_in_flight s.world c e).1,
        ap (λ r. tracked_state r.0 c) whole ∙ ap state_of_entry (get-remove_self c m),
      )

  -- A claimed event one of whose handlers fails or times out is given back by its task: the store
  -- forgets it, so that it can be claimed again, and the claim is no longer outstanding.
  pub process-releases :
      (bad : ℕ)
      → bad < total
      → ((i : ℕ) → i < bad → handled i event ≡ completed (ok tt))
      → answer_of (handled bad event) ≡ some false
      → entry_of s.world c.key ≡ some (in_flight c.token)
      → (processed.1 ≡ some none)
        × (entry_of (processed.0).world c.key ≡ none)
        × (tracked_state processed.0 c ≡ none)
  unfolding process_claimed_event
  process-releases bad l h b e =
      let env = memory_environment capacity fresh handled acknowledged in
      let (calls, ran) =
        spoiled_at capacity fresh handled acknowledged adapter event total 0 bad s (omega arith)
          (omega arith) h b in
      let s' = record s { calls = calls } in
      let (calls', rest) = releases_all capacity fresh handled acknowledged adapter event s' c e in
      let whole =
        bind-eq (run_handlers env total 0 event) (after_handlers env adapter event c) s s' false ran
        ∙ rest in
      (
        ap (λ r. r.1) whole,
        ap (λ r. entry_of (r.0).world c.key) whole ∙ (release_in_flight s.world c e).1,
        ap (λ r. tracked_state r.0 c) whole ∙ ap state_of_entry (get-remove_self c s.outstanding),
      )
