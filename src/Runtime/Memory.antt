-- ===== src/Runtime/Memory.antt =====
-- The runtime over the in-memory store: what is left in the store when an event was processed.
use bro_know_my_qqbot.Prelude.{
  ℕ, zero, suc, ◌+◌, ◌≤◌, ◌<◌, dec_lt, ◌≡◌, refl, ap, ◌∙◌, String, Bool, true, false, Option, none,
  some, List, [], ◌∷◌, ◌++◌, ◌==◌, Result, ok, err, arith,
}
use bro_know_my_qqbot.Prelude.Map.{remove}
use bro_know_my_qqbot.Dedup
use bro_know_my_qqbot.Dedup.{
  DedupKey, DedupClaim, DedupError, MemoryState, in_flight, committed, entry_of, Attempt, duplicate,
  claimed, refused, waits, settle,
}
use bro_know_my_qqbot.Dedup.Finalize.{commit_in_flight, release_in_flight}
use bro_know_my_qqbot.Router.Events.{HandlerError}
use bro_know_my_qqbot.Runtime.{
  claim_discrete, OutstandingClaim, DedupFinalizationResult, succeeded, Awaited, completed,
  timed_out, Environment, ◌>>=◌, judge, finalize_next, try_again, retryable_failure, commit_pending,
  acknowledgement_pending, acknowledge_next, RuntimeState, Task, Call, handler_call, release_call,
  commit_call, ack_call, run_handler, run_handlers, is_done, answer_of, finalize_loop, try_commit,
  try_release, try_acknowledge, acknowledge_loop, commit_claim_with_retry, release_claim_with_retry,
  handlers_next, mark, acknowledge_event_with_retry, mark_commit_pending,
  mark_acknowledgement_pending, untrack_claim,
}
use bro_know_my_qqbot.Runtime.Recovery.{
  after_handlers, after_commit, after_acknowledgement, after_handlers_failed,
}

-- An answer of one pass of `claim`. A call that would wait runs into its timeout, and is settled.
abbrev pub memory_claim :
    Attempt → MemoryState → MemoryState × Awaited (Result (Option DedupClaim) DedupError)
memory_claim duplicate m = (m, completed (ok none))
memory_claim (claimed c) m = (m, completed (ok (some c)))
memory_claim (refused e) m = (m, completed (err e))
memory_claim (waits call w) m = (settle m call, timed_out)

-- The store is a `MemoryState`; handlers and adapters do not touch it, and are given by their answers.
abbrev pub memory_environment :
    {E : Type 0}
    → (capacity fresh : ℕ) → (ℕ → E → Awaited (Result (Unit {0}) HandlerError))
    → (ℕ → E → Awaited (Result (Unit {0}) String))
    → Environment MemoryState E
memory_environment capacity fresh handled acknowledged = record {
  handle = λ n event m. (m, handled n event);
  claim = λ key m. let (m', attempt) = Dedup.claim capacity m key fresh in memory_claim attempt m';
  commit = λ c m. let (m', r) = Dedup.commit m c in (m', completed r);
  release = λ c m. let (m', r) = Dedup.release m c in (m', completed r);
  event_handled = λ adapter event m. (m, acknowledged adapter event);
  sleep = λ m. (m, true);
  acquire = λ m. (m, true);
}

-- A task goes on where the first part of it ends.
pub bind-eq :
    {W E A B : Type 0} (m : Task W E A) (f : A → Task W E B) (s t : RuntimeState W E) (a : A)
    → m s ≡ (t, some a)
    → (m >>= f) s ≡ f a t
bind-eq m f s t a e = ap (λ r. elim r.1 [ none ↦ (r.0, none) | some x ↦ f x r.0 ]) e

module _ {E : Type 0} (capacity fresh : ℕ)
    (handled : ℕ → E → Awaited (Result (Unit {0}) HandlerError))
    (acknowledged : ℕ → E → Awaited (Result (Unit {0}) String)) (adapter : ℕ) (event : E) where
  abbrev env : Environment MemoryState E
  env = memory_environment capacity fresh handled acknowledged

  -- The state after one more handler.
  abbrev after_handler : ℕ → Bool → RuntimeState MemoryState E → RuntimeState MemoryState E
  after_handler n b s = record s { calls = s.calls ++ (handler_call n b ∷ []) }

  handling_lem :
      (n : ℕ) (s : RuntimeState MemoryState E) (r : Awaited (Result (Unit {0}) HandlerError))
      → handled n event ≡ r
      → run_handler env n event s ≡ (after_handler n (is_done r) s, answer_of r)
  unfolding run_handler
  handling_lem n s r h = ap (λ x. (after_handler n (is_done x) s, answer_of x)) h

  pub all_handled :
      (k n : ℕ) (s : RuntimeState MemoryState E)
      → ((i : ℕ) → handled i event ≡ completed (ok tt))
      → (calls : List Call) × (run_handlers env k n event s
          ≡ (record s { calls = calls }, some true))
  unfolding run_handlers handlers_next
  all_handled zero n s h = (s.calls, refl)
  all_handled (suc k) n s h =
      let s' = after_handler n true s in
      let (calls, e) = all_handled k (n + 1) s' h in
      (
        calls,
        bind-eq (run_handler env n event) (handlers_next env (run_handlers env k (n + 1) event)) s
              s' true (handling_lem n s (completed (ok tt)) (h n))
            ∙ e,
      )

  -- The handlers before the `bad` one succeed, and it fails.
  pub spoiled_at :
      (k n bad : ℕ) (s : RuntimeState MemoryState E)
      → n ≤ bad
      → bad < n + k
      → ((i : ℕ) → i < bad → handled i event ≡ completed (ok tt))
      → answer_of (handled bad event) ≡ some false
      → (calls : List Call) × (run_handlers env k n event s
          ≡ (record s { calls = calls }, some false))
  unfolding run_handlers handlers_next
  spoiled_at zero n bad s l m h b = absurd (omega arith)
  spoiled_at (suc k) n bad s l m h b = elim (dec_lt n bad) [
    | yes less ↦
        let s' = after_handler n true s in
        let (calls, e) = spoiled_at k (n + 1) bad s' (omega arith) (omega arith) h b in
        (
          calls,
          bind-eq (run_handler env n event) (handlers_next env (run_handlers env k (n + 1) event)) s
                s' true (handling_lem n s (completed (ok tt)) (h n less))
              ∙ e,
        )
    | no more ↦
        let same : bad ≡ n = omega arith in
        let r = handled n event in
        (
          s.calls ++ (handler_call n (is_done r) ∷ []),
          bind-eq (run_handler env n event) (handlers_next env (run_handlers env k (n + 1) event)) s
              (after_handler n (is_done r) s) false
              (handling_lem n s r refl
                ∙ ap (λ x. (after_handler n (is_done r) s, x)) (rw same at b)),
        )
  ]

  committing_lem :
      (s : RuntimeState MemoryState E) (c : DedupClaim)
      → entry_of s.world c.key ≡ some (in_flight c.token)
      → try_commit env c s ≡ (
        record s { world = (Dedup.commit s.world c).0; calls = s.calls ++ (commit_call true ∷ []) },
        some (some succeeded),
      )
  unfolding try_commit
  committing_lem s c e =
      ap
        (λ r. (
          record s {
            world = (Dedup.commit s.world c).0;
            calls = s.calls ++ (commit_call (is_done (completed r)) ∷ []);
          },
          judge (completed r),
        ))
        (commit_in_flight s.world c e).0

  releasing_lem :
      (s : RuntimeState MemoryState E) (c : DedupClaim)
      → entry_of s.world c.key ≡ some (in_flight c.token)
      → try_release env c s ≡ (
        record s {
          world = (Dedup.release s.world c).0;
          calls = s.calls ++ (release_call true ∷ []);
        },
        some (some succeeded),
      )
  unfolding try_release
  releasing_lem s c e =
      ap
        (λ r. (
          record s {
            world = (Dedup.release s.world c).0;
            calls = s.calls ++ (release_call (is_done (completed r)) ∷ []);
          },
          judge (completed r),
        ))
        (release_in_flight s.world c e).0

  acknowledging_lem :
      (s : RuntimeState MemoryState E)
      → acknowledged adapter event ≡ completed (ok tt)
      → try_acknowledge env adapter event s
        ≡ (record s { calls = s.calls ++ (ack_call true ∷ []) }, some true)
  unfolding try_acknowledge
  acknowledging_lem s h =
      ap (λ r. (record s { calls = s.calls ++ (ack_call (is_done r) ∷ []) }, answer_of r)) h

  -- A loop of attempts whose first one succeeds.
  finalized_first :
      (n : ℕ) (attempt : Task MemoryState E (Option DedupFinalizationResult))
      (s t : RuntimeState MemoryState E)
      → attempt s ≡ (t, some (some succeeded))
      → finalize_loop env (suc n) attempt s ≡ (t, some succeeded)
  unfolding finalize_loop finalize_next
  finalized_first n attempt s t e =
      bind-eq attempt
        (finalize_next env (try_again env retryable_failure (n == 0) (finalize_loop env n attempt)))
        s t (some succeeded) e

  acknowledged_first :
      (n : ℕ) (s t : RuntimeState MemoryState E)
      → try_acknowledge env adapter event s ≡ (t, some true)
      → acknowledge_loop env (suc n) adapter event s ≡ (t, some true)
  unfolding acknowledge_loop acknowledge_next
  acknowledged_first n s t e =
      bind-eq (try_acknowledge env adapter event)
        (acknowledge_next env (try_again env false (n == 0) (acknowledge_loop env n adapter event)))
        s t true e

  -- The task from the end of its handlers on, where each first attempt succeeds.
  pub commits_all :
      (s : RuntimeState MemoryState E) (c : DedupClaim)
      → entry_of s.world c.key ≡ some (in_flight c.token)
      → acknowledged adapter event ≡ completed (ok tt)
      → (calls : List Call) × (m : List (DedupClaim × OutstandingClaim E)) × (after_handlers env
            adapter event c true s
          ≡ (
            record s {
              world = (Dedup.commit s.world c).0;
              outstanding = remove claim_discrete c m;
              calls = calls;
            },
            some none,
          ))
  unfolding after_handlers mark_commit_pending mark after_commit mark_acknowledgement_pending
      after_acknowledgement untrack_claim commit_claim_with_retry acknowledge_event_with_retry
  commits_all s c e a =
      let s1 = (mark commit_pending c s).0 in
      let s2 = record s1 {
        world = (Dedup.commit s.world c).0;
        calls = s.calls ++ (commit_call true ∷ []);
      } in
      let s3 = (mark acknowledgement_pending c s2).0 in
      let s4 = record s3 { calls = s3.calls ++ (ack_call true ∷ []) } in
      (
        s4.calls,
        s4.outstanding,
        bind-eq (commit_claim_with_retry env c) (after_commit env adapter event c) s1 s2 succeeded
              (finalized_first 3 (try_commit env c) s1 s2 (committing_lem s1 c e))
            ∙ bind-eq (acknowledge_event_with_retry env adapter event)
                (after_acknowledgement env adapter event c) s3 s4 true
                (acknowledged_first 3 s3 s4 (acknowledging_lem s3 a)),
      )

  pub releases_all :
      (s : RuntimeState MemoryState E) (c : DedupClaim)
      → entry_of s.world c.key ≡ some (in_flight c.token)
      → (calls : List Call) × (after_handlers env adapter event c false s ≡ (
        record s {
          world = (Dedup.release s.world c).0;
          outstanding = remove claim_discrete c s.outstanding;
          calls = calls;
        },
        some none,
      ))
  unfolding after_handlers after_handlers_failed untrack_claim release_claim_with_retry
  releases_all s c e =
      let s1 = record s {
        world = (Dedup.release s.world c).0;
        calls = s.calls ++ (release_call true ∷ []);
      } in
      (
        s1.calls,
        bind-eq (release_claim_with_retry env c) (after_handlers_failed env adapter event c) s s1
            succeeded (finalized_first 3 (try_release env c) s s1 (releasing_lem s c e)),
      )
