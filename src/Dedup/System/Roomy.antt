-- ===== src/Dedup/System/Roomy.antt =====
-- A commit is final as long as the store has room: only a full store evicts.
use bro_know_my_qqbot.Prelude.{
  ℕ, suc, ◌<◌, ◌≡◌, refl, ap, ◌∙◌, false, some, List, [], ◌∷◌, ok, arith, take, length, leb,
}
use bro_know_my_qqbot.Dedup.{
  DedupKey, DedupClaim, MemoryEntry, MemoryState, ClaimCall, committed, entry_of, duplicate,
  attempt, settle, evict_loop, evict_committed, commit, release,
}
use bro_know_my_qqbot.Dedup.Accounts.{attempt_committed}
use bro_know_my_qqbot.Dedup.Finalize.{committed_after, commit_committed, release_committed}
use bro_know_my_qqbot.Dedup.System.{System, Event, commits, step, run}
use bro_know_my_qqbot.Dedup.System.Committed.{step-committed}

evict_loop_roomy :
    (capacity : ℕ) (entries : List (DedupKey × MemoryEntry)) (queue : List (DedupKey × ℕ))
    → length entries < capacity
    → evict_loop capacity entries queue ≡ (entries, queue)
unfolding evict_loop
evict_loop_roomy capacity entries [] l = refl
evict_loop_roomy capacity entries ((expired, token) ∷ queue) l =
    let room : leb capacity (length entries) ≡ false = ground arith in rw room refl

evicted_roomy :
    (capacity : ℕ) (s : MemoryState) (key : DedupKey)
    → length s.entries < capacity
    → entry_of (evict_committed s capacity) key ≡ entry_of s key
unfolding evict_committed
evicted_roomy capacity s key l = rw (evict_loop_roomy capacity s.entries s.evictable l) refl

run_committed :
    (capacity : ℕ) (sys : System) (es : List Event) (key : DedupKey) (token : ℕ)
    → entry_of sys.store key ≡ some (committed token)
    → ((n : ℕ) → length (run capacity sys (take n es)).store.entries < capacity)
    → entry_of (run capacity sys es).store key ≡ some (committed token)
unfolding run
run_committed capacity sys [] key token e l = e
run_committed capacity sys (ev ∷ es) key token e l =
    run_committed capacity (step capacity sys ev) es key token
      (step-committed capacity sys ev key token e (evicted_roomy capacity sys.store key (l 0) ∙ e))
      (λ n. l (suc n))

-- After a successful commit, through any history whose states all hold fewer entries than the
-- capacity: a commit by the same claim succeeds again and a release by it succeeds, neither
-- changes the store, and a call on the key learns that the event is a duplicate. A full store may
-- evict the key.
pub run-final :
    (capacity : ℕ) (sys : System) (c : DedupClaim) (es : List Event) (call : ClaimCall) (fresh : ℕ)
    → (commit sys.store c).1 ≡ ok tt
    → ((n : ℕ)
        → length (run capacity (step capacity sys (commits c)) (take n es)).store.entries
          < capacity)
    → call.key ≡ c.key
    → let s = (run capacity sys (commits c ∷ es)).store in
      (commit s c ≡ (s, ok tt))
      × (release s c ≡ (s, ok tt))
      × (attempt capacity s call fresh ≡ (settle s call, duplicate))
unfolding run step
run-final capacity sys c es call fresh h l k =
    let sys' = step capacity sys (commits c) in
    let e : entry_of (run capacity sys' es).store c.key ≡ some (committed c.token) =
      run_committed capacity sys' es c.key c.token
        (committed_after sys.store (commit sys.store c).0 c
          (ap (λ r. ((commit sys.store c).0, r)) h))
        l in
    let s = (run capacity sys' es).store in
    (
      commit_committed s c e,
      release_committed s c e,
      attempt_committed capacity s call fresh c.token (rw k e),
    )
