-- ===== src/Dedup/System/Pinned.antt =====
-- A committed key that a call waits for is not evicted before the call has seen it.
use bro_know_my_qqbot.Prelude.{
  ℕ, suc, ◌≤◌, ◌<◌, ◌≡◌, ◌∙◌, none, some, List, [], ◌∷◌, arith, take, usize_max,
}
use bro_know_my_qqbot.Dedup.{
  DedupKey, committed, MemoryState, ClaimCall, entry_of, waiters_of, duplicate, attempt, settle,
  evict_committed,
}
use bro_know_my_qqbot.Dedup.Evict.{IsValid, ready, evict_committed-Evicts}
use bro_know_my_qqbot.Dedup.Accounts.{attempt_committed}
use bro_know_my_qqbot.Dedup.System.{System, Event, step, run}
use bro_know_my_qqbot.Dedup.System.Books.{IsBalanced, step-IsBalanced}
use bro_know_my_qqbot.Dedup.System.Committed.{step-committed}

-- An eviction keeps a key that some call waits for.
evicted_pinned :
    (capacity : ℕ) (s : MemoryState) (key : DedupKey) (token : ℕ)
    → IsValid capacity s
    → entry_of s key ≡ some (committed token)
    → 0 < waiters_of s key
    → entry_of (evict_committed s capacity) key ≡ some (committed token)
evicted_pinned capacity s key token v e p =
    let h : ready (entry_of s key) (waiters_of s key) ≡ none = ground arith in
    (evict_committed-Evicts capacity s v).kept key h ∙ e

-- Once a key is committed, it stays so through any history for as long as some call waits for it,
-- and a call on its key, whenever it runs, learns that the event is a duplicate.
pub run-pinned :
    (capacity : ℕ) (sys : System) (es : List Event) (key : DedupKey) (token : ℕ) (c : ClaimCall)
    (fresh : ℕ)
    → capacity ≤ usize_max
    → IsBalanced capacity sys
    → entry_of sys.store key ≡ some (committed token)
    → ((n : ℕ) → 0 < waiters_of (run capacity sys (take n es)).store key)
    → c.key ≡ key
    → let sys' = run capacity sys es in
      (entry_of sys'.store key ≡ some (committed token))
      × (attempt capacity sys'.store c fresh ≡ (settle sys'.store c, duplicate))
unfolding run
run-pinned capacity sys [] key token c fresh m b e p k =
    (e, attempt_committed capacity sys.store c fresh token (rw k e))
run-pinned capacity sys (ev ∷ es) key token c fresh m b e p k =
    run-pinned capacity (step capacity sys ev) es key token c fresh m
      (step-IsBalanced capacity m sys ev b)
      (step-committed capacity sys ev key token e
        (evicted_pinned capacity sys.store key token b.valid e (p 0)))
      (λ n. p (suc n)) k
