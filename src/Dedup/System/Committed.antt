-- ===== src/Dedup/System/Committed.antt =====
-- A committed key stays committed through every event, unless the eviction of that event takes it out.
use bro_know_my_qqbot.Prelude.{ℕ, ◌+◌, ◌≡◌, refl, Option, none, some, arith, Option-cases, inl, inr}
use bro_know_my_qqbot.Prelude.Map.{get-insert, get-remove}
use bro_know_my_qqbot.Dedup.{
  DedupKey, MemoryEntry, in_flight, committed, MemoryState, ClaimCall, key_discrete, entry_of,
  DedupClaim, attempt, claim, settle, new_call, evict_committed, admit_pending_claim, pin_once,
  commit, release,
}
use bro_know_my_qqbot.Dedup.Pins.{settle-entries, pin-entries}
use bro_know_my_qqbot.Dedup.Accounts.{attempt_committed}
use bro_know_my_qqbot.Dedup.System.{
  System, Event, starts, resumes, cancels, commits, releases, take_out, step,
}

module _ (capacity : ℕ) (s : MemoryState) (key : DedupKey) (token : ℕ)
    (e : entry_of s key ≡ some (committed token))
    (evicted_kept : entry_of (evict_committed s capacity) key ≡ some (committed token)) where
  attempt_kept :
      (c : ClaimCall) (fresh : ℕ) (o : Option MemoryEntry)
      → entry_of s c.key ≡ o
      → entry_of (attempt capacity s c fresh).0 key ≡ some (committed token)
  unfolding attempt admit_pending_claim pin_once
  attempt_kept c fresh (some (committed t)) f =
      rw (attempt_committed capacity s c fresh t f, settle-entries s c) e
  attempt_kept c fresh (some (in_flight t)) f = ground (
    arith,
    settle-entries s c,
    pin-entries s c.key,
    pin-entries (record s { pending_claims = s.pending_claims + 1 }) c.key,
  )
  attempt_kept c fresh none f = ground (
    arith,
    evicted_kept,
    settle-entries (evict_committed s capacity) c,
    get-insert key_discrete c.key key (in_flight fresh)
        (settle (evict_committed s capacity) c).entries,
  )

  -- Nobody finalizes a committed key anew.
  finalize_kept :
      (c : DedupClaim)
      → (entry_of (commit s c).0 key ≡ some (committed token))
        × (entry_of (release s c).0 key ≡ some (committed token))
  unfolding commit release
  finalize_kept c = (
    ground (arith, get-insert key_discrete c.key key (committed c.token) s.entries),
    ground (arith, get-remove key_discrete c.key key s.entries),
  )

  claim_kept :
      (k : DedupKey) (fresh : ℕ)
      → entry_of (claim capacity s k fresh).0 key ≡ some (committed token)
  unfolding claim
  claim_kept k fresh =
      let c = new_call k in ground (arith, attempt_kept c fresh (entry_of s k) refl)

-- One event, whatever it is, whose eviction would keep the key.
pub step-committed :
    (capacity : ℕ) (sys : System) (ev : Event) (key : DedupKey) (token : ℕ)
    → entry_of sys.store key ≡ some (committed token)
    → entry_of (evict_committed sys.store capacity) key ≡ some (committed token)
    → entry_of (step capacity sys ev).store key ≡ some (committed token)
unfolding step
step-committed capacity sys (starts k fresh) key token e p =
    claim_kept capacity sys.store key token e p k fresh
step-committed capacity sys (resumes i fresh) key token e p =
    elim (Option-cases (take_out sys.waiting i)) [
      | inl f ↦ rw (f, step) e
      | inr (((c, w), others), f) ↦
          rw (f, step)
            (attempt_kept capacity sys.store key token e p c fresh (entry_of sys.store c.key) refl)
    ]
step-committed capacity sys (cancels i) key token e p =
    elim (Option-cases (take_out sys.waiting i)) [
      | inl f ↦ rw (f, step) e
      | inr (((c, w), others), f) ↦ rw (f, step) (rw (settle-entries sys.store c) e)
    ]
step-committed capacity sys (commits c) key token e p =
    (finalize_kept capacity sys.store key token e p c).0
step-committed capacity sys (releases c) key token e p =
    (finalize_kept capacity sys.store key token e p c).1
