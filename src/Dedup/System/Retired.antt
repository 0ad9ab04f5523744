-- ===== src/Dedup/System/Retired.antt =====
-- The first commit or release by a claim is its last: later ones, at any time, change nothing.
use bro_know_my_qqbot.Prelude.{
  ℕ, ◌+◌, ◌≡◌, ◌≢◌, refl, ◌⊎◌, Option, none, some, List, [], ◌∷◌, arith, Option-cases, inl, inr,
  All,
}
use bro_know_my_qqbot.Prelude.Map.{get, remove, get-insert, get-remove}
use bro_know_my_qqbot.Dedup.{
  DedupKey, DedupClaim, MemoryEntry, in_flight, committed, MemoryState, ClaimCall, key_discrete,
  entry_of, attempt, claim, settle, new_call, evict_loop, evict_committed, admit_pending_claim,
  pin_once, commit, release,
}
use bro_know_my_qqbot.Dedup.Pins.{settle-entries, pin-entries}
use bro_know_my_qqbot.Dedup.Accounts.{attempt_committed}
use bro_know_my_qqbot.Dedup.System.{
  System, Event, starts, resumes, cancels, commits, releases, take_out, step, run,
}

-- The UUID that the event draws, if it draws one, is not that of the claim.
abbrev pub DrawsOther : DedupClaim → Event → Type 0
DrawsOther c (starts key fresh) = fresh ≢ c.token
DrawsOther c (resumes i fresh) = fresh ≢ c.token
DrawsOther c _ = Unit {0}

-- A commit or a release by the claim.
abbrev pub Finalizes : DedupClaim → Event → Type 0
Finalizes c (commits d) = d ≡ c
Finalizes c (releases d) = d ≡ c
Finalizes c _ = ⊥

-- The claim is not in flight.
abbrev IsRetired : DedupClaim → MemoryState → Type 0
IsRetired c s = entry_of s c.key ≢ some (in_flight c.token)

retired_unchanged :
    (s : MemoryState) (c : DedupClaim)
    → IsRetired c s
    → ((commit s c).0 ≡ s) × ((release s c).0 ≡ s)
unfolding commit release
retired_unchanged s c r = (ground arith, ground arith)

-- Whoever finalizes, a claim that is not in flight does not get there.
finalize-IsRetired :
    (s : MemoryState) (c d : DedupClaim)
    → IsRetired c s
    → IsRetired c (commit s d).0 × IsRetired c (release s d).0
unfolding commit release
finalize-IsRetired s c d r = (
  ground (arith, get-insert key_discrete d.key c.key (committed d.token) s.entries),
  ground (arith, get-remove key_discrete d.key c.key s.entries),
)

own-IsRetired :
    (s : MemoryState) (c : DedupClaim) → IsRetired c (commit s c).0 × IsRetired c (release s c).0
unfolding commit release
own-IsRetired s c = (
  ground (arith, get-insert key_discrete c.key c.key (committed c.token) s.entries),
  ground (arith, get-remove key_discrete c.key c.key s.entries),
)

-- An eviction only takes entries out.
evict_loop-cases :
    (capacity : ℕ) (entries : List (DedupKey × MemoryEntry)) (queue : List (DedupKey × ℕ))
    (key : DedupKey)
    → let r = (evict_loop capacity entries queue).0 in
      (get key_discrete key r ≡ none) ⊎ (get key_discrete key r ≡ get key_discrete key entries)
unfolding evict_loop
evict_loop-cases capacity entries [] key = inr refl
evict_loop-cases capacity entries ((expired, token) ∷ queue) key = ground (
  arith,
  evict_loop-cases capacity (remove key_discrete expired entries) queue key,
  evict_loop-cases capacity entries queue key,
  get-remove key_discrete expired key entries,
)

module _ (capacity : ℕ) (s : MemoryState) (c : DedupClaim) (r : IsRetired c s) where
  evicted-IsRetired : IsRetired c (evict_committed s capacity)
  unfolding evict_committed
  evicted-IsRetired =
      let cases = evict_loop-cases capacity s.entries s.evictable c.key in ground (arith, cases)

  attempt-IsRetired :
      (call : ClaimCall) (fresh : ℕ) (o : Option MemoryEntry)
      → entry_of s call.key ≡ o
      → fresh ≢ c.token
      → IsRetired c (attempt capacity s call fresh).0
  unfolding attempt admit_pending_claim pin_once
  attempt-IsRetired call fresh (some (committed t)) f n =
      rw (attempt_committed capacity s call fresh t f, settle-entries s call) r
  attempt-IsRetired call fresh (some (in_flight t)) f n = ground (
    arith,
    settle-entries s call,
    pin-entries s call.key,
    pin-entries (record s { pending_claims = s.pending_claims + 1 }) call.key,
  )
  attempt-IsRetired call fresh none f n = ground (
    arith,
    evicted-IsRetired,
    settle-entries (evict_committed s capacity) call,
    get-insert key_discrete call.key c.key (in_flight fresh)
        (settle (evict_committed s capacity) call).entries,
  )

  claim-IsRetired :
      (k : DedupKey) (fresh : ℕ) → fresh ≢ c.token → IsRetired c (claim capacity s k fresh).0
  unfolding claim
  claim-IsRetired k fresh n =
      ground (arith, attempt-IsRetired (new_call k) fresh (entry_of s k) refl n)

step-IsRetired :
    (capacity : ℕ) (sys : System) (ev : Event) (c : DedupClaim)
    → IsRetired c sys.store
    → DrawsOther c ev
    → IsRetired c (step capacity sys ev).store
unfolding step
step-IsRetired capacity sys (starts k fresh) c r n =
    claim-IsRetired capacity sys.store c r k fresh n
step-IsRetired capacity sys (resumes i fresh) c r n = elim (Option-cases (take_out sys.waiting i)) [
  | inl f ↦ rw (f, step) r
  | inr (((call, w), others), f) ↦
      rw (f, step)
        (attempt-IsRetired capacity sys.store c r call fresh (entry_of sys.store call.key) refl n)
]
step-IsRetired capacity sys (cancels i) c r n = elim (Option-cases (take_out sys.waiting i)) [
  | inl f ↦ rw (f, step) r
  | inr (((call, w), others), f) ↦ rw (f, step) (rw (settle-entries sys.store call) r)
]
step-IsRetired capacity sys (commits d) c r n = (finalize-IsRetired sys.store c d r).0
step-IsRetired capacity sys (releases d) c r n = (finalize-IsRetired sys.store c d r).1

run-IsRetired :
    (capacity : ℕ) (sys : System) (es : List Event) (c : DedupClaim)
    → IsRetired c sys.store
    → All (DrawsOther c) es
    → IsRetired c (run capacity sys es).store
unfolding run
run-IsRetired capacity sys [] c r n = r
run-IsRetired capacity sys (ev ∷ es) c r n =
    run-IsRetired capacity (step capacity sys ev) es c (step-IsRetired capacity sys ev c r n.0) n.1

finalized-IsRetired :
    (capacity : ℕ) (sys : System) (ev : Event) (c : DedupClaim)
    → Finalizes c ev
    → IsRetired c (step capacity sys ev).store
unfolding step
finalized-IsRetired capacity sys (starts k fresh) c f = absurd f
finalized-IsRetired capacity sys (resumes i fresh) c f = absurd f
finalized-IsRetired capacity sys (cancels i) c f = absurd f
finalized-IsRetired capacity sys (commits d) c f = rw f (own-IsRetired sys.store c).0
finalized-IsRetired capacity sys (releases d) c f = rw f (own-IsRetired sys.store c).1

-- Once a claim has been committed or released, successfully or not, then after any history that
-- draws other UUIDs than the claim's, its key claimed anew, committed or evicted as may be, a commit
-- and a release by this claim leave the store as it is.
pub run-retired :
    (capacity : ℕ) (sys : System) (ev : Event) (es : List Event) (c : DedupClaim)
    → Finalizes c ev
    → All (DrawsOther c) es
    → let s = (run capacity sys (ev ∷ es)).store in ((commit s c).0 ≡ s) × ((release s c).0 ≡ s)
unfolding run
run-retired capacity sys ev es c f n =
    retired_unchanged (run capacity (step capacity sys ev) es).store c (
      run-IsRetired capacity (step capacity sys ev) es c (finalized-IsRetired capacity sys ev c f)
        n)
