-- ===== src/Dedup/System/Exclusive.antt =====
-- A claim is owned by one caller until its own commit or release.
use bro_know_my_qqbot.Prelude.{
  ℕ, ◌+◌, ◌≤◌, ◌≡◌, refl, ◌∙◌, ◌≢◌, Option, none, some, List, [], ◌∷◌, arith, Option-cases, inl,
  inr, usize_max, All,
}
use bro_know_my_qqbot.Prelude.Map.{get-insert, get-remove}
use bro_know_my_qqbot.Dedup.{
  DedupKey, DedupClaim, MemoryEntry, in_flight, committed, MemoryState, ClaimCall, key_discrete,
  entry_of, waiters_of, Attempt, duplicate, claimed, refused, waits, attempt, claim, settle,
  new_call, evict_committed, admit_pending_claim, pin_once, commit, release,
}
use bro_know_my_qqbot.Dedup.Evict.{IsValid, ready, evict_committed-Evicts}
use bro_know_my_qqbot.Dedup.Pins.{settle-entries, pin-entries}
use bro_know_my_qqbot.Dedup.Accounts.{attempt_committed}
use bro_know_my_qqbot.Dedup.System.{
  System, Event, starts, resumes, cancels, commits, releases, take_out, step, run,
}
use bro_know_my_qqbot.Dedup.System.Books.{IsBalanced, step-IsBalanced}

-- The event does not finish this claim. It may finish any other, also one on the same key.
abbrev pub Spares : DedupClaim → Event → Type 0
Spares c (commits d) = d ≢ c
Spares c (releases d) = d ≢ c
Spares c _ = Unit {0}

-- The call gets neither a claim nor the answer that the event is a duplicate.
abbrev pub IsHeldBack : Attempt → Type 0
IsHeldBack duplicate = ⊥
IsHeldBack (claimed c) = ⊥
IsHeldBack (refused e) = Unit {0}
IsHeldBack (waits c w) = Unit {0}

module _ (capacity : ℕ) (s : MemoryState) (c : DedupClaim) (v : IsValid capacity s)
    (e : entry_of s c.key ≡ some (in_flight c.token)) where
  evicted_kept : entry_of (evict_committed s capacity) c.key ≡ some (in_flight c.token)
  evicted_kept =
      let h : ready (entry_of s c.key) (waiters_of s c.key) ≡ none = ground arith in
      (evict_committed-Evicts capacity s v).kept c.key h ∙ e

  attempt_kept :
      (call : ClaimCall) (fresh : ℕ) (o : Option MemoryEntry)
      → entry_of s call.key ≡ o
      → entry_of (attempt capacity s call fresh).0 c.key ≡ some (in_flight c.token)
  unfolding attempt admit_pending_claim pin_once
  attempt_kept call fresh (some (committed t)) f =
      rw (attempt_committed capacity s call fresh t f, settle-entries s call) e
  attempt_kept call fresh (some (in_flight t)) f = ground (
    arith,
    settle-entries s call,
    pin-entries s call.key,
    pin-entries (record s { pending_claims = s.pending_claims + 1 }) call.key,
  )
  attempt_kept call fresh none f = ground (
    arith,
    evicted_kept,
    settle-entries (evict_committed s capacity) call,
    get-insert key_discrete call.key c.key (in_flight fresh)
        (settle (evict_committed s capacity) call).entries,
  )

  claim_kept :
      (k : DedupKey) (fresh : ℕ)
      → entry_of (claim capacity s k fresh).0 c.key ≡ some (in_flight c.token)
  unfolding claim
  claim_kept k fresh = ground (arith, attempt_kept (new_call k) fresh (entry_of s k) refl)

  finalize_kept :
      (d : DedupClaim)
      → d ≢ c
      → (entry_of (commit s d).0 c.key ≡ some (in_flight c.token))
        × (entry_of (release s d).0 c.key ≡ some (in_flight c.token))
  unfolding commit release
  finalize_kept d h = (
    ground (arith, get-insert key_discrete d.key c.key (committed d.token) s.entries),
    ground (arith, get-remove key_discrete d.key c.key s.entries),
  )

  held_back :
      (call : ClaimCall) (fresh : ℕ)
      → call.key ≡ c.key
      → IsHeldBack (attempt capacity s call fresh).1
  unfolding attempt admit_pending_claim pin_once
  held_back call fresh k =
      let f : entry_of s call.key ≡ some (in_flight c.token) = rw k e in ground arith

step_kept :
    (capacity : ℕ) (sys : System) (ev : Event) (c : DedupClaim)
    → IsBalanced capacity sys
    → entry_of sys.store c.key ≡ some (in_flight c.token)
    → Spares c ev
    → entry_of (step capacity sys ev).store c.key ≡ some (in_flight c.token)
unfolding step
step_kept capacity sys (starts k fresh) c b e n = claim_kept capacity sys.store c b.valid e k fresh
step_kept capacity sys (resumes i fresh) c b e n = elim (Option-cases (take_out sys.waiting i)) [
  | inl f ↦ rw (f, step) e
  | inr (((call, w), others), f) ↦
      rw (f, step)
        (attempt_kept capacity sys.store c b.valid e call fresh (entry_of sys.store call.key) refl)
]
step_kept capacity sys (cancels i) c b e n = elim (Option-cases (take_out sys.waiting i)) [
  | inl f ↦ rw (f, step) e
  | inr (((call, w), others), f) ↦ rw (f, step) (rw (settle-entries sys.store call) e)
]
step_kept capacity sys (commits d) c b e n = (finalize_kept capacity sys.store c b.valid e d n).0
step_kept capacity sys (releases d) c b e n = (finalize_kept capacity sys.store c b.valid e d n).1

-- While a claim is in flight, through any history that does not commit or release this very claim
-- (other claims, also forged ones on the same key, may be tried), it stays in flight, and no
-- call on its key is granted a claim or told that the event is a duplicate.
pub run-exclusive :
    (capacity : ℕ) (sys : System) (es : List Event) (c : DedupClaim) (call : ClaimCall) (fresh : ℕ)
    → capacity ≤ usize_max
    → IsBalanced capacity sys
    → entry_of sys.store c.key ≡ some (in_flight c.token)
    → All (Spares c) es
    → call.key ≡ c.key
    → let sys' = run capacity sys es in
      (entry_of sys'.store c.key ≡ some (in_flight c.token))
      × IsHeldBack (attempt capacity sys'.store call fresh).1
unfolding run
run-exclusive capacity sys [] c call fresh m b e n k =
    (e, held_back capacity sys.store c b.valid e call fresh k)
run-exclusive capacity sys (ev ∷ es) c call fresh m b e n k =
    run-exclusive capacity (step capacity sys ev) es c call fresh m
      (step-IsBalanced capacity m sys ev b) (step_kept capacity sys ev c b e n.0) n.1 k
