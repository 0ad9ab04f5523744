-- ===== src/Dedup/System/Waiting.antt =====
-- What a waiting call relies on, and which changes of the store it need not know of.
use bro_know_my_qqbot.Prelude.{
  ℕ, ◌≤◌, ◌≡◌, refl, ap, ◌∙◌, true, Option, none, some, List, [], ◌∷◌, length, arith, inl, inr,
}
use bro_know_my_qqbot.Dedup.{
  DedupClaim, MemoryEntry, in_flight, committed, MemoryState, ClaimCall, Wait, Attempt,
  entry_change, capacity_change, entry_of, attempt, settle, evict_committed, admit_pending_claim,
  pin_once, pin_waiter, commit, release, evict_loop,
}
use bro_know_my_qqbot.Dedup.Pins.{settle-entries, settle_signals}
use bro_know_my_qqbot.Dedup.Accounts.{attempt_committed}

-- The store cannot take a key in: it is full, and no entry can be evicted.
abbrev pub IsFull : ℕ → MemoryState → Type 0
IsFull capacity s = (capacity ≤ length s.entries) × (s.evictable ≡ [])

-- What a call that waits relies on.
abbrev pub Blocked : ℕ → MemoryState → ClaimCall → Wait → Type 0
Blocked capacity s c (entry_change token) = c.pinned ≡ true
Blocked capacity s c (capacity_change seen) =
    (seen ≤ s.capacity_changed.version)
    × (seen ≡ s.capacity_changed.version → IsFull capacity s × (entry_of s c.key ≡ none))

abbrev pub AllBlocked : ℕ → MemoryState → List (ClaimCall × Wait) → Type 0
AllBlocked capacity s [] = Unit {0}
AllBlocked capacity s (x ∷ xs) = Blocked capacity s x.0 x.1 × AllBlocked capacity s xs

-- A change of the store that those who wait for room need not know of: it signalled, or left the
-- keys of a full store as they were.
pub record IsQuiet (capacity : ℕ) (s s' : MemoryState) : Type 0 where
  pub later : s.capacity_changed.version ≤ s'.capacity_changed.version
  pub kept :
      s.capacity_changed.version ≡ s'.capacity_changed.version
      → IsFull capacity s
      → (s'.entries ≡ s.entries) × (s'.evictable ≡ [])

quiet-Blocked :
    (capacity : ℕ) (s s' : MemoryState) (c : ClaimCall) (w : Wait)
    → IsQuiet capacity s s'
    → Blocked capacity s c w
    → Blocked capacity s' c w
quiet-Blocked capacity s s' c (entry_change token) q b = b
quiet-Blocked capacity s s' c (capacity_change seen) q b = (
  omega (arith, q.later, b.0),
  λ same.
      let still : seen ≡ s.capacity_changed.version = omega (arith, q.later, b.0) in
      let (full, absent) = b.1 still in
      let (entries, queue) = q.kept (omega arith) full in
      ((rw entries full.0, queue), rw entries absent),
)

pub quiet-AllBlocked :
    (capacity : ℕ) (s s' : MemoryState) (xs : List (ClaimCall × Wait))
    → IsQuiet capacity s s'
    → AllBlocked capacity s xs
    → AllBlocked capacity s' xs
quiet-AllBlocked capacity s s' [] q b = tt
quiet-AllBlocked capacity s s' (x ∷ xs) q b =
    (quiet-Blocked capacity s s' x.0 x.1 q b.0, quiet-AllBlocked capacity s s' xs q b.1)

pub settle-IsQuiet :
    (capacity : ℕ) (s : MemoryState) (c : ClaimCall) → IsQuiet capacity s (settle s c)
settle-IsQuiet capacity s c = record {
  later = omega (arith, settle_signals s c);
  kept = λ same full. elim (settle_signals s c) [
    | inl up ↦ absurd (omega arith)
    | inr (_, queue) ↦ (settle-entries s c, queue ∙ full.1)
  ];
}

-- Eviction does nothing where the queue is empty.
pub evict-empty :
    (capacity : ℕ) (s : MemoryState) → s.evictable ≡ [] → evict_committed s capacity ≡ s
unfolding evict_committed evict_loop
evict-empty capacity s e = ground (arith, e)

evict-version :
    (capacity : ℕ) (s : MemoryState)
    → (evict_committed s capacity).capacity_changed ≡ s.capacity_changed
unfolding evict_committed
evict-version capacity s = refl

module _ (capacity : ℕ) (s : MemoryState) (c : ClaimCall) (fresh : ℕ) where
  attempt-later :
      (o : Option MemoryEntry)
      → entry_of s c.key ≡ o
      → s.capacity_changed.version ≤ (attempt capacity s c fresh).0.capacity_changed.version
  unfolding attempt admit_pending_claim pin_once pin_waiter
  attempt-later (some (committed t)) e =
      rw (attempt_committed capacity s c fresh t e) (omega (arith, settle_signals s c))
  attempt-later (some (in_flight t)) e = ground (arith, settle_signals s c)
  attempt-later none e =
      ground (arith, evict-version capacity s, settle_signals (evict_committed s capacity) c)

  -- In a full store a pass that takes no key in leaves the entries.
  attempt_kept :
      (o : Option MemoryEntry)
      → entry_of s c.key ≡ o
      → s.capacity_changed.version ≡ (attempt capacity s c fresh).0.capacity_changed.version
      → IsFull capacity s
      → ((attempt capacity s c fresh).0.entries ≡ s.entries)
        × ((attempt capacity s c fresh).0.evictable ≡ [])
  unfolding attempt admit_pending_claim pin_once pin_waiter
  attempt_kept (some (committed t)) e same full = rw (attempt_committed capacity s c fresh t e) (
      (settle-IsQuiet capacity s c).kept
        (same
          ∙ ap (λ (r : MemoryState × Attempt). r.0.capacity_changed.version)
              (attempt_committed capacity s c fresh t e))
        full)
  attempt_kept (some (in_flight t)) e same full =
      ground (arith, settle_signals s c, settle-entries s c, full.1)
  attempt_kept none e same full =
      ground (
        arith,
        evict-empty capacity s full.1,
        settle_signals s c,
        settle-entries s c,
        full.1,
        full.0,
      )

  pub attempt-IsQuiet : IsQuiet capacity s (attempt capacity s c fresh).0
  attempt-IsQuiet = record {
    later = attempt-later (entry_of s c.key) refl;
    kept = attempt_kept (entry_of s c.key) refl;
  }

pub finalize-IsQuiet :
    (capacity : ℕ) (s : MemoryState) (c : DedupClaim)
    → IsQuiet capacity s (commit s c).0 × IsQuiet capacity s (release s c).0
unfolding commit release
finalize-IsQuiet capacity s c = (
  record { later = ground arith; kept = λ same full. (ground (arith), ground (arith, full.1)) },
  record { later = ground arith; kept = λ same full. (ground (arith), ground (arith, full.1)) },
)
