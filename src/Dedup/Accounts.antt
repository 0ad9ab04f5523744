-- ===== src/Dedup/Accounts.antt =====
-- The accounts of a call with the store, what a pass must keep of them, and its outcomes.
use bro_know_my_qqbot.Prelude.{ℕ, ◌+◌, ◌≤◌, ◌≡◌, true, false, none, some, [], arith, length}
use bro_know_my_qqbot.Dedup.{
  DedupKey, in_flight, committed, MemoryState, ClaimCall, Attempt, duplicate, claimed, refused,
  waits, entry_change, capacity_change, entry_of, waiters_of, settle, attempt, wait_saturated,
}
use bro_know_my_qqbot.Dedup.Evict.{IsValid}
use bro_know_my_qqbot.Dedup.Pins.{pin_on, guards, settle-waiters, settle-pending, settle-IsValid}

-- The store accounts for the call: its pin and its guard are on record, and so is a guard for
-- each other pin.
pub record Fits (capacity : ℕ) (s : MemoryState) (c : ClaimCall) : Type 0 where
  pub valid : IsValid capacity s
  pub pin_held : pin_on c.key c ≤ waiters_of s c.key
  pub guard_held : guards c ≤ s.pending_claims
  pub pending_bounded : s.pending_claims ≤ capacity
  pub pins_guarded : waiters_of s c.key + guards c ≤ s.pending_claims + pin_on c.key c

-- What a call still holds after a pass.
abbrev pub pin_left : DedupKey → Attempt → ℕ
pin_left j (waits c w) = pin_on j c
pin_left j _ = 0

abbrev pub guards_left : Attempt → ℕ
guards_left (waits c w) = guards c
guards_left _ = 0

-- What each outcome says of the store before and after the pass.
abbrev pub Outcome : ℕ → MemoryState → ClaimCall → ℕ → MemoryState → Attempt → Type 0
Outcome capacity s c fresh s' duplicate = (token : ℕ) × (entry_of s c.key ≡ some (committed token))
Outcome capacity s c fresh s' (claimed claim) =
    (entry_of s c.key ≡ none)
    × (claim ≡ record { key = c.key; token = fresh })
    × (entry_of s' c.key ≡ some (in_flight fresh))
Outcome capacity s c fresh s' (refused e) =
    (e ≡ wait_saturated) × (c.admitted ≡ false) × (s.pending_claims ≡ capacity)
Outcome capacity s c fresh s' (waits c' (entry_change token)) =
    (c' ≡ record { key = c.key; pinned = true; admitted = true })
    × (entry_of s' c.key ≡ some (in_flight token))
Outcome capacity s c fresh s' (waits c' (capacity_change seen)) =
    (c' ≡ record { key = c.key; pinned = c.pinned; admitted = true })
    × (seen ≡ s'.capacity_changed.version)
    × (entry_of s' c.key ≡ none)
    × (capacity ≤ length s'.entries)
    × (s'.evictable ≡ [])

pub record Attempted (capacity : ℕ) (s : MemoryState) (c : ClaimCall) (fresh : ℕ)
    (r : MemoryState × Attempt) : Type 0 where
  pub valid : IsValid capacity r.0
  pub pins : (j : DedupKey) → waiters_of r.0 j + pin_on j c ≡ waiters_of s j + pin_left j r.1
  pub pending : r.0.pending_claims + guards c ≡ s.pending_claims + guards_left r.1
  pub pending_bounded : r.0.pending_claims ≤ capacity
  pub outcome : Outcome capacity s c fresh r.0 r.1

-- A pin on another key is none of this key's.
pub pin_on-le :
    (j : DedupKey) (s : MemoryState) (c : ClaimCall)
    → pin_on c.key c ≤ waiters_of s c.key
    → pin_on j c ≤ waiters_of s j
pin_on-le j s c h = ground arith

-- The call, waiting on a key in flight.
abbrev pub held_on : ClaimCall → ClaimCall
held_on c = record { key = c.key; pinned = true; admitted = true }

-- The number of pending calls is not part of the invariant.
pub pending-IsValid :
    (capacity pending : ℕ) (s : MemoryState)
    → IsValid capacity s
    → IsValid capacity (record s { pending_claims = pending })
pending-IsValid capacity pending s v = record {
  distinct = v.distinct;
  bounded = v.bounded;
  queue_distinct = v.queue_distinct;
  queued = v.queued;
}

module _ (capacity : ℕ) (s : MemoryState) (c : ClaimCall) (fresh : ℕ) (f : Fits capacity s c) where
  -- The call ends on a store `t` that differs from `s` by an eviction at most.
  pub ends :
      (t : MemoryState) (r : Attempt)
      → IsValid capacity t
      → ((j : DedupKey) → waiters_of t j ≡ waiters_of s j)
      → t.pending_claims ≡ s.pending_claims
      → guards_left r ≡ 0
      → ((j : DedupKey) → pin_left j r ≡ 0)
      → Outcome capacity s c fresh (settle t c) r
      → Attempted capacity s c fresh (settle t c, r)
  ends t r v w p g pj o = record {
    valid = settle-IsValid capacity t c (omega (arith, w c.key, f.pin_held)) v;
    pins = λ j. omega (arith, settle-waiters t c j, w j, pin_on-le j s c f.pin_held, pj j);
    pending = omega (arith, settle-pending t c, f.guard_held);
    pending_bounded = omega (arith, settle-pending t c, f.pending_bounded);
    outcome = o;
  }

-- A committed key is a duplicate.
pub attempt_committed :
    (capacity : ℕ) (s : MemoryState) (c : ClaimCall) (fresh token : ℕ)
    → entry_of s c.key ≡ some (committed token)
    → attempt capacity s c fresh ≡ (settle s c, duplicate)
unfolding attempt
attempt_committed capacity s c fresh token e = rw (e, attempt)
