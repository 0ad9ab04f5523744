-- ===== src/Dedup/Pins.antt =====
-- Pins and guards: what `pin_waiter`, `unpin_waiter` and the end of a call change.
use bro_know_my_qqbot.Prelude.{
  ℕ, zero, suc, ◌+◌, ◌-◌, ◌≤◌, ◌<◌, ◌≡◌, refl, ◌∙◌, ◌⊎◌, inl, inr, Bool, true, false, ite, Option,
  none, some, [], ◌∷◌, ◌++◌, arith, Option-cases, Bool-cases, if◌then◌else◌, usize_max,
  saturating_add-eq,
}
use bro_know_my_qqbot.Prelude.Map.{
  get, Distinct, get-insert, get-remove, get-append_absent, append_absent-Distinct,
}
use bro_know_my_qqbot.Dedup.{
  DedupKey, MemoryEntry, in_flight, committed, MemoryState, ClaimCall, key_discrete, entry_of,
  waiters_of, pin_waiter, unpin_waiter, release_guard, release_pin, settle,
}
use bro_know_my_qqbot.Dedup.Evict.{IsValid, Queued, ready}

module _ (s : MemoryState) (key : DedupKey) where
  pub waiters_of-pin :
      (j : DedupKey)
      → waiters_of s key + 1 ≤ usize_max
      → waiters_of (pin_waiter s key) j
        ≡ ite (key_discrete key j) (waiters_of s key + 1) (waiters_of s j)
  unfolding pin_waiter
  waiters_of-pin j h = ground (
    arith,
    get-insert key_discrete key j (waiters_of s key + 1) s.waiters,
    saturating_add-eq (waiters_of s key) 1 h,
  )

  pub waiters_of-unpin :
      (j : DedupKey)
      → waiters_of (unpin_waiter s key) j
        ≡ ite (key_discrete key j) (waiters_of s key - 1) (waiters_of s j)
  unfolding unpin_waiter
  waiters_of-unpin j = elim (Option-cases (get key_discrete key s.waiters)) [
    | inl e ↦ rw (e, unpin_waiter) (ground arith)
    | inr (n, e) ↦
        rw (e, unpin_waiter)
          (ground (
            arith,
            e,
            get-insert key_discrete key j (n - 1) s.waiters,
            get-remove key_discrete key j s.waiters,
          ))
  ]

  pub pin-entries : (pin_waiter s key).entries ≡ s.entries
  unfolding pin_waiter
  pin-entries = refl

  pub pin-pending : (pin_waiter s key).pending_claims ≡ s.pending_claims
  unfolding pin_waiter
  pin-pending = refl

  -- An unpin leaves the entries, and the count of pending calls.
  pub unpin-entries : (unpin_waiter s key).entries ≡ s.entries
  unfolding unpin_waiter
  unpin-entries = ground arith

  pub unpin-pending : (unpin_waiter s key).pending_claims ≡ s.pending_claims
  unfolding unpin_waiter
  unpin-pending = ground arith

  -- The queue changes only with a signal.
  pub unpin_signals :
      ((unpin_waiter s key).capacity_changed.version ≡ s.capacity_changed.version + 1)
      ⊎ (((unpin_waiter s key).capacity_changed ≡ s.capacity_changed)
          × ((unpin_waiter s key).evictable ≡ s.evictable))
  unfolding unpin_waiter
  unpin_signals = ground arith

  -- A committed key joins the queue when its last waiter leaves; else the queue stays.
  unpin-evictable :
      (n m : ℕ) (o : Option MemoryEntry)
      → get key_discrete key s.waiters ≡ some n
      → n - 1 ≡ m
      → entry_of s key ≡ o
      → ((ready o m ≡ none) × ((unpin_waiter s key).evictable ≡ s.evictable))
        ⊎ ((token : ℕ) × (ready o m ≡ some token)
            × ((unpin_waiter s key).evictable ≡ s.evictable ++ ((key, token) ∷ [])))
  unfolding unpin_waiter
  unpin-evictable n m none e f g = inl (refl, ground arith)
  unpin-evictable n m (some (in_flight t)) e f g = inl (refl, ground arith)
  unpin-evictable n zero (some (committed t)) e f g = inr (t, refl, ground arith)
  unpin-evictable n (suc m) (some (committed t)) e f g = inl (refl, ground arith)

  ready-pos : (o : Option MemoryEntry) (m : ℕ) → 0 < m → ready o m ≡ none
  ready-pos none m h = refl
  ready-pos (some (in_flight t)) m h = refl
  ready-pos (some (committed t)) (suc m) h = refl
  ready-pos o zero h = elim h [ ]

  unpin-Queued :
      (capacity n : ℕ)
      → get key_discrete key s.waiters ≡ some n
      → 0 < n
      → IsValid capacity s
      → Queued
          (waiters_of (unpin_waiter s key))
          (unpin_waiter s key).entries
          (unpin_waiter s key).evictable
  unpin-Queued capacity n e h v j =
      let here : waiters_of s key ≡ n = rw e in
      rw (unpin-entries, waiters_of-unpin j)
        (elim (unpin-evictable n (n - 1) (entry_of s key) e refl refl) [
          | inl (r, same) ↦
              ground
                (arith, here, r, same, v.queued key, v.queued j, ready-pos (entry_of s key) n h)
          | inr (t, r, added) ↦ ground (
            arith,
            here,
            r,
            added,
            v.queued key,
            v.queued j,
            ready-pos (entry_of s key) n h,
            get-append_absent key_discrete key j t s.evictable,
          )
        ])

  unpin-Distinct :
      (capacity n : ℕ)
      → get key_discrete key s.waiters ≡ some n
      → 0 < n
      → IsValid capacity s
      → Distinct key_discrete (unpin_waiter s key).evictable
  unpin-Distinct capacity n e h v =
      let here : waiters_of s key ≡ n = rw e in
      elim (unpin-evictable n (n - 1) (entry_of s key) e refl refl) [
        | inl (r, same) ↦ rw same v.queue_distinct
        | inr (t, r, added) ↦ rw added (
            append_absent-Distinct key_discrete key t s.evictable
              (v.queued key ∙ ground (arith, here, ready-pos (entry_of s key) n h))
              v.queue_distinct)
      ]

  -- A call that ends gives up its pin, and the invariant stays.
  pub unpin-IsValid :
      (capacity : ℕ)
      → 0 < waiters_of s key
      → IsValid capacity s
      → IsValid capacity (unpin_waiter s key)
  unpin-IsValid capacity h v = elim (Option-cases (get key_discrete key s.waiters)) [
    | inl e ↦ absurd (ground arith)
    | inr (n, e) ↦
        let pos : 0 < n = ground arith in
        record {
          distinct = rw unpin-entries v.distinct;
          bounded = rw unpin-entries v.bounded;
          queue_distinct = unpin-Distinct capacity n e pos v;
          queued = unpin-Queued capacity n e pos v;
        }
  ]

  -- A pin on a key that is in flight keeps the invariant.
  pub pin-IsValid :
      (capacity token : ℕ)
      → entry_of s key ≡ some (in_flight token)
      → waiters_of s key + 1 ≤ usize_max
      → IsValid capacity s
      → IsValid capacity (pin_waiter s key)
  unfolding pin_waiter
  pin-IsValid capacity token e h v = record {
    distinct = v.distinct;
    bounded = v.bounded;
    queue_distinct = v.queue_distinct;
    queued = λ j. rw (waiters_of-pin j h) (ground (arith, v.queued j, e));
  }

-- What a call holds of the store: a pin on a key, and a place among the pending calls.
abbrev pub pin_on : DedupKey → ClaimCall → ℕ
pin_on j c = if c.pinned then ite (key_discrete c.key j) 1 0 else 0

abbrev pub guards : ClaimCall → ℕ
guards c = if c.admitted then 1 else 0

module _ (s : MemoryState) (c : ClaimCall) where
  pub settle-waiters : (j : DedupKey) → waiters_of (settle s c) j ≡ waiters_of s j - pin_on j c
  unfolding settle release_pin release_guard
  settle-waiters j = elim (Bool-cases c.pinned) [
    | inl p ↦ elim (Bool-cases c.admitted) [
      | inl a ↦
          ground
            (arith, waiters_of-unpin (record s { pending_claims = s.pending_claims - 1 }) c.key j)
      | inr a ↦ ground (arith, waiters_of-unpin s c.key j)
    ]
    | inr p ↦ ground arith
  ]

  pub settle-pending : (settle s c).pending_claims ≡ s.pending_claims - guards c
  unfolding settle release_pin release_guard
  settle-pending = ground (
    arith,
    unpin-pending s c.key,
    unpin-pending (record s { pending_claims = s.pending_claims - 1 }) c.key,
  )

  pub settle-entries : (settle s c).entries ≡ s.entries
  unfolding settle release_pin release_guard
  settle-entries = ground (
    arith,
    unpin-entries s c.key,
    unpin-entries (record s { pending_claims = s.pending_claims - 1 }) c.key,
  )

  pub settle_signals :
      ((settle s c).capacity_changed.version ≡ s.capacity_changed.version + 1)
      ⊎ (((settle s c).capacity_changed.version ≡ s.capacity_changed.version)
          × ((settle s c).evictable ≡ s.evictable))
  unfolding settle release_pin release_guard
  settle_signals = ground (
    arith,
    unpin_signals s c.key,
    unpin_signals (record s { pending_claims = s.pending_claims - 1 }) c.key,
  )

-- A guard is not part of the invariant.
guard-IsValid :
    (capacity : ℕ) (b : Bool) (s : MemoryState)
    → IsValid capacity s
    → IsValid capacity (release_guard b s)
unfolding release_guard
guard-IsValid capacity true s v = record {
  distinct = v.distinct;
  bounded = v.bounded;
  queue_distinct = v.queue_distinct;
  queued = v.queued;
}
guard-IsValid capacity false s v = v

guard-waiters :
    (b : Bool) (s : MemoryState) (j : DedupKey) → waiters_of (release_guard b s) j ≡ waiters_of s j
unfolding release_guard
guard-waiters true s j = refl
guard-waiters false s j = refl

-- The end of a call keeps the invariant, where its pin is on record.
pub settle-IsValid :
    (capacity : ℕ) (s : MemoryState) (c : ClaimCall)
    → pin_on c.key c ≤ waiters_of s c.key
    → IsValid capacity s
    → IsValid capacity (settle s c)
unfolding settle release_pin
settle-IsValid capacity s c h v =
    let g = guard-IsValid capacity c.admitted s v in
    elim (Bool-cases c.pinned) [
      | inl p ↦
          rw (p, release_pin)
            (unpin-IsValid (release_guard c.admitted s) c.key capacity
              (ground (arith, guard-waiters c.admitted s c.key)) g)
      | inr p ↦ rw (p, release_pin) g
    ]
