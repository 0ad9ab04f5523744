-- ===== src/Dedup/Evict.antt =====
-- The store's invariant, and what `evict_committed` does under it.
use bro_know_my_qqbot.Prelude.{
  ℕ, zero, ◌≤◌, ◌<◌, ◌≡◌, refl, ◌⊎◌, inl, inr, true, Option, none, some, List, [], ◌∷◌, arith,
  length, Bool-cases, leb,
}
use bro_know_my_qqbot.Prelude.Map.{
  get, remove, Distinct, get-remove, remove-Distinct, length-remove-le,
}
use bro_know_my_qqbot.Dedup.{
  DedupKey, MemoryEntry, committed, MemoryState, key_discrete, evict_loop, evict_committed,
  waiters_of, is_committed_as,
}

-- The token under which a key can be evicted: it is committed, and nobody waits for it.
abbrev pub ready : Option MemoryEntry → ℕ → Option ℕ
ready (some (committed token)) zero = some token
ready _ _ = none

abbrev pub Queued : (DedupKey → ℕ) → List (DedupKey × MemoryEntry) → List (DedupKey × ℕ) → Type 0
Queued waiting entries queue =
    (key : DedupKey)
    → get key_discrete key queue ≡ ready (get key_discrete key entries) (waiting key)

-- The entries are within the capacity, and the queue holds the keys that can be evicted, once each.
pub record IsValid (capacity : ℕ) (s : MemoryState) : Type 0 where
  pub distinct : Distinct key_discrete s.entries
  pub bounded : length s.entries ≤ capacity
  pub queue_distinct : Distinct key_discrete s.evictable
  pub queued : Queued (waiters_of s) s.entries s.evictable

-- What an eviction may do: it takes out entries that are ready, in the order of the queue, and
-- stops below the capacity or with the queue empty.
pub record Evicts (capacity : ℕ) (waiting : DedupKey → ℕ) (entries : List (DedupKey × MemoryEntry))
    (r : List (DedupKey × MemoryEntry) × List (DedupKey × ℕ)) : Type 0 where
  pub distinct : Distinct key_discrete r.0
  pub smaller : length r.0 ≤ length entries
  pub queue_distinct : Distinct key_discrete r.1
  pub queued : Queued waiting r.0 r.1
  pub kept :
      (key : DedupKey)
      → ready (get key_discrete key entries) (waiting key) ≡ none
      → get key_discrete key r.0 ≡ get key_discrete key entries
  pub absent :
      (key : DedupKey) → get key_discrete key entries ≡ none → get key_discrete key r.0 ≡ none
  pub stops : (length r.0 < capacity) ⊎ (r.1 ≡ [])

module _ (capacity : ℕ) (waiting : DedupKey → ℕ) where
  Queued-rest :
      (expired : DedupKey) (token : ℕ) (entries : List (DedupKey × MemoryEntry))
      (queue : List (DedupKey × ℕ))
      → Distinct key_discrete ((expired, token) ∷ queue)
      → Queued waiting entries ((expired, token) ∷ queue)
      → Queued waiting (remove key_discrete expired entries) queue
  unfolding get
  Queued-rest expired token entries queue d q key =
      ground (arith, q key, d.0, get-remove key_discrete expired key entries)

  head-ready :
      (expired : DedupKey) (token : ℕ) (entries : List (DedupKey × MemoryEntry))
      (queue : List (DedupKey × ℕ))
      → Queued waiting entries ((expired, token) ∷ queue)
      → is_committed_as token (get key_discrete expired entries) ≡ true
  unfolding get
  head-ready expired token entries queue q = ground (arith, q expired)

  Evicts-remove :
      (expired : DedupKey) (token : ℕ) (entries : List (DedupKey × MemoryEntry))
      (queue : List (DedupKey × ℕ)) {r : List (DedupKey × MemoryEntry) × List (DedupKey × ℕ)}
      → Queued waiting entries ((expired, token) ∷ queue)
      → Evicts capacity waiting (remove key_discrete expired entries) r
      → Evicts capacity waiting entries r
  unfolding get
  Evicts-remove expired token entries queue q e = record {
    distinct = e.distinct;
    smaller = omega (arith, e.smaller, length-remove-le key_discrete expired entries);
    queue_distinct = e.queue_distinct;
    queued = e.queued;
    kept =
        λ key h. ground (arith, q expired, e.kept key, get-remove key_discrete expired key entries);
    absent = λ key h. ground (arith, e.absent key, get-remove key_discrete expired key entries);
    stops = e.stops;
  }

  pub evict_loop-Evicts :
      (entries : List (DedupKey × MemoryEntry)) (queue : List (DedupKey × ℕ))
      → Distinct key_discrete entries
      → Distinct key_discrete queue
      → Queued waiting entries queue
      → Evicts capacity waiting entries (evict_loop capacity entries queue)
  unfolding evict_loop
  evict_loop-Evicts entries [] de dq q = record {
    distinct = de;
    smaller = omega arith;
    queue_distinct = tt;
    queued = q;
    kept = λ key h. refl;
    absent = λ key h. h;
    stops = inr refl;
  }
  evict_loop-Evicts entries ((expired, token) ∷ queue) de dq q =
      let rest =
        evict_loop-Evicts (remove key_discrete expired entries) queue
          (remove-Distinct key_discrete expired entries de) dq.1
          (Queued-rest expired token entries queue dq q) in
      elim (Bool-cases (leb capacity (length entries))) [
        | inl full ↦
            rw (full, head-ready expired token entries queue q)
              (Evicts-remove expired token entries queue q rest)
        | inr room ↦ rw room (record {
          distinct = de;
          smaller = omega arith;
          queue_distinct = dq;
          queued = q;
          kept = λ key h. refl;
          absent = λ key h. h;
          stops = inl (ground arith);
        })
      ]

-- Under the invariant an eviction keeps it, makes room unless the queue runs empty, and takes out
-- nothing that is in flight or waited for.
pub evict_committed-Evicts :
    (capacity : ℕ) (s : MemoryState)
    → IsValid capacity s
    → let s' = evict_committed s capacity in
      Evicts capacity (waiters_of s) s.entries (s'.entries, s'.evictable)
unfolding evict_committed
evict_committed-Evicts capacity s v =
    evict_loop-Evicts capacity (waiters_of s) s.entries s.evictable v.distinct v.queue_distinct
      v.queued

pub evict_committed-IsValid :
    (capacity : ℕ) (s : MemoryState)
    → IsValid capacity s
    → IsValid capacity (evict_committed s capacity)
unfolding evict_committed
evict_committed-IsValid capacity s v =
    let e = evict_committed-Evicts capacity s v in
    record {
      distinct = e.distinct;
      bounded = omega (arith, e.smaller, v.bounded);
      queue_distinct = e.queue_distinct;
      queued = e.queued;
    }
