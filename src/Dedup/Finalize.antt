-- ===== src/Dedup/Finalize.antt =====
-- What `commit` and `release` do to the entry and the books of their key.
use bro_know_my_qqbot.Prelude.{ℕ, ◌+◌, ◌≡◌, ◌⊎◌, inl, inr, none, some, Bool-cases, ◌==◌, arith, ok}
use bro_know_my_qqbot.Prelude.Map.{
  Distinct, get-insert, get-remove, insert-Distinct, remove-Distinct, length-insert_present,
  length-remove-le, get-append_absent, append_absent-Distinct, remove,
}
use bro_know_my_qqbot.Dedup.{
  DedupKey, DedupClaim, in_flight, committed, MemoryState, key_discrete, entry_of, waiters_of,
  commit, release, mark_committed,
}
use bro_know_my_qqbot.Dedup.Evict.{IsValid, Queued}

module _ (capacity : ℕ) (s : MemoryState) (c : DedupClaim) where
  mark_committed-queue :
      entry_of s c.key ≡ some (in_flight c.token)
      → IsValid capacity s
      → Distinct key_discrete (mark_committed s c).evictable
        × Queued (waiters_of s) (mark_committed s c).entries (mark_committed s c).evictable
  unfolding mark_committed
  mark_committed-queue e v = elim (Bool-cases (waiters_of s c.key == 0)) [
    | inl z ↦
        rw (z, mark_committed)
          (
            append_absent-Distinct key_discrete c.key c.token s.evictable
                (ground (arith, v.queued c.key)) v.queue_distinct,
            λ j. ground (
              arith,
              v.queued j,
              v.queued c.key,
              get-insert key_discrete c.key j (committed c.token) s.entries,
              get-append_absent key_discrete c.key j c.token s.evictable,
            ),
          )
    | inr p ↦
        rw (p, mark_committed)
          (
            v.queue_distinct,
            λ j. ground (
              arith,
              v.queued j,
              v.queued c.key,
              get-insert key_discrete c.key j (committed c.token) s.entries,
            ),
          )
  ]

  -- A commit is refused and changes nothing, or repeats, or takes the claim out of flight.
  pub commit-cases :
      ((commit s c).0 ≡ s)
      ⊎ ((entry_of s c.key ≡ some (in_flight c.token)) × (commit s c ≡ (mark_committed s c, ok tt)))
  unfolding commit
  commit-cases = ground arith

  pub release-cases :
      ((release s c).0 ≡ s)
      ⊎ ((entry_of s c.key ≡ some (in_flight c.token))
          × ((release s c).0.entries ≡ remove key_discrete c.key s.entries)
          × ((release s c).0.capacity_changed.version ≡ s.capacity_changed.version + 1))
  unfolding release
  release-cases = ground arith

  pub commit-waiters : (j : DedupKey) → waiters_of (commit s c).0 j ≡ waiters_of s j
  unfolding commit
  commit-waiters j = ground arith

  pub commit-pending : (commit s c).0.pending_claims ≡ s.pending_claims
  unfolding commit
  commit-pending = ground arith

  pub release-waiters : (j : DedupKey) → waiters_of (release s c).0 j ≡ waiters_of s j
  unfolding release
  release-waiters j = ground arith

  pub release-pending : (release s c).0.pending_claims ≡ s.pending_claims
  unfolding release
  release-pending = ground arith

  release-evictable : (release s c).0.evictable ≡ s.evictable
  unfolding release
  release-evictable = ground arith

  mark_committed-IsValid :
      entry_of s c.key ≡ some (in_flight c.token)
      → IsValid capacity s
      → IsValid capacity (mark_committed s c)
  unfolding mark_committed
  mark_committed-IsValid e v =
      let q = mark_committed-queue e v in
      record {
        distinct = insert-Distinct key_discrete c.key (committed c.token) s.entries v.distinct;
        bounded = omega (
          arith,
          length-insert_present key_discrete c.key (committed c.token) (in_flight c.token) s.entries
              e,
          v.bounded,
        );
        queue_distinct = q.0;
        queued = q.1;
      }

  -- A commit keeps the invariant, whoever asks for it.
  pub commit-IsValid : IsValid capacity s → IsValid capacity (commit s c).0
  commit-IsValid v = elim commit-cases [
    | inl same ↦ rw same v
    | inr (e, done) ↦ rw done (mark_committed-IsValid e v)
  ]

  -- A release keeps the invariant, whoever asks for it.
  pub release-IsValid : IsValid capacity s → IsValid capacity (release s c).0
  release-IsValid v = elim release-cases [
    | inl same ↦ rw same v
    | inr (e, gone, _) ↦ record {
      distinct = rw gone (remove-Distinct key_discrete c.key s.entries v.distinct);
      bounded = rw gone (omega (arith, length-remove-le key_discrete c.key s.entries, v.bounded));
      queue_distinct = rw release-evictable v.queue_distinct;
      queued = λ j.
          rw (gone, release-evictable, release-waiters j)
            (ground
              (arith, v.queued j, v.queued c.key, e, get-remove key_discrete c.key j s.entries));
    }
  ]

pub committed_after :
    (s s' : MemoryState) (c : DedupClaim)
    → commit s c ≡ (s', ok tt)
    → entry_of s' c.key ≡ some (committed c.token)
unfolding commit
committed_after s s' c h =
    ground (arith, get-insert key_discrete c.key c.key (committed c.token) s.entries)

pub commit_committed :
    (s : MemoryState) (c : DedupClaim)
    → entry_of s c.key ≡ some (committed c.token)
    → commit s c ≡ (s, ok tt)
unfolding commit
commit_committed s c e = ground arith

pub release_committed :
    (s : MemoryState) (c : DedupClaim)
    → entry_of s c.key ≡ some (committed c.token)
    → release s c ≡ (s, ok tt)
unfolding release
release_committed s c e = ground arith

-- The holder of a claim in flight finishes it.
pub commit_in_flight :
    (s : MemoryState) (c : DedupClaim)
    → entry_of s c.key ≡ some (in_flight c.token)
    → ((commit s c).1 ≡ ok tt) × (entry_of (commit s c).0 c.key ≡ some (committed c.token))
unfolding commit mark_committed
commit_in_flight s c e =
    let written = get-insert key_discrete c.key c.key (committed c.token) s.entries in
    (ground (arith, e), ground (arith, e, written))

pub release_in_flight :
    (s : MemoryState) (c : DedupClaim)
    → entry_of s c.key ≡ some (in_flight c.token)
    → ((release s c).1 ≡ ok tt) × (entry_of (release s c).0 c.key ≡ none)
unfolding release
release_in_flight s c e =
    let gone = get-remove key_discrete c.key c.key s.entries in
    (ground (arith, e), ground (arith, e, gone))
