-- ===== src/Dedup/Absent.antt =====
-- A pass of `claim` on a key without an entry.
use bro_know_my_qqbot.Prelude.{
  ℕ, ◌+◌, ◌≤◌, ◌<◌, ◌≡◌, refl, ap, inl, inr, true, none, [], arith, length, Bool-cases, leb, leb→le,
}
use bro_know_my_qqbot.Prelude.Map.{insert, get-insert, insert-Distinct, length-insert_absent}
use bro_know_my_qqbot.Dedup.{
  DedupKey, in_flight, MemoryState, ClaimCall, claimed, refused, waits, capacity_change,
  key_discrete, entry_of, waiters_of, settle, admit_pending_claim, evict_committed, attempt,
  wait_saturated,
}
use bro_know_my_qqbot.Dedup.Evict.{IsValid, evict_committed-Evicts, evict_committed-IsValid}
use bro_know_my_qqbot.Dedup.Pins.{
  guards, settle-waiters, settle-pending, settle-entries, settle-IsValid,
}
use bro_know_my_qqbot.Dedup.Accounts.{Fits, Attempted, pin_on-le, pending-IsValid, ends}

module _ (capacity : ℕ) (s : MemoryState) (c : ClaimCall) (fresh : ℕ) (f : Fits capacity s c) where
  -- A call on a key without an entry, after the eviction.
  module _ (e : entry_of s c.key ≡ none) where
    evicted : MemoryState
    evicted = evict_committed s capacity

    evicted-waiters : (j : DedupKey) → waiters_of evicted j ≡ waiters_of s j
    unfolding evicted evict_committed
    evicted-waiters j = refl

    evicted-pending : evicted.pending_claims ≡ s.pending_claims
    unfolding evicted evict_committed
    evicted-pending = refl

    evicted-IsValid : IsValid capacity evicted
    unfolding evicted
    evicted-IsValid = evict_committed-IsValid capacity s f.valid

    evicted-absent : entry_of evicted c.key ≡ none
    unfolding evicted
    evicted-absent = (evict_committed-Evicts capacity s f.valid).absent c.key e

    evicted_stops : capacity ≤ length evicted.entries → evicted.evictable ≡ []
    unfolding evicted
    evicted_stops full = elim (evict_committed-Evicts capacity s f.valid).stops [
      | inl room ↦ absurd (omega arith)
      | inr empty ↦ empty
    ]

    full-Attempted :
        (pending : ℕ)
        → capacity ≤ length evicted.entries
        → pending + guards c ≡ s.pending_claims + 1
        → pending ≤ capacity
        → Attempted capacity s c fresh (
          record evicted { pending_claims = pending },
          waits (record c { admitted = true }) (capacity_change evicted.capacity_changed.version),
        )
    full-Attempted pending full g b = record {
      valid = pending-IsValid capacity pending evicted evicted-IsValid;
      pins = λ j. ground (arith, evicted-waiters j);
      pending = g;
      pending_bounded = b;
      outcome = (refl, refl, evicted-absent, full, evicted_stops full);
    }

    granted : MemoryState
    granted =
        let t = settle evicted c in
        record t { entries = insert key_discrete c.key (in_flight fresh) t.entries }

    granted-IsValid : length evicted.entries < capacity → IsValid capacity granted
    unfolding granted
    granted-IsValid room =
        let v =
          settle-IsValid capacity evicted c (omega (arith, evicted-waiters c.key, f.pin_held))
            evicted-IsValid in
        let absent : entry_of (settle evicted c) c.key ≡ none =
          rw (settle-entries evicted c) evicted-absent in
        record {
          distinct = insert-Distinct key_discrete c.key (in_flight fresh) _ v.distinct;
          bounded = omega (
            arith,
            length-insert_absent key_discrete c.key (in_flight fresh) _ absent,
            ap length (settle-entries evicted c),
          );
          queue_distinct = v.queue_distinct;
          queued = λ j. ground (
            arith,
            absent,
            v.queued j,
            get-insert key_discrete c.key j (in_flight fresh) (settle evicted c).entries,
          );
        }

    grant-Attempted :
        length evicted.entries < capacity
        → Attempted capacity s c fresh (granted, claimed (record { key = c.key; token = fresh }))
    unfolding granted
    grant-Attempted room = record {
      valid = granted-IsValid room;
      pins = λ j.
          omega (arith, settle-waiters evicted c j, evicted-waiters j, pin_on-le j s c f.pin_held);
      pending = omega (arith, settle-pending evicted c, evicted-pending, f.guard_held);
      pending_bounded = omega (arith, settle-pending evicted c, evicted-pending, f.pending_bounded);
      outcome = (
        e,
        refl,
        ground (
          arith,
          get-insert key_discrete c.key c.key (in_flight fresh) (settle evicted c).entries,
        ),
      );
    }

    pub absent-Attempted : Attempted capacity s c fresh (attempt capacity s c fresh)
    unfolding attempt admit_pending_claim evicted granted
    absent-Attempted = elim (Bool-cases (leb capacity (length evicted.entries))) [
      | inl full ↦
          let le : capacity ≤ length evicted.entries = leb→le capacity _ full in
          elim (Bool-cases c.admitted) [
            | inl a ↦
                let eq : attempt capacity s c fresh ≡ (
                  record evicted { pending_claims = s.pending_claims },
                  waits (record c { admitted = true })
                      (capacity_change evicted.capacity_changed.version),
                ) =
                  ground (arith, evicted-pending) in
                rw eq (full-Attempted s.pending_claims le (ground arith) f.pending_bounded)
            | inr a ↦ elim (Bool-cases (leb capacity s.pending_claims)) [
              | inl busy ↦
                  let eq : attempt capacity s c fresh ≡ (settle evicted c, refused wait_saturated) =
                    ground (arith, evicted-pending) in
                  rw eq (
                    ends capacity s c fresh f evicted (refused wait_saturated) evicted-IsValid
                      evicted-waiters evicted-pending refl (λ j. refl)
                      (
                        refl,
                        a,
                        omega (arith, leb→le capacity s.pending_claims busy, f.pending_bounded),
                      ))
              | inr free ↦
                  let eq : attempt capacity s c fresh ≡ (
                    record evicted { pending_claims = s.pending_claims + 1 },
                    waits (record c { admitted = true })
                        (capacity_change evicted.capacity_changed.version),
                  ) =
                    ground (arith, evicted-pending) in
                  rw eq (full-Attempted (s.pending_claims + 1) le (ground arith) (ground arith))
            ]
          ]
      | inr room ↦
          let eq : attempt capacity s c fresh
              ≡ (granted, claimed (record { key = c.key; token = fresh })) =
            ground arith in
          rw eq (grant-Attempted (ground arith))
    ]
