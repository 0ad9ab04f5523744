-- ===== src/Dedup/Flight.antt =====
-- A pass of `claim` on a key that is in flight.
use bro_know_my_qqbot.Prelude.{
  ℕ, ◌+◌, ◌≤◌, ◌≡◌, refl, inl, inr, true, false, some, arith, Bool-cases, usize_max, leb, leb→le,
}
use bro_know_my_qqbot.Dedup.{
  in_flight, MemoryState, ClaimCall, refused, waits, entry_change, entry_of, waiters_of, pin_waiter,
  pin_once, settle, admit_pending_claim, attempt, wait_saturated,
}
use bro_know_my_qqbot.Dedup.Pins.{guards, waiters_of-pin, pin-IsValid, pin-entries, pin-pending}
use bro_know_my_qqbot.Dedup.Accounts.{Fits, Attempted, held_on, pending-IsValid, ends}

module _ (capacity : ℕ) (s : MemoryState) (c : ClaimCall) (fresh : ℕ) (f : Fits capacity s c) where
  -- A call on a key in flight, once it has its place among the pending calls.
  module _ (token : ℕ) (e : entry_of s c.key ≡ some (in_flight token)) where
    pinned-Attempted :
        (pending : ℕ)
        → c.pinned ≡ true
        → pending + guards c ≡ s.pending_claims + 1
        → pending ≤ capacity
        → Attempted capacity s c fresh
            (record s { pending_claims = pending }, waits (held_on c) (entry_change token))
    pinned-Attempted pending p g b = record {
      valid = pending-IsValid capacity pending s f.valid;
      pins = λ j. ground arith;
      pending = g;
      pending_bounded = b;
      outcome = (refl, e);
    }

    unpinned-Attempted :
        (pending : ℕ)
        → c.pinned ≡ false
        → pending + guards c ≡ s.pending_claims + 1
        → pending ≤ capacity
        → capacity ≤ usize_max
        → Attempted capacity s c fresh (
          pin_waiter (record s { pending_claims = pending }) c.key,
          waits (held_on c) (entry_change token),
        )
    unpinned-Attempted pending p g b m =
        let t = record s { pending_claims = pending } in
        let room : waiters_of t c.key + 1 ≤ usize_max = ground (arith, f.pins_guarded) in
        record {
          valid =
              pin-IsValid t c.key capacity token e room
                (pending-IsValid capacity pending s f.valid);
          pins = λ j. ground (arith, waiters_of-pin t c.key j room);
          pending = omega (arith, pin-pending t c.key, g);
          pending_bounded = omega (arith, pin-pending t c.key, b);
          outcome = (refl, rw (pin-entries t c.key) e);
        }

    -- The call has its place among the pending calls: it pins the key unless it does so already.
    placed-Attempted :
        (pending : ℕ)
        → attempt capacity s c fresh ≡ (
          pin_once c.pinned (record s { pending_claims = pending }) c.key,
          waits (held_on c) (entry_change token),
        )
        → pending + guards c ≡ s.pending_claims + 1
        → pending ≤ capacity
        → capacity ≤ usize_max
        → Attempted capacity s c fresh (attempt capacity s c fresh)
    unfolding pin_once
    placed-Attempted pending q g b m = elim (Bool-cases c.pinned) [
      | inl p ↦
          let eq : attempt capacity s c fresh
              ≡ (record s { pending_claims = pending }, waits (held_on c) (entry_change token)) =
            ground (arith, q) in
          rw eq (pinned-Attempted pending p g b)
      | inr p ↦
          let eq : attempt capacity s c fresh ≡ (
            pin_waiter (record s { pending_claims = pending }) c.key,
            waits (held_on c) (entry_change token),
          ) =
            ground (arith, q) in
          rw eq (unpinned-Attempted pending p g b m)
    ]

    pub flight-Attempted :
        capacity ≤ usize_max → Attempted capacity s c fresh (attempt capacity s c fresh)
    unfolding attempt admit_pending_claim pin_once
    flight-Attempted m = elim (Bool-cases c.admitted) [
      | inl a ↦ placed-Attempted s.pending_claims (ground arith) (ground arith) f.pending_bounded m
      | inr a ↦ elim (Bool-cases (leb capacity s.pending_claims)) [
        | inl full ↦
            let eq : attempt capacity s c fresh ≡ (settle s c, refused wait_saturated) =
              ground arith in
            rw eq (
              ends capacity s c fresh f s (refused wait_saturated) f.valid (λ j. refl) refl refl
                (λ j. refl)
                (refl, a, omega (arith, leb→le capacity s.pending_claims full, f.pending_bounded)))
        | inr free ↦
            placed-Attempted (s.pending_claims + 1) (ground arith) (ground arith) (ground arith) m
      ]
    ]
