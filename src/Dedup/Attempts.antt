-- ===== src/Dedup/Attempts.antt =====
-- One pass of `claim`: it keeps the invariant and the accounts.
use bro_know_my_qqbot.Prelude.{ℕ, ◌≤◌, ◌≡◌, refl, Option, none, some, usize_max}
use bro_know_my_qqbot.Dedup.{
  MemoryEntry, in_flight, committed, MemoryState, ClaimCall, duplicate, entry_of, attempt,
}
use bro_know_my_qqbot.Dedup.Accounts.{Fits, Attempted, attempt_committed, ends}
use bro_know_my_qqbot.Dedup.Flight.{flight-Attempted}
use bro_know_my_qqbot.Dedup.Absent.{absent-Attempted}

module _ (capacity : ℕ) (s : MemoryState) (c : ClaimCall) (fresh : ℕ) (f : Fits capacity s c) where
  -- Every pass of a call that the store accounts for keeps the invariant and the accounts, and
  -- its outcome is the one that the store's content calls for.
  pub attempt-Attempted :
      capacity ≤ usize_max → Attempted capacity s c fresh (attempt capacity s c fresh)
  attempt-Attempted m = by_entry (entry_of s c.key) refl
    where
      by_entry :
          (o : Option MemoryEntry)
          → entry_of s c.key ≡ o
          → Attempted capacity s c fresh (attempt capacity s c fresh)
      by_entry none e = absent-Attempted capacity s c fresh f e
      by_entry (some (in_flight token)) e = flight-Attempted capacity s c fresh f token e m
      by_entry (some (committed token)) e = rw (attempt_committed capacity s c fresh token e) (
          ends capacity s c fresh f s duplicate f.valid (λ j. refl) refl refl (λ j. refl)
            (token, e))
