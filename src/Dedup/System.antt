-- ===== src/Dedup/System.antt =====
-- The store shared by many callers: calls of `claim` that start, wake and are cancelled in any
-- order, between commits and releases by anyone.
pub mod Books
pub mod Committed
pub mod Pinned
pub mod Roomy
pub mod Retired
pub mod Exclusive
pub mod Waiting
pub mod Wakeups
use bro_know_my_qqbot.Prelude.{
  ℕ, zero, suc, ◌+◌, ◌≤◌, ◌≡◌, refl, Option, none, some, List, [], ◌∷◌, length,
}
use bro_know_my_qqbot.Dedup.{
  DedupKey, DedupClaim, MemoryState, ClaimCall, Wait, Attempt, duplicate, claimed, refused, waits,
  initial_state, attempt, claim, settle, commit, release,
}

-- The store, and the calls that wait with what each has subscribed to.
pub record System : Type 0 where
  pub store : MemoryState
  pub waiting : List (ClaimCall × Wait)

abbrev pub initial : System
initial = record { store = initial_state; waiting = [] }

-- What the callers and the scheduler may do. A call may wake at any time.
pub data Event : Type 0 where
  starts : DedupKey → ℕ → Event
  resumes : ℕ → ℕ → Event
  cancels : ℕ → Event
  commits : DedupClaim → Event
  releases : DedupClaim → Event

-- The list without its element at a place.
unfoldable pub take_out :
    List (ClaimCall × Wait) → ℕ → Option ((ClaimCall × Wait) × List (ClaimCall × Wait))
take_out [] i = none
take_out (x ∷ xs) zero = some (x, xs)
take_out (x ∷ xs) (suc i) = elim (take_out xs i) [
  | none ↦ none
  | some (y, rest) ↦ some (y, x ∷ rest)
]

-- A call that waits again joins the others; any other has returned to its caller.
abbrev pub still_waiting : Attempt → List (ClaimCall × Wait) → List (ClaimCall × Wait)
still_waiting (waits c w) others = (c, w) ∷ others
still_waiting _ others = others

abbrev pub settled_into : List (ClaimCall × Wait) → MemoryState × Attempt → System
settled_into others (s, outcome) = record { store = s; waiting = still_waiting outcome others }

resume_with : ℕ → System → ℕ → Option ((ClaimCall × Wait) × List (ClaimCall × Wait)) → System
resume_with capacity sys fresh none = sys
resume_with capacity sys fresh (some ((c, w), others)) =
    settled_into others (attempt capacity sys.store c fresh)

-- A future that is dropped while it waits runs the destructors of its pin and its guard.
cancel_with : System → Option ((ClaimCall × Wait) × List (ClaimCall × Wait)) → System
cancel_with sys none = sys
cancel_with sys (some ((c, w), others)) = record { store = settle sys.store c; waiting = others }

unfoldable pub step : ℕ → System → Event → System
unfolding resume_with cancel_with
step capacity sys (starts key fresh) = settled_into sys.waiting (claim capacity sys.store key fresh)
step capacity sys (resumes i fresh) = resume_with capacity sys fresh (take_out sys.waiting i)
step capacity sys (cancels i) = cancel_with sys (take_out sys.waiting i)
step capacity sys (commits c) = record sys { store = (commit sys.store c).0 }
step capacity sys (releases c) = record sys { store = (release sys.store c).0 }

unfoldable pub run : ℕ → System → List Event → System
run capacity sys [] = sys
run capacity sys (e ∷ es) = run capacity (step capacity sys e) es
