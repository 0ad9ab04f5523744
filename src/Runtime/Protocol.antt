-- ===== src/Runtime/Protocol.antt =====
-- The order of calls that the runtime promises for a claim, as an automaton, and how the state that
-- is tracked for a claim follows it.
use bro_know_my_qqbot.Prelude.{
  ℕ, ◌+◌, ◌<◌, ◌≡◌, refl, Bool, true, false, ◌&&◌, ◌||◌, Option, none, some, List, [], ◌∷◌, ◌++◌,
  ltb, ◌==◌, if◌then◌else◌, ◌⊎◌, inl, inr, arith,
}
use bro_know_my_qqbot.Dedup.{DedupClaim}
use bro_know_my_qqbot.Runtime.{
  OutstandingClaimState, processing, commit_pending, acknowledgement_pending, Call, handler_call,
  release_call, commit_call, ack_call, RuntimeState, tracked_state,
}

-- How far a claim came: `working n` after `n` handlers succeeded, `spoiled` after one failed.
pub data Phase : Type 0 where
  working : ℕ → Phase
  spoiled releasing released committing committed acknowledged : Phase

abbrev pub release_phase : Bool → Phase
release_phase true = released
release_phase false = releasing

abbrev pub commit_phase : Bool → Phase
commit_phase true = committed
commit_phase false = committing

abbrev pub ack_phase : Bool → Phase
ack_phase true = acknowledged
ack_phase false = committed

-- The calls that are allowed, for `total` handlers. Handlers run in order, each once, until one
-- fails. A release is allowed before the first handler and until the last one has succeeded; a
-- commit, from then on; an acknowledgement, after a commit that succeeded; nothing, after a release or an acknowledgement
-- that succeeded.
unfoldable pub next_phase : ℕ → Phase → Call → Option Phase
next_phase total (working n) (handler_call m true) =
    if m == n && ltb n total then some (working (n + 1)) else none
next_phase total (working n) (handler_call m false) =
    if m == n && ltb n total then some spoiled else none
next_phase total (working n) (release_call b) =
    if n == 0 || ltb n total then some (release_phase b) else none
next_phase total (working n) (commit_call b) = if n == total then some (commit_phase b) else none
next_phase total spoiled (release_call b) = some (release_phase b)
next_phase total releasing (release_call b) = some (release_phase b)
next_phase total committing (commit_call b) = some (commit_phase b)
next_phase total committed (ack_call b) = some (ack_phase b)
next_phase total _ _ = none

-- The phase after a sequence of calls, if all of them are allowed.
unfoldable pub follow : ℕ → Option Phase → List Call → Option Phase
follow total none calls = none
follow total (some p) [] = some p
follow total (some p) (call ∷ calls) = follow total (next_phase total p call) calls

follow-nil : (total : ℕ) (o : Option Phase) → follow total o [] ≡ o
unfolding follow
follow-nil total none = refl
follow-nil total (some p) = refl

pub follow-snoc :
    (total : ℕ) (start : Option Phase) (calls : List Call) (p : Phase) (call : Call)
    → follow total start calls ≡ some p
    → follow total start (calls ++ (call ∷ [])) ≡ next_phase total p call
unfolding follow
follow-snoc total none calls p call h = cc
follow-snoc total (some q) [] p call h = ground (arith, follow-nil total (next_phase total q call))
follow-snoc total (some q) (x ∷ calls) p call h =
    follow-snoc total (next_phase total q x) calls p call h

-- What the phase can be while the claim is tracked in a state, or is no longer tracked.
abbrev pub IsReleasable : ℕ → Phase → Type 0
IsReleasable total (working n) = (n ≡ 0) ⊎ (n < total)
IsReleasable total spoiled = Unit {0}
IsReleasable total releasing = Unit {0}
IsReleasable total _ = ⊥

abbrev pub IsCommittable : ℕ → Phase → Type 0
IsCommittable total (working n) = n ≡ total
IsCommittable total committing = Unit {0}
IsCommittable total _ = ⊥

abbrev pub IsFinished : Phase → Type 0
IsFinished released = Unit {0}
IsFinished acknowledged = Unit {0}
IsFinished _ = ⊥

abbrev pub Agrees : ℕ → Option OutstandingClaimState → Phase → Type 0
Agrees total none p = IsFinished p
Agrees total (some processing) p = IsReleasable total p
Agrees total (some commit_pending) p = IsCommittable total p
Agrees total (some acknowledgement_pending) p = p ≡ committed

pub release_step :
    (total : ℕ) (b : Bool) (p : Phase)
    → IsReleasable total p
    → next_phase total p (release_call b) ≡ some (release_phase b)
unfolding next_phase
release_step total true (working n) (inl z) = ground (arith, z)
release_step total true (working n) (inr l) = ground (arith, l)
release_step total false (working n) (inl z) = ground (arith, z)
release_step total false (working n) (inr l) = ground (arith, l)
release_step total true spoiled h = refl
release_step total false spoiled h = refl
release_step total true releasing h = refl
release_step total false releasing h = refl
release_step total b released h = absurd h
release_step total b committing h = absurd h
release_step total b committed h = absurd h
release_step total b acknowledged h = absurd h

pub commit_step :
    (total : ℕ) (b : Bool) (p : Phase)
    → IsCommittable total p
    → next_phase total p (commit_call b) ≡ some (commit_phase b)
unfolding next_phase
commit_step total true (working n) h = ground (arith, h)
commit_step total false (working n) h = ground (arith, h)
commit_step total true committing h = refl
commit_step total false committing h = refl
commit_step total b spoiled h = absurd h
commit_step total b releasing h = absurd h
commit_step total b released h = absurd h
commit_step total b committed h = absurd h
commit_step total b acknowledged h = absurd h

module _ {W E : Type 0} (total : ℕ) (c : DedupClaim) where
  -- The calls so far are allowed and lead to a phase of this kind, and the claim is tracked so.
  pub record IsAt (x : Option OutstandingClaimState) (K : Phase → Type 0) (s : RuntimeState W E)
      : Type 0 where
    pub phase : Phase
    pub path : follow total (some (working 0)) s.calls ≡ some phase
    pub kind : K phase
    pub entry : tracked_state s c ≡ x

  -- The calls so far are allowed, and the tracked state tells what is allowed next.
  pub record IsInOrder (s : RuntimeState W E) : Type 0 where
    pub tracked : Option OutstandingClaimState
    pub at : IsAt tracked (Agrees total tracked) s
