-- ===== src/Runtime/Once.antt =====
-- What the protocol of the calls for a claim rules out.
use bro_know_my_qqbot.Prelude.{
  ℕ, ◌+◌, ◌≤◌, ◌≡◌, refl, Bool, true, false, ◌&&◌, Option, none, some, List, [], ◌∷◌, leb, ◌==◌,
  if◌then◌else◌, arith, count, any, inl, inr, ◌⊎◌,
}
use bro_know_my_qqbot.Dedup.{DedupClaim}
use bro_know_my_qqbot.Runtime.{
  Call, handler_call, release_call, commit_call, ack_call, RuntimeState, Environment, tracked_state,
  processing,
}
use bro_know_my_qqbot.Runtime.Protocol.{
  Phase, working, spoiled, releasing, released, committing, committed, acknowledged, next_phase,
  follow,
}
use bro_know_my_qqbot.Runtime.Lifecycle.{lifetime, lifetime-IsInOrder}

abbrev pub is_handler : ℕ → Call → Bool
is_handler n (handler_call m b) = m == n
is_handler n _ = false

abbrev pub is_release : Call → Bool
is_release (release_call b) = true
is_release _ = false

abbrev pub is_commit : Call → Bool
is_commit (commit_call b) = true
is_commit _ = false

-- How often the handler at a place may still run.
abbrev budget : ℕ → Phase → ℕ
budget n (working m) = if leb m n then 1 else 0
budget n _ = 0

abbrev budget_of : ℕ → Option Phase → ℕ
budget_of n none = 0
budget_of n (some p) = budget n p

next_phase-budget :
    (total n : ℕ) (p q : Phase) (call : Call)
    → next_phase total p call ≡ some q
    → (if is_handler n call then 1 else 0) + budget n q ≤ budget n p
unfolding next_phase
next_phase-budget total n (working m) q (handler_call k true) h = ground arith
next_phase-budget total n (working m) q (handler_call k false) h = ground arith
next_phase-budget total n (working m) q (release_call true) h = ground arith
next_phase-budget total n (working m) q (release_call false) h = ground arith
next_phase-budget total n (working m) q (commit_call true) h = ground arith
next_phase-budget total n (working m) q (commit_call false) h = ground arith
next_phase-budget total n p q call h = ground arith

follow-cons :
    (total : ℕ) (p q : Phase) (call : Call) (calls : List Call)
    → follow total (some p) (call ∷ calls) ≡ some q
    → (p' : Phase) × (next_phase total p call ≡ some p') × (follow total (some p') calls ≡ some q)
unfolding follow
follow-cons total p q call calls h = from (next_phase total p call) h
  where
    from :
        (o : Option Phase)
        → follow total o calls ≡ some q
        → (p' : Phase) × (o ≡ some p') × (follow total (some p') calls ≡ some q)
    from none h = cc
    from (some p') h = (p', refl, h)

follow-budget :
    (total n : ℕ) (calls : List Call) (p q : Phase)
    → follow total (some p) calls ≡ some q
    → count (is_handler n) calls ≤ budget n p
follow-budget total n [] p q h = omega arith
follow-budget total n (call ∷ calls) p q h =
    let (p', e, rest) = follow-cons total p q call calls h in
    omega (arith, next_phase-budget total n p p' call e, follow-budget total n calls p' q rest)

-- A claim on its way to a release, and one on its way to an acknowledgement.
abbrev is_spoiled : Phase → Bool
is_spoiled spoiled = true
is_spoiled releasing = true
is_spoiled released = true
is_spoiled _ = false

abbrev is_kept : Phase → Bool
is_kept committing = true
is_kept committed = true
is_kept acknowledged = true
is_kept _ = false

next_phase-spoiled :
    (total : ℕ) (p q : Phase) (call : Call)
    → next_phase total p call ≡ some q
    → is_spoiled p ≡ true
    → (is_commit call ≡ false) × (is_spoiled q ≡ true)
unfolding next_phase
next_phase-spoiled total spoiled q (release_call true) h i = ground arith
next_phase-spoiled total spoiled q (release_call false) h i = ground arith
next_phase-spoiled total releasing q (release_call true) h i = ground arith
next_phase-spoiled total releasing q (release_call false) h i = ground arith
next_phase-spoiled total p q call h i = ground arith

next_phase-kept :
    (total : ℕ) (p q : Phase) (call : Call)
    → next_phase total p call ≡ some q
    → is_kept p ≡ true
    → (is_release call ≡ false) × (is_kept q ≡ true)
unfolding next_phase
next_phase-kept total committing q (commit_call true) h i = ground arith
next_phase-kept total committing q (commit_call false) h i = ground arith
next_phase-kept total committed q (ack_call true) h i = ground arith
next_phase-kept total committed q (ack_call false) h i = ground arith
next_phase-kept total p q call h i = ground arith

follow-spoiled :
    (total : ℕ) (calls : List Call) (p q : Phase)
    → follow total (some p) calls ≡ some q
    → is_spoiled p ≡ true
    → any is_commit calls ≡ false
follow-spoiled total [] p q h i = refl
follow-spoiled total (call ∷ calls) p q h i =
    let (p', e, rest) = follow-cons total p q call calls h in
    let (first, side) = next_phase-spoiled total p p' call e i in
    rw first (follow-spoiled total calls p' q rest side)

follow-kept :
    (total : ℕ) (calls : List Call) (p q : Phase)
    → follow total (some p) calls ≡ some q
    → is_kept p ≡ true
    → any is_release calls ≡ false
follow-kept total [] p q h i = refl
follow-kept total (call ∷ calls) p q h i =
    let (p', e, rest) = follow-cons total p q call calls h in
    let (first, side) = next_phase-kept total p p' call e i in
    rw first (follow-kept total calls p' q rest side)

-- From its handlers on, a claim goes one of the two ways.
next_phase-working :
    (total m : ℕ) (q : Phase) (call : Call)
    → next_phase total (working m) call ≡ some q
    → ((k : ℕ) × (q ≡ working k) × (is_release call ≡ false) × (is_commit call ≡ false))
      ⊎ (((is_spoiled q ≡ true) × (is_commit call ≡ false))
          ⊎ ((is_kept q ≡ true) × (is_release call ≡ false)))
unfolding next_phase
next_phase-working total m q (handler_call k true) h = inl (m + 1, ground arith, refl, refl)
next_phase-working total m q (handler_call k false) h = inr (inl (ground arith, refl))
next_phase-working total m q (release_call true) h = inr (inl (ground arith, refl))
next_phase-working total m q (release_call false) h = inr (inl (ground arith, refl))
next_phase-working total m q (commit_call true) h = inr (inr (ground arith, refl))
next_phase-working total m q (commit_call false) h = inr (inr (ground arith, refl))
next_phase-working total m q (ack_call b) h = cc

follow_either :
    (total m : ℕ) (calls : List Call) (q : Phase)
    → follow total (some (working m)) calls ≡ some q
    → (any is_release calls && any is_commit calls) ≡ false
follow_either total m [] q h = refl
follow_either total m (call ∷ calls) q h =
    let (p', e, rest) = follow-cons total (working m) q call calls h in
    elim (next_phase-working total m p' call e) [
      | inl (k, w, r, c) ↦ rw (r, c) (follow_either total k calls q (rw w at rest))
      | inr (inl (side, c)) ↦ ground (arith, c, follow-spoiled total calls p' q rest side)
      | inr (inr (side, r)) ↦ ground (arith, r, follow-kept total calls p' q rest side)
    ]

-- In the whole life of a claim, whatever is answered and dropped: each handler is run at most once,
-- and a claim for which a commit is tried is never released, before or after.
pub lifetime_once :
    {W E : Type 0} (total : ℕ) (c : DedupClaim) (env : Environment W E) (adapter : ℕ) (event : E)
    (rounds n place : ℕ) (s : RuntimeState W E)
    → s.calls ≡ []
    → tracked_state s c ≡ some processing
    → (count (is_handler place) (lifetime total c env adapter event rounds n s).calls ≤ 1)
      × ((any is_release (lifetime total c env adapter event rounds n s).calls
            && any is_commit (lifetime total c env adapter event rounds n s).calls)
          ≡ false)
lifetime_once total c env adapter event rounds n place s fresh tracked =
    let i = lifetime-IsInOrder total c env adapter event rounds n s fresh tracked in
    let t = lifetime total c env adapter event rounds n s in
    (
      ground (arith, follow-budget total place t.calls (working 0) (i.at).phase (i.at).path),
      follow_either total 0 t.calls (i.at).phase (i.at).path,
    )
