-- ===== src/Dedup/Examples.antt =====
-- Runs of the store, and its theorems at concrete inputs.
use bro_know_my_qqbot.Prelude.{
  ℕ, zero, suc, ap, true, take, ◌<◌, ◌++◌, ◌≤◌, ◌≡◌, refl, some, List, [], ◌∷◌, arith,
  saturating_add, wrapping_suc, ok, err, usize_max, false, none, length,
}
use bro_know_my_qqbot.Prelude.Map.{get, insert, remove}
use bro_know_my_qqbot.Dedup.{
  new_call, DedupKey, DedupClaim, in_flight, committed, entry_of, waiters_of, commit, release,
  stale_claim, duplicate, claimed, attempt, admit_pending_claim, evict_committed, evict_loop,
  release_guard, release_pin, unpin_waiter, pin_waiter, pin_once, settle, claim, key_discrete,
  try_new, zero_capacity, wait_saturated, refused, wakes, waits, ClaimCall, entry_change,
}
use bro_know_my_qqbot.Dedup.System.{
  System, Event, starts, resumes, commits, releases, initial, run, step, take_out,
}
use bro_know_my_qqbot.Dedup.System.Books.{IsBalanced, run-initial-IsBalanced}
use bro_know_my_qqbot.Dedup.System.Pinned.{run-pinned}
use bro_know_my_qqbot.Dedup.System.Roomy.{run-final}
use bro_know_my_qqbot.Dedup.System.Retired.{run-retired}
use bro_know_my_qqbot.Dedup.System.Exclusive.{run-exclusive, IsHeldBack}
use bro_know_my_qqbot.Dedup.System.Wakeups.{no_lost_wakeup}

program : Unit {0}
unfolding get insert remove claim attempt commit release settle step take_out run key_discrete wakes
    admit_pending_claim evict_committed evict_loop release_guard release_pin unpin_waiter pin_waiter
    pin_once saturating_add wrapping_suc try_new
program = tt

abbrev shared : DedupKey
shared = record { adapter = 1 ∷ []; event = 7 ∷ [] }

abbrev other : DedupKey
other = record { adapter = 1 ∷ []; event = 8 ∷ [] }

abbrev owner : DedupClaim
owner = record { key = shared; token = 5 }

-- The key is claimed, a second call on it waits, and the claim is committed.
abbrev claimed_once : System
claimed_once = run 1 initial (starts shared 5 ∷ [])

abbrev history : List Event
history = starts shared 5 ∷ starts shared 6 ∷ commits owner ∷ []

abbrev after_commit : System
after_commit = run 1 initial history

small : 1 ≤ usize_max
small = omega arith

in_flight_once : entry_of claimed_once.store shared ≡ some (in_flight 5)
unfolding program
in_flight_once = refl

-- The second call waits on the entry of the first.
waiting_call : ClaimCall
waiting_call = record { key = shared; pinned = true; admitted = true }

history_waits :
    take_out (run 1 initial history).waiting 0 ≡ some ((waiting_call, entry_change 5), [])
unfolding program waiting_call
history_waits = refl

-- Its channel has something new after the commit.
history_wakes : wakes after_commit.store waiting_call (entry_change 5) ≡ true
unfolding program waiting_call
history_wakes = refl

-- A third call on another key finds no room and no place to wait.
other_refused : (claim 1 after_commit.store other 9).1 ≡ refused wait_saturated
unfolding program
other_refused = refl

-- Once the waiting call has seen the commit, the key makes room for another.
other_granted :
    (claim 1 (run 1 initial (history ++ (resumes 0 6 ∷ []))).store other 9).1
    ≡ claimed (record { key = other; token = 9 })
unfolding program
other_granted = refl

no_capacity : try_new 0 ≡ err zero_capacity
unfolding program
no_capacity = refl

run-initial-IsBalanced_example : IsBalanced 1 (run 1 initial history)
run-initial-IsBalanced_example = run-initial-IsBalanced 1 history small

run-exclusive_example :
    let sys' = run 1 claimed_once (starts shared 6 ∷ releases (record owner { token = 8 }) ∷ []) in
    (entry_of sys'.store shared ≡ some (in_flight 5))
    × IsHeldBack (attempt 1 sys'.store (new_call shared) 9).1
run-exclusive_example =
    run-exclusive 1 claimed_once (starts shared 6 ∷ releases (record owner { token = 8 }) ∷ [])
      owner (new_call shared) 9 small (run-initial-IsBalanced 1 (starts shared 5 ∷ []) small)
      in_flight_once (tt, (λ e. absurd (omega (arith, ap (λ (c : DedupClaim). c.token) e)), tt))
      refl

committed_after_history : entry_of after_commit.store shared ≡ some (committed 5)
unfolding program
committed_after_history = refl

still_pinned :
    (n : ℕ) → 0 < waiters_of (run 1 after_commit (take n (starts other 9 ∷ []))).store shared
unfolding program
still_pinned zero = omega arith
still_pinned (suc zero) = omega arith
still_pinned (suc (suc n)) = omega arith

run-pinned_example :
    let sys' = run 1 after_commit (starts other 9 ∷ []) in
    (entry_of sys'.store shared ≡ some (committed 5))
    × (attempt 1 sys'.store waiting_call 9 ≡ (settle sys'.store waiting_call, duplicate))
unfolding waiting_call
run-pinned_example =
    run-pinned 1 after_commit (starts other 9 ∷ []) shared 5 waiting_call 9 small
      (run-initial-IsBalanced 1 history small) committed_after_history still_pinned refl

early_history : List Event
early_history = starts shared 5 ∷ starts shared 6 ∷ []

early_waits :
    take_out (run 1 initial early_history).waiting 0 ≡ some ((waiting_call, entry_change 5), [])
unfolding program waiting_call early_history
early_waits = refl

early_quiet : wakes (run 1 initial early_history).store waiting_call (entry_change 5) ≡ false
unfolding program waiting_call early_history
early_quiet = refl

no_lost_wakeup_example :
    attempt 1 (run 1 initial early_history).store waiting_call 9
    ≡ ((run 1 initial early_history).store, waits waiting_call (entry_change 5))
no_lost_wakeup_example =
    no_lost_wakeup 1 early_history 0 9 waiting_call (entry_change 5) [] small early_waits
      early_quiet

-- Another key is claimed after the commit, in a store for three.
abbrev roomy : System
roomy = run 3 initial (starts shared 5 ∷ [])

owner_commits : (commit roomy.store owner).1 ≡ ok tt
unfolding program
owner_commits = refl

stays_roomy :
    (n : ℕ)
    → length (run 3 (step 3 roomy (commits owner)) (take n (starts other 9 ∷ []))).store.entries < 3
unfolding program
stays_roomy zero = omega arith
stays_roomy (suc zero) = omega arith
stays_roomy (suc (suc n)) = omega arith

run-final_example :
    let s = (run 3 roomy (commits owner ∷ starts other 9 ∷ [])).store in
    (commit s owner ≡ (s, ok tt))
    × (release s owner ≡ (s, ok tt))
    × (attempt 3 s (new_call shared) 4 ≡ (settle s (new_call shared), duplicate))
run-final_example =
    run-final 3 roomy owner (starts other 9 ∷ []) (new_call shared) 4 owner_commits stays_roomy refl

-- In a full store the committed key makes room, and can be claimed anew.
evicted_later :
    entry_of (run 1 claimed_once (commits owner ∷ starts other 9 ∷ [])).store shared ≡ none
unfolding program
evicted_later = refl

-- After its release, the key is claimed anew.
abbrev anew : List Event
anew = starts shared 7 ∷ []

claimed_anew :
    entry_of (run 1 claimed_once (releases owner ∷ anew)).store shared ≡ some (in_flight 7)
unfolding program
claimed_anew = refl

run-retired_example :
    let s = (run 1 claimed_once (releases owner ∷ anew)).store in
    ((commit s owner).0 ≡ s) × ((release s owner).0 ≡ s)
run-retired_example =
    run-retired 1 claimed_once (releases owner) anew owner refl
      ((λ e. absurd (omega (arith, e))), tt)

stale_refused :
    (release (run 1 claimed_once (releases owner ∷ anew)).store owner).1 ≡ err stale_claim
unfolding program
stale_refused = refl
