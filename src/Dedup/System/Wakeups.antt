-- ===== src/Dedup/System/Wakeups.antt =====
-- No wake-up is lost: a call whose channel has nothing new could do nothing but wait again.
use bro_know_my_qqbot.Prelude.{
  ℕ, zero, suc, ◌+◌, ◌≤◌, ◌≡◌, subst, true, false, some, List, [], ◌∷◌, length, arith, Option-cases,
  inl, inr, Bool-cases, ltb, usize_max,
}
use bro_know_my_qqbot.Dedup.{
  DedupKey, MemoryState, ClaimCall, Wait, Attempt, entry_change, capacity_change, duplicate,
  claimed, refused, waits, attempt, claim, admit_pending_claim, new_call, pin_once,
  max_dedup_key_bytes, wakes,
}
use bro_know_my_qqbot.Dedup.Accounts.{Outcome}
use bro_know_my_qqbot.Dedup.Attempts.{attempt-Attempted}
use bro_know_my_qqbot.Dedup.System.{
  System, Event, starts, resumes, cancels, commits, releases, take_out, step, run, initial,
  still_waiting, settled_into,
}
use bro_know_my_qqbot.Dedup.System.Books.{
  IsBalanced, run-IsBalanced, step-IsBalanced, waiting-Fits, new-Fits, initial-IsBalanced,
  take_out-Splits,
}
use bro_know_my_qqbot.Dedup.System.Waiting.{
  Blocked, AllBlocked, IsQuiet, quiet-AllBlocked, settle-IsQuiet, evict-empty, attempt-IsQuiet,
  finalize-IsQuiet,
}

-- A call that starts to wait relies on what its pass has just seen.
Outcome-Blocked :
    (capacity : ℕ) (s s' : MemoryState) (c c' : ClaimCall) (fresh : ℕ) (w : Wait)
    → Outcome capacity s c fresh s' (waits c' w)
    → Blocked capacity s' c' w
Outcome-Blocked capacity s s' c c' fresh (entry_change token) o = ground (arith, o.0)
Outcome-Blocked capacity s s' c c' fresh (capacity_change seen) o =
    (omega (arith, o.1), λ same. ((o.3, o.4), ground (arith, o.0, o.2)))

pass-AllBlocked :
    (capacity : ℕ) (s s' : MemoryState) (c : ClaimCall) (fresh : ℕ) (r : Attempt)
    (others : List (ClaimCall × Wait))
    → Outcome capacity s c fresh s' r
    → IsQuiet capacity s s'
    → AllBlocked capacity s others
    → AllBlocked capacity s' (still_waiting r others)
pass-AllBlocked capacity s s' c fresh (waits c' w) others o q b =
    (Outcome-Blocked capacity s s' c c' fresh w o, quiet-AllBlocked capacity s s' others q b)
pass-AllBlocked capacity s s' c fresh duplicate others o q b =
    quiet-AllBlocked capacity s s' others q b
pass-AllBlocked capacity s s' c fresh (claimed _) others o q b =
    quiet-AllBlocked capacity s s' others q b
pass-AllBlocked capacity s s' c fresh (refused _) others o q b =
    quiet-AllBlocked capacity s s' others q b

take_out-AllBlocked :
    (capacity : ℕ) (s : MemoryState) (xs : List (ClaimCall × Wait)) (i : ℕ) (x : ClaimCall × Wait)
    (rest : List (ClaimCall × Wait))
    → AllBlocked capacity s xs
    → take_out xs i ≡ some (x, rest)
    → Blocked capacity s x.0 x.1 × AllBlocked capacity s rest
unfolding take_out
take_out-AllBlocked capacity s [] i x rest b e = absurd (ground arith)
take_out-AllBlocked capacity s (y ∷ ys) zero x rest b e =
    let same : (y ≡ x) × (ys ≡ rest) = ground arith in
    (subst (λ z. Blocked capacity s z.0 z.1) same.0 b.0, subst (AllBlocked capacity s) same.1 b.1)
take_out-AllBlocked capacity s (y ∷ ys) (suc i) x rest b e = elim (Option-cases (take_out ys i)) [
  | inl f ↦ absurd (ground arith)
  | inr ((z, zs), f) ↦
      let ih = take_out-AllBlocked capacity s ys i z zs b.1 f in
      let same : (z ≡ x) × (y ∷ zs ≡ rest) = ground arith in
      (
        subst (λ z. Blocked capacity s z.0 z.1) same.0 ih.0,
        subst (AllBlocked capacity s) same.1 (b.0, ih.1),
      )
]

module _ (capacity : ℕ) (m : capacity ≤ usize_max) where
  claim-AllBlocked :
      (sys : System) (key : DedupKey) (fresh : ℕ)
      → IsBalanced capacity sys
      → AllBlocked capacity sys.store sys.waiting
      → let sys' = settled_into sys.waiting (claim capacity sys.store key fresh) in
        AllBlocked capacity sys'.store sys'.waiting
  unfolding claim
  claim-AllBlocked sys key fresh v b =
      elim (Bool-cases (ltb max_dedup_key_bytes (length key.adapter + length key.event))) [
        | inl long ↦ rw long b
        | inr short ↦
            let a =
              attempt-Attempted capacity sys.store (new_call key) fresh
                (new-Fits capacity m sys key v) m in
            rw short (
              pass-AllBlocked capacity sys.store _ (new_call key) fresh _ sys.waiting a.outcome
                (attempt-IsQuiet capacity sys.store (new_call key) fresh) b)
      ]

  step-AllBlocked :
      (sys : System) (ev : Event)
      → IsBalanced capacity sys
      → AllBlocked capacity sys.store sys.waiting
      → let sys' = step capacity sys ev in AllBlocked capacity sys'.store sys'.waiting
  unfolding step
  step-AllBlocked sys (starts key fresh) v b = claim-AllBlocked sys key fresh v b
  step-AllBlocked sys (resumes i fresh) v b = elim (Option-cases (take_out sys.waiting i)) [
    | inl e ↦ rw (e, step) b
    | inr (((c, w), others), e) ↦
        let sp = take_out-Splits sys.waiting i (c, w) others v.admitted e in
        let a =
          attempt-Attempted capacity sys.store c fresh (waiting-Fits capacity m sys c w others v sp)
            m in
        rw (e, step)
          (pass-AllBlocked capacity sys.store _ c fresh _ others a.outcome
            (attempt-IsQuiet capacity sys.store c fresh)
            (take_out-AllBlocked capacity sys.store sys.waiting i (c, w) others b e).1)
  ]
  step-AllBlocked sys (cancels i) v b = elim (Option-cases (take_out sys.waiting i)) [
    | inl e ↦ rw (e, step) b
    | inr (((c, w), others), e) ↦
        rw (e, step)
          (quiet-AllBlocked capacity sys.store _ others (settle-IsQuiet capacity sys.store c)
            (take_out-AllBlocked capacity sys.store sys.waiting i (c, w) others b e).1)
  ]
  step-AllBlocked sys (commits c) v b =
      quiet-AllBlocked capacity sys.store _ sys.waiting (finalize-IsQuiet capacity sys.store c).0 b
  step-AllBlocked sys (releases c) v b =
      quiet-AllBlocked capacity sys.store _ sys.waiting (finalize-IsQuiet capacity sys.store c).1 b

  run-AllBlocked :
      (sys : System) (es : List Event)
      → IsBalanced capacity sys
      → AllBlocked capacity sys.store sys.waiting
      → let sys' = run capacity sys es in AllBlocked capacity sys'.store sys'.waiting
  unfolding run
  run-AllBlocked sys [] v b = b
  run-AllBlocked sys (ev ∷ es) v b =
      run-AllBlocked (step capacity sys ev) es (step-IsBalanced capacity m sys ev v)
        (step-AllBlocked sys ev v b)

-- A blocked call without news: its pass changes nothing, and it waits as before.
Blocked-attempt :
    (capacity : ℕ) (s : MemoryState) (c : ClaimCall) (w : Wait) (fresh : ℕ)
    → c.admitted ≡ true
    → Blocked capacity s c w
    → wakes s c w ≡ false
    → attempt capacity s c fresh ≡ (s, waits c w)
unfolding wakes attempt admit_pending_claim pin_once
Blocked-attempt capacity s c (entry_change token) fresh a b quiet = ground arith
Blocked-attempt capacity s c (capacity_change seen) fresh a b quiet =
    let same : seen ≡ s.capacity_changed.version = ground arith in
    let (full, absent) = b.1 same in
    ground (arith, full.0, full.1, absent, evict-empty capacity s full.1)

-- No wake-up is lost: after any history, if the channel that a waiting call has subscribed to has
-- nothing new, then a pass of the call would change nothing and wait on the same channel again.
pub no_lost_wakeup :
    (capacity : ℕ) (es : List Event) (i fresh : ℕ) (c : ClaimCall) (w : Wait)
    (others : List (ClaimCall × Wait))
    → capacity ≤ usize_max
    → take_out (run capacity initial es).waiting i ≡ some ((c, w), others)
    → wakes (run capacity initial es).store c w ≡ false
    → attempt capacity (run capacity initial es).store c fresh
      ≡ ((run capacity initial es).store, waits c w)
no_lost_wakeup capacity es i fresh c w others m e quiet =
    let sys = run capacity initial es in
    let v = run-IsBalanced capacity m initial es (initial-IsBalanced capacity) in
    let b = run-AllBlocked capacity m initial es (initial-IsBalanced capacity) tt in
    Blocked-attempt capacity sys.store c w fresh
      (take_out-Splits sys.waiting i (c, w) others v.admitted e).head_admitted
      (take_out-AllBlocked capacity sys.store sys.waiting i (c, w) others b e).0 quiet
