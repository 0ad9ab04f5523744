-- ===== src/Dedup/System/Books.antt =====
-- The books balance after any history: the store counts exactly the calls that wait.
use bro_know_my_qqbot.Prelude.{
  ℕ, zero, suc, ◌+◌, ◌≤◌, ◌≡◌, refl, ◌∙◌, true, some, List, [], ◌∷◌, length, arith, usize_max, ltb,
  Bool-cases, Option-cases, inl, inr,
}
use bro_know_my_qqbot.Prelude.Map.{get}
use bro_know_my_qqbot.Dedup.{
  DedupKey, MemoryState, ClaimCall, Wait, Attempt, duplicate, claimed, refused, waits, entry_change,
  capacity_change, entry_of, claim, new_call, waiters_of, key_discrete, max_dedup_key_bytes,
}
use bro_know_my_qqbot.Dedup.Evict.{IsValid, ready}
use bro_know_my_qqbot.Dedup.Pins.{pin_on, guards, settle-waiters, settle-pending, settle-IsValid}
use bro_know_my_qqbot.Dedup.Accounts.{Fits, Outcome, Attempted}
use bro_know_my_qqbot.Dedup.Attempts.{attempt-Attempted}
use bro_know_my_qqbot.Dedup.Finalize.{
  commit-IsValid, commit-waiters, commit-pending, release-IsValid, release-waiters, release-pending,
}
use bro_know_my_qqbot.Dedup.System.{
  System, Event, starts, resumes, cancels, commits, releases, initial, take_out, settled_into, step,
  run,
}

-- The pins on a key, and the guards, of the calls that wait.
abbrev pub pins : DedupKey → List (ClaimCall × Wait) → ℕ
pins j [] = 0
pins j (x ∷ xs) = pin_on j x.0 + pins j xs

abbrev pub places : List (ClaimCall × Wait) → ℕ
places [] = 0
places (x ∷ xs) = guards x.0 + places xs

-- A call that waits has been admitted.
abbrev pub AllAdmitted : List (ClaimCall × Wait) → Type 0
AllAdmitted [] = Unit {0}
AllAdmitted (x ∷ xs) = (x.0.admitted ≡ true) × AllAdmitted xs

pub record IsBalanced (capacity : ℕ) (sys : System) : Type 0 where
  pub valid : IsValid capacity sys.store
  pub pending : sys.store.pending_claims ≡ length sys.waiting
  pub bounded : length sys.waiting ≤ capacity
  pub pinned : (j : DedupKey) → waiters_of sys.store j ≡ pins j sys.waiting
  pub admitted : AllAdmitted sys.waiting

pins-le-length : (j : DedupKey) (xs : List (ClaimCall × Wait)) → pins j xs ≤ length xs
pins-le-length j [] = omega arith
pins-le-length j (x ∷ xs) = ground (arith, pins-le-length j xs)

-- To take a call out splits what the calls hold.
pub record Splits (xs : List (ClaimCall × Wait)) (x : ClaimCall × Wait)
    (rest : List (ClaimCall × Wait)) : Type 0 where
  pub pins_split : (j : DedupKey) → pins j xs ≡ pin_on j x.0 + pins j rest
  pub length_split : length xs ≡ suc (length rest)
  pub head_admitted : x.0.admitted ≡ true
  pub rest_admitted : AllAdmitted rest

pub take_out-Splits :
    (xs : List (ClaimCall × Wait)) (i : ℕ) (x : ClaimCall × Wait) (rest : List (ClaimCall × Wait))
    → AllAdmitted xs
    → take_out xs i ≡ some (x, rest)
    → Splits xs x rest
unfolding take_out
take_out-Splits [] i x rest a e = absurd (ground arith)
take_out-Splits (y ∷ ys) zero x rest a e = record {
  pins_split = λ j. ground arith;
  length_split = ground arith;
  head_admitted = ground arith;
  rest_admitted = ground arith;
}
take_out-Splits (y ∷ ys) (suc i) x rest a e = elim (Option-cases (take_out ys i)) [
  | inl f ↦ absurd (ground arith)
  | inr ((z, zs), f) ↦
      let ih = take_out-Splits ys i z zs a.1 f in
      record {
        pins_split = λ j. ground (arith, ih.pins_split j);
        length_split = ground (arith, ih.length_split);
        head_admitted = ground (arith, ih.head_admitted);
        rest_admitted = ground (arith, ih.rest_admitted);
      }
]

waits_admitted :
    (capacity : ℕ) (s : MemoryState) (c : ClaimCall) (fresh : ℕ) (s' : MemoryState) (c' : ClaimCall)
    (w : Wait)
    → Outcome capacity s c fresh s' (waits c' w)
    → c'.admitted ≡ true
waits_admitted capacity s c fresh s' c' (entry_change token) o = ground (arith, o.0)
waits_admitted capacity s c fresh s' c' (capacity_change seen) o = ground (arith, o.0)

module _ (capacity : ℕ) (m : capacity ≤ usize_max) where
  settled-IsBalanced :
      (s s' : MemoryState) (c : ClaimCall) (fresh : ℕ) (r : Attempt)
      (others : List (ClaimCall × Wait))
      → Attempted capacity s c fresh (s', r)
      → s.pending_claims ≡ guards c + length others
      → ((j : DedupKey) → waiters_of s j ≡ pin_on j c + pins j others)
      → AllAdmitted others
      → IsBalanced capacity (settled_into others (s', r))
  settled-IsBalanced s s' c fresh duplicate others a p w o = record {
    valid = a.valid;
    pending = omega (arith, a.pending, p);
    bounded = omega (arith, a.pending, a.pending_bounded, p);
    pinned = λ j. omega (arith, a.pins j, w j);
    admitted = o;
  }
  settled-IsBalanced s s' c fresh (claimed _) others a p w o = record {
    valid = a.valid;
    pending = omega (arith, a.pending, p);
    bounded = omega (arith, a.pending, a.pending_bounded, p);
    pinned = λ j. omega (arith, a.pins j, w j);
    admitted = o;
  }
  settled-IsBalanced s s' c fresh (refused _) others a p w o = record {
    valid = a.valid;
    pending = omega (arith, a.pending, p);
    bounded = omega (arith, a.pending, a.pending_bounded, p);
    pinned = λ j. omega (arith, a.pins j, w j);
    admitted = o;
  }
  settled-IsBalanced s s' c fresh (waits c' wait) others a p w o =
      let adm : c'.admitted ≡ true = waits_admitted capacity s c fresh s' c' wait a.outcome in
      record {
        valid = a.valid;
        pending = ground (arith, a.pending, p);
        bounded = ground (arith, a.pending, a.pending_bounded, p);
        pinned = λ j. omega (arith, a.pins j, w j);
        admitted = (adm, o);
      }

  -- A new call holds nothing yet.
  pub new-Fits :
      (sys : System) (key : DedupKey)
      → IsBalanced capacity sys
      → Fits capacity sys.store (new_call key)
  new-Fits sys key b = record {
    valid = b.valid;
    pin_held = omega arith;
    guard_held = omega arith;
    pending_bounded = omega (arith, b.pending, b.bounded);
    pins_guarded = omega (arith, b.pending, b.pinned key, pins-le-length key sys.waiting);
  }

  claim-IsBalanced :
      (sys : System) (key : DedupKey) (fresh : ℕ)
      → IsBalanced capacity sys
      → IsBalanced capacity (settled_into sys.waiting (claim capacity sys.store key fresh))
  unfolding claim
  claim-IsBalanced sys key fresh b =
      elim (Bool-cases (ltb max_dedup_key_bytes (length key.adapter + length key.event))) [
        | inl long ↦ rw long b
        | inr short ↦ rw short (
            settled-IsBalanced sys.store _ (new_call key) fresh _ sys.waiting
              (attempt-Attempted capacity sys.store (new_call key) fresh (new-Fits sys key b) m)
              (omega (arith, b.pending)) (λ j. omega (arith, b.pinned j)) b.admitted)
      ]

  -- A call that waits is accounted for.
  pub waiting-Fits :
      (sys : System) (c : ClaimCall) (w : Wait) (others : List (ClaimCall × Wait))
      → IsBalanced capacity sys
      → Splits sys.waiting (c, w) others
      → Fits capacity sys.store c
  waiting-Fits sys c w others b sp = record {
    valid = b.valid;
    pin_held = omega (arith, b.pinned c.key, sp.pins_split c.key);
    guard_held = ground (arith, b.pending, sp.length_split, sp.head_admitted);
    pending_bounded = omega (arith, b.pending, b.bounded);
    pins_guarded = ground (
      arith,
      b.pending,
      b.pinned c.key,
      sp.pins_split c.key,
      sp.length_split,
      sp.head_admitted,
      pins-le-length c.key others,
    );
  }

  resume-IsBalanced :
      (sys : System) (i fresh : ℕ)
      → IsBalanced capacity sys
      → IsBalanced capacity (step capacity sys (resumes i fresh))
  unfolding step
  resume-IsBalanced sys i fresh b = elim (Option-cases (take_out sys.waiting i)) [
    | inl e ↦ rw (e, step) b
    | inr (((c, w), others), e) ↦
        let sp = take_out-Splits sys.waiting i (c, w) others b.admitted e in
        rw (e, step)
          (settled-IsBalanced sys.store _ c fresh _ others
            (attempt-Attempted capacity sys.store c fresh (waiting-Fits sys c w others b sp) m)
            (ground (arith, b.pending, sp.length_split, sp.head_admitted))
            (λ j. omega (arith, b.pinned j, sp.pins_split j)) sp.rest_admitted)
  ]

  cancel-IsBalanced :
      (sys : System) (i : ℕ)
      → IsBalanced capacity sys
      → IsBalanced capacity (step capacity sys (cancels i))
  unfolding step
  cancel-IsBalanced sys i b = elim (Option-cases (take_out sys.waiting i)) [
    | inl e ↦ rw (e, step) b
    | inr (((c, w), others), e) ↦
        let sp = take_out-Splits sys.waiting i (c, w) others b.admitted e in
        let f = waiting-Fits sys c w others b sp in
        rw (e, step)
          (record {
            valid = settle-IsValid capacity sys.store c f.pin_held b.valid;
            pending =
                ground
                  (arith, settle-pending sys.store c, b.pending, sp.length_split, sp.head_admitted);
            bounded = omega (arith, sp.length_split, b.bounded);
            pinned = λ j. omega (arith, settle-waiters sys.store c j, b.pinned j, sp.pins_split j);
            admitted = sp.rest_admitted;
          })
  ]

  -- Every event keeps the books.
  pub step-IsBalanced :
      (sys : System) (e : Event)
      → IsBalanced capacity sys
      → IsBalanced capacity (step capacity sys e)
  unfolding step
  step-IsBalanced sys (starts key fresh) b = claim-IsBalanced sys key fresh b
  step-IsBalanced sys (resumes i fresh) b = resume-IsBalanced sys i fresh b
  step-IsBalanced sys (cancels i) b = cancel-IsBalanced sys i b
  step-IsBalanced sys (commits c) b = record {
    valid = commit-IsValid capacity sys.store c b.valid;
    pending = commit-pending capacity sys.store c ∙ b.pending;
    bounded = b.bounded;
    pinned = λ j. commit-waiters capacity sys.store c j ∙ b.pinned j;
    admitted = b.admitted;
  }
  step-IsBalanced sys (releases c) b = record {
    valid = release-IsValid capacity sys.store c b.valid;
    pending = release-pending capacity sys.store c ∙ b.pending;
    bounded = b.bounded;
    pinned = λ j. release-waiters capacity sys.store c j ∙ b.pinned j;
    admitted = b.admitted;
  }

  pub run-IsBalanced :
      (sys : System) (es : List Event)
      → IsBalanced capacity sys
      → IsBalanced capacity (run capacity sys es)
  unfolding run
  run-IsBalanced sys [] b = b
  run-IsBalanced sys (e ∷ es) b = run-IsBalanced (step capacity sys e) es (step-IsBalanced sys e b)

nothing_queued :
    (j : DedupKey)
    → get key_discrete j initial.store.evictable
      ≡ ready (entry_of initial.store j) (waiters_of initial.store j)
unfolding get
nothing_queued j = refl

nothing_pinned : (j : DedupKey) → waiters_of initial.store j ≡ 0
unfolding get
nothing_pinned j = refl

pub initial-IsBalanced : (capacity : ℕ) → IsBalanced capacity initial
initial-IsBalanced capacity = record {
  valid = record {
    distinct = tt;
    bounded = omega arith;
    queue_distinct = tt;
    queued = λ j. nothing_queued j;
  };
  pending = refl;
  bounded = omega arith;
  pinned = λ j. nothing_pinned j;
  admitted = tt;
}

-- After any history of a store: at most `capacity` entries and at most `capacity` calls that wait;
-- the store counts the waiting calls exactly, in total and for each key; and its queue holds exactly
-- the committed keys that nobody waits for.
pub run-initial-IsBalanced :
    (capacity : ℕ) (es : List Event)
    → capacity ≤ usize_max
    → IsBalanced capacity (run capacity initial es)
run-initial-IsBalanced capacity es m =
    run-IsBalanced capacity m initial es (initial-IsBalanced capacity)
