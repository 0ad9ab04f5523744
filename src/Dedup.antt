-- ===== src/Dedup.antt =====
-- crates/bot-core/src/dedup.rs: the bounded in-memory store that deduplicates events.
-- An operation runs under the store's mutex, so it is a function on `MemoryState`. A call of
-- `claim` is a sequence of passes through its loop, one for each wake-up: `attempt` is one pass.
-- A UUID is a number, and the one that `DedupClaim::new` draws is an argument. The channel of an
-- entry in flight is named by the entry's token: its senders live in the entry and in the call
-- that takes the entry out, so its receivers wake as soon as no entry in flight has the token.
-- Two sequences of the source are one step here: the two drops at the end of a call of `claim`, each
-- under the mutex, and a change by `commit` or `release` with the signals sent after the mutex.
pub mod Evict
pub mod Pins
pub mod Accounts
pub mod Flight
pub mod Absent
pub mod Attempts
pub mod Finalize
pub mod System
mod Examples
use bro_know_my_qqbot.Prelude.{
  ℕ, zero, suc, ◌+◌, ◌-◌, ◌≤◌, String, Bool, true, false, ite, Option, none, some, List, [], ◌∷◌,
  ◌++◌, ltb, leb, ◌==◌, if◌then◌else◌, Result, ok, err, length, saturating_add, wrapping_suc,
  ℕ_discrete, ◌||◌, not,
}
use bro_know_my_qqbot.Prelude.Map.{get, insert, remove}

abbrev pub max_dedup_key_bytes : ℕ
max_dedup_key_bytes = 1024

-- The identifiers as their bytes.
pub record DedupKey : Type 0 where
  pub adapter : List ℕ
  pub event : List ℕ

unfoldable pub key_discrete : Discrete DedupKey
unfolding ℕ_discrete
key_discrete = hlevel ℕ_discrete

pub record DedupClaim : Type 0 where
  pub key : DedupKey
  pub token : ℕ

pub data DedupErrorKind : Type 0 where
  retryable permanent : DedupErrorKind

pub record DedupError : Type 0 where
  pub kind : DedupErrorKind
  pub message : String

abbrev pub zero_capacity : DedupError
zero_capacity = record { kind = permanent; message = "deduplication capacity must be at least one" }

abbrev pub oversized_key : DedupError
oversized_key = record { kind = permanent; message = "deduplication key exceeds 1024 bytes" }

abbrev pub wait_saturated : DedupError
wait_saturated = record {
  kind = retryable;
  message = "deduplication claim wait capacity is saturated";
}

abbrev pub without_claim : DedupError
without_claim = record { kind = permanent; message = "cannot commit an event without a claim" }

abbrev pub stale_claim : DedupError
stale_claim = record { kind = permanent; message = "deduplication claim is stale" }

pub data MemoryEntry : Type 0 where
  in_flight : ℕ → MemoryEntry
  committed : ℕ → MemoryEntry

-- A `watch` channel: the value sent last, and how often a value was sent.
pub record Watch : Type 0 where
  pub value : ℕ
  pub version : ℕ

pub record MemoryState : Type 0 where
  pub entries : List (DedupKey × MemoryEntry)
  pub waiters : List (DedupKey × ℕ)
  pub pending_claims : ℕ
  pub evictable : List (DedupKey × ℕ)
  pub capacity_changed : Watch

pub record MemoryDedupStore : Type 0 where
  pub capacity : ℕ
  pub state : MemoryState

abbrev pub initial_state : MemoryState
initial_state = record {
  entries = [];
  waiters = [];
  pending_claims = 0;
  evictable = [];
  capacity_changed = record { value = 0; version = 0 };
}

pub try_new : ℕ → Result MemoryDedupStore DedupError
try_new capacity =
    if capacity == 0
    then err zero_capacity
    else ok (record { capacity = capacity; state = initial_state })

abbrev pub entry_of : MemoryState → DedupKey → Option MemoryEntry
entry_of s key = get key_discrete key s.entries

-- How many calls wait for the outcome of a key.
abbrev pub or_zero : Option ℕ → ℕ
or_zero none = 0
or_zero (some n) = n

abbrev pub waiters_of : MemoryState → DedupKey → ℕ
waiters_of s key = or_zero (get key_discrete key s.waiters)

signal : Watch → Watch
signal sender = record { value = wrapping_suc sender.value; version = sender.version + 1 }

signal_capacity : MemoryState → MemoryState
unfolding signal
signal_capacity s = record s { capacity_changed = signal s.capacity_changed }

pub pin_waiter : MemoryState → DedupKey → MemoryState
pin_waiter s key = record s {
  waiters = insert key_discrete key (saturating_add (waiters_of s key) 1) s.waiters;
}

-- A key whose last waiter left becomes evictable if it is committed by now.
push_if_committed : Option MemoryEntry → MemoryState → DedupKey → MemoryState
push_if_committed (some (committed token)) s key = record s {
  evictable = s.evictable ++ ((key, token) ∷ []);
}
push_if_committed _ s key = s

unpin_count : Option ℕ → MemoryState → DedupKey → MemoryState
unfolding push_if_committed signal_capacity
unpin_count none s key = s
unpin_count (some n) s key =
    if n - 1 == 0
    then signal_capacity (
        push_if_committed (entry_of s key)
          (record s { waiters = remove key_discrete key s.waiters }) key)
    else record s { waiters = insert key_discrete key (n - 1) s.waiters }

pub unpin_waiter : MemoryState → DedupKey → MemoryState
unfolding unpin_count
unpin_waiter s key = unpin_count (get key_discrete key s.waiters) s key

-- `matches!(entry, Some(Committed { token: current }) if *current == token)`
abbrev pub is_committed_as : ℕ → Option MemoryEntry → Bool
is_committed_as token (some (committed current)) = current == token
is_committed_as token _ = false

-- The loop of `evict_committed` over the queue: the entries and the queue that it leaves.
pub evict_loop :
    ℕ
    → List (DedupKey × MemoryEntry)
    → List (DedupKey × ℕ)
    → List (DedupKey × MemoryEntry) × List (DedupKey × ℕ)
evict_loop capacity entries [] = (entries, [])
evict_loop capacity entries ((expired, token) ∷ queue) =
    let entries' =
      if is_committed_as token (get key_discrete expired entries)
      then remove key_discrete expired entries
      else entries in
    let rest = evict_loop capacity entries' queue in
    if leb capacity (length entries) then rest else (entries, (expired, token) ∷ queue)

pub evict_committed : MemoryState → ℕ → MemoryState
evict_committed s capacity =
    let (entries, queue) = evict_loop capacity s.entries s.evictable in
    record s { entries = entries; evictable = queue }

-- The locals of a call of `claim`: its key, `waiter_pin` and `pending_guard`.
pub record ClaimCall : Type 0 where
  pub key : DedupKey
  pub pinned : Bool
  pub admitted : Bool

-- What a call that waits has subscribed to.
pub data Wait : Type 0 where
  entry_change : ℕ → Wait
  capacity_change : ℕ → Wait

pub data Attempt : Type 0 where
  duplicate : Attempt
  claimed : DedupClaim → Attempt
  refused : DedupError → Attempt
  waits : ClaimCall → Wait → Attempt

-- `PendingClaimGuard::release`, and its `Drop`.
pub release_guard : Bool → MemoryState → MemoryState
release_guard false s = s
release_guard true s = record s { pending_claims = s.pending_claims - 1 }

pub release_pin : Bool → MemoryState → DedupKey → MemoryState
release_pin false s key = s
release_pin true s key = unpin_waiter s key

-- The pin and the guard of a call end with it: on its return, and when its future is dropped.
pub settle : MemoryState → ClaimCall → MemoryState
settle s c = release_pin c.pinned (release_guard c.admitted s) c.key

pub admit_pending_claim : ℕ → MemoryState → Bool → Result MemoryState DedupError
admit_pending_claim capacity s true = ok s
admit_pending_claim capacity s false =
    if leb capacity s.pending_claims
    then err wait_saturated
    else ok (record s { pending_claims = s.pending_claims + 1 })

pub pin_once : Bool → MemoryState → DedupKey → MemoryState
pin_once true s key = s
pin_once false s key = pin_waiter s key

-- An entry in flight: the call waits for its outcome and keeps it from being evicted.
wait_in_flight : MemoryState → ClaimCall → ℕ → Result MemoryState DedupError → MemoryState × Attempt
unfolding pin_once
wait_in_flight s c token (err e) = (settle s c, refused e)
wait_in_flight s c token (ok s') = (
  pin_once c.pinned s' c.key,
  waits (record c { pinned = true; admitted = true }) (entry_change token),
)

wait_capacity : MemoryState → ClaimCall → Result MemoryState DedupError → MemoryState × Attempt
wait_capacity s c (err e) = (settle s c, refused e)
wait_capacity s c (ok s') =
    (s', waits (record c { admitted = true }) (capacity_change s'.capacity_changed.version))

grant : MemoryState → ClaimCall → ℕ → MemoryState × Attempt
grant s c fresh =
    let s' = settle s c in
    (
      record s' { entries = insert key_discrete c.key (in_flight fresh) s'.entries },
      claimed (record { key = c.key; token = fresh }),
    )

claim_absent : ℕ → MemoryState → ClaimCall → ℕ → MemoryState × Attempt
unfolding wait_capacity grant
claim_absent capacity s c fresh =
    if leb capacity (length s.entries)
    then wait_capacity s c (admit_pending_claim capacity s c.admitted)
    else grant s c fresh

observe : Option MemoryEntry → ℕ → MemoryState → ClaimCall → ℕ → MemoryState × Attempt
unfolding wait_in_flight claim_absent
observe (some (committed _)) capacity s c fresh = (settle s c, duplicate)
observe (some (in_flight token)) capacity s c fresh =
    wait_in_flight s c token (admit_pending_claim capacity s c.admitted)
observe none capacity s c fresh = claim_absent capacity (evict_committed s capacity) c fresh

-- One pass through the loop of `claim`.
pub attempt : ℕ → MemoryState → ClaimCall → ℕ → MemoryState × Attempt
unfolding observe
attempt capacity s c fresh = observe (entry_of s c.key) capacity s c fresh

abbrev pub new_call : DedupKey → ClaimCall
new_call key = record { key = key; pinned = false; admitted = false }

-- `claim` up to its first wait.
pub claim : ℕ → MemoryState → DedupKey → ℕ → MemoryState × Attempt
claim capacity s key fresh =
    if ltb max_dedup_key_bytes (length key.adapter + length key.event)
    then (s, refused oversized_key)
    else attempt capacity s (new_call key) fresh

-- A committed key goes to the queue of evictable keys unless a call waits for it.
pub mark_committed : MemoryState → DedupClaim → MemoryState
unfolding signal_capacity
mark_committed s c =
    let evictable =
      if waiters_of s c.key == 0 then s.evictable ++ ((c.key, c.token) ∷ []) else s.evictable in
    signal_capacity (record s {
      entries = insert key_discrete c.key (committed c.token) s.entries;
      evictable = evictable;
    })

commit_entry :
    Option MemoryEntry → MemoryState → DedupClaim → MemoryState × Result (Unit {0}) DedupError
unfolding mark_committed
commit_entry none s c = (s, err without_claim)
commit_entry (some (in_flight token)) s c =
    if token == c.token then (mark_committed s c, ok tt) else (s, err stale_claim)
commit_entry (some (committed token)) s c =
    if token == c.token then (s, ok tt) else (s, err stale_claim)

pub commit : MemoryState → DedupClaim → MemoryState × Result (Unit {0}) DedupError
unfolding commit_entry
commit s c = commit_entry (entry_of s c.key) s c

release_entry :
    Option MemoryEntry → MemoryState → DedupClaim → MemoryState × Result (Unit {0}) DedupError
unfolding signal_capacity
release_entry none s c = (s, ok tt)
release_entry (some (in_flight token)) s c =
    if token == c.token
    then (signal_capacity (record s { entries = remove key_discrete c.key s.entries }), ok tt)
    else (s, err stale_claim)
release_entry (some (committed token)) s c =
    if token == c.token then (s, ok tt) else (s, err stale_claim)

pub release : MemoryState → DedupClaim → MemoryState × Result (Unit {0}) DedupError
unfolding release_entry
release s c = release_entry (entry_of s c.key) s c

holds_flight : ℕ → Option MemoryEntry → Bool
holds_flight token (some (in_flight current)) = current == token
holds_flight token _ = false

-- The receiver of a waiting call has something new: see the head of this file for the entries.
pub wakes : MemoryState → ClaimCall → Wait → Bool
unfolding holds_flight
wakes s c (capacity_change seen) = not (s.capacity_changed.version == seen)
wakes s c (entry_change token) = not (holds_flight token (entry_of s c.key))
