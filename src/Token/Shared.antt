-- ===== src/Token/Shared.antt =====
-- How many requests the callers of the token manager send.
use bro_know_my_qqbot.Prelude.{
  ℕ, ◌+◌, ◌*◌, ◌^◌, ◌≤◌, ◌<◌, ◌≡◌, refl, Bool, true, false, not, ◌&&◌, ◌||◌, if◌then◌else◌, Option,
  none, some, List, [], ◌∷◌, arith, ltb, count, Option-cases, Bool-cases, inl, inr, Result, ok, err,
  All,
}
use bro_know_my_qqbot.Prelude.Text.{Text, same_text, is_empty}
use bro_know_my_qqbot.Token.{
  CachedToken, TokenState, TokenConfig, Answer, unreachable, status, body, AuthError, live_token,
  cached_token, fetch, or_cached, locked_access, replacement, refresh_if_current, is_current,
  invalidate_if_current,
}
use bro_know_my_qqbot.Token.Calls.{
  TokenCall, read_call, locked_call, refresh_call, force_call, invalidate_call,
  invalidate_current_call, step, run,
}

-- The request fails, or its answer is refused.
abbrev pub answer_fails : TokenConfig → Answer → ℕ → Bool
answer_fails config unreachable at = true
answer_fails config (status code) at = true
answer_fails config (body none token) at = true
answer_fails config (body (some expires_in) token) at =
    is_empty token || ltb config.max_instant (at + expires_in * 10 ^ 9)

abbrev pub call_fails : TokenConfig → TokenCall → Bool
call_fails config (read_call now) = false
call_fails config (locked_call times answer) = answer_fails config answer times.answered
call_fails config (refresh_call rejected now at answer) = answer_fails config answer at
call_fails config (force_call at answer) = answer_fails config answer at
call_fails config invalidate_call = false
call_fails config (invalidate_current_call rejected) = false

-- What the endpoint issues is another token than the rejected one, and up to the time `until` it
-- has more than the refresh window left.
abbrev pub Lasting : TokenConfig → Text → ℕ → Answer → ℕ → Type 0
Lasting config rejected until unreachable at = Unit
Lasting config rejected until (status code) at = Unit
Lasting config rejected until (body none token) at = Unit
Lasting config rejected until (body (some expires_in) token) at =
    (same_text token rejected ≡ false) × (until + config.refresh_before < at + expires_in * 10 ^ 9)

-- The calls that read the cache by the time `until`: accesses, and refreshes and invalidations for
-- the one rejected token.
abbrev pub Sharing : TokenConfig → Text → ℕ → TokenCall → Type 0
Sharing config rejected until (read_call now) = Unit
Sharing config rejected until (locked_call times answer) =
    (times.locked ≤ until) × Lasting config rejected until answer times.answered
Sharing config rejected until (refresh_call other now at answer) =
    (other ≡ rejected) × (now ≤ until) × Lasting config rejected until answer at
Sharing config rejected until (force_call at answer) = ⊥
Sharing config rejected until invalidate_call = ⊥
Sharing config rejected until (invalidate_current_call other) = other ≡ rejected

module _ (config : TokenConfig) (rejected : Text) (until : ℕ) where
  -- The cache holds a token that serves all calls.
  abbrev settled : Option CachedToken → Bool
  settled none = false
  settled (some c) =
      not (same_text c.token rejected) && ltb (until + config.refresh_before) c.expires_at

  -- The requests sent, and the one that may still be needed.
  abbrev cost : TokenState → ℕ
  cost s = s.requests + (if settled s.cached then 0 else 1)

  fetch-cost :
      (answer : Answer) (at : ℕ) (s : TokenState)
      → Lasting config rejected until answer at
      → settled s.cached ≡ false
      → cost (fetch config answer at s).0
        ≤ cost s + (if answer_fails config answer at then 1 else 0)
  unfolding fetch
  fetch-cost unreachable at s l u = ground arith
  fetch-cost (status code) at s l u = ground arith
  fetch-cost (body none token) at s l u = ground arith
  fetch-cost (body (some expires_in) token) at s (other, lasts) u =
      elim (Bool-cases (is_empty token)) [
        | inl e ↦ rw (e, fetch) (ground arith)
        | inr e ↦ elim (Bool-cases (ltb config.max_instant (at + expires_in * 10 ^ 9))) [
          | inl l ↦ rw (e, l, fetch) (ground arith)
          | inr l ↦ rw (e, l, fetch) (ground arith)
        ]
      ]

  or_cached-state :
      (now : ℕ) (r : TokenState × Result Text AuthError) → (or_cached config now r).0 ≡ r.0
  unfolding or_cached cached_token
  or_cached-state now (s, ok token) = refl
  or_cached-state now (s, err e) = elim (Option-cases (live_token 0 now s.cached)) [
    | inl n ↦ rw (n, or_cached, cached_token) refl
    | inr (token, l) ↦ rw (l, or_cached, cached_token) refl
  ]

  dead-unsettled :
      (now : ℕ) (cached : Option CachedToken)
      → now ≤ until
      → live_token config.refresh_before now cached ≡ none
      → settled cached ≡ false
  unfolding live_token
  dead-unsettled now none b h = refl
  dead-unsettled now (some c) b h = ground arith

  current-unsettled :
      (now : ℕ) (cached : Option CachedToken)
      → now ≤ until
      → replacement rejected now cached ≡ none
      → settled cached ≡ false
  unfolding replacement
  current-unsettled now none b h = refl
  current-unsettled now (some c) b h = ground arith

  step-cost :
      (call : TokenCall) (s : TokenState)
      → Sharing config rejected until call
      → cost (step config call s).0 ≤ cost s + (if call_fails config call then 1 else 0)
  unfolding step locked_access cached_token refresh_if_current invalidate_if_current
  step-cost (read_call now) s h = ground arith
  step-cost (locked_call times answer) s (b, l) =
      elim (Option-cases (live_token config.refresh_before times.locked s.cached)) [
        | inr (token, e) ↦ rw (e, locked_access, cached_token) (ground arith)
        | inl e ↦
            let r = fetch config answer times.answered s in
            let u = dead-unsettled times.locked s.cached b e in
            rw (e, locked_access, cached_token, or_cached-state times.last r)
              (fetch-cost answer times.answered s l u)
      ]
  step-cost (refresh_call other now at answer) s (same, b, l) =
      elim (Option-cases (replacement other now s.cached)) [
        | inr (token, e) ↦ rw (e, refresh_if_current) (ground arith)
        | inl e ↦
            let u = current-unsettled now s.cached b (rw same at e) in
            rw (e, refresh_if_current) (fetch-cost answer at s l u)
      ]
  step-cost (force_call at answer) s h = absurd h
  step-cost invalidate_call s h = absurd h
  step-cost (invalidate_current_call other) s same = elim (Bool-cases (is_current other s.cached)) [
    | inr e ↦ rw (e, invalidate_if_current) (ground arith)
    | inl e ↦ rw (e, invalidate_if_current) (unsettled s.cached (rw same at e))
  ]
    where
      unsettled :
          (cached : Option CachedToken)
          → is_current rejected cached ≡ true
          → s.requests + 1 ≤ s.requests + (if settled cached then 0 else 1) + 0
      unsettled none e = absurd (ground arith)
      unsettled (some c) e = ground arith

  run-cost :
      (calls : List TokenCall) (s : TokenState)
      → All (Sharing config rejected until) calls
      → cost (run config calls s).0 ≤ cost s + count (call_fails config) calls
  unfolding run
  run-cost [] s h = omega arith
  run-cost (call ∷ calls) s h =
      omega (arith, step-cost call s h.0, run-cost calls (step config call s).0 h.1)

-- Callers share one request. Through any history of the steps of accesses, and of refreshes and
-- invalidations for one rejected token, in any order, that read the cache under the mutex by a
-- time `until`, where what the endpoint issues is another token than the rejected one and has
-- still more than the refresh window left at that time: at most one request is sent, and one more
-- for each request that may have failed.
pub run-shared :
    (config : TokenConfig) (rejected : Text) (until : ℕ) (calls : List TokenCall) (s : TokenState)
    → All (Sharing config rejected until) calls
    → (run config calls s).0.requests ≤ s.requests + 1 + count (call_fails config) calls
run-shared config rejected until calls s h =
    ground (arith, run-cost config rejected until calls s h)
