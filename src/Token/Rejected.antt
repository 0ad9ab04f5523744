-- ===== src/Token/Rejected.antt =====
-- A token that the API has rejected does not come back.
use bro_know_my_qqbot.Prelude.{
  ℕ, ◌+◌, ◌*◌, ◌^◌, ◌≡◌, refl, ap, subst, Bool, true, false, not, Option, none, some, List, [], ◌∷◌,
  arith, ltb, Option-cases, Bool-cases, inl, inr, Result, ok, err, All, All-append,
}
use bro_know_my_qqbot.Prelude.Text.{Text, same_text, is_empty}
use bro_know_my_qqbot.Token.{
  CachedToken, TokenState, TokenConfig, Answer, unreachable, status, body, AuthError, live_token,
  cached_token, fetch, or_cached, locked_access, force_refresh, replacement, refresh_if_current,
  is_current, invalidate, invalidate_if_current,
}
use bro_know_my_qqbot.Token.Access.{Fetched, fetch-Fetched}
use bro_know_my_qqbot.Token.Calls.{
  TokenCall, read_call, locked_call, refresh_call, force_call, invalidate_call,
  invalidate_current_call, step, run,
}

-- The endpoint does not issue the rejected token.
abbrev pub Spares : Text → Answer → Type 0
Spares rejected unreachable = Unit
Spares rejected (status code) = Unit
Spares rejected (body expires_in token) = same_text token rejected ≡ false

abbrev pub CallSpares : Text → TokenCall → Type 0
CallSpares rejected (read_call now) = Unit
CallSpares rejected (locked_call times answer) = Spares rejected answer
CallSpares rejected (refresh_call other now at answer) = Spares rejected answer
CallSpares rejected (force_call at answer) = Spares rejected answer
CallSpares rejected invalidate_call = Unit
CallSpares rejected (invalidate_current_call other) = Unit

module _ (rejected : Text) where
  -- The result is not the rejected token.
  abbrev pub is_other : Result Text AuthError → Bool
  is_other (ok token) = not (same_text token rejected)
  is_other (err e) = true

  -- The rejected token is neither in the cache nor returned.
  abbrev Clean : TokenState × Result Text AuthError → Type 0
  Clean (s, r) = (is_current rejected s.cached ≡ false) × (is_other r ≡ true)

  live_token-other :
      (margin now : ℕ) (cached : Option CachedToken) (token : Text)
      → is_current rejected cached ≡ false
      → live_token margin now cached ≡ some token
      → same_text token rejected ≡ false
  unfolding live_token
  live_token-other margin now none token h e = absurd (ground arith)
  live_token-other margin now (some c) token h e =
      let same : c.token ≡ token = ground arith in rw (← same) h

  replacement-other :
      (other : Text) (now : ℕ) (cached : Option CachedToken) (token : Text)
      → is_current rejected cached ≡ false
      → replacement other now cached ≡ some token
      → same_text token rejected ≡ false
  unfolding replacement
  replacement-other other now none token h e = absurd (ground arith)
  replacement-other other now (some c) token h e =
      let same : c.token ≡ token = ground arith in rw (← same) h

  fetch-Clean :
      (config : TokenConfig) (answer : Answer) (at : ℕ) (s : TokenState)
      → is_current rejected s.cached ≡ false
      → Spares rejected answer
      → Clean (fetch config answer at s)
  unfolding fetch
  fetch-Clean config unreachable at s h a = (h, refl)
  fetch-Clean config (status code) at s h a = (h, refl)
  fetch-Clean config (body none token) at s h a = (h, refl)
  fetch-Clean config (body (some expires_in) token) at s h a = elim (Bool-cases (is_empty token)) [
    | inl e ↦ rw (e, fetch) (h, refl)
    | inr e ↦ elim (Bool-cases (ltb config.max_instant (at + expires_in * 10 ^ 9))) [
      | inl l ↦ rw (e, l, fetch) (h, refl)
      | inr l ↦ rw (e, l, fetch) (a, ground arith)
    ]
  ]

  or_cached-Clean :
      (config : TokenConfig) (now : ℕ) (r : TokenState × Result Text AuthError)
      → Clean r
      → Clean (or_cached config now r)
  unfolding or_cached cached_token
  or_cached-Clean config now (s, ok token) h = h
  or_cached-Clean config now (s, err e) h = elim (Option-cases (live_token 0 now s.cached)) [
    | inl n ↦ rw (n, or_cached, cached_token) h
    | inr (token, l) ↦
        let other = live_token-other 0 now s.cached token h.0 l in
        rw (l, or_cached, cached_token) (h.0, ground arith)
  ]

  step-Clean :
      (config : TokenConfig) (call : TokenCall) (s : TokenState)
      → is_current rejected s.cached ≡ false
      → CallSpares rejected call
      → (is_current rejected (step config call s).0.cached ≡ false)
        × All (λ r. is_other r ≡ true) (step config call s).1
  unfolding step locked_access cached_token refresh_if_current force_refresh invalidate
      invalidate_if_current
  step-Clean config (read_call now) s h a =
      elim (Option-cases (live_token config.refresh_before now s.cached)) [
        | inl e ↦ rw (e, cached_token) (h, tt)
        | inr (token, e) ↦
            let other = live_token-other config.refresh_before now s.cached token h e in
            rw (e, cached_token) (h, (ground arith, tt))
      ]
  step-Clean config (locked_call times answer) s h a =
      elim (Option-cases (live_token config.refresh_before times.locked s.cached)) [
        | inl e ↦
            let (kept, good) =
              or_cached-Clean config times.last (fetch config answer times.answered s)
                (fetch-Clean config answer times.answered s h a) in
            rw (e, locked_access, cached_token) (kept, (good, tt))
        | inr (token, e) ↦
            let other = live_token-other config.refresh_before times.locked s.cached token h e in
            rw (e, locked_access, cached_token) (h, (ground arith, tt))
      ]
  step-Clean config (refresh_call old now at answer) s h a =
      elim (Option-cases (replacement old now s.cached)) [
        | inl e ↦
            let (kept, good) = fetch-Clean config answer at s h a in
            rw (e, refresh_if_current) (kept, (good, tt))
        | inr (token, e) ↦
            let other = replacement-other old now s.cached token h e in
            rw (e, refresh_if_current) (h, (ground arith, tt))
      ]
  step-Clean config (force_call at answer) s h a =
      let (kept, good) = fetch-Clean config answer at s h a in (kept, (good, tt))
  step-Clean config invalidate_call s h a = (refl, tt)
  step-Clean config (invalidate_current_call old) s h a =
      elim (Bool-cases (is_current old s.cached)) [
        | inl e ↦ rw (e, invalidate_if_current) (refl, tt)
        | inr e ↦ rw (e, invalidate_if_current) (h, tt)
      ]

  run-Clean :
      (config : TokenConfig) (calls : List TokenCall) (s : TokenState)
      → is_current rejected s.cached ≡ false
      → All (CallSpares rejected) calls
      → (is_current rejected (run config calls s).0.cached ≡ false)
        × All (λ r. is_other r ≡ true) (run config calls s).1
  unfolding run
  run-Clean config [] s h a = (h, tt)
  run-Clean config (call ∷ calls) s h a =
      let (kept, first) = step-Clean config call s h a.0 in
      let (kept', rest) = run-Clean config calls (step config call s).0 kept a.1 in
      (
        kept',
        All-append (λ r. is_other r ≡ true) (step config call s).1
            (run config calls (step config call s).0).1 first rest,
      )

  -- What a caller does with a token that the API rejected, which leads from the state `s` to `t`: it
  -- invalidates it, or it is handed another one by a refresh.
  pub data Discarded (config : TokenConfig) (s t : TokenState) : Type 0 where
    invalidated : t ≡ (invalidate_if_current rejected s).0 → Discarded config s t
    refreshed :
        (now at : ℕ) (answer : Answer) (token : Text)
        → Spares rejected answer
        → refresh_if_current config rejected now at answer s ≡ (t, ok token)
        → Discarded config s t

  invalidated_lem :
      (s : TokenState) → is_current rejected (invalidate_if_current rejected s).0.cached ≡ false
  unfolding invalidate_if_current
  invalidated_lem s = elim (Bool-cases (is_current rejected s.cached)) [
    | inl e ↦ rw (e, invalidate_if_current) refl
    | inr e ↦ rw (e, invalidate_if_current) e
  ]

  replaced_lem :
      (now : ℕ) (cached : Option CachedToken) (token : Text)
      → replacement rejected now cached ≡ some token
      → is_current rejected cached ≡ false
  unfolding replacement
  replaced_lem now none token h = refl
  replaced_lem now (some c) token h = ground arith

  issued_lem :
      (config : TokenConfig) (answer : Answer) (at : ℕ) (s t : TokenState) (token : Text)
      → Spares rejected answer
      → Fetched config answer at s (t, ok token)
      → is_current rejected t.cached ≡ false
  issued_lem config answer at s t token a (expires_in, given, filled, bound, same) =
      let other : same_text token rejected ≡ false = rw given at a in rw same other

  refreshed_lem :
      (config : TokenConfig) (s t : TokenState) (now at : ℕ) (answer : Answer) (token : Text)
      → Spares rejected answer
      → refresh_if_current config rejected now at answer s ≡ (t, ok token)
      → is_current rejected t.cached ≡ false
  unfolding refresh_if_current
  refreshed_lem config s t now at answer token a h =
      elim (Option-cases (replacement rejected now s.cached)) [
        | inr (other, e) ↦
            let h' = rw (e, refresh_if_current) at h in
            let same : s ≡ t = ap (λ x. x.0) h' in rw (← same) (replaced_lem now s.cached other e)
        | inl e ↦
            let h' = rw (e, refresh_if_current) at h in
            issued_lem config answer at s t token a
              (subst (Fetched config answer at s) h' (fetch-Fetched config answer at s))
      ]

-- Once a rejected token has been invalidated by `invalidate_if_current`, or `refresh_if_current` has
-- returned a token for it: through any history of steps of calls, whoever makes them, in which the
-- endpoint does not issue the rejected token again, no call returns it and it is not in the cache
-- at the end.
pub run-rejected :
    (config : TokenConfig) (rejected : Text) (s t : TokenState) (calls : List TokenCall)
    → Discarded rejected config s t
    → All (CallSpares rejected) calls
    → (is_current rejected (run config calls t).0.cached ≡ false)
      × All (λ r. is_other rejected r ≡ true) (run config calls t).1
run-rejected config rejected s t calls (invalidated e) a =
    run-Clean rejected config calls t (rw e (invalidated_lem rejected s)) a
run-rejected config rejected s t calls (refreshed now at answer token spares e) a =
    run-Clean rejected config calls t
      (refreshed_lem rejected config s t now at answer token spares e) a
