-- ===== src/Token.antt =====
-- Models crates/qqbot-protocol/src/auth.rs: the cache of the access token. Instants and durations
-- count nanoseconds. All that write the cache hold the mutex `refresh`, so their effects come one
-- after the other; the clock and the answer of the endpoint are arguments, and so is the largest
-- instant of the platform. Tokens are texts; that they are redacted in logs is not modelled.
pub mod Access
pub mod Calls
pub mod Rejected
pub mod Shared
mod Examples
use bro_know_my_qqbot.Prelude.{
  ℕ, suc, ◌+◌, ◌-◌, ◌*◌, ◌^◌, Bool, true, false, not, ◌&&◌, Option, none, some, List, [], ◌∷◌, ltb,
  if◌then◌else◌, Result, ok, err,
}
use bro_know_my_qqbot.Prelude.Text.{Text, text_discrete, same_text, is_empty}

abbrev pub default_refresh_before : ℕ
default_refresh_before = 60 * 10 ^ 9

-- Each message of `InvalidResponse` is a constructor.
pub data AuthError : Type 0 where
  request_failed : AuthError
  http_status : ℕ → AuthError
  bad_expires_in : AuthError
  empty_token : AuthError
  expires_in_too_large : AuthError

pub record CachedToken : Type 0 where
  pub token : Text
  pub expires_at : ℕ

-- The cache, and how many requests were sent to the endpoint.
pub record TokenState : Type 0 where
  pub cached : Option CachedToken
  pub requests : ℕ

abbrev pub initial_state : TokenState
initial_state = record { cached = none; requests = 0 }

pub record TokenConfig : Type 0 where
  pub refresh_before : ℕ
  pub max_instant : ℕ

-- The answer of the endpoint. A lifetime that is no positive integer is `none`; a body that is no
-- JSON of the expected form is a failed request.
pub data Answer : Type 0 where
  unreachable : Answer
  status : ℕ → Answer
  body : Option ℕ → Text → Answer

-- `cached.expires_at.saturating_duration_since(now) > required`.
unfoldable pub live_token : ℕ → ℕ → Option CachedToken → Option Text
live_token required now none = none
live_token required now (some c) = if ltb required (c.expires_at - now) then some c.token else none

unfoldable pub cached_token : TokenConfig → Bool → ℕ → TokenState → Option Text
unfolding live_token
cached_token config apply_refresh_window now s =
    live_token (if apply_refresh_window then config.refresh_before else 0) now s.cached

-- `fetch`, whose answer is read at the time `at`.
unfoldable pub fetch : TokenConfig → Answer → ℕ → TokenState → TokenState × Result Text AuthError
fetch config unreachable at s = (record s { requests = suc s.requests }, err request_failed)
fetch config (status code) at s = (record s { requests = suc s.requests }, err (http_status code))
fetch config (body none token) at s = (record s { requests = suc s.requests }, err bad_expires_in)
fetch config (body (some expires_in) token) at s =
    if is_empty token
    then (record s { requests = suc s.requests }, err empty_token)
    else if ltb config.max_instant (at + expires_in * 10 ^ 9)
    then (record s { requests = suc s.requests }, err expires_in_too_large)
    else (
      record {
        cached = some (record { token = token; expires_at = at + expires_in * 10 ^ 9 });
        requests = suc s.requests;
      },
      ok token,
    )

-- The end of `access_token`: a token that is not yet expired stands in for a failed fetch.
unfoldable pub or_cached :
    TokenConfig → ℕ → TokenState × Result Text AuthError → TokenState × Result Text AuthError
unfolding cached_token
or_cached config now (s, ok token) = (s, ok token)
or_cached config now (s, err e) = elim (cached_token config false now s) [
  | none ↦ (s, err e)
  | some token ↦ (s, ok token)
]

-- The times of a call: its reads of the cache, and the answer that it waits for.
pub record Times : Type 0 where
  pub first : ℕ
  pub locked : ℕ
  pub answered : ℕ
  pub last : ℕ

-- `access_token` under the mutex.
unfoldable pub locked_access :
    TokenConfig → Times → Answer → TokenState → TokenState × Result Text AuthError
unfolding cached_token fetch or_cached
locked_access config times answer s = elim (cached_token config true times.locked s) [
  | some token ↦ (s, ok token)
  | none ↦ or_cached config times.last (fetch config answer times.answered s)
]

-- `access_token`: `s` is the state at its first read, and `s'` the state when it gets the mutex,
-- which other calls may have changed.
unfoldable pub access_token :
    TokenConfig → Times → Answer → TokenState → TokenState → TokenState × Result Text AuthError
unfolding cached_token locked_access
access_token config times answer s s' = elim (cached_token config true times.first s) [
  | some token ↦ (s', ok token)
  | none ↦ locked_access config times answer s'
]

unfoldable pub force_refresh :
    TokenConfig → ℕ → Answer → TokenState → TokenState × Result Text AuthError
unfolding fetch
force_refresh config at answer s = fetch config answer at s

-- The token in the cache that replaces a rejected one.
unfoldable pub replacement : Text → ℕ → Option CachedToken → Option Text
unfolding text_discrete
replacement rejected now none = none
replacement rejected now (some c) =
    if not (same_text c.token rejected) && ltb now c.expires_at then some c.token else none

unfoldable pub refresh_if_current :
    TokenConfig → Text → ℕ → ℕ → Answer → TokenState → TokenState × Result Text AuthError
unfolding replacement fetch
refresh_if_current config rejected now at answer s = elim (replacement rejected now s.cached) [
  | some token ↦ (s, ok token)
  | none ↦ fetch config answer at s
]

unfoldable pub invalidate : TokenState → TokenState
invalidate s = record s { cached = none }

abbrev pub is_current : Text → Option CachedToken → Bool
is_current rejected none = false
is_current rejected (some c) = same_text c.token rejected

unfoldable pub invalidate_if_current : Text → TokenState → TokenState × Bool
unfolding text_discrete
invalidate_if_current rejected s =
    if is_current rejected s.cached then (record s { cached = none }, true) else (s, false)
