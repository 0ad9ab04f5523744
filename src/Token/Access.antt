-- ===== src/Token/Access.antt =====
-- What `access_token` returns, on every path.
use bro_know_my_qqbot.Prelude.{
  ℕ, suc, ◌+◌, ◌*◌, ◌^◌, ◌≤◌, ◌<◌, ◌≡◌, refl, ap, ◌⊎◌, inl, inr, false, none, some, arith, ltb,
  Option-cases, Bool-cases, Result, ok, err,
}
use bro_know_my_qqbot.Prelude.Text.{Text, is_empty}
use bro_know_my_qqbot.Token.{
  CachedToken, TokenState, TokenConfig, Answer, unreachable, status, body, Times, AuthError,
  live_token, cached_token, fetch, or_cached, locked_access, access_token,
}

-- The cache holds the token, and it expires after the time and the margin.
abbrev pub IsLive : ℕ → ℕ → Text → TokenState → Type 0
IsLive margin now token s =
    (c : CachedToken) × (s.cached ≡ some c) × (c.token ≡ token) × (now + margin < c.expires_at)

-- The endpoint issued the token, and the cache now holds it with its lifetime.
abbrev pub IsIssued : TokenConfig → Answer → ℕ → Text → TokenState → TokenState → Type 0
IsIssued config answer at token s t =
    (expires_in : ℕ) × (answer ≡ body (some expires_in) token)
    × (is_empty token ≡ false)
    × (at + expires_in * 10 ^ 9 ≤ config.max_instant)
    × (t ≡ record {
      cached = some (record { token = token; expires_at = at + expires_in * 10 ^ 9 });
      requests = suc s.requests;
    })

-- The request failed, and the cache is as it was.
abbrev pub IsFailed : TokenState → TokenState → Type 0
IsFailed s t = t ≡ record s { requests = suc s.requests }

abbrev pub Fetched :
    TokenConfig → Answer → ℕ → TokenState → TokenState × Result Text AuthError → Type 0
Fetched config answer at s (t, ok token) = IsIssued config answer at token s t
Fetched config answer at s (t, err e) = IsFailed s t

-- The outcome of a call whose first read is of `s` and that gets the mutex at `s'`.
abbrev pub Accessed :
    TokenConfig
    → Times
    → Answer
    → TokenState
    → TokenState
    → TokenState × Result Text AuthError
    → Type 0
Accessed config times answer s s' (t, ok token) =
    ((t ≡ s') × IsLive config.refresh_before times.first token s)
    ⊎ ((t ≡ s') × IsLive config.refresh_before times.locked token s')
    ⊎ IsIssued config answer times.answered token s' t
    ⊎ (IsFailed s' t × IsLive 0 times.last token s')
Accessed config times answer s s' (t, err e) =
    IsFailed s' t
    × (fetch config answer times.answered s' ≡ (t, err e))
    × (live_token 0 times.last s'.cached ≡ none)

live_token-IsLive :
    (margin now : ℕ) (token : Text) (s : TokenState)
    → live_token margin now s.cached ≡ some token
    → IsLive margin now token s
unfolding live_token
live_token-IsLive margin now token s h = elim (Option-cases s.cached) [
  | inl e ↦ absurd (let f = rw (e, live_token) at h in cc)
  | inr (c, e) ↦ (c, e, cached_is c (rw e at h), bounded c (rw e at h))
]
  where
    cached_is : (c : CachedToken) → live_token margin now (some c) ≡ some token → c.token ≡ token
    cached_is c k = ground arith

    bounded :
        (c : CachedToken)
        → live_token margin now (some c) ≡ some token
        → now + margin < c.expires_at
    bounded c k = ground arith

pub fetch-Fetched :
    (config : TokenConfig) (answer : Answer) (at : ℕ) (s : TokenState)
    → Fetched config answer at s (fetch config answer at s)
unfolding fetch
fetch-Fetched config unreachable at s = refl
fetch-Fetched config (status code) at s = refl
fetch-Fetched config (body none token) at s = refl
fetch-Fetched config (body (some expires_in) token) at s = elim (Bool-cases (is_empty token)) [
  | inl e ↦ rw e refl
  | inr e ↦ elim (Bool-cases (ltb config.max_instant (at + expires_in * 10 ^ 9))) [
    | inl l ↦ rw (e, l) refl
    | inr l ↦ rw (e, l) (expires_in, refl, e, ground arith, refl)
  ]
]

module _ (config : TokenConfig) (times : Times) (answer : Answer) where
  or_cached-Accessed :
      (s s' : TokenState) (r : TokenState × Result Text AuthError)
      → fetch config answer times.answered s' ≡ r
      → Fetched config answer times.answered s' r
      → Accessed config times answer s s' (or_cached config times.last r)
  unfolding or_cached cached_token
  or_cached-Accessed s s' (t, ok token) h f = inr (inr (inl f))
  or_cached-Accessed s s' (t, err e) h f = elim (Option-cases (live_token 0 times.last t.cached)) [
    | inl n ↦
        let same : t.cached ≡ s'.cached = ap (λ x. x.cached) f in
        rw (n, or_cached, cached_token) (f, h, rw same at n)
    | inr (token, l) ↦
        let same : t.cached ≡ s'.cached = ap (λ x. x.cached) f in
        rw (l, or_cached, cached_token)
          (inr (inr (inr (f, live_token-IsLive 0 times.last token s' (rw same at l)))))
  ]

  locked-Accessed :
      (s s' : TokenState) → Accessed config times answer s s' (locked_access config times answer s')
  unfolding locked_access cached_token
  locked-Accessed s s' =
      elim (Option-cases (live_token config.refresh_before times.locked s'.cached)) [
        | inl n ↦
            rw (n, locked_access, cached_token)
              (or_cached-Accessed s s' (fetch config answer times.answered s') refl
                (fetch-Fetched config answer times.answered s'))
        | inr (token, l) ↦
            rw (l, locked_access, cached_token)
              (inr (inl (refl, live_token-IsLive config.refresh_before times.locked token s' l)))
      ]

-- Every path of `access_token`. A token that it returns is one that was in the cache with more than
-- the refresh window left, when it read the cache first or when it had the mutex, and then nothing
-- changes; or one that the endpoint just issued, which is then in the cache with the lifetime that
-- the endpoint gave; or, when the request failed, one in the cache that has not expired. An error
-- is that of the failed request, after which the cache is as it was and holds no token that has
-- not expired.
pub access_token-Accessed :
    (config : TokenConfig) (times : Times) (answer : Answer) (s s' : TokenState)
    → Accessed config times answer s s' (access_token config times answer s s')
unfolding access_token cached_token
access_token-Accessed config times answer s s' =
    elim (Option-cases (live_token config.refresh_before times.first s.cached)) [
      | inl n ↦ rw (n, access_token, cached_token) (locked-Accessed config times answer s s')
      | inr (token, l) ↦
          rw (l, access_token, cached_token)
            (inl (refl, live_token-IsLive config.refresh_before times.first token s l))
    ]
