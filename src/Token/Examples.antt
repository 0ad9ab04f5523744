-- ===== src/Token/Examples.antt =====
-- Runs of the token manager, and its theorems at concrete inputs.
use bro_know_my_qqbot.Prelude.{
  ◌+◌, ◌≤◌, ◌≡◌, refl, none, false, true, count, some, List, [], ◌∷◌, arith, ok, err, All,
}
use bro_know_my_qqbot.Prelude.Text.{codes, text_discrete}
use bro_know_my_qqbot.Token.{
  TokenState, TokenConfig, unreachable, status, body, Times, initial_state, live_token,
  cached_token, fetch, or_cached, locked_access, access_token, force_refresh, replacement,
  refresh_if_current, is_current, invalidate, invalidate_if_current, http_status,
}
use bro_know_my_qqbot.Token.Access.{Accessed, access_token-Accessed}
use bro_know_my_qqbot.Token.Calls.{
  TokenCall, read_call, locked_call, refresh_call, force_call, invalidate_current_call, step, run,
}
use bro_know_my_qqbot.Token.Rejected.{invalidated, is_other, run-rejected}
use bro_know_my_qqbot.Token.Shared.{Sharing, call_fails, run-shared}

program : Unit {0}
unfolding live_token cached_token fetch or_cached locked_access access_token force_refresh
    replacement refresh_if_current invalidate invalidate_if_current step run text_discrete
program = tt

abbrev config : TokenConfig
config = record { refresh_before = 60; max_instant = 10000000000000 }

abbrev times : Times
times = record { first = 100; locked = 101; answered = 102; last = 103 }

access_token-Accessed_example :
    Accessed config times
      (body (some 5) (codes "t"))
      initial_state
      initial_state
      (access_token config times (body (some 5) (codes "t")) initial_state initial_state)
access_token-Accessed_example =
    access_token-Accessed config times (body (some 5) (codes "t")) initial_state initial_state

abbrev fetched : TokenState
fetched = record {
  cached = some (record { token = codes "t"; expires_at = 5000000102 });
  requests = 1;
}

fetches :
    access_token config times (body (some 5) (codes "t")) initial_state initial_state
    ≡ (fetched, ok (codes "t"))
unfolding program
fetches = refl

-- In the refresh window, a failed request leaves the token in use.
abbrev late : Times
late = record { first = 5000000100; locked = 5000000100; answered = 5000000101; last = 5000000101 }

stands_in : (access_token config late (status 500) fetched fetched).1 ≡ ok (codes "t")
unfolding program
stands_in = refl

abbrev too_late : Times
too_late = record {
  first = 5000000100;
  locked = 5000000100;
  answered = 5000000101;
  last = 5000000102;
}

expires : (access_token config too_late (status 500) fetched fetched).1 ≡ err (http_status 500)
unfolding program
expires = refl

-- The token `t` was rejected. Two callers refresh it and a third reads the cache: one request.
abbrev rejections : List TokenCall
rejections =
    refresh_call (codes "t") 200 201 (status 500)
    ∷ refresh_call (codes "t") 202 203 (body (some 7) (codes "new"))
    ∷ refresh_call (codes "t") 204 205 (body (some 7) (codes "unused"))
    ∷ invalidate_current_call (codes "t")
    ∷ read_call 206
    ∷ locked_call times unreachable
    ∷ []

rejections-Sharing : All (Sharing config (codes "t") 206) rejections
unfolding program
rejections-Sharing = (
  (refl, omega arith, tt),
  (
    (refl, omega arith, (refl, omega arith)),
    ((refl, omega arith, (refl, omega arith)), (refl, (tt, ((omega arith, tt), tt)))),
  ),
)

run-shared_example :
    (run config rejections fetched).0.requests
    ≤ fetched.requests + 1 + count (call_fails config) rejections
run-shared_example = run-shared config (codes "t") 206 rejections fetched rejections-Sharing

shared_run : (run config rejections fetched).0.requests ≡ 3
unfolding program
shared_run = refl

abbrev discarded : TokenState
discarded = record { cached = none; requests = 1 }

abbrev later_calls : List TokenCall
later_calls =
    force_call 300 (status 500)
    ∷ locked_call times (body (some 7) (codes "new"))
    ∷ read_call 301
    ∷ []

run-rejected_example :
    (is_current (codes "t") (run config later_calls discarded).0.cached ≡ false)
    × All (λ r. is_other (codes "t") r ≡ true) (run config later_calls discarded).1
unfolding program
run-rejected_example =
    run-rejected config (codes "t") fetched discarded later_calls (invalidated refl)
      (tt, (refl, (tt, tt)))

-- A failed refresh leaves the rejected token in the cache.
still_cached :
    refresh_if_current config (codes "t") 200 201 (status 500) fetched
    ≡ (record fetched { requests = 2 }, err (http_status 500))
unfolding program
still_cached = refl
