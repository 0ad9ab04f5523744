-- ===== src/Token/Calls.antt =====
-- Histories of the token manager of crates/qqbot-protocol/src/auth.rs. `access_token` takes two
-- steps, its first read of the cache and what it does under the mutex, so that the steps of other
-- calls can stand between them; each other call is one step, since it holds the mutex throughout.
use bro_know_my_qqbot.Prelude.{ℕ, true, Option, none, some, List, [], ◌∷◌, ◌++◌, Result, ok}
use bro_know_my_qqbot.Prelude.Text.{Text}
use bro_know_my_qqbot.Token.{
  TokenState, TokenConfig, Answer, Times, AuthError, cached_token, force_refresh, locked_access,
  refresh_if_current, invalidate_if_current, invalidate,
}

-- The steps of the calls, each with the times at which it reads and what it is answered.
pub data TokenCall : Type 0 where
  read_call : ℕ → TokenCall
  locked_call : Times → Answer → TokenCall
  refresh_call : Text → ℕ → ℕ → Answer → TokenCall
  force_call : ℕ → Answer → TokenCall
  invalidate_call : TokenCall
  invalidate_current_call : Text → TokenCall

-- What a first read returns: the call goes on to the mutex if it finds no token.
abbrev read_result : Option Text → List (Result Text AuthError)
read_result none = []
read_result (some token) = ok token ∷ []

-- The state after a step, and the result that the caller gets, if it gets one.
unfoldable pub step :
    TokenConfig → TokenCall → TokenState → TokenState × List (Result Text AuthError)
unfolding cached_token locked_access refresh_if_current force_refresh invalidate
    invalidate_if_current
step config (read_call now) s = (s, read_result (cached_token config true now s))
step config (locked_call times answer) s =
    let (s', r) = locked_access config times answer s in (s', r ∷ [])
step config (refresh_call rejected now at answer) s =
    let (s', r) = refresh_if_current config rejected now at answer s in (s', r ∷ [])
step config (force_call at answer) s =
    let (s', r) = force_refresh config at answer s in (s', r ∷ [])
step config invalidate_call s = (invalidate s, [])
step config (invalidate_current_call rejected) s = ((invalidate_if_current rejected s).0, [])

unfoldable pub run :
    TokenConfig → List TokenCall → TokenState → TokenState × List (Result Text AuthError)
unfolding step
run config [] s = (s, [])
run config (call ∷ calls) s =
    let (s', r) = step config call s in let (s'', rs) = run config calls s' in (s'', r ++ rs)
