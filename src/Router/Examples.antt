-- ===== src/Router/Examples.antt =====
-- Runs of the routers, and their theorems at concrete inputs.
use bro_know_my_qqbot.Prelude.{
  ℕ, ◌+◌, ◌≤◌, ◌≡◌, refl, some, List, [], ◌∷◌, ◌++◌, ok, arith, length, ℕ_discrete, saturating_add,
}
use bro_know_my_qqbot.Prelude.Int.{ℤ, pos, negsuc}
use bro_know_my_qqbot.Prelude.Map.{get, insert}
use bro_know_my_qqbot.Prelude.Sort.{sort_by, IsSorted}
use bro_know_my_qqbot.Prelude.Text.{
  Text, text_discrete, codes, is_whitespace, is_control, lower, byte_len, trim_start, trim_end,
  strip_prefix, split_once_whitespace,
}
use bro_know_my_qqbot.Router.Commands.{
  CommandRouter, CommandInvocation, RegisteredCommand, default_router, command, set_prefixes, parse,
  handle, normalize_command, is_command_char, find_text, collect_from, collect_command_triggers,
  collect_aliases, check_keys, split_command, after_prefix, lookup_command, after_mention,
  skip_mention,
}
use bro_know_my_qqbot.Router.Commands.Normal.{IsCommandName, normalize_command_lem}
use bro_know_my_qqbot.Router.Commands.Register.{Registers, command-Registers}
use bro_know_my_qqbot.Router.Commands.Longest.{parse-longest}
use bro_know_my_qqbot.Router.Commands.Dispatch.{defaults, commands, handle-parse}
use bro_know_my_qqbot.Router.Events.{
  EventMiddleware, EventRoute, EventRouter, returned, panicked, continue, stop, route, run_route,
  earlier, new_route, before_of, after_of, failed_of, handler_call, success, failure, skipped,
  MiddlewareControl, max_event_routes,
}
use bro_know_my_qqbot.Router.Events.Brackets.{Bracketed, run_route-Bracketed}
use bro_know_my_qqbot.Router.Events.Order.{Placed, route-Placed}

program : Unit {0}
unfolding get insert sort_by text_discrete is_whitespace is_control lower byte_len trim_start
    trim_end strip_prefix split_once_whitespace command set_prefixes parse handle normalize_command
    is_command_char find_text collect_from collect_command_triggers collect_aliases check_keys
    split_command after_prefix after_mention skip_mention lookup_command route run_route new_route
    ℕ_discrete saturating_add
program = tt

abbrev with_ping : CommandRouter ℕ
with_ping = record (default_router ℕ) {
  commands =
      (codes "ping", record { canonical_name = codes "ping"; handler = 7 })
      ∷ (codes "p", record { canonical_name = codes "ping"; handler = 7 })
      ∷ [];
}

registered : command (default_router ℕ) (codes " Ping ") (codes "P" ∷ []) 7 ≡ ok with_ping
unfolding program
registered = refl

command-Registers_example :
    Registers (default_router ℕ) with_ping (codes " Ping ") (codes "P" ∷ []) 7
command-Registers_example =
    command-Registers (default_router ℕ) with_ping (codes " Ping ") (codes "P" ∷ []) 7 registered

normalized : normalize_command (codes " Ping ") ≡ ok (codes "ping")
unfolding program
normalized = refl

normalize_command_lem_example :
    IsCommandName (codes "ping") × (normalize_command (codes "ping") ≡ ok (codes "ping"))
normalize_command_lem_example = normalize_command_lem (codes " Ping ") (codes "ping") normalized

-- The arguments of a command are trimmed, and its name is found in any case.
ping_line :
    handle with_ping (codes " /P  a b ")
    ≡ some (7, record { name = codes "ping"; arguments = codes "a b"; raw = codes " /P  a b " })
unfolding program
ping_line = refl

ping_invocation : CommandInvocation
ping_invocation = record { name = codes "ping"; arguments = codes "a b"; raw = codes " /P  a b " }

ping_parsed : parse with_ping (codes " /P  a b ") ≡ some ping_invocation
unfolding program ping_invocation
ping_parsed = refl

handle-parse_example :
    (r : RegisteredCommand ℕ) × (r.canonical_name ≡ ping_invocation.name)
    × (get text_discrete ping_invocation.name with_ping.commands ≡ some r)
    × (handle with_ping (codes " /P  a b ") ≡ some (r.handler, ping_invocation))
handle-parse_example =
    handle-parse with_ping (codes " /P  a b ") ping_invocation
      (commands (codes " Ping ") (codes "P" ∷ []) 7 defaults registered) ping_parsed

abbrev two_prefixes : List Text
two_prefixes = codes "/" ∷ codes "/bot" ∷ []

abbrev with_prefixes : CommandRouter ℕ
with_prefixes = record (default_router ℕ) { prefixes = codes "/bot" ∷ codes "/" ∷ [] }

prefixes_set : set_prefixes (default_router ℕ) two_prefixes ≡ ok with_prefixes
unfolding program
prefixes_set = refl

parse-longest_example :
    parse with_prefixes (codes " /bot x")
    ≡ lookup_command with_prefixes (codes " /bot x") (split_command (trim_start (codes " x")))
unfolding program
parse-longest_example =
    parse-longest (default_router ℕ) with_prefixes two_prefixes (codes " /bot x") (codes "/bot")
      (codes " x") prefixes_set (omega arith) refl refl refl

-- With both prefixes, the command is `x` and not `bot`.
longest_taken :
    parse (record with_ping { prefixes = codes "/bot" ∷ codes "/" ∷ [] }) (codes "/bot ping")
    ≡ some (record { name = codes "ping"; arguments = []; raw = codes "/bot ping" })
unfolding program
longest_taken = refl

-- Hooks that count their runs.
abbrev counting : ℕ → MiddlewareControl → EventMiddleware ℕ
counting n answer = record {
  name = n;
  before = λ w. (w + 1, returned (ok answer));
  after = λ o w. (w + 1, panicked);
  cleanup = λ w. w;
}

abbrev broken_hook : EventMiddleware ℕ
broken_hook = record (counting 3 continue) { before = λ w. (w + 1, panicked) }

abbrev counted_route : List (EventMiddleware ℕ) → ℤ → EventRoute ℕ
counted_route ms priority = record (new_route (λ w. (w + 100, returned (ok tt)))) {
  middleware = ms;
  priority = priority;
}

-- An `after` hook that panics does not keep the other ones from their calls.
whole_run :
    (run_route (counted_route (counting 1 continue ∷ counting 2 continue ∷ []) (pos 0)) 0).1
    ≡ before_of 1 ∷ before_of 2 ∷ handler_call ∷ after_of success 2 ∷ after_of success 1 ∷ []
unfolding program
whole_run = refl

stopped_run :
    (run_route (counted_route (counting 1 stop ∷ counting 2 continue ∷ []) (pos 0)) 0).1
    ≡ before_of 1 ∷ after_of skipped 1 ∷ []
unfolding program
stopped_run = refl

broken_run :
    (run_route (counted_route (counting 1 continue ∷ broken_hook ∷ []) (pos 0)) 0).1
    ≡ before_of 1 ∷ before_of 3 ∷ failed_of 3 ∷ after_of failure 1 ∷ []
unfolding program
broken_run = refl

abbrev broken_route : EventRoute ℕ
broken_route = counted_route (counting 1 continue ∷ broken_hook ∷ []) (pos 0)

run_route-Bracketed_example :
    Bracketed broken_route 0 (run_route broken_route 0).1 (run_route broken_route 0).2
run_route-Bracketed_example = run_route-Bracketed broken_route 0

abbrev two_routes : EventRouter ℕ
two_routes = record {
  name = "events";
  routes = counted_route [] (negsuc 0) ∷ counted_route [] (pos 4) ∷ [];
}

abbrev three_routes : EventRouter ℕ
three_routes = record {
  name = "events";
  routes =
      counted_route [] (negsuc 0)
      ∷ counted_route (broken_hook ∷ []) (negsuc 0)
      ∷ counted_route [] (pos 4)
      ∷ [];
}

routes-IsSorted : IsSorted earlier two_routes.routes
routes-IsSorted = ((refl, tt), (tt, tt))

route_added : route two_routes (counted_route (broken_hook ∷ []) (negsuc 0)) ≡ ok three_routes
unfolding program
route_added = refl

route-Placed_example :
    (before : List (EventRoute ℕ)) × (after : List (EventRoute ℕ)) × (two_routes.routes
      ≡ before ++ after)
    × Placed (counted_route (broken_hook ∷ []) (negsuc 0)) before after three_routes.routes
    × IsSorted earlier three_routes.routes
    × (length three_routes.routes ≤ max_event_routes)
route-Placed_example =
    route-Placed two_routes three_routes (counted_route (broken_hook ∷ []) (negsuc 0))
      routes-IsSorted route_added
