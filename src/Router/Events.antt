-- ===== src/Router/Events.antt =====
-- crates/bot-core/src/router.rs: `EventRouter`. Filters, middleware and handlers are trait objects
-- that the program is given: each is a function of the state `W` that they share, and its run
-- returns or panics. The calls of hooks are recorded in the order in which they happen.
pub mod Brackets
pub mod Order
use bro_know_my_qqbot.Prelude.{
  ℕ, ◌≤◌, ◌≡◌, String, Bool, true, false, Option, none, some, List, [], ◌∷◌, ◌++◌, leb,
  if◌then◌else◌, Result, ok, err, length,
}
use bro_know_my_qqbot.Prelude.Int.{ℤ, leb_ℤ}
use bro_know_my_qqbot.Prelude.Sort.{sort_by}
use bro_know_my_qqbot.Router.Commands.{
  RouterError, too_many_routes, too_many_route_filters, too_many_route_middleware,
}

abbrev pub max_event_routes : ℕ
max_event_routes = 256

abbrev pub max_route_filters : ℕ
max_route_filters = 32

abbrev pub max_route_middleware : ℕ
max_route_middleware = 32

pub data HandlerError : Type 0 where
  failed : String → HandlerError

pub data MiddlewareControl : Type 0 where
  continue stop : MiddlewareControl

pub data RouteOutcome : Type 0 where
  success failure skipped : RouteOutcome

-- How the run of a hook ends.
pub data Ran (A : Type 0) : Type 0 where
  returned : A → Ran A
  panicked : Ran A

-- `name` tells the hooks apart in the record of calls.
pub record EventMiddleware (W : Type 0) : Type 0 where
  pub name : ℕ
  pub before : W → W × Ran (Result MiddlewareControl HandlerError)
  pub after : RouteOutcome → W → W × Ran (Result (Unit {0}) HandlerError)
  pub cleanup : W → W

pub record EventRoute (W : Type 0) : Type 0 where
  pub priority : ℤ
  pub stop_after_match : Bool
  pub handler : W → W × Ran (Result (Unit {0}) HandlerError)
  pub filters : List (W → W × Ran Bool)
  pub middleware : List (EventMiddleware W)

pub record EventRouter (W : Type 0) : Type 0 where
  pub name : String
  pub routes : List (EventRoute W)

pub data HookCall : Type 0 where
  before_of : ℕ → HookCall
  after_of : RouteOutcome → ℕ → HookCall
  failed_of : ℕ → HookCall
  handler_call : HookCall

abbrev pub earlier : {W : Type 0} → EventRoute W → EventRoute W → Bool
earlier a b = leb_ℤ a.priority b.priority

module _ {W : Type 0} where
  unfoldable pub new_route : (W → W × Ran (Result (Unit {0}) HandlerError)) → EventRoute W
  new_route handler = record {
    priority = ℤ.pos 0;
    stop_after_match = false;
    handler = handler;
    filters = [];
    middleware = [];
  }

  pub add_filter : EventRoute W → (W → W × Ran Bool) → Result (EventRoute W) RouterError
  add_filter r f =
      if leb max_route_filters (length r.filters)
      then err too_many_route_filters
      else ok (record r { filters = r.filters ++ (f ∷ []) })

  pub add_middleware : EventRoute W → EventMiddleware W → Result (EventRoute W) RouterError
  add_middleware r m =
      if leb max_route_middleware (length r.middleware)
      then err too_many_route_middleware
      else ok (record r { middleware = r.middleware ++ (m ∷ []) })

  -- `EventRouter::route`.
  unfoldable pub route : EventRouter W → EventRoute W → Result (EventRouter W) RouterError
  route router r =
      if leb max_event_routes (length router.routes)
      then err too_many_routes
      else ok (record router { routes = sort_by earlier (router.routes ++ (r ∷ [])) })

-- `catch_async_panic` and the join of its result with the hook's.
pub caught : {A : Type 0} → String → Ran (Result A HandlerError) → Result A HandlerError
caught message (returned r) = r
caught message panicked = err (failed message)

-- Of several errors the first is kept.
keep_first : Option HandlerError → Result (Unit {0}) HandlerError → Option HandlerError
keep_first (some e) r = some e
keep_first none (ok _) = none
keep_first none (err e) = some e

abbrev pub outcome_of : Result (Unit {0}) HandlerError → RouteOutcome
outcome_of (ok _) = success
outcome_of (err e) = failure

-- How far the middleware of a route was entered; the stack has the last entered on top.
pub data Entered (W : Type 0) : Type 0 where
  through : List (EventMiddleware W) → Entered W
  stopped : List (EventMiddleware W) → Entered W
  broken : List (EventMiddleware W) → HandlerError → Entered W

-- What follows a route.
pub data Flow : Type 0 where
  next_route : Flow
  no_more_routes : Flow
  fails : HandlerError → Flow

module _ {W : Type 0} where
  -- The loop of `run_after` over the stack of entered middleware.
  pub run_after :
      List (EventMiddleware W)
      → RouteOutcome
      → Option HandlerError
      → W
      → W × List HookCall × Option HandlerError
  unfolding keep_first caught
  run_after [] outcome first w = (w, [], first)
  run_after (m ∷ entered) outcome first w =
      let (w1, ran) = m.after outcome w in
      let result = caught "route middleware after hook panicked" ran in
      let (w2, calls, error) = run_after entered outcome (keep_first first result) w1 in
      (w2, after_of outcome m.name ∷ calls, error)

  -- What follows the `before` hook of `m`, by its answer; `further` enters the middleware behind it.
  pub on_before :
      EventMiddleware W
      → List (EventMiddleware W)
      → W
      → W × List HookCall × Entered W
      → Ran (Result MiddlewareControl HandlerError)
      → W × List HookCall × Entered W
  on_before m entered w further (returned (ok continue)) =
      (further.0, before_of m.name ∷ further.1, further.2)
  on_before m entered w further (returned (ok stop)) =
      (w, before_of m.name ∷ [], stopped (m ∷ entered))
  on_before m entered w further (returned (err e)) =
      (m.cleanup w, before_of m.name ∷ failed_of m.name ∷ [], broken entered e)
  on_before m entered w further panicked = (
    m.cleanup w,
    before_of m.name ∷ failed_of m.name ∷ [],
    broken entered (failed "route middleware before hook panicked"),
  )

  -- The loop over the middleware of a route.
  pub enter :
      List (EventMiddleware W) → List (EventMiddleware W) → W → W × List HookCall × Entered W
  unfolding on_before
  enter [] entered w = (w, [], through entered)
  enter (m ∷ rest) entered w =
      let (w1, ran) = m.before w in on_before m entered w1 (enter rest (m ∷ entered) w1) ran

  pub after_match : EventRoute W → Option HandlerError → Flow
  after_match r (some e) = fails e
  after_match r none = if r.stop_after_match then no_more_routes else next_route

  pub after_handler : EventRoute W → Result (Unit {0}) HandlerError → Option HandlerError → Flow
  unfolding after_match
  after_handler r (ok _) error = after_match r error
  after_handler r (err e) error = fails e

  -- The part of a route behind the `before` hooks.
  pub finish : EventRoute W → Entered W → W → W × List HookCall × Flow
  unfolding run_after caught after_match after_handler
  finish r (through entered) w =
      let (w1, ran) = r.handler w in
      let result = caught "route handler panicked" ran in
      let (w2, calls, error) = run_after entered (outcome_of result) none w1 in
      (w2, handler_call ∷ calls, after_handler r result error)
  finish r (stopped entered) w =
      let (w1, calls, error) = run_after entered skipped none w in (w1, calls, after_match r error)
  finish r (broken entered e) w =
      let (w1, calls, error) = run_after entered failure none w in (w1, calls, fails e)

  unfoldable pub run_route : EventRoute W → W → W × List HookCall × Flow
  unfolding enter finish
  run_route r w =
      let (w1, calls, entered) = enter r.middleware [] w in
      let (w2, calls', flow) = finish r entered w1 in (w2, calls ++ calls', flow)

  -- `filters.iter().all(…)`: the first filter that fails or panics decides.
  pub filters_match : List (W → W × Ran Bool) → W → W × Ran Bool
  filters_match [] w = (w, returned true)
  filters_match (f ∷ fs) w =
      let (w1, ran) = f w in
      let rest = filters_match fs w1 in
      elim ran [
        | returned true ↦ rest
        | returned false ↦ (w1, returned false)
        | panicked ↦ (w1, panicked)
      ]

  -- `EventRouter::handle` over the routes.
  pub handle_routes : List (EventRoute W) → W → W × List HookCall × Result (Unit {0}) HandlerError
  unfolding filters_match run_route
  handle_routes [] w = (w, [], ok tt)
  handle_routes (r ∷ rs) w =
      let (w1, matched) = filters_match r.filters w in
      let skip = handle_routes rs w1 in
      let (w2, calls, flow) = run_route r w1 in
      let rest = handle_routes rs w2 in
      elim matched [
        | panicked ↦ (w1, [], err (failed "route filter panicked"))
        | returned false ↦ skip
        | returned true ↦ elim flow [
          | next_route ↦ (rest.0, calls ++ rest.1, rest.2)
          | no_more_routes ↦ (w2, calls, ok tt)
          | fails e ↦ (w2, calls, err e)
        ]
      ]
