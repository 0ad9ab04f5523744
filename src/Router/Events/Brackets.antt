-- ===== src/Router/Events/Brackets.antt =====
-- Every middleware that was entered is left again, the last one first.
use bro_know_my_qqbot.Prelude.{
  ◌≡◌, refl, sym, ap, ◌∙◌, Option, List, [], ◌∷◌, ◌++◌, map, append-nil, append_assoc, Result, ok,
  err,
}
use mathlib.Core.List.{reverse, reverse-cons}
use bro_know_my_qqbot.Router.Events.{
  EventMiddleware, EventRoute, HandlerError, MiddlewareControl, continue, stop, RouteOutcome,
  failure, skipped, Ran, returned, panicked, HookCall, before_of, after_of, failed_of, handler_call,
  Entered, through, stopped, broken, Flow, fails, run_after, on_before, failed, enter, finish,
  run_route, caught, outcome_of, after_handler,
}

module _ {W : Type 0} where
  abbrev befores : List (EventMiddleware W) → List HookCall
  befores = map (λ m. before_of m.name)

  abbrev afters : RouteOutcome → List (EventMiddleware W) → List HookCall
  afters o = map (λ m. after_of o m.name)

  -- `run_after` calls each hook of the stack once, from the top, whatever the hooks answer.
  run_after-calls :
      (entered : List (EventMiddleware W)) (o : RouteOutcome) (first : Option HandlerError) (w : W)
      → (run_after entered o first w).1 ≡ afters o entered
  unfolding run_after
  run_after-calls [] o first w = refl
  run_after-calls (m ∷ entered) o first w =
      ap (◌∷◌ (after_of o m.name)) (run_after-calls entered o _ _)

  -- The `before` hooks of these middleware all let the event pass, and take the state to another.
  pub data Passes : List (EventMiddleware W) → W → W → Type 0 where
    passed_none : (w : W) → Passes [] w w
    passed :
        (m : EventMiddleware W) (ms : List (EventMiddleware W)) (w w1 w2 : W)
        → m.before w ≡ (w1, returned (ok continue))
        → Passes ms w1 w2
        → Passes (m ∷ ms) w w2

  -- How far a route from the state `w` comes: the middleware that was entered and the rest, the calls
  -- between the `before` and the `after` hooks, the outcome that the latter are told, and what follows.
  pub data Middle (r : EventRoute W) (w : W)
      : List (EventMiddleware W)
        → List (EventMiddleware W)
        → List HookCall
        → RouteOutcome
        → Flow
        → Type 0 where
    handled :
        (ms : List (EventMiddleware W)) (w1 : W) (flow : Flow)
        → Passes ms w w1
        → ((e : HandlerError)
            → caught "route handler panicked" (r.handler w1).1 ≡ err e
            → flow ≡ fails e)
        → Middle r w ms []
            (handler_call ∷ [])
            (outcome_of (caught "route handler panicked" (r.handler w1).1))
            flow
    halted :
        (ms : List (EventMiddleware W)) (m : EventMiddleware W) (rest : List (EventMiddleware W))
        (w1 w2 : W) (flow : Flow)
        → Passes ms w w1
        → m.before w1 ≡ (w2, returned (ok stop))
        → Middle r w (ms ++ (m ∷ [])) rest [] skipped flow
    refused :
        (ms : List (EventMiddleware W)) (m : EventMiddleware W) (rest : List (EventMiddleware W))
        (w1 : W) (e : HandlerError)
        → Passes ms w w1
        → caught "route middleware before hook panicked" (m.before w1).1 ≡ err e
        → Middle r w ms (m ∷ rest) (before_of m.name ∷ failed_of m.name ∷ []) failure (fails e)

  -- The calls of a route are bracketed.
  pub record Bracketed (r : EventRoute W) (w : W) (calls : List HookCall) (flow : Flow)
      : Type 0 where
    pub entered : List (EventMiddleware W)
    pub rest : List (EventMiddleware W)
    pub split : r.middleware ≡ entered ++ rest
    pub middle : List HookCall
    pub outcome : RouteOutcome
    pub shape : Middle r w entered rest middle outcome flow
    pub calls_lem : calls ≡ befores entered ++ (middle ++ afters outcome (reverse entered))

  -- How far `enter` comes, over a stack of middleware entered before.
  data EnterShape (ms stack : List (EventMiddleware W)) (w w' : W) (calls : List HookCall)
      (x : Entered W) : Type 0 where
    was_through :
        Passes ms w w'
        → x ≡ through (reverse ms ++ stack)
        → calls ≡ befores ms
        → EnterShape ms stack w w' calls x
    was_stopped :
        (entered : List (EventMiddleware W)) (m : EventMiddleware W)
        (rest : List (EventMiddleware W)) (w1 w2 : W)
        → Passes entered w w1
        → m.before w1 ≡ (w2, returned (ok stop))
        → ms ≡ (entered ++ (m ∷ [])) ++ rest
        → x ≡ stopped (reverse (entered ++ (m ∷ [])) ++ stack)
        → calls ≡ befores (entered ++ (m ∷ []))
        → EnterShape ms stack w w' calls x
    was_broken :
        (entered : List (EventMiddleware W)) (m : EventMiddleware W)
        (rest : List (EventMiddleware W)) (w1 : W) (e : HandlerError)
        → Passes entered w w1
        → caught "route middleware before hook panicked" (m.before w1).1 ≡ err e
        → ms ≡ entered ++ (m ∷ rest)
        → x ≡ broken (reverse entered ++ stack) e
        → calls ≡ befores entered ++ (before_of m.name ∷ failed_of m.name ∷ [])
        → EnterShape ms stack w w' calls x

  reverse-onto :
      (m : EventMiddleware W) (ms stack : List (EventMiddleware W))
      → reverse ms ++ (m ∷ stack) ≡ reverse (m ∷ ms) ++ stack
  reverse-onto m ms stack = rw (reverse-cons m ms, append_assoc)

  EnterShape-cons :
      (m : EventMiddleware W) (ms stack : List (EventMiddleware W)) (w w1 w' : W)
      (calls : List HookCall) (x : Entered W)
      → m.before w ≡ (w1, returned (ok continue))
      → EnterShape ms (m ∷ stack) w1 w' calls x
      → EnterShape (m ∷ ms) stack w w' (before_of m.name ∷ calls) x
  EnterShape-cons m ms stack w w1 w' calls x b (was_through p e c) =
      was_through (passed m ms w w1 w' b p) (e ∙ ap through (reverse-onto m ms stack))
        (ap (◌∷◌ (before_of m.name)) c)
  EnterShape-cons m ms stack w w1 w' calls x b (was_stopped entered n rest v1 v2 p h s e c) =
      was_stopped (m ∷ entered) n rest v1 v2 (passed m entered w w1 v1 b p) h (ap (◌∷◌ m) s)
        (e ∙ ap stopped (reverse-onto m (entered ++ (n ∷ [])) stack))
        (ap (◌∷◌ (before_of m.name)) c)
  EnterShape-cons m ms stack w w1 w' calls x b (was_broken entered n rest v1 err' p h s e c) =
      was_broken (m ∷ entered) n rest v1 err' (passed m entered w w1 v1 b p) h (ap (◌∷◌ m) s)
        (e ∙ ap (λ t. broken t err') (reverse-onto m entered stack)) (ap (◌∷◌ (before_of m.name)) c)

  on_before-EnterShape :
      (m : EventMiddleware W) (ms stack : List (EventMiddleware W)) (w w1 : W)
      (further : W × List HookCall × Entered W) (ran : Ran (Result MiddlewareControl HandlerError))
      → m.before w ≡ (w1, ran)
      → EnterShape ms (m ∷ stack) w1 further.0 further.1 further.2
      → let r = on_before m stack w1 further ran in EnterShape (m ∷ ms) stack w r.0 r.1 r.2
  unfolding on_before caught
  on_before-EnterShape m ms stack w w1 further (returned (ok continue)) b h =
      EnterShape-cons m ms stack w w1 further.0 further.1 further.2 b h
  on_before-EnterShape m ms stack w w1 further (returned (ok stop)) b h =
      was_stopped [] m ms w w1 (passed_none w) b refl refl refl
  on_before-EnterShape m ms stack w w1 further (returned (err e)) b h =
      was_broken [] m ms w e (passed_none w) (rw b) refl refl refl
  on_before-EnterShape m ms stack w w1 further panicked b h =
      was_broken [] m ms w (failed "route middleware before hook panicked") (passed_none w) (rw b)
        refl refl refl

  enter-EnterShape :
      (ms stack : List (EventMiddleware W)) (w : W)
      → let r = enter ms stack w in EnterShape ms stack w r.0 r.1 r.2
  unfolding enter
  enter-EnterShape [] stack w = was_through (passed_none w) refl refl
  enter-EnterShape (m ∷ ms) stack w =
      on_before-EnterShape m ms stack w (m.before w).0 (enter ms (m ∷ stack) (m.before w).0)
        (m.before w).1 refl (enter-EnterShape ms (m ∷ stack) (m.before w).0)

  after_handler-fails :
      (r : EventRoute W) (result : Result (Unit {0}) HandlerError) (error : Option HandlerError)
      (e : HandlerError)
      → result ≡ err e
      → after_handler r result error ≡ fails e
  unfolding after_handler
  after_handler-fails r result error e h = rw h

  finish-Bracketed :
      (r : EventRoute W) (w w' : W) (calls : List HookCall) (x : Entered W)
      → EnterShape r.middleware [] w w' calls x
      → let f = finish r x w' in Bracketed r w (calls ++ f.1) f.2
  unfolding finish
  finish-Bracketed r w w' calls x (was_through p e c) = rw e (record {
    entered = r.middleware;
    rest = [];
    split = sym (append-nil r.middleware);
    middle = handler_call ∷ [];
    outcome = outcome_of (caught "route handler panicked" (r.handler w').1);
    shape = handled r.middleware w' _ p (λ err' h. after_handler-fails r _ _ err' h);
    calls_lem = simp (c, append-nil, run_after-calls);
  })
  finish-Bracketed r w w' calls x (was_stopped entered m rest w1 w2 p h s e c) = rw e (record {
    entered = entered ++ (m ∷ []);
    rest = rest;
    split = s;
    middle = [];
    outcome = skipped;
    shape = halted entered m rest w1 w2 _ p h;
    calls_lem = simp (c, append-nil, run_after-calls);
  })
  finish-Bracketed r w w' calls x (was_broken entered m rest w1 err' p h s e c) = rw e (record {
    entered = entered;
    rest = m ∷ rest;
    split = s;
    middle = before_of m.name ∷ failed_of m.name ∷ [];
    outcome = failure;
    shape = refused entered m rest w1 err' p h;
    calls_lem = simp (c, append-nil, append_assoc, run_after-calls);
  })

  -- Whether the hooks of a route answer, fail or panic, the middleware whose `before` lets the event
  -- pass or stops it is left again, each exactly once, the last one first, with one outcome: that of
  -- the handler, which runs if all let the event pass; skipped, after a stop; or failure, after a
  -- `before` that failed, whose `failed` hook runs and whose error is the route's.
  pub run_route-Bracketed :
      (r : EventRoute W) (w : W) → Bracketed r w (run_route r w).1 (run_route r w).2
  unfolding run_route
  run_route-Bracketed r w =
      let x = enter r.middleware [] w in
      finish-Bracketed r w x.0 x.1 x.2 (enter-EnterShape r.middleware [] w)
