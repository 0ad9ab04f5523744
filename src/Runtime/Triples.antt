-- ===== src/Runtime/Triples.antt =====
-- Triples of a precondition, a task and a postcondition, with the rules for the tasks' building
-- blocks. Where a task is dropped, its state satisfies an invariant.
use bro_know_my_qqbot.Prelude.{ℕ, zero, suc, Bool, true, false, Option, none, some, ◌==◌}
use bro_know_my_qqbot.Runtime.{
  DedupFinalizationResult, succeeded, retryable_failure, permanent_failure, Environment,
  RuntimeState, Task, ◌>>=◌, pause, finalize_loop, try_acknowledge, acknowledge_loop, pure,
  try_again, finalize_next, acknowledge_next,
}

module _ {W E : Type 0} (Inv : RuntimeState W E → Type 0) where
  -- What holds at the end of a task: the invariant, or the postcondition for its result.
  abbrev pub Ends :
      {A : Type 0} → (A → RuntimeState W E → Type 0) → Option A → RuntimeState W E → Type 0
  Ends R none s = Inv s
  Ends R (some a) s = R a s

  abbrev pub Triple :
      {A : Type 0}
      → (RuntimeState W E → Type 0)
      → Task W E A
      → (A → RuntimeState W E → Type 0)
      → Type 0
  Triple P m R = (s : RuntimeState W E) → P s → Ends R (m s).1 (m s).0

  bind_at :
      {A B : Type 0} (R : A → RuntimeState W E → Type 0) (Q : B → RuntimeState W E → Type 0)
      (f : A → Task W E B) (r : Option A) (s : RuntimeState W E)
      → Ends R r s
      → ((a : A) → Triple (R a) (f a) Q)
      → let t : Task W E B = ◌>>=◌ (λ _. (s, r)) f in Ends Q (t s).1 (t s).0
  bind_at R Q f none s h k = h
  bind_at R Q f (some a) s h k = k a s h

  pub bind_rule :
      {A B : Type 0} (P : RuntimeState W E → Type 0) (R : A → RuntimeState W E → Type 0)
      (Q : B → RuntimeState W E → Type 0) (m : Task W E A) (f : A → Task W E B)
      → Triple P m R
      → ((a : A) → Triple (R a) (f a) Q)
      → Triple P (m >>= f) Q
  bind_rule P R Q m f h k s p = bind_at R Q f (m s).1 (m s).0 (h s p) k

  weaken_at :
      {A : Type 0} (R Q : A → RuntimeState W E → Type 0) (r : Option A) (s : RuntimeState W E)
      → Ends R r s
      → ((a : A) (s : RuntimeState W E) → R a s → Q a s)
      → Ends Q r s
  weaken_at R Q none s h k = h
  weaken_at R Q (some a) s h k = k a s h

  pub weaken_rule :
      {A : Type 0} (P : RuntimeState W E → Type 0) (R Q : A → RuntimeState W E → Type 0)
      (m : Task W E A)
      → Triple P m R
      → ((a : A) (s : RuntimeState W E) → R a s → Q a s)
      → Triple P m Q
  weaken_rule P R Q m h k s p = weaken_at R Q (m s).1 (m s).0 (h s p) k

  -- After an attempt or a loop of attempts to finalize: `B` if it succeeded, else still `A`.
  abbrev pub Judged :
      (RuntimeState W E → Type 0)
      → (RuntimeState W E → Type 0)
      → Option DedupFinalizationResult
      → RuntimeState W E
      → Type 0
  Judged A B (some succeeded) s = B s
  Judged A B (some retryable_failure) s = A s
  Judged A B (some permanent_failure) s = A s
  Judged A B none s = A s

  abbrev pub Finalized :
      (RuntimeState W E → Type 0)
      → (RuntimeState W E → Type 0)
      → DedupFinalizationResult
      → RuntimeState W E
      → Type 0
  Finalized A B r s = Judged A B (some r) s

  abbrev pub Either :
      (RuntimeState W E → Type 0) → (RuntimeState W E → Type 0) → Bool → RuntimeState W E → Type 0
  Either A B true s = B s
  Either A B false s = A s

  module _ (env : Environment W E) (A B : RuntimeState W E → Type 0)
      (resting : Triple A (pause env) (λ _. A)) where
    try_again_rule :
        {C : Type 0} (R : C → RuntimeState W E → Type 0) (failure : C) (last : Bool)
        (rest : Task W E C)
        → Triple A (pure failure) R
        → Triple A rest R
        → Triple A (try_again env failure last rest) R
    unfolding try_again
    try_again_rule R failure true rest h k = h
    try_again_rule R failure false rest h k = bind_rule A (λ _. A) R (pause env) _ resting (λ _. k)

    finalize_next_rule :
        (rest : Task W E DedupFinalizationResult) (j : Option DedupFinalizationResult)
        → Triple A rest (Finalized A B)
        → Triple (Judged A B j) (finalize_next env rest j) (Finalized A B)
    unfolding finalize_next
    finalize_next_rule rest (some succeeded) h = λ s p. p
    finalize_next_rule rest (some retryable_failure) h = λ s p. p
    finalize_next_rule rest (some permanent_failure) h = λ s p. p
    finalize_next_rule rest none h = h

    pub finalize_loop_rule :
        (n : ℕ) (attempt : Task W E (Option DedupFinalizationResult))
        → Triple A attempt (Judged A B)
        → Triple A (finalize_loop env n attempt) (Finalized A B)
    unfolding finalize_loop
    finalize_loop_rule zero attempt h = λ s p. p
    finalize_loop_rule (suc n) attempt h =
        bind_rule A (Judged A B) (Finalized A B) attempt _ h (λ j. finalize_next_rule _ j (
          try_again_rule (Finalized A B) retryable_failure (n == 0) _ (λ s p. p)
            (finalize_loop_rule n attempt h)))

    acknowledge_next_rule :
        (rest : Task W E Bool) (b : Bool)
        → Triple A rest (Either A B)
        → Triple (Either A B b) (acknowledge_next env rest b) (Either A B)
    unfolding acknowledge_next
    acknowledge_next_rule rest true h = λ s p. p
    acknowledge_next_rule rest false h = h

    pub acknowledge_loop_rule :
        (n adapter : ℕ) (event : E)
        → Triple A (try_acknowledge env adapter event) (Either A B)
        → Triple A (acknowledge_loop env n adapter event) (Either A B)
    unfolding acknowledge_loop
    acknowledge_loop_rule zero adapter event h = λ s p. p
    acknowledge_loop_rule (suc n) adapter event h =
        bind_rule A (Either A B) (Either A B) (try_acknowledge env adapter event) _ h (λ b.
          acknowledge_next_rule _ b (
            try_again_rule (Either A B) false (n == 0) _ (λ s p. p)
              (acknowledge_loop_rule n adapter event h)))
