-- ===== src/Metrics/Tally.antt =====
-- The invariant of the metrics: tallies add up, maxima stay below totals, and series are bounded.
use bro_know_my_qqbot.Prelude.{
  ℕ, ◌+◌, ◌≤◌, ◌≡◌, subst, inl, inr, some, List, [], ◌∷◌, arith, ltb, length, saturating_add,
  usize_max, Option-cases, Bool-cases,
}
use bro_know_my_qqbot.Prelude.Text.{Text, text_discrete}
use bro_know_my_qqbot.Prelude.Map
use bro_know_my_qqbot.Prelude.Map.{get-insert, length-insert_absent, length-insert_present}
use bro_know_my_qqbot.Metrics.{
  AdapterMetrics, HandlerMetrics, ObserverInner, HandlerOutcome, success, failure, timeout,
  no_adapter_metrics, register, configure, update_adapter_metrics, larger, in_u64, count_outcome,
  metrics_or_default, enqueued, record_handler, max_adapter_metric_series,
}

-- Every invocation is counted under one outcome, until a counter is full.
abbrev pub IsTallied : HandlerMetrics → Type 0
IsTallied m = m.invocations ≡ in_u64 (m.successes + m.failures + m.timeouts)

-- The longest wait is part of the sum of the waits, which is a machine number.
abbrev pub HasMaximum : AdapterMetrics → Type 0
HasMaximum m =
    (m.enqueue_wait_micros_max ≤ m.enqueue_wait_micros) × (m.enqueue_wait_micros ≤ usize_max)

-- A predicate on every value of a map.
abbrev pub Each : {V : Type 0} → (V → Type 0) → List (Text × V) → Type 0
Each {V} P m = (k : Text) (v : V) → Map.get text_discrete k m ≡ some v → P v

insert-Each :
    {V : Type 0} (P : V → Type 0) (k : Text) (v : V) (m : List (Text × V))
    → Each P m
    → P v
    → Each P (Map.insert text_discrete k v m)
insert-Each P k v m h p j w e = elim (text_discrete k j) [
  | yes same ↦ subst P (ground (arith, get-insert text_discrete k j v m)) p
  | no other ↦ h j w (ground (arith, get-insert text_discrete k j v m))
]

update-Each :
    (P : AdapterMetrics → Type 0) (adapter : Text) (f : AdapterMetrics → AdapterMetrics)
    (m : List (Text × AdapterMetrics))
    → ((x : AdapterMetrics) → P x → P (f x))
    → P no_adapter_metrics
    → Each P m
    → Each P (update_adapter_metrics adapter f m)
unfolding update_adapter_metrics
update-Each P adapter f m g d h = elim (Option-cases (Map.get text_discrete adapter m)) [
  | inr (x, e) ↦
      rw (e, update_adapter_metrics) (insert-Each P adapter (f x) m h (g x (h adapter x e)))
  | inl e ↦ elim (Bool-cases (ltb (length m) max_adapter_metric_series)) [
    | inl l ↦
        rw (e, l, update_adapter_metrics)
          (insert-Each P adapter (f no_adapter_metrics) m h (g no_adapter_metrics d))
    | inr l ↦ rw (e, l, update_adapter_metrics) h
  ]
]

outcome-IsTallied :
    (o : HandlerOutcome) (m : HandlerMetrics) (duration : ℕ)
    → IsTallied m
    → IsTallied (
        count_outcome o (record m {
          invocations = saturating_add m.invocations 1;
          duration_micros = saturating_add m.duration_micros duration;
        }))
unfolding count_outcome saturating_add
outcome-IsTallied success m duration h = ground arith
outcome-IsTallied failure m duration h = ground arith
outcome-IsTallied timeout m duration h = ground arith

pub maximum_kept :
    (total longest wait : ℕ)
    → wait ≤ usize_max
    → longest ≤ total
    → total ≤ usize_max
    → (larger longest wait ≤ saturating_add total wait) × (saturating_add total wait ≤ usize_max)
unfolding saturating_add
maximum_kept total longest wait w h b = (ground arith, ground arith)

pub wait_small : (n : ℕ) → in_u64 n ≤ usize_max
wait_small n = ground arith

pub enqueued-HasMaximum :
    (wait : ℕ) (m : AdapterMetrics) → wait ≤ usize_max → HasMaximum m → HasMaximum (enqueued wait m)
enqueued-HasMaximum wait m w h =
    maximum_kept m.enqueue_wait_micros m.enqueue_wait_micros_max wait w h.0 h.1

pub record IsCoherent (s : ObserverInner) : Type 0 where
  pub longest : s.enqueue_wait_micros_max ≤ s.enqueue_wait_micros
  pub total : s.enqueue_wait_micros ≤ usize_max
  pub adapters : Each HasMaximum s.adapters
  pub handlers : Each IsTallied s.handlers

nothing-HasMaximum : HasMaximum no_adapter_metrics
nothing-HasMaximum = (omega arith, omega arith)

register-Each :
    (names : List Text) (m : List (Text × AdapterMetrics))
    → Each HasMaximum m
    → Each HasMaximum (register names m)
unfolding register
register-Each [] m h = h
register-Each (name ∷ names) m h = elim (Option-cases (Map.get text_discrete name m)) [
  | inr (x, e) ↦ rw (e, register) (register-Each names m h)
  | inl e ↦
      rw (e, register)
        (register-Each names (Map.insert text_discrete name no_adapter_metrics m)
          (insert-Each HasMaximum name no_adapter_metrics m h nothing-HasMaximum))
]

pub none-Each : {V : Type 0} (P : V → Type 0) → Each P []
unfolding Map.get
none-Each P k v e = cc

pub configure-IsCoherent :
    (capacity : ℕ) (names : List Text) (s : ObserverInner) → IsCoherent (configure capacity names s)
unfolding configure
configure-IsCoherent capacity names s = record {
  longest = omega arith;
  total = omega arith;
  adapters = register-Each names [] (none-Each HasMaximum);
  handlers = none-Each IsTallied;
}

-- A step that changes only the metrics of one adapter, and those not in the waits.
pub adapter-IsCoherent :
    (adapter : Text) (f : AdapterMetrics → AdapterMetrics) (s : ObserverInner)
    → IsCoherent s
    → ((x : AdapterMetrics) → HasMaximum x → HasMaximum (f x))
    → Each HasMaximum (update_adapter_metrics adapter f s.adapters)
adapter-IsCoherent adapter f s c g =
    update-Each HasMaximum adapter f s.adapters g nothing-HasMaximum c.adapters

pub handler-Each :
    (name : Text) (duration : ℕ) (o : HandlerOutcome) (s : ObserverInner)
    → IsCoherent s
    → Each IsTallied (record_handler name duration o s).handlers
unfolding record_handler
handler-Each name duration o s c =
    let found : IsTallied (metrics_or_default (Map.get text_discrete name s.handlers)) =
      elim (Option-cases (Map.get text_discrete name s.handlers)) [
        | inl e ↦ rw e (ground arith)
        | inr (m, e) ↦ rw e (c.handlers name m e)
      ] in
    insert-Each IsTallied name _ s.handlers c.handlers (
      outcome-IsTallied o (metrics_or_default (Map.get text_discrete name s.handlers))
        (in_u64 duration) found)

-- The four parts stay as they are.
pub same-IsCoherent :
    (s t : ObserverInner)
    → IsCoherent s
    → t.enqueue_wait_micros_max ≡ s.enqueue_wait_micros_max
    → t.enqueue_wait_micros ≡ s.enqueue_wait_micros
    → t.adapters ≡ s.adapters
    → t.handlers ≡ s.handlers
    → IsCoherent t
same-IsCoherent s t c m w a h = record {
  longest = omega (arith, c.longest, m, w);
  total = omega (arith, c.total, w);
  adapters = rw a c.adapters;
  handlers = rw h c.handlers;
}
