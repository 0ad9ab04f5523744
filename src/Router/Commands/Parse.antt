-- ===== src/Router/Commands/Parse.antt =====
-- The triggers of a command router: which a router accepts, and in which order they are tried.
use bro_know_my_qqbot.Prelude.{
  ℕ, ◌≤◌, ◌≡◌, ap, sym, append-nil, ◌∙◌, Bool, true, false, some, List, [], ◌∷◌, ◌++◌, leb→le, ok,
  arith, length, count, Bool-cases, Result-cases, inl, inr, All, length-append, append_assoc,
}
use bro_know_my_qqbot.Prelude.Sort.{
  sort_by, IsSorted, IsOrder, sort_by-IsSorted, count-sort_by, length-sort_by,
}
use bro_know_my_qqbot.Prelude.Text.{Text, byte_len}
use bro_know_my_qqbot.Router.Commands.{
  CommandRouter, TriggerKind, prefix, mention, set_prefixes, set_mentions, longer_first, find_text,
  collect_from, collect_command_triggers, is_bad_trigger, max_command_prefixes,
  max_command_mentions,
}

longer_first-IsOrder : IsOrder longer_first
longer_first-IsOrder = record { total = λ x y h. ground arith; trans = λ x y z h k. ground arith }

pub find_text-longest :
    (p : Text → Bool) (ts : List Text) (t : Text)
    → IsSorted longer_first ts
    → find_text p ts ≡ some t
    → All (λ q. p q ≡ true → byte_len q ≤ byte_len t) ts
unfolding find_text
find_text-longest p [] t s h = tt
find_text-longest p (x ∷ xs) t s h = elim (Bool-cases (p x)) [
  | inl e ↦
      let same : x ≡ t = ground arith in
      ((λ _. omega (arith, ap byte_len same)), after-first p x t xs same s.0)
  | inr e ↦ ((λ k. cc (k, e)), find_text-longest p xs t s.1 (ground arith))
]
  where
    after-first :
        (p : Text → Bool) (x t : Text) (xs : List Text)
        → x ≡ t
        → All (λ y. longer_first x y ≡ true) xs
        → All (λ q. p q ≡ true → byte_len q ≤ byte_len t) xs
    after-first p x t [] same a = tt
    after-first p x t (y ∷ ys) same a = (
      (λ _. omega (arith, leb→le (byte_len y) (byte_len x) a.0, ap byte_len same)),
      after-first p x t ys same a.1,
    )

-- A successful collection is the list itself, no longer than allowed, of good triggers only.
collect_from_lem :
    (collected : List Text) (kind : TriggerKind) (maximum : ℕ) (values result : List Text)
    → length collected ≤ maximum
    → collect_from collected kind maximum values ≡ ok result
    → (result ≡ collected ++ values)
      × (length result ≤ maximum)
      × All (λ v. is_bad_trigger v ≡ false) values
unfolding collect_from
collect_from_lem collected kind maximum [] result b h =
    let same : collected ≡ result = ground arith in
    (sym same ∙ sym (append-nil collected), rw (← same) b, tt)
collect_from_lem collected kind maximum (v ∷ vs) result b h =
    let grown = length-append collected (v ∷ []) in
    let rest : collect_from (collected ++ (v ∷ [])) kind maximum vs ≡ ok result = ground arith in
    let good : is_bad_trigger v ≡ false = ground arith in
    let (eq, bound, all_good) =
      collect_from_lem (collected ++ (v ∷ [])) kind maximum vs result (ground (arith, grown))
        rest in
    (eq ∙ append_assoc collected (v ∷ []) vs, bound, (good, all_good))

-- The triggers of a router after they have been set: the given ones, checked, and sorted.
pub record TriggersSet (given kept : List Text) (maximum : ℕ) : Type 0 where
  pub same : (p : Text → Bool) → count p kept ≡ count p given
  pub bounded : length kept ≤ maximum
  pub good : All (λ v. is_bad_trigger v ≡ false) given
  pub sorted : IsSorted longer_first kept

collected-TriggersSet :
    (kind : TriggerKind) (given collected : List Text) (maximum : ℕ)
    → collect_command_triggers given kind maximum ≡ ok collected
    → TriggersSet given (sort_by longer_first collected) maximum
unfolding collect_command_triggers
collected-TriggersSet kind given collected maximum h =
    let (eq, bound, good) = collect_from_lem [] kind maximum given collected (omega arith) h in
    record {
      same = λ p. rw (count-sort_by longer_first p collected, eq);
      bounded = omega (arith, length-sort_by longer_first collected, bound);
      good = good;
      sorted = sort_by-IsSorted longer_first longer_first-IsOrder collected;
    }

module _ {H : Type 0} (r r' : CommandRouter H) (given : List Text) where
  -- The prefixes that a router accepts are those given, at most 32, each within the limits, and the
  -- longest stand first.
  pub set_prefixes-TriggersSet :
      set_prefixes r given ≡ ok r' → TriggersSet given r'.prefixes max_command_prefixes
  unfolding set_prefixes
  set_prefixes-TriggersSet h =
      elim (Result-cases (collect_command_triggers given prefix max_command_prefixes)) [
        | inr (e, bad) ↦ absurd (ground arith)
        | inl (collected, good) ↦
            let eq : r'.prefixes ≡ sort_by longer_first collected = ground arith in
            rw eq (collected-TriggersSet prefix given collected max_command_prefixes good)
      ]

  pub set_mentions-TriggersSet :
      set_mentions r given ≡ ok r' → TriggersSet given r'.mentions max_command_mentions
  unfolding set_mentions
  set_mentions-TriggersSet h =
      elim (Result-cases (collect_command_triggers given mention max_command_mentions)) [
        | inr (e, bad) ↦ absurd (ground arith)
        | inl (collected, good) ↦
            let eq : r'.mentions ≡ sort_by longer_first collected = ground arith in
            rw eq (collected-TriggersSet mention given collected max_command_mentions good)
      ]
