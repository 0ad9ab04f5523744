-- ===== src/Router/Commands/Dispatch.antt =====
-- From a command line to its handler.
use bro_know_my_qqbot.Prelude.{
  ◌≡◌, refl, subst, false, Option, none, some, List, ◌∷◌, ◌++◌, ltb, ok, arith, Bool-cases,
  Option-cases, Result-cases, inl, inr,
}
use bro_know_my_qqbot.Prelude.Map.{get}
use bro_know_my_qqbot.Prelude.Text.{
  Text, text_discrete, is_empty, to_ascii_lowercase, byte_len, trim_start, trim_end,
}
use bro_know_my_qqbot.Prelude.Text.Laws.{IsSolid}
use bro_know_my_qqbot.Router.Commands.{
  CommandRouter, CommandInvocation, RegisteredCommand, default_router, named, set_prefixes,
  set_mentions, command, parse, handle, max_command_text_bytes, after_prefix, lookup_command,
  parse_after, split_command, collect_command_triggers, prefix, mention, max_command_prefixes,
  max_command_mentions,
}
use bro_know_my_qqbot.Router.Commands.Register.{
  Registers, is_among, command-Registers, Fresh-absent,
}

-- A command line: a prefix, a name, a space and arguments.
abbrev pub command_line : Text → Text → Text → Text
command_line p typed arguments = p ++ (typed ++ (b' ' ∷ arguments))

-- The parts of a command line that the parser can take apart again.
pub record IsWritten (p typed arguments : Text) : Type 0 where
  pub prefix_filled : is_empty p ≡ false
  pub prefix_start : trim_start p ≡ p
  pub name_filled : is_empty typed ≡ false
  pub name_solid : IsSolid typed
  pub arguments_filled : is_empty arguments ≡ false
  pub arguments_start : trim_start arguments ≡ arguments
  pub arguments_end : trim_end arguments ≡ arguments

-- Every name that a registration answers for is itself registered, for the same handler.
abbrev pub IsCoherent : {H : Type 0} → CommandRouter H → Type 0
IsCoherent {H} r =
    (k : Text) (registered : RegisteredCommand H)
    → get text_discrete k r.commands ≡ some registered
    → get text_discrete registered.canonical_name r.commands ≡ some registered

-- The routers that the builder methods make.
pub data Built {H : Type 0} : CommandRouter H → Type 0 where
  defaults : Built (default_router H)
  renames : {r : CommandRouter H} (name : Text) → Built r → Built (named r name)
  prefixes :
      {r r' : CommandRouter H} (ts : List Text) → Built r → set_prefixes r ts ≡ ok r' → Built r'
  mentions :
      {r r' : CommandRouter H} (ts : List Text) → Built r → set_mentions r ts ≡ ok r' → Built r'
  commands :
      {r r' : CommandRouter H} (name : Text) (aliases : List Text) (h : H)
      → Built r
      → command r name aliases h ≡ ok r'
      → Built r'

module _ {H : Type 0} where
  command-IsCoherent :
      (r r' : CommandRouter H) (name : Text) (aliases : List Text) (h : H)
      → Registers r r' name aliases h
      → IsCoherent r
      → IsCoherent r'
  command-IsCoherent r r' name aliases h g c k registered e =
      elim (Bool-cases (is_among k (g.canonical ∷ g.names))) [
        | inl new ↦ ground (arith, g.entries k, g.entries g.canonical)
        | inr old ↦
            let before : get text_discrete k r.commands ≡ some registered =
              ground (arith, g.entries k) in
            let kept = c k registered before in
            ground (
              arith,
              g.entries registered.canonical_name,
              Fresh-absent (g.canonical ∷ g.names) r.commands registered.canonical_name g.fresh,
            )
      ]

  same_commands-IsCoherent :
      (r r' : CommandRouter H) → r'.commands ≡ r.commands → IsCoherent r → IsCoherent r'
  same_commands-IsCoherent r r' e c k registered h = rw e (c k registered (rw (← e) h))

  set_prefixes-commands :
      (r r' : CommandRouter H) (ts : List Text)
      → set_prefixes r ts ≡ ok r'
      → r'.commands ≡ r.commands
  unfolding set_prefixes
  set_prefixes-commands r r' ts h =
      elim (Result-cases (collect_command_triggers ts prefix max_command_prefixes)) [
        | inl (x, e) ↦ ground arith
        | inr (x, e) ↦ absurd (ground arith)
      ]

  set_mentions-commands :
      (r r' : CommandRouter H) (ts : List Text)
      → set_mentions r ts ≡ ok r'
      → r'.commands ≡ r.commands
  unfolding set_mentions
  set_mentions-commands r r' ts h =
      elim (Result-cases (collect_command_triggers ts mention max_command_mentions)) [
        | inl (x, e) ↦ ground arith
        | inr (x, e) ↦ absurd (ground arith)
      ]

  named-commands : (r : CommandRouter H) (name : Text) → (named r name).commands ≡ r.commands
  unfolding named
  named-commands r name = refl

  defaults-IsCoherent : IsCoherent (default_router H)
  unfolding get
  defaults-IsCoherent k registered h = cc

  Built-IsCoherent : {r : CommandRouter H} → Built r → IsCoherent r
  Built-IsCoherent defaults = defaults-IsCoherent
  Built-IsCoherent (renames {r = s} name b) =
      same_commands-IsCoherent s (named s name) (named-commands s name) (Built-IsCoherent b)
  Built-IsCoherent (prefixes {r = s} {r' = t} ts b e) =
      same_commands-IsCoherent s t (set_prefixes-commands s t ts e) (Built-IsCoherent b)
  Built-IsCoherent (mentions {r = s} {r' = t} ts b e) =
      same_commands-IsCoherent s t (set_mentions-commands s t ts e) (Built-IsCoherent b)
  Built-IsCoherent (commands {r = s} {r' = t} name aliases h b e) =
      command-IsCoherent s t name aliases h (command-Registers s t name aliases h e)
        (Built-IsCoherent b)

  -- The invocation names the canonical name of a registration that was found.
  abbrev IsKnown : CommandRouter H → CommandInvocation → Type 0
  IsKnown r inv =
      (k : Text) × (registered : RegisteredCommand H) × (get text_discrete k r.commands
        ≡ some registered)
      × (registered.canonical_name ≡ inv.name)

  lookup_command-IsKnown :
      (r : CommandRouter H) (raw typed arguments : Text) (inv : CommandInvocation)
      → lookup_command r raw (typed, arguments) ≡ some inv
      → IsKnown r inv
  unfolding lookup_command
  lookup_command-IsKnown r raw typed arguments inv h =
      elim (Option-cases (get text_discrete (to_ascii_lowercase typed) r.commands)) [
        | inl e ↦ absurd (ground arith)
        | inr (registered, e) ↦ (to_ascii_lowercase typed, registered, e, ground arith)
      ]

  parse_after-IsKnown :
      (r : CommandRouter H) (raw text : Text) (o : Option Text) (inv : CommandInvocation)
      → parse_after r raw text o ≡ some inv
      → IsKnown r inv
  unfolding parse_after
  parse_after-IsKnown r raw text none inv h = cc
  parse_after-IsKnown r raw text (some p) inv h =
      let parts = split_command (trim_start (after_prefix p text)) in
      lookup_command-IsKnown r raw parts.0 parts.1 inv h

  parse-IsKnown :
      (r : CommandRouter H) (raw : Text) (inv : CommandInvocation)
      → parse r raw ≡ some inv
      → IsKnown r inv
  unfolding parse
  parse-IsKnown r raw inv h = elim (Bool-cases (ltb max_command_text_bytes (byte_len raw))) [
    | inl e ↦ absurd (ground arith)
    | inr e ↦ parse_after-IsKnown r raw _ _ inv (rw e at h)
  ]

  -- In a router that the builder methods made, no parsed command is dropped: `handle` finds the
  -- handler that was registered for the canonical name.
  pub handle-parse :
      (r : CommandRouter H) (raw : Text) (inv : CommandInvocation)
      → Built r
      → parse r raw ≡ some inv
      → (registered : RegisteredCommand H) × (registered.canonical_name ≡ inv.name)
        × (get text_discrete inv.name r.commands ≡ some registered)
        × (handle r raw ≡ some (registered.handler, inv))
  unfolding handle
  handle-parse r raw inv b h =
      let (k, registered, e, n) = parse-IsKnown r raw inv h in
      let known = Built-IsCoherent b k registered e in
      let found : get text_discrete inv.name r.commands ≡ some registered =
        subst (λ t. get text_discrete t r.commands ≡ some registered) n known in
      (registered, n, found, ground (arith, h, found))
