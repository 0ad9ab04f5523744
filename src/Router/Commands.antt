-- ===== src/Router/Commands.antt =====
-- crates/bot-core/src/router.rs: `CommandRouter`. A text is its list of code points. A handler is a
-- value of a type `H` that the router only stores and hands out.
pub mod Normal
pub mod Register
pub mod Parse
pub mod Longest
pub mod Dispatch
use bro_know_my_qqbot.Prelude.{
  ℕ, ◌+◌, ◌≤◌, ◌≡◌, Bool, true, false, ◌&&◌, ◌||◌, not, Option, none, some, List, [], ◌∷◌, ◌++◌,
  ltb, leb, ◌==◌, if◌then◌else◌, Result, ok, err, ◌>>=◌, length, all, any, saturating_add,
}
use bro_know_my_qqbot.Prelude.Map.{get, insert}
use bro_know_my_qqbot.Prelude.Sort.{sort_by}
use bro_know_my_qqbot.Prelude.Text.{
  Text, text_discrete, same_text, codes, is_empty, is_whitespace, is_control, is_ascii_alphanumeric,
  to_ascii_lowercase, byte_len, trim, trim_start, strip_prefix, starts_with, is_some,
  split_once_whitespace,
}

abbrev pub max_command_keys : ℕ
max_command_keys = 1024

abbrev pub max_command_name_bytes : ℕ
max_command_name_bytes = 64

abbrev pub max_command_prefixes : ℕ
max_command_prefixes = 32

abbrev pub max_command_mentions : ℕ
max_command_mentions = 32

abbrev pub max_command_trigger_bytes : ℕ
max_command_trigger_bytes = 256

abbrev pub max_command_text_bytes : ℕ
max_command_text_bytes = 4096

pub record CommandInvocation : Type 0 where
  pub name : Text
  pub arguments : Text
  pub raw : Text

pub record RegisteredCommand (H : Type 0) : Type 0 where
  pub canonical_name : Text
  pub handler : H

-- `kind` of `collect_command_triggers`.
pub data TriggerKind : Type 0 where
  prefix mention : TriggerKind

pub data RouterError : Type 0 where
  invalid_command : Text → RouterError
  duplicate_command : Text → RouterError
  too_many_routes : RouterError
  too_many_route_filters : RouterError
  too_many_route_middleware : RouterError
  too_many_commands : RouterError
  too_many_prefixes : RouterError
  too_many_mentions : RouterError
  invalid_command_trigger : TriggerKind → Text → RouterError

pub record CommandRouter (H : Type 0) : Type 0 where
  pub name : Text
  pub prefixes : List Text
  pub mentions : List Text
  pub commands : List (Text × RegisteredCommand H)

-- `CommandRouter::default`.
abbrev pub default_router : (H : Type 0) → CommandRouter H
default_router H = record {
  name = codes "command-router";
  prefixes = (b'/' ∷ []) ∷ [];
  mentions = [];
  commands = [];
}

unfoldable pub is_command_char : ℕ → Bool
is_command_char c = is_ascii_alphanumeric c || c == b'-' || c == b'_'

unfoldable pub normalize_command : Text → Result Text RouterError
unfolding trim_start
normalize_command value =
    let name = to_ascii_lowercase (trim value) in
    if is_empty name || ltb max_command_name_bytes (byte_len name) || not (all is_command_char name)
    then err (invalid_command name)
    else ok name

too_many : TriggerKind → RouterError
too_many prefix = too_many_prefixes
too_many mention = too_many_mentions

unfoldable pub is_bad_trigger : Text → Bool
is_bad_trigger value =
    is_empty (trim value)
    || not (same_text value (trim value))
    || ltb max_command_trigger_bytes (byte_len value)
    || any is_control value

-- The loop of `collect_command_triggers`; `collected` holds what is pushed so far.
unfoldable pub collect_from :
    List Text → TriggerKind → ℕ → List Text → Result (List Text) RouterError
unfolding too_many is_bad_trigger
collect_from collected kind maximum [] = ok collected
collect_from collected kind maximum (value ∷ values) =
    let rest = collect_from (collected ++ (value ∷ [])) kind maximum values in
    if leb maximum (length collected)
    then err (too_many kind)
    else if is_bad_trigger value
    then err (invalid_command_trigger kind value)
    else rest

unfoldable pub collect_command_triggers :
    List Text → TriggerKind → ℕ → Result (List Text) RouterError
collect_command_triggers values kind maximum = collect_from [] kind maximum values

abbrev longer_first : Text → Text → Bool
longer_first a b = leb (byte_len b) (byte_len a)

-- The loop over the aliases; `names` holds the aliases normalized so far.
unfoldable pub collect_aliases : ℕ → List Text → List Text → Result (List Text) RouterError
collect_aliases registered names [] = ok names
collect_aliases registered names (alias ∷ aliases) =
    if ltb max_command_keys (saturating_add (saturating_add registered (length names)) 2)
    then err too_many_commands
    else do
      name ← normalize_command alias
      collect_aliases registered (names ++ (name ∷ [])) aliases

module _ {H : Type 0} where
  unfoldable pub named : CommandRouter H → Text → CommandRouter H
  named r name = record r { name = name }

  -- `prefixes` and `mentions`: the longest come first.
  unfoldable pub set_prefixes : CommandRouter H → List Text → Result (CommandRouter H) RouterError
  set_prefixes r prefixes = do
    collected ← collect_command_triggers prefixes prefix max_command_prefixes
    ok (record r { prefixes = sort_by longer_first collected })

  pub set_mentions : CommandRouter H → List Text → Result (CommandRouter H) RouterError
  set_mentions r mentions = do
    collected ← collect_command_triggers mentions mention max_command_mentions
    ok (record r { mentions = sort_by longer_first collected })

  -- The loop over the keys with the set `unique`.
  unfoldable pub check_keys :
      List (Text × RegisteredCommand H) → List Text → List Text → Result (Unit {0}) RouterError
  check_keys commands unique [] = ok tt
  check_keys commands unique (key ∷ keys) =
      let rest = check_keys commands (key ∷ unique) keys in
      if any (same_text key) unique || is_some (get text_discrete key commands)
      then err (duplicate_command key)
      else rest

  insert_keys :
      RegisteredCommand H
      → List Text
      → List (Text × RegisteredCommand H)
      → List (Text × RegisteredCommand H)
  insert_keys registered [] commands = commands
  insert_keys registered (key ∷ keys) commands =
      insert_keys registered keys (insert text_discrete key registered commands)

  unfoldable pub command :
      CommandRouter H → Text → List Text → H → Result (CommandRouter H) RouterError
  unfolding insert_keys
  command r name aliases handler = do
    name ← normalize_command name
    _ ← (if leb max_command_keys (length r.commands) then err too_many_commands else ok tt)
    normalized_aliases ← collect_aliases (length r.commands) [] aliases
    _ ← check_keys r.commands [] (name ∷ normalized_aliases)
    ok (record r {
      commands =
          insert_keys (record { canonical_name = name; handler = handler })
            (name ∷ normalized_aliases) r.commands;
    })

-- The first trigger that the test accepts.
unfoldable pub find_text : (Text → Bool) → List Text → Option Text
find_text p [] = none
find_text p (t ∷ ts) = if p t then some t else find_text p ts

-- The mention stands alone at the start of the text, or before a space.
abbrev pub ends_mention : Option Text → Bool
ends_mention none = false
ends_mention (some []) = true
ends_mention (some (c ∷ cs)) = is_whitespace c

abbrev pub or_text : Option Text → Text → Text
or_text none t = t
or_text (some s) t = s

-- `text[prefix.len()..]`, where `text` starts with `prefix`.
unfoldable pub after_prefix : Text → Text → Text
after_prefix p t = or_text (strip_prefix p t) t

unfoldable pub skip_mention : Option Text → Text → Text
skip_mention none text = text
skip_mention (some m) text = trim_start (after_prefix m text)

-- The name and the arguments of a command.
unfoldable pub split_command : Text → Text × Text
split_command command = elim (split_once_whitespace command) [
  | none ↦ (command, [])
  | some (name, arguments) ↦ (name, trim arguments)
]

module _ {H : Type 0} where
  unfoldable pub lookup_command : CommandRouter H → Text → Text × Text → Option CommandInvocation
  lookup_command r raw (name, arguments) =
      elim (get text_discrete (to_ascii_lowercase name) r.commands) [
        | none ↦ none
        | some registered ↦
            some (record { name = registered.canonical_name; arguments = arguments; raw = raw })
      ]

  unfoldable pub parse_after :
      CommandRouter H → Text → Text → Option Text → Option CommandInvocation
  parse_after r raw text none = none
  parse_after r raw text (some p) =
      lookup_command r raw (split_command (trim_start (after_prefix p text)))

  unfoldable pub parse_prefixed : CommandRouter H → Text → Text → Option CommandInvocation
  unfolding parse_after lookup_command
  parse_prefixed r raw text =
      parse_after r raw text (find_text (λ p. starts_with p text) r.prefixes)

  -- What is left of a trimmed text behind the first mention that it starts with.
  unfoldable pub after_mention : CommandRouter H → Text → Text
  unfolding skip_mention
  after_mention r text =
      skip_mention (find_text (λ m. ends_mention (strip_prefix m text)) r.mentions) text

  unfoldable pub parse_trimmed : CommandRouter H → Text → Text → Option CommandInvocation
  unfolding after_mention parse_prefixed
  parse_trimmed r raw text = parse_prefixed r raw (after_mention r text)

  unfoldable pub parse : CommandRouter H → Text → Option CommandInvocation
  unfolding parse_trimmed
  parse r raw =
      if ltb max_command_text_bytes (byte_len raw) then none else parse_trimmed r raw (trim raw)

  dispatch : CommandRouter H → Option CommandInvocation → Option (H × CommandInvocation)
  dispatch r none = none
  dispatch r (some invocation) = elim (get text_discrete invocation.name r.commands) [
    | none ↦ none
    | some registered ↦ some (registered.handler, invocation)
  ]

  -- `handle` on a message: the handler that runs, and what it is handed.
  unfoldable pub handle : CommandRouter H → Text → Option (H × CommandInvocation)
  unfolding dispatch
  handle r text = dispatch r (parse r text)
