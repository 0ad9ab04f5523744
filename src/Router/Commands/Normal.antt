-- ===== src/Router/Commands/Normal.antt =====
-- Normalized command names.
use bro_know_my_qqbot.Prelude.{ℕ, ◌≤◌, ◌≡◌, true, false, [], ◌∷◌, ok, arith, all}
use bro_know_my_qqbot.Prelude.Text.{
  Text, is_empty, is_whitespace, to_ascii_lowercase, byte_len, trim,
}
use bro_know_my_qqbot.Prelude.Text.Laws.{IsSolid, trim-IsSolid, to_ascii_lowercase_idem}
use bro_know_my_qqbot.Router.Commands.{is_command_char, normalize_command, max_command_name_bytes}

-- What a command can be called: 1 to 64 bytes of lower-case letters, digits, `-` and `_`.
pub record IsCommandName (name : Text) : Type 0 where
  pub filled : is_empty name ≡ false
  pub short : byte_len name ≤ max_command_name_bytes
  pub plain : all is_command_char name ≡ true
  pub lowered : to_ascii_lowercase name ≡ name

pub command-char-solid : (c : ℕ) → is_command_char c ≡ true → is_whitespace c ≡ false
unfolding is_command_char is_whitespace
command-char-solid c h = ground arith

pub plain-IsSolid : (t : Text) → all is_command_char t ≡ true → IsSolid t
plain-IsSolid [] h = tt
plain-IsSolid (c ∷ cs) h = (ground (arith, command-char-solid c), plain-IsSolid cs (ground arith))

normalize-IsCommandName :
    (value name : Text) → normalize_command value ≡ ok name → IsCommandName name
unfolding normalize_command
normalize-IsCommandName value name h = record {
  filled = ground arith;
  short = ground arith;
  plain = ground arith;
  lowered = ground (arith, to_ascii_lowercase_idem (trim value));
}

IsCommandName-normalize : (name : Text) → IsCommandName name → normalize_command name ≡ ok name
unfolding normalize_command
IsCommandName-normalize name h =
    let solid = trim-IsSolid name (plain-IsSolid name h.plain) in
    ground (arith, solid, h.lowered, h.filled, h.short, h.plain)

-- What `normalize_command` accepts it turns into a command name (1 to 64 bytes of ASCII letters,
-- digits, `-` and `_`, with no upper-case letter), which it leaves as it is when it meets it again.
pub normalize_command_lem :
    (value name : Text)
    → normalize_command value ≡ ok name
    → IsCommandName name × (normalize_command name ≡ ok name)
normalize_command_lem value name h =
    let n = normalize-IsCommandName value name h in (n, IsCommandName-normalize name n)
