-- ===== src/PluginId.antt =====
-- crates/plugin-api/src/id.rs: the validated identifiers of plugins.
pub mod Segments
mod Examples
use bro_know_my_qqbot.Prelude.{
  ℕ, Bool, true, false, not, ◌&&◌, ◌||◌, ◌==◌, List, [], ◌∷◌, ltb, leb, if◌then◌else◌, Result, ok,
  err, ◌>>=◌, length, all,
}
use bro_know_my_qqbot.Prelude.Text.{Text, is_ascii_lowercase, is_ascii_digit, byte_len, split}

pub data PluginIdError : Type 0 where
  invalid_length non_ascii too_few_segments : PluginIdError
  invalid_segment : Text → PluginIdError

abbrev pub is_ascii : ℕ → Bool
is_ascii c = ltb c 128

abbrev pub is_segment_start : ℕ → Bool
is_segment_start c = is_ascii_lowercase c || is_ascii_digit c

abbrev pub is_segment_char : ℕ → Bool
is_segment_char c = is_ascii_lowercase c || is_ascii_digit c || c == b'_' || c == b'-'

-- The tests of the loop on one segment.
abbrev pub is_segment : Text → Bool
is_segment [] = false
is_segment (c ∷ cs) = is_segment_start c && all is_segment_char cs

unfoldable pub check_segments : List Text → Result (Unit {0}) PluginIdError
check_segments [] = ok tt
check_segments (segment ∷ segments) =
    let rest = check_segments segments in
    if is_segment segment then rest else err (invalid_segment segment)

-- `PluginId::new`. A `PluginId` is its text.
unfoldable pub new_plugin_id : Text → Result Text PluginIdError
new_plugin_id value =
    if not (all is_ascii value)
    then err non_ascii
    else if not (leb 5 (byte_len value) && leb (byte_len value) 128)
    then err invalid_length
    else if ltb (length (split b'.' value)) 3
    then err too_few_segments
    else do _ ← check_segments (split b'.' value); ok value
