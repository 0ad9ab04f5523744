-- ===== src/Prelude/Text/Laws.antt =====
-- Laws of trimming, lowering and splitting.
use Prim.Native.Nat.{ℕ, ◌≤◌}
use mathlib.Core.Path.{◌≡◌, refl, ap}
use mathlib.Core.Bool.{true, false}
use mathlib.Core.List.{[], ◌∷◌, ◌++◌}
use mathlib.Core.Option.{none, some}
use native.Mathlib.Omega.{arith}
use bro_know_my_qqbot.Prelude.Lists.{length, All}
use bro_know_my_qqbot.Prelude.Text.{
  Text, is_empty, is_whitespace, lower, to_ascii_lowercase, trim_start, trim_end, trim,
  strip_prefix, split_once_whitespace,
}

-- No code point is white space.
abbrev pub IsSolid : Text → Type 0
IsSolid = All (λ c. is_whitespace c ≡ false)

pub trim_end-IsSolid : (t : Text) → IsSolid t → trim_end t ≡ t
unfolding trim_end
trim_end-IsSolid [] h = refl
trim_end-IsSolid (c ∷ cs) h = ground (arith, h.0, trim_end-IsSolid cs h.1)

pub trim_start-IsSolid : (t : Text) → IsSolid t → trim_start t ≡ t
unfolding trim_start
trim_start-IsSolid [] h = refl
trim_start-IsSolid (c ∷ cs) h = ground (arith, h.0)

pub trim-IsSolid : (t : Text) → IsSolid t → trim t ≡ t
trim-IsSolid t h = rw (trim_start-IsSolid t h) (trim_end-IsSolid t h)

append-ne-nil : (s t : Text) → is_empty t ≡ false → is_empty (s ++ t) ≡ false
append-ne-nil [] t n = n
append-ne-nil (c ∷ cs) t n = refl

-- A text that ends with something to keep is kept up to there.
pub trim_end-append :
    (s t : Text) → is_empty t ≡ false → trim_end t ≡ t → trim_end (s ++ t) ≡ s ++ t
unfolding trim_end
trim_end-append [] t n h = h
trim_end-append (c ∷ cs) t n h = ground (arith, trim_end-append cs t n h, append-ne-nil cs t n)

pub lower_idem : (c : ℕ) → lower (lower c) ≡ lower c
unfolding lower
lower_idem c = ground arith

pub to_ascii_lowercase_idem :
    (t : Text) → to_ascii_lowercase (to_ascii_lowercase t) ≡ to_ascii_lowercase t
to_ascii_lowercase_idem [] = refl
to_ascii_lowercase_idem (c ∷ cs) = cc (lower_idem c, to_ascii_lowercase_idem cs)

pub strip_prefix-append : (p t : Text) → strip_prefix p (p ++ t) ≡ some t
unfolding strip_prefix
strip_prefix-append [] t = refl
strip_prefix-append (c ∷ cs) t = ground (arith, strip_prefix-append cs t)

-- A solid text is split off at the white space behind it.
pub split_once_whitespace-append :
    (s : Text) (c : ℕ) (t : Text)
    → IsSolid s
    → is_whitespace c ≡ true
    → split_once_whitespace (s ++ (c ∷ t)) ≡ some (s, t)
unfolding split_once_whitespace
split_once_whitespace-append [] c t h w = ground arith
split_once_whitespace-append (x ∷ xs) c t h w =
    ground (arith, h.0, split_once_whitespace-append xs c t h.1 w)

pub split_once_whitespace-IsSolid : (s : Text) → IsSolid s → split_once_whitespace s ≡ none
unfolding split_once_whitespace
split_once_whitespace-IsSolid [] h = refl
split_once_whitespace-IsSolid (x ∷ xs) h = ground (arith, h.0, split_once_whitespace-IsSolid xs h.1)

pub length-trim_start-le : (t : Text) → length (trim_start t) ≤ length t
unfolding trim_start
length-trim_start-le [] = omega arith
length-trim_start-le (c ∷ cs) = ground (arith, length-trim_start-le cs)

-- Text that begins with something to keep keeps its start.
pub trim_start-append :
    (s t : Text) → is_empty s ≡ false → trim_start s ≡ s → trim_start (s ++ t) ≡ s ++ t
unfolding trim_start
trim_start-append [] t n h = cc
trim_start-append (c ∷ cs) t n h = ground (arith, length-trim_start-le cs, ap length h)
