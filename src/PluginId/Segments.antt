-- ===== src/PluginId/Segments.antt =====
-- Plugin identifiers are what joins segments by dots.
use bro_know_my_qqbot.Prelude.{
  ℕ, ◌≤◌, ◌≡◌, refl, ap, sym, ◌∙◌, Bool, true, not, ◌&&◌, ◌==◌, List, [], ◌∷◌, ◌++◌, ok, arith,
  length, all, All, All-map, ◌⊎◌, Bool-cases, Result-cases, inl, inr, ◌↔◌,
}
use bro_know_my_qqbot.Prelude.Text.{Text, byte_len, split, prepend}
use bro_know_my_qqbot.PluginId.{
  is_ascii, is_segment_char, is_segment, check_segments, new_plugin_id,
}

-- The segments with dots between them.
unfoldable pub join : List Text → Text
join [] = []
join (x ∷ []) = x
join (x ∷ y ∷ segments) = x ++ (b'.' ∷ join (y ∷ segments))

-- A lower-case letter or a digit of ASCII, by its code.
abbrev pub IsStart : ℕ → Type 0
IsStart c = ((97 ≤ c) × (c ≤ 122)) ⊎ ((48 ≤ c) × (c ≤ 57))

-- Also `_` and `-`.
abbrev pub IsLater : ℕ → Type 0
IsLater c = IsStart c ⊎ (c ≡ 95) ⊎ (c ≡ 45)

abbrev pub IsSegment : Text → Type 0
IsSegment [] = ⊥
IsSegment (c ∷ cs) = IsStart c × All IsLater cs

-- At least three segments, each of lower-case letters, digits, `_` and `-` behind a letter or a digit.
pub record IsPluginId (value : Text) : Type 0 where
  pub segments : List Text
  pub join_lem : join segments ≡ value
  pub many : 3 ≤ length segments
  pub good : All IsSegment segments
  pub at_least : 5 ≤ byte_len value
  pub at_most : byte_len value ≤ 128

-- A list of pieces is never empty.
abbrev IsCons : List Text → Type 0
IsCons [] = ⊥
IsCons (x ∷ xs) = Unit {0}

prepend-IsCons : (c : ℕ) (xs : List Text) → IsCons (prepend c xs)
prepend-IsCons c [] = tt
prepend-IsCons c (x ∷ xs) = tt

split-IsCons : (v : Text) → IsCons (split b'.' v)
unfolding split
split-IsCons [] = tt
split-IsCons (c ∷ v) = elim (Bool-cases (c == b'.')) [
  | inl e ↦ rw e tt
  | inr e ↦ rw e (prepend-IsCons c (split b'.' v))
]

join-prepend : (c : ℕ) (xs : List Text) → IsCons xs → join (prepend c xs) ≡ c ∷ join xs
unfolding join
join-prepend c [] h = absurd h
join-prepend c (x ∷ []) h = refl
join-prepend c (x ∷ y ∷ xs) h = refl

join-cons : (xs : List Text) → IsCons xs → join ([] ∷ xs) ≡ b'.' ∷ join xs
unfolding join
join-cons [] h = absurd h
join-cons (x ∷ xs) h = refl

dot-eq : (c : ℕ) → (c == b'.') ≡ true → c ≡ b'.'
dot-eq c h = ground arith

join-split : (v : Text) → join (split b'.' v) ≡ v
unfolding split join
join-split [] = refl
join-split (c ∷ v) = elim (Bool-cases (c == b'.')) [
  | inl e ↦
      rw (e, join-cons (split b'.' v) (split-IsCons v), join-split v)
        (ap (λ x. x ∷ v) (sym (dot-eq c e)))
  | inr e ↦ rw (e, join-prepend c (split b'.' v) (split-IsCons v), join-split v)
]

check_segments-good :
    (xs : List Text) → check_segments xs ≡ ok tt → All (λ s. is_segment s ≡ true) xs
unfolding check_segments
check_segments-good [] h = tt
check_segments-good (x ∷ xs) h = (ground arith, check_segments-good xs (ground arith))

good-check_segments :
    (xs : List Text) → All (λ s. is_segment s ≡ true) xs → check_segments xs ≡ ok tt
unfolding check_segments
good-check_segments [] h = refl
good-check_segments (x ∷ xs) h = rw (h.0, good-check_segments xs h.1)

all-IsLater : (cs : Text) → all is_segment_char cs ≡ true → All IsLater cs
all-IsLater [] h = tt
all-IsLater (c ∷ cs) h = (later c (ground arith), all-IsLater cs (ground arith))
  where
    later : (c : ℕ) → is_segment_char c ≡ true → IsLater c
    later c h = ground arith

IsLater-all : (cs : Text) → All IsLater cs → all is_segment_char cs ≡ true
IsLater-all [] h = refl
IsLater-all (c ∷ cs) h = rw (later c h.0, IsLater-all cs h.1) refl
  where
    later : (c : ℕ) → IsLater c → is_segment_char c ≡ true
    later c h = ground arith

is_segment-IsSegment : (x : Text) → is_segment x ≡ true → IsSegment x
is_segment-IsSegment [] h = absurd (ground arith)
is_segment-IsSegment (c ∷ cs) h = (ground arith, all-IsLater cs (ground arith))

IsSegment-is_segment : (x : Text) → IsSegment x → is_segment x ≡ true
IsSegment-is_segment [] h = absurd h
IsSegment-is_segment (c ∷ cs) h = ground (arith, h.0, IsLater-all cs h.1)

abbrev is_plain : ℕ → Bool
is_plain c = is_ascii c && not (c == b'.')

segment_char-plain : (c : ℕ) → is_segment_char c ≡ true → is_plain c ≡ true
segment_char-plain c h = ground arith

all-plain : (x : Text) → all is_segment_char x ≡ true → all is_plain x ≡ true
all-plain [] h = refl
all-plain (c ∷ x) h = ground (arith, segment_char-plain c, all-plain x)

is_segment-plain : (x : Text) → is_segment x ≡ true → all is_plain x ≡ true
is_segment-plain [] h = refl
is_segment-plain (c ∷ x) h = ground (arith, segment_char-plain c, all-plain x)

split-piece : (x : Text) → all is_plain x ≡ true → split b'.' x ≡ x ∷ []
unfolding split
split-piece [] h = refl
split-piece (c ∷ x) h = ground (arith, split-piece x)

split-append :
    (x t : Text) → all is_plain x ≡ true → split b'.' (x ++ (b'.' ∷ t)) ≡ x ∷ split b'.' t
unfolding split
split-append [] t h = refl
split-append (c ∷ x) t h = ground (arith, split-append x t)

split-join :
    (x : Text) (xs : List Text)
    → All (λ s. is_segment s ≡ true) (x ∷ xs)
    → split b'.' (join (x ∷ xs)) ≡ x ∷ xs
unfolding join
split-join x [] h = split-piece x (is_segment-plain x h.0)
split-join x (y ∷ xs) h =
    rw (split-append x (join (y ∷ xs)) (is_segment-plain x h.0), split-join y xs h.1)

all-ascii_append :
    (x t : Text) → all is_plain x ≡ true → all is_ascii t ≡ true → all is_ascii (x ++ t) ≡ true
all-ascii_append [] t h k = k
all-ascii_append (c ∷ x) t h k = ground (arith, all-ascii_append x t)

join-ascii : (xs : List Text) → All (λ s. is_segment s ≡ true) xs → all is_ascii (join xs) ≡ true
unfolding join
join-ascii [] h = refl
join-ascii (x ∷ []) h = plain-ascii x (is_segment-plain x h.0)
  where
    plain-ascii : (x : Text) → all is_plain x ≡ true → all is_ascii x ≡ true
    plain-ascii [] h = refl
    plain-ascii (c ∷ x) h = ground (arith, plain-ascii x)
join-ascii (x ∷ y ∷ xs) h =
    all-ascii_append x (b'.' ∷ join (y ∷ xs)) (is_segment-plain x h.0) (join-ascii (y ∷ xs) h.1)

accepted-IsPluginId :
    (value other : Text) → new_plugin_id value ≡ ok other → (other ≡ value) × IsPluginId value
unfolding new_plugin_id
accepted-IsPluginId value other h = elim (Result-cases (check_segments (split b'.' value))) [
  | inr (e, bad) ↦ absurd (ground (arith, bad, h))
  | inl (u, checked) ↦ (
    ground (arith, checked, h),
    record {
      segments = split b'.' value;
      join_lem = join-split value;
      many = ground (arith, h);
      good =
          All-map (λ s. is_segment s ≡ true) IsSegment (split b'.' value) is_segment-IsSegment
            (check_segments-good (split b'.' value) checked);
      at_least = ground (arith, h);
      at_most = ground (arith, h);
    },
  )
]

IsPluginId-accepted : (value : Text) → IsPluginId value → new_plugin_id value ≡ ok value
unfolding new_plugin_id
IsPluginId-accepted value i =
    let good =
      All-map IsSegment (λ s. is_segment s ≡ true) i.segments IsSegment-is_segment i.good in
    let ascii : all is_ascii value ≡ true =
      ap (all is_ascii) (sym i.join_lem) ∙ join-ascii i.segments good in
    let pieces = ap (split b'.') (sym i.join_lem) ∙ split_join_all i.segments i.many good in
    let checked = ap check_segments pieces ∙ good-check_segments i.segments good in
    ground (arith, ascii, ap length pieces, checked, i.many, i.at_least, i.at_most)
  where
    split_join_all :
        (xs : List Text)
        → 3 ≤ length xs
        → All (λ s. is_segment s ≡ true) xs
        → split b'.' (join xs) ≡ xs
    split_join_all [] h g = absurd (omega arith)
    split_join_all (x ∷ xs) h g = split-join x xs g

-- `PluginId::new` returns an identifier for exactly the texts of 5 to 128 bytes that join at least
-- three segments by dots, each of lower-case ASCII letters, digits, `_` and `-` that starts with a
-- letter or a digit, and this identifier is the text itself.
pub new_plugin_id_lem :
    (value other : Text) → (new_plugin_id value ≡ ok other) ↔ ((other ≡ value) × IsPluginId value)
new_plugin_id_lem value other =
    (accepted-IsPluginId value other, λ (e, i). IsPluginId-accepted value i ∙ ap ok (sym e))
