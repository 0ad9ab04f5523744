-- ===== src/Permission/Paths.antt =====
-- The prefixes that match a path: what a match means, and that two of them are nested.
use bro_know_my_qqbot.Prelude.{
  ℕ, ◌≡◌, refl, ap, ◌∙◌, ◌↔◌, ◌⊎◌, inl, inr, Bool, true, not, ◌||◌, some, [], ◌∷◌, ◌++◌, arith,
  ◌==◌, any, Bool-cases, Option-cases,
}
use bro_know_my_qqbot.Prelude.Text.{Text, same_text, split, strip_prefix}
use bro_know_my_qqbot.Prelude.Text.Laws.{strip_prefix-append}
use bro_know_my_qqbot.Permission.{
  ends_with, starts_with_char, is_special, is_dot_segment, begins_segment, url_path_matches_prefix,
}

-- A path without `?`, `#`, `%`, `\` and without the segments `.` and `..`.
abbrev pub is_plain : Text → Bool
is_plain path = not (any is_special path || any is_dot_segment (split b'/' path))

-- The path is the prefix, or lies in the directory that the prefix names.
pub data Under (prefix : Text) (path : Text) : Type 0 where
  itself : path ≡ prefix → Under prefix path
  inside : (rest : Text) → path ≡ prefix ++ (b'/' ∷ rest) → Under prefix path
  directory :
      (before rest : Text)
      → prefix ≡ before ++ (b'/' ∷ [])
      → path ≡ prefix ++ rest
      → Under prefix path

pub same_text_iff : (s t : Text) → (same_text s t ≡ true) ↔ (s ≡ t)
same_text_iff s t = ground arith

pub strip_prefix-eq : (p t rest : Text) → strip_prefix p t ≡ some rest → t ≡ p ++ rest
unfolding strip_prefix
strip_prefix-eq [] t rest h = ground arith
strip_prefix-eq (c ∷ p) [] rest h = cc
strip_prefix-eq (c ∷ p) (x ∷ t) rest h = ground (arith, strip_prefix-eq p t rest)

ends_with-append : (c : ℕ) (t : Text) → ends_with c (t ++ (c ∷ [])) ≡ true
unfolding ends_with
ends_with-append c [] = ground arith
ends_with-append c (x ∷ []) = ground arith
ends_with-append c (x ∷ y ∷ t) = ends_with-append c (y ∷ t)

ends_with-split :
    (c : ℕ) (t : Text) → ends_with c t ≡ true → (before : Text) × (t ≡ before ++ (c ∷ []))
unfolding ends_with
ends_with-split c [] h = absurd (ground arith)
ends_with-split c (x ∷ []) h = ([], ground arith)
ends_with-split c (x ∷ y ∷ t) h =
    let (before, e) = ends_with-split c (y ∷ t) h in (x ∷ before, ap (λ z. x ∷ z) e)

starts_with_char-split :
    (c : ℕ) (t : Text) → starts_with_char c t ≡ true → (rest : Text) × (t ≡ c ∷ rest)
starts_with_char-split c [] h = absurd (ground arith)
starts_with_char-split c (x ∷ t) h = (t, ground arith)

begins-Under :
    (prefix path : Text)
    → begins_segment prefix (strip_prefix prefix path) ≡ true
    → Under prefix path
begins-Under prefix path h = elim (Option-cases (strip_prefix prefix path)) [
  | inl e ↦ absurd (ground arith)
  | inr (rest, e) ↦
      let whole : path ≡ prefix ++ rest = strip_prefix-eq prefix path rest e in
      elim (Bool-cases (ends_with b'/' prefix)) [
        | inl d ↦ let (before, p) = ends_with-split b'/' prefix d in directory before rest p whole
        | inr d ↦
            let (deeper, r) = starts_with_char-split b'/' rest (ground arith) in
            inside deeper (whole ∙ ap (λ x. prefix ++ x) r)
      ]
]

Under-begins :
    (prefix path : Text)
    → Under prefix path
    → (same_text path prefix || begins_segment prefix (strip_prefix prefix path)) ≡ true
Under-begins prefix path (itself e) = ground (arith, same_text_iff path prefix)
Under-begins prefix path (inside rest e) =
    ground (arith, e, strip_prefix-append prefix (b'/' ∷ rest))
Under-begins prefix path (directory before rest p e) =
    let d : ends_with b'/' prefix ≡ true = rw p (ends_with-append b'/' before) in
    ground (arith, e, strip_prefix-append prefix rest)

matches-Under :
    (path prefix : Text)
    → url_path_matches_prefix path prefix ≡ true
    → (is_plain path ≡ true) × ((prefix ≡ b'/' ∷ []) ⊎ Under prefix path)
unfolding url_path_matches_prefix
matches-Under path prefix h = (
  ground arith,
  elim (Bool-cases (same_text prefix (b'/' ∷ []))) [
    | inl r ↦ inl ((same_text_iff prefix (b'/' ∷ [])).0 r)
    | inr r ↦ inr (elim (Bool-cases (same_text path prefix)) [
      | inl e ↦ itself ((same_text_iff path prefix).0 e)
      | inr e ↦ begins-Under prefix path (ground arith)
    ])
  ],
)

Under-matches :
    (path prefix : Text)
    → is_plain path ≡ true
    → (prefix ≡ b'/' ∷ []) ⊎ Under prefix path
    → url_path_matches_prefix path prefix ≡ true
unfolding url_path_matches_prefix
Under-matches path prefix plain (inl r) = ground (arith, (same_text_iff prefix (b'/' ∷ [])).1 r)
Under-matches path prefix plain (inr u) = ground (arith, Under-begins prefix path u)

-- A prefix matches a path exactly if the path is plain (no `?`, `#`, `%`, `\` and no segment `.` or
-- `..`), and the prefix is `/`, or the path is the prefix itself, or it continues the prefix with
-- `/`, or it continues a prefix that ends with `/`: so a match never ends inside a segment.
pub url_path_matches_prefix_lem :
    (path prefix : Text)
    → (url_path_matches_prefix path prefix ≡ true)
      ↔ ((is_plain path ≡ true) × ((prefix ≡ b'/' ∷ []) ⊎ Under prefix path))
url_path_matches_prefix_lem path prefix =
    (matches-Under path prefix, λ h. Under-matches path prefix h.0 h.1)

-- Two prefixes of one text: one is a prefix of the other.
pub comparable :
    (p q t r s : Text)
    → strip_prefix p t ≡ some r
    → strip_prefix q t ≡ some s
    → ((d : Text) × (strip_prefix p q ≡ some d) × (r ≡ d ++ s))
      ⊎ ((d : Text) × (strip_prefix q p ≡ some d) × (s ≡ d ++ r))
unfolding strip_prefix
comparable [] q t r s h k = inl (q, refl, ground (arith, strip_prefix-eq q t s k))
comparable (c ∷ p) [] t r s h k = inr (c ∷ p, refl, ground (arith, strip_prefix-eq (c ∷ p) t r h))
comparable (c ∷ p) (x ∷ q) [] r s h k = cc
comparable (c ∷ p) (x ∷ q) (y ∷ t) r s h k = elim (Bool-cases (c == y)) [
  | inr n ↦ absurd (ground arith)
  | inl e ↦ elim (Bool-cases (x == y)) [
    | inr n ↦ absurd (ground arith)
    | inl f ↦
        let same : (c == x) ≡ true = ground arith in
        let same' : (x == c) ≡ true = ground arith in
        elim (comparable p q t r s (ground arith) (ground arith)) [
          | inl (d, a, b) ↦ inl (d, rw same a, b)
          | inr (d, a, b) ↦ inr (d, rw same' a, b)
        ]
  ]
]
