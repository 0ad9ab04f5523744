-- ===== src/Permission/Nested.antt =====
-- Two prefixes that match one path: one of them matches the other.
use bro_know_my_qqbot.Prelude.{
  ◌≡◌, refl, sym, subst, ◌∙◌, ◌⊎◌, inl, inr, Bool, true, ◌||◌, some, [], ◌∷◌, ◌++◌, arith,
  Bool-cases, Option-cases, append-nil,
}
use bro_know_my_qqbot.Prelude.Text.{Text, same_text, is_empty, strip_prefix}
use bro_know_my_qqbot.Prelude.Text.Laws.{strip_prefix-append}
use bro_know_my_qqbot.Permission.{ends_with, starts_with_char, url_path_matches_prefix}
use bro_know_my_qqbot.Permission.Paths.{is_plain, same_text_iff, comparable, strip_prefix-eq}

-- The rest of a path behind a prefix that matches it, and that is not `/`.
abbrev stops : Text → Text → Bool
stops p rest = ends_with b'/' p || starts_with_char b'/' rest || is_empty rest

record Match (p : Text) (path : Text) : Type 0 where
  rest : Text
  stripped : strip_prefix p path ≡ some rest
  ends : stops p rest ≡ true

strip_prefix_self : (p : Text) → strip_prefix p p ≡ some []
strip_prefix_self p =
    subst (λ t. strip_prefix p t ≡ some []) (append-nil p) (strip_prefix-append p [])

matched : (path p : Text) → url_path_matches_prefix path p ≡ true → (p ≡ b'/' ∷ []) ⊎ Match p path
unfolding url_path_matches_prefix
matched path p h = elim (Bool-cases (same_text p (b'/' ∷ []))) [
  | inl r ↦ inl ((same_text_iff p (b'/' ∷ [])).0 r)
  | inr r ↦ elim (Bool-cases (same_text path p)) [
    | inl e ↦ inr (record {
      rest = [];
      stripped = rw ((same_text_iff path p).0 e) (strip_prefix_self p);
      ends = ground arith;
    })
    | inr e ↦ elim (Option-cases (strip_prefix p path)) [
      | inl n ↦ absurd (ground arith)
      | inr (rest, s) ↦ inr (record { rest = rest; stripped = s; ends = ground arith })
    ]
  ]
]

-- A prefix of the prefix that stops where the path goes on with it.
inner-matches :
    (p q d s : Text)
    → is_plain q ≡ true
    → strip_prefix p q ≡ some d
    → stops p (d ++ s) ≡ true
    → url_path_matches_prefix q p ≡ true
unfolding url_path_matches_prefix
inner-matches p q [] s plain e h =
    let same : q ≡ p = strip_prefix-eq p q [] e ∙ append-nil p in
    ground (arith, (same_text_iff q p).1 same)
inner-matches p q (c ∷ d) s plain e h = ground arith

root-matches : (q : Text) → is_plain q ≡ true → url_path_matches_prefix q (b'/' ∷ []) ≡ true
unfolding url_path_matches_prefix
root-matches q plain = ground (arith, (same_text_iff (b'/' ∷ []) (b'/' ∷ [])).1 refl)

-- Prefixes without dot segments and special characters that match one path are nested.
pub nested_lem :
    (path p q : Text)
    → is_plain p ≡ true
    → is_plain q ≡ true
    → url_path_matches_prefix path p ≡ true
    → url_path_matches_prefix path q ≡ true
    → (url_path_matches_prefix p q || url_path_matches_prefix q p) ≡ true
nested_lem path p q pp pq hp hq = elim (matched path p hp) [
  | inl r ↦ let m : url_path_matches_prefix q p ≡ true = rw r (root-matches q pq) in ground arith
  | inr a ↦ elim (matched path q hq) [
    | inl r ↦ let m : url_path_matches_prefix p q ≡ true = rw r (root-matches p pp) in ground arith
    | inr b ↦ elim (comparable p q path a.rest b.rest a.stripped b.stripped) [
      | inl (d, e, w) ↦ let m = inner-matches p q d b.rest pq e (rw (sym w) a.ends) in ground arith
      | inr (d, e, w) ↦ let m = inner-matches q p d a.rest pp e (rw (sym w) b.ends) in ground arith
    ]
  ]
]
