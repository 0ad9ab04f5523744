-- ===== src/Router/Commands/Longest.antt =====
-- Which prefix a command line is read with.
use bro_know_my_qqbot.Prelude.{
  ℕ, ◌≤◌, ◌≡◌, refl, ap, sym, ◌∙◌, Bool, true, false, ◌&&◌, some, List, [], ◌∷◌, ◌++◌, ok, arith,
  count, any, ltb, Bool-cases, inl, inr, All,
}
use bro_know_my_qqbot.Prelude.Text.{
  Text, same_text, byte_len, len_utf8, strip_prefix, starts_with, trim, trim_start,
}
use bro_know_my_qqbot.Prelude.Text.Laws.{strip_prefix-append}
use bro_know_my_qqbot.Router.Commands.{
  CommandRouter, set_prefixes, find_text, after_prefix, after_mention, split_command,
  lookup_command, parse_after, parse_prefixed, parse_trimmed, parse, max_command_text_bytes,
}
use bro_know_my_qqbot.Router.Commands.Parse.{find_text-longest, set_prefixes-TriggersSet}

len_utf8-positive : (c : ℕ) → 1 ≤ len_utf8 c
unfolding len_utf8
len_utf8-positive c = ground arith

-- Two prefixes of one text that are equally long are the same.
prefix_unique :
    (p q t : Text)
    → starts_with p t ≡ true
    → starts_with q t ≡ true
    → byte_len p ≡ byte_len q
    → p ≡ q
unfolding strip_prefix byte_len
prefix_unique [] [] t h k e = refl
prefix_unique [] (x ∷ q) t h k e = absurd (omega (arith, len_utf8-positive x, e))
prefix_unique (c ∷ p) [] t h k e = absurd (omega (arith, len_utf8-positive c, e))
prefix_unique (c ∷ p) (x ∷ q) [] h k e = absurd (ground arith)
prefix_unique (c ∷ p) (x ∷ q) (y ∷ t) h k e =
    let first : c ≡ y = ground arith in
    let second : x ≡ y = ground arith in
    let same : c ≡ x = first ∙ sym second in
    let rest : p ≡ q =
      prefix_unique p q t (ground arith) (ground arith) (omega (arith, e, ap len_utf8 same)) in
    cc (same, rest)

after_prefix-append : (p t : Text) → after_prefix p (p ++ t) ≡ t
unfolding after_prefix
after_prefix-append p t = rw (strip_prefix-append p t) refl

any-count : (f : Text → Bool) (ts : List Text) → any f ts ≡ ltb 0 (count f ts)
any-count f [] = ground arith
any-count f (t ∷ ts) = ground (arith, any-count f ts)

-- What is found passes the test and is one of the texts.
find_text-passes :
    (f : Text → Bool) (ts : List Text)
    → any f ts ≡ true
    → (t : Text) × (find_text f ts ≡ some t)
      × (f t ≡ true)
      × ((g : Text → Bool) → any g ts ≡ false → g t ≡ false)
unfolding find_text
find_text-passes f [] h = absurd (ground arith)
find_text-passes f (t ∷ ts) h = elim (Bool-cases (f t)) [
  | inl e ↦ (t, ground arith, e, λ g n. ground arith)
  | inr e ↦
      let (u, found, passes, only) = find_text-passes f ts (ground arith) in
      (u, ground arith, passes, λ g n. only g (ground arith))
]

All-member :
    (P : Text → Type 0) (p : Text) (ts : List Text) → All P ts → any (same_text p) ts ≡ true → P p
All-member P p [] a h = absurd (ground arith)
All-member P p (t ∷ ts) a h = elim (Bool-cases (same_text p t)) [
  | inl e ↦ let same : p ≡ t = ground arith in rw same a.0
  | inr e ↦ All-member P p ts a.1 (ground arith)
]

-- A prefix that fits the text and is longer than `p`.
abbrev pub beats : Text → Text → Text → Bool
beats text p q = starts_with q text && ltb (byte_len p) (byte_len q)

module _ {H : Type 0} (r r' : CommandRouter H) (given : List Text) (text p : Text) where
  fits-given : set_prefixes r given ≡ ok r' → (f : Text → Bool) → any f r'.prefixes ≡ any f given
  fits-given h f =
      any-count f r'.prefixes
      ∙ ap (λ n. ltb 0 n) ((set_prefixes-TriggersSet r r' given h).same f)
      ∙ sym (any-count f given)

  found_longest :
      set_prefixes r given ≡ ok r'
      → any (same_text p) given ≡ true
      → starts_with p text ≡ true
      → any (beats text p) given ≡ false
      → find_text (λ t. starts_with t text) r'.prefixes ≡ some p
  found_longest h g s n =
      let kept : any (same_text p) r'.prefixes ≡ true = fits-given h (same_text p) ∙ g in
      let none_beats : any (beats text p) r'.prefixes ≡ false = fits-given h (beats text p) ∙ n in
      let some_fit : any (λ t. starts_with t text) r'.prefixes ≡ true =
        any-member (λ t. starts_with t text) r'.prefixes kept s in
      let (t, found, passes, only) =
        find_text-passes (λ t. starts_with t text) r'.prefixes some_fit in
      let longest =
        find_text-longest (λ t. starts_with t text) r'.prefixes t
          (set_prefixes-TriggersSet r r' given h).sorted found in
      let above : byte_len p ≤ byte_len t =
        All-member (λ q. starts_with q text ≡ true → byte_len q ≤ byte_len t) p r'.prefixes longest
          kept s in
      let below : byte_len t ≤ byte_len p =
        ground (arith, passes, only (beats text p) none_beats) in
      let same : p ≡ t = prefix_unique p t text s passes (omega (arith, above, below)) in
      found ∙ ap (λ x. some x) (sym same)
    where
      any-member :
          (f : Text → Bool) (ts : List Text)
          → any (same_text p) ts ≡ true
          → f p ≡ true
          → any f ts ≡ true
      any-member f [] k e = absurd (ground arith)
      any-member f (t ∷ ts) k e = elim (Bool-cases (same_text p t)) [
        | inl m ↦
            let same : p ≡ t = ground arith in
            let passes : f t ≡ true = rw (← same) e in ground arith
        | inr m ↦ ground (arith, any-member f ts (ground arith) e)
      ]

parse_prefixed-found :
    {H : Type 0} (r : CommandRouter H) (raw p rest : Text)
    → find_text (λ t. starts_with t (p ++ rest)) r.prefixes ≡ some p
    → parse_prefixed r raw (p ++ rest) ≡ lookup_command r raw (split_command (trim_start rest))
unfolding parse_prefixed parse_after
parse_prefixed-found r raw p rest h =
    rw (h, parse_prefixed, parse_after, after_prefix-append p rest) refl

-- On a router whose prefixes were set to the given ones, for a raw text of at most 4096 bytes: if
-- what is left of the trimmed text behind a mention is a given prefix `p` and some rest, and no
-- longer given prefix starts it, then `parse` reads the command from exactly that rest, in
-- whichever order the prefixes were given.
pub parse-longest :
    {H : Type 0} (r r' : CommandRouter H) (given : List Text) (raw p rest : Text)
    → set_prefixes r given ≡ ok r'
    → byte_len raw ≤ max_command_text_bytes
    → after_mention r' (trim raw) ≡ p ++ rest
    → any (same_text p) given ≡ true
    → any (beats (p ++ rest) p) given ≡ false
    → parse r' raw ≡ lookup_command r' raw (split_command (trim_start rest))
unfolding parse parse_trimmed
parse-longest r r' given raw p rest h b t g n =
    let short : ltb max_command_text_bytes (byte_len raw) ≡ false = ground arith in
    let found =
      found_longest r r' given (p ++ rest) p h g (rw (strip_prefix-append p rest) refl) n in
    rw (short, parse, parse_trimmed)
      (ap (λ x. parse_prefixed r' raw x) t ∙ parse_prefixed-found r' raw p rest found)
