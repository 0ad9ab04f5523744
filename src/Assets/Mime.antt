-- ===== src/Assets/Mime.antt =====
-- The MIME types that the asset store accepts.
use bro_know_my_qqbot.Prelude.{
  ℕ, ◌≤◌, ◌≡◌, refl, sym, ◌∙◌, ◌↔◌, ◌⊎◌, inl, inr, Bool, true, false, not, ◌&&◌, leb, some, [], ◌∷◌,
  ◌++◌, arith, ◌==◌, Option-cases, ok, err, all, any,
}
use bro_know_my_qqbot.Prelude.Text.{Text, is_empty, byte_len}
use bro_know_my_qqbot.Assets.{invalid_mime_type, split_once, is_mime_token_byte, validate_mime_type}

-- A visible ASCII character that is none of the delimiters `"(),/:;<=>?@[\]{}`.
abbrev pub is_token_char : ℕ → Bool
is_token_char c =
    leb 33 c
    && leb c 126
    && not (
        any (λ d. c == d)
          (34 ∷ 40 ∷ 41 ∷ 44 ∷ 47 ∷ 58 ∷ 59 ∷ 60 ∷ 61 ∷ 62 ∷ 63 ∷ 64 ∷ 91 ∷ 92 ∷ 93 ∷ 123 ∷ 125
            ∷ []))

-- A type and a subtype of token characters, neither empty, with one `/` between them.
pub record IsMimeType (t : Text) : Type 0 where
  pub kind : Text
  pub subtype : Text
  pub joined : kind ++ (b'/' ∷ subtype) ≡ t
  pub kind_present : is_empty kind ≡ false
  pub subtype_present : is_empty subtype ≡ false
  pub kind_tokens : all is_token_char kind ≡ true
  pub subtype_tokens : all is_token_char subtype ≡ true
  pub bounded : byte_len t ≤ 127

token_same : (c : ℕ) → is_mime_token_byte c ≡ is_token_char c
unfolding is_mime_token_byte
token_same c = ground arith

all-token_same : (t : Text) → all is_mime_token_byte t ≡ all is_token_char t
all-token_same [] = refl
all-token_same (c ∷ t) = rw (token_same c, all-token_same t) refl

slash_no_token : (c : ℕ) → (c == b'/') ≡ true → is_mime_token_byte c ≡ false
unfolding is_mime_token_byte
slash_no_token c h = let e : c ≡ b'/' = ground arith in rw e refl

split_once-joined :
    (kind subtype : Text)
    → all is_mime_token_byte kind ≡ true
    → split_once b'/' (kind ++ (b'/' ∷ subtype)) ≡ some (kind, subtype)
unfolding split_once
split_once-joined [] subtype h = refl
split_once-joined (c ∷ kind) subtype h =
    ground (arith, slash_no_token c, split_once-joined kind subtype)

split_once-eq :
    (sep : ℕ) (t before after : Text)
    → split_once sep t ≡ some (before, after)
    → before ++ (sep ∷ after) ≡ t
unfolding split_once
split_once-eq sep [] before after h = cc
split_once-eq sep (c ∷ t) before after h = elim (Option-cases (split_once sep t)) [
  | inl e ↦ ground arith
  | inr ((b, a), e) ↦ ground (arith, split_once-eq sep t b a e)
]

no_slash : (t : Text) → all is_mime_token_byte t ≡ true → any (λ c. c == b'/') t ≡ false
no_slash [] h = refl
no_slash (c ∷ t) h = ground (arith, slash_no_token c, no_slash t)

joined_present : (kind subtype : Text) → is_empty (kind ++ (b'/' ∷ subtype)) ≡ false
joined_present [] subtype = refl
joined_present (c ∷ kind) subtype = refl

accepted-IsMimeType : (t : Text) → validate_mime_type t ≡ ok tt → IsMimeType t
unfolding validate_mime_type
accepted-IsMimeType t h = elim (Option-cases (split_once b'/' t)) [
  | inl e ↦ ground arith
  | inr ((kind, subtype), e) ↦ record {
    kind = kind;
    subtype = subtype;
    joined = split_once-eq b'/' t kind subtype e;
    kind_present = ground arith;
    subtype_present = ground arith;
    kind_tokens = sym (all-token_same kind) ∙ ground arith;
    subtype_tokens = sym (all-token_same subtype) ∙ ground arith;
    bounded = ground arith;
  }
]

IsMimeType-accepted : (t : Text) → IsMimeType t → validate_mime_type t ≡ ok tt
unfolding validate_mime_type
IsMimeType-accepted t m =
    let kind_tokens = all-token_same m.kind ∙ m.kind_tokens in
    let subtype_tokens = all-token_same m.subtype ∙ m.subtype_tokens in
    let e : split_once b'/' t ≡ some (m.kind, m.subtype) =
      rw (sym m.joined) (split_once-joined m.kind m.subtype kind_tokens) in
    let p : is_empty t ≡ false = rw (sym m.joined) (joined_present m.kind m.subtype) in
    ground (arith, no_slash m.subtype subtype_tokens)

-- `validate_mime_type` accepts exactly the texts of at most 127 bytes that are a non-empty type
-- and a non-empty subtype with one `/` between them, both of visible ASCII characters other than
-- the delimiters `"(),/:;<=>?@[\]{}`, and answers `InvalidMimeType` for every other text.
pub validate_mime_type_lem :
    (t : Text)
    → ((validate_mime_type t ≡ ok tt) ↔ IsMimeType t)
      × ((validate_mime_type t ≡ ok tt) ⊎ (validate_mime_type t ≡ err invalid_mime_type))
unfolding validate_mime_type
validate_mime_type_lem t = (
  (accepted-IsMimeType t, IsMimeType-accepted t),
  elim (Option-cases (split_once b'/' t)) [
    | inl e ↦ ground arith
    | inr ((kind, subtype), e) ↦ ground arith
  ],
)
