-- ===== src/Permission.antt =====
-- Models the HTTP permissions of crates/plugin-api/src/manifest.rs. `Host::parse` of the url crate
-- is an argument: it gives the normalized name of a domain, and nothing for an IP literal or an
-- error. Sets of texts are lists; each message of an error is a constructor.
pub mod Paths
pub mod Nested
pub mod Conflicts
mod Examples
use bro_know_my_qqbot.Prelude.{
  ℕ, zero, suc, ◌+◌, ◌/◌, ◌%◌, Bool, true, false, not, ◌&&◌, ◌||◌, Option, none, some, List, [],
  ◌∷◌, ◌++◌, ltb, leb, ◌==◌, if◌then◌else◌, Result, ok, err, ◌>>◌, ◌>>=◌, length, any, all,
  Option-cases,
}
use bro_know_my_qqbot.Prelude.Text.{
  Text, codes, text_discrete, same_text, is_empty, byte_len, is_ascii_digit, is_ascii_lowercase,
  split, strip_prefix, starts_with,
}

abbrev pub max_http_permissions : ℕ
max_http_permissions = 32

abbrev pub max_http_path_prefixes : ℕ
max_http_path_prefixes = 32

pub record HttpPermission : Type 0 where
  pub host : Text
  pub port : ℕ
  pub methods : List Text
  pub path_prefixes : List Text
  pub credential : Option Text

pub data ManifestError : Type 0 where
  too_many_permissions : ManifestError
  too_many_path_prefixes : ManifestError
  host_is_no_dns_name : ManifestError
  host_is_not_public : ManifestError
  zero_port : ManifestError
  path_not_canonical : ManifestError
  unsupported_method : ManifestError
  bad_credential : ManifestError
  conflicting_credentials : ManifestError

-- `str::ends_with` of a character.
unfoldable pub ends_with : ℕ → Text → Bool
ends_with c [] = false
ends_with c (x ∷ []) = x == c
ends_with c (x ∷ y ∷ t) = ends_with c (y ∷ t)

abbrev pub starts_with_char : ℕ → Text → Bool
starts_with_char c [] = false
starts_with_char c (x ∷ t) = x == c

-- `str::strip_suffix`.
unfoldable pub strip_suffix : Text → Text → Option Text
unfolding text_discrete
strip_suffix suffix [] = if is_empty suffix then some [] else none
strip_suffix suffix (c ∷ t) =
    let rest = strip_suffix suffix t in
    if same_text (c ∷ t) suffix
    then some []
    else elim rest [ none ↦ none | some before ↦ some (c ∷ before) ]

-- `BTreeSet::contains`.
unfoldable pub contains : Text → List Text → Bool
unfolding text_discrete
contains x = any (λ y. same_text y x)

-- The decimal digits of a number below 10 to the power of the fuel.
abbrev digits : ℕ → ℕ → Text
digits zero n = []
digits (suc fuel) n =
    let before = digits fuel (n / 10) in
    if ltb n 10 then (b'0' + n) ∷ [] else before ++ ((b'0' + n % 10) ∷ [])

-- A port is below 65536, so five digits are enough.
unfoldable pub capability : HttpPermission → Text
capability p = codes "http.host." ++ (p.host ++ (b':' ∷ digits 5 p.port))

unfoldable pub credential_capability : HttpPermission → Option Text
credential_capability p = elim p.credential [
  | none ↦ none
  | some name ↦ some (codes "http.credential." ++ name)
]

unfoldable pub is_valid_http_credential_name : Text → Bool
unfolding byte_len ends_with
is_valid_http_credential_name name =
    not (is_empty name)
    && leb (byte_len name) 64
    && not (starts_with_char b'_' name)
    && not (ends_with b'_' name)
    && all (λ c. is_ascii_lowercase c || is_ascii_digit c || c == b'_') name

-- `contains(['?', '#', '%', '\\'])`.
abbrev pub is_special : ℕ → Bool
is_special c = c == b'?' || c == b'#' || c == b'%' || c == 92

abbrev pub is_dot_segment : Text → Bool
is_dot_segment s = same_text s (b'.' ∷ []) || same_text s (b'.' ∷ b'.' ∷ [])

-- What is left of a path behind a prefix begins a new segment.
abbrev pub begins_segment : Text → Option Text → Bool
begins_segment prefix none = false
begins_segment prefix (some rest) = ends_with b'/' prefix || starts_with_char b'/' rest

unfoldable pub url_path_matches_prefix : Text → Text → Bool
unfolding split strip_prefix ends_with text_discrete
url_path_matches_prefix path prefix =
    if any is_special path || any is_dot_segment (split b'/' path)
    then false
    else same_text prefix (b'/' ∷ [])
      || same_text path prefix
      || begins_segment prefix (strip_prefix prefix path)

unfoldable pub has_dns_suffix : Text → Text → Bool
unfolding strip_suffix ends_with text_discrete
has_dns_suffix host suffix =
    same_text host suffix
    || elim (strip_suffix suffix host) [ none ↦ false | some before ↦ ends_with b'.' before ]

abbrev pub is_local_name : Text → Bool
is_local_name name =
    has_dns_suffix name (codes "localhost")
    || has_dns_suffix name (codes "local")
    || has_dns_suffix name (codes "internal")
    || has_dns_suffix name (codes "home.arpa")

-- The path is no canonical absolute URL path.
abbrev pub is_bad_prefix : Text → Bool
is_bad_prefix path =
    not (starts_with_char b'/' path)
    || ltb 2048 (byte_len path)
    || any is_special path
    || any is_dot_segment (split b'/' path)

unfoldable pub validate_public_host_and_paths :
    (Text → Option Text) → Text → ℕ → List Text → Result (Unit {0}) ManifestError
unfolding has_dns_suffix split byte_len text_discrete
validate_public_host_and_paths parse_host host port path_prefixes = elim (parse_host host) [
  | none ↦ err host_is_no_dns_name
  | some normalized ↦
      if not (same_text normalized host) || is_local_name normalized
      then err host_is_not_public
      else if port == 0
      then err zero_port
      else if is_empty path_prefixes || any is_bad_prefix path_prefixes
      then err path_not_canonical
      else ok tt
]

abbrev supported_methods : List Text
supported_methods =
    codes "DELETE" ∷ codes "GET" ∷ codes "HEAD" ∷ codes "PATCH" ∷ codes "POST" ∷ codes "PUT" ∷ []

abbrev bad_name : Option Text → Bool
bad_name none = false
bad_name (some name) = not (is_valid_http_credential_name name)

-- `HttpPermission::validate`.
unfoldable pub validate_permission :
    (Text → Option Text) → HttpPermission → Result (Unit {0}) ManifestError
unfolding validate_public_host_and_paths is_valid_http_credential_name contains
validate_permission parse_host p =
    if ltb max_http_path_prefixes (length p.path_prefixes)
    then err too_many_path_prefixes
    else validate_public_host_and_paths parse_host p.host p.port p.path_prefixes
      >> (if is_empty p.methods || any (λ m. not (contains m supported_methods)) p.methods
          then err unsupported_method
          else if bad_name p.credential
          then err bad_credential
          else ok tt)

abbrev pub same_credential : Option Text → Option Text → Bool
same_credential none none = true
same_credential (some a) (some b) = same_text a b
same_credential _ _ = false

unfoldable pub http_permissions_have_credential_conflict : HttpPermission → HttpPermission → Bool
unfolding url_path_matches_prefix contains text_discrete
http_permissions_have_credential_conflict p other =
    same_text p.host other.host
    && p.port == other.port
    && not (same_credential p.credential other.credential)
    && any (λ method. contains method other.methods) p.methods
    && any
        (λ prefix.
          any
            (λ other_prefix.
              url_path_matches_prefix prefix other_prefix
              || url_path_matches_prefix other_prefix prefix)
            other.path_prefixes)
        p.path_prefixes

-- The loop over the permissions.
unfoldable pub validate_each :
    (Text → Option Text) → List HttpPermission → Result (Unit {0}) ManifestError
unfolding validate_permission
validate_each parse_host [] = ok tt
validate_each parse_host (p ∷ ps) = validate_permission parse_host p >> validate_each parse_host ps

-- The loop over the pairs of permissions.
unfoldable pub validate_pairs : List HttpPermission → Result (Unit {0}) ManifestError
unfolding http_permissions_have_credential_conflict
validate_pairs [] = ok tt
validate_pairs (p ∷ ps) =
    if any (http_permissions_have_credential_conflict p) ps
    then err conflicting_credentials
    else validate_pairs ps

unfoldable pub validate_http_permissions :
    (Text → Option Text) → List HttpPermission → Result (Unit {0}) ManifestError
unfolding validate_each validate_pairs
validate_http_permissions parse_host ps =
    if ltb max_http_permissions (length ps)
    then err too_many_permissions
    else validate_each parse_host ps >> validate_pairs ps
