-- ===== src/Http.antt =====
-- Models the checks of crates/plugin-host/src/http.rs on the HTTP requests of plugins. A `Url` is
-- what the accessors of the url crate answer; sets of texts are lists; each message of an error is
-- a constructor. The client itself, DNS and header syntax are arguments of `Http/Execute`.
pub mod Address
pub mod Targets
pub mod Authorized
pub mod Execute
pub mod Sends
pub mod Blocks
pub mod Bounds
mod Examples
use bro_know_my_qqbot.Prelude.{
  ℕ, ◌+◌, ◌*◌, Bool, true, false, not, ◌&&◌, ◌||◌, Option, none, some, List, [], ◌∷◌, ◌++◌, ltb,
  leb, ◌==◌, if◌then◌else◌, Result, ok, err, ◌>>◌, ◌>>=◌, length, any, saturating_add,
}
use bro_know_my_qqbot.Prelude.Text.{
  Text, codes, text_discrete, same_text, is_empty, byte_len, to_ascii_lowercase, is_some, lower,
}
use bro_know_my_qqbot.Permission.{
  HttpPermission, capability, credential_capability, contains, same_credential,
  url_path_matches_prefix,
}

abbrev pub max_request_body_bytes : ℕ
max_request_body_bytes = 256 * 1024

abbrev pub max_request_headers : ℕ
max_request_headers = 64

abbrev pub max_request_header_bytes : ℕ
max_request_header_bytes = 32 * 1024

abbrev pub max_response_bytes_limit : ℕ
max_response_bytes_limit = 1024 * 1024

abbrev pub max_timeout_ms : ℕ
max_timeout_ms = 15000

abbrev pub max_redirects : ℕ
max_redirects = 3

abbrev pub max_response_headers : ℕ
max_response_headers = 64

abbrev pub max_response_header_bytes : ℕ
max_response_header_bytes = 32 * 1024

-- The messages of the errors.
pub data Reason : Type 0 where
  bad_timeout : Reason
  bad_response_limit : Reason
  body_too_large : Reason
  too_many_headers : Reason
  bad_method : Reason
  bad_url : Reason
  not_plain_https : Reason
  ip_literal_target : Reason
  no_port : Reason
  outside_allowlist : Reason
  conflicting_permissions : Reason
  target_not_granted : Reason
  credential_not_granted : Reason
  host_header : Reason
  bad_header : Reason
  credential_unavailable : Reason
  bad_credential_value : Reason
  headers_with_credential : Reason
  redirect_limit : Reason
  bad_location : Reason
  timed_out : Reason
  lookup_failed : Reason
  no_addresses : Reason
  too_many_addresses : Reason
  send_failed : Reason

pub data HttpExecutionError : Type 0 where
  invalid_request : Reason → HttpExecutionError
  denied : Reason → HttpExecutionError
  dns : Reason → HttpExecutionError
  non_public_address : HttpExecutionError
  transport : Reason → HttpExecutionError
  response_too_large : HttpExecutionError

-- `url::Host`.
pub data Host : Type 0 where
  domain : Text → Host
  ip_literal : Host

pub record Url : Type 0 where
  pub scheme : Text
  pub username : Text
  pub password : Option Text
  pub fragment : Option Text
  pub host : Option Host
  pub port_or_known_default : Option ℕ
  pub path : Text

pub record HttpRequest : Type 0 where
  pub method : Text
  pub url : Text
  pub headers : List (Text × Text)
  pub body : Option (List ℕ)
  pub timeout_ms : ℕ
  pub max_response_bytes : ℕ

-- The fold over the headers, from a first total.
unfoldable pub header_bytes : ℕ → List (Text × Text) → ℕ
unfolding saturating_add byte_len
header_bytes total [] = total
header_bytes total ((name, value) ∷ headers) =
    header_bytes (saturating_add (saturating_add total (byte_len name)) (byte_len value)) headers

abbrev pub too_large_body : Option (List ℕ) → Bool
too_large_body none = false
too_large_body (some body) = ltb max_request_body_bytes (length body)

unfoldable pub validate_request_limits : HttpRequest → Result (Unit {0}) HttpExecutionError
unfolding header_bytes
validate_request_limits request =
    if request.timeout_ms == 0 || ltb max_timeout_ms request.timeout_ms
    then err (invalid_request bad_timeout)
    else if request.max_response_bytes == 0
        || ltb max_response_bytes_limit request.max_response_bytes
    then err (invalid_request bad_response_limit)
    else if too_large_body request.body
    then err (invalid_request body_too_large)
    else if ltb max_request_headers (length request.headers)
        || ltb max_request_header_bytes (header_bytes 0 request.headers)
    then err (invalid_request too_many_headers)
    else ok tt

-- `validate_credential_injection_limits`, for an `authorization` value.
unfoldable pub validate_credential_injection_limits :
    HttpRequest → Text → Result (Unit {0}) HttpExecutionError
unfolding header_bytes byte_len saturating_add
validate_credential_injection_limits request authorization =
    let total =
      header_bytes (saturating_add (byte_len (codes "authorization")) (byte_len authorization))
        request.headers in
    if leb max_request_headers (length request.headers) || ltb max_request_header_bytes total
    then err (invalid_request headers_with_credential)
    else ok tt

-- The test of `authorized_target` on a permission.
unfoldable pub permits : Text → ℕ → Text → Text → HttpPermission → Bool
unfolding text_discrete contains url_path_matches_prefix
permits host port method path permission =
    same_text permission.host host
    && permission.port == port
    && contains method permission.methods
    && any (λ prefix. url_path_matches_prefix path prefix) permission.path_prefixes

-- `Iterator::filter`.
abbrev pub filter {ℓ} : {A : Type ℓ} → (A → Bool) → List A → List A
filter p [] = []
filter p (x ∷ xs) = let rest = filter p xs in if p x then x ∷ rest else rest

abbrev pub may_use : List Text → Option Text → Bool
may_use granted none = true
may_use granted (some name) = contains name granted

-- `authorized_target` from the matching permissions on.
unfoldable pub select_permission :
    List HttpPermission
    → List Text
    → Text
    → ℕ
    → Result (Text × ℕ × HttpPermission) HttpExecutionError
unfolding text_discrete contains capability credential_capability
select_permission [] granted host port = err (denied outside_allowlist)
select_permission (permission ∷ others) granted host port =
    if any (λ other. not (same_credential other.credential permission.credential)) others
    then err (denied conflicting_permissions)
    else if not (contains (codes "http.request") granted)
        || not (contains (capability permission) granted)
    then err (denied target_not_granted)
    else if not (may_use granted (credential_capability permission))
    then err (denied credential_not_granted)
    else ok (host, port, permission)

-- `authorized_target` from the host on.
abbrev pub target_of :
    Url
    → Text
    → List HttpPermission
    → List Text
    → Option Host
    → Option ℕ
    → Result (Text × ℕ × HttpPermission) HttpExecutionError
target_of url method permissions granted none _ = err (denied ip_literal_target)
target_of url method permissions granted (some ip_literal) _ = err (denied ip_literal_target)
target_of url method permissions granted (some (domain host)) none = err (invalid_request no_port)
target_of url method permissions granted (some (domain host)) (some port) =
    select_permission (filter (permits host port method url.path) permissions) granted host port

unfoldable pub authorized_target :
    Url
    → Text
    → List HttpPermission
    → List Text
    → Result (Text × ℕ × HttpPermission) HttpExecutionError
unfolding text_discrete select_permission permits
authorized_target url method permissions granted =
    if not (same_text url.scheme (codes "https"))
      || not (is_empty url.username)
      || is_some url.password
      || is_some url.fragment
    then err (denied not_plain_https)
    else target_of url method permissions granted url.host url.port_or_known_default

abbrev host_controlled : List Text
host_controlled =
    codes "authorization"
    ∷ codes "connection"
    ∷ codes "content-length"
    ∷ codes "cookie"
    ∷ codes "host"
    ∷ codes "proxy-authorization"
    ∷ codes "proxy-connection"
    ∷ codes "te"
    ∷ codes "trailer"
    ∷ codes "transfer-encoding"
    ∷ codes "upgrade"
    ∷ []

unfoldable pub validate_request_header : Text → Result (Unit {0}) HttpExecutionError
unfolding contains lower
validate_request_header name =
    if contains (to_ascii_lowercase name) host_controlled then err (denied host_header) else ok tt
