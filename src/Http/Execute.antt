-- ===== src/Http/Execute.antt =====
-- Models `SecureHttpExecutor::execute` of crates/plugin-host/src/http.rs: the loop over redirects.
-- What the clock, DNS, the HTTP client and the url and header syntaxes answer, in each round, are
-- the arguments of a `Network`. The requests that are sent are recorded in order.
use bro_know_my_qqbot.Prelude.{
  ℕ, zero, suc, Bool, true, false, not, ◌&&◌, ◌||◌, Option, none, some, List, [], ◌∷◌, ◌++◌, ltb,
  if◌then◌else◌, Result, ok, err, ◌>>◌, ◌>>=◌, length, saturating_add,
}
use bro_know_my_qqbot.Prelude.Text.{Text, codes, text_discrete, same_text, byte_len}
use bro_know_my_qqbot.Prelude.Map
use bro_know_my_qqbot.Permission.{HttpPermission}
use bro_know_my_qqbot.Http.{
  Url, HttpRequest, HttpExecutionError, invalid_request, denied, transport, response_too_large,
  bad_header, bad_method, bad_url, credential_unavailable, bad_credential_value, redirect_limit,
  bad_location, timed_out, send_failed, authorized_target, validate_request_header,
  validate_credential_injection_limits, validate_request_limits, max_redirects,
  max_response_bytes_limit, max_response_headers, max_response_header_bytes,
}
use bro_know_my_qqbot.Http.Address.{IpAddr, resolve_public_addresses}

-- A header of a response: its name, the length of its value in bytes, and the value if it is text.
pub record ResponseHeader : Type 0 where
  pub name : Text
  pub value_bytes : ℕ
  pub text : Option Text

-- The `location` is present, with its text if it has one; a chunk that fails is `none`.
pub record Response : Type 0 where
  pub status : ℕ
  pub is_redirection : Bool
  pub location : Option (Option Text)
  pub content_length : Option ℕ
  pub headers : List ResponseHeader
  pub final_url : Text
  pub chunks : List (Option (List ℕ))

pub record HttpResponse : Type 0 where
  pub status : ℕ
  pub final_url : Text
  pub headers : List (Text × Text)
  pub body : List ℕ

-- A request as the client sends it, with the only addresses that it may connect to.
pub record Sent : Type 0 where
  pub url : Url
  pub method : Text
  pub host : Text
  pub port : ℕ
  pub addresses : List IpAddr
  pub headers : List (Text × Text)
  pub authorization : Option Text
  pub body : Option (List ℕ)

-- What the lookup of a round answers within the time that is left.
pub data Lookup : Type 0 where
  lookup_timed_out : Lookup
  answered : Option (List IpAddr) → Lookup

pub record Network : Type 0 where
  pub parse_method : Text → Option Text
  pub parse_url : Text → Option Url
  pub join : Url → Text → Option Url
  pub is_header_name : Text → Bool
  pub is_header_value : Text → Bool
  pub late_before : ℕ → Bool
  pub late_after : ℕ → Bool
  pub lookup_host : ℕ → Text → ℕ → Lookup
  pub send : ℕ → Sent → Option Response

-- The loop over the headers of a request.
unfoldable pub check_headers : Network → List (Text × Text) → Result (Unit {0}) HttpExecutionError
unfolding validate_request_header
check_headers network [] = ok tt
check_headers network ((name, value) ∷ headers) =
    validate_request_header name
    >> (if not (network.is_header_name name) || not (network.is_header_value value)
        then err (invalid_request bad_header)
        else check_headers network headers)

-- `bearer_authorization_value`.
unfoldable pub bearer_authorization_value :
    Network → List (Text × Text) → Text → Result Text HttpExecutionError
unfolding Map.get text_discrete
bearer_authorization_value network credentials credential =
    elim (Map.get text_discrete credential credentials) [
      | none ↦ err (denied credential_unavailable)
      | some secret ↦
          let value : Text = codes "Bearer " ++ secret in
          if network.is_header_value value
          then ok value
          else err (invalid_request bad_credential_value)
    ]

-- The `authorization` header of a round.
unfoldable pub authorization_of :
    Network
    → List (Text × Text)
    → HttpRequest
    → Option Text
    → Result (Option Text) HttpExecutionError
unfolding bearer_authorization_value validate_credential_injection_limits
authorization_of network credentials request none = ok none
authorization_of network credentials request (some credential) =
    bearer_authorization_value network credentials credential >>= λ value.
    validate_credential_injection_limits request value >> ok (some value)

-- What the lookup of a round gives.
unfoldable pub addresses_of : Lookup → Result (List IpAddr) HttpExecutionError
unfolding resolve_public_addresses
addresses_of lookup_timed_out = err (transport timed_out)
addresses_of (answered found) = resolve_public_addresses found

unfoldable pub on_time : Bool → Result (Unit {0}) HttpExecutionError
on_time late = if late then err (transport timed_out) else ok tt

module _ (network : Network) (credentials : List (Text × Text)) (permissions : List HttpPermission)
    (granted : List Text) (request : HttpRequest) (method : Text) where
  -- A round, up to the request that it sends.
  unfoldable pub prepare : ℕ → Url → Result Sent HttpExecutionError
  unfolding on_time authorized_target addresses_of check_headers authorization_of
  prepare round url = do
    on_time (network.late_before round)
    (host, port, permission) ← authorized_target url method permissions granted
    addresses ← addresses_of (network.lookup_host round host port)
    on_time (network.late_after round)
    check_headers network request.headers
    authorization ← authorization_of network credentials request permission.credential
    ok (record {
      url = url;
      method = method;
      host = host;
      port = port;
      addresses = addresses;
      headers = request.headers;
      authorization = authorization;
      body = request.body;
    })

-- The loop over the chunks of the body.
unfoldable pub read_body : ℕ → List ℕ → List (Option (List ℕ)) → Result (List ℕ) HttpExecutionError
unfolding saturating_add
read_body limit body [] = ok body
read_body limit body (none ∷ chunks) = err (transport send_failed)
read_body limit body (some chunk ∷ chunks) =
    let rest = read_body limit (body ++ chunk) chunks in
    if ltb limit (saturating_add (length body) (length chunk)) then err response_too_large else rest

-- The value is kept if it is text.
abbrev pub add_header : ResponseHeader → List (Text × Text) → List (Text × Text)
add_header header headers = elim header.text [
  | none ↦ headers
  | some value ↦ Map.insert text_discrete header.name value headers
]

-- The loop of `response_headers`.
unfoldable pub collect_headers :
    ℕ → List (Text × Text) → List ResponseHeader → Result (List (Text × Text)) HttpExecutionError
unfolding saturating_add byte_len Map.insert text_discrete
collect_headers total headers [] = ok headers
collect_headers total headers (header ∷ source) =
    let total' : ℕ =
      saturating_add (saturating_add total (byte_len header.name)) header.value_bytes in
    let rest = collect_headers total' (add_header header headers) source in
    if ltb max_response_header_bytes total' then err response_too_large else rest

unfoldable pub response_headers :
    List ResponseHeader → Result (List (Text × Text)) HttpExecutionError
unfolding collect_headers
response_headers source =
    if ltb max_response_headers (length source)
    then err response_too_large
    else collect_headers 0 [] source

abbrev pub smaller : ℕ → ℕ → ℕ
smaller a b = if ltb b a then b else a

abbrev pub too_long : ℕ → Option ℕ → Bool
too_long limit none = false
too_long limit (some n) = ltb limit n

-- The end of `execute`, for the response of the last round.
unfoldable pub read_response : HttpRequest → Response → Result HttpResponse HttpExecutionError
unfolding response_headers read_body
read_response request response =
    let limit : ℕ = smaller request.max_response_bytes max_response_bytes_limit in
    if too_long limit response.content_length
    then err response_too_large
    else response_headers response.headers >>= λ headers.
        read_body limit [] response.chunks >>= λ body. ok (record {
          status = response.status;
          final_url = response.final_url;
          headers = headers;
          body = body;
        })

-- The redirect of a response, if its method is to follow one.
unfoldable pub redirect_of : Text → Response → Option (Option Text)
unfolding text_discrete
redirect_of method response =
    if (same_text method (codes "GET") || same_text method (codes "HEAD"))
      && response.is_redirection
    then response.location
    else none

-- The URL of the next round.
unfoldable pub next_url : Network → Url → Option Text → Result Url HttpExecutionError
next_url network url none = err (invalid_request bad_location)
next_url network url (some location) = elim (network.join url location) [
  | none ↦ err (invalid_request bad_url)
  | some next ↦ ok next
]

module _ (network : Network) (credentials : List (Text × Text)) (permissions : List HttpPermission)
    (granted : List Text) (request : HttpRequest) (method : Text) where
  -- After the answer to a request: the rest of the loop is `continue`.
  abbrev pub after_send :
      Url
      → (Url → List Sent × Result HttpResponse HttpExecutionError)
      → Bool
      → Option Response
      → List Sent × Result HttpResponse HttpExecutionError
  after_send url continue may_follow none = ([], err (transport send_failed))
  after_send url continue may_follow (some response) = elim (redirect_of method response) [
    | none ↦ ([], read_response request response)
    | some location ↦
        if not may_follow
        then ([], err (denied redirect_limit))
        else elim (next_url network url location) [ err e ↦ ([], err e) | ok next ↦ continue next ]
  ]

  abbrev pub send_prepared :
      ℕ
      → Url
      → (Url → List Sent × Result HttpResponse HttpExecutionError)
      → Bool
      → Result Sent HttpExecutionError
      → List Sent × Result HttpResponse HttpExecutionError
  send_prepared round url continue may_follow (err e) = ([], err e)
  send_prepared round url continue may_follow (ok sent) =
      let (later, answer) = after_send url continue may_follow (network.send round sent) in
      (sent ∷ later, answer)

  -- The loop, with the number of redirects that it still follows.
  unfoldable pub rounds : ℕ → ℕ → Url → List Sent × Result HttpResponse HttpExecutionError
  unfolding prepare redirect_of read_response next_url
  rounds zero round url =
      send_prepared round url (λ next. ([], err (denied redirect_limit))) false
        (prepare network credentials permissions granted request method round url)
  rounds (suc left) round url =
      send_prepared round url (rounds left (suc round)) true
        (prepare network credentials permissions granted request method round url)

unfoldable pub execute :
    Network
    → List (Text × Text)
    → List HttpPermission
    → List Text
    → HttpRequest
    → List Sent × Result HttpResponse HttpExecutionError
unfolding rounds validate_request_limits
execute network credentials permissions granted request = elim (validate_request_limits request) [
  | err e ↦ ([], err e)
  | ok _ ↦ elim (network.parse_method request.method) [
    | none ↦ ([], err (invalid_request bad_method))
    | some method ↦ elim (network.parse_url request.url) [
      | none ↦ ([], err (invalid_request bad_url))
      | some url ↦ rounds network credentials permissions granted request method max_redirects 0 url
    ]
  ]
]
