-- ===== src/Http/Examples.antt =====
-- Requests of plugins, and the theorems about them at concrete inputs.
use bro_know_my_qqbot.Prelude.{
  ℕ, ◌≤◌, ◌*◌, ◌≡◌, ◌≢◌, refl, Bool, true, false, not, ◌↔◌, Option, none, some, [], ◌∷◌, List,
  Result, ok, err, arith, All, any, length, saturating_add,
}
use bro_know_my_qqbot.Prelude.Text.{
  Text, codes, text_discrete, split, strip_prefix, byte_len, len_utf8, lower,
}
use bro_know_my_qqbot.Prelude.Map
use bro_know_my_qqbot.Permission.{
  HttpPermission, ends_with, strip_suffix, contains, capability, credential_capability,
  is_valid_http_credential_name, url_path_matches_prefix, has_dns_suffix,
  validate_public_host_and_paths, validate_permission, http_permissions_have_credential_conflict,
  validate_each, validate_pairs, validate_http_permissions,
}
use bro_know_my_qqbot.Http.{
  Url, domain, HttpExecutionError, HttpRequest, header_bytes, validate_request_limits,
  validate_credential_injection_limits, permits, select_permission, authorized_target,
  validate_request_header, denied, conflicting_permissions, non_public_address, redirect_limit,
}
use bro_know_my_qqbot.Http.Address.{
  Ipv4Addr, v4, v6, is_public_ip, is_public_ipv4, is_public_ipv6, is_public_segments, to_ipv4,
  resolve_public_addresses,
}
use bro_know_my_qqbot.Http.Targets.{validated_undisputed}
use bro_know_my_qqbot.Http.Authorized.{IsAuthorized, authorized_target-IsAuthorized}
use bro_know_my_qqbot.Http.Execute.{
  Network, Response, HttpResponse, Sent, answered, check_headers, bearer_authorization_value,
  authorization_of, addresses_of, on_time, prepare, read_body, collect_headers, response_headers,
  read_response, redirect_of, next_url, rounds, execute,
}
use bro_know_my_qqbot.Http.Sends.{IsAllowed, execute-IsAllowed}
use bro_know_my_qqbot.Http.Blocks.{
  IsOctets, number, in_block, reserved_blocks, is_public_ipv4_lem, embedded, is_public_ip-embedded,
}
use bro_know_my_qqbot.Http.Bounds.{IsLimited, validate_request_limits_lem, read_response-bounded}

program : Unit {0}
unfolding ends_with strip_suffix contains capability credential_capability
    is_valid_http_credential_name url_path_matches_prefix has_dns_suffix
    validate_public_host_and_paths validate_permission http_permissions_have_credential_conflict
    validate_each validate_pairs validate_http_permissions text_discrete split strip_prefix byte_len
    len_utf8 lower header_bytes validate_request_limits validate_credential_injection_limits permits
    select_permission authorized_target validate_request_header is_public_ip is_public_ipv4
    is_public_ipv6 is_public_segments to_ipv4 resolve_public_addresses check_headers
    bearer_authorization_value authorization_of addresses_of on_time prepare read_body
    collect_headers response_headers read_response redirect_of next_url rounds execute Map.get
    Map.insert saturating_add
program = tt

abbrev host : Text
host = codes "a.io"

abbrev permission : HttpPermission
permission = record {
  host = host;
  port = 443;
  methods = codes "GET" ∷ [];
  path_prefixes = codes "/v1/" ∷ [];
  credential = some (codes "k");
}

abbrev granted : List Text
granted = codes "http.request" ∷ codes "http.host.a.io:443" ∷ codes "http.credential.k" ∷ []

abbrev url_at : Text → Url
url_at path = record {
  scheme = codes "https";
  username = [];
  password = none;
  fragment = none;
  host = some (domain host);
  port_or_known_default = some 443;
  path = path;
}

abbrev url : Url
url = url_at (codes "/v1/x")

permission_valid : validate_http_permissions some (permission ∷ []) ≡ ok tt
unfolding program
permission_valid = refl

validated_undisputed_example :
    authorized_target url (codes "GET") (permission ∷ []) granted
    ≢ err (denied conflicting_permissions)
validated_undisputed_example =
    validated_undisputed some (permission ∷ []) url (codes "GET") granted permission_valid

url_authorized :
    authorized_target url (codes "GET") (permission ∷ []) granted ≡ ok (host, 443, permission)
unfolding program
url_authorized = refl

authorized_target-IsAuthorized_example :
    IsAuthorized url (codes "GET") (permission ∷ []) granted host 443 permission
authorized_target-IsAuthorized_example =
    authorized_target-IsAuthorized url (codes "GET") (permission ∷ []) granted host 443 permission
      url_authorized

abbrev request : HttpRequest
request = record {
  method = codes "GET";
  url = codes "https://a.io/v1/x";
  headers = (codes "accept", codes "*") ∷ [];
  body = none;
  timeout_ms = 1000;
  max_response_bytes = 4;
}

abbrev page : Bool → List (Option (List ℕ)) → Response
page redirects chunks = record {
  status = 200;
  is_redirection = redirects;
  location = some (some (codes "/v1/y"));
  content_length = none;
  headers = [];
  final_url = codes "https://a.io/v1/x";
  chunks = chunks;
}

-- The server redirects every request.
abbrev network : Ipv4Addr → Network
network address = record {
  parse_method = some;
  parse_url = λ t. some url;
  join = λ u t. some (url_at t);
  is_header_name = λ t. true;
  is_header_value = λ t. true;
  late_before = λ n. false;
  late_after = λ n. false;
  lookup_host = λ n h p. answered (some (v4 address ∷ []));
  send = λ n s. some (page true []);
}

abbrev public_address : Ipv4Addr
public_address = record { a = 8; b = 8; c = 4; d = 4 }

abbrev private_address : Ipv4Addr
private_address = record { a = 192; b = 168; c = 0; d = 1 }

abbrev credentials : List (Text × Text)
credentials = (codes "k", codes "s") ∷ []

abbrev run_at : Ipv4Addr → List Sent × Result HttpResponse HttpExecutionError
run_at address = execute (network address) credentials (permission ∷ []) granted request

execute-IsAllowed_example :
    All
      (IsAllowed credentials (permission ∷ []) granted)
      (execute (network public_address) credentials (permission ∷ []) granted request).0
    × (length (execute (network public_address) credentials (permission ∷ []) granted request).0
        ≤ 4)
execute-IsAllowed_example =
    execute-IsAllowed (network public_address) credentials (permission ∷ []) granted request

four_sent : length (run_at public_address).0 ≡ 4
unfolding program
four_sent = refl

redirects_end : (run_at public_address).1 ≡ err (denied redirect_limit)
unfolding program
redirects_end = refl

private_refused : run_at private_address ≡ ([], err non_public_address)
unfolding program
private_refused = refl

public_address-IsOctets : IsOctets public_address
public_address-IsOctets = record {
  a_small = omega arith;
  b_small = omega arith;
  c_small = omega arith;
  d_small = omega arith;
}

is_public_ipv4_lem_example :
    is_public_ipv4 public_address ≡ not (any (in_block (number public_address)) reserved_blocks)
is_public_ipv4_lem_example = is_public_ipv4_lem public_address public_address-IsOctets

is_public_ip-embedded_example :
    (is_public_ip (v6 (embedded 0xffff public_address)) ≡ is_public_ip (v4 public_address))
    × (is_public_ip (v6 (embedded 0 public_address)) ≡ is_public_ip (v4 public_address))
is_public_ip-embedded_example = is_public_ip-embedded public_address public_address-IsOctets

validate_request_limits_lem_example : (validate_request_limits request ≡ ok tt) ↔ IsLimited request
validate_request_limits_lem_example = validate_request_limits_lem request

abbrev answer : HttpResponse
answer = record {
  status = 200;
  final_url = codes "https://a.io/v1/x";
  headers = [];
  body = 1 ∷ 2 ∷ 3 ∷ [];
}

answer_read :
    read_response request (page false (some (1 ∷ 2 ∷ []) ∷ some (3 ∷ []) ∷ [])) ≡ ok answer
unfolding program
answer_read = refl

read_response-bounded_example :
    (length answer.body ≤ request.max_response_bytes)
    × (length answer.body ≤ 1024 * 1024)
    × (length answer.headers ≤ 64)
read_response-bounded_example =
    read_response-bounded request (page false (some (1 ∷ 2 ∷ []) ∷ some (3 ∷ []) ∷ [])) answer
      answer_read
