-- ===== src/Http/Sends.antt =====
-- The requests that `execute` sends are allowed, and they are few.
use bro_know_my_qqbot.Prelude.{
  ℕ, zero, suc, ◌≤◌, ◌≡◌, refl, ap, subst, inl, inr, Bool, true, false, not, Option, none, some,
  List, [], ◌∷◌, ◌++◌, arith, ltb, if◌then◌else◌, any, All, any-All, All-map, length, take,
  Bool-cases, Option-cases, Result, ok, err, Result-cases, ◌>>◌, bind-ok,
}
use bro_know_my_qqbot.Prelude.Text.{
  Text, codes, text_discrete, same_text, to_ascii_lowercase, is_empty,
}
use bro_know_my_qqbot.Prelude.Map
use bro_know_my_qqbot.Permission.{HttpPermission, contains}
use bro_know_my_qqbot.Http.{
  Url, HttpRequest, HttpExecutionError, denied, redirect_limit, authorized_target,
  validate_request_header, validate_credential_injection_limits, validate_request_limits,
  max_redirects, dns, no_addresses, too_many_addresses, non_public_address,
}
use bro_know_my_qqbot.Http.Address.{IpAddr, is_public_ip, resolve_public_addresses}
use bro_know_my_qqbot.Http.Authorized.{IsAuthorized, authorized_target-IsAuthorized}
use bro_know_my_qqbot.Http.Execute.{
  Network, Response, HttpResponse, Sent, Lookup, lookup_timed_out, answered, on_time, addresses_of,
  check_headers, bearer_authorization_value, authorization_of, prepare, redirect_of, next_url,
  after_send, send_prepared, rounds, execute,
}

-- One to sixteen addresses, all of them public.
pub record IsPublic (addresses : List IpAddr) : Type 0 where
  pub public : All (λ address. is_public_ip address ≡ true) addresses
  pub present : 1 ≤ length addresses
  pub few : length addresses ≤ 16

-- The `authorization` is the bearer token of the credential that the permission names, if any.
abbrev pub IsBearer : List (Text × Text) → Option Text → Option Text → Type 0
IsBearer credentials none authorization = authorization ≡ none
IsBearer credentials (some credential) authorization =
    (secret : Text) × (Map.get text_discrete credential credentials ≡ some secret)
    × (authorization ≡ some (codes "Bearer " ++ secret))

-- The names that no plugin may set, in lower case.
abbrev pub host_names : List Text
host_names =
    codes "host"
    ∷ codes "authorization"
    ∷ codes "cookie"
    ∷ codes "connection"
    ∷ codes "content-length"
    ∷ codes "transfer-encoding"
    ∷ codes "te"
    ∷ codes "trailer"
    ∷ codes "upgrade"
    ∷ codes "proxy-authorization"
    ∷ codes "proxy-connection"
    ∷ []

-- The request goes to an authorized target over public addresses, carries the token of the
-- permission that authorizes it and no other, and no header that the host controls.
pub record IsAllowed (credentials : List (Text × Text)) (permissions : List HttpPermission)
    (granted : List Text) (sent : Sent) : Type 0 where
  pub permission : HttpPermission
  pub authorized :
      IsAuthorized sent.url sent.method permissions granted sent.host sent.port permission
  pub addresses : IsPublic sent.addresses
  pub bearer : IsBearer credentials permission.credential sent.authorization
  pub headers : All (λ h. any (same_text (to_ascii_lowercase h.0)) host_names ≡ false) sent.headers

header_allowed :
    (name : Text)
    → validate_request_header name ≡ ok tt
    → any (same_text (to_ascii_lowercase name)) host_names ≡ false
unfolding validate_request_header contains
header_allowed name h = ground arith

ok-injective {ℓ} : {A E : Type ℓ} {a b : A} → Path (Result A E) (ok a) (ok b) → a ≡ b
ok-injective h = ground arith

no_private : (address : IpAddr) → not (is_public_ip address) ≡ false → is_public_ip address ≡ true
no_private address h = ground arith

present-length {ℓ} : {A : Type ℓ} (xs : List A) → is_empty xs ≡ false → 1 ≤ length xs
present-length [] h = cc
present-length (x ∷ xs) h = omega arith

-- Of three tests before an answer.
tests_passed {ℓ} :
    {A E : Type ℓ} (x y z : E) (a b c : Bool) (answer result : A)
    → Path
        (Result A E)
        (if a then err x else if b then err y else if c then err z else ok answer)
        (ok result)
    → (a ≡ false) × (b ≡ false) × (c ≡ false) × (answer ≡ result)
tests_passed x y z true b c answer result h = cc
tests_passed x y z false true c answer result h = cc
tests_passed x y z false false true answer result h = cc
tests_passed x y z false false false answer result h = (refl, refl, refl, ground arith)

few-length : (n : ℕ) → ltb 16 n ≡ false → n ≤ 16
few-length n h = ground arith

resolved-IsPublic :
    (found : Option (List IpAddr)) (addresses : List IpAddr)
    → resolve_public_addresses found ≡ ok addresses
    → IsPublic addresses
unfolding resolve_public_addresses
resolved-IsPublic none addresses h = cc
resolved-IsPublic (some found) addresses h =
    let xs : List IpAddr = take 17 found in
    let private : IpAddr → Bool = λ a. not (is_public_ip a) in
    let (e, l, p, same) =
      tests_passed (dns no_addresses) (dns too_many_addresses) non_public_address (is_empty xs)
        (ltb 16 (length xs)) (any private xs) xs addresses h in
    subst IsPublic same (record {
      public =
          All-map (λ a. private a ≡ false) (λ a. is_public_ip a ≡ true) xs no_private
            (any-All private xs p);
      present = present-length xs e;
      few = few-length (length xs) l;
    })

addresses-IsPublic :
    (lookup : Lookup) (addresses : List IpAddr)
    → addresses_of lookup ≡ ok addresses
    → IsPublic addresses
unfolding addresses_of
addresses-IsPublic lookup_timed_out addresses h = cc
addresses-IsPublic (answered found) addresses h = resolved-IsPublic found addresses h

module _ (network : Network) (credentials : List (Text × Text)) (request : HttpRequest) where
  value-IsBearer :
      (credential value : Text)
      → bearer_authorization_value network credentials credential ≡ ok value
      → IsBearer credentials (some credential) (some value)
  unfolding bearer_authorization_value
  value-IsBearer credential value h =
      elim (Option-cases (Map.get text_discrete credential credentials)) [
        | inl e ↦ absurd (let f = rw (e, bearer_authorization_value) at h in cc)
        | inr (secret, e) ↦
            (secret, e, ap some (let f = rw (e, bearer_authorization_value) at h in ground arith))
      ]

  authorization-IsBearer :
      (credential authorization : Option Text)
      → authorization_of network credentials request credential ≡ ok authorization
      → IsBearer credentials credential authorization
  unfolding authorization_of
  authorization-IsBearer none authorization h = ground arith
  authorization-IsBearer (some credential) authorization h =
      let (value, e, f) =
        bind-ok (bearer_authorization_value network credentials credential)
          (λ value. validate_credential_injection_limits request value >> ok (some value))
          authorization h in
      let (_, _, g) =
        bind-ok (validate_credential_injection_limits request value) (λ _. ok (some value))
          authorization f in
      let same : some value ≡ authorization = ground arith in
      subst (IsBearer credentials (some credential)) same (value-IsBearer credential value e)

  checked_headers :
      (headers : List (Text × Text))
      → check_headers network headers ≡ ok tt
      → All (λ h. any (same_text (to_ascii_lowercase h.0)) host_names ≡ false) headers
  unfolding check_headers
  checked_headers [] h = tt
  checked_headers ((name, value) ∷ headers) h =
      let first : validate_request_header name ≡ ok tt = ground arith in
      (header_allowed name first, checked_headers headers (ground arith))

module _ (network : Network) (credentials : List (Text × Text)) (permissions : List HttpPermission)
    (granted : List Text) (request : HttpRequest) (method : Text) where
  prepare-IsAllowed :
      (round : ℕ) (url : Url) (sent : Sent)
      → prepare network credentials permissions granted request method round url ≡ ok sent
      → IsAllowed credentials permissions granted sent
  unfolding prepare
  prepare-IsAllowed round url sent h =
      let (_, _, h1) = bind-ok (on_time (network.late_before round)) _ sent h in
      let ((host, port, permission), target, h2) =
        bind-ok (authorized_target url method permissions granted) _ sent h1 in
      let (addresses, resolved, h3) =
        bind-ok (addresses_of (network.lookup_host round host port)) _ sent h2 in
      let (_, _, h4) = bind-ok (on_time (network.late_after round)) _ sent h3 in
      let (_, checked, h5) = bind-ok (check_headers network request.headers) _ sent h4 in
      let (authorization, bearer, h6) =
        bind-ok (authorization_of network credentials request permission.credential) _ sent h5 in
      subst (IsAllowed credentials permissions granted) (ok-injective h6) (record {
        permission = permission;
        authorized =
            authorized_target-IsAuthorized url method permissions granted host port permission
              target;
        addresses = addresses-IsPublic (network.lookup_host round host port) addresses resolved;
        bearer =
            authorization-IsBearer network credentials request permission.credential authorization
              bearer;
        headers = checked_headers network credentials request request.headers checked;
      })

  -- Every request of a run is allowed, and each but the first follows one redirect.
  record AllAllowed (few : ℕ) (sent : List Sent) : Type 0 where
    each : All (IsAllowed credentials permissions granted) sent
    bounded : length sent ≤ few

  none_sent : (few : ℕ) → AllAllowed few []
  none_sent few = record { each = tt; bounded = omega arith }

  after-AllAllowed :
      (few : ℕ) (url : Url) (continue : Url → List Sent × Result HttpResponse HttpExecutionError)
      (may_follow : Bool) (response : Option Response)
      → ((next : Url) → AllAllowed few (continue next).0)
      → AllAllowed few
          (after_send network credentials permissions granted request method url continue may_follow
            response).0
  after-AllAllowed few url continue may_follow none f = none_sent few
  after-AllAllowed few url continue may_follow (some response) f =
      elim (Option-cases (redirect_of method response)) [
        | inl e ↦ rw (e, after_send) (none_sent few)
        | inr (location, e) ↦ elim (Bool-cases may_follow) [
          | inr n ↦ rw (e, n, after_send) (none_sent few)
          | inl y ↦ elim (Result-cases (next_url network url location)) [
            | inl (next, q) ↦ rw (e, y, q, after_send) (f next)
            | inr (x, q) ↦ rw (e, y, q, after_send) (none_sent few)
          ]
        ]
      ]

  send-AllAllowed :
      (few round : ℕ) (url : Url)
      (continue : Url → List Sent × Result HttpResponse HttpExecutionError) (may_follow : Bool)
      (prepared : Result Sent HttpExecutionError)
      → prepare network credentials permissions granted request method round url ≡ prepared
      → ((next : Url) → AllAllowed few (continue next).0)
      → AllAllowed
          (suc few)
          (send_prepared network credentials permissions granted request method round url continue
            may_follow prepared).0
  send-AllAllowed few round url continue may_follow (err e) p f = none_sent (suc few)
  send-AllAllowed few round url continue may_follow (ok sent) p f =
      let later = after-AllAllowed few url continue may_follow (network.send round sent) f in
      record {
        each = (prepare-IsAllowed round url sent p, later.each);
        bounded = omega (arith, later.bounded);
      }

  rounds-AllAllowed :
      (left round : ℕ) (url : Url)
      → AllAllowed
          (suc left)
          (rounds network credentials permissions granted request method left round url).0
  unfolding rounds
  rounds-AllAllowed zero round url =
      send-AllAllowed zero round url (λ next. ([], err (denied redirect_limit))) false
        (prepare network credentials permissions granted request method round url) refl
        (λ next. none_sent zero)
  rounds-AllAllowed (suc left) round url =
      send-AllAllowed (suc left) round url
        (rounds network credentials permissions granted request method left (suc round)) true
        (prepare network credentials permissions granted request method round url) refl
        (rounds-AllAllowed left (suc round))

-- Whatever the clock, DNS, the client and the parsers answer: `execute` ends after at most four
-- requests. Each of them, redirects included, goes to a target that `authorized_target` allows
-- with the permission of the plugin that it names, over one to sixteen addresses that are all
-- public; it carries the bearer token of this permission's credential, or none if the permission
-- names none, and no header whose name, in any case, is one of the eleven that the host controls.
pub execute-IsAllowed :
    (network : Network) (credentials : List (Text × Text)) (permissions : List HttpPermission)
    (granted : List Text) (request : HttpRequest)
    → All
        (IsAllowed credentials permissions granted)
        (execute network credentials permissions granted request).0
      × (length (execute network credentials permissions granted request).0 ≤ 4)
unfolding execute
execute-IsAllowed network credentials permissions granted request =
    elim (Result-cases (validate_request_limits request)) [
      | inr (x, e) ↦ rw (e, execute) (tt, omega arith)
      | inl (_, e) ↦ elim (Option-cases (network.parse_method request.method)) [
        | inl m ↦ rw (e, m, execute) (tt, omega arith)
        | inr (method, m) ↦ elim (Option-cases (network.parse_url request.url)) [
          | inl u ↦ rw (e, m, u, execute) (tt, omega arith)
          | inr (url, u) ↦
              let all =
                rounds-AllAllowed network credentials permissions granted request method
                  max_redirects 0 url in
              rw (e, m, u, execute) (all.each, all.bounded)
        ]
      ]
    ]
