-- ===== src/Http/Bounds.antt =====
-- The limits on the requests and the responses of plugins.
use bro_know_my_qqbot.Prelude.{
  ℕ, ◌+◌, ◌*◌, ◌≤◌, ◌<◌, ◌≡◌, refl, ap, sym, ◌↔◌, inl, inr, Bool, true, false, ◌||◌, Option, none,
  some, List, [], ◌∷◌, ◌++◌, arith, ltb, ◌==◌, if◌then◌else◌, length, length-append, Bool-cases,
  Option-cases, Result, ok, err, bind-ok, saturating_add, usize_max, saturating_add-eq,
}
use bro_know_my_qqbot.Prelude.Text.{Text, text_discrete, byte_len}
use bro_know_my_qqbot.Prelude.Map.{get, insert, length-insert_absent, length-insert_present}
use bro_know_my_qqbot.Http.{
  HttpRequest, header_bytes, validate_request_limits, max_timeout_ms, max_response_bytes_limit,
  max_request_body_bytes, max_request_headers, max_request_header_bytes, max_response_headers,
  max_response_header_bytes, too_large_body, invalid_request, bad_timeout, bad_response_limit,
  body_too_large, too_many_headers,
}
use bro_know_my_qqbot.Http.Execute.{
  Response, ResponseHeader, HttpResponse, add_header, collect_headers, response_headers, read_body,
  read_response, smaller, too_long,
}

-- The sum of the lengths of the names and the values.
abbrev pub header_sum : List (Text × Text) → ℕ
header_sum [] = 0
header_sum ((name, value) ∷ headers) = byte_len name + byte_len value + header_sum headers

saturated-le : (a b bound : ℕ) → bound < usize_max → (saturating_add a b ≤ bound) ↔ (a + b ≤ bound)
unfolding saturating_add
saturated-le a b bound h = ground arith

-- The fold stays below a bound exactly if the sum does.
header_bytes-le :
    (total bound : ℕ) (headers : List (Text × Text))
    → bound < usize_max
    → (header_bytes total headers ≤ bound) ↔ (total + header_sum headers ≤ bound)
unfolding header_bytes
header_bytes-le total bound [] h = ground arith
header_bytes-le total bound ((name, value) ∷ headers) h =
    let n = byte_len name in
    let v = byte_len value in
    let s = header_sum headers in
    let total' = saturating_add (saturating_add total n) v in
    let deeper = header_bytes-le total' bound headers h in
    let first = saturated-le total n bound h in
    let second = saturated-le (saturating_add total n) v bound h in
    (
      λ k.
          let a : saturating_add (saturating_add total n) v ≤ bound = omega (arith, deeper.0 k) in
          let b : saturating_add total n ≤ bound = omega (arith, second.0 a) in
          let c : total + n ≤ bound = first.0 b in
          let e = saturating_add-eq total n (omega arith) in
          let f = saturating_add-eq (saturating_add total n) v (omega (arith, second.0 a)) in
          omega (arith, deeper.0 k, e, f),
      λ k.
          let e = saturating_add-eq total n (omega arith) in
          let f = saturating_add-eq (saturating_add total n) v (omega (arith, e)) in
          deeper.1 (omega (arith, e, f)),
    )

-- The length of a body, zero without one.
abbrev pub body_length : Option (List ℕ) → ℕ
body_length none = 0
body_length (some body) = length body

-- A request within its limits.
pub record IsLimited (request : HttpRequest) : Type 0 where
  pub some_time : 1 ≤ request.timeout_ms
  pub short : request.timeout_ms ≤ 15000
  pub some_response : 1 ≤ request.max_response_bytes
  pub small_response : request.max_response_bytes ≤ 1024 * 1024
  pub small_body : body_length request.body ≤ 256 * 1024
  pub few_headers : length request.headers ≤ 64
  pub small_headers : header_sum request.headers ≤ 32 * 1024

small_body_iff :
    (body : Option (List ℕ))
    → (too_large_body body ≡ false) ↔ (body_length body ≤ max_request_body_bytes)
small_body_iff none = ground arith
small_body_iff (some body) = ground arith

-- Four tests before an answer without an error.
all_passed :
    {E : Type 0} (w x y z : E) (a b c d : Bool)
    → (Path
        (Result (Unit {0}) E)
        (if a then err w else if b then err x else if c then err y else if d then err z else ok tt)
        (ok tt))
      ↔ ((a ≡ false) × (b ≡ false) × (c ≡ false) × (d ≡ false))
all_passed w x y z true b c d = (λ h. cc, λ h. cc)
all_passed w x y z false true c d = (λ h. cc, λ h. cc)
all_passed w x y z false false true d = (λ h. cc, λ h. cc)
all_passed w x y z false false false true = (λ h. cc, λ h. cc)
all_passed w x y z false false false false = (λ h. (refl, refl, refl, refl), λ h. refl)

within_iff : (n bound : ℕ) → ((n == 0 || ltb bound n) ≡ false) ↔ ((1 ≤ n) × (n ≤ bound))
within_iff n bound = ground arith

below_iff :
    (n m bound bound' : ℕ) → ((ltb bound n || ltb bound' m) ≡ false) ↔ ((n ≤ bound) × (m ≤ bound'))
below_iff n m bound bound' = ground arith

-- A request passes exactly if its timeout is between 1 and 15000 milliseconds, its response limit
-- between 1 byte and 1 MiB, its body at most 256 KiB, its headers at most 64, and their names and
-- values together at most 32 KiB.
pub validate_request_limits_lem :
    (request : HttpRequest) → (validate_request_limits request ≡ ok tt) ↔ IsLimited request
unfolding validate_request_limits
validate_request_limits_lem request =
    let t = request.timeout_ms in
    let r = request.max_response_bytes in
    let n = length request.headers in
    let total = header_bytes 0 request.headers in
    let sums = header_bytes-le 0 max_request_header_bytes request.headers (omega arith) in
    let times = within_iff t max_timeout_ms in
    let responses = within_iff r max_response_bytes_limit in
    let headers = below_iff n total max_request_headers max_request_header_bytes in
    let body = small_body_iff request.body in
    let passed =
      all_passed (invalid_request bad_timeout) (invalid_request bad_response_limit)
        (invalid_request body_too_large) (invalid_request too_many_headers)
        (t == 0 || ltb max_timeout_ms t) (r == 0 || ltb max_response_bytes_limit r)
        (too_large_body request.body)
        (ltb max_request_headers n || ltb max_request_header_bytes total) in
    (
      λ h.
          let p = passed.0 h in
          record {
            some_time = (times.0 p.0).0;
            short = (times.0 p.0).1;
            some_response = (responses.0 p.1).0;
            small_response = (responses.0 p.1).1;
            small_body = body.0 p.2;
            few_headers = (headers.0 p.3).0;
            small_headers = omega (arith, sums.0 (headers.0 p.3).1);
          },
      λ l. passed.1 (
        times.1 (l.some_time, l.short),
        responses.1 (l.some_response, l.small_response),
        body.1 l.small_body,
        headers.1 (l.few_headers, sums.1 (omega (arith, l.small_headers))),
      ),
    )

read_body-bounded :
    (limit : ℕ) (body : List ℕ) (chunks : List (Option (List ℕ))) (result : List ℕ)
    → limit < usize_max
    → length body ≤ limit
    → read_body limit body chunks ≡ ok result
    → length result ≤ limit
unfolding read_body
read_body-bounded limit body [] result m l h = let e : body ≡ result = ground arith in rw (sym e) l
read_body-bounded limit body (none ∷ chunks) result m l h = cc
read_body-bounded limit body (some chunk ∷ chunks) result m l h =
    elim (Bool-cases (ltb limit (saturating_add (length body) (length chunk)))) [
      | inl e ↦ absurd (let f = rw e at h in cc)
      | inr e ↦
          let fits = (saturated-le (length body) (length chunk) limit m).0 (ground arith) in
          read_body-bounded limit (body ++ chunk) chunks result m
            (omega (arith, length-append body chunk, fits)) (rw e at h)
    ]

length-insert-le :
    (k v : Text) (m : List (Text × Text)) → length (insert text_discrete k v m) ≤ length m + 1
length-insert-le k v m = elim (Option-cases (get text_discrete k m)) [
  | inl e ↦ omega (arith, length-insert_absent text_discrete k v m e)
  | inr (w, e) ↦ omega (arith, length-insert_present text_discrete k v w m e)
]

length-add_header-le :
    (header : ResponseHeader) (headers : List (Text × Text))
    → length (add_header header headers) ≤ length headers + 1
length-add_header-le header headers = elim (Option-cases header.text) [
  | inl e ↦ rw e (omega arith)
  | inr (value, e) ↦ rw e (length-insert-le header.name value headers)
]

collect_headers-bounded :
    (total : ℕ) (headers : List (Text × Text)) (source : List ResponseHeader)
    (result : List (Text × Text))
    → collect_headers total headers source ≡ ok result
    → length result ≤ length headers + length source
unfolding collect_headers
collect_headers-bounded total headers [] result h = ground arith
collect_headers-bounded total headers (header ∷ source) result h =
    let total' : ℕ =
      saturating_add (saturating_add total (byte_len header.name)) header.value_bytes in
    elim (Bool-cases (ltb max_response_header_bytes total')) [
      | inl e ↦ absurd (let f = rw e at h in cc)
      | inr e ↦ omega (
        arith,
        collect_headers-bounded total' (add_header header headers) source result (rw e at h),
        length-add_header-le header headers,
      )
    ]

smaller-le : (a b : ℕ) → (smaller a b ≤ a) × (smaller a b ≤ b)
smaller-le a b = ground arith

collected :
    (source : List ResponseHeader) (result : List (Text × Text))
    → response_headers source ≡ ok result
    → length result ≤ 64
unfolding response_headers
collected source result h = elim (Bool-cases (ltb max_response_headers (length source))) [
  | inl e ↦ absurd (let f = rw e at h in cc)
  | inr e ↦ ground (arith, collect_headers-bounded 0 [] source result (rw e at h))
]

-- A response that is returned has a body of at most the limit of the request and of at most 1 MiB,
-- whatever length the server declared and however it cut the body into chunks, and at most 64
-- headers.
pub read_response-bounded :
    (request : HttpRequest) (response : Response) (result : HttpResponse)
    → read_response request response ≡ ok result
    → (length result.body ≤ request.max_response_bytes)
      × (length result.body ≤ 1024 * 1024)
      × (length result.headers ≤ 64)
unfolding read_response
read_response-bounded request response result h =
    let limit : ℕ = smaller request.max_response_bytes max_response_bytes_limit in
    let small = smaller-le request.max_response_bytes max_response_bytes_limit in
    elim (Bool-cases (too_long limit response.content_length)) [
      | inl e ↦ absurd (let f = rw (e, read_response) at h in cc)
      | inr e ↦
          let f = rw (e, read_response) at h in
          let (headers, a, g) = bind-ok (response_headers response.headers) _ result f in
          let (body, b, k) = bind-ok (read_body limit [] response.chunks) _ result g in
          let same_body : body ≡ result.body = ground arith in
          let same_headers : headers ≡ result.headers = ground arith in
          let l =
            read_body-bounded limit [] response.chunks body (omega (arith, small.1)) (omega arith)
              b in
          (
            omega (arith, small.0, l, ap length same_body),
            omega (arith, small.1, l, ap length same_body),
            rw (sym same_headers) (collected response.headers headers a),
          )
    ]
