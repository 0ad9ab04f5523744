-- ===== src/Http/Authorized.antt =====
-- What a target that `authorized_target` returns has passed.
use bro_know_my_qqbot.Prelude.{
  ℕ, ◌≡◌, refl, ap, sym, ◌∙◌, inl, inr, Bool, true, false, not, ◌||◌, Option, none, some, List, [],
  ◌∷◌, ◌++◌, arith, Bool-cases, ok,
}
use bro_know_my_qqbot.Prelude.Text.{Text, codes, same_text, is_empty, is_some}
use bro_know_my_qqbot.Permission.{HttpPermission, contains, capability, credential_capability}
use bro_know_my_qqbot.Permission.Paths.{same_text_iff}
use bro_know_my_qqbot.Http.{
  Url, Host, domain, ip_literal, permits, filter, may_use, select_permission, target_of,
  authorized_target,
}
use bro_know_my_qqbot.Http.Targets.{Permitted, permits-Permitted}

-- The permission is one of the list.
abbrev pub IsListed : HttpPermission → List HttpPermission → Type 0
IsListed p ps =
    (before : List HttpPermission) × (after : List HttpPermission) × (ps ≡ before ++ (p ∷ after))

-- The URL is plain HTTPS to that host and port, the permission is one of the plugin's and matches
-- the request, and the administrator granted the host and the credential, if there is one.
pub record IsAuthorized (url : Url) (method : Text) (permissions : List HttpPermission)
    (granted : List Text) (host : Text) (port : ℕ) (p : HttpPermission) : Type 0 where
  pub secure : url.scheme ≡ codes "https"
  pub no_username : url.username ≡ []
  pub no_password : url.password ≡ none
  pub no_fragment : url.fragment ≡ none
  pub named_host : url.host ≡ some (domain host)
  pub named_port : url.port_or_known_default ≡ some port
  pub listed : IsListed p permissions
  pub matches : Permitted host port method url.path p
  pub http_granted : contains (codes "http.request") granted ≡ true
  pub host_granted : contains (capability p) granted ≡ true
  pub credential_granted : may_use granted (credential_capability p) ≡ true

filtered :
    (f : HttpPermission → Bool) (ps : List HttpPermission) (p : HttpPermission)
    (others : List HttpPermission)
    → filter f ps ≡ p ∷ others
    → (f p ≡ true) × IsListed p ps
filtered f [] p others h = cc
filtered f (q ∷ ps) p others h = elim (Bool-cases (f q)) [
  | inl e ↦ let same : q ≡ p = ground arith in (rw (sym same) e, ([], ps, ap (λ x. x ∷ ps) same))
  | inr e ↦
      let (passes, (before, after, w)) = filtered f ps p others (ground arith) in
      (passes, (q ∷ before, after, ap (λ x. q ∷ x) w))
]

-- What `select_permission` has tested of the first match.
record Selected (ps : List HttpPermission) (granted : List Text) (host' : Text) (port' : ℕ)
    (host : Text) (port : ℕ) (p : HttpPermission) : Type 0 where
  others : List HttpPermission
  first : ps ≡ p ∷ others
  same_host : host' ≡ host
  same_port : port' ≡ port
  http_granted : contains (codes "http.request") granted ≡ true
  host_granted : contains (capability p) granted ≡ true
  credential_granted : may_use granted (credential_capability p) ≡ true

select-Selected :
    (ps : List HttpPermission) (granted : List Text) (host' : Text) (port' : ℕ) (host : Text)
    (port : ℕ) (p : HttpPermission)
    → select_permission ps granted host' port' ≡ ok (host, port, p)
    → Selected ps granted host' port' host port p
unfolding select_permission
select-Selected [] granted host' port' host port p h = cc
select-Selected (q ∷ ps) granted host' port' host port p h =
    let same : q ≡ p = ground arith in
    record {
      others = ps;
      first = ap (λ x. x ∷ ps) same;
      same_host = ground arith;
      same_port = ground arith;
      http_granted = ground arith;
      host_granted = ground arith;
      credential_granted = ground arith;
    }

-- What the first test leaves.
plain_https :
    (url : Url)
    → (not (same_text url.scheme (codes "https"))
        || not (is_empty url.username)
        || is_some url.password
        || is_some url.fragment)
      ≡ false
    → (url.scheme ≡ codes "https")
      × (url.username ≡ [])
      × (url.password ≡ none)
      × (url.fragment ≡ none)
plain_https url h = (
  (same_text_iff url.scheme (codes "https")).0 (ground arith),
  empty url.username (ground arith),
  nothing url.password (ground arith),
  nothing url.fragment (ground arith),
)
  where
    empty : (t : Text) → is_empty t ≡ true → t ≡ []
    empty [] e = refl
    empty (c ∷ t) e = cc

    nothing : (o : Option Text) → is_some o ≡ false → o ≡ none
    nothing none e = refl
    nothing (some t) e = cc

module _ (url : Url) (method : Text) (ps : List HttpPermission) (granted : List Text) (host : Text)
    (port : ℕ) (p : HttpPermission)
    (plain : (url.scheme ≡ codes "https")
      × (url.username ≡ [])
      × (url.password ≡ none)
      × (url.fragment ≡ none)) where
  target-IsAuthorized :
      (h : Option Host) (o : Option ℕ)
      → url.host ≡ h
      → url.port_or_known_default ≡ o
      → target_of url method ps granted h o ≡ ok (host, port, p)
      → IsAuthorized url method ps granted host port p
  target-IsAuthorized none o e f t = cc
  target-IsAuthorized (some ip_literal) o e f t = cc
  target-IsAuthorized (some (domain host')) none e f t = cc
  target-IsAuthorized (some (domain host')) (some port') e f t =
      let test : HttpPermission → Bool = permits host' port' method url.path in
      let s = select-Selected (filter test ps) granted host' port' host port p t in
      let (passes, l) = filtered test ps p s.others s.first in
      let q = permits-Permitted host' port' method url.path p passes in
      record {
        secure = plain.0;
        no_username = plain.1;
        no_password = plain.2;
        no_fragment = plain.3;
        named_host = e ∙ ap (λ x. some (domain x)) s.same_host;
        named_port = f ∙ ap some s.same_port;
        listed = l;
        matches = record {
          same_host = q.same_host ∙ s.same_host;
          same_port = q.same_port ∙ s.same_port;
          method_listed = q.method_listed;
          path_listed = q.path_listed;
        };
        http_granted = s.http_granted;
        host_granted = s.host_granted;
        credential_granted = s.credential_granted;
      }

-- A target that `authorized_target` returns is a plain HTTPS URL of that host and port; the
-- permission is one of the plugin's, for this host, port and method and with a prefix that
-- matches the path; and the administrator granted HTTP, the host with its port, and the named
-- credential, if the permission has one.
pub authorized_target-IsAuthorized :
    (url : Url) (method : Text) (ps : List HttpPermission) (granted : List Text) (host : Text)
    (port : ℕ) (p : HttpPermission)
    → authorized_target url method ps granted ≡ ok (host, port, p)
    → IsAuthorized url method ps granted host port p
unfolding authorized_target
authorized_target-IsAuthorized url method ps granted host port p h =
    elim (Bool-cases (
      not (same_text url.scheme (codes "https"))
      || not (is_empty url.username)
      || is_some url.password
      || is_some url.fragment)) [
        | inl e ↦ absurd (let f = rw (e, authorized_target) at h in cc)
        | inr e ↦
            target-IsAuthorized url method ps granted host port p (plain_https url e) url.host
              url.port_or_known_default refl refl (rw (e, authorized_target) at h)
      ]
