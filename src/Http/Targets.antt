-- ===== src/Http/Targets.antt =====
-- The targets that plugins may reach: what an authorized target is, and that the permissions of a
-- validated manifest never leave the credential open.
use bro_know_my_qqbot.Prelude.{
  ℕ, ◌≡◌, ◌≢◌, refl, sym, ◌∙◌, inl, inr, true, false, not, ◌||◌, Option, none, some, List, [], ◌∷◌,
  arith, any, All, Bool-cases, ok, err,
}
use bro_know_my_qqbot.Prelude.Text.{Text, codes, same_text, is_empty, is_some}
use bro_know_my_qqbot.Permission.{
  HttpPermission, contains, same_credential, url_path_matches_prefix,
  http_permissions_have_credential_conflict, validate_each, validate_pairs,
  validate_http_permissions,
}
use bro_know_my_qqbot.Permission.Paths.{same_text_iff}
use bro_know_my_qqbot.Permission.Conflicts.{IsCanonical, each-IsCanonical, conflict_found}
use bro_know_my_qqbot.Http.{
  Url, Host, domain, ip_literal, denied, conflicting_permissions, permits, filter,
  select_permission, target_of, authorized_target,
}

-- What `permits` tests, one by one.
pub record Permitted (host : Text) (port : ℕ) (method path : Text) (p : HttpPermission)
    : Type 0 where
  pub same_host : p.host ≡ host
  pub same_port : p.port ≡ port
  pub method_listed : contains method p.methods ≡ true
  pub path_listed : any (λ prefix. url_path_matches_prefix path prefix) p.path_prefixes ≡ true

pub permits-Permitted :
    (host : Text) (port : ℕ) (method path : Text) (p : HttpPermission)
    → permits host port method path p ≡ true
    → Permitted host port method path p
unfolding permits
permits-Permitted host port method path p h = record {
  same_host = (same_text_iff p.host host).0 (ground arith);
  same_port = ground arith;
  method_listed = ground arith;
  path_listed = ground arith;
}

same_credential-sym : (a b : Option Text) → same_credential a b ≡ same_credential b a
same_credential-sym none none = refl
same_credential-sym none (some b) = refl
same_credential-sym (some a) none = refl
same_credential-sym (some a) (some b) = ground arith

module _ (host : Text) (port : ℕ) (method path : Text) where
  two_agree :
      (p q : HttpPermission)
      → IsCanonical p
      → IsCanonical q
      → permits host port method path p ≡ true
      → permits host port method path q ≡ true
      → http_permissions_have_credential_conflict p q ≡ false
      → not (same_credential q.credential p.credential) ≡ false
  two_agree p q cp cq hp hq c =
      let a = permits-Permitted host port method path p hp in
      let b = permits-Permitted host port method path q hq in
      let clash : same_credential p.credential q.credential ≡ false
          → http_permissions_have_credential_conflict p q ≡ true =
        conflict_found p q method path cp cq (a.same_host ∙ sym b.same_host)
          (a.same_port ∙ sym b.same_port) a.method_listed b.method_listed a.path_listed
          b.path_listed in
      elim (Bool-cases (same_credential p.credential q.credential)) [
        | inl e ↦ rw (same_credential-sym q.credential p.credential, e) refl
        | inr e ↦ absurd (cc (sym (clash e) ∙ c))
      ]

  others_agree :
      (p : HttpPermission) (ps : List HttpPermission)
      → IsCanonical p
      → All IsCanonical ps
      → permits host port method path p ≡ true
      → any (http_permissions_have_credential_conflict p) ps ≡ false
      → any
          (λ o. not (same_credential o.credential p.credential))
          (filter (permits host port method path) ps)
        ≡ false
  others_agree p [] cp cs hp h = refl
  others_agree p (q ∷ ps) cp cs hp h =
      let rest = others_agree p ps cp cs.1 hp (ground arith) in
      elim (Bool-cases (permits host port method path q)) [
        | inl e ↦ rw (e, two_agree p q cp cs.0 hp e (ground arith)) rest
        | inr e ↦ rw e rest
      ]

  select_undisputed :
      (granted : List Text) (p : HttpPermission) (ps : List HttpPermission)
      → any (λ o. not (same_credential o.credential p.credential)) ps ≡ false
      → select_permission (p ∷ ps) granted host port ≢ err (denied conflicting_permissions)
  unfolding select_permission
  select_undisputed granted p ps h = ground arith

  selected_undisputed :
      (granted : List Text) (ps : List HttpPermission)
      → All IsCanonical ps
      → validate_pairs ps ≡ ok tt
      → select_permission (filter (permits host port method path) ps) granted host port
        ≢ err (denied conflicting_permissions)
  unfolding validate_pairs select_permission
  selected_undisputed granted [] c h = ground arith
  selected_undisputed granted (p ∷ ps) c h =
      let apart : any (http_permissions_have_credential_conflict p) ps ≡ false = ground arith in
      let deeper : validate_pairs ps ≡ ok tt = ground arith in
      elim (Bool-cases (permits host port method path p)) [
        | inl e ↦ rw e (
            select_undisputed granted p (filter (permits host port method path) ps)
              (others_agree p ps c.0 c.1 e apart))
        | inr e ↦ rw e (selected_undisputed granted ps c.1 deeper)
      ]

target_undisputed :
    (url : Url) (method : Text) (ps : List HttpPermission) (granted : List Text) (h : Option Host)
    (port : Option ℕ)
    → All IsCanonical ps
    → validate_pairs ps ≡ ok tt
    → target_of url method ps granted h port ≢ err (denied conflicting_permissions)
target_undisputed url method ps granted none port c v = ground arith
target_undisputed url method ps granted (some ip_literal) port c v = ground arith
target_undisputed url method ps granted (some (domain host)) none c v = ground arith
target_undisputed url method ps granted (some (domain host)) (some port) c v =
    selected_undisputed host port method url.path granted ps c v

-- Whatever `Host::parse` answers: with permissions that the validation of a manifest accepts, no
-- request is denied because the permissions that match it name different credentials.
pub validated_undisputed :
    (parse_host : Text → Option Text) (ps : List HttpPermission) (url : Url) (method : Text)
    (granted : List Text)
    → validate_http_permissions parse_host ps ≡ ok tt
    → authorized_target url method ps granted ≢ err (denied conflicting_permissions)
unfolding validate_http_permissions authorized_target
validated_undisputed parse_host ps url method granted v =
    let each : validate_each parse_host ps ≡ ok tt = ground arith in
    let pairs : validate_pairs ps ≡ ok tt = ground arith in
    let below =
      target_undisputed url method ps granted url.host url.port_or_known_default
        (each-IsCanonical parse_host ps each) pairs in
    elim (Bool-cases (
      not (same_text url.scheme (codes "https"))
      || not (is_empty url.username)
      || is_some url.password
      || is_some url.fragment)) [
        | inl e ↦ rw (e, authorized_target) (ground arith)
        | inr e ↦ rw (e, authorized_target) below
      ]
