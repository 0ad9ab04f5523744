-- ===== src/Permission/Conflicts.antt =====
-- What the validation of the HTTP permissions of a manifest says of two of them.
use bro_know_my_qqbot.Prelude.{
  ℕ, ◌≡◌, refl, inl, inr, Bool, true, false, not, ◌||◌, Option, List, [], ◌∷◌, arith, ◌==◌,
  if◌then◌else◌, any, All, any-witness, any-All, All-map, Option-cases, Result, ok, err,
}
use bro_know_my_qqbot.Prelude.Text.{Text, same_text, is_empty}
use bro_know_my_qqbot.Permission.{
  HttpPermission, contains, is_bad_prefix, same_credential, url_path_matches_prefix,
  http_permissions_have_credential_conflict, validate_public_host_and_paths, validate_permission,
  validate_each, host_is_not_public, zero_port, path_not_canonical, is_local_name,
}
use bro_know_my_qqbot.Permission.Paths.{is_plain, same_text_iff}
use bro_know_my_qqbot.Permission.Nested.{nested_lem}

-- Each prefix of the permission is plain.
abbrev pub IsCanonical : HttpPermission → Type 0
IsCanonical p = All (λ prefix. is_plain prefix ≡ true) p.path_prefixes

plain-of-good : (prefix : Text) → is_bad_prefix prefix ≡ false → is_plain prefix ≡ true
plain-of-good prefix h = ground arith

-- Of the last test before an answer without an error.
last_test :
    {E : Type 0} (x y z : E) (a b c d : Bool)
    → Path
        (Result (Unit {0}) E)
        (if a then err x else if b then err y else if c || d then err z else ok tt)
        (ok tt)
    → d ≡ false
last_test x y z a b c false h = refl
last_test x y z true b c true h = cc
last_test x y z false true c true h = cc
last_test x y z false false true true h = cc
last_test x y z false false false true h = cc

good_prefixes :
    (parse_host : Text → Option Text) (host : Text) (port : ℕ) (prefixes : List Text)
    → validate_public_host_and_paths parse_host host port prefixes ≡ ok tt
    → any is_bad_prefix prefixes ≡ false
unfolding validate_public_host_and_paths
good_prefixes parse_host host port prefixes h = elim (Option-cases (parse_host host)) [
  | inl e ↦ absurd (let f = rw (e, validate_public_host_and_paths) at h in cc)
  | inr (normalized, e) ↦
      last_test host_is_not_public zero_port path_not_canonical
        (not (same_text normalized host) || is_local_name normalized) (port == 0)
        (is_empty prefixes) (any is_bad_prefix prefixes)
        (rw (e, validate_public_host_and_paths) at h)
]

valid-IsCanonical :
    (parse_host : Text → Option Text) (p : HttpPermission)
    → validate_permission parse_host p ≡ ok tt
    → IsCanonical p
unfolding validate_permission
valid-IsCanonical parse_host p h =
    let host_ok : validate_public_host_and_paths parse_host p.host p.port p.path_prefixes ≡ ok tt =
      ground arith in
    All-map (λ x. is_bad_prefix x ≡ false) (λ x. is_plain x ≡ true) p.path_prefixes plain-of-good
      (any-All is_bad_prefix p.path_prefixes
        (good_prefixes parse_host p.host p.port p.path_prefixes host_ok))

pub each-IsCanonical :
    (parse_host : Text → Option Text) (ps : List HttpPermission)
    → validate_each parse_host ps ≡ ok tt
    → All IsCanonical ps
unfolding validate_each
each-IsCanonical parse_host [] h = tt
each-IsCanonical parse_host (p ∷ ps) h =
    let first : validate_permission parse_host p ≡ ok tt = ground arith in
    (valid-IsCanonical parse_host p first, each-IsCanonical parse_host ps (ground arith))

shared_method :
    (m : Text) (ms ns : List Text)
    → contains m ms ≡ true
    → contains m ns ≡ true
    → any (λ x. contains x ns) ms ≡ true
unfolding contains
shared_method m ms ns h k =
    let (x, _, e, back) = any-witness (λ y. same_text y m) (λ y. Unit {0}) ms (all_unit ms) h in
    back (λ y. contains y ns) (rw ((same_text_iff x m).0 e) k)
  where
    all_unit : (xs : List Text) → All (λ y. Unit {0}) xs
    all_unit [] = tt
    all_unit (x ∷ xs) = (tt, all_unit xs)

nested_prefixes :
    (path : Text) (ps qs : List Text)
    → All (λ x. is_plain x ≡ true) ps
    → All (λ x. is_plain x ≡ true) qs
    → any (λ x. url_path_matches_prefix path x) ps ≡ true
    → any (λ x. url_path_matches_prefix path x) qs ≡ true
    → any (λ x. any (λ y. url_path_matches_prefix x y || url_path_matches_prefix y x) qs) ps ≡ true
nested_prefixes path ps qs cp cq hp hq =
    let (x, plain_x, ex, back_x) =
      any-witness (λ z. url_path_matches_prefix path z) (λ z. is_plain z ≡ true) ps cp hp in
    let (y, plain_y, ey, back_y) =
      any-witness (λ z. url_path_matches_prefix path z) (λ z. is_plain z ≡ true) qs cq hq in
    back_x (λ z. any (λ w. url_path_matches_prefix z w || url_path_matches_prefix w z) qs)
      (back_y (λ w. url_path_matches_prefix x w || url_path_matches_prefix w x)
        (nested_lem path x y plain_x plain_y ex ey))

-- Permissions with plain prefixes that match one request, and whose credentials differ, conflict.
pub conflict_found :
    (p q : HttpPermission) (m path : Text)
    → IsCanonical p
    → IsCanonical q
    → p.host ≡ q.host
    → p.port ≡ q.port
    → contains m p.methods ≡ true
    → contains m q.methods ≡ true
    → any (λ x. url_path_matches_prefix path x) p.path_prefixes ≡ true
    → any (λ x. url_path_matches_prefix path x) q.path_prefixes ≡ true
    → same_credential p.credential q.credential ≡ false
    → http_permissions_have_credential_conflict p q ≡ true
unfolding http_permissions_have_credential_conflict
conflict_found p q m path cp cq h o mp mq pp pq c =
    rw
      (
        (same_text_iff p.host q.host).1 h,
        shared_method m p.methods q.methods mp mq,
        nested_prefixes path p.path_prefixes q.path_prefixes cp cq pp pq,
        c,
      )
      (ground arith)
