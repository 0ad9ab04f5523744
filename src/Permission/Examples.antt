-- ===== src/Permission/Examples.antt =====
-- Prefixes and permissions at concrete inputs.
use bro_know_my_qqbot.Prelude.{◌≡◌, refl, true, false, ◌⊎◌, ◌↔◌, Option, none, some, [], ◌∷◌, err}
use bro_know_my_qqbot.Prelude.Text.{
  Text, codes, text_discrete, split, strip_prefix, byte_len, len_utf8,
}
use bro_know_my_qqbot.Permission.{
  HttpPermission, ends_with, strip_suffix, contains, capability, credential_capability,
  is_valid_http_credential_name, url_path_matches_prefix, has_dns_suffix,
  validate_public_host_and_paths, validate_permission, http_permissions_have_credential_conflict,
  validate_each, validate_pairs, validate_http_permissions, conflicting_credentials,
  host_is_not_public, path_not_canonical,
}
use bro_know_my_qqbot.Permission.Paths.{is_plain, Under, url_path_matches_prefix_lem}

program : Unit {0}
unfolding ends_with strip_suffix contains capability credential_capability
    is_valid_http_credential_name url_path_matches_prefix has_dns_suffix
    validate_public_host_and_paths validate_permission http_permissions_have_credential_conflict
    validate_each validate_pairs validate_http_permissions text_discrete split strip_prefix byte_len
    len_utf8
program = tt

url_path_matches_prefix_lem_example :
    (url_path_matches_prefix (codes "/v1/items") (codes "/v1") ≡ true) ↔ (
      (is_plain (codes "/v1/items") ≡ true)
      × ((codes "/v1" ≡ b'/' ∷ []) ⊎ Under (codes "/v1") (codes "/v1/items")))
url_path_matches_prefix_lem_example = url_path_matches_prefix_lem (codes "/v1/items") (codes "/v1")

no_half_segment : url_path_matches_prefix (codes "/v10") (codes "/v1") ≡ false
unfolding program
no_half_segment = refl

no_way_up : url_path_matches_prefix (codes "/v1/../x") (codes "/v1") ≡ false
unfolding program
no_way_up = refl

abbrev permission : Text → Option Text → HttpPermission
permission prefix credential = record {
  host = codes "api.example.com";
  port = 443;
  methods = codes "GET" ∷ [];
  path_prefixes = prefix ∷ [];
  credential = credential;
}

capability_text : capability (permission [] none) ≡ codes "http.host.api.example.com:443"
unfolding program
capability_text = refl

conflict_refused :
    validate_http_permissions some (
      permission (codes "/v1/") (some (codes "a"))
      ∷ permission (codes "/v1/items") (some (codes "b"))
      ∷ [])
    ≡ err conflicting_credentials
unfolding program
conflict_refused = refl

local_refused :
    validate_public_host_and_paths some (codes "x.local") 443 (codes "/" ∷ [])
    ≡ err host_is_not_public
unfolding program
local_refused = refl

escaped_refused :
    validate_public_host_and_paths some (codes "x.org") 443 (codes "/%2e" ∷ [])
    ≡ err path_not_canonical
unfolding program
escaped_refused = refl
