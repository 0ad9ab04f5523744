-- ===== src/Assets/Examples.antt =====
-- Runs of the asset store, and its theorems at concrete inputs.
use bro_know_my_qqbot.Prelude.{
  ℕ, ◌≡◌, ◌≢◌, refl, ap, inl, List, [], ◌∷◌, arith, length, ok, err, saturating_add, ◌⊎◌, ◌↔◌,
}
use bro_know_my_qqbot.Prelude.Text.{Text, codes, text_discrete, len_utf8, byte_len, is_control}
use bro_know_my_qqbot.Prelude.Map
use bro_know_my_qqbot.Assets.{
  AssetState, AssetLimits, AssetReference, Stamp, initial_state, default_limits, invalid_mime_type,
  split_once, is_mime_token_byte, validate_mime_type, validate_insert_request, has_capacity,
  remove_usage, remove_record, remove_records, purge_expired, preflight, add_record,
  insert_prehashed, insert, get, remove, remove_instance, quota_exceeded, too_large,
}
use bro_know_my_qqbot.Assets.Valid.{IsExact}
use bro_know_my_qqbot.Assets.Insertion.{IsRepresentable}
use bro_know_my_qqbot.Assets.History.{
  AssetCall, insert_call, get_call, remove_call, remove_instance_call, sweep_call, step, run,
  initial-IsExact, run-initial-IsExact,
}
use bro_know_my_qqbot.Assets.Scope.{IsScoped, insert_prehashed-IsScoped}
use bro_know_my_qqbot.Assets.Mime.{IsMimeType, validate_mime_type_lem}

program : Unit {0}
unfolding Map.get Map.insert Map.remove split_once is_mime_token_byte validate_mime_type
    validate_insert_request has_capacity remove_usage remove_record remove_records purge_expired
    preflight add_record insert_prehashed insert get remove remove_instance step run byte_len
    len_utf8 is_control text_discrete saturating_add
program = tt

-- Room for two assets of an instance and three of the store, which live for ten.
abbrev small_limits : AssetLimits
small_limits = record {
  ttl = 10;
  max_asset_bytes = 4;
  max_instance_assets = 2;
  max_instance_bytes = 40;
  max_store_assets = 3;
  max_store_bytes = 60;
}

abbrev png : Text
png = codes "image/png"

abbrev stamp_at : ℕ → ℕ → Stamp
stamp_at id now = record { asset_id = id ∷ []; now = now; now_wall = now }

abbrev first : AssetCall
first = insert_call (codes "a") png (1 ∷ 2 ∷ []) (codes "f0") (stamp_at 7 100)

abbrev second : AssetCall
second = insert_call (codes "bb") png (3 ∷ []) (codes "f1") (stamp_at 8 101)

abbrev history : List AssetCall
history =
    second
    ∷ get_call (codes "a") (8 ∷ []) 102
    ∷ remove_call (codes "bb") (7 ∷ [])
    ∷ sweep_call 103
    ∷ remove_instance_call (codes "bb")
    ∷ []

abbrev reference : AssetReference
reference = record {
  asset_id = 7 ∷ [];
  mime_type = png;
  size_bytes = 2;
  sha256 = codes "f0";
  expires_at_ms = 100;
}

small_limits-IsRepresentable : IsRepresentable small_limits
small_limits-IsRepresentable = record {
  instance_assets = omega arith;
  instance_bytes = omega arith;
  store_bytes = omega arith;
}

default_limits-IsRepresentable : IsRepresentable default_limits
default_limits-IsRepresentable = record {
  instance_assets = omega arith;
  instance_bytes = omega arith;
  store_bytes = omega arith;
}

first_accepted :
    (insert_prehashed small_limits
      (codes "a")
      png
      (1 ∷ 2 ∷ [])
      (codes "f0")
      (stamp_at 7 100)
      initial_state).1
    ≡ ok reference
unfolding program
first_accepted = refl

run-initial-IsExact_example :
    IsExact default_limits (run default_limits (first ∷ history) initial_state)
unfolding program
run-initial-IsExact_example =
    run-initial-IsExact default_limits (first ∷ history) default_limits-IsRepresentable
      (refl, (refl, (tt, (tt, (tt, (tt, tt))))))

other_instance : codes "bb" ≢ codes "a"
other_instance h = absurd (omega (arith, ap length h))

insert_prehashed-IsScoped_example :
    IsScoped
      (codes "a")
      (7 ∷ [])
      (record { mime_type = png; data_bytes = 1 ∷ 2 ∷ [] })
      110
      (run small_limits (first ∷ history) initial_state)
unfolding program
insert_prehashed-IsScoped_example =
    insert_prehashed-IsScoped small_limits (codes "a") png (1 ∷ 2 ∷ []) (codes "f0")
      (stamp_at 7 100) initial_state reference history small_limits-IsRepresentable
      (initial-IsExact small_limits) (refl, (refl, (tt, (tt, (tt, (tt, tt)))))) first_accepted
      (omega arith, (omega arith, (inl other_instance, (omega arith, (other_instance, tt)))))

validate_mime_type_lem_example :
    ((validate_mime_type png ≡ ok tt) ↔ IsMimeType png)
    × ((validate_mime_type png ≡ ok tt) ⊎ (validate_mime_type png ≡ err invalid_mime_type))
validate_mime_type_lem_example = validate_mime_type_lem png

two_slashes : validate_mime_type (codes "a/b/c") ≡ err invalid_mime_type
unfolding program
two_slashes = refl

-- The third asset of an instance is refused, until the others expire.
abbrev two_assets : AssetState
two_assets =
    run small_limits (first ∷ insert_call (codes "a") png [] (codes "f1") (stamp_at 8 101) ∷ [])
      initial_state

third_refused :
    (insert (λ d. []) small_limits (codes "a") png [] 102 (stamp_at 9 102) two_assets).1
    ≡ err quota_exceeded
unfolding program
third_refused = refl

third_accepted_later :
    (insert_prehashed small_limits (codes "a") png [] [] (stamp_at 9 110) two_assets).0.total_bytes
    ≡ 20
unfolding program
third_accepted_later = refl

too_large_refused :
    (preflight small_limits (codes "a") png (1 ∷ 2 ∷ 3 ∷ 4 ∷ 5 ∷ []) 102 two_assets).1
    ≡ err too_large
unfolding program
too_large_refused = refl
