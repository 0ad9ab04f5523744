-- ===== src/Assets.antt =====
-- Models crates/plugin-host/src/assets.rs: the store of short-lived assets of plugin instances.
-- Texts are lists of code points, data is a list of bytes, instants and durations count
-- nanoseconds. The clocks, the UUID of a new asset and the hash are arguments. A poisoned
-- mutex is not modelled.
pub mod Sums
pub mod Valid
pub mod Insertion
pub mod History
pub mod Life
pub mod Scope
pub mod Mime
mod Examples
use bro_know_my_qqbot.Prelude.{
  ℕ, ◌+◌, ◌-◌, ◌*◌, ◌/◌, ◌^◌, Bool, true, false, not, ◌&&◌, ◌||◌, Option, none, some, List, [], ◌∷◌,
  ite, ltb, leb, ◌==◌, if◌then◌else◌, Result, ok, err, ◌>>◌, ◌>>=◌, length, any, all,
  saturating_add,
}
use bro_know_my_qqbot.Prelude.Text.{
  Text, text_discrete, same_text, is_empty, is_control, byte_len, is_ascii_alphanumeric,
}
use bro_know_my_qqbot.Prelude.Map

abbrev pub asset_ttl : ℕ
asset_ttl = 10 * 60 * 10 ^ 9

abbrev pub max_asset_bytes_default : ℕ
max_asset_bytes_default = 8 * 1024 * 1024

abbrev pub max_instance_assets_default : ℕ
max_instance_assets_default = 32

abbrev pub max_instance_bytes_default : ℕ
max_instance_bytes_default = 32 * 1024 * 1024

abbrev pub max_store_assets_default : ℕ
max_store_assets_default = 256

abbrev pub max_store_bytes_default : ℕ
max_store_bytes_default = 256 * 1024 * 1024

abbrev pub max_mime_type_bytes : ℕ
max_mime_type_bytes = 127

abbrev pub max_instance_id_bytes : ℕ
max_instance_id_bytes = 256

pub record StoredAsset : Type 0 where
  pub mime_type : Text
  pub data_bytes : List ℕ

pub record AssetRecord : Type 0 where
  pub instance_id : Text
  pub asset : StoredAsset
  pub accounted_bytes : ℕ
  pub deadline : ℕ

pub record AssetUsage : Type 0 where
  pub count : ℕ
  pub bytes : ℕ

pub record AssetState : Type 0 where
  pub records : List (Text × AssetRecord)
  pub instance_usage : List (Text × AssetUsage)
  pub total_bytes : ℕ

abbrev pub initial_state : AssetState
initial_state = record { records = []; instance_usage = []; total_bytes = 0 }

pub record AssetLimits : Type 0 where
  pub ttl : ℕ
  pub max_asset_bytes : ℕ
  pub max_instance_assets : ℕ
  pub max_instance_bytes : ℕ
  pub max_store_assets : ℕ
  pub max_store_bytes : ℕ

abbrev pub default_limits : AssetLimits
default_limits = record {
  ttl = asset_ttl;
  max_asset_bytes = max_asset_bytes_default;
  max_instance_assets = max_instance_assets_default;
  max_instance_bytes = max_instance_bytes_default;
  max_store_assets = max_store_assets_default;
  max_store_bytes = max_store_bytes_default;
}

pub data AssetError : Type 0 where
  too_large : AssetError
  quota_exceeded : AssetError
  invalid_mime_type : AssetError
  invalid_instance_id : AssetError
  not_found : AssetError
  poisoned : AssetError

pub record AssetReference : Type 0 where
  pub asset_id : Text
  pub mime_type : Text
  pub size_bytes : ℕ
  pub sha256 : Text
  pub expires_at_ms : ℕ

-- `str::split_once` at a character.
unfoldable pub split_once : ℕ → Text → Option (Text × Text)
split_once sep [] = none
split_once sep (c ∷ cs) =
    let rest = split_once sep cs in
    if c == sep
    then some ([], cs)
    else elim rest [ none ↦ none | some (before, after) ↦ some (c ∷ before, after) ]

-- A byte of a text is one of these exactly where its code point is, which is below 128.
unfoldable pub is_mime_token_byte : ℕ → Bool
is_mime_token_byte byte =
    is_ascii_alphanumeric byte
    || any (λ c. byte == c)
        (b'!' ∷ b'#' ∷ b'$' ∷ b'%' ∷ b'&' ∷ 39 ∷ b'*' ∷ b'+' ∷ b'-' ∷ b'.' ∷ b'^' ∷ b'_' ∷ b'`'
          ∷ b'|' ∷ b'~' ∷ [])

unfoldable pub validate_mime_type : Text → Result (Unit {0}) AssetError
unfolding split_once is_mime_token_byte byte_len
validate_mime_type mime_type = elim (split_once b'/' mime_type) [
  | none ↦ err invalid_mime_type
  | some (kind, subtype) ↦
      if is_empty mime_type
        || ltb max_mime_type_bytes (byte_len mime_type)
        || any (λ c. c == b'/') subtype
        || is_empty kind
        || is_empty subtype
        || not (all is_mime_token_byte kind)
        || not (all is_mime_token_byte subtype)
      then err invalid_mime_type
      else ok tt
]

unfoldable pub validate_insert_request : AssetLimits → Text → Text → List ℕ → Result ℕ AssetError
unfolding validate_mime_type saturating_add byte_len is_control
validate_insert_request limits instance_id mime_type bytes =
    if ltb limits.max_asset_bytes (length bytes)
    then err too_large
    else if is_empty instance_id
        || ltb max_instance_id_bytes (byte_len instance_id)
        || any is_control instance_id
    then err invalid_instance_id
    else validate_mime_type mime_type
      >> ok (
          saturating_add (saturating_add (length bytes) (byte_len mime_type))
            (byte_len instance_id))

-- The usage on record, or the default one.
abbrev pub usage_or_default : Option AssetUsage → AssetUsage
usage_or_default none = record { count = 0; bytes = 0 }
usage_or_default (some usage) = usage

unfoldable pub has_capacity : AssetState → AssetLimits → Text → ℕ → Bool
unfolding saturating_add text_discrete Map.get
has_capacity s limits instance_id accounted_bytes =
    let usage = usage_or_default (Map.get text_discrete instance_id s.instance_usage) in
    ltb usage.count limits.max_instance_assets
    && leb (saturating_add usage.bytes accounted_bytes) limits.max_instance_bytes
    && ltb (length s.records) limits.max_store_assets
    && leb (saturating_add s.total_bytes accounted_bytes) limits.max_store_bytes

-- The usage of the instance without one asset.
unfoldable pub remove_usage : AssetRecord → List (Text × AssetUsage) → List (Text × AssetUsage)
unfolding text_discrete Map.get Map.insert Map.remove
remove_usage r usages = elim (Map.get text_discrete r.instance_id usages) [
  | none ↦ usages
  | some usage ↦
      let left : AssetUsage = record {
        count = usage.count - 1;
        bytes = usage.bytes - r.accounted_bytes;
      } in
      if left.count == 0
      then Map.remove text_discrete r.instance_id usages
      else Map.insert text_discrete r.instance_id left usages
]

unfoldable pub remove_record : Text → AssetState → AssetState
unfolding text_discrete Map.get Map.remove remove_usage
remove_record asset_id s = elim (Map.get text_discrete asset_id s.records) [
  | none ↦ s
  | some r ↦ record {
    records = Map.remove text_discrete asset_id s.records;
    instance_usage = remove_usage r s.instance_usage;
    total_bytes = s.total_bytes - r.accounted_bytes;
  }
]

-- The identifiers of the records that pass a test.
abbrev pub ids_where : (AssetRecord → Bool) → List (Text × AssetRecord) → List Text
ids_where p [] = []
ids_where p ((asset_id, r) ∷ m) = if p r then asset_id ∷ ids_where p m else ids_where p m

-- The loops of `purge_expired` and `remove_instance`.
unfoldable pub remove_records : List Text → AssetState → AssetState
unfolding remove_record
remove_records [] s = s
remove_records (asset_id ∷ asset_ids) s = remove_records asset_ids (remove_record asset_id s)

unfoldable pub purge_expired : AssetState → ℕ → AssetState
unfolding remove_records
purge_expired s now = remove_records (ids_where (λ r. leb r.deadline now) s.records) s

unfoldable pub preflight :
    AssetLimits → Text → Text → List ℕ → ℕ → AssetState → AssetState × Result (Unit {0}) AssetError
unfolding validate_insert_request purge_expired has_capacity
preflight limits instance_id mime_type bytes now s =
    elim (validate_insert_request limits instance_id mime_type bytes) [
      | err e ↦ (s, err e)
      | ok accounted_bytes ↦
          let s' = purge_expired s now in
          if has_capacity s' limits instance_id accounted_bytes
          then (s', ok tt)
          else (s', err quota_exceeded)
    ]

abbrev pub i64_max : ℕ
i64_max = 2 ^ 63 - 1

abbrev pub at_most : ℕ → ℕ → ℕ
at_most bound n = if ltb bound n then bound else n

-- The clocks that `insert_prehashed` reads, and its fresh UUID.
pub record Stamp : Type 0 where
  pub asset_id : Text
  pub now : ℕ
  pub now_wall : ℕ

-- The state with a new record.
unfoldable pub add_record : AssetLimits → Text → Text → List ℕ → ℕ → Stamp → AssetState → AssetState
unfolding saturating_add text_discrete Map.get Map.insert
add_record limits instance_id mime_type bytes accounted_bytes stamp s =
    let usage = usage_or_default (Map.get text_discrete instance_id s.instance_usage) in
    record {
      records =
          Map.insert text_discrete stamp.asset_id
            (record {
              instance_id = instance_id;
              asset = record { mime_type = mime_type; data_bytes = bytes };
              accounted_bytes = accounted_bytes;
              deadline = stamp.now + limits.ttl;
            })
            s.records;
      total_bytes = saturating_add s.total_bytes accounted_bytes;
      instance_usage =
          Map.insert text_discrete instance_id
            (record {
              count = saturating_add usage.count 1;
              bytes = saturating_add usage.bytes accounted_bytes;
            })
            s.instance_usage;
    }

unfoldable pub insert_prehashed :
    AssetLimits
    → Text
    → Text
    → List ℕ
    → Text
    → Stamp
    → AssetState
    → AssetState × Result AssetReference AssetError
unfolding validate_insert_request purge_expired has_capacity add_record
insert_prehashed limits instance_id mime_type bytes digest stamp s =
    elim (validate_insert_request limits instance_id mime_type bytes) [
      | err e ↦ (s, err e)
      | ok accounted_bytes ↦
          let s' = purge_expired s stamp.now in
          if has_capacity s' limits instance_id accounted_bytes
          then (
            add_record limits instance_id mime_type bytes accounted_bytes stamp s',
            ok (record {
              asset_id = stamp.asset_id;
              mime_type = mime_type;
              size_bytes = length bytes;
              sha256 = digest;
              expires_at_ms =
                  at_most i64_max (stamp.now_wall + at_most i64_max (limits.ttl / 10 ^ 6));
            }),
          )
          else (s', err quota_exceeded)
    ]

-- `insert`, of which no other call comes between its two parts.
unfoldable pub insert :
    (List ℕ → Text)
    → AssetLimits
    → Text
    → Text
    → List ℕ
    → ℕ
    → Stamp
    → AssetState
    → AssetState × Result AssetReference AssetError
unfolding preflight insert_prehashed
insert sha256 limits instance_id mime_type bytes now stamp s =
    let (s', checked) = preflight limits instance_id mime_type bytes now s in
    elim checked [
      | err e ↦ (s', err e)
      | ok _ ↦ insert_prehashed limits instance_id mime_type bytes (sha256 bytes) stamp s'
    ]

-- The record, if it is the instance's.
abbrev pub owned_by : Text → Option AssetRecord → Option AssetRecord
owned_by instance_id none = none
owned_by instance_id (some r) = if same_text r.instance_id instance_id then some r else none

abbrev pub asset_or_missing : Option AssetRecord → Result StoredAsset AssetError
asset_or_missing none = err not_found
asset_or_missing (some r) = ok r.asset

unfoldable pub get : Text → Text → ℕ → AssetState → AssetState × Result StoredAsset AssetError
unfolding purge_expired text_discrete Map.get
get instance_id asset_id now s =
    let s' = purge_expired s now in
    (s', asset_or_missing (owned_by instance_id (Map.get text_discrete asset_id s'.records)))

unfoldable pub remove : Text → Text → AssetState → AssetState × Result (Unit {0}) AssetError
unfolding remove_record text_discrete Map.get
remove instance_id asset_id s =
    elim (owned_by instance_id (Map.get text_discrete asset_id s.records)) [
      | none ↦ (s, err not_found)
      | some r ↦ (remove_record asset_id s, ok tt)
    ]

unfoldable pub remove_instance : Text → AssetState → AssetState
unfolding remove_records text_discrete
remove_instance instance_id s =
    remove_records (ids_where (λ r. same_text r.instance_id instance_id) s.records) s
