-- ===== src/Assets/Insertion.antt =====
-- Insertions into the asset store: with room for the record, the accounts stay exact.
use bro_know_my_qqbot.Prelude.{
  ℕ, ◌+◌, ◌≤◌, ◌<◌, ◌≡◌, refl, ◌⊎◌, inl, inr, true, ◌&&◌, none, List, arith, ltb, leb, length,
  Bool-cases, Result, ok, err, Result-cases, saturating_add, saturating_add-eq, usize_max,
}
use bro_know_my_qqbot.Prelude.Text.{Text, text_discrete}
use bro_know_my_qqbot.Prelude.Map.{get, insert, get-insert, insert-Distinct, length-insert_absent}
use bro_know_my_qqbot.Assets.{
  AssetRecord, AssetState, AssetLimits, AssetError, AssetReference, Stamp, quota_exceeded,
  purge_expired, usage_or_default, has_capacity, add_record, insert_prehashed, preflight,
  validate_insert_request,
}
use bro_know_my_qqbot.Assets.Sums.{weigh, one_of, bytes_of, weigh-insert_absent, weigh_none}
use bro_know_my_qqbot.Assets.Valid.{IsExact, purge_expired-IsExact}

-- The limits are below the largest machine number, as the default ones are.
pub record IsRepresentable (limits : AssetLimits) : Type 0 where
  pub instance_assets : limits.max_instance_assets ≤ usize_max
  pub instance_bytes : limits.max_instance_bytes < usize_max
  pub store_bytes : limits.max_store_bytes < usize_max

-- What is left of the limits is enough for one more record of that size.
pub record HasRoom (limits : AssetLimits) (s : AssetState) (i : Text) (size : ℕ) : Type 0 where
  pub store_count : length s.records + 1 ≤ limits.max_store_assets
  pub store_bytes : weigh (λ r. r.accounted_bytes) s.records + size ≤ limits.max_store_bytes
  pub instance_count : weigh (one_of i) s.records + 1 ≤ limits.max_instance_assets
  pub instance_bytes : weigh (bytes_of i) s.records + size ≤ limits.max_instance_bytes

unsaturated : (a b bound : ℕ) → bound < usize_max → saturating_add a b ≤ bound → a + b ≤ bound
unfolding saturating_add
unsaturated a b bound h k = ground arith

-- The usage that is read is the usage of the records.
usage-read :
    (limits : AssetLimits) (s : AssetState) (i : Text)
    → IsExact limits s
    → usage_or_default (get text_discrete i s.instance_usage)
      ≡ record { count = weigh (one_of i) s.records; bytes = weigh (bytes_of i) s.records }
usage-read limits s i v = rw (v.usage i) (ground (arith, weigh_none i s.records))

pub has_capacity-HasRoom :
    (limits : AssetLimits) (s : AssetState) (i : Text) (size : ℕ)
    → IsRepresentable limits
    → IsExact limits s
    → has_capacity s limits i size ≡ true
    → HasRoom limits s i size
unfolding has_capacity
has_capacity-HasRoom limits s i size small v h =
    let u = usage-read limits s i v in
    let tests : (ltb (weigh (one_of i) s.records) limits.max_instance_assets
          && leb (saturating_add (weigh (bytes_of i) s.records) size) limits.max_instance_bytes
          && ltb (length s.records) limits.max_store_assets
          && leb (saturating_add s.total_bytes size) limits.max_store_bytes)
        ≡ true =
      rw u at h in
    record {
      store_count = ground arith;
      store_bytes =
          ground (
            arith,
            v.total,
            unsaturated s.total_bytes size limits.max_store_bytes small.store_bytes,
          );
      instance_count = ground arith;
      instance_bytes = ground (
        arith,
        unsaturated (weigh (bytes_of i) s.records) size limits.max_instance_bytes
            small.instance_bytes,
      );
    }

-- The record of a new asset.
abbrev pub new_record : AssetLimits → Text → Text → List ℕ → ℕ → Stamp → AssetRecord
new_record limits i mime bytes size stamp = record {
  instance_id = i;
  asset = record { mime_type = mime; data_bytes = bytes };
  accounted_bytes = size;
  deadline = stamp.now + limits.ttl;
}

pub add_record-eq :
    (limits : AssetLimits) (i mime : Text) (bytes : List ℕ) (size : ℕ) (stamp : Stamp)
    (s : AssetState)
    → IsRepresentable limits
    → IsExact limits s
    → HasRoom limits s i size
    → add_record limits i mime bytes size stamp s ≡ record {
      records =
          insert text_discrete stamp.asset_id (new_record limits i mime bytes size stamp) s.records;
      instance_usage =
          insert text_discrete i
            (record {
              count = weigh (one_of i) s.records + 1;
              bytes = weigh (bytes_of i) s.records + size;
            })
            s.instance_usage;
      total_bytes = s.total_bytes + size;
    }
unfolding add_record
add_record-eq limits i mime bytes size stamp s small v room = rw (
  usage-read limits s i v,
  saturating_add-eq s.total_bytes size
      (omega (arith, v.total, room.store_bytes, small.store_bytes)),
  saturating_add-eq (weigh (one_of i) s.records) 1
      (omega (arith, room.instance_count, small.instance_assets)),
  saturating_add-eq (weigh (bytes_of i) s.records) size
      (omega (arith, room.instance_bytes, small.instance_bytes)),
)

pub add_record-IsExact :
    (limits : AssetLimits) (i mime : Text) (bytes : List ℕ) (size : ℕ) (stamp : Stamp)
    (s : AssetState)
    → IsRepresentable limits
    → IsExact limits s
    → HasRoom limits s i size
    → get text_discrete stamp.asset_id s.records ≡ none
    → IsExact limits (add_record limits i mime bytes size stamp s)
add_record-IsExact limits i mime bytes size stamp s small v room fresh =
    let r = new_record limits i mime bytes size stamp in
    let added : (w : AssetRecord → ℕ)
        → weigh w (insert text_discrete stamp.asset_id r s.records) ≡ weigh w s.records + w r =
      λ w. weigh-insert_absent w stamp.asset_id r s.records fresh in
    rw (add_record-eq limits i mime bytes size stamp s small v room) (record {
      distinct = insert-Distinct text_discrete stamp.asset_id r s.records v.distinct;
      usage_distinct = insert-Distinct text_discrete i _ s.instance_usage v.usage_distinct;
      total = omega (arith, v.total, added (λ x. x.accounted_bytes));
      usage = λ j.
          rw (get-insert text_discrete i j _ s.instance_usage)
            (ground (arith, v.usage j, added (one_of j), added (bytes_of j)));
      store_count = omega (
        arith,
        room.store_count,
        length-insert_absent text_discrete stamp.asset_id r s.records fresh,
      );
      store_bytes = omega (arith, room.store_bytes, added (λ x. x.accounted_bytes));
      instance_count =
          λ j. ground (arith, room.instance_count, v.instance_count j, added (one_of j));
      instance_bytes =
          λ j. ground (arith, room.instance_bytes, v.instance_bytes j, added (bytes_of j));
    })

-- What an insertion does, by its outcome.
abbrev pub Inserted :
    AssetLimits
    → Text
    → Text
    → List ℕ
    → Stamp
    → AssetState
    → AssetState × Result AssetReference AssetError
    → Type 0
Inserted limits i mime bytes stamp s (s', ok reference) =
    (size : ℕ) × (validate_insert_request limits i mime bytes ≡ ok size)
    × HasRoom limits (purge_expired s stamp.now) i size
    × (s' ≡ add_record limits i mime bytes size stamp (purge_expired s stamp.now))
    × (reference.asset_id ≡ stamp.asset_id)
Inserted limits i mime bytes stamp s (s', err e) =
    ((s' ≡ s) × (validate_insert_request limits i mime bytes ≡ err e))
    ⊎ ((s' ≡ purge_expired s stamp.now) × (e ≡ quota_exceeded))

pub insert_prehashed-Inserted :
    (limits : AssetLimits) (i mime : Text) (bytes : List ℕ) (digest : Text) (stamp : Stamp)
    (s : AssetState)
    → IsRepresentable limits
    → IsExact limits s
    → Inserted limits i mime bytes stamp s (insert_prehashed limits i mime bytes digest stamp s)
unfolding insert_prehashed
insert_prehashed-Inserted limits i mime bytes digest stamp s small v =
    elim (Result-cases (validate_insert_request limits i mime bytes)) [
      | inr (e, q) ↦ rw (q, insert_prehashed) (inl (refl, q))
      | inl (size, q) ↦
          let s' = purge_expired s stamp.now in
          elim (Bool-cases (has_capacity s' limits i size)) [
            | inr full ↦ rw (q, full, insert_prehashed) (inr (refl, refl))
            | inl free ↦
                rw (q, free, insert_prehashed)
                  (
                    size,
                    q,
                    has_capacity-HasRoom limits s' i size small
                        (purge_expired-IsExact limits s stamp.now v) free,
                    refl,
                    refl,
                  )
          ]
    ]

-- The state after a check ahead of an insertion.
pub preflight-eq :
    (limits : AssetLimits) (i mime : Text) (bytes : List ℕ) (now : ℕ) (s : AssetState)
    → ((preflight limits i mime bytes now s).0 ≡ s)
      ⊎ ((preflight limits i mime bytes now s).0 ≡ purge_expired s now)
unfolding preflight
preflight-eq limits i mime bytes now s =
    elim (Result-cases (validate_insert_request limits i mime bytes)) [
      | inr (e, q) ↦ rw (q, preflight) (inl refl)
      | inl (size, q) ↦ elim (Bool-cases (has_capacity (purge_expired s now) limits i size)) [
        | inr full ↦ rw (q, full, preflight) (inr refl)
        | inl free ↦ rw (q, free, preflight) (inr refl)
      ]
    ]
