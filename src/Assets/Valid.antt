-- ===== src/Assets/Valid.antt =====
-- The accounts of the asset store: what it must keep, and that dropping records keeps it.
use bro_know_my_qqbot.Prelude.{
  ℕ, ◌+◌, ◌-◌, ◌≤◌, ◌≡◌, refl, ap, inl, inr, Option, none, some, List, [], ◌∷◌, ite, arith, leb,
  ◌==◌, if◌then◌else◌, length, Option-cases, Bool-cases,
}
use bro_know_my_qqbot.Prelude.Text.{Text, text_discrete}
use bro_know_my_qqbot.Prelude.Map.{
  Distinct, get, insert, remove, get-insert, get-remove, insert-Distinct, remove-Distinct,
  length-remove-le,
}
use bro_know_my_qqbot.Assets.{
  AssetRecord, AssetUsage, AssetState, AssetLimits, remove_usage, remove_record, remove_records,
  purge_expired, ids_where,
}
use bro_know_my_qqbot.Assets.Sums.{weigh, one_of, bytes_of, weigh-remove, listed}

-- What is on record for an instance with these records: nothing, if it has none.
abbrev pub usage_of_records : Text → List (Text × AssetRecord) → Option AssetUsage
usage_of_records i m =
    if weigh (one_of i) m == 0
    then none
    else some (record { count = weigh (one_of i) m; bytes = weigh (bytes_of i) m })

-- The accounts agree with the records and stay within the limits.
pub record IsExact (limits : AssetLimits) (s : AssetState) : Type 0 where
  pub distinct : Distinct text_discrete s.records
  pub usage_distinct : Distinct text_discrete s.instance_usage
  pub total : s.total_bytes ≡ weigh (λ r. r.accounted_bytes) s.records
  pub usage : (i : Text) → get text_discrete i s.instance_usage ≡ usage_of_records i s.records
  pub store_count : length s.records ≤ limits.max_store_assets
  pub store_bytes : weigh (λ r. r.accounted_bytes) s.records ≤ limits.max_store_bytes
  pub instance_count : (i : Text) → weigh (one_of i) s.records ≤ limits.max_instance_assets
  pub instance_bytes : (i : Text) → weigh (bytes_of i) s.records ≤ limits.max_instance_bytes

-- The usage that is left of one record less.
abbrev less : AssetUsage → AssetRecord → AssetUsage
less usage r = record { count = usage.count - 1; bytes = usage.bytes - r.accounted_bytes }

abbrev with_less : AssetRecord → List (Text × AssetUsage) → AssetUsage → List (Text × AssetUsage)
with_less r u usage =
    if usage.count - 1 == 0
    then remove text_discrete r.instance_id u
    else insert text_discrete r.instance_id (less usage r) u

remove_usage_present :
    (r : AssetRecord) (u : List (Text × AssetUsage)) (usage : AssetUsage)
    → get text_discrete r.instance_id u ≡ some usage
    → remove_usage r u ≡ with_less r u usage
unfolding remove_usage
remove_usage_present r u usage e = ap (λ o. elim o [ none ↦ u | some left ↦ with_less r u left ]) e

remove_usage_absent :
    (r : AssetRecord) (u : List (Text × AssetUsage))
    → get text_discrete r.instance_id u ≡ none
    → remove_usage r u ≡ u
unfolding remove_usage
remove_usage_absent r u e = ap (λ o. elim o [ none ↦ u | some left ↦ with_less r u left ]) e

with_less-Distinct :
    (r : AssetRecord) (u : List (Text × AssetUsage)) (usage : AssetUsage)
    → Distinct text_discrete u
    → Distinct text_discrete (with_less r u usage)
with_less-Distinct r u usage d = elim (Bool-cases (usage.count - 1 == 0)) [
  | inl z ↦ rw z (remove-Distinct text_discrete r.instance_id u d)
  | inr z ↦ rw z (insert-Distinct text_discrete r.instance_id _ u d)
]

remove_usage-Distinct :
    (r : AssetRecord) (u : List (Text × AssetUsage))
    → Distinct text_discrete u
    → Distinct text_discrete (remove_usage r u)
remove_usage-Distinct r u d = elim (Option-cases (get text_discrete r.instance_id u)) [
  | inl e ↦ rw (remove_usage_absent r u e) d
  | inr (usage, e) ↦ rw (remove_usage_present r u usage e) (with_less-Distinct r u usage d)
]

get-with_less :
    (r : AssetRecord) (u : List (Text × AssetUsage)) (usage : AssetUsage) (i : Text)
    → get text_discrete i (with_less r u usage)
      ≡ ite
          (text_discrete r.instance_id i)
          (if usage.count - 1 == 0 then none else some (less usage r))
          (get text_discrete i u)
get-with_less r u usage i = elim (Bool-cases (usage.count - 1 == 0)) [
  | inl z ↦ rw z (get-remove text_discrete r.instance_id i u)
  | inr z ↦ rw z (get-insert text_discrete r.instance_id i (less usage r) u)
]

-- The usage of each instance when its record is taken out.
get-remove_usage :
    (r : AssetRecord) (u : List (Text × AssetUsage)) (m m' : List (Text × AssetRecord))
    → ((i : Text) → get text_discrete i u ≡ usage_of_records i m)
    → ((w : AssetRecord → ℕ) → weigh w m' + w r ≡ weigh w m)
    → (i : Text) → get text_discrete i (remove_usage r u) ≡ usage_of_records i m'
get-remove_usage r u m m' h w i =
    let usage : AssetUsage = record {
      count = weigh (one_of r.instance_id) m;
      bytes = weigh (bytes_of r.instance_id) m;
    } in
    let own : one_of r.instance_id r ≡ 1 = ground arith in
    let e : get text_discrete r.instance_id u ≡ some usage =
      ground (arith, h r.instance_id, w (one_of r.instance_id)) in
    rw (remove_usage_present r u usage e, get-with_less r u usage i)
      (ground (arith, h i, w (one_of i), w (bytes_of i)))

-- One record less.
abbrev without : Text → AssetRecord → AssetState → AssetState
without id r s = record {
  records = remove text_discrete id s.records;
  instance_usage = remove_usage r s.instance_usage;
  total_bytes = s.total_bytes - r.accounted_bytes;
}

remove_record_present :
    (id : Text) (r : AssetRecord) (s : AssetState)
    → get text_discrete id s.records ≡ some r
    → remove_record id s ≡ without id r s
unfolding remove_record
remove_record_present id r s e = ap (λ o. elim o [ none ↦ s | some x ↦ without id x s ]) e

remove_record_absent :
    (id : Text) (s : AssetState) → get text_discrete id s.records ≡ none → remove_record id s ≡ s
unfolding remove_record
remove_record_absent id s e = ap (λ o. elim o [ none ↦ s | some x ↦ without id x s ]) e

without-IsExact :
    (limits : AssetLimits) (id : Text) (r : AssetRecord) (s : AssetState)
    → IsExact limits s
    → get text_discrete id s.records ≡ some r
    → IsExact limits (without id r s)
without-IsExact limits id r s v e =
    let taken : (w : AssetRecord → ℕ)
        → weigh w (remove text_discrete id s.records) + w r ≡ weigh w s.records =
      λ w. weigh-remove w id r s.records v.distinct e in
    record {
      distinct = remove-Distinct text_discrete id s.records v.distinct;
      usage_distinct = remove_usage-Distinct r s.instance_usage v.usage_distinct;
      total = omega (arith, v.total, taken (λ x. x.accounted_bytes));
      usage = get-remove_usage r s.instance_usage s.records _ v.usage taken;
      store_count = omega (arith, v.store_count, length-remove-le text_discrete id s.records);
      store_bytes = omega (arith, v.store_bytes, taken (λ x. x.accounted_bytes));
      instance_count = λ i. omega (arith, v.instance_count i, taken (one_of i));
      instance_bytes = λ i. omega (arith, v.instance_bytes i, taken (bytes_of i));
    }

pub remove_record-IsExact :
    (limits : AssetLimits) (id : Text) (s : AssetState)
    → IsExact limits s
    → IsExact limits (remove_record id s)
remove_record-IsExact limits id s v = elim (Option-cases (get text_discrete id s.records)) [
  | inl e ↦ rw (remove_record_absent id s e) v
  | inr (r, e) ↦ rw (remove_record_present id r s e) (without-IsExact limits id r s v e)
]

pub remove_records-IsExact :
    (limits : AssetLimits) (ids : List Text) (s : AssetState)
    → IsExact limits s
    → IsExact limits (remove_records ids s)
unfolding remove_records
remove_records-IsExact limits [] s v = v
remove_records-IsExact limits (id ∷ ids) s v =
    remove_records-IsExact limits ids (remove_record id s) (remove_record-IsExact limits id s v)

pub purge_expired-IsExact :
    (limits : AssetLimits) (s : AssetState) (now : ℕ)
    → IsExact limits s
    → IsExact limits (purge_expired s now)
unfolding purge_expired
purge_expired-IsExact limits s now v =
    remove_records-IsExact limits (ids_where (λ r. leb r.deadline now) s.records) s v

pub get-remove_record :
    (k id : Text) (s : AssetState)
    → get text_discrete k (remove_record id s).records
      ≡ ite (text_discrete id k) none (get text_discrete k s.records)
get-remove_record k id s = elim (Option-cases (get text_discrete id s.records)) [
  | inl e ↦ rw (remove_record_absent id s e) (ground arith)
  | inr (r, e) ↦ rw (remove_record_present id r s e) (get-remove text_discrete id k s.records)
]

-- The records that are left are those that are not listed.
pub get-remove_records :
    (k : Text) (ids : List Text) (s : AssetState)
    → get text_discrete k (remove_records ids s).records
      ≡ (if listed k ids then none else get text_discrete k s.records)
unfolding remove_records
get-remove_records k [] s = refl
get-remove_records k (id ∷ ids) s =
    ground (arith, get-remove_records k ids (remove_record id s), get-remove_record k id s)
