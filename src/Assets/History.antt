-- ===== src/Assets/History.antt =====
-- Histories of the asset store: the calls of plugins and of the sweeper, in the order in which they
-- hold the mutex.
use bro_know_my_qqbot.Prelude.{
  ℕ, ◌≡◌, refl, ◌⊎◌, inl, inr, none, List, [], ◌∷◌, arith, leb, Option-cases, Result, ok, err,
}
use bro_know_my_qqbot.Prelude.Text.{Text, text_discrete, same_text}
use bro_know_my_qqbot.Prelude.Map
use bro_know_my_qqbot.Assets.{
  AssetState, AssetLimits, AssetError, AssetReference, Stamp, initial_state, ids_where,
  remove_record, purge_expired, owned_by, insert_prehashed, preflight, get, remove, remove_instance,
}
use bro_know_my_qqbot.Assets.Valid.{
  IsExact, remove_record-IsExact, remove_records-IsExact, purge_expired-IsExact,
}
use bro_know_my_qqbot.Assets.Insertion.{
  IsRepresentable, add_record-IsExact, Inserted, insert_prehashed-Inserted, preflight-eq,
}
use bro_know_my_qqbot.Assets.Valid.{get-remove_records}

pub data AssetCall : Type 0 where
  preflight_call : Text → Text → List ℕ → ℕ → AssetCall
  insert_call : Text → Text → List ℕ → Text → Stamp → AssetCall
  get_call : Text → Text → ℕ → AssetCall
  remove_call : Text → Text → AssetCall
  remove_instance_call : Text → AssetCall
  sweep_call : ℕ → AssetCall

unfoldable pub step : AssetLimits → AssetCall → AssetState → AssetState
unfolding preflight insert_prehashed get remove remove_instance purge_expired
step limits (preflight_call i mime bytes now) s = (preflight limits i mime bytes now s).0
step limits (insert_call i mime bytes digest stamp) s =
    (insert_prehashed limits i mime bytes digest stamp s).0
step limits (get_call i id now) s = (get i id now s).0
step limits (remove_call i id) s = (remove i id s).0
step limits (remove_instance_call i) s = remove_instance i s
step limits (sweep_call now) s = purge_expired s now

unfoldable pub run : AssetLimits → List AssetCall → AssetState → AssetState
unfolding step
run limits [] s = s
run limits (call ∷ calls) s = run limits calls (step limits call s)

-- The UUID of a new asset is not in use.
abbrev pub IsNew : AssetCall → AssetState → Type 0
IsNew (insert_call i mime bytes digest stamp) s =
    Map.get text_discrete stamp.asset_id s.records ≡ none
IsNew _ s = Unit

-- Each UUID of the history is new when it is drawn.
abbrev pub IsFresh : AssetLimits → List AssetCall → AssetState → Type 0
IsFresh limits [] s = Unit
IsFresh limits (call ∷ calls) s = IsNew call s × IsFresh limits calls (step limits call s)

pub get-purge_absent :
    (k : Text) (s : AssetState) (now : ℕ)
    → Map.get text_discrete k s.records ≡ none
    → Map.get text_discrete k (purge_expired s now).records ≡ none
unfolding purge_expired
get-purge_absent k s now h =
    ground (arith, get-remove_records k (ids_where (λ r. leb r.deadline now) s.records) s)

remove-eq :
    (i id : Text) (s : AssetState)
    → ((remove i id s).0 ≡ s) ⊎ ((remove i id s).0 ≡ remove_record id s)
unfolding remove
remove-eq i id s = elim (Option-cases (owned_by i (Map.get text_discrete id s.records))) [
  | inl e ↦ rw (e, remove) (inl refl)
  | inr (r, e) ↦ rw (e, remove) (inr refl)
]

module _ (limits : AssetLimits) (small : IsRepresentable limits) where
  Inserted-IsExact :
      (i mime : Text) (bytes : List ℕ) (stamp : Stamp) (s : AssetState)
      → IsExact limits s
      → Map.get text_discrete stamp.asset_id s.records ≡ none
      → (r : AssetState × Result AssetReference AssetError) → Inserted limits i mime bytes stamp s r
      → IsExact limits r.0
  Inserted-IsExact i mime bytes stamp s v fresh (s', ok reference) (size, q, room, e, _) = rw e (
      add_record-IsExact limits i mime bytes size stamp (purge_expired s stamp.now) small
        (purge_expired-IsExact limits s stamp.now v) room
        (get-purge_absent stamp.asset_id s stamp.now fresh))
  Inserted-IsExact i mime bytes stamp s v fresh (s', err x) (inl (e, q)) = rw e v
  Inserted-IsExact i mime bytes stamp s v fresh (s', err x) (inr (e, q)) =
      rw e (purge_expired-IsExact limits s stamp.now v)

  pub step-IsExact :
      (call : AssetCall) (s : AssetState)
      → IsExact limits s
      → IsNew call s
      → IsExact limits (step limits call s)
  unfolding step get remove_instance
  step-IsExact (preflight_call i mime bytes now) s v n =
      elim (preflight-eq limits i mime bytes now s) [
        | inl e ↦ rw e v
        | inr e ↦ rw e (purge_expired-IsExact limits s now v)
      ]
  step-IsExact (insert_call i mime bytes digest stamp) s v n =
      Inserted-IsExact i mime bytes stamp s v n
        (insert_prehashed limits i mime bytes digest stamp s)
        (insert_prehashed-Inserted limits i mime bytes digest stamp s small v)
  step-IsExact (get_call i id now) s v n = purge_expired-IsExact limits s now v
  step-IsExact (remove_call i id) s v n = elim (remove-eq i id s) [
    | inl e ↦ rw e v
    | inr e ↦ rw e (remove_record-IsExact limits id s v)
  ]
  step-IsExact (remove_instance_call i) s v n =
      remove_records-IsExact limits (ids_where (λ r. same_text r.instance_id i) s.records) s v
  step-IsExact (sweep_call now) s v n = purge_expired-IsExact limits s now v

  pub run-IsExact :
      (calls : List AssetCall) (s : AssetState)
      → IsExact limits s
      → IsFresh limits calls s
      → IsExact limits (run limits calls s)
  unfolding run
  run-IsExact [] s v f = v
  run-IsExact (call ∷ calls) s v f =
      run-IsExact calls (step limits call s) (step-IsExact call s v f.0) f.1

pub initial-IsExact : (limits : AssetLimits) → IsExact limits initial_state
unfolding Map.get
initial-IsExact limits = record {
  distinct = tt;
  usage_distinct = tt;
  total = refl;
  usage = λ i. refl;
  store_count = omega arith;
  store_bytes = omega arith;
  instance_count = λ i. omega arith;
  instance_bytes = λ i. omega arith;
}

-- From an empty store, with limits below the largest machine number and UUIDs that are not in use
-- when they are drawn: after any history of checks, insertions, reads, removals and sweeps, the
-- total and the usage of each instance are those of the records, an instance without records has
-- no usage on record, and neither the store nor an instance exceeds its limits of assets and bytes.
pub run-initial-IsExact :
    (limits : AssetLimits) (calls : List AssetCall)
    → IsRepresentable limits
    → IsFresh limits calls initial_state
    → IsExact limits (run limits calls initial_state)
run-initial-IsExact limits calls small f =
    run-IsExact limits small calls initial_state (initial-IsExact limits) f
