-- ===== src/Assets/Life.antt =====
-- The life of an asset: who can read it, and until when.
use bro_know_my_qqbot.Prelude.{
  ℕ, ◌<◌, ◌≡◌, ◌≢◌, ap, ◌∙◌, ◌⊎◌, inl, inr, Bool, none, some, List, [], ◌∷◌, arith, leb,
  if◌then◌else◌, Option-cases, Result, ok, err, All,
}
use bro_know_my_qqbot.Prelude.Text.{Text, text_discrete, same_text}
use bro_know_my_qqbot.Prelude.Map
use bro_know_my_qqbot.Prelude.Map.{get-insert}
use bro_know_my_qqbot.Assets.{
  AssetRecord, AssetState, AssetLimits, AssetError, AssetReference, Stamp, not_found, ids_where,
  purge_expired, owned_by, insert_prehashed, get, remove, remove_instance, asset_or_missing,
}
use bro_know_my_qqbot.Assets.Valid.{
  IsExact, purge_expired-IsExact, get-remove_records, get-remove_record,
}
use bro_know_my_qqbot.Assets.Insertion.{
  IsRepresentable, new_record, add_record-eq, Inserted, insert_prehashed-Inserted, preflight-eq,
}
use bro_know_my_qqbot.Assets.History.{
  AssetCall, preflight_call, insert_call, get_call, remove_call, remove_instance_call, sweep_call,
  step, run, IsNew, IsFresh, step-IsExact,
}
use bro_know_my_qqbot.Assets.Sums.{listed-ids_where, same_text-eq}

-- A call that comes before the deadline and does not remove the asset `id` of the instance `i`.
abbrev pub Spares : Text → Text → ℕ → AssetCall → Type 0
Spares i id deadline (preflight_call j mime bytes now) = now < deadline
Spares i id deadline (insert_call j mime bytes digest stamp) = stamp.now < deadline
Spares i id deadline (get_call j k now) = now < deadline
Spares i id deadline (remove_call j k) = (j ≢ i) ⊎ (k ≢ id)
Spares i id deadline (remove_instance_call j) = j ≢ i
Spares i id deadline (sweep_call now) = now < deadline

module _ (limits : AssetLimits) (id : Text) (r : AssetRecord) where
  abbrev Holds : AssetState → Type 0
  Holds s = Map.get text_discrete id s.records ≡ some r

  -- The record through a sweep.
  pub get-purge :
      (s : AssetState) (now : ℕ)
      → IsExact limits s
      → Holds s
      → Map.get text_discrete id (purge_expired s now).records
        ≡ (if leb r.deadline now then none else some r)
  unfolding purge_expired
  get-purge s now v h =
      let ids = ids_where (λ x. leb x.deadline now) s.records in
      get-remove_records id ids s
      ∙ ap (λ b. if b then none else Map.get text_discrete id s.records)
          (listed-ids_where (λ x. leb x.deadline now) id r s.records v.distinct h)
      ∙ ap (λ o. if leb r.deadline now then none else o) h

  purge-Holds :
      (s : AssetState) (now : ℕ)
      → IsExact limits s
      → Holds s
      → now < r.deadline
      → Holds (purge_expired s now)
  purge-Holds s now v h l = ground (arith, get-purge s now v h)

  remove-Holds :
      (s : AssetState) (j k : Text)
      → Holds s
      → (j ≢ r.instance_id) ⊎ (k ≢ id)
      → Holds (remove j k s).0
  unfolding remove
  remove-Holds s j k h n = elim (Option-cases (owned_by j (Map.get text_discrete k s.records))) [
    | inl e ↦ rw (e, remove) h
    | inr (x, e) ↦
        rw (e, remove) (ground (arith, get-remove_record id k s, same_text-eq r.instance_id j))
  ]

  remove_instance-Holds :
      (s : AssetState) (j : Text)
      → IsExact limits s
      → Holds s
      → j ≢ r.instance_id
      → Holds (remove_instance j s)
  unfolding remove_instance
  remove_instance-Holds s j v h n =
      let p : AssetRecord → Bool = λ x. same_text x.instance_id j in
      ground (
        arith,
        get-remove_records id (ids_where p s.records) s,
        listed-ids_where p id r s.records v.distinct h,
        same_text-eq r.instance_id j,
      )

  module _ (small : IsRepresentable limits) where
    Inserted-Holds :
        (i mime : Text) (bytes : List ℕ) (stamp : Stamp) (s : AssetState)
        → IsExact limits s
        → Holds s
        → Map.get text_discrete stamp.asset_id s.records ≡ none
        → stamp.now < r.deadline
        → (o : AssetState × Result AssetReference AssetError)
        → Inserted limits i mime bytes stamp s o
        → Holds o.0
    Inserted-Holds i mime bytes stamp s v h fresh l (s', ok reference) (size, q, room, e, _) =
        let p = purge_expired s stamp.now in
        let x = new_record limits i mime bytes size stamp in
        rw
          (
            e,
            add_record-eq limits i mime bytes size stamp p small
                (purge_expired-IsExact limits s stamp.now v) room,
          )
          (ground (
            arith,
            get-insert text_discrete stamp.asset_id id x p.records,
            purge-Holds s stamp.now v h l,
          ))
    Inserted-Holds i mime bytes stamp s v h fresh l (s', err x) (inl (e, q)) = rw e h
    Inserted-Holds i mime bytes stamp s v h fresh l (s', err x) (inr (e, q)) =
        rw e (purge-Holds s stamp.now v h l)

    step-Holds :
        (call : AssetCall) (s : AssetState)
        → IsExact limits s
        → Holds s
        → IsNew call s
        → Spares r.instance_id id r.deadline call
        → Holds (step limits call s)
    unfolding step get
    step-Holds (preflight_call i mime bytes now) s v h n l =
        elim (preflight-eq limits i mime bytes now s) [
          | inl e ↦ rw e h
          | inr e ↦ rw e (purge-Holds s now v h l)
        ]
    step-Holds (insert_call i mime bytes digest stamp) s v h n l =
        Inserted-Holds i mime bytes stamp s v h n l
          (insert_prehashed limits i mime bytes digest stamp s)
          (insert_prehashed-Inserted limits i mime bytes digest stamp s small v)
    step-Holds (get_call j k now) s v h n l = purge-Holds s now v h l
    step-Holds (remove_call j k) s v h n l = remove-Holds s j k h l
    step-Holds (remove_instance_call j) s v h n l = remove_instance-Holds s j v h l
    step-Holds (sweep_call now) s v h n l = purge-Holds s now v h l

    pub run-Holds :
        (calls : List AssetCall) (s : AssetState)
        → IsExact limits s
        → Holds s
        → IsFresh limits calls s
        → All (Spares r.instance_id id r.deadline) calls
        → Holds (run limits calls s)
    unfolding run
    run-Holds [] s v h f l = h
    run-Holds (call ∷ calls) s v h f l =
        run-Holds calls (step limits call s) (step-IsExact limits small call s v f.0)
          (step-Holds call s v h f.0 l.0) f.1 l.1

  -- What a read finds, by the instance that asks and the time.
  pub get_held :
      (j : Text) (now : ℕ) (s : AssetState)
      → IsExact limits s
      → Holds s
      → (get j id now s).1 ≡ (
          if leb r.deadline now
          then err not_found
          else if same_text r.instance_id j
          then ok r.asset
          else err not_found)
  unfolding get
  get_held j now s v h =
      ap (λ o. asset_or_missing (owned_by j o)) (get-purge s now v h) ∙ ground arith
