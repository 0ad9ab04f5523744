-- ===== src/Assets/Scope.antt =====
-- An asset is its instance's until its deadline: reads and removals through any history.
use bro_know_my_qqbot.Prelude.{
  ℕ, ◌+◌, ◌≡◌, ap, sym, none, some, List, ◌∷◌, arith, leb, if◌then◌else◌, Result, ok, err, All,
}
use bro_know_my_qqbot.Prelude.Text.{Text, text_discrete, same_text}
use bro_know_my_qqbot.Prelude.Map
use bro_know_my_qqbot.Prelude.Map.{get-insert}
use bro_know_my_qqbot.Assets.{
  AssetRecord, AssetState, StoredAsset, AssetLimits, AssetError, AssetReference, Stamp, not_found,
  remove_record, purge_expired, owned_by, insert_prehashed, get, remove, asset_or_missing,
}
use bro_know_my_qqbot.Assets.Valid.{IsExact, purge_expired-IsExact, get-remove_record}
use bro_know_my_qqbot.Assets.Insertion.{
  IsRepresentable, new_record, add_record-eq, Inserted, insert_prehashed-Inserted,
}
use bro_know_my_qqbot.Assets.History.{
  AssetCall, insert_call, run, IsFresh, step-IsExact, run-IsExact, get-purge_absent,
}
use bro_know_my_qqbot.Assets.Life.{Spares, run-Holds, get_held}

-- Who reads the asset `id` of the instance `i`: its owner, before the deadline, and nobody else.
pub record IsScoped (i id : Text) (asset : StoredAsset) (deadline : ℕ) (s : AssetState)
    : Type 0 where
  pub reads :
      (j : Text) (now : ℕ)
      → (get j id now s).1 ≡ (
          if leb deadline now
          then err not_found
          else if same_text i j
          then ok asset
          else err not_found)
  pub removals :
      (j : Text)
      → remove j id s ≡ (if same_text i j then (remove_record id s, ok tt) else (s, err not_found))
  pub gone : (j : Text) (now : ℕ) → (get j id now (remove_record id s)).1 ≡ err not_found

get_absent :
    (i id : Text) (now : ℕ) (s : AssetState)
    → Map.get text_discrete id s.records ≡ none
    → (get i id now s).1 ≡ err not_found
unfolding get
get_absent i id now s h = ap (λ o. asset_or_missing (owned_by i o)) (get-purge_absent id s now h)

remove_held :
    (j id : Text) (r : AssetRecord) (s : AssetState)
    → Map.get text_discrete id s.records ≡ some r
    → remove j id s
      ≡ (if same_text r.instance_id j then (remove_record id s, ok tt) else (s, err not_found))
unfolding remove
remove_held j id r s h = ground arith

held-IsScoped :
    (limits : AssetLimits) (id : Text) (r : AssetRecord) (s : AssetState)
    → IsExact limits s
    → Map.get text_discrete id s.records ≡ some r
    → IsScoped r.instance_id id r.asset r.deadline s
held-IsScoped limits id r s v h = record {
  reads = λ j now. get_held limits id r j now s v h;
  removals = λ j. remove_held j id r s h;
  gone = λ j now.
      get_absent j id now (remove_record id s) (rw (get-remove_record id id s) (ground arith));
}

module _ (limits : AssetLimits) (small : IsRepresentable limits) where
  -- The new record, right after a successful insertion.
  Inserted-held :
      (i mime : Text) (bytes : List ℕ) (stamp : Stamp) (s : AssetState)
      → IsExact limits s
      → (o : AssetState × Result AssetReference AssetError) → Inserted limits i mime bytes stamp s o
      → (reference : AssetReference) → o.1 ≡ ok reference
      → (size : ℕ) × (Map.get text_discrete reference.asset_id o.0.records
          ≡ some (new_record limits i mime bytes size stamp))
  Inserted-held i mime bytes stamp s v (s', err x) d reference q = cc
  Inserted-held i mime bytes stamp s v (s', ok known) (size, _, room, e, n) reference q =
      let p = purge_expired s stamp.now in
      let x = new_record limits i mime bytes size stamp in
      let same : known ≡ reference = ground arith in
      (
        size,
        rw
            (
              sym same,
              n,
              e,
              add_record-eq limits i mime bytes size stamp p small
                  (purge_expired-IsExact limits s stamp.now v) room,
            )
            (ground (arith, get-insert text_discrete stamp.asset_id stamp.asset_id x p.records)),
      )

-- With limits below the largest machine number and a state whose accounts are exact: once an
-- insertion returns a reference, then through any history of calls that come before the deadline,
-- draw new UUIDs and do not remove this asset or its instance's assets, every read of the
-- reference by the owner before the deadline returns the MIME type and the data that were
-- inserted; reads from the deadline on and reads by another instance find nothing; a removal by
-- another instance finds nothing and changes nothing; and the owner's removal succeeds and takes
-- out the record, after which nobody reads the asset.
pub insert_prehashed-IsScoped :
    (limits : AssetLimits) (i mime : Text) (bytes : List ℕ) (digest : Text) (stamp : Stamp)
    (s : AssetState) (reference : AssetReference) (calls : List AssetCall)
    → IsRepresentable limits
    → IsExact limits s
    → IsFresh limits (insert_call i mime bytes digest stamp ∷ calls) s
    → (insert_prehashed limits i mime bytes digest stamp s).1 ≡ ok reference
    → All (Spares i reference.asset_id (stamp.now + limits.ttl)) calls
    → IsScoped i reference.asset_id
        (record { mime_type = mime; data_bytes = bytes })
        (stamp.now + limits.ttl)
        (run limits (insert_call i mime bytes digest stamp ∷ calls) s)
unfolding run
insert_prehashed-IsScoped limits i mime bytes digest stamp s reference calls small v f q spared =
    let call = insert_call i mime bytes digest stamp in
    let o = insert_prehashed limits i mime bytes digest stamp s in
    let v' : IsExact limits o.0 = step-IsExact limits small call s v f.0 in
    let (size, held) =
      Inserted-held limits small i mime bytes stamp s v o
        (insert_prehashed-Inserted limits i mime bytes digest stamp s small v) reference q in
    let r = new_record limits i mime bytes size stamp in
    held-IsScoped limits reference.asset_id r (run limits calls o.0)
      (run-IsExact limits small calls o.0 v' f.1)
      (run-Holds limits reference.asset_id r small calls o.0 v' held f.1 spared)
