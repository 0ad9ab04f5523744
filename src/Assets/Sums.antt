-- ===== src/Assets/Sums.antt =====
-- Sums over the records of the asset store, and how the operations of its map change them.
use bro_know_my_qqbot.Prelude.{
  ℕ, ◌+◌, ◌≤◌, ◌≡◌, refl, Bool, true, false, none, some, List, [], ◌∷◌, ite, arith,
}
use bro_know_my_qqbot.Prelude.Text.{Text, text_discrete, same_text}
use bro_know_my_qqbot.Prelude.Map.{Distinct, get, insert, remove, remove_absent}
use bro_know_my_qqbot.Assets.{AssetRecord, ids_where}

-- The sum of a weight over the records.
abbrev pub weigh : (AssetRecord → ℕ) → List (Text × AssetRecord) → ℕ
weigh w [] = 0
weigh w (e ∷ m) = w e.1 + weigh w m

-- One for each record of the instance, and the bytes of each of its records.
abbrev pub one_of : Text → AssetRecord → ℕ
one_of i r = ite (text_discrete r.instance_id i) 1 0

abbrev pub bytes_of : Text → AssetRecord → ℕ
bytes_of i r = ite (text_discrete r.instance_id i) r.accounted_bytes 0

pub weigh-remove :
    (w : AssetRecord → ℕ) (k : Text) (r : AssetRecord) (m : List (Text × AssetRecord))
    → Distinct text_discrete m
    → get text_discrete k m ≡ some r
    → weigh w (remove text_discrete k m) + w r ≡ weigh w m
unfolding get remove
weigh-remove w k r [] d h = cc
weigh-remove w k r (e ∷ m) d h =
    ground (arith, weigh-remove w k r m d.1, remove_absent text_discrete k m)

pub weigh-insert_absent :
    (w : AssetRecord → ℕ) (k : Text) (r : AssetRecord) (m : List (Text × AssetRecord))
    → get text_discrete k m ≡ none
    → weigh w (insert text_discrete k r m) ≡ weigh w m + w r
unfolding get insert
weigh-insert_absent w k r [] h = omega arith
weigh-insert_absent w k r (e ∷ m) h = ground (arith, weigh-insert_absent w k r m)

pub weigh-le :
    (v w : AssetRecord → ℕ) (m : List (Text × AssetRecord))
    → ((r : AssetRecord) → v r ≤ w r)
    → weigh v m ≤ weigh w m
weigh-le v w [] h = omega arith
weigh-le v w (e ∷ m) h = omega (arith, h e.1, weigh-le v w m h)

-- An instance without records has no bytes.
pub weigh_none :
    (i : Text) (m : List (Text × AssetRecord)) → weigh (one_of i) m ≡ 0 → weigh (bytes_of i) m ≡ 0
weigh_none i [] h = refl
weigh_none i (e ∷ m) h = ground (arith, weigh_none i m)

-- Whether an identifier is listed.
abbrev pub listed : Text → List Text → Bool
listed k [] = false
listed k (id ∷ ids) = ite (text_discrete id k) true (listed k ids)

listed-ids_where_absent :
    (p : AssetRecord → Bool) (k : Text) (m : List (Text × AssetRecord))
    → get text_discrete k m ≡ none
    → listed k (ids_where p m) ≡ false
unfolding get
listed-ids_where_absent p k [] h = refl
listed-ids_where_absent p k (e ∷ m) h = ground (arith, listed-ids_where_absent p k m)

pub listed-ids_where :
    (p : AssetRecord → Bool) (k : Text) (r : AssetRecord) (m : List (Text × AssetRecord))
    → Distinct text_discrete m
    → get text_discrete k m ≡ some r
    → listed k (ids_where p m) ≡ p r
unfolding get
listed-ids_where p k r [] d h = cc
listed-ids_where p k r (e ∷ m) d h =
    ground (arith, listed-ids_where p k r m d.1, listed-ids_where_absent p k m)

pub same_text-eq : (s t : Text) → same_text s t ≡ true → s ≡ t
same_text-eq s t h = ground arith

pub same_text_self : (s : Text) → same_text s s ≡ true
same_text_self s = ground arith
