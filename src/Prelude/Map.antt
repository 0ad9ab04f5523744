-- ===== src/Prelude/Map.antt =====
-- Hash maps as association lists whose keys are distinct. The order of the entries is not used.
use Prim.Native.Nat.{◌+◌, ◌≤◌}
use mathlib.Core.Path.{◌≡◌, refl}
use mathlib.Core.Logic.{ite}
use mathlib.Core.List.{List, [], ◌∷◌, ◌++◌}
use mathlib.Core.Option.{Option, none, some}
use native.Mathlib.Omega.{arith}
use bro_know_my_qqbot.Prelude.Lists.{length}

module _ {ℓ} {K V : Type ℓ} (dec : Discrete K) where
  -- `HashMap::get`.
  unfoldable pub get : K → List (K × V) → Option V
  get k [] = none
  get k (e ∷ m) = ite (dec e.0 k) (some e.1) (get k m)

  -- `HashMap::insert`: replaces the value of a key that is present.
  unfoldable pub insert : K → V → List (K × V) → List (K × V)
  insert k v [] = (k, v) ∷ []
  insert k v (e ∷ m) = ite (dec e.0 k) ((k, v) ∷ m) (e ∷ insert k v m)

  -- `HashMap::remove`.
  unfoldable pub remove : K → List (K × V) → List (K × V)
  remove k [] = []
  remove k (e ∷ m) = ite (dec e.0 k) (remove k m) (e ∷ remove k m)

  -- No key occurs twice.
  abbrev pub Distinct : List (K × V) → Type ℓ
  Distinct [] = Unit
  Distinct (e ∷ m) = (get e.0 m ≡ none) × Distinct m

  pub get-insert :
      (k j : K) (v : V) (m : List (K × V)) → get j (insert k v m) ≡ ite (dec k j) (some v) (get j m)
  unfolding get insert
  get-insert k j v [] = refl
  get-insert k j v (e ∷ m) = ground (arith, get-insert k j v m)

  pub get-remove : (k j : K) (m : List (K × V)) → get j (remove k m) ≡ ite (dec k j) none (get j m)
  unfolding get remove
  get-remove k j [] = ground arith
  get-remove k j (e ∷ m) = ground (arith, get-remove k j m)

  pub insert-Distinct : (k : K) (v : V) (m : List (K × V)) → Distinct m → Distinct (insert k v m)
  unfolding insert get
  insert-Distinct k v [] d = ground arith
  insert-Distinct k v (e ∷ m) d = ground (arith, insert-Distinct k v m d.1, get-insert k e.0 v m)

  pub remove-Distinct : (k : K) (m : List (K × V)) → Distinct m → Distinct (remove k m)
  unfolding remove
  remove-Distinct k [] d = tt
  remove-Distinct k (e ∷ m) d = ground (arith, remove-Distinct k m d.1, get-remove k e.0 m)

  pub remove_absent : (k : K) (m : List (K × V)) → get k m ≡ none → remove k m ≡ m
  unfolding get remove
  remove_absent k [] h = refl
  remove_absent k (e ∷ m) h = ground (arith, remove_absent k m)

  pub length-insert_absent :
      (k : K) (v : V) (m : List (K × V)) → get k m ≡ none → length (insert k v m) ≡ length m + 1
  unfolding get insert
  length-insert_absent k v [] h = omega arith
  length-insert_absent k v (e ∷ m) h = ground (arith, length-insert_absent k v m)

  pub length-insert_present :
      (k : K) (v w : V) (m : List (K × V)) → get k m ≡ some w → length (insert k v m) ≡ length m
  unfolding get insert
  length-insert_present k v w [] h = cc
  length-insert_present k v w (e ∷ m) h = ground (arith, length-insert_present k v w m)

  pub length-remove :
      (k : K) (v : V) (m : List (K × V))
      → Distinct m
      → get k m ≡ some v
      → length (remove k m) + 1 ≡ length m
  unfolding get remove
  length-remove k v [] d h = cc
  length-remove k v (e ∷ m) d h = ground (arith, length-remove k v m d.1, remove_absent k m)

  pub length-remove-le : (k : K) (m : List (K × V)) → length (remove k m) ≤ length m
  unfolding remove
  length-remove-le k [] = omega arith
  length-remove-le k (e ∷ m) = ground (arith, length-remove-le k m)

  pub get-append_absent :
      (k j : K) (v : V) (m : List (K × V))
      → get k m ≡ none
      → get j (m ++ ((k, v) ∷ [])) ≡ ite (dec k j) (some v) (get j m)
  unfolding get
  get-append_absent k j v [] h = refl
  get-append_absent k j v (e ∷ m) h = ground (arith, get-append_absent k j v m)

  pub append_absent-Distinct :
      (k : K) (v : V) (m : List (K × V))
      → get k m ≡ none
      → Distinct m
      → Distinct (m ++ ((k, v) ∷ []))
  unfolding get
  append_absent-Distinct k v [] h d = (refl, tt)
  append_absent-Distinct k v (e ∷ m) h d =
      ground (arith, append_absent-Distinct k v m, get-append_absent k e.0 v m)
