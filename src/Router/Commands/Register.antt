-- ===== src/Router/Commands/Register.antt =====
-- What `CommandRouter::command` registers.
use bro_know_my_qqbot.Prelude.{
  ℕ, ◌+◌, ◌≤◌, ◌≡◌, refl, sym, append-nil, Result-cases, ◌∙◌, Bool, true, false, none, some, List,
  [], ◌∷◌, ◌++◌, if◌then◌else◌, ok, arith, any, length, length-append, append_assoc, inl, inr,
  saturating_add,
}
use bro_know_my_qqbot.Prelude.Map.{get, insert, get-insert, length-insert_absent}
use bro_know_my_qqbot.Prelude.Text.{Text, text_discrete, same_text, is_some}
use bro_know_my_qqbot.Router.Commands.{
  CommandRouter, RegisteredCommand, normalize_command, collect_aliases, check_keys, insert_keys,
  command, max_command_keys,
}

-- The text is one of the keys.
abbrev pub is_among : Text → List Text → Bool
is_among j keys = any (same_text j) keys

module _ {H : Type 0} where
  get-insert_keys :
      (r : RegisteredCommand H) (keys : List Text) (m : List (Text × RegisteredCommand H))
      (j : Text)
      → get text_discrete j (insert_keys r keys m)
        ≡ (if is_among j keys then some r else get text_discrete j m)
  unfolding insert_keys
  get-insert_keys r [] m j = refl
  get-insert_keys r (k ∷ keys) m j = ground (
    arith,
    get-insert_keys r keys (insert text_discrete k r m) j,
    get-insert text_discrete k j r m,
  )

  -- Keys that pass are absent, and none occurs twice or among those seen before.
  abbrev pub Fresh : List (Text × RegisteredCommand H) → List Text → Type 0
  Fresh m [] = Unit {0}
  Fresh m (k ∷ keys) = (get text_discrete k m ≡ none) × (is_among k keys ≡ false) × Fresh m keys

  check_keys_unseen :
      (m : List (Text × RegisteredCommand H)) (unique keys : List Text) (x : Text)
      → check_keys m unique keys ≡ ok tt
      → is_among x unique ≡ true
      → is_among x keys ≡ false
  unfolding check_keys
  check_keys_unseen m unique [] x h a = refl
  check_keys_unseen m unique (k ∷ keys) x h a =
      ground (arith, check_keys_unseen m (k ∷ unique) keys x)

  none_of :
      (m : List (Text × RegisteredCommand H)) (k : Text)
      → is_some (get text_discrete k m) ≡ false
      → get text_discrete k m ≡ none
  none_of m k h = ground arith

  check_keys-Fresh :
      (m : List (Text × RegisteredCommand H)) (unique keys : List Text)
      → check_keys m unique keys ≡ ok tt
      → Fresh m keys
  unfolding check_keys
  check_keys-Fresh m unique [] h = tt
  check_keys-Fresh m unique (k ∷ keys) h =
      let tail : check_keys m (k ∷ unique) keys ≡ ok tt = ground arith in
      (
        none_of m k (ground arith),
        check_keys_unseen m (k ∷ unique) keys k tail (ground arith),
        check_keys-Fresh m (k ∷ unique) keys tail,
      )

  Fresh-insert :
      (r : RegisteredCommand H) (k : Text) (keys : List Text)
      (m : List (Text × RegisteredCommand H))
      → is_among k keys ≡ false
      → Fresh m keys
      → Fresh (insert text_discrete k r m) keys
  Fresh-insert r k [] m a f = tt
  Fresh-insert r k (j ∷ keys) m a f = (
    ground (arith, get-insert text_discrete k j r m),
    f.1,
    Fresh-insert r k keys m (ground arith) f.2,
  )

  length-insert_keys :
      (r : RegisteredCommand H) (keys : List Text) (m : List (Text × RegisteredCommand H))
      → Fresh m keys
      → length (insert_keys r keys m) ≡ length m + length keys
  unfolding insert_keys
  length-insert_keys r [] m f = omega arith
  length-insert_keys r (k ∷ keys) m f = omega (
    arith,
    length-insert_keys r keys (insert text_discrete k r m) (Fresh-insert r k keys m f.1 f.2),
    length-insert_absent text_discrete k r m f.0,
  )

  pub Fresh-absent :
      (keys : List Text) (m : List (Text × RegisteredCommand H)) (j : Text)
      → Fresh m keys
      → is_among j keys ≡ true
      → get text_discrete j m ≡ none
  Fresh-absent [] m j f a = cc
  Fresh-absent (k ∷ keys) m j f a = ground (arith, f.0, Fresh-absent keys m j f.2)

-- The names are the normal forms of the aliases, in order.
abbrev pub Normalizes : List Text → List Text → Type 0
Normalizes [] [] = Unit {0}
Normalizes (v ∷ vs) (n ∷ ns) = (normalize_command v ≡ ok n) × Normalizes vs ns
Normalizes _ _ = ⊥

collect_aliases_lem :
    (registered : ℕ) (names aliases collected : List Text)
    → registered + length names + 1 ≤ max_command_keys
    → collect_aliases registered names aliases ≡ ok collected
    → (added : List Text) × (collected ≡ names ++ added)
      × Normalizes aliases added
      × (registered + length collected + 1 ≤ max_command_keys)
unfolding collect_aliases saturating_add
collect_aliases_lem registered names [] collected b h =
    let same : names ≡ collected = ground arith in
    ([], sym same ∙ sym (append-nil names), tt, rw (← same) b)
collect_aliases_lem registered names (alias ∷ aliases) collected b h =
    elim (Result-cases (normalize_command alias)) [
      | inr (e, bad) ↦ absurd (ground arith)
      | inl (name, good) ↦
          let grown = length-append names (name ∷ []) in
          let rest : collect_aliases registered (names ++ (name ∷ [])) aliases ≡ ok collected =
            ground arith in
          let room : registered + length (names ++ (name ∷ [])) + 1 ≤ max_command_keys =
            ground (arith, grown) in
          let (added, eq, norm, bound) =
            collect_aliases_lem registered (names ++ (name ∷ [])) aliases collected room rest in
          (name ∷ added, eq ∙ append_assoc names (name ∷ []) added, (good, norm), bound)
    ]

length-Normalizes : (vs ns : List Text) → Normalizes vs ns → length ns ≡ length vs
length-Normalizes [] [] n = refl
length-Normalizes (v ∷ vs) (m ∷ ns) n = omega (arith, length-Normalizes vs ns n.1)
length-Normalizes [] (m ∷ ns) n = elim n [ ]
length-Normalizes (v ∷ vs) [] n = elim n [ ]

-- What a successful registration does.
pub record Registers {H : Type 0} (r r' : CommandRouter H) (name : Text) (aliases : List Text)
    (handler : H) : Type 0 where
  pub canonical : Text
  pub names : List Text
  pub canonical_lem : normalize_command name ≡ ok canonical
  pub names_lem : Normalizes aliases names
  pub fresh : Fresh r.commands (canonical ∷ names)
  pub entries :
      (j : Text)
      → get text_discrete j r'.commands ≡ (
          if is_among j (canonical ∷ names)
          then some (record { canonical_name = canonical; handler = handler })
          else get text_discrete j r.commands)
  pub counted : length r'.commands ≡ length r.commands + 1 + length aliases
  pub bounded : length r'.commands ≤ max_command_keys
  pub triggers : (r'.prefixes ≡ r.prefixes) × (r'.mentions ≡ r.mentions) × (r'.name ≡ r.name)

module _ {H : Type 0} (r r' : CommandRouter H) (name : Text) (aliases : List Text)
    (handler : H) where
  -- The parts of a registration that succeeded.
  command_parts :
      command r name aliases handler ≡ ok r'
      → (canonical : Text) × (names : List Text) × (normalize_command name ≡ ok canonical)
        × (length r.commands + 1 ≤ max_command_keys)
        × (collect_aliases (length r.commands) [] aliases ≡ ok names)
        × (check_keys r.commands [] (canonical ∷ names) ≡ ok tt)
        × (r' ≡ record r {
          commands =
              insert_keys
                (record { canonical_name = canonical; handler = handler })
                (canonical ∷ names)
                r.commands;
        })
  unfolding command
  command_parts h = elim (Result-cases (normalize_command name)) [
    | inr (e, bad) ↦ absurd (ground arith)
    | inl (canonical, good) ↦ elim (Result-cases (collect_aliases (length r.commands) [] aliases)) [
      | inr (e, bad) ↦ absurd (ground arith)
      | inl (names, collected) ↦
          (canonical, names, good, ground arith, collected, ground arith, ground arith)
    ]
  ]

  -- A registration that succeeds adds exactly the normalized name and aliases, all of them new, each
  -- for the canonical name and the handler; every other key stays, and at most 1024 are registered.
  pub command-Registers :
      command r name aliases handler ≡ ok r' → Registers r r' name aliases handler
  command-Registers h =
      let (canonical, names, good, room, collected, checked, result) = command_parts h in
      let (added, eq, norm, bound) =
        collect_aliases_lem (length r.commands) [] aliases names (omega arith) collected in
      let registered : RegisteredCommand H = record {
        canonical_name = canonical;
        handler = handler;
      } in
      let f : Fresh r.commands (canonical ∷ names) =
        check_keys-Fresh r.commands [] (canonical ∷ names) checked in
      let size = length-insert_keys registered (canonical ∷ names) r.commands f in
      let many : length names ≡ length aliases = rw eq (length-Normalizes aliases added norm) in
      record {
        canonical = canonical;
        names = names;
        canonical_lem = good;
        names_lem = rw eq norm;
        fresh = f;
        entries = λ j. rw result (get-insert_keys registered (canonical ∷ names) r.commands j);
        counted = rw result (omega (arith, size, many));
        bounded = rw result (omega (arith, size, bound));
        triggers = ground (arith, result);
      }
