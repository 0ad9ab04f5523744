-- ===== src/Webhook/Settled.antt =====
-- Between the locks the table of seen events is settled: no record is pending, and it is bounded.
use bro_know_my_qqbot.Prelude.{
  ℕ, ◌+◌, ◌≤◌, ◌≡◌, refl, false, none, some, [], ◌∷◌, ltb, leb, if◌then◌else◌, arith, length,
  Bool-cases, Option-cases, inl, inr, ◌≢◌, ◌⊎◌,
}
use bro_know_my_qqbot.Prelude.Map.{
  get, insert, remove, Distinct, get-insert, get-remove, insert-Distinct, remove-Distinct,
  length-insert_present, length-remove-le,
}
use bro_know_my_qqbot.Prelude.Text.{Text, text_discrete}
use bro_know_my_qqbot.Webhook.{
  SeenEvents, SeenRecord, SeenState, pending, accepted, reserved_new, lookup, lookup_record,
  reserve, reserve_record, reserve_absent, retain, accept, accept_record, release, release_record,
  max_seen_events,
}

-- Every key stands once, its record is accepted, and there are at most 4096 of them.
pub record IsSettled (s : SeenEvents) : Type 0 where
  pub distinct : Distinct text_discrete s
  pub settled : (k : Text) (r : SeenRecord) → get text_discrete k s ≡ some r → r.state ≡ accepted
  pub bounded : length s ≤ max_seen_events

-- The same, but for the key of the request that holds the lock.
pub record IsSettledBut (j : Text) (s : SeenEvents) : Type 0 where
  pub distinct : Distinct text_discrete s
  pub settled :
      (k : Text) (r : SeenRecord) → get text_discrete k s ≡ some r → j ≢ k → r.state ≡ accepted
  pub bounded : length s ≤ max_seen_events

get-retain-none :
    (now : ℕ) (s : SeenEvents) (k : Text)
    → get text_discrete k s ≡ none
    → get text_discrete k (retain now s) ≡ none
unfolding retain get
get-retain-none now [] k h = refl
get-retain-none now (e ∷ s) k h = ground (arith, get-retain-none now s k)

get-retain-some :
    (now : ℕ) (s : SeenEvents) (k : Text) (r : SeenRecord)
    → Distinct text_discrete s
    → get text_discrete k (retain now s) ≡ some r
    → get text_discrete k s ≡ some r
unfolding retain get
get-retain-some now [] k r d h = cc
get-retain-some now (e ∷ s) k r d h =
    ground (arith, get-retain-some now s k r d.1, get-retain-none now s e.0 d.0)

retain-Distinct :
    (now : ℕ) (s : SeenEvents) → Distinct text_discrete s → Distinct text_discrete (retain now s)
unfolding retain
retain-Distinct now [] d = tt
retain-Distinct now (e ∷ s) d =
    ground (arith, retain-Distinct now s d.1, get-retain-none now s e.0 d.0)

length-retain-le : (now : ℕ) (s : SeenEvents) → length (retain now s) ≤ length s
unfolding retain
length-retain-le now [] = omega arith
length-retain-le now (e ∷ s) = ground (arith, length-retain-le now s)

retain-IsSettled : (now : ℕ) (s : SeenEvents) → IsSettled s → IsSettled (retain now s)
retain-IsSettled now s h = record {
  distinct = retain-Distinct now s h.distinct;
  settled = λ k r e. h.settled k r (get-retain-some now s k r h.distinct e);
  bounded = omega (arith, h.bounded, length-retain-le now s);
}

remove-IsSettled : (j : Text) (s : SeenEvents) → IsSettled s → IsSettled (remove text_discrete j s)
remove-IsSettled j s h = record {
  distinct = remove-Distinct text_discrete j s h.distinct;
  settled = λ k r e. h.settled k r (ground (arith, get-remove text_discrete j k s));
  bounded = omega (arith, h.bounded, length-remove-le text_discrete j s);
}

pub lookup-IsSettled :
    (s : SeenEvents) (j : Text) (now : ℕ) → IsSettled s → IsSettled (lookup s j now).0
unfolding lookup lookup_record
lookup-IsSettled s j now h = elim (Option-cases (get text_discrete j s)) [
  | inl e ↦ rw e h
  | inr (r, e) ↦ elim (Bool-cases (ltb r.expires_at now)) [
    | inl t ↦ rw (e, t) (remove-IsSettled j s h)
    | inr t ↦ rw (e, t) h
  ]
]

length-insert-le :
    (k : Text) (v : SeenRecord) (m : SeenEvents)
    → length (insert text_discrete k v m) ≤ length m + 1
unfolding insert
length-insert-le k v [] = omega arith
length-insert-le k v (e ∷ m) = ground (arith, length-insert-le k v m)

IsSettled-IsSettledBut : (j : Text) (s : SeenEvents) → IsSettled s → IsSettledBut j s
IsSettled-IsSettledBut j s h = record {
  distinct = h.distinct;
  settled = λ k r e ne. h.settled k r e;
  bounded = h.bounded;
}

insert-IsSettledBut :
    (j : Text) (v : SeenRecord) (s : SeenEvents)
    → IsSettled s
    → leb max_seen_events (length s) ≡ false
    → IsSettledBut j (insert text_discrete j v s)
insert-IsSettledBut j v s h room = record {
  distinct = insert-Distinct text_discrete j v s h.distinct;
  settled = λ k r e ne. h.settled k r (ground (arith, get-insert text_discrete j k v s));
  bounded = ground (arith, length-insert-le j v s);
}

module _ (s : SeenEvents) (j : Text) (expires_at now : ℕ) (h : IsSettled s) where
  kept-IsSettled : IsSettled (if leb max_seen_events (length s) then retain now s else s)
  kept-IsSettled = elim (Bool-cases (leb max_seen_events (length s))) [
    | inl e ↦ rw e (retain-IsSettled now s h)
    | inr e ↦ rw e h
  ]

  reserve_absent-IsSettledBut : IsSettledBut j (reserve_absent s j expires_at now).0
  unfolding reserve_absent
  reserve_absent-IsSettledBut =
      let kept = if leb max_seen_events (length s) then retain now s else s in
      elim (Bool-cases (leb max_seen_events (length kept))) [
        | inl e ↦ rw e (IsSettled-IsSettledBut j kept kept-IsSettled)
        | inr e ↦ rw e (insert-IsSettledBut j _ kept kept-IsSettled e)
      ]

  reserve_absent-IsSettled :
      (reserve_absent s j expires_at now).1 ≢ reserved_new
      → IsSettled (reserve_absent s j expires_at now).0
  unfolding reserve_absent
  reserve_absent-IsSettled ne =
      let kept = if leb max_seen_events (length s) then retain now s else s in
      elim (Bool-cases (leb max_seen_events (length kept))) [
        | inl e ↦ rw e kept-IsSettled
        | inr e ↦ absurd (ground (arith, e, ne))
      ]

module _ (s : SeenEvents) (j : Text) (expires_at now : ℕ) (h : IsSettled s) where
  pub reserve-IsSettledBut : IsSettledBut j (reserve s j expires_at now).0
  unfolding reserve reserve_record
  reserve-IsSettledBut = elim (Option-cases (get text_discrete j s)) [
    | inl e ↦ rw e (reserve_absent-IsSettledBut s j expires_at now h)
    | inr (r, e) ↦ elim (Bool-cases (leb now r.expires_at)) [
      | inl t ↦ rw (e, t) (IsSettled-IsSettledBut j s h)
      | inr t ↦
          rw (e, t)
            (reserve_absent-IsSettledBut (remove text_discrete j s) j expires_at now
              (remove-IsSettled j s h))
    ]
  ]

  pub reserve-IsSettled :
      (reserve s j expires_at now).1 ≢ reserved_new → IsSettled (reserve s j expires_at now).0
  unfolding reserve reserve_record
  reserve-IsSettled ne = elim (Option-cases (get text_discrete j s)) [
    | inl e ↦ rw e (reserve_absent-IsSettled s j expires_at now h (rw e at ne))
    | inr (r, e) ↦ elim (Bool-cases (leb now r.expires_at)) [
      | inl t ↦ rw (e, t) h
      | inr t ↦
          rw (e, t)
            (reserve_absent-IsSettled (remove text_discrete j s) j expires_at now
              (remove-IsSettled j s h) (rw (e, t) at ne))
    ]
  ]

SeenState-cases : (x : SeenState) → (x ≡ pending) ⊎ (x ≡ accepted)
SeenState-cases pending = inl refl
SeenState-cases accepted = inr refl

module _ (j : Text) where
  -- It is enough that the key of the request is not pending either.
  settle_key :
      (t : SeenEvents)
      → ((r : SeenRecord) → get text_discrete j t ≡ some r → r.state ≡ accepted)
      → IsSettledBut j t
      → IsSettled t
  settle_key t at h = record {
    distinct = h.distinct;
    settled = λ k r e. elim (text_discrete j k) [
      | yes same ↦ at r (rw same e)
      | no ne ↦ h.settled k r e ne
    ];
    bounded = h.bounded;
  }

  accepted_at :
      (s : SeenEvents) (r : SeenRecord)
      → IsSettledBut j s
      → get text_discrete j s ≡ some r
      → r.state ≡ accepted
      → IsSettled s
  accepted_at s r h e a = settle_key s (λ r' g. ground (arith, e, a, g)) h

  absent_at : (s : SeenEvents) → IsSettledBut j s → get text_discrete j s ≡ none → IsSettled s
  absent_at s h e = settle_key s (λ r' g. ground (arith, e, g)) h

  insert_present-IsSettled :
      (s : SeenEvents) (r v : SeenRecord)
      → IsSettledBut j s
      → get text_discrete j s ≡ some r
      → v.state ≡ accepted
      → IsSettled (insert text_discrete j v s)
  insert_present-IsSettled s r v h e a =
      settle_key (insert text_discrete j v s)
        (λ r' g. ground (arith, get-insert text_discrete j j v s, g, a))
        (record {
          distinct = insert-Distinct text_discrete j v s h.distinct;
          settled =
              λ k r' g ne. h.settled k r' (ground (arith, get-insert text_discrete j k v s)) ne;
          bounded = omega (arith, h.bounded, length-insert_present text_discrete j v r s e);
        })

  remove_own-IsSettled : (s : SeenEvents) → IsSettledBut j s → IsSettled (remove text_discrete j s)
  remove_own-IsSettled s h =
      settle_key (remove text_discrete j s)
        (λ r' g. ground (arith, get-remove text_discrete j j s, g))
        (record {
          distinct = remove-Distinct text_discrete j s h.distinct;
          settled = λ k r' g ne. h.settled k r' (ground (arith, get-remove text_discrete j k s)) ne;
          bounded = omega (arith, h.bounded, length-remove-le text_discrete j s);
        })

  -- The holder of the lock settles its own key, by either of the two operations.
  pub accept-IsSettled : (s : SeenEvents) → IsSettledBut j s → IsSettled (accept s j)
  unfolding accept accept_record
  accept-IsSettled s h = elim (Option-cases (get text_discrete j s)) [
    | inl e ↦ rw e (absent_at s h e)
    | inr (r, e) ↦ elim (SeenState-cases r.state) [
      | inl p ↦ rw (e, p) (insert_present-IsSettled s r (record r { state = accepted }) h e refl)
      | inr a ↦ rw (e, a) (accepted_at s r h e a)
    ]
  ]

  pub release-IsSettled : (s : SeenEvents) → IsSettledBut j s → IsSettled (release s j)
  unfolding release release_record
  release-IsSettled s h = elim (Option-cases (get text_discrete j s)) [
    | inl e ↦ rw e (absent_at s h e)
    | inr (r, e) ↦ elim (SeenState-cases r.state) [
      | inl p ↦ rw (e, p) (remove_own-IsSettled s h)
      | inr a ↦ rw (e, a) (accepted_at s r h e a)
    ]
  ]
