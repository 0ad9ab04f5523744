-- ===== src/Webhook/Seen.antt =====
-- What the operations of the table of seen events keep.
use bro_know_my_qqbot.Prelude.{
  ℕ, ◌≤◌, ◌≡◌, some, [], ◌∷◌, leb, if◌then◌else◌, arith, length, Bool-cases, Option-cases, inl, inr,
}
use bro_know_my_qqbot.Prelude.Map.{get, remove, get-insert, get-remove}
use bro_know_my_qqbot.Prelude.Text.{Text, text_discrete}
use bro_know_my_qqbot.Webhook.{
  SeenEvents, SeenRecord, SeenState, pending, accepted, reserved_new, lookup, lookup_record,
  reserve, reserve_record, reserve_absent, retain, accept, accept_record, release, release_record,
  reservation_of, max_seen_events,
}

get-retain :
    (now : ℕ) (s : SeenEvents) (k : Text) (r : SeenRecord)
    → get text_discrete k s ≡ some r
    → now ≤ r.expires_at
    → get text_discrete k (retain now s) ≡ some r
unfolding retain get
get-retain now [] k r h b = cc
get-retain now (e ∷ s) k r h b = ground (arith, get-retain now s k r)

module _ (s : SeenEvents) (k : Text) (r : SeenRecord) where
  pub lookup_kept :
      (j : Text) (now : ℕ)
      → get text_discrete k s ≡ some r
      → now ≤ r.expires_at
      → get text_discrete k (lookup s j now).0 ≡ some r
  unfolding lookup lookup_record
  lookup_kept j now h b = elim (Option-cases (get text_discrete j s)) [
    | inl e ↦ ground (arith, e, h)
    | inr (r', e) ↦ ground (arith, e, h, get-remove text_discrete j k s)
  ]

  retain_kept :
      (j : Text) (now : ℕ)
      → get text_discrete k s ≡ some r
      → now ≤ r.expires_at
      → (j ≡ k → ⊥)
      → (expires_at : ℕ) → get text_discrete k (reserve_absent s j expires_at now).0 ≡ some r
  unfolding reserve_absent
  retain_kept j now h b ne expires_at = elim (Bool-cases (leb max_seen_events (length s))) [
    | inl e ↦ ground (
      arith,
      e,
      get-retain now s k r h b,
      get-insert text_discrete j k (record { state = pending; expires_at = expires_at })
          (retain now s),
    )
    | inr e ↦ ground (
      arith,
      e,
      h,
      get-insert text_discrete j k (record { state = pending; expires_at = expires_at }) s,
    )
  ]

module _ (s : SeenEvents) (k : Text) (r : SeenRecord) where
  pub reserve_kept :
      (j : Text) (expires_at now : ℕ)
      → get text_discrete k s ≡ some r
      → now ≤ r.expires_at
      → get text_discrete k (reserve s j expires_at now).0 ≡ some r
  unfolding reserve reserve_record
  reserve_kept j expires_at now h b = elim (text_discrete j k) [
    | yes same ↦ let at : get text_discrete j s ≡ some r = rw same h in ground (arith, at, h)
    | no ne ↦ elim (Option-cases (get text_discrete j s)) [
      | inl e ↦ rw e (retain_kept s k r j now h b ne expires_at)
      | inr (r', e) ↦ elim (Bool-cases (leb now r'.expires_at)) [
        | inl t ↦ rw (e, t, h)
        | inr t ↦
            let left : get text_discrete k (remove text_discrete j s) ≡ some r =
              ground (arith, get-remove text_discrete j k s, h) in
            rw (e, t) (retain_kept (remove text_discrete j s) k r j now left b ne expires_at)
      ]
    ]
  ]

  reserve_again :
      (expires_at now : ℕ)
      → get text_discrete k s ≡ some r
      → now ≤ r.expires_at
      → reserve s k expires_at now ≡ (s, reservation_of r.state)
  unfolding reserve reserve_record
  reserve_again expires_at now h b = ground (arith, h)

  pub accept_kept :
      (j : Text)
      → get text_discrete k s ≡ some r
      → r.state ≡ accepted
      → get text_discrete k (accept s j) ≡ some r
  unfolding accept accept_record
  accept_kept j h a = elim (Option-cases (get text_discrete j s)) [
    | inl e ↦ rw (e, h)
    | inr (r', e) ↦
        ground (arith, e, h, a, get-insert text_discrete j k (record r' { state = accepted }) s)
  ]

  pub release_kept :
      (j : Text)
      → get text_discrete k s ≡ some r
      → r.state ≡ accepted
      → get text_discrete k (release s j) ≡ some r
  unfolding release release_record
  release_kept j h a = elim (Option-cases (get text_discrete j s)) [
    | inl e ↦ rw (e, h)
    | inr (r', e) ↦ ground (arith, e, h, a, get-remove text_discrete j k s)
  ]

reserved : ℕ → SeenRecord
reserved expires_at = record { state = pending; expires_at = expires_at }

reserve_absent-get :
    (s : SeenEvents) (k : Text) (expires_at now : ℕ)
    → (reserve_absent s k expires_at now).1 ≡ reserved_new
    → get text_discrete k (reserve_absent s k expires_at now).0 ≡ some (reserved expires_at)
unfolding reserve_absent reserved
reserve_absent-get s k expires_at now h =
    let kept = if leb max_seen_events (length s) then retain now s else s in
    ground (arith, get-insert text_discrete k k (reserved expires_at) kept)

reservation_of-ne-new : (x : SeenState) → reservation_of x ≡ reserved_new → ⊥
unfolding reservation_of
reservation_of-ne-new pending h = cc
reservation_of-ne-new accepted h = cc

reserve-get :
    (s : SeenEvents) (k : Text) (expires_at now : ℕ)
    → (reserve s k expires_at now).1 ≡ reserved_new
    → get text_discrete k (reserve s k expires_at now).0 ≡ some (reserved expires_at)
unfolding reserve reserve_record
reserve-get s k expires_at now h = elim (Option-cases (get text_discrete k s)) [
  | inl e ↦ rw e (reserve_absent-get s k expires_at now (rw e at h))
  | inr (r, e) ↦ elim (Bool-cases (leb now r.expires_at)) [
    | inl t ↦ absurd (reservation_of-ne-new r.state (rw (e, t) at h))
    | inr t ↦
        rw (e, t) (reserve_absent-get (remove text_discrete k s) k expires_at now (rw (e, t) at h))
  ]
]

-- A new reservation that is accepted is remembered with its expiry.
pub accept-reserve :
    (s : SeenEvents) (k : Text) (expires_at now : ℕ)
    → (reserve s k expires_at now).1 ≡ reserved_new
    → get text_discrete k (accept (reserve s k expires_at now).0 k)
      ≡ some (record { state = accepted; expires_at = expires_at })
unfolding accept accept_record reserved
accept-reserve s k expires_at now h =
    let t = (reserve s k expires_at now).0 in
    let done : SeenRecord = record { state = accepted; expires_at = expires_at } in
    ground (arith, reserve-get s k expires_at now h, get-insert text_discrete k k done t)
