-- ===== src/Router/Events/Order.antt =====
-- Routes stand in the order of their priorities, and those of one priority as they were added.
use bro_know_my_qqbot.Prelude.{
  ◌≤◌, ◌<◌, ◌≡◌, refl, ap, sym, ◌∙◌, true, false, Bool-cases, inl, inr, List, [], ◌∷◌, ◌++◌, ok,
  arith, All, length, length-append, if◌then◌else◌,
}
use bro_know_my_qqbot.Prelude.Int.{leb_ℤ}
use bro_know_my_qqbot.Prelude.Sort.{
  sort_by, insert_sorted, IsSorted, IsOrder, sort_by-IsSorted, length-sort_by,
}
use bro_know_my_qqbot.Router.Events.{EventRoute, EventRouter, earlier, route, max_event_routes}

module _ {W : Type 0} where
  -- The new route stands behind all of its priority or a lower one, and before all of a higher one.
  pub record Placed (x : EventRoute W) (before after result : List (EventRoute W)) : Type 0 where
    pub result_lem : result ≡ before ++ (x ∷ after)
    pub before_lem : All (λ r. leb_ℤ r.priority x.priority ≡ true) before
    pub after_lem : All (λ r. leb_ℤ r.priority x.priority ≡ false) after

  -- Where the list is split for a new route.
  split_at : EventRoute W → List (EventRoute W) → List (EventRoute W) × List (EventRoute W)
  split_at x [] = ([], [])
  split_at x (r ∷ rs) =
      let rest = split_at x rs in if earlier r x then (r ∷ rest.0, rest.1) else ([], r ∷ rs)

  All-later :
      (x r : EventRoute W) (rs : List (EventRoute W))
      → earlier r x ≡ false
      → All (λ y. earlier r y ≡ true) rs
      → All (λ y. leb_ℤ y.priority x.priority ≡ false) rs
  All-later x r [] h a = tt
  All-later x r (y ∷ ys) h a = (ground arith, All-later x r ys h a.1)

  split_at-append :
      (x : EventRoute W) (rs : List (EventRoute W)) → (split_at x rs).0 ++ (split_at x rs).1 ≡ rs
  unfolding split_at
  split_at-append x [] = refl
  split_at-append x (r ∷ rs) = elim (Bool-cases (earlier r x)) [
    | inl e ↦ rw e (ap (◌∷◌ r) (split_at-append x rs))
    | inr e ↦ rw e
  ]

  split_at-before :
      (P : EventRoute W → Type 0) (x : EventRoute W) (rs : List (EventRoute W))
      → All P rs
      → All P (split_at x rs).0
  unfolding split_at
  split_at-before P x [] a = tt
  split_at-before P x (r ∷ rs) a = elim (Bool-cases (earlier r x)) [
    | inl e ↦ rw e (a.0, split_at-before P x rs a.1)
    | inr e ↦ rw e tt
  ]

  split_at-later :
      (x : EventRoute W) (rs : List (EventRoute W))
      → All (λ y. leb_ℤ y.priority x.priority ≡ false) rs
      → split_at x rs ≡ ([], rs)
  unfolding split_at
  split_at-later x [] a = refl
  split_at-later x (r ∷ rs) a = rw (a.0)

  split_at-parts :
      (x : EventRoute W) (rs : List (EventRoute W))
      → IsSorted earlier rs
      → All (λ r. leb_ℤ r.priority x.priority ≡ true) (split_at x rs).0
        × All (λ r. leb_ℤ r.priority x.priority ≡ false) (split_at x rs).1
  unfolding split_at
  split_at-parts x [] s = (tt, tt)
  split_at-parts x (r ∷ rs) s = elim (Bool-cases (earlier r x)) [
    | inl e ↦ let ih = split_at-parts x rs s.1 in rw e ((e, ih.0), ih.1)
    | inr e ↦ rw e (tt, (e, All-later x r rs e s.0))
  ]

  insert_sorted-head :
      (r : EventRoute W) (l : List (EventRoute W))
      → All (λ y. earlier r y ≡ true) l
      → insert_sorted earlier r l ≡ r ∷ l
  unfolding insert_sorted
  insert_sorted-head r [] a = refl
  insert_sorted-head r (y ∷ ys) a = rw (a.0)

  insert_sorted-between :
      (r x : EventRoute W) (before after : List (EventRoute W))
      → All (λ y. earlier r y ≡ true) before
      → earlier r x ≡ true
      → insert_sorted earlier r (before ++ (x ∷ after)) ≡ r ∷ (before ++ (x ∷ after))
  unfolding insert_sorted
  insert_sorted-between r x [] after a h = rw h
  insert_sorted-between r x (y ∷ ys) after a h = rw (a.0)

  sort_by-split_at :
      (x : EventRoute W) (rs : List (EventRoute W))
      → IsSorted earlier rs
      → sort_by earlier (rs ++ (x ∷ [])) ≡ (split_at x rs).0 ++ (x ∷ (split_at x rs).1)
  unfolding sort_by split_at
  sort_by-split_at x [] s = refl
  sort_by-split_at x (r ∷ rs) s = elim (Bool-cases (earlier r x)) [
    | inl e ↦
        rw (e, sort_by-split_at x rs s.1)
          (insert_sorted-between r x (split_at x rs).0 (split_at x rs).1
            (split_at-before (λ y. earlier r y ≡ true) x rs s.0) e)
    | inr e ↦
        rw (e, sort_by-split_at x rs s.1, split_at-later x rs (All-later x r rs e s.0))
          (rw (e, insert_sorted) (ap (◌∷◌ x) (insert_sorted-head r rs s.0)))
  ]

  earlier-IsOrder : IsOrder (earlier {W = W})
  earlier-IsOrder = record { total = λ x y h. ground arith; trans = λ x y z h k. ground arith }

  -- A route that a sorted router accepts is put behind all routes of its priority or a lower one and
  -- before all of a higher one; the others keep their order, the router stays sorted, and it has at
  -- most 256 routes.
  pub route-Placed :
      (router router' : EventRouter W) (x : EventRoute W)
      → IsSorted earlier router.routes
      → route router x ≡ ok router'
      → (before : List (EventRoute W)) × (after : List (EventRoute W)) × (router.routes
          ≡ before ++ after)
        × Placed x before after router'.routes
        × IsSorted earlier router'.routes
        × (length router'.routes ≤ max_event_routes)
  unfolding route
  route-Placed router router' x s h =
      let parts = split_at-parts x router.routes s in
      let eq : router'.routes ≡ sort_by earlier (router.routes ++ (x ∷ [])) = ground arith in
      let room : length router.routes < max_event_routes = ground arith in
      (
        (split_at x router.routes).0,
        (split_at x router.routes).1,
        sym (split_at-append x router.routes),
        record {
          result_lem = eq ∙ sort_by-split_at x router.routes s;
          before_lem = parts.0;
          after_lem = parts.1;
        },
        rw eq (sort_by-IsSorted earlier earlier-IsOrder (router.routes ++ (x ∷ []))),
        rw eq (
            omega (
              arith,
              length-sort_by earlier (router.routes ++ (x ∷ [])),
              length-append router.routes (x ∷ []),
              room,
            )),
      )
