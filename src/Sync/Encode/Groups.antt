-- ===== src/Sync/Encode/Groups.antt =====
-- The second loop of the weekday encoding: the entries that it makes of the weekdays' values.
use channex_pms.Prelude.{
  ◌≡◌, refl, sym, ap, ◌∙◌, Bool, true, ◌&&◌, ◌||◌, some, List, [], ◌∷◌, ◌++◌, arith, leb, any,
  any-append, All, All-append, Eq, Bool-cases, Option-cases, inl, inr, map, contains,
}
use channex_pms.Prelude.Maps.{
  lookup, insert, All-of_lookup, All-lookup, All-insert, any-insert, any-key,
}
use channex_pms.Shared.Date.{LocalDate}
use channex_pms.Inventory.{Weekday, weekday_has_eq}
use channex_pms.Sync.Dates.{has_day}
use channex_pms.Sync.Encode.{
  FieldEntry, place_day, sort_days, per_day_from, get_group, add_day, group_days, group_entry,
}
use channex_pms.Sync.Encode.Coverage.{covers}
use channex_pms.Sync.Encode.Runs.{IsRight}
use channex_pms.Sync.Encode.Weekdays.{Collected, per_day_from-Collected}

any-place_day :
    (p : Weekday → Bool) (w : Weekday) (ws : List Weekday)
    → any p (place_day w ws) ≡ (p w || any p ws)
unfolding place_day
any-place_day p w [] = refl
any-place_day p w (v ∷ vs) = ground (arith, any-place_day p w vs)

any-sort_days : (p : Weekday → Bool) (ws : List Weekday) → any p (sort_days ws) ≡ any p ws
unfolding sort_days
any-sort_days p [] = refl
any-sort_days p (w ∷ ws) =
    any-place_day p w (sort_days ws) ∙ ap (λ b. p w || b) (any-sort_days p ws)

All-has_day :
    (P : Weekday → Type 0) (w : Weekday) (ws : List Weekday) → All P ws → has_day w ws ≡ true → P w
All-has_day P w [] h c = cc
All-has_day P w (v ∷ vs) (p, h) c = elim (Bool-cases (weekday_has_eq.beq v w)) [
  | inl s ↦ rw (← ((weekday_has_eq.beq_iff v w).0 s)) p
  | inr t ↦ All-has_day P w vs h (rw t at c)
]

module _ {V K : Type 0} ⦃e : Eq K⦄ (weekday_of : LocalDate → Weekday) (value_at : LocalDate → V)
    (key : V → K) where
  -- The key of weekday `w` is that of each of the dates that falls on it.
  abbrev IsDaily : List LocalDate → Weekday → K → Type 0
  IsDaily ds w k = (d : LocalDate) → contains d ds ≡ true → weekday_of d ≡ w → key (value_at d) ≡ k

  -- What the first loop hands over, of each weekday.
  abbrev FitsDay : List LocalDate → Weekday × (K × V) → Type 0
  FitsDay ds (w, (k, v)) = (key v ≡ k) × IsDaily ds w k

  abbrev FitsGroup : List LocalDate → K × (V × List Weekday) → Type 0
  FitsGroup ds (k, (v, days)) = (key v ≡ k) × All (λ w. IsDaily ds w k) days

  Collected-FitsDay :
      (ds : List LocalDate) (m : List (Weekday × (K × V)))
      → Collected weekday_of value_at key [] ds m
      → All (FitsDay ds) m
  Collected-FitsDay ds m c =
      All-of_lookup (FitsDay ds) m c.distinct
        (λ w p f. (c.keyed w p f, λ d h on. same_key w p f d h on))
    where
      same_key : (w : Weekday) (p : K × V) → lookup w m ≡ some p → IsDaily ds w p.0
      same_key w p f d h on =
          let (v, g) = c.found d h in
          let q : (key (value_at d), v) ≡ p = cc (rw on at g, f) in ap (λ r. r.0) q

  get_group-FitsGroup :
      (ds : List LocalDate) (w : Weekday) (k : K) (v : V) (groups : List (K × (V × List Weekday)))
      → All (FitsGroup ds) groups
      → FitsDay ds (w, (k, v))
      → let g = get_group weekday_of value_at key k v groups in
        FitsGroup ds (k, (g.0, g.1 ++ w ∷ []))
  unfolding get_group
  get_group-FitsGroup ds w k v groups h (keyed, daily) = elim (Option-cases (lookup k groups)) [
    | inl new ↦ rw (new, get_group) (keyed, (daily, tt))
    | inr (g, old) ↦
        let (keyed', days) = All-lookup (FitsGroup ds) groups k g h old in
        rw (old, get_group) (keyed', All-append (λ w'. IsDaily ds w' k) g.1 _ days (daily, tt))
  ]

  group_days-FitsGroup :
      (ds : List LocalDate) (groups : List (K × (V × List Weekday))) (m : List (Weekday × (K × V)))
      → All (FitsGroup ds) groups
      → All (FitsDay ds) m
      → All (FitsGroup ds) (group_days weekday_of value_at key groups m)
  unfolding group_days
  group_days-FitsGroup ds groups [] h k = h
  group_days-FitsGroup ds groups ((w, (k, v)) ∷ m) h (fit, fits) =
      group_days-FitsGroup ds (add_day weekday_of value_at key groups w k v) m
        (unfold add_day in
          All-insert (FitsGroup ds) k _ groups h (get_group-FitsGroup ds w k v groups h fit))
        fits

  add_day-has_day :
      (w wd : Weekday) (k : K) (v : V) (groups : List (K × (V × List Weekday)))
      → let g = get_group weekday_of value_at key k v groups in
        any (λ p. has_day w p.1.1) (insert k (g.0, g.1 ++ wd ∷ []) groups)
        ≡ (any (λ p. has_day w p.1.1) groups || weekday_has_eq.beq wd w)
  unfolding add_day
  add_day-has_day w wd k v groups =
      let g = get_group weekday_of value_at key k v groups in
      any-insert (λ x. has_day w x.1) (weekday_has_eq.beq wd w) k (g.0, g.1 ++ wd ∷ []) groups
        (λ new. rw (new, get_group) (ground arith))
        (λ y old.
          rw (old, get_group)
            (any-append (λ u. weekday_has_eq.beq u w) y.1 (wd ∷ []) ∙ ground arith))

  group_days-has_day :
      (w : Weekday) (groups : List (K × (V × List Weekday))) (m : List (Weekday × (K × V)))
      → any (λ g. has_day w g.1.1) (group_days weekday_of value_at key groups m)
        ≡ (any (λ g. has_day w g.1.1) groups || any (λ p. weekday_has_eq.beq p.0 w) m)
  unfolding group_days
  group_days-has_day w groups [] = ground arith
  group_days-has_day w groups ((wd, (k, v)) ∷ m) =
      group_days-has_day w (add_day weekday_of value_at key groups wd k v) m
      ∙ (rw (add_day-has_day w wd k v groups) (ground arith))

module _ {V K : Type 0} ⦃e : Eq K⦄ (weekday_of : LocalDate → Weekday) (value_at : LocalDate → V)
    (key : V → K) (ds : List LocalDate) (first last : LocalDate) where
  abbrev entries_of : List (K × (V × List Weekday)) → List (FieldEntry V)
  entries_of groups = map (group_entry weekday_of value_at key first last) groups

  entries_of-covers :
      (groups : List (K × (V × List Weekday))) (d : LocalDate)
      → any (λ x. covers weekday_of x d) (entries_of groups)
        ≡ ((leb first d && leb d last) && any (λ g. has_day (weekday_of d) g.1.1) groups)
  unfolding group_entry
  entries_of-covers [] d = ground arith
  entries_of-covers ((k, (v, days)) ∷ groups) d =
      rw (any-sort_days (λ u. weekday_has_eq.beq u (weekday_of d)) days)
        (ground (arith, entries_of-covers groups d))

  entries_of-IsRight :
      (groups : List (K × (V × List Weekday)))
      → ((d : LocalDate) → (leb first d && leb d last) ≡ true → contains d ds ≡ true)
      → All (FitsGroup weekday_of value_at key ds) groups
      → All (IsRight weekday_of value_at key) (entries_of groups)
  unfolding group_entry
  entries_of-IsRight [] inside h = tt
  entries_of-IsRight ((k, (v, days)) ∷ groups) inside ((keyed, daily), h) = (
    λ d c.
        let within : (leb first d && leb d last) ≡ true = ground arith in
        let on : has_day (weekday_of d) days ≡ true =
          sym (any-sort_days (λ u. weekday_has_eq.beq u (weekday_of d)) days) ∙ ground arith in
        All-has_day (λ w. IsDaily weekday_of value_at key ds w k) (weekday_of d) days daily on d
          (inside d within) refl
        ∙ sym keyed,
    entries_of-IsRight groups inside h,
  )

  -- The entries that the weekday encoding makes cover exactly the dates, each with its value.
  pub group_days-covers :
      (m : List (Weekday × (K × V)))
      → ((d : LocalDate) → contains d ds ≡ (leb first d && leb d last))
      → per_day_from weekday_of value_at key [] ds ≡ some m
      → ((d : LocalDate)
          → any (λ x. covers weekday_of x d) (entries_of (group_days weekday_of value_at key [] m))
            ≡ contains d ds)
        × All
            (IsRight weekday_of value_at key)
            (entries_of (group_days weekday_of value_at key [] m))
  group_days-covers m inside h = (
    λ d. elim (Bool-cases (contains d ds)) [
      | inl c ↦
          let (v, f) = collected.found d c in
          entries_of-covers _ d
          ∙ rw (← (inside d), c, group_days-has_day weekday_of value_at key (weekday_of d) [] m)
              (any-key (weekday_of d) _ m f)
      | inr n ↦ entries_of-covers _ d ∙ rw (← (inside d), n)
    ],
    entries_of-IsRight _ (λ d w. inside d ∙ w)
        (group_days-FitsGroup weekday_of value_at key ds [] m tt
          (Collected-FitsDay weekday_of value_at key ds m collected)),
  )
    where
      collected : Collected weekday_of value_at key [] ds m
      collected = per_day_from-Collected weekday_of value_at key [] ds m tt (λ w p f. cc) h
