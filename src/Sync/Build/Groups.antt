-- ===== src/Sync/Build/Groups.antt =====
-- `groupBy` and `chunk` of packages/sync/src/batch/build.ts.
use channex_pms.Prelude.{
  ℕ, zero, suc, ◌-◌, ◌≤◌, ◌<◌, ◌≡◌, refl, sym, ap, ◌∙◌, Bool, true, false, none, some, List, [],
  ◌∷◌, ◌++◌, arith, ◌==◌, if◌then◌else◌, All, any, filter, concat, length, take, drop, nat_eq,
  Bool-cases, inl, inr, append_assoc, append-nil,
}
use channex_pms.Prelude.Maps.{lookup, lookup-insert, Distinct, Distinct-insert, All-of_lookup}
use channex_pms.Inventory.{EntityId}
use channex_pms.Sync.Build.{group_step, group_from, group_by, chunk_from, chunk}

module _ {A : Type 0} (key_of : A → EntityId) where
  -- The items of a key; none where the map has no such key.
  abbrev pub items_of : EntityId → List (EntityId × List A) → List A
  items_of p groups = elim (lookup p groups) [ none ↦ [] | some xs ↦ xs ]

  group_step-items :
      (groups : List (EntityId × List A)) (it : A) (p : EntityId)
      → items_of p (group_step key_of groups it)
        ≡ items_of p groups ++ (if key_of it == p then it ∷ [] else [])
  unfolding group_step
  group_step-items groups it p = elim (Bool-cases (key_of it == p)) [
    | inl s ↦
        let same : key_of it ≡ p = ground arith in
        rw
          (lookup-insert (key_of it) p (items_of (key_of it) groups ++ it ∷ []) groups, s, items_of)
          (ap (λ k. items_of k groups ++ it ∷ []) same)
    | inr t ↦
        rw
          (lookup-insert (key_of it) p (items_of (key_of it) groups ++ it ∷ []) groups, t, items_of)
          (sym (append-nil _))
  ]

  group_from-items :
      (items : List A) (groups : List (EntityId × List A)) (p : EntityId)
      → items_of p (group_from key_of groups items)
        ≡ items_of p groups ++ filter (λ it. key_of it == p) items
  unfolding group_from
  group_from-items [] groups p = sym (append-nil _)
  group_from-items (it ∷ items) groups p =
      group_from-items items (group_step key_of groups it) p
      ∙ ap (λ l. l ++ filter (λ x. key_of x == p) items) (group_step-items groups it p)
      ∙ append_assoc (items_of p groups) _ _
      ∙ ap (λ l. items_of p groups ++ l) (joined_list (key_of it == p))
    where
      joined_list :
          (b : Bool)
          → (if b then it ∷ [] else []) ++ filter (λ x. key_of x == p) items ≡ (
              if b
              then it ∷ filter (λ x. key_of x == p) items
              else filter (λ x. key_of x == p) items)
      joined_list true = refl
      joined_list false = refl

  group_from-Distinct :
      (items : List A) (groups : List (EntityId × List A))
      → Distinct groups
      → Distinct (group_from key_of groups items)
  unfolding group_from group_step
  group_from-Distinct [] groups h = h
  group_from-Distinct (it ∷ items) groups h =
      group_from-Distinct items (group_step key_of groups it)
        (Distinct-insert (key_of it) _ groups h)

  pub group_by-filter :
      (items : List A) (p : EntityId)
      → items_of p (group_by key_of items) ≡ filter (λ it. key_of it == p) items
  unfolding group_by
  group_by-filter items p = group_from-items items [] p

  pub group_by-items :
      (items : List A) (p : EntityId)
      → All (λ g. g.0 ≡ p → g.1 ≡ items_of p (group_by key_of items)) (group_by key_of items)
  unfolding group_by
  group_by-items items p =
      All-of_lookup (λ g. g.0 ≡ p → g.1 ≡ items_of p (group_by key_of items))
        (group_by key_of items) (group_from-Distinct items [] tt)
        (λ q xs found same.
          let here : lookup p (group_by key_of items) ≡ some xs = rw (← same) found in
          rw (here, items_of))

pub any-key-none :
    {A : Type 0} (p : EntityId) (groups : List (EntityId × List A))
    → any (λ g. g.0 == p) groups ≡ false
    → lookup p groups ≡ none
any-key-none p [] h = refl
any-key-none p ((q, xs) ∷ groups) h = ground (arith, any-key-none p groups)

module _ {A : Type 0} where
  drop-length : (n : ℕ) (xs : List A) → length (drop n xs) ≡ length xs - n
  drop-length zero xs = omega arith
  drop-length (suc n) [] = omega arith
  drop-length (suc n) (x ∷ xs) = omega (arith, drop-length n xs)

  take-append-drop : (n : ℕ) (xs : List A) → take n xs ++ drop n xs ≡ xs
  take-append-drop zero xs = refl
  take-append-drop (suc n) [] = refl
  take-append-drop (suc n) (x ∷ xs) = ap (λ l. x ∷ l) (take-append-drop n xs)

  take-length : (n : ℕ) (xs : List A) → length (take n xs) ≤ n
  take-length zero xs = omega arith
  take-length (suc n) [] = omega arith
  take-length (suc n) (x ∷ xs) = omega (arith, take-length n xs)

  chunk_from-concat :
      (rounds size : ℕ) (xs : List A)
      → 0 < size
      → length xs ≤ rounds
      → concat (chunk_from rounds size xs) ≡ xs
  unfolding chunk_from
  chunk_from-concat zero size [] p h = refl
  chunk_from-concat zero size (x ∷ xs) p h = elim h [ ]
  chunk_from-concat (suc rounds) size [] p h = refl
  chunk_from-concat (suc rounds) size (x ∷ xs) p h =
      ap (λ l. take size (x ∷ xs) ++ l)
        (chunk_from-concat rounds size (drop size (x ∷ xs)) p
          (omega (arith, drop-length size (x ∷ xs))))
      ∙ take-append-drop size (x ∷ xs)

  chunk_from-bounded :
      (rounds size : ℕ) (xs : List A) → All (λ c. length c ≤ size) (chunk_from rounds size xs)
  unfolding chunk_from
  chunk_from-bounded zero size xs = tt
  chunk_from-bounded (suc rounds) size [] = tt
  chunk_from-bounded (suc rounds) size (x ∷ xs) =
      (take-length size (x ∷ xs), chunk_from-bounded rounds size (drop size (x ∷ xs)))

  -- For a size of at least 1, the chunks put together are the list, and none is longer than the size.
  pub chunk_lem :
      (xs : List A) (size : ℕ)
      → 0 < size
      → (concat (chunk xs size) ≡ xs) × All (λ c. length c ≤ size) (chunk xs size)
  unfolding chunk
  chunk_lem xs size h = (
    chunk_from-concat (length xs) size xs h (omega arith),
    chunk_from-bounded (length xs) size xs,
  )
