-- ===== src/Sync/Encode/Days.antt =====
-- `encodeSpan` (encode.ts): the weekday filters of its entries.
use channex_pms.Prelude.{
  ℕ, ◌≡◌, ◌≢◌, refl, Option, none, some, List, [], ◌∷◌, ◌++◌, arith, map, ltb, All, All-filter, Eq,
  Bool-cases, inl, inr, length,
}
use channex_pms.Prelude.Maps.{All-insert}
use channex_pms.Shared.Date.{LocalDate}
use channex_pms.Inventory.{Weekday}
use channex_pms.Sync.Encode.{
  FieldEntry, place_day, sort_days, point, runs_from, run_length, get_group, add_day, group_days,
  group_entry, grouped, weekday_encoding, layer, base_and_override, last_from, shorter, encode_span,
}

abbrev pub HasDays : Option (List Weekday) → Type 0
HasDays days = days ≢ some []

place_day-ne-nil : (w : Weekday) (ws : List Weekday) → place_day w ws ≢ []
unfolding place_day
place_day-ne-nil w [] h = cc
place_day-ne-nil w (v ∷ vs) h = ground arith

sort_days-ne-nil : (ws : List Weekday) → ws ≢ [] → sort_days ws ≢ []
unfolding sort_days
sort_days-ne-nil [] h = absurd (h refl)
sort_days-ne-nil (w ∷ ws) h = place_day-ne-nil w (sort_days ws)

snoc-ne-nil : (ws : List Weekday) (w : Weekday) → ws ++ w ∷ [] ≢ []
snoc-ne-nil [] w h = cc
snoc-ne-nil (v ∷ ws) w h = cc

module _ {V K : Type 0} ⦃e : Eq K⦄ (weekday_of : LocalDate → Weekday) (value_at : LocalDate → V)
    (key : V → K) where
  abbrev pub AllHaveDays : List (FieldEntry V) → Type 0
  AllHaveDays = All (λ x. HasDays x.days)

  runs_from-days :
      (ds : List LocalDate) (x : FieldEntry V)
      → HasDays x.days
      → AllHaveDays (runs_from weekday_of value_at key x ds)
  unfolding runs_from point
  runs_from-days [] x h = (h, tt)
  runs_from-days (d ∷ ds) x h = elim (Bool-cases (e.beq (key x.value) (key (value_at d)))) [
    | inl s ↦ rw (s, runs_from) (runs_from-days ds (record x { date_to = d }) h)
    | inr t ↦ rw (t, runs_from) (h, runs_from-days ds (point weekday_of value_at key d) (λ c. cc))
  ]

  group_days-days :
      (m : List (Weekday × (K × V))) (groups : List (K × (V × List Weekday)))
      → All (λ g. g.1.1 ≢ []) groups
      → All (λ g. g.1.1 ≢ []) (group_days weekday_of value_at key groups m)
  unfolding group_days add_day
  group_days-days [] groups h = h
  group_days-days ((w, (k, v)) ∷ m) groups h =
      let g = get_group weekday_of value_at key k v groups in
      group_days-days m (add_day weekday_of value_at key groups w k v)
        (All-insert (λ g. g.1.1 ≢ []) k (g.0, g.1 ++ w ∷ []) groups h (snoc-ne-nil g.1 w))

  entries-days :
      (first last : LocalDate) (groups : List (K × (V × List Weekday)))
      → All (λ g. g.1.1 ≢ []) groups
      → AllHaveDays (map (group_entry weekday_of value_at key first last) groups)
  unfolding group_entry
  entries-days first last [] h = tt
  entries-days first last ((k, (v, days)) ∷ groups) (p, h) =
      ((λ c. sort_days-ne-nil days p (cc)), entries-days first last groups h)

  grouped-days :
      (first last : LocalDate) (o : Option (List (Weekday × (K × V)))) (es : List (FieldEntry V))
      → grouped weekday_of value_at key first last o ≡ some es
      → AllHaveDays es
  unfolding grouped
  grouped-days first last none es h = cc
  grouped-days first last (some m) es h =
      let same : map (group_entry weekday_of value_at key first last)
            (group_days weekday_of value_at key [] m)
          ≡ es =
        cc in
      rw (← same) (entries-days first last _ (group_days-days m [] tt))

  weekday_encoding-days :
      (ds : List LocalDate) (es : List (FieldEntry V))
      → weekday_encoding weekday_of value_at key ds ≡ some es
      → AllHaveDays es
  unfolding weekday_encoding
  weekday_encoding-days [] es h = cc
  weekday_encoding-days (d ∷ ds) es h = elim (Bool-cases (ltb (length (d ∷ ds)) 8)) [
    | inl s ↦ let no_entries = rw s at h in cc
    | inr t ↦ grouped-days d (last_from d ds) _ es (rw t at h)
  ]

  layer-days :
      (first last : LocalDate) (runs : List (FieldEntry V)) (counts : List (K × (V × ℕ)))
      → AllHaveDays runs
      → AllHaveDays (layer weekday_of value_at key first last runs counts)
  unfolding layer
  layer-days first last runs [] h = h
  layer-days first last runs (c ∷ []) h = h
  layer-days first last runs (c ∷ c' ∷ counts) h =
      ((λ q. cc), All-filter (λ x. HasDays x.days) _ runs h)

  shorter-days :
      (o : Option (List (FieldEntry V))) (best : List (FieldEntry V))
      → ((es : List (FieldEntry V)) → o ≡ some es → AllHaveDays es)
      → AllHaveDays best
      → AllHaveDays (shorter weekday_of value_at key o best)
  unfolding shorter
  shorter-days none best h b = b
  shorter-days (some es) best h b = elim (Bool-cases (ltb (length es) (length best))) [
    | inl t ↦ rw t (h es refl)
    | inr t ↦ rw t b
  ]

  some-days :
      (xs : List (FieldEntry V))
      → AllHaveDays xs
      → (es : List (FieldEntry V)) → some xs ≡ some es
      → AllHaveDays es
  some-days xs h es e = let same : xs ≡ es = cc in rw (← same) h

  pub encode_span-days :
      (ds : List LocalDate) → AllHaveDays (encode_span weekday_of value_at key ds)
  unfolding encode_span run_length base_and_override
  encode_span-days [] = tt
  encode_span-days (d ∷ ds) =
      let runs = runs_from-days ds (point weekday_of value_at key d) (unfold point in λ c. cc) in
      shorter-days _ _
        (some-days
          (base_and_override weekday_of value_at key (d ∷ ds)
            (run_length weekday_of value_at key (d ∷ ds)))
          (layer-days d (last_from d ds) _ _ runs))
        (shorter-days _ _ (weekday_encoding-days (d ∷ ds)) runs)
