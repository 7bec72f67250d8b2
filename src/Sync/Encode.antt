-- ===== src/Sync/Encode.antt =====
-- packages/sync/src/batch/encode.ts: one field's values over one span of dates, as the fewest
-- entries of three encodings. `key` gives a value's canonical text, of any type of keys with a test
-- of equality.
pub mod Coverage
pub mod Runs
pub mod Weekdays
pub mod Groups
pub mod Counts
pub mod Exact
pub mod Days
use channex_pms.Prelude.{
  ℕ, zero, suc, ◌+◌, Bool, true, false, not, ◌&&◌, Option, none, some, List, [], ◌∷◌, ◌++◌, ltb,
  leb, ◌==◌, if◌then◌else◌, length, map, filter, Eq,
}
use channex_pms.Prelude.Maps.{lookup, insert}
use channex_pms.Shared.Date.{LocalDate}
use channex_pms.Inventory.{Weekday, order, weekday_has_eq}

pub record FieldEntry (V : Type 0) : Type 0 where
  pub date_from : LocalDate
  pub date_to : LocalDate
  pub days : Option (List Weekday)
  pub value : V

-- `days.sort(byWeekdayOrder)`.
place_day : Weekday → List Weekday → List Weekday
place_day w [] = w ∷ []
place_day w (v ∷ vs) = if leb (order w) (order v) then w ∷ v ∷ vs else v ∷ place_day w vs

pub sort_days : List Weekday → List Weekday
unfolding place_day
sort_days [] = []
sort_days (w ∷ ws) = place_day w (sort_days ws)

-- `dates.at(-1)!` of a list that begins with `d`.
pub last_from : LocalDate → List LocalDate → LocalDate
last_from d [] = d
last_from d (c ∷ cs) = last_from c cs

module _ {V K : Type 0} ⦃e : Eq K⦄ (weekday_of : LocalDate → Weekday) (value_at : LocalDate → V)
    (key : V → K) where
  -- A new run of one date.
  pub point : LocalDate → FieldEntry V
  point d = record { date_from = d; date_to = d; days = none; value = value_at d }

  -- The loop of `runLength`; `last` is the last entry of its output.
  pub runs_from : FieldEntry V → List LocalDate → List (FieldEntry V)
  unfolding point
  runs_from last [] = last ∷ []
  runs_from last (d ∷ ds) = elim (e.beq (key last.value) (key (value_at d))) [
    | true ↦ runs_from (record last { date_to = d }) ds
    | false ↦ last ∷ runs_from (point d) ds
  ]

  pub run_length : List LocalDate → List (FieldEntry V)
  unfolding runs_from
  run_length [] = []
  run_length (d ∷ ds) = runs_from (point d) ds

  -- The first loop of `weekdayEncoding`: each weekday's value, or `none` where one varies.
  pub per_day_from : List (Weekday × (K × V)) → List LocalDate → Option (List (Weekday × (K × V)))
  per_day_from per_day [] = some per_day
  per_day_from per_day (d ∷ ds) = elim (lookup (weekday_of d) per_day) [
    | none ↦ per_day_from (insert (weekday_of d) (key (value_at d), value_at d) per_day) ds
    | some (k, v) ↦ elim (e.beq k (key (value_at d))) [
      | true ↦ per_day_from per_day ds
      | false ↦ none
    ]
  ]

  pub get_group : K → V → List (K × (V × List Weekday)) → V × List Weekday
  get_group k v groups = elim (lookup k groups) [ none ↦ (v, []) | some g ↦ g ]

  -- One round of the second loop, which lists the weekdays of each value.
  pub add_day : List (K × (V × List Weekday)) → Weekday → K → V → List (K × (V × List Weekday))
  unfolding get_group
  add_day groups wd k v = let g = get_group k v groups in insert k (g.0, g.1 ++ wd ∷ []) groups

  pub group_days :
      List (K × (V × List Weekday)) → List (Weekday × (K × V)) → List (K × (V × List Weekday))
  unfolding add_day
  group_days groups [] = groups
  group_days groups ((wd, (k, v)) ∷ per_day) = group_days (add_day groups wd k v) per_day

  pub group_entry : LocalDate → LocalDate → K × (V × List Weekday) → FieldEntry V
  unfolding sort_days
  group_entry first last (k, (v, days)) = record {
    date_from = first;
    date_to = last;
    days = some (sort_days days);
    value = v;
  }

  pub grouped :
      LocalDate → LocalDate → Option (List (Weekday × (K × V))) → Option (List (FieldEntry V))
  unfolding group_days group_entry
  grouped first last none = none
  grouped first last (some per_day) = some (map (group_entry first last) (group_days [] per_day))

  pub weekday_encoding : List LocalDate → Option (List (FieldEntry V))
  unfolding per_day_from grouped last_from
  weekday_encoding [] = none
  weekday_encoding (d ∷ ds) =
      if ltb (length (d ∷ ds)) 8
      then none
      else grouped d (last_from d ds) (per_day_from [] (d ∷ ds))

  pub get_count : K → V → List (K × (V × ℕ)) → V × ℕ
  get_count k v counts = elim (lookup k counts) [ none ↦ (v, 0) | some c ↦ c ]

  pub count_values : List (K × (V × ℕ)) → List LocalDate → List (K × (V × ℕ))
  unfolding get_count
  count_values counts [] = counts
  count_values counts (d ∷ ds) =
      let c = get_count (key (value_at d)) (value_at d) counts in
      count_values (insert (key (value_at d)) (c.0, c.1 + 1) counts) ds

  -- The most frequent value, the first of those that tie.
  pub dominant_from : K × (V × ℕ) → List (K × (V × ℕ)) → K × (V × ℕ)
  dominant_from best [] = best
  dominant_from best (c ∷ counts) = dominant_from (if ltb best.1.1 c.1.1 then c else best) counts

  pub layer : LocalDate → LocalDate → List (FieldEntry V) → List (K × (V × ℕ)) → List (FieldEntry V)
  unfolding dominant_from
  layer first last runs [] = runs
  layer first last runs (c ∷ []) = runs
  layer first last runs (c ∷ counts) =
      let dominant = dominant_from c counts in
      record { date_from = first; date_to = last; days = none; value = dominant.1.0 }
      ∷ filter (λ r. not (e.beq (key r.value) dominant.0)) runs

  pub base_and_override : List LocalDate → List (FieldEntry V) → List (FieldEntry V)
  unfolding count_values layer last_from
  base_and_override [] runs = runs
  base_and_override (d ∷ ds) runs = layer d (last_from d ds) runs (count_values [] (d ∷ ds))

  pub shorter : Option (List (FieldEntry V)) → List (FieldEntry V) → List (FieldEntry V)
  shorter none best = best
  shorter (some es) best = if ltb (length es) (length best) then es else best

  unfoldable pub encode_span : List LocalDate → List (FieldEntry V)
  unfolding run_length weekday_encoding base_and_override shorter
  encode_span [] = []
  encode_span (d ∷ ds) =
      let runs = run_length (d ∷ ds) in
      let best = shorter (weekday_encoding (d ∷ ds)) runs in
      shorter (some (base_and_override (d ∷ ds) runs)) best
