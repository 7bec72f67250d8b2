-- ===== src/Sync/Encode/Exact.antt =====
-- `encodeSpan` (encode.ts): the three encodings and the choice between them.
use channex_pms.Prelude.{
  ℕ, zero, suc, ◌+◌, ◌≡◌, refl, sym, ap, ◌∙◌, Bool, true, false, not, ◌&&◌, Option, none, some,
  List, [], ◌∷◌, arith, leb, ltb, any, All, All-filter, Eq, Bool-cases, Option-cases, inl, inr,
  range_from, contains, filter, length, if◌then◌else◌,
}
use channex_pms.Shared.Date.{LocalDate}
use channex_pms.Inventory.{Weekday}
use channex_pms.Sync.Dates.Laws.{IsRun}
use channex_pms.Sync.Encode.{
  FieldEntry, last_from, point, run_length, per_day_from, grouped, weekday_encoding, count_values,
  dominant_from, layer, base_and_override, shorter, encode_span,
}
use channex_pms.Sync.Encode.Coverage.{covers, last_write, last_write-none, last_write-some}
use channex_pms.Sync.Encode.Runs.{IsRight, point-IsOpen, runs_from-covers, runs_from-IsRight}
use channex_pms.Sync.Encode.Counts.{IsCount, count_values-IsCount, dominant_from-IsCount}
use channex_pms.Sync.Encode.Groups.{group_days-covers}

pub contains-range_from : (n a d : ℕ) → contains d (range_from a n) ≡ (leb a d && ltb d (a + n))
contains-range_from zero a d = ground arith
contains-range_from (suc n) a d = ground (arith, contains-range_from n (suc a) d)

last_from-range_from : (n a : ℕ) → last_from a (range_from (suc a) n) ≡ a + n
unfolding last_from
last_from-range_from zero a = omega arith
last_from-range_from (suc n) a = omega (arith, last_from-range_from n (suc a))

some_eq {ℓ} : {A : Type ℓ} {x y : A} → some x ≡ some y → x ≡ y
some_eq h = cc

module _ {V K : Type 0} ⦃e : Eq K⦄ (weekday_of : LocalDate → Weekday) (value_at : LocalDate → V)
    (key : V → K) (key-injective : (v w : V) → key v ≡ key w → v ≡ w) where
  -- Applied in order, the entries write each of the dates with its value, and nothing else.
  abbrev pub IsExact : List LocalDate → List (FieldEntry V) → Type 0
  IsExact ds es =
      (d : LocalDate)
      → last_write weekday_of es d ≡ (if contains d ds then some (value_at d) else none)

  AllRight-value :
      (es : List (FieldEntry V)) (d : LocalDate)
      → All (IsRight weekday_of value_at key) es
      → All (λ x. covers weekday_of x d ≡ true → x.value ≡ value_at d) es
  AllRight-value [] d h = tt
  AllRight-value (x ∷ es) d (p, h) = ((λ c. sym (key-injective _ _ (p d c))), AllRight-value es d h)

  IsExact-of_covers :
      (ds : List LocalDate) (es : List (FieldEntry V))
      → ((d : LocalDate) → any (λ x. covers weekday_of x d) es ≡ contains d ds)
      → All (IsRight weekday_of value_at key) es
      → IsExact ds es
  IsExact-of_covers ds es c h d = elim (Bool-cases (contains d ds)) [
    | inl here ↦
        rw here (last_write-some weekday_of es d (value_at d) (AllRight-value es d h) (c d ∙ here))
    | inr gone ↦ rw gone (last_write-none weekday_of es d (c d ∙ gone))
  ]

  -- The runs that the base's value replaces are those with its key.
  dropped_key :
      (k : K) (runs : List (FieldEntry V)) (d : LocalDate)
      → All (IsRight weekday_of value_at key) runs
      → any (λ x. covers weekday_of x d) runs ≡ true
      → any (λ x. covers weekday_of x d) (filter (λ r. not (e.beq (key r.value) k)) runs) ≡ false
      → key (value_at d) ≡ k
  dropped_key k [] d h c n = cc
  dropped_key k (x ∷ runs) d (p, h) c n = elim (Bool-cases (e.beq (key x.value) k)) [
    | inl s ↦ elim (Bool-cases (covers weekday_of x d)) [
      | inl here ↦ p d here ∙ (e.beq_iff _ _).0 s
      | inr gone ↦ dropped_key k runs d h (rw gone at c) (rw s at n)
    ]
    | inr t ↦ ground (arith, dropped_key k runs d h)
  ]

  module _ (ds : List LocalDate) (first last : LocalDate)
      (inside : (d : LocalDate) → contains d ds ≡ (leb first d && leb d last))
      (runs : List (FieldEntry V)) (right : All (IsRight weekday_of value_at key) runs)
      (covered : (d : LocalDate) → any (λ x. covers weekday_of x d) runs ≡ contains d ds) where
    base : V → FieldEntry V
    base v = record { date_from = first; date_to = last; days = none; value = v }

    kept_runs : K → List (FieldEntry V)
    kept_runs k = filter (λ r. not (e.beq (key r.value) k)) runs

    any-filter :
        (p q : FieldEntry V → Bool) (xs : List (FieldEntry V))
        → any p (filter q xs) ≡ true
        → any p xs ≡ true
    any-filter p q [] h = h
    any-filter p q (x ∷ xs) h = ground (arith, any-filter p q xs)

    base-IsExact : (k : K) (v : V) → key v ≡ k → IsExact ds (base v ∷ kept_runs k)
    unfolding base kept_runs last_write
    base-IsExact k v keyed d = elim (Bool-cases (any (λ x. covers weekday_of x d) (kept_runs k))) [
      | inl over ↦
          let here : contains d ds ≡ true =
            sym (covered d) ∙ any-filter (λ x. covers weekday_of x d) _ runs over in
          let w =
            last_write-some weekday_of (kept_runs k) d (value_at d)
              (AllRight-value (kept_runs k) d
                (All-filter (IsRight weekday_of value_at key) _ runs right))
              over in
          rw (here, w)
      | inr bare ↦
          let w = last_write-none weekday_of (kept_runs k) d bare in
          elim (Bool-cases (contains d ds)) [
            | inl here ↦
                let same : v ≡ value_at d =
                  key-injective _ _
                    (keyed ∙ sym (dropped_key k runs d right (covered d ∙ here) bare)) in
                rw (w, here, ← (inside d), here) (ap some same)
            | inr gone ↦ rw (w, gone, ← (inside d), gone)
          ]
    ]

    layer-IsExact :
        (counts : List (K × (V × ℕ)))
        → All (IsCount weekday_of value_at key) counts
        → IsExact ds (layer weekday_of value_at key first last runs counts)
    unfolding layer base kept_runs
    layer-IsExact [] h = IsExact-of_covers ds runs covered right
    layer-IsExact (c ∷ []) h = IsExact-of_covers ds runs covered right
    layer-IsExact (c ∷ c' ∷ counts) (p, h) =
        let dominant = dominant_from weekday_of value_at key c (c' ∷ counts) in
        base-IsExact dominant.0 dominant.1.0
          (dominant_from-IsCount weekday_of value_at key (c' ∷ counts) c p h)

  module _ (a n : ℕ) where
    days : List LocalDate
    days = range_from a (suc n)

    days_inside : (d : LocalDate) → contains d days ≡ (leb a d && leb d (a + n))
    unfolding days
    days_inside d = contains-range_from (suc n) a d ∙ ground arith

    runs_covered :
        (d : LocalDate)
        → any (λ x. covers weekday_of x d) (run_length weekday_of value_at key days)
          ≡ contains d days
    unfolding run_length point days
    runs_covered d =
        runs_from-covers weekday_of value_at key n (suc a) (point weekday_of value_at key a)
          (point-IsOpen weekday_of value_at key a) d
        ∙ sym (contains-range_from (suc n) a d ∙ ground arith)

    runs-IsRight : All (IsRight weekday_of value_at key) (run_length weekday_of value_at key days)
    unfolding run_length days
    runs-IsRight =
        runs_from-IsRight weekday_of value_at key n (suc a) (point weekday_of value_at key a)
          (point-IsOpen weekday_of value_at key a)

    base_and_override-IsExact :
        IsExact days
          (base_and_override weekday_of value_at key days (run_length weekday_of value_at key days))
    unfolding base_and_override days
    base_and_override-IsExact = rw (last_from-range_from n a) (
        layer-IsExact days a (a + n) days_inside (run_length weekday_of value_at key days)
          runs-IsRight runs_covered (count_values weekday_of value_at key [] days)
          (count_values-IsCount weekday_of value_at key days [] tt))

    grouped-IsExact :
        (es : List (FieldEntry V))
        → grouped weekday_of value_at key a (a + n) (per_day_from weekday_of value_at key [] days)
          ≡ some es
        → IsExact days es
    unfolding grouped
    grouped-IsExact es h = elim (Option-cases (per_day_from weekday_of value_at key [] days)) [
      | inl varies ↦ let no_entries = rw (varies, grouped) at h in cc
      | inr (m, found) ↦
          let (c, r) =
            group_days-covers weekday_of value_at key days a (a + n) m days_inside found in
          let made = rw (found, grouped) at h in
          rw (← (some_eq made)) (IsExact-of_covers days _ c r)
    ]

    weekday_encoding-IsExact :
        (es : List (FieldEntry V))
        → weekday_encoding weekday_of value_at key days ≡ some es
        → IsExact days es
    unfolding weekday_encoding days
    weekday_encoding-IsExact es h = elim (Bool-cases (ltb (length days) 8)) [
      | inl short ↦ let no_entries = rw short at h in cc
      | inr long ↦ grouped-IsExact es (rw (← (last_from-range_from n a)) (rw long at h))
    ]

    shorter-IsExact :
        (o : Option (List (FieldEntry V))) (best : List (FieldEntry V))
        → ((es : List (FieldEntry V)) → o ≡ some es → IsExact days es)
        → IsExact days best
        → IsExact days (shorter weekday_of value_at key o best)
    unfolding shorter
    shorter-IsExact none best h b = b
    shorter-IsExact (some es) best h b = elim (Bool-cases (ltb (length es) (length best))) [
      | inl t ↦ rw t (h es refl)
      | inr t ↦ rw t b
    ]

    encode_days-IsExact : IsExact days (encode_span weekday_of value_at key days)
    unfolding encode_span days
    encode_days-IsExact =
        shorter-IsExact
          (some (
            base_and_override weekday_of value_at key days
              (run_length weekday_of value_at key days)))
          (shorter weekday_of value_at key (weekday_encoding weekday_of value_at key days)
            (run_length weekday_of value_at key days))
          (λ es h. rw (← (some_eq h)) base_and_override-IsExact)
          (shorter-IsExact (weekday_encoding weekday_of value_at key days)
            (run_length weekday_of value_at key days) weekday_encoding-IsExact
            (IsExact-of_covers days (run_length weekday_of value_at key days) runs_covered
              runs-IsRight))

  pub encode_span-IsExact :
      (ds : List LocalDate) → IsRun ds → IsExact ds (encode_span weekday_of value_at key ds)
  encode_span-IsExact ds (a, n, run) = rw run (unfold days in encode_days-IsExact a n)

  -- For a run of consecutive days and an injective key, applying the entries that `encode_span`
  -- chooses writes every date of the run with its value and no other date.
  pub encode_span-last_write :
      (ds : List LocalDate)
      → IsRun ds
      → (d : LocalDate)
      → last_write weekday_of (encode_span weekday_of value_at key ds) d
        ≡ (if contains d ds then some (value_at d) else none)
  encode_span-last_write ds run d = encode_span-IsExact ds run d
