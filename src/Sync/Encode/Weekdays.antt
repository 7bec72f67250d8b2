-- ===== src/Sync/Encode/Weekdays.antt =====
-- The weekday encoding: the values that it collects, and the dates that its entries cover.
use channex_pms.Prelude.{
  ◌≡◌, refl, true, none, some, List, [], ◌∷◌, arith, Eq, Bool-cases, Option-cases, inl, inr,
  contains, ◌==◌,
}
use channex_pms.Prelude.Maps.{lookup, insert, lookup-insert, Distinct, Distinct-insert}
use channex_pms.Shared.Date.{LocalDate}
use channex_pms.Inventory.{Weekday, weekday_has_eq}
use channex_pms.Sync.Encode.{per_day_from}

module _ {V K : Type 0} ⦃e : Eq K⦄ (weekday_of : LocalDate → Weekday) (value_at : LocalDate → V)
    (key : V → K) where
  -- What the first loop has made of `before` when it ends with `after`.
  pub record Collected (before : List (Weekday × (K × V))) (ds : List LocalDate)
      (after : List (Weekday × (K × V))) : Type 0 where
    pub distinct : Distinct after
    pub keyed : (w : Weekday) (p : K × V) → lookup w after ≡ some p → key p.1 ≡ p.0
    pub kept : (w : Weekday) (p : K × V) → lookup w before ≡ some p → lookup w after ≡ some p
    pub found :
        (d : LocalDate)
        → contains d ds ≡ true
        → (v : V) × (lookup (weekday_of d) after ≡ some (key (value_at d), v))

  abbrev pub IsKeyed : List (Weekday × (K × V)) → Type 0
  IsKeyed m = (w : Weekday) (p : K × V) → lookup w m ≡ some p → key p.1 ≡ p.0

  IsKeyed-insert :
      (m : List (Weekday × (K × V))) (d : Weekday) (v : V)
      → IsKeyed m
      → IsKeyed (insert d (key v, v) m)
  IsKeyed-insert m d v keyed w p f = elim (Bool-cases (weekday_has_eq.beq d w)) [
    | inl s ↦ let q : (key v, v) ≡ p = cc (lookup-insert d w (key v, v) m, s) in rw (← q)
    | inr t ↦ keyed w p (cc (lookup-insert d w (key v, v) m, t))
  ]

  kept-insert :
      (m : List (Weekday × (K × V))) (d w : Weekday) (x p : K × V)
      → lookup d m ≡ none
      → lookup w m ≡ some p
      → lookup w (insert d x m) ≡ some p
  kept-insert m d w x p new f = elim (Bool-cases (weekday_has_eq.beq d w)) [
    | inl s ↦
        let same : d ≡ w = (weekday_has_eq.beq_iff d w).0 s in
        let gone : lookup w m ≡ none = rw (← same) new in cc
    | inr t ↦ rw (lookup-insert d w x m, t) f
  ]

  Collected-new :
      (before : List (Weekday × (K × V))) (d : LocalDate) (ds : List LocalDate)
      (after : List (Weekday × (K × V)))
      → lookup (weekday_of d) before ≡ none
      → Collected (insert (weekday_of d) (key (value_at d), value_at d) before) ds after
      → Collected before (d ∷ ds) after
  Collected-new before d ds after new c = record {
    distinct = c.distinct;
    keyed = c.keyed;
    kept = λ w p f. c.kept w p (kept-insert before (weekday_of d) w _ p new f);
    found = λ d' h. elim (Bool-cases (d == d')) [
      | inl s ↦
          let same : d ≡ d' = ground arith in
          rw (← same) (
            value_at d,
            c.kept (weekday_of d) _ (
                rw (lookup-insert (weekday_of d) (weekday_of d) _ before)
                  (rw ((weekday_has_eq.beq_iff (weekday_of d) (weekday_of d)).1 refl) refl)),
          )
      | inr t ↦ c.found d' (rw t at h)
    ];
  }

  Collected-old :
      (before : List (Weekday × (K × V))) (d : LocalDate) (ds : List LocalDate)
      (after : List (Weekday × (K × V))) (k : K) (v : V)
      → lookup (weekday_of d) before ≡ some (k, v)
      → k ≡ key (value_at d)
      → Collected before ds after
      → Collected before (d ∷ ds) after
  Collected-old before d ds after k v old same_key c = record {
    distinct = c.distinct;
    keyed = c.keyed;
    kept = c.kept;
    found = λ d' h. elim (Bool-cases (d == d')) [
      | inl s ↦
          let same : d ≡ d' = ground arith in
          rw (← same, ← same_key) (v, c.kept (weekday_of d) (k, v) old)
      | inr t ↦ c.found d' (rw t at h)
    ];
  }

  pub per_day_from-Collected :
      (before : List (Weekday × (K × V))) (ds : List LocalDate) (after : List (Weekday × (K × V)))
      → Distinct before
      → IsKeyed before
      → per_day_from weekday_of value_at key before ds ≡ some after
      → Collected before ds after
  unfolding per_day_from
  per_day_from-Collected before [] after distinct keyed h =
      let same : before ≡ after = cc in
      record {
        distinct = rw (← same) distinct;
        keyed = λ w p f. keyed w p (rw same f);
        kept = λ w p f. rw (← same) f;
        found = λ d c. cc;
      }
  per_day_from-Collected before (d ∷ ds) after distinct keyed h =
      elim (Option-cases (lookup (weekday_of d) before)) [
        | inl new ↦ Collected-new before d ds after new (
            per_day_from-Collected (insert (weekday_of d) (key (value_at d), value_at d) before) ds
              after (Distinct-insert (weekday_of d) _ before distinct)
              (IsKeyed-insert before (weekday_of d) (value_at d) keyed)
              (rw (new, per_day_from) at h))
        | inr ((k, v), old) ↦ elim (Bool-cases (e.beq k (key (value_at d)))) [
          | inl s ↦ Collected-old before d ds after k v old ((e.beq_iff _ _).0 s) (
              per_day_from-Collected before ds after distinct keyed
                (rw (old, s, per_day_from) at h))
          | inr t ↦ let no_map = rw (old, t, per_day_from) at h in cc
        ]
      ]
