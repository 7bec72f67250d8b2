-- ===== src/Sync/Apply/Reads.antt =====
-- What a cell of the state reads after entries, or cells, have been applied.
use channex_pms.Prelude.{
  ◌≡◌, refl, sym, ap, ◌∙◌, Bool, true, false, ◌&&◌, ◌||◌, Option, none, some, List, [], ◌∷◌, ◌++◌,
  arith, if◌then◌else◌, nat_eq, pair_eq, map, any, contains, ◌==◌, Bool-cases, Option-cases, inl,
  inr,
}
use channex_pms.Prelude.Maps.{insert, lookup-insert}
use channex_pms.Shared.Date.{LocalDate}
use channex_pms.Inventory.{
  EntityId, Weekday, RestrictionField, field_has_eq, restriction_fields, FieldValue,
  RestrictionValues, with_field, RestrictionEntry,
}
use channex_pms.Sync.Dates.{expand_dates}
use channex_pms.Sync.Dates.Laws.{contains-expand_dates}
use channex_pms.Sync.Encode.{FieldEntry}
use channex_pms.Sync.Encode.Coverage.{covers, or_else, or_else_assoc}
use channex_pms.Sync.Apply.{
  CellKey, AriState, values_at, set_fields, write_dates, apply_restriction_entries,
}

module _ {V : Type 0} (weekday_of : LocalDate → Weekday) where
  -- The value that a list of partial writes leaves at a date.
  unfoldable pub result : List (FieldEntry (Option V)) → LocalDate → Option V
  result [] d = none
  result (x ∷ xs) d = or_else (result xs d) (if covers weekday_of x d then x.value else none)

  pub result-append :
      (xs ys : List (FieldEntry (Option V))) (d : LocalDate)
      → result (xs ++ ys) d ≡ or_else (result ys d) (result xs d)
  unfolding result
  result-append [] ys d = ground (arith, Option-cases (result ys d))
  result-append (x ∷ xs) ys d =
      ap (λ o. or_else o (if covers weekday_of x d then x.value else none)) (result-append xs ys d)
      ∙ or_else_assoc (result ys d) (result xs d) _

-- What an entry writes of field `f` of plan `p`.
abbrev pub write_of :
    EntityId → RestrictionField → RestrictionEntry → FieldEntry (Option FieldValue)
write_of p f x = record {
  date_from = x.date_from;
  date_to = x.date_to;
  days = x.days;
  value = if x.rate_plan_id == p then x.values f else none;
}

abbrev pub read_cell :
    EntityId → LocalDate → RestrictionField → List (CellKey × RestrictionValues) → Option FieldValue
read_cell p d f m = values_at (p, d) m f

values_at-insert :
    (k j : CellKey) (v : RestrictionValues) (m : List (CellKey × RestrictionValues))
    → values_at k (insert j v m) ≡ (if pair_eq.beq j k then v else values_at k m)
values_at-insert k j v m =
    rw (lookup-insert j k v m, values_at)
      (elim (Bool-cases (pair_eq.beq j k)) [ inl s ↦ rw s | inr t ↦ rw t ])

pub read_cell-insert :
    (p q : EntityId) (d c : LocalDate) (f : RestrictionField) (v : RestrictionValues)
    (m : List (CellKey × RestrictionValues))
    → read_cell p d f (insert (q, c) v m) ≡ (if q == p && c == d then v f else read_cell p d f m)
read_cell-insert p q d c f v m =
    ap (λ (r : RestrictionValues). r f) (values_at-insert (p, d) (q, c) v m)
    ∙ (elim (Bool-cases (q == p && c == d)) [ inl s ↦ rw s | inr t ↦ rw t ])

set_fields-read :
    (fs : List RestrictionField) (values cur : RestrictionValues) (f : RestrictionField)
    → set_fields fs values cur f
      ≡ (if any (λ g. field_has_eq.beq g f) fs then or_else (values f) (cur f) else cur f)
unfolding set_fields
set_fields-read [] values cur f = refl
set_fields-read (g ∷ fs) values cur f = elim (Option-cases (values g)) [
  | inl e ↦ rw (e, set_fields) (set_fields-read fs values cur f ∙ skipped e)
  | inr (v, e) ↦
      rw (e, set_fields) (set_fields-read fs values (with_field g (some v) cur) f ∙ set v e)
]
  where
    same_field : field_has_eq.beq g f ≡ true → values f ≡ values g
    same_field s = ap values (sym ((field_has_eq.beq_iff g f).0 s))

    rest : Bool
    rest = any (λ h. field_has_eq.beq h f) fs

    skipped :
        values g ≡ none
        → (if rest then or_else (values f) (cur f) else cur f)
          ≡ (if field_has_eq.beq g f || rest then or_else (values f) (cur f) else cur f)
    skipped e = elim (Bool-cases (field_has_eq.beq g f)) [
      | inl s ↦ rw (s, same_field s, e) (elim (Bool-cases rest) [ inl r ↦ rw r | inr r ↦ rw r ])
      | inr t ↦ rw t
    ]

    set :
        (v : FieldValue)
        → values g ≡ some v
        → (if rest
            then or_else (values f) (with_field g (some v) cur f)
            else with_field g (some v) cur f)
          ≡ (if field_has_eq.beq g f || rest then or_else (values f) (cur f) else cur f)
    set v e = elim (Bool-cases (field_has_eq.beq g f)) [
      | inl s ↦ rw (s, same_field s, e) (elim (Bool-cases rest) [ inl r ↦ rw r | inr r ↦ rw r ])
      | inr t ↦ rw t
    ]

every_field : (f : RestrictionField) → any (λ g. field_has_eq.beq g f) restriction_fields ≡ true
unfolding restriction_fields
every_field f = ground arith

set_all_fields :
    (values cur : RestrictionValues) (f : RestrictionField)
    → set_fields restriction_fields values cur f ≡ or_else (values f) (cur f)
set_all_fields values cur f = set_fields-read restriction_fields values cur f ∙ rw (every_field f)

if-same {ℓ} : {A : Type ℓ} (b : Bool) (x : A) → (if b then x else x) ≡ x
if-same true x = refl
if-same false x = refl

or_else_self {ℓ} : {A : Type ℓ} (a b : Option A) → or_else a (or_else a b) ≡ or_else a b
or_else_self none b = refl
or_else_self (some a) b = refl

write_dates-read :
    (plan p : EntityId) (values : RestrictionValues) (ds : List LocalDate)
    (m : List (CellKey × RestrictionValues)) (d : LocalDate) (f : RestrictionField)
    → read_cell p d f (write_dates plan values ds m) ≡ (
        if plan == p && contains d ds
        then or_else (values f) (read_cell p d f m)
        else read_cell p d f m)
unfolding write_dates
write_dates-read plan p values [] m d f = ground arith
write_dates-read plan p values (c ∷ ds) m d f =
    write_dates-read plan p values ds (written c) d f
    ∙ rw
        (read_cell-insert p plan d c f
          (set_fields restriction_fields values (values_at (plan, c) m)) m)
        (elim (Bool-cases (plan == p && c == d)) [
          | inl s ↦
              let same : plan ≡ p = ground arith in
              let day : c ≡ d = ground arith in
              let fact : set_fields restriction_fields values (values_at (plan, c) m) f
                  ≡ or_else (values f) (read_cell p d f m) =
                set_all_fields values (values_at (plan, c) m) f ∙ (rw (same, day)) in
              let plan_is : (plan == p) ≡ true = ground arith in
              let day_is : (c == d) ≡ true = ground arith in
              rw (s, fact, or_else_self (values f) (read_cell p d f m))
                (if-same (plan == p && contains d ds) _ ∙ (rw (plan_is, day_is)))
          | inr t ↦ ground arith
        ])
  where
    written : LocalDate → List (CellKey × RestrictionValues)
    written day =
        insert (plan, day) (set_fields restriction_fields values (values_at (plan, day) m)) m

write_of-result :
    (weekday_of : LocalDate → Weekday) (x : RestrictionEntry)
    (m : List (CellKey × RestrictionValues)) (p : EntityId) (d : LocalDate) (f : RestrictionField)
    → read_cell p d f (
        write_dates x.rate_plan_id x.values
          (expand_dates weekday_of x.date_from x.date_to x.days)
          m)
      ≡ or_else
          (if covers weekday_of (write_of p f x) d then (write_of p f x).value else none)
          (read_cell p d f m)
write_of-result weekday_of x m p d f =
    write_dates-read x.rate_plan_id p x.values
      (expand_dates weekday_of x.date_from x.date_to x.days) m d f
    ∙ rw (contains-expand_dates weekday_of x.date_from x.date_to x.days d)
        (elim (Bool-cases (x.rate_plan_id == p)) [
          | inl s ↦ rw s (elim (Bool-cases (covers weekday_of (write_of p f x) d)) [
            | inl c ↦ rw c
            | inr n ↦ rw n
          ])
          | inr t ↦ rw t (elim (Bool-cases (covers weekday_of (write_of p f x) d)) [
            | inl c ↦ rw c
            | inr n ↦ rw n
          ])
        ])

-- After entries have been applied in order, a field of a cell holds the value of the last entry
-- of its plan that covers its date and carries the field, and its old value where none does.
pub apply_restriction_entries-read :
    (weekday_of : LocalDate → Weekday) (es : List RestrictionEntry) (s : AriState) (p : EntityId)
    (d : LocalDate) (f : RestrictionField)
    → read_cell p d f (apply_restriction_entries weekday_of s es).restrictions
      ≡ or_else (result weekday_of (map (write_of p f) es) d) (read_cell p d f s.restrictions)
unfolding apply_restriction_entries result
apply_restriction_entries-read weekday_of [] s p d f = refl
apply_restriction_entries-read weekday_of (x ∷ es) s p d f =
    apply_restriction_entries-read weekday_of es
      (record s {
        restrictions =
            write_dates x.rate_plan_id x.values
              (expand_dates weekday_of x.date_from x.date_to x.days) s.restrictions;
      })
      p d f
    ∙ ap (or_else (result weekday_of (map (write_of p f) es) d))
        (write_of-result weekday_of x s.restrictions p d f)
    ∙ sym (
        or_else_assoc (result weekday_of (map (write_of p f) es) d) _
          (read_cell p d f s.restrictions))
