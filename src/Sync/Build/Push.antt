-- ===== src/Sync/Build/Push.antt =====
-- `buildRestrictionBatch` (build.ts): an entry pushed by the merging loop.
use channex_pms.Prelude.{
  ℕ, ◌≡◌, refl, sym, ap, ap₂, ◌∙◌, true, Option, none, some, List, [], ◌∷◌, ◌++◌, arith, map, ltb,
  length, get_elem?, All-append, nat_eq, pair_eq, list_eq, Bool-cases, inl, inr,
}
use mathlib.Core.List.{map-append}
use channex_pms.Prelude.Maps.{lookup, insert, lookup-insert}
use channex_pms.Shared.Date.{LocalDate}
use channex_pms.Inventory.{
  EntityId, Weekday, weekday_has_eq, RestrictionField, field_has_eq, FieldValue, RestrictionEntry,
}
use channex_pms.Sync.Encode.{FieldEntry}
use channex_pms.Sync.Encode.Coverage.{or_else}
use channex_pms.Sync.Encode.Days.{HasDays}
use channex_pms.Sync.Apply.Reads.{result, result-append, write_of}
use channex_pms.Sync.Build.Slots.{
  get_elem?-snoc, get_elem?-append_left, get_elem?-last, get_elem?-lt,
}
use channex_pms.Sync.Build.{
  Tagged, EntryKey, Merging, days_or_empty, entry_key, is_above, new_entry, push_new,
}
use channex_pms.Sync.Build.Merge.{field_write, meaning, IsMerged, field_write-result}

module _ (weekday_of : LocalDate → Weekday) where
  module _ (p : EntityId) (st : Merging) (done : List Tagged) (f : RestrictionField)
      (x : FieldEntry (Option FieldValue)) (m : IsMerged weekday_of p st done) where
    push_new-clear :
        (g : RestrictionField) (i : ℕ) (z : RestrictionEntry)
        → get_elem? (st.merged ++ new_entry p f x ∷ []) i ≡ some z
        → is_above i (lookup g (insert f (length st.merged) st.last_index_of_field)) ≡ true
        → z.values g ≡ none
    unfolding new_entry
    push_new-clear g i z h a = elim (Bool-cases (field_has_eq.beq f g)) [
      | inl s ↦
          let beyond : ltb (length st.merged) i ≡ true =
            rw (lookup-insert f g (length st.merged) st.last_index_of_field, s) at a in
          elim (get_elem?-snoc st.merged _ z i h) [
            | inl old ↦ absurd (ground (arith, get_elem?-lt st.merged i z old))
            | inr (e, same) ↦ absurd (ground arith)
          ]
      | inr t ↦
          let above : is_above i (lookup g st.last_index_of_field) ≡ true =
            rw (lookup-insert f g (length st.merged) st.last_index_of_field, t) at a in
          elim (get_elem?-snoc st.merged _ z i h) [
            | inl old ↦ m.clear g i z old above
            | inr (e, same) ↦ rw (← same, t)
          ]
    ]

    push_new-indexed :
        (k : EntryKey) (i : ℕ)
        → lookup k (insert (entry_key x) (length st.merged) st.index_by_key) ≡ some i
        → (z : RestrictionEntry) × (get_elem? (st.merged ++ new_entry p f x ∷ []) i ≡ some z)
          × (z.date_from ≡ k.0)
          × (z.date_to ≡ k.1.0)
          × (days_or_empty z.days ≡ k.1.1)
    unfolding new_entry
    push_new-indexed k i h = elim (Bool-cases (pair_eq.beq (entry_key x) k)) [
      | inl s ↦
          let here =
            rw (lookup-insert (entry_key x) k (length st.merged) st.index_by_key, s) at h in
          let e : length st.merged ≡ i = cc here in
          let same = (pair_eq.beq_iff (entry_key x) k).0 s in
          (
            new_entry p f x,
            rw (← e) (get_elem?-last st.merged (new_entry p f x)),
            ap (λ r. r.0) same,
            ap (λ r. r.1.0) same,
            ap (λ r. r.1.1) same,
          )
      | inr t ↦
          let there =
            rw (lookup-insert (entry_key x) k (length st.merged) st.index_by_key, t) at h in
          let (z, g, from, to, on) = m.indexed k i there in
          (z, get_elem?-append_left st.merged _ i z g, from, to, on)
    ]

    push_new-means :
        (g : RestrictionField) (d : LocalDate)
        → meaning weekday_of p g (st.merged ++ new_entry p f x ∷ []) d
          ≡ result weekday_of (map (field_write g) (done ++ (f, x) ∷ [])) d
    unfolding new_entry result
    push_new-means g d =
        ap (λ l. result weekday_of l d) (map-append (write_of p g) st.merged (new_entry p f x ∷ []))
        ∙ result-append weekday_of (map (write_of p g) st.merged)
            (write_of p g (new_entry p f x) ∷ []) d
        ∙ ap₂ or_else (rw ((nat_eq.beq_iff p p).1 refl)) (m.means g d)
        ∙ sym (field_write-result weekday_of f g x done d)

    pub push_new-IsMerged :
        HasDays x.days → IsMerged weekday_of p (push_new p st (f, x)) (done ++ (f, x) ∷ [])
    unfolding push_new new_entry
    push_new-IsMerged has = record {
      planned =
          All-append (λ y. y.rate_plan_id ≡ p) st.merged (new_entry p f x ∷ []) m.planned
            (refl, tt);
      dayed = All-append (λ y. HasDays y.days) st.merged (new_entry p f x ∷ []) m.dayed (has, tt);
      clear = push_new-clear;
      indexed = push_new-indexed;
      means = push_new-means;
    }
