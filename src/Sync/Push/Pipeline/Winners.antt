-- ===== src/Sync/Push/Pipeline/Winners.antt =====
-- `last` in `run` of push/pipeline.ts: of the outcomes of a cell, the last one is applied.
use channex_pms.Prelude.{
  ◌≡◌, refl, sym, Bool, true, false, Option, none, some, List, [], ◌∷◌, if◌then◌else◌, nat_eq, map,
  All, ◌∙◌, ap, Bool-cases, inl, inr,
}
use channex_pms.Prelude.Maps.{lookup, insert, lookup-insert, Distinct, Distinct-insert, All-insert}
use channex_pms.Inventory.{CellRef}
use channex_pms.Sync.Push.Store.{Row, CellOutcome, outcome_row}
use channex_pms.Sync.Push.Pipeline.{ref_beq, ref_beq_iff, ref_has_eq, last_from, latest}
use channex_pms.Sync.Push.Pipeline.Rows.{settle_list}

module _ (c : CellRef) where
  -- The last outcome of the cell in a list.
  abbrev pub last_for : List CellOutcome → Option CellOutcome → Option CellOutcome
  last_for [] best = best
  last_for (o ∷ os) best = last_for os (if ref_beq o.cell c then some o else best)

  lookup-last_from :
      (os : List CellOutcome) (m : List (CellRef × CellOutcome))
      → lookup c (last_from m os) ≡ last_for os (lookup c m)
  lookup-last_from [] m = refl
  lookup-last_from (o ∷ os) m =
      lookup-last_from os (insert o.cell o m) ∙ ap (last_for os) (lookup-insert o.cell c o m)

abbrev IsKeyed : CellRef × CellOutcome → Type 0
IsKeyed p = p.0 ≡ p.1.cell

last_from-Distinct :
    (os : List CellOutcome) (m : List (CellRef × CellOutcome))
    → Distinct m
    → All IsKeyed m
    → Distinct (last_from m os) × All IsKeyed (last_from m os)
last_from-Distinct [] m d a = (d, a)
last_from-Distinct (o ∷ os) m d a =
    last_from-Distinct os (insert o.cell o m) (Distinct-insert o.cell o m d)
      (All-insert IsKeyed o.cell o m a refl)

module _ {V : Type 0} (c : CellRef) where
  abbrev pub apply_best : Option CellOutcome → Row V → Row V
  apply_best none r = r
  apply_best (some o) r = outcome_row o.outcome_version o.status V r

  settle-values :
      (m : List (CellRef × CellOutcome)) (r : Row V)
      → Distinct m
      → All IsKeyed m
      → settle_list (map (λ p. p.1) m) c r ≡ apply_best (lookup c m) r
  settle-values [] r d a = refl
  settle-values ((k, o) ∷ m) r (n, d) (e, a) =
      ap
        (λ y.
          settle_list (map (λ p. p.1) m) c
            (if ref_beq y c then outcome_row o.outcome_version o.status V r else r))
        (sym e)
      ∙ (elim (Bool-cases (ref_beq k c)) [
        | inl y ↦
            let none_left : lookup c m ≡ none =
              ap (λ x. lookup x m) (sym ((ref_beq_iff k c).0 y)) ∙ n in
            settle-values m (if ref_beq k c then outcome_row o.outcome_version o.status V r else r)
              d a
            ∙ ap
                (λ x.
                  apply_best x
                    (if ref_beq k c then outcome_row o.outcome_version o.status V r else r))
                none_left
            ∙ pick (ref_beq k c) y
        | inr z ↦
            settle-values m (if ref_beq k c then outcome_row o.outcome_version o.status V r else r)
              d a
            ∙ skip (ref_beq k c) z
      ])
    where
      pick :
          (b : Bool)
          → b ≡ true
          → (if b then outcome_row o.outcome_version o.status V r else r)
            ≡ apply_best (if b then some o else lookup c m) r
      pick true h = refl
      pick false h = cc

      skip :
          (b : Bool)
          → b ≡ false
          → apply_best (lookup c m) (if b then outcome_row o.outcome_version o.status V r else r)
            ≡ apply_best (if b then some o else lookup c m) r
      skip false h = refl
      skip true h = cc

  pub settle-latest :
      (os : List CellOutcome) (r : Row V)
      → settle_list (latest os) c r ≡ apply_best (last_for c os none) r
  settle-latest os r =
      let (d, a) = last_from-Distinct os [] tt tt in
      settle-values (last_from [] os) r d a ∙ ap (λ o. apply_best o r) (lookup-last_from c os [])
