-- ===== src/Sync/Push/Pipeline/Reaches.antt =====
-- `cellsOf` and `rejectedByIndex` of push/pipeline.ts: which rate cells an entry reaches, and what
-- an answer says of each.
use channex_pms.Prelude.{
  ℕ, suc, ◌≡◌, refl, Bool, false, ◌&&◌, Option, none, some, List, [], ◌∷◌, if◌then◌else◌, ◌==◌, leb,
  contains, nat_eq, pair_eq, map, any, ◌∙◌, ap, arith, fun_ext,
}
use channex_pms.Prelude.Maps.{lookup, insert, lookup-insert}
use channex_pms.Shared.Date.{LocalDate}
use channex_pms.Inventory.{Weekday, rate_cell, availability_cell}
use channex_pms.Sync.Dates.{admits, expand_dates}
use channex_pms.Sync.Dates.Laws.{contains-expand_dates}
use channex_pms.Sync.Apply.{CellKey}
use channex_pms.Sync.Push.Store.{OutcomeStatus}
use channex_pms.Sync.Push.Reference.{Text}
use channex_pms.Sync.Push.Pipeline.{
  ref_has_eq, Entry, room_entry, plan_entry, Rejection, rejections_from,
}
use channex_pms.Sync.Push.Pipeline.Rows.{rate_key_ref, has_ref, covers_ref}
use channex_pms.Sync.Push.Pipeline.Latest.{entry_status, decided}

-- The reason of the last rejection of an index.
abbrev pub reason_at : ℕ → List Rejection → Option Text → Option Text
reason_at i [] best = best
reason_at i (r ∷ rs) best = reason_at i rs (if r.index == i then some r.reason else best)

lookup-rejections_from :
    (i : ℕ) (rs : List Rejection) (m : List (ℕ × Text))
    → lookup i (rejections_from m rs) ≡ reason_at i rs (lookup i m)
lookup-rejections_from i [] m = refl
lookup-rejections_from i (r ∷ rs) m =
    lookup-rejections_from i rs (insert r.index r.reason m)
    ∙ ap (reason_at i rs) (lookup-insert r.index i r.reason m)

pub has_ref-dates :
    (k : CellKey) (plan : ℕ) (dates : List LocalDate)
    → has_ref (rate_key_ref k) (map (λ d. record { kind = rate_cell; id = plan; date = d }) dates)
      ≡ ((plan == k.0) && contains k.1 dates)
has_ref-dates k plan [] = ground arith
has_ref-dates k plan (d ∷ dates) = ground (arith, has_ref-dates k plan dates)

module _ (weekday_of : LocalDate → Weekday) (k : CellKey) where
  -- An entry reaches the rate cells of its plan on the dates of its inclusive range whose weekday
  -- it admits.
  abbrev pub reaches : Entry → Bool
  reaches (room_entry e) = false
  reaches (plan_entry e) =
      (e.rate_plan_id == k.0)
      && ((leb e.date_from k.1 && leb k.1 e.date_to) && admits e.days (weekday_of k.1))

  -- The status of the last entry that reaches the cell, from the index `i` on.
  abbrev pub last_status :
      List Rejection → ℕ → List Entry → Option OutcomeStatus → Option OutcomeStatus
  last_status rejected i [] best = best
  last_status rejected i (x ∷ xs) best =
      last_status rejected (suc i) xs
        (if reaches x then some (entry_status (reason_at i rejected none)) else best)

  has_ref-rooms :
      (room : ℕ) (dates : List LocalDate)
      → has_ref
          (rate_key_ref k)
          (map (λ d. record { kind = availability_cell; id = room; date = d }) dates)
        ≡ false
  has_ref-rooms room [] = refl
  has_ref-rooms room (d ∷ dates) = has_ref-rooms room dates

  covers_ref-reaches : (x : Entry) → covers_ref weekday_of (rate_key_ref k) x ≡ reaches x
  covers_ref-reaches (room_entry e) =
      has_ref-rooms e.room_type_id (expand_dates weekday_of e.date_from e.date_to e.days)
  covers_ref-reaches (plan_entry e) =
      has_ref-dates k e.rate_plan_id (expand_dates weekday_of e.date_from e.date_to e.days)
      ∙ ap (λ b. (e.rate_plan_id == k.0) && b)
          (contains-expand_dates weekday_of e.date_from e.date_to e.days k.1)

  pub any-reaches :
      (es : List Entry) → any (covers_ref weekday_of (rate_key_ref k)) es ≡ any reaches es
  any-reaches es = ap (λ f. any f es) (fun_ext covers_ref-reaches)

  pub decided-last_status :
      (rejected : List Rejection) (i : ℕ) (es : List Entry) (best : Option OutcomeStatus)
      → decided weekday_of (rate_key_ref k) (rejections_from [] rejected) i es best
        ≡ last_status rejected i es best
  decided-last_status rejected i [] best = refl
  decided-last_status rejected i (x ∷ xs) best =
      ap
        (λ b.
          decided weekday_of (rate_key_ref k) (rejections_from [] rejected) (suc i) xs
            (if b then some (entry_status (lookup i (rejections_from [] rejected))) else best))
        (covers_ref-reaches x)
      ∙ ap
          (λ o.
            decided weekday_of (rate_key_ref k) (rejections_from [] rejected) (suc i) xs
              (if reaches x then some (entry_status o) else best))
          (lookup-rejections_from i rejected [])
      ∙ decided-last_status rejected (suc i) xs
          (if reaches x then some (entry_status (reason_at i rejected none)) else best)
