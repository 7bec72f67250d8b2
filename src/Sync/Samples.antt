-- ===== src/Sync/Samples.antt =====
-- Test data: a calendar whose day 0 is a Monday, and canonical texts of the values.
use channex_pms.Prelude.{
  ℕ, zero, suc, ◌%◌, ◌≡◌, refl, ap, true, false, Option, none, some, List, [], ◌∷◌, arith,
}
use channex_pms.Prelude.Int.{ℤ, pos, negsuc}
use channex_pms.Shared.Date.{LocalDate}
use channex_pms.Inventory.{Weekday, mo, tu, we, th, fr, sa, su, FieldValue, num, table, flag}

abbrev nth_day : ℕ → Weekday
nth_day zero = mo
nth_day (suc zero) = tu
nth_day (suc (suc zero)) = we
nth_day (suc (suc (suc zero))) = th
nth_day (suc (suc (suc (suc zero)))) = fr
nth_day (suc (suc (suc (suc (suc zero))))) = sa
nth_day _ = su

abbrev pub weekday_of : LocalDate → Weekday
weekday_of d = nth_day (d % 7)

abbrev table_code : List (ℕ × ℤ) → List ℕ
table_code [] = []
table_code ((k, pos n) ∷ t) = k ∷ 0 ∷ n ∷ table_code t
table_code ((k, negsuc n) ∷ t) = k ∷ 1 ∷ n ∷ table_code t

-- An injective text of a value.
abbrev pub canon : Option FieldValue → List ℕ
canon none = []
canon (some (num (pos n))) = 1 ∷ n ∷ []
canon (some (num (negsuc n))) = 2 ∷ n ∷ []
canon (some (flag true)) = 3 ∷ []
canon (some (flag false)) = 4 ∷ []
canon (some (table t)) = 5 ∷ table_code t

table_code-injective : (s t : List (ℕ × ℤ)) → table_code s ≡ table_code t → s ≡ t
table_code-injective [] [] h = refl
table_code-injective [] ((k, pos n) ∷ t) h = cc
table_code-injective [] ((k, negsuc n) ∷ t) h = cc
table_code-injective ((j, pos m) ∷ s) [] h = cc
table_code-injective ((j, negsuc m) ∷ s) [] h = cc
table_code-injective ((j, pos m) ∷ s) ((k, pos n) ∷ t) h = cc (table_code-injective s t (cc))
table_code-injective ((j, pos m) ∷ s) ((k, negsuc n) ∷ t) h = absurd (ground arith)
table_code-injective ((j, negsuc m) ∷ s) ((k, pos n) ∷ t) h = absurd (ground arith)
table_code-injective ((j, negsuc m) ∷ s) ((k, negsuc n) ∷ t) h = cc (table_code-injective s t (cc))

pub canon-injective : (v w : Option FieldValue) → canon v ≡ canon w → v ≡ w
canon-injective (some (table s)) (some (table t)) h =
    ap (λ u. some (table u)) (table_code-injective s t (cc))
canon-injective v w h = ground arith

abbrev pub minor : ℕ → Option FieldValue
minor n = some (num (pos n))
