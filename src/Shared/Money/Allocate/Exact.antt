-- ===== src/Shared/Money/Allocate/Exact.antt =====
-- `allocate` as a whole: the amounts against the amount that is split.
use channex_pms.Prelude.{
  ℕ, ◌+◌, ◌*◌, ◌/◌, ◌≤◌, ◌<◌, Bool, true, false, not, ◌||◌, List, [], ◌∷◌, map, any, ◌==◌, ◌≡◌,
  refl, sym, arith, ap, ◌∙◌, All, All-weaken,
}
use channex_pms.Prelude.Int.{ℤ, pos, ◌+ℤ◌, ◌-ℤ◌, ltb_ℤ, pos_part, neg_part}
use channex_pms.Shared.Result.{ok}
use channex_pms.Shared.Money.{Money, is_safe_integer, is_negative, money_of, max_safe_integer}
use channex_pms.Shared.Money.Allocate.{sum, split, allocate, moneys_of, with_sign}
use channex_pms.Shared.Money.Allocate.Split.{sum-split}

abbrev pub sum_minor : List Money → ℤ
sum_minor [] = pos 0
sum_minor (a ∷ as') = a.minor +ℤ sum_minor as'

with_sign-add : (b : Bool) (x y : ℕ) → with_sign b x +ℤ with_sign b y ≡ with_sign b (x + y)
unfolding ◌+ℤ◌ ◌-ℤ◌
with_sign-add true x y = ground arith
with_sign-add false x y = ground arith

with_sign-zero : (b : Bool) → with_sign b 0 ≡ pos 0
unfolding ◌-ℤ◌
with_sign-zero true = refl
with_sign-zero false = refl

with_sign-minor :
    (a : Money) → with_sign (is_negative a) (pos_part a.minor + neg_part a.minor) ≡ a.minor
unfolding ◌-ℤ◌
with_sign-minor a = ground arith

with_sign-safe : (b : Bool) (p : ℕ) → p ≤ max_safe_integer → is_safe_integer (with_sign b p) ≡ true
unfolding ◌-ℤ◌
with_sign-safe true p h = ground (arith, h)
with_sign-safe false p h = ground (arith, h)

moneys_of-sum :
    (b : Bool) (currency : ℕ) (ps : List ℕ)
    → All (λ p. p ≤ max_safe_integer) ps
    → (amounts : List Money) × (moneys_of b currency ps ≡ ok amounts)
      × (sum_minor amounts ≡ with_sign b (sum ps))
unfolding moneys_of money_of
moneys_of-sum b currency [] h = ([], refl, sym (with_sign-zero b))
moneys_of-sum b currency (p ∷ ps) (s, h) =
    let (amounts, e, k) = moneys_of-sum b currency ps h in
    let first : Money = record { minor = with_sign b p; money_currency = currency } in
    (
      first ∷ amounts,
      rw (moneys_of, with_sign-safe b p s, e) refl,
      rw k (with_sign-add b p (sum ps)),
    )

parts-below : (ps : List ℕ) → All (λ p. p ≤ sum ps) ps
parts-below [] = tt
parts-below (p ∷ ps) =
    (omega arith, All-weaken (λ x. x ≤ sum ps) _ ps (λ x h. omega (arith, h)) (parts-below ps))

abbrev whole_of : Money → ℕ
whole_of a = pos_part a.minor + neg_part a.minor

whole-safe : (a : Money) → is_safe_integer a.minor ≡ true → whole_of a ≤ max_safe_integer
whole-safe a h = ground (arith, h)

-- A safe amount, and ratios that are safe, not negative and not all zero: `allocate` gives amounts
-- that sum exactly to the amount, whatever its sign. The products of the amount with each ratio and
-- the sum of the ratios are safe integers, and the floating-point quotient of safe integers is
-- rounded down exactly.
pub allocate-sum :
    (floor_quotient : ℕ → ℕ → ℕ → ℕ) (money : Money) (ratios : List ℤ)
    → ((a b d : ℕ)
        → a * b ≤ max_safe_integer
        → 0 < d
        → d ≤ max_safe_integer
        → floor_quotient a b d ≡ a * b / d)
    → is_safe_integer money.minor ≡ true
    → any (λ x. not (is_safe_integer x) || ltb_ℤ x (pos 0)) ratios ≡ false
    → 0 < sum (map pos_part ratios)
    → sum (map pos_part ratios) ≤ max_safe_integer
    → All (λ r. whole_of money * r ≤ max_safe_integer) (map pos_part ratios)
    → (amounts : List Money) × (allocate floor_quotient money ratios ≡ ok amounts)
      × (sum_minor amounts ≡ money.minor)
unfolding allocate
allocate-sum f money [] exact safe good some_ratio small products =
    let bad : ⊥ = omega (arith, some_ratio) in elim bad [ ]
allocate-sum f money (r ∷ rs) exact safe good some_ratio small products =
    let ratios = map pos_part (r ∷ rs) in
    let whole = whole_of money in
    let total = sum-split f whole ratios some_ratio (
      All-weaken (λ x. whole * x ≤ max_safe_integer) _ ratios
        (λ x h. exact whole x (sum ratios) h some_ratio small) products) in
    let below : whole ≤ max_safe_integer = whole-safe money safe in
    let (amounts, e, k) =
      moneys_of-sum (is_negative money) money.money_currency (split f whole ratios) (
        All-weaken (λ p. p ≤ sum (split f whole ratios)) _ (split f whole ratios)
          (λ p h. omega (arith, h, total, below)) (parts-below (split f whole ratios))) in
    let not_zero : (sum ratios == 0) ≡ false = ground (arith, some_ratio) in
    (
      amounts,
      rw (allocate, good, not_zero) e,
      k ∙ ap (with_sign (is_negative money)) total ∙ with_sign-minor money,
    )
