-- ===== src/Shared/Money.antt =====
-- packages/core/src/shared/money.ts: amounts in minor units. A currency stands for the number of a
-- valid code, since a value is only made with one. Parsing, printing and `multiply` are
-- not here.
pub mod Sums
pub mod Allocate
use channex_pms.Prelude.{ℕ, Bool, true, false, not, ◌&&◌, if◌then◌else◌, ◌==◌, leb}
use channex_pms.Prelude.Int.{ℤ, pos, negsuc, pos_part, neg_part, ◌+ℤ◌, ◌-ℤ◌, ltb_ℤ, abs}
use channex_pms.Shared.Result.{Result, ok, err}

pub record Money : Type 0 where
  pub minor : ℤ
  pub money_currency : ℕ

pub data MoneyError : Type 0 where
  not_safe currency_mismatch no_ratios bad_ratio zero_ratios : MoneyError

-- Number.MAX_SAFE_INTEGER.
abbrev pub max_safe_integer : ℕ
max_safe_integer = 9007199254740991

abbrev pub is_safe_integer : ℤ → Bool
is_safe_integer a = leb (pos_part a) max_safe_integer && leb (neg_part a) max_safe_integer

unfoldable pub money_of : ℤ → ℕ → Result Money MoneyError
money_of minor currency =
    if not (is_safe_integer minor)
    then err not_safe
    else ok (record { minor = minor; money_currency = currency })

abbrev pub minor_eq : ℤ → ℤ → Bool
minor_eq a b = (pos_part a == pos_part b) && (neg_part a == neg_part b)

abbrev pub money_equals : Money → Money → Bool
money_equals a b = minor_eq a.minor b.minor && (a.money_currency == b.money_currency)

abbrev pub is_zero_money : Money → Bool
is_zero_money a = minor_eq a.minor (pos 0)

abbrev pub is_negative : Money → Bool
is_negative a = ltb_ℤ a.minor (pos 0)

pub data Order3 : Type 0 where
  below same_amount above : Order3

unfoldable pub compare_money : Money → Money → Result Order3 MoneyError
compare_money a b =
    if not (a.money_currency == b.money_currency)
    then err currency_mismatch
    else ok (
        if ltb_ℤ a.minor b.minor
        then below
        else if ltb_ℤ b.minor a.minor
        then above
        else same_amount)

unfoldable pub add : Money → Money → Result Money MoneyError
unfolding money_of
add a b =
    if not (a.money_currency == b.money_currency)
    then err currency_mismatch
    else money_of (a.minor +ℤ b.minor) a.money_currency

unfoldable pub subtract : Money → Money → Result Money MoneyError
unfolding money_of
subtract a b =
    if not (a.money_currency == b.money_currency)
    then err currency_mismatch
    else money_of (a.minor -ℤ b.minor) a.money_currency

unfoldable pub negate : Money → Result Money MoneyError
unfolding money_of
negate a = money_of (pos 0 -ℤ a.minor) a.money_currency

unfoldable pub abs_money : Money → Result Money MoneyError
unfolding money_of
abs_money a = money_of (abs a.minor) a.money_currency
