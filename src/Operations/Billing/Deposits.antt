-- ===== src/Operations/Billing/Deposits.antt =====
-- `settleDeposit` and `folioBalance` of billing.ts.
use channex_pms.Prelude.{
  ℕ, ◌≡◌, refl, Bool, List, [], ◌∷◌, ◌++◌, if◌then◌else◌, map, filter, arith, ◌∙◌, ap, Bool-cases,
  inl, inr,
}
use channex_pms.Prelude.Int.{ℤ, pos, ◌+ℤ◌, int_laws}
use channex_pms.Shared.Result.{ok}
use channex_pms.Operations.Billing.{
  PaymentState, captured, held, released, refunded, is_state, Payment, FolioLine, FolioBalance,
  sum_from, sum_in, folio_balance, DepositAction, capture, release, settled_state, settle_deposit,
}

-- What a payment adds to the sum over a state.
abbrev share : PaymentState → Payment → ℤ
share s p = if is_state s p.state then p.amount_minor else pos 0

sum_from-shift : (a : ℤ) (xs : List ℤ) → sum_from a xs ≡ a +ℤ sum_from (pos 0) xs
sum_from-shift a [] = omega int_laws
sum_from-shift a (x ∷ xs) =
    rw (sum_from-shift (a +ℤ x) xs, sum_from-shift (pos 0 +ℤ x) xs) (omega int_laws)

sum_in-cons :
    (s : PaymentState) (q : Payment) (payments : List Payment)
    → sum_in s (q ∷ payments) ≡ share s q +ℤ sum_in s payments
sum_in-cons s q payments = elim (Bool-cases (is_state s q.state)) [
  | inl y ↦
      rw (y, filter, sum_in)
        (sum_from-shift (pos 0 +ℤ q.amount_minor)
            (map (λ x. x.amount_minor) (filter (λ x. is_state s x.state) payments))
          ∙ (omega int_laws))
  | inr n ↦ rw (n, filter, sum_in) (omega int_laws)
]

sum_in-insert :
    (s : PaymentState) (before after : List Payment) (p : Payment)
    → sum_in s (before ++ p ∷ after) ≡ sum_in s before +ℤ share s p +ℤ sum_in s after
sum_in-insert s [] after p = sum_in-cons s p after ∙ (omega int_laws)
sum_in-insert s (q ∷ before) after p =
    sum_in-cons s q (before ++ p ∷ after)
    ∙ ap (λ t. share s q +ℤ t) (sum_in-insert s before after p)
    ∙ (rw (sum_in-cons s q before) (omega int_laws))

-- A settled deposit, whichever way: the amount is no longer held; a capture lowers what is owed by
-- the amount, and a release leaves it as it was.
abbrev pub IsSettlement : DepositAction → ℤ → FolioBalance → FolioBalance → Type 0
IsSettlement capture amount b b' =
    (b'.held_minor +ℤ amount ≡ b.held_minor)
    × (b'.paid_minor ≡ b.paid_minor +ℤ amount)
    × (b'.balance_minor +ℤ amount ≡ b.balance_minor)
IsSettlement release amount b b' =
    (b'.held_minor +ℤ amount ≡ b.held_minor)
    × (b'.paid_minor ≡ b.paid_minor)
    × (b'.balance_minor ≡ b.balance_minor)

settled-shape :
    (is_space : ℕ → Bool) (p p' : Payment) (action : DepositAction) (reason : List ℕ)
    → settle_deposit is_space p action reason ≡ ok p'
    → (p.state ≡ held) × (p'.state ≡ settled_state action) × (p'.amount_minor ≡ p.amount_minor)
unfolding settle_deposit
settled-shape is_space p p' capture reason h = ground arith
settled-shape is_space p p' release reason h = ground arith

share-eq :
    (s t : PaymentState) (p : Payment) (a : ℤ)
    → p.state ≡ t
    → p.amount_minor ≡ a
    → share s p ≡ (if is_state s t then a else pos 0)
share-eq s t p a e f = rw (e, f) refl

-- Where a held deposit among the payments is settled, the amount leaves what is held; a capture
-- raises what is paid and lowers the balance by it, and a release changes neither.
pub settle_deposit-balance :
    (is_space : ℕ → Bool) (lines : List FolioLine) (before after : List Payment) (p p' : Payment)
    (action : DepositAction) (reason : List ℕ)
    → settle_deposit is_space p action reason ≡ ok p'
    → IsSettlement action p.amount_minor
        (folio_balance lines (before ++ p ∷ after))
        (folio_balance lines (before ++ p' ∷ after))
unfolding folio_balance
settle_deposit-balance is_space lines before after p p' capture reason h =
    let (was, now, same) = settled-shape is_space p p' capture reason h in
    let a = p.amount_minor in
    rw
      (
        sum_in-insert held before after p,
        sum_in-insert held before after p',
        sum_in-insert captured before after p,
        sum_in-insert captured before after p',
        sum_in-insert refunded before after p,
        sum_in-insert refunded before after p',
        share-eq held held p a was refl,
        share-eq captured held p a was refl,
        share-eq refunded held p a was refl,
        share-eq held captured p' a now same,
        share-eq captured captured p' a now same,
        share-eq refunded captured p' a now same,
      )
      (omega int_laws, omega int_laws, omega int_laws)
settle_deposit-balance is_space lines before after p p' release reason h =
    let (was, now, same) = settled-shape is_space p p' release reason h in
    let a = p.amount_minor in
    rw
      (
        sum_in-insert held before after p,
        sum_in-insert held before after p',
        sum_in-insert captured before after p,
        sum_in-insert captured before after p',
        sum_in-insert refunded before after p,
        sum_in-insert refunded before after p',
        share-eq held held p a was refl,
        share-eq captured held p a was refl,
        share-eq refunded held p a was refl,
        share-eq held released p' a now same,
        share-eq captured released p' a now same,
        share-eq refunded released p' a now same,
      )
      (omega int_laws, omega int_laws, omega int_laws)
