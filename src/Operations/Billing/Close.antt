-- ===== src/Operations/Billing/Close.antt =====
-- `planDailyClose` of billing.ts, run again.
use channex_pms.Prelude.{
  ◌≡◌, ◌⊎◌, subst, sym, refl, true, ◌||◌, none, some, List, [], ◌∷◌, ◌++◌, ◌==◌, nat_eq, pair_eq,
  All, arith, Bool-cases, inl, inr, any-append,
}
use channex_pms.Shared.Date.{LocalDate}
use channex_pms.Prelude.Int.{ℤ}
use channex_pms.Inventory.{EntityId}
use channex_pms.Operations.Billing.{
  FolioLine, NightCharge, posting_key_of, room_line, has_key, postings_for, plan_daily_close,
}

-- The posting keys of the posted lines.
abbrev pub keys_of : List (EntityId × FolioLine) → List (EntityId × LocalDate)
keys_of [] = []
keys_of ((b, l) ∷ ps) = elim l.posting_key [ none ↦ keys_of ps | some k ↦ k ∷ keys_of ps ]

-- Every night of the day has its key present.
abbrev AllPosted : LocalDate → List (EntityId × LocalDate) → List NightCharge → Type 0
AllPosted day existing = All (λ n. n.night_date ≡ day → has_key (posting_key_of n) existing ≡ true)

postings_for-none :
    (day : LocalDate) (existing : List (EntityId × LocalDate)) (nights : List NightCharge)
    → AllPosted day existing nights
    → postings_for day existing nights ≡ []
unfolding postings_for
postings_for-none day existing [] h = refl
postings_for-none day existing (n ∷ nights) (h, hs) =
    ground (arith, postings_for-none day existing nights hs)

has_key-append :
    (k : EntityId × LocalDate) (xs ys : List (EntityId × LocalDate))
    → has_key k (xs ++ ys) ≡ (has_key k xs || has_key k ys)
has_key-append k xs ys = any-append (λ j. pair_eq.beq j k) xs ys

AllPosted-more :
    (day : LocalDate) (k : EntityId × LocalDate) (xs ys : List (EntityId × LocalDate))
    (nights : List NightCharge)
    → AllPosted day (xs ++ ys) nights
    → AllPosted day (xs ++ k ∷ ys) nights
AllPosted-more day k xs ys [] h = tt
AllPosted-more day k xs ys (n ∷ nights) (h, hs) = (
  λ e. ground (
    arith,
    h e,
    has_key-append (posting_key_of n) xs (k ∷ ys),
    has_key-append (posting_key_of n) xs ys,
  ),
  AllPosted-more day k xs ys nights hs,
)

postings_for-cases :
    (day : LocalDate) (existing : List (EntityId × LocalDate)) (n : NightCharge)
    (nights : List NightCharge)
    → ((postings_for day existing (n ∷ nights) ≡ postings_for day existing nights)
        × (n.night_date ≡ day → has_key (posting_key_of n) existing ≡ true))
      ⊎ (postings_for day existing (n ∷ nights)
          ≡ (n.booking_id, room_line n) ∷ postings_for day existing nights)
unfolding postings_for
postings_for-cases day existing n nights = elim (Bool-cases (n.night_date == day)) [
  | inr t ↦ inl (rw (t, postings_for) refl, λ e. ground arith)
  | inl s ↦ elim (Bool-cases (has_key (posting_key_of n) existing)) [
    | inl y ↦ inl (rw (s, y, postings_for) refl, λ e. y)
    | inr z ↦ inr (rw (s, z, postings_for) refl)
  ]
]

AllPosted-postings :
    (day : LocalDate) (existing : List (EntityId × LocalDate)) (nights : List NightCharge)
    → AllPosted day (existing ++ keys_of (postings_for day existing nights)) nights
AllPosted-postings day existing [] = tt
AllPosted-postings day existing (n ∷ nights) =
    let k = posting_key_of n in
    let rest = keys_of (postings_for day existing nights) in
    elim (postings_for-cases day existing n nights) [
      | inl (same, there) ↦
          subst (λ ps. AllPosted day (existing ++ keys_of ps) (n ∷ nights)) (sym same)
            (
              λ e. ground (arith, there e, has_key-append k existing rest),
              AllPosted-postings day existing nights,
            )
      | inr more ↦
          subst (λ ps. AllPosted day (existing ++ keys_of ps) (n ∷ nights)) (sym more)
            (
              λ e.
                  ground
                    (arith, has_key-append k existing (k ∷ rest), (pair_eq.beq_iff k k).1 refl),
              AllPosted-more day k existing rest nights (AllPosted-postings day existing nights),
            )
    ]

-- The daily close is idempotent: run again for the same nights, with the keys that the first run
-- posted among the existing ones, it posts nothing.
pub plan_daily_close-again :
    (day : LocalDate) (nights : List NightCharge) (existing : List (EntityId × LocalDate))
    (departed : List (EntityId × ℤ))
    → let posted = keys_of ((plan_daily_close day nights existing departed).postings) in
      (plan_daily_close day nights (existing ++ posted) departed).postings ≡ []
unfolding plan_daily_close
plan_daily_close-again day nights existing departed =
    postings_for-none day (existing ++ keys_of (postings_for day existing nights)) nights
      (AllPosted-postings day existing nights)
