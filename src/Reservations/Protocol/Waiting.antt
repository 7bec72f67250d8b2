-- ===== src/Reservations/Protocol/Waiting.antt =====
-- `listUnacked` of memory-repo.ts: which revisions it does not list.
use channex_pms.Prelude.{
  ℕ, ◌+◌, ◌-◌, Bool, true, false, none, some, List, [], ◌∷◌, map, filter, nat_eq, any, ltb, leb,
  ◌/◌, ◌≤◌, ◌≡◌, refl, subst, arith, if◌then◌else◌, Bool-cases, Option-cases, inl, inr,
}
use channex_pms.Reservations.Repository.{StoredRevision, is_received_by, is_unacked_at}
use channex_pms.Reservations.Sweep.{ack_sweep_after_ms}

-- An unacked revision that was received at a time or earlier.
abbrev pub is_waiting : ℕ → StoredRevision → Bool
is_waiting time r = elim r.acked_at [ none ↦ leb r.received_at time | some t ↦ false ]

-- A whole second earlier, the texts compare as the times.
received-earlier :
    (received before : ℕ) → received + 1000 ≤ before → is_received_by received before ≡ true
unfolding is_received_by
received-earlier received before h =
    let less : ltb (received / 1000) (before / 1000) ≡ true = ground arith in rw less refl

filter-nil :
    {A : Type 0} (p : A → Bool) (x : A) (xs : List A)
    → filter p (x ∷ xs) ≡ []
    → (p x ≡ false) × (filter p xs ≡ [])
filter-nil p x xs e = elim (Bool-cases (p x)) [
  | inl y ↦
      let bad : x ∷ filter p xs ≡ [] =
        subst (λ c. (if c then x ∷ filter p xs else filter p xs) ≡ []) y e in
      cc
  | inr n ↦ (n, subst (λ c. (if c then x ∷ filter p xs else filter p xs) ≡ []) n e)
]

unlisted-waits :
    (now : ℕ) (r : StoredRevision)
    → 301000 ≤ now
    → is_unacked_at (now - ack_sweep_after_ms) r ≡ false
    → is_waiting (now - 301000) r ≡ false
unlisted-waits now r h u = elim (Option-cases r.acked_at) [
  | inr (t, a) ↦ rw (a, is_waiting) refl
  | inl n ↦
      let compared : is_received_by r.received_at (now - ack_sweep_after_ms) ≡ false = rw n at u in
      let earlier = received-earlier r.received_at (now - ack_sweep_after_ms) in
      let late : leb r.received_at (now - 301000) ≡ false =
        elim (Bool-cases (leb r.received_at (now - 301000))) [
          | inr z ↦ z
          | inl y ↦
              let le : r.received_at + 1000 ≤ now - ack_sweep_after_ms = ground (arith, y, h) in
              let found = earlier le in cc
        ] in
      rw (n, is_waiting) late
]

pub none-waiting :
    (now : ℕ) (m : List (ℕ × StoredRevision))
    → 301000 ≤ now
    → filter (is_unacked_at (now - ack_sweep_after_ms)) (map (λ p. p.1) m) ≡ []
    → any (λ p. is_waiting (now - 301000) p.1) m ≡ false
none-waiting now [] h e = refl
none-waiting now ((k, r) ∷ m) h e =
    let before = now - ack_sweep_after_ms in
    let (unlisted, rest) = filter-nil (is_unacked_at before) r (map (λ p. p.1) m) e in
    let head : is_waiting (now - 301000) r ≡ false = unlisted-waits now r h unlisted in
    rw head (none-waiting now m h rest)
