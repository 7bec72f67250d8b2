-- ===== src/Channels/Runs.antt =====
-- Runs of the connection state machine of packages/core/src/channels/state.ts.
use channex_pms.Prelude.{
  ◌≡◌, ap, refl, Bool, true, false, List, [], ◌∷◌, ◌++◌, ◌⊎◌, inl, inr, arith, Bool-cases,
}
use channex_pms.Shared.Result.{Result, ok, err}
use channex_pms.Channels.{
  ConnectionState, mapped, active, paused, error, ConnectionEvent, activated, transition, run,
}

-- The states that follow an activation.
abbrev pub is_live : ConnectionState → Bool
is_live active = true
is_live paused = true
is_live error = true
is_live _ = false

transition-live :
    (s t : ConnectionState) (e : ConnectionEvent)
    → transition s e ≡ ok t
    → is_live s ≡ false
    → is_live t ≡ true
    → (s ≡ mapped) × (e ≡ activated)
unfolding transition
transition-live s t e h a b = ground arith

Result-cases : {A E : Type 0} (r : Result A E) → ((a : A) × (r ≡ ok a)) ⊎ ((e : E) × (r ≡ err e))
Result-cases (ok a) = inl (a, refl)
Result-cases (err e) = inr (e, refl)

-- A run of legal events that starts in a state that is not live (active, paused or in error) and
-- ends in a live one has passed an activation in the state `mapped`.
pub run-activation :
    (s t : ConnectionState) (es : List ConnectionEvent)
    → run s es ≡ ok t
    → is_live s ≡ false
    → is_live t ≡ true
    → (before : List ConnectionEvent) × (after : List ConnectionEvent) × (es
        ≡ before ++ activated ∷ after)
      × (run s before ≡ ok mapped)
unfolding run
run-activation s t [] h a b = let no : ⊥ = ground arith in elim no [ ]
run-activation s t (e ∷ es) h a b = elim (Result-cases (transition s e)) [
  | inl (u, q) ↦
      let rest : run u es ≡ ok t = ground (arith, q) in
      elim (Bool-cases (is_live u)) [
        | inl l ↦ let (m, v) = transition-live s u e q a l in ([], es, ap (λ x. x ∷ es) v, ap ok m)
        | inr n ↦
            let (before, after, split, there) = run-activation u t es rest n b in
            (e ∷ before, after, ap (λ xs. e ∷ xs) split, rw (q, run) there)
      ]
  | inr (x, q) ↦ let no : ⊥ = ground (arith, q) in elim no [ ]
]
