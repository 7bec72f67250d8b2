-- ===== src/Sync/Push/Breaker/Probe.antt =====
-- `MemoryCircuitBreaker` (push/limiter.ts): when it opens, and its probe.
use channex_pms.Prelude.{
  ◌∙◌, ℕ, ◌+◌, ◌≤◌, ◌<◌, ◌≡◌, ◌↔◌, refl, Bool, true, false, Option, none, some, List, [], ◌∷◌, leb,
  nat_eq, arith, inl, inr, Bool-cases, Option-cases, length,
}
use channex_pms.Prelude.Maps.{lookup, insert, lookup-insert}
use channex_pms.Inventory.{EntityId}
use channex_pms.Sync.Push.Breaker.{
  BreakerOptions, BreakerState, closed, opened, half_open, BreakerEntry, fresh_entry, Breakers,
  entry_of, ensure_entry, state_since, state, allow_in, allow, on_success, on_failure, failed_entry,
  is_set, failures_at,
}

entry_of-insert :
    (org : EntityId) (e : BreakerEntry) (orgs : Breakers) → entry_of org (insert org e orgs) ≡ e
entry_of-insert org e orgs =
    let at : lookup org (insert org e orgs) ≡ some e =
      ground (arith, lookup-insert org org e orgs) in
    rw (at, entry_of) refl

entry_of-ensure_entry :
    (org : EntityId) (orgs : Breakers) → entry_of org (ensure_entry org orgs) ≡ entry_of org orgs
entry_of-ensure_entry org orgs = elim (Option-cases (lookup org orgs)) [
  | inl n ↦ rw (n, ensure_entry, entry_of) (entry_of-insert org fresh_entry orgs)
  | inr (e, h) ↦ rw (h, ensure_entry) refl
]

-- What `allow` answers depends on the state and the probe mark of the entry.
abbrev pub answer : BreakerState → Bool → Bool
answer closed p = true
answer opened p = false
answer half_open true = false
answer half_open false = true

abbrev pub later_entry : BreakerState → BreakerEntry → BreakerEntry
later_entry half_open e = record e { probing = true }
later_entry _ e = e

eta_probing : (e : BreakerEntry) → e.probing ≡ true → e ≡ record e { probing = true }
eta_probing e h = ground arith

allow_in-answer :
    (s : BreakerState) (org : EntityId) (orgs : Breakers)
    → ((allow_in s org orgs).0 ≡ answer s ((entry_of org orgs).probing))
      × (entry_of org ((allow_in s org orgs).1) ≡ later_entry s (entry_of org orgs))
unfolding allow_in
allow_in-answer closed org orgs = (refl, refl)
allow_in-answer opened org orgs = (refl, refl)
allow_in-answer half_open org orgs = elim (Bool-cases ((entry_of org orgs).probing)) [
  | inl t ↦ rw (t, allow_in) (refl, eta_probing (entry_of org orgs) t)
  | inr f ↦ rw (f, allow_in) (refl, entry_of-insert org _ orgs)
]

pub allow-answer :
    (opts : BreakerOptions) (now : ℕ) (org : EntityId) (orgs : Breakers)
    → ((allow opts now org orgs).0 ≡ answer (state opts now org orgs) ((entry_of org orgs).probing))
      × (entry_of org ((allow opts now org orgs).1)
          ≡ later_entry (state opts now org orgs) (entry_of org orgs))
unfolding allow
allow-answer opts now org orgs =
    let h = allow_in-answer (state opts now org orgs) org (ensure_entry org orgs) in
    (
      h.0 ∙ (rw (entry_of-ensure_entry org orgs) refl),
      h.1 ∙ (rw (entry_of-ensure_entry org orgs) refl),
    )

pub stays_half_open :
    (opts : BreakerOptions) (now later : ℕ) (o : Option ℕ)
    → now ≤ later
    → state_since opts now o ≡ half_open
    → state_since opts later o ≡ half_open
stays_half_open opts now later none h s = cc
stays_half_open opts now later (some at) h s = ground arith

-- Once the cooldown has passed, whatever the call at `now` is answered, every later call is
-- refused until a success or a failure is reported: one probe goes through at most.
pub allow-single_probe :
    (opts : BreakerOptions) (now later : ℕ) (org : EntityId) (orgs : Breakers)
    → now ≤ later
    → state opts now org orgs ≡ half_open
    → (allow opts later org ((allow opts now org orgs).1)).0 ≡ false
allow-single_probe opts now later org orgs h s =
    let e : entry_of org ((allow opts now org orgs).1)
        ≡ record (entry_of org orgs) { probing = true } =
      (allow-answer opts now org orgs).1 ∙ (rw s refl) in
    let t = stays_half_open opts now later ((entry_of org orgs).opened_at_ms) h s in
    (allow-answer opts later org ((allow opts now org orgs).1)).0 ∙ (rw (e, t) refl)

failures-entry :
    (opts : BreakerOptions) (ts : List ℕ) (org : EntityId) (orgs : Breakers)
    → (entry_of org (failures_at opts ts org orgs)).failures
      ≡ length ts + (entry_of org orgs).failures
unfolding failures_at on_failure
failures-entry opts [] org orgs = omega arith
failures-entry opts (t ∷ ts) org orgs =
    let e = failed_entry opts t (entry_of org orgs) in
    let ih = failures-entry opts ts org (insert org e orgs) in
    ih ∙ (rw (entry_of-insert org e orgs) (omega arith))

abbrev Counts : BreakerOptions → BreakerEntry → Type 0
Counts opts e = (is_set e.opened_at_ms ≡ true) ↔ (opts.failure_threshold ≤ e.failures)

failures-Counts :
    (opts : BreakerOptions) (ts : List ℕ) (org : EntityId) (orgs : Breakers)
    → Counts opts (entry_of org orgs)
    → Counts opts (entry_of org (failures_at opts ts org orgs))
unfolding failures_at on_failure
failures-Counts opts [] org orgs h = h
failures-Counts opts (t ∷ ts) org orgs h =
    let e = failed_entry opts t (entry_of org orgs) in
    failures-Counts opts ts org (insert org e orgs)
      (rw (entry_of-insert org e orgs) (ground (arith, h)))

is_set_iff :
    (opts : BreakerOptions) (now : ℕ) (o : Option ℕ)
    → (state_since opts now o ≡ closed) ↔ (is_set o ≡ false)
is_set_iff opts now none = (λ h. refl, λ h. refl)
is_set_iff opts now (some at) = (λ h. ground arith, λ h. cc)

-- After a reported success, any failures reported at the listed times leave the circuit closed
-- exactly while there are fewer of them than the threshold, which is not 0.
pub failures_at-closed_iff :
    (opts : BreakerOptions) (now : ℕ) (ts : List ℕ) (org : EntityId) (orgs : Breakers)
    → 0 < opts.failure_threshold
    → (state opts now org (failures_at opts ts org (on_success org orgs)) ≡ closed)
      ↔ (length ts < opts.failure_threshold)
unfolding on_success
failures_at-closed_iff opts now ts org orgs h =
    let start = insert org fresh_entry orgs in
    let at = entry_of-insert org fresh_entry orgs in
    let c = failures-Counts opts ts org start (rw at (ground arith)) in
    let n : (entry_of org (failures_at opts ts org start)).failures ≡ length ts =
      failures-entry opts ts org start ∙ (rw at (omega arith)) in
    let o = (entry_of org (failures_at opts ts org start)).opened_at_ms in
    ground (arith, is_set_iff opts now o)

-- After a reported success and then at least the threshold's failures, the last at `t`, a call is
-- let through exactly from `t` plus the cooldown on.
pub failures_at-allow :
    (opts : BreakerOptions) (now t : ℕ) (ts : List ℕ) (org : EntityId) (orgs : Breakers)
    → opts.failure_threshold ≤ length ts + 1
    → (allow opts now org (on_failure opts t org (failures_at opts ts org (on_success org orgs)))).0
      ≡ leb (t + opts.cooldown_ms) now
unfolding on_success on_failure
failures_at-allow opts now t ts org orgs h =
    let start = insert org fresh_entry orgs in
    let before = failures_at opts ts org start in
    let e = failed_entry opts t (entry_of org before) in
    let n : (entry_of org before).failures ≡ length ts =
      failures-entry opts ts org start
      ∙ (rw (entry_of-insert org fresh_entry orgs) (omega arith)) in
    let o : e.opened_at_ms ≡ some t = ground arith in
    (allow-answer opts now org (insert org e before)).0
    ∙ (rw (entry_of-insert org e before, o)
        (elim (Bool-cases (leb (t + opts.cooldown_ms) now)) [
          | inl y ↦ rw (y, state_since) refl
          | inr z ↦ rw (z, state_since) refl
        ]))
