-- ===== src/Sync/Push/Property/Blocked.antt =====
-- `pushProperty` with `MemoryCircuitBreaker` (push/limiter.ts): a probe that is never reported.
use channex_pms.Prelude.{
  ℕ, ◌≤◌, ◌≡◌, refl, ap, ◌∙◌, true, false, List, [], ◌∷◌, All, Eq, nat_eq, if◌then◌else◌,
  Bool-cases, inl, inr, Option, none, some,
}
use channex_pms.Shared.Date.{LocalDate}
use channex_pms.Shared.Result.{Result, ok, err}
use channex_pms.Inventory.{EntityId, Weekday, FieldValue}
use channex_pms.Sync.Push.Breaker.{
  BreakerOptions, BreakerEntry, Breakers, entry_of, half_open, state, state_since, allow,
}
use channex_pms.Sync.Push.Breaker.Probe.{answer, later_entry, allow-answer, stays_half_open}
use channex_pms.Sync.Push.Store.{AriStore, load_pending, apply_outcomes}
use channex_pms.Sync.Push.Pipeline.{
  World, PushContext, PushState, PushSummary, Thrown, retry_later, circuit_open, no_summary,
  nothing_pending,
}
use channex_pms.Sync.Push.Property.{drop_past, push_property}

drop_past-empty :
    (today : Option LocalDate) (st : PushState) → drop_past today ([], []) st ≡ (([], []), st)
unfolding drop_past apply_outcomes
drop_past-empty none st = refl
drop_past-empty (some d) st = refl

-- A push that is started later: in which world, with which context and store.
pub record Attempt : Type 0 where
  pub by_world : World
  pub by_context : PushContext
  pub held : AriStore

-- The attempts at the same organization's breaker, from the time of a context on.
abbrev pub IsLater : PushContext → Attempt → Type 0
IsLater ctx a =
    (a.by_context.org_id ≡ ctx.org_id)
    × ((a.by_context.breaker_options ≡ ctx.breaker_options)
        × (ctx.started_at ≤ a.by_context.started_at))

-- A probe is under way.
abbrev IsProbing : PushContext → Breakers → Type 0
IsProbing ctx breakers =
    ((entry_of ctx.org_id breakers).probing ≡ true)
    × (state ctx.breaker_options ctx.started_at ctx.org_id breakers ≡ half_open)

-- A call while a probe is under way is refused, and leaves it under way.
allow-IsProbing :
    (ctx : PushContext) (opts : BreakerOptions) (org : EntityId) (later : ℕ) (breakers : Breakers)
    → IsProbing ctx breakers
    → org ≡ ctx.org_id
    → opts ≡ ctx.breaker_options
    → ctx.started_at ≤ later
    → ((allow opts later org breakers).0 ≡ false) × IsProbing ctx (allow opts later org breakers).1
allow-IsProbing ctx opts org later breakers (p, h) o b l =
    let e = entry_of ctx.org_id breakers in
    let now : state ctx.breaker_options later ctx.org_id breakers ≡ half_open =
      stays_half_open ctx.breaker_options ctx.started_at later e.opened_at_ms l h in
    let (said, entry) = allow-answer ctx.breaker_options later ctx.org_id breakers in
    let after : entry_of ctx.org_id (allow ctx.breaker_options later ctx.org_id breakers).1
        ≡ record e { probing = true } =
      entry ∙ ap (λ s. later_entry s e) now in
    rw (o, b)
      (
        said ∙ ap (λ s. answer s e.probing) now ∙ ap (answer half_open) p,
        (
          ap (λ (x : BreakerEntry). x.probing) after,
          ap (λ (x : BreakerEntry). state_since ctx.breaker_options ctx.started_at x.opened_at_ms)
                after
              ∙ h,
        ),
      )

module _ {K : Type 0} ⦃e : Eq K⦄ (canon : Option FieldValue → K)
    (weekday_of : LocalDate → Weekday) where
  refused-throws :
      (world : World) (ctx : PushContext) (st : PushState)
      → (allow ctx.breaker_options ctx.started_at ctx.org_id st.breakers).0 ≡ false
      → (push_property canon weekday_of world ctx st).1 ≡ err (retry_later 30000 circuit_open)
  unfolding push_property
  refused-throws world ctx st h = rw (h, push_property) refl

  -- With nothing pending, a push that the breaker allows does no more than ask it.
  empty-push :
      (world : World) (ctx : PushContext) (st : PushState)
      → load_pending st.store ≡ ([], [])
      → let (may, breakers) = allow ctx.breaker_options ctx.started_at ctx.org_id st.breakers in
        push_property canon weekday_of world ctx st ≡ (
          record st { breakers = breakers },
          if may
              then ok (record no_summary { skipped = some nothing_pending })
              else err (retry_later 30000 circuit_open),
        )
  unfolding push_property
  empty-push world ctx st n =
      elim (Bool-cases ((allow ctx.breaker_options ctx.started_at ctx.org_id st.breakers).0)) [
        | inl y ↦
            rw
              (
                y,
                push_property,
                n,
                drop_past-empty ctx.today (record st {
                  breakers = (allow ctx.breaker_options ctx.started_at ctx.org_id st.breakers).1;
                }),
              )
              refl
        | inr z ↦ rw (z, push_property) refl
      ]

  -- A refused push changes nothing but what the breaker does to refuse it.
  refused-breakers :
      (world : World) (ctx : PushContext) (st : PushState)
      → (allow ctx.breaker_options ctx.started_at ctx.org_id st.breakers).0 ≡ false
      → (push_property canon weekday_of world ctx st).0.breakers
        ≡ (allow ctx.breaker_options ctx.started_at ctx.org_id st.breakers).1
  unfolding push_property
  refused-breakers world ctx st h = rw (h, push_property) refl

  -- The results of pushes that start one after another.
  pub attempts_from : Breakers → List Attempt → List (Result PushSummary Thrown)
  attempts_from breakers [] = []
  attempts_from breakers (a ∷ more) =
      let (st, r) =
        push_property canon weekday_of a.by_world a.by_context
          (record { store = a.held; breakers = breakers; limiter_calls = [] }) in
      r ∷ attempts_from st.breakers more

  attempts-refused :
      (ctx : PushContext) (breakers : Breakers) (attempts : List Attempt)
      → IsProbing ctx breakers
      → All (IsLater ctx) attempts
      → All (λ r. r ≡ err (retry_later 30000 circuit_open)) (attempts_from breakers attempts)
  unfolding attempts_from
  attempts-refused ctx breakers [] p l = tt
  attempts-refused ctx breakers (a ∷ attempts) (p, h) ((org, (opts, later)), l) =
      let st : PushState = record { store = a.held; breakers = breakers; limiter_calls = [] } in
      let c = a.by_context in
      let (refusal, still) =
        allow-IsProbing ctx c.breaker_options c.org_id c.started_at breakers (p, h) org opts
          later in
      (
        refused-throws a.by_world c st refusal,
        attempts-refused ctx (push_property canon weekday_of a.by_world c st).0.breakers attempts
            (rw (refused-breakers a.by_world c st refusal) still) l,
      )

  -- Where the cooldown has passed and nothing is pending, a push takes the probe and reports
  -- nothing: any number of pushes of the organization that start after it, of whatever properties,
  -- with whatever stores and provider, are all refused and asked to retry after 30 seconds. Nothing
  -- else reports to the breaker between them, such as a chunk that was already under way.
  pub empty_push-blocks :
      (world : World) (ctx : PushContext) (st : PushState) (attempts : List Attempt)
      → state ctx.breaker_options ctx.started_at ctx.org_id st.breakers ≡ half_open
      → load_pending st.store ≡ ([], [])
      → All (IsLater ctx) attempts
      → All
          (λ r. r ≡ err (retry_later 30000 circuit_open))
          (attempts_from (push_property canon weekday_of world ctx st).0.breakers attempts)
  empty_push-blocks world ctx st attempts h n l =
      let e = entry_of ctx.org_id st.breakers in
      let after : entry_of ctx.org_id
            (allow ctx.breaker_options ctx.started_at ctx.org_id st.breakers).1
          ≡ record e { probing = true } =
        (allow-answer ctx.breaker_options ctx.started_at ctx.org_id st.breakers).1
        ∙ ap (λ s. later_entry s e) h in
      attempts-refused ctx (push_property canon weekday_of world ctx st).0.breakers attempts
        (rw (empty-push world ctx st n) (
          ap (λ (x : BreakerEntry). x.probing) after,
          ap (λ (x : BreakerEntry). state_since ctx.breaker_options ctx.started_at x.opened_at_ms)
                after
              ∙ h,
        ))
        l
