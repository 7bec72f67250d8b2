-- ===== src/Sync/Push/Pipeline/State.antt =====
-- The types of push/pipeline.ts and of the ports that it uses, and the key of a cell.
use channex_pms.Prelude.{
  ℕ, Bool, true, false, ◌&&◌, Option, none, List, ◌==◌, Eq, nat_eq, list_eq, ◌≡◌, ◌↔◌, arith,
}
use channex_pms.Shared.Date.{LocalDate}
use channex_pms.Shared.Result.{Result}
use channex_pms.Inventory.{
  EntityId, RestrictionValues, RateCell, AvailabilityCell, RestrictionEntry, AvailabilityEntry,
  BatchLimits, CellKind, rate_cell, availability_cell, CellRef,
}
use channex_pms.Sync.Push.Breaker.{BreakerOptions, Breakers}
use channex_pms.Sync.Push.Store.{AriStore}
use channex_pms.Sync.Push.Reference.{Text}

abbrev pub kind_index : CellKind → ℕ
kind_index rate_cell = 0
kind_index availability_cell = 1

abbrev pub ref_beq : CellRef → CellRef → Bool
ref_beq a b = (kind_index a.kind == kind_index b.kind) && ((a.id == b.id) && (a.date == b.date))

pub ref_beq_iff : (a b : CellRef) → (ref_beq a b ≡ true) ↔ (a ≡ b)
ref_beq_iff a b = ground arith

-- `keyOf`: a cell's reference is its key.
instance abbrev pub ref_has_eq : Eq CellRef
ref_has_eq = record { beq = ref_beq; beq_iff = ref_beq_iff }

pub data Entry : Type 0 where
  room_entry : AvailabilityEntry → Entry
  plan_entry : RestrictionEntry → Entry

-- The provider's errors, by the classes that are told apart.
pub data Failure : Type 0 where
  throttle_error : (retry_after_ms : Option ℕ) → Failure
  transient_error validation_error auth_error other_error : (message : Text) → Failure

pub record Rejection : Type 0 where
  pub index : ℕ
  pub reason : Text

pub record PushResult : Type 0 where
  pub accepted : ℕ
  pub rejected : List Rejection

-- The reason of a `RetryLater`.
pub data RetryReason : Type 0 where
  circuit_open throttled : RetryReason
  says : Text → RetryReason

pub data Thrown : Type 0 where
  retry_later : (delay_ms : ℕ) (why : RetryReason) → Thrown
  provider_failed : Failure → Thrown

pub data Skip : Type 0 where
  nothing_pending : Skip

pub record PushSummary : Type 0 where
  pub batches : ℕ
  pub accepted_count : ℕ
  pub rejected_count : ℕ
  pub verified : Bool
  pub drift_cells : ℕ
  pub skipped : Option Skip

abbrev pub no_summary : PushSummary
no_summary = record {
  batches = 0;
  accepted_count = 0;
  rejected_count = 0;
  verified = false;
  drift_cells = 0;
  skipped = none;
}

pub data Edit : Type 0 where
  rate_edit : EntityId → LocalDate → RestrictionValues → Edit
  availability_edit : EntityId → LocalDate → ℕ → Edit

-- `AriSnapshot`: what the provider reads back.
pub record Snapshot : Type 0 where
  pub restrictions : List RateCell
  pub availability : List AvailabilityCell

pub record World : Type 0 where
  pub read_reply : LocalDate → LocalDate → Result Snapshot Failure
  pub push_reply : ℕ → CellKind → List Entry → Result PushResult Failure
  pub edits_during : ℕ → List Edit
  pub time_of : ℕ → ℕ

-- `started_at` is the clock's time at the start, and `sampled` says whether this push is verified
-- (`sample > 0 && random() < sample`).
pub record PushContext : Type 0 where
  pub org_id : EntityId
  pub property_id : EntityId
  pub breaker_options : BreakerOptions
  pub push_limits : BatchLimits
  pub today : Option LocalDate
  pub started_at : ℕ
  pub sampled : Bool

-- `limitKey`: the property and the endpoint.
abbrev pub LimitKey : Type 0
LimitKey = EntityId × CellKind

abbrev pub limit_key : PushContext → CellKind → LimitKey
limit_key ctx kind = (ctx.property_id, kind)

-- The calls of the rate limiter, which is behind a port.
pub data LimiterCall : Type 0 where
  acquire report_success : LimitKey → LimiterCall
  report_throttle : LimitKey → Option ℕ → LimiterCall

pub record PushState : Type 0 where
  pub store : AriStore
  pub breakers : Breakers
  pub limiter_calls : List LimiterCall

abbrev pub Versions : Type 0
Versions = List (CellRef × ℕ)
