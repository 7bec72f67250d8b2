-- ===== src/Reservations/Ingest/State.antt =====
-- The types of reservations/ingest.ts and its ports, and the sequence of the parts of a run.
use channex_pms.Prelude.{ℕ, Bool, true, false, Option, List, [], ◌∷◌, ◌++◌, nat_eq}
use channex_pms.Shared.Result.{Result, ok, err}
use channex_pms.Inventory.{EntityId}
use channex_pms.Reservations.{Revision, MappingState, mapped}
use channex_pms.Reservations.Repository.{BookingRepo}

pub record IngestSummary : Type 0 where
  pub seen_count : ℕ
  pub applied : ℕ
  pub duplicates : ℕ
  pub reacked : ℕ
  pub acked_count : ℕ
  pub ack_failures : ℕ
  pub stale : ℕ

abbrev pub no_ingest : IngestSummary
no_ingest = record {
  seen_count = 0;
  applied = 0;
  duplicates = 0;
  reacked = 0;
  acked_count = 0;
  ack_failures = 0;
  stale = 0;
}

pub data Alert : Type 0 where
  unmapped_booking : (booking property : EntityId) → MappingState → Alert
  ack_lagging : (revision property : EntityId) (age_ms : ℕ) → Alert

-- What the ingestion does outside itself, in order: revisions that the repository committed, calls
-- of the provider's ack, alerts.
pub data Effect : Type 0 where
  committed : Revision → Effect
  ack_asked : List EntityId → Effect
  alerted : Alert → Effect

pub record FeedPage : Type 0 where
  pub page_revisions : List Revision
  pub next_cursor : Option ℕ

-- A fault is an error that the port throws.
pub record IngestDeps : Type 0 where
  pub org_id : EntityId
  pub list_booking_revisions : (round : ℕ) (cursor : Option ℕ) → List Effect → Result FeedPage ℕ
  pub ack_fault : List Effect → Option ℕ
  pub alerts : Option (List Effect → Option ℕ)
  pub time_of : ℕ → ℕ
  pub generated_id : ℕ → EntityId

-- `readings` of the clock and `generated` ids, so far.
pub record IngestState : Type 0 where
  pub repo : BookingRepo
  pub readings : ℕ
  pub generated : ℕ
  pub effects : List Effect

pub data IngestError : Type 0 where
  duplicate_system_id : ℕ → IngestError
  port_fault : ℕ → IngestError

-- A state with what a part of the run returns or throws.
abbrev pub Outcome : Type 0 → Type 0
Outcome A = IngestState × Result A IngestError

-- The rest of the run, where no error was thrown.
abbrev pub and_then : {A B : Type 0} → Outcome A → (A → IngestState → Outcome B) → Outcome B
and_then (st, err x) rest = (st, err x)
and_then (st, ok a) rest = rest a st

-- What the loop over a page keeps: `seen`, `fresh` and the summary.
abbrev pub Progress : Type 0
Progress = List ℕ × (ℕ × IngestSummary)

abbrev pub max_feed_rounds : ℕ
max_feed_rounds = 10000

abbrev pub log_effect : Effect → IngestState → IngestState
log_effect x st = record st { effects = st.effects ++ x ∷ [] }

abbrev pub is_mapped : MappingState → Bool
is_mapped mapped = true
is_mapped _ = false
