-- ===== src/Messaging.antt =====
-- packages/core/src/messaging/sla.ts: the state of a thread's first response, and the inbox views.
-- An instant stands for its milliseconds, which order the ISO texts.
pub mod Breach
mod Tests
use channex_pms.Prelude.{
  ℕ, Bool, true, false, not, ◌&&◌, ◌||◌, Option, none, some, if◌then◌else◌, ◌==◌, leb, ltb,
}
use channex_pms.Prelude.Int.{ℤ, pos, ◌-ℤ◌, ltb_ℤ, round_div}
use channex_pms.Inventory.{EntityId}
use channex_pms.Shared.Date.{LocalDate}

pub data ThreadState : Type 0 where
  opened closed no_reply_needed : ThreadState

pub data ThreadKind : Type 0 where
  booking inquiry : ThreadKind

-- The fields of `Thread` that sla.ts reads.
pub record Thread : Type 0 where
  pub state : ThreadState
  pub kind : ThreadKind
  pub last_inbound_at : Option ℕ
  pub last_outbound_at : Option ℕ
  pub first_response_due_at : Option ℕ
  pub snoozed_until : Option ℕ
  pub thread_assignee : Option EntityId

pub record SlaState : Type 0 where
  pub needs_reply : Bool
  pub due_at : Option ℕ
  pub remaining_minutes : Option ℤ
  pub breached : Bool

abbrev pub is_opened : ThreadState → Bool
is_opened opened = true
is_opened _ = false

-- An inbound message and no reply since.
abbrev pub is_unanswered : Option ℕ → Option ℕ → Bool
is_unanswered none reply = false
is_unanswered (some i) none = true
is_unanswered (some i) (some r) = ltb r i

abbrev pub awaits_reply : Thread → Bool
awaits_reply t = is_opened t.state && is_unanswered t.last_inbound_at t.last_outbound_at

abbrev pub remaining_at : ℕ → ℕ → ℤ
remaining_at due now = round_div (pos due -ℤ pos now) 60000

sla_of : Bool → Option ℕ → ℕ → SlaState
sla_of false due now = record {
  needs_reply = false;
  due_at = none;
  remaining_minutes = none;
  breached = false;
}
sla_of true none now = record {
  needs_reply = true;
  due_at = none;
  remaining_minutes = none;
  breached = false;
}
sla_of true (some due) now = record {
  needs_reply = true;
  due_at = some due;
  remaining_minutes = some (remaining_at due now);
  breached = ltb_ℤ (remaining_at due now) (pos 0);
}

unfoldable pub sla_state : Thread → ℕ → SlaState
unfolding sla_of
sla_state t now = sla_of (awaits_reply t) t.first_response_due_at now

pub data InboxView : Type 0 where
  needs_reply_view breaching_sla assigned_to_me unassigned inquiries : InboxView
  arriving in_house snoozed closed_view all_threads : InboxView

pub record ViewContext : Type 0 where
  pub now_at : ℕ
  pub user_id : EntityId
  pub arrival_window : Option (LocalDate × LocalDate)
  pub is_in_house : Bool
  pub context_arrival : Option LocalDate

abbrev pub at_most : Option ℤ → ℤ → Bool
at_most none m = false
at_most (some r) m = not (ltb_ℤ m r)

abbrev pub is_snoozed : Option ℕ → ℕ → Bool
is_snoozed none now = false
is_snoozed (some until) now = ltb now until

abbrev pub is_user : Option EntityId → EntityId → Bool
is_user none u = false
is_user (some a) u = a == u

abbrev pub no_user : Option EntityId → Bool
no_user none = true
no_user (some a) = false

abbrev pub is_inquiry : ThreadKind → Bool
is_inquiry inquiry = true
is_inquiry booking = false

abbrev pub arrives_within : Option LocalDate → Option (LocalDate × LocalDate) → Bool
arrives_within (some d) (some (from, to)) = leb from d && leb d to
arrives_within _ _ = false

unfoldable pub matches_view : Thread → InboxView → ViewContext → Bool
matches_view t needs_reply_view c =
    (sla_state t c.now_at).needs_reply && not (is_snoozed t.snoozed_until c.now_at)
matches_view t breaching_sla c =
    let sla = sla_state t c.now_at in
    sla.needs_reply && (sla.breached || at_most sla.remaining_minutes (pos 30))
matches_view t assigned_to_me c = is_user t.thread_assignee c.user_id && is_opened t.state
matches_view t unassigned c = no_user t.thread_assignee && is_opened t.state
matches_view t inquiries c = is_inquiry t.kind
matches_view t arriving c = arrives_within c.context_arrival c.arrival_window
matches_view t in_house c = c.is_in_house
matches_view t snoozed c = is_snoozed t.snoozed_until c.now_at
matches_view t closed_view c = not (is_opened t.state)
matches_view t all_threads c = true
