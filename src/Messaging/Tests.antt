-- ===== src/Messaging/Tests.antt =====
-- The theorem on breaches at an overdue thread.
use channex_pms.Prelude.{◌+◌, ◌<◌, ◌≡◌, ◌↔◌, refl, true, none, some}
use channex_pms.Messaging.{Thread, opened, inquiry, sla_state}
use channex_pms.Messaging.Breach.{sla_state-breached_iff}

abbrev waiting : Thread
waiting = record {
  state = opened;
  kind = inquiry;
  last_inbound_at = some 1000;
  last_outbound_at = none;
  first_response_due_at = some 900000;
  snoozed_until = none;
  thread_assignee = none;
}

sla_state-breached_iff_example :
    ((sla_state waiting 960000).breached ≡ true) ↔ (900000 + 30000 < 960000)
sla_state-breached_iff_example = sla_state-breached_iff waiting 900000 960000 refl refl
