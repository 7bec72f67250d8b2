-- ===== src/Messaging/Breach.antt =====
-- `slaState` of packages/core/src/messaging/sla.ts.
use channex_pms.Prelude.{ℕ, ◌+◌, ◌<◌, ◌≡◌, ◌↔◌, true, some, arith}
use channex_pms.Prelude.Int.{pos, ◌-ℤ◌, parts_zero, -ℤ_parts, round_div, round_div-neg, ltb_ℤ}
use channex_pms.Messaging.{Thread, awaits_reply, remaining_at, sla_of, sla_state}

negative-round : (due now : ℕ) → (ltb_ℤ (remaining_at due now) (pos 0) ≡ true) ↔ (due + 30000 < now)
negative-round due now =
    let a = pos due -ℤ pos now in
    let n = round_div-neg a 60000 in
    let p = -ℤ_parts (pos due) (pos now) in
    let z = parts_zero a in let w = parts_zero (round_div a 60000) in ground (arith, n, p, z, w)

-- A thread that awaits a reply with a due time is reported breached exactly when the due time is
-- more than half a minute ago, since the remaining minutes are rounded.
pub sla_state-breached_iff :
    (t : Thread) (due now : ℕ)
    → awaits_reply t ≡ true
    → t.first_response_due_at ≡ some due
    → ((sla_state t now).breached ≡ true) ↔ (due + 30000 < now)
unfolding sla_state sla_of
sla_state-breached_iff t due now h e = rw (h, e, sla_of) (negative-round due now)
