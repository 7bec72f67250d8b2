-- ===== src/Reservations/Protocol/Tests.antt =====
-- The theorems on the ingestion at a feed with two revisions of one booking out of order, and runs
-- of it.
use channex_pms.Prelude.{
  ℕ, ◌+◌, ◌-◌, ◌≡◌, ◌≤◌, any, false, arith, refl, true, Option, none, some, [], ◌∷◌,
}
use channex_pms.Prelude.Int.{pos}
use channex_pms.Shared.Result.{ok}
use channex_pms.Reservations.{
  Revision, BookingRoom, modified, is_newer_than, project_revision, diff_projection, booked_nights,
  mapping_state_of,
}
use channex_pms.Reservations.Repository.{is_received_by, apply_revision, mark_acked}
use channex_pms.Reservations.Ingest.{
  IngestDeps, IngestState, apply_newer, apply_one, ack, take_unseen, take_page, feed_rounds,
  ingest_property,
}
use channex_pms.Reservations.Sweep.{ack_sweep}
use channex_pms.Reservations.Protocol.{view, Protocol}
use channex_pms.Reservations.Protocol.Ingest.{IsOk, ingest_property-Protocol}
use channex_pms.Reservations.Protocol.Waiting.{is_waiting}
use channex_pms.Reservations.Protocol.Sweep.{ack_sweep-clears}
use channex_pms.Reservations.Protocol.Acks.{acks_follow, ingest_property-acks_follow}
use channex_pms.Reservations.Protocol.Current.{IsCurrent, ingest_property-IsCurrent}

abbrev room : BookingRoom
room = record {
  room_type_id = some 4;
  rate_plan_id = some 6;
  checkin_date = 10;
  checkout_date = 12;
  days = (10, pos 8000) ∷ (11, pos 8500) ∷ [];
  rest = 0;
}

abbrev later : Revision
later = record {
  revision_id = 2;
  booking_id = 3;
  system_id = 52;
  property_id = 1;
  status = modified;
  arrival_date = 10;
  departure_date = 12;
  currency = 978;
  amount = pos 16500;
  payment = (none, 0);
  ota = (1, 77);
  inserted_at = 2000;
  rooms = room ∷ [];
  customer = 5;
}

abbrev earlier : Revision
earlier = record later { revision_id = 1; system_id = 51; inserted_at = 1000 }

-- The later revision comes first; every answer of the ack is `fault`.
abbrev sample_deps : Option ℕ → IngestDeps
sample_deps fault = record {
  org_id = 8;
  list_booking_revisions = λ round cursor done.
      ok (record { page_revisions = later ∷ earlier ∷ []; next_cursor = none });
  ack_fault = λ done. fault;
  alerts = none;
  time_of = λ n. 700000 + n;
  generated_id = λ n. 100 + n;
}

abbrev at_start : IngestState
at_start = record {
  repo = record { revisions = []; projections = []; events = [] };
  readings = 0;
  generated = 0;
  effects = [];
}

ingest_property-Protocol_example :
    Protocol (view at_start) (view (ingest_property (sample_deps (some 503)) at_start).0)
ingest_property-Protocol_example = ingest_property-Protocol (sample_deps (some 503)) at_start

ingest_property-acks_follow_example :
    acks_follow [] (ingest_property (sample_deps none) at_start).0.effects ≡ true
ingest_property-acks_follow_example = ingest_property-acks_follow (sample_deps none) at_start refl

ingest_property-IsCurrent_example : IsCurrent (ingest_property (sample_deps none) at_start).0.repo
ingest_property-IsCurrent_example = ingest_property-IsCurrent (sample_deps none) at_start (tt, tt)

-- After a run whose acks failed.
abbrev unacked : IngestState
unacked = (ingest_property (sample_deps (some 503)) at_start).0

unacked-readings : 301000 ≤ (sample_deps none).time_of unacked.readings
unacked-readings = omega arith

ack_sweep-clears_example :
    let (st, r) = ack_sweep (sample_deps none) unacked in
    (any
        (λ p. is_waiting ((sample_deps none).time_of unacked.readings - 301000) p.1)
        st.repo.revisions
      ≡ false)
    × IsOk r
ack_sweep-clears_example =
    ack_sweep-clears (sample_deps none) unacked (λ t. refl) (λ a s. refl) unacked-readings

-- Five minutes before, to the second: the text of the instant is not below the other.
exactly_five_minutes : is_received_by 60000 60000 ≡ false
unfolding is_received_by
exactly_five_minutes = refl

a_millisecond_before : is_received_by 59999 60000 ≡ true
unfolding is_received_by
a_millisecond_before = refl

ingest_sample :
    (ingest_property (sample_deps none) at_start).1
    ≡ ok (record {
      seen_count = 2;
      applied = 1;
      duplicates = 0;
      reacked = 0;
      acked_count = 2;
      ack_failures = 0;
      stale = 1;
    })
unfolding ingest_property feed_rounds take_page take_unseen apply_one apply_newer ack apply_revision
    mark_acked is_newer_than project_revision diff_projection booked_nights mapping_state_of
ingest_sample = refl
