-- ===== src/Reservations/Tests.antt =====
-- The theorems on revisions at two that arrive out of order.
use channex_pms.Prelude.{◌≡◌, none, some, [], ◌∷◌, not, ◌&&◌, ◌||◌}
use channex_pms.Prelude.Int.{pos}
use channex_pms.Reservations.{
  Revision, BookingRoom, modified, Projection, project_revision, has_night, booked_nights,
  diff_projection,
}
use channex_pms.Reservations.Nights.{diff_projection-nights}

abbrev room : BookingRoom
room = record {
  room_type_id = some 4;
  rate_plan_id = some 6;
  checkin_date = 10;
  checkout_date = 12;
  days = (10, pos 8000) ∷ (11, pos 8500) ∷ [];
  rest = 0;
}

abbrev second : Revision
second = record {
  revision_id = 2;
  booking_id = 3;
  system_id = 52;
  property_id = 1;
  status = modified;
  arrival_date = 10;
  departure_date = 12;
  currency = 978;
  amount = pos 16500;
  payment = (none, 0);
  ota = (1, 77);
  inserted_at = 2000;
  rooms = room ∷ [];
  customer = 5;
}

abbrev first_sent : Revision
first_sent = record second { revision_id = 1; system_id = 51; inserted_at = 1000; rooms = [] }

abbrev before : Projection
before = project_revision first_sent 9

abbrev after : Projection
after = project_revision second 9

diff_projection-nights_example :
    let was = has_night (5, 11) (booked_nights (some before)) in
    let now = has_night (5, 11) (booked_nights (some after)) in
    let d = diff_projection (some before) after in
    (has_night (5, 11) d.nights_added ≡ (now && not was))
    × (has_night (5, 11) d.nights_removed ≡ (was && not now))
    × (now
        ≡ ((was && not (has_night (5, 11) d.nights_removed)) || has_night (5, 11) d.nights_added))
diff_projection-nights_example = diff_projection-nights (some before) after (5, 11)
