-- ===== src/Admin/TripForm/Tests.antt =====
-- A trip in the form.
use giki_wallet.Common.{
  ℕ, ◌+◌, ◌-◌, ◌*◌, ltb, ◌≡◌, refl, arith, String, false, none, [], ◌==◌, if◌then◌else◌,
}
use giki_wallet.Admin.Trips.{TripResponse}
use giki_wallet.Common.Integers.{pos}
use giki_wallet.Admin.TripForm.{
  CreateTripFormValues, Payload, apply_source_trip, payload_of, difference_in_minutes,
  minutes_before,
}
use giki_wallet.Admin.TripForm.Editing.{Resubmitted, payload_of-Resubmitted}

-- Minutes 5000, 4000 and 4900, as moments.
abbrev clock : String → ℕ
clock text = if text == "d" then 300000000 else if text == "o" then 240000000 else 294000000

abbrev trip : TripResponse
trip = record {
  id = "t1";
  route_id = "r1";
  route_name = "GIKI - Topi";
  departure_time = "d";
  booking_opens_at = "o";
  booking_closes_at = "c";
  status = "OPEN";
  opens_at = "o";
  available_seats = 30;
  total_capacity = 40;
  base_price = 200;
  bus_type = "STUDENT";
  direction = "OUTBOUND";
  manual_status = none;
  deleted_at = none;
  stops = [];
}

abbrev blank : CreateTripFormValues
blank = record {
  route_id = "";
  date = 0;
  time = 480;
  booking_open_date = 0;
  booking_open_time = 480;
  booking_close_date = 0;
  booking_close_time = 480;
  total_capacity = 0;
  base_price = 0;
  bus_type = "STUDENT";
  direction = "OUTBOUND";
  selected_stop_ids = [];
}

-- Clocks that are put forward by an hour between the closing and the departure, at minute 4950.
abbrev changing : ℕ → ℕ
changing moment = if ltb moment 297000000 then 720 else 780

-- A browser that takes no account of the change where it parses.
abbrev parse_here : ℕ → ℕ → ℕ
parse_here day minute = (day * 1440 + minute - 720) * 60000

abbrev sent_again : Payload
sent_again =
    payload_of changing parse_here (apply_source_trip changing parse_here clock 0 trip false blank)

payload_of-Resubmitted_example :
    Resubmitted changing parse_here 0 clock trip blank 5000 4000 4900 sent_again
payload_of-Resubmitted_example =
    payload_of-Resubmitted changing parse_here 0 clock trip blank 5000 4000 4900 refl refl refl
      (omega arith) (omega arith) (omega arith) (omega arith) (omega arith)

-- The offset of the opening was 1000 minutes.
offset_moves : sent_again.booking_open_offset_minutes ≡ pos 1060
unfolding payload_of apply_source_trip difference_in_minutes minutes_before
offset_moves = refl
