-- ===== src/Transport/Panels.antt =====
-- Smaller parts of frontend/src/client/modules/transport: pages/BookingConfirmationPage.tsx, and
-- SelectionSummary.tsx, TransportBookingModeSelector.tsx and PendingReservationBanner.tsx of
-- components. The departure is the server's text.
mod Tests
use giki_wallet.Common.{
  ℕ, ◌/◌, ◌%◌, ◌==◌, String, Bool, true, false, ◌&&◌, Option, none, some, List, map, find, any, leb,
  str_or,
}
use giki_wallet.Common.Maps.{lookup}
use giki_wallet.Async.Act.{◌>>=◌, ◌>>◌, return, await_act, try_catch}
use giki_wallet.Transport.Data.{
  Trip, TripStop, ActiveHold, Passenger, BookingSelection, QuotaResponse,
}
use giki_wallet.Transport.State.{TransportState, Action}
use giki_wallet.Transport.Stops.{has_id}
use giki_wallet.Transport.Grid.{is_trip}
use giki_wallet.Transport.Booking.{Confirmation, confirm_booking}
use giki_wallet.Transport.Holds.{relation_text}

-- A confirmation of BookingConfirmationPage.tsx: the user's name does not stand in for a missing one.
abbrev pub plain_confirmation : String → Option Passenger → Confirmation
plain_confirmation id none = record {
  hold_id = id;
  passenger_name = "";
  passenger_relation = "SELF";
}
plain_confirmation id (some p) = record {
  hold_id = id;
  passenger_name = p.name;
  passenger_relation = relation_text p.relation;
}

unfoldable pub plain_confirmations : TransportState → List Confirmation
unfolding lookup
plain_confirmations s = map (λ h. plain_confirmation h.id (lookup h.id s.passengers)) s.active_holds

-- `handleConfirm`, over the state of the last rendering: where it goes, or nowhere after an error.
unfoldable pub handle_confirm : TransportState → Action (Option String)
unfolding plain_confirmations
handle_confirm s =
    try_catch
      (do await_act (confirm_booking (plain_confirmations s)); return (some "/transport/tickets"))
      (λ e. return none)

pub record TripData : Type 0 where
  pub route : String
  pub departure_time : String
  pub pickup : String
  pub dropoff : String
  pub is_held : Bool

abbrev pub name_or_dots : Option TripStop → String
name_or_dots none = "..."
name_or_dots (some s) = str_or s.stop_name "..."

abbrev pub trip_data_of : List ActiveHold → BookingSelection → Option Trip → Option TripData
trip_data_of holds sel none = none
trip_data_of holds sel (some t) = some (record {
  route = t.route_name;
  departure_time = t.departure_time;
  pickup = name_or_dots (find (has_id sel.pickup_id) t.stops);
  dropoff = name_or_dots (find (has_id sel.dropoff_id) t.stops);
  is_held = any (λ h. h.trip_id == sel.trip_id) holds;
})

-- `getTripData`.
unfoldable pub get_trip_data :
    List Trip → List ActiveHold → Option BookingSelection → Option TripData
get_trip_data all_trips holds none = none
get_trip_data all_trips holds (some sel) =
    trip_data_of holds sel (find (is_trip sel.trip_id) all_trips)

-- `canBookRoundTrip`.
unfoldable pub can_book_round_trip : Option QuotaResponse → Bool
can_book_round_trip none = true
can_book_round_trip (some q) = leb 1 q.outbound.remaining && leb 1 q.inbound.remaining

-- `formatTime`: minutes and seconds, as numbers.
unfoldable pub format_time : ℕ → ℕ × ℕ
format_time seconds = (seconds / 60, seconds % 60)
