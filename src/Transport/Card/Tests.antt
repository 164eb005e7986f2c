-- ===== src/Transport/Card/Tests.antt =====
-- A grid with a card, on which a trip and a stop are chosen.
use giki_wallet.Common.{
  ℕ, ◌≡◌, ◌==◌, refl, String, true, false, none, some, List, [], ◌∷◌, if◌then◌else◌, eq_iff, ◌≢◌,
}
use giki_wallet.Transport.Data.{Trip, TripStop, BookingSelection}
use giki_wallet.Transport.State.{outbound}
use giki_wallet.Transport.Stops.{get_giki_stop_object}
use giki_wallet.Transport.Booking.Directions.{Goes}
use giki_wallet.Transport.Tests.{topi, student_trip}
use giki_wallet.Transport.Grid.{visible, reads, route_groups, book}
use giki_wallet.Transport.Grid as Grid
use giki_wallet.Common.Groups.{group_into, push, items_at}
use giki_wallet.Common.Sorting.{sort_by, insert_by}
use giki_wallet.Transport.Card.{
  CardProps, Event, pick, choose, plus, handle_book, Booked, select_trip, choose_stop, more,
  stop_options, max_tickets, can_book,
}
use giki_wallet.Transport.Card.Tickets.{after, Few, handle_book-Few}
use giki_wallet.Transport.Card.Offers.{offered_stop-Goes}

abbrev clock : String → ℕ
clock text = if text == "early" then 1 else 2

abbrev early_trip : Trip
early_trip = record student_trip { id = "t3"; departure_time = "early" }

abbrev cancelled_trip : Trip
cancelled_trip = record student_trip { id = "t4"; status = " cancelled " }

abbrev trips : List Trip
trips = student_trip ∷ cancelled_trip ∷ early_trip ∷ []

-- The earlier trip comes first, and the cancelled one is not shown.
shown_in_order :
    items_at "r1_OUTBOUND" (route_groups clock trips outbound) ≡ early_trip ∷ student_trip ∷ []
unfolding items_at route_groups visible reads group_into push sort_by insert_by
shown_in_order = refl

abbrev selection : BookingSelection
selection = record { trip_id = "t1"; pickup_id = "s1"; dropoff_id = "s3"; ticket_count = 2 }

-- A trip whose stop at GIKI is written in capitals.
abbrev main_gate : TripStop
main_gate = record { stop_id = "s1"; stop_name = "GIKI Main Gate"; sequence = 1 }

abbrev gate_trip : Trip
gate_trip = record student_trip { stops = main_gate ∷ topi ∷ [] }

differs : main_gate.stop_id ≢ topi.stop_id
differs = λ e. let equal : (main_gate.stop_id == topi.stop_id) ≡ true = (eq_iff _ _).1 e in cc

offered_stop-Goes_example : Goes gate_trip.stops outbound selection
unfolding stop_options Grid.handle_book get_giki_stop_object
offered_stop-Goes_example =
    offered_stop-Goes "t1" "s3" 2 gate_trip (gate_trip ∷ []) outbound selection refl
      (refl, (refl, tt)) ((differs, tt), (tt, tt)) refl refl

abbrev props : CardProps
props = record { trips = gate_trip ∷ []; active_holds = []; is_student = false; quota = none }

abbrev events : List (CardProps × Event)
events = (props, plus) ∷ (props, choose "s3") ∷ (props, pick "t1") ∷ []

abbrev two : Booked
two = record { trip_id = "t1"; stop_id = "s3"; count = 2 }

asks_for_two : handle_book props (after 0 events) ≡ some two
unfolding handle_book can_book after select_trip choose_stop stop_options more max_tickets
asks_for_two = refl

handle_book-Few_example : Few two.count
handle_book-Few_example = handle_book-Few 0 events props two asks_for_two
