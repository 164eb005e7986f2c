-- ===== src/Transport/OldCard/Tests.antt =====
-- The menus of the old card on small inputs.
use giki_wallet.Common.{◌≡◌, refl, true, false, some, [], ◌∷◌, map}
use giki_wallet.Common.Maps.{insert}
use giki_wallet.Transport.State.{outbound}
use giki_wallet.Transport.Stops.{get_giki_stop_object, sort_stops, insert_stop}
use giki_wallet.Transport.Grid.{error}
use giki_wallet.Transport.Tests.{student_trip, staff_trip, h1_out}
use giki_wallet.Transport.OldCard.{
  OldCard, ticket_options, unique_routes, route_options, before_giki, after_giki, valid_stops,
  stop_options, should_release, handle_route_change, handle_book,
}

students_have_one : ticket_options true 3 ≡ 1 ∷ []
unfolding ticket_options
students_have_one = refl

a_route_is_offered_once :
    route_options (student_trip ∷ staff_trip ∷ []) ≡ ("r1", "GIKI - Topi") ∷ []
unfolding route_options unique_routes insert
a_route_is_offered_once = refl

later_stops_outbound :
    map (λ o. o.value) (stop_options outbound (some student_trip)) ≡ "s2" ∷ "s3" ∷ []
unfolding stop_options valid_stops before_giki after_giki sort_stops insert_stop
later_stops_outbound = refl

abbrev card : OldCard
card = record {
  selected_route_id = some "r1";
  selected_trip_id = some "t1";
  selected_stop_id = some "s3";
  ticket_count = 1;
}

another_route_gives_up_the_seats :
    (handle_route_change outbound (h1_out ∷ []) true (some "r2") card).releases ≡ true
unfolding handle_route_change should_release
another_route_gives_up_the_seats = refl

the_same_route_keeps_them :
    (handle_route_change outbound (h1_out ∷ []) true (some "r1") card).releases ≡ false
unfolding handle_route_change should_release
the_same_route_keeps_them = refl

full_trips_are_refused :
    handle_book outbound (record student_trip { available_seats = 0 } ∷ []) card
    ≡ some (error "This trip is full")
unfolding handle_book get_giki_stop_object
full_trips_are_refused = refl
