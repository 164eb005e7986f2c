-- ===== src/Transport/Grid/Choice.antt =====
-- The selection that RouteGrid.tsx hands to the page, as `addSelection` of
-- frontend/src/client/modules/transport/store.ts reads it.
use mathlib.Core.Path.{subst}
use giki_wallet.Common.{◌≡◌, ◌≢◌, refl, Option, some, none, List, String, ℕ, find}
use giki_wallet.Transport.Data.{Trip, TripStop, BookingSelection}
use giki_wallet.Transport.Stops.{
  get_giki_stop_object, create_outbound_selection, create_inbound_selection,
}
use giki_wallet.Transport.State.{Direction, outbound, inbound}
use giki_wallet.Transport.Booking.Directions.{
  Goes, create_outbound_selection-Goes, create_inbound_selection-Goes,
}
use giki_wallet.Transport.Grid.{is_trip, book, payload, book_from, book_trip, handle_book}

module _ (trip_id stop_id : String) (count : ℕ) (t : Trip) where
  payload-Goes :
      (way : Direction) (giki : TripStop)
      → get_giki_stop_object t.stops ≡ some giki
      → stop_id ≢ giki.stop_id
      → Goes t.stops way (payload way trip_id stop_id count giki.stop_id)
  unfolding create_outbound_selection create_inbound_selection
  payload-Goes outbound giki e away =
      create_outbound_selection-Goes trip_id stop_id t.stops count _
        (rw (create_outbound_selection, e) refl)
  payload-Goes inbound giki e away =
      create_inbound_selection-Goes trip_id stop_id t.stops count _
        (rw (create_inbound_selection, e) refl) elsewhere
    where
      elsewhere :
          (other : TripStop) → get_giki_stop_object t.stops ≡ some other → stop_id ≢ other.stop_id
      elsewhere other e' = let same : other ≡ giki = cc in rw same away

  -- A selection that a card of a direction hands on, for a stop of the trip other than its GIKI stop,
  -- goes in that direction to `addSelection` and passes its checks of the stops.
  pub handle_book-Goes :
      (trips : List Trip) (way : Direction) (sel : BookingSelection)
      → find (is_trip trip_id) trips ≡ some t
      → ((giki : TripStop) → get_giki_stop_object t.stops ≡ some giki → stop_id ≢ giki.stop_id)
      → handle_book way trip_id stop_id count trips ≡ book sel
      → Goes t.stops way sel
  unfolding handle_book
  handle_book-Goes trips way sel found away e =
      let e' : book_trip way trip_id stop_id count (some t) ≡ book sel =
        subst (λ o. book_trip way trip_id stop_id count o ≡ book sel) found e in
      by_stop (get_giki_stop_object t.stops) refl e'
    where
      by_stop :
          (o : Option TripStop)
          → get_giki_stop_object t.stops ≡ o
          → book_from way trip_id stop_id count o ≡ book sel
          → Goes t.stops way sel
      by_stop none h k = cc
      by_stop (some giki) h k =
          let same : sel ≡ payload way trip_id stop_id count giki.stop_id = cc in
          rw same (payload-Goes way giki h (away giki h))
