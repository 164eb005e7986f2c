-- ===== src/Transport/Booking/Directions.antt =====
-- The selections that frontend/src/client/modules/transport/utils.ts builds, as `addSelection` of
-- store.ts reads them.
use giki_wallet.Common.{
  ◌≡◌, ◌≢◌, refl, arith, true, Option, some, none, List, String, ℕ, eq_iff, eq_refl,
}
use giki_wallet.Transport.Data.{TripStop, BookingSelection}
use giki_wallet.Transport.Stops.{
  get_giki_stop_object, create_outbound_selection, create_inbound_selection,
}
use giki_wallet.Transport.State.{Direction, outbound, inbound}
use giki_wallet.Transport.Booking.{inferred_direction}
use giki_wallet.Transport.Booking.Outcomes.{touches_giki}

-- A selection leaves GIKI or goes there, as `direction` says, and passes the check of `addSelection`
-- that belongs to its direction.
pub record Goes (stops : List TripStop) (direction : Direction) (sel : BookingSelection)
    : Type 0 where
  pub read_as : inferred_direction (get_giki_stop_object stops) sel ≡ direction
  pub accepted : touches_giki (get_giki_stop_object stops) sel ≡ true

-- The check of an option, over what the stop of a trip at GIKI is.
abbrev built : (TripStop → BookingSelection) → Option TripStop → Option BookingSelection
built make none = none
built make (some giki) = some (make giki)

built-some :
    (make : TripStop → BookingSelection) (o : Option TripStop) (sel : BookingSelection)
    → built make o ≡ some sel
    → (giki : TripStop) × (o ≡ some giki) × (sel ≡ make giki)
built-some make none sel e = cc
built-some make (some giki) sel e = (giki, refl, cc)

module _ (trip_id stop_id : String) (stops : List TripStop) (count : ℕ) where
  abbrev leaving : TripStop → BookingSelection
  leaving giki = record {
    trip_id = trip_id;
    pickup_id = giki.stop_id;
    dropoff_id = stop_id;
    ticket_count = count;
  }

  abbrev coming : TripStop → BookingSelection
  coming giki = record {
    trip_id = trip_id;
    pickup_id = stop_id;
    dropoff_id = giki.stop_id;
    ticket_count = count;
  }

  leaving-Goes :
      (giki : TripStop)
      → get_giki_stop_object stops ≡ some giki
      → Goes stops outbound (leaving giki)
  unfolding inferred_direction
  leaving-Goes giki e = record {
    read_as = rw (e, eq_refl giki.stop_id) refl;
    accepted = rw (e, eq_refl giki.stop_id) refl;
  }

  coming-Goes :
      (giki : TripStop)
      → get_giki_stop_object stops ≡ some giki
      → stop_id ≢ giki.stop_id
      → Goes stops inbound (coming giki)
  unfolding inferred_direction
  coming-Goes giki e away = record {
    read_as = rw e (ground (arith, eq_iff stop_id giki.stop_id));
    accepted = rw (e, eq_refl giki.stop_id) (ground arith);
  }

  -- A selection that `createOutboundSelection` builds from a trip's stops is outbound to
  -- `addSelection` and passes its checks of the stops.
  pub create_outbound_selection-Goes :
      (sel : BookingSelection)
      → create_outbound_selection trip_id stop_id stops count ≡ some sel
      → Goes stops outbound sel
  unfolding create_outbound_selection
  create_outbound_selection-Goes sel e =
      let (giki, found, same) = built-some leaving (get_giki_stop_object stops) sel e in
      rw same (leaving-Goes giki found)

  -- A selection that `createInboundSelection` builds from a trip's stops, with a pickup stop other
  -- than the GIKI stop, is inbound to `addSelection` and passes its checks of the stops.
  pub create_inbound_selection-Goes :
      (sel : BookingSelection)
      → create_inbound_selection trip_id stop_id stops count ≡ some sel
      → ((giki : TripStop) → get_giki_stop_object stops ≡ some giki → stop_id ≢ giki.stop_id)
      → Goes stops inbound sel
  unfolding create_inbound_selection
  create_inbound_selection-Goes sel e away =
      let (giki, found, same) = built-some coming (get_giki_stop_object stops) sel e in
      rw same (coming-Goes giki found (away giki found))
