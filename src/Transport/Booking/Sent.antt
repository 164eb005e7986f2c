-- ===== src/Transport/Booking/Sent.antt =====
-- What `addSelection` sends to the server.
use giki_wallet.Common.{
  ◌≡◌, ◌≢◌, ◌≤◌, ◌⊎◌, refl, arith, Bool, true, false, not, ◌&&◌, List, Option, none, some, String,
  ◌==◌, eq_iff, find,
}
use giki_wallet.Errors.{Thrown}
use giki_wallet.Async.Act.{run}
use giki_wallet.Async.Requests.{Asks, nothing, reads, writes, splits, waits, Asks-await}
use giki_wallet.Transport.Data.{
  TripStop, Trip, BookingSelection, HoldSeatsRequest, booking_selection_ok, hold_seats_request_ok,
}
use giki_wallet.Transport.Stops.{get_giki_stop_object}
use giki_wallet.Transport.State.{
  Direction, outbound, inbound, TransportState, Ui, Process, Request, hold_seats,
}
use giki_wallet.Transport.Store.{fetch_data, fetch_and_store}
use giki_wallet.Transport.Booking.{
  inferred_direction, is_outbound, away_from_giki, hold_request, next_leg_toast, hold_and_store,
  hold_failed, hold_selection, select_on, add_selection,
}

-- Past its two checks the selection has an end at GIKI.
checked_ends :
    (giki : TripStop) (o : Option TripStop) (sel : BookingSelection)
    → not (is_outbound (inferred_direction o sel)) && away_from_giki o sel.dropoff_id ≡ false
    → o ≡ some giki
    → (sel.pickup_id ≡ giki.stop_id) ⊎ (sel.dropoff_id ≡ giki.stop_id)
unfolding inferred_direction
checked_ends giki none sel h e = cc
checked_ends giki (some g) sel h e =
    ground (arith, eq_iff sel.pickup_id g.stop_id, eq_iff sel.dropoff_id g.stop_id)

module _ (is_uuid : String → Bool) (trips : List Trip) where
  -- A request for seats that the server can serve: by the request schema, for at most three seats
  -- between two different stops of a trip that the client knows, one of which is the trip's GIKI
  -- stop, if it has one.
  pub record IsServable (r : HoldSeatsRequest) : Type 0 where
    pub trip : Trip
    pub known : find (λ t. t.id == r.trip_id) trips ≡ some trip
    pub well_formed : hold_seats_request_ok is_uuid r ≡ true
    pub at_most_three : r.count ≤ 3
    pub apart : r.pickup_stop_id ≢ r.dropoff_stop_id
    pub ends_at_giki :
        (giki : TripStop)
        → get_giki_stop_object trip.stops ≡ some giki
        → (r.pickup_stop_id ≡ giki.stop_id) ⊎ (r.dropoff_stop_id ≡ giki.stop_id)

  abbrev pub IsSound : Request → Type 0
  IsSound (hold_seats r) = IsServable r
  IsSound _ = Unit

  module _ (ok : Unit {0} → Process) (err : Thrown → Process)
      (next : (s : Ui) → Asks IsSound (ok tt) s) (s : Ui) where
    fetch_data-Asks : Asks IsSound (fetch_data false ok err) s
    unfolding fetch_data fetch_and_store
    fetch_data-Asks =
        splits (λ e. cc)
          (λ _.
            Asks-await tt (λ found s'. reads (writes (splits (λ e. cc) (λ _. next _))))
              (λ e s'. writes (writes (splits (λ e. cc) (λ _. next _)))))

    next_leg_toast-Asks :
        (d : Direction) (t : TransportState) → Asks IsSound (next_leg_toast d t ok err) s
    next_leg_toast-Asks outbound t = splits (λ _. writes (next _)) (λ _. next s)
    next_leg_toast-Asks inbound t = splits (λ _. writes (next _)) (λ _. next s)

  module _ (sel : BookingSelection) (valid : booking_selection_ok is_uuid sel ≡ true) (trip : Trip)
      (found : find (λ t. t.id == sel.trip_id) trips ≡ some trip) where
    request-IsServable :
        not (is_outbound (inferred_direction (get_giki_stop_object trip.stops) sel))
            && away_from_giki (get_giki_stop_object trip.stops) sel.dropoff_id
          ≡ false
        → IsServable (hold_request sel)
    unfolding booking_selection_ok hold_seats_request_ok
    request-IsServable h = record {
      trip = trip;
      known = found;
      well_formed = ground arith;
      at_most_three = ground arith;
      apart = ground (arith, eq_iff sel.pickup_id sel.dropoff_id);
      ends_at_giki = λ giki e. checked_ends giki (get_giki_stop_object trip.stops) sel h e;
    }

    hold_selection-Asks :
        (s : Ui)
        → Asks IsSound
            (run (
              hold_selection
                (inferred_direction (get_giki_stop_object trip.stops) sel)
                (get_giki_stop_object trip.stops)
                sel))
            s
    unfolding hold_selection hold_and_store hold_failed
    hold_selection-Asks s = writes (
        splits (λ _. writes (writes (writes nothing)))
          (λ _.
            splits (λ _. writes (writes (writes nothing)))
              (λ checked.
                Asks-await (request-IsServable checked)
                  (λ holds. fetch_data-Asks _ _ (λ s1.
                    waits (λ s2.
                      reads (writes (next_leg_toast-Asks _ _ (λ s3. writes nothing) _ _ _)))))
                  (λ e s'.
                    reads (splits (λ _. writes (writes nothing)) (λ _. writes (writes nothing)))))))

select_on-Asks :
    (is_uuid : String → Bool) (trips : List Trip) (sel : BookingSelection)
    → booking_selection_ok is_uuid sel ≡ true
    → (t : Option Trip) → find (λ t. t.id == sel.trip_id) trips ≡ t
    → (u : Ui) → Asks (IsSound is_uuid trips) (run (select_on t sel)) u
unfolding select_on
select_on-Asks is_uuid trips sel valid none found u = writes nothing
select_on-Asks is_uuid trips sel valid (some trip) found u =
    hold_selection-Asks is_uuid trips sel valid trip found u

-- Whatever selection the pages hand over, and whatever the server answers: every request for seats
-- that `addSelection` sends fits the request schema, asks for at most three seats between two
-- different stops of a trip that the client knows, and has an end at the trip's GIKI stop, if it
-- has one.
pub add_selection_servable :
    (is_uuid : String → Bool) (sel : BookingSelection) (u : Ui)
    → Asks (IsSound is_uuid u.store.all_trips) (run (add_selection is_uuid sel)) u
unfolding add_selection
add_selection_servable is_uuid sel u = splits (λ valid. reads (step valid)) (λ _. writes nothing)
  where
    step :
        booking_selection_ok is_uuid sel ≡ true
        → Asks
            (IsSound is_uuid u.store.all_trips)
            (run (select_on (find (λ t. t.id == sel.trip_id) u.store.all_trips) sel))
            u
    step valid = select_on-Asks is_uuid u.store.all_trips sel valid _ refl u
