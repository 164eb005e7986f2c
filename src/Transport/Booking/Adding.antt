-- ===== src/Transport/Booking/Adding.antt =====
-- `addSelection` of frontend/src/client/modules/transport/store.ts, from the call to its end.
use giki_wallet.Common.{◌≡◌, true, false, List, some, String, Bool, ◌==◌, find}
use giki_wallet.Errors.{Thrown}
use giki_wallet.Async.{fulfilled, rejected}
use giki_wallet.Async.Act.{run}
use giki_wallet.Async.Runs.{World, execute, Ends, read, either, execute-Ends}
use giki_wallet.Transport.Data.{Trip, BookingSelection, HeldSeat, booking_selection_ok}
use giki_wallet.Transport.Stops.{get_giki_stop_object}
use giki_wallet.Transport.State.{Ui, Request, Answer, hold_seats}
use giki_wallet.Transport.Booking.{inferred_direction, hold_request, select_on, add_selection}
use giki_wallet.Transport.Booking.Outcomes.{
  touches_giki, is_up, IsBooked, hold_selection-rejected, hold_selection-fulfilled,
}

module _ (w : World Ui Request Answer) (is_uuid : String → Bool) (u : Ui) (sel : BookingSelection)
    (trip : Trip) where
  add_selection-Ends :
      (P : Ui → Type 0)
      → booking_selection_ok is_uuid sel ≡ true
      → find (λ t. t.id == sel.trip_id) u.store.all_trips ≡ some trip
      → Ends w P (run (select_on (some trip) sel)) u
      → Ends w P (run (add_selection is_uuid sel)) u
  unfolding add_selection
  add_selection-Ends P valid found h = either (λ _. read (rw found h)) (λ e. cc)

  -- For a valid selection on a known trip, with one end at the trip's GIKI stop, if it has one:
  -- when the server holds the seats, `addSelection` ends with the selection stored in its leg, a
  -- passenger for every seat and `loading` down, also if the data cannot be fetched afterwards and
  -- whatever else changes the store in the meantime.
  pub add_selection_books :
      (holds : List HeldSeat)
      → booking_selection_ok is_uuid sel ≡ true
      → find (λ t. t.id == sel.trip_id) u.store.all_trips ≡ some trip
      → touches_giki (get_giki_stop_object trip.stops) sel ≡ true
      → w.reply (hold_seats (hold_request sel)) ≡ fulfilled holds
      → IsBooked
          (inferred_direction (get_giki_stop_object trip.stops) sel)
          sel
          holds
          (execute w (run (add_selection is_uuid sel)) u).store
  unfolding select_on
  add_selection_books holds valid found touches reply =
      execute-Ends
        (add_selection-Ends _ valid found (hold_selection-fulfilled w _ sel holds u touches reply))

  -- For a valid selection on a known trip, with one end at the trip's GIKI stop, if it has one:
  -- when the server refuses the seats, `addSelection` ends with the store as the wait left it,
  -- except that `loading` is down.
  pub add_selection_refused :
      (e : Thrown)
      → booking_selection_ok is_uuid sel ≡ true
      → find (λ t. t.id == sel.trip_id) u.store.all_trips ≡ some trip
      → touches_giki (get_giki_stop_object trip.stops) sel ≡ true
      → w.reply (hold_seats (hold_request sel)) ≡ rejected e
      → (execute w (run (add_selection is_uuid sel)) u).store
        ≡ record ((w.during (hold_seats (hold_request sel)) (is_up u)).store) { loading = false }
  unfolding select_on
  add_selection_refused e valid found touches reply =
      execute-Ends
        (add_selection-Ends _ valid found (hold_selection-rejected w _ sel e u touches reply))
