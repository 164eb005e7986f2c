-- ===== src/Transport/Booking/Outcomes.antt =====
-- What the actions of the booking flow leave behind, on success and on failure, whatever else
-- happens to the store while they wait.
use giki_wallet.Common.{
  ◌≡◌, ◌≢◌, All, All-map, refl, arith, Bool, true, false, not, ◌&&◌, List, Option, none, some,
  String, ◌==◌, is_some, if◌then◌else◌,
}
use giki_wallet.Common.Maps.{lookup, lookup-merge_right}
use giki_wallet.Errors.{Thrown}
use giki_wallet.Notices.{Toast}
use giki_wallet.Async.{fulfilled, rejected}
use giki_wallet.Async.Act.{run, finally}
use giki_wallet.Async.Runs.{
  World, Ends, ended, read, changed, either, got, failed, either_reply, resumed,
}
use giki_wallet.Transport.Data.{TripStop, BookingSelection, HeldSeat, Passenger}
use giki_wallet.Transport.State.{
  Direction, outbound, inbound, TransportState, Ui, Process, Request, Answer, hold_seats,
}
use giki_wallet.Transport.Store.{set_loading, fetch_data, fetch_and_store}
use giki_wallet.Transport.Booking.Seats.{new_passengers_complete}
use giki_wallet.Transport.Booking.{
  inferred_direction, is_outbound, away_from_giki, hold_request, hold_selection, hold_and_store,
  hold_failed, next_leg_toast, store_selection,
}

-- One end of the selection is the trip's stop at GIKI, if the trip has one.
abbrev pub touches_giki : Option TripStop → BookingSelection → Bool
touches_giki none sel = true
touches_giki (some giki) sel =
    if sel.pickup_id == giki.stop_id then true else sel.dropoff_id == giki.stop_id

-- The direction that `addSelection` infers passes its two checks; the first of them, "Outbound
-- trips must pick up from GIKI", can never fail.
pub outbound_check_passes :
    (giki : Option TripStop) (sel : BookingSelection)
    → is_outbound (inferred_direction giki sel) && away_from_giki giki sel.pickup_id ≡ false
unfolding inferred_direction
outbound_check_passes none sel = refl
outbound_check_passes (some giki) sel = ground arith

inbound_check_passes :
    (giki : Option TripStop) (sel : BookingSelection)
    → touches_giki giki sel ≡ true
    → not (is_outbound (inferred_direction giki sel)) && away_from_giki giki sel.dropoff_id ≡ false
unfolding inferred_direction
inbound_check_passes none sel h = refl
inbound_check_passes (some giki) sel h = ground arith

abbrev pub is_up : Ui → Ui
is_up u = record u { store = record u.store { loading = true } }

abbrev pub leg : Direction → TransportState → Option BookingSelection
leg outbound s = s.outbound_selection
leg inbound s = s.return_selection

abbrev pub opposite : Direction → Direction
opposite outbound = inbound
opposite inbound = outbound

-- After a selection has been booked: its leg holds it, the store is idle and turned to the leg that
-- a round trip still needs, and every seat has a passenger.
pub record IsBooked (d : Direction) (sel : BookingSelection) (holds : List HeldSeat)
    (s : TransportState) : Type 0 where
  pub chosen : leg d s ≡ some sel
  pub idle : s.loading ≡ false
  pub turned :
      s.direction
      ≡ (if s.is_round_trip && not (is_some (leg (opposite d) s)) then opposite d else d)
  pub seated : All (λ h. lookup h.hold_id s.passengers ≢ none) holds

stored-IsBooked :
    (d : Direction) (sel : BookingSelection) (added : List (String × Passenger))
    (holds : List HeldSeat) (s : TransportState)
    → All (λ h. lookup h.hold_id added ≢ none) holds
    → IsBooked d sel holds (record (store_selection d sel added s) { loading = false })
stored-IsBooked outbound sel added holds s h = record {
  chosen = refl;
  idle = refl;
  turned = refl;
  seated = All-map (λ x. lookup-merge_right x.hold_id s.passengers added) holds h;
}
stored-IsBooked inbound sel added holds s h = record {
  chosen = refl;
  idle = refl;
  turned = refl;
  seated = All-map (λ x. lookup-merge_right x.hold_id s.passengers added) holds h;
}

module _ (w : World Ui Request Answer) where
  -- The end of `addSelection` when it fails, whatever it tells the user.
  hold_failed-Ends :
      (d : Direction) (e : Thrown) (t : TransportState) (s : Ui)
      → record s.store { loading = false } ≡ t
      → Ends w (λ u. u.store ≡ t) (run (finally (hold_failed d e) (set_loading false))) s
  unfolding hold_failed
  hold_failed-Ends d e t s h =
      read (either (λ _. changed (changed (ended h))) (λ _. changed (changed (ended h))))

  pub hold_selection-rejected :
      (giki : Option TripStop) (sel : BookingSelection) (e : Thrown) (u : Ui)
      → touches_giki giki sel ≡ true
      → w.reply (hold_seats (hold_request sel)) ≡ rejected e
      → Ends w
          (λ u'. u'.store ≡ record ((w.during (hold_seats (hold_request sel)) (is_up u)).store) {
            loading = false;
          })
          (run (hold_selection (inferred_direction giki sel) giki sel))
          u
  unfolding hold_selection hold_and_store
  hold_selection-rejected giki sel e u touches r = changed (
      either (λ b. cc (outbound_check_passes giki sel))
        (λ _.
          either (λ b. cc (inbound_check_passes giki sel touches))
            (λ _. failed r (hold_failed-Ends _ e _ _ refl))))

  module _ (P : Ui → Type 0) (ok : Unit {0} → Process) (err : Thrown → Process)
      (next : (s : Ui) → Ends w P (ok tt) s) (s : Ui) where
    pub fetch_data-Ends : Ends w P (fetch_data false ok err) s
    unfolding fetch_data fetch_and_store
    fetch_data-Ends =
        either (λ e. cc)
          (λ _.
            either_reply (λ found. read (changed (either (λ e. cc) (λ _. next _))))
              (λ e. changed (changed (either (λ e. cc) (λ _. next _)))))

  module _ (P : Ui → Type 0) (ok : Unit {0} → Process) (err : Thrown → Process) (s : Ui) where
    next_leg_toast-Ends :
        (d : Direction) (t : TransportState)
        → ((toasts : List Toast) → Ends w P (ok tt) (record s { toasts = toasts }))
        → Ends w P (next_leg_toast d t ok err) s
    next_leg_toast-Ends outbound t go = either (λ _. changed (go _)) (λ _. go s.toasts)
    next_leg_toast-Ends inbound t go = either (λ _. changed (go _)) (λ _. go s.toasts)

  pub hold_selection-fulfilled :
      (giki : Option TripStop) (sel : BookingSelection) (holds : List HeldSeat) (u : Ui)
      → touches_giki giki sel ≡ true
      → w.reply (hold_seats (hold_request sel)) ≡ fulfilled holds
      → Ends w
          (λ u'. IsBooked (inferred_direction giki sel) sel holds u'.store)
          (run (hold_selection (inferred_direction giki sel) giki sel))
          u
  unfolding hold_selection hold_and_store
  hold_selection-fulfilled giki sel holds u touches r = changed (
      either (λ b. cc (outbound_check_passes giki sel))
        (λ _.
          either (λ b. cc (inbound_check_passes giki sel touches))
            (λ _. got r (
              fetch_data-Ends _ _ _
                (λ s1. resumed (
                  read (
                    changed (
                      next_leg_toast-Ends _ _ _ _ (inferred_direction giki sel) _ (λ toasts.
                        changed (
                          ended (
                            stored-IsBooked (inferred_direction giki sel) sel _ holds _
                              (new_passengers_complete _ _ _ holds))))))))
                _))))
