-- ===== src/Transport/Page/Loading.antt =====
-- The flag `loading` of the booking store, over every interleaving.
use giki_wallet.Common.{◌≡◌, List, [], ◌∷◌, Bool, true, false, ℕ, refl, Option, none, some, String}
use giki_wallet.Async.{stop, Config, Reach}
use giki_wallet.Errors.{Thrown}
use giki_wallet.Async.Act.{run}
use giki_wallet.Async.Flags.{
  Pays, stopped, looked, kept, tested, raised, lowered, paused, Reach-lowered,
}
use giki_wallet.Async.Rules.{awaited}
use giki_wallet.Auth.User.{AuthUser}
use giki_wallet.Transport.Data.{QuotaResponse, BookingSelection, Passenger, TripStop, Trip}
use giki_wallet.Transport.State.{
  Ui, Process, Direction, outbound, inbound, TransportState, initial_state, Request, Answer,
}
use giki_wallet.Transport.Store.{
  set_round_trip, set_direction, update_passenger, reset_booking_flow, update_draft, fetch_data,
  fetch_and_store, fetch_user_tickets, release_all_holds,
}
use giki_wallet.Transport.Page.{
  UiEvent, round_trip_toggled, direction_chosen, passenger_edited, flow_reset, draft_edited,
  data_wanted, tickets_wanted, holds_released, selection_added, outbound_kept, booking_confirmed,
  ticket_cancelled, action_of, any_user,
}
use giki_wallet.Transport.Booking.{
  spend, next_leg_toast, store_selection, hold_selection, hold_and_store, hold_failed, select_on,
  add_selection, keep_outbound, Confirmation, confirm_booking, cancel_user_ticket,
}

abbrev is_loading : Ui → Bool
is_loading u = u.store.loading

module _ (owes : Bool) (ok : Unit {0} → Process) (err : Thrown → Process)
    (next : (s : Ui) → Pays is_loading owes (ok tt) s) (s : Ui) where
  -- Without its own `loading`, fetching changes nothing about the flag.
  fetch_data_quiet : Pays is_loading owes (fetch_data false ok err) s
  unfolding fetch_data fetch_and_store
  fetch_data_quiet =
      tested (λ e. cc)
        (λ _.
          awaited (λ found s'. looked (kept refl (tested (λ e. cc) (λ _. next _))))
            (λ e s'. kept refl (kept refl (tested (λ e. cc) (λ _. next _)))))

  fetch_user_tickets_quiet : Pays is_loading owes (fetch_user_tickets ok err) s
  unfolding fetch_user_tickets
  fetch_user_tickets_quiet = awaited (λ found s'. kept refl (next _)) (λ e s'. next s')

abbrev IsHonest : Process → Type 0
IsHonest p = (s : Ui) → Pays is_loading false p s

fetch_data-IsHonest : (b : Bool) → IsHonest (run (fetch_data b))
unfolding fetch_data fetch_and_store
fetch_data-IsHonest true s =
    tested
      (λ _. raised (
        awaited (λ found s'. looked (raised (tested (λ _. lowered refl stopped) (λ e. cc))))
          (λ e s'. raised (raised (tested (λ _. lowered refl stopped) (λ e. cc))))))
      (λ e. cc)
fetch_data-IsHonest false s = fetch_data_quiet false (λ _. stop) (λ _. stop) (λ s. stopped) s

release_all_holds-IsHonest : IsHonest (run release_all_holds)
unfolding release_all_holds reset_booking_flow
release_all_holds-IsHonest s = raised (
    awaited
      (λ found.
        fetch_data_quiet true _ _
          (λ s1. paused (λ s2. kept refl (kept refl (lowered refl stopped)))))
      (λ e s'. kept refl (lowered refl stopped)))

set_round_trip-IsHonest : (b : Bool) → IsHonest (run (set_round_trip b))
unfolding set_round_trip
set_round_trip-IsHonest b s = looked (
    tested (λ _. kept refl stopped)
      (λ _. tested (λ _. kept refl (kept refl stopped)) (λ _. kept refl stopped)))

spend_quiet :
    (q : Option QuotaResponse) (out back : ℕ) (ok : Unit {0} → Process) (err : Thrown → Process)
    → ((s : Ui) → Pays is_loading true (ok tt) s)
    → (s : Ui) → Pays is_loading true (spend q out back ok err) s
unfolding spend
spend_quiet none out back ok err next s = next s
spend_quiet (some q) out back ok err next s = kept refl (next _)

confirm_booking-IsHonest : (cs : List Confirmation) → IsHonest (run (confirm_booking cs))
unfolding confirm_booking reset_booking_flow
confirm_booking-IsHonest [] s = stopped
confirm_booking-IsHonest (c ∷ cs) s = raised (
    looked (
      awaited
        (λ found. spend_quiet _ _ _ _ _ (
          fetch_data_quiet true _ _
            (λ s1. paused (λ s2. kept refl (kept refl (lowered refl stopped))))))
        (λ e s'. kept refl (lowered refl stopped))))

cancel_user_ticket-IsHonest : (id : String) → IsHonest (run (cancel_user_ticket id))
unfolding cancel_user_ticket
cancel_user_ticket-IsHonest id s = raised (
    awaited
      (λ found. fetch_user_tickets_quiet true _ _ (λ s1.
        paused (fetch_data_quiet true _ _ (λ s1. paused (λ s2. kept refl (lowered refl stopped))))))
      (λ e s'.
        tested (λ _. kept refl (lowered refl stopped)) (λ _. kept refl (lowered refl stopped))))

next_leg_quiet :
    (d : Direction) (t : TransportState) (ok : Unit {0} → Process) (err : Thrown → Process)
    → ((s : Ui) → Pays is_loading true (ok tt) s)
    → (s : Ui) → Pays is_loading true (next_leg_toast d t ok err) s
next_leg_quiet outbound t ok err next s = tested (λ _. kept refl (next _)) (λ _. next s)
next_leg_quiet inbound t ok err next s = tested (λ _. kept refl (next _)) (λ _. next s)

store_selection_quiet :
    (d : Direction) (sel : BookingSelection) (added : List (String × Passenger))
    (t : TransportState)
    → (store_selection d sel added t).loading ≡ t.loading
store_selection_quiet outbound sel added t = refl
store_selection_quiet inbound sel added t = refl

hold_selection-Pays :
    (d : Direction) (giki : Option TripStop) (sel : BookingSelection) (s : Ui)
    → Pays is_loading false (run (hold_selection d giki sel)) s
unfolding hold_selection hold_and_store hold_failed
hold_selection-Pays d giki sel s = raised (
    tested (λ _. raised (raised (lowered refl stopped)))
      (λ _.
        tested (λ _. raised (raised (lowered refl stopped)))
          (λ _.
            awaited
              (λ holds. fetch_data_quiet true _ _ (λ s1. paused (λ s2. looked (
                kept (store_selection_quiet d sel _ s2.store)
                  (next_leg_quiet d s2.store _ _ (λ s3. lowered refl stopped) _)))))
              (λ e s'. looked (
                tested (λ _. kept refl (lowered refl stopped))
                  (λ _. kept refl (lowered refl stopped)))))))

select_on-Pays :
    (t : Option Trip) (sel : BookingSelection) (s : Ui)
    → Pays is_loading false (run (select_on t sel)) s
unfolding select_on
select_on-Pays none sel s = kept refl stopped
select_on-Pays (some trip) sel s = hold_selection-Pays _ _ sel s

module _ (is_uuid : String → Bool) where
  action-IsHonest : (e : UiEvent) → IsHonest (action_of is_uuid e)
  unfolding set_direction update_passenger reset_booking_flow update_draft keep_outbound
      add_selection
  action-IsHonest (round_trip_toggled b) = set_round_trip-IsHonest b
  action-IsHonest (direction_chosen d) = λ s. kept refl stopped
  action-IsHonest (passenger_edited id p) = λ s. kept refl stopped
  action-IsHonest flow_reset = λ s. kept refl stopped
  action-IsHonest (draft_edited outbound p) = λ s. kept refl stopped
  action-IsHonest (draft_edited inbound p) = λ s. kept refl stopped
  action-IsHonest (data_wanted b) = fetch_data-IsHonest b
  action-IsHonest tickets_wanted =
      fetch_user_tickets_quiet false (λ _. stop) (λ _. stop) (λ s. stopped)
  action-IsHonest holds_released = release_all_holds-IsHonest
  action-IsHonest (selection_added sel) =
      λ s. tested (λ _. looked (select_on-Pays _ sel s)) (λ _. kept refl stopped)
  action-IsHonest outbound_kept = λ s. kept refl (kept refl stopped)
  action-IsHonest (booking_confirmed cs) = confirm_booking-IsHonest cs
  action-IsHonest (ticket_cancelled id) = cancel_user_ticket-IsHonest id

  -- However the actions of the booking store overlap, and whatever the server answers: from the
  -- initial state, whenever no action waits any more, `loading` is false.
  pub loading_settles :
      (user : Option AuthUser) (d : Config Ui Request Answer)
      → Reach
          (any_user is_uuid)
          (record {
            store = record { store = initial_state; user = user; toasts = [] };
            waiting = [];
          })
          d
      → d.waiting ≡ []
      → d.store.store.loading ≡ false
  loading_settles user d r idle =
      Reach-lowered is_loading (any_user is_uuid)
        (λ p starts s. rw starts.1 (action-IsHonest starts.0 s)) (λ s s' same up. rw same at up) r
        refl idle
