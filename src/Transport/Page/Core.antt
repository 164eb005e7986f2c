-- ===== src/Transport/Page/Core.antt =====
-- Properties of the trips, the user and the selections of the booking store that every action keeps.
-- Of all the changes that the actions make, three concern these fields: data is fetched, a valid
-- selection is stored, and the flow is reset.
use giki_wallet.Common.{◌≡◌, List, [], ◌∷◌, Bool, true, false, keep, ℕ, Option, none, some, String}
use giki_wallet.Errors.{Thrown}
use giki_wallet.Async.{stop, fulfilled, rejected}
use giki_wallet.Async.Act.{run}
use giki_wallet.Async.Invariants.{Keeps}
use giki_wallet.Auth.User.{AuthUser}
use giki_wallet.Transport.Data.{
  QuotaResponse, BookingSelection, Passenger, TripStop, Trip, booking_selection_ok,
}
use giki_wallet.Transport.State.{Ui, Process, Direction, outbound, inbound, TransportState}
use giki_wallet.Transport.Store.{
  set_round_trip, set_direction, update_passenger, reset_booking_flow, update_draft, fetch_data,
  fetch_and_store, fetch_user_tickets, release_all_holds, sees, trips_or_empty,
}
use giki_wallet.Transport.Page.{
  UiEvent, round_trip_toggled, direction_chosen, passenger_edited, flow_reset, draft_edited,
  data_wanted, tickets_wanted, holds_released, selection_added, outbound_kept, booking_confirmed,
  ticket_cancelled, action_of,
}
use giki_wallet.Transport.Booking.{
  spend, next_leg_toast, store_selection, hold_selection, hold_and_store, hold_failed, select_on,
  add_selection, keep_outbound, Confirmation, confirm_booking, cancel_user_ticket,
}

pub record Core : Type 0 where
  pub user : Option AuthUser
  pub trips : List Trip
  pub out : Option BookingSelection
  pub back : Option BookingSelection

abbrev pub core : Ui → Core
core u = record {
  user = u.user;
  trips = u.store.all_trips;
  out = u.store.outbound_selection;
  back = u.store.return_selection;
}

module _ (is_uuid : String → Bool) (P : Core → Type 0)
    (fetched : (c : Core) (found : List Trip)
      → P c
      → P (record c { trips = keep (sees c.user) found }))
    (chosen_out : (c : Core) (sel : BookingSelection)
      → booking_selection_ok is_uuid sel ≡ true
      → P c
      → P (record c { out = some sel }))
    (chosen_back : (c : Core) (sel : BookingSelection)
      → booking_selection_ok is_uuid sel ≡ true
      → P c
      → P (record c { back = some sel }))
    (cleared : (c : Core) → P c → P (record c { out = none; back = none })) where
  abbrev pub Inv : Ui → Type 0
  Inv u = P (core u)

  abbrev pub Goes : (Unit {0} → Process) → Type 0
  Goes ok = (s : Ui) → Inv s → Keeps Inv (ok tt) s Inv

  module _ (ok : Unit {0} → Process) (err : Thrown → Process) (next : Goes ok) (s : Ui)
      (i : Inv s) where
    fetch_and_store-Keeps : Keeps Inv (fetch_and_store ok err) s Inv
    unfolding fetch_and_store
    fetch_and_store-Keeps = (
      i,
      elim [
        | fulfilled found ↦ λ s' i'. next _ (fetched (core s') (trips_or_empty found.0) i')
        | rejected e ↦ λ s' i'. next _ i'
      ],
    )

    fetch_user_tickets-Keeps : Keeps Inv (fetch_user_tickets ok err) s Inv
    unfolding fetch_user_tickets
    fetch_user_tickets-Keeps =
        (i, elim [ fulfilled found ↦ λ s' i'. next _ i' | rejected e ↦ λ s' i'. next _ i' ])

    next_leg-Keeps :
        (d : Direction) (t : TransportState) → Keeps Inv (next_leg_toast d t ok err) s Inv
    next_leg-Keeps outbound t = ((λ _. next _ i), (λ _. next _ i))
    next_leg-Keeps inbound t = ((λ _. next _ i), (λ _. next _ i))

    spend-Keeps : (q : Option QuotaResponse) (m n : ℕ) → Keeps Inv (spend q m n ok err) s Inv
    unfolding spend
    spend-Keeps none m n = next _ i
    spend-Keeps (some q) m n = next _ i

  fetch_data-Keeps :
      (b : Bool) (ok : Unit {0} → Process) (err : Thrown → Process)
      → Goes ok
      → Goes (λ _. fetch_data b ok err)
  unfolding fetch_data
  fetch_data-Keeps b ok err next s i = (
    (λ _. fetch_and_store-Keeps _ _ (λ s' i'. ((λ _. next _ i'), (λ _. next _ i'))) _ i),
    (λ _. fetch_and_store-Keeps _ _ (λ s' i'. ((λ _. next _ i'), (λ _. next _ i'))) _ i),
  )

  release_all_holds-Keeps : Goes (λ _. run release_all_holds)
  unfolding release_all_holds reset_booking_flow
  release_all_holds-Keeps s i = (
    i,
    elim [
      | fulfilled found ↦ fetch_data-Keeps false _ _ (λ s1 i1. (i1, λ s2 i2. cleared (core s2) i2))
      | rejected e ↦ λ s' i'. i'
    ],
  )

  set_round_trip-Keeps : (b : Bool) → Goes (λ _. run (set_round_trip b))
  unfolding set_round_trip
  set_round_trip-Keeps b s i = ((λ _. i), (λ _. ((λ _. i), (λ _. i))))

  confirm_booking-Keeps : (cs : List Confirmation) → Goes (λ _. run (confirm_booking cs))
  unfolding confirm_booking reset_booking_flow
  confirm_booking-Keeps [] s i = i
  confirm_booking-Keeps (c ∷ cs) s i = (
    i,
    elim [
      | fulfilled found ↦ λ s' i'.
          spend-Keeps _ _
            (fetch_data-Keeps false _ _ (λ s1 i1. (i1, λ s2 i2. cleared (core s2) i2))) s' i' _ _ _
      | rejected e ↦ λ s' i'. i'
    ],
  )

  cancel_user_ticket-Keeps : (id : String) → Goes (λ _. run (cancel_user_ticket id))
  unfolding cancel_user_ticket
  cancel_user_ticket-Keeps id s i = (
    i,
    elim [
      | fulfilled found ↦
          fetch_user_tickets-Keeps _ _
            (λ s1 i1. (i1, fetch_data-Keeps false _ _ (λ s2 i2. (i2, λ s3 i3. i3))))
      | rejected e ↦ λ s' i'. ((λ _. i'), (λ _. i'))
    ],
  )

  module _ (sel : BookingSelection) (valid : booking_selection_ok is_uuid sel ≡ true) where
    store_selection-Inv :
        (d : Direction) (added : List (String × Passenger)) (s : Ui)
        → Inv s
        → Inv (record s { store = store_selection d sel added s.store })
    store_selection-Inv outbound added s i = chosen_out (core s) sel valid i
    store_selection-Inv inbound added s i = chosen_back (core s) sel valid i

    hold_selection-Keeps :
        (d : Direction) (giki : Option TripStop) → Goes (λ _. run (hold_selection d giki sel))
    unfolding hold_selection hold_and_store hold_failed
    hold_selection-Keeps d giki s i = (
      (λ _. i),
      λ _. (
        (λ _. i),
        λ _. (
          i,
          elim [
            | fulfilled holds ↦ fetch_data-Keeps false _ _ (λ s1 i1. (
              i1,
              λ s2 i2. next_leg-Keeps _ _ (λ s3 i3. i3) _ (store_selection-Inv d _ s2 i2) d _,
            ))
            | rejected e ↦ λ s' i'. ((λ _. i'), (λ _. i'))
          ],
        ),
      ),
    )

    select_on-Keeps : (t : Option Trip) → Goes (λ _. run (select_on t sel))
    unfolding select_on
    select_on-Keeps none s i = i
    select_on-Keeps (some trip) s i = hold_selection-Keeps _ _ s i

  pub action-Keeps : (e : UiEvent) → Goes (λ _. action_of is_uuid e)
  unfolding set_direction update_passenger reset_booking_flow update_draft keep_outbound
      add_selection
  action-Keeps (round_trip_toggled b) = set_round_trip-Keeps b
  action-Keeps (direction_chosen d) = λ s i. i
  action-Keeps (passenger_edited id p) = λ s i. i
  action-Keeps flow_reset = λ s i. cleared (core s) i
  action-Keeps (draft_edited outbound p) = λ s i. i
  action-Keeps (draft_edited inbound p) = λ s i. i
  action-Keeps (data_wanted b) = fetch_data-Keeps b (λ _. stop) (λ _. stop) (λ s i. i)
  action-Keeps tickets_wanted = fetch_user_tickets-Keeps (λ _. stop) (λ _. stop) (λ s i. i)
  action-Keeps holds_released = release_all_holds-Keeps
  action-Keeps (selection_added sel) = λ s i. ((λ valid. select_on-Keeps sel valid _ s i), (λ _. i))
  action-Keeps outbound_kept = λ s i. i
  action-Keeps (booking_confirmed cs) = confirm_booking-Keeps cs
  action-Keeps (ticket_cancelled id) = cancel_user_ticket-Keeps id
