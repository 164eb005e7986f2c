-- ===== src/Transport/Booking.antt =====
-- frontend/src/client/modules/transport/store.ts, the booking flow: `addSelection`,
-- `confirmBooking` and `cancelTicket`.
pub mod Seats
pub mod Outcomes
pub mod Adding
pub mod Confirming
pub mod Sent
pub mod Directions
use giki_wallet.Common.{
  ℕ, ◌==◌, ◌+◌, ◌-◌, String, Bool, true, false, not, ◌&&◌, ◌||◌, Option, none, some, List, [], ◌∷◌,
  map, codes, includes, find, keep, any, length, ltb, nat_eq, if◌then◌else◌, is_some,
}
use giki_wallet.Common.Maps.{lookup, insert, merge}
use giki_wallet.Errors.{Thrown, http_error, app_error, js_error, other, AppError}
use giki_wallet.Auth.User.{AuthUser}
use giki_wallet.Notices.{Toast, error, error_toast, success_toast, show, set_store}
use giki_wallet.Async.Act.{
  ◌>>=◌, ◌>>◌, return, throw, get, await, await_act, branch, when, try_catch, finally,
}
use giki_wallet.Transport.Data.{
  Trip, TripStop, QuotaUsage, QuotaResponse, ActiveHold, BookingSelection, BookingDraft, Passenger,
  self, guest, is_self, HeldSeat, HoldSeatsRequest, ConfirmItem, booking_selection_ok,
}
use giki_wallet.Transport.Stops.{get_giki_stop_object}
use giki_wallet.Transport.State.{
  Direction, outbound, inbound, TransportState, hold_seats, confirm_batch, cancel_ticket, Ui,
  Action,
}
use giki_wallet.Transport.Store.{
  set_loading, tell, fetch_data, fetch_user_tickets, reset_booking_flow,
}

abbrev pub is_outbound : Direction → Bool
is_outbound outbound = true
is_outbound inbound = false

-- `gikiStop && id === gikiStop.stop_id`.
abbrev pub at_giki : Option TripStop → String → Bool
at_giki none id = false
at_giki (some giki) id = id == giki.stop_id

-- `gikiStop && id !== gikiStop.stop_id`.
abbrev pub away_from_giki : Option TripStop → String → Bool
away_from_giki none id = false
away_from_giki (some giki) id = not (id == giki.stop_id)

unfoldable pub inferred_direction : Option TripStop → BookingSelection → Direction
inferred_direction giki sel = if at_giki giki sel.pickup_id then outbound else inbound

-- `currentData.passengers[id]?.relation === 'SELF'`.
abbrev pub travels_self : List (String × Passenger) → String → Bool
travels_self passengers id = elim (lookup id passengers) [
  | none ↦ false
  | some p ↦ is_self p.relation
]

abbrev pub guests : List HeldSeat → List (String × Passenger) → List (String × Passenger)
guests [] m = m
guests (h ∷ hs) m = guests hs (insert h.hold_id (record { name = ""; relation = guest }) m)

abbrev pub name_of : Option AuthUser → String
name_of none = ""
name_of (some u) = u.name

-- Whether some hold on the trip is already the user's own seat.
abbrev pub existing_self_on_trip : TransportState → String → Bool
existing_self_on_trip s trip_id =
    any (λ h. travels_self s.passengers h.id) (keep (λ h. h.trip_id == trip_id) s.active_holds)

-- `newPassengers`: guests on the new seats, and the user on the first, unless one of the seats
-- already held on the trip is the user's own.
unfoldable pub new_passengers :
    Option AuthUser → TransportState → String → List HeldSeat → List (String × Passenger)
unfolding lookup insert
new_passengers user s trip_id [] = []
new_passengers user s trip_id (h ∷ hs) =
    let all_guests = guests (h ∷ hs) [] in
    if existing_self_on_trip s trip_id
    then all_guests
    else insert h.hold_id (record { name = name_of user; relation = self }) all_guests

-- A selection as a draft: it has no `routeId` and no `stopId`.
abbrev pub as_draft : BookingSelection → BookingDraft
as_draft sel = record {
  route_id = none;
  trip_id = some sel.trip_id;
  pickup_id = some sel.pickup_id;
  dropoff_id = some sel.dropoff_id;
  stop_id = none;
  ticket_count = sel.ticket_count;
}

abbrev pub store_selection :
    Direction → BookingSelection → List (String × Passenger) → TransportState → TransportState
store_selection outbound sel added s = record s {
  outbound_selection = some sel;
  draft_outbound = as_draft sel;
  passengers = merge s.passengers added;
  direction = if s.is_round_trip && not (is_some s.return_selection) then inbound else outbound;
}
store_selection inbound sel added s = record s {
  return_selection = some sel;
  draft_inbound = as_draft sel;
  passengers = merge s.passengers added;
  direction = if s.is_round_trip && not (is_some s.outbound_selection) then outbound else inbound;
}

-- The toast after a first leg of a round trip.
abbrev pub next_leg_toast : Direction → TransportState → Action (Unit {0})
next_leg_toast outbound s =
    when (s.is_round_trip && not (is_some s.return_selection))
      (show (success_toast "Outbound seat held! Now select Return trip."))
next_leg_toast inbound s =
    when (s.is_round_trip && not (is_some s.outbound_selection))
      (show (success_toast "Return seat held! Now select Outbound trip."))

abbrev pub hold_request : BookingSelection → HoldSeatsRequest
hold_request sel = record {
  trip_id = sel.trip_id;
  count = sel.ticket_count;
  pickup_stop_id = sel.pickup_id;
  dropoff_stop_id = sel.dropoff_id;
}

-- The `try` block, after the direction has been checked.
unfoldable pub hold_and_store : Direction → BookingSelection → Action (Unit {0})
hold_and_store direction sel = do
  holds ← await (hold_seats (hold_request sel))
  await_act (fetch_data false)
  u ← get
  set_store (store_selection direction sel (new_passengers u.user u.store sel.trip_id holds))
  next_leg_toast direction u.store

-- The `catch` block.
unfoldable pub hold_failed : Direction → Thrown → Action (Unit {0})
hold_failed direction e = do
  u ← get
  branch
      (u.store.is_round_trip && not (is_outbound direction) && ltb 0 (length u.store.active_holds))
      (show (record {
        kind = error;
        message = "Return trip is sold out";
        description = some "You still have your Outbound seat held.";
      }))
      (tell e)

unfoldable pub hold_selection : Direction → Option TripStop → BookingSelection → Action (Unit {0})
hold_selection direction giki sel = do
  set_loading true
  finally
      (try_catch
        (branch (is_outbound direction && away_from_giki giki sel.pickup_id)
          (show (error_toast "Outbound trips must pick up from GIKI") >> set_loading false)
          (branch (not (is_outbound direction) && away_from_giki giki sel.dropoff_id)
            (show (error_toast "Inbound trips must drop off at GIKI") >> set_loading false)
            (hold_and_store direction sel)))
        (hold_failed direction))
      (set_loading false)

-- `find` of the trip, and what follows.
unfoldable pub select_on : Option Trip → BookingSelection → Action (Unit {0})
select_on none sel = show (error_toast "Trip not found")
select_on (some trip) sel =
    let giki = get_giki_stop_object trip.stops in
    hold_selection (inferred_direction giki sel) giki sel

unfoldable pub add_selection : (String → Bool) → BookingSelection → Action (Unit {0})
add_selection is_uuid sel =
    branch (booking_selection_ok is_uuid sel)
      (do u ← get; select_on (find (λ t. t.id == sel.trip_id) u.store.all_trips) sel)
      (show (error_toast "Invalid booking selection"))

-- "Keep It" in the toast of a return trip that is sold out.
unfoldable pub keep_outbound : Action (Unit {0})
keep_outbound =
    set_store (λ s. record s { is_round_trip = false; direction = outbound })
    >> show (success_toast "Switched to One-Way trip")

pub record Confirmation : Type 0 where
  pub hold_id : String
  pub passenger_name : String
  pub passenger_relation : String

abbrev pub confirm_item : Confirmation → ConfirmItem
confirm_item c = record {
  hold_id = c.hold_id;
  passenger_name = c.passenger_name;
  passenger_relation = c.passenger_relation;
}

-- `activeHolds.find(h => h.id === c.holdId)?.direction === text`.
abbrev pub hold_goes : List ActiveHold → String → Confirmation → Bool
hold_goes holds text c = elim (find (λ h. h.id == c.hold_id) holds) [
  | none ↦ false
  | some h ↦ h.direction == text
]

unfoldable pub leg_count : List ActiveHold → String → List Confirmation → ℕ
leg_count holds text cs = length (keep (hold_goes holds text) cs)

-- `remaining` is a natural number, so the source's `Math.max(0, remaining - n)` is `remaining - n`.
unfoldable pub use_quota : ℕ → QuotaUsage → QuotaUsage
use_quota n q = record q { used = q.used + n; remaining = q.remaining - n }

-- The optimistic update of the quota.
unfoldable pub spend : Option QuotaResponse → ℕ → ℕ → Action (Unit {0})
unfolding use_quota
spend none out back = return tt
spend (some q) out back = set_store (λ s. record s {
  quota = some (record { outbound = use_quota out q.outbound; inbound = use_quota back q.inbound });
})

unfoldable pub confirm_booking : List Confirmation → Action (Unit {0})
confirm_booking [] = return tt
confirm_booking (c ∷ cs) = do
  set_loading true
  finally
      (try_catch
        (do
          u ← get
          _ ← await (confirm_batch (map confirm_item (c ∷ cs)))
          spend u.store.quota (leg_count u.store.active_holds "OUTBOUND" (c ∷ cs))
              (leg_count u.store.active_holds "INBOUND" (c ∷ cs))
          await_act (fetch_data false)
          show (success_toast "Booking confirmed!")
          reset_booking_flow)
        (λ e. tell e >> throw e))
      (set_loading false)

-- The cancellation was refused because it is too late.
unfoldable pub too_late : Thrown → Bool
too_late (app_error e) =
    nat_eq e.status_code 400
    && (e.code == "CANCELLATION_CLOSED" || includes (codes "closed") (codes e.message))
too_late _ = false

unfoldable pub cancel_user_ticket : String → Action (Unit {0})
cancel_user_ticket ticket_id = do
  set_loading true
  finally
      (try_catch
        (do
          _ ← await (cancel_ticket ticket_id)
          await_act fetch_user_tickets
          await_act (fetch_data false)
          show (success_toast "Ticket cancelled successfully"))
        (λ e.
          branch (too_late e)
            (show (record {
              kind = error;
              message = "Too late to cancel!";
              description = some "The bus is departing soon or booking window has closed.";
            }))
            (tell e)))
      (set_loading false)
