-- ===== src/Transport/Holds.antt =====
-- The held seats on the pages of frontend/src/client/modules/transport: the timer of hooks.ts, and
-- what pages/TransportPage.tsx makes of the holds, the selections and the trips.
--
-- `time_of` is `new Date(text).getTime()`, and times are milliseconds.
pub mod Timer
mod Tests
use Prim.Native.String.{◌++◌}
use giki_wallet.Common.{
  ℕ, ◌-◌, ◌/◌, ◌==◌, String, Bool, true, false, not, ◌&&◌, Option, none, some, List, [], ◌∷◌, map,
  codes, codes_eq, upper, includes, find, keep, any, leb, ltb, nat_eq, str_or, is_some,
  if◌then◌else◌, length,
}
use giki_wallet.Common.Maps.{lookup}
use giki_wallet.Common.Sorting.{sort_by}
use giki_wallet.Auth.User.{AuthUser, AuthUserType, student}
use giki_wallet.Transport.Data.{
  Trip, TripStop, ActiveHold, Passenger, Relation, self, spouse, child, parent, guest, HeldSeat,
  BookingSelection, MyTicket,
}
use giki_wallet.Transport.State.{TransportState}
use giki_wallet.Transport.Store.{can_proceed}
use giki_wallet.Transport.Stops.{has_id}
use giki_wallet.Transport.Booking.{Confirmation}
use giki_wallet.Transport.Grid.{is_trip}

-- `user?.user_type === 'STUDENT'`.
abbrev pub is_student : AuthUserType → Bool
is_student student = true
is_student _ = false

abbrev pub student_user : Option AuthUser → Bool
student_user none = false
student_user (some u) = is_student u.user_type

-- How the page waits for the next trips that open: not at all, by asking every 30 seconds, or by
-- asking once after a delay.
pub data Refresh : Type 0 where
  none_planned poll : Refresh
  once_after : ℕ → Refresh

module _ (time_of : String → ℕ) where
  abbrev pub sooner : ActiveHold → ActiveHold → ActiveHold
  sooner prev curr = if ltb (time_of prev.expires_at) (time_of curr.expires_at) then prev else curr

  -- `holds.reduce(...)` from a first hold on.
  unfoldable pub soonest : ActiveHold → List ActiveHold → ActiveHold
  soonest prev [] = prev
  soonest prev (curr ∷ rest) = soonest (sooner prev curr) rest

  -- `Math.max(0, Math.floor((expiry - now) / 1000))`.
  abbrev pub seconds_left : ℕ → ActiveHold → ℕ
  seconds_left now h = (time_of h.expires_at - now) / 1000

  -- What `useHoldTimer` shows at a moment.
  unfoldable pub time_left : List ActiveHold → ℕ → ℕ
  unfolding soonest
  time_left [] now = 0
  time_left (h ∷ rest) now = seconds_left now (soonest h rest)

  -- The condition of the effect that gives up an expired reservation, at its second look.
  unfoldable pub has_expired : TransportState → ℕ → ℕ → Bool
  has_expired s shown now =
      not (nat_eq (length s.active_holds) 0)
      && nat_eq shown 0
      && not s.loading
      && s.initialized
      && any (λ h. ltb (time_of h.expires_at) now) s.active_holds

  abbrev pub opens_at : Trip → ℕ
  opens_at t = time_of t.booking_opens_at

  -- `upcomingOpenings`.
  unfoldable pub upcoming_openings : ℕ → List Trip → List Trip
  unfolding sort_by
  upcoming_openings now trips =
      sort_by opens_at
        (keep (λ t. ltb now (opens_at t)) (keep (λ t. t.status == "SCHEDULED") trips))

  -- From the first opening on.
  abbrev pub refresh_for : ℕ → List Trip → Refresh
  refresh_for now [] = none_planned
  refresh_for now (first ∷ later) =
      let wait = opens_at first - now in if leb wait 300000 then poll else once_after wait

  unfoldable pub auto_refresh : TransportState → ℕ → Refresh
  unfolding upcoming_openings
  auto_refresh s now =
      if s.loading
      then none_planned
      else if not s.initialized
      then none_planned
      else refresh_for now (upcoming_openings now s.all_trips)

  -- `upcomingTickets` of pages/TicketsPage.tsx: a ticket is listed until three hours after its
  -- departure, `cutoff` being `now` less three hours.
  unfoldable pub upcoming_tickets : ℕ → List MyTicket → List MyTicket
  unfolding sort_by
  upcoming_tickets now tickets =
      sort_by (λ t. time_of t.departure_time)
        (keep
          (λ t.
            not (t.status == "CANCELLED") && not (ltb (time_of t.departure_time) (now - 10800000)))
          tickets)

-- `next.pathname.includes('/transport/passengers')`: where the held seats may be taken to.
unfoldable pub blocks_leaving : List ActiveHold → String → String → Bool
blocks_leaving holds current next =
    not (nat_eq (length holds) 0)
    && not (current == next)
    && not (includes (codes "/transport/passengers") (codes next))

-- What the page does next.
pub data NextStep : Type 0 where
  nothing show_modal : NextStep
  go_to : String → NextStep

abbrev pub confirm_step : Bool → NextStep
confirm_step true = show_modal
confirm_step false = go_to "/transport/passengers"

-- `handleBook`, after `addSelection` has returned.
unfoldable pub after_selection : Option AuthUser → TransportState → NextStep
after_selection user s =
    if s.is_round_trip
    then if is_some s.outbound_selection && is_some s.return_selection
      then confirm_step (student_user user)
      else nothing
    else confirm_step (student_user user)

-- The button under the trips.
unfoldable pub proceed : Option AuthUser → TransportState → NextStep
unfolding can_proceed
proceed user s = if can_proceed s then confirm_step (student_user user) else nothing

abbrev pub relation_text : Relation → String
relation_text self = "SELF"
relation_text spouse = "SPOUSE"
relation_text child = "CHILD"
relation_text parent = "PARENT"
relation_text guest = "GUEST"

abbrev pub user_name : Option AuthUser → String
user_name none = ""
user_name (some u) = u.name

-- `{ holdId, passengerName, passengerRelation }` for a hold with or without a passenger.
abbrev pub confirmation : Option AuthUser → String → Option Passenger → Confirmation
confirmation user id none = record {
  hold_id = id;
  passenger_name = user_name user;
  passenger_relation = "SELF";
}
confirmation user id (some p) = record {
  hold_id = id;
  passenger_name = str_or p.name (user_name user);
  passenger_relation = relation_text p.relation;
}

-- `confirmations` of `handleConfirmBooking`.
unfoldable pub confirmations : Option AuthUser → TransportState → List Confirmation
unfolding lookup
confirmations user s = map (λ h. confirmation user h.id (lookup h.id s.passengers)) s.active_holds

pub record TripSummary : Type 0 where
  pub route : String
  pub departure_time : String
  pub pickup : String
  pub dropoff : String
  pub seats : ℕ
  pub price_each : ℕ

abbrev pub name_or_unknown : Option TripStop → String
name_or_unknown none = "Unknown"
name_or_unknown (some s) = str_or s.stop_name "Unknown"

abbrev pub summary_of : BookingSelection → Option Trip → Option TripSummary
summary_of sel none = none
summary_of sel (some t) = some (record {
  route = t.route_name;
  departure_time = t.departure_time;
  pickup = name_or_unknown (find (has_id sel.pickup_id) t.stops);
  dropoff = name_or_unknown (find (has_id sel.dropoff_id) t.stops);
  seats = sel.ticket_count;
  price_each = t.base_price;
})

-- `getTripSummary`, with the departure as the server's text.
unfoldable pub get_trip_summary : List Trip → Option BookingSelection → Option TripSummary
get_trip_summary all_trips none = none
get_trip_summary all_trips (some sel) = summary_of sel (find (is_trip sel.trip_id) all_trips)

abbrev pub held_seat : ActiveHold → HeldSeat
held_seat h = record { hold_id = h.id; expires_at = h.expires_at }

-- `outboundHolds` and `returnHolds`, by the direction's word.
unfoldable pub holds_going : String → List ActiveHold → List HeldSeat
holds_going word holds = map held_seat (keep (λ h. codes_eq (upper h.direction) (codes word)) holds)
