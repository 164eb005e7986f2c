-- ===== src/Transport/Card.antt =====
-- frontend/src/client/modules/transport/components/RouteCard.tsx: the card of one route, on which a
-- trip, a stop and a number of tickets are chosen.
--
-- `time_of` is `new Date(text).getTime()`. The texts that are shown keep their numbers but are not
-- printed.
pub mod Tickets
pub mod Offers
mod Tests
use giki_wallet.Common.{
  ℕ, ◌+◌, ◌-◌, ◌/◌, ◌%◌, ◌≡◌, ◌==◌, String, Bool, true, false, not, ◌&&◌, ◌||◌, Option, none, some,
  List, [], ◌∷◌, map, codes, includes, find, keep, any, leb, ltb, nat_eq, if◌then◌else◌,
}
use giki_wallet.Transport.Data.{Trip, TripStop, ActiveHold, QuotaUsage}
use giki_wallet.Transport.Stops.{StopOption, stop_option}

pub record CardProps : Type 0 where
  pub trips : List Trip
  pub active_holds : List ActiveHold
  pub is_student : Bool
  pub quota : Option QuotaUsage

pub record CardState : Type 0 where
  pub selected_trip_id : Option String
  pub selected_stop_id : Option String
  pub ticket_count : ℕ
  pub current_time : ℕ

abbrev pub initial_card : ℕ → CardState
initial_card now = record {
  selected_trip_id = none;
  selected_stop_id = none;
  ticket_count = 1;
  current_time = now;
}

-- A text or `null` as a condition.
abbrev pub truthy : Option String → Bool
truthy none = false
truthy (some text) = not (text == "")

-- What `getTimeRemaining` says.
pub data Remaining : Type 0 where
  opening_soon : Remaining
  in_days_hours in_hours_minutes : ℕ → ℕ → Remaining
  in_minutes : ℕ → Remaining

-- From the whole minutes on.
abbrev pub remaining_of : ℕ → Remaining
remaining_of total_minutes =
    let hours = total_minutes / 60 in
    let days = hours / 24 in
    if ltb 0 days
    then in_days_hours days (hours % 24)
    else if ltb 0 hours
    then in_hours_minutes hours (total_minutes % 60)
    else if ltb 0 total_minutes
    then in_minutes total_minutes
    else opening_soon

-- `diff <= 60000` without negative numbers.
unfoldable pub get_time_remaining : (String → ℕ) → ℕ → String → Remaining
get_time_remaining time_of now opens_at =
    let open_time = time_of opens_at in
    if leb open_time (now + 60000) then opening_soon else remaining_of ((open_time - now) / 60000)

abbrev pub is_selected : Option String → Trip → Bool
is_selected none t = false
is_selected (some id) t = t.id == id

abbrev pub selected_trip : CardProps → CardState → Option Trip
selected_trip p s = find (is_selected s.selected_trip_id) p.trips

-- `s.stop_name.includes('GIKI')`.
abbrev pub names_giki : TripStop → Bool
names_giki s = includes (codes "GIKI") (codes s.stop_name)

unfoldable pub stop_options : Option Trip → List StopOption
stop_options none = []
stop_options (some t) = map stop_option (keep (λ s. not (names_giki s)) t.stops)

-- The stop is chosen by itself if only one is offered.
abbrev pub choose_only : CardState → List StopOption → CardState
choose_only s (only ∷ []) =
    if not (truthy s.selected_stop_id) then record s { selected_stop_id = some only.value } else s
choose_only s options = s

unfoldable pub auto_select : CardProps → CardState → CardState
auto_select p s = choose_only s (stop_options (selected_trip p s))

abbrev pub is_held : CardProps → Option Trip → Bool
is_held p none = false
is_held p (some t) = any (λ h. h.trip_id == t.id) p.active_holds

abbrev pub trip_full : Trip → Bool
trip_full t = leb t.available_seats 0 || t.status == "FULL"

abbrev pub is_full : Option Trip → Bool
is_full none = false
is_full (some t) = trip_full t

abbrev pub has_status : String → Option Trip → Bool
has_status status none = false
has_status status (some t) = t.status == status

abbrev pub is_scheduled : Option Trip → Bool
is_scheduled t = has_status "SCHEDULED" t

abbrev pub is_closed : Option Trip → Bool
is_closed t = has_status "CLOSED" t

abbrev pub min : ℕ → ℕ → ℕ
min a b = if leb a b then a else b

abbrev pub max : ℕ → ℕ → ℕ
max a b = if leb a b then b else a

abbrev pub quota_remaining : Option QuotaUsage → ℕ
quota_remaining none = 3
quota_remaining (some q) = q.remaining

abbrev pub seats_of : Option Trip → ℕ
seats_of none = 0
seats_of (some t) = t.available_seats

unfoldable pub max_tickets : CardProps → Option Trip → ℕ
max_tickets p t = min 3 (min (seats_of t) (quota_remaining p.quota))

-- The arguments of `onBook`.
pub record Booked : Type 0 where
  pub trip_id : String
  pub stop_id : String
  pub count : ℕ

abbrev pub booked : Option String → Option String → ℕ → Option Booked
booked (some trip_id) (some stop_id) count =
    if trip_id == "" || stop_id == ""
    then none
    else some (record { trip_id = trip_id; stop_id = stop_id; count = count })
booked trip stop count = none

unfoldable pub can_book : CardProps → CardState → Bool
can_book p s =
    let t = selected_trip p s in
    truthy s.selected_trip_id
    && truthy s.selected_stop_id
    && not (is_full t)
    && not (is_scheduled t)
    && not (is_closed t)

-- `handleBook`, on a button that is disabled unless `canBook`.
unfoldable pub handle_book : CardProps → CardState → Option Booked
unfolding can_book
handle_book p s =
    if can_book p s then booked s.selected_trip_id s.selected_stop_id s.ticket_count else none

abbrev pub is_disabled : Trip → Bool
is_disabled t =
    trip_full t || t.status == "SCHEDULED" || t.status == "CANCELLED" || t.status == "CLOSED"

-- The radio button of a trip.
unfoldable pub select_trip : Trip → CardState → CardState
select_trip t s =
    if not (is_disabled t)
    then record s { selected_trip_id = some t.id; selected_stop_id = none; ticket_count = 1 }
    else s

-- The ticket buttons are shown when a trip and a stop are chosen and the user is not a student.
abbrev pub counts : CardProps → CardState → Bool
counts p s = truthy s.selected_trip_id && truthy s.selected_stop_id && not p.is_student

-- `−`: `setTicketCount(Math.max(1, ticketCount - 1))`, disabled at one.
unfoldable pub fewer : CardProps → CardState → CardState
fewer p s =
    if counts p s && not (leb s.ticket_count 1)
    then record s { ticket_count = max 1 (s.ticket_count - 1) }
    else s

-- `+`: `setTicketCount(Math.min(maxTickets, ticketCount + 1))`, disabled from `maxTickets` on.
unfoldable pub more : CardProps → CardState → CardState
unfolding max_tickets
more p s =
    let most = max_tickets p (selected_trip p s) in
    if counts p s && not (leb most s.ticket_count)
    then record s { ticket_count = min most (s.ticket_count + 1) }
    else s

-- The menu of stops, shown when a trip is chosen that offers some.
abbrev pub offers : String → StopOption → Bool
offers id o = o.value == id

unfoldable pub choose_stop : CardProps → String → CardState → CardState
unfolding stop_options
choose_stop p id s =
    if truthy s.selected_trip_id && any (offers id) (stop_options (selected_trip p s))
    then record s { selected_stop_id = some id }
    else s

pub data Event : Type 0 where
  minute : ℕ → Event
  pick choose : String → Event
  minus plus render : Event

-- The radio button of the trip with an id, which is there if the card has the trip.
abbrev pub pick_from : Option Trip → CardState → CardState
pick_from none s = s
pick_from (some t) s = select_trip t s

-- An event on the card while it has its properties.
abbrev pub handle : CardProps → Event → CardState → CardState
handle p (minute now) s = record s { current_time = now }
handle p (pick id) s = pick_from (find (is_selected (some id)) p.trips) s
handle p (choose id) s = choose_stop p id s
handle p minus s = fewer p s
handle p plus s = more p s
handle p render s = auto_select p s
