-- ===== src/Transport/OldCard.antt =====
-- frontend/src/client/modules/transport/components/TransportBookingCard.tsx: the card of a direction
-- with its three menus. The booking page imports it for a rollback and shows RouteGrid.tsx.
--
-- The labels of the menu of times are left out but for the trip that they belong to.
pub mod Stops
mod Tests
use giki_wallet.Common.{
  ℕ, zero, suc, ◌==◌, String, Bool, true, false, not, ◌&&◌, ◌||◌, Option, none, some, List, [], ◌∷◌,
  map, codes, codes_eq, upper, find, keep, any, length, leb, nat_eq, if◌then◌else◌,
}
use giki_wallet.Common.Maps.{insert}
use giki_wallet.Transport.Data.{
  Trip, TripStop, ActiveHold, BookingDraft, QuotaUsage, BookingSelection,
}
use giki_wallet.Transport.State.{Direction, outbound, inbound}
use giki_wallet.Transport.Store.{DraftPatch}
use giki_wallet.Transport.Stops.{StopOption, stop_option, is_giki, sort_stops, get_giki_stop_object}
use giki_wallet.Transport.Grid.{BookResult, error, book, payload, direction_text, is_trip}
use giki_wallet.Transport.Card.{truthy, min, quota_remaining, seats_of, trip_full}

-- The numbers of tickets that `TicketSelect` offers.
unfoldable pub ticket_options : Bool → ℕ → List ℕ
ticket_options is_student max_tickets =
    let effective_max = if is_student then 1 else max_tickets in
    keep (λ n. leb n effective_max) (1 ∷ 2 ∷ 3 ∷ [])

-- An empty text is falsy: what the card takes over from a draft is set or `null`.
abbrev pub set_or_null : Option String → Option String
set_or_null none = none
set_or_null (some text) = if text == "" then none else some text

pub record OldCard : Type 0 where
  pub selected_route_id : Option String
  pub selected_trip_id : Option String
  pub selected_stop_id : Option String
  pub ticket_count : ℕ

-- The state that a draft gives.
unfoldable pub hydrated : BookingDraft → OldCard
hydrated d = record {
  selected_route_id = set_or_null d.route_id;
  selected_trip_id = set_or_null d.trip_id;
  selected_stop_id = set_or_null d.stop_id;
  ticket_count = if nat_eq d.ticket_count 0 then 1 else d.ticket_count;
}

abbrev pub one_for_students : Bool → OldCard → OldCard
one_for_students is_student c = if is_student then record c { ticket_count = 1 } else c

abbrev pub matches_direction : Direction → Bool → Bool
matches_direction outbound is_outbound = is_outbound
matches_direction inbound is_outbound = not is_outbound

-- `filteredTrips`: every trip that is not outbound counts as inbound here.
unfoldable pub filtered_trips : Direction → List Trip → List Trip
filtered_trips way trips =
    keep
      (λ t.
        matches_direction way (codes_eq (upper t.direction) (codes "OUTBOUND"))
        && t.status == "OPEN")
      trips

-- `uniqueRoutes`: ids with the last name that came, in the order of the first.
unfoldable pub unique_routes : List Trip → List (String × String) → List (String × String)
unfolding insert
unique_routes [] routes = routes
unique_routes (t ∷ rest) routes = unique_routes rest (insert t.route_id t.route_name routes)

unfoldable pub route_options : List Trip → List (String × String)
unfolding unique_routes
route_options filtered = unique_routes filtered []

unfoldable pub trips_at : Option String → List Trip → List Trip
trips_at none filtered = []
trips_at (some id) filtered = if id == "" then [] else keep (λ t. t.route_id == id) filtered

-- What comes before, and after, the first stop at GIKI.
unfoldable pub before_giki : List TripStop → List TripStop
before_giki [] = []
before_giki (s ∷ rest) = let later = before_giki rest in if is_giki s then [] else s ∷ later

unfoldable pub after_giki : List TripStop → List TripStop
after_giki [] = []
after_giki (s ∷ rest) = if is_giki s then rest else after_giki rest

unfoldable pub valid_stops : Direction → List TripStop → List TripStop
unfolding before_giki after_giki
valid_stops way sorted = if any is_giki sorted then side way else sorted
  where
    side : Direction → List TripStop
    side outbound = after_giki sorted
    side inbound = before_giki sorted

abbrev pub current_trip : Option String → List Trip → Option Trip
current_trip none filtered = none
current_trip (some id) filtered = if id == "" then none else find (is_trip id) filtered

unfoldable pub stop_options : Direction → Option Trip → List StopOption
unfolding valid_stops sort_stops
stop_options way none = []
stop_options way (some t) = map stop_option (valid_stops way (sort_stops t.stops))

-- `shouldReleaseOnUpdate`.
unfoldable pub should_release : Direction → List ActiveHold → Bool → Bool
should_release way holds is_round_trip =
    if nat_eq (length holds) 0
    then false
    else if not is_round_trip
    then true
    else any (λ h. codes_eq (upper h.direction) (codes (direction_text way))) holds

abbrev pub same_choice : Option String → Option String → Bool
same_choice none none = true
same_choice none (some b) = false
same_choice (some a) none = false
same_choice (some a) (some b) = a == b

abbrev pub no_patch : DraftPatch
no_patch = record {
  route_id = none;
  trip_id = none;
  pickup_id = none;
  dropoff_id = none;
  stop_id = none;
  ticket_count = none;
}

-- What a menu does: whether the held seats are given up, the card then, and the part of the draft that
-- is written to the store.
pub record Change : Type 0 where
  pub releases : Bool
  pub card : OldCard
  pub draft : DraftPatch

module _ (way : Direction) (holds : List ActiveHold) (is_round_trip : Bool) where
  unfoldable pub handle_route_change : Option String → OldCard → Change
  unfolding should_release
  handle_route_change route c = record {
    releases =
        should_release way holds is_round_trip && not (same_choice c.selected_route_id route);
    card = record {
      selected_route_id = route;
      selected_trip_id = none;
      selected_stop_id = none;
      ticket_count = 1;
    };
    draft = record no_patch {
      route_id = some (set_or_null route);
      trip_id = some none;
      stop_id = some none;
      ticket_count = some 1;
    };
  }

  unfoldable pub handle_time_change : Option String → OldCard → Change
  unfolding should_release
  handle_time_change trip c = record {
    releases = should_release way holds is_round_trip && not (same_choice c.selected_trip_id trip);
    card = record c { selected_trip_id = trip; selected_stop_id = none; ticket_count = 1 };
    draft = record no_patch {
      trip_id = some (set_or_null trip);
      stop_id = some none;
      ticket_count = some 1;
    };
  }

  unfoldable pub handle_stop_change : Option String → OldCard → Change
  unfolding should_release
  handle_stop_change stop c = record {
    releases = should_release way holds is_round_trip && not (same_choice c.selected_stop_id stop);
    card = record c { selected_stop_id = stop };
    draft = record no_patch { stop_id = some (set_or_null stop) };
  }

-- `handleBook`; nothing happens unless a trip and a stop are chosen.
abbrev pub book_at : Direction → Trip → String → ℕ → Option TripStop → BookResult
book_at way t stop_id count none = error "GIKI Stop not found"
book_at way t stop_id count (some giki) = book (payload way t.id stop_id count giki.stop_id)

abbrev pub book_trip_at : Direction → Option Trip → Option String → ℕ → Option BookResult
book_trip_at way none stop count = none
book_trip_at way (some t) none count = none
book_trip_at way (some t) (some stop_id) count =
    if stop_id == ""
    then none
    else some (
        if trip_full t
        then error "This trip is full"
        else book_at way t stop_id count (get_giki_stop_object t.stops))

unfoldable pub handle_book : Direction → List Trip → OldCard → Option BookResult
handle_book way filtered c =
    book_trip_at way (current_trip c.selected_trip_id filtered) c.selected_stop_id c.ticket_count

-- The stop is chosen by itself if only one is offered.
unfoldable pub auto_stop : List StopOption → OldCard → OldCard
auto_stop (only ∷ []) c =
    if not (truthy c.selected_stop_id) then record c { selected_stop_id = some only.value } else c
auto_stop options c = c

unfoldable pub max_tickets : Option Trip → Option QuotaUsage → ℕ
max_tickets t quota = min 3 (min (seats_of t) (quota_remaining quota))

-- `hasCompleteSelection`.
abbrev pub is_chosen : Option Trip → Bool
is_chosen none = false
is_chosen (some t) = true

unfoldable pub has_complete_selection : OldCard → Option Trip → Bool
has_complete_selection c t =
    truthy c.selected_route_id
    && truthy c.selected_trip_id
    && truthy c.selected_stop_id
    && is_chosen t
