-- ===== src/Transport/Grid.antt =====
-- frontend/src/client/modules/transport/components/RouteGrid.tsx: the trips of one direction, grouped
-- into one card per route, and the selection that a card's button makes.
--
-- `time_of` is `new Date(text).getTime()` for the date texts of the server.
mod Keys
pub mod Laws
pub mod Choice
use Prim.Native.String.{◌++◌}
use giki_wallet.Common.{
  ℕ, ◌≡◌, ◌==◌, String, Bool, not, ◌&&◌, Option, none, some, List, [], map, codes, codes_eq, upper,
  trim, upper_code, find, keep, if◌then◌else◌,
}
use giki_wallet.Common.Sorting.{sort_by}
use giki_wallet.Common.Groups.{Group, group_into, on_items}
use giki_wallet.Transport.Data.{Trip, TripStop, BookingSelection, QuotaUsage, QuotaResponse}
use giki_wallet.Transport.State.{Direction, outbound, inbound}
use giki_wallet.Transport.Stops.{get_giki_stop_object, has_id}

abbrev pub direction_text : Direction → String
direction_text outbound = "OUTBOUND"
direction_text inbound = "INBOUND"

-- `text.toUpperCase().trim() === word`, the word being in capitals.
unfoldable pub reads : String → String → Bool
reads text word = codes_eq (trim (upper text)) (codes word)

-- The test of the `filter`.
unfoldable pub visible : Direction → Trip → Bool
unfolding reads
visible way t =
    reads t.direction (direction_text way)
    && not (reads t.status "CANCELLED")
    && not (reads t.status "DELETED")

-- `${trip.route_id}_${trip.direction}`.
abbrev pub route_key : Trip → String
route_key t = t.route_id ++ "_" ++ t.direction

-- `{ routeName, routeId }` of a group.
pub record RouteHeader : Type 0 where
  pub route_name : String
  pub route_id : String

abbrev pub route_header : Trip → RouteHeader
route_header t = record { route_name = t.route_name; route_id = t.route_id }

module _ (time_of : String → ℕ) where
  abbrev pub departure : Trip → ℕ
  departure t = time_of t.departure_time

  -- `routeGroups`.
  unfoldable pub route_groups : List Trip → Direction → List (Group RouteHeader Trip)
  unfolding group_into sort_by visible
  route_groups trips way =
      map (on_items (sort_by departure))
        (group_into route_key route_header (keep (visible way) trips) [])

abbrev pub is_trip : String → Trip → Bool
is_trip id t = t.id == id

-- What `handleBook` does: a toast, or a call of `onBook`.
pub data BookResult : Type 0 where
  error : String → BookResult
  book : BookingSelection → BookResult

-- The payload, once the trip's GIKI stop is known.
abbrev pub payload : Direction → String → String → ℕ → String → BookingSelection
payload outbound trip_id stop_id count giki = record {
  trip_id = trip_id;
  pickup_id = giki;
  dropoff_id = stop_id;
  ticket_count = count;
}
payload inbound trip_id stop_id count giki = record {
  trip_id = trip_id;
  pickup_id = stop_id;
  dropoff_id = giki;
  ticket_count = count;
}

module _ (way : Direction) (trip_id stop_id : String) (count : ℕ) where
  -- From the GIKI stop on.
  abbrev pub book_from : Option TripStop → BookResult
  book_from none = error "GIKI Stop not found"
  book_from (some giki) = book (payload way trip_id stop_id count giki.stop_id)

  abbrev pub book_trip : Option Trip → BookResult
  book_trip none = error "Trip not found"
  book_trip (some t) = book_from (get_giki_stop_object t.stops)

  unfoldable pub handle_book : List Trip → BookResult
  handle_book all_trips = book_trip (find (is_trip trip_id) all_trips)

-- `directionQuota`.
abbrev pub direction_quota : Direction → Option QuotaResponse → Option QuotaUsage
direction_quota way none = none
direction_quota outbound (some q) = some q.outbound
direction_quota inbound (some q) = some q.inbound
