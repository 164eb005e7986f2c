-- ===== src/Transport/Stops.antt =====
-- frontend/src/client/modules/transport/utils.ts: the stops of a trip, and the selections built
-- from them. The date formats and the CSS classes of the badges are left out.
pub mod Order
use giki_wallet.Common.{
  ◌==◌, String, Bool, true, false, Option, none, some, List, [], ◌∷◌, map, codes, codes_eq, upper,
  includes, find, keep, leb, ltb, if◌then◌else◌, ℕ,
}
use giki_wallet.Transport.Data.{TripStop, Trip, BookingSelection}

-- `{ value: string, label: string }`.
pub record StopOption : Type 0 where
  pub value : String
  pub label : String

abbrev pub is_giki : TripStop → Bool
is_giki s = includes (codes "GIKI") (upper s.stop_name)

unfoldable pub get_giki_stop_object : List TripStop → Option TripStop
get_giki_stop_object stops = find is_giki stops

-- `stops.sort((a, b) => a.sequence - b.sequence)`, which is stable: insertion from the right.
unfoldable pub insert_stop : TripStop → List TripStop → List TripStop
insert_stop a [] = a ∷ []
insert_stop a (b ∷ rest) =
    if leb a.sequence b.sequence then a ∷ b ∷ rest else b ∷ insert_stop a rest

unfoldable pub sort_stops : List TripStop → List TripStop
unfolding insert_stop
sort_stops [] = []
sort_stops (a ∷ rest) = insert_stop a (sort_stops rest)

abbrev pub stop_option : TripStop → StopOption
stop_option s = record { value = s.stop_id; label = s.stop_name }

unfoldable pub build_stop_options : List TripStop → List StopOption
unfolding sort_stops
build_stop_options stops = map stop_option (sort_stops stops)

abbrev pub has_id : String → TripStop → Bool
has_id id s = s.stop_id == id

-- A missing id, `null`, is the empty text: the source tests it by `!id`.
unfoldable pub get_stop_by_id : List TripStop → String → Option TripStop
get_stop_by_id stops id = if id == "" then none else find (has_id id) stops

-- The options beside a fixed stop: those that pass its test; all of them, where it is missing.
unfoldable pub options_beside :
    (TripStop → TripStop → Bool) → List TripStop → Option TripStop → List StopOption
options_beside test stops none = build_stop_options stops
options_beside test stops (some fixed) = map stop_option (sort_stops (keep (test fixed) stops))

unfoldable pub filter_dropoff_options : List TripStop → String → List StopOption
unfolding options_beside
filter_dropoff_options stops id =
    options_beside (λ pickup s. ltb pickup.sequence s.sequence) stops (get_stop_by_id stops id)

unfoldable pub filter_pickup_options : List TripStop → String → List StopOption
unfolding options_beside
filter_pickup_options stops id =
    options_beside (λ dropoff s. ltb s.sequence dropoff.sequence) stops (get_stop_by_id stops id)

abbrev pub goes : String → Option Trip → Bool
goes way none = false
goes way (some t) = codes_eq (upper t.direction) (codes way)

unfoldable pub is_from_giki : Option Trip → Bool
is_from_giki t = goes "OUTBOUND" t

unfoldable pub is_to_giki : Option Trip → Bool
is_to_giki t = goes "INBOUND" t

unfoldable pub create_outbound_selection :
    String → String → List TripStop → ℕ → Option BookingSelection
unfolding get_giki_stop_object
create_outbound_selection trip_id dropoff_stop_id stops count = elim (get_giki_stop_object stops) [
  | none ↦ none
  | some giki ↦ some (record {
    trip_id = trip_id;
    pickup_id = giki.stop_id;
    dropoff_id = dropoff_stop_id;
    ticket_count = count;
  })
]

unfoldable pub create_inbound_selection :
    String → String → List TripStop → ℕ → Option BookingSelection
unfolding get_giki_stop_object
create_inbound_selection trip_id pickup_stop_id stops count = elim (get_giki_stop_object stops) [
  | none ↦ none
  | some giki ↦ some (record {
    trip_id = trip_id;
    pickup_id = pickup_stop_id;
    dropoff_id = giki.stop_id;
    ticket_count = count;
  })
]
