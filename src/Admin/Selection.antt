-- ===== src/Admin/Selection.antt =====
-- frontend/src/admin/modules/trips/pages/TripsPage.tsx: which trips are listed, which are selected, and
-- what is done with the selected ones.
--
-- `clock` is `format(new Date(text), 'HH:mm')`. A `Set` of ids is a list in the order of insertion.
-- The export of manifests, which downloads a file, is left out.
pub mod Toggling
pub mod Batch
mod Tests
use giki_wallet.Common.{
  ℕ, ◌==◌, String, Bool, true, false, not, ◌&&◌, ◌||◌, Option, none, some, List, [], ◌∷◌, ◌++◌, map,
  codes, codes_eq, upper, lower, includes, keep, any, length, leb, nat_eq, if◌then◌else◌,
}
use giki_wallet.Async.Act.{◌>>=◌, ◌>>◌, return, await_act, branch}
use giki_wallet.Admin.Trips.{
  TripResponse, TripAction, cancel_trip, delete_trip, batch_update_trip_manual_status,
}

pub record TripFilters : Type 0 where
  pub status : String
  pub bus_type : String
  pub search : String
  pub route_id : String
  pub time : String

-- `filter === 'ALL' || value === filter`.
abbrev pub matches : String → String → Bool
matches filter value = filter == "ALL" || value == filter

abbrev pub contains : String → String → Bool
contains text search = includes (lower search) (lower text)

abbrev pub matches_search : String → TripResponse → Bool
matches_search search t =
    search == ""
    || contains t.route_name search
    || contains t.bus_type search
    || contains t.direction search

module _ (clock : String → String) where
  unfoldable pub matches_filters : TripFilters → TripResponse → Bool
  matches_filters f t =
      matches f.status t.status
      && (f.bus_type == "ALL" || codes_eq (upper t.bus_type) (codes f.bus_type))
      && matches f.route_id t.route_id
      && matches f.time (clock t.departure_time)
      && matches_search f.search t

  -- `filteredTrips`.
  unfoldable pub filtered_trips : TripFilters → List TripResponse → List TripResponse
  unfolding matches_filters
  filtered_trips f trips = keep (matches_filters f) trips

abbrev pub has : String → List String → Bool
has id ids = any (λ x. x == id) ids

-- `ids.add(id)` and `ids.delete(id)`.
unfoldable pub add : String → List String → List String
add id ids = if has id ids then ids else ids ++ id ∷ []

unfoldable pub delete : String → List String → List String
delete id ids = keep (λ x. not (x == id)) ids

-- `new Set(list)`, on top of what is in it already.
unfoldable pub add_all : List String → List String → List String
unfolding add
add_all [] ids = ids
add_all (id ∷ rest) ids = add_all rest (add id ids)

abbrev pub trip_ids : List TripResponse → List String
trip_ids trips = map (λ t. t.id) trips

-- `toggleSelectAll`, on the trips that are listed.
unfoldable pub toggle_select_all : List TripResponse → List String → List String
unfolding add_all
toggle_select_all listed selected =
    if nat_eq (length selected) (length listed) && not (leb (length listed) 0)
    then []
    else add_all (trip_ids listed) []

unfoldable pub toggle_select_one : String → List String → List String
unfolding add delete
toggle_select_one id selected = if has id selected then delete id selected else add id selected

-- What is done with the selected trips.
pub data BatchAction : Type 0 where
  open_all close_all cancel_all : BatchAction

abbrev pub status_of : BatchAction → String
status_of open_all = "OPEN"
status_of close_all = "CLOSED"
status_of cancel_all = "CANCEL"

-- `for (const id of ids) await cancelTrip(id)`.
unfoldable pub cancel_each : List String → TripAction (Unit {0})
cancel_each [] = return tt
cancel_each (id ∷ rest) = let later = cancel_each rest in do _ ← await_act (cancel_trip id); later

-- `handleBatchAction`; `confirmed` is the answer of `window.confirm`. What it returns is what is
-- selected afterwards.
unfoldable pub handle_batch_action :
    (ℕ → String) → Bool → BatchAction → List String → TripAction (List String)
unfolding cancel_each
handle_batch_action decimal confirmed action [] = return []
handle_batch_action decimal confirmed cancel_all (id ∷ ids) =
    branch confirmed (do cancel_each (id ∷ ids); return []) (return (id ∷ ids))
handle_batch_action decimal confirmed action (id ∷ ids) = do
  _ ← await_act (batch_update_trip_manual_status decimal (id ∷ ids) (status_of action))
  return []

-- The dialogue about one trip: whether it is open, and the trip.
pub record Dialogue : Type 0 where
  pub is_open : Bool
  pub trip : Option TripResponse

abbrev pub closed : Dialogue
closed = record { is_open = false; trip = none }

-- `handleDeleteClick` and `handleCancelClick`.
abbrev pub handle_click : TripResponse → Dialogue
handle_click t = record { is_open = true; trip = some t }

-- The dialogue after the action has told whether it succeeded.
abbrev pub after_action : Bool → Dialogue → Dialogue
after_action true d = closed
after_action false d = d

abbrev pub confirm_with :
    (String → TripAction Bool) → Dialogue → Option TripResponse → TripAction Dialogue
confirm_with act d none = return d
confirm_with act d (some t) = do success ← await_act (act t.id); return (after_action success d)

unfoldable pub handle_delete_confirm : Dialogue → TripAction Dialogue
handle_delete_confirm d = confirm_with delete_trip d d.trip

unfoldable pub handle_cancel_confirm : Dialogue → TripAction Dialogue
handle_cancel_confirm d = confirm_with cancel_trip d d.trip
