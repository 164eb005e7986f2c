-- ===== src/Admin/Trips.antt =====
-- frontend/src/admin/modules/trips/store.ts: the trips that administrators edit, with the types of
-- types.ts and the requests of service.ts.
--
-- Dates are milliseconds. How a number is written is a parameter, `decimal`.
pub mod Outcomes
pub mod Loading
mod Tests
use giki_wallet.Common.{ℕ, String, Bool, true, false, Option, none, some, List, [], length, str_or}
use Prim.Native.String.{◌++◌}
use giki_wallet.Errors.{
  Thrown, http_error, app_error, js_error, other, plain, failure, Body, Response,
}
use giki_wallet.Async.{Proc}
use giki_wallet.Async.Act.{Act, ◌>>=◌, ◌>>◌, return, await, try_catch, finally, spawn}
use giki_wallet.Notices.{Session, show, error_toast, success_toast, set_store}

pub record Route : Type 0 where
  pub route_id : String
  pub route_name : String

pub record StopItem : Type 0 where
  pub stop_id : String
  pub name : String
  pub sequence : ℕ
  pub is_active : Bool

pub record QuickSlotItem : Type 0 where
  pub slot_id : String
  pub day_of_week : String
  pub departure_time : String

pub record RouteTemplateResponse : Type 0 where
  pub route_id : String
  pub route_name : String
  pub open_minutes_before : ℕ
  pub close_minutes_before : ℕ
  pub stops : List StopItem
  pub quick_slots : List QuickSlotItem

pub record CreateTripRequest : Type 0 where
  pub route_id : String
  pub departure_time : String
  pub booking_open_offset_minutes : ℕ
  pub booking_close_offset_minutes : ℕ
  pub total_capacity : ℕ
  pub base_price : ℕ
  pub bus_type : String
  pub direction : String
  pub stops : List String

pub record TripStopItem : Type 0 where
  pub stop_id : String
  pub stop_name : String
  pub sequence : ℕ

pub record TripResponse : Type 0 where
  pub id : String
  pub route_id : String
  pub route_name : String
  pub departure_time : String
  pub booking_opens_at : String
  pub booking_closes_at : String
  pub status : String
  pub opens_at : String
  pub available_seats : ℕ
  pub total_capacity : ℕ
  pub base_price : ℕ
  pub bus_type : String
  pub direction : String
  pub manual_status : Option String
  pub deleted_at : Option String
  pub stops : List TripStopItem

pub record TripCreateState : Type 0 where
  pub routes : List Route
  pub template : Option RouteTemplateResponse
  pub trips : List TripResponse
  pub is_loading_routes : Bool
  pub is_loading_template : Bool
  pub is_loading_trips : Bool
  pub is_submitting : Bool
  pub is_deleting_trip : Bool
  pub editing_trip : Option TripResponse
  pub duplicate_template : Option TripResponse

abbrev pub initial_trips : TripCreateState
initial_trips = record {
  routes = [];
  template = none;
  trips = [];
  is_loading_routes = false;
  is_loading_template = false;
  is_loading_trips = false;
  is_submitting = false;
  is_deleting_trip = false;
  editing_trip = none;
  duplicate_template = none;
}

pub data TripRequest : Type 0 where
  get_all_routes : TripRequest
  get_all_trips : Option ℕ → Option ℕ → TripRequest
  get_route_template delete_trip_call cancel_trip_call : String → TripRequest
  create_trip_call : CreateTripRequest → TripRequest
  update_trip_call : String → CreateTripRequest → TripRequest
  update_status_call : String → Option String → TripRequest
  batch_status_call : List String → String → TripRequest

abbrev pub TripAnswer : TripRequest → Type 0
TripAnswer get_all_routes = List Route
TripAnswer (get_all_trips from to) = List TripResponse
TripAnswer (get_route_template id) = RouteTemplateResponse
TripAnswer (create_trip_call r) = String
TripAnswer _ = Unit

abbrev pub TripUi : Type 0
TripUi = Session TripCreateState

abbrev pub TripAction : Type 0 → Type 0
TripAction A = Act TripUi TripRequest TripAnswer A

abbrev pub TripProcess : Type 0
TripProcess = Proc TripUi TripRequest TripAnswer

unfoldable pub fetch_routes : TripAction (Unit {0})
fetch_routes = do
  set_store (λ s. record s { is_loading_routes = true })
  finally
      (try_catch (do found ← await get_all_routes; set_store (λ s. record s { routes = found }))
        (λ e. show (error_toast "Failed to load routes")))
      (set_store (λ s. record s { is_loading_routes = false }))

unfoldable pub fetch_trips : Option ℕ → Option ℕ → TripAction (Unit {0})
fetch_trips from to = do
  set_store (λ s. record s { is_loading_trips = true })
  finally
      (try_catch
        (do found ← await (get_all_trips from to); set_store (λ s. record s { trips = found }))
        (λ e. show (error_toast "Failed to load trips")))
      (set_store (λ s. record s { is_loading_trips = false }))

unfoldable pub select_route : String → TripAction (Unit {0})
select_route id = do
  set_store (λ s. record s { is_loading_template = true; template = none })
  finally
      (try_catch
        (do
          found ← await (get_route_template id)
          set_store (λ s. record s { template = some found }))
        (λ e. show (error_toast "Failed to load route template")))
      (set_store (λ s. record s { is_loading_template = false }))

-- `if (trip) { get().selectRoute(trip.route_id) }`, which is not awaited.
unfoldable pub select_route_of : Option TripResponse → TripAction (Unit {0})
select_route_of none = return tt
select_route_of (some trip) = spawn (select_route trip.route_id)

unfoldable pub set_editing_trip : Option TripResponse → TripAction (Unit {0})
set_editing_trip trip = do
  set_store (λ s. record s { editing_trip = trip; duplicate_template = none })
  select_route_of trip

unfoldable pub set_duplicate_template : Option TripResponse → TripAction (Unit {0})
set_duplicate_template trip = do
  set_store (λ s. record s { duplicate_template = trip; editing_trip = none })
  select_route_of trip

unfoldable pub reset_template : TripAction (Unit {0})
reset_template = set_store (λ s. record s { template = none })

abbrev pub top_message : Option Body → String
top_message (some (plain message)) = message
top_message _ = ""

-- `error.response?.data?.message`, empty where there is none.
abbrev pub response_message : Thrown → String
response_message (http_error (some r) m) = top_message r.body
response_message _ = ""

-- The common part of the actions that change trips.
unfoldable pub ask : TripRequest → String → String → TripAction Bool
ask q done fallback =
    try_catch
      (do _ ← await q; show (success_toast done); spawn (fetch_trips none none); return true)
      (λ e. show (error_toast (str_or (response_message e) fallback)) >> return false)

abbrev pub set_submitting : Bool → TripAction (Unit {0})
set_submitting b = set_store (λ s. record s { is_submitting = b })

unfoldable pub create_trip : CreateTripRequest → TripAction Bool
create_trip payload =
    set_submitting true
    >> finally (ask (create_trip_call payload) "Trip created successfully!" "Failed to create trip")
        (set_submitting false)

unfoldable pub update_trip : String → CreateTripRequest → TripAction Bool
update_trip id payload =
    set_submitting true
    >> finally
        (ask (update_trip_call id payload) "Trip updated successfully!" "Failed to update trip")
        (set_submitting false)

abbrev pub set_deleting : Bool → TripAction (Unit {0})
set_deleting b = set_store (λ s. record s { is_deleting_trip = b })

unfoldable pub delete_trip : String → TripAction Bool
delete_trip id =
    set_deleting true
    >> finally (ask (delete_trip_call id) "Trip deleted successfully!" "Failed to delete trip")
        (set_deleting false)

unfoldable pub update_trip_manual_status : String → Option String → TripAction Bool
update_trip_manual_status id manual_status =
    ask (update_status_call id manual_status) "Trip status updated!" "Failed to update trip status"

unfoldable pub batch_update_trip_manual_status :
    (ℕ → String) → List String → String → TripAction Bool
batch_update_trip_manual_status decimal ids manual_status =
    ask (batch_status_call ids manual_status) (decimal (length ids) ++ " trip(s) updated!")
      "Failed to update trips"

unfoldable pub cancel_trip : String → TripAction Bool
cancel_trip id =
    ask (cancel_trip_call id) "Trip cancelled and refunds processed!" "Failed to cancel trip"
