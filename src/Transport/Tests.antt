-- ===== src/Transport/Tests.antt =====
-- The booking store run on small inputs, and its theorems applied to them.
use giki_wallet.Common.{
  ◌≡◌, ◌≢◌, eq_iff, ◌≤◌, ◌<◌, refl, String, Bool, true, false, not, ◌==◌, Option, none, some, List,
  [], ◌∷◌, inl, All,
}
use giki_wallet.Common.Maps.{lookup, insert, merge}
use giki_wallet.Errors.{js_error, other}
use giki_wallet.Async.{
  Reply, fulfilled, rejected, stop, advance, Config, start, answer, wake, Reach, here, next,
}
use giki_wallet.Async.Act.{run}
use giki_wallet.Async.Runs.{World, execute}
use giki_wallet.Async.Requests.{Asks}
use giki_wallet.Auth.User.{AuthUser, student}
use giki_wallet.Transport.Data.{
  booking_selection_ok, TripStop, Trip, QuotaUsage, QuotaResponse, ActiveHold, BookingSelection,
  HeldSeat, self, guest,
}
use giki_wallet.Transport.Stops.{get_giki_stop_object, get_stop_by_id, filter_dropoff_options}
use giki_wallet.Transport.Stops.Order.{IsMenu, filter_dropoff_options-IsMenu}
use giki_wallet.Transport.State.{
  outbound, TransportState, initial_state, Request, Answer, fetch_all, hold_seats, confirm_batch,
  Ui,
}
use giki_wallet.Transport.Store.{fetch_data, fetch_and_store, sees}
use giki_wallet.Transport.Booking.{
  as_draft, select_on, hold_selection, hold_and_store, inferred_direction, new_passengers,
  add_selection, Confirmation, confirm_booking, hold_request,
}
use giki_wallet.Transport.Booking.Seats.{selves, selves-new_passengers, new_passengers_complete}
use giki_wallet.Transport.Booking.Outcomes.{IsBooked}
use giki_wallet.Transport.Booking.Adding.{add_selection_books, add_selection_refused}
use giki_wallet.Transport.Booking.Confirming.{
  IsFresh, told, confirm_booking_resets, confirm_booking_rethrows,
}
use giki_wallet.Transport.Booking.Sent.{IsSound, add_selection_servable}
use giki_wallet.Transport.Page.{any_user, same_user, data_wanted, selection_added}
use giki_wallet.Transport.Page.Loading.{loading_settles}
use giki_wallet.Transport.Page.Safety.{
  started, IsBookable, IsMeantFor, selections-IsBookable, trips-IsMeantFor,
}

abbrev pub giki_stop : TripStop
giki_stop = record { stop_id = "s1"; stop_name = "Giki Main Gate"; sequence = 1 }

abbrev pub swabi : TripStop
swabi = record { stop_id = "s2"; stop_name = "Swabi"; sequence = 2 }

abbrev pub topi : TripStop
topi = record { stop_id = "s3"; stop_name = "Topi"; sequence = 3 }

abbrev pub stops : List TripStop
stops = topi ∷ giki_stop ∷ swabi ∷ []

abbrev pub student_trip : Trip
student_trip = record {
  id = "t1";
  route_id = "r1";
  route_name = "GIKI - Topi";
  direction = "OUTBOUND";
  bus_type = "Student";
  departure_time = "";
  booking_opens_at = "";
  booking_closes_at = "";
  status = "OPEN";
  available_seats = 9;
  total_capacity = 10;
  base_price = 200;
  stops = stops;
}

abbrev pub staff_trip : Trip
staff_trip = record student_trip { id = "t2"; bus_type = "EMPLOYEE" }

abbrev pub ali : AuthUser
ali = record {
  id = "u1";
  name = "Ali";
  email = "ali@giki.edu.pk";
  phone_number = none;
  user_type = student;
  created_at = none;
  updated_at = none;
}

abbrev held : List HeldSeat
held = record { hold_id = "h1"; expires_at = "" } ∷ record { hold_id = "h2"; expires_at = "" } ∷ []

abbrev pub h1_out : ActiveHold
h1_out = record {
  id = "h1";
  trip_id = "t1";
  expires_at = "";
  direction = "OUTBOUND";
  route_name = "GIKI - Topi";
}

abbrev usage : QuotaUsage
usage = record { limit = 4; used = 1; remaining = 3 }

abbrev quota : QuotaResponse
quota = record { outbound = usage; inbound = usage }

abbrev pub selection : BookingSelection
selection = record { trip_id = "t1"; pickup_id = "s1"; dropoff_id = "s3"; ticket_count = 2 }

abbrev pub some_text : String → Bool
some_text t = not (t == "")

abbrev pub with_trips : TransportState
with_trips = record initial_state { all_trips = student_trip ∷ []; quota = some quota }

abbrev ali_booking : Ui
ali_booking = record { store = with_trips; user = some ali; toasts = [] }

abbrev confirmation : Confirmation
confirmation = record { hold_id = "h1"; passenger_name = "Ali"; passenger_relation = "SELF" }

abbrev granted : (q : Request) → Reply (Answer q)
granted fetch_all = fulfilled (some (student_trip ∷ staff_trip ∷ []), quota, h1_out ∷ [])
granted (hold_seats r) = fulfilled held
granted (confirm_batch items) = fulfilled tt
granted _ = rejected other

abbrev granting : World Ui Request Answer
granting = record { reply = granted; during = λ q s. s; between = λ s. s }

abbrev refusing : World Ui Request Answer
refusing = record { reply = λ q. rejected (js_error "no"); during = λ q s. s; between = λ s. s }

filter_dropoff_options-IsMenu_example :
    ((pickup : TripStop)
      → get_stop_by_id stops "s2" ≡ some pickup
      → IsMenu stops (λ s. pickup.sequence < s.sequence) (filter_dropoff_options stops "s2"))
    × (get_stop_by_id stops "s2" ≡ none
        → IsMenu stops (λ _. Unit) (filter_dropoff_options stops "s2"))
filter_dropoff_options-IsMenu_example = filter_dropoff_options-IsMenu stops "s2"

selves-new_passengers_example : selves (new_passengers (some ali) initial_state "t1" held) ≤ 1
selves-new_passengers_example = selves-new_passengers (some ali) initial_state "t1" held

new_passengers_complete_example :
    All (λ h. lookup h.hold_id (new_passengers (some ali) initial_state "t1" held) ≢ none) held
new_passengers_complete_example = new_passengers_complete (some ali) initial_state "t1" held

first_seat_is_self :
    lookup "h1" (new_passengers (some ali) initial_state "t1" held)
    ≡ some (record { name = "Ali"; relation = self })
unfolding new_passengers lookup insert
first_seat_is_self = refl

add_selection_books_example :
    IsBooked outbound selection held
      (execute granting (run (add_selection some_text selection)) ali_booking).store
unfolding booking_selection_ok get_giki_stop_object inferred_direction
add_selection_books_example =
    add_selection_books granting some_text ali_booking selection student_trip held refl refl refl
      refl

add_selection_refused_example :
    (execute refusing (run (add_selection some_text selection)) ali_booking).store ≡ with_trips
unfolding booking_selection_ok get_giki_stop_object
add_selection_refused_example =
    add_selection_refused refusing some_text ali_booking selection student_trip (js_error "no") refl
      refl refl refl

add_selection_servable_example :
    Asks
      (IsSound some_text (student_trip ∷ []))
      (run (add_selection some_text selection))
      ali_booking
add_selection_servable_example = add_selection_servable some_text selection ali_booking

confirm_booking_resets_example :
    IsFresh (execute granting (run (confirm_booking (confirmation ∷ []))) ali_booking).store
confirm_booking_resets_example = confirm_booking_resets granting ali_booking confirmation [] refl

confirm_booking_rethrows_example :
    execute refusing (confirm_booking (confirmation ∷ []) (λ _. stop) (λ _. stop)) ali_booking
    ≡ told (js_error "no") ali_booking
unfolding execute
confirm_booking_rethrows_example =
    confirm_booking_rethrows refusing ali_booking confirmation [] (λ _. stop) (λ _. stop)
      (js_error "no") refl

-- The store after the server's answer, once nothing waits any more.
abbrev with_data : Config Ui Request Answer
with_data = record {
  store = record {
    store = record initial_state {
      all_trips = student_trip ∷ [];
      quota = some quota;
      active_holds = h1_out ∷ [];
      initialized = true;
    };
    user = some ali;
    toasts = [];
  };
  waiting = [];
}

data_fetched : Reach (any_user some_text) (started (some ali)) with_data
unfolding advance fetch_data fetch_and_store sees
data_fetched =
    next (next here (start (run (fetch_data true)) (data_wanted true, refl)))
      (answer [] [] fetch_all _ (granted fetch_all) refl)

data_fetched_by_one : Reach (same_user some_text) (started (some ali)) with_data
unfolding advance fetch_data fetch_and_store sees
data_fetched_by_one =
    next (next here (start (run (fetch_data true)) (data_wanted true, refl)))
      (answer [] [] fetch_all _ (granted fetch_all) refl)

loading_settles_example : with_data.store.store.loading ≡ false
loading_settles_example = loading_settles some_text (some ali) with_data data_fetched refl

trips-IsMeantFor_example : All (IsMeantFor (some ali)) (student_trip ∷ [])
trips-IsMeantFor_example = trips-IsMeantFor some_text (some ali) with_data data_fetched_by_one

-- The store after `addSelection`.
abbrev with_selection : Config Ui Request Answer
with_selection = record {
  store = record {
    store = record with_data.store.store {
      outbound_selection = some selection;
      draft_outbound = as_draft selection;
      passengers =
          ("h1", record { name = "Ali"; relation = self })
          ∷ ("h2", record { name = ""; relation = guest })
          ∷ [];
    };
    user = some ali;
    toasts = [];
  };
  waiting = [];
}

seats_held : Reach (any_user some_text) (started (some ali)) with_selection
unfolding advance fetch_data fetch_and_store sees add_selection select_on hold_selection
    hold_and_store inferred_direction get_giki_stop_object booking_selection_ok new_passengers
    insert lookup merge
seats_held =
    next
      (next
        (next
          (next data_fetched
            (start (run (add_selection some_text selection)) (selection_added selection, refl)))
          (answer [] [] (hold_seats (hold_request selection)) _
            (granted (hold_seats (hold_request selection))) refl))
        (answer [] [] fetch_all _ (granted fetch_all) refl))
      (wake [] [] _ refl)

selections-IsBookable_example : IsBookable some_text selection
selections-IsBookable_example =
    selections-IsBookable some_text (some ali) with_selection selection seats_held (inl refl)

abbrev id_of : Option TripStop → String
id_of none = ""
id_of (some s) = s.stop_id

apart : (topi.stop_id ≡ giki_stop.stop_id) → ⊥
apart e = cc ((eq_iff "s3" "s1").1 e)
