-- ===== src/Admin/Trips/Tests.antt =====
-- The trips store on concrete inputs.
use giki_wallet.Common.{◌≡◌, refl, false, String, [], ◌∷◌, none, ℕ}
use giki_wallet.Errors.{Thrown, app_error, bare_error}
use giki_wallet.Async.{
  Reply, fulfilled, rejected, stop, advance, Config, Reach, here, next, start, answer,
}
use giki_wallet.Async.Act.{run}
use giki_wallet.Async.Runs.{World, execute}
use giki_wallet.Notices.{error_toast, success_toast}
use giki_wallet.Admin.Trips.{
  CreateTripRequest, TripUi, TripRequest, TripAnswer, TripProcess, initial_trips, create_trip_call,
  get_all_trips, fetch_trips, ask, create_trip,
}
use giki_wallet.Admin.Trips.Outcomes.{create_trip_refused}
use giki_wallet.Admin.Trips.Loading.{trips_page, trip_created, loading_trips_settles}

abbrev new_trip : CreateTripRequest
new_trip = record {
  route_id = "r1";
  departure_time = "";
  booking_open_offset_minutes = 60;
  booking_close_offset_minutes = 10;
  total_capacity = 40;
  base_price = 200;
  bus_type = "STUDENT";
  direction = "OUTBOUND";
  stops = "s1" ∷ "s2" ∷ [];
}

abbrev beginning : TripUi
beginning = record { store = initial_trips; user = none; toasts = [] }

abbrev refusal : Thrown
refusal = app_error (bare_error "TRIP_FULL" "The bus is taken" 409)

abbrev replies : (q : TripRequest) → Reply (TripAnswer q)
replies (create_trip_call r) = fulfilled "t1"
replies _ = rejected refusal

abbrev accepting : World TripUi TripRequest TripAnswer
accepting = record { reply = replies; during = λ q s. s; between = λ s. s }

abbrev refusing : World TripUi TripRequest TripAnswer
refusing = record { reply = λ q. rejected refusal; during = λ q s. s; between = λ s. s }

abbrev quietly : {A : Type 0} → A → TripProcess
quietly a = stop

create_trip_refused_example :
    execute refusing (create_trip new_trip quietly quietly) beginning
    ≡ record beginning { toasts = error_toast "Failed to create trip" ∷ [] }
unfolding execute
create_trip_refused_example =
    create_trip_refused refusing new_trip beginning quietly quietly
      (bare_error "TRIP_FULL" "The bus is taken" 409) refl

abbrev no_digits : ℕ → String
no_digits n = ""

abbrev created : Config TripUi TripRequest TripAnswer
created = record {
  store = record beginning { toasts = success_toast "Trip created successfully!" ∷ [] };
  waiting = [];
}

creates_a_trip : Reach (trips_page no_digits) (record { store = beginning; waiting = [] }) created
unfolding advance create_trip ask fetch_trips
creates_a_trip =
    next
      (next (next here (start (run (create_trip new_trip)) (trip_created new_trip, refl)))
        (answer [] [] (create_trip_call new_trip) _ (fulfilled "t1") refl))
      (answer [] [] (get_all_trips none none) _ (fulfilled []) refl)

loading_trips_settles_example : created.store.store.is_loading_trips ≡ false
loading_trips_settles_example = loading_trips_settles no_digits none created creates_a_trip refl
