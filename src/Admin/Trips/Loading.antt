-- ===== src/Admin/Trips/Loading.antt =====
-- The flag `isLoadingTrips` of the trips store, over every interleaving.
use giki_wallet.Common.{◌≡◌, [], Bool, true, false, refl, String, List, ℕ, Option, some, none}
use giki_wallet.Errors.{Thrown}
use giki_wallet.Async.{Page, Config, Reach}
use giki_wallet.Async.Act.{run}
use giki_wallet.Async.Flags.{Pays, stopped, kept, raised, lowered, forked, Reach-lowered}
use giki_wallet.Async.Rules.{awaited}
use giki_wallet.Auth.User.{AuthUser}
use giki_wallet.Admin.Trips.{
  TripResponse, CreateTripRequest, TripUi, TripRequest, TripAnswer, TripProcess, initial_trips,
  fetch_routes, fetch_trips, select_route, select_route_of, set_editing_trip,
  set_duplicate_template, reset_template, ask, create_trip, update_trip, delete_trip,
  update_trip_manual_status, batch_update_trip_manual_status, cancel_trip,
}

pub data TripEvent : Type 0 where
  routes_wanted template_reset : TripEvent
  trips_wanted : Option ℕ → Option ℕ → TripEvent
  route_selected trip_deleted trip_cancelled : String → TripEvent
  trip_edited trip_duplicated : Option TripResponse → TripEvent
  trip_created : CreateTripRequest → TripEvent
  trip_updated : String → CreateTripRequest → TripEvent
  status_changed : String → Option String → TripEvent
  statuses_changed : List String → String → TripEvent

module _ (decimal : ℕ → String) where
  abbrev pub trip_action : TripEvent → TripProcess
  trip_action routes_wanted = run fetch_routes
  trip_action template_reset = run reset_template
  trip_action (trips_wanted from to) = run (fetch_trips from to)
  trip_action (route_selected id) = run (select_route id)
  trip_action (trip_deleted id) = run (delete_trip id)
  trip_action (trip_cancelled id) = run (cancel_trip id)
  trip_action (trip_edited trip) = run (set_editing_trip trip)
  trip_action (trip_duplicated trip) = run (set_duplicate_template trip)
  trip_action (trip_created payload) = run (create_trip payload)
  trip_action (trip_updated id payload) = run (update_trip id payload)
  trip_action (status_changed id status) = run (update_trip_manual_status id status)
  trip_action (statuses_changed ids status) =
      run (batch_update_trip_manual_status decimal ids status)

  abbrev pub trips_page : Page TripUi TripRequest TripAnswer
  trips_page = record {
    Starts = λ p. (e : TripEvent) × (p ≡ trip_action e);
    Outside = λ s s'. s'.store ≡ s.store;
  }

abbrev listing : TripUi → Bool
listing u = u.store.is_loading_trips

abbrev IsQuiet : TripProcess → Type 0
IsQuiet p = (s : TripUi) → Pays listing false p s

fetch_trips-IsQuiet : (from to : Option ℕ) → IsQuiet (run (fetch_trips from to))
unfolding fetch_trips
fetch_trips-IsQuiet from to s =
    raised
      (awaited (λ found s'. raised (lowered refl stopped)) (λ e s'. raised (lowered refl stopped)))

fetch_routes-IsQuiet : IsQuiet (run fetch_routes)
unfolding fetch_routes
fetch_routes-IsQuiet s =
    kept refl
      (awaited (λ found s'. kept refl (kept refl stopped)) (λ e s'. kept refl (kept refl stopped)))

select_route-IsQuiet : (id : String) → IsQuiet (run (select_route id))
unfolding select_route
select_route-IsQuiet id s =
    kept refl
      (awaited (λ found s'. kept refl (kept refl stopped)) (λ e s'. kept refl (kept refl stopped)))

select_route_of-IsQuiet : (trip : Option TripResponse) → IsQuiet (run (select_route_of trip))
unfolding select_route_of
select_route_of-IsQuiet none s = stopped
select_route_of-IsQuiet (some trip) s = forked (select_route-IsQuiet trip.route_id s) stopped

ask-IsQuiet :
    (q : TripRequest) (done fallback : String) (ok : Bool → TripProcess)
    (err : Thrown → TripProcess)
    → ((b : Bool) → IsQuiet (ok b))
    → IsQuiet (ask q done fallback ok err)
unfolding ask
ask-IsQuiet q done fallback ok err next s =
    awaited (λ a s'. kept refl (forked (fetch_trips-IsQuiet none none _) (next true _)))
      (λ e s'. kept refl (next false _))

module _ (decimal : ℕ → String) where
  action-IsQuiet : (e : TripEvent) → IsQuiet (trip_action decimal e)
  unfolding set_editing_trip set_duplicate_template reset_template create_trip update_trip
      delete_trip update_trip_manual_status batch_update_trip_manual_status cancel_trip
  action-IsQuiet routes_wanted = fetch_routes-IsQuiet
  action-IsQuiet template_reset = λ s. kept refl stopped
  action-IsQuiet (trips_wanted from to) = fetch_trips-IsQuiet from to
  action-IsQuiet (route_selected id) = select_route-IsQuiet id
  action-IsQuiet (trip_deleted id) =
      λ s. kept refl (ask-IsQuiet _ _ _ _ _ (λ b s'. kept refl stopped) _)
  action-IsQuiet (trip_cancelled id) = ask-IsQuiet _ _ _ _ _ (λ b s'. stopped)
  action-IsQuiet (trip_edited trip) = λ s. kept refl (select_route_of-IsQuiet trip _)
  action-IsQuiet (trip_duplicated trip) = λ s. kept refl (select_route_of-IsQuiet trip _)
  action-IsQuiet (trip_created payload) =
      λ s. kept refl (ask-IsQuiet _ _ _ _ _ (λ b s'. kept refl stopped) _)
  action-IsQuiet (trip_updated id payload) =
      λ s. kept refl (ask-IsQuiet _ _ _ _ _ (λ b s'. kept refl stopped) _)
  action-IsQuiet (status_changed id status) = ask-IsQuiet _ _ _ _ _ (λ b s'. stopped)
  action-IsQuiet (statuses_changed ids status) = ask-IsQuiet _ _ _ _ _ (λ b s'. stopped)

  -- However the actions of the trips store overlap, and whatever the server answers: from the
  -- initial state, whenever nothing waits any more, `isLoadingTrips` is false.
  pub loading_trips_settles :
      (user : Option AuthUser) (d : Config TripUi TripRequest TripAnswer)
      → Reach
          (trips_page decimal)
          (record {
            store = record { store = initial_trips; user = user; toasts = [] };
            waiting = [];
          })
          d
      → d.waiting ≡ []
      → d.store.store.is_loading_trips ≡ false
  loading_trips_settles user d r idle =
      Reach-lowered listing (trips_page decimal)
        (λ p starts s. rw starts.1 (action-IsQuiet starts.0 s)) (λ s s' same up. rw same at up) r
        refl idle
