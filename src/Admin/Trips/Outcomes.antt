-- ===== src/Admin/Trips/Outcomes.antt =====
-- What `createTrip` of frontend/src/admin/modules/trips/store.ts tells its caller and the user.
use giki_wallet.Common.{◌≡◌, refl, true, false, Bool, String, ◌∷◌}
use giki_wallet.Errors.{Thrown, AppError, app_error}
use giki_wallet.Async.{fulfilled, rejected, advance}
use giki_wallet.Async.Runs.{
  World, execute, changed, spawned, got, failed, execute-Ends, Ends-execute,
}
use giki_wallet.Notices.{error_toast, success_toast}
use giki_wallet.Admin.Trips.{
  CreateTripRequest, TripUi, TripRequest, TripAnswer, TripProcess, create_trip_call, fetch_trips,
  ask, create_trip,
}

module _ (w : World TripUi TripRequest TripAnswer) (payload : CreateTripRequest) (u : TripUi)
    (ok : Bool → TripProcess) (err : Thrown → TripProcess) where
  -- The page's state when the answer comes.
  abbrev pub replied_to : TripUi
  replied_to =
      w.during (create_trip_call payload)
        (record u { store = record u.store { is_submitting = true } })

  -- When the server creates the trip, `createTrip` returns true, with the success shown,
  -- `isSubmitting` down, and a request for the trips under way.
  pub create_trip_accepted :
      (id : String)
      → w.reply (create_trip_call payload) ≡ fulfilled id
      → execute w (create_trip payload ok err) u
        ≡ execute w (ok true) (record replied_to {
          store = record replied_to.store { is_submitting = false; is_loading_trips = true };
          toasts = success_toast "Trip created successfully!" ∷ replied_to.toasts;
        })
  unfolding create_trip ask fetch_trips advance
  create_trip_accepted id reply =
      execute-Ends
        {P = λ u'.
          u'
          ≡ execute w (ok true) (record replied_to {
            store = record replied_to.store { is_submitting = false; is_loading_trips = true };
            toasts = success_toast "Trip created successfully!" ∷ replied_to.toasts;
          })}
        (changed (got reply (changed (spawned (changed (Ends-execute _ _ refl))))))

  -- When the HTTP client rejects with any `AppError`, `createTrip` returns false, `isSubmitting` is
  -- down, and the message shown is the fallback.
  pub create_trip_refused :
      (e : AppError)
      → w.reply (create_trip_call payload) ≡ rejected (app_error e)
      → execute w (create_trip payload ok err) u
        ≡ execute w (ok false) (record replied_to {
          store = record replied_to.store { is_submitting = false };
          toasts = error_toast "Failed to create trip" ∷ replied_to.toasts;
        })
  unfolding create_trip ask
  create_trip_refused e reply =
      execute-Ends
        {P = λ u'.
          u'
          ≡ execute w (ok false) (record replied_to {
            store = record replied_to.store { is_submitting = false };
            toasts = error_toast "Failed to create trip" ∷ replied_to.toasts;
          })}
        (changed (failed reply (changed (changed (Ends-execute _ _ refl)))))
