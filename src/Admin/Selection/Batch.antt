-- ===== src/Admin/Selection/Batch.antt =====
-- What the batch actions of TripsPage.tsx ask the server.
use giki_wallet.Common.{
  ◌≡◌, ◌⊎◌, inl, inr, refl, true, false, Bool, String, ℕ, List, [], ◌∷◌, Any, none, All, All-map,
}
use giki_wallet.Errors.{Thrown}
use giki_wallet.Async.Act.{run}
use giki_wallet.Async.Requests.{Asks, nothing, writes, splits, waits, spawns, Asks-await}
use giki_wallet.Admin.Trips.{
  TripUi, TripRequest, TripProcess, get_all_trips, cancel_trip_call, fetch_trips, ask, cancel_trip,
}
use giki_wallet.Admin.Selection.{cancel_all, cancel_each, handle_batch_action}

-- The cancellation of one of the trips, or the request for the trips of all weeks that follows it.
abbrev pub CancelsOneOf : List String → TripRequest → Type 0
CancelsOneOf ids q = Any (λ id. q ≡ cancel_trip_call id) ids ⊎ (q ≡ get_all_trips none none)

module _ (P : TripRequest → Type 0) (refetch : P (get_all_trips none none)) where
  fetch_trips-Asks : (u : TripUi) → Asks P (run (fetch_trips none none)) u
  unfolding fetch_trips
  fetch_trips-Asks u =
      writes (Asks-await refetch (λ a s. writes (writes nothing)) (λ e s. writes (writes nothing)))

  cancel_trip-Asks :
      (id : String) (ok : Bool → TripProcess) (err : Thrown → TripProcess) (u : TripUi)
      → P (cancel_trip_call id)
      → ((b : Bool) (s : TripUi) → Asks P (ok b) s)
      → Asks P (cancel_trip id ok err) u
  unfolding cancel_trip ask
  cancel_trip-Asks id ok err u p next =
      Asks-await p (λ a s. writes (spawns (fetch_trips-Asks _) (next true _)))
        (λ e s. writes (next false _))

  cancel_each-Asks :
      (ids : List String) (ok : Unit {0} → TripProcess) (err : Thrown → TripProcess) (u : TripUi)
      → All (λ id. P (cancel_trip_call id)) ids
      → ((s : TripUi) → Asks P (ok tt) s)
      → Asks P (cancel_each ids ok err) u
  unfolding cancel_each
  cancel_each-Asks [] ok err u h next = next u
  cancel_each-Asks (id ∷ rest) ok err u (p, h) next =
      cancel_trip-Asks id _ _ u p (λ b s. waits (λ s'. cancel_each-Asks rest ok err s' h next))

each_one : (ids : List String) → All (λ id. CancelsOneOf ids (cancel_trip_call id)) ids
each_one [] = tt
each_one (id ∷ rest) = (
  inl (inl refl),
  All-map (λ j h. elim h [ inl a ↦ inl (inr a) | inr e ↦ inr e ]) rest (each_one rest),
)

-- When the selected trips are to be cancelled, every request that is made, whatever is answered and
-- whatever happens in between, is the cancellation of one of them or fetches the trips anew; and
-- nothing is asked if the user does not confirm.
pub handle_batch_action-Asks :
    (decimal : ℕ → String) (confirmed : Bool) (ids : List String) (u : TripUi)
    → Asks
        (λ q. CancelsOneOf ids q × (confirmed ≡ true))
        (run (handle_batch_action decimal confirmed cancel_all ids))
        u
unfolding handle_batch_action
handle_batch_action-Asks decimal confirmed [] u = nothing
handle_batch_action-Asks decimal confirmed (id ∷ ids) u =
    splits
      (λ yes.
        cancel_each-Asks _ (inr refl, yes) (id ∷ ids) _ _ u
          (All-map (λ j h. (h, yes)) (id ∷ ids) (each_one (id ∷ ids))) (λ s. nothing))
      (λ no. nothing)
