-- ===== src/Transport/Store.antt =====
-- frontend/src/client/modules/transport/store.ts: the actions of the booking store.
use giki_wallet.Common.{
  ℕ, String, Bool, true, false, not, ◌&&◌, ◌||◌, Option, none, some, List, [], codes, codes_eq,
  upper, keep, length, ltb, if◌then◌else◌, is_some,
}
use giki_wallet.Common.Maps.{insert}
use giki_wallet.Errors.{Thrown, get_error_message}
use giki_wallet.Auth.User.{AuthUser, user_type_text}
use giki_wallet.Notices.{error_toast, success_toast, show, set_store}
use giki_wallet.Async.Act.{
  ◌>>=◌, ◌>>◌, return, get, await, await_act, branch, when, try_catch, finally,
}
use giki_wallet.Transport.Data.{Trip, QuotaResponse, ActiveHold, BookingDraft, Passenger}
use giki_wallet.Transport.State.{
  Direction, outbound, inbound, TransportState, empty_draft, fetch_all, release_all_active_holds,
  get_user_tickets, Action,
}

abbrev pub set_loading : Bool → Action (Unit {0})
set_loading b = set_store (λ s. record s { loading = b })

-- The `catch` of an action that only tells the user.
abbrev pub tell : Thrown → Action (Unit {0})
tell e = show (error_toast (get_error_message e))

unfoldable pub set_round_trip : Bool → Action (Unit {0})
set_round_trip enabled = do
  u ← get
  branch (enabled && ltb 0 (length u.store.active_holds))
      (show (error_toast "Please release active reservations before enabling Round Trip mode"))
      (when (not enabled) (set_store (λ s. record s { direction = outbound }))
        >> set_store (λ s. record s { is_round_trip = enabled }))

unfoldable pub set_direction : Direction → Action (Unit {0})
set_direction d = set_store (λ s. record s { direction = d })

unfoldable pub update_passenger : String → Passenger → Action (Unit {0})
update_passenger hold_id passenger =
    set_store (λ s. record s { passengers = insert hold_id passenger s.passengers })

abbrev pub cleared_flow : TransportState → TransportState
cleared_flow s = record s {
  outbound_selection = none;
  return_selection = none;
  passengers = [];
  draft_outbound = empty_draft;
  draft_inbound = empty_draft;
}

unfoldable pub reset_booking_flow : Action (Unit {0})
reset_booking_flow = set_store cleared_flow

-- `Partial<BookingDraft>`: the keys that are there, with their values.
pub record DraftPatch : Type 0 where
  pub route_id : Option (Option String)
  pub trip_id : Option (Option String)
  pub pickup_id : Option (Option String)
  pub dropoff_id : Option (Option String)
  pub stop_id : Option (Option String)
  pub ticket_count : Option ℕ

abbrev pub patched {ℓ} : {A : Type ℓ} → Option A → A → A
patched none old = old
patched (some new) old = new

abbrev pub apply_patch : DraftPatch → BookingDraft → BookingDraft
apply_patch p d = record {
  route_id = patched p.route_id d.route_id;
  trip_id = patched p.trip_id d.trip_id;
  pickup_id = patched p.pickup_id d.pickup_id;
  dropoff_id = patched p.dropoff_id d.dropoff_id;
  stop_id = patched p.stop_id d.stop_id;
  ticket_count = patched p.ticket_count d.ticket_count;
}

unfoldable pub update_draft : Direction → DraftPatch → Action (Unit {0})
update_draft outbound p =
    set_store (λ s. record s { draft_outbound = apply_patch p s.draft_outbound })
update_draft inbound p = set_store (λ s. record s { draft_inbound = apply_patch p s.draft_inbound })

-- `role === text`, for the role of the signed-in user; nobody signed in has no role.
abbrev pub role_is : Option AuthUser → String → Bool
role_is none text = false
role_is (some u) text = codes_eq (upper (user_type_text u.user_type)) (codes text)

-- The test of the filter in `fetchData`.
unfoldable pub sees : Option AuthUser → Trip → Bool
sees user trip =
    if role_is user "STUDENT" && not (codes_eq (upper trip.bus_type) (codes "STUDENT"))
    then false
    else if role_is user "EMPLOYEE" && not (codes_eq (upper trip.bus_type) (codes "EMPLOYEE"))
    then false
    else true

abbrev pub trips_or_empty : Option (List Trip) → List Trip
trips_or_empty none = []
trips_or_empty (some trips) = trips

abbrev pub store_fetched :
    Option AuthUser
    → Option (List Trip) × QuotaResponse × List ActiveHold
    → TransportState
    → TransportState
store_fetched user found s = record s {
  all_trips = keep (sees user) (trips_or_empty found.0);
  quota = some found.1;
  active_holds = found.2;
  initialized = true;
  error = none;
}

-- The `try` and `catch` of `fetchData`.
unfoldable pub fetch_and_store : Action (Unit {0})
fetch_and_store =
    try_catch (do found ← await fetch_all; u ← get; set_store (store_fetched u.user found))
      (λ e. set_store (λ s. record s { error = some (get_error_message e) }) >> tell e)

unfoldable pub fetch_data : Bool → Action (Unit {0})
fetch_data show_loading = do
  when show_loading (set_loading true)
  finally fetch_and_store (when show_loading (set_loading false))

unfoldable pub fetch_user_tickets : Action (Unit {0})
fetch_user_tickets =
    try_catch
      (do tickets ← await get_user_tickets; set_store (λ s. record s { my_tickets = tickets }))
      (λ e. return tt)

unfoldable pub release_all_holds : Action (Unit {0})
release_all_holds = do
  set_loading true
  finally
      (try_catch
        (do
          _ ← await release_all_active_holds
          await_act (fetch_data false)
          reset_booking_flow
          show (success_toast "Reservations released"))
        tell)
      (set_loading false)

unfoldable pub can_proceed : TransportState → Bool
can_proceed s =
    if s.is_round_trip
    then is_some s.outbound_selection && is_some s.return_selection
    else is_some s.outbound_selection || is_some s.return_selection
