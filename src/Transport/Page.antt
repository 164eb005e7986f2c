-- ===== src/Transport/Page.antt =====
-- What the booking pages may do to the booking store: start any of its actions at any moment, as
-- often as they like, while others still wait.
pub mod Loading
pub mod Core
pub mod Safety
use giki_wallet.Common.{String, Bool, ◌≡◌, List}
use giki_wallet.Notices.{Session}
use giki_wallet.Async.{Page}
use giki_wallet.Async.Act.{run}
use giki_wallet.Transport.Data.{BookingSelection, Passenger}
use giki_wallet.Transport.State.{Direction, Ui, Request, Answer, Process}
use giki_wallet.Transport.Store.{
  DraftPatch, set_round_trip, set_direction, update_passenger, reset_booking_flow, update_draft,
  fetch_data, fetch_user_tickets, release_all_holds,
}
use giki_wallet.Transport.Booking.{
  add_selection, keep_outbound, Confirmation, confirm_booking, cancel_user_ticket,
}

pub data UiEvent : Type 0 where
  round_trip_toggled : Bool → UiEvent
  direction_chosen : Direction → UiEvent
  passenger_edited : String → Passenger → UiEvent
  flow_reset : UiEvent
  draft_edited : Direction → DraftPatch → UiEvent
  data_wanted : Bool → UiEvent
  tickets_wanted : UiEvent
  holds_released : UiEvent
  selection_added : BookingSelection → UiEvent
  outbound_kept : UiEvent
  booking_confirmed : List Confirmation → UiEvent
  ticket_cancelled : String → UiEvent

module _ (is_uuid : String → Bool) where
  abbrev pub action_of : UiEvent → Process
  action_of (round_trip_toggled b) = run (set_round_trip b)
  action_of (direction_chosen d) = run (set_direction d)
  action_of (passenger_edited id p) = run (update_passenger id p)
  action_of flow_reset = run reset_booking_flow
  action_of (draft_edited d p) = run (update_draft d p)
  action_of (data_wanted b) = run (fetch_data b)
  action_of tickets_wanted = run fetch_user_tickets
  action_of holds_released = run release_all_holds
  action_of (selection_added sel) = run (add_selection is_uuid sel)
  action_of outbound_kept = run keep_outbound
  action_of (booking_confirmed cs) = run (confirm_booking cs)
  action_of (ticket_cancelled id) = run (cancel_user_ticket id)

  -- Outside the store's actions the user may sign in or out and toasts may go.
  abbrev pub any_user : Page Ui Request Answer
  any_user = record {
    Starts = λ p. (e : UiEvent) × (p ≡ action_of e);
    Outside = λ s s'. s'.store ≡ s.store;
  }

  -- The same while one user stays signed in.
  abbrev pub same_user : Page Ui Request Answer
  same_user = record {
    Starts = λ p. (e : UiEvent) × (p ≡ action_of e);
    Outside = λ s s'. (s'.store ≡ s.store) × (s'.user ≡ s.user);
  }
