-- ===== src/Transport/State.antt =====
-- The state of the booking store, and what its actions ask the server:
-- frontend/src/client/modules/transport/store.ts (lines 32 to 87) and api.ts.
use giki_wallet.Common.{String, Bool, false, Option, none, List, []}
use giki_wallet.Notices.{Session}
use giki_wallet.Async.{Proc}
use giki_wallet.Async.Act.{Act}
use giki_wallet.Transport.Data.{
  Trip, QuotaResponse, ActiveHold, MyTicket, BookingSelection, BookingDraft, Passenger,
  HoldSeatsRequest, HeldSeat, ConfirmItem,
}

pub data Direction : Type 0 where
  outbound inbound : Direction

pub record TransportState : Type 0 where
  pub all_trips : List Trip
  pub quota : Option QuotaResponse
  pub active_holds : List ActiveHold
  pub my_tickets : List MyTicket
  pub loading : Bool
  pub initialized : Bool
  pub error : Option String
  pub direction : Direction
  pub is_round_trip : Bool
  pub outbound_selection : Option BookingSelection
  pub return_selection : Option BookingSelection
  pub passengers : List (String × Passenger)
  pub draft_outbound : BookingDraft
  pub draft_inbound : BookingDraft

-- `{ ticketCount: 1 }`.
abbrev pub empty_draft : BookingDraft
empty_draft = record {
  route_id = none;
  trip_id = none;
  pickup_id = none;
  dropoff_id = none;
  stop_id = none;
  ticket_count = 1;
}

abbrev pub initial_state : TransportState
initial_state = record {
  all_trips = [];
  quota = none;
  active_holds = [];
  my_tickets = [];
  loading = false;
  initialized = false;
  error = none;
  direction = outbound;
  is_round_trip = false;
  outbound_selection = none;
  return_selection = none;
  passengers = [];
  draft_outbound = empty_draft;
  draft_inbound = empty_draft;
}

-- `fetch_all` is the `Promise.all` of `getWeeklySummary`, `getQuota` and `getActiveHolds`: it is
-- rejected as soon as one of the three is.
pub data Request : Type 0 where
  fetch_all release_all_active_holds get_user_tickets : Request
  hold_seats : HoldSeatsRequest → Request
  confirm_batch : List ConfirmItem → Request
  cancel_ticket : String → Request

-- What fulfils a request. The trips may be missing: the source writes `tripsData || []`.
abbrev pub Answer : Request → Type 0
Answer fetch_all = Option (List Trip) × QuotaResponse × List ActiveHold
Answer release_all_active_holds = Unit
Answer get_user_tickets = List MyTicket
Answer (hold_seats r) = List HeldSeat
Answer (confirm_batch items) = Unit
Answer (cancel_ticket id) = Unit

abbrev pub Ui : Type 0
Ui = Session TransportState

abbrev pub Action : Type 0 → Type 0
Action A = Act Ui Request Answer A

abbrev pub Process : Type 0
Process = Proc Ui Request Answer
