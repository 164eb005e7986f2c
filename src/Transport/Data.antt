-- ===== src/Transport/Data.antt =====
-- frontend/src/client/modules/transport/validators.ts: what the server sends, what is sent to it,
-- and the schemas by which the client checks its own requests.
--
-- Counts, sequence numbers and prices are natural numbers, dates are the texts that the server
-- sends. Whether a text is a UUID is decided by the library zod: the parameter `is_uuid`.
use giki_wallet.Common.{ℕ, ◌==◌, String, Bool, true, false, not, ◌&&◌, Option, List, leb}

pub record TripStop : Type 0 where
  pub stop_id : String
  pub stop_name : String
  pub sequence : ℕ

pub record Trip : Type 0 where
  pub id : String
  pub route_id : String
  pub route_name : String
  pub direction : String
  pub bus_type : String
  pub departure_time : String
  pub booking_opens_at : String
  pub booking_closes_at : String
  pub status : String
  pub available_seats : ℕ
  pub total_capacity : ℕ
  pub base_price : ℕ
  pub stops : List TripStop

pub record QuotaUsage : Type 0 where
  pub limit : ℕ
  pub used : ℕ
  pub remaining : ℕ

pub record QuotaResponse : Type 0 where
  pub outbound : QuotaUsage
  pub inbound : QuotaUsage

pub record ActiveHold : Type 0 where
  pub id : String
  pub trip_id : String
  pub expires_at : String
  pub direction : String
  pub route_name : String

pub record HoldSeatsRequest : Type 0 where
  pub trip_id : String
  pub count : ℕ
  pub pickup_stop_id : String
  pub dropoff_stop_id : String

pub record ConfirmItem : Type 0 where
  pub hold_id : String
  pub passenger_name : String
  pub passenger_relation : String

-- One of the `holds` of a `HoldSeatsResponse`.
pub record HeldSeat : Type 0 where
  pub hold_id : String
  pub expires_at : String

pub data Relation : Type 0 where
  self spouse child parent guest : Relation

abbrev pub is_self : Relation → Bool
is_self self = true
is_self _ = false

pub record Passenger : Type 0 where
  pub name : String
  pub relation : Relation

pub record BookingSelection : Type 0 where
  pub trip_id : String
  pub pickup_id : String
  pub dropoff_id : String
  pub ticket_count : ℕ

pub record BookingDraft : Type 0 where
  pub route_id : Option String
  pub trip_id : Option String
  pub pickup_id : Option String
  pub dropoff_id : Option String
  pub stop_id : Option String
  pub ticket_count : ℕ

pub record MyTicket : Type 0 where
  pub ticket_id : String
  pub ticket_code : String
  pub serial_no : ℕ
  pub status : String
  pub passenger_name : String
  pub passenger_relation : String
  pub is_self : Bool
  pub route_name : String
  pub direction : String
  pub relevant_location : String
  pub pickup_location : String
  pub dropoff_location : String
  pub departure_time : String
  pub bus_type : String
  pub price : ℕ
  pub is_cancellable : Bool

module _ (is_uuid : String → Bool) where
  -- `holdSeatsRequestSchema`.
  unfoldable pub hold_seats_request_ok : HoldSeatsRequest → Bool
  hold_seats_request_ok r =
      is_uuid r.trip_id
      && (leb 1 r.count && leb r.count 5)
      && (is_uuid r.pickup_stop_id && is_uuid r.dropoff_stop_id)

  -- `bookingSelectionSchema`, its refinement included.
  unfoldable pub booking_selection_ok : BookingSelection → Bool
  booking_selection_ok s =
      is_uuid s.trip_id
      && (is_uuid s.pickup_id && is_uuid s.dropoff_id)
      && (leb 1 s.ticket_count && leb s.ticket_count 3)
      && not (s.pickup_id == s.dropoff_id)
