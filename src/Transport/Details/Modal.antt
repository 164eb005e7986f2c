-- ===== src/Transport/Details/Modal.antt =====
-- frontend/src/client/modules/transport/components/BookingConfirmationModal.tsx, which
-- PassengerDetailsPage.tsx and TransportPage.tsx show over their passengers: its inputs for each held seat
-- and its button "Confirm". The summaries are left out.
use giki_wallet.Common.{Bool, String, List, Option, some, none, if◌then◌else◌}
use giki_wallet.Common.Maps.{lookup, insert}
use giki_wallet.Auth.User.{AuthUser}
use giki_wallet.Transport.Data.{Passenger, Relation, self}
use giki_wallet.Transport.State.{TransportState}
use giki_wallet.Transport.Booking.{Confirmation}
use giki_wallet.Transport.Holds.{is_student, relation_text, confirmations}
use giki_wallet.Transport.Details.{Passengers}

-- `passengers[h.hold_id] || { name: '', relation: 'SELF' }`.
abbrev pub or_self : Option Passenger → Passenger
or_self none = record { name = ""; relation = self }
or_self (some p) = p

pub data ModalEdit : Type 0 where
  type_in_modal : String → String → ModalEdit
  choose_in_modal : String → Relation → ModalEdit

abbrev pub edited : ModalEdit → Passengers → Passengers
edited (type_in_modal id text) m = insert id (record (or_self (lookup id m)) { name = text }) m
edited (choose_in_modal id val) m = insert id (record (or_self (lookup id m)) { relation = val }) m

-- The name's input is disabled for students, and the menu of relations is not there for them.
unfoldable pub modal_edit : Bool → ModalEdit → Passengers → Passengers
unfolding lookup insert
modal_edit for_student e m = if for_student then m else edited e m

-- The button "Confirm", which is only disabled while a booking is being confirmed, and what
-- `handleConfirmBooking` then sends.
unfoldable pub on_confirm : Bool → Option AuthUser → TransportState → Option (List Confirmation)
unfolding confirmations
on_confirm confirming user s = if confirming then none else some (confirmations user s)

-- After the name of a seat has been emptied in the modal.
abbrev pub emptied : AuthUser → String → TransportState → TransportState
emptied user id s = record s {
  passengers = modal_edit (is_student user.user_type) (type_in_modal id "") s.passengers;
}

-- The confirmation of a seat with the user's name, and the relation that its form has.
abbrev pub in_users_name : AuthUser → String → TransportState → Confirmation
in_users_name user id s = record {
  hold_id = id;
  passenger_name = user.name;
  passenger_relation = relation_text (or_self (lookup id s.passengers)).relation;
}
