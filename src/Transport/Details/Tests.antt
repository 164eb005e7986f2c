-- ===== src/Transport/Details/Tests.antt =====
-- The form of a seat, filled in.
use giki_wallet.Common.{◌≡◌, ◌≤◌, refl, arith, true, List, [], ◌∷◌}
use giki_wallet.Common.Maps.{lookup, insert}
use giki_wallet.Transport.Data.{self, spouse, guest}
use giki_wallet.Transport.State.{TransportState}
use giki_wallet.Transport.Booking.Seats.{selves}
use giki_wallet.Auth.User.{AuthUser, employee}
use giki_wallet.Transport.Tests.{ali, h1_out, with_trips}
use giki_wallet.Transport.Details.{
  Passengers, Edit, choose_relation, type_name, edits, edit, options, passenger_at, is_valid,
  can_review,
}
use giki_wallet.Transport.Details.Selves.{selves-edits}
use giki_wallet.Transport.Details.Modal.{in_users_name}

abbrev seats : Passengers
seats =
    ("h1", record { name = "Ali"; relation = self })
    ∷ ("h2", record { name = ""; relation = guest })
    ∷ []

-- The second seat cannot be the user's too; as the spouse's it gets a name.
abbrev form_edits : List Edit
form_edits = type_name "h2" "Sara" ∷ choose_relation "h2" spouse ∷ choose_relation "h2" self ∷ []

filled_in :
    edits "Ali" form_edits seats
    ≡ ("h1", record { name = "Ali"; relation = self })
      ∷ ("h2", record { name = "Sara"; relation = spouse })
      ∷ []
unfolding edits edit options passenger_at lookup insert
filled_in = refl

selves-edits_example : selves (edits "Ali" form_edits seats) ≤ 1
selves-edits_example = selves-edits 1 "Ali" form_edits seats (omega arith) (omega arith)

-- The seat of somebody's spouse, and a user who is an employee.
abbrev spouse_seat : Passengers
spouse_seat = ("h1", record { name = "Sara"; relation = spouse }) ∷ []

abbrev held_state : TransportState
held_state = record with_trips { active_holds = h1_out ∷ []; passengers = spouse_seat }

abbrev worker : AuthUser
worker = record ali { user_type = employee }

-- Before that, the page would have opened the modal.
reviewed : can_review held_state.active_holds held_state.passengers ≡ true
unfolding can_review is_valid lookup
reviewed = refl

-- The employee travels in Sara's place, as a spouse.
spouse_by_another_name :
    in_users_name worker "h1" held_state
    ≡ record { hold_id = "h1"; passenger_name = "Ali"; passenger_relation = "SPOUSE" }
unfolding lookup
spouse_by_another_name = refl
