-- ===== src/Transport/Details.antt =====
-- frontend/src/client/modules/transport/pages/PassengerDetailsPage.tsx: who travels on the held seats.
pub mod Selves
pub mod Modal
mod Tests
use giki_wallet.Common.{
  ℕ, ◌==◌, String, Bool, true, false, not, ◌&&◌, ◌||◌, Option, none, some, List, [], ◌∷◌, keep, any,
  length, nat_eq, if◌then◌else◌, map,
}
use giki_wallet.Common.Maps.{lookup, insert}
use giki_wallet.Transport.Data.{
  ActiveHold, Passenger, Relation, self, spouse, child, parent, guest, is_self, HeldSeat,
}
use giki_wallet.Transport.State.{Direction, outbound, inbound}
use giki_wallet.Transport.Holds.{held_seat}

abbrev pub Passengers : Type 0
Passengers = List (String × Passenger)

-- `blocker`: where the held seats may be taken to.
unfoldable pub blocks_details : List ActiveHold → String → String → Bool
blocks_details holds current next =
    not (nat_eq (length holds) 0) && not (current == next) && not (next == "/transport/tickets")

-- `isSelfSelected`.
abbrev pub is_self_selected : Passengers → Bool
is_self_selected m = any (λ e. is_self e.1.relation) m

-- `passengers[h.id] || { name: '', relation: 'GUEST' }`.
abbrev pub or_guest : Option Passenger → Passenger
or_guest none = record { name = ""; relation = guest }
or_guest (some p) = p

unfoldable pub passenger_at : Passengers → String → Passenger
unfolding lookup
passenger_at m id = or_guest (lookup id m)

abbrev pub can_select_self : Passengers → String → Bool
can_select_self m id = not (is_self_selected m) || is_self (passenger_at m id).relation

-- The menu of relations of a seat.
unfoldable pub options : Passengers → String → List Relation
unfolding passenger_at
options m id =
    keep (λ r. not (is_self r) || can_select_self m id)
      (self ∷ spouse ∷ child ∷ parent ∷ guest ∷ [])

-- The new passenger when another relation is chosen.
abbrev pub with_relation : String → Passenger → Relation → Passenger
with_relation user_name p self = record { name = user_name; relation = self }
with_relation user_name p val = record {
  name = if is_self p.relation then "" else p.name;
  relation = val;
}

-- What the user does with the form of a seat.
pub data Edit : Type 0 where
  choose_relation : String → Relation → Edit
  type_name : String → String → Edit

abbrev pub same_relation : Relation → Relation → Bool
same_relation self self = true
same_relation spouse spouse = true
same_relation child child = true
same_relation parent parent = true
same_relation guest guest = true
same_relation _ _ = false

-- A relation that the menu does not offer cannot be chosen, and the name of the user cannot be typed
-- over.
unfoldable pub edit : String → Edit → Passengers → Passengers
unfolding insert options passenger_at
edit user_name (choose_relation id val) m =
    if any (same_relation val) (options m id)
    then insert id (with_relation user_name (passenger_at m id) val) m
    else m
edit user_name (type_name id text) m =
    if not (is_self (passenger_at m id).relation)
    then insert id (record (passenger_at m id) { name = text }) m
    else m

-- The edits in their order, the first one last.
unfoldable pub edits : String → List Edit → Passengers → Passengers
unfolding edit
edits user_name [] m = m
edits user_name (e ∷ earlier) m = edit user_name e (edits user_name earlier m)

-- A seat whose passenger has a name; any passenger has a relation.
abbrev pub named : Option Passenger → Bool
named none = false
named (some p) = not (p.name == "")

abbrev pub every : {A : Type 0} → (A → Bool) → List A → Bool
every test [] = true
every test (x ∷ xs) = test x && every test xs

-- `isValid`.
unfoldable pub is_valid : List ActiveHold → Passengers → Bool
unfolding lookup
is_valid holds m = every (λ h. named (lookup h.id m)) holds

-- `outboundHolds` and `returnHolds`: all the holds on one side, by the direction in the store.
unfoldable pub outbound_holds : Direction → List ActiveHold → List HeldSeat
outbound_holds outbound holds = map held_seat holds
outbound_holds inbound holds = []

unfoldable pub return_holds : Direction → List ActiveHold → List HeldSeat
return_holds outbound holds = []
return_holds inbound holds = map held_seat holds

-- The button "Review & Confirm", which opens the modal, is enabled.
unfoldable pub can_review : List ActiveHold → Passengers → Bool
unfolding is_valid
can_review holds m = is_valid holds m && not (nat_eq (length holds) 0)
