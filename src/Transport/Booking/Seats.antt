-- ===== src/Transport/Booking/Seats.antt =====
-- Who travels on the seats that `addSelection` holds, and how `confirmBooking` counts them.
use giki_wallet.Common.{
  ℕ, ◌+◌, ◌≤◌, ◌≡◌, ◌≢◌, arith, Bool, true, false, Bool-cases, List, [], ◌∷◌, length, keep, Option,
  none, some, String, ◌==◌, eq_iff, eq_refl, if◌then◌else◌, inl, inr, find, All,
}
use giki_wallet.Common.Maps.{lookup, insert, lookup-insert}
use giki_wallet.Auth.User.{AuthUser}
use giki_wallet.Transport.Data.{Passenger, self, guest, is_self, HeldSeat, ActiveHold, QuotaUsage}
use giki_wallet.Transport.State.{TransportState}
use giki_wallet.Transport.Booking.{
  guests, name_of, existing_self_on_trip, new_passengers, Confirmation, hold_goes, leg_count,
  use_quota,
}

-- How many of the passengers are the user.
abbrev pub selves : List (String × Passenger) → ℕ
selves m = length (keep (λ e. is_self e.1.relation) m)

pub selves-insert :
    (k : String) (v : Passenger) (m : List (String × Passenger))
    → selves (insert k v m) ≤ (if is_self v.relation then 1 else 0) + selves m
unfolding insert
selves-insert k v [] = ground arith
selves-insert k v ((j, w) ∷ m) = ground (arith, selves-insert k v m)

selves-guests :
    (hs : List HeldSeat) (m : List (String × Passenger)) → selves (guests hs m) ≤ selves m
selves-guests [] m = omega arith
selves-guests (h ∷ hs) m = omega (
  arith,
  selves-guests hs (insert h.hold_id (record { name = ""; relation = guest }) m),
  selves-insert h.hold_id (record { name = ""; relation = guest }) m,
)

-- Of the passengers that one selection adds, at most one is the user, and none is if one of the
-- seats already held on the trip is the user's own.
pub selves-new_passengers :
    (user : Option AuthUser) (s : TransportState) (trip_id : String) (hs : List HeldSeat)
    → selves (new_passengers user s trip_id hs) ≤ (if existing_self_on_trip s trip_id then 0 else 1)
unfolding new_passengers
selves-new_passengers user s trip_id [] = ground arith
selves-new_passengers user s trip_id (h ∷ hs) =
    elim (Bool-cases (existing_self_on_trip s trip_id)) [
      | inl old ↦ rw old (selves-guests (h ∷ hs) [])
      | inr new ↦ rw new (
          omega (
            arith,
            selves-guests (h ∷ hs) [],
            selves-insert h.hold_id (record { name = name_of user; relation = self })
                (guests (h ∷ hs) []),
          ))
    ]

abbrev Has : List (String × Passenger) → String → Type 0
Has m k = lookup k m ≢ none

Has-insert_self :
    (k : String) (v : Passenger) (m : List (String × Passenger)) → Has (insert k v m) k
Has-insert_self k v m = rw lookup-insert (rw (eq_refl k) (λ e. cc))

Has-insert :
    (k j : String) (v : Passenger) (m : List (String × Passenger)) → Has m j → Has (insert k v m) j
Has-insert k j v m h = rw lookup-insert (split (k == j))
  where
    split : (b : Bool) → (if b then some v else lookup j m) ≢ none
    split true = λ e. cc
    split false = h

Has-guests :
    (j : String) (hs : List HeldSeat) (m : List (String × Passenger))
    → Has m j
    → Has (guests hs m) j
Has-guests j [] m h = h
Has-guests j (x ∷ hs) m h = Has-guests j hs _ (Has-insert x.hold_id j _ m h)

seats-guests :
    (hs : List HeldSeat) (m : List (String × Passenger)) → All (λ h. Has (guests hs m) h.hold_id) hs
seats-guests [] m = tt
seats-guests (x ∷ hs) m =
    (Has-guests x.hold_id hs _ (Has-insert_self x.hold_id _ m), seats-guests hs _)

All-insert :
    (k : String) (v : Passenger) (m : List (String × Passenger)) (hs : List HeldSeat)
    → All (λ h. Has m h.hold_id) hs
    → All (λ h. Has (insert k v m) h.hold_id) hs
All-insert k v m [] _ = tt
All-insert k v m (x ∷ hs) (h, rest) = (Has-insert k x.hold_id v m h, All-insert k v m hs rest)

-- Every seat that the server holds gets a passenger.
pub new_passengers_complete :
    (user : Option AuthUser) (s : TransportState) (trip_id : String) (hs : List HeldSeat)
    → All (λ h. lookup h.hold_id (new_passengers user s trip_id hs) ≢ none) hs
unfolding new_passengers
new_passengers_complete user s trip_id [] = tt
new_passengers_complete user s trip_id (h ∷ hs) = split (existing_self_on_trip s trip_id)
  where
    seated : List (String × Passenger) → Type 0
    seated m = All (λ x. lookup x.hold_id m ≢ none) (h ∷ hs)

    split :
        (b : Bool)
        → seated (
            if b
            then guests (h ∷ hs) []
            else insert h.hold_id
                (record { name = name_of user; relation = self })
                (guests (h ∷ hs) []))
    split true = seats-guests (h ∷ hs) []
    split false = All-insert h.hold_id _ _ (h ∷ hs) (seats-guests (h ∷ hs) [])

hold_goes_one_way :
    (holds : List ActiveHold) (c : Confirmation)
    → hold_goes holds "OUTBOUND" c ≡ true
    → hold_goes holds "INBOUND" c ≡ true
    → ⊥
hold_goes_one_way holds c = go (find (λ h. h.id == c.hold_id) holds)
  where
    go :
        (o : Option ActiveHold)
        → (elim o [ none ↦ false | some h ↦ h.direction == "OUTBOUND" ]) ≡ true
        → (elim o [ none ↦ false | some h ↦ h.direction == "INBOUND" ]) ≡ true
        → ⊥
    go none e f = cc
    go (some h) e f = cc ((eq_iff h.direction "OUTBOUND").0 e, (eq_iff h.direction "INBOUND").0 f)

-- The confirmations that `confirmBooking` charges to the outbound quota and those that it charges
-- to the inbound quota are together at most the confirmations.
pub leg_counts-le-length :
    (holds : List ActiveHold) (cs : List Confirmation)
    → leg_count holds "OUTBOUND" cs + leg_count holds "INBOUND" cs ≤ length cs
unfolding leg_count
leg_counts-le-length holds [] = omega arith
leg_counts-le-length holds (c ∷ cs) =
    ground (arith, leg_counts-le-length holds cs, hold_goes_one_way holds c)

-- A quota keeps its total, as long as no more is used than remains.
use_quota-total :
    (n : ℕ) (q : QuotaUsage)
    → n ≤ q.remaining
    → (use_quota n q).used + (use_quota n q).remaining ≡ q.used + q.remaining
unfolding use_quota
use_quota-total n q h = omega arith
