-- ===== src/Transport/Card/Offers.antt =====
-- The stops that the card of RouteCard.tsx offers, and what RouteGrid.tsx makes of the one chosen; the
-- time that the card says is left until a trip can be booked.
use giki_wallet.Common.{
  ℕ, ◌+◌, ◌*◌, ◌/◌, ◌-◌, ◌≤◌, ◌<◌, ◌≡◌, ◌≢◌, sym, arith, Bool, true, false, not, Bool-cases, inl,
  inr, some, List, [], ◌∷◌, map, find, find-holds, keep, All, Any, String, leb, ltb, any, ◌==◌,
  eq_iff,
}
use giki_wallet.Transport.Data.{Trip, TripStop, BookingSelection}
use giki_wallet.Transport.Stops.{stop_option, is_giki, get_giki_stop_object}
use giki_wallet.Transport.State.{Direction}
use giki_wallet.Transport.Booking.Directions.{Goes}
use giki_wallet.Transport.Grid.{is_trip, book}
use giki_wallet.Transport.Grid as Grid
use giki_wallet.Transport.Grid.Choice.{handle_book-Goes}
use giki_wallet.Transport.Card.{
  names_giki, stop_options, offers, Remaining, opening_soon, in_days_hours, in_hours_minutes,
  in_minutes, remaining_of, get_time_remaining,
}

-- The names of stops write GIKI in capitals, or not at all.
abbrev pub InCapitals : List TripStop → Type 0
InCapitals stops = All (λ s. is_giki s ≡ names_giki s) stops

-- No two stops of the list have the same id.
abbrev pub DistinctStops : List TripStop → Type 0
DistinctStops [] = Unit
DistinctStops (s ∷ rest) = All (λ r. s.stop_id ≢ r.stop_id) rest × DistinctStops rest

-- A stop of the list that is offered under the id.
abbrev Offered : String → TripStop → Type 0
Offered id s = (names_giki s ≡ false) × (s.stop_id ≡ id)

find-Any :
    (test : TripStop → Bool) (l : List TripStop) (x : TripStop)
    → find test l ≡ some x
    → Any (λ y. y ≡ x) l
find-Any test [] x e = cc
find-Any test (y ∷ l) x e = elim (Bool-cases (test y)) [
  | inl t ↦ let same : some y ≡ some x = rw t at e in inl cc
  | inr f ↦ inr (find-Any test l x (rw f at e))
]

offered :
    (id : String) (l : List TripStop)
    → any (offers id) (map stop_option (keep (λ s. not (names_giki s)) l)) ≡ true
    → Any (Offered id) l
offered id [] e = cc
offered id (s ∷ l) e = elim (Bool-cases (names_giki s)) [
  | inl t ↦ inr (offered id l (rw t at e))
  | inr f ↦ elim (Bool-cases (s.stop_id == id)) [
    | inl same ↦ inl (f, ground (arith, eq_iff s.stop_id id))
    | inr other ↦
        let later : any (offers id) (map stop_option (keep (λ s. not (names_giki s)) l)) ≡ true =
          rw other at (rw f at e) in
        inr (offered id l later)
  ]
]

elsewhere :
    (id : String) (s : TripStop) (l : List TripStop)
    → All (λ r. s.stop_id ≢ r.stop_id) l
    → Any (Offered id) l
    → s.stop_id ≢ id
elsewhere id s [] h a = absurd a
elsewhere id s (r ∷ l) (p, h) (inl (f, same)) = rw (sym same) p
elsewhere id s (r ∷ l) (p, h) (inr a) = elsewhere id s l h a

All-at : {A : Type 0} (P : A → Type 0) (l : List A) (x : A) → All P l → Any (λ y. y ≡ x) l → P x
All-at P [] x h a = absurd a
All-at P (y ∷ l) x (p, h) (inl e) = rw (sym e) p
All-at P (y ∷ l) x (p, h) (inr a) = All-at P l x h a

-- An offered stop is another than a stop of the list at GIKI.
apart :
    (id : String) (giki : TripStop) (l : List TripStop)
    → InCapitals l
    → DistinctStops l
    → Any (Offered id) l
    → Any (λ y. y ≡ giki) l
    → is_giki giki ≡ true
    → id ≢ giki.stop_id
apart id giki [] c d a b t = absurd a
apart id giki (s ∷ l) (c, cs) (d, ds) (inl (f, same)) (inl e) t =
    let u : is_giki s ≡ true = rw e t in absurd cc
apart id giki (s ∷ l) (c, cs) (d, ds) (inl (f, same)) (inr b) t =
    rw (sym same) (All-at (λ r. s.stop_id ≢ r.stop_id) l giki d b)
apart id giki (s ∷ l) (c, cs) (d, ds) (inr a) (inl e) t =
    rw (sym e) (λ k. elsewhere id s l d a (sym k))
apart id giki (s ∷ l) (c, cs) (d, ds) (inr a) (inr b) t = apart id giki l cs ds a b t

module _ (trip_id stop_id : String) (count : ℕ) (t : Trip) where
  -- On a trip that has other ids for other stops, and no stop that writes GIKI with a small letter:
  -- a stop that the card offers makes a selection that goes in the direction of the card to
  -- `addSelection` and passes its checks of the stops.
  pub offered_stop-Goes :
      (trips : List Trip) (way : Direction) (sel : BookingSelection)
      → find (is_trip trip_id) trips ≡ some t
      → InCapitals t.stops
      → DistinctStops t.stops
      → any (offers stop_id) (stop_options (some t)) ≡ true
      → Grid.handle_book way trip_id stop_id count trips ≡ book sel
      → Goes t.stops way sel
  unfolding stop_options get_giki_stop_object
  offered_stop-Goes trips way sel found capitals distinct offer e =
      handle_book-Goes trip_id stop_id count t trips way sel found
        (λ giki k.
          apart stop_id giki t.stops capitals distinct (offered stop_id t.stops offer)
            (find-Any is_giki t.stops giki k) (find-holds is_giki t.stops k))
        e

-- What the text on a locked trip says of the milliseconds that are left.
abbrev pub Says : Remaining → ℕ → Type 0
Says opening_soon left = left ≤ 60000
Says (in_days_hours d h) left =
    (1 ≤ d) × (h < 24) × ((24 * d + h) * 3600000 ≤ left) × (left < (24 * d + h + 1) * 3600000)
Says (in_hours_minutes h m) left =
    (1 ≤ h)
    × (h < 24)
    × (m < 60)
    × ((60 * h + m) * 60000 ≤ left)
    × (left < (60 * h + m + 1) * 60000)
Says (in_minutes m) left = (1 ≤ m) × (m < 60) × (m * 60000 ≤ left) × (left < (m + 1) * 60000)

remaining_of-Says : (left : ℕ) → 60000 < left → Says (remaining_of (left / 60000)) left
remaining_of-Says left h = elim (Bool-cases (ltb 0 (left / 60000 / 60 / 24))) [
  | inl t ↦ rw t (ground arith, ground arith, ground arith, ground arith)
  | inr f ↦ rw f (elim (Bool-cases (ltb 0 (left / 60000 / 60))) [
    | inl t ↦ rw t (ground arith, ground arith, ground arith, ground arith, ground arith)
    | inr g ↦ rw g (elim (Bool-cases (ltb 0 (left / 60000))) [
      | inl t ↦ rw t (ground arith, ground arith, ground arith, ground arith)
      | inr k ↦ ground arith
    ])
  ])
]

-- The text on a locked trip: with days and hours it is less than an hour short of what is left, with
-- hours and minutes or with minutes alone less than a minute, and "soon" is at most a minute.
pub get_time_remaining-Says :
    (time_of : String → ℕ) (now : ℕ) (text : String)
    → Says (get_time_remaining time_of now text) (time_of text - now)
unfolding get_time_remaining
get_time_remaining-Says time_of now text = elim (Bool-cases (leb (time_of text) (now + 60000))) [
  | inl t ↦ rw t (ground arith)
  | inr f ↦ rw f (remaining_of-Says (time_of text - now) (ground arith))
]
