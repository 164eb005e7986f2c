-- ===== src/Transport/OldCard/Stops.antt =====
-- The stops that the card of TransportBookingCard.tsx offers.
use giki_wallet.Common.{◌≡◌, ap, Bool-cases, inl, inr, List, [], ◌∷◌, ◌++◌, some, find}
use giki_wallet.Transport.Data.{TripStop}
use giki_wallet.Transport.Stops.{is_giki}
use giki_wallet.Transport.OldCard.{before_giki, after_giki}

-- Of stops with one at GIKI, the card of one direction offers those before the first of them, the other
-- those after it, and between them stands that one alone.
pub before_giki-after_giki :
    (stops : List TripStop) (giki : TripStop)
    → find is_giki stops ≡ some giki
    → stops ≡ before_giki stops ++ giki ∷ after_giki stops
unfolding before_giki after_giki
before_giki-after_giki [] giki e = cc
before_giki-after_giki (s ∷ rest) giki e = elim (Bool-cases (is_giki s)) [
  | inl t ↦ let same : some s ≡ some giki = rw t at e in rw t cc
  | inr f ↦
      let later : rest ≡ before_giki rest ++ giki ∷ after_giki rest =
        before_giki-after_giki rest giki (rw f at e) in
      rw f (ap (λ l. s ∷ l) later)
]
