-- ===== src/Transport/Holds/Tests.antt =====
-- What the page makes of the holds, on small inputs.
use giki_wallet.Common.{ℕ, ◌≡◌, refl, String, true, some, [], ◌∷◌, ◌==◌, if◌then◌else◌}
use giki_wallet.Common.Sorting.{sort_by, insert_by}
use giki_wallet.Transport.Data.{Trip}
use giki_wallet.Transport.Tests.{ali, h1_out, with_trips, student_trip}
use giki_wallet.Transport.Holds.{
  soonest, time_left, once_after, upcoming_openings, auto_refresh, show_modal, after_selection,
  blocks_leaving,
}

abbrev clock : String → ℕ
clock text = if text == "soon" then 61500 else 900000

-- The hold that expires sooner decides.
one_minute_left : time_left clock (h1_out ∷ record h1_out { expires_at = "soon" } ∷ []) 1000 ≡ 60
unfolding time_left soonest
one_minute_left = refl

abbrev locked_trip : Trip
locked_trip = record student_trip { status = "SCHEDULED" }

asks_when_it_opens :
    auto_refresh clock (record with_trips { all_trips = locked_trip ∷ []; initialized = true }) 1000
    ≡ once_after 899000
unfolding auto_refresh upcoming_openings sort_by insert_by
asks_when_it_opens = refl

students_confirm_here : after_selection (some ali) with_trips ≡ show_modal
unfolding after_selection
students_confirm_here = refl

held_seats_stay : blocks_leaving (h1_out ∷ []) "/transport" "/tickets" ≡ true
unfolding blocks_leaving
held_seats_stay = refl
