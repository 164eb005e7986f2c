-- ===== src/Transport/Panels/Tests.antt =====
-- The smaller parts on small inputs.
use giki_wallet.Common.{◌≡◌, refl, true, some, [], ◌∷◌}
use giki_wallet.Transport.Tests.{student_trip, h1_out, selection, with_trips}
use giki_wallet.Transport.State.{TransportState}
use giki_wallet.Common.Maps.{lookup}
use giki_wallet.Transport.Panels.{get_trip_data, format_time, plain_confirmations}

held_selection :
    get_trip_data (student_trip ∷ []) (h1_out ∷ []) (some selection)
    ≡ some (record {
      route = "GIKI - Topi";
      departure_time = "";
      pickup = "Giki Main Gate";
      dropoff = "Topi";
      is_held = true;
    })
unfolding get_trip_data
held_selection = refl

two_minutes_five : format_time 125 ≡ (2, 5)
unfolding format_time
two_minutes_five = refl

abbrev one_held : TransportState
one_held = record with_trips { active_holds = h1_out ∷ [] }

nobody_is_named :
    plain_confirmations one_held
    ≡ record { hold_id = "h1"; passenger_name = ""; passenger_relation = "SELF" } ∷ []
unfolding plain_confirmations lookup
nobody_is_named = refl
