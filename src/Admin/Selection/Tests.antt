-- ===== src/Admin/Selection/Tests.antt =====
-- Three trips, some of them selected.
use giki_wallet.Common.{ℕ, ◌≡◌, refl, String, none, true, [], ◌∷◌}
use giki_wallet.Async.Act.{run}
use giki_wallet.Async.Requests.{Asks}
use giki_wallet.Admin.Trips.{TripUi, initial_trips}
use giki_wallet.Admin.Selection.{
  add, delete, add_all, toggle_select_one, cancel_all, handle_batch_action,
}
use giki_wallet.Admin.Selection.Batch.{CancelsOneOf, handle_batch_action-Asks}

turns_off_and_on :
    toggle_select_one "b" (toggle_select_one "b" ("a" ∷ "b" ∷ "c" ∷ [])) ≡ "a" ∷ "c" ∷ "b" ∷ []
unfolding toggle_select_one add delete
turns_off_and_on = refl

an_id_is_added_once : add_all ("a" ∷ "b" ∷ "a" ∷ []) [] ≡ "a" ∷ "b" ∷ []
unfolding add_all add
an_id_is_added_once = refl

abbrev no_digits : ℕ → String
no_digits n = ""

abbrev beginning : TripUi
beginning = record { store = initial_trips; user = none; toasts = [] }

handle_batch_action-Asks_example :
    Asks
      (λ q. CancelsOneOf ("a" ∷ "c" ∷ []) q × (true ≡ true))
      (run (handle_batch_action no_digits true cancel_all ("a" ∷ "c" ∷ [])))
      beginning
handle_batch_action-Asks_example =
    handle_batch_action-Asks no_digits true ("a" ∷ "c" ∷ []) beginning
