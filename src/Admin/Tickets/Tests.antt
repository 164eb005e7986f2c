-- ===== src/Admin/Tickets/Tests.antt =====
-- The filters of the tickets.
use giki_wallet.Common.{◌≡◌, refl, none, [], ◌∷◌, map}
use giki_wallet.Async.{advance}
use giki_wallet.Async.Act.{run}
use giki_wallet.Async.Requests.{pending}
use giki_wallet.Admin.Tickets.{
  TicketsUi, initial_tickets, status, filtered, fetch_tickets, change_filter,
}

abbrev third_page : TicketsUi
third_page = record {
  store = record (initial_tickets 0 7) {
    params = record (initial_tickets 0 7).params { page = 3 };
  };
  user = none;
  toasts = [];
}

-- The third page of the new filter is asked for before the first.
asked_twice :
    map (λ q. q.page) (pending (advance (run (change_filter (status "CONFIRMED"))) third_page).1)
    ≡ 3 ∷ 1 ∷ []
unfolding advance change_filter fetch_tickets filtered
asked_twice = refl
