-- ===== src/Wallet/History/Tests.antt =====
-- Three transactions on two days.
use giki_wallet.Common.{ℕ, ◌≡◌, refl, String, [], ◌∷◌, ◌==◌, if◌then◌else◌, map}
use giki_wallet.Common.Groups.{group_into, push}
use giki_wallet.Wallet.History.{
  Transaction, ticket, group_transactions_by_date, sort_days, insert_day,
}

abbrev on_day : String → String → Transaction
on_day id day = record {
  id = id;
  type = ticket;
  description = "";
  amount = 200;
  timestamp = "";
  date = day;
  reference_id = "";
}

abbrev day_time : String → ℕ
day_time day = if day == "2026-01-02" then 2 else 1

latest_day_first :
    map
      (λ g. map (λ t. t.id) g.items)
      (group_transactions_by_date day_time
        (on_day "a" "2026-01-01" ∷ on_day "b" "2026-01-02" ∷ on_day "c" "2026-01-01" ∷ []))
    ≡ ("b" ∷ []) ∷ ("a" ∷ "c" ∷ []) ∷ []
unfolding group_transactions_by_date sort_days insert_day group_into push
latest_day_first = refl
