-- ===== src/Admin/Ledger/Tests.antt =====
-- Who gets to see the ledger.
use giki_wallet.Common.{ℕ, ◌/◌, ◌≡◌, refl, none, some, []}
use giki_wallet.Async.{advance}
use giki_wallet.Async.Act.{run}
use giki_wallet.Async.Requests.{pending}
use giki_wallet.Auth.User.{AuthUser, AuthUserType, finance_admin}
use giki_wallet.Admin.Ledger.{
  AdminRevenueTransaction, LedgerUi, load_transactions, initial_ledger, adapt_transaction,
}

abbrev hundredth : ℕ → ℕ
hundredth n = n / 100

abbrev user_of : AuthUserType → AuthUser
user_of type = record {
  id = "a1";
  name = "Admin";
  email = "";
  phone_number = none;
  user_type = type;
  created_at = none;
  updated_at = none;
}

abbrev opened : AuthUserType → LedgerUi 0 hundredth
opened type = record {
  store = initial_ledger 0 hundredth 0 7;
  user = some (user_of type);
  toasts = [];
}

abbrev deposit : AdminRevenueTransaction ℕ
deposit = record {
  id = "x1";
  amount = 50000;
  balance_after = 50000;
  created_at = "";
  type = "JAZZCASH_DEPOSIT";
  description = "Top-up";
  reference_id = "ref";
  user_name = some "";
  user_email = none;
}

deposit_is_shown_in_rupees : (adapt_transaction 0 hundredth deposit).amount ≡ 500
unfolding adapt_transaction
deposit_is_shown_in_rupees = refl

nameless_is_the_system : (adapt_transaction 0 hundredth deposit).user_name ≡ "System User"
unfolding adapt_transaction
nameless_is_the_system = refl

-- An administrator of the finances is let onto the page, and sees nothing.
finances_see_nothing :
    pending (advance (run (load_transactions 0 hundredth)) (opened finance_admin)).1 ≡ []
unfolding load_transactions advance
finances_see_nothing = refl
