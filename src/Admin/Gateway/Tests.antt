-- ===== src/Admin/Gateway/Tests.antt =====
-- The filters of the payments.
use giki_wallet.Common.{ℕ, ◌≡◌, none, some, [], ◌∷◌, String}
use giki_wallet.Async.Requests.{pending}
use giki_wallet.Async.{advance}
use giki_wallet.Admin.Gateway.{GatewayUi, initial_gateway, list_call}
use giki_wallet.Admin.Gateway.Asked.{status_of, filter_action, filter_asks}

abbrev beginning : GatewayUi ℕ
beginning = record {
  store = record (initial_gateway 0 7 13) { page = 4 };
  user = none;
  toasts = [];
}

abbrev no_amount : String → ℕ
no_amount text = 0

first_page_again :
    pending (advance (filter_action no_amount (status_of "FAILED")) beginning).1
    ≡ list_call 1 100 (record {
      search = "";
      status = some "FAILED";
      payment_method = none;
      start_date = 7;
      end_date = 13;
    })
      ∷ []
first_page_again = filter_asks no_amount (status_of "FAILED") beginning
