-- ===== src/Wallet/TopUp/Tests.antt =====
-- A payment by card.
use giki_wallet.Common.{
  ℕ, ◌≡◌, refl, String, Option, none, some, [], ◌∷◌, ◌==◌, if◌then◌else◌, codes,
}
use giki_wallet.Async.{Reply, fulfilled}
use giki_wallet.Async.Act.{run}
use giki_wallet.Async.Runs.{World, execute}
use giki_wallet.Async.Requests.{Asks}
use giki_wallet.Wallet.Payment.{TopUpResult, pending}
use giki_wallet.Wallet.Store.{card, TopUpFormData}
use giki_wallet.Wallet.TopUp.{
  TopUpUi, TopUpCall, TopUpAnswer, limit_call, top_up_call, initial_page, info_toast, fetch_limit,
  top_up, pay_by_card, handle_card_payment, cnic_last_six_of,
}
use giki_wallet.Wallet.TopUp.Limits.{IsWithin, handle_card_payment-Asks}

abbrev opened : TopUpUi
opened = record { store = initial_page; user = none; toasts = [] }

abbrev form : TopUpFormData
form = record {
  idempotency_key = "k";
  amount = "500";
  method = card;
  mobile_number = "";
  cnic_last_six = "";
}

abbrev no_digits : ℕ → String
no_digits n = ""

abbrev five_hundred : String → Option ℕ
five_hundred text = if text == "500" then some 500 else none

abbrev paid : TopUpResult
paid = record { txn_ref_no = "t"; status = pending; message = ""; redirect = "https://bank" }

abbrev replies : (q : TopUpCall) → Reply (TopUpAnswer q)
replies limit_call = fulfilled 100000
replies (top_up_call r) = fulfilled paid

abbrev world : World TopUpUi TopUpCall TopUpAnswer
world = record { reply = replies; during = λ q s. s; between = λ s. s }

leaves_for_the_bank :
    execute world (run (handle_card_payment no_digits five_hundred "" form 100 800)) opened
    ≡ record opened {
      store = record initial_page { location = some "https://bank" };
      toasts = info_toast "Redirecting to payment gateway..." ∷ [];
    }
unfolding execute handle_card_payment pay_by_card top_up
leaves_for_the_bank = refl

limit_in_rupees :
    execute world (run fetch_limit) opened
    ≡ record opened { store = record initial_page { max_limit = 1000 } }
unfolding execute fetch_limit
limit_in_rupees = refl

six_digits : cnic_last_six_of (codes "12-34567") ≡ codes "123456"
unfolding cnic_last_six_of
six_digits = refl

handle_card_payment-Asks_example :
    Asks
      (IsWithin 100 800)
      (run (handle_card_payment no_digits five_hundred "" form 100 800))
      opened
handle_card_payment-Asks_example =
    handle_card_payment-Asks no_digits five_hundred "" form 100 800 opened
