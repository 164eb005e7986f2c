-- ===== src/Wallet/Payment/Tests.antt =====
-- A payment that is confirmed by its first poll, and one that times out.
use giki_wallet.Common.{◌≡◌, refl, arith, true, [], some, none}
use giki_wallet.Async.{fulfilled}
use giki_wallet.Wallet.Payment.{
  Payment, TopUpResult, pending, succeeded, success, failed, processing, timed_out, mounted_hook,
  initiate_payment, top_up_answered, top_up_result, top_up_as, poll_as, start_polling, tick,
  tick_answered, poll_once, handle_success, clear_all_timers,
}
use giki_wallet.Wallet.Payment.Steps.{Happens, begin, go, pay, answered, timeout, polled}
use giki_wallet.Wallet.Payment.Timer.{IsTimed, Happens-IsTimed}
use giki_wallet.Wallet.Payment.Success.{Confirmed, success-Confirmed}
use giki_wallet.Wallet.Payment.Countdown.{seconds, seconds_time_out, initiate_payment_times_out}

abbrev accepted : TopUpResult
accepted = record { txn_ref_no = "T1"; status = pending; message = ""; redirect = "" }

abbrev paid : TopUpResult
paid = record accepted { status = succeeded }

abbrev after_payment : Payment
after_payment = record mounted_hook {
  store = record { status = success; time_left = 100; txn_ref_no = "T1"; error_message = none };
  aborted = true;
  balances_fetched = 1;
}

a_payment : Happens after_payment
unfolding initiate_payment top_up_answered top_up_result top_up_as start_polling tick tick_answered
    poll_once poll_as handle_success clear_all_timers
a_payment =
    go
      (go (go (go begin (pay refl refl)) (answered (fulfilled accepted) refl))
        (timeout (omega arith)))
      (polled [] [] "T1" (fulfilled paid) refl)

Happens-IsTimed_example : IsTimed after_payment
Happens-IsTimed_example = Happens-IsTimed after_payment a_payment

success-Confirmed_example : Confirmed a_payment
success-Confirmed_example = success-Confirmed after_payment a_payment refl

abbrev two_seconds_left : Payment
two_seconds_left = record after_payment {
  store = record { status = processing; time_left = 2; txn_ref_no = "T1"; error_message = none };
}

seconds_time_out_example :
    (seconds 1 two_seconds_left
      ≡ record two_seconds_left { store = record two_seconds_left.store { time_left = 1 } })
    × ((seconds 2 two_seconds_left).store ≡ record two_seconds_left.store {
      status = failed;
      time_left = 0;
      error_message = some timed_out;
    })
seconds_time_out_example = seconds_time_out 1 two_seconds_left refl

initiate_payment_times_out_example :
    ((seconds 99 (initiate_payment mounted_hook)).store.status ≡ processing)
    × ((seconds 99 (initiate_payment mounted_hook)).store.time_left ≡ 1)
    × ((seconds 100 (initiate_payment mounted_hook)).store ≡ record {
      status = failed;
      time_left = 0;
      txn_ref_no = "";
      error_message = some timed_out;
    })
initiate_payment_times_out_example = initiate_payment_times_out mounted_hook refl
