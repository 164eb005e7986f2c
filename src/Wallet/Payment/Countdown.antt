-- ===== src/Wallet/Payment/Countdown.antt =====
-- The countdown of a payment ends.
use giki_wallet.Common.{ℕ, suc, zero, ◌+◌, ◌-◌, ◌≡◌, ◌∙◌, refl, ap, arith, false, some, none, leb}
use giki_wallet.Wallet.Payment.{
  Payment, PaymentState, processing, failed, timed_out, clear_all_timers, handle_failure,
  interval_tick, initiate_payment,
}

-- So many seconds of the interval, with nothing else in between.
abbrev pub seconds : ℕ → Payment → Payment
seconds zero p = p
seconds (suc n) p = seconds n (interval_tick p)

above_one : (n : ℕ) → leb (n + 2) 1 ≡ false
above_one n = ground arith

one_less : (n : ℕ) → n + 2 - 1 ≡ n + 1
one_less n = omega arith

interval_tick_early :
    (p : Payment) (n : ℕ)
    → p.store.time_left ≡ n + 2
    → interval_tick p ≡ record p { store = record p.store { time_left = n + 1 } }
unfolding interval_tick
interval_tick_early p n e = rw (e, above_one n, one_less n) refl

interval_tick_last :
    (p : Payment)
    → p.store.time_left ≡ 1
    → (interval_tick p).store
      ≡ record p.store { status = failed; time_left = 0; error_message = some timed_out }
unfolding interval_tick handle_failure clear_all_timers
interval_tick_last p e = rw e refl

-- If a payment has some seconds left and nothing else happens, then after all but the last of them
-- only the time has changed, and after the last the payment has failed by timing out.
pub seconds_time_out :
    (n : ℕ) (p : Payment)
    → p.store.time_left ≡ n + 1
    → (seconds n p ≡ record p { store = record p.store { time_left = 1 } })
      × ((seconds (suc n) p).store
          ≡ record p.store { status = failed; time_left = 0; error_message = some timed_out })
seconds_time_out zero p e =
    (ap (λ t. record p { store = record p.store { time_left = t } }) e, interval_tick_last p e)
seconds_time_out (suc n) p e =
    let early = interval_tick_early p n (e ∙ omega arith) in
    let (before, last) =
      seconds_time_out n (record p { store = record p.store { time_left = n + 1 } }) refl in
    (ap (seconds n) early ∙ before, ap (λ q. (seconds (suc n) q).store) early ∙ last)

abbrev at_start : PaymentState
at_start = record { status = processing; time_left = 100; txn_ref_no = ""; error_message = none }

begun : (p : Payment) → p.is_active ≡ false → (initiate_payment p).store ≡ at_start
unfolding initiate_payment
begun p e = rw e refl

abbrev failed_after : PaymentState → PaymentState
failed_after s = record s { status = failed; time_left = 0; error_message = some timed_out }

-- A payment that is begun, when no other top-up is awaited, and that hears nothing is still
-- processed with a second left after 99 seconds, and has failed by timing out after 100.
pub initiate_payment_times_out :
    (p : Payment)
    → p.is_active ≡ false
    → ((seconds 99 (initiate_payment p)).store.status ≡ processing)
      × ((seconds 99 (initiate_payment p)).store.time_left ≡ 1)
      × ((seconds 100 (initiate_payment p)).store ≡ record {
        status = failed;
        time_left = 0;
        txn_ref_no = "";
        error_message = some timed_out;
      })
initiate_payment_times_out p e =
    let (before, last) =
      seconds_time_out 99 (initiate_payment p) (ap (λ s. s.time_left) (begun p e)) in
    (
      ap (λ q. q.store.status) before ∙ ap (λ s. s.status) (begun p e),
      ap (λ q. q.store.time_left) before,
      last ∙ ap failed_after (begun p e),
    )
