-- ===== src/Wallet/Payment.antt =====
-- frontend/src/client/modules/wallet/hooks/useJazzCashPayment.ts over the payment slice of
-- store/index.ts: a top-up with its countdown and its polling.
--
-- A running interval and a pending timeout are not named but counted, since a handle that is
-- overwritten can no longer be cleared; a handle is there or not. A missing text and an empty one
-- are both falsy: they are the empty text.
pub mod Steps
pub mod Timer
pub mod Countdown
pub mod Success
mod Tests
use giki_wallet.Common.{
  ℕ, ◌+◌, ◌-◌, String, Bool, true, false, not, ◌&&◌, ◌||◌, Option, none, some, List, [], ◌∷◌, ◌++◌,
  ◌==◌, str_or, leb, if◌then◌else◌,
}
use giki_wallet.Errors.{Thrown, http_error, app_error, js_error, other, get_error_message}
use giki_wallet.Async.{Reply, fulfilled, rejected}

pub data PaymentFlowStatus : Type 0 where
  idle initiating processing success failed : PaymentFlowStatus

pub data PaymentStatus : Type 0 where
  pending succeeded refused unknown : PaymentStatus

pub record TopUpResult : Type 0 where
  pub txn_ref_no : String
  pub status : PaymentStatus
  pub message : String
  pub redirect : String

pub record PaymentState : Type 0 where
  pub status : PaymentFlowStatus
  pub time_left : ℕ
  pub txn_ref_no : String
  pub error_message : Option String

-- The store's slice, the four references of the hook, and what runs for it: intervals, timeouts, the
-- top-up (`is_active` is set exactly while it is awaited), the polls that are out, each with its
-- transaction, and the balance requests made so far.
pub record Payment : Type 0 where
  pub store : PaymentState
  pub timer : Bool
  pub poll : Bool
  pub controller : Bool
  pub is_active : Bool
  pub mounted : Bool
  pub intervals : ℕ
  pub timeouts : ℕ
  pub aborted : Bool
  pub polls : List String
  pub balances_fetched : ℕ
  pub left_page : Bool

abbrev pub is_processing : PaymentFlowStatus → Bool
is_processing processing = true
is_processing _ = false

abbrev pub reset_state : PaymentState
reset_state = record { status = idle; time_left = 120; txn_ref_no = ""; error_message = none }

abbrev pub mounted_hook : Payment
mounted_hook = record {
  store = reset_state;
  timer = false;
  poll = false;
  controller = false;
  is_active = false;
  mounted = true;
  intervals = 0;
  timeouts = 0;
  aborted = false;
  polls = [];
  balances_fetched = 0;
  left_page = false;
}

abbrev pub set_status : PaymentFlowStatus → Payment → Payment
set_status status p = record p { store = record p.store { status = status } }

unfoldable pub clear_all_timers : Payment → Payment
clear_all_timers p = record p {
  timer = false;
  poll = false;
  controller = false;
  intervals = if p.timer then p.intervals - 1 else p.intervals;
  timeouts = if p.poll then p.timeouts - 1 else p.timeouts;
  aborted = p.controller || p.aborted;
}

unfoldable pub handle_success : Payment → Payment
unfolding clear_all_timers
handle_success p =
    let cleared = set_status success (clear_all_timers p) in
    record cleared { balances_fetched = cleared.balances_fetched + 1 }

abbrev pub fail_with : String → Payment → Payment
fail_with message p = record p {
  store = record p.store { status = failed; error_message = some message };
}

unfoldable pub handle_failure : String → Payment → Payment
unfolding clear_all_timers
handle_failure message p =
    if message == "canceled" || message == "Canceled"
    then p
    else fail_with message (clear_all_timers p)

unfoldable pub start_polling : Payment → Payment
start_polling p = if p.poll then p else record p { poll = true; timeouts = p.timeouts + 1 }

abbrev pub may_poll : PaymentState → Bool
may_poll s = is_processing s.status && not (s.txn_ref_no == "")

-- A timeout fires: the part of `tick` before its `await`.
unfoldable pub tick : Payment → Payment
tick p =
    let fired = record p { poll = false; timeouts = p.timeouts - 1 } in
    if may_poll p.store
    then record fired { polls = fired.polls ++ p.store.txn_ref_no ∷ [] }
    else fired

-- The two tests of `pollOnce`, on the status of the result.
unfoldable pub poll_as : PaymentStatus → String → Payment → Payment
unfolding handle_success handle_failure
poll_as succeeded message p = handle_success p
poll_as refused message p = handle_failure (str_or message "Transaction failed") p
poll_as pending message p = p
poll_as unknown message p = p

-- What `pollOnce` does with the reply.
unfoldable pub poll_once : Reply TopUpResult → Payment → Payment
unfolding poll_as
poll_once (rejected e) p = p
poll_once (fulfilled r) p = poll_as r.status r.message p

-- The part of `tick` after its `await`; `others` are the polls still out.
unfoldable pub tick_answered : List String → Reply TopUpResult → Payment → Payment
unfolding poll_once
tick_answered others reply p =
    let polled = poll_once reply (record p { polls = others }) in
    if may_poll polled.store
    then record polled { poll = true; timeouts = polled.timeouts + 1 }
    else polled

abbrev pub timed_out : String
timed_out = "Payment timed out. Please try again."

-- One second of the interval.
unfoldable pub interval_tick : Payment → Payment
unfolding handle_failure
interval_tick p =
    if leb p.store.time_left 1
    then (let ended = handle_failure timed_out p in
        record ended { store = record ended.store { time_left = 0 } })
    else record p { store = record p.store { time_left = p.store.time_left - 1 } }

-- `initiatePayment` up to its `await`.
unfoldable pub initiate_payment : Payment → Payment
initiate_payment p = if p.is_active then p else record p {
  store = record reset_state { status = processing; time_left = 100 };
  controller = true;
  is_active = true;
  aborted = false;
  timer = true;
  intervals = p.intervals + 1;
}

-- `err.code === 'ERR_CANCELED'`: the interceptor of the HTTP client has made an `AppError` of it.
abbrev pub is_canceled : Thrown → Bool
is_canceled (app_error e) = e.code == "ERR_CANCELED"
is_canceled _ = false

-- The tests of `initiatePayment` on the status of the result, where it has no `redirect`.
unfoldable pub top_up_as : PaymentStatus → TopUpResult → Payment → Payment
unfolding handle_success handle_failure start_polling
top_up_as succeeded r p = handle_success p
top_up_as pending r p =
    start_polling (record p { store = record p.store { txn_ref_no = r.txn_ref_no } })
top_up_as refused r p = handle_failure (str_or r.message "Initiation failed") p
top_up_as unknown r p = handle_failure (str_or r.message "Initiation failed") p

abbrev pub is_succeeded : PaymentStatus → Bool
is_succeeded succeeded = true
is_succeeded _ = false

unfoldable pub top_up_result : TopUpResult → Payment → Payment
unfolding top_up_as
top_up_result r p =
    if is_succeeded r.status || r.redirect == ""
    then top_up_as r.status r p
    else record p { left_page = true }

abbrev pub not_active : Payment → Payment
not_active p = record p { is_active = false }

-- The rest of `initiatePayment`.
unfoldable pub top_up_answered : Reply TopUpResult → Payment → Payment
unfolding top_up_result handle_failure
top_up_answered (fulfilled r) p = not_active (top_up_result r p)
top_up_answered (rejected e) p =
    not_active (if is_canceled e then p else handle_failure (get_error_message e) p)

-- `resetPaymentState`, "Try Again".
unfoldable pub reset : Payment → Payment
reset p = record p { store = reset_state }

-- The page becomes visible again; the hook was rendered with the status of the store.
unfoldable pub visibility_changed : Payment → Payment
unfolding start_polling
visibility_changed p = if is_processing p.store.status then start_polling p else p

unfoldable pub unmount : Payment → Payment
unfolding clear_all_timers
unmount p = record (clear_all_timers p) { mounted = false }
