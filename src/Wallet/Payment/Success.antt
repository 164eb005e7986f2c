-- ===== src/Wallet/Payment/Success.antt =====
-- A payment is shown as successful only if the server has said so.
use giki_wallet.Common.{
  ◌≡◌, ◌⊎◌, inl, inr, refl, Bool, true, false, String, List, str_or, ◌==◌, ◌||◌, if◌then◌else◌,
}
use giki_wallet.Errors.{get_error_message}
use giki_wallet.Async.{Reply, fulfilled, rejected}
use giki_wallet.Wallet.Payment.{
  Payment, TopUpResult, PaymentStatus, success, pending, succeeded, refused, unknown, timed_out,
  is_canceled, is_succeeded, poll_as, top_up_as, clear_all_timers, handle_failure, start_polling,
  tick, poll_once, tick_answered, interval_tick, initiate_payment, top_up_result, top_up_answered,
  reset, visibility_changed, unmount,
}
use giki_wallet.Wallet.Payment.Steps.{
  Step, pay, try_again, second, timeout, polled, answered, visible, leave, Happens, begin, go,
}

-- The server's reply is that the payment succeeded.
abbrev pub IsSuccess : Reply TopUpResult → Type 0
IsSuccess (fulfilled r) = r.status ≡ succeeded
IsSuccess (rejected e) = ⊥

abbrev pub Tells : {p q : Payment} → Step p q → Type 0
Tells (polled l r txn reply e) = IsSuccess reply
Tells (answered reply a) = IsSuccess reply
Tells _ = ⊥

-- At some step so far the server has replied that the payment succeeded.
abbrev pub Confirmed : {p : Payment} → Happens p → Type 0
Confirmed begin = ⊥
Confirmed (go past step) = Confirmed past ⊎ Tells step

-- If `q` is shown as successful, `p` was already.
abbrev From : Payment → Payment → Type 0
From p q = q.store.status ≡ success → p.store.status ≡ success

if-From : (b : Bool) (p q r : Payment) → From p q → From p r → From p (if b then q else r)
if-From true p q r h k = h
if-From false p q r h k = k

module _ (p : Payment) where
  handle_failure-From : (message : String) → From p (handle_failure message p)
  unfolding handle_failure clear_all_timers
  handle_failure-From message =
      if-From (message == "canceled" || message == "Canceled") p _ _ (λ e. e) (λ e. cc)

  start_polling-From : From p (start_polling p)
  unfolding start_polling
  start_polling-From = if-From p.poll p _ _ (λ e. e) (λ e. e)

  tick-From : From p (tick p)
  unfolding tick
  tick-From = if-From _ p _ _ (λ e. e) (λ e. e)

  interval_tick-From : From p (interval_tick p)
  unfolding interval_tick
  interval_tick-From = if-From _ p _ _ (λ e. handle_failure-From timed_out e) (λ e. e)

  initiate_payment-From : From p (initiate_payment p)
  unfolding initiate_payment
  initiate_payment-From = if-From p.is_active p _ _ (λ e. e) (λ e. cc)

  visibility_changed-From : From p (visibility_changed p)
  unfolding visibility_changed
  visibility_changed-From = if-From _ p _ _ start_polling-From (λ e. e)

module _ (p : Payment) where
  -- What the reply explains.
  abbrev Explained : Reply TopUpResult → Payment → Type 0
  Explained reply q = q.store.status ≡ success → (p.store.status ≡ success) ⊎ IsSuccess reply

  if-Explained :
      (reply : Reply TopUpResult) (b : Bool) (q r : Payment)
      → Explained reply q
      → Explained reply r
      → Explained reply (if b then q else r)
  if-Explained reply true q r h k = h
  if-Explained reply false q r h k = k

  poll_as-Explained :
      (s : PaymentStatus) (message : String)
      → (poll_as s message p).store.status ≡ success
      → (p.store.status ≡ success) ⊎ (s ≡ succeeded)
  unfolding poll_as
  poll_as-Explained succeeded message e = inr refl
  poll_as-Explained refused message e =
      inl (handle_failure-From p (str_or message "Transaction failed") e)
  poll_as-Explained pending message e = inl e
  poll_as-Explained unknown message e = inl e

  poll_once-Explained : (reply : Reply TopUpResult) → Explained reply (poll_once reply p)
  unfolding poll_once
  poll_once-Explained (rejected f) = λ e. inl e
  poll_once-Explained (fulfilled r) = poll_as-Explained r.status r.message

  top_up_as-Explained :
      (s : PaymentStatus) (r : TopUpResult)
      → (top_up_as s r p).store.status ≡ success
      → (p.store.status ≡ success) ⊎ (s ≡ succeeded)
  unfolding top_up_as
  top_up_as-Explained succeeded r e = inr refl
  top_up_as-Explained pending r e =
      inl (start_polling-From (record p { store = record p.store { txn_ref_no = r.txn_ref_no } }) e)
  top_up_as-Explained refused r e =
      inl (handle_failure-From p (str_or r.message "Initiation failed") e)
  top_up_as-Explained unknown r e =
      inl (handle_failure-From p (str_or r.message "Initiation failed") e)

  top_up_result-Explained : (r : TopUpResult) → Explained (fulfilled r) (top_up_result r p)
  unfolding top_up_result
  top_up_result-Explained r =
      if-Explained (fulfilled r) (is_succeeded r.status || r.redirect == "") _ _
        (top_up_as-Explained r.status r) (λ e. inl e)

module _ (p : Payment) where
  tick_answered-Explained :
      (others : List String) (reply : Reply TopUpResult)
      → Explained p reply (tick_answered others reply p)
  unfolding tick_answered
  tick_answered-Explained others reply =
      if-Explained p reply _ _ _ (poll_once-Explained (record p { polls = others }) reply)
        (poll_once-Explained (record p { polls = others }) reply)

  top_up_answered-Explained :
      (reply : Reply TopUpResult) → Explained p reply (top_up_answered reply p)
  unfolding top_up_answered
  top_up_answered-Explained (fulfilled r) = top_up_result-Explained p r
  top_up_answered-Explained (rejected e) = λ s. inl (
      if-From (is_canceled e) p p (handle_failure (get_error_message e) p) (λ x. x)
        (handle_failure-From p (get_error_message e)) s)

Step-Explained :
    {p q : Payment} (step : Step p q)
    → q.store.status ≡ success
    → (p.store.status ≡ success) ⊎ Tells step
unfolding reset unmount clear_all_timers
Step-Explained {p} (pay m s) e = inl (initiate_payment-From p e)
Step-Explained {p} (try_again m s) e = cc
Step-Explained {p} (second i) e = inl (interval_tick-From p e)
Step-Explained {p} (timeout i) e = inl (tick-From p e)
Step-Explained {p} (polled l r txn reply f) e = tick_answered-Explained p _ reply e
Step-Explained {p} (answered reply a) e = top_up_answered-Explained p reply e
Step-Explained {p} (visible m) e = inl (visibility_changed-From p e)
Step-Explained {p} (leave m) e = inl e

-- Whatever happens to a payment from the moment that its hook is mounted: if it is shown as
-- successful, then at some step the server has replied to the top-up, or to a poll, that a payment
-- succeeded.
pub success-Confirmed : (p : Payment) (past : Happens p) → p.store.status ≡ success → Confirmed past
success-Confirmed _ begin e = cc
success-Confirmed _ (go {p} past step) e = elim (Step-Explained step e) [
  | inl before ↦ inl (success-Confirmed p past before)
  | inr told ↦ inr told
]
