-- ===== src/Wallet/Payment/Timer.antt =====
-- The countdown's interval: it runs exactly while a payment is processed, and never twice.
use giki_wallet.Common.{
  ◌+◌, ◌≡◌, ◌∙◌, ◌||◌, refl, str_or, arith, Bool, true, false, String, ◌==◌, List, if◌then◌else◌,
}
use giki_wallet.Errors.{get_error_message}
use giki_wallet.Async.{Reply, fulfilled, rejected}
use giki_wallet.Wallet.Payment.{
  timed_out, is_canceled, is_succeeded, poll_as, top_up_as, Payment, PaymentStatus, TopUpResult,
  idle, failed, pending, succeeded, refused, unknown, is_processing, clear_all_timers,
  handle_success, handle_failure, start_polling, tick, poll_once, tick_answered, interval_tick,
  initiate_payment, top_up_result, top_up_answered, reset, visibility_changed, unmount,
}
use giki_wallet.Wallet.Payment.Steps.{
  Step, pay, try_again, second, timeout, polled, answered, visible, leave, Happens, begin, go,
}

-- One interval runs if the hook holds its handle, and none otherwise; it does exactly while a payment
-- is processed and the hook is mounted.
pub record IsTimed (p : Payment) : Type 0 where
  pub one : p.intervals ≡ (if p.timer then 1 else 0)
  pub running : p.timer ≡ (if p.mounted then is_processing p.store.status else false)

if-IsTimed : (b : Bool) (p q : Payment) → IsTimed p → IsTimed q → IsTimed (if b then p else q)
if-IsTimed true p q h k = h
if-IsTimed false p q h k = k

-- The countdown's fields of `q` are those of `p`.
abbrev Alike : Payment → Payment → Type 0
Alike p q =
    (q.intervals ≡ p.intervals)
    × (q.timer ≡ p.timer)
    × (q.mounted ≡ p.mounted)
    × (q.store.status ≡ p.store.status)

Alike-IsTimed : (p q : Payment) → Alike p q → IsTimed p → IsTimed q
Alike-IsTimed p q (e, f, g, k) h = record {
  one = rw (e, f) h.one;
  running = rw (f, g, k) h.running;
}

module _ (p : Payment) (h : IsTimed p) where
  handle_success-IsTimed : IsTimed (handle_success p)
  unfolding handle_success clear_all_timers
  handle_success-IsTimed = record { one = ground (arith, h.one); running = ground arith }

  handle_failure-IsTimed : (message : String) → IsTimed (handle_failure message p)
  unfolding handle_failure clear_all_timers
  handle_failure-IsTimed message =
      if-IsTimed (message == "canceled" || message == "Canceled") _ _ h
        (record { one = ground (arith, h.one); running = ground arith })

  start_polling-IsTimed : IsTimed (start_polling p)
  unfolding start_polling
  start_polling-IsTimed = if-IsTimed p.poll _ _ h (Alike-IsTimed p _ (refl, refl, refl, refl) h)

  tick-IsTimed : IsTimed (tick p)
  unfolding tick
  tick-IsTimed =
      if-IsTimed _ _ _ (Alike-IsTimed p _ (refl, refl, refl, refl) h)
        (Alike-IsTimed p _ (refl, refl, refl, refl) h)

  poll_as-IsTimed : (s : PaymentStatus) (message : String) → IsTimed (poll_as s message p)
  unfolding poll_as
  poll_as-IsTimed succeeded message = handle_success-IsTimed
  poll_as-IsTimed refused message = handle_failure-IsTimed (str_or message "Transaction failed")
  poll_as-IsTimed pending message = h
  poll_as-IsTimed unknown message = h

  poll_once-IsTimed : (reply : Reply TopUpResult) → IsTimed (poll_once reply p)
  unfolding poll_once
  poll_once-IsTimed (rejected e) = h
  poll_once-IsTimed (fulfilled r) = poll_as-IsTimed r.status r.message

  interval_tick-IsTimed : IsTimed (interval_tick p)
  unfolding interval_tick
  interval_tick-IsTimed =
      if-IsTimed _ _ _
        (Alike-IsTimed (handle_failure timed_out p) _ (refl, refl, refl, refl)
          (handle_failure-IsTimed timed_out))
        (Alike-IsTimed p _ (refl, refl, refl, refl) h)

  initiate_payment-IsTimed : p.mounted ≡ true → p.store.status ≡ idle → IsTimed (initiate_payment p)
  unfolding initiate_payment
  initiate_payment-IsTimed m s =
      if-IsTimed p.is_active _ _ h
        (record { one = fresh (h.one) (h.running ∙ rw (m, s) refl); running = rw m refl })
    where
      fresh : p.intervals ≡ (if p.timer then 1 else 0) → p.timer ≡ false → p.intervals + 1 ≡ 1
      fresh e f = ground arith

module _ (p : Payment) (h : IsTimed p) where
  tick_answered-IsTimed :
      (others : List String) (reply : Reply TopUpResult) → IsTimed (tick_answered others reply p)
  unfolding tick_answered
  tick_answered-IsTimed others reply =
      if-IsTimed _ _ _ (Alike-IsTimed _ _ (refl, refl, refl, refl) polled_ok) polled_ok
    where
      polled_ok : IsTimed (poll_once reply (record p { polls = others }))
      polled_ok =
          poll_once-IsTimed (record p { polls = others })
            (Alike-IsTimed p _ (refl, refl, refl, refl) h) reply

  top_up_as-IsTimed : (s : PaymentStatus) (r : TopUpResult) → IsTimed (top_up_as s r p)
  unfolding top_up_as
  top_up_as-IsTimed succeeded r = handle_success-IsTimed p h
  top_up_as-IsTimed pending r =
      start_polling-IsTimed (record p { store = record p.store { txn_ref_no = r.txn_ref_no } })
        (Alike-IsTimed p _ (refl, refl, refl, refl) h)
  top_up_as-IsTimed refused r = handle_failure-IsTimed p h (str_or r.message "Initiation failed")
  top_up_as-IsTimed unknown r = handle_failure-IsTimed p h (str_or r.message "Initiation failed")

  top_up_result-IsTimed : (r : TopUpResult) → IsTimed (top_up_result r p)
  unfolding top_up_result
  top_up_result-IsTimed r =
      if-IsTimed (is_succeeded r.status || r.redirect == "") _ _ (top_up_as-IsTimed r.status r)
        (Alike-IsTimed p _ (refl, refl, refl, refl) h)

  top_up_answered-IsTimed : (reply : Reply TopUpResult) → IsTimed (top_up_answered reply p)
  unfolding top_up_answered
  top_up_answered-IsTimed (fulfilled r) =
      Alike-IsTimed (top_up_result r p) _ (refl, refl, refl, refl) (top_up_result-IsTimed r)
  top_up_answered-IsTimed (rejected e) =
      Alike-IsTimed (if is_canceled e then p else handle_failure (get_error_message e) p) _
        (refl, refl, refl, refl)
        (if-IsTimed (is_canceled e) _ _ h (handle_failure-IsTimed p h (get_error_message e)))

  reset-IsTimed : p.store.status ≡ failed → IsTimed (reset p)
  unfolding reset
  reset-IsTimed s = record { one = h.one; running = h.running ∙ rw s refl }

  visibility_changed-IsTimed : IsTimed (visibility_changed p)
  unfolding visibility_changed
  visibility_changed-IsTimed = if-IsTimed _ _ _ (start_polling-IsTimed p h) h

  unmount-IsTimed : IsTimed (unmount p)
  unfolding unmount clear_all_timers
  unmount-IsTimed = record { one = ground (arith, h.one); running = refl }

Step-IsTimed : {p q : Payment} → Step p q → IsTimed p → IsTimed q
Step-IsTimed {p} (pay m s) h = initiate_payment-IsTimed p h m s
Step-IsTimed {p} (try_again m s) h = reset-IsTimed p h s
Step-IsTimed {p} (second i) h = interval_tick-IsTimed p h
Step-IsTimed {p} (timeout i) h = tick-IsTimed p h
Step-IsTimed {p} (polled l r txn reply e) h = tick_answered-IsTimed p h _ reply
Step-IsTimed {p} (answered reply a) h = top_up_answered-IsTimed p h reply
Step-IsTimed {p} (visible m) h = visibility_changed-IsTimed p h
Step-IsTimed {p} (leave m) h = unmount-IsTimed p h

-- Whatever happens to a payment from the moment that its hook is mounted: while the hook is mounted
-- and a payment is processed, exactly one interval counts it down and the hook can clear it; at any
-- other time none runs.
pub Happens-IsTimed : (p : Payment) → Happens p → IsTimed p
Happens-IsTimed _ begin = record { one = refl; running = refl }
Happens-IsTimed p (go {p = before} past step) = Step-IsTimed step (Happens-IsTimed before past)
