-- ===== src/Wallet/Payment/Steps.antt =====
-- What may happen to a payment, at any moment: frontend/src/client/modules/wallet, the hook
-- useJazzCashPayment.ts in the component JazzCashPayment.tsx.
--
-- The component shows "Pay" only while no payment was begun, and "Try Again" only after a failure.
use giki_wallet.Common.{◌<◌, ◌≡◌, ◌++◌, List, ◌∷◌, String, true}
use giki_wallet.Async.{Reply}
use giki_wallet.Wallet.Payment.{
  Payment, TopUpResult, idle, failed, mounted_hook, initiate_payment, interval_tick, tick,
  tick_answered, top_up_answered, reset, visibility_changed, unmount,
}

pub data Step (p : Payment) : Payment → Type 0 where
  pay : p.mounted ≡ true → p.store.status ≡ idle → Step p (initiate_payment p)
  try_again : p.mounted ≡ true → p.store.status ≡ failed → Step p (reset p)
  second : 0 < p.intervals → Step p (interval_tick p)
  timeout : 0 < p.timeouts → Step p (tick p)
  polled :
      (l r : List String) (txn : String) (reply : Reply TopUpResult)
      → p.polls ≡ l ++ txn ∷ r
      → Step p (tick_answered (l ++ r) reply p)
  answered : (reply : Reply TopUpResult) → p.is_active ≡ true → Step p (top_up_answered reply p)
  visible : p.mounted ≡ true → Step p (visibility_changed p)
  leave : p.mounted ≡ true → Step p (unmount p)

-- From the moment that the hook is mounted.
pub data Happens : Payment → Type 0 where
  begin : Happens mounted_hook
  go : {p q : Payment} → Happens p → Step p q → Happens q
