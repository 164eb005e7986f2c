-- ===== src/Wallet/TopUp/Limits.antt =====
-- What a payment by card in TopUpPage.tsx may ask for.
use giki_wallet.Common.{ℕ, ◌+◌, ◌≤◌, ◌≡◌, refl, arith, String, true, false, Option, some, none}
use giki_wallet.Async.Act.{run}
use giki_wallet.Async.Requests.{Asks, nothing, writes, splits, Asks-await}
use giki_wallet.Wallet.Store.{TopUpFormData}
use giki_wallet.Wallet.TopUp.{
  TopUpCall, limit_call, top_up_call, TopUpUi, amount_ok, top_up, exceeds, pay_by_card,
  handle_card_payment,
}

-- A payment of an amount that is not nothing, and with which the wallet has at most its limit.
abbrev pub IsWithin : ℕ → ℕ → TopUpCall → Type 0
IsWithin balance limit limit_call = ⊥
IsWithin balance limit (top_up_call r) =
    (n : ℕ) × (r.amount ≡ some n) × (1 ≤ n) × (balance + n ≤ limit)

within :
    (balance limit : ℕ) (o : Option ℕ)
    → exceeds balance o limit ≡ false
    → amount_ok o ≡ true
    → (n : ℕ) × (o ≡ some n) × (1 ≤ n) × (balance + n ≤ limit)
within balance limit none e k = cc
within balance limit (some n) e k = (n, refl, ground arith, ground arith)

-- Whatever the form has and whatever is answered: a payment by card is only asked for with an
-- amount of at least one and within the limit of the wallet.
pub handle_card_payment-Asks :
    (decimal : ℕ → String) (parse_float : String → Option ℕ) (zod_message : String)
    (f : TopUpFormData) (balance max_limit : ℕ) (u : TopUpUi)
    → Asks
        (IsWithin balance max_limit)
        (run (handle_card_payment decimal parse_float zod_message f balance max_limit))
        u
unfolding handle_card_payment pay_by_card top_up
handle_card_payment-Asks decimal parse_float zod_message f balance max_limit u =
    splits (λ e. writes nothing)
      (λ e.
        splits (λ e. writes nothing)
          (λ fits. writes (
            splits
              (λ ok.
                Asks-await (within balance max_limit (parse_float f.amount) fits ok)
                  (λ r s.
                    splits (λ e. writes (writes nothing)) (λ e. writes (writes (writes nothing))))
                  (λ e s. writes (writes nothing)))
              (λ bad. writes (writes nothing)))))
