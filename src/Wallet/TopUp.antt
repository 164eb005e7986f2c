-- ===== src/Wallet/TopUp.antt =====
-- frontend/src/client/modules/wallet/pages/TopUpPage.tsx with the schemas of validators.ts and `topUp`
-- of api.ts: the limit of the wallet, and the payment by card.
--
-- Amounts are whole. `parse_float` is `parseFloat`, with `NaN` as `none`. That the browser leaves for
-- the gateway is a change of `location`.
pub mod Limits
mod Tests
use Prim.Native.String.{◌++◌}
use giki_wallet.Common.{
  ℕ, ◌+◌, ◌/◌, ◌==◌, String, Bool, true, false, Option, none, some, leb, ltb, if◌then◌else◌, codes,
  keep, List, [], ◌∷◌, zero, suc,
}
use giki_wallet.Errors.{Thrown, js_error, get_error_message}
use giki_wallet.Async.{Proc}
use giki_wallet.Async.Act.{Act, ◌>>=◌, ◌>>◌, return, throw, await, branch, try_catch, finally}
use giki_wallet.Notices.{Session, Toast, info, show, error_toast, set_store}
use giki_wallet.Wallet.Store.{PaymentMethod, card, TopUpFormData}
use giki_wallet.Wallet.Payment.{TopUpResult}
use giki_wallet.Auth.Forms.{is_digit}

-- `topUpRequestSchema`, the parts that a payment by card has; a missing amount is `NaN`.
pub record CardRequest : Type 0 where
  pub idempotency_key : String
  pub amount : Option ℕ
  pub method : PaymentMethod

pub record TopUpPage : Type 0 where
  pub is_loading : Bool
  pub max_limit : ℕ
  pub location : Option String

abbrev pub initial_page : TopUpPage
initial_page = record { is_loading = false; max_limit = 800; location = none }

pub data TopUpCall : Type 0 where
  limit_call : TopUpCall
  top_up_call : CardRequest → TopUpCall

-- `max_limit_paisa`, or the result of the payment.
abbrev pub TopUpAnswer : TopUpCall → Type 0
TopUpAnswer limit_call = ℕ
TopUpAnswer (top_up_call r) = TopUpResult

abbrev pub TopUpUi : Type 0
TopUpUi = Session TopUpPage

abbrev pub TopUpProcess : Type 0
TopUpProcess = Proc TopUpUi TopUpCall TopUpAnswer

abbrev pub TopUpAction : Type 0 → Type 0
TopUpAction A = Act TopUpUi TopUpCall TopUpAnswer A

-- `fetchLimit`; an error is only written to the console.
unfoldable pub fetch_limit : TopUpAction (Unit {0})
fetch_limit =
    try_catch (do limit ← await limit_call; set_store (λ p. record p { max_limit = limit / 100 }))
      (λ e. return tt)

-- `amount: z.number().min(1)`; the method and the key are of the right kind by their types.
abbrev pub amount_ok : Option ℕ → Bool
amount_ok none = false
amount_ok (some n) = leb 1 n

-- `topUp`, with what zod throws when the request is not of the schema.
unfoldable pub top_up : String → CardRequest → TopUpAction TopUpResult
top_up zod_message r =
    branch (amount_ok r.amount) (await (top_up_call r)) (throw (js_error zod_message))

-- `balance + amount > maxLimit`, which `NaN` is not.
abbrev pub exceeds : ℕ → Option ℕ → ℕ → Bool
exceeds balance none limit = false
exceeds balance (some n) limit = ltb limit (balance + n)

abbrev pub info_toast : String → Toast
info_toast text = record { kind = info; message = text; description = none }

abbrev pub no_page : TopUpAction (Unit {0})
no_page = show (error_toast "Failed to get payment page. Please try again.")

-- What follows the answer: the gateway's page, unless the answer has none.
abbrev pub go_to_gateway : String → TopUpAction (Unit {0})
go_to_gateway url = branch (url == "") no_page (do
  show (info_toast "Redirecting to payment gateway...")
  set_store (λ p. record p { location = some url }))

abbrev pub set_loading : Bool → TopUpAction (Unit {0})
set_loading b = set_store (λ p. record p { is_loading = b })

abbrev pub card_request : TopUpFormData → Option ℕ → CardRequest
card_request f amount = record {
  idempotency_key = f.idempotency_key;
  amount = amount;
  method = card;
}

module _ (decimal : ℕ → String) (parse_float : String → Option ℕ) (zod_message : String) where
  -- The payment itself, once the amount is within the limit.
  unfoldable pub pay_by_card : TopUpFormData → TopUpAction (Unit {0})
  unfolding top_up
  pay_by_card f =
      set_loading true
      >> finally
          (try_catch
            (do
              result ← top_up zod_message (card_request f (parse_float f.amount))
              go_to_gateway result.redirect)
            (λ e. show (error_toast (get_error_message e))))
          (set_loading false)

  -- `handleCardPayment`, with the balance and the limit of the moment of the click.
  unfoldable pub handle_card_payment : TopUpFormData → ℕ → ℕ → TopUpAction (Unit {0})
  unfolding pay_by_card
  handle_card_payment f balance max_limit =
      branch (f.amount == "") (show (error_toast "Please enter an amount")) (
        branch (exceeds balance (parse_float f.amount) max_limit)
          (show (
            error_toast
              ("Top-up would exceed maximum allowed wallet balance of RS " ++ decimal max_limit)))
          (pay_by_card f))

-- `value.replace(/\D/g, '')`, and the first six of what is left.
unfoldable pub mobile_number_of : List ℕ → List ℕ
mobile_number_of text = keep is_digit text

abbrev pub first : {A : Type 0} → ℕ → List A → List A
first zero xs = []
first (suc n) [] = []
first (suc n) (x ∷ xs) = let rest = first n xs in x ∷ rest

unfoldable pub cnic_last_six_of : List ℕ → List ℕ
cnic_last_six_of text = first 6 (keep is_digit text)
