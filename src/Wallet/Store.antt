-- ===== src/Wallet/Store.antt =====
-- frontend/src/client/modules/wallet/store/index.ts: the data slice and the form slice.
--
-- Amounts are natural numbers. `crypto.randomUUID` is a parameter: a generated key is an argument of
-- the action that stores it.
pub mod Loading
pub mod Keys
mod Tests
use giki_wallet.Common.{ℕ, String, Bool, true, false, Option, none, some, List, [], str_or}
use giki_wallet.Errors.{Thrown, http_error, app_error, js_error, other}
use giki_wallet.Async.{Proc}
use giki_wallet.Async.Act.{Act, ◌>>=◌, ◌>>◌, set, await, try_catch}

-- `historyResponseSchema`, one entry.
pub record ApiTransaction : Type 0 where
  pub id : String
  pub amount : ℕ
  pub balance_after : ℕ
  pub type : String
  pub reference_id : String
  pub description : String
  pub created_at : String

pub record BalanceResponse : Type 0 where
  pub balance : ℕ
  pub currency : String

pub data PaymentMethod : Type 0 where
  mwallet card : PaymentMethod

pub record TopUpFormData : Type 0 where
  pub idempotency_key : String
  pub amount : String
  pub method : PaymentMethod
  pub mobile_number : String
  pub cnic_last_six : String

pub record WalletState : Type 0 where
  pub balance : ℕ
  pub currency : String
  pub transactions : List ApiTransaction
  pub is_data_loading : Bool
  pub data_error : Option String
  pub form_data : TopUpFormData

abbrev pub empty_form : String → TopUpFormData
empty_form key = record {
  idempotency_key = key;
  amount = "";
  method = mwallet;
  mobile_number = "";
  cnic_last_six = "";
}

abbrev pub initial_wallet : String → WalletState
initial_wallet key = record {
  balance = 0;
  currency = "PKR";
  transactions = [];
  is_data_loading = false;
  data_error = none;
  form_data = empty_form key;
}

pub data WalletRequest : Type 0 where
  get_balance get_history : WalletRequest

abbrev pub WalletAnswer : WalletRequest → Type 0
WalletAnswer get_balance = BalanceResponse
WalletAnswer get_history = List ApiTransaction

abbrev pub WalletAction : Type 0
WalletAction = Act WalletState WalletRequest WalletAnswer (Unit {0})

abbrev pub WalletProcess : Type 0
WalletProcess = Proc WalletState WalletRequest WalletAnswer

-- `error.message`, empty where there is none.
abbrev pub thrown_message : Thrown → String
thrown_message (http_error response message) = message
thrown_message (app_error e) = e.message
thrown_message (js_error message) = message
thrown_message other = ""

abbrev pub started_fetching : WalletState → WalletState
started_fetching s = record s { is_data_loading = true; data_error = none }

abbrev pub fetch_failed : String → Thrown → WalletState → WalletState
fetch_failed fallback e s = record s {
  data_error = some (str_or (thrown_message e) fallback);
  is_data_loading = false;
}

unfoldable pub fetch_balance : WalletAction
fetch_balance = do
  set started_fetching
  try_catch
      (do
        found ← await get_balance
        set (λ s. record s {
          balance = found.balance;
          currency = found.currency;
          is_data_loading = false;
        }))
      (λ e. set (fetch_failed "Failed to fetch balance" e))

unfoldable pub fetch_history : WalletAction
fetch_history = do
  set started_fetching
  try_catch
      (do
        found ← await get_history
        set (λ s. record s { transactions = found; is_data_loading = false }))
      (λ e. set (fetch_failed "Failed to fetch history" e))

-- The actions of the form, each with the key that it generates.
pub data FormAction : Type 0 where
  set_amount set_mobile_number set_cnic_last_six : String → FormAction
  set_method : PaymentMethod → FormAction
  reset_form_data : FormAction

unfoldable pub edit_form : FormAction → String → TopUpFormData → TopUpFormData
edit_form (set_amount t) key f = record f { amount = t; idempotency_key = key }
edit_form (set_mobile_number t) key f = record f { mobile_number = t; idempotency_key = key }
edit_form (set_cnic_last_six t) key f = record f { cnic_last_six = t; idempotency_key = key }
edit_form (set_method m) key f = record f { method = m; idempotency_key = key }
edit_form reset_form_data key f = empty_form key
