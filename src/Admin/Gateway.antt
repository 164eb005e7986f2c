-- ===== src/Admin/Gateway.antt =====
-- frontend/src/admin/modules/gateway-transactions: the store of store.ts, with the types of schema.ts
-- and the requests of service.ts.
--
-- Dates are milliseconds. `Number` stands for JavaScript's numbers with a fraction, and
-- `parse_hundredth` for `parseFloat(text) / 100.0`. The download that `exportTransactions` starts in
-- the browser is left out, its request and its error are modelled.
pub mod Asked
pub mod Page
mod Tests
use giki_wallet.Common.{
  ℕ, ◌==◌, String, Bool, true, false, Option, none, some, List, [], map, if◌then◌else◌,
}
use giki_wallet.Async.{Proc}
use giki_wallet.Async.Act.{Act, ◌>>=◌, ◌>>◌, return, get, await, try_catch, finally, spawn}
use giki_wallet.Notices.{Session, show, error_toast, success_toast, set_store}

pub record GatewayTransaction : Type 0 where
  pub txn_ref_no : String
  pub user_id : String
  pub user_name : String
  pub user_email : String
  pub amount : String
  pub status : String
  pub payment_method : String
  pub created_at : String
  pub updated_at : String
  pub bill_ref_id : Option String
  pub gateway_message : Option String
  pub gateway_status_code : Option String

pub record GatewayTransactionResponse : Type 0 where
  pub transactions : List GatewayTransaction
  pub total_count : ℕ
  pub total_amount : String
  pub page : ℕ
  pub page_size : ℕ

pub record Params : Type 0 where
  pub search : String
  pub status : Option String
  pub payment_method : Option String
  pub start_date : ℕ
  pub end_date : ℕ

-- `getLiabilityBalance`, `getRevenueBalance` and `getPeriodRevenue` are awaited together, by
-- `Promise.all`: the request is rejected as soon as one of the three is.
pub data GatewayRequest : Type 0 where
  list_call : ℕ → ℕ → Params → GatewayRequest
  verify_call : String → GatewayRequest
  finance_call : ℕ → ℕ → GatewayRequest
  export_call : Params → GatewayRequest

-- `x === 'ALL' ? undefined : x`.
abbrev pub unless_all : String → Option String
unless_all x = if x == "ALL" then none else some x

module _ (Number : Type 0) where
  pub record GatewayState : Type 0 where
    pub transactions : List GatewayTransaction
    pub total_count : ℕ
    pub total_liability : Number
    pub total_revenue : Number
    pub period_volume : Number
    pub period_revenue : Number
    pub is_loading : Bool
    pub is_updating : Bool
    pub page : ℕ
    pub page_size : ℕ
    pub search : String
    pub status : String
    pub payment_method : String
    pub start_date : ℕ
    pub end_date : ℕ

  abbrev pub GatewayAnswer : GatewayRequest → Type 0
  GatewayAnswer (list_call page size p) = GatewayTransactionResponse
  GatewayAnswer (verify_call ref) = GatewayTransaction
  GatewayAnswer (finance_call from to) = Number × Number × Number
  GatewayAnswer (export_call p) = Unit

  abbrev pub GatewayUi : Type 0
  GatewayUi = Session GatewayState

  abbrev pub GatewayAction : Type 0 → Type 0
  GatewayAction A = Act GatewayUi GatewayRequest GatewayAnswer A

  abbrev pub GatewayProcess : Type 0
  GatewayProcess = Proc GatewayUi GatewayRequest GatewayAnswer

module _ {Number : Type 0} where
  -- The state at the start, with the week of the first moment.
  abbrev pub initial_gateway : Number → ℕ → ℕ → GatewayState Number
  initial_gateway nought week_start week_end = record {
    transactions = [];
    total_count = 0;
    total_liability = nought;
    total_revenue = nought;
    period_volume = nought;
    period_revenue = nought;
    is_loading = false;
    is_updating = false;
    page = 1;
    page_size = 100;
    search = "";
    status = "ALL";
    payment_method = "ALL";
    start_date = week_start;
    end_date = week_end;
  }

  abbrev pub params_of : GatewayState Number → Params
  params_of s = record {
    search = s.search;
    status = unless_all s.status;
    payment_method = unless_all s.payment_method;
    start_date = s.start_date;
    end_date = s.end_date;
  }

  -- `get()` of the store alone.
  abbrev pub get_store : GatewayAction Number (GatewayState Number)
  get_store = do s ← get; return s.store

  -- `fetchFinanceStats`; an error is only written to the console.
  unfoldable pub fetch_finance_stats : GatewayAction Number (Unit {0})
  fetch_finance_stats = do
    now ← get_store
    try_catch
        (do
          found ← await (finance_call now.start_date now.end_date)
          set_store (λ s. record s {
            total_liability = found.0;
            total_revenue = found.1;
            period_revenue = found.2;
          }))
        (λ e. return tt)

  unfoldable pub verify_transaction : String → GatewayAction Number (Unit {0})
  verify_transaction txn_ref_no = do
    set_store (λ s. record s { is_updating = true })
    finally
        (try_catch
          (do
            updated ← await (verify_call txn_ref_no)
            set_store (λ s. record s {
              transactions =
                  map (λ t. if t.txn_ref_no == txn_ref_no then updated else t) s.transactions;
            })
            show (success_toast "Transaction verified successfully"))
          (λ e. show (error_toast "Failed to verify transaction")))
        (set_store (λ s. record s { is_updating = false }))

  -- `exportTransactions`, up to the download.
  unfoldable pub export_transactions : GatewayAction Number (Unit {0})
  export_transactions = do
    now ← get_store
    try_catch (await (export_call (params_of now)))
        (λ e. show (error_toast "Failed to export transactions"))

module _ {Number : Type 0} (parse_hundredth : String → Number) where
  unfoldable pub fetch_transactions : GatewayAction Number (Unit {0})
  fetch_transactions = do
    set_store (λ s. record s { is_loading = true })
    now ← get_store
    finally
        (try_catch
          (do
            r ← await (list_call now.page now.page_size (params_of now))
            set_store (λ s. record s {
              transactions = r.transactions;
              total_count = r.total_count;
              period_volume = parse_hundredth r.total_amount;
            }))
          (λ e. show (error_toast "Failed to fetch gateway transactions")))
        (set_store (λ s. record s { is_loading = false }))

  -- A filter that is set, then a request that is not awaited.
  abbrev pub refetching :
      (GatewayState Number → GatewayState Number) → GatewayAction Number (Unit {0})
  refetching f = do set_store f; spawn fetch_transactions

  unfoldable pub set_page : ℕ → GatewayAction Number (Unit {0})
  set_page page = refetching (λ s. record s { page = page })

  unfoldable pub set_search : String → GatewayAction Number (Unit {0})
  set_search search = refetching (λ s. record s { search = search; page = 1 })

  unfoldable pub set_status : String → GatewayAction Number (Unit {0})
  set_status status = refetching (λ s. record s { status = status; page = 1 })

  unfoldable pub set_payment_method : String → GatewayAction Number (Unit {0})
  set_payment_method method = refetching (λ s. record s { payment_method = method; page = 1 })

  unfoldable pub set_date_range : ℕ → ℕ → GatewayAction Number (Unit {0})
  set_date_range from to = do
    refetching (λ s. record s { start_date = from; end_date = to; page = 1 })
    spawn fetch_finance_stats
