-- ===== src/Admin/Ledger.antt =====
-- frontend/src/admin/modules/transactions: the ledger of pages/TransactionsPage.tsx, with service.ts and
-- types.ts.
--
-- `Number` stands for amounts, which may be negative or have a fraction, and `hundredth` divides one by
-- a hundred. Dates are milliseconds. The table and its filter by category are left out.
mod Tests
use giki_wallet.Common.{
  ℕ, ◌==◌, String, Bool, true, false, Option, none, some, List, [], map, str_or, if◌then◌else◌,
  nat_eq, not, ◌&&◌,
}
use giki_wallet.Async.{Proc}
use giki_wallet.Async.Act.{Act, ◌>>=◌, ◌>>◌, return, get, await, when, spawn, try_catch, finally}
use giki_wallet.Notices.{Session, show, error_toast, set_store}
use giki_wallet.Auth.User.{AuthUser, AuthUserType, transport_admin}

pub data TransactionCategory : Type 0 where
  wallet ticket : TransactionCategory

pub data LedgerType : Type 0 where
  purchase refund received : LedgerType

-- What `loadTransactions` sends; an empty search is left out.
pub record LedgerParams : Type 0 where
  pub page : ℕ
  pub page_size : ℕ
  pub start_date : ℕ
  pub end_date : ℕ
  pub search : Option String

abbrev pub unless_empty : String → Option String
unless_empty text = if text == "" then none else some text

module _ (Number : Type 0) where
  pub record AdminRevenueTransaction : Type 0 where
    pub id : String
    pub amount : Number
    pub balance_after : Number
    pub created_at : String
    pub type : String
    pub description : String
    pub reference_id : String
    pub user_name : Option String
    pub user_email : Option String

  pub record Transaction : Type 0 where
    pub id : String
    pub user_name : String
    pub user_email : String
    pub amount : Number
    pub timestamp : String
    pub category : TransactionCategory
    pub type : LedgerType
    pub ticket_number : String
    pub passenger_name : String
    pub sender_name : String
    pub description : String

  pub record WeeklyStats : Type 0 where
    pub total_income : Number
    pub total_refunds : Number
    pub transaction_count : ℕ

  -- The server's answer; the list and the statistics may be missing.
  pub record LedgerAnswer : Type 0 where
    pub items : Option (List AdminRevenueTransaction)
    pub total_records : ℕ
    pub page : ℕ
    pub page_size : ℕ
    pub weekly_stats : Option WeeklyStats

  pub record LedgerPage : Type 0 where
    pub transactions : List Transaction
    pub is_loading : Bool
    pub page : ℕ
    pub page_size : ℕ
    pub total_count : ℕ
    pub stats : WeeklyStats
    pub week_start : ℕ
    pub week_end : ℕ
    pub search : String

abbrev pub category_of : String → TransactionCategory
category_of type =
    if type == "TRANSPORT_BOOKING" then ticket else if type == "REFUND" then ticket else wallet

abbrev pub ledger_type_of : String → LedgerType
ledger_type_of type =
    if type == "TRANSPORT_BOOKING" then purchase else if type == "REFUND" then refund else received

abbrev pub name_or : Option String → String → String
name_or none fallback = fallback
name_or (some name) fallback = str_or name fallback

module _ {Number : Type 0} (nought : Number) (hundredth : Number → Number) where
  -- `adaptTransaction`; every transaction is completed.
  unfoldable pub adapt_transaction : AdminRevenueTransaction Number → Transaction Number
  adapt_transaction item = record {
    id = item.id;
    user_name = name_or item.user_name "System User";
    user_email = name_or item.user_email "-";
    amount = hundredth item.amount;
    timestamp = item.created_at;
    category = category_of item.type;
    type = ledger_type_of item.type;
    ticket_number = item.reference_id;
    passenger_name = name_or item.user_name "Passenger";
    sender_name = name_or item.user_name "Sender";
    description = item.description;
  }

  abbrev pub no_stats : WeeklyStats Number
  no_stats = record { total_income = nought; total_refunds = nought; transaction_count = 0 }

  abbrev pub adapt_stats : Option (WeeklyStats Number) → WeeklyStats Number
  adapt_stats none = no_stats
  adapt_stats (some s) = record {
    total_income = hundredth s.total_income;
    total_refunds = hundredth s.total_refunds;
    transaction_count = s.transaction_count;
  }

  abbrev pub adapt_items :
      Option (List (AdminRevenueTransaction Number)) → List (Transaction Number)
  unfolding adapt_transaction
  adapt_items none = []
  adapt_items (some items) = map adapt_transaction items

  abbrev pub initial_ledger : ℕ → ℕ → LedgerPage Number
  initial_ledger week_start week_end = record {
    transactions = [];
    is_loading = false;
    page = 1;
    page_size = 100;
    total_count = 0;
    stats = no_stats;
    week_start = week_start;
    week_end = week_end;
    search = "";
  }

  -- `getTransportTransactions` is the only request of the page.
  abbrev pub LedgerUi : Type 0
  LedgerUi = Session (LedgerPage Number)

  abbrev pub LedgerAct : Type 0 → Type 0
  LedgerAct A = Act LedgerUi LedgerParams (λ q. LedgerAnswer Number) A

  abbrev pub params_of : LedgerPage Number → LedgerParams
  params_of p = record {
    page = p.page;
    page_size = p.page_size;
    start_date = p.week_start;
    end_date = p.week_end;
    search = unless_empty p.search;
  }

  abbrev pub is_transport_admin : Option AuthUser → Bool
  is_transport_admin none = false
  is_transport_admin (some u) = elim u.user_type [ transport_admin ↦ true | _ ↦ false ]

  -- `loadTransactions`. The service always answers with `weekly_stats` and never with `stats`.
  unfoldable pub load_transactions : LedgerAct (Unit {0})
  load_transactions = do
    now ← get
    when (is_transport_admin now.user) (do
      set_store (λ p. record p { is_loading = true })
      finally
          (try_catch
            (do
              found ← await (params_of now.store)
              set_store (λ p. record p {
                transactions = adapt_items found.items;
                total_count = found.total_records;
                stats = adapt_stats found.weekly_stats;
              }))
            (λ e. show (error_toast "Failed to load transactions")))
          (set_store (λ p. record p { is_loading = false })))

  -- What the effects do after a change: the transactions are loaded, then the page goes back to the
  -- first, and if it was another they are loaded again.
  unfoldable pub after_change : LedgerAct (Unit {0})
  unfolding load_transactions
  after_change = do
    spawn load_transactions
    now ← get
    set_store (λ p. record p { page = 1 })
    when (not (nat_eq now.store.page 1)) (spawn load_transactions)

  unfoldable pub change_week : ℕ → ℕ → LedgerAct (Unit {0})
  unfolding after_change
  change_week from to =
      set_store (λ p. record p { week_start = from; week_end = to }) >> after_change

  -- Once the search has settled.
  unfoldable pub change_search : String → LedgerAct (Unit {0})
  unfolding after_change
  change_search text = set_store (λ p. record p { search = text }) >> after_change
