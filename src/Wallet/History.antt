-- ===== src/Wallet/History.antt =====
-- The history of the wallet: frontend/src/client/modules/wallet/utils/transactionHelpers.tsx,
-- utils/walletHelpers.ts and what components/TransactionHistory.tsx makes of them.
--
-- `day_of` is `new Date(text).toISOString().split('T')[0]`, `clock` is `formatTime`, and `time_of` is
-- `new Date(day).getTime()`. Icons and colours are left out.
mod Tests
use giki_wallet.Common.{ℕ, ◌==◌, String, Bool, List, [], ◌∷◌, map, leb, if◌then◌else◌}
use giki_wallet.Common.Groups.{Group, group_into}
use giki_wallet.Wallet.Store.{ApiTransaction}

pub data TransactionType : Type 0 where
  ticket topup transfer received refund : TransactionType

pub record Transaction : Type 0 where
  pub id : String
  pub type : TransactionType
  pub description : String
  pub amount : ℕ
  pub timestamp : String
  pub date : String
  pub reference_id : String

unfoldable pub map_tx_type : String → TransactionType
map_tx_type type =
    if type == "TRANSPORT_BOOKING"
    then ticket
    else if type == "JAZZCASH_DEPOSIT"
    then topup
    else if type == "REFUND"
    then refund
    else if type == "TRANSFER"
    then transfer
    else if type == "TRANSFER_RECEIVED"
    then received
    else ticket

abbrev pub get_transaction_title : TransactionType → String
get_transaction_title ticket = "Ticket Booking"
get_transaction_title topup = "Wallet Top-up"
get_transaction_title transfer = "Money Sent"
get_transaction_title received = "Money Received"
get_transaction_title refund = "Refund Received"

module _ (day_of clock : String → String) where
  -- The callback of `mappedTransactions`.
  unfoldable pub mapped_transaction : ApiTransaction → Transaction
  unfolding map_tx_type
  mapped_transaction t = record {
    id = t.id;
    type = map_tx_type t.type;
    description = t.description;
    amount = t.amount;
    timestamp = clock t.created_at;
    date = day_of t.created_at;
    reference_id = t.reference_id;
  }

abbrev pub nothing_more : Transaction → Unit {0}
nothing_more t = tt

module _ (time_of : String → ℕ) where
  -- `sort((a, b) => time(b) - time(a))`, which is stable: insertion from the right.
  unfoldable pub insert_day :
      Group (Unit {0}) Transaction
      → List (Group (Unit {0}) Transaction)
      → List (Group (Unit {0}) Transaction)
  insert_day g [] = g ∷ []
  insert_day g (h ∷ rest) =
      if leb (time_of h.name) (time_of g.name) then g ∷ h ∷ rest else h ∷ insert_day g rest

  unfoldable pub sort_days :
      List (Group (Unit {0}) Transaction) → List (Group (Unit {0}) Transaction)
  unfolding insert_day
  sort_days [] = []
  sort_days (g ∷ rest) = insert_day g (sort_days rest)

  -- `groupTransactionsByDate`. A day is not the text of a number, so that `Object.keys` lists the days
  -- in the order in which they came.
  unfoldable pub group_transactions_by_date : List Transaction → List (Group (Unit {0}) Transaction)
  unfolding sort_days group_into
  group_transactions_by_date transactions =
      sort_days (group_into (λ t. t.date) nothing_more transactions [])
