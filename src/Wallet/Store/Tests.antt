-- ===== src/Wallet/Store/Tests.antt =====
-- The wallet store on concrete inputs.
use giki_wallet.Common.{refl, [], some}
use giki_wallet.Errors.{js_error}
use giki_wallet.Async.{Config, Reach, here, next, start, answer, rejected, advance}
use giki_wallet.Async.Act.{run}
use giki_wallet.Wallet.Store.{
  WalletState, WalletRequest, WalletAnswer, get_balance, fetch_balance, initial_wallet,
}
use giki_wallet.Wallet.Store.Loading.{wallet_page, balance_wanted}

abbrev offline : Config WalletState WalletRequest WalletAnswer
offline = record {
  store = record (initial_wallet "k") { data_error = some "Network Error" };
  waiting = [];
}

went_offline : Reach wallet_page (record { store = initial_wallet "k"; waiting = [] }) offline
unfolding advance fetch_balance
went_offline =
    next (next here (start (run fetch_balance) (balance_wanted, refl)))
      (answer [] [] get_balance _ (rejected (js_error "Network Error")) refl)
