-- ===== src/Wallet/Store/Loading.antt =====
-- The flag `isDataLoading` of the wallet store.
use giki_wallet.Common.{◌≡◌, [], Bool, false, refl, String}
use giki_wallet.Async.{Page, Config, Reach}
use giki_wallet.Async.Act.{run}
use giki_wallet.Async.Flags.{Pays, stopped, raised, lowered, Reach-lowered}
use giki_wallet.Async.Rules.{awaited}
use giki_wallet.Wallet.Store.{
  WalletState, WalletRequest, WalletAnswer, WalletProcess, fetch_balance, fetch_history,
  initial_wallet,
}

pub data WalletEvent : Type 0 where
  balance_wanted history_wanted : WalletEvent

abbrev pub wallet_action : WalletEvent → WalletProcess
wallet_action balance_wanted = run fetch_balance
wallet_action history_wanted = run fetch_history

-- The other actions of the store leave the flag alone.
abbrev pub wallet_page : Page WalletState WalletRequest WalletAnswer
wallet_page = record {
  Starts = λ p. (e : WalletEvent) × (p ≡ wallet_action e);
  Outside = λ s s'. s'.is_data_loading ≡ s.is_data_loading;
}

abbrev fetching : WalletState → Bool
fetching s = s.is_data_loading

action-Pays : (e : WalletEvent) (s : WalletState) → Pays fetching false (wallet_action e) s
unfolding fetch_balance fetch_history
action-Pays balance_wanted s =
    raised (awaited (λ found s'. lowered refl stopped) (λ e s'. lowered refl stopped))
action-Pays history_wanted s =
    raised (awaited (λ found s'. lowered refl stopped) (λ e s'. lowered refl stopped))

-- However the requests for the balance and for the history overlap, and whatever the server
-- answers: from the initial state, whenever nothing waits any more, `isDataLoading` is false.
pub data_loading_settles :
    (key : String) (d : Config WalletState WalletRequest WalletAnswer)
    → Reach wallet_page (record { store = initial_wallet key; waiting = [] }) d
    → d.waiting ≡ []
    → d.store.is_data_loading ≡ false
data_loading_settles key d r idle =
    Reach-lowered fetching wallet_page (λ p starts s. rw starts.1 (action-Pays starts.0 s))
      (λ s s' same up. rw same at up) r refl idle
