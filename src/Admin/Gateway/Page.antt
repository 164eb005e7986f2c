-- ===== src/Admin/Gateway/Page.antt =====
-- The handlers of frontend/src/admin/modules/gateway-transactions/pages/GatewayTransactionsPage.tsx over
-- the store. The choice of a week is left out.
use giki_wallet.Common.{◌≡◌, refl, String, Bool, true, [], ◌∷◌}
use giki_wallet.Async.{advance}
use giki_wallet.Async.Act.{◌>>◌, return, branch, spawn, run}
use giki_wallet.Async.Requests.{pending}
use giki_wallet.Admin.Gateway.{
  GatewayUi, GatewayState, GatewayRequest, GatewayAction, list_call, finance_call, params_of,
  fetch_transactions, fetch_finance_stats, set_search, verify_transaction,
}

module _ {Number : Type 0} (parse_hundredth : String → Number) where
  -- The button "Refresh", and the effect of the first rendering; neither request is awaited.
  unfoldable pub refresh : GatewayAction Number (Unit {0})
  refresh = do spawn (fetch_transactions parse_hundredth); spawn fetch_finance_stats

  -- The effect when the debounced search is another, and of the first rendering.
  unfoldable pub search_effect : String → GatewayAction Number (Unit {0})
  search_effect debounced_search = set_search parse_hundredth debounced_search

  -- `handleVerify`, with the answer to its question.
  unfoldable pub handle_verify : Bool → String → GatewayAction Number (Unit {0})
  handle_verify confirmed txn_ref_no =
      branch confirmed (spawn (verify_transaction txn_ref_no)) (return tt)

  -- The effects of the first rendering, in their order.
  unfoldable pub first_effects : String → GatewayAction Number (Unit {0})
  unfolding refresh search_effect
  first_effects search = do search_effect search; refresh

  -- The state in which the first effects ask.
  abbrev searched : String → GatewayState Number → GatewayState Number
  searched search s = record s { search = search; page = 1; is_loading = true }

  abbrev list_request : GatewayState Number → GatewayRequest
  list_request s = list_call s.page s.page_size (params_of s)

  -- Opening the page asks for the same list twice: once for the search that has not changed, and once
  -- at the start.
  first_effects-pending :
      (search : String) (u : GatewayUi Number)
      → pending (advance (run (first_effects search)) u).1
        ≡ list_request (searched search u.store)
          ∷ list_request (searched search u.store)
          ∷ finance_call u.store.start_date u.store.end_date
          ∷ []
  unfolding advance first_effects refresh search_effect set_search fetch_transactions
      fetch_finance_stats
  first_effects-pending search u = refl
