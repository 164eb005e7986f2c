-- ===== src/Admin/Gateway/Asked.antt =====
-- Which requests the filters of frontend/src/admin/modules/gateway-transactions/store.ts make.
use giki_wallet.Common.{◌≡◌, refl, String, ℕ, List, [], ◌∷◌}
use giki_wallet.Async.{advance}
use giki_wallet.Async.Act.{run}
use giki_wallet.Async.Requests.{pending}
use giki_wallet.Admin.Gateway.{
  GatewayRequest, list_call, finance_call, GatewayState, GatewayUi, GatewayProcess, params_of,
  fetch_transactions, fetch_finance_stats, set_page, set_search, set_status, set_payment_method,
  set_date_range,
}

-- What the page can change.
pub data Filter : Type 0 where
  page_number : ℕ → Filter
  searched status_of method_of : String → Filter
  dates : ℕ → ℕ → Filter

module _ {Number : Type 0} where
  -- The state with the filter changed; all but the choice of a page go back to the first page.
  abbrev pub filtered : Filter → GatewayState Number → GatewayState Number
  filtered (page_number page) s = record s { page = page }
  filtered (searched text) s = record s { search = text; page = 1 }
  filtered (status_of status) s = record s { status = status; page = 1 }
  filtered (method_of method) s = record s { payment_method = method; page = 1 }
  filtered (dates from to) s = record s { start_date = from; end_date = to; page = 1 }

  -- The requests for a state that a change of the filter brings about.
  abbrev pub wanted : Filter → GatewayState Number → List GatewayRequest
  wanted (dates from to) s =
      list_call s.page s.page_size (params_of s) ∷ finance_call s.start_date s.end_date ∷ []
  wanted f s = list_call s.page s.page_size (params_of s) ∷ []

  module _ (parse_hundredth : String → Number) where
    abbrev pub filter_action : Filter → GatewayProcess Number
    filter_action (page_number page) = run (set_page parse_hundredth page)
    filter_action (searched text) = run (set_search parse_hundredth text)
    filter_action (status_of status) = run (set_status parse_hundredth status)
    filter_action (method_of method) = run (set_payment_method parse_hundredth method)
    filter_action (dates from to) = run (set_date_range parse_hundredth from to)

    -- Whichever filter is changed: the requests that are made carry the filters as they are after the
    -- change, the page among them, and for new dates the balances are asked for too.
    pub filter_asks :
        (f : Filter) (u : GatewayUi Number)
        → pending (advance (filter_action f) u).1 ≡ wanted f (filtered f u.store)
    unfolding advance set_page set_search set_status set_payment_method set_date_range
        fetch_transactions fetch_finance_stats
    filter_asks (page_number page) u = refl
    filter_asks (searched text) u = refl
    filter_asks (status_of status) u = refl
    filter_asks (method_of method) u = refl
    filter_asks (dates from to) u = refl
