-- ===== src/Admin/System/Loading.antt =====
-- The flag of SystemLogsPage.tsx, over every interleaving.
use giki_wallet.Common.{ℕ, ◌≡◌, refl, [], Bool, false}
use giki_wallet.Async.{Page, Proc, Config, Reach}
use giki_wallet.Async.Act.{run}
use giki_wallet.Async.Flags.{Pays, stopped, looked, kept, raised, lowered, forked, Reach-lowered}
use giki_wallet.Async.Rules.{awaited}
use giki_wallet.Admin.System.{LogsUi, LogsAnswer, SystemAuditLogFilters, fetch_logs, set_page}

pub data LogsEvent : Type 0 where
  refresh : LogsEvent
  page_set : ℕ → LogsEvent

module _ {Details : Type 0} where
  abbrev logs_action : LogsEvent → Proc (LogsUi Details) SystemAuditLogFilters (LogsAnswer Details)
  logs_action refresh = run fetch_logs
  logs_action (page_set page) = run (set_page page)

  abbrev logs_page : Page (LogsUi Details) SystemAuditLogFilters (LogsAnswer Details)
  logs_page = record {
    Starts = λ p. (e : LogsEvent) × (p ≡ logs_action e);
    Outside = λ s s'. s'.store ≡ s.store;
  }

  abbrev loads : LogsUi Details → Bool
  loads u = u.store.loading

  fetch_logs-loads : (s : LogsUi Details) → Pays loads false (run fetch_logs) s
  unfolding fetch_logs
  fetch_logs-loads s = raised (
      raised (
        looked (
          awaited (λ found s'. raised (lowered refl stopped))
            (λ e s'. raised (raised (raised (lowered refl stopped)))))))

  action-loads : (e : LogsEvent) (s : LogsUi Details) → Pays loads false (logs_action e) s
  unfolding set_page
  action-loads refresh s = fetch_logs-loads s
  action-loads (page_set page) s = kept refl (forked (fetch_logs-loads _) stopped)

  -- However the pages that are wanted overlap, and whatever is answered: once nothing waits any more,
  -- `loading` is false if it was at first.
  loading_settles :
      (s : LogsUi Details) (d : Config (LogsUi Details) SystemAuditLogFilters (LogsAnswer Details))
      → loads s ≡ false
      → Reach logs_page (record { store = s; waiting = [] }) d
      → d.waiting ≡ []
      → loads d.store ≡ false
  loading_settles s d down r idle =
      Reach-lowered loads logs_page (λ p starts s. rw starts.1 (action-loads starts.0 s))
        (λ s s' same up. rw same at up) r down idle
