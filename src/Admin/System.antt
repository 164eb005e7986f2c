-- ===== src/Admin/System.antt =====
-- frontend/src/admin/modules/system: pages/SystemLogsPage.tsx and pages/WorkerStatusPage.tsx, with
-- types.ts and service.ts. The interval that asks again for the status of the worker is an action that
-- starts at any time.
mod Loading
use giki_wallet.Common.{
  ℕ, String, Bool, true, false, not, ◌&&◌, Option, none, some, List, [], is_some,
}
use giki_wallet.Errors.{Thrown}
use giki_wallet.Async.{Proc}
use giki_wallet.Async.Act.{Act, ◌>>=◌, ◌>>◌, return, get, await, spawn, try_catch, finally}
use giki_wallet.Notices.{Session, show, error_toast, set_store}
use giki_wallet.Auth.Pages.{error_text}
use giki_wallet.Admin.Paging.{total_pages}

pub data LogStatus : Type 0 where
  succeeded failed : LogStatus

-- The details of a log are any value, which the page only shows.
pub record SystemAuditLog (Details : Type 0) : Type 0 where
  pub id : String
  pub action : String
  pub actor_id : Option String
  pub actor_name : Option String
  pub actor_email : Option String
  pub target_id : Option String
  pub target_name : Option String
  pub target_email : Option String
  pub details : Details
  pub ip_address : String
  pub user_agent : String
  pub status : LogStatus
  pub created_at : String

pub record SystemAuditLogsResponse (Details : Type 0) : Type 0 where
  pub data_of_page : List (SystemAuditLog Details)
  pub current_page : ℕ
  pub page_size : ℕ
  pub total_items : ℕ
  pub total_pages : ℕ

pub record SystemAuditLogFilters : Type 0 where
  pub page : ℕ
  pub page_size : ℕ

pub record SystemLogs (Details : Type 0) : Type 0 where
  pub page : ℕ
  pub selected_log : Option (SystemAuditLog Details)
  pub logs : List (SystemAuditLog Details)
  pub loading : Bool
  pub total : ℕ
  pub error : Option String

pub record WorkerStats : Type 0 where
  pub pending_count : ℕ
  pub processing_count : ℕ
  pub failed_count : ℕ
  pub completed_last_hour : ℕ

pub record WorkerStatus : Type 0 where
  pub last_heartbeat : String
  pub is_alive : Bool
  pub stats : WorkerStats

pub record WorkerPage : Type 0 where
  pub status : Option WorkerStatus
  pub loading : Bool

module _ (Details : Type 0) where
  abbrev pub LogsUi : Type 0
  LogsUi = Session (SystemLogs Details)

  abbrev pub LogsAnswer : SystemAuditLogFilters → Type 0
  LogsAnswer filters = SystemAuditLogsResponse Details

  abbrev pub LogsAction : Type 0 → Type 0
  LogsAction A = Act LogsUi SystemAuditLogFilters LogsAnswer A

module _ {Details : Type 0} where
  abbrev pub initial_logs : SystemLogs Details
  initial_logs = record {
    page = 1;
    selected_log = none;
    logs = [];
    loading = false;
    total = 0;
    error = none;
  }

  unfoldable pub fetch_logs : LogsAction Details (Unit {0})
  fetch_logs = do
    set_store (λ p. record p { loading = true })
    set_store (λ p. record p { error = none })
    now ← get
    finally
        (try_catch
          (do
            found ← await (record { page = now.store.page; page_size = 20 })
            set_store (λ p. record p { logs = found.data_of_page; total = found.total_items }))
          (λ e. do
            set_store (λ p. record p { error = some (error_text "Failed to fetch audit logs" e) })
            show (error_toast (error_text "Failed to fetch audit logs" e))
            set_store (λ p. record p { logs = []; total = 0 })))
        (set_store (λ p. record p { loading = false }))

  -- Another page, and the effect that follows.
  unfoldable pub set_page : ℕ → LogsAction Details (Unit {0})
  set_page page = do set_store (λ p. record p { page = page }); spawn fetch_logs

  abbrev pub pages_of : SystemLogs Details → ℕ
  pages_of p = total_pages 20 p.total

abbrev pub WorkerAction : Type 0 → Type 0
WorkerAction A = Act (Session WorkerPage) (Unit {0}) (λ q. WorkerStatus) A

abbrev pub initial_worker : WorkerPage
initial_worker = record { status = none; loading = true }

unfoldable pub fetch_status : WorkerAction (Unit {0})
fetch_status = do
  set_store (λ p. record p { loading = true })
  finally
      (try_catch (do found ← await tt; set_store (λ p. record p { status = some found }))
        (λ e. show (error_toast "Failed to fetch worker status")))
      (set_store (λ p. record p { loading = false }))

-- Whether the page only says that it loads.
abbrev pub only_loads : WorkerPage → Bool
only_loads p = p.loading && not (is_some p.status)
