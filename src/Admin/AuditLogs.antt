-- ===== src/Admin/AuditLogs.antt =====
-- frontend/src/admin/modules/gateway-transactions/components/AuditLogModal.tsx, with `PaymentAuditLog` of
-- schema.ts and `getAuditLogs` of service.ts. How a payload is decoded for display is left out.
mod Late
use giki_wallet.Common.{String, Bool, true, false, Option, none, some, List, []}
use giki_wallet.Async.{Proc}
use giki_wallet.Async.Act.{Act, ◌>>=◌, ◌>>◌, return, await, spawn, try_catch, finally}
use giki_wallet.Notices.{Session, show, error_toast, set_store}

pub record PaymentAuditLog : Type 0 where
  pub id : String
  pub event_type : String
  pub txn_ref_no : String
  pub gateway_ref : Option String
  pub processed : Bool
  pub processed_at : Option String
  pub process_error : Option String
  pub received_at : String

-- The transaction whose logs are viewed, and the states of the modal.
pub record AuditLogs : Type 0 where
  pub txn_ref_no : Option String
  pub logs : List PaymentAuditLog
  pub is_loading : Bool

abbrev pub closed_modal : AuditLogs
closed_modal = record { txn_ref_no = none; logs = []; is_loading = false }

abbrev pub LogsUi : Type 0
LogsUi = Session AuditLogs

-- A request is the transaction whose logs it asks for.
abbrev pub LogsAnswer : String → Type 0
LogsAnswer txn_ref_no = List PaymentAuditLog

abbrev pub LogsAction : Type 0 → Type 0
LogsAction A = Act LogsUi String LogsAnswer A

abbrev pub LogsProcess : Type 0
LogsProcess = Proc LogsUi String LogsAnswer

-- `fetchLogs`, for a transaction that is there.
unfoldable pub fetch_logs : String → LogsAction (Unit {0})
fetch_logs txn_ref_no = do
  set_store (λ m. record m { is_loading = true })
  finally
      (try_catch (do found ← await txn_ref_no; set_store (λ m. record m { logs = found }))
        (λ e. show (error_toast "Failed to fetch audit logs")))
      (set_store (λ m. record m { is_loading = false }))

abbrev pub logs_effect : Option String → LogsAction (Unit {0})
logs_effect none = set_store (λ m. record m { logs = [] })
logs_effect (some txn_ref_no) = spawn (fetch_logs txn_ref_no)

-- The page views the logs of a transaction, or closes the modal; the effect follows.
unfoldable pub set_viewing_logs_for : Option String → LogsAction (Unit {0})
set_viewing_logs_for viewing = do
  set_store (λ m. record m { txn_ref_no = viewing })
  logs_effect viewing
