-- ===== src/Admin/AuditLogs/Late.antt =====
-- Logs that come late: AuditLogModal.tsx.
use giki_wallet.Common.{◌≡◌, refl, String, none, some, [], ◌∷◌}
use giki_wallet.Async.{Config, advance}
use giki_wallet.Async.Act.{run}
use giki_wallet.Async.Schedules.{begin, newest, oldest, play}
use giki_wallet.Admin.AuditLogs.{LogsUi, LogsAnswer, closed_modal, fetch_logs, set_viewing_logs_for}

-- The logs of a transaction are viewed, the modal is closed, and another transaction is viewed, whose
-- logs come first.
abbrev viewed_twice :
    ((txn_ref_no : String) → LogsAnswer txn_ref_no)
    → String
    → String
    → Config LogsUi String LogsAnswer
viewed_twice server first second =
    play server
      (begin (run (set_viewing_logs_for (some first)))
        ∷ begin (run (set_viewing_logs_for none))
        ∷ begin (run (set_viewing_logs_for (some second)))
        ∷ newest
        ∷ oldest
        ∷ [])
      (record { store = record { store = closed_modal; user = none; toasts = [] }; waiting = [] })

-- At the end the modal shows the logs of the first transaction under the name of the second.
logs_stale :
    (server : (txn_ref_no : String) → LogsAnswer txn_ref_no) (first second : String)
    → ((viewed_twice server first second).waiting ≡ [])
      × ((viewed_twice server first second).store.store.txn_ref_no ≡ some second)
      × ((viewed_twice server first second).store.store.logs ≡ server first)
unfolding advance fetch_logs set_viewing_logs_for
logs_stale server first second = (refl, refl, refl)
