-- ===== src/Admin/Users/Outcomes.antt =====
-- How the actions of frontend/src/admin/modules/users/store.ts end.
use giki_wallet.Common.{◌≡◌, refl, true, false, String, ◌∷◌}
use giki_wallet.Errors.{Thrown}
use giki_wallet.Async.{rejected}
use giki_wallet.Async.Runs.{World, execute, changed, failed, execute-Ends, Ends-execute}
use giki_wallet.Notices.{error_toast}
use giki_wallet.Admin.Users.{
  UserUi, UserRequest, UserAnswer, UserProcess, delete_call, deletion_message, delete_user,
}

module _ (w : World UserUi UserRequest UserAnswer) (id : String) (u : UserUi)
    (ok : Unit {0} → UserProcess) (err : Thrown → UserProcess) where
  -- The page's state when the answer comes.
  abbrev pub answered : UserUi
  answered = w.during (delete_call id) (record u { store = record u.store { is_updating = true } })

  -- If the server refuses to delete a user, then `deleteUser` leaves the users as they are, shows the
  -- server's message if it says that the user has data and the fallback otherwise, and does not throw.
  pub delete_user_refused :
      (e : Thrown)
      → w.reply (delete_call id) ≡ rejected e
      → execute w (delete_user id ok err) u
        ≡ execute w (ok tt) (record answered {
          store = record answered.store { is_updating = false };
          toasts = error_toast (deletion_message e) ∷ answered.toasts;
        })
  unfolding delete_user
  delete_user_refused e reply =
      execute-Ends
        {P = λ u'.
          u'
          ≡ execute w (ok tt) (record answered {
            store = record answered.store { is_updating = false };
            toasts = error_toast (deletion_message e) ∷ answered.toasts;
          })}
        (changed (failed reply (changed (changed (Ends-execute _ _ refl)))))
