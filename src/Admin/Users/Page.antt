-- ===== src/Admin/Users/Page.antt =====
-- The handlers of frontend/src/admin/modules/users/pages/UsersPage.tsx over the store.
use giki_wallet.Common.{◌==◌, String, Bool, true, false, not, Option, none, some, find}
use giki_wallet.Async.Act.{◌>>◌, return, await_act, branch}
use giki_wallet.Admin.Users.{
  User, PartialUser, UserState, UserAction, set_filters, toggle_user_status, create_user,
  update_user, delete_user,
}

-- The form for users: whether it is open, and whom it edits.
pub record UserForm : Type 0 where
  pub is_open : Bool
  pub editing : Option User

abbrev pub closed_form : UserForm
closed_form = record { is_open = false; editing = none }

abbrev pub handle_add_user : UserForm
handle_add_user = record { is_open = true; editing = none }

abbrev pub handle_edit_user : User → UserForm
handle_edit_user u = record { is_open = true; editing = some u }

-- The effect half a second after the last change of the search.
unfoldable pub debounced_search : UserState → String → UserAction (Unit {0})
debounced_search s term =
    branch (not (term == s.filters.search))
      (set_filters (record { search = some term; role = none; status = none })) (return tt)

unfoldable pub handle_delete_user : Bool → String → UserAction (Unit {0})
handle_delete_user confirmed id = branch confirmed (await_act (delete_user id)) (return tt)

abbrev pub submit_for : Option User → PartialUser → UserAction (Unit {0})
submit_for none new = create_user new
submit_for (some u) new = update_user u.id new

-- `handleSubmitUser`: the form is closed whatever the server has answered.
unfoldable pub handle_submit_user : UserForm → PartialUser → UserAction UserForm
handle_submit_user form new = do await_act (submit_for form.editing new); return closed_form

abbrev pub toggle_found : String → Option User → UserAction (Unit {0})
toggle_found id none = return tt
toggle_found id (some u) = toggle_user_status id u.is_active

unfoldable pub handle_toggle_active : UserState → String → UserAction (Unit {0})
handle_toggle_active s id = toggle_found id (find (λ u. u.id == id) s.users)
