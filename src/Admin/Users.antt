-- ===== src/Admin/Users.antt =====
-- frontend/src/admin/modules/users: the store of store.ts, with the types of schema.ts and the
-- requests of service.ts.
pub mod Outcomes
pub mod Stale
pub mod Page
mod Tests
use giki_wallet.Common.{
  ℕ, ◌==◌, String, Bool, true, false, not, Option, none, some, List, [], map, keep, if◌then◌else◌,
}
use giki_wallet.Common.Integers.{ℤ, pos, pred}
use giki_wallet.Errors.{Thrown, app_error, http_error, js_error, other}
use giki_wallet.Async.{Proc}
use giki_wallet.Async.Act.{Act, ◌>>=◌, ◌>>◌, return, get, await, try_catch, finally, spawn}
use giki_wallet.Notices.{Session, show, error_toast, success_toast, set_store}

pub record User : Type 0 where
  pub id : String
  pub name : String
  pub email : String
  pub phone_number : Option String
  pub is_active : Bool
  pub is_verified : Bool
  pub user_type : String
  pub created_at : String
  pub updated_at : String

-- `Partial<User>`, as a form sends it.
pub record PartialUser : Type 0 where
  pub name : Option String
  pub email : Option String
  pub phone_number : Option String
  pub user_type : Option String
  pub is_active : Option Bool

pub record UsersPaginationResponse : Type 0 where
  pub users : List User
  pub total_count : ℕ
  pub page : ℕ
  pub page_size : ℕ

pub record Pagination : Type 0 where
  pub page : ℕ
  pub page_size : ℕ
  pub total_count : ℤ

pub record Filters : Type 0 where
  pub search : String
  pub role : String
  pub status : String

-- `Partial<UserState['filters']>`.
pub record PartialFilters : Type 0 where
  pub search : Option String
  pub role : Option String
  pub status : Option String

pub record UserState : Type 0 where
  pub users : List User
  pub is_loading : Bool
  pub is_updating : Bool
  pub pagination : Pagination
  pub filters : Filters

abbrev pub initial_users : UserState
initial_users = record {
  users = [];
  is_loading = false;
  is_updating = false;
  pagination = record { page = 1; page_size = 100; total_count = pos 0 };
  filters = record { search = ""; role = "all"; status = "all" };
}

pub record ListParams : Type 0 where
  pub page : ℕ
  pub page_size : ℕ
  pub search : String
  pub user_type : String
  pub filter_status : String

pub data UserRequest : Type 0 where
  list_call : ListParams → UserRequest
  status_call : String → Bool → UserRequest
  approve_call reject_call delete_call : String → UserRequest
  create_call : PartialUser → UserRequest
  update_call : String → PartialUser → UserRequest

abbrev pub UserAnswer : UserRequest → Type 0
UserAnswer (list_call p) = UsersPaginationResponse
UserAnswer (reject_call id) = Unit
UserAnswer (delete_call id) = Unit
UserAnswer _ = User

abbrev pub UserUi : Type 0
UserUi = Session UserState

abbrev pub UserAction : Type 0 → Type 0
UserAction A = Act UserUi UserRequest UserAnswer A

abbrev pub UserProcess : Type 0
UserProcess = Proc UserUi UserRequest UserAnswer

-- `x === 'all' ? '' : x`.
abbrev pub unless_all : String → String
unless_all x = if x == "all" then "" else x

-- What `UserService.listUsers` sends.
abbrev pub list_params : ℕ → ℕ → Filters → ListParams
list_params page page_size f = record {
  page = page;
  page_size = page_size;
  search = f.search;
  user_type = unless_all f.role;
  filter_status = unless_all f.status;
}

-- `get()` of the store alone.
abbrev pub get_store : UserAction UserState
get_store = do s ← get; return s.store

abbrev pub set_loading : Bool → UserAction (Unit {0})
set_loading b = set_store (λ s. record s { is_loading = b })

abbrev pub set_updating : Bool → UserAction (Unit {0})
set_updating b = set_store (λ s. record s { is_updating = b })

-- The page of users that came, put into the store beside the pagination read before the request.
abbrev pub store_page : Pagination → UsersPaginationResponse → UserState → UserState
store_page before r s = record s {
  users = r.users;
  pagination = record before { page = r.page; total_count = pos r.total_count };
}

unfoldable pub fetch_users : ℕ → UserAction (Unit {0})
fetch_users page = do
  set_loading true
  now ← get_store
  finally
      (try_catch
        (do
          r ← await (list_call (list_params page now.pagination.page_size now.filters))
          set_store (store_page now.pagination r))
        (λ e. show (error_toast "Failed to fetch users")))
      (set_loading false)

abbrev pub or_else : Option String → String → String
or_else none old = old
or_else (some new) old = new

-- `{ ...state.filters, ...newFilters }`.
abbrev pub with_filters : Filters → PartialFilters → Filters
with_filters f new = record {
  search = or_else new.search f.search;
  role = or_else new.role f.role;
  status = or_else new.status f.status;
}

unfoldable pub set_filters : PartialFilters → UserAction (Unit {0})
set_filters new = do
  set_store (λ s. record s {
    filters = with_filters s.filters new;
    pagination = record s.pagination { page = 1 };
  })
  spawn (fetch_users 1)

abbrev pub replace_user : String → (User → User) → List User → List User
replace_user id f users = map (λ u. if u.id == id then f u else u) users

abbrev pub change_user : String → (User → User) → UserAction (Unit {0})
change_user id f = set_store (λ s. record s { users = replace_user id f s.users })

-- `try { body } catch { failed } finally { set({ isUpdating: false }) }`, with the flag raised first.
abbrev pub updating :
    UserAction (Unit {0}) → (Thrown → UserAction (Unit {0})) → UserAction (Unit {0})
updating body failed = set_updating true >> finally (try_catch body failed) (set_updating false)

abbrev pub activation : Bool → String
activation true = "User activated"
activation false = "User deactivated"

unfoldable pub toggle_user_status : String → Bool → UserAction (Unit {0})
toggle_user_status id current_status =
    updating
      (do
        updated ← await (status_call id (not current_status))
        change_user id (λ u. updated)
        show (success_toast (activation updated.is_active)))
      (λ e. show (error_toast "Failed to update user status"))

unfoldable pub approve_user : String → UserAction (Unit {0})
approve_user id =
    updating
      (do
        updated ← await (approve_call id)
        change_user id (λ u. updated)
        show (success_toast "User approved and verification email sent"))
      (λ e. show (error_toast "Failed to approve user"))

unfoldable pub reject_user : String → UserAction (Unit {0})
reject_user id =
    updating
      (do
        _ ← await (reject_call id)
        change_user id (λ u. record u { is_active = false })
        show (success_toast "User application rejected"))
      (λ e. show (error_toast "Failed to reject user"))

unfoldable pub create_user : PartialUser → UserAction (Unit {0})
create_user new =
    updating
      (do
        _ ← await (create_call new)
        spawn (fetch_users 1)
        show (success_toast "User created successfully"))
      (λ e. show (error_toast "Failed to create user"))

-- `{ ...u, ...updatedUser }`: the server answers with a whole user, so nothing of `u` is left.
unfoldable pub update_user : String → PartialUser → UserAction (Unit {0})
update_user id new =
    updating
      (do
        updated ← await (update_call id new)
        change_user id (λ u. updated)
        show (success_toast "User updated successfully"))
      (λ e. show (error_toast "Failed to update user"))

-- What is shown when a user cannot be deleted.
abbrev pub deletion_message : Thrown → String
deletion_message (app_error e) =
    if e.code == "USER_HAS_DATA" then e.message else "Failed to delete user"
deletion_message _ = "Failed to delete user"

abbrev pub without_user : String → UserState → UserState
without_user id s = record s {
  users = keep (λ u. not (u.id == id)) s.users;
  pagination = record s.pagination { total_count = pred s.pagination.total_count };
}

unfoldable pub delete_user : String → UserAction (Unit {0})
delete_user id =
    updating
      (do
        _ ← await (delete_call id)
        set_store (without_user id)
        show (success_toast "User deleted successfully"))
      (λ e. show (error_toast (deletion_message e)))
