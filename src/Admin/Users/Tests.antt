-- ===== src/Admin/Users/Tests.antt =====
-- Two requests for users that overlap, and one that deletes a user.
use giki_wallet.Common.{◌≡◌, refl, true, none, some, [], ◌∷◌, ◌==◌, if◌then◌else◌}
use giki_wallet.Errors.{app_error, bare_error}
use giki_wallet.Async.{rejected, stop}
use giki_wallet.Async.Runs.{World, execute}
use giki_wallet.Notices.{error_toast}
use giki_wallet.Admin.Users.{
  User, UsersPaginationResponse, ListParams, PartialFilters, UserUi, UserRequest, UserAnswer,
  UserProcess, initial_users, delete_user, list_call, status_call, approve_call, reject_call,
  delete_call, create_call, update_call,
}
use giki_wallet.Async.Schedules.{newest, oldest}
use giki_wallet.Admin.Users.Stale.{Ended, both_wanted, fetch_users_stale}
use giki_wallet.Admin.Users.Outcomes.{delete_user_refused}

abbrev beginning : UserUi
beginning = record { store = initial_users; user = none; toasts = [] }

abbrev sara : User
sara = record {
  id = "u2";
  name = "Sara";
  email = "sara@giki.edu.pk";
  phone_number = none;
  is_active = true;
  is_verified = true;
  user_type = "STUDENT";
  created_at = "";
  updated_at = "";
}

-- A server that finds Sara by her name only.
abbrev found : ListParams → UsersPaginationResponse
found p = record {
  users = if p.search == "Sara" then sara ∷ [] else [];
  total_count = 1;
  page = p.page;
  page_size = p.page_size;
}

abbrev server : (q : UserRequest) → UserAnswer q
server (list_call p) = found p
server (status_call id active) = sara
server (approve_call id) = sara
server (reject_call id) = tt
server (delete_call id) = tt
server (create_call new) = sara
server (update_call id new) = sara

abbrev by_name : PartialFilters
by_name = record { search = some "Sara"; role = none; status = none }

fetch_users_stale_example :
    Ended server beginning 1 by_name
      (both_wanted server beginning 1 by_name (oldest ∷ newest ∷ []))
      (sara ∷ [])
    × Ended server beginning 1 by_name
        (both_wanted server beginning 1 by_name (newest ∷ oldest ∷ []))
        []
fetch_users_stale_example = fetch_users_stale server beginning 1 by_name

abbrev refusing : World UserUi UserRequest UserAnswer
refusing = record {
  reply = λ q. rejected (app_error (bare_error "USER_HAS_DATA" "Cannot delete user" 409));
  during = λ q s. s;
  between = λ s. s;
}

abbrev ended : {A : Type 0} → A → UserProcess
ended a = stop

tells_the_reason :
    execute refusing (delete_user "u2" ended ended) beginning
    ≡ record beginning { toasts = error_toast "Cannot delete user" ∷ [] }
unfolding execute
tells_the_reason =
    delete_user_refused refusing "u2" beginning ended ended
      (app_error (bare_error "USER_HAS_DATA" "Cannot delete user" 409)) refl
