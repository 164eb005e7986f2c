-- ===== src/Routes/Tests.antt =====
-- Two visitors of the application.
use giki_wallet.Common.{◌≡◌, refl, true, false, none, some, ◌==◌}
use giki_wallet.Auth.User.{AuthUser, super_admin}
use giki_wallet.Auth.Client.{AuthState}
use giki_wallet.Routes.{users_page, shown, redirected, visit, routes, admin_protected_screen}
use giki_wallet.Routes.Access.{MaySee, visit-MaySee}

abbrev admin : AuthUser
admin = record {
  id = "a1";
  name = "Admin";
  email = "admin@giki.edu.pk";
  phone_number = none;
  user_type = super_admin;
  created_at = none;
  updated_at = none;
}

abbrev as_admin : AuthState
as_admin = record {
  token = some "a";
  refresh_token = some "r";
  user = some admin;
  is_loading = false;
  initialized = true;
  error = none;
}

sees_users : visit (◌==◌) as_admin "/admin/users" ≡ shown users_page
unfolding visit routes admin_protected_screen
sees_users = refl

visitor_is_sent_away :
    visit (◌==◌) (record as_admin { user = none }) "/admin/users" ≡ redirected "/admin/signin"
unfolding visit routes admin_protected_screen
visitor_is_sent_away = refl

visit-MaySee_example : MaySee (some admin) users_page
visit-MaySee_example = visit-MaySee (◌==◌) as_admin "/admin/users" users_page sees_users
