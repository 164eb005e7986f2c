-- ===== src/Routes.antt =====
-- The routes of frontend/src/App.tsx, with their guards: RequireAuth.tsx of
-- frontend/src/shared/modules/auth/components and AdminProtectedRoute.tsx of
-- frontend/src/admin/components.
--
-- How the library react-router compares a location with the path of a route is the parameter
-- `same_path`. Layouts, and the toast of the administrators' guard, are left out.
pub mod Access
mod Menu
mod Tests
use giki_wallet.Common.{
  String, Bool, true, false, not, ◌||◌, Option, none, some, List, [], ◌∷◌, find, if◌then◌else◌,
}
use giki_wallet.Auth.User.{
  AuthUser, AuthUserType, student, employee, super_admin, transport_admin, finance_admin,
}
use giki_wallet.Auth.Client.{AuthState}

pub data Page : Type 0 where
  sign_in_page sign_up_page verify_email_page forgot_password_page reset_password_page : Page
  home_page about_page transport_page booking_confirmation_page passenger_details_page : Page
  top_up_page payment_result_page tickets_page account_page : Page
  trips_page admin_tickets_page users_page transactions_page gateway_transactions_page : Page
  history_page create_trip_page worker_status_page system_logs_page settings_page : Page

-- What a route renders: a page, `<Navigate to=...>`, or the outlet of its children, none of which is
-- there.
pub data Element : Type 0 where
  outlet : Element
  page : Page → Element
  navigate : String → Element

pub data Guard : Type 0 where
  open_to_all require_auth admin_only : Guard

pub record Route : Type 0 where
  pub path : String
  pub guard : Guard
  pub element : Element

abbrev route : String → Guard → Element → Route
route path guard element = record { path = path; guard = guard; element = element }

unfoldable pub routes : List Route
routes =
    route "/auth/sign-in" open_to_all (page sign_in_page)
    ∷ route "/auth/sign-up" open_to_all (page sign_up_page)
    ∷ route "/auth/verify" open_to_all (page verify_email_page)
    ∷ route "/auth/forgot-password" open_to_all (page forgot_password_page)
    ∷ route "/auth/reset-password" open_to_all (page reset_password_page)
    ∷ route "/reset-password" open_to_all (page reset_password_page)
    ∷ route "/verify" open_to_all (page verify_email_page)
    ∷ route "/admin/signin" open_to_all (page sign_in_page)
    ∷ route "/" open_to_all (page home_page)
    ∷ route "/about" open_to_all (page about_page)
    ∷ route "/transport" require_auth (page transport_page)
    ∷ route "/transport/confirm" require_auth (page booking_confirmation_page)
    ∷ route "/transport/passengers" require_auth (page passenger_details_page)
    ∷ route "/top-up" require_auth (page top_up_page)
    ∷ route "/payment" require_auth outlet
    ∷ route "/payment/success" require_auth (page payment_result_page)
    ∷ route "/payment/failed" require_auth (page payment_result_page)
    ∷ route "/payment/error" require_auth (page payment_result_page)
    ∷ route "/payment/pending" require_auth (page payment_result_page)
    ∷ route "/tickets" require_auth (page tickets_page)
    ∷ route "/account" require_auth (page account_page)
    ∷ route "/admin" admin_only (navigate "/admin/tickets")
    ∷ route "/admin/trips" admin_only (page trips_page)
    ∷ route "/admin/tickets" admin_only (page admin_tickets_page)
    ∷ route "/admin/users" admin_only (page users_page)
    ∷ route "/admin/transactions" admin_only (page transactions_page)
    ∷ route "/admin/gateway-transactions" admin_only (page gateway_transactions_page)
    ∷ route "/admin/history" admin_only (page history_page)
    ∷ route "/admin/trips/new" admin_only (page create_trip_page)
    ∷ route "/admin/system" admin_only (page worker_status_page)
    ∷ route "/admin/logs" admin_only (page system_logs_page)
    ∷ route "/admin/settings" admin_only (page settings_page)
    ∷ []

pub data Screen : Type 0 where
  loading blank : Screen
  shown : Page → Screen
  redirected : String → Screen

abbrev pub screen_of : Element → Screen
screen_of outlet = blank
screen_of (page p) = shown p
screen_of (navigate to) = redirected to

-- `['SUPER_ADMIN', 'TRANSPORT_ADMIN', 'FINANCE_ADMIN'].includes(user.user_type)`.
abbrev pub is_admin : AuthUserType → Bool
is_admin student = false
is_admin employee = false
is_admin super_admin = true
is_admin transport_admin = true
is_admin finance_admin = true

-- The guards once the user is known.
abbrev pub require_user : Option AuthUser → Element → Screen
require_user none e = redirected "/auth/sign-in"
require_user (some u) e = screen_of e

abbrev pub require_admin : Option AuthUser → Element → Screen
require_admin none e = redirected "/admin/signin"
require_admin (some u) e =
    if not (is_admin u.user_type) then redirected "/admin/signin" else screen_of e

unfoldable pub require_auth_screen : AuthState → Element → Screen
require_auth_screen s e = if not s.initialized then loading else require_user s.user e

unfoldable pub admin_protected_screen : AuthState → Element → Screen
admin_protected_screen s e = if not s.initialized then loading else require_admin s.user e

abbrev pub guarded : Guard → AuthState → Element → Screen
guarded open_to_all s e = screen_of e
guarded require_auth s e = require_auth_screen s e
guarded admin_only s e = admin_protected_screen s e

-- The route of a location; any other location goes to "/".
abbrev pub screen_at : Option Route → AuthState → Screen
screen_at none s = redirected "/"
screen_at (some r) s = guarded r.guard s r.element

module _ (same_path : String → String → Bool) where
  -- `App` at a location.
  unfoldable pub visit : AuthState → String → Screen
  unfolding routes
  visit s location =
      if not s.initialized
      then loading
      else screen_at (find (λ r. same_path r.path location) routes) s
