-- ===== src/Routes/Access.antt =====
-- Who gets to see which page of the application: frontend/src/App.tsx and its guards.
use giki_wallet.Common.{
  ◌≡◌, refl, String, Bool, true, false, not, Bool-cases, inl, inr, Option, none, some, List, [],
  ◌∷◌, find, All, arith, ◌==◌, if◌then◌else◌,
}
use giki_wallet.Auth.User.{AuthUser}
use giki_wallet.Auth.Client.{AuthState}
use giki_wallet.Routes.{
  Page, transport_page, booking_confirmation_page, passenger_details_page, top_up_page,
  payment_result_page, tickets_page, account_page, trips_page, admin_tickets_page, users_page,
  transactions_page, gateway_transactions_page, history_page, create_trip_page, worker_status_page,
  system_logs_page, settings_page, Element, outlet, page, navigate, Guard, open_to_all,
  require_auth, admin_only, Route, routes, Screen, loading, shown, redirected, screen_of, is_admin,
  require_user, require_admin, require_auth_screen, admin_protected_screen, guarded, screen_at,
  visit,
}

-- The pages of frontend/src/admin.
abbrev pub for_admins : Page → Bool
for_admins trips_page = true
for_admins admin_tickets_page = true
for_admins users_page = true
for_admins transactions_page = true
for_admins gateway_transactions_page = true
for_admins history_page = true
for_admins create_trip_page = true
for_admins worker_status_page = true
for_admins system_logs_page = true
for_admins settings_page = true
for_admins _ = false

-- The pages of a user's bookings, tickets, wallet and account.
abbrev pub for_users : Page → Bool
for_users transport_page = true
for_users booking_confirmation_page = true
for_users passenger_details_page = true
for_users top_up_page = true
for_users payment_result_page = true
for_users tickets_page = true
for_users account_page = true
for_users _ = false

-- The user may see the page: administrators' pages need an administrator, users' pages a user.
abbrev pub MaySee : Option AuthUser → Page → Type 0
MaySee none p = (for_admins p ≡ false) × (for_users p ≡ false)
MaySee (some u) p = for_admins p ≡ true → is_admin u.user_type ≡ true

-- The guard of a route is as strict as its page demands.
abbrev Strict : Guard → Page → Type 0
Strict open_to_all p = (for_admins p ≡ false) × (for_users p ≡ false)
Strict require_auth p = for_admins p ≡ false
Strict admin_only p = Unit

abbrev StrictFor : Guard → Element → Type 0
StrictFor g outlet = Unit
StrictFor g (page p) = Strict g p
StrictFor g (navigate to) = Unit

abbrev Demands : Route → Type 0
Demands r = StrictFor r.guard r.element

all_strict : All Demands routes
unfolding routes
all_strict = ground arith

find-All :
    {A : Type 0} (P : A → Type 0) (test : A → Bool) (l : List A) (x : A)
    → All P l
    → find test l ≡ some x
    → P x
find-All P test [] x h e = cc
find-All P test (y ∷ l) x (h, k) e = elim (Bool-cases (test y)) [
  | inl t ↦ let same : some y ≡ some x = rw t at e in let eq : x ≡ y = cc in rw eq h
  | inr f ↦ find-All P test l x k (rw f at e)
]

-- A guard that waits shows no page.
past_loading :
    (b : Bool) (k : Screen) (p : Page) → (if not b then loading else k) ≡ shown p → k ≡ shown p
past_loading true k p e = e
past_loading false k p e = cc

require_user-MaySee :
    (u : Option AuthUser) (e : Element) (p : Page)
    → StrictFor require_auth e
    → require_user u e ≡ shown p
    → MaySee u p
require_user-MaySee none e p h k = cc
require_user-MaySee (some u) (page q) p h k = let same : p ≡ q = cc in λ a. absurd (cc)
require_user-MaySee (some u) (navigate to) p h k = cc
require_user-MaySee (some u) outlet p h k = cc

require_admin-MaySee :
    (u : Option AuthUser) (e : Element) (p : Page) → require_admin u e ≡ shown p → MaySee u p
require_admin-MaySee none e p k = cc
require_admin-MaySee (some u) e p k = λ a. admitted (is_admin u.user_type) k
  where
    admitted :
        (b : Bool)
        → (if not b then redirected "/admin/signin" else screen_of e) ≡ shown p
        → b ≡ true
    admitted true k = refl
    admitted false k = cc

open-MaySee :
    (u : Option AuthUser) (e : Element) (p : Page)
    → StrictFor open_to_all e
    → screen_of e ≡ shown p
    → MaySee u p
open-MaySee none (page q) p (h, h') k = let same : p ≡ q = cc in (rw same h, rw same h')
open-MaySee (some u) (page q) p (h, h') k = let same : p ≡ q = cc in λ a. absurd (cc)
open-MaySee u (navigate to) p h k = cc
open-MaySee u outlet p h k = cc

guarded-MaySee :
    (g : Guard) (s : AuthState) (e : Element) (p : Page)
    → StrictFor g e
    → guarded g s e ≡ shown p
    → MaySee s.user p
unfolding require_auth_screen admin_protected_screen
guarded-MaySee open_to_all s e p h k = open-MaySee s.user e p h k
guarded-MaySee require_auth s e p h k =
    require_user-MaySee s.user e p h (past_loading s.initialized _ p k)
guarded-MaySee admin_only s e p h k =
    require_admin-MaySee s.user e p (past_loading s.initialized _ p k)

screen_at-MaySee :
    (same_path : String → String → Bool) (r : Option Route) (s : AuthState) (location : String)
    (p : Page)
    → find (λ r. same_path r.path location) routes ≡ r
    → screen_at r s ≡ shown p
    → MaySee s.user p
screen_at-MaySee same_path none s location p e k = cc
screen_at-MaySee same_path (some r) s location p e k =
    guarded-MaySee r.guard s r.element p
      (find-All Demands (λ r. same_path r.path location) routes r all_strict e) k

-- Wherever the location and however paths are compared, a page that is shown is one that the user
-- may see.
pub visit-MaySee :
    (same_path : String → String → Bool) (s : AuthState) (location : String) (p : Page)
    → visit same_path s location ≡ shown p
    → MaySee s.user p
unfolding visit
visit-MaySee same_path s location p k =
    screen_at-MaySee same_path _ s location p refl (past_loading s.initialized _ p k)

-- No route leads to "/transport/tickets": whoever is sent there lands on the home page.
pub transport_tickets_lands_home :
    (same_path : String → String → Bool) (s : AuthState)
    → ((path : String)
        → (path == "/transport/tickets") ≡ false
        → same_path path "/transport/tickets" ≡ false)
    → s.initialized ≡ true
    → visit same_path s "/transport/tickets" ≡ redirected "/"
unfolding visit routes
transport_tickets_lands_home same_path s differs ready = rw ready (simp differs)
