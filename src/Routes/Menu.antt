-- ===== src/Routes/Menu.antt =====
-- The menu of the administrators: `filteredNavItems` of frontend/src/admin/layout/AdminLayout.tsx. Labels
-- and icons are left out.
use mathlib.Core.Path.{subst}
use giki_wallet.Common.{
  ◌≡◌, refl, String, Bool, true, false, not, sym, ◌∙◌, ◌==◌, Option, none, some, List, [], ◌∷◌,
  keep, All, find, is_some, if◌then◌else◌,
}
use giki_wallet.Auth.User.{AuthUser, AuthUserType, transport_admin}
use giki_wallet.Auth.Client.{AuthState}
use giki_wallet.Routes.{
  Page, Screen, shown, loading, blank, redirected, page, routes, visit, is_admin,
  admin_protected_screen, trips_page, admin_tickets_page, users_page, transactions_page,
  gateway_transactions_page, system_logs_page, worker_status_page, settings_page,
}
use giki_wallet.Routes.Access.{for_admins}

abbrev pub admin_nav_items : List String
admin_nav_items =
    "/admin/trips" ∷ "/admin/tickets" ∷ "/admin/users" ∷ "/admin/transactions"
    ∷ "/admin/gateway-transactions" ∷ "/admin/logs" ∷ "/admin/system" ∷ "/admin/settings" ∷ []

abbrev pub allowed_paths : List String
allowed_paths =
    "/admin/trips" ∷ "/admin/users" ∷ "/admin/transactions" ∷ "/admin/gateway-transactions"
    ∷ "/admin/tickets" ∷ "/admin/system" ∷ "/admin/logs" ∷ "/admin/settings" ∷ []

abbrev includes : List String → String → Bool
includes paths path = is_some (find (λ p. p == path) paths)

abbrev offered : AuthUserType → String → Bool
offered transport_admin path = includes allowed_paths path
offered _ path = true

unfoldable pub filtered_nav_items : Option AuthUser → List String
filtered_nav_items none = admin_nav_items
filtered_nav_items (some u) = keep (offered u.user_type) admin_nav_items

-- The list of what transport administrators may see leaves nothing out: the menu is the same for
-- every user.
filtered_nav_items-same : (user : Option AuthUser) → filtered_nav_items user ≡ admin_nav_items
unfolding filtered_nav_items
filtered_nav_items-same none = refl
filtered_nav_items-same (some u) = all_offered u.user_type
  where
    all_offered : (t : AuthUserType) → keep (offered t) admin_nav_items ≡ admin_nav_items
    all_offered = elim [ transport_admin ↦ refl | _ ↦ refl ]

abbrev exactly : String → String → Bool
exactly a b = a == b

-- The screen is a page of the administrators.
abbrev IsAdminPage : Screen → Type 0
IsAdminPage (shown p) = for_admins p ≡ true
IsAdminPage loading = ⊥
IsAdminPage blank = ⊥
IsAdminPage (redirected to) = ⊥

past_waiting : (b : Bool) (k : Screen) → b ≡ true → (if not b then loading else k) ≡ k
past_waiting true k e = refl
past_waiting false k e = cc

module _ (s : AuthState) (u : AuthUser) (ready : s.initialized ≡ true) (known : s.user ≡ some u)
    (admin : is_admin u.user_type ≡ true) where
  admitted : (p : Page) → admin_protected_screen s (page p) ≡ shown p
  unfolding admin_protected_screen
  admitted p = rw ready (rw known (rw admin refl))

  visible :
      (p : Page)
      → (if not s.initialized then loading else admin_protected_screen s (page p)) ≡ shown p
  visible p = past_waiting s.initialized _ ready ∙ admitted p

  lands :
      (p : Page)
      → for_admins p ≡ true
      → IsAdminPage (if not s.initialized then loading else admin_protected_screen s (page p))
  lands p h = subst IsAdminPage (sym (visible p)) h

  -- Once the session is known, every link of the menu leads an administrator to a page of the
  -- administrators, where the router takes a location for the path that is spelt the same.
  nav_items-shown : All (λ path. IsAdminPage (visit exactly s path)) (filtered_nav_items s.user)
  unfolding visit routes
  nav_items-shown = rw (filtered_nav_items-same s.user) (
    lands trips_page refl,
    (
      lands admin_tickets_page refl,
      (
        lands users_page refl,
        (
          lands transactions_page refl,
          (
            lands gateway_transactions_page refl,
            (
              lands system_logs_page refl,
              (lands worker_status_page refl, (lands settings_page refl, tt)),
            ),
          ),
        ),
      ),
    ),
  )
