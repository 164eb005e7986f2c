-- ===== src/Admin/Users/Stale.antt =====
-- Requests for users that overlap: frontend/src/admin/modules/users/store.ts.
use giki_wallet.Common.{◌≡◌, refl, ℕ, List, [], ◌∷◌}
use giki_wallet.Async.{Config, advance}
use giki_wallet.Async.Act.{run}
use giki_wallet.Async.Schedules.{Command, begin, newest, oldest, play}
use giki_wallet.Admin.Users.{
  PartialFilters, User, UserUi, UserRequest, UserAnswer, list_call, list_params, with_filters,
  fetch_users, set_filters,
}

module _ (server : (q : UserRequest) → UserAnswer q) (u : UserUi) (page : ℕ)
    (new : PartialFilters) where
  -- A page of users is wanted, and the filters are changed before it comes; the two requests are
  -- answered in the order that is given.
  abbrev pub both_wanted :
      List (Command UserUi UserRequest UserAnswer) → Config UserUi UserRequest UserAnswer
  both_wanted answers =
      play server (begin (run (fetch_users page)) ∷ begin (run (set_filters new)) ∷ answers)
        (record { store = u; waiting = [] })

  -- Nothing waits, the store has the new filters, and the users.
  pub record Ended (c : Config UserUi UserRequest UserAnswer) (users : List User) : Type 0 where
    pub idle : c.waiting ≡ []
    pub filters : c.store.store.filters ≡ with_filters u.store.filters new
    pub shown : c.store.store.users ≡ users

  -- What the server answers to the request by the old filters, and to that by the new ones.
  abbrev pub old_users : List User
  old_users =
      (server (list_call (list_params page u.store.pagination.page_size u.store.filters))).users

  abbrev pub new_users : List User
  new_users =
      (server (
        list_call
          (list_params 1 u.store.pagination.page_size (with_filters u.store.filters new)))).users

-- A page of users is wanted, the filters are changed before it comes, and the server answers both
-- requests by what they ask for. If the answers come in the order of the requests, then at the end
-- the store has the users of the new filters; if the second overtakes the first, then it has the
-- new filters beside the users of the old ones.
pub fetch_users_stale :
    (server : (q : UserRequest) → UserAnswer q) (u : UserUi) (page : ℕ) (new : PartialFilters)
    → Ended server u page new
        (both_wanted server u page new (oldest ∷ newest ∷ []))
        (new_users server u page new)
      × Ended server u page new
          (both_wanted server u page new (newest ∷ oldest ∷ []))
          (old_users server u page new)
unfolding advance fetch_users set_filters
fetch_users_stale server u page new = (
  record { idle = refl; filters = refl; shown = refl },
  record { idle = refl; filters = refl; shown = refl },
)
