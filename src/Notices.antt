-- ===== src/Notices.antt =====
-- Toasts: the messages that a store's action shows to the user (the library `sonner`, called by
-- the stores). A session is a store with what its actions see and show beside it.
use giki_wallet.Common.{String, Option, none, List, ◌∷◌}
use giki_wallet.Auth.User.{AuthUser}
use giki_wallet.Async.Act.{Act, set}

pub data ToastKind : Type 0 where
  success error info : ToastKind

pub record Toast : Type 0 where
  pub kind : ToastKind
  pub message : String
  pub description : Option String

-- `user` is that of the authentication store; the newest toast comes first.
pub record Session (T : Type 0) : Type 0 where
  pub store : T
  pub user : Option AuthUser
  pub toasts : List Toast

abbrev pub error_toast : String → Toast
error_toast m = record { kind = error; message = m; description = none }

abbrev pub success_toast : String → Toast
success_toast m = record { kind = success; message = m; description = none }

module _ {T : Type 0} {Q : Type 0} {R : Q → Type 0} where
  abbrev pub show : Toast → Act (Session T) Q R (Unit {0})
  show t = set (λ s. record s { toasts = t ∷ s.toasts })

  -- `set(f)` of the store alone.
  abbrev pub set_store : (T → T) → Act (Session T) Q R (Unit {0})
  set_store f = set (λ s. record s { store = f s.store })
