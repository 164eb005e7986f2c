-- ===== src/Auth/User.antt =====
-- The signed-in user: frontend/src/shared/stores/authStore.ts, lines 14 to 24.
use giki_wallet.Common.{String, Option}

pub data AuthUserType : Type 0 where
  student employee super_admin transport_admin finance_admin : AuthUserType

-- The text that stands for a user type in the source.
abbrev pub user_type_text : AuthUserType → String
user_type_text student = "STUDENT"
user_type_text employee = "EMPLOYEE"
user_type_text super_admin = "SUPER_ADMIN"
user_type_text transport_admin = "TRANSPORT_ADMIN"
user_type_text finance_admin = "FINANCE_ADMIN"

pub record AuthUser : Type 0 where
  pub id : String
  pub name : String
  pub email : String
  pub phone_number : Option String
  pub user_type : AuthUserType
  pub created_at : Option String
  pub updated_at : Option String
