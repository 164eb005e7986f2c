-- ===== src/Auth/Client.antt =====
-- What the authentication store and the interceptors of the HTTP client share: the store's state,
-- the two tokens of `localStorage`, and the queue of requests that wait for a new token.
use giki_wallet.Common.{String, Bool, Option, List, ℕ}
use giki_wallet.Async.{Proc}
use giki_wallet.Async.Act.{Act}
use giki_wallet.Auth.User.{AuthUser, AuthUserType}

pub record AuthState : Type 0 where
  pub token : Option String
  pub refresh_token : Option String
  pub user : Option AuthUser
  pub is_loading : Bool
  pub initialized : Bool
  pub error : Option String

-- The items "auth_token" and "refresh_token".
pub record Storage : Type 0 where
  pub auth_token : Option String
  pub refresh_token : Option String

-- `is_refreshing` and `subscribers` are the variables of axios.ts; a queued request is its number.
-- `resumed` lists the queued requests that were sent again, each with the token it carried.
pub record Client : Type 0 where
  pub auth : AuthState
  pub storage : Storage
  pub is_refreshing : Bool
  pub subscribers : List ℕ
  pub resumed : List (ℕ × String)

pub record SignUpPayload : Type 0 where
  pub name : String
  pub email : String
  pub phone_number : String
  pub password : String
  pub user_type : AuthUserType
  pub reg_id : String

pub record SignInPayload : Type 0 where
  pub email : String
  pub password : String

pub record TokenPair : Type 0 where
  pub access_token : String
  pub refresh_token : String

pub record AuthResponse : Type 0 where
  pub id : String
  pub name : String
  pub email : String
  pub phone_number : Option String
  pub user_type : AuthUserType
  pub auth : Option TokenPair

pub data Request : Type 0 where
  sign_out_call get_me : Request
  verify_email rotate_tokens : String → Request
  sign_up : SignUpPayload → Request
  sign_in : SignInPayload → Request

abbrev pub Answer : Request → Type 0
Answer sign_out_call = Unit
Answer _ = AuthResponse

abbrev pub Action : Type 0 → Type 0
Action A = Act Client Request Answer A

abbrev pub Process : Type 0
Process = Proc Client Request Answer
