-- ===== src/Auth/Store.antt =====
-- frontend/src/shared/stores/authStore.ts: the actions of the authentication store.
--
-- A missing token and an empty one are both falsy, so a token that the server leaves out is the
-- empty text here.
use giki_wallet.Common.{String, Bool, true, false, ◌||◌, Option, none, some, ◌==◌, if◌then◌else◌}
use giki_wallet.Errors.{Thrown, js_error, get_error_message}
use giki_wallet.Async.Act.{
  ◌>>=◌, ◌>>◌, return, throw, set, get, await, await_act, branch, try_catch, spawn,
}
use giki_wallet.Auth.User.{AuthUser}
use giki_wallet.Auth.Client.{
  AuthState, SignUpPayload, SignInPayload, AuthResponse, sign_out_call, get_me, verify_email,
  rotate_tokens, sign_up, sign_in, Action,
}

-- `set(f)` of the store.
abbrev pub set_auth : (AuthState → AuthState) → Action (Unit {0})
set_auth f = set (λ c. record c { auth = f c.auth })

abbrev pub set_storage : Option String → Option String → Action (Unit {0})
set_storage token refresh_token =
    set (λ c. record c { storage = record { auth_token = token; refresh_token = refresh_token } })

abbrev pub access_token_of : AuthResponse → String
access_token_of data' = elim data'.auth [ none ↦ "" | some pair ↦ pair.access_token ]

abbrev pub refresh_token_of : AuthResponse → String
refresh_token_of data' = elim data'.auth [ none ↦ "" | some pair ↦ pair.refresh_token ]

abbrev pub map_auth_response_to_user : AuthResponse → AuthUser
map_auth_response_to_user r = record {
  id = r.id;
  name = r.name;
  email = r.email;
  phone_number = r.phone_number;
  user_type = r.user_type;
  created_at = none;
  updated_at = none;
}

abbrev pub signed_out : AuthState → AuthState
signed_out s = record s {
  token = none;
  refresh_token = none;
  user = none;
  error = none;
  is_loading = false;
  initialized = true;
}

-- The call of the server is not awaited, and its failure is ignored.
unfoldable pub sign_out : Action (Unit {0})
sign_out = do spawn (await sign_out_call); set_storage none none; set_auth signed_out

abbrev pub is_missing : Option String → Bool
is_missing none = true
is_missing (some t) = t == ""

abbrev pub text_of : Option String → String
text_of none = ""
text_of (some t) = t

abbrev pub loaded : Option String → Option String → AuthResponse → AuthState → AuthState
loaded token refresh_token r s = record s {
  token = token;
  refresh_token = refresh_token;
  user = some (map_auth_response_to_user r);
  initialized = true;
}

unfoldable pub load_me : Action (Unit {0})
load_me =
    try_catch
      (do
        c ← get
        branch (is_missing c.storage.auth_token)
            (set_auth (λ s. record s {
              token = none;
              refresh_token = none;
              user = none;
              initialized = true;
            }))
            (do
              r ← await get_me
              now ← get
              set_auth (loaded c.storage.auth_token now.storage.refresh_token r)))
      (λ e. set_auth (λ s. record s { initialized = true }))

abbrev pub started_loading : AuthState → AuthState
started_loading s = record s { is_loading = true; error = none }

abbrev pub failed_with : String → AuthState → AuthState
failed_with message s = record s { error = some message; is_loading = false }

-- The `catch` of an action of the forms: the message is kept and thrown on.
abbrev pub fail : {A : Type 0} → Thrown → Action A
fail e = set_auth (failed_with (get_error_message e)) >> throw (js_error (get_error_message e))

abbrev pub signed_in : AuthResponse → AuthState → AuthState
signed_in r s = record s {
  token = some (access_token_of r);
  refresh_token = some (refresh_token_of r);
  user = some (map_auth_response_to_user r);
  is_loading = false;
  error = none;
  initialized = true;
}

abbrev pub incomplete : AuthResponse → Bool
incomplete r = access_token_of r == "" || refresh_token_of r == ""

-- What `verifyAndLogin` and `login` do with the server's answer.
unfoldable pub keep_tokens : AuthResponse → Action (Unit {0})
keep_tokens r =
    branch (incomplete r) (throw (js_error "Incomplete token pair received"))
      (set_storage (some (access_token_of r)) (some (refresh_token_of r)) >> set_auth (signed_in r))

unfoldable pub verify_and_login : String → Action (Unit {0})
verify_and_login token = do
  set_auth started_loading
  try_catch (do r ← await (verify_email token); keep_tokens r) fail

unfoldable pub login : SignInPayload → Action (Unit {0})
login input = do
  set_auth started_loading
  try_catch (do r ← await (sign_in input); keep_tokens r) fail

unfoldable pub register_user : SignUpPayload → Action AuthUser
register_user input = do
  set_auth started_loading
  try_catch
      (do
        r ← await (sign_up input)
        set_auth (λ s. record s { is_loading = false; error = none })
        return (map_auth_response_to_user r))
      fail

-- The user of a refreshed session: that of the answer, if it has one.
abbrev pub refreshed_user : AuthResponse → Option AuthUser → Option AuthUser
refreshed_user r old = if r.id == "" then old else some (map_auth_response_to_user r)

abbrev pub refreshed : AuthResponse → AuthState → AuthState
refreshed r s = record s {
  token = some (access_token_of r);
  refresh_token = some (refresh_token_of r);
  user = refreshed_user r s.user;
  error = none;
  initialized = true;
}

-- The `await import(...)` of the module is a turn of its own.
unfoldable pub rotate : String → Action (Unit {0})
rotate token = do
  await_act (return tt)
  r ← await (rotate_tokens token)
  branch (incomplete r) (throw (js_error "Failed to rotate tokens"))
      (set_storage (some (access_token_of r)) (some (refresh_token_of r)) >> set_auth (refreshed r))

unfoldable pub refresh_session : Action (Unit {0})
refresh_session = do
  c ← get
  branch (is_missing c.storage.refresh_token) sign_out
      (try_catch (rotate (text_of c.storage.refresh_token)) (λ e. sign_out >> throw e))
