-- ===== src/Auth/Signing.antt =====
-- `login` of frontend/src/shared/stores/authStore.ts, from the call to its end.
use giki_wallet.Common.{◌≡◌, refl, true, false, none, some}
use giki_wallet.Errors.{Thrown, js_error, get_error_message}
use giki_wallet.Async.{fulfilled, rejected}
use giki_wallet.Async.Act.{run}
use giki_wallet.Async.Runs.{
  World, execute, ended, changed, either, got, failed, execute-Ends, Ends-execute,
}
use giki_wallet.Auth.Client.{Client, Request, Answer, Process, SignInPayload, AuthResponse, sign_in}
use giki_wallet.Auth.Store.{
  access_token_of, refresh_token_of, map_auth_response_to_user, incomplete, started_loading,
  failed_with, keep_tokens, login,
}

-- The store and `localStorage` have the tokens of the answer, and the store its user.
pub record IsSignedIn (r : AuthResponse) (c : Client) : Type 0 where
  pub token : c.auth.token ≡ some (access_token_of r)
  pub refresh_token : c.auth.refresh_token ≡ some (refresh_token_of r)
  pub token_kept : c.storage.auth_token ≡ c.auth.token
  pub refresh_token_kept : c.storage.refresh_token ≡ c.auth.refresh_token
  pub user : c.auth.user ≡ some (map_auth_response_to_user r)
  pub error : c.auth.error ≡ none
  pub idle : c.auth.is_loading ≡ false
  pub initialized : c.auth.initialized ≡ true

module _ (w : World Client Request Answer) (input : SignInPayload) (c : Client) where
  -- The client when the answer comes.
  abbrev pub answered : Client
  answered = w.during (sign_in input) (record c { auth = started_loading c.auth })

  -- When the server answers with two tokens, neither of them empty, `login` signs the user in:
  -- store and `localStorage` have the same two tokens, the store has the user, no error and is
  -- idle, whatever happened while it waited.
  pub login-IsSignedIn :
      (r : AuthResponse)
      → w.reply (sign_in input) ≡ fulfilled r
      → incomplete r ≡ false
      → IsSignedIn r (execute w (run (login input)) c)
  unfolding login keep_tokens
  login-IsSignedIn r reply whole = execute-Ends {P = IsSignedIn r} (
      changed (
        got reply (
          either (λ e. cc)
            (λ _. changed (
              changed (
                ended (record {
                  token = refl;
                  refresh_token = refl;
                  token_kept = refl;
                  refresh_token_kept = refl;
                  user = refl;
                  error = refl;
                  idle = refl;
                  initialized = refl;
                })))))))

  module _ (ok : Unit {0} → Process) (err : Thrown → Process) where
    -- The client that is left, and what goes on, when signing in failed with `e`.
    abbrev pub after_failure : Thrown → Client
    after_failure e =
        execute w (err (js_error (get_error_message e)))
          (record answered { auth = failed_with (get_error_message e) answered.auth })

    -- When the server refuses, or leaves out one of the two tokens, `login` keeps the message of
    -- the error in the store, changes no token, is idle, and throws that message on to its caller.
    pub login_fails :
        ((e : Thrown)
          → w.reply (sign_in input) ≡ rejected e
          → execute w (login input ok err) c ≡ after_failure e)
        × ((r : AuthResponse)
            → w.reply (sign_in input) ≡ fulfilled r
            → incomplete r ≡ true
            → execute w (login input ok err) c
              ≡ after_failure (js_error "Incomplete token pair received"))
    unfolding login keep_tokens
    login_fails = (
      λ e reply.
          execute-Ends {P = λ c'. c' ≡ after_failure e}
            (changed (failed reply (changed (Ends-execute _ _ refl)))),
      λ r reply partial.
          execute-Ends {P = λ c'. c' ≡ after_failure (js_error "Incomplete token pair received")}
            (changed (got reply (either (λ _. changed (Ends-execute _ _ refl)) (λ e. cc)))),
    )
