-- ===== src/Auth/Pages.antt =====
-- The pages of frontend/src/shared/modules/auth/pages that sign in, verify an address, reset a password
-- and sign out, with `requestPasswordReset` and `resetPassword` of api.ts.
--
-- A page says what it shows and where it goes; what React renders is left out.
mod Tests
use giki_wallet.Common.{
  ℕ, ◌==◌, String, Bool, true, false, Option, none, some, List, codes, is_prefix, str_or, trim,
  if◌then◌else◌, codes_eq, [],
}
use giki_wallet.Errors.{Thrown, http_error, app_error, js_error, other}
use giki_wallet.Async.{Proc}
use giki_wallet.Async.Act.{Act, ◌>>=◌, ◌>>◌, return, await, await_act, try_catch, finally}
use giki_wallet.Notices.{Session, show, error_toast, success_toast, set_store}
use giki_wallet.Admin.Trips.{response_message}
use giki_wallet.Auth.Client.{Action, SignInPayload}
use giki_wallet.Auth.Store.{login, verify_and_login, sign_out}

-- A missing text and an empty one are both falsy: they are the empty text.
--
-- `redirectTo` of SignInPage.tsx, from the location that the guards pass on, the query's `redirect`,
-- and the page's own path.
unfoldable pub redirect_to : String → String → String → String
redirect_to from query_redirect pathname =
    if from == ""
    then if query_redirect == ""
      then (if is_prefix (codes "/admin") (codes pathname) then "/admin" else "/")
      else query_redirect
    else from

-- What the user sees at the end: a message and another page, or an error.
pub data Ending : Type 0 where
  goes_on : String → String → Ending
  refused : String → Ending

-- `e instanceof Error ? e.message : fallback`: what is thrown by the stores and by the HTTP client is an
-- `Error`.
abbrev pub error_text : String → Thrown → String
error_text fallback (http_error response message) = message
error_text fallback (app_error e) = e.message
error_text fallback (js_error message) = message
error_text fallback other = fallback

-- `onSubmit` of SignInPage.tsx, with the address trimmed already.
unfoldable pub sign_in_submit : String → SignInPayload → Action Ending
sign_in_submit to input =
    try_catch (do await_act (login input); return (goes_on "Signed in" to))
      (λ e. return (refused (error_text "Sign in failed. Please try again." e)))

-- The effect of VerifyEmailPage.tsx, for a token that is there.
unfoldable pub verify_address : String → Action Ending
verify_address token =
    try_catch
      (do
        await_act (verify_and_login token)
        return (goes_on "Email verified. You are signed in." "/"))
      (λ e. return (refused (error_text "Verification failed." e)))

-- `handleLogout` of AccountPage.tsx: where it goes.
unfoldable pub handle_logout : Action String
handle_logout = do sign_out; return "/auth/sign-in"

pub record PasswordPage : Type 0 where
  pub is_loading : Bool
  pub is_email_sent : Bool
  pub location : Option String

abbrev pub initial_password_page : PasswordPage
initial_password_page = record { is_loading = false; is_email_sent = false; location = none }

pub data PasswordRequest : Type 0 where
  request_password_reset : List ℕ → PasswordRequest
  reset_password : String → String → PasswordRequest

abbrev pub PasswordAnswer : PasswordRequest → Type 0
PasswordAnswer q = Unit

abbrev pub PasswordAction : Type 0
PasswordAction = Act (Session PasswordPage) PasswordRequest PasswordAnswer (Unit {0})

-- `setIsLoading(true)`, then a request with what follows it, its error, and `setIsLoading(false)`.
unfoldable pub asking : PasswordRequest → PasswordAction → String → PasswordAction
asking q done fallback =
    set_store (λ p. record p { is_loading = true })
    >> finally
        (try_catch (do _ ← await q; done)
          (λ e. show (error_toast (str_or (response_message e) fallback))))
        (set_store (λ p. record p { is_loading = false }))

-- `onSubmit` of ForgotPasswordPage.tsx.
unfoldable pub forgot_password_submit : String → PasswordAction
unfolding asking
forgot_password_submit email =
    asking (request_password_reset (trim (codes email)))
      (do
        set_store (λ p. record p { is_email_sent = true })
        show (success_toast "Reset link sent to your email"))
      "Failed to send reset link"

-- `onSubmit` of ResetPasswordPage.tsx.
unfoldable pub reset_password_submit : String → String → PasswordAction
unfolding asking
reset_password_submit token password =
    if token == ""
    then show (error_toast "Invalid or missing reset token")
    else asking (reset_password token password)
        (do
          show (success_toast "Password reset successfully")
          set_store (λ p. record p { location = some "/auth/sign-in" }))
        "Failed to reset password"
