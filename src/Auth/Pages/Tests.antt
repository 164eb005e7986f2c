-- ===== src/Auth/Pages/Tests.antt =====
-- The pages, run on small inputs.
use giki_wallet.Common.{◌≡◌, refl, true, none, [], ◌∷◌}
use giki_wallet.Errors.{app_error, bare_error}
use giki_wallet.Async.{fulfilled, rejected}
use giki_wallet.Async.Act.{run}
use giki_wallet.Async.Runs.{World, execute}
use giki_wallet.Notices.{Session, error_toast, success_toast}
use giki_wallet.Auth.Pages.{
  redirect_to, PasswordPage, PasswordRequest, PasswordAnswer, initial_password_page, asking,
  forgot_password_submit, reset_password_submit,
}

guards_come_first : redirect_to "/tickets" "/top-up" "/admin/signin" ≡ "/tickets"
unfolding redirect_to
guards_come_first = refl

admins_go_to_their_pages : redirect_to "" "" "/admin/signin" ≡ "/admin"
unfolding redirect_to
admins_go_to_their_pages = refl

abbrev opened : Session PasswordPage
opened = record { store = initial_password_page; user = none; toasts = [] }

abbrev answering : World (Session PasswordPage) PasswordRequest PasswordAnswer
answering = record { reply = λ q. fulfilled tt; during = λ q s. s; between = λ s. s }

abbrev refusing : World (Session PasswordPage) PasswordRequest PasswordAnswer
refusing = record {
  reply = λ q. rejected (app_error (bare_error "NOT_FOUND" "No such user" 404));
  during = λ q s. s;
  between = λ s. s;
}

mail_is_sent :
    execute answering (run (forgot_password_submit " ali@giki.edu.pk ")) opened ≡ record opened {
      store = record initial_password_page { is_email_sent = true };
      toasts = success_toast "Reset link sent to your email" ∷ [];
    }
unfolding execute forgot_password_submit asking
mail_is_sent = refl

-- The reason that the server gives is not shown.
reason_is_lost :
    execute refusing (run (reset_password_submit "t" "secret")) opened
    ≡ record opened { toasts = error_toast "Failed to reset password" ∷ [] }
unfolding execute reset_password_submit asking
reason_is_lost = refl
