-- ===== src/Admin/UserForm/Tests.antt =====
-- A student who is edited.
use giki_wallet.Common.{◌≡◌, refl, String, Option, none, some, true}
use giki_wallet.Admin.Users.{User}
use giki_wallet.Admin.UserForm.{SubmittedUser, StudentFields, handle_submit, reset_form}

abbrev student : User
student = record {
  id = "u7";
  name = "Ali";
  email = "u2022101@giki.edu.pk";
  phone_number = none;
  is_active = true;
  is_verified = true;
  user_type = "STUDENT";
  created_at = "";
  updated_at = "";
}

abbrev student_part : Option (SubmittedUser String) → Option (StudentFields String)
student_part none = none
student_part (some u) = u.student

-- Nothing was changed, but an empty registration id is sent.
registration_is_emptied :
    student_part (handle_submit (λ text. text) (reset_form (some student)))
    ≡ some (record { reg_id = ""; batch_year = none })
unfolding handle_submit reset_form
registration_is_emptied = refl

nameless_is_refused : handle_submit (λ text. text) (reset_form none) ≡ none
unfolding handle_submit reset_form
nameless_is_refused = refl
