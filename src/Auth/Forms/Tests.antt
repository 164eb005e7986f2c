-- ===== src/Auth/Forms/Tests.antt =====
-- Addresses and a form of signing up.
use giki_wallet.Common.{◌≡◌, ◌↔◌, refl, String, true, not, ◌==◌, some, none, ◌++◌, codes, Bool}
use giki_wallet.Auth.Forms.{
  domain, normalized, extract_student_reg_id, match_student, match_programme, after_word,
  span_digits, normalize_phone, phone_ok, student, SignUpFormData, sign_up_issues, sign_up_ok,
}
use giki_wallet.Auth.Forms.RegId.{IsRegId, extract_student_reg_id_iff}
use giki_wallet.Auth.Forms.Submitting.{Registers, sign_up_ok-Registers}

reads_capitals : extract_student_reg_id " U2021000@GIKI.edu.pk" ≡ some (codes "u2021000")
unfolding extract_student_reg_id match_student match_programme after_word span_digits
reads_capitals = refl

refuses_staff : extract_student_reg_id "ali@giki.edu.pk" ≡ none
unfolding extract_student_reg_id match_student match_programme after_word span_digits
refuses_staff = refl

extract_student_reg_id_iff_example :
    (extract_student_reg_id "gcs2400@giki.edu.pk" ≡ some (codes "gcs2400"))
    ↔ (IsRegId (codes "gcs2400") × (normalized "gcs2400@giki.edu.pk" ≡ codes "gcs2400" ++ domain))
extract_student_reg_id_iff_example =
    extract_student_reg_id_iff "gcs2400@giki.edu.pk" (codes "gcs2400")

abbrev form : SignUpFormData
form = record {
  user_type = student;
  name = some "Ali";
  email = "u2021000@giki.edu.pk";
  phone_number = "0300-1234567";
  password = "secret";
  confirm_password = some "secret";
}

abbrev some_text : String → Bool
some_text text = not (text == "")

accepted : sign_up_ok some_text form ≡ true
unfolding sign_up_ok sign_up_issues phone_ok normalize_phone extract_student_reg_id match_student
    match_programme after_word span_digits
accepted = refl

sign_up_ok-Registers_example : Registers form student
sign_up_ok-Registers_example = sign_up_ok-Registers form some_text accepted
