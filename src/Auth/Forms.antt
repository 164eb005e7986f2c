-- ===== src/Auth/Forms.antt =====
-- The forms of frontend/src/shared/modules/auth: utils.ts, the schemas of validators.ts, and what
-- pages/SignUpPage.tsx submits.
--
-- Texts that are trimmed or searched are lists of code points. Whether a text is an e-mail address
-- is decided by the library zod: the parameter `is_email`. What `registerUser` answers, and the
-- navigation that follows, are left out.
pub mod RegId
pub mod Submitting
mod Tests
use giki_wallet.Common.{
  ℕ, ◌==◌, String, Bool, true, false, not, ◌&&◌, ◌||◌, Option, none, some, List, [], ◌∷◌, ◌++◌, map,
  codes, codes_eq, lower_code, trim, leb, nat_eq, is_some, keep, if◌then◌else◌, length,
}

abbrev pub is_digit : ℕ → Bool
is_digit k = leb 48 k && leb k 57

-- `\d+` from the start on: the digits, and what follows them.
unfoldable pub span_digits : List ℕ → List ℕ × List ℕ
span_digits [] = ([], [])
span_digits (c ∷ cs) =
    let (ds, rest) = span_digits cs in if is_digit c then (c ∷ ds, rest) else ([], c ∷ cs)

-- What follows a word, if the text begins with it.
unfoldable pub after_word : List ℕ → List ℕ → Option (List ℕ)
after_word [] cs = some cs
after_word (d ∷ ds) [] = none
after_word (d ∷ ds) (c ∷ cs) = let rest = after_word ds cs in if nat_eq d c then rest else none

abbrev pub domain : List ℕ
domain = codes "@giki.edu.pk"

-- The match of `word\d+@giki\.edu\.pk`, from what follows the word: the word and its digits.
abbrev pub with_digits : List ℕ → List ℕ × List ℕ → Option (List ℕ)
with_digits word ([], rest) = none
with_digits word (d ∷ ds, rest) = if codes_eq rest domain then some (word ++ d ∷ ds) else none

abbrev pub then_digits : List ℕ → Option (List ℕ) → Option (List ℕ)
unfolding span_digits
then_digits word none = none
then_digits word (some rest) = with_digits word (span_digits rest)

abbrev pub or_match : Option (List ℕ) → Option (List ℕ) → Option (List ℕ)
or_match (some id) later = some id
or_match none later = later

-- The programmes whose students have such an address.
pub data Programme : Type 0 where
  undergraduate gcs gcv gee gem : Programme

abbrev pub word_of : Programme → List ℕ
word_of undergraduate = codes "u"
word_of gcs = codes "gcs"
word_of gcv = codes "gcv"
word_of gee = codes "gee"
word_of gem = codes "gem"

unfoldable pub match_programme : Programme → List ℕ → Option (List ℕ)
unfolding after_word then_digits
match_programme p cs = then_digits (word_of p) (after_word (word_of p) cs)

-- The match of the alternatives, in their order.
unfoldable pub match_student : List ℕ → Option (List ℕ)
unfolding match_programme
match_student cs = or_match (match_programme undergraduate cs) (
    or_match (match_programme gcs cs) (
      or_match (match_programme gcv cs)
        (or_match (match_programme gee cs) (match_programme gem cs))))

-- `email.trim().toLowerCase()`.
abbrev pub normalized : String → List ℕ
normalized email = map lower_code (trim (codes email))

-- `extractStudentRegIdFromEmail`.
unfoldable pub extract_student_reg_id : String → Option (List ℕ)
unfolding match_student
extract_student_reg_id email = match_student (normalized email)

-- `phone.replace(/\D/g, '')`.
unfoldable pub normalize_phone : List ℕ → List ℕ
normalize_phone phone = keep is_digit phone

abbrev pub is_blank : String → Bool
is_blank text = codes_eq (trim (codes text)) []

-- `!text || !text.trim()`, for a text that may be missing.
abbrev pub missing : Option String → Bool
missing none = true
missing (some text) = text == "" || is_blank text

abbrev pub same_text : String → Option String → Bool
same_text a none = false
same_text a (some b) = a == b

-- `phoneSchema`.
unfoldable pub phone_ok : String → Bool
unfolding normalize_phone
phone_ok phone =
    let digits = length (normalize_phone (codes phone)) in
    not (phone == "") && (nat_eq digits 10 || nat_eq digits 11)

pub data UserType : Type 0 where
  student employee : UserType

pub record SignUpFormData : Type 0 where
  pub user_type : UserType
  pub name : Option String
  pub email : String
  pub phone_number : String
  pub password : String
  pub confirm_password : Option String

-- The issues that `superRefine` adds.
pub record Issue : Type 0 where
  pub path : String
  pub message : String

abbrev pub issue_if : Bool → String → String → List Issue
issue_if b path message = if b then record { path = path; message = message } ∷ [] else []

abbrev pub type_issues : UserType → Option (List ℕ) → List Issue
type_issues student none =
    record {
      path = "email";
      message = "Student email must look like u2021000@giki.edu.pk or gcs2400@giki.edu.pk";
    }
    ∷ []
type_issues student (some id) = []
type_issues employee none = []
type_issues employee (some id) =
    record {
      path = "userType";
      message = "Please signup as a student (Graduate students use student signup)";
    }
    ∷ []

abbrev pub password_issues : SignUpFormData → List Issue
password_issues d =
    if missing d.confirm_password
    then record { path = "confirmPassword"; message = "Confirm password is required" } ∷ []
    else issue_if (not (same_text d.password d.confirm_password)) "confirmPassword"
        "Passwords do not match"

unfoldable pub sign_up_issues : SignUpFormData → List Issue
unfolding extract_student_reg_id
sign_up_issues d =
    issue_if (missing d.name) "name" "Full name is required"
    ++ password_issues d
    ++ type_issues d.user_type (extract_student_reg_id d.email)

abbrev pub no_issues : List Issue → Bool
no_issues [] = true
no_issues (i ∷ rest) = false

module _ (is_email : String → Bool) where
  -- `signInSchema`.
  unfoldable pub sign_in_ok : String → String → Bool
  sign_in_ok email password = not (email == "") && is_email email && not (password == "")

  -- `signUpSchema`.
  unfoldable pub sign_up_ok : SignUpFormData → Bool
  unfolding sign_up_issues phone_ok
  sign_up_ok d =
      not (d.email == "")
      && is_email d.email
      && phone_ok d.phone_number
      && not (d.password == "")
      && no_issues (sign_up_issues d)

  -- `forgotPasswordSchema`.
  unfoldable pub forgot_password_ok : String → Bool
  forgot_password_ok email = not (email == "") && is_email email

-- `resetPasswordSchema`.
unfoldable pub reset_password_ok : String → String → Bool
reset_password_ok password confirm_password =
    leb 8 (length (codes password)) && not (confirm_password == "") && password == confirm_password

-- What `registerUser` is called with.
pub record RegisterRequest : Type 0 where
  pub name : List ℕ
  pub email : List ℕ
  pub phone_number : List ℕ
  pub password : String
  pub user_type : UserType
  pub reg_id : List ℕ

pub data Submitted : Type 0 where
  refused : String → Submitted
  registered : RegisterRequest → Submitted

abbrev pub text_or_empty : Option String → List ℕ
text_or_empty none = []
text_or_empty (some text) = codes text

abbrev pub request_with : SignUpFormData → List ℕ → RegisterRequest
request_with d reg_id = record {
  name = trim (text_or_empty d.name);
  email = trim (codes d.email);
  phone_number = trim (codes d.phone_number);
  password = d.password;
  user_type = d.user_type;
  reg_id = reg_id;
}

-- From the registration id on: a student without one is refused.
abbrev pub submit_as : SignUpFormData → UserType → Option (List ℕ) → Submitted
submit_as d employee id = registered (request_with d [])
submit_as d student (some (c ∷ cs)) = registered (request_with d (c ∷ cs))
submit_as d student _ = refused "Student email must look like u2022661@giki.edu.pk"

-- `onSubmit`, up to the request.
unfoldable pub on_submit : SignUpFormData → Submitted
unfolding extract_student_reg_id
on_submit d = submit_as d d.user_type (extract_student_reg_id d.email)
