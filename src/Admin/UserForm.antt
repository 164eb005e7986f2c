-- ===== src/Admin/UserForm.antt =====
-- frontend/src/admin/modules/users/components/UserFormModal.tsx: the form for a user that the
-- administrators add or edit.
mod Tests
use giki_wallet.Common.{
  ◌==◌, ◌≡◌, refl, String, Bool, true, false, ◌||◌, Option, none, some, if◌then◌else◌,
}
use giki_wallet.Admin.Users.{User, PartialUser}

-- Its states.
pub record UserFields : Type 0 where
  pub name : String
  pub email : String
  pub phone : String
  pub role : String
  pub reg_id : String
  pub batch_year : String
  pub is_active : Bool

-- What `handleSubmit` hands over: the fields of a user, and for students two more, of which the
-- second is left out where the text is empty. `Year` is what `parseInt` makes of a text.
pub record StudentFields (Year : Type 0) : Type 0 where
  pub reg_id : String
  pub batch_year : Option Year

pub record SubmittedUser (Year : Type 0) : Type 0 where
  pub fields : PartialUser
  pub student : Option (StudentFields Year)

-- `x || ''` and `x || undefined`.
abbrev pub or_empty : Option String → String
or_empty none = ""
or_empty (some x) = x

abbrev pub or_undefined : String → Option String
or_undefined x = if x == "" then none else some x

-- The effect, whenever the form is opened or closed, or has another user.
unfoldable pub reset_form : Option User → UserFields
reset_form none = record {
  name = "";
  email = "";
  phone = "";
  role = "STUDENT";
  reg_id = "";
  batch_year = "";
  is_active = true;
}
reset_form (some u) = record {
  name = u.name;
  email = u.email;
  phone = or_empty u.phone_number;
  role = u.user_type;
  reg_id = "";
  batch_year = "";
  is_active = u.is_active;
}

module _ {Year : Type 0} (parse_int : String → Year) where
  abbrev pub student_fields : UserFields → StudentFields Year
  student_fields f = record {
    reg_id = f.reg_id;
    batch_year = if f.batch_year == "" then none else some (parse_int f.batch_year);
  }

  -- `none` stands for the alert that asks for a name and an address.
  unfoldable pub handle_submit : UserFields → Option (SubmittedUser Year)
  handle_submit f =
      if f.name == "" || f.email == ""
      then none
      else some (record {
        fields = record {
          name = some f.name;
          email = some f.email;
          phone_number = or_undefined f.phone;
          user_type = some f.role;
          is_active = some f.is_active;
        };
        student = if f.role == "STUDENT" then some (student_fields f) else none;
      })

  -- The user as the form would send it again.
  abbrev sent_again : User → SubmittedUser Year
  sent_again u = record {
    fields = record {
      name = some u.name;
      email = some u.email;
      phone_number = or_undefined (or_empty u.phone_number);
      user_type = some u.user_type;
      is_active = some u.is_active;
    };
    student =
        if u.user_type == "STUDENT" then some (record { reg_id = ""; batch_year = none }) else none;
  }

  -- A user with a name and an address, opened for editing and submitted as it stands, is sent with
  -- the same fields, but a student is sent with an empty registration id.
  pub handle_submit-unchanged :
      (u : User)
      → (u.name == "") ≡ false
      → (u.email == "") ≡ false
      → handle_submit (reset_form (some u)) ≡ some (sent_again u)
  unfolding handle_submit reset_form
  handle_submit-unchanged u named addressed = rw named (rw addressed refl)
