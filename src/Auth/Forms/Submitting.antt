-- ===== src/Auth/Forms/Submitting.antt =====
-- What pages/SignUpPage.tsx submits of a form that the schema of
-- frontend/src/shared/modules/auth/validators.ts has accepted.
use giki_wallet.Common.{
  ℕ, ◌≡◌, ◌≢◌, refl, ap, ◌∙◌, arith, Bool, true, Option, some, none, String, List, [], ◌∷◌, ◌++◌,
}
use giki_wallet.Auth.Forms.{
  extract_student_reg_id, UserType, student, employee, SignUpFormData, Issue, type_issues,
  sign_up_issues, no_issues, sign_up_ok, registered, request_with, submit_as, on_submit,
}
use giki_wallet.Auth.Forms.RegId.{IsRegId, extract_student_reg_id_iff}

-- A form that is submitted as it stands: a student's with the registration id in the address, an
-- employee's without one.
abbrev pub Registers : SignUpFormData → UserType → Type 0
Registers d student =
    (id : List ℕ) × (extract_student_reg_id d.email ≡ some id)
    × IsRegId id
    × (on_submit d ≡ registered (request_with d id))
Registers d employee =
    (extract_student_reg_id d.email ≡ none) × (on_submit d ≡ registered (request_with d []))

no_issues-right : (a b : List Issue) → no_issues (a ++ b) ≡ true → no_issues b ≡ true
no_issues-right [] b e = e
no_issues-right (x ∷ a) b e = cc

cons_ne_nil : (l : List ℕ) (x : ℕ) (r : List ℕ) → l ++ x ∷ r ≢ []
cons_ne_nil [] x r = λ e. cc
cons_ne_nil (y ∷ l) x r = λ e. cc

submit_as-student :
    (d : SignUpFormData) (id : List ℕ)
    → id ≢ []
    → submit_as d student (some id) ≡ registered (request_with d id)
submit_as-student d [] h = absurd (h refl)
submit_as-student d (c ∷ cs) h = refl

module _ (d : SignUpFormData) where
  registers :
      (t : UserType) (o : Option (List ℕ))
      → d.user_type ≡ t
      → extract_student_reg_id d.email ≡ o
      → no_issues (type_issues t o) ≡ true
      → Registers d t
  unfolding on_submit
  registers student none same e k = cc
  registers employee (some id) same e k = cc
  registers employee none same e k = (
    e,
    ap (λ u. submit_as d u (extract_student_reg_id d.email)) same
        ∙ ap (λ o. submit_as d employee o) e,
  )
  registers student (some id) same e k =
      let (r, whole) = (extract_student_reg_id_iff d.email id).0 e in
      let filled : id ≢ [] = rw r.spelled (cons_ne_nil _ r.first r.others) in
      (
        id,
        e,
        r,
        ap (λ u. submit_as d u (extract_student_reg_id d.email)) same
            ∙ ap (λ o. submit_as d student o) e
            ∙ submit_as-student d id filled,
      )

  -- A form that the schema accepts is never refused by the page: a student is registered with the
  -- id that the address has, an employee without one.
  pub sign_up_ok-Registers :
      (is_email : String → Bool) → sign_up_ok is_email d ≡ true → Registers d d.user_type
  unfolding sign_up_ok sign_up_issues
  sign_up_ok-Registers is_email e =
      let accepted : no_issues (sign_up_issues d) ≡ true = ground arith in
      registers d.user_type _ refl refl
        (no_issues-right _ (type_issues d.user_type (extract_student_reg_id d.email)) accepted)
