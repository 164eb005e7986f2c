-- ===== src/Wallet/Store/Keys.antt =====
-- The idempotency key of a top-up stands for the contents of the form.
use giki_wallet.Common.{◌≡◌, ◌≢◌, ◌∙◌, sym, refl, List, [], ◌∷◌, String, All}
use giki_wallet.Wallet.Store.{
  TopUpFormData, FormAction, set_amount, set_mobile_number, set_cnic_last_six, set_method,
  reset_form_data, edit_form,
}

-- The form after some actions, the first of the list first.
abbrev pub edited : List (FormAction × String) → TopUpFormData → TopUpFormData
edited [] f = f
edited ((a, key) ∷ rest) f = edited rest (edit_form a key f)

edit_form-key :
    (a : FormAction) (key : String) (f : TopUpFormData) → (edit_form a key f).idempotency_key ≡ key
unfolding edit_form
edit_form-key (set_amount t) key f = refl
edit_form-key (set_mobile_number t) key f = refl
edit_form-key (set_cnic_last_six t) key f = refl
edit_form-key (set_method m) key f = refl
edit_form-key reset_form_data key f = refl

edited-key-ne :
    (edits : List (FormAction × String)) (f : TopUpFormData) (old : String)
    → All (λ e. e.1 ≢ old) edits
    → f.idempotency_key ≢ old
    → (edited edits f).idempotency_key ≢ old
edited-key-ne [] f old new h = h
edited-key-ne ((a, key) ∷ rest) f old (k, new) h =
    edited-key-ne rest (edit_form a key f) old new (λ e. k (sym (edit_form-key a key f) ∙ e))

-- If no generated key is the one that the form had, then after one or more actions of the form it
-- has another key.
pub edited_key_differs :
    (first : FormAction × String) (rest : List (FormAction × String)) (f : TopUpFormData)
    → All (λ e. e.1 ≢ f.idempotency_key) (first ∷ rest)
    → (edited (first ∷ rest) f).idempotency_key ≢ f.idempotency_key
edited_key_differs (a, key) rest f (k, new) =
    edited-key-ne rest (edit_form a key f) f.idempotency_key new
      (λ same. k (sym (edit_form-key a key f) ∙ same))
