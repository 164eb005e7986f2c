-- ===== src/Errors/Laws.antt =====
-- What users are told about an error: lib/errors.ts.
use giki_wallet.Common.{
  ◌≡◌, refl, ◌≢◌, Bool, true, false, String, eq_iff, str_or, arith, some, none, ◌∙◌, sym, ℕ, Option,
}
use giki_wallet.Errors.{
  ApiError, Thrown, http_error, app_error, js_error, other, bare_error, get_user_message,
  extract_api_error, get_error_message, failure, Body, from_api_error, from_body, from_response,
}
use giki_wallet.Errors.Codes.{
  AppErrorCode, CommonErrorCode, AuthErrorCode, UserErrorCode, PaymentErrorCode, WalletErrorCode,
  TransportErrorCode, common, auth, user, payment, wallet, transport, custom, common_code,
  auth_code, user_code, payment_code, wallet_code, transport_code, code_text, message_of,
}

no_message :
    (message_of "CLIENT_ERROR" ≡ "") × (message_of "UNKNOWN_ERROR" ≡ "") × (message_of "" ≡ "")
unfolding message_of
no_message = (refl, refl, refl)

abbrev pub is_custom : AppErrorCode → Bool
is_custom (custom t) = true
is_custom _ = false

common_has : (c : CommonErrorCode) → message_of (common_code c) ≢ ""
unfolding common_code message_of
common_has CommonErrorCode.invalid_input = cc
common_has _ = cc

auth_has : (c : AuthErrorCode) → message_of (auth_code c) ≢ ""
unfolding auth_code message_of
auth_has AuthErrorCode.invalid_credentials = cc
auth_has _ = cc

user_has : (c : UserErrorCode) → message_of (user_code c) ≢ ""
unfolding user_code message_of
user_has UserErrorCode.email_restricted = cc
user_has _ = cc

payment_has : (c : PaymentErrorCode) → message_of (payment_code c) ≢ ""
unfolding payment_code message_of
payment_has PaymentErrorCode.invalid_payment_method = cc
payment_has _ = cc

wallet_has : (c : WalletErrorCode) → message_of (wallet_code c) ≢ ""
unfolding wallet_code message_of
wallet_has WalletErrorCode.wallet_not_found = cc
wallet_has _ = cc

transport_has : (c : TransportErrorCode) → message_of (transport_code c) ≢ ""
unfolding transport_code message_of
transport_has TransportErrorCode.route_not_found = cc
transport_has _ = cc

-- Every error code that the enums declare has a message in the table of messages.
pub declared_code-has_message :
    (c : AppErrorCode) → is_custom c ≡ false → message_of (code_text c) ≢ ""
unfolding code_text
declared_code-has_message (common c) h = common_has c
declared_code-has_message (auth c) h = auth_has c
declared_code-has_message (user c) h = user_has c
declared_code-has_message (payment c) h = payment_has c
declared_code-has_message (wallet c) h = wallet_has c
declared_code-has_message (transport c) h = transport_has c
declared_code-has_message (custom t) h = cc

abbrev pub last_resort : String
last_resort = "An unexpected error occurred. Please try again."

module _ (api : ApiError) (status : ℕ) (id : Option String) where
  -- An extracted message is the one of the table wherever the table has one.
  from_api_error-settled :
      get_user_message (from_api_error api status id)
      ≡ str_or (from_api_error api status id).message last_resort
  unfolding get_user_message from_api_error
  from_api_error-settled =
      ground
        (arith, no_message.1, no_message.2, eq_iff api.code "", eq_iff (message_of api.code) "")

bare_error-settled :
    (code m : String) (status : ℕ)
    → message_of code ≡ ""
    → get_user_message (bare_error code m status) ≡ str_or m last_resort
unfolding get_user_message
bare_error-settled code m status h = rw h

from_body-settled :
    (b : Option Body) (status : ℕ) (m : String)
    → get_user_message (from_body b status m) ≡ str_or (from_body b status m).message last_resort
unfolding from_body
from_body-settled (some (failure api id)) status m = from_api_error-settled api status id
from_body-settled _ status m = bare_error-settled "UNKNOWN_ERROR" _ status no_message.1

extract_api_error-settled :
    (e : Thrown)
    → get_user_message (extract_api_error e) ≡ str_or (extract_api_error e).message last_resort
unfolding extract_api_error from_response
extract_api_error-settled (http_error none m) = from_body-settled none 500 m
extract_api_error-settled (http_error (some r) m) = from_body-settled r.body _ m
extract_api_error-settled (app_error e) = bare_error-settled "CLIENT_ERROR" e.message 0 no_message.0
extract_api_error-settled (js_error m) = bare_error-settled "CLIENT_ERROR" m 0 no_message.0
extract_api_error-settled other = bare_error-settled "UNKNOWN_ERROR" _ 500 no_message.1

-- Whatever was thrown, the message shown for the `AppError` that the response interceptor makes of
-- it is the message shown for the thrown value itself.
pub get_error_message-extract_api_error :
    (e : Thrown) → get_error_message (app_error (extract_api_error e)) ≡ get_error_message e
unfolding get_error_message extract_api_error
get_error_message-extract_api_error e =
    bare_error-settled "CLIENT_ERROR" (extract_api_error e).message 0 no_message.0
    ∙ sym (extract_api_error-settled e)

str_or-ne-empty : (a b : String) → b ≢ "" → str_or a b ≢ ""
str_or-ne-empty a b h = ground (arith, eq_iff a "")

-- Whatever was thrown, the message shown to the user is not empty.
pub get_error_message-ne-empty : (e : Thrown) → get_error_message e ≢ ""
unfolding get_error_message
get_error_message-ne-empty e h =
    str_or-ne-empty (extract_api_error e).message last_resort (cc)
      (sym (extract_api_error-settled e) ∙ h)
