-- ===== src/Errors.antt =====
-- frontend/src/lib/errors.ts: `AppError`, and how whatever is thrown becomes one.
--
-- A thrown value is an error of the HTTP library (an object with a `response`), an `AppError`,
-- another `Error`, or anything else. Missing texts are empty and a missing status is 0: the source
-- tests them only by `||`, which treats both alike. `ERROR_MESSAGES` is read by its own keys; the
-- names that every JavaScript object inherits ("constructor", ...) are not codes.
pub mod Codes
pub mod Laws
mod Tests
use giki_wallet.Common.{
  ℕ, ◌==◌, String, Bool, List, Option, none, some, str_or, nat_eq, if◌then◌else◌,
}
use Codes.{message_of}

abbrev pub Details : Type 0
Details = List (String × String)

pub record ApiError : Type 0 where
  pub code : String
  pub message : String
  pub details : Option Details

-- The body of a response: with an `error` object and the request id of `meta`, or any other body,
-- with its top-level `message`.
pub data Body : Type 0 where
  failure : ApiError → Option String → Body
  plain : String → Body

pub record Response : Type 0 where
  pub body : Option Body
  pub status : ℕ

pub record AppError : Type 0 where
  pub code : String
  pub message : String
  pub status_code : ℕ
  pub details : Option Details
  pub request_id : Option String

pub data Thrown : Type 0 where
  http_error : Option Response → String → Thrown
  app_error : AppError → Thrown
  js_error : String → Thrown
  other : Thrown

abbrev pub fallback_message : String
fallback_message = "An unexpected error occurred"

-- `new AppError(code, message, statusCode)`.
abbrev pub bare_error : String → String → ℕ → AppError
bare_error code message status_code = record {
  code = code;
  message = message;
  status_code = status_code;
  details = none;
  request_id = none;
}

unfoldable pub get_user_message : AppError → String
get_user_message e =
    str_or (message_of e.code) (str_or e.message "An unexpected error occurred. Please try again.")

abbrev pub status_or_500 : ℕ → ℕ
status_or_500 status = if nat_eq status 0 then 500 else status

-- The branch for a body with an `error` object.
unfoldable pub from_api_error : ApiError → ℕ → Option String → AppError
from_api_error api status request_id =
    let known = message_of api.code in
    record {
      code = str_or api.code "UNKNOWN_ERROR";
      message = if known == "" then str_or api.message fallback_message else known;
      status_code = status;
      details = api.details;
      request_id = request_id;
    }

unfoldable pub from_body : Option Body → ℕ → String → AppError
unfolding from_api_error
from_body (some (failure api request_id)) status message = from_api_error api status request_id
from_body _ status message = bare_error "UNKNOWN_ERROR" (str_or message fallback_message) status

unfoldable pub from_response : Option Response → String → AppError
unfolding from_body
from_response none message = from_body none 500 message
from_response (some r) message = from_body r.body (status_or_500 r.status) message

unfoldable pub extract_api_error : Thrown → AppError
unfolding from_response
extract_api_error (http_error response message) = from_response response message
extract_api_error (app_error e) = bare_error "CLIENT_ERROR" e.message 0
extract_api_error (js_error message) = bare_error "CLIENT_ERROR" message 0
extract_api_error other = bare_error "UNKNOWN_ERROR" fallback_message 500

unfoldable pub get_error_message : Thrown → String
unfolding extract_api_error get_user_message
get_error_message e = get_user_message (extract_api_error e)
