-- ===== src/Errors/Tests.antt =====
-- The error messages on concrete errors.
use giki_wallet.Common.{◌≡◌, ◌≢◌, refl, some, none}
use giki_wallet.Errors.{
  Thrown, http_error, app_error, other, failure, extract_api_error, get_error_message,
}
use giki_wallet.Errors.Codes.{message_of}
use giki_wallet.Errors.Laws.{get_error_message-extract_api_error, get_error_message-ne-empty}

abbrev hold_gone : Thrown
hold_gone =
    http_error
      (some (record {
        body =
            some (failure (record { code = "TRIP_FULL"; message = "full"; details = none }) none);
        status = 409;
      }))
      "Request failed with status code 409"

get_error_message-extract_api_error_example :
    get_error_message (app_error (extract_api_error hold_gone)) ≡ get_error_message hold_gone
get_error_message-extract_api_error_example = get_error_message-extract_api_error hold_gone

get_error_message-ne-empty_example : get_error_message hold_gone ≢ ""
get_error_message-ne-empty_example = get_error_message-ne-empty hold_gone

unknown_error_text : get_error_message other ≡ "An unexpected error occurred"
unfolding get_error_message message_of
unknown_error_text = refl
