-- ===== src/Errors/Codes.antt =====
-- frontend/src/lib/errors.ts, the codes: the enums of error codes, and the table of the messages
-- that the user sees.
use giki_wallet.Common.{◌==◌, String, List, [], ◌∷◌, if◌then◌else◌}

pub data CommonErrorCode : Type 0 where
  invalid_input missing_field unauthorized invalid_token forbidden not_found conflict
        rate_limit_exceeded :
      CommonErrorCode

pub data AuthErrorCode : Type 0 where
  invalid_credentials user_not_found user_inactive user_not_verified user_pending_approval
        invalid_password invalid_verification_token verification_token_expired :
      AuthErrorCode

pub data UserErrorCode : Type 0 where
  email_restricted invalid_email invalid_user_type duplicate_email duplicate_phone duplicate_reg_id
        missing_reg_id invalid_reg_id :
      UserErrorCode

pub data PaymentErrorCode : Type 0 where
  invalid_payment_method invalid_phone invalid_cnic transaction_not_found duplicate_idempotency
        gateway_unavailable :
      PaymentErrorCode

pub data WalletErrorCode : Type 0 where
  wallet_not_found wallet_inactive insufficient_balance insufficient_funds : WalletErrorCode

pub data TransportErrorCode : Type 0 where
  route_not_found invalid_route_id trip_not_found no_seats_available trip_full hold_expired
        ticket_not_found refund_failed no_week_trips_available quota_exceeded no_quota_policy
        invalid_passenger_name cancellation_closed :
      TransportErrorCode

-- The union of the enums; the source lets any other text be a code too.
pub data AppErrorCode : Type 0 where
  common : CommonErrorCode → AppErrorCode
  auth : AuthErrorCode → AppErrorCode
  user : UserErrorCode → AppErrorCode
  payment : PaymentErrorCode → AppErrorCode
  wallet : WalletErrorCode → AppErrorCode
  transport : TransportErrorCode → AppErrorCode
  custom : String → AppErrorCode

unfoldable pub common_code : CommonErrorCode → String
common_code invalid_input = "INVALID_INPUT"
common_code missing_field = "MISSING_FIELD"
common_code unauthorized = "UNAUTHORIZED"
common_code invalid_token = "INVALID_TOKEN"
common_code forbidden = "FORBIDDEN"
common_code not_found = "NOT_FOUND"
common_code conflict = "CONFLICT"
common_code rate_limit_exceeded = "RATE_LIMIT_EXCEEDED"

unfoldable pub auth_code : AuthErrorCode → String
auth_code invalid_credentials = "INVALID_CREDENTIALS"
auth_code user_not_found = "USER_NOT_FOUND"
auth_code user_inactive = "USER_INACTIVE"
auth_code user_not_verified = "USER_NOT_VERIFIED"
auth_code user_pending_approval = "USER_PENDING_APPROVAL"
auth_code invalid_password = "INVALID_PASSWORD"
auth_code invalid_verification_token = "INVALID_VERIFICATION_TOKEN"
auth_code verification_token_expired = "VERIFICATION_TOKEN_EXPIRED"

unfoldable pub user_code : UserErrorCode → String
user_code email_restricted = "EMAIL_RESTRICTED"
user_code invalid_email = "INVALID_EMAIL"
user_code invalid_user_type = "INVALID_USER_TYPE"
user_code duplicate_email = "DUPLICATE_EMAIL"
user_code duplicate_phone = "DUPLICATE_PHONE"
user_code duplicate_reg_id = "DUPLICATE_REG_ID"
user_code missing_reg_id = "MISSING_REG_ID"
user_code invalid_reg_id = "INVALID_REG_ID"

unfoldable pub payment_code : PaymentErrorCode → String
payment_code invalid_payment_method = "INVALID_PAYMENT_METHOD"
payment_code invalid_phone = "INVALID_PHONE"
payment_code invalid_cnic = "INVALID_CNIC"
payment_code transaction_not_found = "TRANSACTION_NOT_FOUND"
payment_code duplicate_idempotency = "DUPLICATE_IDEMPOTENCY"
payment_code gateway_unavailable = "GATEWAY_UNAVAILABLE"

unfoldable pub wallet_code : WalletErrorCode → String
wallet_code wallet_not_found = "WALLET_NOT_FOUND"
wallet_code wallet_inactive = "WALLET_INACTIVE"
wallet_code insufficient_balance = "INSUFFICIENT_BALANCE"
wallet_code insufficient_funds = "INSUFFICIENT_FUNDS"

unfoldable pub transport_code : TransportErrorCode → String
transport_code route_not_found = "ROUTE_NOT_FOUND"
transport_code invalid_route_id = "INVALID_ROUTE_ID"
transport_code trip_not_found = "TRIP_NOT_FOUND"
transport_code no_seats_available = "NO_SEATS_AVAILABLE"
transport_code trip_full = "TRIP_FULL"
transport_code hold_expired = "HOLD_EXPIRED"
transport_code ticket_not_found = "TICKET_NOT_FOUND"
transport_code refund_failed = "REFUND_FAILED"
transport_code no_week_trips_available = "NO_WEEK_TRIPS_AVAILABLE"
transport_code quota_exceeded = "QUOTA_EXCEEDED"
transport_code no_quota_policy = "NO_QUOTA_POLICY"
transport_code invalid_passenger_name = "INVALID_PASSENGER_NAME"
transport_code cancellation_closed = "CANCELLATION_CLOSED"

-- The text that a code is sent as.
unfoldable pub code_text : AppErrorCode → String
unfolding common_code auth_code user_code payment_code wallet_code transport_code
code_text (common c) = common_code c
code_text (auth c) = auth_code c
code_text (user c) = user_code c
code_text (payment c) = payment_code c
code_text (wallet c) = wallet_code c
code_text (transport c) = transport_code c
code_text (custom t) = t

-- `ERROR_MESSAGES`, entry by entry.
unfoldable pub error_messages : List (String × String)
error_messages =
    ("INVALID_INPUT", "Please check your input and try again")
    ∷ ("MISSING_FIELD", "A required field is missing")
    ∷ ("UNAUTHORIZED", "Please log in to continue")
    ∷ ("INVALID_TOKEN", "Your session has expired. Please log in again")
    ∷ ("FORBIDDEN", "You do not have permission to perform this action")
    ∷ ("NOT_FOUND", "The requested resource could not be found")
    ∷ ("CONFLICT", "The request could not be completed at this time")
    ∷ ("RATE_LIMIT_EXCEEDED", "You are doing that too often. Please try again in a moment")
    ∷ ("INVALID_CREDENTIALS", "Invalid email or password")
    ∷ ("USER_NOT_FOUND", "Account not found")
    ∷ ("USER_INACTIVE", "Account is inactive. Please contact support")
    ∷ ("USER_NOT_VERIFIED", "Please verify your email address to continue")
    ∷ ("USER_PENDING_APPROVAL", "Your account is pending approval")
    ∷ ("INVALID_PASSWORD", "The password you entered is incorrect")
    ∷ ("INVALID_VERIFICATION_TOKEN", "The verification link is invalid")
    ∷ ("VERIFICATION_TOKEN_EXPIRED", "The verification link has expired")
    ∷ ("EMAIL_RESTRICTED", "Please use your @giki.edu.pk email address")
    ∷ ("INVALID_EMAIL", "Please enter a valid email address")
    ∷ ("INVALID_USER_TYPE", "Invalid account type selected")
    ∷ ("DUPLICATE_EMAIL", "An account with this email already exists")
    ∷ ("DUPLICATE_PHONE", "This phone number is already registered")
    ∷ ("DUPLICATE_REG_ID", "This registration ID is already registered")
    ∷ ("MISSING_REG_ID", "Registration ID is required")
    ∷ ("INVALID_REG_ID", "Please enter a valid Registration ID")
    ∷ ("INVALID_PAYMENT_METHOD", "The selected payment method is not supported")
    ∷ ("INVALID_PHONE", "Please enter a valid phone number")
    ∷ ("INVALID_CNIC", "Please enter a valid CNIC")
    ∷ ("TRANSACTION_NOT_FOUND", "Transaction details not found")
    ∷ ("DUPLICATE_IDEMPOTENCY", "This transaction is currently being processed")
    ∷ ("GATEWAY_UNAVAILABLE", "Payment service is busy. Please try again later")
    ∷ ("WALLET_NOT_FOUND", "Wallet not found")
    ∷ ("WALLET_INACTIVE", "To perform this action, your wallet must be active")
    ∷ ("INSUFFICIENT_BALANCE", "Insufficient balance")
    ∷ ("INSUFFICIENT_FUNDS", "Insufficient funds to complete this action")
    ∷ ("ROUTE_NOT_FOUND", "Route not found")
    ∷ ("INVALID_ROUTE_ID", "Invalid route selection")
    ∷ ("TRIP_NOT_FOUND", "Trip not found or no longer available")
    ∷ ("NO_SEATS_AVAILABLE", "Sorry, there are no seats available")
    ∷ ("TRIP_FULL", "Sorry, this trip is fully booked")
    ∷ ("HOLD_EXPIRED", "Reservation expired. Please try again")
    ∷ ("TICKET_NOT_FOUND", "Ticket not found")
    ∷ ("REFUND_FAILED", "Refund failed. Please contact support")
    ∷ ("NO_WEEK_TRIPS_AVAILABLE", "No trips scheduled for this week")
    ∷ ("QUOTA_EXCEEDED", "Weekly booking limit reached")
    ∷ ("NO_QUOTA_POLICY", "Booking policy error. Please contact support")
    ∷ ("INVALID_PASSENGER_NAME", "Please enter a valid passenger name")
    ∷ ("CANCELLATION_CLOSED", "Cancellation is no longer allowed for this trip")
    ∷ []

-- The lookup of a text in a table; a missing entry, `undefined`, is the empty text, which is as falsy.
unfoldable pub lookup : String → List (String × String) → String
lookup code [] = ""
lookup code ((c, m) ∷ rest) = if c == code then m else lookup code rest

-- `ERROR_MESSAGES[code]`.
unfoldable pub message_of : String → String
unfolding lookup error_messages
message_of code = lookup code error_messages
