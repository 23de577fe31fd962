-- ===== src/Domain/Errors.antt =====
-- src/domain/errors.ts: error codes, the retry policy derived from them, classification.
use queue_system.Prelude.{
  ℕ, Bool, true, false, String, Option, none, some, leb, ◌==◌, ◌||◌, if◌then◌else◌,
}

pub data PaymentErrorCode : Type 0 where
  circuit_open rate_limited gateway_unavailable gateway_timeout server_error : PaymentErrorCode
  network_error card_declined invalid_card insufficient_funds fraud : PaymentErrorCode
  refund_failed settle_failed reserve_failed unknown : PaymentErrorCode

-- The string that `ERROR_CODES` gives to each.
pub code_text : PaymentErrorCode → String
code_text circuit_open = "circuit_open"
code_text rate_limited = "rate_limited"
code_text gateway_unavailable = "gateway_unavailable"
code_text gateway_timeout = "gateway_timeout"
code_text server_error = "server_error"
code_text network_error = "network_error"
code_text card_declined = "card_declined"
code_text invalid_card = "invalid_card"
code_text insufficient_funds = "insufficient_funds"
code_text fraud = "fraud"
code_text refund_failed = "refund_failed"
code_text settle_failed = "settle_failed"
code_text reserve_failed = "reserve_failed"
code_text unknown = "unknown"

-- `RETRYABLE_CODES.has(code)`.
unfoldable pub is_transient : PaymentErrorCode → Bool
is_transient circuit_open = true
is_transient rate_limited = true
is_transient gateway_unavailable = true
is_transient gateway_timeout = true
is_transient server_error = true
is_transient network_error = true
is_transient unknown = true
is_transient _ = false

-- `retryable` is set by the constructor and never after.
pub record PaymentProcessingError : Type 0 where
  pub message : String
  pub code : PaymentErrorCode
  pub http_status : Option ℕ
  pub gateway_id : Option String
  pub retryable : Bool

abbrev pub new_error : String → PaymentErrorCode → Option ℕ → Option String → PaymentProcessingError
new_error message code http_status gateway_id = record {
  message = message;
  code = code;
  http_status = http_status;
  gateway_id = gateway_id;
  retryable = is_transient code;
}

unfoldable pub classify_http_status : ℕ → PaymentErrorCode
classify_http_status http_status =
    if http_status == 429
    then rate_limited
    else if http_status == 503 || http_status == 502
    then gateway_unavailable
    else if leb 500 http_status
    then server_error
    else if http_status == 400
    then card_declined
    else if http_status == 402
    then insufficient_funds
    else if http_status == 401
    then fraud
    else unknown

-- What a `catch` clause may be handed: a classified failure, or anything else with its message.
pub data Raised : Type 0 where
  processing : PaymentProcessingError → Raised
  other : String → Raised

-- `err instanceof Error ? err.message : String(err)`
abbrev pub message_of : Raised → String
message_of (processing e) = e.message
message_of (other message) = message

unfoldable pub to_payment_processing_error :
    Raised → String → PaymentErrorCode → PaymentProcessingError
to_payment_processing_error (processing e) gateway_id fallback_code = e
to_payment_processing_error (other message) gateway_id fallback_code =
    new_error message fallback_code none (some gateway_id)
