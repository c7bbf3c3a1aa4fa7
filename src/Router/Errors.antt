-- ===== src/Router/Errors.antt =====
-- The error envelope of task4_model_router/errors.py.
-- A detail that is a float is a number of seconds; it is kept in thousandths, to which the router
-- rounds it.
pub mod Public
use text.Mathlib.Text.{◌==◌ as str_eq}
use fde_assessment.Base.{
  ℕ, ◌+◌, ◌/◌, max, String, Bool, true, false, ◌&&◌, Option, none, some, List, [], ◌∷◌, any, keep,
  if◌then◌else◌,
}

pub data ErrorCode : Type 0 where
  rate_limit_exceeded all_providers_failed upstream_rate_limited upstream_timeout : ErrorCode
  invalid_request unauthenticated internal_error : ErrorCode

unfoldable pub message_of : ErrorCode → String
message_of ErrorCode.rate_limit_exceeded = "Token rate limit exceeded for this API key."
message_of ErrorCode.all_providers_failed = "No upstream model provider could serve this request."
message_of ErrorCode.upstream_rate_limited = "Every upstream model provider is rate limited."
message_of ErrorCode.upstream_timeout = "The upstream model provider did not respond in time."
message_of ErrorCode.invalid_request = "The request payload was invalid."
message_of ErrorCode.unauthenticated = "A valid API key is required."
message_of ErrorCode.internal_error = "The gateway encountered an internal error."

unfoldable pub status_of : ErrorCode → ℕ
status_of ErrorCode.rate_limit_exceeded = 429
status_of ErrorCode.all_providers_failed = 502
status_of ErrorCode.upstream_rate_limited = 429
status_of ErrorCode.upstream_timeout = 504
status_of ErrorCode.invalid_request = 400
status_of ErrorCode.unauthenticated = 401
status_of ErrorCode.internal_error = 500

pub data Detail : Type 0 where
  absent : Detail
  count : ℕ → Detail
  seconds : ℕ → Detail
  name : String → Detail

abbrev pub Details : Type 0
Details = List (String × Detail)

abbrev pub allowed_detail_keys : List String
allowed_detail_keys =
    "limit_tokens_per_minute" ∷ "requested_tokens" ∷ "tokens_used_in_window" ∷ "retry_after_seconds"
    ∷ "providers_attempted" ∷ "timeout_ms" ∷ "field" ∷ []

-- `internal_note` is text for the log and is left out.
pub record GatewayError : Type 0 where
  pub code : ErrorCode
  pub request_id : String
  pub details : Details

pub record Envelope : Type 0 where
  pub code : ErrorCode
  pub message : String
  pub request_id : String
  pub details : Details

abbrev pub is_present : Detail → Bool
is_present Detail.absent = false
is_present _ = true

-- `k in _ALLOWED_DETAIL_KEYS`
unfoldable pub is_allowed : String → Bool
is_allowed k = any (λ a. str_eq a k) allowed_detail_keys

abbrev pub is_public : String × Detail → Bool
is_public (k, v) = is_allowed k && is_present v

-- `to_payload`; an empty list of details is the key left out
unfoldable pub to_payload : GatewayError → Envelope
to_payload e = record {
  code = e.code;
  message = message_of e.code;
  request_id = e.request_id;
  details = keep is_public e.details;
}

unfoldable pub detail : String → Details → Detail
detail k [] = Detail.absent
detail k ((j, v) ∷ ds) = if str_eq j k then v else detail k ds

-- the Retry-After header, in whole seconds; only `seconds` stands under that key
unfoldable pub retry_after_header : GatewayError → Option ℕ
retry_after_header e = elim (detail "retry_after_seconds" e.details) [
  | Detail.seconds ms ↦ some (max 1 ((ms + 999) / 1000))
  | _ ↦ none
]
