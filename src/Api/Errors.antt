-- ===== src/Api/Errors.antt =====
-- internal/api/errors.go: the fixed messages and the status of each code.
use cqu_netprobe_gateway.Prelude.{ℕ, String}
use cqu_netprobe_gateway.Protocol.Errors.{
  Code, Error, invalid_request, invalid_json, invalid_payload, unsupported_version, invalid_target,
  invalid_probe_type, unauthorized, probe_disabled, rate_limited, config_stale, internal_error,
  service_unavailable,
}

abbrev pub max_body_bytes : ℕ
max_body_bytes = 65536

abbrev pub msg_bad_request : String
msg_bad_request = "request is not valid"

abbrev pub msg_unauthorized : String
msg_unauthorized = "missing or invalid credentials"

abbrev pub msg_disabled : String
msg_disabled = "probe is disabled"

abbrev pub msg_rate_limited : String
msg_rate_limited = "too many requests"

abbrev pub msg_too_large : String
msg_too_large = "request body too large"

abbrev pub msg_unavailable : String
msg_unavailable = "service temporarily unavailable"

-- `statusForCode`.
abbrev pub status_for_code : Code → ℕ
status_for_code unsupported_version = 400
status_for_code invalid_json = 400
status_for_code invalid_payload = 400
status_for_code invalid_target = 400
status_for_code invalid_probe_type = 400
status_for_code invalid_request = 400
status_for_code unauthorized = 401
status_for_code probe_disabled = 403
status_for_code rate_limited = 429
status_for_code config_stale = 409
status_for_code service_unavailable = 503
status_for_code internal_error = 500

-- `messageForCode`.
abbrev pub message_for_code : Code → String
message_for_code invalid_json = "request body is not valid JSON"
message_for_code unsupported_version = "unsupported protocol version"
message_for_code invalid_target = "unknown target"
message_for_code invalid_probe_type = "probe type is not allowed for this target"
message_for_code unauthorized = msg_unauthorized
message_for_code probe_disabled = msg_disabled
message_for_code rate_limited = msg_rate_limited
message_for_code config_stale = "measurement config is out of date; fetch the target list again"
message_for_code internal_error = "internal error"
message_for_code service_unavailable = msg_unavailable
message_for_code invalid_payload = "invalid measurement payload"
message_for_code invalid_request = msg_bad_request

-- What is written to a client.
pub data Response : Type 0 where
  no_content : Response
  failure : ℕ → Code → String → Response

abbrev pub status : Response → ℕ
status no_content = 204
status (failure s c m) = s

-- `writeError`.
abbrev pub write_error : ℕ → Code → String → Response
write_error s c m = failure s c m

-- `writeProtocolError`: the error's own message does not reach the client.
abbrev pub write_protocol_error : Error → Response
write_protocol_error e = write_error (status_for_code e.code) e.code (message_for_code e.code)
