-- ===== src/Gateway/Proxy.antt =====
-- One request through the gateway: the handler `proxy` and the backstop `unhandled` of
-- task2_mcp_gateway/gateway.py. The incoming body is the chunks that arrive, and whether the client
-- goes away before their end. What the downstream does with a call is a function of the call.
pub mod Forwarded
mod Tests
use fde_assessment.Base.{
  ℕ, ◌+◌, String, Bool, true, false, Option, none, some, List, [], ◌∷◌, ◌++◌, length, if◌then◌else◌,
  ltb, leb, is_some,
}
use fde_assessment.Base.Unicode.{Unicode, isdigit, read_number, text_length}
use fde_assessment.Json.{Json, Fields, null, obj, get}
use fde_assessment.Gateway.Auth.{Principal, Auth, ok, err, authenticate}
use fde_assessment.Gateway.Policy.{ToolRule}
use fde_assessment.Gateway.Headers.{Headers, request_reference, downstream_headers}
use fde_assessment.Gateway.Rpc.{
  Floats, error_response, parse_error, invalid_request, internal_error, unauthenticated,
  upstream_unavailable, validate_envelope, validate_fields,
}
use fde_assessment.Gateway.Screen.{Screened, forward, refuse, raised, screen_message}
use fde_assessment.Gateway.Upstream.{
  Bytes, Loaded, loaded, value_error, too_deep, Codec, UpstreamReply, Answer, reply, Handled,
  answered, uncaught, reference, json_response, bad_gateway, after_open,
}

pub record Request : Type 0 where
  pub authorization : List String
  pub header : String → Option String
  pub chunks : List Bytes
  pub disconnects : Bool

pub record Settings : Type 0 where
  pub tokens : List (String × Principal)
  pub rules : List ToolRule
  pub service_token : String
  pub max_body : ℕ
  pub max_response : ℕ

pub data Received : Type 0 where
  received : Bytes → Received
  oversized : Received
  disconnected : Received

-- the loop over `request.stream()`; `sofar` is `received`, and `parts` what `chunks` joins to
unfoldable pub receive : ℕ → ℕ → Bytes → List Bytes → Bool → Received
receive cap sofar parts [] gone = if gone then disconnected else received parts
receive cap sofar parts (chunk ∷ chunks) gone =
    let rest = receive cap (sofar + length chunk) (parts ++ chunk) chunks gone in
    if ltb cap (sofar + length chunk) then oversized else rest

-- `int(s)` raises on more than 4300 digits, and on a digit that is no decimal
unfoldable pub int_of : Unicode → String → Option ℕ
unfolding text_length
int_of u s = let read = read_number u s in if ltb 4300 (text_length s) then none else read

-- whether the declared length is over the cap; `none` is the ValueError
unfoldable pub declares_too_large : Unicode → ℕ → Option String → Option Bool
unfolding int_of
declares_too_large u cap none = some false
declares_too_large u cap (some declared) =
    let n = int_of u declared in
    if isdigit u declared then elim n [ none ↦ none | some k ↦ some (ltb cap k) ] else some false

-- how the downstream's stream opens
pub data Opened : Type 0 where
  opened : UpstreamReply → Opened
  open_timed_out : Opened
  open_failed : Opened

-- what the handler comes to, and the calls that it made downstream
pub record Proxied (F : Type 0) : Type 0 where
  pub end : Handled F
  pub sent : List (Fields F × Headers)

module _ {F : Type 0} (u : Unicode) (fl : Floats F) (codec : Codec F) (settings : Settings) where
  abbrev pub local : Handled F → Proxied F
  local end = record { end = end; sent = [] }

  -- `_too_large`
  unfoldable pub too_large : String → Handled F
  unfolding json_response error_response
  too_large request_ref =
      json_response u fl codec 413 (reference request_ref)
        (error_response null invalid_request "Invalid Request: payload too large" none)

  unfoldable pub unauthorized : String → Handled F
  unfolding json_response error_response
  unauthorized request_ref =
      json_response u fl codec 401 (("WWW-Authenticate", "Bearer") ∷ reference request_ref)
        (error_response null unauthenticated "Unauthorized" none)

  unfoldable pub parse_failed : String → Handled F
  unfolding json_response error_response
  parse_failed request_ref =
      json_response u fl codec 400 (reference request_ref)
        (error_response null parse_error "Parse error" none)

  -- a refusal by the policy; a notification gets no body
  unfoldable pub refused : String → Fields F → Json F → Handled F
  unfolding json_response
  refused request_ref message refusal =
      if is_some (get "id" message)
      then json_response u fl codec 200 (reference request_ref) refusal
      else answered (reply 202 (reference request_ref) none)

  unfoldable pub after_call : String → Fields F → Opened → Handled F
  unfolding after_open bad_gateway
  after_call request_ref message (opened r) =
      after_open u fl codec message request_ref settings.max_response r
  after_call request_ref message open_timed_out =
      bad_gateway u fl codec message request_ref 504 upstream_unavailable
        "Upstream server timed out"
  after_call request_ref message open_failed =
      bad_gateway u fl codec message request_ref 502 upstream_unavailable
        "Upstream server unavailable"

  module _ (upstream : Fields F → Headers → Opened) (request_ref : String) (req : Request)
      (principal : Principal) where
    unfoldable pub forward_call : Fields F → Proxied F
    unfolding after_call downstream_headers
    forward_call message =
        let headers =
          downstream_headers u settings.service_token principal request_ref req.header in
        record {
          end = after_call request_ref message (upstream message headers);
          sent = (message, headers) ∷ [];
        }

    unfoldable pub after_screen : Fields F → Screened F → Proxied F
    unfolding forward_call refused
    after_screen message forward = forward_call message
    after_screen message (refuse refusal) = local (refused request_ref message refusal)
    after_screen message raised = local uncaught

    -- steps 2 to 4 on a parsed body
    unfoldable pub after_parse : Json F → Proxied F
    unfolding after_screen validate_envelope screen_message
    after_parse (obj message) = elim (validate_envelope (obj message)) [
      | some bad ↦ local (json_response u fl codec 400 (reference request_ref) bad)
      | none ↦ after_screen message (screen_message u settings.rules principal message)
    ]
    after_parse message = elim (validate_envelope message) [
      | some bad ↦ local (json_response u fl codec 400 (reference request_ref) bad)
      | none ↦ local uncaught
    ]

    unfoldable pub after_load : Loaded F → Proxied F
    unfolding after_parse parse_failed
    after_load (loaded message) = after_parse message
    after_load value_error = local (parse_failed request_ref)
    after_load too_deep = local (parse_failed request_ref)

    unfoldable pub after_receive : Received → Proxied F
    unfolding after_load too_large
    after_receive (received raw) = after_load (codec.loads raw)
    after_receive oversized = local (too_large request_ref)
    after_receive disconnected = local (answered (reply 499 [] none))

    -- step 2: the declared length, the body as it arrives
    unfoldable pub read_request : Proxied F
    unfolding after_receive receive declares_too_large
    read_request = elim (declares_too_large u settings.max_body (req.header "content-length")) [
      | none ↦ local uncaught
      | some over ↦
          if over
          then local (too_large request_ref)
          else after_receive (receive settings.max_body 0 [] req.chunks req.disconnects)
    ]

  unfoldable pub after_auth :
      (Fields F → Headers → Opened) → String → Request → Auth Principal → Proxied F
  unfolding read_request unauthorized
  after_auth upstream request_ref req (err e) = local (unauthorized request_ref)
  after_auth upstream request_ref req (ok principal) =
      read_request upstream request_ref req principal

  -- `proxy`, where `fresh` is what `uuid4` gives
  unfoldable pub proxy : (Fields F → Headers → Opened) → String → Request → Proxied F
  unfolding after_auth authenticate request_reference
  proxy upstream fresh req =
      after_auth upstream (request_reference u fresh (req.header "x-request-id")) req
        (authenticate u settings.tokens req.authorization)

  -- `unhandled`, the handler of what `proxy` does not catch
  unfoldable pub respond : (Fields F → Headers → Opened) → String → Request → Answer F
  unfolding proxy
  respond upstream fresh req = elim (proxy upstream fresh req).end [
    | answered a ↦ a
    | uncaught ↦
        reply 500 (reference (request_reference u fresh (req.header "x-request-id")))
          (some (error_response null internal_error "Internal server error" none))
  ]
