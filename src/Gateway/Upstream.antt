-- ===== src/Gateway/Upstream.antt =====
-- The downstream's reply: `_read_capped`, `_build_response` and the part of `proxy` after the call is
-- opened, of task2_mcp_gateway/gateway.py. A body is the chunks that arrive and how they end.
-- `response.json`, and whether `JSONResponse` can render a value (it raises on a number that is not
-- finite), are parameters; draining a reply that is not relayed, and closing it, have no result.
pub mod Capped
pub mod Sealed
use Prim.Native.String.{}
use text.Mathlib.Text.{◌==◌ as str_eq, starts_with}
use fde_assessment.Base.{
  ℕ, String, Bool, true, false, not, ◌&&◌, ◌||◌, Option, none, some, List, [], ◌∷◌, ◌++◌, length,
  if◌then◌else◌, ltb, leb, ◌==◌, is_some,
}
use fde_assessment.Base.Int.{ℤ}
use fde_assessment.Base.Unicode.{Unicode}
use fde_assessment.Json.{Json, Fields, null, obj, get}
use fde_assessment.Gateway.Headers.{Headers, pass_on}
use fde_assessment.Gateway.Rpc.{
  Floats, error_response, extract_id, upstream_unavailable, internal_error, is_valid_response,
}

abbrev pub Bytes : Type 0
Bytes = List ℕ

-- what parsing JSON comes to: a value, a ValueError, or a RecursionError
pub data Loaded (F : Type 0) : Type 0 where
  loaded : Json F → Loaded F
  value_error : Loaded F
  too_deep : Loaded F

pub record Codec (F : Type 0) : Type 0 where
  -- `json.loads` with the gateway's `parse_constant`
  pub loads : Bytes → Loaded F
  -- `response.json()`
  pub response_json : Bytes → Loaded F
  pub can_render : Json F → Bool

pub data Finish : Type 0 where
  finished read_timed_out read_failed : Finish

pub record UpstreamReply : Type 0 where
  pub status : ℕ
  pub content_type : String
  pub session_id : Option String
  pub chunks : List Bytes
  pub finish : Finish

pub data ReadResult : Type 0 where
  body : Bytes → ReadResult
  too_big : ReadResult
  read_timeout : ReadResult
  read_error : ReadResult

unfoldable pub finish_read : Bytes → Finish → ReadResult
finish_read content finished = body content
finish_read content read_timed_out = read_timeout
finish_read content read_failed = read_error

-- `_read_capped`, `content` being what has been read
unfoldable pub read_capped : ℕ → Bytes → List Bytes → Finish → ReadResult
unfolding finish_read
read_capped cap content [] closing = finish_read content closing
read_capped cap content (chunk ∷ chunks) closing =
    let rest = read_capped cap (content ++ chunk) chunks closing in
    if ltb cap (length (content ++ chunk)) then too_big else rest

abbrev pub is_empty : Bytes → Bool
is_empty [] = true
is_empty (_ ∷ _) = false

-- a response with or without a JSON body, or a relayed event stream
pub data Answer (F : Type 0) : Type 0 where
  reply : ℕ → Headers → Option (Json F) → Answer F
  relay : ℕ → Headers → List Bytes → Answer F

-- what a handler comes to: an answer, or an exception that the backstop handler gets
pub data Handled (F : Type 0) : Type 0 where
  answered : Answer F → Handled F
  uncaught : Handled F

abbrev pub reference : String → Headers
reference request_ref = ("X-Request-Id", request_ref) ∷ []

-- `"text/event-stream" in content_type`
unfoldable pub is_event_stream : String → Bool
is_event_stream String.[] = false
is_event_stream (String.◌∷◌ c s) =
    starts_with (String.◌∷◌ c s) "text/event-stream" || is_event_stream s

module _ {F : Type 0} (u : Unicode) (fl : Floats F) (codec : Codec F) where
  -- `JSONResponse`
  unfoldable pub json_response : ℕ → Headers → Json F → Handled F
  json_response status headers content =
      if codec.can_render content then answered (reply status headers (some content)) else uncaught

  module _ (message : Fields F) (request_ref : String) where
    -- a 502 or 504 in the shape that the gateway gives to a failure of the downstream
    unfoldable pub bad_gateway : ℕ → ℤ → String → Handled F
    unfolding json_response error_response extract_id
    bad_gateway status code text =
        json_response status (reference request_ref)
          (error_response (extract_id (obj message)) code text none)

    unfoldable pub build_payload : ℕ → Option String → Loaded F → Handled F
    unfolding bad_gateway is_valid_response pass_on
    build_payload status session_id value_error =
        bad_gateway 502 internal_error "Upstream returned a malformed response"
    build_payload status session_id too_deep = uncaught
    build_payload status session_id (loaded payload) =
        if is_valid_response fl payload (extract_id (obj message))
        then json_response status
            (("X-Request-Id", request_ref) ∷ pass_on u "Mcp-Session-Id" session_id []) payload
        else bad_gateway 502 internal_error "Upstream returned a malformed response"

    -- `_build_response`
    unfoldable pub build_response : ℕ → Option String → Bytes → Handled F
    unfolding build_payload
    build_response status session_id content =
        if not (is_some (get "id" message)) || (status == 202 && is_empty content)
        then answered (reply 202 (reference request_ref) none)
        else if leb 300 status && ltb status 400
        then bad_gateway 502 upstream_unavailable "Upstream server error"
        else if leb 400 status
        then bad_gateway 502 upstream_unavailable "Upstream server error"
        else build_payload status session_id (codec.response_json content)

    unfoldable pub after_read : ℕ → Option String → ReadResult → Handled F
    unfolding build_response
    after_read status session_id (body content) = build_response status session_id content
    after_read status session_id too_big =
        bad_gateway 502 upstream_unavailable "Upstream server error"
    after_read status session_id read_timeout =
        bad_gateway 504 upstream_unavailable "Upstream server timed out"
    after_read status session_id read_error =
        bad_gateway 502 upstream_unavailable "Upstream server unavailable"

    -- `proxy`, from the reply's headers on
    unfoldable pub after_open : ℕ → UpstreamReply → Handled F
    unfolding after_read read_capped is_event_stream
    after_open cap r =
        if leb 300 r.status
        then bad_gateway 502 upstream_unavailable "Upstream server error"
        else if not (is_some (get "id" message))
        then answered (reply 202 (reference request_ref) none)
        else if is_event_stream r.content_type
        then answered (
            relay r.status
              (("X-Request-Id", request_ref) ∷ pass_on u "Mcp-Session-Id" r.session_id []) r.chunks)
        else after_read r.status r.session_id (read_capped cap [] r.chunks r.finish)
