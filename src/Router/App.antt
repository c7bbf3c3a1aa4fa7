-- ===== src/Router/App.antt =====
-- The HTTP surface of the router: the endpoint `completions`, `_limit_key_for` and the exception
-- handlers of task4_model_router/app.py.
-- What the framework, `json` and the rendering of a response do is the record `Web`; the texts of the
-- log are left out, and so is `healthz`.
pub mod Keys
pub mod Guards
pub mod Admitted
pub mod Served
pub mod Answers
mod Tests
use text.Mathlib.Text.{◌==◌ as str_eq}
use fde_assessment.Base.{
  ℕ, String, Bool, true, false, not, ◌&&◌, ◌||◌, Option, none, some, List, [], ◌∷◌, any,
  if◌then◌else◌, ◌==◌,
}
use fde_assessment.Base.Int.{ℤ, pos, negsuc}
use fde_assessment.Base.Unicode.{Unicode, joined}
use fde_assessment.Json.{
  Json, Items, Fields, null, bool, int, float, str, arr, obj, nil, cons, end, field, get, put,
}
use fde_assessment.Gateway.Auth.{partition_blank}
use fde_assessment.Gateway.Upstream.{Bytes}
use fde_assessment.Gateway.Proxy.{
  Received, received, oversized, disconnected, receive, declares_too_large,
}
use fde_assessment.Router.Limiter.{Table, Limits}
use fde_assessment.Router.Tokens.{Runtime}
use fde_assessment.Router.Errors.{
  ErrorCode, invalid_request, unauthenticated, internal_error, Detail, GatewayError, Envelope,
  status_of, to_payload, retry_after_header,
}
use fde_assessment.Router.Providers.{
  Outcome, ok, rate_limited, timeout, server_error, transport_error, client_error,
  unusable_response, ProviderAttempt,
}
use fde_assessment.Router.Route.{
  World, RouteResult, RouteEnd, served, raised, cancelled, crashed, Routed, route,
}
use fde_assessment.Router.Page.{page_of}

-- what the endpoint reads of a request; the authorization header is empty where there is none
pub record HttpRequest : Type 0 where
  pub authorization : String
  pub content_length : Option String
  pub chunks : List Bytes
  pub disconnects : Bool

pub record Web (F : Type 0) : Type 0 where
  -- `json.loads`; `none` is an exception
  pub loads : Bytes → Option (Json F)
  -- `x == 0.0`
  pub is_zero : F → Bool
  -- whether `JSONResponse` can encode the content (it raises on a number that is not finite)
  pub can_render : Fields F → Bool

-- `api_keys.get(key)`
unfoldable pub tenant_of : List (String × String) → String → Option String
tenant_of [] key = none
tenant_of ((known, tenant) ∷ rest) key =
    let found = tenant_of rest key in if str_eq known key then some tenant else found

-- `f"{tenant}:{key}"`
unfoldable pub limit_key : String → String → String
limit_key tenant key = joined tenant (joined ":" key)

-- the API key that the header names
unfoldable pub api_key_of : Unicode → String → Option String
api_key_of u header =
    let (scheme, token) = partition_blank header in
    if not (str_eq (u.lower scheme) "bearer") || str_eq (u.strip token) ""
    then none
    else some (u.strip token)

-- `_limit_key_for`; `none` is the error UNAUTHENTICATED
unfoldable pub limit_key_for : Unicode → List (String × String) → String → Option String
unfolding api_key_of tenant_of limit_key
limit_key_for u api_keys header = elim (api_key_of u header) [
  | none ↦ none
  | some key ↦ elim (tenant_of api_keys key) [
    | none ↦ none
    | some tenant ↦ some (limit_key tenant key)
  ]
]

-- what a client gets: a page under its X-Request-Id, an error envelope with its status and
-- Retry-After, the bare 499, or nothing since the request was cancelled
pub data Response (F : Type 0) : Type 0 where
  page : String → Fields F → Response F
  envelope : ℕ → Option ℕ → Envelope → Response F
  hung_up : Response F
  abandoned : Response F

-- how the endpoint ends: it returns, or it raises a GatewayError or another exception
pub data Ended (F : Type 0) : Type 0 where
  returned : Response F → Ended F
  refused : GatewayError → Ended F
  unexpected : Ended F

-- what stands before the call of `route`
pub data Admission (F : Type 0) : Type 0 where
  admitted : String → Fields F → Admission F
  declined : Ended F → Admission F

abbrev pub error_of : ErrorCode → String → GatewayError
error_of code request_id = record { code = code; request_id = request_id; details = [] }

abbrev pub bad_field : String → String → GatewayError
bad_field request_id name = record {
  code = invalid_request;
  request_id = request_id;
  details = ("field", Detail.name name) ∷ [];
}

-- `isinstance(messages, list) and messages`
unfoldable pub is_filled_list : {F : Type 0} → Option (Json F) → Bool
is_filled_list (some (arr (cons v vs))) = true
is_filled_list _ = false

module _ {F : Type 0} where
  -- `gateway_error_handler`
  unfoldable pub gateway_error_handler : GatewayError → Response F
  gateway_error_handler e = envelope (status_of e.code) (retry_after_header e) (to_payload e)

  -- `http_error_handler`, on an answer of the framework with that status
  unfoldable pub http_error_handler : ℕ → String → Response F
  http_error_handler status request_id =
      let e = error_of (if status == 401 then unauthenticated else invalid_request) request_id in
      envelope status (retry_after_header e) (to_payload e)

  -- `unhandled_handler`
  unfoldable pub unhandled_handler : String → Response F
  unhandled_handler request_id =
      let e = error_of internal_error request_id in
      envelope 500 (retry_after_header e) (to_payload e)

  unfoldable pub respond : String → Ended F → Response F
  unfolding gateway_error_handler unhandled_handler
  respond request_id (returned r) = r
  respond request_id (refused e) = gateway_error_handler e
  respond request_id unexpected = unhandled_handler request_id

module _ {F : Type 0} (web : Web F) where
  -- `if value:`, of a value that may be missing
  unfoldable pub is_truthy : Option (Json F) → Bool
  is_truthy none = false
  is_truthy (some null) = false
  is_truthy (some (bool b)) = b
  is_truthy (some (int (pos n))) = not (n == 0)
  is_truthy (some (int (negsuc n))) = true
  is_truthy (some (float x)) = not (web.is_zero x)
  is_truthy (some (str s)) = not (str_eq s "")
  is_truthy (some (arr nil)) = false
  is_truthy (some (arr (cons v vs))) = true
  is_truthy (some (obj end)) = false
  is_truthy (some (obj (field k v fs))) = true

  -- the end of `completions`, from how `route` ends
  unfoldable pub present : RouteEnd F → Ended F
  unfolding page_of
  present (served res) =
      if web.can_render (page_of res)
      then returned (page res.request_id (page_of res))
      else unexpected
  present (raised e) = refused e
  present cancelled = returned abandoned
  present crashed = unexpected

  module _ (request_id key : String) where
    -- the checks of the parsed body
    unfoldable pub check_body : Option (Json F) → Admission F
    unfolding is_filled_list is_truthy
    check_body (some (obj body)) =
        if not (is_filled_list (get "messages" body))
        then declined (refused (bad_field request_id "messages"))
        else if is_truthy (get "stream" body)
        then declined (refused (bad_field request_id "stream"))
        else admitted key body
    check_body _ = declined (refused (bad_field request_id "body"))

    unfoldable pub after_receive : Received → Admission F
    unfolding check_body
    after_receive (received raw) = check_body (web.loads raw)
    after_receive oversized = declined (refused (bad_field request_id "body"))
    after_receive disconnected = declined (returned hung_up)

    -- the declared length, and the loop over `request.stream()`, which are the gateway's
    unfoldable pub read_body : Unicode → ℕ → HttpRequest → Admission F
    unfolding after_receive receive declares_too_large
    read_body u max_request_bytes req =
        elim (declares_too_large u max_request_bytes req.content_length) [
          | none ↦ declined unexpected
          | some over ↦
              if over
              then declined (refused (bad_field request_id "body"))
              else after_receive (receive max_request_bytes 0 [] req.chunks req.disconnects)
        ]

-- how the endpoint ends, the rows after it, and the bodies that went to providers
pub record Completed (F : Type 0) : Type 0 where
  pub end : Ended F
  pub rows : Table
  pub sent : List (Fields F)

module _ {F : Type 0} (web : Web F) (u : Unicode) (api_keys : List (String × String))
    (max_request_bytes : ℕ) where
  -- `completions` up to the call of `route`
  unfoldable pub admit : String → HttpRequest → Admission F
  unfolding limit_key_for read_body
  admit request_id req = elim (limit_key_for u api_keys req.authorization) [
    | none ↦ declined (refused (error_of unauthenticated request_id))
    | some key ↦ read_body web request_id key u max_request_bytes req
  ]

  module _ (rt : Runtime F) (ceiling : ℕ) (l : Limits) (w : World F) where
    unfoldable pub after_admission : Admission F → Table → Completed F
    unfolding present route
    after_admission (declined how) rows = record { end = how; rows = rows; sent = [] }
    after_admission (admitted key body) rows =
        let routed = route u ceiling l w rt key body rows in
        record { end = present web routed.end; rows = routed.rows; sent = routed.sent }

    -- `completions`
    unfoldable pub completions : HttpRequest → Table → Completed F
    unfolding admit after_admission
    completions req rows = after_admission (admit w.request_id req) rows

    -- what the client gets
    unfoldable pub answer : HttpRequest → Table → Response F
    unfolding completions respond
    answer req rows = respond w.request_id (completions req rows).end
