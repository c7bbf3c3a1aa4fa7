-- ===== src/Gateway/Rpc.antt =====
-- JSON-RPC errors, ids and the envelope: task2_mcp_gateway/errors.py and `extract_id`,
-- `_is_valid_id`, `validate_envelope`, `_invalid_response` of gateway.py.
pub mod Envelope
pub mod Response
use text.Mathlib.Text.{◌==◌ as str_eq}
use fde_assessment.Base.{
  String, Bool, true, false, not, ◌&&◌, ◌||◌, Option, none, some, if◌then◌else◌, is_some,
}
use fde_assessment.Base.Int.{ℤ, pos, negsuc, int_eq}
use fde_assessment.Json.{Json, Fields, null, bool, int, float, str, arr, obj, end, field, get}

-- the comparisons of Python's floats with floats and ints, as `==` makes them
pub record Floats (F : Type 0) : Type 0 where
  pub eq : F → F → Bool
  pub eq_int : F → ℤ → Bool

-- -32700, -32600, -32602, -32603, and the server errors -32001, -32002, -32003
abbrev pub parse_error : ℤ
parse_error = negsuc 32699

abbrev pub invalid_request : ℤ
invalid_request = negsuc 32599

abbrev pub invalid_params : ℤ
invalid_params = negsuc 32601

abbrev pub internal_error : ℤ
internal_error = negsuc 32602

abbrev pub unauthorized_tool_call_code : ℤ
unauthorized_tool_call_code = negsuc 32000

abbrev pub upstream_unavailable : ℤ
upstream_unavailable = negsuc 32001

abbrev pub unauthenticated : ℤ
unauthenticated = negsuc 32002

module _ {F : Type 0} where
  abbrev pub with_data : Option (Json F) → Fields F
  with_data none = end
  with_data (some d) = field "data" d end

  -- `error_response`
  unfoldable pub error_response : Json F → ℤ → String → Option (Json F) → Json F
  error_response request_id code message extra = obj (
      field "jsonrpc" (str "2.0") (
        field "id" request_id (
          field "error"
            (obj (field "code" (int code) (field "message" (str message) (with_data extra)))) end)))

  -- `extract_id`
  unfoldable pub id_of : Option (Json F) → Json F
  id_of (some (str s)) = str s
  id_of (some (int n)) = int n
  id_of (some (float x)) = float x
  id_of _ = null

  unfoldable pub extract_id : Json F → Json F
  unfolding id_of
  extract_id (obj message) = id_of (get "id" message)
  extract_id _ = null

  -- `_is_valid_id`
  unfoldable pub is_valid_id : Json F → Bool
  is_valid_id null = true
  is_valid_id (str s) = true
  is_valid_id (int n) = true
  is_valid_id (float x) = true
  is_valid_id _ = false

  -- `message.get(k) != s` is the negation of this
  unfoldable pub has_text : String → Option (Json F) → Bool
  has_text s (some (str t)) = str_eq t s
  has_text s _ = false

  -- a text that is not empty
  unfoldable pub is_filled_text : Option (Json F) → Bool
  is_filled_text (some (str t)) = not (str_eq t "")
  is_filled_text _ = false

  abbrev pub is_null : Option (Json F) → Bool
  is_null (some null) = true
  is_null _ = false

  abbrev pub is_invalid_id : Option (Json F) → Bool
  is_invalid_id none = false
  is_invalid_id (some v) = not (is_valid_id v)

  -- absent, null, an object or an array
  unfoldable pub is_params : Option (Json F) → Bool
  is_params none = true
  is_params (some null) = true
  is_params (some (arr xs)) = true
  is_params (some (obj fs)) = true
  is_params (some _) = false

  -- `validate_envelope`, on a dictionary and on any message
  unfoldable pub validate_fields : Fields F → Option (Json F)
  unfolding has_text is_filled_text is_valid_id is_params extract_id
  validate_fields message =
      let id = extract_id (obj message) in
      if not (has_text "2.0" (get "jsonrpc" message))
      then some (error_response id invalid_request "Invalid Request: jsonrpc must be '2.0'" none)
      else if not (is_filled_text (get "method" message))
      then some
          (error_response id invalid_request "Invalid Request: 'method' must be a string" none)
      else if is_invalid_id (get "id" message)
      then some (
          error_response null invalid_request "Invalid Request: 'id' must be a string or a number"
            none)
      else if is_null (get "id" message)
      then some (error_response null invalid_request "Invalid Request: 'id' must not be null" none)
      else if not (is_params (get "params" message))
      then some (
          error_response id invalid_request "Invalid Request: 'params' must be object or array"
            none)
      else none

  unfoldable pub validate_envelope : Json F → Option (Json F)
  unfolding validate_fields
  validate_envelope (obj message) = validate_fields message
  validate_envelope _ =
      some
        (error_response null invalid_request "Invalid Request: message must be a JSON object" none)

abbrev pub bool_int : Bool → ℤ
bool_int true = pos 1
bool_int false = pos 0

module _ {F : Type 0} (fl : Floats F) where
  -- Python's `==` where the second value is null, a text or a number: a bool is an int
  unfoldable pub py_eq : Json F → Json F → Bool
  py_eq null null = true
  py_eq (str s) (str t) = str_eq s t
  py_eq (int m) (int n) = int_eq m n
  py_eq (bool b) (int n) = int_eq (bool_int b) n
  py_eq (float x) (int n) = fl.eq_int x n
  py_eq (int m) (float y) = fl.eq_int y m
  py_eq (bool b) (float y) = fl.eq_int y (bool_int b)
  py_eq (float x) (float y) = fl.eq x y
  py_eq _ _ = false

  abbrev pub or_null : Option (Json F) → Json F
  or_null none = null
  or_null (some v) = v

  abbrev pub is_object : Option (Json F) → Bool
  is_object (some (obj _)) = true
  is_object _ = false

  abbrev pub differ : Bool → Bool → Bool
  differ true b = not b
  differ false b = b

  -- whether `_invalid_response` finds nothing wrong
  unfoldable pub is_valid_response : Json F → Json F → Bool
  unfolding py_eq has_text
  is_valid_response (obj payload) expected =
      has_text "2.0" (get "jsonrpc" payload)
      && differ (is_some (get "result" payload)) (is_some (get "error" payload))
      && (not (is_some (get "error" payload)) || is_object (get "error" payload))
      && py_eq (or_null (get "id" payload)) expected
  is_valid_response _ expected = false
