-- ===== src/Server/Frames.antt =====
-- The frames that the server's pump writes itself: `error_for_unparsed_line`,
-- `tools_call_envelope_error`, `_is_request_masquerading_as_notification` and
-- `_normalise_error_detail` of task1_mcp_server/server.py.
use text.Mathlib.Text.{◌==◌ as str_eq}
use fde_assessment.Base.{
  ℕ, zero, suc, String, Bool, false, Option, none, some, List, [], ◌∷◌, if◌then◌else◌, is_some,
}
use fde_assessment.Base.Int.{ℤ, negsuc, int_eq}
use fde_assessment.Json.{Json, Fields}
use fde_assessment.Json

-- a request's id as the protocol has it: a text or an integer
pub data RequestId : Type 0 where
  text_id : String → RequestId
  int_id : ℤ → RequestId

abbrev pub id_eq : RequestId → RequestId → Bool
id_eq (text_id a) (text_id b) = str_eq a b
id_eq (int_id a) (int_id b) = int_eq a b
id_eq _ _ = false

-- one entry of `data["errors"]`
pub record Entry : Type 0 where
  pub where_at : Option String
  pub code : String
  pub message : String
  pub received_type : Option String
  pub detail : Option String

pub record Details : Type 0 where
  pub errors : List Entry
  pub tool : Option String
  pub available_tools : List String

-- the `data` of an error: absent, a bare text, in the server's own shape, or any other value
pub data ErrorDetail (F : Type 0) : Type 0 where
  absent : ErrorDetail F
  bare : String → ErrorDetail F
  structured : Details → ErrorDetail F
  other_value : Json F → ErrorDetail F

-- what goes out on the wire
pub data Frame (F : Type 0) : Type 0 where
  reply : RequestId → Json F → Frame F
  failure : Option RequestId → ℤ → String → ErrorDetail F → Frame F
  note : String → Frame F

-- what the transport makes of a line
pub data Message (F : Type 0) : Type 0 where
  unparsed : Message F
  request : RequestId → String → Option (Fields F) → Message F
  notification : String → Option (Fields F) → Message F
  client_reply : RequestId → Message F

-- -32700, -32600 and -32602
abbrev pub parse_error_code : ℤ
parse_error_code = negsuc 32699

abbrev pub invalid_request_code : ℤ
invalid_request_code = negsuc 32599

abbrev pub invalid_params_code : ℤ
invalid_params_code = negsuc 32601

abbrev pub entry : String → String → String → Entry
entry where_at code message = record {
  where_at = some where_at;
  code = code;
  message = message;
  received_type = none;
  detail = none;
}

abbrev pub only : Entry → Details
only e = record { errors = e ∷ []; tool = none; available_tools = [] }

abbrev pub tool_names : List String
tool_names = "get_customer_record" ∷ "trigger_refund" ∷ []

abbrev pub missing_params : Details
missing_params = only (entry "params" "missing" "tools/call requires a params object")

module _ {F : Type 0} where
  -- `isinstance(candidate, (str, int)) and not isinstance(candidate, bool)`
  abbrev pub usable_id : Option (Json F) → Option RequestId
  usable_id (some (Json.str s)) = some (text_id s)
  usable_id (some (Json.int n)) = some (int_id n)
  usable_id _ = none

  abbrev pub invalid_request : Option RequestId → String → Frame F
  invalid_request id detail =
      failure id invalid_request_code detail
        (structured (only (entry "<envelope>" "invalid_request" detail)))

  -- `error_for_unparsed_line`, on what `json.loads` gives for the line
  abbrev pub error_for_payload : Option (Json F) → Frame F
  error_for_payload none =
      failure none parse_error_code "Parse error"
        (structured (only (entry "<message>" "parse_error" "the line was not valid JSON")))
  error_for_payload (some (Json.arr items)) =
      invalid_request none "Invalid Request: JSON-RPC batching is not supported"
  error_for_payload (some (Json.obj fields)) =
      invalid_request (usable_id (Json.get "id" fields)) "Invalid Request"
  error_for_payload (some _) = invalid_request none "Invalid Request"

  -- `type(arguments).__name__`
  abbrev pub type_name : Json F → String
  type_name Json.null = "NoneType"
  type_name (Json.bool b) = "bool"
  type_name (Json.int n) = "int"
  type_name (Json.float x) = "float"
  type_name (Json.str s) = "str"
  type_name (Json.arr items) = "list"
  type_name (Json.obj fields) = "dict"

  -- `"missing" if name is None else "string_type"`
  abbrev pub name_code : Option (Json F) → String
  name_code none = "missing"
  name_code (some Json.null) = "missing"
  name_code (some _) = "string_type"

  abbrev pub bad_name : Option (Json F) → Details
  bad_name name = record {
    errors =
        entry "name" (name_code name) "params.name must be a non-empty string naming a tool" ∷ [];
    tool = none;
    available_tools = tool_names;
  }

  abbrev pub bad_arguments : String → Json F → Details
  bad_arguments name arguments = record {
    errors =
        record {
          where_at = some "arguments";
          code = "dict_type";
          message = "params.arguments must be a JSON object";
          received_type = some (type_name arguments);
          detail = none;
        }
        ∷ [];
    tool = some name;
    available_tools = [];
  }

  -- the check of `arguments`
  abbrev pub arguments_error : String → Option (Json F) → Option Details
  arguments_error name none = none
  arguments_error name (some Json.null) = none
  arguments_error name (some (Json.obj fields)) = none
  arguments_error name (some arguments) = some (bad_arguments name arguments)

  -- the check of `name`, and then that of `arguments`
  abbrev pub name_error : Option (Json F) → Option (Json F) → Option Details
  name_error (some (Json.str name)) arguments =
      if str_eq name ""
      then some (bad_name (some (Json.str name)))
      else arguments_error name arguments
  name_error name arguments = some (bad_name name)

  -- `tools_call_envelope_error`
  unfoldable pub tools_call_envelope_error : Option (Fields F) → Option Details
  tools_call_envelope_error none = some missing_params
  tools_call_envelope_error (some fields) =
      name_error (Json.get "name" fields) (Json.get "arguments" fields)

  -- `isinstance(payload, dict) and "id" in payload`
  abbrev pub carries_id : Option (Json F) → Bool
  carries_id (some (Json.obj fields)) = is_some (Json.get "id" fields)
  carries_id _ = false

  abbrev pub rejected_id : Frame F
  rejected_id =
      failure none invalid_request_code "Invalid Request: 'id' must be a string or integer"
        (structured (only (entry "id" "id_type" "a request id must be a string or an integer")))

-- `detail[:200]`
abbrev pub first_characters : ℕ → String → String
first_characters zero s = ""
first_characters (suc n) String.[] = ""
first_characters (suc n) (String.◌∷◌ c s) = String.◌∷◌ c (first_characters n s)

-- `detail`, if it is a text that is not empty
abbrev pub shortened : String → Option String
shortened s = if str_eq s "" then none else some (first_characters 200 s)

abbrev pub surface_entry : String → Option String → Details
surface_entry message detail = only (record {
  where_at = none;
  code = "request_rejected";
  message = message;
  received_type = none;
  detail = detail;
})

module _ {F : Type 0} where
  abbrev pub normalise_detail : String → ErrorDetail F → ErrorDetail F
  normalise_detail message absent = structured (surface_entry message none)
  normalise_detail message (bare s) = structured (surface_entry message (shortened s))
  normalise_detail message detail = detail

  -- `_normalise_error_detail`
  unfoldable pub normalise_error_detail : Frame F → Frame F
  normalise_error_detail (failure id code message detail) =
      failure id code message (normalise_detail message detail)
  normalise_error_detail frame = frame
