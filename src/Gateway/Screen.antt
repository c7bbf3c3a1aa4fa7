-- ===== src/Gateway/Screen.antt =====
-- The policy gate: `_normalise` and `screen_message` of task2_mcp_gateway/gateway.py, and
-- `unauthorized_tool_call` of task2_mcp_gateway/errors.py. The audit log is left out.
pub mod Gate
use Prim.Native.String.{◌++◌}
use text.Mathlib.Text.{◌==◌ as str_eq}
use fde_assessment.Base.{
  String, Bool, true, false, not, ◌&&◌, Option, none, some, List, if◌then◌else◌,
}
use fde_assessment.Base.Unicode.{Unicode}
use fde_assessment.Json.{Json, Fields, str, obj, end, field, get}
use fde_assessment.Gateway.Auth.{Principal}
use fde_assessment.Gateway.Policy.{ToolRule, Decision, check_tool_call}
use fde_assessment.Gateway.Rpc.{
  error_response, extract_id, unauthorized_tool_call_code, invalid_request, invalid_params,
}

-- a message goes on, or is answered with an error, or an AttributeError or a KeyError is raised
pub data Screened (F : Type 0) : Type 0 where
  forward : Screened F
  refuse : Json F → Screened F
  raised : Screened F

-- `_normalise`
unfoldable pub normalise : Unicode → String → String
normalise u value = u.casefold (u.strip value)

abbrev pub refusal_reason : String → String → String → String
refusal_reason tool_name role required =
    "Tool '" ++ tool_name ++ "' requires the '" ++ required ++ "' role; caller holds '" ++ role
    ++ "'."

module _ {F : Type 0} where
  unfoldable pub unauthorized_tool_call : Json F → String → String → String → Json F
  unfolding error_response
  unauthorized_tool_call request_id tool_name role required =
      error_response request_id unauthorized_tool_call_code "Unauthorized Tool Call" (
        some (
          obj (
            field "tool" (str tool_name) (
              field "required_role" (str required) (
                field "actual_role" (str role)
                  (field "reason" (str (refusal_reason tool_name role required)) end))))))

module _ {F : Type 0} (u : Unicode) (rules : List ToolRule) (principal : Principal) where
  -- the decisions on the name as it is and on the normalised one, both of which must allow
  unfoldable pub screen_tool : Json F → String → Screened F
  unfolding check_tool_call normalise unauthorized_tool_call
  screen_tool id tool_name =
      let decision = check_tool_call rules tool_name principal.role in
      let normalised = check_tool_call rules (normalise u tool_name) principal.role in
      if decision.allowed && normalised.allowed
      then forward
      else refuse (
          unauthorized_tool_call id tool_name principal.role
            (if decision.allowed then normalised.required_role else decision.required_role))

  unfoldable pub screen_name : Json F → Option (Json F) → Screened F
  unfolding screen_tool error_response
  screen_name id (some (str tool_name)) =
      if str_eq tool_name ""
      then refuse
          (error_response id invalid_params "Invalid params: tools/call requires params.name" none)
      else screen_tool id tool_name
  screen_name id _ =
      refuse
        (error_response id invalid_params "Invalid params: tools/call requires params.name" none)

  unfoldable pub screen_params : Json F → Option (Json F) → Screened F
  unfolding screen_name error_response
  screen_params id (some (obj params)) = screen_name id (get "name" params)
  screen_params id _ =
      refuse (
        error_response id invalid_params "Invalid params: tools/call requires a params object" none)

  -- what `message["method"]` comes to
  unfoldable pub screen_method : Fields F → Option (Json F) → Screened F
  unfolding screen_params extract_id normalise
  screen_method message (some (str method)) =
      if str_eq method "tools/call"
      then screen_params (extract_id (obj message)) (get "params" message)
      else if str_eq (normalise u method) "tools/call"
      then refuse (
          error_response (extract_id (obj message)) invalid_request
            "Invalid Request: unrecognised spelling of 'tools/call'" none)
      else forward
  screen_method message _ = raised

  -- `screen_message`
  unfoldable pub screen_message : Fields F → Screened F
  unfolding screen_method
  screen_message message = screen_method message (get "method" message)
