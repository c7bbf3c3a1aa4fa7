-- ===== src/Gateway/Screen/Gate.antt =====
-- What the policy gate lets through: task2_mcp_gateway/gateway.py and policy.py.
use text.Mathlib.Text.{◌==◌ as str_eq, starts_with}
use fde_assessment.Base.{
  String, ◌≡◌, ◌↔◌, ◌⊎◌, inl, inr, refl, true, false, Option, none, some, List, arith, eq_iff,
  Bool-cases,
}
use fde_assessment.Base.Unicode.{Unicode}
use fde_assessment.Json.{Json, Fields, null, bool, int, float, str, arr, obj, get}
use fde_assessment.Gateway.Auth.{Principal}
use fde_assessment.Gateway.Policy.{ToolRule, check_tool_call, default_tool_rules}
use fde_assessment.Gateway.Rpc.{extract_id}
use fde_assessment.Gateway.Screen.{
  forward, normalise, screen_tool, screen_name, screen_params, screen_method, screen_message,
}

module _ {F : Type 0} (u : Unicode) (rules : List ToolRule) (principal : Principal) where
  -- the calls that the policy allows, under the name as sent and under the normalised one
  pub data IsAllowedCall (message : Fields F) : Type 0 where
    call :
        (params : Fields F) (name : String)
        → get "params" message ≡ some (obj params)
        → get "name" params ≡ some (str name)
        → str_eq name "" ≡ false
        → (check_tool_call rules name principal.role).allowed ≡ true
        → (check_tool_call rules (normalise u name) principal.role).allowed ≡ true
        → IsAllowedCall message

  -- the messages that may pass: an allowed call, or a method that is no spelling of tools/call
  pub data MayPass (message : Fields F) : Type 0 where
    other :
        (method : String)
        → get "method" message ≡ some (str method)
        → str_eq method "tools/call" ≡ false
        → str_eq (normalise u method) "tools/call" ≡ false
        → MayPass message
    allowed :
        get "method" message ≡ some (str "tools/call") → IsAllowedCall message → MayPass message

  screen_tool-allowed :
      (id : Json F) (name : String)
      → screen_tool u rules principal id name ≡ forward
      → ((check_tool_call rules name principal.role).allowed ≡ true)
        × ((check_tool_call rules (normalise u name) principal.role).allowed ≡ true)
  unfolding screen_tool
  screen_tool-allowed id name e =
      elim (Bool-cases (check_tool_call rules name principal.role).allowed) [
        | inr denied ↦ absurd (ground arith)
        | inl raw ↦
            elim (Bool-cases (check_tool_call rules (normalise u name) principal.role).allowed) [
              | inr denied ↦ absurd (ground arith)
              | inl folded ↦ (raw, folded)
            ]
      ]

  screen_name-allowed :
      (message params : Fields F) (id : Json F) (found : Option (Json F))
      → get "params" message ≡ some (obj params)
      → get "name" params ≡ found
      → screen_name u rules principal id found ≡ forward
      → IsAllowedCall message
  unfolding screen_name
  screen_name-allowed message params id (some (str name)) there named e =
      elim (Bool-cases (str_eq name "")) [
        | inl empty ↦ absurd (ground arith)
        | inr filled ↦
            let tool : screen_tool u rules principal id name ≡ forward = ground arith in
            let (raw, folded) = screen_tool-allowed id name tool in
            call params name there named filled raw folded
      ]
  screen_name-allowed message params id none there named e = absurd (cc)
  screen_name-allowed message params id (some null) there named e = absurd (cc)
  screen_name-allowed message params id (some (bool b)) there named e = absurd (cc)
  screen_name-allowed message params id (some (int n)) there named e = absurd (cc)
  screen_name-allowed message params id (some (float x)) there named e = absurd (cc)
  screen_name-allowed message params id (some (arr xs)) there named e = absurd (cc)
  screen_name-allowed message params id (some (obj fs)) there named e = absurd (cc)

  screen_params-allowed :
      (message : Fields F) (id : Json F) (found : Option (Json F))
      → get "params" message ≡ found
      → screen_params u rules principal id found ≡ forward
      → IsAllowedCall message
  unfolding screen_params
  screen_params-allowed message id (some (obj params)) there e =
      screen_name-allowed message params id (get "name" params) there refl e
  screen_params-allowed message id none there e = absurd (cc)
  screen_params-allowed message id (some null) there e = absurd (cc)
  screen_params-allowed message id (some (bool b)) there e = absurd (cc)
  screen_params-allowed message id (some (int n)) there e = absurd (cc)
  screen_params-allowed message id (some (float x)) there e = absurd (cc)
  screen_params-allowed message id (some (arr xs)) there e = absurd (cc)
  screen_params-allowed message id (some (str s)) there e = absurd (cc)

  screen_method-MayPass :
      (message : Fields F) (found : Option (Json F))
      → get "method" message ≡ found
      → screen_method u rules principal message found ≡ forward
      → MayPass message
  unfolding screen_method
  screen_method-MayPass message (some (str method)) there e =
      elim (Bool-cases (str_eq method "tools/call")) [
        | inl is_call ↦
            let gated : screen_params u rules principal (extract_id (obj message))
                  (get "params" message)
                ≡ forward =
              ground arith in
            let spelled : method ≡ "tools/call" = (eq_iff method "tools/call").0 is_call in
            allowed (rw spelled at there) (
              screen_params-allowed message (extract_id (obj message)) (get "params" message) refl
                gated)
        | inr differs ↦ elim (Bool-cases (str_eq (normalise u method) "tools/call")) [
          | inl near ↦ absurd (ground arith)
          | inr far ↦ other method there differs far
        ]
      ]
  screen_method-MayPass message none there e = absurd (cc)
  screen_method-MayPass message (some null) there e = absurd (cc)
  screen_method-MayPass message (some (bool b)) there e = absurd (cc)
  screen_method-MayPass message (some (int n)) there e = absurd (cc)
  screen_method-MayPass message (some (float x)) there e = absurd (cc)
  screen_method-MayPass message (some (arr xs)) there e = absurd (cc)
  screen_method-MayPass message (some (obj fs)) there e = absurd (cc)

  MayPass-forward :
      (message : Fields F) → MayPass message → screen_message u rules principal message ≡ forward
  unfolding screen_message screen_params screen_name screen_tool
  MayPass-forward message (other method there differs far) = rw (there, differs, far)
  MayPass-forward message (allowed there (call params name have named filled raw folded)) =
      rw (there, have, named, filled, raw, folded)

  -- The gate forwards exactly the messages that the policy lets pass: those whose method is not a
  -- spelling of tools/call up to blanks and case, and the calls of a tool that the rules allow to
  -- the caller's role both under its name as sent and under that name stripped and casefolded.
  pub screen_message_decides :
      (message : Fields F) → (screen_message u rules principal message ≡ forward) ↔ MayPass message
  unfolding screen_message
  screen_message_decides message =
      (λ e. screen_method-MayPass message (get "method" message) refl e, MayPass-forward message)

allowed-default :
    (name role : String)
    → (check_tool_call default_tool_rules name role).allowed ≡ true
    → starts_with name "admin_" ≡ true
    → role ≡ "admin"
unfolding check_tool_call
allowed-default name role e admin = elim (Bool-cases (str_eq role "admin")) [
  | inl same ↦ (eq_iff role "admin").0 same
  | inr differs ↦ absurd (ground arith)
]

-- Under the default rules, a forwarded tools/call whose tool name begins with admin_, as sent or
-- once stripped and casefolded, comes from a caller whose role is admin.
pub admin_call_needs_admin :
    {F : Type 0} (u : Unicode) (principal : Principal) (message params : Fields F) (name : String)
    → get "method" message ≡ some (str "tools/call")
    → get "params" message ≡ some (obj params)
    → get "name" params ≡ some (str name)
    → screen_message u default_tool_rules principal message ≡ forward
    → (starts_with name "admin_" ≡ true) ⊎ (starts_with (normalise u name) "admin_" ≡ true)
    → principal.role ≡ "admin"
unfolding screen_message screen_method screen_params screen_name
admin_call_needs_admin u principal message params name is_call have named e begins =
    elim (Bool-cases (str_eq name "")) [
      | inl empty ↦ absurd (ground arith)
      | inr filled ↦
          let tool : screen_tool u default_tool_rules principal (extract_id (obj message)) name
              ≡ forward =
            ground arith in
          let (raw, folded) =
            screen_tool-allowed u default_tool_rules principal (extract_id (obj message)) name
              tool in
          elim begins [
            | inl b ↦ allowed-default name principal.role raw b
            | inr b ↦ allowed-default (normalise u name) principal.role folded b
          ]
    ]
