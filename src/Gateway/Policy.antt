-- ===== src/Gateway/Policy.antt =====
-- The tool policy: task2_mcp_gateway/policy.py.
-- A rule's regular expression is the test that `pattern.match` makes.
use text.Mathlib.Text.{◌==◌ as str_eq, starts_with}
use fde_assessment.Base.{String, Bool, true, false, List, [], ◌∷◌, if◌then◌else◌}

pub record ToolRule : Type 0 where
  pub matches : String → Bool
  pub required_role : String
  pub description : String

-- `^admin_` matches the texts that begin so
abbrev pub default_tool_rules : List ToolRule
default_tool_rules =
    record {
      matches = λ name. starts_with name "admin_";
      required_role = "admin";
      description = "Tools prefixed admin_ perform privileged operations.";
    }
    ∷ []

pub record Decision : Type 0 where
  pub allowed : Bool
  pub reason : String
  pub required_role : String

unfoldable pub check_tool_call : List ToolRule → String → String → Decision
check_tool_call [] tool_name role = record { allowed = true; reason = ""; required_role = "" }
check_tool_call (rule ∷ rules) tool_name role =
    let rest = check_tool_call rules tool_name role in
    if rule.matches tool_name
    then (if str_eq role rule.required_role
        then record { allowed = true; reason = ""; required_role = "" }
        else record {
          allowed = false;
          reason = rule.description;
          required_role = rule.required_role;
        })
    else rest
