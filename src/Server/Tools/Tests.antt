-- ===== src/Server/Tools/Tests.antt =====
-- The tools on concrete customers, and their theorem there. A float is a whole number of tenths of a
-- cent.
use Prim.Native.Char.{code}
use fde_assessment.Base.{
  ℕ, ◌+◌, ◌*◌, ◌/◌, String, ◌≡◌, refl, Option, none, some, List, [], ◌∷◌, ltb, leb, ◌==◌,
}
use fde_assessment.Base.Int.{ℤ, pos, negsuc}
use fde_assessment.Json.{Json, Fields}
use fde_assessment.Json
use fde_assessment.Server.Store.{Money, Customer, refund}
use fde_assessment.Server.Tools.{Reading, Called, on_call_tool, validate_arguments}
use fde_assessment.Server.Tools

abbrev tenths : Money ℕ
tenths = record { exceeds = λ a b. ltb b a; cents = λ x. (x + 5) / 10; of_cents = λ n. n * 10 }

abbrev whole : ℤ → Option ℕ
whole (pos n) = some (n * 1000)
whole (negsuc n) = none

abbrev ascii : Reading ℕ
ascii = record {
  is_printable = λ c. leb 32 (code c);
  is_space = λ c. code c == 32;
  float_of = whole;
  is_positive = λ x. ltb 0 x;
}

abbrev ada : Customer ℕ
ada = record {
  customer_id = "CUST-00042";
  name = "Ada Lovelace";
  email = "ada@example.com";
  plan = "enterprise";
  status = "active";
  refundable_balance = 500_000;
  refunds = [];
}

abbrev customers : List (String × Customer ℕ)
customers = ("CUST-00042", ada) ∷ []

abbrev asked : String → ℕ → Fields ℕ
asked reason amount =
    Json.field "customer_id" (Json.str "CUST-00042")
      (Json.field "amount" (Json.int (pos amount)) (Json.field "reason" (Json.str reason) Json.end))

abbrev call : String → Option (Fields ℕ) → Called ℕ × List (String × Customer ℕ)
call name arguments =
    on_call_tool ascii tenths name arguments "RFND-1" "2024-01-01T00:00:00+00:00" customers

too_short : (call "trigger_refund" (some (asked "Dup\tcharge" 5))).0 ≡ Tools.invalid_params_error
unfolding on_call_tool Tools.is_customer_id Tools.is_reason
too_short = refl

too_much : (call "trigger_refund" (some (asked "Dup charge" 501))).0 ≡ Tools.tool_error
unfolding on_call_tool refund Tools.is_customer_id Tools.is_reason
too_much = refl

no_arguments : (call "get_customer_record" none).0 ≡ Tools.invalid_params_error
unfolding on_call_tool Tools.is_customer_id Tools.is_reason
no_arguments = refl

no_such_tool : (call "refund" none).0 ≡ Tools.unknown_tool_error
unfolding on_call_tool Tools.is_customer_id Tools.is_reason
no_such_tool = refl
