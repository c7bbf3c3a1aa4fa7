-- ===== src/Server/Tools/Paid.antt =====
-- That only a validated refund pays: `on_call_tool` of task1_mcp_server/server.py on the store.
use text.Mathlib.Text.{◌==◌ as str_eq}
use fde_assessment.Base.{◌≡◌, String, true, Option, none, some, List, ◌==◌}
use fde_assessment.Json.{Json}
use fde_assessment.Json
use fde_assessment.Server.Store.{
  Money, Receipt, Customer, Refunded, Order, find, update, receipt_for, charge,
}
use fde_assessment.Server.Store
use fde_assessment.Server.Tools.{Reading, is_customer_id, is_reason, Arguments, Validated, Called}
use fde_assessment.Server.Tools

-- what holds of a value, if there is one
abbrev Holds {ℓ} : {A : Type ℓ} → (A → Type 0) → Option A → Type 0
Holds P none = Unit
Holds P (some x) = P x

module _ {F : Type 0} (reading : Reading F) (money : Money F) where
  -- the arguments are those that the refund's model accepts
  abbrev pub IsMeant : Arguments F → Type 0
  IsMeant (Tools.record_input customer) = is_customer_id customer ≡ true
  IsMeant (Tools.refund_input customer amount reason) =
      (is_customer_id customer ≡ true)
      × (reading.is_positive amount ≡ true)
      × (is_reason reading reason ≡ true)

  abbrev pub IsChecked : Validated F → Type 0
  IsChecked (Tools.valid args) = IsMeant args
  IsChecked Tools.unknown_tool = Unit
  IsChecked Tools.invalid_arguments = Unit

  -- what the call leaves: the store as it was, or one refund paid on accepted arguments
  abbrev pub IsPaid : Called F → List (String × Customer F) → List (String × Customer F) → Type 0
  IsPaid (Tools.refund_receipt r) before' after' =
      (o : Order F) × ((c : Customer F) × ((find o.customer before' ≡ some c)
          × (r ≡ receipt_for money o c)
          × (after' ≡ update o.customer (charge money r c) before')
          × IsMeant (Tools.refund_input o.customer o.amount o.reason)))
  IsPaid _ before' after' = after' ≡ before'
