-- ===== src/Server/Tools.antt =====
-- The two tools: the arguments' models of task1_mcp_server/schemas.py, and `validate_arguments` and
-- `on_call_tool` of task1_mcp_server/server.py. The models are read by pydantic's documented strict
-- mode: no conversion but from an integer to a float, and no key that is not a field. The texts of the
-- errors are left out.
pub mod Paid
mod Tests
use Prim.Native.Char.{Char, code}
use text.Mathlib.Text.{◌==◌ as str_eq}
use fde_assessment.Base.{
  ℕ, ◌+◌, String, Bool, true, false, not, ◌&&◌, ◌||◌, Option, none, some, List, [], ◌∷◌,
  if◌then◌else◌, ltb, leb, ◌==◌,
}
use fde_assessment.Base.Int.{ℤ}
use fde_assessment.Json.{Json, Fields}
use fde_assessment.Json
use fde_assessment.Server.Store.{Money, Receipt, Customer, Profile, Refunded, Order, refund}
use fde_assessment.Server.Store

-- Python's `isprintable` and `isspace`, and its floats as a model reads them
pub record Reading (F : Type 0) : Type 0 where
  pub is_printable : Char → Bool
  pub is_space : Char → Bool
  pub float_of : ℤ → Option F
  -- `x > 0`, for a float that is finite
  pub is_positive : F → Bool

abbrev pub min_reason_length : ℕ
min_reason_length = 10

abbrev pub max_reason_length : ℕ
max_reason_length = 8192

abbrev pub size : String → ℕ
size String.[] = 0
size (String.◌∷◌ c s) = size s + 1

abbrev pub five_digits : ℕ → String → Bool
five_digits seen String.[] = seen == 5
five_digits seen (String.◌∷◌ c s) = leb 48 (code c) && (leb (code c) 57 && five_digits (seen + 1) s)

-- the rest of a text after a prefix
abbrev pub after_prefix : String → String → Option String
after_prefix String.[] s = some s
after_prefix (String.◌∷◌ c p) String.[] = none
after_prefix (String.◌∷◌ c p) (String.◌∷◌ d s) =
    let rest = after_prefix p s in if code c == code d then rest else none

-- `CUSTOMER_ID_PATTERN.fullmatch(value)`
unfoldable pub is_customer_id : String → Bool
is_customer_id value = elim (after_prefix "CUST-" value) [
  | none ↦ false
  | some rest ↦ five_digits 0 rest
]

module _ {F : Type 0} (reading : Reading F) where
  -- `len(printable)`
  abbrev pub printable_count : String → ℕ
  printable_count String.[] = 0
  printable_count (String.◌∷◌ c s) =
      let n = printable_count s in if reading.is_printable c then n + 1 else n

  abbrev pub shows_something : String → Bool
  shows_something String.[] = false
  shows_something (String.◌∷◌ c s) =
      (reading.is_printable c && not (reading.is_space c)) || shows_something s

  -- the field `reason` with its bounds, and `_validate_reason`
  unfoldable pub is_reason : String → Bool
  is_reason value =
      leb min_reason_length (size value)
      && (leb (size value) max_reason_length
          && (leb min_reason_length (printable_count value) && shows_something value))

  -- a customer's id, an amount and a reason, as the models demand them
  abbrev pub read_customer_id : Option (Json F) → Option String
  read_customer_id (some (Json.str value)) = if is_customer_id value then some value else none
  read_customer_id _ = none

  abbrev pub positive : Option F → Option F
  positive none = none
  positive (some x) = if reading.is_positive x then some x else none

  abbrev pub read_amount : Option (Json F) → Option F
  read_amount (some (Json.float x)) = positive (some x)
  read_amount (some (Json.int n)) = positive (reading.float_of n)
  read_amount _ = none

  abbrev pub read_reason : Option (Json F) → Option String
  read_reason (some (Json.str value)) = if is_reason value then some value else none
  read_reason _ = none

-- `GetCustomerRecordInput` and `TriggerRefundInput`
pub data Arguments (F : Type 0) : Type 0 where
  record_input : String → Arguments F
  refund_input : String → F → String → Arguments F

-- what `validate_arguments` gives: the arguments, or one of its two errors
pub data Validated (F : Type 0) : Type 0 where
  valid : Arguments F → Validated F
  unknown_tool : Validated F
  invalid_arguments : Validated F

-- what `on_call_tool` gives: a result, a result with `isError`, or the error of the validation
pub data Called (F : Type 0) : Type 0 where
  customer_record : Profile F → Called F
  refund_receipt : Receipt F → Called F
  tool_error : Called F
  unknown_tool_error : Called F
  invalid_params_error : Called F

abbrev pub has_key : String → List String → Bool
has_key k [] = false
has_key k (n ∷ names) = str_eq k n || has_key k names

module _ {F : Type 0} where
  -- `extra="forbid"`
  abbrev pub has_only : List String → Fields F → Bool
  has_only names Json.end = true
  has_only names (Json.field k v fs) = has_key k names && has_only names fs

  -- `arguments if arguments is not None else {}`
  abbrev pub or_empty : Option (Fields F) → Fields F
  or_empty none = Json.end
  or_empty (some fs) = fs

  abbrev pub record_of : Option String → Validated F
  record_of none = invalid_arguments
  record_of (some customer) = valid (record_input customer)

  abbrev pub refund_of : Option String → Option F → Option String → Validated F
  refund_of (some customer) (some amount) (some reason) =
      valid (refund_input customer amount reason)
  refund_of _ _ _ = invalid_arguments

  -- the tool's answer to what the store does
  abbrev pub answer_record : Option (Profile F) → Called F
  answer_record none = tool_error
  answer_record (some p) = customer_record p

  abbrev pub answer_refund : Refunded F → Called F
  answer_refund (Store.accepted r) = refund_receipt r
  answer_refund Store.not_found = tool_error
  answer_refund Store.exceeds_balance = tool_error
  answer_refund Store.too_small = tool_error

module _ {F : Type 0} (reading : Reading F) where
  -- `validate_arguments`
  unfoldable pub validate_arguments : String → Option (Fields F) → Validated F
  validate_arguments name arguments =
      let raw = or_empty arguments in
      let customer = read_customer_id reading (Json.get "customer_id" raw) in
      let a_record =
        if has_only ("customer_id" ∷ []) raw then record_of customer else invalid_arguments in
      let a_refund =
        if has_only ("customer_id" ∷ "amount" ∷ "reason" ∷ []) raw
        then refund_of customer (read_amount reading (Json.get "amount" raw))
            (read_reason reading (Json.get "reason" raw))
        else invalid_arguments in
      if str_eq name "get_customer_record"
      then a_record
      else if str_eq name "trigger_refund"
      then a_refund
      else unknown_tool

module _ {F : Type 0} (money : Money F) where
  -- `on_call_tool`, once the arguments are validated, with what `uuid4` and the clock give a refund
  unfoldable pub run_tool :
      Validated F
      → String
      → String
      → List (String × Customer F)
      → Called F × List (String × Customer F)
  run_tool unknown_tool fresh_id clock customers = (unknown_tool_error, customers)
  run_tool invalid_arguments fresh_id clock customers = (invalid_params_error, customers)
  run_tool (valid (record_input customer)) fresh_id clock customers =
      (answer_record (Store.get money customers customer), customers)
  run_tool (valid (refund_input customer amount reason)) fresh_id clock customers =
      let order : Order F = record {
        customer = customer;
        amount = amount;
        reason = reason;
        fresh_id = fresh_id;
        clock = clock;
      } in
      let (end', customers') = refund money order customers in (answer_refund end', customers')

module _ {F : Type 0} (reading : Reading F) (money : Money F) where
  -- `on_call_tool`
  unfoldable pub on_call_tool :
      String
      → Option (Fields F)
      → String
      → String
      → List (String × Customer F)
      → Called F × List (String × Customer F)
  unfolding validate_arguments run_tool
  on_call_tool name arguments fresh_id clock customers =
      run_tool money (validate_arguments reading name arguments) fresh_id clock customers
