-- ===== src/Server/Store.antt =====
-- The billing store: task1_mcp_server/store.py. Each method runs under the lock, so it is one step on
-- the customers. Floats are `Money`: the comparison, and the conversions from and to whole cents, of
-- amounts and balances that are not negative (the tool's schema demands a positive amount) and whose
-- hundredfold is finite. The text of an error is left out.
pub mod Balance
mod Tests
use text.Mathlib.Text.{◌==◌ as str_eq}
use fde_assessment.Base.{
  ℕ, ◌-◌, String, Bool, true, false, ◌||◌, Option, none, some, List, [], ◌∷◌, ◌++◌, length,
  if◌then◌else◌, ltb, ◌==◌,
}

pub record Money (F : Type 0) : Type 0 where
  -- `a > b`
  pub exceeds : F → F → Bool
  -- `round(x * 100)`
  pub cents : F → ℕ
  -- `n / 100`
  pub of_cents : ℕ → F

pub record Receipt (F : Type 0) : Type 0 where
  pub refund_id : String
  pub customer_id : String
  pub amount : F
  pub reason : String
  pub status : String
  pub created_at : String
  pub remaining : F

pub record Customer (F : Type 0) : Type 0 where
  pub customer_id : String
  pub name : String
  pub email : String
  pub plan : String
  pub status : String
  pub refundable_balance : F
  pub refunds : List (Receipt F)

pub record Profile (F : Type 0) : Type 0 where
  pub customer_id : String
  pub name : String
  pub email : String
  pub plan : String
  pub status : String
  pub refundable_balance : F
  pub refund_count : ℕ

-- what a refund comes to: a receipt, or one of the three exceptions
pub data Refunded (F : Type 0) : Type 0 where
  accepted : Receipt F → Refunded F
  not_found : Refunded F
  exceeds_balance : Refunded F
  too_small : Refunded F

-- a call of `refund`, with what `uuid4` and the clock give it
pub record Order (F : Type 0) : Type 0 where
  pub customer : String
  pub amount : F
  pub reason : String
  pub fresh_id : String
  pub clock : String

module _ {F : Type 0} where
  -- `self._customers.get(customer_id)`
  abbrev pub find : String → List (String × Customer F) → Option (Customer F)
  find k [] = none
  find k ((j, c) ∷ rest) = if str_eq j k then some c else find k rest

  -- the customer found under a key is changed in place
  unfoldable pub update :
      String → Customer F → List (String × Customer F) → List (String × Customer F)
  update k new [] = []
  update k new ((j, c) ∷ rest) = if str_eq j k then (j, new) ∷ rest else (j, c) ∷ update k new rest

module _ {F : Type 0} (money : Money F) where
  -- `CustomerStore.get`; `round(balance, 2)` is the balance at its whole cents
  unfoldable pub get : List (String × Customer F) → String → Option (Profile F)
  get customers k = elim (find k customers) [
    | none ↦ none
    | some c ↦ some (record {
      customer_id = c.customer_id;
      name = c.name;
      email = c.email;
      plan = c.plan;
      status = c.status;
      refundable_balance = money.of_cents (money.cents c.refundable_balance);
      refund_count = length c.refunds;
    })
  ]

  abbrev pub receipt_for : Order F → Customer F → Receipt F
  receipt_for o c =
      let charged = money.cents o.amount in
      record {
        refund_id = o.fresh_id;
        customer_id = o.customer;
        amount = money.of_cents charged;
        reason = o.reason;
        status = "accepted";
        created_at = o.clock;
        remaining = money.of_cents (money.cents c.refundable_balance - charged);
      }

  abbrev pub charge : Receipt F → Customer F → Customer F
  charge r c = record {
    customer_id = c.customer_id;
    name = c.name;
    email = c.email;
    plan = c.plan;
    status = c.status;
    refundable_balance = r.remaining;
    refunds = c.refunds ++ r ∷ [];
  }

  -- `refund`, once the customer is found
  unfoldable pub refund_customer : Order F → Customer F → Refunded F × Customer F
  refund_customer o c =
      if money.exceeds o.amount c.refundable_balance
        || ltb (money.cents c.refundable_balance) (money.cents o.amount)
      then (exceeds_balance, c)
      else if money.cents o.amount == 0
      then (too_small, c)
      else (accepted (receipt_for o c), charge (receipt_for o c) c)

  -- `refund`, on what the look-up gives
  unfoldable pub refund_found :
      Order F
      → Option (Customer F)
      → List (String × Customer F)
      → Refunded F × List (String × Customer F)
  unfolding refund_customer update
  refund_found o none customers = (not_found, customers)
  refund_found o (some c) customers =
      let (end, c') = refund_customer o c in (end, update o.customer c' customers)

  -- `CustomerStore.refund`
  unfoldable pub refund :
      Order F → List (String × Customer F) → Refunded F × List (String × Customer F)
  unfolding refund_found
  refund o customers = refund_found o (find o.customer customers) customers
