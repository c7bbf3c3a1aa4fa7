-- ===== src/Server/Store/Tests.antt =====
-- The store on concrete customers, and its theorems at inputs that meet their hypotheses. A float is
-- taken as a whole number of tenths of a cent, which rounds to cents.
use fde_assessment.Base.{ℕ, ◌+◌, ◌*◌, ◌/◌, String, ◌≡◌, refl, some, List, [], ◌∷◌, ltb, arith}
use fde_assessment.Server.Store.{
  Money, Customer, Order, too_small, exceeds_balance, not_found, find, refund,
}
use fde_assessment.Server.Store.Balance.{worth, refund_all, refunds_conserve}

abbrev tenths : Money ℕ
tenths = record { exceeds = λ a b. ltb b a; cents = λ x. (x + 5) / 10; of_cents = λ n. n * 10 }

abbrev ada : Customer ℕ
ada = record {
  customer_id = "CUST-00042";
  name = "Ada Lovelace";
  email = "ada@example.com";
  plan = "enterprise";
  status = "active";
  refundable_balance = 500_000;
  refunds = [];
}

abbrev customers : List (String × Customer ℕ)
customers = ("CUST-00042", ada) ∷ []

abbrev order : String → ℕ → Order ℕ
order who amount = record {
  customer = who;
  amount = amount;
  reason = "duplicate";
  fresh_id = "RFND-1";
  clock = "2024-01-01T00:00:00+00:00";
}

refund_too_small : (refund tenths (order "CUST-00042" 4) customers).0 ≡ too_small
unfolding refund
refund_too_small = refl

refund_too_large : (refund tenths (order "CUST-00042" 500_001) customers).0 ≡ exceeds_balance
unfolding refund
refund_too_large = refl

refund_of_nobody : (refund tenths (order "CUST-1" 4) customers).0 ≡ not_found
unfolding refund
refund_of_nobody = refl

-- the conversions of `tenths` keep whole cents
tenths_exact : (n : ℕ) → (n * 10 + 5) / 10 ≡ n
tenths_exact n = omega arith

refunds_conserve_example :
    (c : Customer ℕ) × (find "CUST-00042"
        (refund_all tenths (order "CUST-00042" 19_185 ∷ order "CUST-00042" 600_000 ∷ []) customers)
      ≡ some c)
    × (worth tenths c ≡ worth tenths ada)
refunds_conserve_example =
    refunds_conserve tenths 50_000 (order "CUST-00042" 19_185 ∷ order "CUST-00042" 600_000 ∷ [])
      "CUST-00042" ada customers (λ n small. tenths_exact n) refl (omega arith)
