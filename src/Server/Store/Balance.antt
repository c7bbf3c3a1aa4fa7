-- ===== src/Server/Store/Balance.antt =====
-- No refund moves money that is not there: task1_mcp_server/store.py.
use text.Mathlib.Text.{◌==◌ as str_eq}
use fde_assessment.Base.{
  ℕ, ◌+◌, ◌-◌, ◌≤◌, ◌<◌, String, ◌≡◌, ◌∙◌, refl, sym, ap, ◌||◌, none, some, List, [], ◌∷◌, ◌++◌,
  if◌then◌else◌, ltb, ◌==◌, arith, eq_iff, Bool-cases, Option-cases, inl, inr,
}
use fde_assessment.Server.Store.{
  Money, Receipt, Customer, accepted, not_found, Order, find, update, receipt_for, charge,
  refund_customer, refund_found, refund,
}

module _ {F : Type 0} where
  find-update :
      (k j : String) (new old : Customer F) (customers : List (String × Customer F))
      → find k customers ≡ some old
      → find j (update k new customers) ≡ (if str_eq k j then some new else find j customers)
  unfolding update
  find-update k j new old [] there = absurd (cc)
  find-update k j new old ((i, c) ∷ rest) there =
      ground (arith, eq_iff i k, eq_iff k j, eq_iff i j, find-update k j new old rest)

module _ {F : Type 0} (money : Money F) where
  -- the cents that a refund's receipts say were paid to a customer
  abbrev pub paid : List (Receipt F) → ℕ
  paid [] = 0
  paid (r ∷ rs) = money.cents r.amount + paid rs

  -- what is left and what was paid, in cents
  abbrev pub worth : Customer F → ℕ
  worth c = money.cents c.refundable_balance + paid c.refunds

  paid-append :
      (rs : List (Receipt F)) (r : Receipt F) → paid (rs ++ r ∷ []) ≡ paid rs + money.cents r.amount
  paid-append [] r = omega arith
  paid-append (s ∷ rs) r = omega (arith, paid-append rs r)

  refund_customer-worth :
      (bound : ℕ) (o : Order F) (c : Customer F)
      → ((n : ℕ) → n ≤ bound → money.cents (money.of_cents n) ≡ n)
      → worth c ≤ bound
      → worth (refund_customer money o c).1 ≡ worth c
  unfolding refund_customer
  refund_customer-worth bound o c exact small =
      elim (Bool-cases (
        money.exceeds o.amount c.refundable_balance
        || ltb (money.cents c.refundable_balance) (money.cents o.amount))) [
          | inl over ↦ rw over
          | inr within ↦ elim (Bool-cases (money.cents o.amount == 0)) [
            | inl nothing ↦ rw (within, nothing)
            | inr something ↦
                let room : money.cents o.amount ≤ money.cents c.refundable_balance = ground arith in
                let left =
                  exact (money.cents c.refundable_balance - money.cents o.amount) (omega arith) in
                let taken = exact (money.cents o.amount) (omega arith) in
                let total = paid-append c.refunds (receipt_for money o c) in
                rw (within, something, left, total, taken) (omega arith)
          ]
        ]

  refund-some :
      (o : Order F) (c : Customer F) (customers : List (String × Customer F))
      → find o.customer customers ≡ some c
      → refund money o customers
        ≡ ((refund_customer money o c).0, update o.customer (refund_customer money o c).1 customers)
  unfolding refund refund_found
  refund-some o c customers found = ap (λ f. refund_found money o f customers) found

  refund-none :
      (o : Order F) (customers : List (String × Customer F))
      → find o.customer customers ≡ none
      → refund money o customers ≡ (not_found, customers)
  unfolding refund refund_found
  refund-none o customers missing = ap (λ f. refund_found money o f customers) missing

  refund-worth :
      (bound : ℕ) (o : Order F) (k : String) (c : Customer F)
      (customers : List (String × Customer F))
      → ((n : ℕ) → n ≤ bound → money.cents (money.of_cents n) ≡ n)
      → find k customers ≡ some c
      → worth c ≤ bound
      → (c' : Customer F) × (find k (refund money o customers).1 ≡ some c') × (worth c' ≡ worth c)
  refund-worth bound o k c customers exact there small =
      elim (Option-cases (find o.customer customers)) [
        | inl missing ↦ (c, ap (λ x. find k x.1) (refund-none o customers missing) ∙ there, refl)
        | inr (d, found) ↦
            let after = (refund_customer money o d).1 in
            let step : find k (refund money o customers).1
                ≡ (if str_eq o.customer k then some after else find k customers) =
              ap (λ x. find k x.1) (refund-some o d customers found)
              ∙ find-update o.customer k after d customers found in
            elim (Bool-cases (str_eq o.customer k)) [
              | inr other ↦ (c, rw (step, other, there), refl)
              | inl same ↦
                  let name : o.customer ≡ k = (eq_iff o.customer k).0 same in
                  let equal : d ≡ c = cc in
                  (after, rw (step, same), rw equal (refund_customer-worth bound o c exact small))
            ]
      ]

  -- a sequence of refunds
  abbrev pub refund_all : List (Order F) → List (String × Customer F) → List (String × Customer F)
  refund_all [] customers = customers
  refund_all (o ∷ orders) customers = refund_all orders (refund money o customers).1

  -- Where whole cents up to a customer's balance and past refunds survive the conversion to a float
  -- and back, every sequence of refunds leaves that customer's balance and receipts with the same
  -- sum in cents: the receipts say what left the balance, and never more than there was.
  pub refunds_conserve :
      (bound : ℕ) (orders : List (Order F)) (k : String) (c : Customer F)
      (customers : List (String × Customer F))
      → ((n : ℕ) → n ≤ bound → money.cents (money.of_cents n) ≡ n)
      → find k customers ≡ some c
      → worth c ≤ bound
      → (c' : Customer F) × (find k (refund_all orders customers) ≡ some c') × (worth c' ≡ worth c)
  refunds_conserve bound [] k c customers exact there small = (c, there, refl)
  refunds_conserve bound (o ∷ orders) k c customers exact there small =
      let (d, found, kept) = refund-worth bound o k c customers exact there small in
      let (e, found', kept') =
        refunds_conserve bound orders k d (refund money o customers).1 exact found (omega arith) in
      (e, found', kept' ∙ kept)

  accepted_customer :
      (o : Order F) (c : Customer F) (r : Receipt F)
      → (refund_customer money o c).0 ≡ accepted r
      → (0 < money.cents o.amount)
        × (money.cents o.amount ≤ money.cents c.refundable_balance)
        × (r ≡ receipt_for money o c)
        × ((refund_customer money o c).1 ≡ charge money r c)
  unfolding refund_customer
  accepted_customer o c r e =
      elim (Bool-cases (
        money.exceeds o.amount c.refundable_balance
        || ltb (money.cents c.refundable_balance) (money.cents o.amount))) [
          | inl over ↦ absurd (ground arith)
          | inr within ↦ elim (Bool-cases (money.cents o.amount == 0)) [
            | inl nothing ↦ absurd (ground arith)
            | inr something ↦
                let made : accepted (receipt_for money o c) ≡ accepted r = ground arith in
                let same : receipt_for money o c ≡ r = cc in
                (
                  ground arith,
                  ground arith,
                  sym same,
                  rw (within, something) (ap (λ x. charge money x c) same),
                )
          ]
        ]

  -- A refund that is accepted moves a positive number of cents, at most the balance; the receipt's
  -- amount is those cents, and its remaining balance is the customer's balance afterwards, which is
  -- smaller by those cents, where whole cents up to the balance survive the conversion to a float
  -- and back.
  pub receipt_is_ledger :
      (o : Order F) (c : Customer F) (customers : List (String × Customer F)) (r : Receipt F)
      → ((n : ℕ) → n ≤ money.cents c.refundable_balance → money.cents (money.of_cents n) ≡ n)
      → find o.customer customers ≡ some c
      → (refund money o customers).0 ≡ accepted r
      → (c' : Customer F) × (find o.customer (refund money o customers).1 ≡ some c')
        × (c'.refundable_balance ≡ r.remaining)
        × (money.cents c'.refundable_balance + money.cents r.amount
            ≡ money.cents c.refundable_balance)
        × (0 < money.cents r.amount)
  receipt_is_ledger o c customers r exact found e =
      let end : (refund_customer money o c).0 ≡ accepted r =
        sym (ap (λ x. x.0) (refund-some o c customers found)) ∙ e in
      let (positive, room, made, charged) = accepted_customer o c r end in
      let left = exact (money.cents c.refundable_balance - money.cents o.amount) (omega arith) in
      let taken = exact (money.cents o.amount) room in
      let step : find o.customer (refund money o customers).1 ≡ (
          if str_eq o.customer o.customer
          then some (refund_customer money o c).1
          else find o.customer customers) =
        ap (λ x. find o.customer x.1) (refund-some o c customers found)
        ∙ find-update o.customer o.customer (refund_customer money o c).1 c customers found in
      (
        charge money r c,
        rw (step, (eq_iff o.customer o.customer).1 refl, charged),
        refl,
        rw (made, left, taken) (omega arith),
        rw (made, taken) positive,
      )
