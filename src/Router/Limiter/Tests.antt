-- ===== src/Router/Limiter/Tests.antt =====
-- The limiter on concrete rows, and the theorems at inputs that meet their hypotheses.
use fde_assessment.Base.{ℕ, ◌+◌, ◌≤◌, ◌<◌, ◌≡◌, ◌≢◌, refl, String, true, [], ◌∷◌, arith, eq_iff}
use fde_assessment.Base.Int.{pos}
use fde_assessment.Router.Limiter.{
  Row, Table, Limits, sum_where, evict, delete_row, try_reserve, reserve_transaction, insert_row,
  retry_after, first_covering, earliest, settle, charge_for, usage, row_count,
}
use fde_assessment.Router.Limiter.Reserve.{held, held_row, admitted, usage-try_reserve}
use fde_assessment.Router.Limiter.Retry.{hint, fits_after_hint, refused_at_hint}
use fde_assessment.Router.Limiter.Window.{
  Books, Step, Reach, here, next, reserving, settling, reserve_at, settle_at, opening, spent,
  every_window_within_limit, usage_of_ledger,
}

abbrev limits : Limits
limits = record { default_limit = 100; window_ms = 60 }

abbrev row : ℕ → String → ℕ → ℕ → Row
row i tenant created n = record {
  id = i;
  tenant_key = tenant;
  created_ms = created;
  tokens = n;
  settled = true;
}

-- one row is expired at 100, and `a` has used 90 of 100 tokens
abbrev busy : Table
busy = row 1 "a" 10 70 ∷ row 2 "a" 50 40 ∷ row 3 "b" 60 20 ∷ row 4 "a" 70 50 ∷ []

refusal_hint : hint limits 100 101 "a" 30 busy ≡ 9
unfolding retry_after first_covering earliest sum_where usage
refusal_hint = refl

refusal_evicts : row_count (try_reserve limits 100 101 9 "a" 30 busy).1 ≡ 3
unfolding try_reserve reserve_transaction retry_after first_covering earliest evict sum_where
    row_count insert_row
refusal_evicts = refl

usage-busy : usage limits 100 "a" busy ≡ 90
unfolding usage sum_where
usage-busy = refl

-- a request that outlived its window is recorded again, at the clock of the settlement
late_settlement :
    settle limits 200 (record { id = 9; tenant_key = "a"; tokens = 30 }) (pos 12) []
    ≡ (12, record { id = 9; tenant_key = "a"; created_ms = 200; tokens = 12; settled = true } ∷ [])
unfolding settle charge_for delete_row
late_settlement = refl

usage_grows_test :
    let (d, rows') = try_reserve limits 100 101 9 "b" 30 busy in
    usage limits 100 "a" rows' ≡ usage limits 100 "a" busy + usage limits 100 "a" (admitted 100 d)
usage_grows_test = usage-try_reserve limits 100 101 9 "b" 30 busy "a"

a_not_b : ◌≢◌ {A = String} "a" "b"
a_not_b = ground (arith, eq_iff "a" "b")

fits_after_a_hint_test :
    usage limits (101 + hint limits 100 101 "a" 30 busy + 1) "a" busy + 30 ≤ 100
fits_after_a_hint_test =
    fits_after_hint limits 100 101 "a" 30 busy (omega arith) (unfold usage sum_where in omega arith)

refused_at_a_hint_test : 100 < usage limits (101 + hint limits 100 101 "a" 30 busy) "a" busy + 30
refused_at_a_hint_test =
    refused_at_hint limits 100 101 "a" 30 busy (omega arith) (unfold usage sum_where in omega arith)
      (rw refusal_hint (omega arith))

-- a reservation, its settlement below the hold, and one more reservation
abbrev first : Books
first = reserve_at limits 5 5 1 "a" 60 opening

abbrev second : Books
second = settle_at limits 20 (held 5 1 "a" 60) (pos 25) first

abbrev third : Books
third = reserve_at limits 30 30 2 "a" 70 second

first_rows :
    first ≡ record { clock = 5; rows = held_row 5 1 "a" 60 ∷ []; ledger = held_row 5 1 "a" 60 ∷ [] }
unfolding reserve_at try_reserve reserve_transaction evict sum_where insert_row
first_rows = refl

run : Reach limits opening third
run =
    next (next (next here (reserving opening 5 5 1 "a" 60 (omega arith))) settled)
      (reserving second 30 30 2 "a" 70 (unfold reserve_at settle_at in omega arith))
  where
    settled : Step limits first second
    settled =
        settling first 20 (held 5 1 "a" 60) (pos 25) (rw first_rows (omega arith)) (rw first_rows)
          (rw first_rows ((λ e. unfold charge_for in omega arith), tt))

every_window_within_limit_example : spent limits "a" 0 third.ledger ≤ 100
every_window_within_limit_example = every_window_within_limit limits "a" 0 run

usage_of_a_ledger_test : usage limits 90 "a" third.rows ≡ usage limits 90 "a" third.ledger
usage_of_a_ledger_test = usage_of_ledger limits "a" 90 run (unfold reserve_at in omega arith)
