-- ===== src/Router/Limiter/Usage.antt =====
-- How each SQL statement of limiter.py changes a sum over the rows.
use fde_assessment.Base.{
  ℕ, zero, suc, ◌+◌, ◌≤◌, ◌≡◌, refl, Bool, true, false, ◌||◌, [], ◌∷◌, ◌++◌, arith, if◌then◌else◌,
}
use fde_assessment.Router.Limiter.{Row, Table, sum_where, evict, has_id, delete_row, update_row}

pub sum_where-append :
    (p : Row → Bool) (xs ys : Table) → sum_where p (xs ++ ys) ≡ sum_where p xs + sum_where p ys
unfolding sum_where
sum_where-append p [] ys = omega arith
sum_where-append p (x ∷ xs) ys = ground (arith, sum_where-append p xs ys)

-- A test that accepts only rows at or after the cutoff does not see the eviction.
pub sum_where-evict :
    (p : Row → Bool) (cutoff n : ℕ) (rows : Table)
    → ((r : Row) → p r ≡ true → cutoff ≤ r.created_ms)
    → sum_where p (evict cutoff n rows) ≡ sum_where p rows
unfolding sum_where evict
sum_where-evict p cutoff zero [] fits = refl
sum_where-evict p cutoff (suc n) [] fits = refl
sum_where-evict p cutoff zero (r ∷ rs) fits = refl
sum_where-evict p cutoff (suc n) (r ∷ rs) fits =
    ground
      (arith, fits r, sum_where-evict p cutoff n rs fits, sum_where-evict p cutoff (suc n) rs fits)

pub sum_where-delete_row :
    (p : Row → Bool) (i : ℕ) (rows : Table) → sum_where p (delete_row i rows) ≤ sum_where p rows
unfolding sum_where delete_row
sum_where-delete_row p i [] = omega arith
sum_where-delete_row p i (r ∷ rs) = ground (arith, sum_where-delete_row p i rs)

-- A narrower test sums to no more.
pub sum_where_mono :
    (p q : Row → Bool) (rows : Table)
    → ((r : Row) → p r ≡ true → q r ≡ true)
    → sum_where p rows ≤ sum_where q rows
unfolding sum_where
sum_where_mono p q [] h = omega arith
sum_where_mono p q (r ∷ rs) h = ground (arith, h r, sum_where_mono p q rs h)

-- Two tests that never both accept share the sum of a test that accepts what one of them accepts.
pub sum_where_split :
    (p q s : Row → Bool) (rows : Table)
    → ((r : Row) → (if p r then 1 else 0) + (if q r then 1 else 0) ≡ (if s r then 1 else 0))
    → sum_where p rows + sum_where q rows ≡ sum_where s rows
unfolding sum_where
sum_where_split p q s [] h = omega arith
sum_where_split p q s (r ∷ rs) h = ground (arith, h r, sum_where_split p q s rs h)

pub delete_row-append :
    (i : ℕ) (xs ys : Table) → delete_row i (xs ++ ys) ≡ delete_row i xs ++ delete_row i ys
unfolding delete_row
delete_row-append i [] ys = refl
delete_row-append i (x ∷ xs) ys = ground (arith, delete_row-append i xs ys)

pub delete_row_absent : (i : ℕ) (rows : Table) → has_id i rows ≡ false → delete_row i rows ≡ rows
unfolding delete_row
delete_row_absent i [] h = refl
delete_row_absent i (r ∷ rs) h = ground (arith, delete_row_absent i rs)

pub has_id-evict :
    (i cutoff n : ℕ) (rows : Table) → has_id i rows ≡ false → has_id i (evict cutoff n rows) ≡ false
unfolding evict
has_id-evict i cutoff zero [] h = refl
has_id-evict i cutoff (suc n) [] h = refl
has_id-evict i cutoff zero (r ∷ rs) h = h
has_id-evict i cutoff (suc n) (r ∷ rs) h =
    ground (arith, has_id-evict i cutoff n rs, has_id-evict i cutoff (suc n) rs)

pub has_id-append : (i : ℕ) (xs ys : Table) → has_id i (xs ++ ys) ≡ (has_id i xs || has_id i ys)
has_id-append i [] ys = refl
has_id-append i (x ∷ xs) ys = ground (arith, has_id-append i xs ys)

pub has_id-delete_row : (i : ℕ) (rows : Table) → has_id i (delete_row i rows) ≡ false
unfolding delete_row
has_id-delete_row i [] = refl
has_id-delete_row i (r ∷ rs) = ground (arith, has_id-delete_row i rs)

pub has_id-update_row : (j i n : ℕ) (rows : Table) → has_id j (update_row i n rows) ≡ has_id j rows
unfolding update_row
has_id-update_row j i n [] = refl
has_id-update_row j i n (r ∷ rs) = ground (arith, has_id-update_row j i n rs)
