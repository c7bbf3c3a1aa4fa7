-- ===== src/Router/Limiter/Settle.antt =====
-- What a settlement records: `_settle_sync` of limiter.py.
use fde_assessment.Base.{
  ℕ, ◌+◌, ◌-◌, ◌*◌, ◌≤◌, ◌<◌, max, String, ◌≡◌, refl, true, false, [], ◌∷◌, ◌++◌, arith, All, inl,
  inr, Bool-cases, ◌⊎◌, ◌∙◌,
}
use mathlib.Core.List.{append-nil}
use text.Mathlib.TextPositions.{eq_refl}
use fde_assessment.Base.Int.{ℤ, pos_part}
use fde_assessment.Router.Limiter.{
  Row, Table, Limits, Reservation, sum_where, evict, eviction_batch, has_id, delete_row, update_row,
  try_reserve, charge_for, settle, release, usage,
}
use fde_assessment.Router.Limiter.Usage.{
  sum_where-append, delete_row_absent, delete_row-append, has_id-evict, has_id-append,
  has_id-update_row,
}
use fde_assessment.Router.Limiter.Reserve.{held, used_now-evicted, try_reserve_allows, held_row}

-- the rows with this id are settled at this charge
abbrev pub IsSettledAt : ℕ → ℕ → Table → Type 0
IsSettledAt i charged rows =
    All (λ (row : Row). row.id ≡ i → (row.tokens ≡ charged) × (row.settled ≡ true)) rows

update_row-IsSettledAt : (i n : ℕ) (rows : Table) → IsSettledAt i n (update_row i n rows)
unfolding update_row
update_row-IsSettledAt i n [] = tt
update_row-IsSettledAt i n (r ∷ rs) = ((λ e. ground arith), update_row-IsSettledAt i n rs)

delete_row-update_row :
    (i n : ℕ) (rows : Table) → delete_row i (update_row i n rows) ≡ delete_row i rows
unfolding delete_row update_row
delete_row-update_row i n [] = refl
delete_row-update_row i n (r ∷ rs) = ground (arith, delete_row-update_row i n rs)

-- the row that a late settlement inserts
abbrev late_row : Limits → ℕ → Reservation → ℤ → Row
late_row l now r actual = record {
  id = r.id;
  tenant_key = r.tenant_key;
  created_ms = now;
  tokens = charge_for l r actual;
  settled = true;
}

IsSettledAt-append :
    (l : Limits) (now : ℕ) (r : Reservation) (actual : ℤ) (xs : Table)
    → has_id r.id xs ≡ false
    → IsSettledAt r.id (charge_for l r actual) (xs ++ late_row l now r actual ∷ [])
IsSettledAt-append l now r actual [] h = ((λ e. (refl, refl)), tt)
IsSettledAt-append l now r actual (x ∷ xs) h =
    ((λ e. ground arith), IsSettledAt-append l now r actual xs (ground arith))

delete_row-late_row :
    (l : Limits) (now : ℕ) (r : Reservation) (actual : ℤ)
    → delete_row r.id (late_row l now r actual ∷ []) ≡ []
unfolding delete_row
delete_row-late_row l now r actual = ground arith

-- Whatever the rows, a settlement leaves a row under the reservation's id, every row under that id
-- is settled at exactly the charge that is returned, and all other rows are as they were.
pub settle_exact :
    (l : Limits) (now : ℕ) (r : Reservation) (actual : ℤ) (rows : Table)
    → let (charged, rows') = settle l now r actual rows in
      (has_id r.id rows' ≡ true)
      × IsSettledAt r.id charged rows'
      × (delete_row r.id rows' ≡ delete_row r.id rows)
unfolding settle
settle_exact l now r actual rows = elim (Bool-cases (has_id r.id rows)) [
  | inl there ↦ rw there (
    has_id-update_row r.id r.id (charge_for l r actual) rows ∙ there,
    update_row-IsSettledAt r.id (charge_for l r actual) rows,
    delete_row-update_row r.id (charge_for l r actual) rows,
  )
  | inr gone ↦
      let same = delete_row_absent r.id rows gone in
      rw (gone, same)
        (
          rw (has_id-append r.id rows) (ground arith),
          IsSettledAt-append l now r actual rows gone,
          rw (delete_row-append, same, delete_row-late_row l now r actual, append-nil),
        )
]

-- The charge is never over twice the limit or the reservation, whichever is more, and never over
-- the report; it is the report itself, also above the reservation, unless that is over the ceiling.
pub charge_for_bounds :
    (l : Limits) (r : Reservation) (actual : ℤ)
    → let ceiling = max (l.default_limit * 2) r.tokens in
      (charge_for l r actual ≤ ceiling)
      × (charge_for l r actual ≤ pos_part actual)
      × ((charge_for l r actual ≡ pos_part actual) ⊎ (ceiling < pos_part actual))
unfolding charge_for
charge_for_bounds l r actual = (omega arith, omega arith, ground arith)

update_row_last :
    (i n : ℕ) (xs : Table) (r : Row)
    → has_id i xs ≡ false
    → r.id ≡ i
    → update_row i n (xs ++ r ∷ []) ≡ xs ++ record r { tokens = n; settled = true } ∷ []
unfolding update_row
update_row_last i n [] r h e = ground arith
update_row_last i n (x ∷ xs) r h e = ground (arith, update_row_last i n xs r)

-- a settlement of the row that was appended last
pub settle_appended :
    (l : Limits) (now : ℕ) (r : Reservation) (actual : ℤ) (row : Row) (xs : Table)
    → row.id ≡ r.id
    → has_id r.id xs ≡ false
    → ((settle l now r actual (xs ++ row ∷ [])).0 ≡ charge_for l r actual)
      × ((settle l now r actual (xs ++ row ∷ [])).1
          ≡ xs ++ record row { tokens = charge_for l r actual; settled = true } ∷ [])
unfolding settle
settle_appended l now r actual row xs e gone =
    let there : has_id r.id (xs ++ row ∷ []) ≡ true =
      rw (has_id-append r.id xs (row ∷ [])) (ground arith) in
    rw there (refl, update_row_last r.id (charge_for l r actual) xs row gone e)

-- A request that was admitted under an unused id and settled while its row was there: the tenant's
-- usage has grown by the charge, and by nothing else.
pub usage-settle-try_reserve :
    (l : Limits) (now later fresh : ℕ) (tenant : String) (tokens : ℕ) (actual : ℤ) (rows : Table)
    → has_id fresh rows ≡ false
    → usage l now tenant rows + tokens ≤ l.default_limit
    → let reserved = (try_reserve l now later fresh tenant tokens rows).1 in
      let (charged, rows') = settle l now (held now fresh tenant tokens) actual reserved in
      usage l now tenant rows' ≡ usage l now tenant rows + charged
unfolding usage
usage-settle-try_reserve l now later fresh tenant tokens actual rows free fits =
    let gone = has_id-evict fresh (now - l.window_ms) eviction_batch rows free in
    let (there, moved) =
      settle_appended l now (held now fresh tenant tokens) actual (held_row now fresh tenant tokens)
        (evict (now - l.window_ms) eviction_batch rows) refl gone in
    rw
      (
        try_reserve_allows l now later fresh tenant tokens rows free fits,
        there,
        moved,
        sum_where-append,
        used_now-evicted l now later fresh tenant tokens rows tenant,
      )
      (unfold sum_where in ground (arith, eq_refl tenant))

pub release_appended :
    (r : Reservation) (row : Row) (xs : Table)
    → row.id ≡ r.id
    → has_id r.id xs ≡ false
    → release r (xs ++ row ∷ []) ≡ xs
unfolding release
release_appended r row xs e gone =
    rw (delete_row-append, delete_row_absent r.id xs gone)
      (unfold delete_row in ground (arith, append-nil xs))
