-- ===== src/Router/Limiter.antt =====
-- The sliding-window limiter of task4_model_router/limiter.py.
-- The table `token_usage` is a list of rows in the order in which the engine scans them; each SQL
-- statement is the function on rows that its text describes. Times are wall-clock milliseconds,
-- and a call of `_now_ms` or `uuid4` is an argument. A cutoff below 0 would select what 0 selects,
-- so `now - window` on ℕ loses nothing. Waiting times are milliseconds, where the source divides
-- by 1000.0 at the end.
pub mod Usage
pub mod Reserve
pub mod Window
pub mod Settle
pub mod Retry
pub mod Evict
mod Tests
use fde_assessment.Base.{
  ℕ, zero, suc, ◌+◌, ◌-◌, ◌*◌, min, max, String, Bool, true, false, ◌&&◌, ◌||◌, Option, none, some,
  List, [], ◌∷◌, ◌++◌, ltb, leb, ◌==◌, if◌then◌else◌, length, any,
}
use fde_assessment.Base.Int.{ℤ, pos_part}
use text.Mathlib.Text.{◌==◌ as str_eq}

pub record Row : Type 0 where
  pub id : ℕ
  pub tenant_key : String
  pub created_ms : ℕ
  pub tokens : ℕ
  pub settled : Bool

abbrev pub Table : Type 0
Table = List Row

pub record Limits : Type 0 where
  pub default_limit : ℕ
  pub window_ms : ℕ

abbrev pub max_charge_multiple : ℕ
max_charge_multiple = 2

abbrev pub eviction_batch : ℕ
eviction_batch = 1000

pub record Reservation : Type 0 where
  pub id : ℕ
  pub tenant_key : String
  pub tokens : ℕ

pub record LimitDecision : Type 0 where
  pub allowed : Bool
  pub reservation : Option Reservation
  pub used_in_window : ℕ
  pub limit : ℕ
  pub requested : ℕ
  pub retry_after_ms : ℕ

-- SELECT COALESCE(SUM(tokens), 0) … WHERE p
unfoldable pub sum_where : (Row → Bool) → Table → ℕ
sum_where p [] = 0
sum_where p (r ∷ rs) = (if p r then r.tokens else 0) + sum_where p rs

-- tenant_key = ? AND created_ms >= ?
abbrev pub in_window : String → ℕ → Row → Bool
in_window tenant cutoff r = str_eq r.tenant_key tenant && leb cutoff r.created_ms

abbrev pub used_since : String → ℕ → Table → ℕ
used_since tenant cutoff rows = sum_where (in_window tenant cutoff) rows

-- DELETE … WHERE id IN (SELECT id … WHERE created_ms < ? LIMIT ?)
unfoldable pub evict : ℕ → ℕ → Table → Table
evict cutoff n [] = []
evict cutoff zero (r ∷ rs) = r ∷ rs
evict cutoff (suc n) (r ∷ rs) = elim (ltb r.created_ms cutoff) [
  | true ↦ evict cutoff n rs
  | false ↦ r ∷ evict cutoff (suc n) rs
]

abbrev pub has_id : ℕ → Table → Bool
has_id i rows = any (λ r. r.id == i) rows

-- INSERT INTO …; `none` is the IntegrityError of the primary key
unfoldable pub insert_row : Row → Table → Option Table
insert_row r rows = if has_id r.id rows then none else some (rows ++ r ∷ [])

-- DELETE … WHERE id = ?
unfoldable pub delete_row : ℕ → Table → Table
delete_row i [] = []
delete_row i (r ∷ rs) = let rest = delete_row i rs in if r.id == i then rest else r ∷ rest

-- UPDATE … SET tokens = ?, settled = 1 WHERE id = ?
unfoldable pub update_row : ℕ → ℕ → Table → Table
update_row i charged [] = []
update_row i charged (r ∷ rs) =
    (if r.id == i then record r { tokens = charged; settled = true } else r)
    ∷ update_row i charged rs

-- SUM(tokens) OVER (ORDER BY created_ms), at a row created at `at`: the rows up to it, with peers
abbrev pub running : String → ℕ → ℕ → Table → ℕ
running tenant cutoff at rows =
    sum_where (λ r. in_window tenant cutoff r && leb r.created_ms at) rows

unfoldable pub earliest : Option ℕ → Option ℕ → Option ℕ
earliest none o = o
earliest (some a) none = some a
earliest (some a) (some b) = some (min a b)

-- the rows of the windowed query, in the order of `created_ms`: the first whose `running` covers
unfoldable pub first_covering : String → ℕ → ℕ → Table → Table → Option ℕ
first_covering tenant cutoff deficit rows [] = none
first_covering tenant cutoff deficit rows (r ∷ rs) =
    earliest
      (if in_window tenant cutoff r && leb deficit (running tenant cutoff r.created_ms rows)
        then some r.created_ms
        else none)
      (first_covering tenant cutoff deficit rows rs)

-- `_retry_after_sync`
unfoldable pub retry_after : Limits → ℕ → String → ℕ → ℕ → ℕ → ℕ → Table → ℕ
retry_after l now tenant cutoff used tokens limit rows =
    if leb (used + tokens) limit
    then 0
    else if ltb limit tokens
    then l.window_ms
    else elim (first_covering tenant cutoff (used + tokens - limit) rows rows) [
      | none ↦ l.window_ms
      | some created ↦ created + l.window_ms - now
    ]

-- The transaction of `_try_reserve_sync`. A decision of `none` is the exception of the INSERT,
-- after which the ROLLBACK leaves the rows as they were. `later` is the clock of the refusal.
unfoldable pub reserve_transaction :
    Limits → ℕ → ℕ → ℕ → String → ℕ → Table → Option LimitDecision × Table
reserve_transaction l now later fresh tenant tokens rows =
    let cutoff = now - l.window_ms in
    let limit = l.default_limit in
    let used = used_since tenant cutoff rows in
    if ltb limit (used + tokens)
    then (
      some (record {
        allowed = false;
        reservation = none;
        used_in_window = used;
        limit = limit;
        requested = tokens;
        retry_after_ms = retry_after l later tenant cutoff used tokens limit rows;
      }),
      rows,
    )
    else elim (insert_row
        (record {
          id = fresh;
          tenant_key = tenant;
          created_ms = now;
          tokens = tokens;
          settled = false;
        })
        rows) [
          | none ↦ (none, rows)
          | some rows' ↦ (
            some (record {
              allowed = true;
              reservation = some (record { id = fresh; tenant_key = tenant; tokens = tokens });
              used_in_window = used + tokens;
              limit = limit;
              requested = tokens;
              retry_after_ms = 0;
            }),
            rows',
          )
        ]

-- `_try_reserve_sync`: the eviction commits by itself, then the transaction runs
unfoldable pub try_reserve : Limits → ℕ → ℕ → ℕ → String → ℕ → Table → Option LimitDecision × Table
try_reserve l now later fresh tenant tokens rows =
    reserve_transaction l now later fresh tenant tokens
      (evict (now - l.window_ms) eviction_batch rows)

-- what `_settle_sync` charges; a negative report counts as 0
unfoldable pub charge_for : Limits → Reservation → ℤ → ℕ
charge_for l r actual = min (pos_part actual) (max (l.default_limit * max_charge_multiple) r.tokens)

-- `_settle_sync`; its second part is INSERT OR REPLACE
unfoldable pub settle : Limits → ℕ → Reservation → ℤ → Table → ℕ × Table
settle l now r actual rows =
    let charged = charge_for l r actual in
    if has_id r.id rows then (charged, update_row r.id charged rows) else (
      charged,
      delete_row r.id rows
          ++ (record {
            id = r.id;
            tenant_key = r.tenant_key;
            created_ms = now;
            tokens = charged;
            settled = true;
          })
            ∷ [],
    )

-- `_release_sync`
unfoldable pub release : Reservation → Table → Table
release r rows = delete_row r.id rows

-- `_usage_sync`
unfoldable pub usage : Limits → ℕ → String → Table → ℕ
usage l now tenant rows = used_since tenant (now - l.window_ms) rows

-- `_row_count_sync`
unfoldable pub row_count : Table → ℕ
row_count rows = length rows
