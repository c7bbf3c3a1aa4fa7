-- ===== src/Router/Limiter/Window.antt =====
-- The limit over every window of time, whatever the order in which requests of limiter.py reserve,
-- settle and release. Each step is one call; the engine's write lock makes a reservation's check and
-- insert one step, and the clock of the calls does not run backwards.
use fde_assessment.Base.{
  ℕ, zero, suc, ◌+◌, ◌-◌, ◌≤◌, ◌<◌, String, ◌≡◌, refl, Bool, true, ◌&&◌, [], ◌∷◌, ◌++◌, arith, ltb,
  leb, ◌==◌, if◌then◌else◌, All, inl, inr, Bool-cases, eq_iff, ◌⊎◌,
}
use fde_assessment.Base.Int.{ℤ}
use fde_assessment.Router.Limiter.{
  Row, Table, Limits, Reservation, sum_where, in_window, used_since, running, evict, eviction_batch,
  has_id, delete_row, update_row, try_reserve, charge_for, settle, release, usage,
}
use fde_assessment.Router.Limiter.Usage.{sum_where-append, sum_where-delete_row, sum_where_mono}
use fde_assessment.Router.Limiter.Reserve.{
  held_row, admitted, try_reserve-append, try_reserve_admits,
}

-- The database, and a ledger of the same rows from which nothing is ever evicted.
pub record Books : Type 0 where
  pub clock : ℕ
  pub rows : Table
  pub ledger : Table

unfoldable pub reserve_at : Limits → ℕ → ℕ → ℕ → String → ℕ → Books → Books
reserve_at l now later fresh tenant tokens b =
    let (d, rows') = try_reserve l now later fresh tenant tokens b.rows in
    record { clock = now; rows = rows'; ledger = b.ledger ++ admitted now d }

unfoldable pub settle_at : Limits → ℕ → Reservation → ℤ → Books → Books
settle_at l now r actual b = record {
  clock = now;
  rows = (settle l now r actual b.rows).1;
  ledger = update_row r.id (charge_for l r actual) b.ledger;
}

unfoldable pub release_at : ℕ → Reservation → Books → Books
release_at now r b = record {
  clock = now;
  rows = release r b.rows;
  ledger = delete_row r.id b.ledger;
}

-- A settlement is covered if the row is still there and holds at least what is charged.
pub data Step (l : Limits) : Books → Books → Type 0 where
  reserving :
      (b : Books) (now later fresh : ℕ) (tenant : String) (tokens : ℕ)
      → b.clock ≤ now
      → Step l b (reserve_at l now later fresh tenant tokens b)
  settling :
      (b : Books) (now : ℕ) (r : Reservation) (actual : ℤ)
      → b.clock ≤ now
      → has_id r.id b.rows ≡ true
      → All (λ (row : Row). row.id ≡ r.id → charge_for l r actual ≤ row.tokens) b.ledger
      → Step l b (settle_at l now r actual b)
  releasing :
      (b : Books) (now : ℕ) (r : Reservation) → b.clock ≤ now → Step l b (release_at now r b)

pub data Reach (l : Limits) (a : Books) : Books → Type 0 where
  here : Reach l a a
  next : {b c : Books} → Reach l a b → Step l b c → Reach l a c

-- The rows are the ledger without some rows that were created before `k`.
pub data Thinned (k : ℕ) : Table → Table → Type 0 where
  nil : Thinned k [] []
  same : (r : Row) {rows ledger : Table} → Thinned k rows ledger → Thinned k (r ∷ rows) (r ∷ ledger)
  gone :
      (r : Row) {rows ledger : Table}
      → r.created_ms < k
      → Thinned k rows ledger
      → Thinned k rows (r ∷ ledger)

Thinned-mono :
    (j k : ℕ) → j ≤ k → {rows ledger : Table} → Thinned j rows ledger → Thinned k rows ledger
Thinned-mono j k h nil = nil
Thinned-mono j k h (same r t) = same r (Thinned-mono j k h t)
Thinned-mono j k h (gone r old t) = gone r (omega arith) (Thinned-mono j k h t)

Thinned-append :
    (k : ℕ) {rows ledger : Table} (more : Table)
    → Thinned k rows ledger
    → Thinned k (rows ++ more) (ledger ++ more)
Thinned-append k [] nil = nil
Thinned-append k (r ∷ more) nil = same r (Thinned-append k more nil)
Thinned-append k more (same r t) = same r (Thinned-append k more t)
Thinned-append k more (gone r old t) = gone r old (Thinned-append k more t)

Thinned-evict :
    (k n : ℕ) {rows ledger : Table} → Thinned k rows ledger → Thinned k (evict k n rows) ledger
unfolding evict
Thinned-evict k zero nil = nil
Thinned-evict k (suc n) nil = nil
Thinned-evict k zero (same r t) = same r t
Thinned-evict k (suc n) (same r t) = elim (Bool-cases (ltb r.created_ms k)) [
  | inl old ↦ rw (old, evict) (gone r (ground arith) (Thinned-evict k n t))
  | inr new ↦ rw (new, evict) (same r (Thinned-evict k (suc n) t))
]
Thinned-evict k n (gone r old t) = gone r old (Thinned-evict k n t)

Thinned-delete_row :
    (k i : ℕ) {rows ledger : Table}
    → Thinned k rows ledger
    → Thinned k (delete_row i rows) (delete_row i ledger)
unfolding delete_row
Thinned-delete_row k i nil = nil
Thinned-delete_row k i (same r t) = elim (Bool-cases (r.id == i)) [
  | inl hit ↦ rw hit (Thinned-delete_row k i t)
  | inr miss ↦ rw miss (same r (Thinned-delete_row k i t))
]
Thinned-delete_row k i (gone r old t) = elim (Bool-cases (r.id == i)) [
  | inl hit ↦ rw hit (Thinned-delete_row k i t)
  | inr miss ↦ rw miss (gone r old (Thinned-delete_row k i t))
]

Thinned-update_row :
    (k i n : ℕ) {rows ledger : Table}
    → Thinned k rows ledger
    → Thinned k (update_row i n rows) (update_row i n ledger)
unfolding update_row
Thinned-update_row k i n nil = nil
Thinned-update_row k i n (same r t) = same _ (Thinned-update_row k i n t)
Thinned-update_row k i n (gone r old t) =
    gone (if r.id == i then record r { tokens = n; settled = true } else r) (ground arith)
      (Thinned-update_row k i n t)

sum_where-Thinned :
    (k : ℕ) (p : Row → Bool)
    → ((r : Row) → p r ≡ true → k ≤ r.created_ms)
    → {rows ledger : Table} → Thinned k rows ledger
    → sum_where p rows ≡ sum_where p ledger
unfolding sum_where
sum_where-Thinned k p fits nil = refl
sum_where-Thinned k p fits (same r t) = ground (arith, sum_where-Thinned k p fits t)
sum_where-Thinned k p fits (gone r old t) = ground (arith, fits r, sum_where-Thinned k p fits t)

-- what the ledger holds for a tenant in the window from `c`
abbrev pub spent : Limits → String → ℕ → Table → ℕ
spent l tenant c ledger = running tenant c (c + l.window_ms) ledger

sum_where-update_row :
    (p : Row → Bool) (i n : ℕ) (rows : Table)
    → ((r : Row) → p (record r { tokens = n; settled = true }) ≡ p r)
    → All (λ (row : Row). row.id ≡ i → n ≤ row.tokens) rows
    → sum_where p (update_row i n rows) ≤ sum_where p rows
unfolding sum_where update_row
sum_where-update_row p i n [] same_test fits = omega arith
sum_where-update_row p i n (r ∷ rs) same_test fits =
    ground (arith, same_test r, fits.0, sum_where-update_row p i n rs same_test fits.1)

pub record IsWithin (l : Limits) (b : Books) : Type 0 where
  pub thinned : Thinned (b.clock - l.window_ms) b.rows b.ledger
  pub bounded : (tenant : String) (c : ℕ) → spent l tenant c b.ledger ≤ l.default_limit

held_elsewhere :
    (t tenant : String) (c w now fresh tokens : ℕ)
    → (sum_where
          (λ r. in_window t c r && leb r.created_ms (c + w))
          (held_row now fresh tenant tokens ∷ [])
        ≡ 0)
      ⊎ ((t ≡ tenant)
          × (sum_where
                (λ r. in_window t c r && leb r.created_ms (c + w))
                (held_row now fresh tenant tokens ∷ [])
              ≡ tokens)
          × (c ≤ now)
          × (now ≤ c + w))
unfolding sum_where
held_elsewhere t tenant c w now fresh tokens = ground (arith, eq_iff tenant t)

reserve_at-IsWithin :
    (l : Limits) (b : Books) (now later fresh : ℕ) (tenant : String) (tokens : ℕ)
    → b.clock ≤ now
    → IsWithin l b
    → IsWithin l (reserve_at l now later fresh tenant tokens b)
unfolding reserve_at
reserve_at-IsWithin l b now later fresh tenant tokens tick ok =
    let t = Thinned-mono (b.clock - l.window_ms) (now - l.window_ms) (omega arith) ok.thinned in
    record {
      thinned =
          rw (try_reserve-append l now later fresh tenant tokens b.rows)
            (Thinned-append _ _ (Thinned-evict _ eviction_batch t));
      bounded = λ u c.
          rw sum_where-append
            (admitted_within u c t (try_reserve_admits l now later fresh tenant tokens b.rows));
    }
  where
    admitted_within :
        (u : String) (c : ℕ)
        → Thinned (now - l.window_ms) b.rows b.ledger
        → (admitted now (try_reserve l now later fresh tenant tokens b.rows).0 ≡ [])
          ⊎ ((admitted now (try_reserve l now later fresh tenant tokens b.rows).0
                ≡ held_row now fresh tenant tokens ∷ [])
              × (used_since tenant (now - l.window_ms) b.rows + tokens ≤ l.default_limit))
        → spent l u c b.ledger
            + spent l u c (admitted now (try_reserve l now later fresh tenant tokens b.rows).0)
          ≤ l.default_limit
    admitted_within u c t (inl nothing) =
        rw nothing (unfold sum_where in omega (arith, ok.bounded u c))
    admitted_within u c t (inr (one, fits)) =
        rw one (elim (held_elsewhere u tenant c l.window_ms now fresh tokens) [
          | inl zero_more ↦ omega (arith, zero_more, ok.bounded u c)
          | inr (same_tenant, more, from_c, to_c) ↦ omega (
            arith,
            more,
            fits,
            sum_where-Thinned (now - l.window_ms) (in_window tenant (now - l.window_ms))
                (λ r e. ground arith) t,
            sum_where_mono (λ r. in_window u c r && leb r.created_ms (c + l.window_ms))
                (in_window tenant (now - l.window_ms)) b.ledger
                (λ r e. rw (← same_tenant) (ground arith)),
          )
        ])

settle_at-IsWithin :
    (l : Limits) (b : Books) (now : ℕ) (r : Reservation) (actual : ℤ)
    → b.clock ≤ now
    → has_id r.id b.rows ≡ true
    → All (λ (row : Row). row.id ≡ r.id → charge_for l r actual ≤ row.tokens) b.ledger
    → IsWithin l b
    → IsWithin l (settle_at l now r actual b)
unfolding settle_at settle
settle_at-IsWithin l b now r actual tick present covered ok = record {
  thinned = rw present (
      Thinned-update_row _ r.id _
        (Thinned-mono (b.clock - l.window_ms) (now - l.window_ms) (omega arith) ok.thinned));
  bounded = λ u c. omega (
    arith,
    ok.bounded u c,
    sum_where-update_row (λ x. in_window u c x && leb x.created_ms (c + l.window_ms)) r.id
        (charge_for l r actual) b.ledger (λ x. refl) covered,
  );
}

release_at-IsWithin :
    (l : Limits) (b : Books) (now : ℕ) (r : Reservation)
    → b.clock ≤ now
    → IsWithin l b
    → IsWithin l (release_at now r b)
unfolding release_at release
release_at-IsWithin l b now r tick ok = record {
  thinned =
      Thinned-delete_row _ r.id
        (Thinned-mono (b.clock - l.window_ms) (now - l.window_ms) (omega arith) ok.thinned);
  bounded = λ u c. omega (
    arith,
    ok.bounded u c,
    sum_where-delete_row (λ x. in_window u c x && leb x.created_ms (c + l.window_ms)) r.id b.ledger,
  );
}

pub Step-IsWithin : (l : Limits) {b c : Books} → Step l b c → IsWithin l b → IsWithin l c
Step-IsWithin l (reserving b now later fresh tenant tokens tick) ok =
    reserve_at-IsWithin l b now later fresh tenant tokens tick ok
Step-IsWithin l (settling b now r actual tick present covered) ok =
    settle_at-IsWithin l b now r actual tick present covered ok
Step-IsWithin l (releasing b now r tick) ok = release_at-IsWithin l b now r tick ok

abbrev pub opening : Books
opening = record { clock = 0; rows = []; ledger = [] }

opening-IsWithin : (l : Limits) → IsWithin l opening
unfolding sum_where
opening-IsWithin l = record { thinned = nil; bounded = λ u c. omega arith }

pub Reach-IsWithin : (l : Limits) {b : Books} → Reach l opening b → IsWithin l b
Reach-IsWithin l here = opening-IsWithin l
Reach-IsWithin l (next r s) = Step-IsWithin l s (Reach-IsWithin l r)

-- From an empty database, after any sequence of reservations of any tenants, of settlements that a
-- row still there covers and of releases, at clocks that do not run backwards: no tenant's spend
-- in any window, evicted rows included, is over the limit.
pub every_window_within_limit :
    (l : Limits) {b : Books} (tenant : String) (c : ℕ)
    → Reach l opening b
    → spent l tenant c b.ledger ≤ l.default_limit
every_window_within_limit l tenant c r = (Reach-IsWithin l r).bounded tenant c

-- In the same states the usage that the limiter reads from the rows is the usage of that ledger,
-- at every later clock: no eviction hides spend.
pub usage_of_ledger :
    (l : Limits) {b : Books} (tenant : String) (now : ℕ)
    → Reach l opening b
    → b.clock ≤ now
    → usage l now tenant b.rows ≡ usage l now tenant b.ledger
unfolding usage
usage_of_ledger l {b} tenant now r tick =
    sum_where-Thinned (now - l.window_ms) (in_window tenant (now - l.window_ms))
      (λ x e. ground arith)
      (Thinned-mono (b.clock - l.window_ms) (now - l.window_ms) (omega arith)
        (Reach-IsWithin l r).thinned)
