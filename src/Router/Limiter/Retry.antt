-- ===== src/Router/Limiter/Retry.antt =====
-- The retry hint of limiter.py: `_retry_after_sync`.
use fde_assessment.Base.{
  ℕ, zero, suc, ◌+◌, ◌-◌, ◌≤◌, ◌<◌, min, max, String, ◌≡◌, refl, Bool, true, false, ◌&&◌, Option,
  none, some, [], ◌∷◌, arith, ltb, leb, ◌==◌, if◌then◌else◌, any, inl, inr, Bool-cases,
  Option-cases, leb→le,
}
use fde_assessment.Router.Limiter.{
  Row, Table, Limits, sum_where, in_window, used_since, running, earliest, first_covering,
  retry_after, usage,
}
use fde_assessment.Router.Limiter.Usage.{sum_where_mono, sum_where_split}

earliest_left : (a : ℕ) (o : Option ℕ) → (c : ℕ) × (earliest (some a) o ≡ some c) × (c ≤ a)
unfolding earliest
earliest_left a none = (a, refl, omega arith)
earliest_left a (some b) = (min a b, refl, omega arith)

earliest_right : (o : Option ℕ) (b : ℕ) → (c : ℕ) × (earliest o (some b) ≡ some c) × (c ≤ b)
unfolding earliest
earliest_right none b = (b, refl, omega arith)
earliest_right (some a) b = (min a b, refl, omega arith)

module _ (tenant : String) (cutoff : ℕ) where
  -- a row of the tenant in the window was created exactly then
  abbrev created_at : ℕ → Row → Bool
  created_at m r = in_window tenant cutoff r && r.created_ms == m

  first_covering_sound :
      (d : ℕ) (rows rs : Table) (c : ℕ)
      → first_covering tenant cutoff d rows rs ≡ some c
      → (cutoff ≤ c) × (d ≤ running tenant cutoff c rows)
  unfolding first_covering earliest
  first_covering_sound d rows [] c e = absurd (cc)
  first_covering_sound d rows (r ∷ rs) c e =
      elim (Option-cases (first_covering tenant cutoff d rows rs)) [
        | inl nothing ↦ ground arith
        | inr (c', found) ↦ ground (arith, first_covering_sound d rows rs c' found)
      ]

  first_covering_le :
      (d : ℕ) (rows rs : Table) (m : ℕ)
      → d ≤ running tenant cutoff m rows
      → any (created_at m) rs ≡ true
      → (c : ℕ) × (first_covering tenant cutoff d rows rs ≡ some c) × (c ≤ m)
  unfolding first_covering
  first_covering_le d rows [] m enough e = absurd (cc)
  first_covering_le d rows (r ∷ rs) m enough e = elim (Bool-cases (created_at m r)) [
    | inl hit ↦
        let at_m : r.created_ms ≡ m = ground arith in
        let covers : (in_window tenant cutoff r && leb d (running tenant cutoff r.created_ms rows))
            ≡ true =
          rw at_m (ground arith) in
        rw covers (rw at_m (earliest_left m (first_covering tenant cutoff d rows rs)))
    | inr miss ↦
        let (c, found, early) = first_covering_le d rows rs m enough (ground arith) in
        let (c', first, earlier) =
          earliest_right
            (if in_window tenant cutoff r && leb d (running tenant cutoff r.created_ms rows)
              then some r.created_ms
              else none)
            c in
        (c', rw (found) first, omega arith)
  ]

  running_gap :
      (n : ℕ) (rows : Table)
      → any (created_at (suc n)) rows ≡ false
      → running tenant cutoff (suc n) rows ≡ running tenant cutoff n rows
  unfolding sum_where
  running_gap n [] h = refl
  running_gap n (r ∷ rs) h = ground (arith, running_gap n rs)

  running_empty :
      (rows : Table) → any (created_at 0) rows ≡ false → running tenant cutoff 0 rows ≡ 0
  unfolding sum_where
  running_empty [] h = refl
  running_empty (r ∷ rs) h = ground (arith, running_empty rs)

  -- If the rows created up to `k` cover the deficit, so do those up to the row that is found.
  first_covering_exists :
      (d : ℕ) (rows : Table) (k : ℕ)
      → 0 < d
      → d ≤ running tenant cutoff k rows
      → (c : ℕ) × (first_covering tenant cutoff d rows rows ≡ some c) × (c ≤ k)
  first_covering_exists d rows zero some_deficit enough =
      elim (Bool-cases (any (created_at 0) rows)) [
        | inl here ↦ first_covering_le d rows rows 0 enough here
        | inr nowhere ↦ absurd (omega (arith, running_empty rows nowhere))
      ]
  first_covering_exists d rows (suc k) some_deficit enough =
      elim (Bool-cases (any (created_at (suc k)) rows)) [
        | inl here ↦ first_covering_le d rows rows (suc k) enough here
        | inr nowhere ↦
            let (c, found, early) =
              first_covering_exists d rows k some_deficit
                (omega (arith, running_gap k rows nowhere)) in
            (c, found, omega arith)
      ]

-- A row that was created no later than `latest`.
pub latest : Table → ℕ
latest [] = 0
latest (r ∷ rs) = max r.created_ms (latest rs)

running-latest :
    (tenant : String) (cutoff k : ℕ) (rows : Table)
    → latest rows ≤ k
    → running tenant cutoff k rows ≡ used_since tenant cutoff rows
unfolding sum_where latest
running-latest tenant cutoff k [] h = refl
running-latest tenant cutoff k (r ∷ rs) h =
    ground (arith, running-latest tenant cutoff k rs (omega arith))

-- What was used since the cutoff was used up to `c` or after it.
used_since-split :
    (tenant : String) (cutoff c : ℕ) (rows : Table)
    → cutoff ≤ suc c
    → running tenant cutoff c rows + used_since tenant (suc c) rows ≡ used_since tenant cutoff rows
used_since-split tenant cutoff c rows h =
    sum_where_split (λ r. in_window tenant cutoff r && leb r.created_ms c)
      (in_window tenant (suc c)) (in_window tenant cutoff) rows (λ r. ground arith)

pub used_since_mono :
    (tenant : String) (a b : ℕ) (rows : Table)
    → a ≤ b
    → used_since tenant b rows ≤ used_since tenant a rows
used_since_mono tenant a b rows h =
    sum_where_mono (in_window tenant b) (in_window tenant a) rows (λ r e. ground arith)

-- what a refusal hands the caller, `later` being the clock after the refusal
abbrev pub hint : Limits → ℕ → ℕ → String → ℕ → Table → ℕ
hint l now later tenant tokens rows =
    retry_after l later tenant (now - l.window_ms) (usage l now tenant rows) tokens l.default_limit
      rows

module _ (l : Limits) (now later : ℕ) (tenant : String) (tokens : ℕ) (rows : Table) where
  -- A refused request that could fit finds the row whose expiry makes room for it.
  covering_row :
      tokens ≤ l.default_limit
      → l.default_limit < usage l now tenant rows + tokens
      → (c : ℕ) × (first_covering tenant
            (now - l.window_ms)
            (usage l now tenant rows + tokens - l.default_limit)
            rows
            rows
          ≡ some c)
        × (hint l now later tenant tokens rows ≡ c + l.window_ms - later)
  unfolding usage retry_after
  covering_row possible refused =
      let (c, found, _) =
        first_covering_exists tenant (now - l.window_ms)
          (used_since tenant (now - l.window_ms) rows + tokens - l.default_limit) rows (latest rows)
          (omega arith)
          (rw (running-latest tenant (now - l.window_ms) (latest rows) rows (omega arith))
            (omega arith)) in
      let over : leb (used_since tenant (now - l.window_ms) rows + tokens) l.default_limit ≡ false =
        ground arith in
      let small : ltb l.default_limit tokens ≡ false = ground arith in
      (c, found, rw (over, small, found))

  abbrev cutoff : ℕ
  cutoff = now - l.window_ms

  abbrev deficit : ℕ
  deficit = usage l now tenant rows + tokens - l.default_limit

  -- the rows before the one that is found do not cover the deficit
  uncovered_before :
      (c : ℕ)
      → first_covering tenant cutoff deficit rows rows ≡ some c
      → l.default_limit < usage l now tenant rows + tokens
      → l.default_limit < used_since tenant c rows + tokens
  uncovered_before zero found refused =
      let (from, _) = first_covering_sound tenant cutoff deficit rows rows zero found in
      unfold usage in omega (arith, used_since_mono tenant 0 cutoff rows (omega arith), refused)
  uncovered_before (suc c) found refused =
      let (from, _) = first_covering_sound tenant cutoff deficit rows rows (suc c) found in
      elim (Bool-cases (leb deficit (running tenant cutoff c rows))) [
        | inl enough ↦
            let (c', found', early) =
              first_covering_exists tenant cutoff deficit rows c (omega arith)
                (leb→le _ _ enough) in
            absurd (ground arith)
        | inr short ↦
            unfold usage in ground (arith, used_since-split tenant cutoff c rows from, refused)
      ]

  -- A refused request that is not larger than the whole limit fits one millisecond after the
  -- hint, if the tenant's rows are then the same: the hint is long enough but for that millisecond.
  pub fits_after_hint :
      tokens ≤ l.default_limit
      → l.default_limit < usage l now tenant rows + tokens
      → usage l (later + hint l now later tenant tokens rows + 1) tenant rows + tokens
        ≤ l.default_limit
  fits_after_hint possible refused =
      let (c, found, is) = covering_row possible refused in
      let (_, covers) = first_covering_sound tenant cutoff deficit rows rows c found in
      let from = (first_covering_sound tenant cutoff deficit rows rows c found).0 in
      rw is (
        unfold usage in
        omega (
          arith,
          covers,
          refused,
          used_since-split tenant cutoff c rows (omega (arith, from)),
          used_since_mono tenant (suc c) (later + (c + l.window_ms - later) + 1 - l.window_ms) rows
              (omega arith),
        ))

  -- At the hint itself the request does not fit yet, unless the hint is 0.
  pub refused_at_hint :
      tokens ≤ l.default_limit
      → l.default_limit < usage l now tenant rows + tokens
      → 0 < hint l now later tenant tokens rows
      → l.default_limit < usage l (later + hint l now later tenant tokens rows) tenant rows + tokens
  refused_at_hint possible refused some_wait =
      let (c, found, is) = covering_row possible refused in
      let waited : later + (c + l.window_ms - later) - l.window_ms ≡ c = omega arith in
      rw is (unfold usage in rw waited (uncovered_before c found refused))
