-- ===== src/Router/Limiter/Reserve.antt =====
-- What a reservation does to the rows: `_try_reserve_sync` of limiter.py.
use fde_assessment.Base.{
  ℕ, ◌+◌, ◌-◌, ◌≤◌, ◌<◌, String, ◌≡◌, ◌≢◌, ◌⊎◌, refl, true, false, Option, none, some, [], ◌∷◌,
  ◌++◌, arith, ltb, leb, Bool-cases, inl, inr, eq_iff,
}
use mathlib.Core.List.{append-nil}
use text.Mathlib.TextPositions.{eq_refl}
use fde_assessment.Router.Limiter.{
  Row, Table, Limits, Reservation, LimitDecision, sum_where, used_since, evict, eviction_batch,
  retry_after, has_id, insert_row, delete_row, retry_after, reserve_transaction, try_reserve,
  release, usage,
}
use fde_assessment.Router.Limiter.Usage.{
  sum_where-append, sum_where-evict, has_id-evict, delete_row-append, delete_row_absent,
}

-- the row that a reservation inserts
abbrev pub held_row : ℕ → ℕ → String → ℕ → Row
held_row now fresh tenant tokens = record {
  id = fresh;
  tenant_key = tenant;
  created_ms = now;
  tokens = tokens;
  settled = false;
}

abbrev pub held : ℕ → ℕ → String → ℕ → Reservation
held now fresh tenant tokens = record { id = fresh; tenant_key = tenant; tokens = tokens }

-- the rows that a decision has added
abbrev pub admitted : ℕ → Option LimitDecision → Table
admitted now none = []
admitted now (some d) = elim d.reservation [
  | none ↦ []
  | some r ↦ held_row now r.id r.tenant_key r.tokens ∷ []
]

module _ (l : Limits) (now later fresh : ℕ) (tenant : String) (tokens : ℕ) where
  abbrev pub evicted : Table → Table
  evicted rows = evict (now - l.window_ms) eviction_batch rows

  -- used before the request, in the window that ends now
  abbrev pub used_now : Table → ℕ
  used_now rows = used_since tenant (now - l.window_ms) rows

  transaction_appends :
      (rows : Table)
      → let (d, rows') = reserve_transaction l now later fresh tenant tokens rows in
        rows' ≡ rows ++ admitted now d
  unfolding reserve_transaction insert_row
  transaction_appends rows = elim (Bool-cases (ltb l.default_limit (used_now rows + tokens))) [
    | inl over ↦ rw over (rw append-nil)
    | inr fits ↦ rw fits (elim (Bool-cases (has_id fresh rows)) [
      | inl clash ↦ rw clash (rw append-nil)
      | inr free ↦ rw free
    ])
  ]

  -- The rows after a call are the evicted rows and what the decision admits.
  pub try_reserve-append :
      (rows : Table)
      → let (d, rows') = try_reserve l now later fresh tenant tokens rows in
        rows' ≡ evicted rows ++ admitted now d
  unfolding try_reserve
  try_reserve-append rows = transaction_appends (evicted rows)

  pub used_now-evicted :
      (rows : Table) (t : String)
      → used_since t (now - l.window_ms) (evicted rows) ≡ used_since t (now - l.window_ms) rows
  used_now-evicted rows t = sum_where-evict _ _ _ rows (λ r e. ground arith)

  transaction_admits :
      (rows : Table)
      → let (d, rows') = reserve_transaction l now later fresh tenant tokens rows in
        (admitted now d ≡ [])
        ⊎ ((admitted now d ≡ held_row now fresh tenant tokens ∷ [])
            × (used_now rows + tokens ≤ l.default_limit))
  unfolding reserve_transaction insert_row
  transaction_admits rows = elim (Bool-cases (ltb l.default_limit (used_now rows + tokens))) [
    | inl over ↦ rw over (inl refl)
    | inr fits ↦ rw fits (elim (Bool-cases (has_id fresh rows)) [
      | inl clash ↦ rw clash (inl refl)
      | inr free ↦ rw free (inr (refl, ground arith))
    ])
  ]

  -- A call admits nothing, or one row that fits beside what the tenant has used.
  pub try_reserve_admits :
      (rows : Table)
      → let (d, rows') = try_reserve l now later fresh tenant tokens rows in
        (admitted now d ≡ [])
        ⊎ ((admitted now d ≡ held_row now fresh tenant tokens ∷ [])
            × (used_now rows + tokens ≤ l.default_limit))
  unfolding try_reserve
  try_reserve_admits rows = rw (← used_now-evicted rows tenant) (transaction_admits (evicted rows))

  abbrev pub allowance : Table → LimitDecision
  allowance rows = record {
    allowed = true;
    reservation = some (held now fresh tenant tokens);
    used_in_window = used_now rows + tokens;
    limit = l.default_limit;
    requested = tokens;
    retry_after_ms = 0;
  }

  abbrev pub refusal : Table → LimitDecision
  refusal rows = record {
    allowed = false;
    reservation = none;
    used_in_window = used_now rows;
    limit = l.default_limit;
    requested = tokens;
    retry_after_ms =
        retry_after l later tenant (now - l.window_ms) (used_now rows) tokens l.default_limit rows;
  }

  -- A request that fits is admitted under an unused id.
  pub try_reserve_allows :
      (rows : Table)
      → has_id fresh rows ≡ false
      → usage l now tenant rows + tokens ≤ l.default_limit
      → try_reserve l now later fresh tenant tokens rows
        ≡ (some (allowance (evicted rows)), evicted rows ++ held_row now fresh tenant tokens ∷ [])
  unfolding try_reserve reserve_transaction insert_row usage
  try_reserve_allows rows free fits =
      let under : ltb l.default_limit (used_now (evicted rows) + tokens) ≡ false =
        ground (arith, used_now-evicted rows tenant) in
      rw (under, has_id-evict fresh (now - l.window_ms) eviction_batch rows free)

  -- A request that does not fit is refused.
  pub try_reserve_refuses :
      (rows : Table)
      → l.default_limit < usage l now tenant rows + tokens
      → try_reserve l now later fresh tenant tokens rows
        ≡ (some (refusal (evicted rows)), evicted rows)
  unfolding try_reserve reserve_transaction usage
  try_reserve_refuses rows over =
      let above : ltb l.default_limit (used_now (evicted rows) + tokens) ≡ true =
        ground (arith, used_now-evicted rows tenant) in
      rw above

  -- With an unused id a call always decides: it allows the request exactly if what the tenant has
  -- used in the window and the request fit under the limit, and the usage that it reports is the
  -- tenant's usage after the call.
  pub try_reserve_decides :
      (rows : Table)
      → has_id fresh rows ≡ false
      → let (answer, rows') = try_reserve l now later fresh tenant tokens rows in
        (d : LimitDecision) × (answer ≡ some d)
        × (d.allowed ≡ leb (usage l now tenant rows + tokens) l.default_limit)
        × (d.used_in_window ≡ usage l now tenant rows')
  unfolding try_reserve reserve_transaction insert_row usage
  try_reserve_decides rows free =
      elim (Bool-cases (ltb l.default_limit (used_now (evicted rows) + tokens))) [
        | inl over ↦ rw over (_, refl, ground (arith, used_now-evicted rows tenant), refl)
        | inr fits ↦
            rw (fits, has_id-evict fresh (now - l.window_ms) eviction_batch rows free)
              (
                _,
                refl,
                ground (arith, used_now-evicted rows tenant),
                rw sum_where-append (unfold sum_where in ground (arith, eq_refl tenant)),
              )
      ]

  -- After any call each tenant's usage is what it was, and more only by what was admitted for it.
  pub usage-try_reserve :
      (rows : Table) (u : String)
      → let (d, rows') = try_reserve l now later fresh tenant tokens rows in
        usage l now u rows' ≡ usage l now u rows + usage l now u (admitted now d)
  unfolding usage
  usage-try_reserve rows u = rw (try_reserve-append rows, sum_where-append, used_now-evicted rows u)

  -- No call takes its own tenant over the limit, and no call changes what another tenant has used.
  pub try_reserve_isolates :
      (rows : Table) (u : String)
      → usage l now tenant rows ≤ l.default_limit
      → u ≢ tenant
      → let (d, rows') = try_reserve l now later fresh tenant tokens rows in
        (usage l now tenant rows' ≤ l.default_limit) × (usage l now u rows' ≡ usage l now u rows)
  try_reserve_isolates rows u under other =
      rw (usage-try_reserve rows tenant, usage-try_reserve rows u)
        (elim (try_reserve_admits rows) [
          | inl nothing ↦ rw nothing (unfold usage sum_where in ground arith)
          | inr (one, fits) ↦
              rw one (unfold usage sum_where in ground (arith, eq_iff tenant u, under, fits))
        ])

  -- Releasing a reservation under an unused id leaves the rows as the eviction left them.
  pub release-try_reserve :
      (rows : Table)
      → has_id fresh rows ≡ false
      → release (held now fresh tenant tokens) (try_reserve l now later fresh tenant tokens rows).1
        ≡ evicted rows
  unfolding release
  release-try_reserve rows free =
      let gone = has_id-evict fresh (now - l.window_ms) eviction_batch rows free in
      rw (try_reserve-append rows, delete_row-append, delete_row_absent fresh (evicted rows) gone)
        (elim (try_reserve_admits rows) [
          | inl nothing ↦ rw nothing (unfold delete_row in rw append-nil)
          | inr (one, _) ↦ rw one (unfold delete_row in ground (arith, append-nil (evicted rows)))
        ])
