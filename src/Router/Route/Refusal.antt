-- ===== src/Router/Route/Refusal.antt =====
-- What a rate-limited caller is told, and when it may come back: `route`, the limiter and the error
-- envelope together.
use fde_assessment.Base.{
  ℕ, ◌+◌, ◌-◌, ◌*◌, ◌/◌, ◌≤◌, ◌<◌, max, ◌≡◌, refl, String, false, some, [], arith, ◌∙◌, ap,
}
use fde_assessment.Base.Unicode.{Unicode}
use fde_assessment.Json.{Fields}
use fde_assessment.Router.Limiter.{Table, Limits, evict, eviction_batch, usage}
use fde_assessment.Router.Limiter.Reserve.{refusal, try_reserve_refuses, used_now-evicted}
use fde_assessment.Router.Limiter.Retry.{hint, fits_after_hint, refused_at_hint, used_since_mono}
use fde_assessment.Router.Errors.{GatewayError, detail, retry_after_header}
use fde_assessment.Router.Route.{World, raised, Routed, rate_limit_error, proceed, route_estimated}

module _ {F : Type 0} (u : Unicode) (ceiling : ℕ) (l : Limits) (w : World F) (tenant : String)
    (body : Fields F) (estimated : ℕ) (rows : Table) where
  -- the rows that the refusal leaves
  abbrev pub left : Table
  left = evict (w.now - l.window_ms) eviction_batch rows

  abbrev pub routed : Routed F
  routed = route_estimated u ceiling l w tenant body estimated rows

  abbrev pub told : GatewayError
  told =
      rate_limit_error w.request_id estimated
        (refusal l w.now w.later w.fresh tenant estimated left)

  -- A request over the limit that is not cancelled raises the rate-limit error, leaves the rows as
  -- the eviction left them, and sends no provider anything.
  pub refused_sends_nothing :
      l.default_limit < usage l w.now tenant rows + estimated
      → w.cancelled_reserving ≡ false
      → (routed.end ≡ raised told) × (routed.rows ≡ left) × (routed.sent ≡ [])
  unfolding route_estimated proceed
  refused_sends_nothing over here =
      rw (try_reserve_refuses l w.now w.later w.fresh tenant estimated rows over)
        (simp here (refl, refl, refl))

  abbrev pub wait_ms : ℕ
  wait_ms = hint l w.now w.later tenant estimated left

  header_seconds : retry_after_header told ≡ some (max 1 ((wait_ms + 999) / 1000))
  unfolding retry_after_header rate_limit_error detail usage
  header_seconds = refl

  still_over :
      l.default_limit < usage l w.now tenant rows + estimated
      → l.default_limit < usage l w.now tenant left + estimated
  unfolding usage
  still_over over = rw (used_now-evicted l w.now w.later w.fresh tenant estimated rows tenant) over

  usage_falls : (a b : ℕ) → a ≤ b → usage l b tenant left ≤ usage l a tenant left
  unfolding usage
  usage_falls a b h = used_since_mono tenant (a - l.window_ms) (b - l.window_ms) left (omega arith)

  -- A caller whose request is over the limit, but not larger than the whole limit, is told a whole
  -- number of seconds; one millisecond after that wait, if nothing else was recorded for the tenant,
  -- the same request fits.
  pub retry_after_suffices :
      estimated ≤ l.default_limit
      → l.default_limit < usage l w.now tenant rows + estimated
      → (s : ℕ) × (retry_after_header told ≡ some s)
        × (usage l (w.later + s * 1000 + 1) tenant left + estimated ≤ l.default_limit)
  retry_after_suffices possible over =
      let s = max 1 ((wait_ms + 999) / 1000) in
      (
        s,
        header_seconds,
        omega (
          arith,
          fits_after_hint l w.now w.later tenant estimated left possible (still_over over),
          usage_falls (w.later + wait_ms + 1) (w.later + s * 1000 + 1) (omega arith),
        ),
      )

  -- Where the wait is a whole number of seconds, a caller who comes back exactly when the header
  -- says is refused again: the row that has to expire is still counted at that millisecond.
  pub retry_after_early :
      (s : ℕ)
      → estimated ≤ l.default_limit
      → l.default_limit < usage l w.now tenant rows + estimated
      → 0 < s
      → wait_ms ≡ s * 1000
      → (retry_after_header told ≡ some s)
        × (l.default_limit < usage l (w.later + s * 1000) tenant left + estimated)
  retry_after_early s possible over some_wait whole = (
    header_seconds ∙ ap some (rw whole (omega arith)),
    rw (← whole) (
        refused_at_hint l w.now w.later tenant estimated left possible (still_over over)
          (rw whole (omega arith))),
  )
