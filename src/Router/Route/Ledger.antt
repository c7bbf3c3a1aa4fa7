-- ===== src/Router/Route/Ledger.antt =====
-- What a request leaves in the database, however it ends: `route` of router.py with the limiter.
use fde_assessment.Base.{
  ℕ, ◌+◌, ◌-◌, ◌≡◌, refl, String, true, false, Option, none, some, List, [], ◌∷◌, ◌++◌, any, leb,
  if◌then◌else◌, arith, Bool-cases, inl, inr, ap, sym, ◌∙◌,
}
use mathlib.Core.List.{append-nil}
use fde_assessment.Base.Int.{pos}
use fde_assessment.Base.Unicode.{Unicode}
use fde_assessment.Json.{Fields}
use fde_assessment.Router.Limiter.{
  Row, Table, Limits, Reservation, evict, eviction_batch, has_id, charge_for, usage,
}
use fde_assessment.Router.Limiter.Usage.{has_id-evict}
use fde_assessment.Router.Limiter.Reserve.{held, held_row, try_reserve_allows, try_reserve_refuses}
use fde_assessment.Router.Limiter.Settle.{settle_appended, release_appended}
use fde_assessment.Router.Tokens.{actual_tokens_from_response}
use fde_assessment.Router.Providers.{ProviderAttempt, is_billable}
use fde_assessment.Router.Route.{
  World, RouteResult, RouteEnd, served, Loop, answered, rejected, Attempted, attempt_providers,
  give_back, conclude, release_orphan, proceed, route_estimated,
}

-- the row of a request that was charged
abbrev pub charged_row : ℕ → ℕ → String → ℕ → ℕ → Row
charged_row now fresh tenant tokens charged =
    let row = held_row now fresh tenant tokens in record row { tokens = charged; settled = true }

-- What the loop of a request that reserved `r` is charged: the figure of a served answer, the
-- reservation if some attempt was billable, and else nothing.
pub verdict : {F : Type 0} → Limits → Reservation → ℕ → Attempted F → Option ℕ
verdict l r estimated a = elim a.loop [
  | answered payload name ↦
      some (charge_for l r (pos (actual_tokens_from_response payload estimated)))
  | _ ↦
      if any (λ (t : ProviderAttempt). is_billable t.outcome) a.attempts
      then some r.tokens
      else none
]

abbrev pub billed_rows : ℕ → ℕ → String → ℕ → Option ℕ → Table
billed_rows now fresh tenant tokens none = []
billed_rows now fresh tenant tokens (some n) = charged_row now fresh tenant tokens n ∷ []

charge_for-reserved : (l : Limits) (r : Reservation) → charge_for l r (pos r.tokens) ≡ r.tokens
unfolding charge_for
charge_for-reserved l r = omega arith

module _ {F : Type 0} (l : Limits) (w : World F) (tenant : String) (estimated : ℕ) where
  abbrev hold : Reservation
  hold = held w.now w.fresh tenant estimated

  abbrev with_hold : Table → Table
  with_hold xs = xs ++ held_row w.now w.fresh tenant estimated ∷ []

  give_back-billed :
      (attempts : List ProviderAttempt) (xs : Table)
      → has_id w.fresh xs ≡ false
      → give_back l w.settle_clock hold attempts (with_hold xs)
        ≡ xs
          ++ billed_rows w.now w.fresh tenant estimated (
              if any (λ (t : ProviderAttempt). is_billable t.outcome) attempts
              then some estimated
              else none)
  unfolding give_back
  give_back-billed attempts xs free =
      elim (Bool-cases (any (λ (t : ProviderAttempt). is_billable t.outcome) attempts)) [
        | inl billed ↦ rw (
          billed,
          (settle_appended l w.settle_clock hold (pos estimated)
              (held_row w.now w.fresh tenant estimated) xs refl free).1,
          charge_for-reserved l hold,
        )
        | inr free_of_charge ↦
            rw
              (
                free_of_charge,
                release_appended hold (held_row w.now w.fresh tenant estimated) xs refl free,
              )
              (rw append-nil)
      ]

  conclude-by_loop :
      (loop : Loop F) (attempts : List ProviderAttempt) (sent : List (Fields F)) (xs : Table)
      → has_id w.fresh xs ≡ false
      → let a : Attempted F = record { loop = loop; attempts = attempts; sent = sent } in
        (conclude l w hold estimated a (with_hold xs)).1
        ≡ xs ++ billed_rows w.now w.fresh tenant estimated (verdict l hold estimated a)
  unfolding conclude verdict
  conclude-by_loop (answered payload name) attempts sent xs free =
      let (_, moved) =
        settle_appended l w.settle_clock hold (pos (actual_tokens_from_response payload estimated))
          (held_row w.now w.fresh tenant estimated) xs refl free in
      elim (Bool-cases w.cancelled_settling) [
        | inl late ↦ simp late moved
        | inr in_time ↦ simp in_time moved
      ]
  conclude-by_loop rejected attempts sent xs free = give_back-billed attempts xs free
  conclude-by_loop _ attempts sent xs free = give_back-billed attempts xs free

  conclude-ledger :
      (a : Attempted F) (xs : Table)
      → has_id w.fresh xs ≡ false
      → (conclude l w hold estimated a (with_hold xs)).1
        ≡ xs ++ billed_rows w.now w.fresh tenant estimated (verdict l hold estimated a)
  conclude-ledger a = conclude-by_loop a.loop a.attempts a.sent

module _ {F : Type 0} (u : Unicode) (ceiling : ℕ) (l : Limits) (w : World F) (tenant : String)
    (body : Fields F) (estimated : ℕ) where
  -- what the whole request is charged
  abbrev pub bill : Table → Option ℕ
  bill rows =
      if w.cancelled_reserving
      then none
      else if leb (usage l w.now tenant rows + estimated) l.default_limit
      then verdict l (held w.now w.fresh tenant estimated) estimated
          (attempt_providers u ceiling body w.calls)
      else none

  -- Under an unused id, however the request ends (served, refused, failed, or cancelled at any
  -- await): the rows are those that the eviction left, and one settled row with what the request is
  -- charged, if it is charged. No hold is stranded, and none is both charged and given back.
  pub route_ledger :
      (rows : Table)
      → has_id w.fresh rows ≡ false
      → (route_estimated u ceiling l w tenant body estimated rows).rows
        ≡ evict (w.now - l.window_ms) eviction_batch rows
          ++ billed_rows w.now w.fresh tenant estimated (bill rows)
  unfolding route_estimated proceed release_orphan
  route_ledger rows free =
      elim (Bool-cases (leb (usage l w.now tenant rows + estimated) l.default_limit)) [
        | inl fits ↦
            let gone = has_id-evict w.fresh (w.now - l.window_ms) eviction_batch rows free in
            let kept = evict (w.now - l.window_ms) eviction_batch rows in
            rw
              (
                fits,
                try_reserve_allows l w.now w.later w.fresh tenant estimated rows free
                    (ground arith),
              )
              (elim (Bool-cases w.cancelled_reserving) [
                | inl hung_up ↦
                    simp
                      (
                        hung_up,
                        release_appended (held w.now w.fresh tenant estimated)
                            (held_row w.now w.fresh tenant estimated) kept refl gone,
                      )
                      (simp append-nil)
                | inr here ↦ simp here (
                    conclude-ledger l w tenant estimated (attempt_providers u ceiling body w.calls)
                      kept gone)
              ])
        | inr over ↦
            rw
              (
                over,
                try_reserve_refuses l w.now w.later w.fresh tenant estimated rows (ground arith),
              )
              (elim (Bool-cases w.cancelled_reserving) [
                | inl hung_up ↦ simp (hung_up, append-nil)
                | inr here ↦ simp (here, append-nil)
              ])
      ]

  abbrev charge_in : RouteEnd F → ℕ
  charge_in (served res) = res.tokens_charged
  charge_in _ = 0

  conclude-served :
      (loop : Loop F) (attempts : List ProviderAttempt) (sent : List (Fields F)) (xs : Table)
      (res : RouteResult F)
      → has_id w.fresh xs ≡ false
      → let a : Attempted F = record { loop = loop; attempts = attempts; sent = sent } in
        let hold = held w.now w.fresh tenant estimated in
        (conclude l w hold estimated a (xs ++ held_row w.now w.fresh tenant estimated ∷ [])).0
          ≡ served res
        → verdict l hold estimated a ≡ some res.tokens_charged
  unfolding conclude verdict
  conclude-served (answered payload name) attempts sent xs res free e =
      let (figure, _) =
        settle_appended l w.settle_clock (held w.now w.fresh tenant estimated)
          (pos (actual_tokens_from_response payload estimated))
          (held_row w.now w.fresh tenant estimated) xs refl free in
      elim (Bool-cases w.cancelled_settling) [
        | inl late ↦ absurd (ground arith)
        | inr in_time ↦ ap some (sym figure ∙ ap charge_in (simp in_time at e))
      ]
  conclude-served rejected attempts sent xs res free e = absurd (cc)
  conclude-served _ attempts sent xs res free e = absurd (cc)

  bill_of_served :
      (rows : Table) (res : RouteResult F)
      → has_id w.fresh rows ≡ false
      → (route_estimated u ceiling l w tenant body estimated rows).end ≡ served res
      → bill rows ≡ some res.tokens_charged
  unfolding route_estimated proceed
  bill_of_served rows res free e =
      elim (Bool-cases (leb (usage l w.now tenant rows + estimated) l.default_limit)) [
        | inl fits ↦
            let gone = has_id-evict w.fresh (w.now - l.window_ms) eviction_batch rows free in
            let kept = evict (w.now - l.window_ms) eviction_batch rows in
            let a = attempt_providers u ceiling body w.calls in
            let allowed =
              try_reserve_allows l w.now w.later w.fresh tenant estimated rows free
                (ground arith) in
            elim (Bool-cases w.cancelled_reserving) [
              | inl hung_up ↦ absurd (cc (simp (allowed, hung_up) at e))
              | inr here ↦ rw (fits) (
                  simp here (
                    conclude-served a.loop a.attempts a.sent kept res gone
                      (simp (allowed, here) at e)))
            ]
        | inr over ↦
            let refused =
              try_reserve_refuses l w.now w.later w.fresh tenant estimated rows (ground arith) in
            elim (Bool-cases w.cancelled_reserving) [
              | inl hung_up ↦ absurd (cc (simp (refused, hung_up) at e))
              | inr here ↦ absurd (cc (simp (refused, here) at e))
            ]
      ]

  -- The charge that a served result reports to the client is the charge on the request's own
  -- settled row, the only row that the request adds.
  pub served_charge :
      (rows : Table) (res : RouteResult F)
      → has_id w.fresh rows ≡ false
      → (route_estimated u ceiling l w tenant body estimated rows).end ≡ served res
      → (route_estimated u ceiling l w tenant body estimated rows).rows
        ≡ evict (w.now - l.window_ms) eviction_batch rows
          ++ charged_row w.now w.fresh tenant estimated res.tokens_charged ∷ []
  served_charge rows res free e =
      route_ledger rows free
      ∙ ap
          (λ b.
            evict (w.now - l.window_ms) eviction_batch rows
            ++ billed_rows w.now w.fresh tenant estimated b)
          (bill_of_served rows res free e)
