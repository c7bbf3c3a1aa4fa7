-- ===== src/Router/Route.antt =====
-- One request through the router: `ModelRouter.route`, `_attempt_providers` and `_release_orphan` of
-- task4_model_router/router.py.
-- The awaits are the points at which a cancellation can arrive. What comes from outside is a
-- `World`: the clocks of the calls, the id that `uuid4` gives, what each provider's call comes to in
-- the order of the providers, and whether the request is cancelled while it reserves or while it
-- settles. A shielded call of the limiter runs to its end; its calls other than the INSERT are taken
-- not to raise. Log lines are left out.
pub mod Ledger
pub mod Failover
pub mod Refusal
mod Tests
use fde_assessment.Base.{
  ℕ, ◌+◌, ◌*◌, max, String, Bool, true, false, ◌&&◌, Option, none, some, List, [], ◌∷◌, ◌++◌, any,
  all, length, map, if◌then◌else◌,
}
use fde_assessment.Base.Int.{pos}
use fde_assessment.Base.Unicode.{Unicode}
use fde_assessment.Json.{Fields}
use fde_assessment.Router.Limiter.{
  Table, Limits, Reservation, LimitDecision, try_reserve, settle, release,
}
use fde_assessment.Router.Tokens.{
  Runtime, larger, estimate_request_tokens, actual_tokens_from_response,
}
use fde_assessment.Router.Errors.{
  ErrorCode, rate_limit_exceeded, all_providers_failed, upstream_rate_limited, upstream_timeout,
  invalid_request, Detail, absent, count, seconds, Details, GatewayError,
}
use fde_assessment.Router.Providers.{
  ProviderConfig, Outcome, ProviderAttempt, is_billable, is_ok, is_client_error, is_timeout,
  is_rate_limited, Reply, outgoing, Called, done, interrupted, call_provider,
}

-- a provider, the milliseconds that its call takes, and what it comes to
pub record Call (F : Type 0) : Type 0 where
  pub provider : ProviderConfig
  pub duration : ℕ
  pub reply : Reply F

pub record World (F : Type 0) : Type 0 where
  pub request_id : String
  pub now : ℕ
  pub later : ℕ
  pub settle_clock : ℕ
  pub fresh : ℕ
  pub calls : List (Call F)
  pub cancelled_reserving : Bool
  pub cancelled_settling : Bool

pub record RouteResult (F : Type 0) : Type 0 where
  pub payload : Fields F
  pub provider : String
  pub attempts : List ProviderAttempt
  pub tokens_reserved : ℕ
  pub tokens_charged : ℕ
  pub request_id : String

pub data RouteEnd (F : Type 0) : Type 0 where
  served : RouteResult F → RouteEnd F
  raised : GatewayError → RouteEnd F
  cancelled : RouteEnd F
  crashed : RouteEnd F

-- how the loop over the providers ends, before anything is settled
pub data Loop (F : Type 0) : Type 0 where
  answered : Fields F → String → Loop F
  rejected : Loop F
  exhausted : Loop F
  stopped : Loop F

-- the loop's end, the attempts that it recorded, and the bodies that were sent
pub record Attempted (F : Type 0) : Type 0 where
  pub loop : Loop F
  pub attempts : List ProviderAttempt
  pub sent : List (Fields F)

module _ {F : Type 0} where
  -- the attempt that came back, put before what the rest of the loop did
  abbrev pub and_then : ProviderAttempt → Fields F → Attempted F → Attempted F
  and_then a body rest = record {
    loop = rest.loop;
    attempts = a ∷ rest.attempts;
    sent = body ∷ rest.sent;
  }

  abbrev pub ends : Loop F → Attempted F
  ends how = record { loop = how; attempts = []; sent = [] }

  -- what one call means for the loop, `rest` being the loop over the providers after it
  unfoldable pub after_call : ProviderConfig → Fields F → Called F → Attempted F → Attempted F
  after_call p body interrupted rest = record { loop = stopped; attempts = []; sent = body ∷ [] }
  after_call p body (done a (some payload)) rest =
      if is_ok a.outcome
      then and_then a body (ends (answered payload p.name))
      else if is_client_error a.outcome
      then and_then a body (ends rejected)
      else and_then a body rest
  after_call p body (done a none) rest =
      if is_client_error a.outcome then and_then a body (ends rejected) else and_then a body rest

  -- the loop of `_attempt_providers`
  unfoldable pub attempt_providers : Unicode → ℕ → Fields F → List (Call F) → Attempted F
  unfolding after_call
  attempt_providers u ceiling body [] = ends exhausted
  attempt_providers u ceiling body (c ∷ rest) =
      let remaining = attempt_providers u ceiling body rest in
      after_call c.provider (outgoing ceiling c.provider body)
        (call_provider u c.provider c.duration c.reply) remaining

abbrev pub is_nonempty : {A : Type 0} → List A → Bool
is_nonempty [] = false
is_nonempty (_ ∷ _) = true

-- `bool(attempts) and all(a.outcome == "timeout" for a in attempts)`
abbrev pub all_timed_out : List ProviderAttempt → Bool
all_timed_out attempts =
    is_nonempty attempts && all (λ (a : ProviderAttempt). is_timeout a.outcome) attempts

abbrev pub all_rate_limited : List ProviderAttempt → Bool
all_rate_limited attempts =
    is_nonempty attempts && all (λ (a : ProviderAttempt). is_rate_limited a.outcome) attempts

-- `max(hints)`, if there is one
unfoldable pub largest_hint : List ProviderAttempt → Option ℕ
largest_hint [] = none
largest_hint (a ∷ attempts) = larger a.retry_after_seconds (largest_hint attempts)

unfoldable pub longest : List ProviderAttempt → ℕ
longest [] = 0
longest (a ∷ attempts) = max a.duration_ms (longest attempts)

abbrev pub code_for : List ProviderAttempt → ErrorCode
code_for attempts =
    if all_timed_out attempts
    then upstream_timeout
    else if all_rate_limited attempts
    then upstream_rate_limited
    else all_providers_failed

abbrev pub hint_detail : Option ℕ → Detail
hint_detail none = absent
hint_detail (some s) = seconds (s * 1000)

-- the error of a loop that found no provider
unfoldable pub exhausted_error : String → List ProviderAttempt → GatewayError
unfolding largest_hint longest
exhausted_error request_id attempts = record {
  code = code_for attempts;
  request_id = request_id;
  details =
      ("providers_attempted", count (length attempts))
      ∷ (
        "retry_after_seconds",
        if all_rate_limited attempts then hint_detail (largest_hint attempts) else absent,
      )
      ∷ ("timeout_ms", if all_timed_out attempts then count (longest attempts) else absent)
      ∷ [];
}

unfoldable pub rejected_error : String → List ProviderAttempt → GatewayError
rejected_error request_id attempts = record {
  code = invalid_request;
  request_id = request_id;
  details = ("providers_attempted", count (length attempts)) ∷ [];
}

unfoldable pub rate_limit_error : String → ℕ → LimitDecision → GatewayError
rate_limit_error request_id estimated d = record {
  code = rate_limit_exceeded;
  request_id = request_id;
  details =
      ("limit_tokens_per_minute", count d.limit)
      ∷ ("requested_tokens", count estimated)
      ∷ ("tokens_used_in_window", count d.used_in_window)
      ∷ ("retry_after_seconds", seconds d.retry_after_ms)
      ∷ [];
}

-- the `except BaseException` of `route`, when nothing has been settled
unfoldable pub give_back : Limits → ℕ → Reservation → List ProviderAttempt → Table → Table
give_back l clock r attempts rows =
    if any (λ (a : ProviderAttempt). is_billable a.outcome) attempts
    then (settle l clock r (pos r.tokens) rows).1
    else release r rows

module _ {F : Type 0} (l : Limits) (w : World F) (r : Reservation) (estimated : ℕ) where
  -- the part of `route` after the loop
  unfoldable pub conclude : Attempted F → Table → RouteEnd F × Table
  unfolding give_back
  conclude a rows = elim a.loop [
    | answered payload name ↦
        let (charged, rows') =
          settle l w.settle_clock r (pos (actual_tokens_from_response payload estimated)) rows in
        if w.cancelled_settling then (cancelled, rows') else (
          served (record {
            payload = payload;
            provider = name;
            attempts = a.attempts;
            tokens_reserved = estimated;
            tokens_charged = charged;
            request_id = w.request_id;
          }),
          rows',
        )
    | rejected ↦ (
      raised (rejected_error w.request_id a.attempts),
      give_back l w.settle_clock r a.attempts rows,
    )
    | exhausted ↦ (
      raised (exhausted_error w.request_id a.attempts),
      give_back l w.settle_clock r a.attempts rows,
    )
    | stopped ↦ (cancelled, give_back l w.settle_clock r a.attempts rows)
  ]

-- `_release_orphan`, on the result of a reservation whose request was cancelled meanwhile
unfoldable pub release_orphan : Option LimitDecision → Table → Table
release_orphan none rows = rows
release_orphan (some d) rows =
    if d.allowed then elim d.reservation [ none ↦ rows | some r ↦ release r rows ] else rows

-- how a request ends, the rows after it, and the bodies that went to providers
pub record Routed (F : Type 0) : Type 0 where
  pub end : RouteEnd F
  pub rows : Table
  pub sent : List (Fields F)

module _ {F : Type 0} (u : Unicode) (ceiling : ℕ) (l : Limits) (w : World F) where
  -- `route` once the reservation has come back
  unfoldable pub proceed : Fields F → ℕ → Option LimitDecision → Table → Routed F
  unfolding attempt_providers conclude
  proceed body estimated none rows = record { end = crashed; rows = rows; sent = [] }
  proceed body estimated (some d) rows =
      if d.allowed
      then elim d.reservation [
        -- the `assert`
        | none ↦ record { end = crashed; rows = rows; sent = [] }
        | some r ↦
            let a = attempt_providers u ceiling body w.calls in
            let (end, rows') = conclude l w r estimated a rows in
            record { end = end; rows = rows'; sent = a.sent }
      ]
      else record {
        end = raised (rate_limit_error w.request_id estimated d);
        rows = rows;
        sent = [];
      }

  -- `route`; `estimated` is computed from the body before anything else
  unfoldable pub route_estimated : String → Fields F → ℕ → Table → Routed F
  unfolding release_orphan proceed
  route_estimated tenant body estimated rows =
      let (decision, rows') = try_reserve l w.now w.later w.fresh tenant estimated rows in
      if w.cancelled_reserving
      then record { end = cancelled; rows = release_orphan decision rows'; sent = [] }
      else proceed body estimated decision rows'

  unfoldable pub route : Runtime F → String → Fields F → Table → Routed F
  unfolding route_estimated
  route rt tenant body rows =
      route_estimated tenant body (estimate_request_tokens rt ceiling none body) rows
