-- ===== src/Router/Providers.antt =====
-- One provider attempt of the router: task4_model_router/providers.py and `_call_provider`,
-- `_retry_after` and the statuses of router.py.
-- What the HTTP client and the JSON parser do is a `Reply`. Text for the operator's log is left out.
pub mod Outcomes
pub mod Outgoing
pub mod Order
use text.Mathlib.Text.{◌==◌ as str_eq}
use fde_assessment.Base.{
  ℕ, ◌+◌, String, Bool, true, false, not, ◌&&◌, ◌||◌, Option, none, some, List, [], ◌∷◌, any, ltb,
  leb, ◌==◌, if◌then◌else◌,
}
use fde_assessment.Base.Int.{ℤ, pos, leb_ℤ}
use fde_assessment.Base.Unicode.{Unicode, isdigit, read_number}
use fde_assessment.Json.{Json, Fields, int, str, obj, get, put}

pub record ProviderConfig : Type 0 where
  pub name : String
  pub url : String
  pub model : String
  pub api_key : String
  pub timeout_ms : ℕ
  pub priority : ℤ

pub data Outcome : Type 0 where
  ok rate_limited timeout server_error transport_error client_error unusable_response : Outcome

pub record ProviderAttempt : Type 0 where
  pub provider : String
  pub outcome : Outcome
  pub status_code : Option ℕ
  pub duration_ms : ℕ
  pub retry_after_seconds : Option ℕ

-- `sorted(providers, key=lambda p: p.priority)`, which is stable
unfoldable pub insert_by_priority : ProviderConfig → List ProviderConfig → List ProviderConfig
insert_by_priority p [] = p ∷ []
insert_by_priority p (q ∷ qs) =
    if leb_ℤ p.priority q.priority then p ∷ q ∷ qs else q ∷ insert_by_priority p qs

unfoldable pub sort_by_priority : List ProviderConfig → List ProviderConfig
unfolding insert_by_priority
sort_by_priority [] = []
sort_by_priority (p ∷ ps) = insert_by_priority p (sort_by_priority ps)

abbrev pub failover_statuses : List ℕ
failover_statuses =
    401 ∷ 402 ∷ 403 ∷ 404 ∷ 408 ∷ 409 ∷ 413 ∷ 425 ∷ 429 ∷ 500 ∷ 502 ∷ 503 ∷ 504 ∷ 529 ∷ []

abbrev pub caller_error_statuses : List ℕ
caller_error_statuses = 400 ∷ 405 ∷ 406 ∷ 415 ∷ 422 ∷ []

abbrev pub is_in : List ℕ → ℕ → Bool
is_in statuses s = any (λ t. t == s) statuses

-- `_BILLABLE_OUTCOMES`
abbrev pub is_billable : Outcome → Bool
is_billable Outcome.unusable_response = true
is_billable _ = false

abbrev pub is_ok : Outcome → Bool
is_ok Outcome.ok = true
is_ok _ = false

abbrev pub is_client_error : Outcome → Bool
is_client_error Outcome.client_error = true
is_client_error _ = false

abbrev pub is_timeout : Outcome → Bool
is_timeout Outcome.timeout = true
is_timeout _ = false

abbrev pub is_rate_limited : Outcome → Bool
is_rate_limited Outcome.rate_limited = true
is_rate_limited _ = false

-- the body of a response, as `response.json()` finds it
pub data Body (F : Type 0) : Type 0 where
  parsed : Json F → Body F
  not_json : Body F
  failing : Body F

-- what comes of the `try` block: a response with its status, Retry-After header and body, or the
-- exception that ends it; `cancelled` is a BaseException, which the function does not catch
pub data Reply (F : Type 0) : Type 0 where
  response : ℕ → String → Body F → Reply F
  timed_out http_error value_error other_error cancelled : Reply F

abbrev pub completion_caps : List String
completion_caps = "max_tokens" ∷ "max_completion_tokens" ∷ "max_output_tokens" ∷ []

module _ {F : Type 0} where
  -- `isinstance(v, int) and not isinstance(v, bool)`
  abbrev pub is_int : Option (Json F) → Bool
  is_int (some (int n)) = true
  is_int _ = false

  -- `payload_out`: the body that goes to the provider
  unfoldable pub outgoing : ℕ → ProviderConfig → Fields F → Fields F
  outgoing ceiling p body =
      let named = put "model" (str p.model) body in
      if any (λ cap. is_int (get cap named)) completion_caps
      then named
      else put "max_tokens" (int (pos ceiling)) named

-- What one call comes to: an attempt with the payload of a usable answer, or a cancellation.
pub data Called (F : Type 0) : Type 0 where
  done : ProviderAttempt → Option (Fields F) → Called F
  interrupted : Called F

-- the result of `_retry_after`: a ValueError out of `float`, or the seconds of a usable hint
pub data Hint : Type 0 where
  unreadable : Hint
  hint : Option ℕ → Hint

module _ (u : Unicode) where
  -- `_retry_after`; an absent header reads as the empty text
  unfoldable pub retry_after : String → Hint
  retry_after header =
      let raw = u.strip header in
      if isdigit u raw
      then elim (read_number u raw) [
        | none ↦ unreadable
        | some s ↦ hint (if leb s 3600 then some s else none)
      ]
      else hint none

  abbrev pub attempt : ProviderConfig → ℕ → Outcome → Option ℕ → Option ℕ → ProviderAttempt
  attempt p duration outcome status after = record {
    provider = p.name;
    outcome = outcome;
    status_code = status;
    duration_ms = duration;
    retry_after_seconds = after;
  }

  module _ {F : Type 0} (p : ProviderConfig) (duration : ℕ) where
    abbrev pub failed : Outcome → Option ℕ → Called F
    failed outcome status = done (attempt p duration outcome status none) none

    -- the branch of a 2xx response
    unfoldable pub read_body : ℕ → Body F → Called F
    read_body status (parsed (obj payload)) =
        done (attempt p duration Outcome.ok (some status) none) (some payload)
    read_body status (parsed _) = failed Outcome.unusable_response (some status)
    read_body status not_json = failed Outcome.unusable_response none
    read_body status failing = failed Outcome.transport_error none

    -- the branch of a 429
    unfoldable pub read_rate_limit : Hint → Called F
    read_rate_limit unreadable = failed Outcome.unusable_response none
    read_rate_limit (hint after) =
        done (attempt p duration Outcome.rate_limited (some 429) after) none

    unfoldable pub read_response : ℕ → String → Body F → Called F
    unfolding read_body read_rate_limit
    read_response status header body =
        if ltb status 200 || (leb 300 status && ltb status 400)
        then failed Outcome.server_error (some status)
        else if status == 429
        then read_rate_limit (retry_after header)
        else if is_in failover_statuses status || leb 500 status
        then failed Outcome.server_error (some status)
        else if is_in caller_error_statuses status
        then failed Outcome.client_error (some status)
        else if leb 400 status
        then failed Outcome.server_error (some status)
        else read_body status body

    -- `_call_provider`
    unfoldable pub call_provider : Reply F → Called F
    unfolding read_response
    call_provider (response status header body) = read_response status header body
    call_provider timed_out = failed Outcome.timeout none
    call_provider http_error = failed Outcome.transport_error none
    call_provider value_error = failed Outcome.unusable_response none
    call_provider other_error = failed Outcome.transport_error none
    call_provider cancelled = interrupted
