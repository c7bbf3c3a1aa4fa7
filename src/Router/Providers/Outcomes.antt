-- ===== src/Router/Providers/Outcomes.antt =====
-- Which replies are served, are the caller's fault, or are billed: `_call_provider` of router.py
-- against descriptions of the replies.
use fde_assessment.Base.{
  is_some, ℕ, ◌≡◌, inl, inr, refl, String, Bool, true, false, not, ◌&&◌, ◌||◌, Option, none, some,
  ltb, leb, ◌==◌, if◌then◌else◌, arith, Bool-cases, Option-cases, ◌∙◌,
}
use fde_assessment.Base.Unicode.{Unicode, isdigit, read_number}
use fde_assessment.Json.{Json, Fields, obj}
use fde_assessment.Router.Providers.{
  ProviderConfig, Outcome, failover_statuses, caller_error_statuses, is_in, is_billable, is_ok,
  is_client_error, is_timeout, is_rate_limited, Body, parsed, not_json, failing, Reply, response,
  timed_out, value_error, cancelled, Called, done, interrupted, Hint, unreadable, hint, retry_after,
  failed, read_body, read_rate_limit, read_response, call_provider,
}

abbrev pub is_success : ℕ → Bool
is_success status = leb 200 status && ltb status 300

module _ {F : Type 0} where
  abbrev pub payload_of : Called F → Option (Fields F)
  payload_of (done a payload) = payload
  payload_of interrupted = none

  abbrev pub has_outcome : (Outcome → Bool) → Called F → Bool
  has_outcome p (done a payload) = p a.outcome
  has_outcome p interrupted = false

  -- the object of a 2xx answer
  abbrev pub answer : Reply F → Option (Fields F)
  answer (response status header (parsed (obj payload))) =
      if is_success status then some payload else none
  answer _ = none

  abbrev pub is_object : Json F → Bool
  is_object (obj _) = true
  is_object _ = false

  -- a body that the parser rejects as JSON, or that is JSON and no object
  abbrev pub is_unusable_body : Body F → Bool
  is_unusable_body (parsed v) = not (is_object v)
  is_unusable_body not_json = true
  is_unusable_body failing = false

  abbrev pub is_caller_error : Reply F → Bool
  is_caller_error (response status header body) = is_in caller_error_statuses status
  is_caller_error _ = false

abbrev pub is_interrupted : {F : Type 0} → Called F → Bool
is_interrupted interrupted = true
is_interrupted (done a payload) = false

abbrev pub is_cancelled : {F : Type 0} → Reply F → Bool
is_cancelled cancelled = true
is_cancelled _ = false

abbrev pub is_timed_out : {F : Type 0} → Reply F → Bool
is_timed_out timed_out = true
is_timed_out _ = false

abbrev pub is_unreadable : Hint → Bool
is_unreadable unreadable = true
is_unreadable (hint _) = false

is_unreadable-retry_after :
    (u : Unicode) (header : String)
    → is_unreadable (retry_after u header)
      ≡ (isdigit u (u.strip header) && not (is_some (read_number u (u.strip header))))
unfolding retry_after
is_unreadable-retry_after u header = elim (Bool-cases (isdigit u (u.strip header))) [
  | inr other ↦ rw other
  | inl digits ↦ elim (Option-cases (read_number u (u.strip header))) [
    | inl failed ↦ rw (digits, failed)
    | inr (s, e) ↦ rw (digits, e)
  ]
]

-- the caller's statuses pass none of the tests above theirs
caller_status :
    (status : ℕ)
    → is_in caller_error_statuses status ≡ true
    → ((ltb status 200 || (leb 300 status && ltb status 400)) ≡ false)
      × ((status == 429) ≡ false)
      × ((is_in failover_statuses status || leb 500 status) ≡ false)
caller_status status h = ground arith

and_last :
    (a b c d : Bool)
    → (d ≡ true → (a ≡ false) × (b ≡ false) × (c ≡ false))
    → (not a && (not b && (not c && d))) ≡ d
and_last a b c false h = ground arith
and_last a b c true h = let (p, q, r) = h refl in rw (p, q, r)

only_caller :
    (status : ℕ)
    → (not (ltb status 200 || (leb 300 status && ltb status 400))
        && (not (status == 429)
            && (not (is_in failover_statuses status || leb 500 status)
                && is_in caller_error_statuses status)))
      ≡ is_in caller_error_statuses status
only_caller status =
    and_last (ltb status 200 || (leb 300 status && ltb status 400)) (status == 429)
      (is_in failover_statuses status || leb 500 status) (is_in caller_error_statuses status)
      (caller_status status)

-- a 429 whose Retry-After header is readable
abbrev pub is_limit : Unicode → {F : Type 0} → Reply F → Bool
is_limit u (response status header body) =
    status == 429 && not (is_unreadable (retry_after u header))
is_limit u _ = false

module _ (u : Unicode) (F : Type 0) (p : ProviderConfig) (duration : ℕ) where
  read_rate_limit-blames_nobody :
      (h : Hint) → has_outcome {F = F} is_client_error (read_rate_limit u p duration h) ≡ false
  unfolding read_rate_limit
  read_rate_limit-blames_nobody unreadable = refl
  read_rate_limit-blames_nobody (hint after) = refl

  read_rate_limit-billed :
      (h : Hint)
      → has_outcome {F = F} is_billable (read_rate_limit u p duration h) ≡ is_unreadable h
  unfolding read_rate_limit
  read_rate_limit-billed unreadable = refl
  read_rate_limit-billed (hint after) = refl

  read_rate_limit-others :
      (h : Hint)
      → (has_outcome {F = F} is_timeout (read_rate_limit u p duration h) ≡ false)
        × (has_outcome {F = F} is_rate_limited (read_rate_limit u p duration h)
            ≡ not (is_unreadable h))
        × (is_interrupted {F = F} (read_rate_limit u p duration h) ≡ false)
  unfolding read_rate_limit
  read_rate_limit-others unreadable = (refl, refl, refl)
  read_rate_limit-others (hint after) = (refl, refl, refl)

module _ (u : Unicode) {F : Type 0} (p : ProviderConfig) (duration : ℕ) where
  -- what the reservation is charged for though no answer was served
  abbrev pub is_billed : Reply F → Bool
  is_billed (response status header body) =
      (is_success status && is_unusable_body body)
      || (status == 429
          && (isdigit u (u.strip header) && not (is_some (read_number u (u.strip header)))))
  is_billed value_error = true
  is_billed _ = false

  success_reads_body :
      (status : ℕ) (header : String) (body : Body F)
      → is_success status ≡ true
      → read_response u p duration status header body ≡ read_body u p duration status body
  unfolding read_response
  success_reads_body status header body ok = ground arith

  failure_serves_nothing :
      (status : ℕ) (header : String) (body : Body F)
      → is_success status ≡ false
      → (payload_of (read_response u p duration status header body) ≡ none)
        × (has_outcome is_ok (read_response u p duration status header body) ≡ false)
  unfolding read_response
  failure_serves_nothing status header body bad = ground arith

  answer_failed :
      (status : ℕ) (header : String) (body : Body F)
      → is_success status ≡ false
      → answer (response status header body) ≡ none
  answer_failed status header (parsed (obj payload)) bad = rw bad
  answer_failed status header (parsed v) bad = refl
  answer_failed status header not_json bad = refl
  answer_failed status header failing bad = refl

  read_body-serves :
      (status : ℕ) (header : String) (body : Body F)
      → is_success status ≡ true
      → (payload_of (read_body u p duration status body) ≡ answer (response status header body))
        × (has_outcome is_ok (read_body u p duration status body)
            ≡ is_some (answer (response status header body)))
  unfolding read_body
  read_body-serves status header (parsed (obj payload)) ok = rw ok (refl, refl)
  read_body-serves status header (parsed v) ok = (refl, refl)
  read_body-serves status header not_json ok = (refl, refl)
  read_body-serves status header failing ok = (refl, refl)

  -- A call has a payload to serve, and the outcome `ok`, exactly if the reply is a 2xx response
  -- whose body is a JSON object; the payload is that object.
  pub served_exactly :
      (reply : Reply F)
      → let called = call_provider u p duration reply in
        (payload_of called ≡ answer reply) × (has_outcome is_ok called ≡ is_some (answer reply))
  unfolding call_provider
  served_exactly (response status header body) = elim (Bool-cases (is_success status)) [
    | inl good ↦
        rw (success_reads_body status header body good) (read_body-serves status header body good)
    | inr bad ↦
        rw (answer_failed status header body bad) (failure_serves_nothing status header body bad)
  ]
  served_exactly timed_out = (refl, refl)
  served_exactly _ = (refl, refl)

  read_body-blames_nobody :
      (status : ℕ) (body : Body F)
      → has_outcome is_client_error (read_body u p duration status body) ≡ false
  unfolding read_body
  read_body-blames_nobody status (parsed (obj payload)) = refl
  read_body-blames_nobody status (parsed v) = refl
  read_body-blames_nobody status not_json = refl
  read_body-blames_nobody status failing = refl

  -- the ladder of `read_response`, whatever its tests say
  ladder-blames :
      (odd limited theirs caller client : Bool) (status : ℕ) (h : Hint) (body : Body F)
      → has_outcome is_client_error (
          if odd
          then failed u p duration Outcome.server_error (some status)
          else if limited
          then read_rate_limit u p duration h
          else if theirs
          then failed u p duration Outcome.server_error (some status)
          else if caller
          then failed u p duration Outcome.client_error (some status)
          else if client
          then failed u p duration Outcome.server_error (some status)
          else read_body u p duration status body)
        ≡ (not odd && (not limited && (not theirs && caller)))
  ladder-blames odd limited theirs caller client status h body =
      ground
        (arith, read_rate_limit-blames_nobody u F p duration h, read_body-blames_nobody status body)

  response-blames :
      (status : ℕ) (header : String) (body : Body F)
      → has_outcome is_client_error (read_response u p duration status header body)
        ≡ is_in caller_error_statuses status
  unfolding read_response
  response-blames status header body =
      ladder-blames (ltb status 200 || (leb 300 status && ltb status 400)) (status == 429)
        (is_in failover_statuses status || leb 500 status) (is_in caller_error_statuses status)
        (leb 400 status) status (retry_after u header) body
      ∙ only_caller status

  read_body-billed :
      (status : ℕ) (body : Body F)
      → has_outcome is_billable (read_body u p duration status body) ≡ is_unusable_body body
  unfolding read_body
  read_body-billed status (parsed (obj payload)) = refl
  read_body-billed status (parsed v) = refl
  read_body-billed status not_json = refl
  read_body-billed status failing = refl

  failure-billed :
      (status : ℕ) (header : String) (body : Body F)
      → is_success status ≡ false
      → has_outcome is_billable (read_response u p duration status header body)
        ≡ is_billed (response status header body)
  unfolding read_response
  failure-billed status header body bad = ground (
    arith,
    read_rate_limit-billed u F p duration (retry_after u header),
    is_unreadable-retry_after u header,
  )

  -- A failure is put down to the caller, and ends the search for a provider, exactly if the reply
  -- is a response with one of the caller's statuses.
  pub caller_error_exactly :
      (reply : Reply F)
      → has_outcome is_client_error (call_provider u p duration reply) ≡ is_caller_error reply
  unfolding call_provider
  caller_error_exactly (response status header body) = response-blames status header body
  caller_error_exactly timed_out = refl
  caller_error_exactly _ = refl

  -- An outcome is billed exactly if a 2xx response has a body that is not a JSON object, or a 429
  -- has a Retry-After that, stripped, passes `isdigit` and that `float` refuses, or a ValueError ends the call.
  pub billed_exactly :
      (reply : Reply F)
      → has_outcome is_billable (call_provider u p duration reply) ≡ is_billed reply
  unfolding call_provider
  billed_exactly (response status header body) = elim (Bool-cases (is_success status)) [
    | inl good ↦
        rw (success_reads_body status header body good, good)
          (ground (arith, read_body-billed status body))
    | inr bad ↦ failure-billed status header body bad
  ]
  billed_exactly timed_out = refl
  billed_exactly _ = refl

  read_body-others :
      (status : ℕ) (body : Body F)
      → (has_outcome is_timeout (read_body u p duration status body) ≡ false)
        × (has_outcome is_rate_limited (read_body u p duration status body) ≡ false)
        × (is_interrupted (read_body u p duration status body) ≡ false)
  unfolding read_body
  read_body-others status (parsed (obj payload)) = (refl, refl, refl)
  read_body-others status (parsed v) = (refl, refl, refl)
  read_body-others status not_json = (refl, refl, refl)
  read_body-others status failing = (refl, refl, refl)

  ladder-others :
      (odd limited theirs caller client : Bool) (status : ℕ) (h : Hint) (body : Body F)
      → (limited ≡ true → odd ≡ false)
      → let called =
          (if odd
            then failed u p duration Outcome.server_error (some status)
            else if limited
            then read_rate_limit u p duration h
            else if theirs
            then failed u p duration Outcome.server_error (some status)
            else if caller
            then failed u p duration Outcome.client_error (some status)
            else if client
            then failed u p duration Outcome.server_error (some status)
            else read_body u p duration status body) in
        (has_outcome is_timeout called ≡ false)
        × (has_outcome is_rate_limited called ≡ (limited && not (is_unreadable h)))
        × (is_interrupted called ≡ false)
  ladder-others odd limited theirs caller client status h body even =
      ground (arith, even, read_rate_limit-others u F p duration h, read_body-others status body)

  response-others :
      (status : ℕ) (header : String) (body : Body F)
      → let called = read_response u p duration status header body in
        (has_outcome is_timeout called ≡ false)
        × (has_outcome is_rate_limited called ≡ is_limit u (response status header body))
        × (is_interrupted called ≡ false)
  unfolding read_response
  response-others status header body =
      ladder-others (ltb status 200 || (leb 300 status && ltb status 400)) (status == 429)
        (is_in failover_statuses status || leb 500 status) (is_in caller_error_statuses status)
        (leb 400 status) status (retry_after u header) body (λ h. ground arith)

  -- A call is cancelled exactly if its reply is the cancellation.
  pub is_interrupted-call_provider :
      (reply : Reply F) → is_interrupted (call_provider u p duration reply) ≡ is_cancelled reply
  unfolding call_provider
  is_interrupted-call_provider (response status header body) =
      (response-others status header body).2
  is_interrupted-call_provider cancelled = refl
  is_interrupted-call_provider _ = refl

  pub timeout_exactly :
      (reply : Reply F)
      → has_outcome is_timeout (call_provider u p duration reply) ≡ is_timed_out reply
  unfolding call_provider
  timeout_exactly (response status header body) = (response-others status header body).0
  timeout_exactly timed_out = refl
  timeout_exactly _ = refl

  pub rate_limited_exactly :
      (reply : Reply F)
      → has_outcome is_rate_limited (call_provider u p duration reply) ≡ is_limit u reply
  unfolding call_provider
  rate_limited_exactly (response status header body) = (response-others status header body).1
  rate_limited_exactly timed_out = refl
  rate_limited_exactly _ = refl
