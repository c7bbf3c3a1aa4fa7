-- ===== src/Router/Route/Failover.antt =====
-- Which provider serves a request, what is sent, and which error a failure becomes: the loop of
-- router.py against descriptions of the providers' replies.
use fde_assessment.Base.{
  ℕ, ◌≡◌, refl, ap, String, Bool, ◌&&◌, Option, none, some, List, [], ◌∷◌, ◌++◌, all, map,
  if◌then◌else◌, is_some, arith, Bool-cases, inl, inr, ◌∙◌, sym,
}
use fde_assessment.Base.Unicode.{Unicode}
use fde_assessment.Json.{Fields}
use fde_assessment.Router.Errors.{all_providers_failed, upstream_rate_limited, upstream_timeout}
use fde_assessment.Router.Providers.{
  ProviderConfig, ProviderAttempt, Outcome, Reply, is_ok, is_client_error, is_timeout,
  is_rate_limited, outgoing, Called, done, interrupted, call_provider,
}
use fde_assessment.Router.Providers.Outcomes.{
  payload_of, has_outcome, answer, is_caller_error, is_cancelled, is_interrupted, is_timed_out,
  is_limit, served_exactly, caller_error_exactly, is_interrupted-call_provider, timeout_exactly,
  rate_limited_exactly,
}
use fde_assessment.Router.Route.{
  Call, Loop, answered, rejected, exhausted, stopped, Attempted, after_call, attempt_providers,
  is_nonempty, exhausted_error,
}

module _ {F : Type 0} where
  -- what one reply decides, `rest` being what the replies after it decide
  abbrev pub choose : String → Reply F → Loop F → Loop F
  choose name reply rest = if is_cancelled reply then stopped else elim (answer reply) [
    | some payload ↦ answered payload name
    | none ↦ if is_caller_error reply then rejected else rest
  ]

  -- The first reply that is an object in a 2xx response serves the request, unless a cancellation
  -- or a reply with one of the caller's statuses comes before it.
  unfoldable pub decide : List (Call F) → Loop F
  decide [] = exhausted
  decide (c ∷ rest) = choose c.provider.name c.reply (decide rest)

  after_call-choose :
      (p : ProviderConfig) (body : Fields F) (called : Called F) (rest : Attempted F)
      (reply : Reply F)
      → payload_of called ≡ answer reply
      → has_outcome is_ok called ≡ is_some (answer reply)
      → has_outcome is_client_error called ≡ is_caller_error reply
      → is_interrupted called ≡ is_cancelled reply
      → (after_call p body called rest).loop ≡ choose p.name reply rest.loop
  unfolding after_call
  after_call-choose p body interrupted rest reply pay ok blame cut = rw (← cut)
  after_call-choose p body (done a (some payload)) rest reply pay ok blame cut =
      rw (← cut, ← pay) (ground (arith, ok, pay))
  after_call-choose p body (done a none) rest reply pay ok blame cut =
      rw (← cut, ← pay, ← blame) (ground arith)

module _ {F : Type 0} (u : Unicode) (ceiling : ℕ) (body : Fields F) where
  -- The loop serves the answer of the first provider, in order, that gives one; it stops early only
  -- at the caller's own error or a cancellation, and every other reply moves on to the next provider.
  pub attempt_providers_decides :
      (calls : List (Call F)) → (attempt_providers u ceiling body calls).loop ≡ decide calls
  unfolding attempt_providers decide
  attempt_providers_decides [] = refl
  attempt_providers_decides (c ∷ rest) =
      let (pay, ok) = served_exactly u c.provider c.duration c.reply in
      after_call-choose c.provider (outgoing ceiling c.provider body)
        (call_provider u c.provider c.duration c.reply) (attempt_providers u ceiling body rest)
        c.reply pay ok (caller_error_exactly u c.provider c.duration c.reply)
        (is_interrupted-call_provider u c.provider c.duration c.reply)
      ∙ ap (choose c.provider.name c.reply) (attempt_providers_decides rest)

  after_call-sent :
      (p : ProviderConfig) (b : Fields F) (called : Called F) (rest : Attempted F)
      (all_sent more : List (Fields F))
      → rest.sent ++ more ≡ all_sent
      → (unsent : List (Fields F)) × ((after_call p b called rest).sent ++ unsent ≡ b ∷ all_sent)
  unfolding after_call
  after_call-sent p b interrupted rest all_sent more e = (all_sent, refl)
  after_call-sent p b (done a (some payload)) rest all_sent more e =
      elim (Bool-cases (is_ok a.outcome)) [
        | inl good ↦ rw good (all_sent, refl)
        | inr bad ↦ rw bad (elim (Bool-cases (is_client_error a.outcome)) [
          | inl theirs ↦ rw theirs (all_sent, refl)
          | inr ours ↦ rw ours (more, ap (λ l. b ∷ l) e)
        ])
      ]
  after_call-sent p b (done a none) rest all_sent more e =
      elim (Bool-cases (is_client_error a.outcome)) [
        | inl theirs ↦ rw theirs (all_sent, refl)
        | inr ours ↦ rw ours (more, ap (λ l. b ∷ l) e)
      ]

  -- Each provider is sent at most one body, in the order of the providers, and that body is the
  -- caller's with the provider's model and the completion cap; what is sent is a prefix of those.
  pub attempt_providers_sends :
      (calls : List (Call F))
      → (unsent : List (Fields F)) × ((attempt_providers u ceiling body calls).sent ++ unsent
          ≡ map (λ (c : Call F). outgoing ceiling c.provider body) calls)
  unfolding attempt_providers
  attempt_providers_sends [] = ([], refl)
  attempt_providers_sends (c ∷ rest) =
      let (more, e) = attempt_providers_sends rest in
      after_call-sent c.provider (outgoing ceiling c.provider body)
        (call_provider u c.provider c.duration c.reply) (attempt_providers u ceiling body rest)
        (map (λ (k : Call F). outgoing ceiling k.provider body) rest) more e

  after_call-exhausted :
      (p : ProviderConfig) (b : Fields F) (called : Called F) (rest : Attempted F)
      → (after_call p b called rest).loop ≡ exhausted
      → (rest.loop ≡ exhausted)
        × (a : ProviderAttempt) × (payload : Option (Fields F)) × (called ≡ done a payload)
        × ((after_call p b called rest).attempts ≡ a ∷ rest.attempts)
  unfolding after_call
  after_call-exhausted p b interrupted rest e = absurd (cc)
  after_call-exhausted p b (done a (some payload)) rest e = elim (Bool-cases (is_ok a.outcome)) [
    | inl good ↦ absurd (ground arith)
    | inr bad ↦ elim (Bool-cases (is_client_error a.outcome)) [
      | inl theirs ↦ absurd (ground arith)
      | inr ours ↦ (ground arith, a, some payload, refl, ground arith)
    ]
  ]
  after_call-exhausted p b (done a none) rest e = elim (Bool-cases (is_client_error a.outcome)) [
    | inl theirs ↦ absurd (ground arith)
    | inr ours ↦ (ground arith, a, none, refl, ground arith)
  ]

  -- A test of the outcomes that a test of the replies decides has one answer for both, if every
  -- provider was tried.
  exhausted_attempts :
      (test : Outcome → Bool) (on_reply : Reply F → Bool)
      → ((c : Call F)
          → has_outcome test (call_provider u c.provider c.duration c.reply) ≡ on_reply c.reply)
      → (calls : List (Call F)) → (attempt_providers u ceiling body calls).loop ≡ exhausted
      → (all
            (λ (a : ProviderAttempt). test a.outcome)
            (attempt_providers u ceiling body calls).attempts
          ≡ all (λ (c : Call F). on_reply c.reply) calls)
        × (is_nonempty (attempt_providers u ceiling body calls).attempts ≡ is_nonempty calls)
  unfolding attempt_providers
  exhausted_attempts test on_reply same [] e = (refl, refl)
  exhausted_attempts test on_reply same (c ∷ rest) e =
      let called = call_provider u c.provider c.duration c.reply in
      let remaining = attempt_providers u ceiling body rest in
      let (on, a, payload, is, recorded) =
        after_call-exhausted c.provider (outgoing ceiling c.provider body) called remaining e in
      let (tail, _) = exhausted_attempts test on_reply same rest on in
      let head : test a.outcome ≡ on_reply c.reply = ap (has_outcome test) (sym is) ∙ same c in
      rw (recorded) (rw (head, tail) (refl, refl))

  -- When no provider could serve the request, the error is a timeout exactly if there are providers
  -- and every one of them timed out, a rate limit exactly if every one of them answered 429 with a
  -- readable Retry-After or none, and else the general failure.
  pub exhausted_code :
      (calls : List (Call F)) (request_id : String)
      → decide calls ≡ exhausted
      → (exhausted_error request_id (attempt_providers u ceiling body calls).attempts).code ≡ (
          if is_nonempty calls && all (λ (c : Call F). is_timed_out c.reply) calls
          then upstream_timeout
          else if is_nonempty calls && all (λ (c : Call F). is_limit u c.reply) calls
          then upstream_rate_limited
          else all_providers_failed)
  unfolding exhausted_error
  exhausted_code calls request_id e =
      let ended = attempt_providers_decides calls ∙ e in
      let (late, some_call) =
        exhausted_attempts is_timeout is_timed_out
          (λ c. timeout_exactly u c.provider c.duration c.reply) calls ended in
      let (limited, _) =
        exhausted_attempts is_rate_limited (is_limit u)
          (λ c. rate_limited_exactly u c.provider c.duration c.reply) calls ended in
      rw (late, limited, some_call)
