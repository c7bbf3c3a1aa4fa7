-- ===== src/Router/App/Answers.antt =====
-- That every answer of the router's endpoint is a page or an error envelope of the request's own:
-- task4_model_router/app.py with `route` of router.py.
use fde_assessment.Base.{
  ℕ, String, ◌≡◌, inl, inr, refl, sym, subst, true, Option, none, some, List, All, Bool-cases,
  Option-cases,
}
use fde_assessment.Base.Unicode.{Unicode}
use fde_assessment.Json.{Fields}
use fde_assessment.Router.Limiter.{Table, Limits, Reservation, LimitDecision, try_reserve}
use fde_assessment.Router.Tokens.{Runtime, estimate_request_tokens}
use fde_assessment.Router.Errors.{
  GatewayError, Envelope, status_of, is_public, to_payload, message_of,
}
use fde_assessment.Router.Errors.Public.{keep-All}
use fde_assessment.Router.Route.{
  World, RouteEnd, served, raised, cancelled, crashed, route, route_estimated, proceed, conclude,
  Attempted, Loop, answered, rejected, exhausted, stopped, attempt_providers, rejected_error,
  exhausted_error, rate_limit_error,
}
use fde_assessment.Router.Providers.{ProviderAttempt}
use fde_assessment.Router.App.{
  Web, HttpRequest, Ended, refused, Response, page, envelope, hung_up, abandoned, present, respond,
  answer, gateway_error_handler, unhandled_handler,
}
use fde_assessment.Router.Page.{page_of}
use fde_assessment.Router.App.Admitted.{IsRefusal, completions_routes-IsAdmitted}
use fde_assessment.Router.App.Served.{AreShown, page_of-AreShown}

-- the request's own id stands on what `route` returns or raises
abbrev HasOwnId : {F : Type 0} → String → RouteEnd F → Type 0
HasOwnId request_id (served res) = res.request_id ≡ request_id
HasOwnId request_id (raised g) = g.request_id ≡ request_id
HasOwnId request_id _ = Unit

module _ {F : Type 0} (u : Unicode) (ceiling : ℕ) (l : Limits) (w : World F) where
  conclude-HasOwnId :
      (r : Reservation) (estimated : ℕ) (loop : Loop F) (attempts : List ProviderAttempt)
      (sent : List (Fields F)) (rows : Table)
      → let a : Attempted F = record { loop = loop; attempts = attempts; sent = sent } in
        HasOwnId w.request_id (conclude l w r estimated a rows).0
  unfolding conclude
  conclude-HasOwnId r estimated (answered payload name) attempts sent rows =
      elim (Bool-cases w.cancelled_settling) [
        | inl late ↦ rw (late, HasOwnId) tt
        | inr in_time ↦ rw (in_time, HasOwnId) refl
      ]
  conclude-HasOwnId r estimated rejected attempts sent rows = unfold rejected_error in refl
  conclude-HasOwnId r estimated exhausted attempts sent rows = unfold exhausted_error in refl
  conclude-HasOwnId r estimated stopped attempts sent rows = tt

  proceed-HasOwnId :
      (body : Fields F) (estimated : ℕ) (decision : Option LimitDecision) (rows : Table)
      → HasOwnId w.request_id (proceed u ceiling l w body estimated decision rows).end
  unfolding proceed rate_limit_error
  proceed-HasOwnId body estimated none rows = tt
  proceed-HasOwnId body estimated (some d) rows = elim (Bool-cases d.allowed) [
    | inr over ↦ rw (over, HasOwnId) refl
    | inl fits ↦ elim (Option-cases d.reservation) [
      | inl missing ↦ rw (fits, missing, HasOwnId) tt
      | inr (r, held) ↦
          let a = attempt_providers u ceiling body w.calls in
          rw (fits, held, HasOwnId) (conclude-HasOwnId r estimated a.loop a.attempts a.sent rows)
    ]
  ]

  route-HasOwnId :
      (rt : Runtime F) (key : String) (body : Fields F) (rows : Table)
      → HasOwnId w.request_id (route u ceiling l w rt key body rows).end
  unfolding route route_estimated
  route-HasOwnId rt key body rows =
      let estimated = estimate_request_tokens rt ceiling none body in
      let (decision, rows') = try_reserve l w.now w.later w.fresh key estimated rows in
      elim (Bool-cases w.cancelled_reserving) [
        | inl hung ↦ rw (hung, HasOwnId) tt
        | inr here ↦ rw (here, HasOwnId) (proceed-HasOwnId body estimated decision rows')
      ]

-- an error's envelope: the status and the message of its code, the request's id, and no detail but
-- the public ones
pub record IsEnveloped (request_id : String) (status : ℕ) (body : Envelope) : Type 0 where
  pub own_id : body.request_id ≡ request_id
  pub status_code : status ≡ status_of body.code
  pub message : body.message ≡ message_of body.code
  pub details : All (λ d. is_public d ≡ true) body.details

abbrev pub IsAnswer : {F : Type 0} → String → Response F → Type 0
IsAnswer request_id (page own shown) = (own ≡ request_id) × AreShown shown
IsAnswer request_id (envelope status after body) = IsEnveloped request_id status body
IsAnswer request_id hung_up = Unit
IsAnswer request_id abandoned = Unit

module _ (F : Type 0) (request_id : String) where
  respond-IsEnveloped :
      (g : GatewayError)
      → g.request_id ≡ request_id
      → IsAnswer {F = F} request_id (respond request_id (refused g))
  unfolding respond gateway_error_handler to_payload
  respond-IsEnveloped g own = record {
    own_id = own;
    status_code = refl;
    message = refl;
    details = keep-All g.details;
  }

  unhandled_handler-IsAnswer : IsAnswer {F = F} request_id (unhandled_handler request_id)
  unfolding unhandled_handler to_payload status_of
  unhandled_handler-IsAnswer = record {
    own_id = refl;
    status_code = refl;
    message = refl;
    details = tt;
  }

  respond-IsRefusal :
      {how : Ended F} → IsRefusal request_id how → IsAnswer request_id (respond request_id how)
  unfolding respond
  respond-IsRefusal IsRefusal.no_key = respond-IsEnveloped _ refl
  respond-IsRefusal IsRefusal.bad_body = respond-IsEnveloped _ refl
  respond-IsRefusal IsRefusal.bad_messages = respond-IsEnveloped _ refl
  respond-IsRefusal IsRefusal.wants_stream = respond-IsEnveloped _ refl
  respond-IsRefusal IsRefusal.client_left = tt
  respond-IsRefusal IsRefusal.odd_length = unhandled_handler-IsAnswer

  respond-present :
      (web : Web F) (how : RouteEnd F)
      → HasOwnId request_id how
      → IsAnswer request_id (respond request_id (present web how))
  unfolding present respond
  respond-present web (served res) own = elim (Bool-cases (web.can_render (page_of res))) [
    | inl fine ↦ rw (fine, IsAnswer) (own, page_of-AreShown res)
    | inr odd ↦ rw (odd, IsAnswer) unhandled_handler-IsAnswer
  ]
  respond-present web (raised g) own = respond-IsEnveloped g own
  respond-present web cancelled own = tt
  respond-present web crashed own = unhandled_handler-IsAnswer

-- Whatever a client gets of the endpoint is a page with the request's id and no field but those that
-- may be shown, an error's envelope with the status and the message of its code, the request's id and
-- none but the public details, the bare 499, or nothing since the request was cancelled.
pub answer-IsAnswer :
    {F : Type 0} (web : Web F) (u : Unicode) (api_keys : List (String × String))
    (max_request_bytes : ℕ) (rt : Runtime F) (ceiling : ℕ) (l : Limits) (w : World F)
    (req : HttpRequest) (rows : Table)
    → IsAnswer w.request_id (answer web u api_keys max_request_bytes rt ceiling l w req rows)
unfolding answer
answer-IsAnswer {F = F} web u api_keys max_request_bytes rt ceiling l w req rows =
    elim (completions_routes-IsAdmitted web u api_keys max_request_bytes rt ceiling l w req rows) [
      | inr (refusal, _, _) ↦ respond-IsRefusal F w.request_id refusal
      | inl (key, body, fit, (ends, _, _)) ↦
          subst (λ how. IsAnswer w.request_id (respond w.request_id how)) (sym ends)
            (respond-present F w.request_id web (route u ceiling l w rt key body rows).end
              (route-HasOwnId u ceiling l w rt key body rows))
    ]
