-- ===== src/Router/Page.antt =====
-- The payload that the client of a served request is shown: the end of `completions` of
-- task4_model_router/app.py.
use text.Mathlib.Text.{◌==◌ as str_eq}
use fde_assessment.Base.{String, Bool, Option, some, List, [], ◌∷◌, any, if◌then◌else◌}
use fde_assessment.Base.Int.{pos}
use fde_assessment.Json.{Json, Items, Fields, int, str, arr, obj, nil, cons, end, field, get, put}
use fde_assessment.Router.Providers.{
  Outcome, ok, rate_limited, timeout, server_error, transport_error, client_error,
  unusable_response, ProviderAttempt,
}
use fde_assessment.Router.Route.{RouteResult}

abbrev pub allowed_response_fields : List String
allowed_response_fields =
    "id" ∷ "object" ∷ "created" ∷ "model" ∷ "choices" ∷ "usage" ∷ "system_fingerprint"
    ∷ "service_tier" ∷ "provider" ∷ []

abbrev pub is_relayed : String → Bool
is_relayed k = any (λ a. str_eq a k) allowed_response_fields

-- the outcome's text
unfoldable pub outcome_name : Outcome → String
outcome_name ok = "ok"
outcome_name rate_limited = "rate_limited"
outcome_name timeout = "timeout"
outcome_name server_error = "server_error"
outcome_name transport_error = "transport_error"
outcome_name client_error = "client_error"
outcome_name unusable_response = "unusable_response"

module _ {F : Type 0} where
  -- `{k: v for k, v in fields.items() if k in _ALLOWED_RESPONSE_FIELDS}`
  unfoldable pub relayed_fields : Fields F → Fields F
  relayed_fields end = end
  relayed_fields (field k v fs) =
      let rest = relayed_fields fs in if is_relayed k then field k v rest else rest

  -- the dictionary that `usage` starts from
  unfoldable pub usage_of : Option (Json F) → Fields F
  usage_of (some (obj fs)) = fs
  usage_of _ = end

  unfoldable pub attempt_items : List ProviderAttempt → Items F
  unfolding outcome_name
  attempt_items [] = nil
  attempt_items (a ∷ rest) =
      cons
        (obj
          (field "provider" (str a.provider) (field "outcome" (str (outcome_name a.outcome)) end)))
        (attempt_items rest)

  -- `payload["gateway"]`
  unfoldable pub gateway_note : RouteResult F → Fields F
  unfolding attempt_items
  gateway_note res = field "request_id" (str res.request_id) (
      field "served_by" (str res.provider) (
        field "attempts" (arr (attempt_items res.attempts))
          (field "tokens_charged" (int (pos res.tokens_charged)) end)))

  -- the payload of a served request
  unfoldable pub page_of : RouteResult F → Fields F
  unfolding relayed_fields usage_of gateway_note
  page_of res =
      let payload = relayed_fields res.payload in
      put "gateway" (obj (gateway_note res)) (
        put "usage"
          (obj (put "total_tokens" (int (pos res.tokens_charged)) (usage_of (get "usage" payload))))
          payload)
