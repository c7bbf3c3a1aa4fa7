-- ===== src/Guardrail/Endpoint.antt =====
-- The endpoint of the guardrail's gateway: `completions` of
-- task3_streaming_guardrail/gateway.py. `healthz` and the response's headers are left out.
use Prim.Native.Char.{Char}
use fde_assessment.Base.{
  ℕ, String, Bool, true, Option, none, some, List, [], ◌∷◌, if◌then◌else◌, leb,
}
use fde_assessment.Base.Int.{pos}
use fde_assessment.Json.{Json, Fields, bool, int, str, obj, end, field, put}
use fde_assessment.Guardrail.Pool.{Redaction}
use fde_assessment.Guardrail.Residue.{Python}
use fde_assessment.Guardrail.Gateway.{Upstream, Streamed, stream}

-- how the upstream request opens
pub data Opened : Type 0 where
  opened : ℕ → Upstream → Opened
  unreachable : Opened

-- what the endpoint answers: an error with its status, or the stream
pub data Reply (F : Type 0) : Type 0 where
  error_reply : ℕ → Fields F → Reply F
  streaming : Streamed → Reply F

-- the answer, and the bodies that went to the provider
pub record Exchange (F : Type 0) : Type 0 where
  pub reply : Reply F
  pub sent : List (Fields F)

module _ {F R : Type 0} (py : Python F) (red : Redaction R) (max_event_bytes : ℕ)
    (is_space : Char → Bool) where
  abbrev pub error_content : String → String → Fields F → Fields F
  error_content message kind more =
      field "error" (obj (field "message" (str message) (field "type" (str kind) more))) end

  abbrev pub bad_request : String → Exchange F
  bad_request message = record {
    reply = error_reply 400 (error_content message "invalid_request_error" end);
    sent = [];
  }

  unfoldable pub relay : Opened → Reply F
  unfolding stream
  relay unreachable =
      error_reply 502 (error_content "Upstream provider unavailable" "upstream_error" end)
  relay (opened status up) =
      if leb 400 status
      then error_reply status (
          error_content "Upstream provider returned an error" "upstream_error"
            (field "code" (int (pos status)) end))
      else streaming (stream py red max_event_bytes is_space up)

  -- `completions`, where `upstream` is what the provider does with a body; the request's own is what
  -- `request.json()` gives, or `none` for a ValueError, and reading the body of a provider's error is
  -- taken not to fail
  unfoldable pub completions : (Fields F → Opened) → Option (Json F) → Exchange F
  unfolding relay put
  completions upstream none = bad_request "Request body is not valid JSON"
  completions upstream (some (obj body)) =
      let asked = put "stream" (bool true) body in
      record { reply = relay (upstream asked); sent = asked ∷ [] }
  completions upstream (some v) = bad_request "Request body must be a JSON object"
