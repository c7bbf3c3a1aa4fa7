-- ===== src/Gateway/Proxy/Tests.antt =====
-- The gateway on concrete requests, and its theorems at inputs that meet their hypotheses.
use fde_assessment.Base.{
  ℕ, ◌≡◌, refl, String, true, false, none, some, List, [], ◌∷◌, ◌↔◌, inl, All, if◌then◌else◌, leb,
  length,
}
use fde_assessment.Base.Int.{pos}
use fde_assessment.Base.Samples.{latin1}
use fde_assessment.Base.Unicode.{is_ascii, text_length}
use fde_assessment.Json.{Fields, int, str, obj, end, field}
use fde_assessment.Gateway.Auth.{
  Principal, ok, authenticate, partition_blank, IsRegistered, authenticate_sound,
}
use fde_assessment.Gateway.Policy.{default_tool_rules}
use fde_assessment.Gateway.Headers.{Headers, isprintable, downstream_headers, request_reference}
use fde_assessment.Gateway.Headers.Safe.{is_safe, downstream_headers_safe}
use fde_assessment.Gateway.Rpc.{Floats, validate_envelope}
use fde_assessment.Gateway.Rpc.Envelope.{IsMessage, validate_envelope_decides}
use fde_assessment.Gateway.Screen.{forward, screen_message}
use fde_assessment.Gateway.Screen.Gate.{MayPass, screen_message_decides}
use fde_assessment.Gateway.Upstream.{
  Bytes, Loaded, loaded, value_error, Codec, UpstreamReply, finished, read_capped, too_big,
  finish_read, reply,
}
use fde_assessment.Gateway.Upstream.Capped.{join, read_capped_exact}
use fde_assessment.Gateway.Upstream.Sealed.{Sealed}
use fde_assessment.Gateway.Proxy.{Request, Settings, Opened, opened, proxy, respond}
use fde_assessment.Gateway.Proxy.Forwarded.{
  CallsOf, proxy_forwards_vetted, admin_call_reaches_for_admin,
}

abbrev Flt : Type 0
Flt = Unit {0}

abbrev floats : Floats Flt
floats = record { eq = λ x y. true; eq_int = λ x n. false }

abbrev alice : Principal
alice = record { subject = "alice@example.com"; role = "admin" }

abbrev bob : Principal
bob = record { subject = "bob@example.com"; role = "viewer" }

abbrev tokens : List (String × Principal)
tokens = ("admin-token-abc123", alice) ∷ ("viewer-token-def456", bob) ∷ []

abbrev reset_params : Fields Flt
reset_params = field "name" (str "admin_reset_key") end

abbrev reset_call : Fields Flt
reset_call = field "jsonrpc" (str "2.0") (
    field "id" (int (pos 7))
      (field "method" (str "tools/call") (field "params" (obj reset_params) end)))

abbrev notice : Fields Flt
notice = field "jsonrpc" (str "2.0") (field "method" (str "notifications/initialized") end)

abbrev answer : Fields Flt
answer = field "jsonrpc" (str "2.0") (field "id" (int (pos 7)) (field "result" (str "done") end))

abbrev loads : Bytes → Loaded Flt
loads [] = value_error
loads (b ∷ bs) = loaded (obj reset_call)

abbrev codec : Codec Flt
codec = record { loads = loads; response_json = λ b. loaded (obj answer); can_render = λ j. true }

abbrev settings : Settings
settings = record {
  tokens = tokens;
  rules = default_tool_rules;
  service_token = "service";
  max_body = 10;
  max_response = 10;
}

abbrev reply_of : ℕ → UpstreamReply
reply_of status = record {
  status = status;
  content_type = "application/json";
  session_id = none;
  chunks = (1 ∷ []) ∷ [];
  finish = finished;
}

abbrev upstream : Fields Flt → Headers → Opened
upstream message headers = opened (reply_of 200)

abbrev request : String → Request
request credential = record {
  authorization = credential ∷ [];
  header = λ name. none;
  chunks = (1 ∷ 2 ∷ []) ∷ (3 ∷ []) ∷ [];
  disconnects = false;
}

abbrev own : Headers
own = downstream_headers latin1 "service" alice "r" (λ name. none)

abbrev by_alice : Request
by_alice = request "bearer admin-token-abc123"

abbrev by_bob : Request
by_bob = request "bearer viewer-token-def456"

by_bob_sends_nothing : (proxy latin1 floats codec settings upstream "r" by_bob).sent ≡ []
unfolding proxy
by_bob_sends_nothing = refl

by_alice_is_answered :
    respond latin1 floats codec settings upstream "r" by_alice
    ≡ reply 200 (("X-Request-Id", "r") ∷ []) (some (obj answer))
unfolding respond
by_alice_is_answered = refl

admin_call_reaches_for_admin_example :
    (p : Principal) × (authenticate latin1 tokens ("bearer admin-token-abc123" ∷ []) ≡ ok p)
    × (p.role ≡ "admin")
unfolding proxy
admin_call_reaches_for_admin_example =
    admin_call_reaches_for_admin latin1 floats codec settings upstream "r" by_alice reset_call
      reset_params "admin_reset_key" own [] refl refl refl refl refl (inl refl)

proxy_forwards_vetted_example :
    CallsOf latin1 floats codec settings upstream
      (authenticate latin1 tokens by_alice.authorization)
      (request_reference latin1 "r" none)
      by_alice
      (proxy latin1 floats codec settings upstream "r" by_alice).sent
proxy_forwards_vetted_example =
    proxy_forwards_vetted latin1 floats codec settings upstream "r" by_alice

screen_message_decides_example :
    (screen_message latin1 default_tool_rules bob reset_call ≡ forward)
    ↔ MayPass latin1 default_tool_rules bob reset_call
screen_message_decides_example = screen_message_decides latin1 default_tool_rules bob reset_call

authenticate_sound_example :
    (header : String) × ("bearer viewer-token-def456" ∷ [] ≡ header ∷ [])
    × (latin1.lower (partition_blank header).0 ≡ "bearer")
    × IsRegistered (partition_blank header).1 bob tokens
unfolding authenticate is_ascii
authenticate_sound_example =
    authenticate_sound latin1 tokens ("bearer viewer-token-def456" ∷ []) bob refl

validate_envelope_decides_example :
    (validate_envelope (obj reset_call) ≡ none) ↔ IsMessage (obj reset_call)
validate_envelope_decides_example = validate_envelope_decides (obj reset_call)

read_capped_exact_example : read_capped 2 [] ((1 ∷ 2 ∷ []) ∷ (3 ∷ []) ∷ []) finished ≡ (
    if leb (length (join ((1 ∷ 2 ∷ []) ∷ (3 ∷ []) ∷ []))) 2
    then finish_read (join ((1 ∷ 2 ∷ []) ∷ (3 ∷ []) ∷ [])) finished
    else too_big)
read_capped_exact_example = read_capped_exact 2 ((1 ∷ 2 ∷ []) ∷ (3 ∷ []) ∷ []) finished

downstream_headers_safe_example :
    All
      (λ h. is_safe latin1 h.1 ≡ true)
      (downstream_headers latin1 "service" alice "r" (λ name. some "x"))
unfolding is_ascii isprintable text_length
downstream_headers_safe_example =
    downstream_headers_safe latin1 refl "service" alice "r" (λ name. some "x")
      (refl, (refl, (refl, tt))) refl
