-- ===== src/Gateway/Upstream/Sealed.antt =====
-- What of the downstream's reply reaches the client: task2_mcp_gateway/gateway.py.
use fde_assessment.Base.{ℕ, ◌≤◌, ◌<◌, String, ◌≡◌, ◌⊎◌, true, false, none, some, le→leb, arith}
use fde_assessment.Base.Int.{ℤ}
use fde_assessment.Base.Unicode.{Unicode}
use fde_assessment.Json.{Json, Fields, obj, int, str, end, field, get}
use fde_assessment.Gateway.Headers.{Headers}
use fde_assessment.Gateway.Rpc.{Floats}
use fde_assessment.Gateway.Rpc.Response.{answer_id, IsResponse}
use fde_assessment.Gateway.Upstream.{
  too_deep, Codec, UpstreamReply, reply, relay, Handled, answered, uncaught, after_open,
  is_event_stream,
}
use fde_assessment.Gateway.Upstream.Capped.{join}

module _ {F : Type 0} (u : Unicode) (fl : Floats F) (codec : Codec F) (message : Fields F)
    (request_ref : String) (cap : ℕ) where
  -- Two replies of status 300 or above get the same answer from the gateway: nothing of their
  -- bodies, headers and status, a redirect's target or a stack trace, reaches the client.
  pub failures_look_alike :
      (r s : UpstreamReply)
      → 300 ≤ r.status
      → 300 ≤ s.status
      → after_open u fl codec message request_ref cap r
        ≡ after_open u fl codec message request_ref cap s
  unfolding after_open
  failures_look_alike r s bad bad' =
      let one = le→leb 300 r.status bad in let two = le→leb 300 s.status bad' in ground arith

  -- what the client may see: a response to this request, or an error of the gateway that names it
  pub data Conforms (content : Json F) : Type 0 where
    relayed :
        (payload : Fields F)
        → content ≡ obj payload
        → IsResponse fl (answer_id (get "id" message)) payload
        → Conforms content
    own :
        (code : ℤ) (text : String)
        → content
          ≡ obj (
              field "jsonrpc" (str "2.0") (
                field "id" (answer_id (get "id" message)) (
                  field "error"
                    (obj (field "code" (int code) (field "message" (str text) end)))
                    end)))
        → Conforms content

  -- what the handler comes to on a reply: a JSON body conforms, an answer without a body is a 202, the
  -- chunks that are relayed are those of an event stream that succeeded; and an exception means that
  -- the reply's body is nested too deeply for the parser, or that a body that conforms has a number
  -- that cannot be rendered
  abbrev pub Sealed : UpstreamReply → Handled F → Type 0
  Sealed r uncaught =
      (codec.response_json (join r.chunks) ≡ too_deep)
      ⊎ ((content : Json F) × Conforms content × (codec.can_render content ≡ false))
  Sealed r (answered (relay status headers chunks)) =
      (r.status < 300) × (is_event_stream r.content_type ≡ true) × (chunks ≡ r.chunks)
  Sealed r (answered (reply status headers none)) = status ≡ 202
  Sealed r (answered (reply status headers (some content))) = Conforms content
