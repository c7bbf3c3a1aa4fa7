-- ===== src/Server/Session/Screened.antt =====
-- What reaches the server: the pump of task1_mcp_server/server.py.
use mathlib.Core.Option.{none-ne-some}
use fde_assessment.Base.{
  ◌≡◌, refl, sym, subst, inl, inr, String, true, false, Option, none, some, List, [], ◌∷◌, ◌++◌,
  All, All-append, Bool-cases, Option-cases,
}
use text.Mathlib.Text.{◌==◌ as str_eq}
use fde_assessment.Json.{Json, Fields}
use fde_assessment.Json
use fde_assessment.Server.Frames.{
  RequestId, Message, unparsed, request, notification, client_reply, tools_call_envelope_error,
  name_error, arguments_error, Details, carries_id,
}
use fde_assessment.Server.Session.{
  Lines, Session, tracked_send, forward, refusal_of, refuse, pump_message, answer, announce, Run,
  start, arrive, act,
}

module _ {F : Type 0} where
  -- the envelope of a call: a name that is a text and not empty, and arguments that are an object if any
  abbrev pub IsName : Option (Json F) → Type 0
  IsName (some (Json.str name)) = str_eq name "" ≡ false
  IsName _ = ⊥

  abbrev pub AreArguments : Option (Json F) → Type 0
  AreArguments none = Unit
  AreArguments (some Json.null) = Unit
  AreArguments (some (Json.obj fields)) = Unit
  AreArguments _ = ⊥

  abbrev pub IsEnvelope : Option (Fields F) → Type 0
  IsEnvelope none = ⊥
  IsEnvelope (some fields) =
      IsName (Json.get "name" fields) × AreArguments (Json.get "arguments" fields)

  abbrev pub IsScreened : Message F → Type 0
  IsScreened unparsed = ⊥
  IsScreened (request id method params) = str_eq method "tools/call" ≡ true → IsEnvelope params
  IsScreened (notification method params) = Unit
  IsScreened (client_reply id) = Unit

  arguments_error-AreArguments :
      (name : String) (arguments : Option (Json F))
      → arguments_error name arguments ≡ none
      → AreArguments arguments
  arguments_error-AreArguments name none e = tt
  arguments_error-AreArguments name (some Json.null) e = tt
  arguments_error-AreArguments name (some (Json.obj fields)) e = tt
  arguments_error-AreArguments name (some _) e = absurd (none-ne-some _ (sym e))

  name_error-IsName :
      (name arguments : Option (Json F))
      → name_error name arguments ≡ none
      → IsName name × AreArguments arguments
  name_error-IsName (some (Json.str name)) arguments e = elim (Bool-cases (str_eq name "")) [
    | inl empty ↦ absurd (none-ne-some _ (sym (rw empty at e)))
    | inr named ↦ (named, arguments_error-AreArguments name arguments (rw named at e))
  ]
  name_error-IsName _ arguments e = absurd (none-ne-some _ (sym e))

  tools_call_envelope_error-IsEnvelope :
      (params : Option (Fields F)) → tools_call_envelope_error params ≡ none → IsEnvelope params
  unfolding tools_call_envelope_error
  tools_call_envelope_error-IsEnvelope none e = absurd (none-ne-some _ (sym e))
  tools_call_envelope_error-IsEnvelope (some fields) e =
      name_error-IsName (Json.get "name" fields) (Json.get "arguments" fields) e

  refuse-none :
      (id : RequestId) (found : Option Details) → refuse {F = F} id found ≡ none → found ≡ none
  refuse-none id none e = refl
  refuse-none id (some d) e = absurd (none-ne-some _ (sym e))

  refusal_of-IsScreened :
      (id : RequestId) (method : String) (params : Option (Fields F))
      → refusal_of id method params ≡ none
      → IsScreened (request id method params)
  unfolding refusal_of
  refusal_of-IsScreened id method params passed call =
      tools_call_envelope_error-IsEnvelope params
        (refuse-none id (tools_call_envelope_error params) (rw (call, refusal_of) at passed))

module _ {F : Type 0} (lines : Lines F) where
  -- what is not a frame that the pump answers
  abbrev pub AreScreened : Session F → Type 0
  AreScreened s = All IsScreened s.inbound

  inbound-AreScreened :
      (m : Message F) (s : Session F)
      → IsScreened m
      → AreScreened s
      → All IsScreened (s.inbound ++ m ∷ [])
  inbound-AreScreened m s ok h = All-append IsScreened s.inbound (m ∷ []) h (ok, tt)

  pump_message-AreScreened :
      (line : String) (m : Message F) (s : Session F)
      → AreScreened s
      → AreScreened (pump_message lines line m s)
  unfolding pump_message forward
  pump_message-AreScreened line unparsed s h = elim (Bool-cases (lines.is_blank line)) [
    | inl blank ↦ rw blank h
    | inr filled ↦ rw filled h
  ]
  pump_message-AreScreened line (request id method params) s h =
      elim (Option-cases (refusal_of id method params)) [
        | inl passed ↦ rw passed (
            inbound-AreScreened (request id method params) s
              (refusal_of-IsScreened id method params passed) h)
        | inr (f, refused) ↦ rw refused h
      ]
  pump_message-AreScreened line (notification method params) s h =
      elim (Bool-cases (carries_id (lines.loads line))) [
        | inl bad ↦ rw bad h
        | inr proper ↦ rw proper (inbound-AreScreened (notification method params) s tt h)
      ]
  pump_message-AreScreened line (client_reply id) s h = inbound-AreScreened (client_reply id) s tt h

  -- Whatever lines come: no message that could not be parsed reaches the server, and each request
  -- (a message with an id) for tools/call that does has a name that is a text and not empty, and
  -- arguments that are an object, null or absent. Of a notification or a reply nothing is said: a
  -- tools/call without an id is passed on whatever its params are.
  pub inbound-IsScreened :
      {log : List (String × Message F)} {s : Session F} → Run lines log s → All IsScreened s.inbound
  unfolding tracked_send
  inbound-IsScreened start = tt
  inbound-IsScreened (arrive {log} {s} line m run) =
      pump_message-AreScreened line m s (inbound-IsScreened run)
  inbound-IsScreened (act {log} {s} {t} run (answer front back id f here names e)) =
      subst AreScreened (sym e) (inbound-IsScreened run)
  inbound-IsScreened (act {log} {s} {t} run (announce method e)) =
      subst AreScreened (sym e) (inbound-IsScreened run)
