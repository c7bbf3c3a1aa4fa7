-- ===== src/Server/Session.antt =====
-- One session of the server: the pump and the tracked writer, `protocol_error_pump`,
-- `TrackingWriteStream` and `_sanitised` of task1_mcp_server/server.py, between the transport, which is
-- the SDK's, and the server, whose answers come in any order.
pub mod Counted
pub mod Ledger
pub mod Pairing
pub mod Screened
mod Tests
use fde_assessment.Base.{
  ◌≡◌, Bool, true, false, String, Option, none, some, List, [], ◌∷◌, ◌++◌, if◌then◌else◌,
}
use fde_assessment.Base.Int.{ℤ, negsuc}
use text.Mathlib.Text.{◌==◌ as str_eq}
use fde_assessment.Json.{Json, Fields}
use fde_assessment.Server.Frames.{
  RequestId, ErrorDetail, structured, Frame, Message, unparsed, request, notification, client_reply,
  invalid_params_code, reply, failure, note, error_for_payload, tools_call_envelope_error,
  carries_id, rejected_id, normalise_error_detail, Details,
}
use fde_assessment.Server.Drain.{Tracker, new_tracker, dispatched, answered}

-- what a line is to Python: `json.loads`, and whether `line.strip()` is empty
pub record Lines (F : Type 0) : Type 0 where
  pub loads : String → Option (Json F)
  pub is_blank : String → Bool

pub record Session (F : Type 0) : Type 0 where
  pub tracker : Tracker
  -- what was written, in order
  pub wire : List (Frame F)
  -- what was sent on to the server, in order
  pub inbound : List (Message F)
  -- the requests that the server has and has not answered
  pub handling : List RequestId

-- `self._tracker.answered(request_id)` where there is an id
abbrev pub credit : Option RequestId → Tracker → Tracker
credit none t = t
credit (some id) t = answered id t

module _ {F : Type 0} where
  abbrev pub new_session : Session F
  new_session = record { tracker = new_tracker; wire = []; inbound = []; handling = [] }

  -- `untracked_send`
  abbrev pub untracked_send : Frame F → Session F → Session F
  untracked_send f s = record s { wire = s.wire ++ f ∷ [] }

  -- `getattr(message, "id", None)`
  abbrev pub frame_id : Frame F → Option RequestId
  frame_id (reply id value) = some id
  frame_id (failure id code message detail) = id
  frame_id (note method) = none

  -- `TrackingWriteStream.send`
  unfoldable pub tracked_send : Frame F → Session F → Session F
  unfolding normalise_error_detail answered
  tracked_send f s = record s {
    wire = s.wire ++ normalise_error_detail f ∷ [];
    tracker = credit (frame_id f) s.tracker;
  }

  -- `send.send(message)`, after `tracker.dispatched` for a request
  unfoldable pub forward : Message F → Session F → Session F
  unfolding dispatched
  forward (request id method params) s = record s {
    tracker = dispatched id s.tracker;
    inbound = s.inbound ++ request id method params ∷ [];
    handling = s.handling ++ id ∷ [];
  }
  forward m s = record s { inbound = s.inbound ++ m ∷ [] }

  abbrev pub envelope_failure : RequestId → Details → Frame F
  envelope_failure id details =
      failure (some id) invalid_params_code "Invalid params for tools/call" (structured details)

  abbrev pub refuse : RequestId → Option Details → Option (Frame F)
  refuse id none = none
  refuse id (some details) = some (envelope_failure id details)

  -- the screening of a request: its refusal, or none
  unfoldable pub refusal_of : RequestId → String → Option (Fields F) → Option (Frame F)
  unfolding tools_call_envelope_error
  refusal_of id method params =
      let screened : Option (Frame F) = refuse id (tools_call_envelope_error params) in
      if str_eq method "tools/call" then screened else none

  -- a frame that the pump answers itself, or the message sent on
  abbrev pub send_or_forward : Option (Frame F) → Message F → Session F → Session F
  send_or_forward none m s = forward m s
  send_or_forward (some f) m s = untracked_send f s

module _ {F : Type 0} (lines : Lines F) where
  -- the pump's body, on a message and the line that it came from
  unfoldable pub pump_message : String → Message F → Session F → Session F
  unfolding forward refusal_of
  pump_message line unparsed s =
      if lines.is_blank line then s else untracked_send (error_for_payload (lines.loads line)) s
  pump_message line (request id method params) s =
      send_or_forward (refusal_of id method params) (request id method params) s
  pump_message line (notification method params) s =
      if carries_id (lines.loads line)
      then untracked_send rejected_id s
      else forward (notification method params) s
  pump_message line (client_reply id) s = forward (client_reply id) s

  -- what the server does by itself: it answers a request that it has, or sends a note
  pub data Act (s t : Session F) : Type 0 where
    answer :
        (front back : List RequestId) (id : RequestId) (f : Frame F)
        → s.handling ≡ front ++ id ∷ back
        → frame_id f ≡ some id
        → t ≡ tracked_send f (record s { handling = front ++ back })
        → Act s t
    announce : (method : String) → t ≡ tracked_send (note method) s → Act s t

  -- the sessions that are reached, with what has come in on the way, the last first
  pub data Run : List (String × Message F) → Session F → Type 0 where
    start : Run [] new_session
    arrive :
        {log : List (String × Message F)} {s : Session F}
        → (line : String) (m : Message F) → Run log s
        → Run ((line, m) ∷ log) (pump_message line m s)
    act : {log : List (String × Message F)} {s t : Session F} → Run log s → Act s t → Run log t

-- what a handler does: it returns, raises a protocol error, or raises anything else
pub data Handled (A : Type 0) : Type 0 where
  returned : A → Handled A
  protocol_error : ℤ → String → Handled A
  raised : String → Handled A

-- `_sanitised`
unfoldable pub sanitised : {A : Type 0} → Handled A → Handled A
sanitised (returned a) = returned a
sanitised (protocol_error code message) = protocol_error code message
sanitised (raised text) = protocol_error (negsuc 32602) "Internal server error"
