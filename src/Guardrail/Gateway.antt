-- ===== src/Guardrail/Gateway.antt =====
-- The guardrail's gateway: `_stream`, `_handle_event` and `_remember` of
-- task3_streaming_guardrail/gateway.py. The upstream is the pieces of text that arrive, what the UTF-8
-- decoder has left at the end, and whether it fails (an HTTPError) after the last piece. The client
-- stays to the end. Log lines and the statistics for them are left out.
pub mod Ends
pub mod Interrupted
mod Tests
use text.Mathlib.Text.{◌==◌ as str_eq}
use Prim.Native.Char.{Char}
use fde_assessment.Base.{
  ℕ, String, Bool, true, false, not, ◌||◌, Option, none, some, List, [], ◌∷◌, ◌++◌, if◌then◌else◌,
  leb, is_some,
}
use fde_assessment.Base.Int.{ℤ, pos}
use fde_assessment.Json.{Json, Fields, null, bool, int, float, str, arr, obj, end, field, put}
use fde_assessment.Guardrail.Sse.{SseEvent}
use fde_assessment.Guardrail.Sse.Decoder.{Decoder, new_decoder, feed_text, flush_text}
use fde_assessment.Guardrail.Pool.{Redaction, Key, raw, bare, feed, flush, flush_choice}
use fde_assessment.Guardrail.Payload.{redact_payload, chunk_has_content, finished_choice_indexes}
use fde_assessment.Guardrail.Residue.{
  Loaded, loaded, decode_error, value_error, too_deep, Python, plain_event, done_event, in_place_of,
  residue_events,
}

-- what an exception means for the stream: a ValueError, an HTTPError, or another one, which ends the
-- response where it stands
pub data Failure : Type 0 where
  malformed interrupted fatal : Failure

-- what one event comes to: what it puts out, the pool after it, and the exception it raises then
pub record Handled (R : Type 0) : Type 0 where
  pub out : List SseEvent
  pub pool : List (Key × R)
  pub failure : Option Failure

-- the local variables of `_stream`, with what it has put out
pub record Progress (F R : Type 0) : Type 0 where
  pub out : List SseEvent
  pub pool : List (Key × R)
  pub last_chunk : Option (Fields F)
  pub completed : Bool
  pub failure : Option Failure

pub record Upstream : Type 0 where
  pub texts : List String
  pub left_over : String
  pub fails : Bool

-- a response body: what it puts out, and whether it is cut off there
pub record Streamed : Type 0 where
  pub out : List SseEvent
  pub aborted : Bool

abbrev pub fields_of : {F : Type 0} → Json F → Fields F
fields_of (obj fs) = fs
fields_of _ = end

module _ {F R : Type 0} (py : Python F) (red : Redaction R) where
  -- `event.is_done`
  unfoldable pub is_done : SseEvent → Bool
  is_done e = str_eq (py.strip e.payload) "[DONE]"

  abbrev pub puts_out : List SseEvent → List (Key × R) → Handled R
  puts_out out pool = record { out = out; pool = pool; failure = none }

  -- the loop over the choices that have just finished
  unfoldable pub flush_finished :
      Fields F → List ℤ → List (Key × R) → List SseEvent × List (Key × R)
  unfolding residue_events flush_choice
  flush_finished payload [] pool = ([], pool)
  flush_finished payload (index ∷ rest) pool =
      let (residues, pool') = flush_choice red index pool in
      let (out, pool'') = flush_finished payload rest pool' in
      (residue_events py (some payload) residues ++ out, pool'')

  -- `_handle_event` on a dictionary
  unfoldable pub handle_chunk : SseEvent → Fields F → List (Key × R) → Handled R
  unfolding flush_finished redact_payload chunk_has_content finished_choice_indexes
  handle_chunk e payload pool = elim (finished_choice_indexes py.is_zero payload) [
    | none ↦ record { out = []; pool = pool; failure = some fatal }
    | some finished ↦
        let (residues, pool') = flush_finished payload finished pool in
        let redacted = redact_payload red payload pool' in
        let shown = in_place_of e (py.dumps redacted.value) in
        if not redacted.carried
        then puts_out (residues ++ shown ∷ []) redacted.pool
        else elim (chunk_has_content py.is_zero (fields_of redacted.value)) [
          | none ↦ record { out = residues; pool = redacted.pool; failure = some fatal }
          | some has_content ↦
              puts_out (if has_content then residues ++ shown ∷ [] else residues) redacted.pool
        ]
  ]

  unfoldable pub handle_payload : SseEvent → Loaded F → List (Key × R) → Handled R
  unfolding handle_chunk feed
  handle_payload e decode_error pool =
      let (out, pool') = feed red raw e.payload pool in puts_out (in_place_of e out ∷ []) pool'
  handle_payload e value_error pool = record { out = []; pool = pool; failure = some malformed }
  handle_payload e too_deep pool = record { out = []; pool = pool; failure = some fatal }
  handle_payload e (loaded (str text)) pool =
      let (out, pool') = feed red bare text pool in
      puts_out (in_place_of e (py.dumps (str out)) ∷ []) pool'
  handle_payload e (loaded (obj payload)) pool = handle_chunk e payload pool
  handle_payload e (loaded v) pool = puts_out (in_place_of e (py.dumps v) ∷ []) pool

  -- `_handle_event`
  unfoldable pub handle_event : SseEvent → List (Key × R) → Option (Fields F) → Handled R
  unfolding is_done handle_payload flush residue_events
  handle_event e pool last_chunk =
      let (residues, pool') = flush red pool in
      if is_done e
      then puts_out (residue_events py last_chunk residues ++ done_event ∷ []) pool'
      else handle_payload e (py.loads e.payload) pool

  abbrev pub remembered : Loaded F → Option (Fields F) → Option (Fields F)
  remembered (loaded (obj payload)) last_chunk = some payload
  remembered _ last_chunk = last_chunk

  -- `_remember`, on an event that was handled (one whose data raises another error was not)
  unfoldable pub remember : SseEvent → Option (Fields F) → Option (Fields F)
  unfolding is_done
  remember e last_chunk =
      if is_done e then last_chunk else remembered (py.loads e.payload) last_chunk

  -- one event of the loop over `decoder.feed(raw)`, or with `remembers` false over `decoder.flush()`
  unfoldable pub after_event : Bool → SseEvent → Progress F R → Progress F R
  unfolding handle_event remember
  after_event remembers e p =
      let h = handle_event e p.pool p.last_chunk in
      let moved = record p { out = p.out ++ h.out; pool = h.pool; failure = h.failure } in
      if is_some h.failure then moved else record moved {
        last_chunk = if remembers then remember e p.last_chunk else p.last_chunk;
        completed = p.completed || is_done e;
      }

  unfoldable pub handle_events : Bool → List SseEvent → Progress F R → Progress F R
  unfolding after_event
  handle_events remembers [] p = p
  handle_events remembers (e ∷ es) p =
      let next = after_event remembers e p in
      let rest = handle_events remembers es next in if is_some next.failure then next else rest

  abbrev pub failed : Failure → Progress F R → Progress F R
  failed how p = record p { failure = some how }

  module _ (max_event_bytes : ℕ) (is_space : Char → Bool) where
    -- what one piece of text comes to, `rest` being the loop after it
    unfoldable pub after_feed :
        Option (List SseEvent × Decoder)
        → Decoder
        → Progress F R
        → (Decoder → Progress F R → Progress F R × Decoder)
        → Progress F R × Decoder
    unfolding handle_events
    after_feed none d p rest = (failed malformed p, d)
    after_feed (some (events, d')) d p rest =
        let next = handle_events true events p in
        if is_some next.failure || next.completed then (next, d') else rest d' next

    -- the loop over `upstream.aiter_bytes()`
    unfoldable pub read_texts : Bool → List String → Decoder → Progress F R → Progress F R × Decoder
    unfolding after_feed feed_text
    read_texts fails [] d p = (if fails then failed interrupted p else p, d)
    read_texts fails (text ∷ texts) d p =
        after_feed (feed_text max_event_bytes d text) d p (read_texts fails texts)

    -- the loop over the events of `decoder.flush()`, and what follows it
    unfoldable pub after_flush : List SseEvent → Progress F R → Progress F R
    unfolding handle_events flush residue_events
    after_flush events p =
        let last = handle_events false events p in
        let residues = residue_events py last.last_chunk (flush red last.pool).0 in
        if is_some last.failure || last.completed then last else record last {
          out = last.out ++ (residues ++ done_event ∷ []);
          pool = (flush red last.pool).1;
        }

    -- the end of the `try` block, after the loop over the pieces of text
    unfoldable pub finish_stream : String → Progress F R × Decoder → Progress F R
    unfolding after_flush flush_text
    finish_stream left_over (p, d) =
        if is_some p.failure then p else after_flush (flush_text is_space d left_over) p

    abbrev pub started : Progress F R
    started = record { out = []; pool = []; last_chunk = none; completed = false; failure = none }

    -- the `try` block
    unfoldable pub run_stream : Upstream → Progress F R
    unfolding read_texts finish_stream
    run_stream up = finish_stream up.left_over (read_texts up.fails up.texts new_decoder started)

    -- the data of the event that tells the client of a failure
    abbrev pub error_data : String → String
    error_data message = py.dumps (
        obj (
          field "error"
            (obj (field "message" (str message) (field "type" (str "upstream_error") end))) end))

    -- the `except` clauses
    unfoldable pub close_stream : Progress F R → Streamed
    close_stream p = elim p.failure [
      | none ↦ record { out = p.out; aborted = false }
      | some malformed ↦ record {
        out =
            p.out ++ plain_event (error_data "Upstream sent a malformed stream") ∷ done_event ∷ [];
        aborted = false;
      }
      | some interrupted ↦ record {
        out = p.out ++ plain_event (error_data "Upstream stream interrupted") ∷ done_event ∷ [];
        aborted = false;
      }
      | some fatal ↦ record { out = p.out; aborted = true }
    ]

    -- `_stream`
    unfoldable pub stream : Upstream → Streamed
    unfolding run_stream close_stream
    stream up = close_stream (run_stream up)
