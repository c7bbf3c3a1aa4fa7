-- ===== src/Guardrail/Gateway/Tests.antt =====
-- The guardrail's gateway on concrete streams, and its theorems at inputs that meet their hypotheses.
-- The redactor of these tests holds back all that it has until it is flushed.
use text.Mathlib.Text.{◌==◌ as str_eq}
use Prim.Native.Char.{Char, code}
use fde_assessment.Base.{
  ℕ, String, ◌≡◌, ◌⊎◌, refl, Bool, true, false, none, some, List, [], ◌∷◌, ◌++◌, ltb, if◌then◌else◌,
}
use fde_assessment.Base.Int.{pos}
use fde_assessment.Base.Unicode.{text_length, joined}
use fde_assessment.Json.{Json, Fields, null, int, str, arr, obj, nil, cons, end, field}
use fde_assessment.Guardrail.Sse.{parse_block}
use fde_assessment.Guardrail.Sse.Decoder.{flush_text}
use fde_assessment.Guardrail.Pool.{
  Redaction, at_key, at_position, Key, streamed, flush, flush_choice, pending,
}
use fde_assessment.Guardrail.Pool.Isolated.{redactor_of, under, feed_alone}
use fde_assessment.Guardrail.Pool.Flushed.{IsRedaction}
use fde_assessment.Guardrail.Payload.{is_structural, is_streaming_path, redact_node}
use fde_assessment.Guardrail.Payload.Kept.{skeleton, redact_keeps_skeleton}
use fde_assessment.Guardrail.Payload.Leaves.{leaves, text_under}
use fde_assessment.Guardrail.Payload.Streams.{
  texts_of, chunks_of, redact_chunks, redact_chunks_isolate, concat,
}
use fde_assessment.Guardrail.Residue.{
  Loaded, loaded, decode_error, Python, plain_event, done_event, residue_chunk, residue_events,
}
use fde_assessment.Guardrail.Residue.Nested.{residue_chunk-leaves}
use fde_assessment.Guardrail.Gateway.{
  fatal, Upstream, stream, run_stream, read_texts, handle_chunk, error_data,
}
use fde_assessment.Guardrail.Gateway.Ends.{has_done, stream_tells_done}
use fde_assessment.Guardrail.Gateway.Interrupted.{
  upstream, after_texts, interruption_withholds_residue,
}

abbrev Flt : Type 0
Flt = Unit {0}

abbrev hoarder : Redaction String
hoarder = record {
  fresh = "";
  feed = λ held text. ("", joined held text);
  flush = λ held. (held, "");
  pending = text_length;
}

hoarder-IsRedaction : IsRedaction hoarder
unfolding text_length
hoarder-IsRedaction = record { fresh_holds_nothing = refl; flush-pending = λ r. refl }

abbrev delta : ℕ → String → Json Flt
delta index text = obj (
    field "index" (int (pos index))
      (field "delta" (obj (field "content" (str text) end)) (field "finish_reason" null end)))

abbrev chunk : ℕ → String → Fields Flt
chunk index text = field "id" (str "c1") (field "choices" (arr (cons (delta index text) nil)) end)

abbrev content_of : ℕ → Key
content_of index =
    streamed (some (pos index))
      (at_key "choices" ∷ at_position 0 ∷ at_key "delta" ∷ at_key "content" ∷ [])

-- "A" and "B" are chunks of two choices
abbrev parse : String → Loaded Flt
parse text =
    if str_eq text "A"
    then loaded (obj (chunk 0 "secret"))
    else if str_eq text "B"
    then loaded (obj (chunk 1 "other"))
    else decode_error

abbrev python : Python Flt
python = record { loads = parse; dumps = λ v. "json"; strip = λ s. s; is_zero = λ x. true; now = 7 }

abbrev texts : List String
texts = "data: A\n\n" ∷ "data: B\n\n" ∷ []

abbrev is_space : Char → Bool
is_space c = ltb (code c) 33

abbrev held_pool : List (Key × String)
held_pool = (content_of 0, "secret") ∷ (content_of 1, "other") ∷ []

flush_choice_test :
    flush_choice hoarder (pos 0) held_pool
    ≡ ((content_of 0, "secret") ∷ [], (content_of 0, "") ∷ (content_of 1, "other") ∷ [])
unfolding flush_choice
flush_choice_test = refl

redact_keeps_skeleton_example :
    skeleton (redact_node hoarder (obj (chunk 0 "secret")) held_pool [] none).value
    ≡ skeleton (obj (chunk 0 "secret"))
redact_keeps_skeleton_example =
    redact_keeps_skeleton hoarder (obj (chunk 0 "secret")) held_pool [] none

abbrev chunks : List (Fields Flt)
chunks = chunk 0 "secret" ∷ chunk 1 "other" ∷ chunk 0 "more" ∷ []

texts_test : under (content_of 0) (texts_of (chunks_of chunks)) ≡ "secret" ∷ "more" ∷ []
unfolding leaves is_structural is_streaming_path
texts_test = refl

-- a tool call of a choice, with its index among the choice's tool calls
abbrev tool_chunk : ℕ → ℕ → String → Fields Flt
tool_chunk choice tool text =
    let function = obj (field "arguments" (str text) end) in
    let call = obj (field "index" (int (pos tool)) (field "function" function end)) in
    let calls = obj (field "tool_calls" (arr (cons call nil)) end) in
    let first = obj (field "index" (int (pos choice)) (field "delta" calls end)) in
    field "choices" (arr (cons first nil)) end

abbrev arguments_of : ℕ → Key
arguments_of index = streamed (some (pos index)) (
    at_key "choices"
    ∷ at_position 0
    ∷ at_key "delta"
    ∷ at_key "tool_calls"
    ∷ at_position 0
    ∷ at_key "function"
    ∷ at_key "arguments"
    ∷ [])

-- the arguments of the first tool calls of two choices share a redactor
shared_test :
    texts_of (chunks_of (tool_chunk 0 0 "one" ∷ tool_chunk 1 0 "two" ∷ []))
    ≡ (arguments_of 0, "one") ∷ (arguments_of 0, "two") ∷ []
unfolding leaves is_structural is_streaming_path
shared_test = refl

redact_chunks_isolate_example :
    let (shown, after) = redact_chunks hoarder chunks [] in
    let alone =
      feed_alone hoarder
        (redactor_of hoarder (content_of 0) [])
        (under (content_of 0) (texts_of (chunks_of chunks))) in
    (text_under (content_of 0) (texts_of shown) ≡ concat alone.0)
    × (redactor_of hoarder (content_of 0) after ≡ alone.1)
redact_chunks_isolate_example = redact_chunks_isolate hoarder (content_of 0) chunks []

open_delta : is_structural "delta" ≡ false
unfolding is_structural
open_delta = refl

open_content : is_structural "content" ≡ false
unfolding is_structural
open_content = refl

residue_chunk-leaves_example :
    let path = at_key "choices" ∷ at_position 1 ∷ at_key "delta" ∷ at_key "content" ∷ [] in
    leaves (obj (residue_chunk python none (some (pos 3)) path "tail")) [] none
    ≡ (streamed (some (pos 3)) path, "tail") ∷ []
unfolding is_streaming_path
residue_chunk-leaves_example =
    residue_chunk-leaves python none (pos 3) 1 "delta" (at_key "content" ∷ []) "tail"
      (open_delta, (open_content, tt)) refl refl

abbrev provider : Bool → Upstream
provider fails = upstream python hoarder 1000 is_space texts "" fails

stream_tells_done_example :
    let run = run_stream python hoarder 1000 is_space (provider true) in
    let body = stream python hoarder 1000 is_space (provider true) in
    ((run.failure ≡ some fatal) ⊎ ((body.aborted ≡ false) × (has_done body.out ≡ true)))
    × (run.failure ≡ none → run.completed ≡ false → pending hoarder run.pool ≡ 0)
stream_tells_done_example =
    stream_tells_done python hoarder 1000 is_space hoarder-IsRedaction (provider true)

interruption_withholds_residue_example :
    let p = (after_texts python hoarder 1000 is_space texts "").0 in
    let held = residue_events python p.last_chunk (flush hoarder p.pool).0 in
    let error =
      plain_event (error_data python hoarder 1000 is_space "Upstream stream interrupted") in
    ((stream python hoarder 1000 is_space (provider false)).out
      ≡ p.out ++ (held ++ done_event ∷ []))
    × ((stream python hoarder 1000 is_space (provider true)).out ≡ p.out ++ error ∷ done_event ∷ [])
unfolding read_texts parse_block flush_text
interruption_withholds_residue_example =
    interruption_withholds_residue python hoarder 1000 is_space texts "" refl refl refl

-- a chunk whose choices are a number
abbrev odd_python : Python Flt
odd_python = record python { loads = λ s. loaded (obj (field "choices" (int (pos 5)) end)) }

-- it breaks the response off
cut_off_test :
    (stream odd_python hoarder 1000 is_space
      (upstream odd_python hoarder 1000 is_space texts "" false)).aborted
    ≡ true
unfolding stream parse_block flush_text
cut_off_test = refl

-- a chunk that has a text and finishes its choice
abbrev last_chunk : Fields Flt
last_chunk =
    field "choices"
      (arr (
        cons
          (obj (
            field "index" (int (pos 0)) (
              field "delta" (obj (field "content" (str "tail") end))
                (field "finish_reason" (str "stop") end))))
          nil))
      end

-- its text is held back after the finish
held_after_finish_test :
    pending hoarder (handle_chunk python hoarder (plain_event "D") last_chunk []).pool ≡ 4
unfolding handle_chunk is_structural is_streaming_path pending text_length
held_after_finish_test = refl
