-- ===== src/Guardrail/Sse/Decoder/Tests.antt =====
-- The decoder on a stream cut at awkward places, and its theorem there.
use Prim.Native.Char.{Char, code}
use fde_assessment.Base.{◌≡◌, refl, ap, is_some, Bool, String, none, some, List, [], ◌∷◌, ◌==◌}
use fde_assessment.Guardrail.Sse.{SseEvent, parse_block}
use fde_assessment.Guardrail.Sse.Decoder.{decode_stream}
use fde_assessment.Guardrail.Sse.Decoder.Chunks.{decode_stream_cut}

abbrev is_blank_char : Char → Bool
is_blank_char c = code c == 32

abbrev one_two : List SseEvent
one_two =
    record { event = none; payload = "one"; id = none; retry = none }
    ∷ record { event = none; payload = "two"; id = none; retry = none }
    ∷ []

-- the line ends are cut in the middle, and the last event has no blank line
abbrev pieces : List String
pieces = "\n\r\ndata: two" ∷ []

cut_events : decode_stream 64 is_blank_char ("data: one\r" ∷ pieces) "" ≡ some one_two
unfolding decode_stream parse_block
cut_events = refl

whole_events : decode_stream 64 is_blank_char ("data: one\r\n\r\ndata: two" ∷ []) "" ≡ some one_two
unfolding decode_stream parse_block
whole_events = refl

over_the_cap : decode_stream 8 is_blank_char ("data: one\r" ∷ pieces) "" ≡ none
unfolding decode_stream
over_the_cap = refl

decode_stream_cut_example :
    decode_stream 64 is_blank_char ("data: one\r" ∷ pieces) ""
    ≡ decode_stream 64 is_blank_char ("data: one\r\n\r\ndata: two" ∷ []) ""
decode_stream_cut_example =
    decode_stream_cut 64 is_blank_char "data: one\r" "data: one\r\n\r\ndata: two" pieces [] "" refl
      (ap is_some cut_events) (ap is_some whole_events)
