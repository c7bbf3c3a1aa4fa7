-- ===== src/Guardrail/Sse/Tests.antt =====
-- The codec on concrete events, and its theorem at one.
use fde_assessment.Base.{◌≡◌, refl, none, some}
use fde_assessment.Guardrail.Sse.{SseEvent, parse_block, encode_sse}
use fde_assessment.Guardrail.Sse.Roundtrip.{parse_block-encode_sse}

abbrev delta : SseEvent
delta = record { event = some "delta"; payload = "{}"; id = some "7"; retry = none }

abbrev two_lines : SseEvent
two_lines = record { event = none; payload = "one\ntwo"; id = none; retry = none }

abbrev one_line : SseEvent
one_line = record { event = none; payload = "one"; id = none; retry = none }

encoded_delta : encode_sse delta ≡ "id: 7\nevent: delta\ndata: {}"
unfolding encode_sse
encoded_delta = refl

-- the second line of the data is not marked as data, and is lost
second_line_lost : parse_block (encode_sse two_lines) ≡ some one_line
unfolding parse_block encode_sse
second_line_lost = refl

parse_block-encode_sse_example : parse_block (encode_sse delta) ≡ some delta
parse_block-encode_sse_example = parse_block-encode_sse delta refl refl refl refl
