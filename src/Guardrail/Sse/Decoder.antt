-- ===== src/Guardrail/Sse/Decoder.antt =====
-- The incremental decoder: `SSEDecoder` of task3_streaming_guardrail/sse.py, on the text that the UTF-8
-- decoder, a parameter, makes of the bytes.
pub mod Lines
pub mod Chunks
mod Tests
use Prim.Native.Char.{Char, code}
use fde_assessment.Base.{
  ℕ, ◌+◌, ◌≡◌, Bool, true, false, ◌&&◌, not, String, Option, none, some, List, [], ◌∷◌, ◌++◌,
  if◌then◌else◌, ◌==◌, ltb,
}
use fde_assessment.Base.Unicode.{joined}
use fde_assessment.Guardrail.Sse.{SseEvent, parse_block}

pub record Decoder : Type 0 where
  pub buffer : String
  pub pending_cr : String
  pub at_start : Bool

abbrev pub new_decoder : Decoder
new_decoder = record { buffer = ""; pending_cr = ""; at_start = true }

abbrev pub size : String → ℕ
size String.[] = 0
size (String.◌∷◌ c s) = size s + 1

abbrev pub is_empty : String → Bool
is_empty String.[] = true
is_empty (String.◌∷◌ c s) = false

-- `decoded.lstrip("\ufeff")`
unfoldable pub strip_bom : String → String
strip_bom String.[] = ""
strip_bom (String.◌∷◌ c s) =
    let rest = strip_bom s in if code c == 65279 then rest else String.◌∷◌ c s

-- `decoded.endswith("\r")`
unfoldable pub ends_cr : String → Bool
ends_cr String.[] = false
ends_cr (String.◌∷◌ c String.[]) = code c == 13
ends_cr (String.◌∷◌ c (String.◌∷◌ d s)) = ends_cr (String.◌∷◌ d s)

-- `decoded[:-1]`
unfoldable pub but_last : String → String
but_last String.[] = ""
but_last (String.◌∷◌ c String.[]) = ""
but_last (String.◌∷◌ c (String.◌∷◌ d s)) = String.◌∷◌ c (but_last (String.◌∷◌ d s))

-- `replace("\r\n", "\n")`
unfoldable pub replace_crlf : String → String
replace_crlf String.[] = ""
replace_crlf (String.◌∷◌ c String.[]) = String.◌∷◌ c ""
replace_crlf (String.◌∷◌ c (String.◌∷◌ d s)) =
    let pair = joined "\n" (replace_crlf s) in
    let single = String.◌∷◌ c (replace_crlf (String.◌∷◌ d s)) in
    if code c == 13 && code d == 10 then pair else single

-- `replace("\r", "\n")`
unfoldable pub replace_cr : String → String
replace_cr String.[] = ""
replace_cr (String.◌∷◌ c s) = joined (if code c == 13 then "\n" else String.◌∷◌ c "") (replace_cr s)

abbrev pub normalised : String → String
normalised s = replace_cr (replace_crlf s)

abbrev pub onto_block : Char → List String × String → List String × String
onto_block c ([], rest) = ([], String.◌∷◌ c rest)
onto_block c (b ∷ bs, rest) = (String.◌∷◌ c b ∷ bs, rest)

-- what the loop of `split("\n\n", 1)` takes off the buffer, and what it leaves
unfoldable pub blocks : String → List String × String
blocks String.[] = ([], "")
blocks (String.◌∷◌ c String.[]) = ([], String.◌∷◌ c "")
blocks (String.◌∷◌ c (String.◌∷◌ d s)) =
    let closed : List String × String = ("" ∷ (blocks s).0, (blocks s).1) in
    let going_on = onto_block c (blocks (String.◌∷◌ d s)) in
    if code c == 10 && code d == 10 then closed else going_on

-- the events of the blocks, those without data left out
unfoldable pub events_of : List String → List SseEvent
events_of [] = []
events_of (raw ∷ rest) = elim (parse_block raw) [
  | none ↦ events_of rest
  | some e ↦ e ∷ events_of rest
]

-- the text that has arrived, without a byte order mark at the start
unfoldable pub arrived : Decoder → String → String
unfolding strip_bom
arrived d text =
    let decoded = joined d.pending_cr text in if d.at_start then strip_bom decoded else decoded

-- the text without the carriage return at its end that is held back
unfoldable pub ready : String → String
unfolding ends_cr but_last
ready decoded = if ends_cr decoded then but_last decoded else decoded

unfoldable pub held : String → String
unfolding ends_cr
held decoded = if ends_cr decoded then "\r" else ""

-- `self._buffer` when the size is checked
unfoldable pub filled : Decoder → String → String
unfolding arrived ready replace_cr replace_crlf
filled d text = joined d.buffer (normalised (ready (arrived d text)))

-- `feed` where the cap is kept
unfoldable pub advance : Decoder → String → List SseEvent × Decoder
unfolding filled held arrived blocks events_of
advance d text =
    let cut = blocks (filled d text) in
    (
      events_of cut.0,
      record {
        buffer = cut.1;
        pending_cr = held (arrived d text);
        at_start = d.at_start && is_empty (arrived d text);
      },
    )

-- `feed`, none where it raises
unfoldable pub feed_text : ℕ → Decoder → String → Option (List SseEvent × Decoder)
unfolding filled advance
feed_text max_event_bytes d text =
    if ltb max_event_bytes (size (filled d text)) then none else some (advance d text)

-- the rest of a stream after some events
abbrev pub after_events :
    List SseEvent → Option (List SseEvent × Decoder) → Option (List SseEvent × Decoder)
after_events es none = none
after_events es (some (more, d)) = some (es ++ more, d)

-- a decoder fed with pieces of text, one after the other
unfoldable pub feed_texts : ℕ → Decoder → List String → Option (List SseEvent × Decoder)
unfolding feed_text
feed_texts max_event_bytes d [] = some ([], d)
feed_texts max_event_bytes d (text ∷ rest) = elim (feed_text max_event_bytes d text) [
  | none ↦ none
  | some (es, d') ↦ after_events es (feed_texts max_event_bytes d' rest)
]

-- whether `remainder.strip()` is empty
abbrev pub is_blank : (Char → Bool) → String → Bool
is_blank is_space String.[] = true
is_blank is_space (String.◌∷◌ c s) = is_space c && is_blank is_space s

-- `flush`, with the text that the UTF-8 decoder has left at the end
unfoldable pub flush_text : (Char → Bool) → Decoder → String → List SseEvent
unfolding replace_cr replace_crlf events_of
flush_text is_space d decoded =
    let remainder = joined d.buffer (normalised (joined d.pending_cr decoded)) in
    if is_blank is_space remainder then [] else events_of (remainder ∷ [])

-- the events of a whole stream, none where a `feed` raises
unfoldable pub decode_stream : ℕ → (Char → Bool) → List String → String → Option (List SseEvent)
unfolding feed_texts flush_text
decode_stream max_event_bytes is_space texts decoded =
    elim (feed_texts max_event_bytes new_decoder texts) [
      | none ↦ none
      | some (es, d) ↦ some (es ++ flush_text is_space d decoded)
    ]
