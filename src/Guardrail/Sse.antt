-- ===== src/Guardrail/Sse.antt =====
-- One server-sent event: `_parse_block` and `encode_sse` of task3_streaming_guardrail/sse.py. The bytes
-- of the encoding are its UTF-8, and the blank line that ends an event is left to the caller.
pub mod Roundtrip
pub mod Decoder
mod Tests
use Prim.Native.Char.{code}
use text.Mathlib.Text.{◌==◌ as str_eq}
use fde_assessment.Base.Unicode.{joined}
use fde_assessment.Base.{
  ℕ, String, Option, none, some, List, [], ◌∷◌, if◌then◌else◌, ◌==◌, Bool, true, false, ◌||◌,
}

pub record SseEvent : Type 0 where
  pub event : Option String
  pub payload : String
  pub id : Option String
  pub retry : Option String

-- a line in front of the first of some lines
abbrev pub onto_first : String → List String → List String
onto_first s [] = s ∷ []
onto_first s (t ∷ rest) = joined s t ∷ rest

-- `raw.split("\n")`
unfoldable pub split_lines : String → List String
split_lines String.[] = "" ∷ []
split_lines (String.◌∷◌ c s) =
    let rest = split_lines s in
    if code c == 10 then "" ∷ rest else onto_first (String.◌∷◌ c "") rest

-- `line.partition(":")`: what stands before the first colon, and what after it
unfoldable pub partition_colon : String → String × String
partition_colon String.[] = ("", "")
partition_colon (String.◌∷◌ c s) =
    let (name, value) = partition_colon s in
    if code c == 58 then ("", s) else (String.◌∷◌ c name, value)

-- `value.removeprefix(" ")`
abbrev pub remove_blank : String → String
remove_blank String.[] = ""
remove_blank (String.◌∷◌ c s) = if code c == 32 then s else String.◌∷◌ c s

-- `"\n".join(lines)`
unfoldable pub join_lines : List String → String
join_lines [] = ""
join_lines (s ∷ []) = s
join_lines (s ∷ t ∷ rest) = joined s (joined "\n" (join_lines (t ∷ rest)))

-- the local variables of `_parse_block`
pub record Block : Type 0 where
  pub event_name : Option String
  pub event_id : Option String
  pub retry : Option String
  pub data_lines : List String

-- `data_lines.append(value)`
abbrev pub append_line : List String → String → List String
append_line [] value = value ∷ []
append_line (s ∷ rest) value = s ∷ append_line rest value

-- one line's field
abbrev pub set_field : String → String → Block → Block
set_field name value b =
    if str_eq name "data"
    then record {
      event_name = b.event_name;
      event_id = b.event_id;
      retry = b.retry;
      data_lines = append_line b.data_lines value;
    }
    else if str_eq name "event"
    then record {
      event_name = some value;
      event_id = b.event_id;
      retry = b.retry;
      data_lines = b.data_lines;
    }
    else if str_eq name "id"
    then record {
      event_name = b.event_name;
      event_id = some value;
      retry = b.retry;
      data_lines = b.data_lines;
    }
    else if str_eq name "retry"
    then record {
      event_name = b.event_name;
      event_id = b.event_id;
      retry = some value;
      data_lines = b.data_lines;
    }
    else b

-- `not line or line.startswith(":")`
abbrev pub is_comment : String → Bool
is_comment String.[] = true
is_comment (String.◌∷◌ c s) = code c == 58

unfoldable pub parse_line : String → Block → Block
unfolding partition_colon
parse_line line b =
    let (name, value) = partition_colon line in
    if is_comment line then b else set_field name (remove_blank value) b

-- the loop of `_parse_block`
unfoldable pub parse_lines : List String → Block → Block
unfolding parse_line
parse_lines [] b = b
parse_lines (line ∷ rest) b = parse_lines rest (parse_line line b)

abbrev pub event_of : Block → Option SseEvent
event_of b = elim b.data_lines [
  | [] ↦ none
  | _ ∷ _ ↦ some (record {
    event = b.event_name;
    payload = join_lines b.data_lines;
    id = b.event_id;
    retry = b.retry;
  })
]

abbrev pub empty_block : Block
empty_block = record { event_name = none; event_id = none; retry = none; data_lines = [] }

-- `_parse_block`
unfoldable pub parse_block : String → Option SseEvent
unfolding parse_lines split_lines join_lines
parse_block raw = event_of (parse_lines (split_lines raw) empty_block)

abbrev pub optional_line : String → Option String → List String → List String
optional_line prefix none rest = rest
optional_line prefix (some value) rest = joined prefix value ∷ rest

abbrev pub event_lines : SseEvent → List String
event_lines e = optional_line "id: " e.id (
    optional_line "event: " e.event
      (optional_line "retry: " e.retry (joined "data: " e.payload ∷ [])))

-- `encode_sse`, up to the blank line at its end
unfoldable pub encode_sse : SseEvent → String
unfolding join_lines
encode_sse e = join_lines (event_lines e)
