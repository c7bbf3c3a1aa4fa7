-- ===== src/Guardrail/Sse/Roundtrip.antt =====
-- What is encoded as one event is read back as that event: task3_streaming_guardrail/sse.py.
use Prim.Native.Char.{code}
use fde_assessment.Base.{
  String, ◌≡◌, ◌∙◌, refl, Option, none, some, List, [], ◌∷◌, ◌==◌, Bool, true, not, ◌&&◌, all, ap,
  Bool-cases, inl, inr, arith,
}
use fde_assessment.Base.Unicode.{joined}
use fde_assessment.Guardrail.Sse.{
  SseEvent, split_lines, partition_colon, join_lines, parse_line, parse_lines, event_of,
  empty_block, parse_block, event_lines, encode_sse,
}

-- `s` holds no line feed
abbrev pub is_line : String → Bool
is_line String.[] = true
is_line (String.◌∷◌ c s) = not (code c == 10) && is_line s

abbrev pub is_optional_line : Option String → Bool
is_optional_line none = true
is_optional_line (some s) = is_line s

split_lines-line : (s : String) → is_line s ≡ true → split_lines s ≡ s ∷ []
unfolding split_lines
split_lines-line String.[] ok = refl
split_lines-line (String.◌∷◌ c s) ok = elim (Bool-cases (code c == 10)) [
  | inl feed ↦ absurd (ground arith)
  | inr other ↦ rw (other, split_lines-line s (ground arith))
]

split_lines-joined :
    (s t : String) → is_line s ≡ true → split_lines (joined s (joined "\n" t)) ≡ s ∷ split_lines t
unfolding split_lines
split_lines-joined String.[] t ok = refl
split_lines-joined (String.◌∷◌ c s) t ok = elim (Bool-cases (code c == 10)) [
  | inl feed ↦ absurd (ground arith)
  | inr other ↦ rw (other, split_lines-joined s t (ground arith))
]

split_lines-join_lines :
    (s : String) (rest : List String)
    → all is_line (s ∷ rest) ≡ true
    → split_lines (join_lines (s ∷ rest)) ≡ s ∷ rest
unfolding join_lines
split_lines-join_lines s [] ok = split_lines-line s (ground arith)
split_lines-join_lines s (t ∷ rest) ok =
    split_lines-joined s (join_lines (t ∷ rest)) (ground arith)
    ∙ ap (λ ls. s ∷ ls) (split_lines-join_lines t rest (ground arith))

abbrev event_with : Option String → Option String → Option String → String → SseEvent
event_with event id retry payload = record {
  event = event;
  payload = payload;
  id = id;
  retry = retry;
}

parse_lines-event_lines :
    (event id retry : Option String) (payload : String)
    → event_of (parse_lines (event_lines (event_with event id retry payload)) empty_block)
      ≡ some (event_with event id retry payload)
unfolding parse_lines parse_line partition_colon join_lines
parse_lines-event_lines none none none payload = refl
parse_lines-event_lines none none (some r) payload = refl
parse_lines-event_lines none (some i) none payload = refl
parse_lines-event_lines none (some i) (some r) payload = refl
parse_lines-event_lines (some e) none none payload = refl
parse_lines-event_lines (some e) none (some r) payload = refl
parse_lines-event_lines (some e) (some i) none payload = refl
parse_lines-event_lines (some e) (some i) (some r) payload = refl

split_lines-event_lines :
    (event id retry : Option String) (payload : String)
    → is_line payload ≡ true
    → is_optional_line event ≡ true
    → is_optional_line id ≡ true
    → is_optional_line retry ≡ true
    → split_lines (join_lines (event_lines (event_with event id retry payload)))
      ≡ event_lines (event_with event id retry payload)
split_lines-event_lines none none none payload p e i r = split_lines-join_lines _ [] (ground arith)
split_lines-event_lines none none (some _) payload p e i r =
    split_lines-join_lines _ (_ ∷ []) (ground arith)
split_lines-event_lines none (some _) none payload p e i r =
    split_lines-join_lines _ (_ ∷ []) (ground arith)
split_lines-event_lines none (some _) (some _) payload p e i r =
    split_lines-join_lines _ (_ ∷ _ ∷ []) (ground arith)
split_lines-event_lines (some _) none none payload p e i r =
    split_lines-join_lines _ (_ ∷ []) (ground arith)
split_lines-event_lines (some _) none (some _) payload p e i r =
    split_lines-join_lines _ (_ ∷ _ ∷ []) (ground arith)
split_lines-event_lines (some _) (some _) none payload p e i r =
    split_lines-join_lines _ (_ ∷ _ ∷ []) (ground arith)
split_lines-event_lines (some _) (some _) (some _) payload p e i r =
    split_lines-join_lines _ (_ ∷ _ ∷ _ ∷ []) (ground arith)

-- An event whose fields hold no line feed is read back from its encoding as it was, with its id,
-- name and retry delay.
pub parse_block-encode_sse :
    (e : SseEvent)
    → is_line e.payload ≡ true
    → is_optional_line e.event ≡ true
    → is_optional_line e.id ≡ true
    → is_optional_line e.retry ≡ true
    → parse_block (encode_sse e) ≡ some e
unfolding parse_block encode_sse
parse_block-encode_sse e payload_ok event_ok id_ok retry_ok =
    ap (λ ls. event_of (parse_lines ls empty_block))
      (split_lines-event_lines e.event e.id e.retry e.payload payload_ok event_ok id_ok retry_ok)
    ∙ parse_lines-event_lines e.event e.id e.retry e.payload
