-- ===== src/Guardrail/Redactor/Stream.antt =====
-- The stream: `_holdback_index`, `_keyword_precedes`, `_emit`, `feed`, `flush` and `redact_text` of
-- task3_streaming_guardrail/redactor.py.
pub mod Pieces
pub mod Emitted
pub mod Hold
pub mod Released
pub mod Whole
pub mod Covered
use fde_assessment.Base.{
  ℕ, zero, suc, ◌+◌, ◌-◌, String, Bool, true, false, not, ◌&&◌, ◌||◌, Option, none, some, List, [],
  ◌∷◌, ◌++◌, length, if◌then◌else◌, ltb, leb, ◌==◌, max,
}
use text.Mathlib.Text.{◌==◌ as str_eq}
use fde_assessment.Base.Slices.{take, drop, slice, get_elem?, last_of}
use fde_assessment.Guardrail.Redactor.{Text, Match, Engine, Config}
use fde_assessment.Guardrail.Redactor.Cards.{starts_one_of}
use fde_assessment.Guardrail.Redactor.FixedPoint.{valid_matches}

-- `_CONTEXT_CHARS`, `_KEYWORD_WINDOW` and `MAX_MATCH_LENGTH`
abbrev pub context_chars : ℕ
context_chars = 48

abbrev pub keyword_window : ℕ
keyword_window = 40

abbrev pub max_match_length : ℕ
max_match_length = 793

-- `StreamingRedactor`, with the `RedactionStats` in it
pub record Redactor : Type 0 where
  pub buffer : Text
  pub context : Text
  pub counts : List (String × ℕ)
  pub characters_in : ℕ
  pub characters_out : ℕ

-- `__init__`, which refuses a hold-back below the longest match
abbrev pub fresh : Redactor
fresh = record { buffer = []; context = []; counts = []; characters_in = 0; characters_out = 0 }

unfoldable pub new_redactor : Config → Option Redactor
new_redactor c = if ltb c.max_holdback max_match_length then none else some fresh

-- `RedactionStats.record`
unfoldable pub record_match : String → List (String × ℕ) → List (String × ℕ)
record_match name [] = (name, 1) ∷ []
record_match name ((n, k) ∷ counts) =
    if str_eq n name then (n, k + 1) ∷ counts else (n, k) ∷ record_match name counts

-- `word in window`
abbrev pub contains : Text → Text → Bool
contains word [] = starts_one_of (word ∷ []) []
contains word (c ∷ cs) = starts_one_of (word ∷ []) (c ∷ cs) || contains word cs

-- what the loop of `_emit` over the spans leaves: the text put out, the cursor, the counts
pub record Rendered : Type 0 where
  pub out : Text
  pub cursor : ℕ
  pub counts : List (String × ℕ)

abbrev pub is_blank : Text → Bool
is_blank [] = true
is_blank (_ ∷ _) = false

-- the loop of `_emit` that pushes the hold past a straddling match
unfoldable pub push_hold : List Match → ℕ → ℕ
push_hold [] hold = hold
push_hold (m ∷ ms) hold =
    push_hold ms (if ltb m.start hold && ltb hold m.stop then m.stop else hold)

module _ (c : Config) where
  -- `_keyword_precedes`
  unfoldable pub keyword_precedes : Text → ℕ → Bool
  keyword_precedes text index =
      let window = c.unicode.lower (slice text (index - keyword_window) index) in
      contains (b's' ∷ b's' ∷ b'n' ∷ []) window
      || contains (b's' ∷ b'o' ∷ b'c' ∷ b'i' ∷ b'a' ∷ b'l' ∷ []) window

  abbrev pub rescue_could_grow : Option Engine → Text → ℕ → Bool
  rescue_could_grow none text index = false
  rescue_could_grow (some e) text index = e.could_grow text index

  -- whether `_holdback_index` stops at an index
  unfoldable pub holds_at : Text → ℕ → Bool
  unfolding keyword_precedes
  holds_at text index = elim (get_elem? text index) [
    | none ↦ false
    | some ch ↦
        not (ltb ch 128 && not (c.is_first_char ch))
        && (c.combined.could_grow text index
            || ((c.unicode.is_digit ch
                  && (keyword_precedes text index && c.keyword_ssn.could_grow text index))
                || (c.unicode.is_digit ch && rescue_could_grow c.rescue text index)))
  ]

  -- the loop of `_holdback_index`, with `left` indices to look at
  unfoldable pub holdback_from : ℕ → ℕ → Text → ℕ
  unfolding holds_at
  holdback_from zero index text = length text
  holdback_from (suc left) index text =
      let rest = holdback_from left (index + 1) text in if holds_at text index then index else rest

  -- `_holdback_index`
  unfoldable pub holdback_index : Text → ℕ → ℕ
  unfolding holdback_from
  holdback_index text start =
      let first = max start (length text - c.max_holdback) in
      holdback_from (length text - first) first text

  -- where `_emit` cuts `full`
  unfoldable pub hold_point : Text → ℕ → List Match → Bool → ℕ
  unfolding holdback_index push_hold
  hold_point full base spans final =
      let hold = holdback_index full base in
      let capped =
        if ltb c.max_holdback (length full - hold)
        then max base (length full - c.max_holdback)
        else hold in
      if final then length full else push_hold spans capped

  unfoldable pub render : Text → ℕ → List Match → Text → ℕ → List (String × ℕ) → Rendered
  unfolding record_match
  render full hold [] out cursor counts = record { out = out; cursor = cursor; counts = counts }
  render full hold (m ∷ ms) out cursor counts =
      let rest =
        render full hold ms (out ++ (slice full cursor m.start ++ c.placeholder)) m.stop
          (record_match m.name counts) in
      if ltb hold m.stop then record { out = out; cursor = cursor; counts = counts } else rest

  -- `_emit` on `full`, of which the first `base` characters are the context
  unfoldable pub emit_full : Redactor → Text → ℕ → List Match → ℕ → Text × Redactor
  unfolding render
  emit_full r full base spans hold =
      let safe = slice full base hold in
      let moved = record r {
        buffer = drop hold full;
        context = last_of context_chars (take hold full);
      } in
      let done = render full hold spans [] base r.counts in
      let emitted = if done.cursor == base then safe else done.out ++ slice full done.cursor hold in
      if is_blank safe then ([], moved) else (
        emitted,
        record moved { counts = done.counts; characters_out = r.characters_out + length emitted },
      )

  -- `_emit`
  unfoldable pub emit : Redactor → Text → Bool → Text × Redactor
  unfolding emit_full hold_point
  emit r text final =
      let full = r.context ++ text in
      let base = length r.context in
      let spans = valid_matches c full base in
      emit_full r full base spans (hold_point full base spans final)

  -- `feed`
  unfoldable pub feed : Redactor → Text → Text × Redactor
  unfolding emit
  feed r chunk =
      if is_blank chunk
      then ([], r)
      else emit (record r { characters_in = r.characters_in + length chunk }) (r.buffer ++ chunk)
          false

  -- `flush`
  unfoldable pub flush : Redactor → Text × Redactor
  unfolding emit
  flush r =
      let (out, after) = emit r r.buffer true in
      if is_blank r.buffer
      then ([], record r { context = [] })
      else (out, record after { context = [] })

  -- chunks fed one after the other, with what they put out together
  unfoldable pub feed_all : Redactor → List Text → Text × Redactor
  unfolding feed
  feed_all r [] = ([], r)
  feed_all r (chunk ∷ chunks) =
      let (out, r') = feed r chunk in let (more, r'') = feed_all r' chunks in (out ++ more, r'')

  -- `redact_text`, on a redactor just made
  unfoldable pub redact_text : Redactor → Text → Text
  unfolding feed flush
  redact_text r text = let (out, r') = feed r text in let (rest, r'') = flush r' in out ++ rest
