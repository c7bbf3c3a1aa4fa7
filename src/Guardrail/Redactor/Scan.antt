-- ===== src/Guardrail/Redactor/Scan.antt =====
-- The forward search for matches: `_shorter_valid_match`, `_trimmed_pan` and `_scan` of
-- task3_streaming_guardrail/redactor.py. A loop whose step is chosen by the engine takes fuel, which
-- Scan/Fuel shows to be enough.
pub mod Steps
pub mod Fuel
pub mod Accounted
use fde_assessment.Base.{
  ℕ, zero, suc, ◌+◌, ◌-◌, ◌≤◌, ◌≡◌, String, Bool, true, false, not, ◌&&◌, ◌||◌, Option, none, some,
  List, [], ◌∷◌, ◌++◌, any, keep, length, map, if◌then◌else◌, ltb, leb, ◌==◌, max, is_some,
}
use text.Mathlib.Text.{◌==◌ as str_eq}
use fde_assessment.Base.Slices.{drop, slice, get_elem?}
use fde_assessment.Guardrail.Redactor.{Text, Match, group, Unicode, Engine, is_run_char, Config}
use fde_assessment.Guardrail.Redactor.Cards.{card_scheme, digits_of, ssn_ok}
use fde_assessment.Guardrail.Redactor.Spans.{resolve_overlaps, gaps}

-- `validator is None or validator(text)`
unfoldable pub passes : Config → String → Text → Bool
passes c name text = elim (c.validator name) [ none ↦ true | some check ↦ check text ]

-- `ch in _RUN_CHARS and not ch.isdigit()`
abbrev pub is_separator : Unicode → ℕ → Bool
is_separator u ch = is_run_char ch && not (u.is_digit ch)

-- a test of `text[i]`, false past the end
abbrev pub at : (ℕ → Bool) → Text → ℕ → Bool
at test text i = elim (get_elem? text i) [ none ↦ false | some c ↦ test c ]

-- the same of `text[i - 1]`, false at 0
abbrev pub before : (ℕ → Bool) → Text → ℕ → Bool
before test text zero = false
before test text (suc i) = at test text i

-- `_PAN_LENGTHS`
abbrev pub pan_lengths : List ℕ
pan_lengths = 16 ∷ 15 ∷ 19 ∷ 14 ∷ 13 ∷ []

module _ (c : Config) where
  -- the loop of `_trimmed_pan` over the lengths
  unfoldable pub trimmed_pan : List ℕ → Text → ℕ → ℕ → Engine → Option Match
  unfolding passes card_scheme
  trimmed_pan [] text start stop engine = none
  trimmed_pan (n ∷ lengths) text start stop engine =
      let rest = trimmed_pan lengths text start stop engine in
      if leb stop (start + n) then rest else elim (engine.fullmatch text start (start + n)) [
        | none ↦ rest
        | some m ↦
            if not (is_some (card_scheme c.unicode (digits_of c.unicode (group text m))))
            then rest
            else if passes c m.name (group text m)
            then some m
            else rest
      ]

  -- whether a boundary pass skips the endpoint
  abbrev pub inside_group : Text → ℕ → Bool
  inside_group text stop =
      before c.unicode.is_alnum text stop
      && (ltb stop (length text) && at c.unicode.is_alnum text stop)

  -- the inner loop of `_shorter_valid_match`, downward from `stop`
  unfoldable pub shrink : ℕ → Bool → Text → ℕ → ℕ → Engine → Option Match
  unfolding passes
  shrink zero boundaries_only text start stop engine = none
  shrink (suc fuel) boundaries_only text start stop engine =
      let next = shrink fuel boundaries_only text start (stop - 1) engine in
      if not (ltb start stop)
      then none
      else if boundaries_only && inside_group text stop
      then next
      else elim (engine.fullmatch text start stop) [
        | none ↦ next
        | some m ↦
            if passes c m.name (group text m)
            then some m
            else shrink fuel boundaries_only text start (m.stop - 1) engine
      ]

  -- `_shorter_valid_match`: the pass over boundaries, then that over every endpoint
  unfoldable pub shorter_valid_match : Text → ℕ → ℕ → Engine → Option Match
  unfolding trimmed_pan shrink
  shorter_valid_match text start stop engine =
      if not (any (is_separator c.unicode) (slice text start stop))
      then trimmed_pan pan_lengths text start stop engine
      else elim (shrink stop true text start (stop - 1) engine) [
        | some m ↦ some m
        | none ↦ shrink stop false text start (stop - 1) engine
      ]

  -- one round of the loop of `_scan`, `continue` being the loop from a later position
  unfoldable pub scan_round : (ℕ → List Match) → Text → ℕ → ℕ → List Match
  unfolding passes shorter_valid_match
  scan_round continue text limit position =
      if not (leb position limit) then [] else elim (c.combined.search text position limit) [
        | none ↦ []
        | some m ↦
            if passes c m.name (group text m)
            then m ∷ continue (max m.stop (m.start + 1))
            else elim (shorter_valid_match text m.start m.stop c.combined) [
              | some inner ↦ inner ∷ continue (max inner.stop (inner.start + 1))
              | none ↦ continue (m.start + 1)
            ]
      ]

  unfoldable pub scan_from : ℕ → Text → ℕ → ℕ → List Match
  unfolding scan_round
  scan_from zero text limit position = []
  scan_from (suc fuel) text limit position =
      scan_round (λ p. scan_from fuel text limit p) text limit position

  -- `_scan`
  unfoldable pub scan : Text → ℕ → ℕ → List Match
  unfolding scan_from
  scan text start limit = scan_from (limit + 1 - start) text limit start
