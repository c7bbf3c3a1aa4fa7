-- ===== src/Guardrail/Redactor/Rescue.antt =====
-- The re-examination of numeric runs: `_numeric_runs`, `_rescue_at`, `_rescue_candidates` and
-- `_rescue_matches` of task3_streaming_guardrail/redactor.py. A set of positions is the ascending list
-- of its members.
pub mod Within
use fde_assessment.Base.{
  ℕ, zero, suc, ◌+◌, ◌-◌, ◌≤◌, ◌≡◌, String, Bool, true, false, not, ◌&&◌, ◌||◌, Option, none, some,
  List, [], ◌∷◌, ◌++◌, any, keep, length, map, if◌then◌else◌, ltb, leb, ◌==◌, max, is_some,
}
use text.Mathlib.Text.{◌==◌ as str_eq}
use fde_assessment.Base.Slices.{drop, slice, get_elem?}
use fde_assessment.Guardrail.Redactor.{Text, Match, group, Unicode, Engine, is_run_char, Config}
use fde_assessment.Guardrail.Redactor.Cards.{card_scheme, digits_of, ssn_ok}
use fde_assessment.Guardrail.Redactor.Spans.{resolve_overlaps, gaps}
use fde_assessment.Guardrail.Redactor.Scan.{
  passes, is_separator, at, before, shorter_valid_match, scan,
}

-- `seen.add(position)`, the set kept as the list that `sorted(seen)` gives
abbrev pub add_position : ℕ → List ℕ → List ℕ
add_position n [] = n ∷ []
add_position n (k ∷ ks) =
    let rest = add_position n ks in
    if ltb n k then n ∷ k ∷ ks else if n == k then k ∷ ks else k ∷ rest

-- the offsets 1 to `_MAX_STRAY_PREFIX` into a token that ends at `index`
abbrev pub add_offsets : ℕ → ℕ → List ℕ → List ℕ
add_offsets token_start index seen =
    let one = if ltb (token_start + 1) index then add_position (token_start + 1) seen else seen in
    let two = if ltb (token_start + 2) index then add_position (token_start + 2) one else one in
    if ltb (token_start + 3) index then add_position (token_start + 3) two else two

-- `range(lo, lo + n)` added to the set
abbrev pub add_range : ℕ → ℕ → List ℕ → List ℕ
add_range lo zero seen = seen
add_range lo (suc n) seen = add_range (lo + 1) n (add_position lo seen)

-- the candidate `index - back`, unless it is before `lo`
abbrev pub add_back : ℕ → ℕ → ℕ → List ℕ → List ℕ
add_back back lo index seen =
    if leb (lo + back) index then add_position (index - back) seen else seen

-- whether the next span starts at or before the position
abbrev pub starts_by : List Match → ℕ → Bool
starts_by [] position = false
starts_by (m ∷ ms) position = leb m.start position

-- `position < ends[bisect_right(starts, position) - 1]`, for ascending starts: the last span that
-- starts at or before the position reaches past it
abbrev pub is_covered : List Match → ℕ → Bool
is_covered [] position = false
is_covered (m ∷ ms) position =
    let later = is_covered ms position in
    if not (leb m.start position)
    then false
    else if starts_by ms position
    then later
    else ltb position m.stop

module _ (c : Config) where
  -- `_numeric_runs`: the positions from `index` on, `open_at` being the start of a run that is going on
  unfoldable pub runs_from : ℕ → Option ℕ → Text → List (ℕ × ℕ)
  runs_from index none [] = []
  runs_from index (some run_start) [] = (run_start, index) ∷ []
  runs_from index none (ch ∷ rest) =
      runs_from (index + 1) (if is_run_char ch then some index else none) rest
  runs_from index (some run_start) (ch ∷ rest) =
      let closed = (run_start, index) ∷ runs_from (index + 1) none rest in
      let going_on = runs_from (index + 1) (some run_start) rest in
      if is_run_char ch then going_on else closed

  -- `_numeric_runs`
  unfoldable pub numeric_runs : Text → ℕ → List (ℕ × ℕ)
  unfolding runs_from
  numeric_runs text start = runs_from start none (drop start text)

  -- the count of leading digits in `_rescue_at`
  abbrev pub leading_digits : Text → ℕ
  leading_digits [] = 0
  leading_digits (ch ∷ rest) =
      let n = leading_digits rest in if c.unicode.is_digit ch then suc n else 0

  -- the checks of `_rescue_at` on a validated match
  unfoldable pub accept_rescue : Text → ℕ → Match → Option Match
  unfolding card_scheme
  accept_rescue text position m =
      let text_of = group text m in
      let grouped = any (is_separator c.unicode) text_of in
      if grouped
        && (str_eq m.name "credit_card"
            && (before c.unicode.is_digit text position && ltb (leading_digits text_of) 4))
      then none
      else if not (grouped || before (is_separator c.unicode) text position)
          && not (is_some (card_scheme c.unicode (digits_of c.unicode text_of)))
      then none
      else some m

  -- `_rescue_at`
  unfoldable pub rescue_at : Engine → Text → ℕ → Option Match
  unfolding accept_rescue shorter_valid_match passes
  rescue_at engine text position = elim (engine.match_at text position) [
    | none ↦ none
    | some m ↦
        if passes c m.name (group text m)
        then accept_rescue text position m
        else elim (shorter_valid_match c text position m.stop engine) [
          | none ↦ none
          | some inner ↦ accept_rescue text position inner
        ]
  ]

  -- the loop over the digit tokens of `_rescue_candidates`, on the text from `index` to the run's end
  unfoldable pub token_offsets : ℕ → Option ℕ → Text → List ℕ → List ℕ
  token_offsets index none [] seen = seen
  token_offsets index (some token_start) [] seen = add_offsets token_start index seen
  token_offsets index none (ch ∷ rest) seen =
      token_offsets (index + 1) (if c.unicode.is_digit ch then some index else none) rest seen
  token_offsets index (some token_start) (ch ∷ rest) seen =
      let closed = token_offsets (index + 1) none rest (add_offsets token_start index seen) in
      let going_on = token_offsets (index + 1) (some token_start) rest seen in
      if c.unicode.is_digit ch then going_on else closed

  -- the loop over the separators of `_rescue_candidates`, on the text from `index` to the run's end
  unfoldable pub separator_positions : ℕ → ℕ → ℕ → ℕ → Text → List ℕ → List ℕ
  separator_positions lo start run_end index [] seen = seen
  separator_positions lo start run_end index (ch ∷ rest) seen =
      let after =
        if ltb (index + 1) run_end && leb start (index + 1)
        then add_position (index + 1) seen
        else seen in
      separator_positions lo start run_end (index + 1) rest
        (if c.unicode.is_digit ch then seen else add_back 4 lo index (add_back 3 lo index after))

  -- `_rescue_candidates`
  unfoldable pub rescue_candidates : Text → ℕ → ℕ → ℕ → List ℕ
  unfolding token_offsets separator_positions
  rescue_candidates text run_start run_end start =
      let lo = max run_start start in
      let first = if leb start run_start then run_start ∷ [] else [] in
      let seen = token_offsets lo none (slice text lo run_end) first in
      if not (any (is_separator c.unicode) (slice text run_start run_end))
      then add_range lo (run_end - lo) seen
      else separator_positions lo start run_end lo (slice text lo run_end) seen

  -- the loop of `_rescue_matches` over the candidates of one run
  unfoldable pub rescue_run : Engine → Text → List Match → ℕ → List ℕ → List Match
  unfolding rescue_at
  rescue_run engine text covered cursor [] = []
  rescue_run engine text covered cursor (position ∷ rest) =
      let skip = rescue_run engine text covered cursor rest in
      if ltb position cursor || is_covered covered position
      then skip
      else elim (rescue_at engine text position) [
        | none ↦ skip
        | some m ↦ m ∷ rescue_run engine text covered m.stop rest
      ]

  -- the loop of `_rescue_matches` over the runs
  unfoldable pub rescue_runs : Engine → Text → ℕ → List Match → List (ℕ × ℕ) → List Match
  unfolding rescue_run rescue_candidates
  rescue_runs engine text start covered [] = []
  rescue_runs engine text start covered ((run_start, run_end) ∷ runs) =
      rescue_run engine text covered 0 (rescue_candidates text run_start run_end start)
      ++ rescue_runs engine text start covered runs

  -- `_rescue_matches`, which has nothing to do where there is no expression for it
  unfoldable pub rescue_with : Option Engine → Text → ℕ → List Match → List Match
  unfolding rescue_runs numeric_runs
  rescue_with none text start covered = []
  rescue_with (some engine) text start covered =
      rescue_runs engine text start covered (numeric_runs text start)

  unfoldable pub rescue_matches : Text → ℕ → List Match → List Match
  unfolding rescue_with
  rescue_matches text start covered = rescue_with c.rescue text start covered
