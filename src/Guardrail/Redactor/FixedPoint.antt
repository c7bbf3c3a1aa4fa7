-- ===== src/Guardrail/Redactor/FixedPoint.antt =====
-- The scan with its rescue passes: `_scan_to_fixed_point` and `_valid_matches` of
-- task3_streaming_guardrail/redactor.py.
pub mod Within
use fde_assessment.Base.{
  ℕ, zero, suc, ◌+◌, ◌-◌, ◌≤◌, ◌≡◌, String, Bool, true, false, not, ◌&&◌, ◌||◌, Option, none, some,
  List, [], ◌∷◌, ◌++◌, any, keep, length, map, if◌then◌else◌, ltb, leb, ◌==◌, max, is_some,
}
use text.Mathlib.Text.{◌==◌ as str_eq}
use fde_assessment.Base.Slices.{drop, slice, get_elem?}
use fde_assessment.Guardrail.Redactor.{Text, Match, group, Unicode, Engine, is_run_char, Config}
use fde_assessment.Guardrail.Redactor.Cards.{card_scheme, digits_of, ssn_ok}
use fde_assessment.Guardrail.Redactor.Spans.{resolve_overlaps, gaps}
use fde_assessment.Guardrail.Redactor.Scan.{
  passes, is_separator, at, before, shorter_valid_match, scan,
}
use fde_assessment.Guardrail.Redactor.Rescue.{rescue_matches}

abbrev pub found_nothing : List Match → Bool
found_nothing [] = true
found_nothing (_ ∷ _) = false

-- whether two lists of matches have the same spans
abbrev pub same_spans : List Match → List Match → Bool
same_spans [] [] = true
same_spans (m ∷ ms) (n ∷ ns) = m.start == n.start && (m.stop == n.stop && same_spans ms ns)
same_spans _ _ = false

module _ (c : Config) where
  -- the scans of the gaps
  unfoldable pub scan_gaps : Text → List (ℕ × ℕ) → List Match
  unfolding scan
  scan_gaps text [] = []
  scan_gaps text ((gap_start, gap_end) ∷ rest) =
      scan c text gap_start gap_end ++ scan_gaps text rest

  -- the loop of `_scan_to_fixed_point`, over the passes that are left
  unfoldable pub rescue_passes : ℕ → Text → ℕ → List Match → List Match
  unfolding rescue_matches scan_gaps resolve_overlaps gaps
  rescue_passes zero text start selected = selected
  rescue_passes (suc passes_left) text start selected =
      let found =
        rescue_matches c text start selected
        ++ scan_gaps text (gaps selected start (length text)) in
      let merged = resolve_overlaps (selected ++ found) in
      let rest = rescue_passes passes_left text start merged in
      if found_nothing found
      then selected
      else if same_spans merged selected
      then selected
      else rest

  -- `_scan_to_fixed_point` and `_valid_matches`, with `_RESCUE_PASSES`
  unfoldable pub valid_matches : Text → ℕ → List Match
  unfolding rescue_passes scan resolve_overlaps ssn_ok
  valid_matches text start = rescue_passes 4 text start (
      resolve_overlaps (
        scan c text start (length text)
        ++ keep (λ m. ssn_ok c.unicode (group text m)) (c.find_keyword_ssn text start)))
