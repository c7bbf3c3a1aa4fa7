-- ===== src/Guardrail/Redactor/FixedPoint/Within.antt =====
-- Where the valid matches of a text lie: task3_streaming_guardrail/redactor.py.
use fde_assessment.Base.{
  ℕ, zero, suc, ◌≤◌, Bool, List, [], ◌∷◌, ◌++◌, keep, All, All-map, All-append, length,
  if◌then◌else◌, ltb, max, arith, if-both,
}
use fde_assessment.Guardrail.Redactor.{Text, Match, Config, IsWithin, IsLawful, IsSound}
use fde_assessment.Guardrail.Redactor.Spans.{resolve_overlaps, gaps}
use fde_assessment.Guardrail.Redactor.Spans.Choice.{
  IsSpan, IsSpread, All-resolve_overlaps, resolve_overlaps-IsSpread,
}
use fde_assessment.Guardrail.Redactor.Scan.{scan}
use fde_assessment.Guardrail.Redactor.Scan.Steps.{scan-All}
use fde_assessment.Guardrail.Redactor.Rescue.{rescue_matches}
use fde_assessment.Guardrail.Redactor.Rescue.Within.{rescue_matches-All}
use fde_assessment.Guardrail.Redactor.FixedPoint.{
  found_nothing, scan_gaps, same_spans, rescue_passes, valid_matches,
}

module _ (c : Config) where
  -- the gaps lie between the ends
  abbrev GapsWithin : ℕ → ℕ → List (ℕ × ℕ) → Type 0
  GapsWithin lo hi gs = All (λ g. (lo ≤ g.0) × (g.1 ≤ hi)) gs

  gaps-GapsWithin :
      (lo hi cursor : ℕ) (ms : List Match)
      → lo ≤ cursor
      → All (IsWithin lo hi) ms
      → GapsWithin lo hi (gaps ms cursor hi)
  unfolding gaps
  gaps-GapsWithin lo hi cursor [] low h =
      if-both (GapsWithin lo hi) (ltb cursor hi) ((cursor, hi) ∷ []) [] ((low, omega arith), tt) tt
  gaps-GapsWithin lo hi cursor (m ∷ ms) low h =
      let rest = gaps-GapsWithin lo hi (max cursor m.stop) ms (omega arith) h.1 in
      let (from, spans, upto) = h.0 in
      if-both (GapsWithin lo hi) (ltb cursor m.start)
        ((cursor, m.start) ∷ gaps ms (max cursor m.stop) hi) (gaps ms (max cursor m.stop) hi)
        ((low, omega arith), rest) rest

  IsWithin-widen :
      (lo hi lo' hi' : ℕ)
      → lo ≤ lo'
      → hi' ≤ hi
      → (m : Match) → IsWithin lo' hi' m
      → IsWithin lo hi m
  IsWithin-widen lo hi lo' hi' p q m (from, spans, upto) = (omega arith, spans, omega arith)

  scan_gaps-All :
      (text : Text) (start : ℕ) (gs : List (ℕ × ℕ))
      → IsLawful c.combined
      → GapsWithin start (length text) gs
      → All (IsWithin start (length text)) (scan_gaps c text gs)
  unfolding scan_gaps
  scan_gaps-All text start [] law h = tt
  scan_gaps-All text start ((gap_start, gap_end) ∷ gs) law h =
      All-append (IsWithin start (length text)) _ _
        (All-map _ _ (IsWithin-widen start (length text) gap_start gap_end h.0.0 h.0.1)
          (scan c text gap_start gap_end) (scan-All c text gap_start gap_end law h.0.1))
        (scan_gaps-All text start gs law h.1)

  -- in order, apart, and between the start and the end of the text
  abbrev pub AreSpread : Text → ℕ → List Match → Type 0
  AreSpread text start ms = IsSpread 0 ms × All (IsWithin start (length text)) ms

  resolved-AreSpread :
      (text : Text) (start : ℕ) (ms : List Match)
      → All (IsWithin start (length text)) ms
      → AreSpread text start (resolve_overlaps ms)
  resolved-AreSpread text start ms h = (
    resolve_overlaps-IsSpread ms (All-map (IsWithin start (length text)) IsSpan weaken ms h),
    All-resolve_overlaps (IsWithin start (length text)) ms h,
  )
    where
      weaken : (m : Match) → IsWithin start (length text) m → IsSpan m
      weaken m (from, spans, upto) = omega arith

  rescue_passes-AreSpread :
      (n : ℕ) (text : Text) (start : ℕ) (selected : List Match)
      → IsSound c
      → AreSpread text start selected
      → AreSpread text start (rescue_passes c n text start selected)
  unfolding rescue_passes
  rescue_passes-AreSpread zero text start selected sound h = h
  rescue_passes-AreSpread (suc n) text start selected sound h =
      let extra =
        rescue_matches c text start selected
        ++ scan_gaps c text (gaps selected start (length text)) in
      let merged = resolve_overlaps (selected ++ extra) in
      let spread = resolved-AreSpread text start (selected ++ extra) (
        All-append (IsWithin start (length text)) selected extra h.1 (
          All-append (IsWithin start (length text)) _ _
            (rescue_matches-All c text start selected sound)
            (scan_gaps-All text start _ sound.combined_lawful
              (gaps-GapsWithin start (length text) start selected (omega arith) h.1)))) in
      if-both (AreSpread text start) (found_nothing extra) selected
        (if same_spans merged selected then selected else rescue_passes c n text start merged) h
        (if-both (AreSpread text start) (same_spans merged selected) selected
          (rescue_passes c n text start merged) h
          (rescue_passes-AreSpread n text start merged sound spread))

  All-keep :
      (P : Match → Type 0) (p : Match → Bool) (ms : List Match) → All P ms → All P (keep p ms)
  All-keep P p [] h = tt
  All-keep P p (m ∷ ms) h =
      if-both (All P) (p m) (m ∷ keep p ms) (keep p ms) (h.0, All-keep P p ms h.1)
        (All-keep P p ms h.1)

  -- With an engine whose matches lie where it was asked to search, the matches that redaction uses
  -- are in order and apart, none starts before the given position, and none ends past the text.
  pub valid_matches-AreSpread :
      (text : Text) (start : ℕ) → IsSound c → AreSpread text start (valid_matches c text start)
  unfolding valid_matches
  valid_matches-AreSpread text start sound = rescue_passes-AreSpread 4 text start _ sound (
      resolved-AreSpread text start _ (
        All-append (IsWithin start (length text)) _ _
          (scan-All c text start (length text) sound.combined_lawful (omega arith))
          (All-keep (IsWithin start (length text)) _ _ (sound.found_within text start))))
