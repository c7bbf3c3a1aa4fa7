-- ===== src/Guardrail/Redactor/Spans.antt =====
-- Choosing among matches: `_resolve_overlaps` and `_gaps` of task3_streaming_guardrail/redactor.py.
pub mod Choice
use fde_assessment.Base.{
  ℕ, ◌+◌, ◌-◌, Bool, true, false, ◌&&◌, ◌||◌, List, [], ◌∷◌, if◌then◌else◌, ltb, leb, ◌==◌, max,
}
use fde_assessment.Guardrail.Redactor.{Match}

-- the order of the keys `(m.start(), -(m.end() - m.start()))`
abbrev pub comes_first : Match → Match → Bool
comes_first a b =
    ltb a.start b.start || (a.start == b.start && leb (b.stop - b.start) (a.stop - a.start))

unfoldable pub insert_match : Match → List Match → List Match
insert_match m [] = m ∷ []
insert_match m (n ∷ ns) =
    let rest = insert_match m ns in if comes_first m n then m ∷ n ∷ ns else n ∷ rest

-- `sorted(found, key=...)`, which is stable
unfoldable pub sort_matches : List Match → List Match
unfolding insert_match
sort_matches [] = []
sort_matches (m ∷ ms) = insert_match m (sort_matches ms)

-- the loop over the sorted matches; a cursor of -1 lets through what 0 lets through
unfoldable pub choose : ℕ → List Match → List Match
choose cursor [] = []
choose cursor (m ∷ ms) =
    let kept = choose m.stop ms in
    let skipped = choose cursor ms in if leb cursor m.start then m ∷ kept else skipped

-- `_resolve_overlaps`
unfoldable pub resolve_overlaps : List Match → List Match
unfolding sort_matches choose
resolve_overlaps found = choose 0 (sort_matches found)

-- `_gaps`; `cursor` starts at `start`
unfoldable pub gaps : List Match → ℕ → ℕ → List (ℕ × ℕ)
gaps [] cursor end' = if ltb cursor end' then (cursor, end') ∷ [] else []
gaps (m ∷ ms) cursor end' =
    let rest = gaps ms (max cursor m.stop) end' in
    if ltb cursor m.start then (cursor, m.start) ∷ rest else rest
