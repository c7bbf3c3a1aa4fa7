-- ===== src/Guardrail/Redactor/Scan/Steps.antt =====
-- Where the forward scan finds matches, and that its fuel is enough: `_scan` of
-- task3_streaming_guardrail/redactor.py.
use fde_assessment.Base.{
  ℕ, zero, suc, ◌+◌, ◌-◌, ◌≤◌, ◌<◌, ◌≡◌, Bool, true, false, not, ◌&&◌, Option, none, some, List, [],
  ◌∷◌, any, All, length, if◌then◌else◌, ltb, leb, max, is_some, arith, Bool-cases, Option-cases,
  if-both, inl, inr,
}
use fde_assessment.Base.Slices.{slice}
use fde_assessment.Guardrail.Redactor.{Text, Match, group, Engine, Config, IsWithin, IsLawful}
use fde_assessment.Guardrail.Redactor.Cards.{card_scheme, digits_of}
use fde_assessment.Guardrail.Redactor.Scan.{
  passes, is_separator, pan_lengths, trimmed_pan, inside_group, shrink, shorter_valid_match,
  scan_round, scan_from, scan,
}

module _ (c : Config) where
  -- anchored at the start, and ending no later than asked
  abbrev IsInner : ℕ → ℕ → Option Match → Type 0
  IsInner start stop none = Unit
  IsInner start stop (some m) = (m.start ≡ start) × (start < m.stop) × (m.stop ≤ stop)

  trimmed_pan-IsInner :
      (lengths : List ℕ) (text : Text) (start stop : ℕ) (e : Engine)
      → IsLawful e
      → stop ≤ length text
      → IsInner start stop (trimmed_pan c lengths text start stop e)
  unfolding trimmed_pan
  trimmed_pan-IsInner [] text start stop e law short = tt
  trimmed_pan-IsInner (n ∷ lengths) text start stop e law short =
      let others = trimmed_pan c lengths text start stop e in
      let rest = trimmed_pan-IsInner lengths text start stop e law short in
      elim (Bool-cases (leb stop (start + n))) [
        | inl far ↦ rw far rest
        | inr near ↦ elim (Option-cases (e.fullmatch text start (start + n))) [
          | inl nothing ↦ rw (near, nothing) rest
          | inr (m, found) ↦
              let (at_start, at_end, some_text) =
                law.fullmatch_exact text start (start + n) m (omega arith) (ground arith) found in
              rw (near, found)
                (if-both (IsInner start stop)
                  (not (is_some (card_scheme c.unicode (digits_of c.unicode (group text m)))))
                  others (if passes c m.name (group text m) then some m else others) rest
                  (if-both (IsInner start stop) (passes c m.name (group text m)) (some m) others
                    (at_start, omega arith, ground arith) rest))
        ]
      ]

  shrink-IsInner :
      (fuel : ℕ) (only : Bool) (text : Text) (start stop end' : ℕ) (e : Engine)
      → IsLawful e
      → end' ≤ length text
      → stop ≤ end'
      → IsInner start end' (shrink c fuel only text start stop e)
  unfolding shrink
  shrink-IsInner zero only text start stop end' e law short low = tt
  shrink-IsInner (suc fuel) only text start stop end' e law short low =
      let before = shrink c fuel only text start (stop - 1) e in
      let next = shrink-IsInner fuel only text start (stop - 1) end' e law short (omega arith) in
      elim (Bool-cases (ltb start stop)) [
        | inr done ↦ rw done tt
        | inl more ↦ elim (Option-cases (e.fullmatch text start stop)) [
          | inl nothing ↦
              rw (more, nothing)
                (if-both (IsInner start end') (only && inside_group c text stop) before before next
                  next)
          | inr (m, found) ↦
              let (at_start, at_end, some_text) =
                law.fullmatch_exact text start stop m (ground arith) (omega arith) found in
              let inner = shrink c fuel only text start (m.stop - 1) e in
              let again =
                shrink-IsInner fuel only text start (m.stop - 1) end' e law short (omega arith) in
              rw (more, found)
                (if-both (IsInner start end') (only && inside_group c text stop) before
                  (if passes c m.name (group text m) then some m else inner) next
                  (if-both (IsInner start end') (passes c m.name (group text m)) (some m) inner
                    (at_start, ground arith, omega arith) again))
        ]
      ]

  pub shorter_valid_match-IsInner :
      (text : Text) (start stop : ℕ) (e : Engine)
      → IsLawful e
      → stop ≤ length text
      → IsInner start stop (shorter_valid_match c text start stop e)
  unfolding shorter_valid_match
  shorter_valid_match-IsInner text start stop e law short =
      let all_ends =
        shrink-IsInner stop false text start (stop - 1) stop e law short (omega arith) in
      let groups = shrink-IsInner stop true text start (stop - 1) stop e law short (omega arith) in
      elim (Bool-cases (any (is_separator c.unicode) (slice text start stop))) [
        | inr bare ↦ rw bare (trimmed_pan-IsInner pan_lengths text start stop e law short)
        | inl grouped ↦ elim (Option-cases (shrink c stop true text start (stop - 1) e)) [
          | inl nothing ↦ rw (grouped, nothing) all_ends
          | inr (m, found) ↦ rw (grouped, found) (rw found at groups)
        ]
      ]

  -- every match that the rounds find lies between the position and the limit, if the loop after a
  -- later position is so
  scan_round-All :
      (continue : ℕ → List Match) (text : Text) (lo limit position : ℕ)
      → IsLawful c.combined
      → limit ≤ length text
      → lo ≤ position
      → ((p : ℕ) → position < p → All (IsWithin lo limit) (continue p))
      → All (IsWithin lo limit) (scan_round c continue text limit position)
  unfolding scan_round
  scan_round-All continue text lo limit position law short low later =
      elim (Bool-cases (leb position limit)) [
        | inr past ↦ rw past tt
        | inl inside ↦ elim (Option-cases (c.combined.search text position limit)) [
          | inl nothing ↦ rw (inside, nothing) tt
          | inr (m, found) ↦
              let (from, spans, upto) = law.search_within text position limit m found in
              let inner =
                shorter_valid_match-IsInner text m.start m.stop c.combined law (omega arith) in
              elim (Bool-cases (passes c m.name (group text m))) [
                | inl valid ↦
                    rw (inside, found, valid)
                      ((omega arith, spans, upto), later (max m.stop (m.start + 1)) (omega arith))
                | inr vetoed ↦
                    elim (Option-cases (shorter_valid_match c text m.start m.stop c.combined)) [
                      | inl none_shorter ↦
                          rw (inside, found, vetoed, none_shorter)
                            (later (m.start + 1) (omega arith))
                      | inr (i, shorter) ↦
                          let (at_start, i_spans, i_upto) = rw shorter at inner in
                          rw (inside, found, vetoed, shorter)
                            (
                              (omega arith, omega arith, omega arith),
                              later (max i.stop (i.start + 1)) (omega arith),
                            )
                    ]
              ]
        ]
      ]

  scan_from-All :
      (fuel : ℕ) (text : Text) (lo limit position : ℕ)
      → IsLawful c.combined
      → limit ≤ length text
      → lo ≤ position
      → All (IsWithin lo limit) (scan_from c fuel text limit position)
  unfolding scan_from
  scan_from-All zero text lo limit position law short low = tt
  scan_from-All (suc fuel) text lo limit position law short low =
      scan_round-All (λ p. scan_from c fuel text limit p) text lo limit position law short low
        (λ p h. scan_from-All fuel text lo limit p law short (omega arith))

  pub scan-All :
      (text : Text) (start limit : ℕ)
      → IsLawful c.combined
      → limit ≤ length text
      → All (IsWithin start limit) (scan c text start limit)
  unfolding scan
  scan-All text start limit law short =
      scan_from-All (limit + 1 - start) text start limit start law short (omega arith)
