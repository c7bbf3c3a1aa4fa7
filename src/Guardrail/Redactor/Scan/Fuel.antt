-- ===== src/Guardrail/Redactor/Scan/Fuel.antt =====
-- The forward scan ends by its own test, never for lack of fuel: `_scan` of
-- task3_streaming_guardrail/redactor.py.
use fde_assessment.Base.{
  ℕ, zero, suc, ◌+◌, ◌-◌, ◌≤◌, ◌<◌, ◌≡◌, ◌∙◌, refl, sym, ap, false, List, [], ◌∷◌, length, leb, max,
  arith, Bool-cases, Option-cases, inl, inr,
}
use fde_assessment.Guardrail.Redactor.{Text, Match, group, Config, IsLawful}
use fde_assessment.Guardrail.Redactor.Scan.{
  passes, shorter_valid_match, scan_round, scan_from, scan,
}
use fde_assessment.Guardrail.Redactor.Scan.Steps.{shorter_valid_match-IsInner}

module _ (c : Config) (law : IsLawful c.combined) where
  -- a round asks for the loop only from later positions
  scan_round_cong :
      (k k' : ℕ → List Match) (text : Text) (limit position : ℕ)
      → limit ≤ length text
      → ((p : ℕ) → position < p → k p ≡ k' p)
      → scan_round c k text limit position ≡ scan_round c k' text limit position
  unfolding scan_round
  scan_round_cong k k' text limit position short same = elim (Bool-cases (leb position limit)) [
    | inr past ↦ rw past
    | inl inside ↦ elim (Option-cases (c.combined.search text position limit)) [
      | inl nothing ↦ rw (inside, nothing)
      | inr (m, found) ↦
          let (from, spans, upto) = law.search_within text position limit m found in
          let inner =
            shorter_valid_match-IsInner c text m.start m.stop c.combined law (omega arith) in
          elim (Bool-cases (passes c m.name (group text m))) [
            | inl valid ↦
                rw (inside, found, valid)
                  (ap (λ ms. m ∷ ms) (same (max m.stop (m.start + 1)) (omega arith)))
            | inr vetoed ↦
                elim (Option-cases (shorter_valid_match c text m.start m.stop c.combined)) [
                  | inl none_shorter ↦
                      rw (inside, found, vetoed, none_shorter) (same (m.start + 1) (omega arith))
                  | inr (i, shorter) ↦
                      let (at_start, i_spans, i_upto) = rw shorter at inner in
                      rw (inside, found, vetoed, shorter)
                        (ap (λ ms. i ∷ ms) (same (max i.stop (i.start + 1)) (omega arith)))
                ]
          ]
    ]
  ]

  scan_from-past :
      (fuel : ℕ) (text : Text) (limit position : ℕ)
      → limit < position
      → scan_from c fuel text limit position ≡ []
  unfolding scan_from scan_round
  scan_from-past zero text limit position past = refl
  scan_from-past (suc fuel) text limit position past =
      let over : leb position limit ≡ false = ground arith in rw over

  scan_from_fuel :
      (f g : ℕ) (text : Text) (limit position : ℕ)
      → limit ≤ length text
      → limit < f + position
      → limit < g + position
      → scan_from c f text limit position ≡ scan_from c g text limit position
  unfolding scan_from
  scan_from_fuel zero g text limit position short p q =
      sym (scan_from-past g text limit position (omega arith))
  scan_from_fuel (suc f) zero text limit position short p q =
      scan_from-past (suc f) text limit position (omega arith)
  scan_from_fuel (suc f) (suc g) text limit position short p q =
      scan_round_cong (λ n. scan_from c f text limit n) (λ n. scan_from c g text limit n) text limit
        position short
        (λ n later. scan_from_fuel f g text limit n short (omega arith) (omega arith))

  -- With an engine whose matches lie where it was asked to search, the scan satisfies the equation of
  -- the source's loop: from each position it does one round, and then the scan from the position that
  -- the round leaves, until it is past the limit. No fuel shows.
  pub scan_loops :
      (text : Text) (start limit : ℕ)
      → limit ≤ length text
      → scan c text start limit ≡ scan_round c (λ p. scan c text p limit) text limit start
  unfolding scan
  scan_loops text start limit short =
      scan_from_fuel (limit + 1 - start) (suc (limit + 1)) text limit start short (omega arith)
        (omega arith)
      ∙ unfold scan_from in
        scan_round_cong (λ p. scan_from c (limit + 1) text limit p)
          (λ p. scan_from c (limit + 1 - p) text limit p) text limit start short
          (λ p later.
            scan_from_fuel (limit + 1) (limit + 1 - p) text limit p short (omega arith)
              (omega arith))
