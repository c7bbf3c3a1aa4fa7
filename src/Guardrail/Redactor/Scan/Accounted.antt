-- ===== src/Guardrail/Redactor/Scan/Accounted.antt =====
-- That the forward scan passes over no position: `_scan` of task3_streaming_guardrail/redactor.py.
use mathlib.Core.List.{Mem, mem-cons_self, mem-cons_of_mem}
use fde_assessment.Base.{
  ℕ, zero, suc, ◌+◌, ◌≤◌, ◌<◌, ◌≡◌, inl, inr, refl, false, none, some, List, ◌∷◌, length, true, leb,
  ltb, max, arith, Bool-cases, Option-cases,
}
use fde_assessment.Guardrail.Redactor.{Text, Match, group, Config, IsLawful}
use fde_assessment.Guardrail.Redactor.Scan.{passes, shorter_valid_match, scan_round, scan}
use fde_assessment.Guardrail.Redactor.Scan.Fuel.{scan_loops}
use fde_assessment.Guardrail.Redactor.Scan.Steps.{shorter_valid_match-IsInner}

module _ (c : Config) (text : Text) (limit : ℕ) where
  -- why a position starts no match of its own in the result of a scan from `start`
  pub data IsAccounted (start i : ℕ) (found : List Match) : Type 0 where
    -- it is in a match of the result, or starts an empty one
    covered :
        (m : Match)
        → Mem m found
        → m.start ≤ i
        → i < max m.stop (m.start + 1)
        → IsAccounted start i found
    -- a search from there, or from before it, finds nothing
    unmatched :
        (q : ℕ)
        → start ≤ q
        → q ≤ i
        → c.combined.search text q limit ≡ none
        → IsAccounted start i found
    -- the first match that a search from before it finds starts after it
    overtaken :
        (q : ℕ) (m : Match)
        → start ≤ q
        → q ≤ i
        → c.combined.search text q limit ≡ some m
        → i < m.start
        → IsAccounted start i found
    -- the match that starts there fails its validator, and `_shorter_valid_match` finds none
    vetoed :
        (q : ℕ) (m : Match)
        → start ≤ q
        → q ≤ i
        → c.combined.search text q limit ≡ some m
        → m.start ≡ i
        → passes c m.name (group text m) ≡ false
        → shorter_valid_match c text m.start m.stop c.combined ≡ none
        → IsAccounted start i found

  IsAccounted-cons :
      (start i : ℕ) (m : Match) (found : List Match)
      → IsAccounted start i found
      → IsAccounted start i (m ∷ found)
  IsAccounted-cons start i m found (covered n here from before) =
      covered n (mem-cons_of_mem m here) from before
  IsAccounted-cons start i m found (unmatched q from upto nothing) = unmatched q from upto nothing
  IsAccounted-cons start i m found (overtaken q n from upto e later) =
      overtaken q n from upto e later
  IsAccounted-cons start i m found (vetoed q n from upto e here bad none_shorter) =
      vetoed q n from upto e here bad none_shorter

  -- past a match that is put into the result
  after_match :
      (start position next i : ℕ) (m n : Match) (found : List Match)
      → start ≤ position
      → position ≤ i
      → c.combined.search text position limit ≡ some m
      → n.start ≡ m.start
      → next ≡ max n.stop (n.start + 1)
      → (next ≤ i → IsAccounted start i found)
      → IsAccounted start i (n ∷ found)
  after_match start position next i m n found from upto e same is_next rest =
      elim (Bool-cases (ltb i m.start)) [
        | inl ahead ↦ overtaken position m from upto e (ground arith)
        | inr reached ↦ elim (Bool-cases (leb next i)) [
          | inl past ↦ IsAccounted-cons start i n found (rest (ground arith))
          | inr inside ↦ covered n mem-cons_self (ground arith) (ground arith)
        ]
      ]

  module _ (law : IsLawful c.combined) (short : limit ≤ length text) (start : ℕ) where
    scan-IsAccounted :
        (fuel position i : ℕ)
        → limit < fuel + position
        → start ≤ position
        → position ≤ i
        → i ≤ limit
        → IsAccounted start i (scan c text position limit)
    unfolding scan_round
    scan-IsAccounted zero position i enough from upto inside = absurd (omega arith)
    scan-IsAccounted (suc fuel) position i enough from upto inside =
        let within : leb position limit ≡ true = ground arith in
        let loops = scan_loops c law text position limit short in
        elim (Option-cases (c.combined.search text position limit)) [
          | inl nothing ↦ unmatched position from upto nothing
          | inr (m, e) ↦
              let (m_from, m_spans, m_upto) = law.search_within text position limit m e in
              let inner =
                shorter_valid_match-IsInner c text m.start m.stop c.combined law (omega arith) in
              elim (Bool-cases (passes c m.name (group text m))) [
                | inl valid ↦
                    rw (loops, within, e, valid)
                      (after_match start position (max m.stop (m.start + 1)) i m m _ from upto e
                        refl refl
                        (λ past.
                          scan-IsAccounted fuel (max m.stop (m.start + 1)) i (omega arith)
                            (omega arith) past inside))
                | inr bad ↦
                    elim (Option-cases (shorter_valid_match c text m.start m.stop c.combined)) [
                      | inr (n, shorter) ↦
                          let (at_start, n_spans, n_upto) = rw shorter at inner in
                          rw (loops, within, e, bad, shorter)
                            (after_match start position (max n.stop (n.start + 1)) i m n _ from upto
                              e at_start refl
                              (λ past.
                                scan-IsAccounted fuel (max n.stop (n.start + 1)) i (omega arith)
                                  (omega arith) past inside))
                      | inl none_shorter ↦
                          rw (loops, within, e, bad, none_shorter)
                            (elim (Bool-cases (ltb i m.start)) [
                              | inl ahead ↦ overtaken position m from upto e (ground arith)
                              | inr reached ↦ elim (Bool-cases (leb (m.start + 1) i)) [
                                | inl past ↦
                                    scan-IsAccounted fuel (m.start + 1) i (omega arith)
                                      (omega arith) (ground arith) inside
                                | inr here ↦
                                    vetoed position m from upto e (ground arith) bad none_shorter
                              ]
                            ])
                    ]
              ]
        ]

  -- With an engine whose matches lie where it was asked to search, the scan passes over no position
  -- between its start and its limit. Each of them lies in a match of the result; or a search from it,
  -- or from a position before it, finds nothing, or finds first a match that starts after it; or the
  -- match that starts there fails its validator and `_shorter_valid_match` finds none.
  pub scan_passes_over_nothing :
      (law : IsLawful c.combined) (start i : ℕ)
      → limit ≤ length text
      → start ≤ i
      → i ≤ limit
      → IsAccounted start i (scan c text start limit)
  scan_passes_over_nothing law start i short from inside =
      scan-IsAccounted law short start (suc limit) start i (omega arith) (omega arith) from inside
