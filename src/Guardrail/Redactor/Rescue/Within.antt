-- ===== src/Guardrail/Redactor/Rescue/Within.antt =====
-- Where the rescued matches of a text lie: task3_streaming_guardrail/redactor.py.
use fde_assessment.Base.{
  ℕ, zero, suc, ◌+◌, ◌-◌, ◌≤◌, Bool, true, false, not, ◌&&◌, ◌||◌, Option, none, some, List, [],
  ◌∷◌, any, All, All-append, length, if◌then◌else◌, ltb, leb, ◌==◌, max, is_some, arith, Bool-cases,
  Option-cases, if-both, inl, inr,
}
use text.Mathlib.Text.{◌==◌ as str_eq}
use fde_assessment.Base.Slices.{slice}
use fde_assessment.Guardrail.Redactor.{
  Text, Match, group, Engine, Config, IsWithin, IsLawful, HasLawfulRescue, IsSound,
}
use fde_assessment.Guardrail.Redactor.Cards.{card_scheme, digits_of}
use fde_assessment.Guardrail.Redactor.Scan.{passes, is_separator, before, shorter_valid_match}
use fde_assessment.Guardrail.Redactor.Scan.Steps.{shorter_valid_match-IsInner}
use fde_assessment.Guardrail.Redactor.Rescue.{
  leading_digits, accept_rescue, rescue_at, rescue_with, add_position, add_offsets, token_offsets,
  add_range, add_back, separator_positions, rescue_candidates, is_covered, rescue_run, rescue_runs,
  numeric_runs, rescue_matches,
}

-- every position is at or past a bound
abbrev pub AllFrom : ℕ → List ℕ → Type 0
AllFrom lo ns = All (λ n. lo ≤ n) ns

module _ (lo : ℕ) where
  add_position-AllFrom :
      (n : ℕ) (ns : List ℕ) → lo ≤ n → AllFrom lo ns → AllFrom lo (add_position n ns)
  add_position-AllFrom n [] p h = (p, tt)
  add_position-AllFrom n (k ∷ ks) p h =
      if-both (AllFrom lo) (ltb n k) (n ∷ k ∷ ks) (if n == k then k ∷ ks else k ∷ add_position n ks)
        (p, h)
        (if-both (AllFrom lo) (n == k) (k ∷ ks) (k ∷ add_position n ks) h
          (h.0, add_position-AllFrom n ks p h.1))

  -- adding a position, or not
  add_if-AllFrom :
      (b : Bool) (n : ℕ) (ns : List ℕ)
      → lo ≤ n
      → AllFrom lo ns
      → AllFrom lo (if b then add_position n ns else ns)
  add_if-AllFrom b n ns p h =
      if-both (AllFrom lo) b (add_position n ns) ns (add_position-AllFrom n ns p h) h

  add_offsets-AllFrom :
      (token_start index : ℕ) (seen : List ℕ)
      → lo ≤ token_start
      → AllFrom lo seen
      → AllFrom lo (add_offsets token_start index seen)
  add_offsets-AllFrom t index seen p h =
      let one = add_if-AllFrom (ltb (t + 1) index) (t + 1) seen (omega arith) h in
      let two = add_if-AllFrom (ltb (t + 2) index) (t + 2) _ (omega arith) one in
      add_if-AllFrom (ltb (t + 3) index) (t + 3) _ (omega arith) two

  add_range-AllFrom :
      (from n : ℕ) (seen : List ℕ)
      → lo ≤ from
      → AllFrom lo seen
      → AllFrom lo (add_range from n seen)
  add_range-AllFrom from zero seen p h = h
  add_range-AllFrom from (suc n) seen p h =
      add_range-AllFrom (from + 1) n (add_position from seen) (omega arith)
        (add_position-AllFrom from seen p h)

  add_back-AllFrom :
      (back from index : ℕ) (seen : List ℕ)
      → lo ≤ from
      → AllFrom lo seen
      → AllFrom lo (add_back back from index seen)
  add_back-AllFrom back from index seen p h = elim (Bool-cases (leb (from + back) index)) [
    | inl near ↦ rw near (add_position-AllFrom (index - back) seen (ground arith) h)
    | inr far ↦ rw far h
  ]

abbrev TokenFrom : ℕ → Option ℕ → Type 0
TokenFrom lo none = Unit
TokenFrom lo (some n) = lo ≤ n

TokenFrom-if : (lo : ℕ) (b : Bool) (n : ℕ) → lo ≤ n → TokenFrom lo (if b then some n else none)
TokenFrom-if lo true n p = p
TokenFrom-if lo false n p = tt

module _ (c : Config) (lo : ℕ) where
  token_offsets-AllFrom :
      (index : ℕ) (open_at : Option ℕ) (rest : Text) (seen : List ℕ)
      → lo ≤ index
      → TokenFrom lo open_at
      → AllFrom lo seen
      → AllFrom lo (token_offsets c index open_at rest seen)
  unfolding token_offsets
  token_offsets-AllFrom index none [] seen p q h = h
  token_offsets-AllFrom index (some t) [] seen p q h = add_offsets-AllFrom lo t index seen q h
  token_offsets-AllFrom index none (ch ∷ rest) seen p q h =
      token_offsets-AllFrom (index + 1) (if c.unicode.is_digit ch then some index else none) rest
        seen (omega arith) (TokenFrom-if lo (c.unicode.is_digit ch) index p) h
  token_offsets-AllFrom index (some t) (ch ∷ rest) seen p q h =
      if-both (AllFrom lo) (c.unicode.is_digit ch) (token_offsets c (index + 1) (some t) rest seen)
        (token_offsets c (index + 1) none rest (add_offsets t index seen))
        (token_offsets-AllFrom (index + 1) (some t) rest seen (omega arith) q h)
        (token_offsets-AllFrom (index + 1) none rest (add_offsets t index seen) (omega arith) tt
          (add_offsets-AllFrom lo t index seen q h))

  separator_positions-AllFrom :
      (from start run_end index : ℕ) (rest : Text) (seen : List ℕ)
      → lo ≤ from
      → lo ≤ index
      → AllFrom lo seen
      → AllFrom lo (separator_positions c from start run_end index rest seen)
  unfolding separator_positions
  separator_positions-AllFrom from start run_end index [] seen p q h = h
  separator_positions-AllFrom from start run_end index (ch ∷ rest) seen p q h =
      let after =
        add_if-AllFrom lo (ltb (index + 1) run_end && leb start (index + 1)) (index + 1) seen
          (omega arith) h in
      let three = add_back-AllFrom lo 3 from index _ p after in
      let four = add_back-AllFrom lo 4 from index _ p three in
      elim (Bool-cases (c.unicode.is_digit ch)) [
        | inl digit ↦
            rw digit (
              separator_positions-AllFrom from start run_end (index + 1) rest seen p (omega arith)
                h)
        | inr other ↦
            rw other (
              separator_positions-AllFrom from start run_end (index + 1) rest _ p (omega arith)
                four)
      ]

module _ (c : Config) where
  rescue_candidates-AllFrom :
      (text : Text) (run_start run_end start : ℕ)
      → AllFrom start (rescue_candidates c text run_start run_end start)
  unfolding rescue_candidates
  rescue_candidates-AllFrom text run_start run_end start =
      let lo = max run_start start in
      let low : start ≤ lo = omega arith in
      let first : AllFrom start (if leb start run_start then run_start ∷ [] else []) =
        elim (Bool-cases (leb start run_start)) [
          | inl t ↦ rw t (ground arith, tt)
          | inr f ↦ rw f tt
        ] in
      let seen = token_offsets-AllFrom c start lo none (slice text lo run_end) _ low tt first in
      elim (Bool-cases (any (is_separator c.unicode) (slice text run_start run_end))) [
        | inr bare ↦ rw bare (add_range-AllFrom start lo (run_end - lo) _ low seen)
        | inl grouped ↦ rw grouped (
            separator_positions-AllFrom c start lo start run_end lo (slice text lo run_end) _ low
              low seen)
      ]

  -- a match that may be there lies between two positions
  abbrev MaybeWithin : ℕ → ℕ → Option Match → Type 0
  MaybeWithin lo hi none = Unit
  MaybeWithin lo hi (some m) = IsWithin lo hi m

  accept_rescue-MaybeWithin :
      (text : Text) (position lo hi : ℕ) (m : Match)
      → IsWithin lo hi m
      → MaybeWithin lo hi (accept_rescue c text position m)
  unfolding accept_rescue
  accept_rescue-MaybeWithin text position lo hi m w =
      let text_of = group text m in
      let grouped = any (is_separator c.unicode) text_of in
      let bad =
        not (grouped || before (is_separator c.unicode) text position)
        && not (is_some (card_scheme c.unicode (digits_of c.unicode text_of))) in
      if-both (MaybeWithin lo hi)
        (grouped
          && (str_eq m.name "credit_card"
              && (before c.unicode.is_digit text position && ltb (leading_digits c text_of) 4)))
        none (if bad then none else some m) tt (if-both (MaybeWithin lo hi) bad none (some m) tt w)

  rescue_at-MaybeWithin :
      (e : Engine) (text : Text) (position lo : ℕ)
      → IsLawful e
      → lo ≤ position
      → MaybeWithin lo (length text) (rescue_at c e text position)
  unfolding rescue_at
  rescue_at-MaybeWithin e text position lo law low =
      elim (Option-cases (e.match_at text position)) [
        | inl nothing ↦ rw (nothing, MaybeWithin) tt
        | inr (m, found) ↦
            let (at_start, spans, upto) = law.match_at_within text position m found in
            let inner = shorter_valid_match-IsInner c text position m.stop e law upto in
            elim (Bool-cases (passes c m.name (group text m))) [
              | inl valid ↦
                  rw (found, valid, MaybeWithin)
                    (accept_rescue-MaybeWithin text position lo (length text) m
                      (omega arith, omega arith, upto))
              | inr vetoed ↦ elim (Option-cases (shorter_valid_match c text position m.stop e)) [
                | inl none_shorter ↦ rw (found, vetoed, none_shorter, MaybeWithin) tt
                | inr (i, shorter) ↦
                    let (i_start, i_spans, i_upto) = rw shorter at inner in
                    rw (found, vetoed, shorter, MaybeWithin)
                      (accept_rescue-MaybeWithin text position lo (length text) i
                        (omega arith, omega arith, omega arith))
              ]
            ]
      ]

  rescue_run-All :
      (e : Engine) (text : Text) (covered : List Match) (cursor lo : ℕ) (positions : List ℕ)
      → IsLawful e
      → AllFrom lo positions
      → All (IsWithin lo (length text)) (rescue_run c e text covered cursor positions)
  unfolding rescue_run
  rescue_run-All e text covered cursor lo [] law h = tt
  rescue_run-All e text covered cursor lo (position ∷ rest) law h =
      let skipped = rescue_run-All e text covered cursor lo rest law h.1 in
      let here = rescue_at-MaybeWithin e text position lo law h.0 in
      elim (Bool-cases (ltb position cursor || is_covered covered position)) [
        | inl taken ↦ rw taken skipped
        | inr free ↦ elim (Option-cases (rescue_at c e text position)) [
          | inl nothing ↦ rw (free, nothing) skipped
          | inr (m, found) ↦
              rw (free, found)
                (rw found at here, rescue_run-All e text covered m.stop lo rest law h.1)
        ]
      ]

  rescue_runs-All :
      (e : Engine) (text : Text) (start : ℕ) (covered : List Match) (runs : List (ℕ × ℕ))
      → IsLawful e
      → All (IsWithin start (length text)) (rescue_runs c e text start covered runs)
  unfolding rescue_runs
  rescue_runs-All e text start covered [] law = tt
  rescue_runs-All e text start covered ((run_start, run_end) ∷ runs) law =
      All-append (IsWithin start (length text)) _ _
        (rescue_run-All e text covered 0 start (rescue_candidates c text run_start run_end start)
          law (rescue_candidates-AllFrom text run_start run_end start))
        (rescue_runs-All e text start covered runs law)

  rescue_with-All :
      (e : Option Engine) (text : Text) (start : ℕ) (covered : List Match)
      → HasLawfulRescue e
      → All (IsWithin start (length text)) (rescue_with c e text start covered)
  unfolding rescue_with
  rescue_with-All none text start covered law = tt
  rescue_with-All (some e) text start covered law =
      rescue_runs-All e text start covered (numeric_runs c text start) law

  pub rescue_matches-All :
      (text : Text) (start : ℕ) (covered : List Match)
      → IsSound c
      → All (IsWithin start (length text)) (rescue_matches c text start covered)
  unfolding rescue_matches
  rescue_matches-All text start covered sound =
      rescue_with-All c.rescue text start covered sound.rescue_lawful
