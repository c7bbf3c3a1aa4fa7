-- ===== src/Guardrail/Redactor/Stream/Emitted.antt =====
-- What one call of `_emit` of task3_streaming_guardrail/redactor.py puts out and leaves.
use mathlib.Core.List.{append_assoc, append-nil}
use fde_assessment.Base.{
  ℕ, ◌+◌, ◌-◌, ◌≤◌, ◌≡◌, inl, inr, refl, sym, ap, ◌∙◌, String, true, List, [], ◌∷◌, ◌++◌, length,
  ltb, ◌==◌, arith, Bool-cases,
}
use text.Mathlib.Text.{◌==◌ as str_eq}
use fde_assessment.Base.Slices.{take, drop, last_of, slice, length-take, length-drop}
use fde_assessment.Guardrail.Redactor.{Text, Match, Config}
use fde_assessment.Guardrail.Redactor.Stream.Pieces.{
  Piece.clear as clear, shown, secrets, IsClean, pieces_of,
}
use fde_assessment.Guardrail.Redactor.Stream.{
  Redactor, context_chars, record_match, render, emit_full, is_blank,
}

-- how many matches were counted
abbrev pub total : List (String × ℕ) → ℕ
total [] = 0
total ((n, k) ∷ counts) = k + total counts

total-record_match :
    (name : String) (counts : List (String × ℕ))
    → total (record_match name counts) ≡ total counts + 1
unfolding record_match
total-record_match name [] = refl
total-record_match name ((n, k) ∷ counts) = elim (Bool-cases (str_eq n name)) [
  | inl same ↦ rw same (omega arith)
  | inr other ↦ rw other (omega (arith, total-record_match name counts))
]

pub is_blank-nil : (t : Text) → is_blank t ≡ true → t ≡ []
is_blank-nil [] h = refl
is_blank-nil (x ∷ t) h = absurd (ground arith)

length-slice : (t : Text) (i j : ℕ) → i ≤ j → j ≤ length t → length (slice t i j) ≡ j - i
length-slice t i j low high = omega (arith, length-take (j - i) (drop i t), length-drop i t)

empty_slice : (t : Text) (i j : ℕ) → i ≤ j → j ≤ length t → is_blank (slice t i j) ≡ true → j ≡ i
empty_slice t i j low high blank =
    omega (arith, length-slice t i j low high, ap length (is_blank-nil (slice t i j) blank))

module _ (c : Config) (full : Text) (hold : ℕ) where
  render-counts :
      (ms : List Match) (out : Text) (cursor : ℕ) (counts : List (String × ℕ))
      → total (render c full hold ms out cursor counts).counts
        ≡ total counts + length (secrets (pieces_of full hold cursor ms))
  unfolding render pieces_of
  render-counts [] out cursor counts = omega arith
  render-counts (m ∷ ms) out cursor counts =
      let rest =
        render-counts ms (out ++ (slice full cursor m.start ++ c.placeholder)) m.stop
          (record_match m.name counts) in
      elim (Bool-cases (ltb hold m.stop)) [
        | inl past ↦ rw past (omega arith)
        | inr inside ↦ rw inside (omega (arith, rest, total-record_match m.name counts))
      ]

  render-pieces_of :
      (ms : List Match) (out : Text) (cursor : ℕ) (counts : List (String × ℕ))
      → (render c full hold ms out cursor counts).out
          ++ slice full (render c full hold ms out cursor counts).cursor hold
        ≡ out ++ shown c.placeholder (pieces_of full hold cursor ms)
  unfolding render pieces_of
  render-pieces_of [] out cursor counts =
      ap (λ t. out ++ t) (sym (append-nil (slice full cursor hold)))
  render-pieces_of (m ∷ ms) out cursor counts = elim (Bool-cases (ltb hold m.stop)) [
    | inl past ↦ rw past (ap (λ t. out ++ t) (sym (append-nil (slice full cursor hold))))
    | inr inside ↦
        rw
          (
            inside,
            render-pieces_of ms (out ++ (slice full cursor m.start ++ c.placeholder)) m.stop
                (record_match m.name counts),
          )
          (simp append_assoc)
  ]

  -- the cursor of the loop never goes back
  render-cursor :
      (end' : ℕ) (ms : List Match) (out : Text) (cursor : ℕ) (counts : List (String × ℕ))
      → IsClean cursor end' ms
      → cursor ≤ (render c full hold ms out cursor counts).cursor
  unfolding render
  render-cursor end' [] out cursor counts clean = omega arith
  render-cursor end' (m ∷ ms) out cursor counts clean =
      let rest =
        render-cursor end' ms (out ++ (slice full cursor m.start ++ c.placeholder)) m.stop
          (record_match m.name counts) clean.3 in
      elim (Bool-cases (ltb hold m.stop)) [
        | inl past ↦ rw past (omega arith)
        | inr inside ↦ rw inside (omega arith)
      ]

  -- where the loop redacts nothing, what is put out is what was safe
  untouched :
      (end' base : ℕ) (ms : List Match) (counts : List (String × ℕ))
      → IsClean base end' ms
      → (render c full hold ms [] base counts).cursor ≡ base
      → (render c full hold ms [] base counts).out
          ++ slice full (render c full hold ms [] base counts).cursor hold
        ≡ slice full base hold
  unfolding render
  untouched end' base [] counts clean = λ same. refl
  untouched end' base (m ∷ ms) counts clean = elim (Bool-cases (ltb hold m.stop)) [
    | inl past ↦ rw past (λ same. refl)
    | inr inside ↦ rw inside (λ same. absurd (
        omega (
          arith,
          render-cursor end' ms ([] ++ (slice full base m.start ++ c.placeholder)) m.stop
              (record_match m.name counts) clean.3,
        )))
  ]

  blank-pieces_of :
      (end' base : ℕ) (ms : List Match)
      → base ≤ hold
      → hold ≤ length full
      → IsClean base end' ms
      → is_blank (slice full base hold) ≡ true
      → pieces_of full hold base ms ≡ clear [] ∷ []
  unfolding pieces_of
  blank-pieces_of end' base [] low high clean blank =
      rw (is_blank-nil (slice full base hold) blank) refl
  blank-pieces_of end' base (m ∷ ms) low high clean blank =
      let same = empty_slice full base hold low high blank in
      let past : ltb hold m.stop ≡ true = ground arith in
      rw (past, is_blank-nil (slice full base hold) blank) refl

  -- what `_emit` puts out are the pieces up to the hold
  pub emit_full-pieces_of :
      (r : Redactor) (end' base : ℕ) (ms : List Match)
      → base ≤ hold
      → hold ≤ length full
      → IsClean base end' ms
      → (emit_full c r full base ms hold).0 ≡ shown c.placeholder (pieces_of full hold base ms)
  unfolding emit_full
  emit_full-pieces_of r end' base ms low high clean =
      elim (Bool-cases (is_blank (slice full base hold))) [
        | inl blank ↦
            rw blank
              (ap (shown c.placeholder) (sym (blank-pieces_of end' base ms low high clean blank)))
        | inr some' ↦ elim (Bool-cases ((render c full hold ms [] base r.counts).cursor == base)) [
          | inl same ↦
              rw (some', same)
                (sym (untouched end' base ms r.counts clean (ground arith))
                  ∙ render-pieces_of ms [] base r.counts)
          | inr moved ↦ rw (some', moved) (render-pieces_of ms [] base r.counts)
        ]
      ]

  pub emit_full-buffer :
      (r : Redactor) (base : ℕ) (ms : List Match)
      → (emit_full c r full base ms hold).1.buffer ≡ drop hold full
  unfolding emit_full
  emit_full-buffer r base ms = elim (Bool-cases (is_blank (slice full base hold))) [
    | inl blank ↦ rw blank
    | inr some' ↦ rw some'
  ]

  pub emit_full-context :
      (r : Redactor) (base : ℕ) (ms : List Match)
      → (emit_full c r full base ms hold).1.context ≡ last_of context_chars (take hold full)
  unfolding emit_full
  emit_full-context r base ms = elim (Bool-cases (is_blank (slice full base hold))) [
    | inl blank ↦ rw blank
    | inr some' ↦ rw some'
  ]

  pub emit_full-characters :
      (r : Redactor) (base : ℕ) (ms : List Match)
      → ((emit_full c r full base ms hold).1.characters_out
          ≡ r.characters_out + length (emit_full c r full base ms hold).0)
        × ((emit_full c r full base ms hold).1.characters_in ≡ r.characters_in)
  unfolding emit_full
  emit_full-characters r base ms = elim (Bool-cases (is_blank (slice full base hold))) [
    | inl blank ↦ rw blank (omega arith, omega arith)
    | inr some' ↦ rw some' (refl, refl)
  ]

  pub emit_full-counts :
      (r : Redactor) (end' base : ℕ) (ms : List Match)
      → base ≤ hold
      → hold ≤ length full
      → IsClean base end' ms
      → total (emit_full c r full base ms hold).1.counts
        ≡ total r.counts + length (secrets (pieces_of full hold base ms))
  unfolding emit_full
  emit_full-counts r end' base ms low high clean =
      elim (Bool-cases (is_blank (slice full base hold))) [
        | inl blank ↦ rw (blank, blank-pieces_of end' base ms low high clean blank) (omega arith)
        | inr some' ↦ rw some' (render-counts ms [] base r.counts)
      ]
