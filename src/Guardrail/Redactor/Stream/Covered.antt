-- ===== src/Guardrail/Redactor/Stream/Covered.antt =====
-- That no match is put out in part: `_emit` of task3_streaming_guardrail/redactor.py.
use fde_assessment.Base.{
  ℕ, ◌+◌, ◌-◌, ◌≤◌, ◌≡◌, ◌⊎◌, inl, inr, refl, sym, ap, ◌∙◌, subst, Bool, true, false, if◌then◌else◌,
  List, [], ◌∷◌, ◌++◌, length, All, All-map, ltb, arith,
}
use fde_assessment.Base.Slices.{take, drop, slice, drop-drop, length-take, length-drop}
use fde_assessment.Guardrail.Redactor.{Text, Match, group, Config, IsSound}
use fde_assessment.Guardrail.Redactor.Stream.{Redactor, emit}
use fde_assessment.Guardrail.Redactor.Stream.Pieces.{Piece, raw_of, shown, pieces_of, IsClean}
use fde_assessment.Guardrail.Redactor.Stream.Hold.{IsUncut, hold_point-IsUncut}
use fde_assessment.Guardrail.Redactor.Stream.Released.{
  spans_of, hold_of, released, emit-buffer, emit-released, raw_of-released, hold_of-bounds,
  spans-IsClean,
}

length-slice : (t : Text) (i j : ℕ) → i ≤ j → j ≤ length t → length (slice t i j) ≡ j - i
length-slice t i j order inside = omega (arith, length-take (j - i) (drop i t), length-drop i t)

module _ (full : Text) where
  -- a piece that the placeholder stands for is the text of the match, and stands where the match does;
  -- the first piece stands at `at`
  abbrev pub IsMaskedBy : List Piece → ℕ → Match → Type 0
  IsMaskedBy [] at m = ⊥
  IsMaskedBy (Piece.clear t ∷ ps) at m = IsMaskedBy ps (at + length t) m
  IsMaskedBy (Piece.secret t ∷ ps) at m =
      ((at ≡ m.start) × (t ≡ group full m)) ⊎ IsMaskedBy ps (at + length t) m

  -- the match is masked, or is on the far side of the hold
  abbrev IsCovered : ℕ → List Piece → ℕ → Match → Type 0
  IsCovered hold ps at m = IsMaskedBy ps at m ⊎ (hold ≤ m.start)

  module _ (hold : ℕ) where
    starts_later :
        (cursor end' : ℕ) (ms : List Match)
        → hold ≤ cursor
        → IsClean cursor end' ms
        → All (λ m. hold ≤ m.start) ms
    starts_later cursor end' [] low clean = tt
    starts_later cursor end' (m ∷ ms) low clean =
        (omega arith, starts_later m.stop end' ms (omega arith) clean.3)

    -- whichever way a round of the loop over the spans goes
    round-All :
        (cursor end' : ℕ) (m : Match) (ms : List Match) (more : List Piece)
        → end' ≤ length full
        → IsClean cursor end' (m ∷ ms)
        → IsUncut hold m
        → All (IsCovered hold more m.stop) ms
        → (b : Bool) → ltb hold m.stop ≡ b
        → All
            (IsCovered hold
              (if b
                then Piece.clear (slice full cursor hold) ∷ []
                else Piece.clear (slice full cursor m.start) ∷ Piece.secret (group full m) ∷ more)
              cursor)
            (m ∷ ms)
    round-All cursor end' m ms more inside clean uncut rest true past =
        let here : hold ≤ m.start = elim uncut [
          | inl ended ↦ absurd (ground arith)
          | inr ahead ↦ ahead
        ] in
        (
          inr here,
          All-map (λ n. hold ≤ n.start)
              (IsCovered hold (Piece.clear (slice full cursor hold) ∷ []) cursor) (λ n h. inr h) ms
              (starts_later m.stop end' ms (omega arith) clean.3),
        )
    round-All cursor end' m ms more inside clean uncut rest false kept =
        let first = length-slice full cursor m.start (omega arith) (omega arith) in
        let second = length-slice full m.start m.stop (omega arith) (omega arith) in
        let ends : cursor + length (slice full cursor m.start) + length (group full m) ≡ m.stop =
          omega arith in
        let whole = Piece.clear (slice full cursor m.start) ∷ Piece.secret (group full m) ∷ more in
        (
          inl (inl (omega arith, refl)),
          All-map (IsCovered hold more m.stop) (IsCovered hold whole cursor)
              (λ n h. elim h [
                | inl masked ↦ inl (inr (subst (λ at. IsMaskedBy more at n) (sym ends) masked))
                | inr ahead ↦ inr ahead
              ])
              ms rest,
        )

    pieces_of-All :
        (cursor end' : ℕ) (ms : List Match)
        → end' ≤ length full
        → IsClean cursor end' ms
        → All (IsUncut hold) ms
        → All (IsCovered hold (pieces_of full hold cursor ms) cursor) ms
    unfolding pieces_of
    pieces_of-All cursor end' [] inside clean uncut = tt
    pieces_of-All cursor end' (m ∷ ms) inside clean uncut =
        round-All cursor end' m ms (pieces_of full hold m.stop ms) inside clean uncut.0
          (pieces_of-All m.stop end' ms inside clean.3 uncut.1) (ltb hold m.stop) refl

-- a slice past a cut is a slice of what the cut leaves
slice-drop :
    (t : Text) (hold i j : ℕ) → hold ≤ i → slice (drop hold t) (i - hold) (j - hold) ≡ slice t i j
slice-drop t hold i j low =
    ap (λ xs. take (j - hold - (i - hold)) xs)
      (drop-drop (i - hold) hold t ∙ ap (λ n. drop n t) (omega arith))
    ∙ ap (λ n. take n (drop i t)) (omega arith)

-- the match stands in a buffer that is left of a text, whole
abbrev pub IsHeld : Text → Text → Match → Type 0
IsHeld full buffer m =
    let gone = length full - length buffer in
    (gone ≤ m.start) × (slice buffer (m.start - gone) (m.stop - gone) ≡ group full m)

module _ (c : Config) (sound : IsSound c) where
  -- For an engine that reports matches where it looked: a call of `_emit` cuts the text that it is
  -- given into pieces and the buffer that it leaves, and puts out the pieces with the placeholder for
  -- some of them. Each match that redaction uses in the call is one of those, at the place where it
  -- stands, or is in the buffer as a whole; no call puts out a part of a match.
  pub emit_masks_or_holds :
      (r : Redactor) (text : Text) (final : Bool)
      → let full = r.context ++ text in
        let (out, after) = emit c r text final in
        (ps : List Piece) × (raw_of ps ++ after.buffer ≡ text)
        × (out ≡ shown c.placeholder ps)
        × All
            (λ m. IsMaskedBy full ps (length r.context) m ⊎ IsHeld full after.buffer m)
            (spans_of c r text)
  unfolding released
  emit_masks_or_holds r text final =
      let full = r.context ++ text in
      let hold = hold_of c r text final in
      let buffer = (emit c r text final).1.buffer in
      let clean = spans-IsClean c sound r text in
      let (_, below, _) = hold_of-bounds c sound r text final in
      let left = emit-buffer c sound r text final in
      let gone : length full - length buffer ≡ hold =
        rw left (omega (arith, length-drop hold full)) in
      (
        released c r text final,
        raw_of-released c sound r text final,
        emit-released c sound r text final,
        All-map (IsCovered full hold (released c r text final) (length r.context))
            (λ m.
              IsMaskedBy full (released c r text final) (length r.context) m ⊎ IsHeld full buffer m)
            (λ m h. elim h [
              | inl masked ↦ inl masked
              | inr ahead ↦
                  inr (rw gone ahead, rw (gone, left) (slice-drop full hold m.start m.stop ahead))
            ])
            (spans_of c r text)
            (pieces_of-All full hold (length r.context) (length full) (spans_of c r text)
              (omega arith) clean
              (hold_point-IsUncut c full (length r.context) (spans_of c r text) final clean)),
      )
