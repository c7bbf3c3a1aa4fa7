-- ===== src/Guardrail/Redactor/Stream/Pieces.antt =====
-- What is put out, piece by piece: `_emit` of task3_streaming_guardrail/redactor.py.
use mathlib.Core.List.{append-nil}
use fde_assessment.Base.{
  ℕ, ◌≤◌, ◌<◌, ◌≡◌, inl, inr, refl, ap, List, [], ◌∷◌, ◌++◌, length, All, if◌then◌else◌, ltb, arith,
  Bool-cases,
}
use fde_assessment.Base.Slices.{slice, slice_split}
use fde_assessment.Guardrail.Redactor.{Text, Match, group, Config, IsWithin}
use fde_assessment.Guardrail.Redactor.Spans.Choice.{IsSpread}
use fde_assessment.Guardrail.Redactor.FixedPoint.Within.{AreSpread}

-- a stretch of the text that is put out as it is, or one that the placeholder stands for
pub data Piece : Type 0 where
  clear : Text → Piece
  secret : Text → Piece

abbrev pub raw_of : List Piece → Text
raw_of [] = []
raw_of (clear t ∷ ps) = t ++ raw_of ps
raw_of (secret t ∷ ps) = t ++ raw_of ps

abbrev pub shown : Text → List Piece → Text
shown placeholder [] = []
shown placeholder (clear t ∷ ps) = t ++ shown placeholder ps
shown placeholder (secret t ∷ ps) = placeholder ++ shown placeholder ps

abbrev pub secrets : List Piece → List Text
secrets [] = []
secrets (clear t ∷ ps) = secrets ps
secrets (secret t ∷ ps) = t ∷ secrets ps

-- the texts of the spans that end by the hold, up to the first that does not
abbrev pub settled : Text → ℕ → List Match → List Text
settled full hold [] = []
settled full hold (m ∷ ms) =
    let rest = group full m ∷ settled full hold ms in if ltb hold m.stop then [] else rest

-- in order, apart, not empty, between the cursor and the end
abbrev pub IsClean : ℕ → ℕ → List Match → Type 0
IsClean cursor end' [] = Unit
IsClean cursor end' (m ∷ ms) =
    (cursor ≤ m.start) × (m.start < m.stop) × (m.stop ≤ end') × IsClean m.stop end' ms

spread-IsClean :
    (lo cursor end' : ℕ) (ms : List Match)
    → IsSpread cursor ms
    → All (IsWithin lo end') ms
    → IsClean cursor end' ms
spread-IsClean lo cursor end' [] spread h = tt
spread-IsClean lo cursor end' (m ∷ ms) spread h =
    (spread.0, h.0.1, h.0.2, spread-IsClean lo m.stop end' ms spread.2 h.1)

pub AreSpread-IsClean :
    (c : Config) (text : Text) (start : ℕ) (ms : List Match)
    → AreSpread c text start ms
    → IsClean start (length text) ms
AreSpread-IsClean c text start [] h = tt
AreSpread-IsClean c text start (m ∷ ms) h =
    (h.1.0.0, h.1.0.1, h.1.0.2, spread-IsClean start m.stop (length text) ms h.0.2 h.1.1)

-- the pieces of the text between a cursor and the hold
unfoldable pub pieces_of : Text → ℕ → ℕ → List Match → List Piece
pieces_of full hold cursor [] = clear (slice full cursor hold) ∷ []
pieces_of full hold cursor (m ∷ ms) =
    let last = clear (slice full cursor hold) ∷ [] in
    let more =
      clear (slice full cursor m.start) ∷ secret (group full m) ∷ pieces_of full hold m.stop ms in
    if ltb hold m.stop then last else more

module _ (full : Text) (hold : ℕ) where
  pub raw_of-pieces_of :
      (cursor end' : ℕ) (ms : List Match)
      → cursor ≤ hold
      → IsClean cursor end' ms
      → raw_of (pieces_of full hold cursor ms) ≡ slice full cursor hold
  unfolding pieces_of
  raw_of-pieces_of cursor end' [] low clean = append-nil (slice full cursor hold)
  raw_of-pieces_of cursor end' (m ∷ ms) low clean = elim (Bool-cases (ltb hold m.stop)) [
    | inl past ↦ rw past (append-nil (slice full cursor hold))
    | inr inside ↦
        let rest = raw_of-pieces_of m.stop end' ms (ground arith) clean.3 in
        let first = slice_split full m.start m.stop hold (omega arith) (ground arith) in
        rw (inside, rest, first) (slice_split full cursor m.start hold clean.0 (ground arith))
  ]

  pub secrets-pieces_of :
      (cursor : ℕ) (ms : List Match)
      → secrets (pieces_of full hold cursor ms) ≡ settled full hold ms
  unfolding pieces_of
  secrets-pieces_of cursor [] = refl
  secrets-pieces_of cursor (m ∷ ms) = elim (Bool-cases (ltb hold m.stop)) [
    | inl past ↦ rw past
    | inr inside ↦ rw inside (ap (λ ts. group full m ∷ ts) (secrets-pieces_of m.stop ms))
  ]
