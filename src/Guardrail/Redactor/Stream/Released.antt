-- ===== src/Guardrail/Redactor/Stream/Released.antt =====
-- What a whole stream puts out: `feed` and `flush` of task3_streaming_guardrail/redactor.py.
use mathlib.Core.List.{append_assoc, append-nil}
use fde_assessment.Base.{
  ℕ, ◌+◌, ◌≤◌, ◌≡◌, refl, sym, ap, ◌∙◌, Bool, true, false, List, [], ◌∷◌, ◌++◌, length,
  length-append, if◌then◌else◌, arith,
}
use fde_assessment.Base.Slices.{take, drop, last_of, slice_rest, drop-append}
use fde_assessment.Guardrail.Redactor.{Text, Match, Config, IsSound}
use fde_assessment.Guardrail.Redactor.FixedPoint.{valid_matches}
use fde_assessment.Guardrail.Redactor.FixedPoint.Within.{valid_matches-AreSpread}
use fde_assessment.Guardrail.Redactor.Stream.{
  Redactor, context_chars, emit, feed, flush, feed_all, hold_point, is_blank,
}
use fde_assessment.Guardrail.Redactor.Stream.Pieces.{
  Piece, raw_of, shown, secrets, IsClean, AreSpread-IsClean, pieces_of, raw_of-pieces_of,
}
use fde_assessment.Guardrail.Redactor.Stream.Emitted.{
  emit_full-pieces_of, emit_full-buffer, emit_full-context, emit_full-characters, emit_full-counts,
  total,
}
use fde_assessment.Guardrail.Redactor.Stream.Hold.{hold_point-bounds}

raw_of-append : (ps qs : List Piece) → raw_of (ps ++ qs) ≡ raw_of ps ++ raw_of qs
raw_of-append [] qs = refl
raw_of-append (Piece.clear t ∷ ps) qs =
    rw (raw_of-append ps qs) (sym (append_assoc t (raw_of ps) (raw_of qs)))
raw_of-append (Piece.secret t ∷ ps) qs =
    rw (raw_of-append ps qs) (sym (append_assoc t (raw_of ps) (raw_of qs)))

shown-append : (p : Text) (ps qs : List Piece) → shown p (ps ++ qs) ≡ shown p ps ++ shown p qs
shown-append p [] qs = refl
shown-append p (Piece.clear t ∷ ps) qs =
    rw (shown-append p ps qs) (sym (append_assoc t (shown p ps) (shown p qs)))
shown-append p (Piece.secret t ∷ ps) qs =
    rw (shown-append p ps qs) (sym (append_assoc p (shown p ps) (shown p qs)))

-- chunks put together
abbrev pub all_chunks : List Text → Text
all_chunks [] = []
all_chunks (t ∷ ts) = t ++ all_chunks ts

-- from one state to another: the text taken in, the pieces it left as, what was put out
pub record Advances (placeholder : Text) (r r' : Redactor) (taken out : Text) (ps : List Piece)
    : Type 0 where
  pub kept : r.buffer ++ taken ≡ raw_of ps ++ r'.buffer
  pub put_out : out ≡ shown placeholder ps
  pub read : r'.characters_in ≡ r.characters_in + length taken
  pub written : r'.characters_out ≡ r.characters_out + length out
  pub counted : total r'.counts ≡ total r.counts + length (secrets ps)

secrets-append :
    (ps qs : List Piece) → length (secrets (ps ++ qs)) ≡ length (secrets ps) + length (secrets qs)
secrets-append [] qs = omega arith
secrets-append (Piece.clear t ∷ ps) qs = secrets-append ps qs
secrets-append (Piece.secret t ∷ ps) qs = omega (arith, secrets-append ps qs)

pub Advances-stay : (p : Text) (r : Redactor) → Advances p r r [] [] []
Advances-stay p r = record {
  kept = append-nil r.buffer;
  put_out = refl;
  read = omega arith;
  written = omega arith;
  counted = omega arith;
}

pub Advances-then :
    (p : Text) (r r' r'' : Redactor) (t t' o o' : Text) (ps qs : List Piece)
    → Advances p r r' t o ps
    → Advances p r' r'' t' o' qs
    → Advances p r r'' (t ++ t') (o ++ o') (ps ++ qs)
Advances-then p r r' r'' t t' o o' ps qs a b = record {
  kept =
      sym (append_assoc r.buffer t t')
      ∙ ap (λ x. x ++ t') a.kept
      ∙ append_assoc (raw_of ps) r'.buffer t'
      ∙ ap (λ x. raw_of ps ++ x) b.kept
      ∙ sym (append_assoc (raw_of ps) (raw_of qs) r''.buffer)
      ∙ ap (λ x. x ++ r''.buffer) (sym (raw_of-append ps qs));
  put_out = rw (a.put_out, b.put_out) (sym (shown-append p ps qs));
  read = omega (arith, a.read, b.read, length-append t t');
  written = omega (arith, a.written, b.written, length-append o o');
  counted = omega (arith, a.counted, b.counted, secrets-append ps qs);
}

module _ (c : Config) where
  -- what one call of `_emit` looks at, where it cuts it, and the pieces it puts out
  abbrev pub spans_of : Redactor → Text → List Match
  spans_of r text = valid_matches c (r.context ++ text) (length r.context)

  abbrev pub hold_of : Redactor → Text → Bool → ℕ
  hold_of r text final = hold_point c (r.context ++ text) (length r.context) (spans_of r text) final

  unfoldable pub released : Redactor → Text → Bool → List Piece
  released r text final =
      pieces_of (r.context ++ text) (hold_of r text final) (length r.context) (spans_of r text)

  unfoldable pub stream_pieces : Redactor → List Text → List Piece
  stream_pieces r [] = if is_blank r.buffer then [] else released r r.buffer true
  stream_pieces r (chunk ∷ chunks) =
      let rest = stream_pieces (feed c r chunk).1 chunks in
      (if is_blank chunk then [] else released r (r.buffer ++ chunk) false) ++ rest

  -- all that a stream of chunks puts out, with the final flush
  abbrev pub stream_output : Redactor → List Text → Text
  stream_output r chunks = (feed_all c r chunks).0 ++ (flush c (feed_all c r chunks).1).0

  module _ (sound : IsSound c) where
    pub spans-IsClean :
        (r : Redactor) (text : Text)
        → IsClean (length r.context) (length (r.context ++ text)) (spans_of r text)
    spans-IsClean r text =
        AreSpread-IsClean c (r.context ++ text) (length r.context) (spans_of r text)
          (valid_matches-AreSpread c (r.context ++ text) (length r.context) sound)

    length-context : (r : Redactor) (text : Text) → length r.context ≤ length (r.context ++ text)
    length-context r text = omega (arith, length-append r.context text)

    pub hold_of-bounds :
        (r : Redactor) (text : Text) (final : Bool)
        → (length r.context ≤ hold_of r text final)
          × (hold_of r text final ≤ length (r.context ++ text))
          × (length (r.context ++ text) ≤ c.max_holdback + hold_of r text final)
    hold_of-bounds r text final =
        hold_point-bounds c (r.context ++ text) (length r.context) (spans_of r text) final
          (length-context r text) (spans-IsClean r text)

    pub emit-released :
        (r : Redactor) (text : Text) (final : Bool)
        → (emit c r text final).0 ≡ shown c.placeholder (released r text final)
    unfolding emit released
    emit-released r text final =
        let (above, below, _) = hold_of-bounds r text final in
        emit_full-pieces_of c (r.context ++ text) (hold_of r text final) r
          (length (r.context ++ text)) (length r.context) (spans_of r text) above below
          (spans-IsClean r text)

    pub emit-buffer :
        (r : Redactor) (text : Text) (final : Bool)
        → (emit c r text final).1.buffer ≡ drop (hold_of r text final) (r.context ++ text)
    unfolding emit
    emit-buffer r text final =
        emit_full-buffer c (r.context ++ text) (hold_of r text final) r (length r.context)
          (spans_of r text)

    pub emit-context :
        (r : Redactor) (text : Text) (final : Bool)
        → (emit c r text final).1.context
          ≡ last_of context_chars (take (hold_of r text final) (r.context ++ text))
    unfolding emit
    emit-context r text final =
        emit_full-context c (r.context ++ text) (hold_of r text final) r (length r.context)
          (spans_of r text)

    pub raw_of-released :
        (r : Redactor) (text : Text) (final : Bool)
        → raw_of (released r text final) ++ (emit c r text final).1.buffer ≡ text
    unfolding released
    raw_of-released r text final =
        let full = r.context ++ text in
        let (above, below, _) = hold_of-bounds r text final in
        rw
          (
            emit-buffer r text final,
            raw_of-pieces_of full (hold_of r text final) (length r.context) (length full)
                (spans_of r text) above (spans-IsClean r text),
          )
          (slice_rest full (length r.context) (hold_of r text final) above
            ∙ drop-append r.context text)

    pub emit-counts :
        (r : Redactor) (text : Text) (final : Bool)
        → total (emit c r text final).1.counts
          ≡ total r.counts + length (secrets (released r text final))
    unfolding emit released
    emit-counts r text final =
        let (above, below, _) = hold_of-bounds r text final in
        emit_full-counts c (r.context ++ text) (hold_of r text final) r (length (r.context ++ text))
          (length r.context) (spans_of r text) above below (spans-IsClean r text)

    pub emit-characters :
        (r : Redactor) (text : Text) (final : Bool)
        → ((emit c r text final).1.characters_out
            ≡ r.characters_out + length (emit c r text final).0)
          × ((emit c r text final).1.characters_in ≡ r.characters_in)
    unfolding emit
    emit-characters r text final =
        emit_full-characters c (r.context ++ text) (hold_of r text final) r (length r.context)
          (spans_of r text)

    -- one call of `_emit`, from the state that its caller found
    pub emit-Advances :
        (r r0 : Redactor) (taken text : Text) (final : Bool)
        → r.buffer ++ taken ≡ text
        → r0.characters_in ≡ r.characters_in + length taken
        → r0.characters_out ≡ r.characters_out
        → r0.counts ≡ r.counts
        → Advances c.placeholder r
            (emit c r0 text final).1
            taken
            (emit c r0 text final).0
            (released r0 text final)
    emit-Advances r r0 taken text final whole read written counted = record {
      kept = whole ∙ sym (raw_of-released r0 text final);
      put_out = emit-released r0 text final;
      read = (emit-characters r0 text final).1 ∙ read;
      written = omega (arith, (emit-characters r0 text final).0, written);
      counted =
          emit-counts r0 text final
          ∙ ap (λ k. total k + length (secrets (released r0 text final))) counted;
    }
