-- ===== src/Guardrail/Redactor/Stream/Whole.antt =====
-- A whole stream, chunk by chunk and then the flush: `feed` and `flush` of
-- task3_streaming_guardrail/redactor.py.
use mathlib.Core.Option.{some-injective, none-ne-some}
use mathlib.Core.List.{append_assoc, append-nil}
use fde_assessment.Base.{
  ◌+◌, ◌-◌, ◌≤◌, ◌≡◌, inl, inr, refl, sym, ap, ◌∙◌, subst, Bool, true, false, some, List, [], ◌∷◌,
  ◌++◌, length, if◌then◌else◌, ltb, arith, Bool-cases,
}
use fde_assessment.Base.Slices.{take, length-drop, drop_all}
use fde_assessment.Guardrail.Redactor.{Text, Config, IsSound}
use fde_assessment.Guardrail.Redactor.Stream.{
  Redactor, context_chars, emit, feed, flush, feed_all, hold_point, is_blank, fresh,
  max_match_length, new_redactor,
}
use fde_assessment.Guardrail.Redactor.Stream.Pieces.{Piece, raw_of, shown, secrets}
use fde_assessment.Guardrail.Redactor.Stream.Emitted.{total, is_blank-nil}
use fde_assessment.Guardrail.Redactor.Stream.Released.{
  all_chunks, hold_of, released, stream_pieces, stream_output, Advances, Advances-stay,
  Advances-then, emit-Advances, emit-buffer, emit-context, hold_of-bounds,
}

new_redactor-fresh : (c : Config) (r : Redactor) → new_redactor c ≡ some r → fresh ≡ r
unfolding new_redactor
new_redactor-fresh c r made = elim (Bool-cases (ltb c.max_holdback max_match_length)) [
  | inl short ↦ absurd (none-ne-some r (rw short at made))
  | inr long ↦ some-injective fresh r (rw long at made)
]

module _ (c : Config) (sound : IsSound c) where
  -- the pieces of one `feed`
  abbrev feed_pieces : Redactor → Text → List Piece
  feed_pieces r chunk = if is_blank chunk then [] else released c r (r.buffer ++ chunk) false

  feed-Advances :
      (r : Redactor) (chunk : Text)
      → Advances c.placeholder r (feed c r chunk).1 chunk (feed c r chunk).0 (feed_pieces r chunk)
  unfolding feed released
  feed-Advances r [] = Advances-stay c.placeholder r
  feed-Advances r (x ∷ chunk) =
      emit-Advances c sound r (record r { characters_in = r.characters_in + length (x ∷ chunk) })
        (x ∷ chunk) (r.buffer ++ x ∷ chunk) false refl refl refl refl

  -- `self._context = ""` changes nothing of what was put out
  cleared :
      (r r' : Redactor) (t o : Text) (ps : List Piece)
      → Advances c.placeholder r r' t o ps
      → Advances c.placeholder r (record r' { context = [] }) t o ps
  cleared r r' t o ps a = record {
    kept = a.kept;
    put_out = a.put_out;
    read = a.read;
    written = a.written;
    counted = a.counted;
  }

  emptied : (r : Redactor) → (emit c r r.buffer true).1.buffer ≡ []
  unfolding hold_point
  emptied r = emit-buffer c sound r r.buffer true ∙ drop_all (r.context ++ r.buffer)

  flush-Advances :
      (r : Redactor)
      → Advances c.placeholder r (flush c r).1 [] (flush c r).0 (stream_pieces c r [])
        × ((flush c r).1.buffer ≡ [])
        × ((flush c r).1.context ≡ [])
  unfolding flush stream_pieces
  flush-Advances r = elim (Bool-cases (is_blank r.buffer)) [
    | inl blank ↦
        let stay = Advances-stay c.placeholder r in
        rw blank (cleared r r [] [] [] stay, is_blank-nil r.buffer blank, refl)
    | inr more ↦ rw more (
      cleared r (emit c r r.buffer true).1 _ _ _ (
          emit-Advances c sound r r [] r.buffer true (append-nil r.buffer) (omega arith) refl refl),
      emptied r,
      refl,
    )
  ]

  feed_all-Advances :
      (r : Redactor) (chunks : List Text)
      → Advances c.placeholder r
          (flush c (feed_all c r chunks).1).1
          (all_chunks chunks)
          (stream_output c r chunks)
          (stream_pieces c r chunks)
  unfolding feed_all stream_pieces
  feed_all-Advances r [] = (flush-Advances r).0
  feed_all-Advances r (chunk ∷ chunks) =
      let h =
        Advances-then c.placeholder r (feed c r chunk).1 _ chunk (all_chunks chunks) _ _ _ _
          (feed-Advances r chunk) (feed_all-Advances (feed c r chunk).1 chunks) in
      subst
        (λ o.
          Advances c.placeholder r (flush c (feed_all c (feed c r chunk).1 chunks).1).1
            (chunk ++ all_chunks chunks) o (stream_pieces c r (chunk ∷ chunks)))
        (sym (append_assoc (feed c r chunk).0 _ _)) h

  -- For an engine that reports matches where it looked: whatever the chunks of a stream, what a new
  -- redactor puts out for them and the final flush is the input with some stretches of it replaced
  -- by the placeholder, each stretch the text of one match, and nothing lost, doubled or reordered.
  pub stream_output-shown :
      (r : Redactor) (chunks : List Text)
      → new_redactor c ≡ some r
      → (raw_of (stream_pieces c r chunks) ≡ all_chunks chunks)
        × (stream_output c r chunks ≡ shown c.placeholder (stream_pieces c r chunks))
  stream_output-shown r chunks made =
      subst
        (λ r.
          (raw_of (stream_pieces c r chunks) ≡ all_chunks chunks)
          × (stream_output c r chunks ≡ shown c.placeholder (stream_pieces c r chunks)))
        (new_redactor-fresh c r made)
        (
          sym (append-nil (raw_of (stream_pieces c fresh chunks)))
              ∙ ap (λ b. raw_of (stream_pieces c fresh chunks) ++ b)
                  (sym (flush-Advances (feed_all c fresh chunks).1).1)
              ∙ sym (feed_all-Advances fresh chunks).kept,
          (feed_all-Advances fresh chunks).put_out,
        )

  -- the statistics that a stream leaves, from the state `r`, and that nothing is held
  abbrev pub IsExact : Redactor → List Text → Redactor → Type 0
  IsExact r chunks left =
      (left.characters_in ≡ length (all_chunks chunks))
      × (left.characters_out ≡ length (stream_output c r chunks))
      × (total left.counts ≡ length (secrets (stream_pieces c r chunks)))
      × (left.buffer ≡ [])
      × (left.context ≡ [])

  -- For such an engine, after the chunks and the flush of a stream on a new redactor, the statistics
  -- are exact: the characters read, those put out, and the matches masked; and nothing is held.
  pub stream_stats :
      (r : Redactor) (chunks : List Text)
      → new_redactor c ≡ some r
      → IsExact r chunks (flush c (feed_all c r chunks).1).1
  stream_stats r chunks made =
      let a = feed_all-Advances fresh chunks in
      let last = flush-Advances (feed_all c fresh chunks).1 in
      subst (λ r. IsExact r chunks (flush c (feed_all c r chunks).1).1)
        (new_redactor-fresh c r made)
        (omega (arith, a.read), omega (arith, a.written), omega (arith, a.counted), last.1, last.2)

  -- what is held is no longer than the hold-back, and the context no longer than its window
  abbrev pub IsHeld : Redactor → Type 0
  IsHeld r = (length r.buffer ≤ c.max_holdback) × (length r.context ≤ context_chars)

  emit-IsHeld : (r : Redactor) (text : Text) (final : Bool) → IsHeld (emit c r text final).1
  emit-IsHeld r text final =
      let full = r.context ++ text in
      let (_, _, near) = hold_of-bounds c sound r text final in
      rw (emit-buffer c sound r text final, emit-context c sound r text final)
        (
          omega (arith, near, length-drop (hold_of c r text final) full),
          omega (
            arith,
            length-drop (length (take (hold_of c r text final) full) - context_chars)
                (take (hold_of c r text final) full),
          ),
        )

  feed-IsHeld : (r : Redactor) (chunk : Text) → IsHeld r → IsHeld (feed c r chunk).1
  unfolding feed
  feed-IsHeld r [] h = h
  feed-IsHeld r (x ∷ chunk) h =
      emit-IsHeld (record r { characters_in = r.characters_in + length (x ∷ chunk) })
        (r.buffer ++ x ∷ chunk) false

  feed_all-IsHeld : (r : Redactor) (chunks : List Text) → IsHeld r → IsHeld (feed_all c r chunks).1
  unfolding feed_all
  feed_all-IsHeld r [] h = h
  feed_all-IsHeld r (chunk ∷ chunks) h =
      feed_all-IsHeld (feed c r chunk).1 chunks (feed-IsHeld r chunk h)

  -- For such an engine, whatever chunks a new redactor was fed, it holds back at most `max_holdback`
  -- characters and carries at most 48 of context.
  pub pending_bounded :
      (r : Redactor) (chunks : List Text)
      → new_redactor c ≡ some r
      → (length (feed_all c r chunks).1.buffer ≤ c.max_holdback)
        × (length (feed_all c r chunks).1.context ≤ context_chars)
  pending_bounded r chunks made =
      feed_all-IsHeld r chunks
        (subst IsHeld (new_redactor-fresh c r made) (omega arith, omega arith))
