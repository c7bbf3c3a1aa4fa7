-- ===== src/Guardrail/Sse/Decoder/Chunks.antt =====
-- That the events do not depend on how the text is cut: `SSEDecoder.feed` of
-- task3_streaming_guardrail/sse.py.
use mathlib.Core.List.{cons-ne-nil, append-nil}
use mathlib.Core.Option.{none-ne-some, some-injective}
use Prim.Native.Char.{Char, code}
use fde_assessment.Base.{
  ℕ, ◌≡◌, refl, sym, ap, ◌∙◌, ◌⊎◌, inl, inr, Bool, true, false, ◌&&◌, String, Option, none, some,
  List, [], ◌∷◌, ◌++◌, ◌==◌, ltb, arith, Bool-cases, Option-cases, subst, is_some,
}
use fde_assessment.Base.Unicode.{joined}
use fde_assessment.Guardrail.Sse.{SseEvent, parse_block}
use fde_assessment.Guardrail.Sse.Decoder.{
  Decoder, new_decoder, size, is_empty, normalised, onto_block, blocks, events_of, arrived, ready,
  held, filled, advance, feed_text, feed_texts, after_events, flush_text, decode_stream,
}
use fde_assessment.Guardrail.Sse.Decoder.Lines.{
  joined_assoc, joined_empty, held-joined, and_false, is_empty-nil, IsCut, arrives-IsCut,
  normalised-ready,
}

-- a block before what follows it
abbrev then_blocks : List String × String → String → List String × String
then_blocks (bs, rest) t = (bs ++ (blocks (joined rest t)).0, (blocks (joined rest t)).1)

onto_block-none :
    (c : Char) (u : String) (found : List String × String)
    → (found.0 ≡ [] → found.1 ≡ u)
    → (onto_block c found).0 ≡ []
    → (onto_block c found).1 ≡ String.◌∷◌ c u
onto_block-none c u ([], rest) all none_found = ap (λ x. String.◌∷◌ c x) (all refl)
onto_block-none c u (b ∷ bs, rest) all none_found =
    absurd (cons-ne-nil (String.◌∷◌ c b) bs none_found)

blocks-none : (s : String) → (blocks s).0 ≡ [] → (blocks s).1 ≡ s
unfolding blocks
blocks-none String.[] = λ h. refl
blocks-none (String.◌∷◌ c String.[]) = λ h. refl
blocks-none (String.◌∷◌ c (String.◌∷◌ d s)) = elim (Bool-cases (code c == 10 && code d == 10)) [
  | inl closed ↦ rw closed (λ h. absurd (cons-ne-nil "" (blocks s).0 h))
  | inr open' ↦
      rw open' (
        onto_block-none c (String.◌∷◌ d s) (blocks (String.◌∷◌ d s)) (blocks-none (String.◌∷◌ d s)))
]

onto_block-joined :
    (c : Char) (u t : String) (found : List String × String)
    → (found.0 ≡ [] → found.1 ≡ u)
    → blocks (joined u t) ≡ then_blocks found t
    → blocks (String.◌∷◌ c (joined u t)) ≡ onto_block c (blocks (joined u t))
    → onto_block c (blocks (joined u t)) ≡ then_blocks (onto_block c found) t
onto_block-joined c u t ([], rest) all here next =
    sym next ∙ ap (λ r. blocks (String.◌∷◌ c (joined r t))) (sym (all refl))
onto_block-joined c u t (b ∷ bs, rest) all here next = ap (onto_block c) here

-- the blocks of a text are those of its start, and then those of what they leave with the rest
blocks-joined : (s t : String) → blocks (joined s t) ≡ then_blocks (blocks s) t
unfolding blocks
blocks-joined String.[] t = refl
blocks-joined (String.◌∷◌ c String.[]) t = refl
blocks-joined (String.◌∷◌ c (String.◌∷◌ d s)) t = elim (Bool-cases (code c == 10 && code d == 10)) [
  | inl closed ↦ rw (closed, blocks-joined s t) refl
  | inr open' ↦
      let next : blocks (String.◌∷◌ c (joined (String.◌∷◌ d s) t))
          ≡ onto_block c (blocks (joined (String.◌∷◌ d s) t)) =
        rw open' refl in
      rw open' (
        onto_block-joined c (String.◌∷◌ d s) t (blocks (String.◌∷◌ d s))
          (blocks-none (String.◌∷◌ d s)) (blocks-joined (String.◌∷◌ d s) t) next)
]

events_of-append : (bs bs' : List String) → events_of (bs ++ bs') ≡ events_of bs ++ events_of bs'
unfolding events_of
events_of-append [] bs' = refl
events_of-append (raw ∷ rest) bs' = elim (Option-cases (parse_block raw)) [
  | inl nothing ↦ rw (nothing, events_of) (events_of-append rest bs')
  | inr (e, event) ↦ rw (event, events_of) (ap (λ x. e ∷ x) (events_of-append rest bs'))
]

-- nothing is held at the start
abbrev pub IsReady : Decoder → Type 0
IsReady d = (d.at_start ≡ false) ⊎ (d.pending_cr ≡ "")

arrived-IsCut :
    (d : Decoder) (s t : String)
    → IsReady d
    → IsCut d.at_start (arrived d s) (arrived (advance d s).1 t) (arrived d (joined s t))
unfolding arrived advance
arrived-IsCut d s t is_ready = arrives-IsCut d.at_start d.pending_cr s t is_ready

advance-IsReady : (d : Decoder) (s : String) → IsReady d → IsReady (advance d s).1
unfolding advance held
advance-IsReady d s is_ready = elim (Bool-cases (is_empty (arrived d s))) [
  | inl nothing ↦ inr (rw (is_empty-nil (arrived d s) nothing) refl)
  | inr begun ↦ inl (rw begun (and_false d.at_start))
]

-- the buffer when two pieces have come is that of the first with the second's text
filled-joined :
    (d : Decoder) (s t : String)
    → IsReady d
    → filled d (joined s t) ≡ joined (filled d s) (normalised (ready (arrived (advance d s).1 t)))
unfolding filled
filled-joined d s t is_ready =
    let (whole, apart, no_lf, _) = arrived-IsCut d s t is_ready in
    ap (λ x. joined d.buffer (normalised (ready x))) (sym whole)
    ∙ ap (joined d.buffer)
        (normalised-ready (ready (arrived d s)) (arrived (advance d s).1 t) apart no_lf)
    ∙ sym (
        joined_assoc d.buffer (normalised (ready (arrived d s)))
          (normalised (ready (arrived (advance d s).1 t))))

-- `advance` by what it computes
abbrev made : List String × String → String → Bool → List SseEvent × Decoder
made cut cr start = (events_of cut.0, record { buffer = cut.1; pending_cr = cr; at_start = start })

made-then :
    (found : List String × String) (more cr : String) (start : Bool)
    → made (then_blocks found more) cr start ≡ (
      events_of found.0 ++ (made (blocks (joined found.1 more)) cr start).0,
      (made (blocks (joined found.1 more)) cr start).1,
    )
made-then (bs, rest) more cr start =
    ap
      (λ es.
        (es, record { buffer = (blocks (joined rest more)).1; pending_cr = cr; at_start = start }))
      (events_of-append bs (blocks (joined rest more)).0)

-- Text that arrives in two pieces gives the events of the two, one after the other, and leaves the
-- decoder as if it had arrived at once.
advance-joined :
    (d : Decoder) (s t : String)
    → IsReady d
    → advance d (joined s t)
      ≡ ((advance d s).0 ++ (advance (advance d s).1 t).0, (advance (advance d s).1 t).1)
unfolding advance filled
advance-joined d s t is_ready =
    let d1 = (advance d s).1 in
    let next = arrived d1 t in
    let (whole, apart, _, start) = arrived-IsCut d s t is_ready in
    let more = normalised (ready next) in
    let cut : blocks (filled d (joined s t)) ≡ then_blocks (blocks (filled d s)) more =
      ap blocks (filled-joined d s t is_ready) ∙ blocks-joined (filled d s) more in
    let cr : held (arrived d (joined s t)) ≡ held next =
      ap held (sym whole) ∙ held-joined (ready (arrived d s)) next apart in
    ap
      (λ x.
        made x (held (arrived d (joined s t))) (d.at_start && is_empty (arrived d (joined s t))))
      cut
    ∙ ap
        (λ x.
          made (then_blocks (blocks (filled d s)) more) x
            (d.at_start && is_empty (arrived d (joined s t))))
        cr
    ∙ ap (λ x. made (then_blocks (blocks (filled d s)) more) (held next) x) start
    ∙ made-then (blocks (filled d s)) more (held next)
        ((d.at_start && is_empty (arrived d s)) && is_empty next)

-- the pieces put together
abbrev pub together : List String → String
together [] = ""
together (t ∷ ts) = joined t (together ts)

feed_text-advance :
    (cap : ℕ) (d : Decoder) (t : String) (r : List SseEvent × Decoder)
    → feed_text cap d t ≡ some r
    → advance d t ≡ r
unfolding feed_text
feed_text-advance cap d t r fed = elim (Bool-cases (ltb cap (size (filled d t)))) [
  | inl over ↦ absurd (none-ne-some r (rw over at fed))
  | inr within ↦ some-injective (advance d t) r (rw within at fed)
]

-- what follows some events is there, and makes the rest of the result
after_events-some :
    (es : List SseEvent) (found : Option (List SseEvent × Decoder)) (r : List SseEvent × Decoder)
    → after_events es found ≡ some r
    → (y : List SseEvent × Decoder) × ((found ≡ some y) × ((es ++ y.0, y.1) ≡ r))
after_events-some es none r h = absurd (none-ne-some r h)
after_events-some es (some y) r h = (y, (refl, some-injective (es ++ y.0, y.1) r h))

-- accepted pieces give what one piece of them all would, but for the cap
feed_texts-advance :
    (cap : ℕ) (d : Decoder) (t : String) (ts : List String) (r : List SseEvent × Decoder)
    → IsReady d
    → feed_texts cap d (t ∷ ts) ≡ some r
    → advance d (joined t (together ts)) ≡ r
unfolding feed_texts
feed_texts-advance cap d t [] r is_ready fed = elim (Option-cases (feed_text cap d t)) [
  | inl refused ↦ absurd (none-ne-some r (rw (refused, feed_texts) at fed))
  | inr (x, accepted) ↦
      ap (advance d) (joined_empty t)
      ∙ feed_text-advance cap d t x accepted
      ∙ ap (λ es. (es, x.1)) (sym (append-nil x.0))
      ∙ some-injective (x.0 ++ [], x.1) r (rw (accepted, feed_texts) at fed)
]
feed_texts-advance cap d t (t' ∷ ts) r is_ready fed = elim (Option-cases (feed_text cap d t)) [
  | inl refused ↦ absurd (none-ne-some r (rw (refused, feed_texts) at fed))
  | inr (x, accepted) ↦
      let first : advance d t ≡ x = feed_text-advance cap d t x accepted in
      let (y, (rest, whole)) =
        after_events-some x.0 (feed_texts cap x.1 (t' ∷ ts)) r (rw (accepted, feed_texts) at fed) in
      let ready' : IsReady x.1 =
        subst IsReady (ap (λ y. y.1) first) (advance-IsReady d t is_ready) in
      let later : advance x.1 (joined t' (together ts)) ≡ y =
        feed_texts-advance cap x.1 t' ts y ready' rest in
      advance-joined d t (joined t' (together ts)) is_ready
      ∙ ap
          (λ x. (
            x.0 ++ (advance x.1 (joined t' (together ts))).0,
            (advance x.1 (joined t' (together ts))).1,
          ))
          first
      ∙ ap (λ y. (x.0 ++ y.0, y.1)) later
      ∙ whole
]

decode_stream-advance :
    (cap : ℕ) (is_space : Char → Bool) (t : String) (ts : List String) (end' : String)
    (es : List SseEvent)
    → decode_stream cap is_space (t ∷ ts) end' ≡ some es
    → (advance new_decoder (together (t ∷ ts))).0
        ++ flush_text is_space (advance new_decoder (together (t ∷ ts))).1 end'
      ≡ es
unfolding decode_stream
decode_stream-advance cap is_space t ts end' es fed =
    elim (Option-cases (feed_texts cap new_decoder (t ∷ ts))) [
      | inl refused ↦ absurd (none-ne-some es (rw (refused, decode_stream) at fed))
      | inr (x, accepted) ↦
          ap (λ x. x.0 ++ flush_text is_space x.1 end')
            (feed_texts-advance cap new_decoder t ts x (inr refl) accepted)
          ∙ some-injective (x.0 ++ flush_text is_space x.1 end') es
              (rw (accepted, decode_stream) at fed)
    ]

decoded_alike :
    (cap : ℕ) (is_space : Char → Bool) (t t' : String) (ts ts' : List String) (end' : String)
    (es es' : List SseEvent)
    → together (t ∷ ts) ≡ together (t' ∷ ts')
    → decode_stream cap is_space (t ∷ ts) end' ≡ some es
    → decode_stream cap is_space (t' ∷ ts') end' ≡ some es'
    → es ≡ es'
decoded_alike cap is_space t t' ts ts' end' es es' same fed fed' =
    sym (decode_stream-advance cap is_space t ts end' es fed)
    ∙ ap
        (λ text.
          (advance new_decoder text).0 ++ flush_text is_space (advance new_decoder text).1 end')
        same
    ∙ decode_stream-advance cap is_space t' ts' end' es' fed'

-- Of two streams of at least one piece each that make the same text, neither refused for an event
-- over the cap, the decoder yields the same events, the last flush included: they do not depend on
-- where the text is cut, be it inside a line end, a blank line or the mark at the start.
pub decode_stream_cut :
    (cap : ℕ) (is_space : Char → Bool) (t t' : String) (ts ts' : List String) (end' : String)
    → together (t ∷ ts) ≡ together (t' ∷ ts')
    → is_some (decode_stream cap is_space (t ∷ ts) end') ≡ true
    → is_some (decode_stream cap is_space (t' ∷ ts') end') ≡ true
    → decode_stream cap is_space (t ∷ ts) end' ≡ decode_stream cap is_space (t' ∷ ts') end'
decode_stream_cut cap is_space t t' ts ts' end' same here there =
    elim (Option-cases (decode_stream cap is_space (t ∷ ts) end')) [
      | inl refused ↦ absurd (ground (arith, rw refused at here))
      | inr (es, fed) ↦ elim (Option-cases (decode_stream cap is_space (t' ∷ ts') end')) [
        | inl refused ↦ absurd (ground (arith, rw refused at there))
        | inr (es', fed') ↦
            fed
            ∙ ap some (decoded_alike cap is_space t t' ts ts' end' es es' same fed fed')
            ∙ sym fed'
      ]
    ]
