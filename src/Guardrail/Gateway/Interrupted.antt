-- ===== src/Guardrail/Gateway/Interrupted.antt =====
-- What a client gets when the provider's connection dies: `_stream` of
-- task3_streaming_guardrail/gateway.py.
use Prim.Native.Char.{Char}
use fde_assessment.Base.{
  ℕ, String, ◌≡◌, refl, ap, ◌∙◌, Bool, true, false, ◌||◌, Option, none, some, List, [], ◌∷◌, ◌++◌,
  arith, is_some, Bool-cases, inl, inr,
}
use fde_assessment.Json.{Fields}
use fde_assessment.Guardrail.Sse.{SseEvent}
use fde_assessment.Guardrail.Sse.Decoder.{Decoder, new_decoder, feed_text, flush_text}
use fde_assessment.Guardrail.Pool.{Redaction, Key, flush}
use fde_assessment.Guardrail.Residue.{Python, plain_event, done_event, residue_events}
use fde_assessment.Guardrail.Gateway.{
  Failure, interrupted, Progress, Upstream, handle_events, after_feed, read_texts, failed,
  after_flush, finish_stream, started, run_stream, error_data, close_stream, stream,
}

module _ {F R : Type 0} (py : Python F) (red : Redaction R) (max_event_bytes : ℕ)
    (is_space : Char → Bool) where
  -- the same loop, with and without the failure of the upstream at its end
  abbrev EndsAlike : Progress F R × Decoder → Progress F R × Decoder → Type 0
  EndsAlike calm failing =
      calm.0.failure ≡ none
      → calm.0.completed ≡ false
      → failing ≡ (failed py red interrupted calm.0, calm.1)

  after_feed-EndsAlike :
      (fed : Option (List SseEvent × Decoder)) (d : Decoder) (p : Progress F R)
      (calm failing : Decoder → Progress F R → Progress F R × Decoder)
      → ((d' : Decoder) (q : Progress F R) → EndsAlike (calm d' q) (failing d' q))
      → EndsAlike
          (after_feed py red max_event_bytes is_space fed d p calm)
          (after_feed py red max_event_bytes is_space fed d p failing)
  unfolding after_feed
  after_feed-EndsAlike none d p calm failing alike = λ fine open_ended. absurd (cc)
  after_feed-EndsAlike (some (events, d')) d p calm failing alike =
      let next = handle_events py red true events p in
      elim (Bool-cases (is_some next.failure || next.completed)) [
        | inl over ↦ simp over (λ fine open_ended.
            absurd
              (ground (arith, over, ap is_some {x = next.failure} {y = none} fine, open_ended)))
        | inr goes_on ↦ simp goes_on (alike d' next)
      ]

  read_texts-EndsAlike :
      (texts : List String) (d : Decoder) (p : Progress F R)
      → EndsAlike
          (read_texts py red max_event_bytes is_space false texts d p)
          (read_texts py red max_event_bytes is_space true texts d p)
  unfolding read_texts
  read_texts-EndsAlike [] d p = λ fine open_ended. refl
  read_texts-EndsAlike (text ∷ texts) d p =
      after_feed-EndsAlike (feed_text max_event_bytes d text) d p
        (read_texts py red max_event_bytes is_space false texts)
        (read_texts py red max_event_bytes is_space true texts) (read_texts-EndsAlike texts)

  closed_fine :
      (out : List SseEvent) (pool : List (Key × R)) (last_chunk : Option (Fields F))
      (completed : Bool) (failure : Option Failure)
      → failure ≡ none
      → let p : Progress F R = record {
        out = out;
        pool = pool;
        last_chunk = last_chunk;
        completed = completed;
        failure = failure;
      } in
        (close_stream py red max_event_bytes is_space p).out ≡ out
  unfolding close_stream
  closed_fine out pool last_chunk completed none fine = refl
  closed_fine out pool last_chunk completed (some f) fine = absurd (cc)

  after_flush-open :
      (p : Progress F R)
      → p.failure ≡ none
      → p.completed ≡ false
      → (close_stream py red max_event_bytes is_space
          (after_flush py red max_event_bytes is_space [] p)).out
        ≡ p.out ++ (residue_events py p.last_chunk (flush red p.pool).0 ++ done_event ∷ [])
  unfolding after_flush handle_events
  after_flush-open p fine open_ended =
      let unfailed : is_some p.failure ≡ false = ap is_some fine in
      let goes_on : (is_some p.failure || p.completed) ≡ false =
        ground (arith, unfailed, open_ended) in
      rw goes_on (closed_fine _ _ p.last_chunk p.completed p.failure fine)

  finish_stream-calm :
      (left_over : String) (p : Progress F R) (d : Decoder)
      → is_some p.failure ≡ false
      → finish_stream py red max_event_bytes is_space left_over (p, d)
        ≡ after_flush py red max_event_bytes is_space (flush_text is_space d left_over) p
  unfolding finish_stream
  finish_stream-calm left_over p d unfailed = rw unfailed refl

  module _ (texts : List String) (left_over : String) where
    abbrev pub upstream : Bool → Upstream
    upstream fails = record { texts = texts; left_over = left_over; fails = fails }

    -- what has been done when the last text has been handled
    abbrev pub after_texts : Progress F R × Decoder
    after_texts =
        read_texts py red max_event_bytes is_space false texts new_decoder
          (started py red max_event_bytes is_space)

    -- Of two upstreams that send the same texts, with no end marker, no error and no open event in
    -- them, one ends there and the connection of the other dies. Both clients get the same events;
    -- then the first gets what the redactors still hold back, and the second gets none of it, but an
    -- error in its place; both get the end marker.
    pub interruption_withholds_residue :
        after_texts.0.failure ≡ none
        → after_texts.0.completed ≡ false
        → flush_text is_space after_texts.1 left_over ≡ []
        → let held = residue_events py after_texts.0.last_chunk (flush red after_texts.0.pool).0 in
          let error =
            plain_event
              (error_data py red max_event_bytes is_space "Upstream stream interrupted") in
          ((stream py red max_event_bytes is_space (upstream false)).out
            ≡ after_texts.0.out ++ (held ++ done_event ∷ []))
          × ((stream py red max_event_bytes is_space (upstream true)).out
              ≡ after_texts.0.out ++ error ∷ done_event ∷ [])
    unfolding stream run_stream finish_stream close_stream
    interruption_withholds_residue fine open_ended nothing_left =
        let close = close_stream py red max_event_bytes is_space in
        let (p, d) = after_texts in
        let unfailed : is_some p.failure ≡ false = ap is_some fine in
        (
          ap (λ q. (close q).out)
                (finish_stream-calm left_over p d unfailed
                  ∙ ap (λ es. after_flush py red max_event_bytes is_space es p) nothing_left)
              ∙ after_flush-open p fine open_ended,
          ap (λ r. (close (finish_stream py red max_event_bytes is_space left_over r)).out)
              (read_texts-EndsAlike texts new_decoder (started py red max_event_bytes is_space) fine
                open_ended),
        )
