-- ===== src/Guardrail/Gateway/Ends.antt =====
-- How the streams of the guardrail's gateway end: `_stream` of
-- task3_streaming_guardrail/gateway.py.
use text.Mathlib.Text.{◌==◌ as str_eq}
use Prim.Native.Char.{Char}
use fde_assessment.Base.{
  ℕ, String, ◌≡◌, ◌⊎◌, inl, inr, refl, ap, ◌∙◌, Bool, true, false, ◌||◌, Option, none, some, List,
  [], ◌∷◌, ◌++◌, arith, any, is_some, Bool-cases, if-both,
}
use fde_assessment.Json.{Fields}
use fde_assessment.Guardrail.Sse.{SseEvent}
use fde_assessment.Guardrail.Sse.Decoder.{Decoder, new_decoder, feed_text, flush_text}
use fde_assessment.Guardrail.Pool.{Redaction, Key, flush, pending}
use fde_assessment.Guardrail.Pool.Flushed.{IsRedaction, flush-pending}
use fde_assessment.Guardrail.Residue.{Python, done_event, residue_events}
use fde_assessment.Guardrail.Gateway.{
  Failure, malformed, interrupted, fatal, Progress, Upstream, is_done, handle_event, after_event,
  handle_events, after_feed, read_texts, failed, after_flush, finish_stream, started, run_stream,
  close_stream, stream,
}

-- the stream has been told to end
abbrev pub has_done : List SseEvent → Bool
has_done out = any (λ (e : SseEvent). str_eq e.payload "[DONE]") out

has_done-append : (xs ys : List SseEvent) → has_done (xs ++ ys) ≡ (has_done xs || has_done ys)
has_done-append [] ys = refl
has_done-append (e ∷ xs) ys = ground (arith, has_done-append xs ys)

has_done-last : (xs : List SseEvent) → has_done (xs ++ done_event ∷ []) ≡ true
has_done-last xs = has_done-append xs (done_event ∷ []) ∙ ground arith

has_done-closed : (xs : List SseEvent) (e : SseEvent) → has_done (xs ++ e ∷ done_event ∷ []) ≡ true
has_done-closed xs e = has_done-append xs (e ∷ done_event ∷ []) ∙ ground arith

module _ {F R : Type 0} (py : Python F) (red : Redaction R) where
  -- what is marked completed has been told to end
  abbrev IsTold : Progress F R → Type 0
  IsTold p = p.completed ≡ true → has_done p.out ≡ true

  handle_event-has_done :
      (e : SseEvent) (pool : List (Key × R)) (last_chunk : Option (Fields F))
      → is_done py red e ≡ true
      → has_done (handle_event py red e pool last_chunk).out ≡ true
  unfolding handle_event
  handle_event-has_done e pool last_chunk done =
      simp done (has_done-last (residue_events py last_chunk (flush red pool).0))

  after_event-IsTold :
      (remembers : Bool) (e : SseEvent) (p : Progress F R)
      → IsTold p
      → IsTold (after_event py red remembers e p)
  unfolding after_event
  after_event-IsTold remembers e p told =
      let h = handle_event py red e p.pool p.last_chunk in
      let joint = has_done-append p.out h.out in
      elim (Bool-cases (is_some h.failure)) [
        | inl raised ↦ simp raised (λ c. joint ∙ ground (arith, told c))
        | inr fine ↦ simp fine (λ c. elim (Bool-cases (is_done py red e)) [
          | inl ends ↦ joint ∙ ground (arith, handle_event-has_done e p.pool p.last_chunk ends)
          | inr goes_on ↦
              let before : p.completed ≡ true = ground (arith, goes_on, c) in
              joint ∙ ground (arith, told before)
        ])
      ]

  handle_events-IsTold :
      (remembers : Bool) (es : List SseEvent) (p : Progress F R)
      → IsTold p
      → IsTold (handle_events py red remembers es p)
  unfolding handle_events
  handle_events-IsTold remembers [] p told = told
  handle_events-IsTold remembers (e ∷ es) p told =
      let next = after_event py red remembers e p in
      let kept = after_event-IsTold remembers e p told in
      if-both IsTold (is_some next.failure) next (handle_events py red remembers es next) kept
        (handle_events-IsTold remembers es next kept)

  module _ (max_event_bytes : ℕ) (is_space : Char → Bool) where
    after_feed-IsTold :
        (fed : Option (List SseEvent × Decoder)) (d : Decoder) (p : Progress F R)
        (rest : Decoder → Progress F R → Progress F R × Decoder)
        → IsTold p
        → ((d' : Decoder) (q : Progress F R) → IsTold q → IsTold (rest d' q).0)
        → IsTold (after_feed py red max_event_bytes is_space fed d p rest).0
    unfolding after_feed
    after_feed-IsTold none d p rest told later = told
    after_feed-IsTold (some (events, d')) d p rest told later =
        let next = handle_events py red true events p in
        let kept = handle_events-IsTold true events p told in
        if-both (λ (x : Progress F R × Decoder). IsTold x.0)
          (is_some next.failure || next.completed) (next, d') (rest d' next) kept
          (later d' next kept)

    read_texts-IsTold :
        (fails : Bool) (texts : List String) (d : Decoder) (p : Progress F R)
        → IsTold p
        → IsTold (read_texts py red max_event_bytes is_space fails texts d p).0
    unfolding read_texts
    read_texts-IsTold fails [] d p told =
        if-both IsTold fails (failed py red interrupted p) p told told
    read_texts-IsTold fails (text ∷ texts) d p told =
        after_feed-IsTold (feed_text max_event_bytes d text) d p
          (λ d' q. read_texts py red max_event_bytes is_space fails texts d' q) told
          (λ d' q. read_texts-IsTold fails texts d' q)

    -- a run that raised nothing has told its client to end, and if the upstream did not say so, then
    -- the pool was flushed
    abbrev IsFinished : Progress F R → Type 0
    IsFinished p =
        p.failure ≡ none
        → (has_done p.out ≡ true) × ((p.completed ≡ true) ⊎ (pending red p.pool ≡ 0))

    after_flush-IsFinished :
        IsRedaction red
        → (events : List SseEvent) (p : Progress F R) → IsTold p
        → IsFinished (after_flush py red max_event_bytes is_space events p)
    unfolding after_flush
    after_flush-IsFinished law events p told =
        let last = handle_events py red false events p in
        let kept = handle_events-IsTold false events p told in
        elim (Bool-cases (is_some last.failure || last.completed)) [
          | inl over ↦ simp over (λ fine.
              let unfailed : is_some last.failure ≡ false = ap is_some fine in
              let ended : last.completed ≡ true = ground (arith, unfailed, over) in
              (kept ended, inl ended))
          | inr open_ended ↦
              let residues = residue_events py last.last_chunk (flush red last.pool).0 in
              let closed =
                has_done-append last.out (residues ++ done_event ∷ [])
                ∙ ground (arith, has_done-last residues) in
              simp open_ended (λ fine. (closed, inr (flush-pending red law last.pool)))
        ]

    finish_stream-IsFinished :
        IsRedaction red
        → (left_over : String) (p : Progress F R) (d : Decoder) → IsTold p
        → IsFinished (finish_stream py red max_event_bytes is_space left_over (p, d))
    unfolding finish_stream
    finish_stream-IsFinished law left_over p d told =
        let events = flush_text is_space d left_over in
        elim (Bool-cases (is_some p.failure)) [
          | inl raised ↦
              simp raised (λ fine.
                absurd (ground (arith, ap is_some {x = p.failure} {y = none} fine, raised)))
          | inr fine ↦ simp fine (after_flush-IsFinished law events p told)
        ]

    run_stream-IsFinished :
        IsRedaction red
        → (up : Upstream) → IsFinished (run_stream py red max_event_bytes is_space up)
    unfolding run_stream
    run_stream-IsFinished law up =
        let first = started py red max_event_bytes is_space in
        let (p, d) =
          read_texts py red max_event_bytes is_space up.fails up.texts new_decoder first in
        let told =
          read_texts-IsTold up.fails up.texts new_decoder first (λ c. absurd (ground (arith, c))) in
        finish_stream-IsFinished law up.left_over p d told

    closed_by_failure :
        (out : List SseEvent) (pool : List (Key × R)) (last_chunk : Option (Fields F))
        (completed : Bool) (failure : Option Failure)
        → let p : Progress F R = record {
          out = out;
          pool = pool;
          last_chunk = last_chunk;
          completed = completed;
          failure = failure;
        } in
          let body = close_stream py red max_event_bytes is_space p in
          IsFinished p
          → (p.failure ≡ some fatal) ⊎ ((body.aborted ≡ false) × (has_done body.out ≡ true))
    unfolding close_stream
    closed_by_failure out pool last_chunk completed none finished = inr (refl, (finished refl).0)
    closed_by_failure out pool last_chunk completed (some malformed) finished =
        inr (refl, has_done-closed out _)
    closed_by_failure out pool last_chunk completed (some interrupted) finished =
        inr (refl, has_done-closed out _)
    closed_by_failure out pool last_chunk completed (some fatal) finished = inl refl

    -- A stream breaks off without the end marker only by an exception that is neither a ValueError
    -- nor an HTTPError; every other stream sends its client the marker. A stream that raised nothing
    -- and whose upstream sent no marker holds nothing back at its end.
    pub stream_tells_done :
        IsRedaction red
        → (up : Upstream)
        → let run = run_stream py red max_event_bytes is_space up in
          let body = stream py red max_event_bytes is_space up in
          ((run.failure ≡ some fatal) ⊎ ((body.aborted ≡ false) × (has_done body.out ≡ true)))
          × (run.failure ≡ none → run.completed ≡ false → pending red run.pool ≡ 0)
    unfolding stream
    stream_tells_done law up =
        let run = run_stream py red max_event_bytes is_space up in
        let finished = run_stream-IsFinished law up in
        (
          closed_by_failure run.out run.pool run.last_chunk run.completed run.failure finished,
          λ fine open_ended. elim ((finished fine).1) [
            | inl ended ↦ absurd (ground (arith, ended, open_ended))
            | inr none_held ↦ none_held
          ],
        )
