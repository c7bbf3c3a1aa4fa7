-- ===== src/Guardrail/Payload/Streams.antt =====
-- A response of several chunks, redacted one after the other: `redact_payload` of
-- task3_streaming_guardrail/gateway.py with one `RedactorPool`.
use fde_assessment.Base.{
  String, ◌≡◌, refl, ap, ◌∙◌, List, [], ◌∷◌, ◌++◌, none, Bool-cases, inl, inr,
}
use fde_assessment.Base.Unicode.{joined}
use fde_assessment.Json.{Json, Fields, obj}
use fde_assessment.Guardrail.Pool.{Redaction, Key, key_eq}
use fde_assessment.Guardrail.Pool.Isolated.{
  redactor_of, feed_each, under, feed_alone, feed_each_isolates,
}
use fde_assessment.Guardrail.Payload.{redact_payload}
use fde_assessment.Guardrail.Payload.Leaves.{
  leaves, text_under, FollowsTexts, FollowsTexts-then, redact_node-FollowsTexts,
}

abbrev pub concat : List String → String
concat [] = ""
concat (s ∷ rest) = joined s (concat rest)

text_under-concat :
    (key : Key) (xs : List (Key × String)) → text_under key xs ≡ concat (under key xs)
text_under-concat key [] = refl
text_under-concat key ((k, text) ∷ xs) = elim (Bool-cases (key_eq k key)) [
  | inl here ↦ simp here (ap (joined text) (text_under-concat key xs))
  | inr there ↦ simp there (text_under-concat key xs)
]

-- the incremental texts of some chunks, in their order
abbrev pub texts_of : {F : Type 0} → List (Json F) → List (Key × String)
texts_of [] = []
texts_of (v ∷ rest) = leaves v [] none ++ texts_of rest

abbrev pub chunks_of : {F : Type 0} → List (Fields F) → List (Json F)
chunks_of [] = []
chunks_of (fs ∷ rest) = obj fs ∷ chunks_of rest

module _ {F R : Type 0} (red : Redaction R) where
  -- chunks redacted one after the other, and the pool after them
  abbrev pub redact_chunks : List (Fields F) → List (Key × R) → List (Json F) × List (Key × R)
  redact_chunks [] pool = ([], pool)
  redact_chunks (payload ∷ rest) pool =
      let first = redact_payload red payload pool in
      let (more, after) = redact_chunks rest first.pool in (first.value ∷ more, after)

  redact_chunks-FollowsTexts :
      (payloads : List (Fields F)) (pool : List (Key × R))
      → let (shown, after) = redact_chunks payloads pool in
        FollowsTexts red pool (texts_of (chunks_of payloads)) after (texts_of shown)
  unfolding redact_payload
  redact_chunks-FollowsTexts [] pool = (refl, λ key. refl)
  redact_chunks-FollowsTexts (payload ∷ rest) pool =
      let first = redact_payload red payload pool in
      let (more, after) = redact_chunks rest first.pool in
      FollowsTexts-then red pool first.pool after (leaves (obj payload) [] none)
        (texts_of (chunks_of rest)) (leaves first.value [] none) (texts_of more)
        (redact_node-FollowsTexts red (obj payload) pool [] none)
        (redact_chunks-FollowsTexts rest first.pool)

  -- Over any chunks, the text that the client is shown under a key is what one redactor of its own
  -- puts out for the incremental texts of that key alone, in their order, and the pool keeps that
  -- redactor for it: no key's text is changed by what another key's redactor holds back. The key of a
  -- text is its path with the integer "index" of the innermost object around it that has one, so
  -- texts of one path and one innermost index share a redactor, also in two choices.
  pub redact_chunks_isolate :
      (key : Key) (payloads : List (Fields F)) (pool : List (Key × R))
      → let (shown, after) = redact_chunks payloads pool in
        let alone =
          feed_alone red (redactor_of red key pool) (under key (texts_of (chunks_of payloads))) in
        (text_under key (texts_of shown) ≡ concat alone.0) × (redactor_of red key after ≡ alone.1)
  redact_chunks_isolate key payloads pool =
      let texts = texts_of (chunks_of payloads) in
      let (moved, shows) = redact_chunks-FollowsTexts payloads pool in
      let (put_out, kept) = feed_each_isolates red key texts pool in
      (
        shows key ∙ text_under-concat key (feed_each red texts pool).0 ∙ ap concat put_out,
        ap (redactor_of red key) moved ∙ kept,
      )
