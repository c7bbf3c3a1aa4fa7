-- ===== src/Guardrail/Pool/Redactors.antt =====
-- The redactor of redactor.py as one that the pool of gateway.py can use. The two forms of a text, a
-- `String` and the list of its code points, are read into each other by parameters.
use fde_assessment.Base.{ℕ, String, ◌≡◌, refl, ap, ◌++◌, length, Bool-cases, inl, inr, if-both}
use fde_assessment.Base.Slices.{drop_all}
use fde_assessment.Guardrail.Redactor.{Text, Config}
use fde_assessment.Guardrail.Redactor.Stream.{
  Redactor, fresh, feed, flush, emit, emit_full, hold_point, is_blank,
}
use fde_assessment.Guardrail.Redactor.Stream.Emitted.{is_blank-nil}
use fde_assessment.Guardrail.Pool.{Redaction}
use fde_assessment.Guardrail.Pool.Flushed.{IsRedaction}

module _ (c : Config) (points : String → Text) (text_of : Text → String) where
  -- `StreamingRedactor.pending`
  abbrev pub held_back : Redactor → ℕ
  held_back r = length r.buffer

  abbrev pub redaction : Redaction Redactor
  redaction = record {
    fresh = fresh;
    feed = λ r text. let (out, r') = feed c r (points text) in (text_of out, r');
    flush = λ r. let (out, r') = flush c r in (text_of out, r');
    pending = held_back;
  }

  flush-held_back : (r : Redactor) → held_back (flush c r).1 ≡ 0
  unfolding flush emit emit_full hold_point
  flush-held_back r = elim (Bool-cases (is_blank r.buffer)) [
    | inl empty ↦ simp empty (ap length (is_blank-nil r.buffer empty))
    | inr filled ↦
        let full = r.context ++ r.buffer in
        simp filled (
          if-both (λ (p : Text × Redactor). held_back p.1 ≡ 0) _ _ _ (ap length (drop_all full))
            (ap length (drop_all full)))
  ]

  pub redaction-IsRedaction : IsRedaction redaction
  redaction-IsRedaction = record { fresh_holds_nothing = refl; flush-pending = flush-held_back }
