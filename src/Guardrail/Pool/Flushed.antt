-- ===== src/Guardrail/Pool/Flushed.antt =====
-- What a flush of the pool leaves held back, and what it leaves alone: `flush` and `flush_choice` of
-- `RedactorPool` in task3_streaming_guardrail/gateway.py.
use mathlib.Core.List.{Mem}
use text.Mathlib.Text.{◌==◌ as str_eq}
use fde_assessment.Base.{◌⊎◌, String, ◌≡◌, refl, true, List, [], ◌∷◌, arith, some}
use fde_assessment.Base.Int.{ℤ}
use fde_assessment.Guardrail.Pool.{Redaction, Key, streamed, flush, pending}

-- what the pool relies on of a redactor: one just made, and one just flushed, holds nothing back
pub record IsRedaction {R : Type 0} (red : Redaction R) : Type 0 where
  pub fresh_holds_nothing : red.pending red.fresh ≡ 0
  pub flush-pending : (r : R) → red.pending (red.flush r).1 ≡ 0

-- the key of a stream begins with that index
abbrev pub BeginsWith : ℤ → Key → Type 0
BeginsWith index (streamed (some n) path) = n ≡ index
BeginsWith index _ = ⊥

module _ {R : Type 0} (red : Redaction R) where
  pub flush-pending : IsRedaction red → (pool : List (Key × R)) → pending red (flush red pool).1 ≡ 0
  unfolding pending flush
  flush-pending law [] = refl
  flush-pending law ((k, r) ∷ rest) = omega (arith, law.flush-pending r, flush-pending law rest)

  -- what becomes of a redactor of the pool
  abbrev pub IsFinished : ℤ → Key → R → R → List (Key × String) → Type 0
  IsFinished index k r r' out =
      (BeginsWith index k
        × (red.pending r' ≡ 0)
        × ((str_eq (red.flush r).0 "" ≡ true) ⊎ Mem (k, (red.flush r).0) out))
      ⊎ ((¬ BeginsWith index k) × (r' ≡ r))

  -- the two pools have the same keys in the same places
  abbrev pub AreFinished : ℤ → List (Key × R) → List (Key × R) → List (Key × String) → Type 0
  AreFinished index [] [] out = Unit
  AreFinished index ((k, r) ∷ before) ((k', r') ∷ after) out =
      (k' ≡ k) × IsFinished index k r r' out × AreFinished index before after out
  AreFinished index _ _ out = ⊥

  -- a text that is put out is what the redactor of its key, in the pool, had held back
  abbrev pub IsResidue : ℤ → List (Key × R) → Key × String → Type 0
  IsResidue index pool (k, text) =
      BeginsWith index k × ((r : R) × Mem (k, r) pool × (text ≡ (red.flush r).0))
