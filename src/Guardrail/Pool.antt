-- ===== src/Guardrail/Pool.antt =====
-- `RedactorPool` of task3_streaming_guardrail/gateway.py: one redactor for each key, of the texts of a
-- response. The pool uses a redactor by the operations of `Redaction`; the redactor of redactor.py
-- is one of them (Pool/Redactors).
pub mod Isolated
pub mod Flushed
pub mod Redactors
use text.Mathlib.Text.{◌==◌ as str_eq}
use fde_assessment.Base.{
  ℕ, ◌+◌, String, Bool, true, false, ◌&&◌, Option, none, some, List, [], ◌∷◌, if◌then◌else◌, ◌==◌,
}
use fde_assessment.Base.Int.{ℤ, int_eq}
use fde_assessment.Base.Unicode.{joined}

-- the operations of a `StreamingRedactor` that the pool calls, the text put out first
pub record Redaction (R : Type 0) : Type 0 where
  pub fresh : R
  pub feed : R → String → String × R
  pub flush : R → String × R
  pub pending : R → ℕ

-- a step of the path to a value: a key of a dictionary, or a position in a list
pub data Step : Type 0 where
  at_key : String → Step
  at_position : ℕ → Step

abbrev pub step_eq : Step → Step → Bool
step_eq (at_key a) (at_key b) = str_eq a b
step_eq (at_position a) (at_position b) = a == b
step_eq _ _ = false

abbrev pub path_eq : List Step → List Step → Bool
path_eq [] [] = true
path_eq (s ∷ p) (t ∷ q) = step_eq s t && path_eq p q
path_eq _ _ = false

abbrev pub choice_eq : Option ℤ → Option ℤ → Bool
choice_eq none none = true
choice_eq (some a) (some b) = int_eq a b
choice_eq _ _ = false

-- the key of a redactor: `("__raw__",)`, `("__bare__",)`, or the index of a choice and a path
pub data Key : Type 0 where
  raw : Key
  bare : Key
  streamed : Option ℤ → List Step → Key

abbrev pub key_eq : Key → Key → Bool
key_eq raw raw = true
key_eq bare bare = true
key_eq (streamed c p) (streamed d q) = choice_eq c d && path_eq p q
key_eq _ _ = false

-- `key and key[0] == index`
abbrev pub is_of_choice : ℤ → Key → Bool
is_of_choice index (streamed c p) = choice_eq c (some index)
is_of_choice index _ = false

-- a text, unless it is empty, before what the other streams have left
abbrev pub with_residue : Key → String → List (Key × String) → List (Key × String)
with_residue key remaining out = if str_eq remaining "" then out else (key, remaining) ∷ out

module _ {R : Type 0} (red : Redaction R) where
  -- `RedactorPool.feed`, on the redactors in the order in which they were made
  unfoldable pub feed : Key → String → List (Key × R) → String × List (Key × R)
  feed key text [] = let (out, r) = red.feed red.fresh text in (out, (key, r) ∷ [])
  feed key text ((k, r) ∷ rest) =
      let (own, r') = red.feed r text in
      let (out, rest') = feed key text rest in
      if key_eq k key then (own, (k, r') ∷ rest) else (out, (k, r) ∷ rest')

  -- `redact_once`
  unfoldable pub redact_once : String → String
  redact_once text =
      let (out, r) = red.feed red.fresh text in let (rest, _) = red.flush r in joined out rest

  -- `RedactorPool.flush`
  unfoldable pub flush : List (Key × R) → List (Key × String) × List (Key × R)
  flush [] = ([], [])
  flush ((k, r) ∷ rest) =
      let (remaining, r') = red.flush r in
      let (out, rest') = flush rest in (with_residue k remaining out, (k, r') ∷ rest')

  -- `flush_choice`
  unfoldable pub flush_choice : ℤ → List (Key × R) → List (Key × String) × List (Key × R)
  flush_choice index [] = ([], [])
  flush_choice index ((k, r) ∷ rest) =
      let (remaining, r') = red.flush r in
      let (out, rest') = flush_choice index rest in
      if is_of_choice index k
      then (with_residue k remaining out, (k, r') ∷ rest')
      else (out, (k, r) ∷ rest')

  -- `RedactorPool.pending`
  unfoldable pub pending : List (Key × R) → ℕ
  pending [] = 0
  pending ((k, r) ∷ rest) = red.pending r + pending rest
