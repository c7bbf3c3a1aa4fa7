-- ===== src/Guardrail/Payload/Carried.antt =====
-- That the two walks over a chunk agree on whether it carries a text: `_redact_node` and
-- `_payload_text_length` of task3_streaming_guardrail/gateway.py.
use text.Mathlib.Text.{◌==◌ as str_eq}
use fde_assessment.Base.{
  ℕ, zero, suc, ◌+◌, String, ◌≡◌, refl, sym, Bool, true, false, List, [], ◌∷◌, ◌++◌, ◌||◌, ltb,
  if◌then◌else◌, arith, Bool-cases, inl, inr, Option, none, eq_iff,
}
use fde_assessment.Base.Int.{ℤ}
use fde_assessment.Base.Unicode.{text_length}
use fde_assessment.Json.{
  Json, Items, Fields, null, bool, int, float, str, arr, obj, nil, cons, end, field, get,
}
use fde_assessment.Guardrail.Pool.{Redaction, Step, at_key, at_position, Key}
use fde_assessment.Guardrail.Payload.{
  is_structural, or_else, declared_index, redact_text, redact_node, redact_items, redact_fields,
  Redacted, untouched, is_streaming_path, redact_payload, payload_text_length, items_text_length,
  fields_text_length,
}

some_of_two : (a b : Bool) (m n : ℕ) → a ≡ ltb 0 m → b ≡ ltb 0 n → (a || b) ≡ ltb 0 (m + n)
some_of_two a b m n x y = ground arith

text_length-filled : (s : String) → str_eq s "" ≡ false → ltb 0 (text_length s) ≡ true
unfolding text_length
text_length-filled String.[] filled = absurd (ground (arith, (eq_iff "" "").1 refl, filled))
text_length-filled (String.◌∷◌ c s) filled = ground arith

carried_text :
    (F : Type 0) {R : Type 0} (red : Redaction R) (text : String) (pool : List (Key × R))
    (path : List Step) (choice : Option ℤ)
    → (redact_node {F = F} red (str text) pool path choice).carried ≡ ltb 0 (text_length text)
unfolding redact_node redact_text
carried_text F red text pool path choice = elim (Bool-cases (str_eq text "")) [
  | inl empty ↦ simp empty (rw ((eq_iff text "").0 empty) (unfold text_length in refl))
  | inr filled ↦ elim (Bool-cases (is_streaming_path path)) [
    | inl streams ↦ simp (filled, streams) (sym (text_length-filled text filled))
    | inr whole ↦ simp (filled, whole) (sym (text_length-filled text filled))
  ]
]

module _ {F R : Type 0} (red : Redaction R) where
  carried_field :
      (v : Json F) (pool : List (Key × R)) (inner : Redacted R (Json F))
      (after : List (Key × R) → Redacted R (Fields F)) (structural : Bool) (m n : ℕ)
      → inner.carried ≡ ltb 0 m
      → ((p : List (Key × R)) → (after p).carried ≡ ltb 0 n)
      → let first = if structural then untouched v pool else inner in
        (first.carried || (after first.pool).carried) ≡ ltb 0 (if structural then n else m + n)
  carried_field v pool inner after true m n one rest = rest pool
  carried_field v pool inner after false m n one rest =
      some_of_two inner.carried (after inner.pool).carried m n one (rest inner.pool)

  mutual
    unfolding redact_node payload_text_length text_length

    redact_node-carried :
        (v : Json F) (pool : List (Key × R)) (path : List Step) (choice : Option ℤ)
        → (redact_node red v pool path choice).carried ≡ ltb 0 (payload_text_length v)
    redact_node-carried (obj fs) pool path choice =
        redact_fields-carried fs pool path (or_else (declared_index (get "index" fs)) choice)
    redact_node-carried (arr xs) pool path choice = redact_items-carried xs zero pool path choice
    redact_node-carried (str text) pool path choice = carried_text F red text pool path choice
    redact_node-carried null pool path choice = refl
    redact_node-carried (bool b) pool path choice = refl
    redact_node-carried (int n) pool path choice = refl
    redact_node-carried (float x) pool path choice = refl

    redact_items-carried :
        (xs : Items F) (position : ℕ) (pool : List (Key × R)) (path : List Step) (choice : Option ℤ)
        → (redact_items red xs position pool path choice).carried ≡ ltb 0 (items_text_length xs)
    redact_items-carried nil position pool path choice = refl
    redact_items-carried (cons v vs) position pool path choice =
        let here = path ++ at_position position ∷ [] in
        let first = redact_node red v pool here choice in
        some_of_two _ _ _ _ (redact_node-carried v pool here choice)
          (redact_items-carried vs (suc position) first.pool path choice)

    redact_fields-carried :
        (fs : Fields F) (pool : List (Key × R)) (path : List Step) (choice : Option ℤ)
        → (redact_fields red fs pool path choice).carried ≡ ltb 0 (fields_text_length fs)
    redact_fields-carried end pool path choice = refl
    redact_fields-carried (field k v fs) pool path choice =
        let here = path ++ at_key k ∷ [] in
        carried_field v pool (redact_node red v pool here choice)
          (λ p. redact_fields red fs p path choice) (is_structural k) _ _
          (redact_node-carried v pool here choice) (λ p. redact_fields-carried fs p path choice)

  -- `redact_payload` says that a chunk carries text exactly if its text length is more than 0.
  pub redact_payload-carried :
      (payload : Fields F) (pool : List (Key × R))
      → (redact_payload red payload pool).carried ≡ ltb 0 (payload_text_length (obj payload))
  unfolding redact_payload
  redact_payload-carried payload pool = redact_node-carried (obj payload) pool [] none
