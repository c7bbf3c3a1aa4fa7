-- ===== src/Guardrail/Payload/Kept.antt =====
-- What redacting a chunk leaves as it is: `_redact_node` of task3_streaming_guardrail/gateway.py.
use text.Mathlib.Text.{◌==◌ as str_eq}
use fde_assessment.Base.{
  ℕ, zero, suc, String, ◌≡◌, refl, ap, Bool, true, false, List, [], ◌∷◌, ◌++◌, if◌then◌else◌, arith,
  Bool-cases, inl, inr, Option, eq_iff,
}
use fde_assessment.Base.Int.{ℤ}
use fde_assessment.Json.{
  Json, Items, Fields, null, bool, int, float, str, arr, obj, nil, cons, end, field, get,
}
use fde_assessment.Guardrail.Pool.{Redaction, Step, at_key, at_position, Key}
use fde_assessment.Guardrail.Payload.{
  is_structural, or_else, declared_index, redact_text, redact_node, redact_items, redact_fields,
  Redacted, untouched,
}

-- a chunk without its texts: a text that does not stand under a structural key is emptied
module _ {F : Type 0} where
  unfoldable mutual
    pub skeleton : Json F → Json F
    skeleton (obj fs) = obj (fields_skeleton fs)
    skeleton (arr xs) = arr (items_skeleton xs)
    skeleton (str text) = str ""
    skeleton v = v

    pub items_skeleton : Items F → Items F
    items_skeleton nil = nil
    items_skeleton (cons v vs) = cons (skeleton v) (items_skeleton vs)

    pub fields_skeleton : Fields F → Fields F
    fields_skeleton end = end
    fields_skeleton (field k v fs) =
        field k (if is_structural k then v else skeleton v) (fields_skeleton fs)

module _ {F R : Type 0} (red : Redaction R) where
  redact_text-skeleton :
      (text : String) (pool : List (Key × R)) (path : List Step) (choice : Option ℤ)
      → skeleton (redact_text {F = F} red text pool path choice).value ≡ str ""
  unfolding redact_text skeleton
  redact_text-skeleton text pool path choice = ground arith

  same_field :
      (k : String) (v : Json F) (pool : List (Key × R)) (inner : Redacted R (Json F))
      (fs : Fields F) (after : List (Key × R) → Redacted R (Fields F)) (structural : Bool)
      → skeleton inner.value ≡ skeleton v
      → ((p : List (Key × R)) → fields_skeleton (after p).value ≡ fields_skeleton fs)
      → let first = if structural then untouched v pool else inner in
        field k
          (if structural then first.value else skeleton first.value)
          (fields_skeleton (after first.pool).value)
        ≡ field k (if structural then v else skeleton v) (fields_skeleton fs)
  same_field k v pool inner fs after true same rest = ap (field k v) (rest pool)
  same_field k v pool inner fs after false same rest = λ i. field k (same i) (rest inner.pool i)

  mutual
    unfolding redact_node skeleton

    redact_node-skeleton :
        (v : Json F) (pool : List (Key × R)) (path : List Step) (choice : Option ℤ)
        → skeleton (redact_node red v pool path choice).value ≡ skeleton v
    redact_node-skeleton (obj fs) pool path choice =
        ap obj
          (redact_fields-skeleton fs pool path (or_else (declared_index (get "index" fs)) choice))
    redact_node-skeleton (arr xs) pool path choice =
        ap arr (redact_items-skeleton xs zero pool path choice)
    redact_node-skeleton (str text) pool path choice = elim (Bool-cases (str_eq text "")) [
      | inl empty ↦ simp empty refl
      | inr filled ↦ simp filled (redact_text-skeleton text pool path choice)
    ]
    redact_node-skeleton null pool path choice = refl
    redact_node-skeleton (bool b) pool path choice = refl
    redact_node-skeleton (int n) pool path choice = refl
    redact_node-skeleton (float x) pool path choice = refl

    redact_items-skeleton :
        (xs : Items F) (position : ℕ) (pool : List (Key × R)) (path : List Step) (choice : Option ℤ)
        → items_skeleton (redact_items red xs position pool path choice).value ≡ items_skeleton xs
    redact_items-skeleton nil position pool path choice = refl
    redact_items-skeleton (cons v vs) position pool path choice =
        let here = path ++ at_position position ∷ [] in
        let first = redact_node red v pool here choice in
        let same = redact_node-skeleton v pool here choice in
        let rest = redact_items-skeleton vs (suc position) first.pool path choice in
        λ i. cons (same i) (rest i)

    redact_fields-skeleton :
        (fs : Fields F) (pool : List (Key × R)) (path : List Step) (choice : Option ℤ)
        → fields_skeleton (redact_fields red fs pool path choice).value ≡ fields_skeleton fs
    redact_fields-skeleton end pool path choice = refl
    redact_fields-skeleton (field k v fs) pool path choice =
        let here = path ++ at_key k ∷ [] in
        same_field k v pool (redact_node red v pool here choice) fs
          (λ p. redact_fields red fs p path choice) (is_structural k)
          (redact_node-skeleton v pool here choice) (λ p. redact_fields-skeleton fs p path choice)

  -- Redacting changes nothing of a chunk but texts that stand under no structural key: its
  -- dictionaries, their keys and the order of these, its lists, its numbers and every value under a
  -- structural key are as they came.
  pub redact_keeps_skeleton :
      (v : Json F) (pool : List (Key × R)) (path : List Step) (choice : Option ℤ)
      → skeleton (redact_node red v pool path choice).value ≡ skeleton v
  redact_keeps_skeleton = redact_node-skeleton

  pub get-redact_fields :
      (k : String) (fs : Fields F) (pool : List (Key × R)) (path : List Step) (choice : Option ℤ)
      → is_structural k ≡ true
      → get k (redact_fields red fs pool path choice).value ≡ get k fs
  unfolding redact_fields
  get-redact_fields k end pool path choice structural = refl
  get-redact_fields k (field j v fs) pool path choice structural =
      let inner = redact_node red v pool (path ++ at_key j ∷ []) choice in
      elim (Bool-cases (str_eq j k)) [
        | inl here ↦
            let open_key : is_structural j ≡ true = rw ((eq_iff j k).0 here) structural in
            simp (here, open_key) refl
        | inr there ↦ elim (Bool-cases (is_structural j)) [
          | inl kept ↦ simp (there, kept) (get-redact_fields k fs pool path choice structural)
          | inr text ↦ simp (there, text) (get-redact_fields k fs inner.pool path choice structural)
        ]
      ]
