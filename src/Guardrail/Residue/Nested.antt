-- ===== src/Guardrail/Residue/Nested.antt =====
-- That a residue comes back where its stream was: `_residue_chunk` of
-- task3_streaming_guardrail/gateway.py against the walk of `_redact_node`.
use text.Mathlib.Text.{◌==◌ as str_eq}
use mathlib.Core.List.{append-nil}
use fde_assessment.Base.{
  ℕ, zero, suc, ◌+◌, String, ◌≡◌, refl, sym, ap, ◌∙◌, subst, true, false, Option, none, some, List,
  [], ◌∷◌, ◌++◌, arith, Bool-cases, inl, inr, eq_iff,
}
use fde_assessment.Base.Int.{ℤ}
use fde_assessment.Json.{Json, Fields, str, obj, end, field, put}
use fde_assessment.Guardrail.Pool.{Step, at_key, at_position, streamed}
use fde_assessment.Guardrail.Payload.{is_structural, is_streaming_path}
use fde_assessment.Guardrail.Payload.Leaves.{
  leaves, items_leaves, text_leaf, is_incremental, is_streaming_path-is_incremental,
}
use fde_assessment.Guardrail.Residue.{
  Python, padded, nest_at_path, stamped, stamped_items, residue_chunk,
}

-- the keys of a path that the walk enters
abbrev pub IsOpenPath : List Step → Type 0
IsOpenPath [] = Unit
IsOpenPath (at_key k ∷ path) = (is_structural k ≡ false) × IsOpenPath path
IsOpenPath (at_position n ∷ path) = IsOpenPath path

append_assoc : (xs ys zs : List Step) → (xs ++ ys) ++ zs ≡ xs ++ (ys ++ zs)
append_assoc [] ys zs = refl
append_assoc (x ∷ xs) ys zs = ap (λ l. x ∷ l) (append_assoc xs ys zs)

-- a key that is not structural is none of those that are
open_key : (k s : String) → is_structural s ≡ true → is_structural k ≡ false → str_eq k s ≡ false
open_key k s structural plain = elim (Bool-cases (str_eq k s)) [
  | inl same ↦
      absurd (
        ground
          (arith, structural, subst (λ x. is_structural x ≡ false) ((eq_iff k s).0 same) plain))
  | inr other ↦ other
]

index_structural : is_structural "index" ≡ true
unfolding is_structural
index_structural = refl

finish_structural : is_structural "finish_reason" ≡ true
unfolding is_structural
finish_structural = refl

module _ {F : Type 0} where
  padded-leaves :
      (n position : ℕ) (node : Json F) (path : List Step) (choice : Option ℤ)
      → items_leaves (padded n node) position path choice
        ≡ leaves node (path ++ at_position (n + position) ∷ []) choice
  unfolding padded leaves
  padded-leaves zero position node path choice =
      append-nil _ ∙ ap (λ k. leaves node (path ++ at_position k ∷ []) choice) (omega arith)
  padded-leaves (suc n) position node path choice =
      padded-leaves n (suc position) node path choice
      ∙ ap (λ k. leaves node (path ++ at_position k ∷ []) choice) (omega arith)

  stamped-leaves :
      (n position : ℕ) (fs : Fields F) (path : List Step) (index : ℤ) (choice : Option ℤ)
      → items_leaves (stamped_items (some index) (padded n (obj fs))) position path choice
        ≡ leaves (stamped (some index) (obj fs)) (path ++ at_position (n + position) ∷ []) choice
  unfolding padded leaves stamped_items stamped is_structural
  stamped-leaves zero position fs path index choice =
      append-nil _
      ∙ ap (λ k. leaves (stamped (some index) (obj fs)) (path ++ at_position k ∷ []) choice)
          (omega arith)
  stamped-leaves (suc n) position fs path index choice =
      stamped-leaves n (suc position) fs path index choice
      ∙ ap (λ k. leaves (stamped (some index) (obj fs)) (path ++ at_position k ∷ []) choice)
          (omega arith)

module _ (F : Type 0) where
  nest_at_path-leaves :
      (rest path : List Step) (text : String) (choice : Option ℤ)
      → IsOpenPath rest
      → leaves (nest_at_path {F = F} rest (str text)) path choice
        ≡ text_leaf text (path ++ rest) choice
  unfolding nest_at_path leaves
  nest_at_path-leaves [] path text choice open_path =
      ap (λ p. text_leaf text p choice) (sym (append-nil path))
  nest_at_path-leaves (at_key k ∷ rest) path text choice open_path =
      simp (open_path.0, open_key k "index" index_structural open_path.0)
        (append-nil _
          ∙ nest_at_path-leaves rest (path ++ at_key k ∷ []) text choice open_path.1
          ∙ ap (λ p. text_leaf text p choice) (append_assoc path (at_key k ∷ []) rest))
  nest_at_path-leaves (at_position n ∷ rest) path text choice open_path =
      padded-leaves n 0 (nest_at_path rest (str text)) path choice
      ∙ ap (λ k. leaves (nest_at_path {F = F} rest (str text)) (path ++ at_position k ∷ []) choice)
          (omega arith)
      ∙ nest_at_path-leaves rest (path ++ at_position n ∷ []) text choice open_path
      ∙ ap (λ p. text_leaf text p choice) (append_assoc path (at_position n ∷ []) rest)

  -- a choice that has been stamped keys its text by its index
  choice-leaves :
      (k : String) (rest path : List Step) (text : String) (index : ℤ) (choice : Option ℤ)
      → IsOpenPath (at_key k ∷ rest)
      → leaves
          (stamped (some index) (obj (field k (nest_at_path {F = F} rest (str text)) end)))
          path
          choice
        ≡ text_leaf text (path ++ at_key k ∷ rest) (some index)
  unfolding stamped put leaves is_structural
  choice-leaves k rest path text index choice open_path =
      simp
        (
          open_path.0,
          open_key k "index" index_structural open_path.0,
          open_key k "finish_reason" finish_structural open_path.0,
        )
        (append-nil _
          ∙ nest_at_path-leaves rest (path ++ at_key k ∷ []) text (some index) open_path.1
          ∙ ap (λ p. text_leaf text p (some index)) (append_assoc path (at_key k ∷ []) rest))

module _ {F : Type 0} (py : Python F) where
  -- The residue of an incremental text of a choice with a declared index comes back in a chunk whose
  -- one incremental text is the residue, under the very key that the text was read under.
  pub residue_chunk-leaves :
      (template : Option (Fields F)) (index : ℤ) (n : ℕ) (k : String) (rest : List Step)
      (text : String)
      → let path = at_key "choices" ∷ at_position n ∷ at_key k ∷ rest in
        IsOpenPath (at_key k ∷ rest)
        → is_streaming_path path ≡ true
        → str_eq text "" ≡ false
        → leaves (obj (residue_chunk py template (some index) path text)) [] none
          ≡ (streamed (some index) path, text) ∷ []
  unfolding residue_chunk leaves is_structural
  residue_chunk-leaves template index n k rest text open_path streams filled =
      let path = at_key "choices" ∷ at_position n ∷ at_key k ∷ rest in
      let comes : is_incremental path ≡ true =
        sym (is_streaming_path-is_incremental path) ∙ streams in
      let choices = at_key "choices" ∷ [] in
      let choice =
        stamped {F = F} (some index) (obj (field k (nest_at_path rest (str text)) end)) in
      append-nil _
      ∙ stamped-leaves n 0 (field k (nest_at_path rest (str text)) end) choices index none
      ∙ ap (λ m. leaves choice (choices ++ at_position m ∷ []) none) (omega arith)
      ∙ choice-leaves F k rest (choices ++ at_position n ∷ []) text index none open_path
      ∙ simp (filled, comes) refl
