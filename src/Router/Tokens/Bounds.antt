-- ===== src/Router/Tokens/Bounds.antt =====
-- The estimate of tokens.py is a ceiling, and what a response is charged is bounded.
use text.Mathlib.Text.{◌==◌ as str_eq}
use fde_assessment.Base.Unicode.{text_length}
use fde_assessment.Base.{
  ℕ, ◌+◌, ◌*◌, ◌≤◌, ◌≡◌, refl, max, String, false, ◌&&◌, Option, none, some, ◌==◌, arith,
  Option-cases, inl, inr, ◌⊎◌, ◌∙◌,
}
use fde_assessment.Base.Int.{pos}
use fde_assessment.Json.{Json, Items, Fields, int, str, arr, obj, cons, field, get}
use fde_assessment.Router.Tokens.{
  Runtime, max_walk_depth, max_reported_tokens, non_prompt_keys, is_one_of, text_length,
  positive_field, larger, requested_max, or_one, multiplier, count_text_tokens, walk_text,
  walk_items, walk_fields, serialised_floor, prompt_tokens, completion_ceiling,
  estimate_request_tokens, sane, sane_field, sum_of, reported, actual_tokens_from_response,
}

-- A text stands in a value, as a string or as a key, at most `max_walk_depth` deep and not under a
-- configuration key of the body itself.
mutual
  pub data Occurs {F : Type 0} (s : String) : ℕ → Json F → Type 0 where
    here : {d : ℕ} → d ≤ max_walk_depth → Occurs s d (str s)
    in_arr :
        {d : ℕ} {items : Items F}
        → d ≤ max_walk_depth
        → OccursItems s (d + 1) items
        → Occurs s d (arr items)
    in_obj :
        {d : ℕ} {fields : Fields F}
        → d ≤ max_walk_depth
        → OccursFields s d fields
        → Occurs s d (obj fields)

  pub data OccursItems {F : Type 0} (s : String) : ℕ → Items F → Type 0 where
    first : {d : ℕ} {v : Json F} {rest : Items F} → Occurs s d v → OccursItems s d (cons v rest)
    later :
        {d : ℕ} {v : Json F} {rest : Items F} → OccursItems s d rest → OccursItems s d (cons v rest)

  pub data OccursFields {F : Type 0} (s : String) : ℕ → Fields F → Type 0 where
    key : {d : ℕ} {v : Json F} {rest : Fields F} → OccursFields s d (field s v rest)
    value :
        {d : ℕ} {k : String} {v : Json F} {rest : Fields F}
        → (d == 0 && is_one_of non_prompt_keys k) ≡ false
        → Occurs s (d + 1) v
        → OccursFields s d (field k v rest)
    beyond :
        {d : ℕ} {k : String} {v : Json F} {rest : Fields F}
        → OccursFields s d rest
        → OccursFields s d (field k v rest)

larger_le :
    (a b c : Option ℕ) (m : ℕ)
    → (a ≡ some m) ⊎ (b ≡ some m) ⊎ (c ≡ some m)
    → (n : ℕ) × (larger (larger a b) c ≡ some n) × (m ≤ n)
larger_le none none none m h = absurd (ground arith)
larger_le none none (some z) m h = (z, refl, ground arith)
larger_le none (some y) none m h = (y, refl, ground arith)
larger_le none (some y) (some z) m h = (max y z, refl, ground arith)
larger_le (some x) none none m h = (x, refl, ground arith)
larger_le (some x) none (some z) m h = (max x z, refl, ground arith)
larger_le (some x) (some y) none m h = (max x y, refl, ground arith)
larger_le (some x) (some y) (some z) m h = (max (max x y) z, refl, ground arith)

or_one_le : (a b : Option ℕ) (k : ℕ) → (a ≡ some k) ⊎ (b ≡ some k) → k ≤ max (or_one a) (or_one b)
or_one_le a b k h = ground arith

module _ {F : Type 0} (rt : Runtime F) where
  mutual
    unfolding walk_text

    walk_text-counts :
        (s : String) {d : ℕ} {v : Json F} → Occurs s d v → count_text_tokens rt s ≤ walk_text rt d v
    walk_text-counts s (here h) = ground arith
    walk_text-counts s (in_arr h o) = ground (arith, walk_items-counts s o)
    walk_text-counts s (in_obj h o) = ground (arith, walk_fields-counts s o)

    walk_items-counts :
        (s : String) {d : ℕ} {items : Items F}
        → OccursItems s d items
        → count_text_tokens rt s ≤ walk_items rt d items
    walk_items-counts s (first o) = omega (arith, walk_text-counts s o)
    walk_items-counts s (later o) = omega (arith, walk_items-counts s o)

    walk_fields-counts :
        (s : String) {d : ℕ} {fields : Fields F}
        → OccursFields s d fields
        → count_text_tokens rt s ≤ walk_fields rt d fields
    walk_fields-counts s key = omega arith
    walk_fields-counts s (value free o) = ground (arith, walk_text-counts s o)
    walk_fields-counts s (beyond o) = ground (arith, walk_fields-counts s o)

  -- Without an encoding a non-empty text counts at least one token, and at least 5 for each 18
  -- characters: the heuristic is rounded up.
  pub count_text_tokens_rounds_up :
      (s : String)
      → rt.encode ≡ none
      → str_eq s "" ≡ false
      → (1 ≤ count_text_tokens rt s) × (text_length s * 5 ≤ count_text_tokens rt s * 18)
  unfolding count_text_tokens
  count_text_tokens_rounds_up s plain some_text = rw (some_text, plain) (omega arith, omega arith)

  -- The estimate is at least 1, and at least the tokens of the body as it is serialised plus the
  -- completion ceiling times the number of completions.
  pub estimate_is_ceiling :
      (ceiling : ℕ) (default_max : Option ℕ) (body : Fields F)
      → let estimate = estimate_request_tokens rt ceiling default_max body in
        (1 ≤ estimate)
        × (serialised_floor rt body
              + completion_ceiling rt ceiling default_max body * multiplier body
            ≤ estimate)
  unfolding estimate_request_tokens prompt_tokens
  estimate_is_ceiling ceiling default_max body = (omega arith, omega arith)

  -- No text of the body, key or value, is free: one that stands at most 20 deep and not under a
  -- configuration key is counted in the estimate, beside the completions.
  pub estimate_counts_text :
      (ceiling : ℕ) (default_max : Option ℕ) (body : Fields F) (s : String)
      → Occurs s 0 (obj body)
      → count_text_tokens rt s + completion_ceiling rt ceiling default_max body * multiplier body
        ≤ estimate_request_tokens rt ceiling default_max body
  unfolding estimate_request_tokens prompt_tokens
  estimate_counts_text ceiling default_max body s o = omega (arith, walk_text-counts s o)

  -- Any of the three completion ceilings that the caller sets to a positive number is covered by
  -- the ceiling of the estimate, and so is the number of completions.
  pub completion_ceiling_covers :
      (ceiling : ℕ) (default_max : Option ℕ) (body : Fields F) (m k : ℕ)
      → (positive_field "max_tokens" body ≡ some m)
        ⊎ (positive_field "max_completion_tokens" body ≡ some m)
        ⊎ (positive_field "max_output_tokens" body ≡ some m)
      → (positive_field "n" body ≡ some k) ⊎ (positive_field "best_of" body ≡ some k)
      → (m ≤ completion_ceiling rt ceiling default_max body) × (k ≤ multiplier body)
  unfolding completion_ceiling requested_max multiplier
  completion_ceiling_covers ceiling default_max body m k caps counts =
      let (n, found, le) =
        larger_le (positive_field "max_tokens" body) (positive_field "max_completion_tokens" body)
          (positive_field "max_output_tokens" body) m caps in
      (
        rw (found, completion_ceiling) le,
        or_one_le (positive_field "n" body) (positive_field "best_of" body) k counts,
      )

sane_le : {F : Type 0} (v : Json F) (n : ℕ) → sane v ≡ some n → n ≤ max_reported_tokens
unfolding sane
sane_le (int (pos k)) n e = ground arith
sane_le v n e = absurd (cc)

sane_field_le :
    {F : Type 0} (name : String) (usage : Fields F) (n : ℕ)
    → sane_field name usage ≡ some n
    → n ≤ max_reported_tokens
sane_field_le name usage n e = elim (Option-cases (get name usage)) [
  | inl missing ↦ absurd (ground arith)
  | inr (v, found) ↦ sane_le v n (rw (found, sane_field) at e)
]

sum_of_le : (a b : Option ℕ) (n : ℕ) → sum_of a b ≡ some n → n ≤ max_reported_tokens
sum_of_le (some a) (some b) n e = ground arith
sum_of_le _ _ n e = absurd (cc)

reported_le : {F : Type 0} (v : Json F) (n : ℕ) → reported v ≡ some n → n ≤ max_reported_tokens
unfolding reported
reported_le (obj usage) n e = elim (Option-cases (sane_field "total_tokens" usage)) [
  | inl missing ↦
      sum_of_le (sane_field "prompt_tokens" usage) (sane_field "completion_tokens" usage) n
        (rw (missing, reported) at e)
  | inr (k, found) ↦ sane_field_le "total_tokens" usage n (found ∙ (rw (found, reported) at e))
]
reported_le v n e = absurd (cc)

-- What a response is charged is the reservation, if its `usage` block gives no figure, and else a
-- figure of at most `max_reported_tokens`.
pub actual_tokens_bounds :
    {F : Type 0} (payload : Fields F) (fallback : ℕ)
    → (actual_tokens_from_response payload fallback ≡ fallback)
      ⊎ (actual_tokens_from_response payload fallback ≤ max_reported_tokens)
unfolding actual_tokens_from_response
actual_tokens_bounds payload fallback = elim (Option-cases (get "usage" payload)) [
  | inl missing ↦ rw (missing, actual_tokens_from_response) (inl refl)
  | inr (v, found) ↦
      rw (found, actual_tokens_from_response)
        (elim (Option-cases (reported v)) [
          | inl silent ↦ rw silent (inl refl)
          | inr (n, says) ↦ rw says (inr (reported_le v n says))
        ])
]
