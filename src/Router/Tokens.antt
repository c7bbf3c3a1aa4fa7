-- ===== src/Router/Tokens.antt =====
-- The token estimate of task4_model_router/tokens.py.
-- What the source takes from tiktoken, json and Python's number formatting is the record `Runtime`.
-- Request bodies come from `json.loads`, so a value is null, a Boolean, a number, a text, a list or
-- a dictionary with text keys; the source's branches for other types are unreachable.
pub mod Bounds
pub mod Samples
mod Tests
use text.Mathlib.Text.{◌==◌ as str_eq}
use fde_assessment.Base.Unicode.{text_length}
use fde_assessment.Base.{
  ℕ, zero, suc, ◌+◌, ◌*◌, ◌/◌, min, max, String, Bool, true, false, ◌&&◌, Option, none, some, List,
  [], ◌∷◌, ltb, ◌==◌, if◌then◌else◌, any,
}
use fde_assessment.Base.Int.{ℤ, pos, negsuc}
use fde_assessment.Json.{
  Json, Items, Fields, null, bool, int, float, str, arr, obj, nil, cons, end, field, get,
}

pub record Runtime (F : Type 0) : Type 0 where
  -- `len(encoding.encode(text))`, if tiktoken has its encoding at hand
  pub encode : Option (String → ℕ)
  -- `json.dumps(value, default=str)`; `none` if it raises
  pub dumps : Json F → Option String
  -- `str(value)`, and `repr(value)` of a number
  pub str_of : Json F → String
  pub repr_int : ℤ → String
  pub repr_float : F → String

abbrev pub max_walk_depth : ℕ
max_walk_depth = 20

abbrev pub message_overhead : ℕ
message_overhead = 4

abbrev pub max_reported_tokens : ℕ
max_reported_tokens = 10000000

abbrev pub non_prompt_keys : List String
non_prompt_keys =
    "model" ∷ "stream" ∷ "stream_options" ∷ "temperature" ∷ "top_p" ∷ "top_k" ∷ "n" ∷ "best_of"
    ∷ "max_tokens" ∷ "max_completion_tokens" ∷ "max_output_tokens" ∷ "presence_penalty"
    ∷ "frequency_penalty" ∷ "seed" ∷ "logprobs" ∷ "top_logprobs" ∷ "scenario" ∷ "chunk_delay"
    ∷ "store" ∷ "service_tier" ∷ "parallel_tool_calls" ∷ []

-- `k in names`
abbrev pub is_one_of : List String → String → Bool
is_one_of names k = any (λ n. str_eq n k) names

-- `int(len(text) / 3.6) + 1`: the floor of the double quotient is that of 5n / 18 at every length
-- that a request of at most some megabytes can have
abbrev pub heuristic : ℕ → ℕ
heuristic n = n * 5 / 18 + 1

-- `isinstance(v, int) and not isinstance(v, bool) and v > 0`, with the value; a bool is a
-- constructor of its own
unfoldable pub positive_int : {F : Type 0} → Json F → Option ℕ
positive_int (int (pos n)) = if ltb 0 n then some n else none
positive_int _ = none

abbrev pub positive_of : {F : Type 0} → Option (Json F) → Option ℕ
positive_of none = none
positive_of (some v) = positive_int v

abbrev pub positive_field : {F : Type 0} → String → Fields F → Option ℕ
positive_field name body = positive_of (get name body)

unfoldable pub items_length : {F : Type 0} → Items F → ℕ
items_length nil = 0
items_length (cons _ rest) = suc (items_length rest)

-- `max(requested_max or 0, candidate)`
abbrev pub larger : Option ℕ → Option ℕ → Option ℕ
larger none o = o
larger (some a) none = some a
larger (some a) (some b) = some (max a b)

-- the caller's completion ceiling, over the three names for it
unfoldable pub requested_max : {F : Type 0} → Fields F → Option ℕ
requested_max body =
    larger (larger (positive_field "max_tokens" body) (positive_field "max_completion_tokens" body))
      (positive_field "max_output_tokens" body)

abbrev pub or_one : Option ℕ → ℕ
or_one none = 1
or_one (some n) = max 1 n

-- a candidate of 1 is not over 1 and changes nothing
unfoldable pub multiplier : {F : Type 0} → Fields F → ℕ
multiplier body = max (or_one (positive_field "n" body)) (or_one (positive_field "best_of" body))

-- `4 * len(messages)`, if there is a list of messages
unfoldable pub message_tokens : {F : Type 0} → Fields F → ℕ
message_tokens body = elim (get "messages" body) [
  | none ↦ 0
  | some v ↦ elim v [ arr items ↦ message_overhead * items_length items | _ ↦ 0 ]
]

module _ {F : Type 0} (rt : Runtime F) where
  unfoldable pub count_text_tokens : String → ℕ
  unfolding text_length
  count_text_tokens text =
      if str_eq text ""
      then 0
      else elim rt.encode [ none ↦ heuristic (text_length text) | some encode ↦ encode text ]

  -- `count_text_tokens(json.dumps(v, default=str))`, or of `str(v)` if that raises
  unfoldable pub serialised : Json F → ℕ
  unfolding count_text_tokens
  serialised v = elim (rt.dumps v) [
    | none ↦ count_text_tokens (rt.str_of v)
    | some text ↦ count_text_tokens text
  ]

  unfoldable mutual
    unfolding count_text_tokens serialised

    -- `_walk_text(value, depth)`
    pub walk_text : ℕ → Json F → ℕ
    walk_text depth null = if ltb max_walk_depth depth then serialised null else 0
    walk_text depth (bool b) = if ltb max_walk_depth depth then serialised (bool b) else 1
    walk_text depth (int n) =
        if ltb max_walk_depth depth then serialised (int n) else count_text_tokens (rt.repr_int n)
    walk_text depth (float x) =
        if ltb max_walk_depth depth
        then serialised (float x)
        else count_text_tokens (rt.repr_float x)
    walk_text depth (str s) =
        if ltb max_walk_depth depth then serialised (str s) else count_text_tokens s
    walk_text depth (arr items) =
        let inside = walk_items (depth + 1) items in
        if ltb max_walk_depth depth then serialised (arr items) else inside
    walk_text depth (obj fields) =
        let inside = walk_fields depth fields in
        if ltb max_walk_depth depth then serialised (obj fields) else inside

    pub walk_items : ℕ → Items F → ℕ
    walk_items depth nil = 0
    walk_items depth (cons v rest) = walk_text depth v + walk_items depth rest

    -- the loop over a dictionary at `depth`
    pub walk_fields : ℕ → Fields F → ℕ
    walk_fields depth end = 0
    walk_fields depth (field key v rest) =
        let inside = walk_text (depth + 1) v in
        let more = walk_fields depth rest in
        count_text_tokens key
        + (if depth == 0 && is_one_of non_prompt_keys key then 0 else inside)
        + more

  -- `_serialised_floor`
  unfoldable pub serialised_floor : Fields F → ℕ
  unfolding serialised
  serialised_floor body = serialised (obj body)

  unfoldable pub prompt_tokens : Fields F → ℕ
  unfolding walk_text serialised_floor message_tokens
  prompt_tokens body = max (walk_text 0 (obj body)) (serialised_floor body) + message_tokens body

  -- the completion ceiling that the estimate assumes; `ceiling` is DEFAULT_COMPLETION_CEILING
  unfoldable pub completion_ceiling : ℕ → Option ℕ → Fields F → ℕ
  unfolding requested_max
  completion_ceiling ceiling default_max_tokens body = elim (requested_max body) [
    | some n ↦ n
    | none ↦ elim default_max_tokens [ some n ↦ n | none ↦ ceiling ]
  ]

  unfoldable pub estimate_request_tokens : ℕ → Option ℕ → Fields F → ℕ
  unfolding prompt_tokens completion_ceiling multiplier
  estimate_request_tokens ceiling default_max_tokens body =
      max 1
        (prompt_tokens body + completion_ceiling ceiling default_max_tokens body * multiplier body)

-- `sane`
unfoldable pub sane : {F : Type 0} → Json F → Option ℕ
sane (int (pos n)) = some (min n max_reported_tokens)
sane _ = none

abbrev pub sane_field : {F : Type 0} → String → Fields F → Option ℕ
sane_field name usage = elim (get name usage) [ none ↦ none | some v ↦ sane v ]

abbrev pub sum_of : Option ℕ → Option ℕ → Option ℕ
sum_of (some a) (some b) = some (min (a + b) max_reported_tokens)
sum_of _ _ = none

-- the provider's own figure, if its `usage` block has one
unfoldable pub reported : {F : Type 0} → Json F → Option ℕ
unfolding sane
reported (obj usage) = elim (sane_field "total_tokens" usage) [
  | some total ↦ some total
  | none ↦ sum_of (sane_field "prompt_tokens" usage) (sane_field "completion_tokens" usage)
]
reported _ = none

unfoldable pub actual_tokens_from_response : {F : Type 0} → Fields F → ℕ → ℕ
unfolding reported
actual_tokens_from_response payload fallback = elim (get "usage" payload) [
  | none ↦ fallback
  | some v ↦ elim (reported v) [ none ↦ fallback | some n ↦ n ]
]
