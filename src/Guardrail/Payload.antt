-- ===== src/Guardrail/Payload.antt =====
-- One chunk of the response: `redact_payload`, `_redact_node`, `_is_streaming_path`,
-- `_payload_text_length`, `_has_non_text_structure`, `_chunk_has_content` and
-- `_finished_choice_indexes` of task3_streaming_guardrail/gateway.py.
-- A chunk comes from `json.loads`, so its keys are texts. It is redacted on the event loop or on a
-- worker thread, with one result. Python's limit on the depth of a recursion is left out.
pub mod Carried
pub mod Leaves
pub mod Streams
pub mod Kept
use text.Mathlib.Text.{◌==◌ as str_eq}
use fde_assessment.Base.{
  ℕ, zero, suc, ◌+◌, String, Bool, true, false, not, ◌&&◌, ◌||◌, Option, none, some, List, [], ◌∷◌,
  ◌++◌, any, if◌then◌else◌, ltb, ◌==◌,
}
use fde_assessment.Base.Int.{ℤ, pos, negsuc}
use fde_assessment.Base.Unicode.{text_length}
use fde_assessment.Json.{
  Json, Items, Fields, null, bool, int, float, str, arr, obj, nil, cons, end, field, get,
}
use fde_assessment.Guardrail.Pool.{
  Redaction, Step, at_key, at_position, Key, streamed, feed, redact_once,
}

-- `_STRUCTURAL_KEYS`
abbrev pub structural_keys : List String
structural_keys =
    "id" ∷ "object" ∷ "created" ∷ "model" ∷ "role" ∷ "type" ∷ "index" ∷ "finish_reason"
    ∷ "system_fingerprint" ∷ "service_tier" ∷ "fingerprint" ∷ "name" ∷ "event" ∷ "object_type"
    ∷ "stop_reason" ∷ []

-- `k in names`
abbrev pub is_one_of : List String → String → Bool
is_one_of names k = any (λ n. str_eq n k) names

unfoldable pub is_structural : String → Bool
is_structural k = is_one_of structural_keys k

-- `_STREAMING_LEAVES`
abbrev pub streaming_leaves : List String
streaming_leaves = "content" ∷ "text" ∷ "refusal" ∷ "reasoning_content" ∷ "arguments" ∷ []

-- `next((step for step in reversed(path) if isinstance(step, str)), None)`
unfoldable pub last_key : Option String → List Step → Option String
last_key found [] = found
last_key found (at_key k ∷ path) = last_key (some k) path
last_key found (at_position n ∷ path) = last_key found path

-- `_is_streaming_path`
unfoldable pub is_streaming_path : List Step → Bool
unfolding last_key
is_streaming_path path = elim (last_key none path) [
  | none ↦ false
  | some leaf ↦ is_one_of streaming_leaves leaf
]

-- `isinstance(declared, int) and not isinstance(declared, bool)`, with the value
abbrev pub declared_index : {F : Type 0} → Option (Json F) → Option ℤ
declared_index (some (int n)) = some n
declared_index _ = none

abbrev pub or_else : Option ℤ → Option ℤ → Option ℤ
or_else (some n) other = some n
or_else none other = other

-- a value redacted, the pool after it, and whether a text was carried
pub record Redacted (R A : Type 0) : Type 0 where
  pub value : A
  pub pool : List (Key × R)
  pub carried : Bool

abbrev pub untouched : {R A : Type 0} → A → List (Key × R) → Redacted R A
untouched value pool = record { value = value; pool = pool; carried = false }

module _ {F R : Type 0} (red : Redaction R) where
  -- the case of a text that is not empty
  unfoldable pub redact_text : String → List (Key × R) → List Step → Option ℤ → Redacted R (Json F)
  unfolding is_streaming_path feed redact_once
  redact_text text pool path choice =
      let (out, pool') = feed red (streamed choice path) text pool in
      if is_streaming_path path
      then record { value = str out; pool = pool'; carried = true }
      else record { value = str (redact_once red text); pool = pool; carried = true }

  -- `_redact_node`, and its loops over a list and over a dictionary
  unfoldable mutual
    unfolding redact_text is_structural

    pub redact_node : Json F → List (Key × R) → List Step → Option ℤ → Redacted R (Json F)
    redact_node (obj fs) pool path choice =
        let done = redact_fields fs pool path (or_else (declared_index (get "index" fs)) choice) in
        record { value = obj done.value; pool = done.pool; carried = done.carried }
    redact_node (arr xs) pool path choice =
        let done = redact_items xs zero pool path choice in
        record { value = arr done.value; pool = done.pool; carried = done.carried }
    redact_node (str text) pool path choice =
        if str_eq text "" then untouched (str text) pool else redact_text text pool path choice
    redact_node null pool path choice = untouched null pool
    redact_node (bool b) pool path choice = untouched (bool b) pool
    redact_node (int n) pool path choice = untouched (int n) pool
    redact_node (float x) pool path choice = untouched (float x) pool

    pub redact_items : Items F → ℕ → List (Key × R) → List Step → Option ℤ → Redacted R (Items F)
    redact_items nil position pool path choice = untouched nil pool
    redact_items (cons v vs) position pool path choice =
        let first = redact_node v pool (path ++ at_position position ∷ []) choice in
        let rest = redact_items vs (suc position) first.pool path choice in
        record {
          value = cons first.value rest.value;
          pool = rest.pool;
          carried = first.carried || rest.carried;
        }

    pub redact_fields : Fields F → List (Key × R) → List Step → Option ℤ → Redacted R (Fields F)
    redact_fields end pool path choice = untouched end pool
    redact_fields (field k v fs) pool path choice =
        let inner = redact_node v pool (path ++ at_key k ∷ []) choice in
        let first = if is_structural k then untouched v pool else inner in
        let rest = redact_fields fs first.pool path choice in
        record {
          value = field k first.value rest.value;
          pool = rest.pool;
          carried = first.carried || rest.carried;
        }

  -- `redact_payload`
  unfoldable pub redact_payload : Fields F → List (Key × R) → Redacted R (Json F)
  unfolding redact_node
  redact_payload payload pool = redact_node (obj payload) pool [] none

module _ {F : Type 0} where
  -- `_payload_text_length`
  unfoldable mutual
    unfolding text_length is_structural

    pub payload_text_length : Json F → ℕ
    payload_text_length (obj fs) = fields_text_length fs
    payload_text_length (arr xs) = items_text_length xs
    payload_text_length (str text) = text_length text
    payload_text_length _ = 0

    pub items_text_length : Items F → ℕ
    items_text_length nil = 0
    items_text_length (cons v vs) = payload_text_length v + items_text_length vs

    pub fields_text_length : Fields F → ℕ
    fields_text_length end = 0
    fields_text_length (field k v fs) =
        if is_structural k
        then fields_text_length fs
        else payload_text_length v + fields_text_length fs

  -- `_has_non_text_structure`
  unfoldable mutual
    unfolding is_structural

    pub has_non_text_structure : Json F → Bool
    has_non_text_structure (obj fs) = fields_have_structure fs
    has_non_text_structure (arr xs) = items_have_structure xs
    has_non_text_structure (int n) = true
    has_non_text_structure (float x) = true
    has_non_text_structure _ = false

    pub items_have_structure : Items F → Bool
    items_have_structure nil = false
    items_have_structure (cons v vs) = has_non_text_structure v || items_have_structure vs

    pub fields_have_structure : Fields F → Bool
    fields_have_structure end = false
    fields_have_structure (field k v fs) =
        (is_structural k && not (str_eq "index" k || str_eq "type" k))
        || (has_non_text_structure v || fields_have_structure fs)

  -- `choice.get("finish_reason") is not None`, of a choice that is a dictionary
  abbrev pub is_finished : Json F → Bool
  is_finished (obj choice) = elim (get "finish_reason" choice) [
    | none ↦ false
    | some null ↦ false
    | some v ↦ true
  ]
  is_finished _ = false

  -- `payload.get("choices", []) or []`, as the dictionaries that a loop over it meets; `none` is the
  -- TypeError of a value that cannot be looped over. The keys of a dictionary and the characters of a
  -- text are no dictionaries.
  unfoldable pub choices_of : (F → Bool) → Option (Json F) → Option (Items F)
  choices_of is_zero none = some nil
  choices_of is_zero (some (arr xs)) = some xs
  choices_of is_zero (some (obj fs)) = some nil
  choices_of is_zero (some (str text)) = some nil
  choices_of is_zero (some null) = some nil
  choices_of is_zero (some (bool b)) = if b then none else some nil
  choices_of is_zero (some (int (pos n))) = if n == 0 then some nil else none
  choices_of is_zero (some (int (negsuc n))) = none
  choices_of is_zero (some (float x)) = if is_zero x then some nil else none

  unfoldable pub any_finished : Items F → Bool
  any_finished nil = false
  any_finished (cons v vs) = is_finished v || any_finished vs

  -- `_chunk_has_content`
  unfoldable pub chunk_has_content : (F → Bool) → Fields F → Option Bool
  unfolding choices_of any_finished payload_text_length has_non_text_structure
  chunk_has_content is_zero payload = elim (choices_of is_zero (get "choices" payload)) [
    | none ↦ none
    | some choices ↦ some (
        any_finished choices
        || (ltb 0 (payload_text_length (obj payload)) || has_non_text_structure (obj payload)))
  ]

  abbrev pub index_of_choice : Json F → ℕ → ℤ
  index_of_choice (obj choice) position = elim (declared_index (get "index" choice)) [
    | none ↦ pos position
    | some n ↦ n
  ]
  index_of_choice _ position = pos position

  -- the loop of `_finished_choice_indexes`
  unfoldable pub finished_from : ℕ → Items F → List ℤ
  finished_from position nil = []
  finished_from position (cons v vs) =
      let rest = finished_from (suc position) vs in
      if is_finished v then index_of_choice v position ∷ rest else rest

  -- `_finished_choice_indexes`
  unfoldable pub finished_choice_indexes : (F → Bool) → Fields F → Option (List ℤ)
  unfolding choices_of finished_from
  finished_choice_indexes is_zero payload = elim (choices_of is_zero (get "choices" payload)) [
    | none ↦ none
    | some choices ↦ some (finished_from zero choices)
  ]
