-- ===== src/Guardrail/Residue.antt =====
-- The chunks that carry what a flush puts out: `_is_chunk_key`, `_nest_at_path`, `_residue_chunk` and
-- `_residue_events` of task3_streaming_guardrail/gateway.py.
-- `json.loads`, `json.dumps`, `str.strip` and the test for a zero are the record `Python`; the clock,
-- which a residue shows only where no chunk has named a time, is taken to stand still.
pub mod Nested
use fde_assessment.Base.{
  ℕ, zero, suc, String, Bool, true, false, Option, none, some, List, [], ◌∷◌, if◌then◌else◌,
  is_some,
}
use fde_assessment.Base.Int.{ℤ, pos}
use fde_assessment.Json.{
  Json, Items, Fields, null, bool, int, float, str, arr, obj, nil, cons, end, field, get, put,
}
use fde_assessment.Guardrail.Sse.{SseEvent}
use fde_assessment.Guardrail.Pool.{Step, at_key, at_position, Key, raw, bare, streamed}

-- what `json.loads` comes to: a value, a JSONDecodeError, another ValueError (a number of too many
-- digits), or a RecursionError
pub data Loaded (F : Type 0) : Type 0 where
  loaded : Json F → Loaded F
  decode_error : Loaded F
  value_error : Loaded F
  too_deep : Loaded F

pub record Python (F : Type 0) : Type 0 where
  pub loads : String → Loaded F
  pub dumps : Json F → String
  pub strip : String → String
  -- `x == 0.0`
  pub is_zero : F → Bool
  -- `int(time.time())`
  pub now : ℕ

-- `encode_sse(data)`, and `encode_sse(data, event.event, event.id, event.retry)`
abbrev pub plain_event : String → SseEvent
plain_event payload = record { event = none; payload = payload; id = none; retry = none }

abbrev pub done_event : SseEvent
done_event = plain_event "[DONE]"

abbrev pub in_place_of : SseEvent → String → SseEvent
in_place_of e payload = record e { payload = payload }

-- `choice_index if isinstance(choice_index, int) else 0`
abbrev pub index_or_zero : Option ℤ → ℤ
index_or_zero none = pos 0
index_or_zero (some n) = n

module _ {F : Type 0} where
  -- `[{} for _ in range(n)] + [node]`
  unfoldable pub padded : ℕ → Json F → Items F
  padded zero node = cons node nil
  padded (suc n) node = cons (obj end) (padded n node)

  -- `_nest_at_path`
  unfoldable pub nest_at_path : List Step → Json F → Json F
  unfolding padded
  nest_at_path [] value = value
  nest_at_path (at_key k ∷ path) value = obj (field k (nest_at_path path value) end)
  nest_at_path (at_position n ∷ path) value = arr (padded n (nest_at_path path value))

  -- the layout of a text that has no path of its own
  abbrev pub delta_body : String → Fields F
  delta_body text =
      field "choices"
        (arr (cons (obj (field "delta" (obj (field "content" (str text) end)) end)) nil)) end

  -- `body` of `_residue_chunk`
  unfoldable pub residue_body : List Step → String → Fields F
  unfolding nest_at_path
  residue_body [] text = delta_body text
  residue_body (at_key k ∷ path) text = field k (nest_at_path path (str text)) end
  residue_body (at_position n ∷ path) text = delta_body text

  -- `base.get(k, default)`
  abbrev pub get_or : String → Json F → Fields F → Json F
  get_or k default base = elim (get k base) [ none ↦ default | some v ↦ v ]

  -- `{**base, **body}`
  unfoldable pub merged : Fields F → Fields F → Fields F
  unfolding put
  merged base end = base
  merged base (field k v fs) = merged (put k v base) fs

  abbrev pub put_missing : String → Json F → Fields F → Fields F
  put_missing k v fs = if is_some (get k fs) then fs else put k v fs

  -- the body of the loop that stamps the choices
  unfoldable pub stamped : Option ℤ → Json F → Json F
  unfolding put
  stamped choice (obj fs) =
      obj (put_missing "finish_reason" null (put_missing "index" (int (index_or_zero choice)) fs))
  stamped choice v = v

  unfoldable pub stamped_items : Option ℤ → Items F → Items F
  unfolding stamped
  stamped_items choice nil = nil
  stamped_items choice (cons v vs) = cons (stamped choice v) (stamped_items choice vs)

  -- the loop over `chunk.get("choices", []) or []`, which changes the choices in place
  unfoldable pub stamp_choices : Option ℤ → Fields F → Fields F
  unfolding stamped_items put
  stamp_choices choice chunk = elim (get "choices" chunk) [
    | some (arr xs) ↦ put "choices" (arr (stamped_items choice xs)) chunk
    | _ ↦ chunk
  ]

  -- `template or {}`
  abbrev pub base_of : Option (Fields F) → Fields F
  base_of none = end
  base_of (some fs) = fs

module _ {F : Type 0} (py : Python F) where
  -- the four fields that a residue takes from its siblings
  abbrev pub residue_head : Fields F → Fields F
  residue_head base = field "id" (get_or "id" (str "chatcmpl-guardrail") base) (
      field "object" (get_or "object" (str "chat.completion.chunk") base) (
        field "created" (get_or "created" (int (pos py.now)) base)
          (field "model" (get_or "model" (str "unknown") base) end)))

  -- `_residue_chunk`, for the key `(choice, *path)`
  unfoldable pub residue_chunk : Option (Fields F) → Option ℤ → List Step → String → Fields F
  unfolding stamp_choices merged residue_body
  residue_chunk template choice path text =
      stamp_choices choice (merged (residue_head (base_of template)) (residue_body path text))

  -- the body of the loop of `_residue_events`, which asks `_is_chunk_key`
  unfoldable pub residue_event : Option (Fields F) → Key × String → SseEvent
  unfolding residue_chunk
  residue_event template (streamed choice path, text) =
      plain_event (py.dumps (obj (residue_chunk template choice path text)))
  residue_event template (bare, text) = plain_event (py.dumps (str text))
  residue_event template (raw, text) = plain_event text

  -- `_residue_events`
  unfoldable pub residue_events : Option (Fields F) → List (Key × String) → List SseEvent
  unfolding residue_event
  residue_events template [] = []
  residue_events template (residue ∷ rest) =
      residue_event template residue ∷ residue_events template rest
