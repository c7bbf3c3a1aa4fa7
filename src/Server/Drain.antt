-- ===== src/Server/Drain.antt =====
-- The count of requests in flight: `DrainTracker` and `_drain_grace_ms` of task1_mcp_server/server.py.
-- A `Counter` is the list of its keys with their counts. Floats are a parameter, with the comparisons
-- that the code makes of them.
pub mod Counts
pub mod Grace
use fde_assessment.Base.{
  ℕ, ◌+◌, ◌-◌, Bool, true, false, ◌||◌, Option, none, some, List, [], ◌∷◌, String, if◌then◌else◌,
  ltb, leb,
}
use fde_assessment.Server.Frames.{RequestId, id_eq}

pub record Tracker : Type 0 where
  pub pending : List (RequestId × ℕ)
  -- `self._idle.is_set()`
  pub idle : Bool

abbrev pub new_tracker : Tracker
new_tracker = record { pending = []; idle = true }

-- `self._pending.get(k)`, 0 where it is not there
abbrev pub get_count : RequestId → List (RequestId × ℕ) → ℕ
get_count k [] = 0
get_count k ((j, n) ∷ rest) = if id_eq j k then n else get_count k rest

-- `self._pending[k] += 1`
unfoldable pub increment : RequestId → List (RequestId × ℕ) → List (RequestId × ℕ)
increment k [] = (k, 1) ∷ []
increment k ((j, n) ∷ rest) = if id_eq j k then (j, n + 1) ∷ rest else (j, n) ∷ increment k rest

-- `self._pending[k] -= 1`, and `del self._pending[k]` where nothing is left
unfoldable pub decrement : RequestId → List (RequestId × ℕ) → List (RequestId × ℕ)
decrement k [] = []
decrement k ((j, n) ∷ rest) =
    let fewer = if leb n 1 then rest else (j, n - 1) ∷ rest in
    if id_eq j k then fewer else (j, n) ∷ decrement k rest

abbrev pub is_empty : List (RequestId × ℕ) → Bool
is_empty [] = true
is_empty (_ ∷ _) = false

-- `dispatched`, with a new event that is not set
unfoldable pub dispatched : RequestId → Tracker → Tracker
unfolding increment
dispatched k t = record { pending = increment k t.pending; idle = false }

-- `answered`
unfoldable pub answered : RequestId → Tracker → Tracker
unfolding decrement
answered k t =
    let left = if ltb 0 (get_count k t.pending) then decrement k t.pending else t.pending in
    record { pending = left; idle = is_empty left || t.idle }

-- `is_outstanding`
abbrev pub is_outstanding : RequestId → Tracker → Bool
is_outstanding k t = ltb 0 (get_count k t.pending)

-- `wait_idle`: at once where nothing is pending, else by the event, unless the timeout wins
unfoldable pub wait_idle : Tracker → Bool → Bool
wait_idle t timed_out = if is_empty t.pending then true else if timed_out then false else t.idle

-- what `float(raw)` gives, and the comparisons of floats; `below a b` is `a < b`
pub record Floats (F : Type 0) : Type 0 where
  pub read : String → Option F
  pub is_nan : F → Bool
  pub below : F → F → Bool
  pub zero_ms : F
  pub min_drain_ms : F
  pub max_drain_ms : F

module _ {F : Type 0} (floats : Floats F) where
  -- `min(value, _MAX_DRAIN_MS)`
  abbrev pub at_most_max : F → F
  at_most_max value = if floats.below floats.max_drain_ms value then floats.max_drain_ms else value

  abbrev pub clamp_grace : Option F → F
  clamp_grace none = floats.min_drain_ms
  clamp_grace (some value) =
      if floats.is_nan value || floats.below value floats.zero_ms
      then floats.min_drain_ms
      else if floats.below value floats.min_drain_ms
      then floats.min_drain_ms
      else at_most_max value

  -- `_drain_grace_ms`, on the variable's value
  unfoldable pub drain_grace_ms : Option String → F
  drain_grace_ms none = clamp_grace (floats.read "250")
  drain_grace_ms (some raw) = clamp_grace (floats.read raw)
