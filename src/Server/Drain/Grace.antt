-- ===== src/Server/Drain/Grace.antt =====
-- The bounds of the drain's timeout: `_drain_grace_ms` of task1_mcp_server/server.py.
use fde_assessment.Base.{◌≡◌, inl, inr, false, ◌||◌, Option, none, some, String, Bool-cases}
use fde_assessment.Server.Drain.{Floats, clamp_grace, drain_grace_ms}

module _ {F : Type 0} (floats : Floats F) where
  -- not below the floor, and not above the ceiling
  abbrev pub IsWithinGrace : F → Type 0
  IsWithinGrace x =
      (floats.below x floats.min_drain_ms ≡ false) × (floats.below floats.max_drain_ms x ≡ false)

  module _ (irreflexive : (x : F) → floats.below x x ≡ false)
      (ordered : floats.below floats.max_drain_ms floats.min_drain_ms ≡ false) where
    clamp_grace-IsWithinGrace : (value : Option F) → IsWithinGrace (clamp_grace floats value)
    clamp_grace-IsWithinGrace none = (irreflexive floats.min_drain_ms, ordered)
    clamp_grace-IsWithinGrace (some value) =
        elim (Bool-cases (floats.is_nan value || floats.below value floats.zero_ms)) [
          | inl bad ↦ rw bad (irreflexive floats.min_drain_ms, ordered)
          | inr number ↦ elim (Bool-cases (floats.below value floats.min_drain_ms)) [
            | inl short ↦ rw (number, short) (irreflexive floats.min_drain_ms, ordered)
            | inr enough ↦ elim (Bool-cases (floats.below floats.max_drain_ms value)) [
              | inl long ↦ rw (number, enough, long) (ordered, irreflexive floats.max_drain_ms)
              | inr fits ↦ rw (number, enough, fits) (enough, fits)
            ]
          ]
        ]

    -- Where no float is below itself and the floor is not above the ceiling, the timeout is never below
    -- the floor nor above the ceiling, whatever the variable holds: unset, no number, a NaN, negative,
    -- too small or too large.
    pub drain_grace_ms-IsWithinGrace :
        (raw : Option String) → IsWithinGrace (drain_grace_ms floats raw)
    unfolding drain_grace_ms
    drain_grace_ms-IsWithinGrace none = clamp_grace-IsWithinGrace (floats.read "250")
    drain_grace_ms-IsWithinGrace (some raw) = clamp_grace-IsWithinGrace (floats.read raw)
