-- ===== src/Json.antt =====
-- The values that `json.loads` returns, as the handlers of the gateway and the router read them.
-- `F` is the type of Python's floats, which this library does not look into.
use fde_assessment.Base.{String, Bool, Option, none, some, if◌then◌else◌, ◌≡◌, refl, arith, eq_iff}
use fde_assessment.Base.Int.{ℤ}
use text.Mathlib.Text.{◌==◌}

mutual
  pub data Json (F : Type 0) : Type 0 where
    null : Json F
    bool : Bool → Json F
    int : ℤ → Json F
    float : F → Json F
    str : String → Json F
    arr : Items F → Json F
    obj : Fields F → Json F

  pub data Items (F : Type 0) : Type 0 where
    nil : Items F
    cons : Json F → Items F → Items F

  pub data Fields (F : Type 0) : Type 0 where
    end : Fields F
    field : String → Json F → Fields F → Fields F

module _ {F : Type 0} where
  -- `d.get(k)`, and `k in d`
  abbrev pub get : String → Fields F → Option (Json F)
  get k end = none
  get k (field j v fs) = if j == k then some v else get k fs

  -- `{**d, k: v}`, and `d[k] = v`: a key that is there keeps its place
  unfoldable pub put : String → Json F → Fields F → Fields F
  put k v end = field k v end
  put k v (field j w fs) = if j == k then field j v fs else field j w (put k v fs)

  pub get-put :
      (k j : String) (v : Json F) (fs : Fields F)
      → get j (put k v fs) ≡ (if k == j then some v else get j fs)
  unfolding put
  get-put k j v end = refl
  get-put k j v (field i w fs) =
      ground (arith, eq_iff k j, eq_iff i k, eq_iff i j, get-put k j v fs)
