-- ===== src/Router/Providers/Outgoing.antt =====
-- The body that goes to a provider, against the estimate that was reserved: `payload_out` of
-- router.py and `estimate_request_tokens` of tokens.py.
use fde_assessment.Base.{
  is_some, ℕ, ◌≤◌, ◌<◌, ◌≡◌, refl, String, Bool, true, false, not, ◌&&◌, ◌||◌, Option, none, some,
  any, all, All, arith, Bool-cases, inl, inr,
}
use fde_assessment.Base.Int.{pos}
use fde_assessment.Json.{Json, Fields, null, int, get, get-put}
use fde_assessment.Router.Providers.{ProviderConfig, is_int, completion_caps, outgoing}
use fde_assessment.Router.Tokens.{
  Runtime, positive_int, positive_of, positive_field, larger, requested_max, completion_ceiling,
}

-- no more than `n`, if there is a number
abbrev pub CappedBy : Option ℕ → ℕ → Type 0
CappedBy none n = Unit
CappedBy (some m) n = m ≤ n

positive_of-not_int : {F : Type 0} (o : Option (Json F)) → is_int o ≡ false → positive_of o ≡ none
unfolding positive_int
positive_of-not_int none h = refl
positive_of-not_int (some (int n)) h = absurd (cc)
positive_of-not_int (some null) h = refl
positive_of-not_int (some v) h = refl

-- the largest of three caps is no smaller than any of them
largest_caps :
    (a b c : Option ℕ) (n : ℕ)
    → let top : ℕ = elim (larger (larger a b) c) [ some m ↦ m | none ↦ n ] in
      CappedBy a top × CappedBy b top × CappedBy c top
largest_caps none none none n = (tt, tt, tt)
largest_caps none none (some z) n = omega arith
largest_caps none (some y) none n = omega arith
largest_caps none (some y) (some z) n = omega arith
largest_caps (some x) none none n = omega arith
largest_caps (some x) none (some z) n = omega arith
largest_caps (some x) (some y) none n = omega arith
largest_caps (some x) (some y) (some z) n = omega arith

some_positive :
    (i j k x y z : Bool)
    → (i || (j || (k || false))) ≡ true
    → ((not i || x) && ((not j || y) && ((not k || z) && true))) ≡ true
    → (x || (y || (z || false))) ≡ true
some_positive i j k x y z h g = ground arith

none_of_three :
    (i j k : Bool) → (i || (j || (k || false))) ≡ false → (i ≡ false) × (j ≡ false) × (k ≡ false)
none_of_three i j k h = ground arith

no_positive :
    (a b c : Option ℕ)
    → (not (is_some a) && (not (is_some b) && (not (is_some c) && true))) ≡ true
    → (a ≡ none) × (b ≡ none) × (c ≡ none)
no_positive a b c h = ground arith

module _ {F : Type 0} (rt : Runtime F) (ceiling : ℕ) (p : ProviderConfig) (body : Fields F) where
  abbrev has_int_cap : Bool
  has_int_cap = any (λ cap. is_int (get cap body)) completion_caps

  -- a body that has an int under one of the names keeps its caps
  kept_caps :
      has_int_cap ≡ true
      → (get "max_tokens" (outgoing ceiling p body) ≡ get "max_tokens" body)
        × (get "max_completion_tokens" (outgoing ceiling p body) ≡ get "max_completion_tokens" body)
        × (get "max_output_tokens" (outgoing ceiling p body) ≡ get "max_output_tokens" body)
  unfolding outgoing
  kept_caps h = simp get-put (rw h (simp get-put (refl, refl, refl)))

  -- any other body gets the ceiling under the first name
  added_cap :
      has_int_cap ≡ false
      → (get "max_tokens" (outgoing ceiling p body) ≡ some (int (pos ceiling)))
        × (get "max_completion_tokens" (outgoing ceiling p body) ≡ get "max_completion_tokens" body)
        × (get "max_output_tokens" (outgoing ceiling p body) ≡ get "max_output_tokens" body)
  unfolding outgoing
  added_cap h = simp get-put (rw h (simp get-put (refl, refl, refl)))

  -- the caps of the body that leaves
  abbrev pub sent : String → Option ℕ
  sent cap = positive_field cap (outgoing ceiling p body)

  abbrev pub reserved : ℕ
  reserved = completion_ceiling rt ceiling none body

  caps_reserved :
      CappedBy (positive_field "max_tokens" body) reserved
      × CappedBy (positive_field "max_completion_tokens" body) reserved
      × CappedBy (positive_field "max_output_tokens" body) reserved
  unfolding completion_ceiling requested_max
  caps_reserved =
      largest_caps (positive_field "max_tokens" body) (positive_field "max_completion_tokens" body)
        (positive_field "max_output_tokens" body) ceiling

  default_reserved :
      (positive_field "max_tokens" body ≡ none)
      → (positive_field "max_completion_tokens" body ≡ none)
      → (positive_field "max_output_tokens" body ≡ none)
      → reserved ≡ ceiling
  unfolding completion_ceiling requested_max
  default_reserved a b c = rw (a, b, c, completion_ceiling)

  -- If every int that the caller sets as a completion cap is positive, and so is the default, then
  -- the body that goes to any provider has a cap, and each cap in it is at most the ceiling that was
  -- reserved.
  pub outgoing_is_capped :
      0 < ceiling
      → all
          (λ cap. not (is_int (get cap body)) || is_some (positive_field cap body))
          completion_caps
        ≡ true
      → (any (λ cap. is_some (sent cap)) completion_caps ≡ true)
        × All (λ cap. CappedBy (sent cap) reserved) completion_caps
  outgoing_is_capped default_positive positive = elim (Bool-cases has_int_cap) [
    | inl capped ↦
        let (a, b, c) = kept_caps capped in
        let (x, y, z) = caps_reserved in
        rw (a, b, c)
          (
            some_positive (is_int (get "max_tokens" body))
                (is_int (get "max_completion_tokens" body)) (is_int (get "max_output_tokens" body))
                (is_some (positive_field "max_tokens" body))
                (is_some (positive_field "max_completion_tokens" body))
                (is_some (positive_field "max_output_tokens" body)) capped positive,
            (x, (y, (z, tt))),
          )
    | inr uncapped ↦
        let (a, b, c) = added_cap uncapped in
        let (i, j, k) =
          none_of_three (is_int (get "max_tokens" body)) (is_int (get "max_completion_tokens" body))
            (is_int (get "max_output_tokens" body)) uncapped in
        let x = positive_of-not_int (get "max_tokens" body) i in
        let y = positive_of-not_int (get "max_completion_tokens" body) j in
        let z = positive_of-not_int (get "max_output_tokens" body) k in
        rw (a, b, c, y, z, default_reserved x y z) (unfold positive_int in ground arith)
  ]

  -- Where an int is set as a cap and none that is set is positive, the body goes out with no
  -- positive cap, while the default ceiling is what was reserved.
  pub outgoing_uncapped :
      has_int_cap ≡ true
      → all (λ cap. not (is_some (positive_field cap body))) completion_caps ≡ true
      → (any (λ cap. is_some (sent cap)) completion_caps ≡ false) × (reserved ≡ ceiling)
  outgoing_uncapped capped none_positive =
      let (a, b, c) = kept_caps capped in
      let (x, y, z) =
        no_positive (positive_field "max_tokens" body) (positive_field "max_completion_tokens" body)
          (positive_field "max_output_tokens" body) none_positive in
      rw (a, b, c, x, y, z) (refl, default_reserved x y z)
