-- ===== src/Guardrail/Redactor/Cards/Checksum.antt =====
-- What the checksum of `_luhn_ok` catches: task3_streaming_guardrail/redactor.py.
use mathlib.Core.List.{reverse, reverse-append, map-append, append_assoc}
use fde_assessment.Base.{
  ℕ, ◌+◌, ◌*◌, ◌%◌, ◌≤◌, ◌≡◌, ◌≢◌, ◌⊎◌, inl, inr, ◌∙◌, refl, Bool, true, false, not, List, [], ◌∷◌,
  ◌++◌, map, if◌then◌else◌, ltb, arith, Bool-cases,
}
use fde_assessment.Guardrail.Redactor.{Text, Unicode}
use fde_assessment.Guardrail.Redactor.Cards.{digits_of, doubled, luhn_total, luhn_ok}

-- what a digit adds to the total
abbrev weight : Bool → ℕ → ℕ
weight odd d = if odd then doubled d else d

-- the parity after some digits
abbrev after : Bool → List ℕ → Bool
after odd [] = odd
after odd (d ∷ ds) = after (not odd) ds

luhn_total-append :
    (odd : Bool) (xs ys : List ℕ)
    → luhn_total odd (xs ++ ys) ≡ luhn_total odd xs + luhn_total (after odd xs) ys
unfolding luhn_total
luhn_total-append odd [] ys = omega arith
luhn_total-append odd (x ∷ xs) ys = omega (arith, luhn_total-append (not odd) xs ys)

weight_injective :
    (odd : Bool) (c d : ℕ) → c ≤ 9 → d ≤ 9 → weight odd c % 10 ≡ weight odd d % 10 → c ≡ d
weight_injective true c d p q e = ground arith
weight_injective false c d p q e = ground arith

-- one of the two digits is 0 and the other 9
abbrev pub IsNineZero : ℕ → ℕ → Type 0
IsNineZero c d = ((c ≡ 9) × (d ≡ 0)) ⊎ ((c ≡ 0) × (d ≡ 9))

weight_swap_odd :
    (c d : ℕ)
    → c ≤ 9
    → d ≤ 9
    → (doubled c + d) % 10 ≡ (doubled d + c) % 10
    → (c ≡ d) ⊎ IsNineZero c d
weight_swap_odd c d p q e = elim (Bool-cases (ltb 9 (c * 2))) [
  | inl big ↦ elim (Bool-cases (ltb 9 (d * 2))) [
    | inl big' ↦ inl (ground arith)
    | inr small ↦ inr (inl (ground arith, ground arith))
  ]
  | inr small ↦ elim (Bool-cases (ltb 9 (d * 2))) [
    | inl big ↦ inr (inr (ground arith, ground arith))
    | inr small' ↦ inl (ground arith)
  ]
]

weight_swap :
    (odd : Bool) (c d : ℕ)
    → c ≤ 9
    → d ≤ 9
    → (weight odd c + weight (not odd) d) % 10 ≡ (weight odd d + weight (not odd) c) % 10
    → (c ≡ d) ⊎ IsNineZero c d
weight_swap true c d p q e = weight_swap_odd c d p q e
weight_swap false c d p q e = weight_swap_odd c d p q (omega arith)

-- the total of a text around one digit, and around two
module _ (u : Unicode) (pre post : Text) where
  abbrev left : List ℕ
  left = reverse (map u.value (digits_of u post))

  abbrev right : List ℕ
  right = reverse (map u.value (digits_of u pre))

  keep-append : (xs ys : Text) → digits_of u (xs ++ ys) ≡ digits_of u xs ++ digits_of u ys
  keep-append [] ys = refl
  keep-append (x ∷ xs) ys = ground (arith, keep-append xs ys)

  values_around :
      (mid : Text)
      → reverse (map u.value (digits_of u (pre ++ (mid ++ post))))
        ≡ left ++ (reverse (map u.value (digits_of u mid)) ++ right)
  values_around mid = simp (keep-append, map-append, reverse-append, append_assoc)

  total_around :
      (mid : Text)
      → luhn_total false (reverse (map u.value (digits_of u (pre ++ (mid ++ post)))))
        ≡ luhn_total false left
          + (luhn_total (after false left) (reverse (map u.value (digits_of u mid)))
              + luhn_total
                  (after (after false left) (reverse (map u.value (digits_of u mid))))
                  right)
  total_around mid = rw (values_around mid, luhn_total-append, luhn_total-append)

luhn_ok-total :
    (u : Unicode) (text : Text)
    → luhn_ok u text ≡ true
    → luhn_total false (reverse (map u.value (digits_of u text))) % 10 ≡ 0
unfolding luhn_ok
luhn_ok-total u text e = ground arith

module _ (u : Unicode) (pre post : Text) (c d : ℕ) (c_digit : u.is_digit c ≡ true)
    (d_digit : u.is_digit d ≡ true) (c_small : u.value c ≤ 9) (d_small : u.value d ≤ 9) where
  total_one :
      (x : ℕ)
      → u.is_digit x ≡ true
      → luhn_total false (reverse (map u.value (digits_of u (pre ++ x ∷ post))))
        ≡ luhn_total false (left u pre post)
          + (weight (after false (left u pre post)) (u.value x)
              + luhn_total (not (after false (left u pre post))) (right u pre post))
  unfolding luhn_total
  total_one x digit = total_around u pre post (x ∷ []) ∙ rw digit (omega arith)

  -- A text that passes the checksum stops passing it when one digit is replaced by a digit of another
  -- value.
  pub luhn_ok_detects_digit :
      u.value c ≢ u.value d
      → luhn_ok u (pre ++ c ∷ post) ≡ true
      → luhn_ok u (pre ++ d ∷ post) ≡ false
  luhn_ok_detects_digit differs good = elim (Bool-cases (luhn_ok u (pre ++ d ∷ post))) [
    | inr bad ↦ bad
    | inl good' ↦
        let one = luhn_ok-total u (pre ++ c ∷ post) good in
        let other = luhn_ok-total u (pre ++ d ∷ post) good' in
        let first = total_one c c_digit in
        let second = total_one d d_digit in
        absurd (
          differs (
            weight_injective (after false (left u pre post)) (u.value c) (u.value d) c_small d_small
              (omega arith)))
  ]

  total_two :
      (x y : ℕ)
      → u.is_digit x ≡ true
      → u.is_digit y ≡ true
      → luhn_total false (reverse (map u.value (digits_of u (pre ++ x ∷ y ∷ post))))
        ≡ luhn_total false (left u pre post)
          + (weight (after false (left u pre post)) (u.value y)
              + (weight (not (after false (left u pre post))) (u.value x)
                  + luhn_total (not (not (after false (left u pre post)))) (right u pre post)))
  unfolding luhn_total
  total_two x y digit digit' =
      total_around u pre post (x ∷ y ∷ []) ∙ rw (digit, digit') (omega arith)

  -- If a text passes the checksum before and after two neighbouring digits change places, they have
  -- the same value, or one is 0 and the other 9.
  pub luhn_ok_detects_swap :
      luhn_ok u (pre ++ c ∷ d ∷ post) ≡ true
      → luhn_ok u (pre ++ d ∷ c ∷ post) ≡ true
      → (u.value c ≡ u.value d) ⊎ IsNineZero (u.value c) (u.value d)
  luhn_ok_detects_swap good good' =
      let one = luhn_ok-total u (pre ++ c ∷ d ∷ post) good in
      let other = luhn_ok-total u (pre ++ d ∷ c ∷ post) good' in
      let first = total_two c d c_digit d_digit in
      let second = total_two d c d_digit c_digit in
      weight_swap (after false (left u pre post)) (u.value c) (u.value d) c_small d_small
        (omega arith)
