-- ===== src/Server/Drain/Counts.antt =====
-- What `Counter` counts: task1_mcp_server/server.py.
use fde_assessment.Base.{
  ℕ, ◌+◌, ◌<◌, ◌≡◌, inl, inr, refl, sym, ap, ◌∙◌, subst, true, false, List, [], ◌∷◌, if◌then◌else◌,
  leb, arith, Bool-cases, eq_iff,
}
use fde_assessment.Base.Int.{int_eq_sound, int_eq_refl}
use fde_assessment.Server.Frames.{RequestId, text_id, int_id, id_eq}
use fde_assessment.Server.Drain.{get_count, increment, decrement, is_empty}

pub id_eq_sound : (a b : RequestId) → id_eq a b ≡ true → a ≡ b
id_eq_sound (text_id a) (text_id b) h = ap text_id ((eq_iff a b).0 h)
id_eq_sound (text_id a) (int_id b) h = absurd (ground (arith, h))
id_eq_sound (int_id a) (text_id b) h = absurd (ground (arith, h))
id_eq_sound (int_id a) (int_id b) h = ap int_id (int_eq_sound a b h)

pub id_eq_refl : (a : RequestId) → id_eq a a ≡ true
id_eq_refl (text_id a) = (eq_iff a a).1 refl
id_eq_refl (int_id a) = int_eq_refl a

-- 1 for the same key, 0 for another
abbrev pub one_if : RequestId → RequestId → ℕ
one_if j k = if id_eq j k then 1 else 0

-- no key twice, and none with a count of 0
abbrev pub IsCounter : List (RequestId × ℕ) → Type 0
IsCounter [] = Unit
IsCounter ((j, n) ∷ rest) = (0 < n) × (get_count j rest ≡ 0) × IsCounter rest

-- a key is not the same as two that differ
apart : (i k j : RequestId) → id_eq i k ≡ false → id_eq i j ≡ true → id_eq k j ≡ false
apart i k j other here = elim (Bool-cases (id_eq k j)) [
  | inr differs ↦ differs
  | inl same ↦
      let e : i ≡ k = id_eq_sound i j here ∙ sym (id_eq_sound k j same) in
      absurd (ground (arith, id_eq_refl k, subst (λ x. id_eq x k ≡ false) e other))
]

module _ (k : RequestId) where
  pub get_count-increment :
      (j : RequestId) (m : List (RequestId × ℕ))
      → get_count j (increment k m) ≡ get_count j m + one_if k j
  unfolding increment
  get_count-increment j [] = ground arith
  get_count-increment j ((i, n) ∷ rest) = elim (Bool-cases (id_eq i k)) [
    | inl same ↦ rw (same, id_eq_sound i k same) (ground arith)
    | inr other ↦ elim (Bool-cases (id_eq i j)) [
      | inl here ↦ rw (other, here, apart i k j other here) (omega arith)
      | inr there ↦ rw (other, there) (get_count-increment j rest)
    ]
  ]

  pub increment-IsCounter : (m : List (RequestId × ℕ)) → IsCounter m → IsCounter (increment k m)
  unfolding increment
  increment-IsCounter [] h = (omega arith, refl, tt)
  increment-IsCounter ((i, n) ∷ rest) h = elim (Bool-cases (id_eq i k)) [
    | inl same ↦ rw same (omega arith, h.1, h.2)
    | inr other ↦
        let none_here : one_if k i ≡ 0 = rw (apart i k i other (id_eq_refl i)) refl in
        rw other (
          h.0,
          omega (arith, get_count-increment i rest, h.1, none_here),
          increment-IsCounter rest h.2,
        )
  ]

  pub get_count-decrement :
      (j : RequestId) (m : List (RequestId × ℕ))
      → IsCounter m
      → 0 < get_count k m
      → get_count j (decrement k m) + one_if k j ≡ get_count j m
  unfolding decrement
  get_count-decrement j [] h some' = absurd (omega arith)
  get_count-decrement j ((i, n) ∷ rest) h some' = elim (Bool-cases (id_eq i k)) [
    | inl same ↦
        let e = id_eq_sound i k same in
        let last = subst (λ x. get_count x rest ≡ 0) e h.1 in
        elim (Bool-cases (leb n 1)) [
          | inl one ↦ elim (Bool-cases (id_eq k j)) [
            | inl here ↦
                let gone = subst (λ x. get_count x rest ≡ 0) (id_eq_sound k j here) last in
                rw (same, one, e, here) (ground (arith, h.0, gone))
            | inr there ↦ rw (same, one, e, there) (omega arith)
          ]
          | inr more ↦ elim (Bool-cases (id_eq k j)) [
            | inl here ↦ rw (same, more, e, here) (ground (arith, h.0))
            | inr there ↦ rw (same, more, e, there) (omega arith)
          ]
        ]
    | inr other ↦
        let later = rw other at some' in
        elim (Bool-cases (id_eq i j)) [
          | inl here ↦ rw (other, here, apart i k j other here) (omega arith)
          | inr there ↦ rw (other, there) (get_count-decrement j rest h.2 later)
        ]
  ]

  pub decrement-IsCounter :
      (m : List (RequestId × ℕ)) → IsCounter m → 0 < get_count k m → IsCounter (decrement k m)
  unfolding decrement
  decrement-IsCounter [] h some' = tt
  decrement-IsCounter ((i, n) ∷ rest) h some' = elim (Bool-cases (id_eq i k)) [
    | inl same ↦ elim (Bool-cases (leb n 1)) [
      | inl one ↦ rw (same, one) h.2
      | inr more ↦ rw (same, more) (ground arith, h.1, h.2)
    ]
    | inr other ↦
        let later = rw other at some' in
        rw other (
          h.0,
          omega (arith, get_count-decrement i rest h.2 later, h.1),
          decrement-IsCounter rest h.2 later,
        )
  ]

-- where every count is 0 there is no key
pub counts_none :
    (m : List (RequestId × ℕ))
    → IsCounter m
    → ((k : RequestId) → get_count k m ≡ 0)
    → is_empty m ≡ true
counts_none [] h zero_all = refl
counts_none ((i, n) ∷ rest) h zero_all =
    let here : n ≡ 0 = rw (id_eq_refl i) at (zero_all i) in absurd (omega (arith, h.0))
