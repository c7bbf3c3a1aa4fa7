-- ===== src/Guardrail/Redactor/Stream/Hold.antt =====
-- Where the text is cut: `_holdback_index` and the hold of `_emit` in
-- task3_streaming_guardrail/redactor.py.
use fde_assessment.Base.{
  ℕ, zero, suc, ◌+◌, ◌-◌, ◌≤◌, ◌≡◌, ◌⊎◌, inl, inr, refl, Bool, true, false, ◌&&◌, List, [], ◌∷◌,
  length, All, if◌then◌else◌, ltb, max, arith, Bool-cases, if-both,
}
use fde_assessment.Guardrail.Redactor.{Text, Match, Config}
use fde_assessment.Guardrail.Redactor.Stream.{
  holds_at, holdback_from, holdback_index, push_hold, hold_point,
}
use fde_assessment.Guardrail.Redactor.Stream.Pieces.{IsClean}

-- a span that a cut does not go through
abbrev pub IsUncut : ℕ → Match → Type 0
IsUncut hold m = (m.stop ≤ hold) ⊎ (hold ≤ m.start)

push_hold_from : (ms : List Match) (hold : ℕ) → hold ≤ push_hold ms hold
unfolding push_hold
push_hold_from [] hold = omega arith
push_hold_from (m ∷ ms) hold =
    let next = if ltb m.start hold && ltb hold m.stop then m.stop else hold in
    let further = push_hold_from ms next in
    let here : hold ≤ next = ground arith in omega (arith, further, here)

push_hold_upto :
    (cursor end' hold : ℕ) (ms : List Match)
    → hold ≤ end'
    → IsClean cursor end' ms
    → push_hold ms hold ≤ end'
unfolding push_hold
push_hold_upto cursor end' hold [] low clean = low
push_hold_upto cursor end' hold (m ∷ ms) low clean =
    push_hold_upto m.stop end' _ ms
      (if-both (λ n. n ≤ end') (ltb m.start hold && ltb hold m.stop) m.stop hold clean.2 low)
      clean.3

-- spans that start from the hold on do not move it
push_hold_before :
    (cursor end' hold : ℕ) (ms : List Match)
    → hold ≤ cursor
    → IsClean cursor end' ms
    → (push_hold ms hold ≡ hold) × All (λ m. hold ≤ m.start) ms
unfolding push_hold
push_hold_before cursor end' hold [] low clean = (refl, tt)
push_hold_before cursor end' hold (m ∷ ms) low clean =
    let rest = push_hold_before m.stop end' hold ms (omega arith) clean.3 in
    let straight : (ltb m.start hold && ltb hold m.stop) ≡ false = ground arith in
    rw straight (rest.0, (omega arith, rest.1))

weaken_before :
    (hold hold' : ℕ) (ms : List Match)
    → hold' ≤ hold
    → All (λ m. hold ≤ m.start) ms
    → All (IsUncut hold') ms
weaken_before hold hold' [] low h = tt
weaken_before hold hold' (m ∷ ms) low h =
    (inr (omega (arith, h.0)), weaken_before hold hold' ms low h.1)

pub push_hold-IsUncut :
    (cursor end' hold : ℕ) (ms : List Match)
    → IsClean cursor end' ms
    → All (IsUncut (push_hold ms hold)) ms
unfolding push_hold
push_hold-IsUncut cursor end' hold [] clean = tt
push_hold-IsUncut cursor end' hold (m ∷ ms) clean =
    go (push_hold-IsUncut m.stop end' hold ms clean.3) (ltb m.start hold && ltb hold m.stop) refl
  where
    go :
        All (IsUncut (push_hold ms hold)) ms
        → (b : Bool) → (ltb m.start hold && ltb hold m.stop) ≡ b
        → All (IsUncut (push_hold ms (if b then m.stop else hold))) (m ∷ ms)
    go rest true straddles =
        let (same, after) = push_hold_before m.stop end' m.stop ms (omega arith) clean.3 in
        let stays : push_hold ms m.stop ≤ m.stop = omega (arith, same) in
        (inl (push_hold_from ms m.stop), weaken_before m.stop (push_hold ms m.stop) ms stays after)
    go rest false apart = elim (Bool-cases (ltb m.start hold)) [
      | inl over ↦
          let ended : m.stop ≤ hold = ground arith in
          (inl (omega (arith, ended, push_hold_from ms hold)), rest)
      | inr under ↦
          let ahead : hold ≤ m.start = ground arith in
          let (same, _) = push_hold_before m.stop end' hold ms (omega (arith, ahead)) clean.3 in
          (inr (omega (arith, ahead, same)), rest)
    ]

module _ (c : Config) where
  holdback_from-bounds :
      (left index : ℕ) (text : Text)
      → index + left ≡ length text
      → (index ≤ holdback_from c left index text) × (holdback_from c left index text ≤ length text)
  unfolding holdback_from
  holdback_from-bounds zero index text whole = (omega arith, omega arith)
  holdback_from-bounds (suc left) index text whole =
      let rest = holdback_from-bounds left (index + 1) text (omega arith) in
      if-both (λ n. (index ≤ n) × (n ≤ length text)) (holds_at c text index) index
        (holdback_from c left (index + 1) text) (omega arith, omega arith)
        (omega (arith, rest.0), rest.1)

  pub holdback_index-bounds :
      (text : Text) (start : ℕ)
      → start ≤ length text
      → (start ≤ holdback_index c text start)
        × (holdback_index c text start ≤ length text)
        × (length text ≤ c.max_holdback + holdback_index c text start)
  unfolding holdback_index
  holdback_index-bounds text start low =
      let first = max start (length text - c.max_holdback) in
      let (above, below) = holdback_from-bounds (length text - first) first text (omega arith) in
      (omega (arith, above), below, omega (arith, above))

  -- the hold lies in the text that is not context, no further from its end than the hold-back
  pub hold_point-bounds :
      (full : Text) (base : ℕ) (spans : List Match) (final : Bool)
      → base ≤ length full
      → IsClean base (length full) spans
      → (base ≤ hold_point c full base spans final)
        × (hold_point c full base spans final ≤ length full)
        × (length full ≤ c.max_holdback + hold_point c full base spans final)
  unfolding hold_point
  hold_point-bounds full base spans true low clean = (low, omega arith, omega arith)
  hold_point-bounds full base spans false low clean =
      let hold = holdback_index c full base in
      let (above, below, near) = holdback_index-bounds full base low in
      let straight : (ltb c.max_holdback (length full - hold)) ≡ false = ground arith in
      rw straight (
        omega (arith, above, push_hold_from spans hold),
        push_hold_upto base (length full) hold spans below clean,
        omega (arith, near, push_hold_from spans hold),
      )

  pub hold_point-IsUncut :
      (full : Text) (base : ℕ) (spans : List Match) (final : Bool)
      → IsClean base (length full) spans
      → All (IsUncut (hold_point c full base spans final)) spans
  unfolding hold_point
  hold_point-IsUncut full base spans true clean = all_before base (length full) spans clean
    where
      all_before :
          (cursor end' : ℕ) (ms : List Match) → IsClean cursor end' ms → All (IsUncut end') ms
      all_before cursor end' [] clean = tt
      all_before cursor end' (m ∷ ms) clean = (inl clean.2, all_before m.stop end' ms clean.3)
  hold_point-IsUncut full base spans false clean =
      push_hold-IsUncut base (length full) _ spans clean
