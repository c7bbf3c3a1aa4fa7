-- ===== src/Guardrail/Redactor/Cards.antt =====
-- The validators: `_card_scheme`, `_luhn_ok`, `_ssn_ok` and `_is_card` of
-- task3_streaming_guardrail/redactor.py.
pub mod Checksum
use mathlib.Core.List.{reverse}
use fde_assessment.Base.{
  ℕ, ◌+◌, ◌-◌, ◌*◌, ◌%◌, Bool, true, false, not, ◌&&◌, ◌||◌, Option, none, some, List, [], ◌∷◌, map,
  keep, any, length, if◌then◌else◌, ltb, leb, ◌==◌, is_some,
}
use fde_assessment.Base.Slices.{take, drop, slice}
use fde_assessment.Guardrail.Redactor.{Text, Unicode}

pub data Scheme : Type 0 where
  visa amex mastercard discover diners jcb unionpay : Scheme

-- `a == b` on texts
abbrev pub text_eq : Text → Text → Bool
text_eq [] [] = true
text_eq (a ∷ as') (b ∷ bs) = a == b && text_eq as' bs
text_eq _ _ = false

-- `digits[:len(p)] in prefixes`
abbrev pub starts_one_of : List Text → Text → Bool
starts_one_of prefixes digits = any (λ p. text_eq (take (length p) digits) p) prefixes

-- a number read from the first digits, `int(digits[:n])`
unfoldable pub read_int : Unicode → ℕ → Text → ℕ
read_int u sofar [] = sofar
read_int u sofar (c ∷ cs) = read_int u (sofar * 10 + u.value c) cs

-- `lo <= head <= hi` where `head` is the number of the first `n` digits, or -1 if there are fewer
unfoldable pub head_between : Unicode → ℕ → ℕ → ℕ → Text → Bool
unfolding read_int
head_between u n lo hi digits =
    let head = read_int u 0 (take n digits) in leb n (length digits) && (leb lo head && leb head hi)

abbrev pub is_one_of : List ℕ → ℕ → Bool
is_one_of lengths n = any (λ k. k == n) lengths

-- `_card_scheme`, on digits: the tests in the order of the source
unfoldable pub scheme_of_digits : Unicode → Text → Option Scheme
unfolding head_between
scheme_of_digits u digits =
    let n = length digits in
    if starts_one_of ((b'4' ∷ []) ∷ []) digits && is_one_of (13 ∷ 16 ∷ 19 ∷ []) n
    then some visa
    else if starts_one_of ((b'3' ∷ b'4' ∷ []) ∷ (b'3' ∷ b'7' ∷ []) ∷ []) digits && n == 15
    then some amex
    else if (starts_one_of
            ((b'5' ∷ b'1' ∷ [])
              ∷ (b'5' ∷ b'2' ∷ [])
              ∷ (b'5' ∷ b'3' ∷ [])
              ∷ (b'5' ∷ b'4' ∷ [])
              ∷ (b'5' ∷ b'5' ∷ [])
              ∷ [])
            digits
          || head_between u 4 2221 2720 digits)
        && n == 16
    then some mastercard
    else if (starts_one_of ((b'6' ∷ b'0' ∷ b'1' ∷ b'1' ∷ []) ∷ (b'6' ∷ b'5' ∷ []) ∷ []) digits
          || head_between u 3 644 649 digits)
        && is_one_of (16 ∷ 19 ∷ []) n
    then some discover
    else if (starts_one_of ((b'3' ∷ b'6' ∷ []) ∷ (b'3' ∷ b'8' ∷ []) ∷ []) digits
          || head_between u 3 300 305 digits)
        && n == 14
    then some diners
    else if head_between u 4 3528 3589 digits && n == 16
    then some jcb
    else if starts_one_of ((b'6' ∷ b'2' ∷ []) ∷ []) digits && (leb 16 n && leb n 19)
    then some unionpay
    else none

abbrev pub all_digits : Unicode → Text → Bool
all_digits u [] = true
all_digits u (c ∷ cs) = u.is_digit c && all_digits u cs

-- `_card_scheme`; `isdigit` of an empty text is false
unfoldable pub card_scheme : Unicode → Text → Option Scheme
unfolding scheme_of_digits
card_scheme u [] = none
card_scheme u (c ∷ cs) = if all_digits u (c ∷ cs) then scheme_of_digits u (c ∷ cs) else none

-- the digits of a text, `"".join(c for c in text if c.isdigit())`
abbrev pub digits_of : Unicode → Text → Text
digits_of u text = keep u.is_digit text

-- `digit *= 2`, less 9 if that is over 9
abbrev pub doubled : ℕ → ℕ
doubled d = let e = d * 2 in if ltb 9 e then e - 9 else e

-- the loop of `_luhn_ok` over the reversed digits; `odd` is `index % 2 == 1`
unfoldable pub luhn_total : Bool → List ℕ → ℕ
luhn_total odd [] = 0
luhn_total odd (d ∷ ds) = (if odd then doubled d else d) + luhn_total (not odd) ds

-- `_luhn_ok`
unfoldable pub luhn_ok : Unicode → Text → Bool
unfolding luhn_total
luhn_ok u text =
    let digits = map u.value (digits_of u text) in
    leb 13 (length digits)
    && (leb (length digits) 19 && (luhn_total false (reverse digits) % 10 == 0))

-- `_ssn_ok`
unfoldable pub ssn_ok : Unicode → Text → Bool
ssn_ok u text =
    let digits = digits_of u text in
    let area = slice digits 0 3 in
    if not (length digits == 9)
    then false
    else not (text_eq area (b'0' ∷ b'0' ∷ b'0' ∷ []) || text_eq area (b'6' ∷ b'6' ∷ b'6' ∷ []))
      && (not (starts_one_of ((b'9' ∷ []) ∷ []) area)
          && (not (text_eq (slice digits 3 5) (b'0' ∷ b'0' ∷ []))
              && not (text_eq (drop 5 digits) (b'0' ∷ b'0' ∷ b'0' ∷ b'0' ∷ []))))

-- `_is_card`
unfoldable pub is_card : Unicode → Text → Bool
unfolding card_scheme luhn_ok
is_card u text =
    let digits = digits_of u text in
    if not (leb 13 (length digits) && leb (length digits) 19)
    then false
    else if not (is_some (card_scheme u digits))
    then false
    else luhn_ok u digits
