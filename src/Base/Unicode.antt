-- ===== src/Base/Unicode.antt =====
-- What the source takes from Python's `str`: methods that rest on the Unicode tables, and those
-- that follow from them by a loop over the characters.
use Prim.Native.Nat.{ℕ, suc, ◌+◌, ◌*◌}
use Prim.Native.Char.{Char, code}
use Prim.Native.String.{String, [], ◌∷◌}
use mathlib.Core.Bool.{Bool, true, false, ◌&&◌}
use mathlib.Core.Option.{Option, none, some}
use text.Mathlib.Text.{◌==◌ as str_eq}
use fde_assessment.Base.Tests.{ltb, if◌then◌else◌}

pub record Unicode : Type 0 where
  pub strip : String → String
  pub casefold : String → String
  pub lower : String → String
  pub is_printable : Char → Bool
  -- the characters of `isdigit`, and the value of those that `int` and `float` read
  pub is_digit : Char → Bool
  pub decimal : Char → Option ℕ

-- `s.isascii()`
unfoldable pub is_ascii : String → Bool
is_ascii [] = true
is_ascii (c ∷ s) = ltb (code c) 128 && is_ascii s

-- `len(s)`, in code points
unfoldable pub text_length : String → ℕ
text_length [] = 0
text_length (c ∷ s) = suc (text_length s)

module _ (u : Unicode) where
  abbrev pub all_digits : String → Bool
  all_digits [] = true
  all_digits (c ∷ s) = u.is_digit c && all_digits s

  -- `s.isdigit()`
  unfoldable pub isdigit : String → Bool
  isdigit s = if str_eq s "" then false else all_digits s

  read_digits : ℕ → String → Option ℕ
  read_digits n [] = some n
  read_digits n (c ∷ s) = elim (u.decimal c) [ none ↦ none | some d ↦ read_digits (n * 10 + d) s ]

  -- `int(s)` and `float(s)` of a text that passes `isdigit`; `none` is the ValueError
  unfoldable pub read_number : String → Option ℕ
  unfolding read_digits
  read_number s = read_digits 0 s

-- one text after another, as an f-string and `join` put them
abbrev pub joined : String → String → String
joined [] t = t
joined (c ∷ s) t = c ∷ joined s t
