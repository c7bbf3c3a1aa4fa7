-- ===== src/Guardrail/Redactor.antt =====
-- The streaming redactor: task3_streaming_guardrail/redactor.py. A text is the list of its code points.
-- The `regex` engine is a parameter: for each of the three compiled expressions, its search between two
-- positions, its match of a whole stretch, and whether what is left of a text could sit inside one
-- match. So are the Unicode tables of `isdigit`, `isalnum` and `lower`, and the number that `int` reads
-- from a digit that `\d` matches (on other characters that pass `isdigit`, such as a superscript, `int`
-- raises; the expressions never match one).
pub mod Cards
pub mod Spans
pub mod Scan
pub mod Rescue
pub mod FixedPoint
pub mod Stream
mod Tests
use fde_assessment.Base.{
  ℕ, String, Bool, true, false, ◌||◌, Option, none, some, List, [], ◌∷◌, any, ◌==◌, ltb, ◌≤◌, ◌<◌,
  ◌≡◌, length, All,
}
use fde_assessment.Base.Slices.{slice}

abbrev pub Text : Type 0
Text = List ℕ

-- what the redactor reads of a match object: `start()`, `end()`, `lastgroup`
pub record Match : Type 0 where
  pub start : ℕ
  pub stop : ℕ
  pub name : String

-- `match.group()`
abbrev pub group : Text → Match → Text
group text m = slice text m.start m.stop

pub record Unicode : Type 0 where
  pub is_digit : ℕ → Bool
  pub is_alnum : ℕ → Bool
  pub lower : Text → Text
  -- `int(c)` of a decimal digit
  pub value : ℕ → ℕ

-- one compiled expression
pub record Engine : Type 0 where
  -- `search(text, pos, endpos)`
  pub search : Text → ℕ → ℕ → Option Match
  -- `fullmatch(text, pos, endpos)`
  pub fullmatch : Text → ℕ → ℕ → Option Match
  -- `match(text, pos)`
  pub match_at : Text → ℕ → Option Match
  -- `fullmatch(text, pos, partial=True) is not None`
  pub could_grow : Text → ℕ → Bool

-- the characters of `_RUN_CHARS`: the digits and what may separate their groups
abbrev pub separators : List ℕ
separators =
    32 ∷ 45 ∷ 46 ∷ 44 ∷ 95 ∷ 47 ∷ 160 ∷ 9 ∷ 10 ∷ 13 ∷ 8208 ∷ 8209 ∷ 8210 ∷ 8211 ∷ 8212 ∷ 8722 ∷ []

abbrev pub is_run_char : ℕ → Bool
is_run_char c = any (λ s. s == c) (48 ∷ 49 ∷ 50 ∷ 51 ∷ 52 ∷ 53 ∷ 54 ∷ 55 ∷ 56 ∷ 57 ∷ separators)

pub record Config : Type 0 where
  pub unicode : Unicode
  pub combined : Engine
  -- `_keyword_ssn`, and its `finditer(text, pos)`
  pub keyword_ssn : Engine
  pub find_keyword_ssn : Text → ℕ → List Match
  pub rescue : Option Engine
  -- `self._validators.get(name)`
  pub validator : String → Option (Text → Bool)
  pub placeholder : Text
  pub max_holdback : ℕ
  -- `ch in self._first_chars`
  pub is_first_char : ℕ → Bool

-- a match that lies between two positions and is not empty
abbrev pub IsWithin : ℕ → ℕ → Match → Type 0
IsWithin lo hi m = (lo ≤ m.start) × (m.start < m.stop) × (m.stop ≤ hi)

-- what the documentation of `regex` says of where a match lies, for an expression that matches no
-- empty stretch
pub record IsLawful (e : Engine) : Type 0 where
  pub search_within :
      (text : Text) (pos endpos : ℕ) (m : Match)
      → e.search text pos endpos ≡ some m
      → IsWithin pos endpos m
  pub fullmatch_exact :
      (text : Text) (pos endpos : ℕ) (m : Match)
      → pos ≤ endpos
      → endpos ≤ length text
      → e.fullmatch text pos endpos ≡ some m
      → (m.start ≡ pos) × (m.stop ≡ endpos) × (pos < endpos)
  pub match_at_within :
      (text : Text) (pos : ℕ) (m : Match)
      → e.match_at text pos ≡ some m
      → (m.start ≡ pos) × (pos < m.stop) × (m.stop ≤ length text)

abbrev pub HasLawfulRescue : Option Engine → Type 0
HasLawfulRescue none = Unit
HasLawfulRescue (some e) = IsLawful e

pub record IsSound (c : Config) : Type 0 where
  pub combined_lawful : IsLawful c.combined
  pub rescue_lawful : HasLawfulRescue c.rescue
  pub found_within :
      (text : Text) (pos : ℕ) → All (IsWithin pos (length text)) (c.find_keyword_ssn text pos)
